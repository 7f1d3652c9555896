-- ===== src/Rtp/Handle.antt =====
-- jrtp/src/main/jni/RtpHandle.cpp: the handle that Java holds, with a sender, a receiver or both. A
-- handle of 0 is `none`. What the Java virtual machine lends stands in the calls made so far; the text
-- of an address is in the set-ups, as the number that it stands for.
pub mod Routes
pub mod Loans
pub mod Delivery
use jrtplib4android.Prelude.{
  ℕ, ◌+◌, ◌%◌, Bool, true, false, Option, none, some, List, ◌∷◌, ◌==◌, if◌then◌else◌,
}
use jrtplib4android.Prelude.Int.{ℤ}
use jrtplib4android.Prelude.Bytes.{◌>>=◌}
use jrtplib4android.Jni.{HostCall, Object, get, release, utf_chars, byte_elements}
use jrtplib4android.Rtp.Session.{Answer, Call}
use jrtplib4android.Rtp.Sender.State.{Sender}
use jrtplib4android.Rtp.Sender.Send.{Return, returned, no_value, send_h264_nalu, send_rtp_data}
use jrtplib4android.Rtp.Receiver.State.{Receiver}
use jrtplib4android.Rtp.Sender
use jrtplib4android.Rtp.Receiver.{
  Setup as ReceiverSetup, init as init_receiver, fini as fini_receiver,
}

-- `RtpHandle`
pub record RtpHandle : Type 0 where
  pub sender : Option Sender
  pub receiver : Option Receiver

-- A string or an array that is lent, and at once given back.
abbrev pub read_text : ℕ → List HostCall → List HostCall
read_text text calls = release (utf_chars text) ∷ get (utf_chars text) ∷ calls

-- What `if (sendResult)` tests: of a call that ended without a value, whatever is found there.
abbrev pub truth : (List Call → Bool) → Return → Sender → Bool
truth found (returned b) s = b
truth found no_value s = found s.calls

module _ (answer : Answer) where
  -- `initSendHandle_`, with the sender that `new` gives and the reference of the address.
  unfoldable pub init_send_handle :
      Sender.Setup → Sender → (desthost : ℕ) → List HostCall → Option RtpHandle × List HostCall
  init_send_handle a fresh desthost calls =
      let made = Sender.init_param answer a fresh in
      (
        if made.0 then some (record { sender = some (made.1); receiver = none }) else none,
        read_text desthost calls,
      )

  -- `initReceiveHandle_`
  unfoldable pub init_receive_handle :
      ReceiverSetup → Receiver → (localhost : ℕ) → List HostCall → Option RtpHandle × List HostCall
  init_receive_handle a fresh localhost calls =
      let made = init_receiver answer a fresh in
      (
        if made.0 then some (record { sender = none; receiver = some (made.1) }) else none,
        read_text localhost calls,
      )

  -- `initReceiveAndSendHandle_`: the sender first.
  unfoldable pub init_receive_and_send_handle :
      Sender.Setup
      → ReceiverSetup
      → Sender
      → Receiver
      → (localhost desthost : ℕ) → List HostCall
      → Option RtpHandle × List HostCall
  init_receive_and_send_handle a b sender receiver localhost desthost calls =
      let sending = Sender.init_param answer a sender in
      let receiving = init_receiver answer b receiver in
      if sending.0
      then (
        if receiving.0
            then some (record { sender = some (sending.1); receiver = some (receiving.1) })
            else none,
        read_text localhost (read_text desthost calls),
      )
      else (none, read_text desthost calls)

  -- `sendByte_`, with the counter `m_Count`: what it returns, the handle, the counter and the calls of
  -- the virtual machine. The array is given back only if the sender reports that it has sent.
  unfoldable pub send_byte :
      (found : List Call → Bool)
      → Option RtpHandle
      → Object
      → ℤ
      → Bool
      → Bool
      → ℕ
      → List HostCall
      → Option (Bool × Option RtpHandle × ℕ × List HostCall)
  send_byte found none src len flag is_rtp_data count calls = some (false, none, count, calls)
  send_byte found (some h) src len flag is_rtp_data count calls = elim h.sender [
    | none ↦ some (false, some h, count, calls)
    | some s ↦
        let taken = get (byte_elements src.ref) ∷ calls in
        (if is_rtp_data
          then send_rtp_data answer src.elements len flag s
          else send_h264_nalu answer src.elements len flag s)
        >>= λ r. some (
          truth found r.0 r.1,
          some (record h { sender = some (r.1) }),
          (if count % 100 == 0 then 0 else count) + 1,
          (if truth found r.0 r.1 then release (byte_elements src.ref) ∷ taken else taken),
        )
  ]

-- `finiHandle_`: both ends say goodbye; what is left are the deleted objects.
unfoldable pub fini_handle : Option RtpHandle → Bool × Option RtpHandle
fini_handle none = (false, none)
fini_handle (some h) = (
  true,
  some (record {
    sender = elim h.sender [ none ↦ none | some s ↦ some ((Sender.fini s).1) ];
    receiver = elim h.receiver [ none ↦ none | some r ↦ some ((fini_receiver r).1) ];
  }),
)
