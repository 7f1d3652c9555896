-- ===== src/Rtp/Handle/Delivery.antt =====
-- The life of a sending handle: set-up, long NAL units one after the other, and the end.
use jrtplib4android.Prelude.{
  ℕ, suc, ◌+◌, ◌%◌, ◌==◌, if◌then◌else◌, ◌<◌, ◌≡◌, Bool, refl, sym, ap, ◌∙◌, true, false, Option,
  none, some, List, [], ◌∷◌, ◌++◌, length, append_assoc, append-nil, subst,
}
use jrtplib4android.Prelude.Int.{pos}
use jrtplib4android.Prelude.Bytes.{◌>>=◌}
use jrtplib4android.Jni.{HostCall, Object, get, release, byte_elements}
use jrtplib4android.Rtp.Session.{Answer, Call, set_use_poll_thread, create, add_destination}
use jrtplib4android.Rtp.Sender.State.{Sender}
use jrtplib4android.Rtp.Sender.Reader.{Packet, packets, join}
use jrtplib4android.Rtp.Sender.Reassemble.{Accepts}
use jrtplib4android.Rtp.Sender.Nalu.{StartCode, code_bytes, send_h264_nalu-join}
use jrtplib4android.Rtp.Sender.{
  Setup, session_params, init_param, fini, bind_listener, set_destination,
  set_params_for_sending_h264,
}
use jrtplib4android.Rtp.Handle.{RtpHandle, init_send_handle, send_byte, fini_handle, read_text}

-- A NAL unit behind a start code, as Java passes it.
pub record Nalu : Type 0 where
  pub ref : ℕ
  pub code : StartCode
  pub first : ℕ
  pub rest : List ℕ

abbrev pub bytes : Nalu → List ℕ
bytes n = code_bytes n.code ++ (n.first ∷ n.rest)

abbrev pub array : Nalu → Object
array n = record { ref = n.ref; elements = bytes n }

-- Units that are cut into fragments: longer than 1100 bytes, and no multiple of 1100.
pub data AreLong : List Nalu → Type 0 where
  none_left : AreLong []
  one_more :
      {n : Nalu} {ns : List Nalu}
      → n.first < 128
      → 1100 < suc (length n.rest)
      → 0 < suc (length n.rest) % 1100
      → AreLong ns
      → AreLong (n ∷ ns)

-- Packets that carry units, one group behind the other.
pub data Carries : List Nalu → List Packet → Type 0 where
  nothing : Carries [] []
  unit_next :
      {n : Nalu} {ns : List Nalu} (ps : List Packet) {qs : List Packet}
      → join ps ≡ some (n.first ∷ n.rest)
      → Carries ns qs
      → Carries (n ∷ ns) (ps ++ qs)

abbrev pub sending : Sender → RtpHandle
sending s = record { sender = some s; receiver = none }

-- `sendByte_` for unit after unit.
abbrev pub send_all :
    Answer
    → (List Call → Bool)
    → List Nalu
    → RtpHandle
    → ℕ
    → List HostCall
    → Option (RtpHandle × ℕ × List HostCall)
send_all answer found [] h count calls = some (h, count, calls)
send_all answer found (n ∷ ns) h count calls =
    send_byte answer found (some h) (array n) (pos (length (bytes n))) false false count calls
    >>= λ r.
        let (sent, kept, k, after) = r in
        elim kept [ none ↦ none | some next ↦ send_all answer found ns next k after ]

module _ (answer : Answer) (found : List Call → Bool) (ok : Accepts answer) where
  all_sent :
      (ns : List Nalu) (s : Sender) (count : ℕ) (calls : List HostCall)
      → AreLong ns
      → (after : Sender) × (k : ℕ) × (later : List HostCall) × (qs : List Packet) × (send_all answer
            found ns
            (sending s)
            count
            calls
          ≡ some (sending after, k, later))
        × (packets after.calls ≡ packets s.calls ++ qs)
        × Carries ns qs
  unfolding send_byte
  all_sent [] s count calls are =
      (s, count, calls, [], refl, sym (append-nil (packets s.calls)), nothing)
  all_sent (n ∷ ns) s count calls (one_more small long odd are) =
      let (ps, mid, ran, added, joined, time) =
        send_h264_nalu-join answer n.code n.first n.rest s ok small long odd in
      let taken : List HostCall = get (byte_elements n.ref) ∷ calls in
      let (after, k, later, qs, rest, more, carried) =
        all_sent ns mid ((if count % 100 == 0 then 0 else count) + 1)
          (if found mid.calls then release (byte_elements n.ref) ∷ taken else taken) are in
      (
        after,
        k,
        later,
        ps ++ qs,
        rw ran rest,
        more ∙ (ap (λ t. t ++ qs) added ∙ append_assoc (packets s.calls) ps qs),
        unit_next ps joined carried,
      )

-- With a session that accepts every call, a handle is made for a sender that was not set up and has
-- sent nothing; through it any sequence of long NAL units, each behind a start code, longer than 1100
-- bytes, of a length that is no multiple of 1100 and with the F bit clear, is sent without a fault;
-- the packets are groups, in order, of which each carries exactly its unit; and when the handle is
-- finished the sender is no longer set up and has sent nothing more.
pub units-Carries :
    (answer : Answer) (found : List Call → Bool) (a : Setup) (fresh : Sender) (ns : List Nalu)
    (count desthost : ℕ) (calls : List HostCall)
    → Accepts answer
    → fresh.init ≡ false
    → packets fresh.calls ≡ []
    → AreLong ns
    → (h : RtpHandle) × (after ended : Sender) × (k : ℕ) × (begun later : List HostCall)
      × (init_send_handle answer a fresh desthost calls ≡ (some h, begun))
      × (send_all answer found ns h count begun ≡ some (sending after, k, later))
      × Carries ns (packets after.calls)
      × (fini_handle (some (sending after)) ≡ (true, some (sending ended)))
      × (ended.init ≡ false)
      × (packets ended.calls ≡ packets after.calls)
unfolding init_send_handle init_param fini_handle fini packets bind_listener set_destination
    set_params_for_sending_h264
units-Carries answer found a fresh ns count desthost calls ok not_set_up nothing_sent are =
    let s : Sender = (init_param answer a fresh).1 in
    let polled : List Call = set_use_poll_thread true ∷ fresh.calls in
    let created : List Call = create (session_params a) ∷ polled in
    let added_dest : List Call =
      add_destination (record { ip = a.dest_ip; port = a.dst_port }) ∷ created in
    let made : (init_param answer a fresh).0 ≡ true =
      rw (not_set_up, ok polled, ok created, ok added_dest) refl in
    let quiet : packets s.calls ≡ [] =
      rw (not_set_up, ok polled, ok created, ok added_dest) nothing_sent in
    let begun : List HostCall = read_text desthost calls in
    let (after, k, later, qs, ran, added, carried) =
      all_sent answer found ok ns s count begun are in
    (
      sending s,
      after,
      (fini after).1,
      k,
      begun,
      later,
      rw made refl,
      ran,
      subst (λ ps. Carries ns ps) (sym (added ∙ ap (λ ps. ps ++ qs) quiet)) carried,
      refl,
      refl,
      refl,
    )
