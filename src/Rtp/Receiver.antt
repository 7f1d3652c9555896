-- ===== src/Rtp/Receiver.antt =====
-- jrtp/src/main/jni/RtpReceiver.cpp: the object `CRTPReceiver`, its set-up and its event handlers.
-- Its fields are in `State`, the program stream in `PStream`, the putting together in `Assemble`.
pub mod PStream
pub mod State
pub mod Assemble
pub mod Events
pub mod Destinations
use jrtplib4android.Prelude.{ℕ, Bool, true, false, none, some, ◌&&◌, if◌then◌else◌}
use jrtplib4android.Prelude.Int.{is_negative}
use jrtplib4android.Rtp.Session.{
  Address, Params, Answer, SourceData, source_address, rtcp, bye, callback_rtcp,
  set_use_poll_thread, create, add_destination, delete_destination, set_default_timestamp_increment,
  bye_destroy, attach_current_thread, detach_current_thread,
}
use jrtplib4android.Rtp.Sender.State.{ssrc}
use State.{Receiver, tell, status}

-- What `init` is given: the address is that of `inet_addr`, in host order.
pub record Setup : Type 0 where
  pub local_ip : ℕ
  pub port_base : ℕ

-- The session parameters of `init`.
abbrev pub session_params : Setup → Params
session_params a = record {
  ssrc = ssrc;
  timestamp_rate = 9000;
  accept_own_packets = false;
  bind_ip = some a.local_ip;
  port_base = a.port_base;
}

module _ (answer : Answer) where
  -- `init`: true when the session is created.
  unfoldable pub init : Setup → Receiver → Bool × Receiver
  init a r =
      if r.init
      then (false, r)
      else let polled =
          tell (set_use_poll_thread true) (record r { has_listener = true; has_env = true }) in
        let created = tell (create (session_params a)) polled in
        if is_negative (status answer polled)
        then (false, polled)
        else if is_negative (status answer created)
        then (false, created)
        else (true, tell (set_default_timestamp_increment 3600) (record created { init = true }))

  -- `OnPollThreadStart`
  unfoldable pub on_poll_thread_start : Receiver → Receiver
  on_poll_thread_start r =
      let asked = tell attach_current_thread r in
      if is_negative (status answer asked)
      then record asked { is_attach = false; has_env = false }
      else record asked { is_attach = true; has_env = true }

-- `OnPollThreadStop`
unfoldable pub on_poll_thread_stop : Receiver → Receiver
on_poll_thread_stop r =
    if r.has_env
    then tell detach_current_thread (record r { is_attach = false; has_env = false })
    else record r { is_attach = false }

-- `fini`: three seconds for the BYE packet.
unfoldable pub fini : Receiver → Bool × Receiver
fini r = (true, tell (bye_destroy 3) (record r { init = false }))

-- `OnRTCPCompoundPacket`, at the address of its sender.
unfoldable pub on_rtcp_compound_packet : Address → Receiver → Receiver
on_rtcp_compound_packet a r =
    if r.init && r.is_attach
    then record r { calls = callback_rtcp r.has_env rtcp a.ip r.calls }
    else r

-- `processSourceData`: a source that is added is a destination from now on, one that leaves is none
-- any more, which the listener hears first.
unfoldable pub process_source_data : Bool → SourceData → Receiver → Receiver
process_source_data add d r = elim (source_address d) [
  | none ↦ r
  | some dest ↦
      if add
      then tell (add_destination dest) r
      else tell (delete_destination dest) (
          if r.init && r.is_attach
          then record r { calls = callback_rtcp r.has_env bye dest.ip r.calls }
          else r)
]

-- `OnNewSource`, `OnRemoveSource` and `OnBYEPacket`
unfoldable pub on_new_source : SourceData → Receiver → Receiver
on_new_source d r = process_source_data true d r

unfoldable pub on_remove_source : SourceData → Receiver → Receiver
on_remove_source d r = process_source_data false d r

unfoldable pub on_bye_packet : SourceData → Receiver → Receiver
on_bye_packet d r = process_source_data false d r
