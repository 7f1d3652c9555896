-- ===== src/Rtp/Sender.antt =====
-- jrtp/src/main/jni/RtpSender.cpp: the object `CRTPSender`, its set-up and its event handlers. Its
-- fields are in the child `State`, the sending of data in `Packet` and `Send`.
pub mod State
pub mod Packet
pub mod Buffer
pub mod Send
pub mod Reader
pub mod Header
pub mod Reassemble
pub mod Nalu
pub mod Faults
pub mod Events
use jrtplib4android.Prelude.{ℕ, Bool, true, false, none, some, ltb, ◌&&◌, if◌then◌else◌}
use jrtplib4android.Prelude.Int.{is_negative}
use jrtplib4android.Rtp.Session.{
  Address, Params, Answer, SourceData, source_address, rtcp, bye, callback_rtcp,
  set_use_poll_thread, create, add_destination, set_default_payload_type, set_default_mark,
  set_timestamp_rate, set_default_timestamp_increment, bye_destroy, attach_current_thread,
  detach_current_thread,
}
use State.{Sender, tell, status, timestamp_step, h264, ssrc}

-- `SetParamsForSendingH264`
unfoldable pub set_params_for_sending_h264 : Sender → Sender
set_params_for_sending_h264 s = tell (set_default_timestamp_increment (timestamp_step s)) (
    tell (set_timestamp_rate 90000)
      (tell (set_default_mark true) (tell (set_default_payload_type h264) s)))

-- What `initParam` is given: the addresses are those of `inet_addr`, in host order.
pub record Setup : Type 0 where
  pub dest_ip : ℕ
  pub port_base : ℕ
  pub dst_port : ℕ
  pub frame_rate : ℕ

abbrev pub session_params : Setup → Params
session_params a = record {
  ssrc = ssrc;
  timestamp_rate = 90000;
  accept_own_packets = false;
  bind_ip = none;
  port_base = a.port_base;
}

-- The fields that `initParam` sets before it touches the session.
unfoldable pub bind_listener : Setup → Sender → Sender
bind_listener a s = record s {
  has_listener = true;
  frame_rate = if ltb 0 a.frame_rate then a.frame_rate else s.frame_rate;
  has_env = true;
}

unfoldable pub set_destination : Setup → Sender → Sender
set_destination a s = record s { remote_ip = a.dest_ip; remote_port = a.dst_port }

module _ (answer : Answer) where
  -- `initParam`: true when the session is created and the destination added.
  unfoldable pub init_param : Setup → Sender → Bool × Sender
  unfolding bind_listener set_destination set_params_for_sending_h264
  init_param a s =
      if s.init
      then (false, s)
      else let polled = tell (set_use_poll_thread true) (bind_listener a s) in
        let created = tell (create (session_params a)) polled in
        let dest : Address = record { ip = a.dest_ip; port = a.dst_port } in
        let added = tell (add_destination dest) (set_destination a created) in
        if is_negative (status answer polled)
        then (false, polled)
        else if is_negative (status answer created)
        then (false, created)
        else if is_negative (status answer added)
        then (false, added)
        else (true, set_params_for_sending_h264 (record added { init = true }))

  -- `OnPollThreadStart`
  unfoldable pub on_poll_thread_start : Sender → Sender
  on_poll_thread_start s =
      let asked = tell attach_current_thread s in
      if is_negative (status answer asked)
      then record asked { is_attach = false; has_env = false }
      else record asked { is_attach = true; has_env = true }

-- `OnPollThreadStop`
unfoldable pub on_poll_thread_stop : Sender → Sender
on_poll_thread_stop s =
    if s.has_env
    then tell detach_current_thread (record s { is_attach = false; has_env = false })
    else record s { is_attach = false }

-- `fini`: three seconds for the BYE packet.
unfoldable pub fini : Sender → Bool × Sender
fini s = (true, tell (bye_destroy 3) (record s { init = false }))

-- `OnRTCPCompoundPacket`, at the address of its sender.
unfoldable pub on_rtcp_compound_packet : Address → Sender → Sender
on_rtcp_compound_packet a s =
    if s.init && s.is_attach
    then record s { calls = callback_rtcp s.has_env rtcp a.ip s.calls }
    else s

-- `OnBYEPacket`
unfoldable pub on_bye_packet : SourceData → Sender → Sender
on_bye_packet d s = elim (source_address d) [
  | none ↦ s
  | some a ↦
      if s.init && s.is_attach
      then record s { calls = callback_rtcp s.has_env bye a.ip s.calls }
      else s
]
