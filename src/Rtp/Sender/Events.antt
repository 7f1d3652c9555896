-- ===== src/Rtp/Sender/Events.antt =====
-- The life of a `CRTPSender`: set-up, the poll thread and the events that reach the listener.
use jrtplib4android.Prelude.{◌≡◌, ◌↔◌, true, false, some, ◌∷◌, ◌&&◌, if◌then◌else◌, arith}
use jrtplib4android.Prelude.Int.{is_negative}
use jrtplib4android.Rtp.Common.{change_ip}
use jrtplib4android.Rtp.Session.{
  Address, Answer, SourceData, source_address, callback_rtcp, receive_rtcp_data, receive_bye,
  set_use_poll_thread, create, add_destination,
}
use jrtplib4android.Rtp.Sender.State.{Sender, tell}
use jrtplib4android.Rtp.Sender.{
  Setup, session_params, init_param, on_poll_thread_start, on_poll_thread_stop, fini,
  on_rtcp_compound_packet, on_bye_packet,
}

-- What can happen to a sender.
pub data Event : Type 0 where
  setup : Setup → Event
  thread_starts thread_stops finish : Event
  rtcp_packet : Address → Event
  bye_packet : SourceData → Event

unfoldable pub handle : Answer → Event → Sender → Sender
handle answer (setup a) s = (init_param answer a s).1
handle answer thread_starts s = on_poll_thread_start answer s
handle answer thread_stops s = on_poll_thread_stop s
handle answer finish s = (fini s).1
handle answer (rtcp_packet a) s = on_rtcp_compound_packet a s
handle answer (bye_packet d) s = on_bye_packet d s

-- A step of one event, and the states that events lead to.
pub data Reaches (answer : Answer) (s : Sender) : Sender → Type 0 where
  here : Reaches answer s s
  next : {t : Sender} (e : Event) → Reaches answer s t → Reaches answer s (handle answer e t)

-- An attached thread has an environment.
abbrev pub IsAttached : Sender → Type 0
IsAttached s = s.is_attach ≡ true → s.has_env ≡ true

handle-IsAttached :
    (answer : Answer) (e : Event) (s : Sender) → IsAttached s → IsAttached (handle answer e s)
unfolding handle init_param on_poll_thread_start on_poll_thread_stop fini on_rtcp_compound_packet
    on_bye_packet
handle-IsAttached answer (setup a) s h = ground arith
handle-IsAttached answer thread_starts s h = ground arith
handle-IsAttached answer thread_stops s h = ground arith
handle-IsAttached answer finish s h = ground arith
handle-IsAttached answer (rtcp_packet a) s h = ground arith
handle-IsAttached answer (bye_packet d) s h = ground arith

-- Whatever happens to a sender, the thread that is marked as attached has its environment: no event
-- leaves `s_isAttach` set with `s_env` NULL.
pub Reaches-IsAttached :
    {answer : Answer} {s t : Sender} → Reaches answer s t → IsAttached s → IsAttached t
Reaches-IsAttached here h = h
Reaches-IsAttached {answer} (next {t} e r) h = handle-IsAttached answer e t (Reaches-IsAttached r h)

-- On an initialised sender `initParam` makes no call and reports failure; otherwise it succeeds
-- exactly if the poll thread, the session and the destination are accepted, and success leaves the
-- sender initialised with the destination set.
pub init_param_lem :
    (answer : Answer) (a : Setup) (s : Sender)
    → let polled = set_use_poll_thread true ∷ s.calls in
      let created = create (session_params a) ∷ polled in
      let added = add_destination (record { ip = a.dest_ip; port = a.dst_port }) ∷ created in
      let r = init_param answer a s in
      (s.init ≡ true → r ≡ (false, s))
      × ((r.0 ≡ true) ↔ (
          (s.init ≡ false)
          × (is_negative (answer polled) ≡ false)
          × (is_negative (answer created) ≡ false)
          × (is_negative (answer added) ≡ false)))
      × (r.0 ≡ true
          → (r.1.init ≡ true) × (r.1.remote_ip ≡ a.dest_ip) × (r.1.remote_port ≡ a.dst_port))
      × (r.0 ≡ false → r.1.init ≡ s.init)
unfolding init_param
init_param_lem answer a s = ground arith

-- The listener hears of an RTCP packet or a BYE exactly while the sender is initialised and its
-- thread attached with an environment, by one call with the dotted address; nothing else changes.
listener_lem :
    (d : SourceData) (a : Address) (s : Sender)
    → source_address d ≡ some a
    → let open_now = s.init && (s.is_attach && s.has_env) in
      (on_rtcp_compound_packet a s
        ≡ (if open_now then tell (receive_rtcp_data (change_ip a.ip)) s else s))
      × (on_bye_packet d s ≡ (if open_now then tell (receive_bye (change_ip a.ip)) s else s))
unfolding on_rtcp_compound_packet on_bye_packet callback_rtcp
listener_lem d a s e = ground arith
