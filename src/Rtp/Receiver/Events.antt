-- ===== src/Rtp/Receiver/Events.antt =====
-- The life of a `CRTPReceiver`: set-up, the poll thread, the sources and the listener.
use jrtplib4android.Prelude.{◌≡◌, ◌↔◌, true, false, ◌∷◌, arith}
use jrtplib4android.Prelude.Int.{is_negative}
use jrtplib4android.Rtp.Session.{Address, Answer, SourceData, set_use_poll_thread, create}
use jrtplib4android.Rtp.Receiver.State.{Receiver}
use jrtplib4android.Rtp.Receiver.{
  Setup, session_params, init, on_poll_thread_start, on_poll_thread_stop, fini,
  on_rtcp_compound_packet, process_source_data, on_new_source, on_remove_source, on_bye_packet,
}

-- What can happen to a receiver besides the packets of data.
pub data Event : Type 0 where
  setup : Setup → Event
  thread_starts thread_stops finish : Event
  rtcp_packet : Address → Event
  new_source removed_source bye_packet : SourceData → Event

unfoldable pub handle : Answer → Event → Receiver → Receiver
handle answer (setup a) r = (init answer a r).1
handle answer thread_starts r = on_poll_thread_start answer r
handle answer thread_stops r = on_poll_thread_stop r
handle answer finish r = (fini r).1
handle answer (rtcp_packet a) r = on_rtcp_compound_packet a r
handle answer (new_source d) r = on_new_source d r
handle answer (removed_source d) r = on_remove_source d r
handle answer (bye_packet d) r = on_bye_packet d r

-- A step of one event, and the states that events lead to.
pub data Reaches (answer : Answer) (r : Receiver) : Receiver → Type 0 where
  here : Reaches answer r r
  next : {t : Receiver} (e : Event) → Reaches answer r t → Reaches answer r (handle answer e t)

-- An attached thread has an environment.
abbrev pub IsAttached : Receiver → Type 0
IsAttached r = r.is_attach ≡ true → r.has_env ≡ true

handle-IsAttached :
    (answer : Answer) (e : Event) (r : Receiver) → IsAttached r → IsAttached (handle answer e r)
unfolding handle init on_poll_thread_start on_poll_thread_stop fini on_rtcp_compound_packet
    process_source_data on_new_source on_remove_source on_bye_packet
handle-IsAttached answer (setup a) r h = ground arith
handle-IsAttached answer thread_starts r h = ground arith
handle-IsAttached answer thread_stops r h = ground arith
handle-IsAttached answer finish r h = ground arith
handle-IsAttached answer (rtcp_packet a) r h = ground arith
handle-IsAttached answer (new_source d) r h = ground arith
handle-IsAttached answer (removed_source d) r h = ground arith
handle-IsAttached answer (bye_packet d) r h = ground arith

-- Whatever happens to a receiver, the thread that is marked as attached has its environment: no
-- event leaves `isAttach` set with `r_env` NULL.
pub reached-IsAttached :
    {answer : Answer} {r t : Receiver} → Reaches answer r t → IsAttached r → IsAttached t
reached-IsAttached here h = h
reached-IsAttached {answer} (next {t} e s) h = handle-IsAttached answer e t (reached-IsAttached s h)

-- On an initialised receiver `init` makes no call and reports failure; otherwise it succeeds exactly
-- if the poll thread and the session are accepted, and then the receiver is initialised; a failure
-- leaves `m_init` as it was.
init_lem :
    (answer : Answer) (a : Setup) (r : Receiver)
    → let polled = set_use_poll_thread true ∷ r.calls in
      let created = create (session_params a) ∷ polled in
      let result = init answer a r in
      (r.init ≡ true → result ≡ (false, r))
      × ((result.0 ≡ true) ↔ (
          (r.init ≡ false)
          × (is_negative (answer polled) ≡ false)
          × (is_negative (answer created) ≡ false)))
      × (result.0 ≡ true → result.1.init ≡ true)
      × (result.0 ≡ false → result.1.init ≡ r.init)
unfolding init
init_lem answer a r = ground arith
