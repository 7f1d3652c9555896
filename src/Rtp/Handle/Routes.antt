-- ===== src/Rtp/Handle/Routes.antt =====
-- A handle that Java is given stands for ends that are set up, and no text of Java is kept for it.
use jrtplib4android.Prelude.{ℕ, List, ◌≡◌, Bool, true, false, none, some, arith}
use jrtplib4android.Jni.{HostCall, GivesBack}
use jrtplib4android.Rtp.Session.{Answer}
use jrtplib4android.Rtp.Sender.State.{Sender}
use jrtplib4android.Rtp.Receiver.State.{Receiver}
use jrtplib4android.Rtp.Sender.{Setup, init_param}
use jrtplib4android.Rtp.Receiver.{Setup as ReceiverSetup, init as init_receiver}
use jrtplib4android.Rtp.Handle.{
  RtpHandle, init_send_handle, init_receive_handle, init_receive_and_send_handle,
}

abbrev pub sender_is_init : RtpHandle → Bool
sender_is_init h = elim h.sender [ none ↦ false | some s ↦ s.init ]

abbrev pub receiver_is_init : RtpHandle → Bool
receiver_is_init h = elim h.receiver [ none ↦ false | some r ↦ r.init ]

-- A handle from `initSendHandle_` has an initialised sender, one from `initReceiveHandle_` an
-- initialised receiver, and one from `initReceiveAndSendHandle_` has both; nothing else is in it. With
-- a handle or without, the texts of the addresses are given back.
pub handle_lem :
    (answer : Answer) (a : Setup) (b : ReceiverSetup) (s : Sender) (r : Receiver)
    (desthost localhost : ℕ) (calls : List HostCall)
    → let (sending, one) = init_send_handle answer a s desthost calls in
      let (receiving, two) = init_receive_handle answer b r localhost calls in
      let (both, three) = init_receive_and_send_handle answer a b s r localhost desthost calls in
      ((h : RtpHandle) → sending ≡ some h → (sender_is_init h ≡ true) × (h.receiver ≡ none))
      × ((h : RtpHandle) → receiving ≡ some h → (receiver_is_init h ≡ true) × (h.sender ≡ none))
      × ((h : RtpHandle) → both ≡ some h → (sender_is_init h ≡ true) × (receiver_is_init h ≡ true))
      × GivesBack calls one
      × GivesBack calls two
      × GivesBack calls three
unfolding init_send_handle init_receive_handle init_receive_and_send_handle init_param init_receiver
handle_lem answer a b s r desthost localhost calls = ground arith
