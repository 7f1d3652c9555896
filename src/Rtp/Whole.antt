-- ===== src/Rtp/Whole.antt =====
-- The RTP library from end to end: a sending handle, the network, and a receiver with its listener.
use jrtplib4android.Rtp.Sender.State.{Sender}
use jrtplib4android.Rtp.Sender.{Setup, session_params}
use jrtplib4android.Rtp.Receiver.State.{Receiver}
use jrtplib4android.Rtp.Receiver.{
  Setup as ReceiverSetup, session_params as receiver_params, init as init_receiver,
}
use jrtplib4android.Rtp.Network.{Network}
