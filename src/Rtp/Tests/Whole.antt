-- ===== src/Rtp/Tests/Whole.antt =====
-- Two frames on their way from one end to the other.
use jrtplib4android.Prelude.{ℕ, refl, true, false, List, [], ◌∷◌, replicate}
use jrtplib4android.Prelude.Int.{pos}
use jrtplib4android.Rtp.Session.{Answer}
use jrtplib4android.Rtp.Sender.State.{Sender}
use jrtplib4android.Rtp.Sender.{Setup}
use jrtplib4android.Rtp.Receiver.State.{Receiver, PsBuffer}
use jrtplib4android.Rtp.Receiver.{Setup as ReceiverSetup}
use jrtplib4android.Rtp.Receiver.PStream.Code.{Section, video, encode}
use jrtplib4android.Rtp.Receiver.PStream.Header.{pack_header}
use jrtplib4android.Rtp.Network.{Network}
use jrtplib4android.Rtp.Network.Frames.{CutFrame}

-- Sessions that accept every call, and a network with headers of zeros, whose numbers wrap at once.
abbrev willing : Answer
willing calls = pos 0

abbrev network : Network
network = record { first = 65535; head = λ n. replicate 12 0; head_size = λ n. refl }

abbrev new_sender : Sender
new_sender = record {
  has_env = false;
  init = false;
  remote_ip = 0;
  remote_port = 0;
  count = 0;
  frame_rate = 25;
  has_listener = false;
  is_attach = false;
  calls = [];
}

abbrev new_receiver : Receiver
new_receiver = record {
  has_env = false;
  init = false;
  has_listener = false;
  last_seq = 0;
  first_seq = true;
  count = 0;
  is_attach = false;
  calls = [];
}

abbrev far : Setup
far = record { dest_ip = 0xC0A80102; port_base = 5000; dst_port = 6000; frame_rate = 25 }

abbrev near : ReceiverSetup
near = record { local_ip = 0xC0A80102; port_base = 6000 }

-- The buffer at its size, with nothing in it yet.
zeros : List ℕ
zeros = replicate 4194304 0

abbrev empty : PsBuffer
empty = record { ps_buf = zeros; ps_len = 0 }

-- A frame of one unit, with the pack header in a payload of its own.
abbrev pack_head : List ℕ
pack_head = 0 ∷ 0 ∷ 1 ∷ 0xBA ∷ replicate 9 0

abbrev one_video : List Section
one_video = video 0 0 [] (0x65 ∷ 0x66 ∷ []) ∷ []

abbrev one : CutFrame
one = record {
  first = record { ref = 1; payload = pack_header pack_head 31 []; marker = false };
  others = record { ref = 2; payload = encode one_video; marker = true } ∷ [];
  head = pack_head;
  flags = 31;
  stuffing = [];
  units = one_video;
}
