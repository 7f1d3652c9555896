-- ===== src/Rtp/Tests/Receiving.antt =====
-- The theorems on the receiver and the handles, at concrete inputs.
use jrtplib4android.Prelude.{
  ℕ, ◌≡◌, refl, true, false, none, some, List, [], ◌∷◌, ◌++◌, arith, length, take, replicate,
  length-replicate, ◌-◌,
}
use jrtplib4android.Prelude.Bytes.{begins_with}
use jrtplib4android.Prelude.Int.{pos}
use jrtplib4android.Rtp.Session.{Address, Answer, SourceData}
use jrtplib4android.Rtp.Receiver.State.{Receiver, PsBuffer}
use jrtplib4android.Rtp.Receiver.PStream.{frame, fault, get_h264_from_ps}
use jrtplib4android.Rtp.Receiver.PStream.Code.{Section, system, stream_map, video, encode, videos}
use jrtplib4android.Rtp.Receiver.PStream.Header.{pack_header}
use jrtplib4android.Rtp.Receiver.PStream.Videos.{get_h264-encode}
use jrtplib4android.Rtp.Receiver.PStream.Bounds.{Ends, get_h264_from_ps-Ends}
use jrtplib4android.Rtp.Receiver.PStream.Crash.{cut_video, get_h264-short_pes, get_h264-stale}
use jrtplib4android.Rtp.Receiver.Assemble.{on_poll_thread_step}
use jrtplib4android.Rtp.Receiver.Assemble.Frames.{Holds}
use jrtplib4android.Rtp.Receiver.Assemble.Packets.{Carried}
use jrtplib4android.Rtp.Receiver.Assemble.Stream.{PsFrame, IsPsFrame, flow, heard, receive-frames}
use jrtplib4android.Rtp.Receiver.{Setup}
use jrtplib4android.Rtp.Receiver.Events.{
  here, next, thread_starts, setup, handle, IsAttached, reached-IsAttached,
}
use jrtplib4android.Rtp.Sender.State.{Sender}
use jrtplib4android.Rtp.Sender.{Setup as SenderSetup}
use jrtplib4android.Rtp.Handle.{
  RtpHandle, init_send_handle, init_receive_handle, init_receive_and_send_handle,
}
use jrtplib4android.Jni.{GivesBack}
use jrtplib4android.Rtp.Handle.Routes.{sender_is_init, receiver_is_init, handle_lem}

-- A session that accepts every call.
abbrev willing : Answer
willing calls = pos 0

abbrev fresh : Receiver
fresh = record {
  has_env = false;
  init = false;
  has_listener = false;
  last_seq = 0;
  first_seq = true;
  count = 0;
  is_attach = false;
  calls = [];
}

abbrev ready : Receiver
ready = record fresh { has_env = true; init = true; is_attach = true }

-- The first 13 bytes of a pack header.
abbrev head : List ℕ
head = 0 ∷ 0 ∷ 1 ∷ 0xBA ∷ 1 ∷ 2 ∷ 3 ∷ 4 ∷ 5 ∷ 6 ∷ 7 ∷ 8 ∷ 9 ∷ []

abbrev units : List Section
units = system (1 ∷ 2 ∷ []) ∷ stream_map (3 ∷ []) ∷ video 0 0 (9 ∷ []) (0x65 ∷ 0x66 ∷ []) ∷ []

get_h264-encode_example :
    let stream = pack_header head 31 (0xFF ∷ []) ++ encode units in
    get_h264_from_ps (stream ++ (7 ∷ 7 ∷ [])) (length stream) ≡ frame (videos units)
get_h264-encode_example =
    get_h264-encode head 31 (0xFF ∷ []) units (7 ∷ 7 ∷ []) refl (omega arith) (omega arith)

get_h264_from_ps-Ends_example : Ends (get_h264_from_ps (replicate 40 1) 30)
get_h264_from_ps-Ends_example = get_h264_from_ps-Ends (replicate 40 1) 30

get_h264-short_pes_example :
    let stream = pack_header head 31 [] ++ (0 ∷ 0 ∷ 1 ∷ 0xE0 ∷ 0 ∷ 2 ∷ 0 ∷ 0 ∷ 0 ∷ (7 ∷ [])) in
    get_h264_from_ps (stream ++ []) (length stream) ≡ fault
get_h264-short_pes_example =
    get_h264-short_pes head 31 [] 0 2 0 0 0 (7 ∷ []) [] refl (omega arith) (omega arith)

get_h264-stale_example :
    let stream = pack_header head 31 [] ++ cut_video 0 8 0 0 (7 ∷ []) in
    get_h264_from_ps (stream ++ (1 ∷ 2 ∷ 3 ∷ 4 ∷ [])) (length stream)
    ≡ frame ((7 ∷ []) ++ take (5 - 1) (1 ∷ 2 ∷ 3 ∷ 4 ∷ []))
get_h264-stale_example =
    get_h264-stale head 31 [] 0 8 0 0 5 (7 ∷ []) (1 ∷ 2 ∷ 3 ∷ 4 ∷ []) refl (omega arith) refl
      (omega arith) (omega arith) (omega arith)

-- A frame in two packets, and the packet that ends it.
abbrev rtp_head : List ℕ
rtp_head = replicate 12 0

abbrev one_video : List Section
one_video = video 0 0 [] (0x65 ∷ 0x66 ∷ []) ∷ []

abbrev first_part : Carried
first_part = record { seq = 1; marker = false; head = rtp_head; payload = pack_header head 31 [] }

abbrev second_part : Carried
second_part = record { seq = 2; marker = true; head = rtp_head; payload = encode one_video }

abbrev ps_frame : PsFrame
ps_frame = record {
  first = first_part;
  others = second_part ∷ [];
  head = head;
  flags = 31;
  stuffing = [];
  units = one_video;
}

-- The buffer at its size, with nothing in it yet.
zeros : List ℕ
zeros = replicate 4194304 0

length-zeros : length zeros ≡ 4194304
unfolding zeros
length-zeros = length-replicate {A = ℕ} 4194304 0

abbrev empty : PsBuffer
empty = record { ps_buf = zeros; ps_len = 0 }

empty-Holds : Holds [] empty
empty-Holds = record { stale = zeros; shape = refl; len = refl; size = length-zeros }

is_frame : IsPsFrame ps_frame
unfolding begins_with
is_frame = (
  (refl, omega arith, omega arith),
  refl,
  ((refl, omega arith, omega arith), refl, tt),
  refl,
  refl,
  omega arith,
  omega arith,
  omega arith,
)

receive-frames_example :
    (t : Receiver) × (u : PsBuffer) × (on_poll_thread_step
        (flow (ps_frame ∷ ps_frame ∷ []))
        ready
        empty
      ≡ some (t, u))
    × (t.calls ≡ heard ps_frame (ps_frame ∷ []) ++ ready.calls)
receive-frames_example =
    receive-frames ps_frame (ps_frame ∷ []) ready empty empty-Holds is_frame
      (omega arith, omega arith, is_frame, omega arith) refl

abbrev place : Setup
place = record { local_ip = 0xC0A80101; port_base = 5000 }

receiver-IsAttached_example :
    IsAttached (handle willing thread_starts (handle willing (setup place) fresh))
receiver-IsAttached_example =
    reached-IsAttached {answer = willing} {r = fresh} (next thread_starts (next (setup place) here))
      (ground arith)

abbrev source : SourceData
source = record { rtp_address = none; rtcp_address = some (record { ip = 7; port = 6001 }) }

abbrev source_end : Address
source_end = record { ip = 7; port = 6000 }

abbrev fresh_sender : Sender
fresh_sender = record {
  has_env = false;
  init = false;
  remote_ip = 0;
  remote_port = 0;
  count = 0;
  frame_rate = 25;
  has_listener = false;
  is_attach = false;
  calls = [];
}

abbrev target : SenderSetup
target = record { dest_ip = 0xC0A80101; port_base = 5000; dst_port = 6000; frame_rate = 25 }

handle_example :
    let (sending, one) = init_send_handle willing target fresh_sender 3 [] in
    let (receiving, two) = init_receive_handle willing place fresh 4 [] in
    let (both, three) =
      init_receive_and_send_handle willing target place fresh_sender fresh 4 3 [] in
    ((h : RtpHandle) → sending ≡ some h → (sender_is_init h ≡ true) × (h.receiver ≡ none))
    × ((h : RtpHandle) → receiving ≡ some h → (receiver_is_init h ≡ true) × (h.sender ≡ none))
    × ((h : RtpHandle) → both ≡ some h → (sender_is_init h ≡ true) × (receiver_is_init h ≡ true))
    × GivesBack [] one
    × GivesBack [] two
    × GivesBack [] three
handle_example = handle_lem willing target place fresh_sender fresh 3 4 []
