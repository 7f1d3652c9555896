-- ===== src/Rtmp/Util/State.antt =====
-- The fields of `RtmpUtils` (RtmpUtil.h), the packet it fills, and the calls it makes of librtmp.
use jrtplib4android.Prelude.{ℕ, Bool, Option, List, ◌∷◌, ◌≡◌, length}

-- The fields of `RTMPPacket` that the code sets; `body` is the memory behind `m_body`, all of it.
pub record Packet : Type 0 where
  pub has_abs_timestamp : ℕ
  pub channel : ℕ
  pub info_field2 : ℕ
  pub header_type : ℕ
  pub time_stamp : ℕ
  pub packet_type : ℕ
  pub body_size : ℕ
  pub body : List ℕ

pub data Call : Type 0 where
  alloc : Call
  setup_url : List ℕ → Call
  enable_write : Call
  connect : Call
  connect_stream : Call
  is_connected : Call
  send_packet : Packet → Call
  close : Call
  free : Call
  packet_free : Call
  usleep : ℕ → Call

-- librtmp: whether a call succeeds and what time it is, each from the calls made so far, the newest
-- first; the number of the stream; what `RTMPPacket_Reset` makes of a packet, and the packet that
-- `RTMPPacket_Alloc` gives for a size.
pub record Library : Type 0 where
  pub answer : List Call → Bool
  pub clock : List Call → ℕ
  pub stream_id : ℕ
  pub reset : Packet → Packet
  pub allocated : ℕ → Packet

-- What the code relies on: a packet has the room that was asked for, and a reset keeps it.
pub record IsLibrary (library : Library) : Type 0 where
  pub reset-body : (p : Packet) → (library.reset p).body ≡ p.body
  pub allocated-room : (n : ℕ) → length (library.allocated n).body ≡ n

-- `rtmp` says that the pointer is not NULL; `packet` is what `packet` points to.
pub record RtmpUtils : Type 0 where
  pub is_init : Bool
  pub rtmp : Bool
  pub packet : Option Packet
  pub count : ℕ
  pub timestamp : ℕ
  pub calls : List Call

abbrev pub tell : Call → RtmpUtils → RtmpUtils
tell c u = record u { calls = c ∷ u.calls }

-- A packet after `RTMPPacket_Alloc` and `RTMPPacket_Reset`.
abbrev pub empty_packet : Library → ℕ → Packet
empty_packet library n = library.reset (library.allocated n)

-- The fields that are set once.
abbrev pub prepare : ℕ → Packet → Packet
prepare stream_id p = record p { has_abs_timestamp = 0; channel = 0x04; info_field2 = stream_id }
