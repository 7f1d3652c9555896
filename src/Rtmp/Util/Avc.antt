-- ===== src/Rtmp/Util/Avc.antt =====
-- What a player reads out of the packets that `PushSPSPPS` and `PushH264Data` send.
pub mod Sets
use jrtplib4android.Prelude.{
  ℕ, ◌+◌, ◌*◌, ◌/◌, ◌%◌, ◌^◌, ◌≤◌, ◌<◌, ◌≡◌, refl, ap, ◌∙◌, Bool, true, false, Option, none, some,
  List, [], ◌∷◌, ◌++◌, ◌==◌, ◌&&◌, if◌then◌else◌, arith, length, take, drop, get_elem?,
  length-append, length-drop,
}
use jrtplib4android.Prelude.Bits.{and_low}
use jrtplib4android.Prelude.Bytes.{◌>>=◌, slice, slice-in, blit-in, take-all, take-length}
use jrtplib4android.Rtmp.Util.State.{RtmpUtils, Packet, Library, IsLibrary}
use jrtplib4android.Rtmp.Util.{byte_of, send, push_h264_data}

-- The data of a packet, as far as its size says.
abbrev pub sent_bytes : Packet → List ℕ
sent_bytes p = take p.body_size p.body

-- A number of two bytes, the most significant first.
abbrev pub read16 : List ℕ → ℕ → Option ℕ
read16 bs at = get_elem? bs at >>= λ high. get_elem? bs (at + 1) >>= λ low. some (high * 256 + low)

-- An AVC sequence header, as ISO/IEC 14496-15 has it: profile, compatibility and level, the one SPS
-- and the one PPS.
unfoldable pub read_config : List ℕ → Option (List ℕ × List ℕ × List ℕ)
read_config
      (kind ∷ type ∷ t0 ∷ t1 ∷ t2 ∷ version ∷ profile ∷ compatibility ∷ level ∷ size ∷ sets
        ∷ rest) =
    read16 rest 0 >>= λ n. slice rest 2 n >>= λ sps. get_elem? rest (2 + n) >>= λ pps_sets.
    read16 rest (3 + n) >>= λ m. slice rest (5 + n) m >>= λ pps.
    if kind == 0x17
      && (type == 0 && (version == 1 && (size == 0xFF && (sets == 0xE1 && pps_sets == 1))))
    then some (profile ∷ compatibility ∷ level ∷ [], sps, pps)
    else none
read_config _ = none

-- A video packet with one NAL unit behind its length of four bytes: whether it is a key frame, and
-- the unit.
unfoldable pub read_nalu : List ℕ → Option (Bool × List ℕ)
read_nalu (kind ∷ type ∷ t0 ∷ t1 ∷ t2 ∷ a ∷ b ∷ c ∷ d ∷ rest) =
    if type == 1 && (length rest == a * 2 ^ 24 + b * 2 ^ 16 + c * 2 ^ 8 + d)
    then (if kind == 0x17
        then some (true, rest)
        else if kind == 0x27
        then some (false, rest)
        else none)
    else none
read_nalu _ = none

slice-whole : (bytes : List ℕ) → slice bytes 0 (length bytes) ≡ some bytes
slice-whole bytes =
    slice-in bytes 0 (length bytes) (omega arith)
    ∙ ap some (take-all (length bytes) bytes (omega arith))

==-self : (n : ℕ) → (n == n) ≡ true
==-self n = ground arith

byte_of-mod : (k n : ℕ) → byte_of k n ≡ n / 2 ^ k % 256
byte_of-mod k n = and_low 8 (n / 2 ^ k)

four-bytes :
    (n : ℕ)
    → n < 2 ^ 32
    → byte_of 24 n * 2 ^ 24 + byte_of 16 n * 2 ^ 16 + byte_of 8 n * 2 ^ 8 + byte_of 0 n ≡ n
four-bytes n h = omega (arith, byte_of-mod 24 n, byte_of-mod 16 n, byte_of-mod 8 n, byte_of-mod 0 n)

two-bytes : (n : ℕ) → n < 2 ^ 16 → byte_of 8 n * 256 + byte_of 0 n ≡ n
two-bytes n h = omega (arith, byte_of-mod 8 n, byte_of-mod 0 n)

nalu_bytes : Bool → List ℕ → List ℕ
nalu_bytes is_idr nalu =
    (if is_idr then 0x17 else 0x27)
    ∷ 0x01
    ∷ 0x00
    ∷ 0x00
    ∷ 0x00
    ∷ byte_of 24 (length nalu)
    ∷ byte_of 16 (length nalu)
    ∷ byte_of 8 (length nalu)
    ∷ byte_of 0 (length nalu)
    ∷ nalu

nalu_bytes-read :
    (is_idr : Bool) (nalu : List ℕ)
    → length nalu < 2 ^ 32
    → read_nalu (nalu_bytes is_idr nalu) ≡ some (is_idr, nalu)
unfolding read_nalu nalu_bytes
nalu_bytes-read true nalu small = rw (four-bytes (length nalu) small, ==-self (length nalu))
nalu_bytes-read false nalu small = rw (four-bytes (length nalu) small, ==-self (length nalu))

-- `PushH264Data`, set up and with room for the unit, fills a packet from which a player reads back
-- the unit and whether it is a key frame, stamps it with the present time, and sends it, or fails
-- as `send` does; the time goes on by 40 ms, and the packet keeps its room.
pub push_h264-read :
    (library : Library) (nalu : List ℕ) (is_idr : Bool) (u : RtmpUtils) (p : Packet)
    → IsLibrary library
    → u.packet ≡ some p
    → length nalu + 9 ≤ length p.body
    → length nalu < 2 ^ 31
    → (q : Packet) × (read_nalu (sent_bytes q) ≡ some (is_idr, nalu))
      × (q.time_stamp ≡ u.timestamp % 2 ^ 32)
      × (length q.body ≡ length p.body)
      × (push_h264_data library nalu (length nalu) is_idr u
          ≡ some (send library q (record u { timestamp = u.timestamp + 40 })))
unfolding push_h264_data nalu_bytes
push_h264-read library nalu is_idr u p is_library ready room small = (
  q,
  ap read_nalu front ∙ nalu_bytes-read is_idr nalu (omega arith),
  refl,
  omega (
    arith,
    length-append (nalu_bytes is_idr nalu) behind,
    length-drop (0 + length (nalu_bytes is_idr nalu)) (library.reset p).body,
    ap length (is_library.reset-body p),
  ),
  rw (
    ready,
    slice-whole nalu,
    blit-in (library.reset p).body 0 (nalu_bytes is_idr nalu)
        (omega (arith, ap length (is_library.reset-body p))),
  ),
)
  where
    behind : List ℕ
    behind = drop (0 + length (nalu_bytes is_idr nalu)) (library.reset p).body

    front : take (length nalu + 9) (nalu_bytes is_idr nalu ++ behind) ≡ nalu_bytes is_idr nalu
    front =
        let e : length nalu + 9 ≡ length (nalu_bytes is_idr nalu) = omega arith in
        ap (λ n. take n (nalu_bytes is_idr nalu ++ behind)) e
        ∙ take-length (nalu_bytes is_idr nalu) behind

    q : Packet
    q = record {
      has_abs_timestamp = 1;
      channel = 0x04;
      info_field2 = library.stream_id;
      header_type = 0;
      time_stamp = u.timestamp % 2 ^ 32;
      packet_type = 0x09;
      body_size = length nalu + 9;
      body = nalu_bytes is_idr nalu ++ behind;
    }
