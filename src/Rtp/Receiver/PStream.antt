-- ===== src/Rtp/Receiver/PStream.antt =====
-- The MPEG program stream in RtpReceiver.cpp, over the structures of pstream.h: `GetH246FromPs` and
-- the functions that it calls. A pointer into the buffer is an index of the list `mem`, all of the
-- memory that is allocated; `length` counts the bytes of it that hold data.
pub mod Code
pub mod Header
pub mod Videos
pub mod Crash
pub mod Bounds
use jrtplib4android.Prelude.{
  ℕ, zero, suc, ◌+◌, ◌-◌, ◌*◌, Bool, false, Option, none, some, List, [], ◌∷◌, ◌++◌, bit_and, ltb,
  ◌==◌, if◌then◌else◌, get_elem?, length,
}
use jrtplib4android.Prelude.Bytes.{◌>>=◌, slice}
use jrtplib4android.Prelude.Int.{ℤ, pos, negsuc, sub_ℕ}

-- `H264_FRAME_SIZE_MAX`
abbrev pub h264_frame_size_max : ℕ
h264_frame_size_max = 1024 * 1024 * 2

-- The sizes of the packed structures of pstream.h.
abbrev pub sizeof_pack_start_code : ℕ
sizeof_pack_start_code = 4

abbrev pub sizeof_program_stream_pack_header : ℕ
sizeof_program_stream_pack_header = 14

abbrev pub sizeof_program_stream_map : ℕ
sizeof_program_stream_map = 6

abbrev pub sizeof_program_stream_e : ℕ
sizeof_program_stream_e = 9

-- The next unit and how many bytes are left from it on; no position is the result 0.
abbrev pub Position : Type 0
Position = Option (ℕ × ℕ)

-- `int` a minus b, if it is positive.
abbrev pub left_after : ℕ → ℕ → ℕ → Position
left_after next a b = if ltb b a then some (next, a - b) else none

-- `ProgramStreamPackHeader`: fewer than four bytes behind the header are none.
unfoldable pub program_stream_pack_header : List ℕ → ℕ → Option Position
program_stream_pack_header mem length = get_elem? mem 13 >>= λ stuffinglen.
    let size = sizeof_program_stream_pack_header + bit_and stuffinglen 0x07 in
    some (if ltb length (size + 4) then none else some (size, length - size))

-- `PackLength`, whose bytes are exchanged into a little-endian number.
unfoldable pub pack_length : List ℕ → ℕ → Option ℕ
pack_length mem pack =
    get_elem? mem (pack + 5) >>= λ low. get_elem? mem (pack + 4) >>= λ high. some (low + high * 256)

-- `ProgramStreamMap`
unfoldable pub program_stream_map : List ℕ → ℕ → ℕ → Option Position
program_stream_map mem pack length =
    if ltb length sizeof_program_stream_map
    then some none
    else pack_length mem pack >>= λ psm_length.
        let size = psm_length + sizeof_program_stream_map in
        some (left_after (pack + size) length size)

-- `ProgramShHead`
unfoldable pub program_sh_head : List ℕ → ℕ → ℕ → Option Position
program_sh_head mem pack length =
    if ltb length sizeof_program_stream_map
    then some none
    else pack_length mem pack >>= λ psm_length.
        let size = psm_length + sizeof_program_stream_map in
        some (left_after (pack + size) length size)

-- What `Pes` gives back: `*PayloadData`, `*PayloadDataLen` and the next unit.
pub record PesResult : Type 0 where
  pub payload : ℕ
  pub payload_len : ℤ
  pub next : Position

-- `Pes`. The payload is not NULL only if its length is positive; its index is not used otherwise.
unfoldable pub pes : List ℕ → ℕ → ℕ → Option PesResult
pes mem pack length =
    if ltb length sizeof_program_stream_e
    then some (record { payload = 0; payload_len = pos 0; next = none })
    else pack_length mem pack >>= λ pse_length. get_elem? mem (pack + 8) >>= λ stuffing_length.
        some (record {
          payload = pack + sizeof_program_stream_e + stuffing_length;
          payload_len = sub_ℕ pse_length (2 + 1 + stuffing_length);
          next = left_after (pack + 6 + pse_length) length (pse_length + 6);
        })

-- `memcpy(h264Buffer, PayloadData, PayloadDataLen)` behind its test. A negative length passes the
-- test and is a fault of `memcpy`; a frame that grows too long leaves the payload out.
unfoldable pub add_payload : List ℕ → List ℕ → ℕ → ℤ → Option (List ℕ)
add_payload mem out payload (negsuc n) = none
add_payload mem out payload (pos n) =
    if n == 0
    then some out
    else if ltb (n + length out) h264_frame_size_max
    then (slice mem payload n >>= λ body. some (out ++ body))
    else some out

-- The bytes `NextPack[0..3]` of a unit of the kind `id`.
unfoldable pub is_unit : ℕ → List ℕ → Bool
is_unit id (a ∷ b ∷ c ∷ d ∷ []) =
    if a == 0 then if b == 0 then if c == 1 then d == id else false else false else false
is_unit id _ = false

-- What one round of the loop of `GetH246FromPs` does: it ends with the bytes put out so far, it
-- makes an access that is not allowed, or it goes on at the next unit.
pub data Round : Type 0 where
  stop : List ℕ → Round
  crash : Round
  go_on : ℕ → ℕ → List ℕ → Round

unfoldable pub follow : Position → List ℕ → Round
follow none out = stop out
follow (some (next, left)) out = go_on next left out

unfoldable pub follow_map : Option Position → List ℕ → Round
follow_map none out = crash
follow_map (some p) out = follow p out

-- The payload is put out whether or not a unit follows.
unfoldable pub follow_pes : List ℕ → List ℕ → Option PesResult → Round
follow_pes mem out none = crash
follow_pes mem out (some r) = elim (add_payload mem out r.payload r.payload_len) [
  | none ↦ crash
  | some kept ↦ follow r.next kept
]

-- The unit with the given first four bytes. Audio (0xC0, 0xBD) and what is not known end the loop.
unfoldable pub demux_unit : List ℕ → ℕ → ℕ → List ℕ → List ℕ → Round
unfolding follow_pes follow_map follow is_unit
demux_unit mem next left out code =
    if is_unit 0xE0 code
    then follow_pes mem out (pes mem next left)
    else if is_unit 0xBB code
    then follow_map (program_sh_head mem next left) out
    else if is_unit 0xBC code
    then follow_map (program_stream_map mem next left) out
    else stop out

unfoldable pub demux_round : List ℕ → ℕ → ℕ → List ℕ → Round
unfolding demux_unit
demux_round mem next left out =
    if ltb left sizeof_pack_start_code
    then stop out
    else elim (slice mem next 4) [ none ↦ crash | some code ↦ demux_unit mem next left out code ]

-- What `GetH246FromPs` ends with. `spent` says that the fuel, not the code, ended the loop.
pub data Demux : Type 0 where
  frame : List ℕ → Demux
  fault : Demux
  spent : Demux

unfoldable pub demux_loop : ℕ → List ℕ → ℕ → ℕ → List ℕ → Demux
demux_loop zero mem next left out = spent
demux_loop (suc fuel) mem next left out = elim (demux_round mem next left out) [
  | stop kept ↦ frame kept
  | crash ↦ fault
  | go_on n l kept ↦ demux_loop fuel mem n l kept
]

-- `GetH246FromPs`: the bytes that it puts into `h264Buffer`. Every unit takes some of the `length`
-- bytes, so `length` rounds and one more are enough.
unfoldable pub get_h264_from_ps : List ℕ → ℕ → Demux
get_h264_from_ps mem length = elim (program_stream_pack_header mem length) [
  | none ↦ fault
  | some none ↦ frame []
  | some (some (next, left)) ↦ demux_loop (suc length) mem next left []
]
