-- ===== src/Rtp/Sender/Packet.antt =====
-- The bytes of one packet in RtpSender.cpp: start codes, the NALU and FU-A header bytes and the
-- buffer `sendbuf`. Every access outside a buffer is `none`.
use jrtplib4android.Prelude.{
  ℕ, ◌+◌, ◌-◌, ◌*◌, ◌/◌, ◌%◌, ◌^◌, Bool, Option, some, List, [], ◌∷◌, bit_and, if◌then◌else◌,
  get_elem?, drop, replicate,
}
use jrtplib4android.Prelude.Bytes.{begins_with, ◌>>=◌, slice, blit}
use jrtplib4android.Rtp.Sender.State.{max_rtp_pkt_length, send_length}

unfoldable pub find_start_code2 : List ℕ → Option Bool
find_start_code2 buf = begins_with buf (0 ∷ 0 ∷ 1 ∷ [])

unfoldable pub find_start_code3 : List ℕ → Option Bool
find_start_code3 buf = begins_with buf (0 ∷ 0 ∷ 0 ∷ 1 ∷ [])

-- `pSendbuf` and `buflen` behind a start code of three or four bytes.
unfoldable pub skip_start_code : List ℕ → ℕ → Option (List ℕ × ℕ)
skip_start_code buf len = find_start_code2 buf >>= λ two.
    if two
    then some (drop 3 buf, len - 3)
    else find_start_code3 buf >>= λ three.
        some (if three then (drop 4 buf, len - 4) else (buf, len))

-- The bit fields TYPE:5, NRI:2, F:1 from the lowest bit up; each is cut to its width.
unfoldable pub nalu_header : ℕ → ℕ → ℕ → ℕ
nalu_header f nri type = type % 2 ^ 5 + nri % 2 ^ 2 * 2 ^ 5 + f % 2 ^ 1 * 2 ^ 7

-- The bit fields TYPE:5, R:1, E:1, S:1.
unfoldable pub fu_header : ℕ → ℕ → ℕ → ℕ → ℕ
fu_header s e r type = type % 2 ^ 5 + r % 2 * 2 ^ 5 + e % 2 * 2 ^ 6 + s % 2 * 2 ^ 7

-- The NALU header and the FU indicator take `F` and `NRI` from the first byte of the NALU.
unfoldable pub copied_header : ℕ → ℕ → ℕ
copied_header first type = nalu_header (bit_and first 0x80) (bit_and first 0x60 / 2 ^ 5) type

-- `sendbuf` after its `memset`.
unfoldable pub cleared : List ℕ
cleared = replicate send_length 0

-- A NALU in one packet: the header goes to `sendbuf[0]`, all of `pSendbuf` behind it, and the first
-- `len` bytes of the buffer are sent.
unfoldable pub single_packet : List ℕ → ℕ → Option (List ℕ)
single_packet p len = do
  first ← get_elem? p 0
  body ← slice p 0 len
  with_header ← blit cleared 0 (copied_header first (bit_and first 0x1f) ∷ [])
  filled ← blit with_header 1 body
  slice filled 0 len

-- Fragment `t`: FU indicator, FU header and `n` bytes of the NALU from `t * 1100 + 1` on.
unfoldable pub fu_packet : List ℕ → ℕ → ℕ → ℕ → ℕ → Option (List ℕ)
fu_packet p t n s e = do
  first ← get_elem? p 0
  with_indicator ← blit cleared 0 (copied_header first 28 ∷ [])
  with_header ← blit with_indicator 1 (fu_header s e 0 (bit_and first 0x1f) ∷ [])
  body ← slice p (t * max_rtp_pkt_length + 1) n
  filled ← blit with_header 2 body
  slice filled 0 (n + 2)
