-- ===== src/Rtp/Sender/Header.antt =====
-- The header bytes of RtpSender.cpp as arithmetic.
use jrtplib4android.Prelude.{ℕ, ◌+◌, ◌*◌, ◌/◌, ◌%◌, ◌<◌, ◌≡◌, bit_and, arith}
use jrtplib4android.Prelude.Bits.{and_low, and_shifted}
use jrtplib4android.Rtp.Sender.Packet.{nalu_header, fu_header, copied_header}

pub type-bits : (first : ℕ) → bit_and first 0x1f ≡ first % 32
type-bits first = and_low 5 first

nri-bits : (first : ℕ) → bit_and first 0x60 ≡ first / 32 % 4 * 32
nri-bits first = omega (arith, and_shifted 5 first 3, and_low 2 (first / 32))

f-bit : (first : ℕ) → bit_and first 0x80 ≡ first / 128 % 2 * 128
f-bit first = omega (arith, and_shifted 7 first 1, and_low 1 (first / 128))

-- The copied header has the NRI of the NALU and the type that is given, and never the F bit: a
-- one-bit field is assigned 0x80.
pub copied_header_lem :
    (first type : ℕ) → type < 32 → copied_header first type ≡ first / 32 % 4 * 32 + type
unfolding copied_header nalu_header
copied_header_lem first type small = omega (arith, nri-bits first, f-bit first)

pub fu_header_lem :
    (s e type : ℕ)
    → s < 2
    → e < 2
    → fu_header s e 0 (bit_and type 0x1f) ≡ type % 32 + e * 64 + s * 128
unfolding fu_header
fu_header_lem s e type hs he = omega (arith, type-bits type)
