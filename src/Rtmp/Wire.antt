-- ===== src/Rtmp/Wire.antt =====
-- The byte-order macros of RtmpUtil.h, on `uint32_t`, and the copying of bytes into one on a
-- little-endian machine.
pub mod Order
use jrtplib4android.Prelude.{ℕ, ◌+◌, ◌*◌, ◌/◌, ◌%◌, ◌^◌, bit_and, bit_or, List, [], ◌∷◌, length}

-- `x << k` in `uint32_t`.
abbrev pub shift_left : ℕ → ℕ → ℕ
shift_left x k = x * 2 ^ k % 2 ^ 32

-- `HTON16`
unfoldable pub hton16 : ℕ → ℕ
hton16 x = bit_or (bit_and (x / 2 ^ 8) 0xFF) (bit_and (shift_left x 8) 0xFF00)

-- `HTON24`
unfoldable pub hton24 : ℕ → ℕ
hton24 x =
    bit_or (bit_or (bit_and (x / 2 ^ 16) 0xFF) (bit_and (shift_left x 16) 0xFF0000))
      (bit_and x 0xFF00)

-- `HTON32`
unfoldable pub hton32 : ℕ → ℕ
hton32 x =
    bit_or
      (bit_or (bit_or (bit_and (x / 2 ^ 24) 0xFF) (bit_and (x / 2 ^ 8) 0xFF00))
        (bit_and (shift_left x 8) 0xFF0000))
      (bit_and (shift_left x 24) 0xFF000000)

-- `HTONTIME`: the low 24 bits turned round, the extension byte left on top.
unfoldable pub hton_time : ℕ → ℕ
hton_time x =
    bit_or
      (bit_or (bit_or (bit_and (x / 2 ^ 16) 0xFF) (bit_and (shift_left x 16) 0xFF0000))
        (bit_and x 0xFF00))
      (bit_and x 0xFF000000)

abbrev pub little_endian : List ℕ → ℕ
little_endian [] = 0
little_endian (b ∷ bs) = b + 256 * little_endian bs

-- Bytes copied over the low end of a variable.
unfoldable pub store : ℕ → List ℕ → ℕ
store old bs = old / 2 ^ (8 * length bs) * 2 ^ (8 * length bs) + little_endian bs
