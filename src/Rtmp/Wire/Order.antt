-- ===== src/Rtmp/Wire/Order.antt =====
-- The macros turn bytes that stand in memory most significant first into their value.
use jrtplib4android.Prelude.{
  ℕ, ◌+◌, ◌*◌, ◌/◌, ◌%◌, ◌^◌, ◌<◌, ◌≡◌, ap, ap₂, ◌∙◌, bit_and, bit_or, arith, [], ◌∷◌,
}
use jrtplib4android.Prelude.Bits.{and_low, and_shifted, or_disjoint, or_comm, or_split}
use jrtplib4android.Rtmp.Wire.{hton24, hton_time, little_endian}

-- A byte at bit `k`.
field : (k x : ℕ) → bit_and x (0xFF * 2 ^ k) ≡ x / 2 ^ k % 256 * 2 ^ k
field k x = and_shifted k x 0xFF ∙ ap (λ (n : ℕ). n * 2 ^ k) (and_low 8 (x / 2 ^ k))

-- The byte of a big-endian pair in either order.
pub or_pair : (k h l : ℕ) → l < 2 ^ k → bit_or l (h * 2 ^ k) ≡ h * 2 ^ k + l
or_pair k h l small = or_comm l (h * 2 ^ k) ∙ or_disjoint k h l small

-- A byte between two fields.
or_middle :
    (h m l : ℕ) → m < 256 → l < 256 → bit_or (h * 65536 + l) (m * 256) ≡ h * 65536 + m * 256 + l
or_middle h m l hm hl =
    or_split 8 (h * 65536 + l) (m * 256)
    ∙ omega (
      arith,
      ap₂ bit_or upper_left upper_right,
      ap₂ bit_or lower_left lower_right,
      or_disjoint 8 h m hm,
      or_comm l 0,
      or_disjoint 8 0 l hl,
    )
  where
    upper_left : (h * 65536 + l) / 2 ^ 8 ≡ h * 2 ^ 8
    upper_left = omega arith

    upper_right : m * 256 / 2 ^ 8 ≡ m
    upper_right = omega arith

    lower_left : (h * 65536 + l) % 2 ^ 8 ≡ l
    lower_left = omega arith

    lower_right : m * 256 % 2 ^ 8 ≡ 0
    lower_right = omega arith

module _ (a b c : ℕ) (ha : a < 256) (hb : b < 256) (hc : c < 256) where
  three-bytes :
      (x : ℕ)
      → x % 2 ^ 24 ≡ a + 256 * b + 65536 * c
      → bit_or
          (bit_or (bit_and (x / 2 ^ 16) 0xFF) (bit_and (x * 2 ^ 16 % 2 ^ 32) 0xFF0000))
          (bit_and x 0xFF00)
        ≡ a * 65536 + b * 256 + c
  three-bytes x e = rw (low, high, middle, or_pair 16 a c (omega arith)) (or_middle a b c hb hc)
    where
      low : bit_and (x / 2 ^ 16) 0xFF ≡ c
      low = omega (arith, and_low 8 (x / 2 ^ 16))

      high : bit_and (x * 2 ^ 16 % 2 ^ 32) 0xFF0000 ≡ a * 65536
      high = omega (arith, field 16 (x * 2 ^ 16 % 2 ^ 32))

      middle : bit_and x 0xFF00 ≡ b * 256
      middle = omega (arith, field 8 x)

  -- `HTON24` of three bytes, read low byte first, is their big-endian value.
  pub hton24-bytes : hton24 (little_endian (a ∷ b ∷ c ∷ [])) ≡ a * 65536 + b * 256 + c
  unfolding hton24
  hton24-bytes = three-bytes (a + 256 * (b + 256 * (c + 256 * 0))) (omega arith)

  -- `HTONTIME` of the four bytes of a tag's time: the fourth is the most significant.
  pub hton_time-bytes :
      (d : ℕ)
      → d < 256
      → hton_time (little_endian (a ∷ b ∷ c ∷ d ∷ [])) ≡ d * 2 ^ 24 + (a * 65536 + b * 256 + c)
  unfolding hton_time
  hton_time-bytes d hd =
      rw (three-bytes x (omega arith), top) (or_pair 24 d (a * 65536 + b * 256 + c) (omega arith))
    where
      x : ℕ
      x = a + 256 * (b + 256 * (c + 256 * (d + 256 * 0)))

      top : bit_and x 0xFF000000 ≡ d * 2 ^ 24
      top = omega (arith, field 24 x)
