-- ===== src/Osd/Argb/Colours.antt =====
-- The range of brightness and colour.
use jrtplib4android.Prelude.{ℕ, ◌+◌, ◌*◌, ◌/◌, ◌%◌, ◌^◌, ◌≤◌, ◌≡◌, arith}
use jrtplib4android.Prelude.Int.{ℤ, pos, sub_ℕ}
use jrtplib4android.Prelude.Bits.{and_shifted, and_low}
use jrtplib4android.Osd.Argb.{red, green, blue, shift_8, plus, luma, chroma_u, chroma_v, clamp}

red-byte : (word : ℕ) → red word ≡ word / 2 ^ 16 % 2 ^ 8
unfolding red
red-byte word = omega (arith, and_shifted 16 word 255, and_low 8 (word / 2 ^ 16))

green-byte : (word : ℕ) → green word ≡ word / 2 ^ 8 % 2 ^ 8
unfolding green
green-byte word = omega (arith, and_shifted 8 word 255, and_low 8 (word / 2 ^ 8))

blue-byte : (word : ℕ) → blue word ≡ word % 2 ^ 8
unfolding blue
blue-byte word = and_low 8 word

-- A value between two bounds is not changed by the clamp.
abbrev pub InRange : ℤ → (low high : ℕ) → Type 0
InRange z low high = (z ≡ pos (clamp z)) × (low ≤ clamp z) × (clamp z ≤ high)

pos-InRange : (n low high : ℕ) → low ≤ n → n ≤ high → high ≤ 255 → InRange (pos n) low high
unfolding clamp
pos-InRange n low high h k l = ground arith

-- 128 plus a difference of two amounts of which none exceeds the other by more than 112 * 255.
chroma-InRange :
    (above below : ℕ)
    → above ≤ 112 * 255
    → below ≤ 112 * 255
    → InRange (plus (shift_8 (sub_ℕ (above + 128) below)) 128) 16 240
unfolding clamp
chroma-InRange above below h k = ground arith

gray-chroma :
    (above below : ℕ) → above ≡ below → plus (shift_8 (sub_ℕ (above + 128) below)) 128 ≡ pos 128
gray-chroma above below h = ground arith

-- For every word the brightness lies between 16 and 235 and both colours lie between 16 and 240, so
-- that no clamp changes them; and a word with three equal parts has both colours 128.
pub colours-InRange :
    (word : ℕ)
    → InRange (luma word) 16 235
      × InRange (chroma_u word) 16 240
      × InRange (chroma_v word) 16 240
      × (red word ≡ green word
          → green word ≡ blue word
          → (chroma_u word ≡ pos 128) × (chroma_v word ≡ pos 128))
unfolding luma chroma_u chroma_v
colours-InRange word = (
  pos-InRange ((66 * red word + 129 * green word + 25 * blue word + 128) / 2 ^ 8 + 16) 16 235
      (omega arith) (omega (arith, red-byte word, green-byte word, blue-byte word)) (omega arith),
  chroma-InRange (112 * blue word) (38 * red word + 74 * green word) (omega (arith, blue-byte word))
      (omega (arith, red-byte word, green-byte word)),
  chroma-InRange (112 * red word) (94 * green word + 18 * blue word) (omega (arith, red-byte word))
      (omega (arith, green-byte word, blue-byte word)),
  λ rg gb. (
    gray-chroma (112 * blue word) (38 * red word + 74 * green word) (omega (arith, rg, gb)),
    gray-chroma (112 * red word) (94 * green word + 18 * blue word) (omega (arith, rg, gb)),
  ),
)
