-- ===== src/Osd/Argb/Odd.antt =====
-- Bitmaps whose width or height is odd: how much chroma the conversions write, and how much memory they
-- have.
pub mod Passes
use jrtplib4android.Prelude.{
  subst, dec_lt, ℕ, ◌+◌, ◌*◌, ◌/◌, ◌%◌, ◌<◌, ◌≡◌, ◌≢◌, refl, ◌⊎◌, inl, inr, none, List, arith,
  length, Option-cases,
}
use jrtplib4android.Prelude.Int.{ℤ}
use jrtplib4android.Osd.Argb.{
  chroma_u, chroma_v, Canvas, convert_rows, argb_int_to_nv21_byte, argb_int_to_nv12_byte,
}
use jrtplib4android.Osd.Argb.Odd.Passes.{evens, rows-Passes}

-- The colours need more than the half of the points and one byte more.
abbrev TooMuch : (width height : ℕ) → Type 0
TooMuch width height = width * height / 2 + 1 < 2 * (evens 0 width * evens 0 height)

both_odd : (m q : ℕ) → TooMuch (2 * m + 1) (2 * q + 1)
both_odd m q =
    let points : (2 * m + 1) * (2 * q + 1) ≡ 4 * (m * q) + 2 * m + 2 * q + 1 = grind arith in
    let half : evens 0 (2 * m + 1) ≡ m + 1 = omega arith in
    let high : evens 0 (2 * q + 1) ≡ q + 1 = omega arith in
    let pairs : (m + 1) * (q + 1) ≡ m * q + m + q + 1 = grind arith in
    rw (half, high) (omega (arith, points, pairs))

height_odd : (m q : ℕ) → 1 < m → TooMuch (2 * m) (2 * q + 1)
height_odd m q wide =
    let points : 2 * m * (2 * q + 1) ≡ 4 * (m * q) + 2 * m = grind arith in
    let half : evens 0 (2 * m) ≡ m = omega arith in
    let high : evens 0 (2 * q + 1) ≡ q + 1 = omega arith in
    let pairs : m * (q + 1) ≡ m * q + m = grind arith in
    rw (half, high) (omega (arith, points, pairs))

width_odd : (m q : ℕ) → 1 < q → TooMuch (2 * m + 1) (2 * q)
width_odd m q tall =
    let points : (2 * m + 1) * (2 * q) ≡ 4 * (m * q) + 2 * q = grind arith in
    let half : evens 0 (2 * m + 1) ≡ m + 1 = omega arith in
    let high : evens 0 (2 * q) ≡ q = omega arith in
    let pairs : (m + 1) * q ≡ m * q + q = grind arith in
    rw (half, high) (omega (arith, points, pairs))

too_much :
    (width height : ℕ)
    → 0 < width
    → 0 < height
    → (width % 2 ≡ 1) ⊎ (height % 2 ≡ 1)
    → width ≢ 2
    → height ≢ 2
    → TooMuch width height
too_much width height some_width some_height odd not_2 not_two =
    let m : ℕ = width / 2 in
    let q : ℕ = height / 2 in
    elim (dec_lt 0 (width % 2)) [
      | yes w ↦
          let ew : 2 * m + 1 ≡ width = omega arith in
          elim (dec_lt 0 (height % 2)) [
            | yes h ↦
                let eh : 2 * q + 1 ≡ height = omega arith in
                subst (λ x. TooMuch x height) ew
                  (subst (λ y. TooMuch (2 * m + 1) y) eh (both_odd m q))
            | no h ↦
                let eh : 2 * q ≡ height = omega arith in
                subst (λ x. TooMuch x height) ew
                  (subst (λ y. TooMuch (2 * m + 1) y) eh (width_odd m q (ground arith)))
          ]
      | no w ↦
          let ew : 2 * m ≡ width = omega arith in
          let eh : 2 * q + 1 ≡ height = ground arith in
          subst (λ x. TooMuch x height) ew
            (subst (λ y. TooMuch (2 * m) y) eh (height_odd m q (ground arith)))
    ]

-- The loops run out of the memory, whatever the words are.
rows-overflow :
    (argb memory : List ℕ) (first second : ℕ → ℤ) (width height : ℕ)
    → length memory ≡ width * height * 3 / 2 + 1
    → TooMuch width height
    → convert_rows argb first second width height 0
        (record { yuv420sp = memory; y_index = 0; uv_index = width * height; index = 0 })
      ≡ none
rows-overflow argb memory first second width height room much =
    let start : Canvas = record {
      yuv420sp = memory;
      y_index = 0;
      uv_index = width * height;
      index = 0;
    } in
    elim (Option-cases (convert_rows argb first second width height 0 start)) [
      | inl e ↦ e
      | inr (t, e) ↦
          let (i, size, uv, inside) =
            rows-Passes argb first second width height 0 start t (grind arith) e in
          absurd (omega (arith, size, uv, inside (omega arith)))
    ]

-- A bitmap with an odd width or height, neither of them 2 or nothing, is never converted to NV21 or
-- NV12: the colours are written past the memory that the functions have asked for.
pub argb_int-odd :
    (argb memory : List ℕ) (width height : ℕ)
    → 0 < width
    → 0 < height
    → (width % 2 ≡ 1) ⊎ (height % 2 ≡ 1)
    → width ≢ 2
    → height ≢ 2
    → length memory ≡ width * height * 3 / 2 + 1
    → (argb_int_to_nv21_byte argb memory width height ≡ none)
      × (argb_int_to_nv12_byte argb memory width height ≡ none)
unfolding argb_int_to_nv21_byte argb_int_to_nv12_byte
argb_int-odd argb memory width height some_width some_height odd not_2 not_two room =
    let much : TooMuch width height =
      too_much width height some_width some_height odd not_2 not_two in
    (
      rw (rows-overflow argb memory chroma_v chroma_u width height room much) refl,
      rw (rows-overflow argb memory chroma_u chroma_v width height room much) refl,
    )
