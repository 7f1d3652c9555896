-- ===== src/Osd/Frame/Turn.antt =====
-- `addOsd` turns the picture: what its loops write, seen as a picture.
use jrtplib4android.Prelude.{
  ℕ, ◌+◌, ◌*◌, ◌-◌, ◌/◌, ◌<◌, ◌≤◌, ◌≡◌, refl, ap, ◌∙◌, inl, some, List, arith, length, get_elem?,
}
use jrtplib4android.Prelude.Bytes.{◌>>=◌}
use jrtplib4android.Osd.Frame.{copy_points, copy_pairs, turn_90, turn_270}
use jrtplib4android.Osd.Frame.Blocks.{Fills-pair, copy_points-Fills, copy_pairs-Fills}
use jrtplib4android.Osd.Frame.Picture.{
  Same, nv21, nv12, clockwise, quarters, luma_at, chroma_at, rows-fit, place-fits,
}

-- The bytes of a frame.
abbrev pub frame_size : (a b : ℕ) → ℕ
frame_size a b = 2 * a * (2 * b) + 2 * a * b

module _ (src dest : List ℕ) (a b : ℕ) (points pairs : ℕ → ℕ → ℕ) where
  -- The luma loops and the chroma loops one after the other.
  pub two_loops :
      ((r t : ℕ) → r < 2 * a → t < 2 * b → points r t < length src)
      → ((r t : ℕ) → r < a → t < b → pairs r t + 1 < length src)
      → frame_size a b ≤ length dest
      → (e : List ℕ) × ((copy_points src points (2 * a) (2 * b) 0 dest >>= λ copied.
            copy_pairs src pairs a b (2 * a * (2 * b)) copied)
          ≡ some e)
        × (length e ≡ length dest)
        × ((r t : ℕ)
            → r < 2 * a
            → t < 2 * b
            → get_elem? e (r * (2 * b) + t) ≡ get_elem? src (points r t))
        × ((r t : ℕ)
            → r < a
            → t < b
            → (get_elem? e (2 * a * (2 * b) + r * (2 * b) + 2 * t) ≡ get_elem? src (pairs r t + 1))
              × (get_elem? e (2 * a * (2 * b) + r * (2 * b) + 2 * t + 1)
                  ≡ get_elem? src (pairs r t)))
  two_loops luma_there chroma_there room =
      let half : 2 * a * b ≡ a * (2 * b) = grind arith in
      let (d, first, luma) =
        copy_points-Fills src points (2 * a) (2 * b) 0 dest luma_there (omega arith) in
      let (e, second, chroma) =
        copy_pairs-Fills src pairs a b (2 * a * (2 * b)) d chroma_there
          (omega (arith, luma.same_size, half)) in
      (
        e,
        rw first second,
        chroma.same_size ∙ luma.same_size,
        λ r t hr ht.
            chroma.outside (r * (2 * b) + t) (inl (place-fits r (2 * a) (2 * b) t hr ht))
            ∙ (let z : r * (2 * b) + t ≡ 0 + r * (2 * b) + t = omega arith in
                ap (λ i. get_elem? d i) z ∙ luma.inside r t hr ht),
        Fills-pair src pairs a b (2 * a * (2 * b)) d e chroma,
      )

module _ (src dest : List ℕ) (a b : ℕ) (enough : frame_size a b ≤ length src)
    (room : frame_size a b ≤ length dest) where
  luma_there : (column row : ℕ) → column < 2 * a → row < 2 * b → luma_at a column row < length src
  luma_there column row hc hr = omega (arith, place-fits row (2 * b) (2 * a) column hr hc)

  chroma_there : (column row : ℕ) → column < a → row < b → chroma_at a b column row + 1 < length src
  chroma_there column row hc hr =
      let e : b * (2 * a) ≡ 2 * a * b = grind arith in omega (arith, rows-fit row b (2 * a) hr, e)

  pub turn_90-clockwise :
      (e : List ℕ) × (turn_90 src (2 * a) (2 * b) dest ≡ some e)
      × (length e ≡ length dest)
      × Same (nv12 b a e) (clockwise (nv21 a b src))
  unfolding turn_90
  turn_90-clockwise =
      let points : ℕ → ℕ → ℕ = λ i t. (2 * b - 1 - t) * (2 * a) + i in
      let pairs : ℕ → ℕ → ℕ = λ i t. 2 * a * (2 * b) + 2 * a * (b - 1 - t) + 2 * i in
      let same : (i t : ℕ) → pairs i t ≡ chroma_at a b i (b - 1 - t) = λ i t. grind arith in
      let (e, ran, size, luma, chroma) =
        two_loops src dest a b points pairs
          (λ r t hr ht. luma_there r (2 * b - 1 - t) hr (omega arith))
          (λ r t hr ht. omega (arith, same r t, chroma_there r (b - 1 - t) hr (omega arith)))
          room in
      let h : 2 * b / 2 ≡ b = omega arith in
      let w : (2 * a + 1) / 2 ≡ a = omega arith in
      let turned : 2 * b * (2 * a) ≡ 2 * a * (2 * b) = grind arith in
      (
        e,
        rw (h, w) ran,
        size,
        record {
          same_a = refl;
          same_b = refl;
          same_y = λ column row hc hr. luma row column hr hc;
          same_u = λ column row hc hr.
              rw turned (chroma row column hr hc).0
              ∙ ap (λ i. get_elem? src (i + 1)) (same row column);
          same_v = λ column row hc hr.
              rw turned (chroma row column hr hc).1 ∙ ap (λ i. get_elem? src i) (same row column);
        },
      )

  pub turn_270-clockwise :
      (e : List ℕ) × (turn_270 src (2 * a) (2 * b) dest ≡ some e)
      × (length e ≡ length dest)
      × Same (nv12 b a e) (quarters 3 (nv21 a b src))
  unfolding turn_270
  turn_270-clockwise =
      let points : ℕ → ℕ → ℕ = λ i t. t * (2 * a) + (2 * a - 1 - i) in
      let pairs : ℕ → ℕ → ℕ = λ i t. 2 * a * (2 * b) + 2 * a * t + (2 * a - 1 - 2 * i) - 1 in
      let same : (i t : ℕ) → i < a → pairs i t ≡ chroma_at a b (a - 1 - i) t =
        λ i t h. grind arith in
      let back : (n i : ℕ) → i < n → i ≡ n - 1 - (n - 1 - i) = λ n i h. omega arith in
      let (e, ran, size, luma, chroma) =
        two_loops src dest a b points pairs
          (λ r t hr ht. luma_there (2 * a - 1 - r) t (omega arith) ht)
          (λ r t hr ht. omega (arith, same r t hr, chroma_there (a - 1 - r) t (omega arith) ht))
          room in
      let h : 2 * b / 2 ≡ b = omega arith in
      let w : (2 * a + 1) / 2 ≡ a = omega arith in
      let turned : 2 * b * (2 * a) ≡ 2 * a * (2 * b) = grind arith in
      (
        e,
        rw (h, w) ran,
        size,
        record {
          same_a = refl;
          same_b = refl;
          same_y = λ column row hc hr.
              luma row column hr hc
              ∙ ap (λ t. get_elem? src (luma_at a (2 * a - 1 - row) t)) (back (2 * b) column hc);
          same_u = λ column row hc hr.
              rw turned (chroma row column hr hc).0
              ∙ (ap (λ i. get_elem? src (i + 1)) (same row column hr)
                  ∙ ap (λ t. get_elem? src (chroma_at a b (a - 1 - row) t + 1)) (back b column hc));
          same_v = λ column row hc hr.
              rw turned (chroma row column hr hc).1
              ∙ (ap (λ i. get_elem? src i) (same row column hr)
                  ∙ ap (λ t. get_elem? src (chroma_at a b (a - 1 - row) t)) (back b column hc));
        },
      )
