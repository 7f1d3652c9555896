-- ===== src/Osd/Frame/Shown.antt =====
-- `addOsd` as a whole: the picture that it shows.
use jrtplib4android.Prelude.{
  ℕ, ◌+◌, ◌*◌, ◌-◌, ◌<◌, ◌≤◌, ◌≡◌, ◌≢◌, refl, sym, ap, ◌∙◌, ◌⊎◌, inl, inr, some, List, [], ◌∷◌,
  arith, length, get_elem?, take, subst,
}
use jrtplib4android.Prelude.Bytes.{◌>>=◌, slice-in, length-slice, get_elem?-some}
use jrtplib4android.Osd.Glyphs.{YuvUtils, size, get_index}
use jrtplib4android.Osd.Frame.{turn, draw_mark, add_osd}
use jrtplib4android.Osd.Frame.Turn.{frame_size}
use jrtplib4android.Osd.Frame.Picture.{
  Picture, Same, nv21, nv12, quarters, luma_at, chroma_at, place-fits, place_unique,
}
use jrtplib4android.Osd.Frame.Angles.{Angle, straight, right, left, count, degrees, turn_lem}
use jrtplib4android.Osd.Frame.Mark.{Draws}
use jrtplib4android.Osd.Frame.Marked.{MarkPoint, mark-Draws}

-- The points of the mark by column and row: the pictures of the characters side by side, with the
-- upper left corner at column `x` and row `y`.
abbrev pub TextPoint : (table text : List ℕ) → (x y column row : ℕ) → Type 0
TextPoint table text x y column row =
    (i j k c p : ℕ) × (get_elem? text i ≡ some c)
    × (j < 23)
    × (k < 17)
    × (get_elem? table (size * get_index c + (j * 17 + k)) ≡ some p)
    × (p ≢ 0)
    × (column ≡ x + i * 17 + k)
    × (row ≡ y + j)

-- `shown` is `p` with the points that `M` tells of made white.
pub record Marks (M : ℕ → ℕ → Type 0) (shown p : Picture) : Type 0 where
  pub white :
      (column row : ℕ)
      → column < 2 * p.a
      → row < 2 * p.b
      → M column row
      → shown.y column row ≡ some 235
  pub other :
      (column row : ℕ)
      → column < 2 * p.a
      → row < 2 * p.b
      → M column row ⊎ (shown.y column row ≡ p.y column row)
  pub same_u : (column row : ℕ) → column < p.a → row < p.b → shown.u column row ≡ p.u column row
  pub same_v : (column row : ℕ) → column < p.a → row < p.b → shown.v column row ≡ p.v column row

module _ (p : Picture) (turned table text : List ℕ) (x y : ℕ)
    (wide : x + 17 * length text ≤ 2 * p.a) (high : y + 23 ≤ 2 * p.b) where
  to :
      (column row : ℕ)
      → column < 2 * p.a
      → MarkPoint table text (2 * p.a) (y * (2 * p.a) + x) (luma_at p.a column row)
      → TextPoint table text x y column row
  to column row hc (i, j, k, c, v, there, hj, hk, point, n, e) =
      let small : i < length text = get_elem?-some text i c there in
      let sum : (y + j) * (2 * p.a) ≡ y * (2 * p.a) + j * (2 * p.a) = grind arith in
      let (r, s) =
        place_unique (2 * p.a) row (y + j) column (x + i * 17 + k) hc (omega arith)
          (omega (arith, e, sum)) in
      (i, j, k, c, v, there, hj, hk, point, n, s, r)

  from :
      (column row : ℕ)
      → TextPoint table text x y column row
      → MarkPoint table text (2 * p.a) (y * (2 * p.a) + x) (luma_at p.a column row)
  from column row (i, j, k, c, v, there, hj, hk, point, n, s, r) =
      let sum : (y + j) * (2 * p.a) ≡ y * (2 * p.a) + j * (2 * p.a) = grind arith in
      let at : row * (2 * p.a) ≡ (y + j) * (2 * p.a) = ap (λ t. t * (2 * p.a)) r in
      (i, j, k, c, v, there, hj, hk, point, n, omega (arith, s, at, sum))

  -- The mark lies in the luma.
  low : (q : ℕ) → MarkPoint table text (2 * p.a) (y * (2 * p.a) + x) q → q < 2 * p.a * (2 * p.b)
  low q (i, j, k, c, v, there, hj, hk, point, n, e) =
      let small : i < length text = get_elem?-some text i c there in
      let sum : (y + j) * (2 * p.a) ≡ y * (2 * p.a) + j * (2 * p.a) = grind arith in
      let comm : 2 * p.b * (2 * p.a) ≡ 2 * p.a * (2 * p.b) = grind arith in
      omega (
        arith,
        e,
        sum,
        comm,
        place-fits (y + j) (2 * p.b) (2 * p.a) (x + i * 17 + k) (omega arith) (omega arith),
      )

  mark-Marks :
      (e : List ℕ)
      → Same (nv12 p.a p.b turned) p
      → Draws (MarkPoint table text (2 * p.a) (y * (2 * p.a) + x)) turned e
      → Marks (TextPoint table text x y) (nv12 p.a p.b e) p
  mark-Marks e same drawn = record {
    white = λ column row hc hr h. drawn.white (luma_at p.a column row) (from column row h);
    other = λ column row hc hr. elim (drawn.other (luma_at p.a column row)) [
      | inl h ↦ inl (to column row hc h)
      | inr f ↦ inr (f ∙ same.same_y column row hc hr)
    ];
    same_u = λ column row hc hr. elim (drawn.other (chroma_at p.a p.b column row)) [
      | inl h ↦ absurd (omega (arith, low (chroma_at p.a p.b column row) h))
      | inr f ↦ f ∙ same.same_u column row hc hr
    ];
    same_v = λ column row hc hr. elim (drawn.other (chroma_at p.a p.b column row + 1)) [
      | inl h ↦ absurd (omega (arith, low (chroma_at p.a p.b column row + 1) h))
      | inr f ↦ f ∙ same.same_v column row hc hr
    ];
  }

-- The steps of `addOsd` one after the other.
add_osd-steps :
    (u : YuvUtils) (src dest date turned drawn table : List ℕ) (w : ℕ)
    → turn u.rotation u.frame_width u.frame_height src dest ≡ some (turned, w)
    → u.date_len ≤ length date
    → u.num_arrays ≡ some table
    → draw_mark table (take u.date_len date) w (u.off_y * w + u.off_x) turned ≡ some drawn
    → add_osd u src dest date ≡ some drawn
unfolding add_osd draw_mark
add_osd-steps u src dest date turned drawn table w ran long has drew =
    rw (ran, slice-in date 0 u.date_len (omega arith)) (by_text (take u.date_len date) drew)
  where
    by_text :
        (text : List ℕ)
        → draw_mark table text w (u.off_y * w + u.off_x) turned ≡ some drawn
        → elim text [
          | [] ↦ some turned
          | c ∷ cs ↦ u.num_arrays >>= λ t. draw_mark t (c ∷ cs) w (u.off_y * w + u.off_x) turned
        ]
          ≡ some drawn
    by_text [] h = h
    by_text (c ∷ cs) h = rw has h

-- For a handle that knows an even frame size and one of the three angles and holds a table of 16
-- pictures, buffers with room for a frame, a text of at least as many characters as the mark has, and
-- a mark that fits into the turned picture, `addOsd` succeeds. Read as NV12 its result shows the
-- turned picture with the set points of the characters' pictures made white from `(off_x, off_y)`
-- on, 17 columns for each character: no other brightness and no colour differs.
pub add_osd_lem :
    (u : YuvUtils) (g : Angle) (a b : ℕ) (table src dest date : List ℕ)
    → let p : Picture = quarters (count g) (nv21 a b src) in
      u.rotation ≡ degrees g
      → u.frame_width ≡ 2 * a
      → u.frame_height ≡ 2 * b
      → u.num_arrays ≡ some table
      → 16 * size ≤ length table
      → frame_size a b ≤ length src
      → frame_size a b ≤ length dest
      → u.date_len ≤ length date
      → u.off_x + 17 * u.date_len ≤ 2 * p.a
      → u.off_y + 23 ≤ 2 * p.b
      → (e : List ℕ) × (add_osd u src dest date ≡ some e)
        × (length e ≡ length dest)
        × Marks (TextPoint table (take u.date_len date) u.off_x u.off_y) (nv12 p.a p.b e) p
add_osd_lem u g a b table src dest date angle width height has all enough room long wide high =
    let p : Picture = quarters (count g) (nv21 a b src) in
    let text : List ℕ = take u.date_len date in
    let text_size : length text ≡ u.date_len = length-slice date 0 u.date_len (omega arith) in
    let (d, ran, kept, same) = turn_lem g a b src dest enough room in
    let fits : frame_size p.a p.b ≡ frame_size a b = frame_size-quarters g a b src in
    let (e, drew, drawn) =
      mark-Draws table all (2 * p.a) text (u.off_y * (2 * p.a) + u.off_x) d
        (omega (arith, kept, text_size, fits, mark-fits p u.off_y high)) in
    (
      e,
      add_osd-steps u src dest date d e table (2 * p.a) (rw (angle, width, height) ran) long has
          drew,
      drawn.same_size ∙ kept,
      mark-Marks p d table text u.off_x u.off_y (omega (arith, text_size)) high e same drawn,
    )
  where
    frame_size-quarters :
        (g : Angle) (a b : ℕ) (src : List ℕ)
        → frame_size (quarters (count g) (nv21 a b src)).a (quarters (count g) (nv21 a b src)).b
          ≡ frame_size a b
    frame_size-quarters straight a b src = refl
    frame_size-quarters right a b src = grind arith
    frame_size-quarters left a b src = grind arith

    mark-fits :
        (p : Picture) (y : ℕ)
        → y + 23 ≤ 2 * p.b
        → y * (2 * p.a) + 22 * (2 * p.a) + 2 * p.a ≤ 2 * p.a * (2 * p.b)
    mark-fits p y h =
        let e : 2 * p.b ≡ y + 23 + (2 * p.b - y - 23) = omega arith in
        subst (λ n. y * (2 * p.a) + 22 * (2 * p.a) + 2 * p.a ≤ 2 * p.a * n) (sym e) (grind arith)
