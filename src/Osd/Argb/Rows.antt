-- ===== src/Osd/Argb/Rows.antt =====
-- The loops of the conversion over a frame of `2 * a` by `2 * b` points.
use jrtplib4android.Prelude.{
  ℕ, zero, suc, ◌+◌, ◌*◌, ◌%◌, ◌<◌, ◌≤◌, ◌≡◌, refl, ap, inl, inr, Option, List, arith, length,
  subst,
}
use jrtplib4android.Prelude.Int.{ℤ}
use jrtplib4android.Osd.Argb.{Canvas, convert_row, convert_rows}
use jrtplib4android.Osd.Argb.Steps.{
  Steps, Steps-then, Steps-eq, Steps-none, point_lit, point_coloured,
}
use jrtplib4android.Osd.Frame.Picture.{luma_at, chroma_at, place-fits, rows-fit}
use jrtplib4android.Osd.Frame.Turn.{frame_size}

module _ (argb : List ℕ) (first second : ℕ → ℤ) (a b total : ℕ)
    (all : 2 * a * (2 * b) ≤ length argb) (room : frame_size a b ≤ total) where
  abbrev Leads : (Canvas → Option Canvas) → (n uv n' uv' : ℕ) → Type 0
  Leads = Steps argb first second a b total

  turned : 2 * b * (2 * a) ≡ 2 * a * (2 * b)
  turned = grind arith

  -- A row without colours, and the rest of a row with colours from square `c` on.
  odd_row :
      (j k n uv : ℕ)
      → j % 2 ≡ 1
      → n + k ≤ 2 * a * (2 * b)
      → Leads (convert_row argb first second j k) n uv (n + k) uv
  unfolding convert_row
  odd_row j zero n uv odd low = Steps-none argb first second a b total (omega arith) refl
  odd_row j (suc k) n uv odd low = Steps-eq refl refl (omega arith) refl (
      Steps-then (point_lit argb first second a b total all room j n uv (inl odd) (omega arith))
        (odd_row j k (n + 1) uv odd (omega arith)))

  even_row :
      (m c r : ℕ)
      → c + m ≡ a
      → r < b
      → Leads
          (convert_row argb first second (2 * r) (2 * m))
          (luma_at a (2 * c) (2 * r))
          (chroma_at a b c r)
          (luma_at a (2 * a) (2 * r))
          (chroma_at a b a r)
  unfolding convert_row
  even_row zero c r last hr = Steps-none argb first second a b total (omega arith) (omega arith)
  even_row (suc m) c r last hr =
      let twice : suc (suc (2 * m)) ≡ 2 * suc m = omega arith in
      let n : ℕ = luma_at a (2 * c) (2 * r) in
      let uv : ℕ = chroma_at a b c r in
      let even : n ≡ 2 * (2 * r * a + c) = grind arith in
      let low : n + 1 < 2 * a * (2 * b) = omega (
        arith,
        turned,
        place-fits (2 * r) (2 * b) (2 * a) (2 * c + 1) (omega arith) (omega arith),
      ) in
      subst
        (λ k.
          Leads (convert_row argb first second (2 * r) k) n uv (luma_at a (2 * a) (2 * r))
            (chroma_at a b a r))
        twice
        (Steps-then (point_coloured argb first second a b total all room c r (omega arith) hr) (
          Steps-then
            (point_lit argb first second a b total all room (2 * r) (n + 1) (uv + 2)
              (inr (omega (arith, even))) low)
            (Steps-eq (omega arith) (omega arith) refl refl
              (even_row m (c + 1) r (omega arith) hr))))

  rows :
      (m r : ℕ)
      → r + m ≡ b
      → Leads
          (convert_rows argb first second (2 * a) (2 * m) (2 * r))
          (luma_at a 0 (2 * r))
          (chroma_at a b 0 r)
          (luma_at a 0 (2 * b))
          (chroma_at a b 0 b)
  unfolding convert_rows
  rows zero r last =
      let e : r ≡ b = omega arith in
      Steps-none argb first second a b total (ap (λ i. luma_at a 0 (2 * i)) e)
        (ap (λ i. chroma_at a b 0 i) e)
  rows (suc m) r last =
      let twice : suc (suc (2 * m)) ≡ 2 * suc m = omega arith in
      let next : 2 * (r + 1) ≡ 2 * r + 1 + 1 = omega arith in
      let uv : ℕ = chroma_at a b a r in
      let width : ℕ = 2 * a in
      let end : ℕ = luma_at a width (2 * r) in
      let below : end + width ≡ luma_at a 0 (2 * (r + 1)) = grind arith in
      let colours : uv ≡ chroma_at a b 0 (r + 1) = grind arith in
      let low : end + width ≤ 2 * a * (2 * b) =
        let f : (2 * r + 1) * (2 * a) ≡ 2 * r * (2 * a) + 2 * a = grind arith in
        omega (arith, turned, f, rows-fit (2 * r + 1) (2 * b) (2 * a) (omega arith)) in
      subst
        (λ k.
          Leads (convert_rows argb first second width k (2 * r)) (luma_at a 0 (2 * r))
            (chroma_at a b 0 r) (luma_at a 0 (2 * b)) (chroma_at a b 0 b))
        twice
        (Steps-then (even_row a 0 r (omega arith) (omega arith)) (
          Steps-then (odd_row (2 * r + 1) width end uv (omega arith) low) (
            subst
              (λ j.
                Leads (convert_rows argb first second width (2 * m) j) (end + width) uv
                  (luma_at a 0 (2 * b)) (chroma_at a b 0 b))
              next (Steps-eq below colours refl refl (rows m (r + 1) (omega arith))))))

  -- All rows.
  pub frame_rows :
      Steps argb first second a b total
        (convert_rows argb first second (2 * a) (2 * b) 0)
        0
        (2 * a * (2 * b))
        (2 * a * (2 * b))
        (frame_size a b)
  frame_rows =
      Steps-eq (grind arith) (grind arith) (grind arith) (grind arith) (rows b 0 (omega arith))
