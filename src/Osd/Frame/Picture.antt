-- ===== src/Osd/Frame/Picture.antt =====
-- What `addOsd` is about: a picture as the colours of its points, and a clockwise turn of it.
use jrtplib4android.Prelude.{
  ℕ, zero, suc, ◌+◌, ◌*◌, ◌-◌, ◌<◌, ◌≤◌, ◌≡◌, Option, List, get_elem?, arith, subst, sym, ap, ap₂,
  refl, ◌∙◌, dec_lt,
}

-- A picture of `2 * a` by `2 * b` points. `y` gives a point's brightness by column and row; `u` and
-- `v` give the colour of a square of four points.
pub record Picture : Type 0 where
  pub a : ℕ
  pub b : ℕ
  pub y : ℕ → ℕ → Option ℕ
  pub u : ℕ → ℕ → Option ℕ
  pub v : ℕ → ℕ → Option ℕ

-- Where the bytes of a frame of `2 * a` by `2 * b` points are.
abbrev pub luma_at : (a column row : ℕ) → ℕ
luma_at a column row = row * (2 * a) + column

abbrev pub chroma_at : (a b column row : ℕ) → ℕ
chroma_at a b column row = 2 * a * (2 * b) + row * (2 * a) + 2 * column

-- The picture that bytes in NV21 show (V comes first), and in NV12 (U comes first).
abbrev pub nv21 : (a b : ℕ) → List ℕ → Picture
nv21 a b bytes = record {
  a = a;
  b = b;
  y = λ column row. get_elem? bytes (luma_at a column row);
  u = λ column row. get_elem? bytes (chroma_at a b column row + 1);
  v = λ column row. get_elem? bytes (chroma_at a b column row);
}

abbrev pub nv12 : (a b : ℕ) → List ℕ → Picture
nv12 a b bytes = record {
  a = a;
  b = b;
  y = λ column row. get_elem? bytes (luma_at a column row);
  u = λ column row. get_elem? bytes (chroma_at a b column row);
  v = λ column row. get_elem? bytes (chroma_at a b column row + 1);
}

-- A quarter turn: the left column, read upwards, becomes the top row.
abbrev pub clockwise : Picture → Picture
clockwise p = record {
  a = p.b;
  b = p.a;
  y = λ column row. p.y row (2 * p.b - 1 - column);
  u = λ column row. p.u row (p.b - 1 - column);
  v = λ column row. p.v row (p.b - 1 - column);
}

-- Two pictures of one size with the same points.
pub record Same (p q : Picture) : Type 0 where
  pub same_a : p.a ≡ q.a
  pub same_b : p.b ≡ q.b
  pub same_y : (column row : ℕ) → column < 2 * q.a → row < 2 * q.b → p.y column row ≡ q.y column row
  pub same_u : (column row : ℕ) → column < q.a → row < q.b → p.u column row ≡ q.u column row
  pub same_v : (column row : ℕ) → column < q.a → row < q.b → p.v column row ≡ q.v column row

-- A row of a table, and a place of it, lie inside the table.
pub rows-fit : (row rows n : ℕ) → row < rows → row * n + n ≤ rows * n
rows-fit row rows n h =
    let e : rows ≡ row + 1 + (rows - 1 - row) = omega arith in
    subst (λ r. row * n + n ≤ r * n) (sym e) (grind arith)

pub place-fits : (row rows n column : ℕ) → row < rows → column < n → row * n + column < rows * n
place-fits row rows n column h k = omega (arith, rows-fit row rows n h)

-- `k` quarter turns.
abbrev pub quarters : ℕ → Picture → Picture
quarters zero p = p
quarters (suc k) p = clockwise (quarters k p)

pub Same-trans : (p q r : Picture) → Same p q → Same q r → Same p r
Same-trans p q r f g = record {
  same_a = f.same_a ∙ g.same_a;
  same_b = f.same_b ∙ g.same_b;
  same_y = λ c s hc hs.
      f.same_y c s (subst (λ n. c < 2 * n) (sym g.same_a) hc)
        (subst (λ n. s < 2 * n) (sym g.same_b) hs)
      ∙ g.same_y c s hc hs;
  same_u = λ c s hc hs.
      f.same_u c s (subst (λ n. c < n) (sym g.same_a) hc) (subst (λ n. s < n) (sym g.same_b) hs)
      ∙ g.same_u c s hc hs;
  same_v = λ c s hc hs.
      f.same_v c s (subst (λ n. c < n) (sym g.same_a) hc) (subst (λ n. s < n) (sym g.same_b) hs)
      ∙ g.same_v c s hc hs;
}

clockwise-Same : (p q : Picture) → Same p q → Same (clockwise p) (clockwise q)
clockwise-Same p q f = record {
  same_a = f.same_b;
  same_b = f.same_a;
  same_y = λ c s hc hs.
      ap (λ n. p.y s (2 * n - 1 - c)) f.same_b ∙ f.same_y s (2 * q.b - 1 - c) hs (omega arith);
  same_u =
      λ c s hc hs. ap (λ n. p.u s (n - 1 - c)) f.same_b ∙ f.same_u s (q.b - 1 - c) hs (omega arith);
  same_v =
      λ c s hc hs. ap (λ n. p.v s (n - 1 - c)) f.same_b ∙ f.same_v s (q.b - 1 - c) hs (omega arith);
}

pub quarters-Same : (k : ℕ) (p q : Picture) → Same p q → Same (quarters k p) (quarters k q)
quarters-Same zero p q f = f
quarters-Same (suc k) p q f = clockwise-Same (quarters k p) (quarters k q) (quarters-Same k p q f)

-- Four quarter turns change nothing.
pub quarters-four : (p : Picture) → Same (quarters 4 p) p
quarters-four p = record {
  same_a = refl;
  same_b = refl;
  same_y = λ c s hc hs. ap₂ p.y (back (2 * p.a) c hc) (back (2 * p.b) s hs);
  same_u = λ c s hc hs. ap₂ p.u (back p.a c hc) (back p.b s hs);
  same_v = λ c s hc hs. ap₂ p.v (back p.a c hc) (back p.b s hs);
}
  where
    back : (n i : ℕ) → i < n → n - 1 - (n - 1 - i) ≡ i
    back n i h = omega arith

-- The colours exchanged, as when NV12 is read as NV21.
abbrev pub exchanged : Picture → Picture
exchanged p = record p { u = p.v; v = p.u }

pub exchanged-Same : (p q : Picture) → Same p q → Same (exchanged p) (exchanged q)
exchanged-Same p q f = record {
  same_a = f.same_a;
  same_b = f.same_b;
  same_y = f.same_y;
  same_u = f.same_v;
  same_v = f.same_u;
}

-- Every index of a table is a place in a row.
pub place :
    (n rows i : ℕ)
    → i < rows * n
    → (row column : ℕ) × (i ≡ row * n + column) × (row < rows) × (column < n)
place n zero i h = absurd (grind arith)
place n (suc rows) i h = elim (dec_lt i n) [
  | yes k ↦ (0, i, grind arith, omega arith, k)
  | no k ↦
      let e : suc rows * n ≡ n + rows * n = grind arith in
      let (row, column, at, hr, hc) = place n rows (i - n) (omega (arith, e, k)) in
      let f : suc row * n ≡ n + row * n = grind arith in
      (suc row, column, omega (arith, f, at, k), omega arith, hc)
]

-- A place of a table has one row and one column.
pub place_unique :
    (n r r' c c' : ℕ) → c < n → c' < n → r * n + c ≡ r' * n + c' → (r ≡ r') × (c ≡ c')
place_unique n zero zero c c' h h' e = (refl, omega arith)
place_unique n zero (suc r') c c' h h' e =
    let f : suc r' * n ≡ n + r' * n = grind arith in absurd (omega (arith, f))
place_unique n (suc r) zero c c' h h' e =
    let f : suc r * n ≡ n + r * n = grind arith in absurd (omega (arith, f))
place_unique n (suc r) (suc r') c c' h h' e =
    let f : suc r * n ≡ n + r * n = grind arith in
    let f' : suc r' * n ≡ n + r' * n = grind arith in
    let (same, again) = place_unique n r r' c c' h h' (omega (arith, f, f')) in (ap suc same, again)

pub Same-sym : (p q : Picture) → Same p q → Same q p
Same-sym p q f = record {
  same_a = sym f.same_a;
  same_b = sym f.same_b;
  same_y = λ c s hc hs.
      sym (f.same_y c s (subst (λ n. c < 2 * n) f.same_a hc) (subst (λ n. s < 2 * n) f.same_b hs));
  same_u = λ c s hc hs.
      sym (f.same_u c s (subst (λ n. c < n) f.same_a hc) (subst (λ n. s < n) f.same_b hs));
  same_v = λ c s hc hs.
      sym (f.same_v c s (subst (λ n. c < n) f.same_a hc) (subst (λ n. s < n) f.same_b hs));
}
