-- ===== src/Osd/Argb/Steps.antt =====
-- Steps of the conversion, from one canvas to another.
use jrtplib4android.Prelude.{
  ℕ, ◌+◌, ◌*◌, ◌%◌, ◌<◌, ◌≤◌, ◌≡◌, refl, sym, ◌∙◌, ◌⊎◌, Option, some, List, arith, ◌==◌, ◌&&◌,
  false, true, length, set, length-set, subst,
}
use jrtplib4android.Prelude.Int.{ℤ}
use jrtplib4android.Prelude.Bytes.{◌>>=◌, put-in, get_elem?-in}
use jrtplib4android.Osd.Argb.{Canvas, luma, clamp, write_pair, convert_point}
use jrtplib4android.Osd.Argb.Points.{Written, lit-Written, coloured-Written}
use jrtplib4android.Osd.Frame.Picture.{luma_at, chroma_at, place-fits, rows-fit}
use jrtplib4android.Osd.Frame.Turn.{frame_size}

-- The loop variables after `n` points; both indexes of points are the same.
abbrev pub canvas : (n uv : ℕ) → List ℕ → Canvas
canvas n uv bytes = record { yuv420sp = bytes; y_index = n; uv_index = uv; index = n }

module _ (argb : List ℕ) (first second : ℕ → ℤ) (a b total : ℕ) where
  -- From the canvas of `n` and `uv`, `f` leads to that of `n'` and `uv'`.
  pub record Steps (f : Canvas → Option Canvas) (n uv n' uv' : ℕ) : Type 0 where
    pub leads :
        (bytes : List ℕ)
        → length bytes ≡ total
        → Written argb first second a b n uv bytes
        → (d : List ℕ) × (f (canvas n uv bytes) ≡ some (canvas n' uv' d))
          × (length d ≡ total)
          × Written argb first second a b n' uv' d

module _ {argb : List ℕ} {first second : ℕ → ℤ} {a b total : ℕ} {f : Canvas → Option Canvas}
    {n uv n1 uv1 : ℕ} where
  -- One after the other.
  pub Steps-then :
      {g : Canvas → Option Canvas} {n2 uv2 : ℕ}
      → Steps argb first second a b total f n uv n1 uv1
      → Steps argb first second a b total g n1 uv1 n2 uv2
      → Steps argb first second a b total (λ s. f s >>= g) n uv n2 uv2
  Steps-then one two = record {
    leads = λ bytes size w.
        let (d, ran, d_size, dw) = one.leads bytes size w in
        let (e, rest, e_size, ew) = two.leads d d_size dw in (e, rw ran rest, e_size, ew);
  }

  -- With the places written otherwise.
  pub Steps-eq :
      {n' uv' n1' uv1' : ℕ}
      → n' ≡ n
      → uv' ≡ uv
      → n1 ≡ n1'
      → uv1 ≡ uv1'
      → Steps argb first second a b total f n uv n1 uv1
      → Steps argb first second a b total f n' uv' n1' uv1'
  Steps-eq {n' = n'} {uv' = uv'} {n1' = n1'} {uv1' = uv1'} p q r s one =
      let S : ℕ → ℕ → ℕ → ℕ → Type 0 = Steps argb first second a b total f in
      subst (λ m. S m uv' n1' uv1') (sym p)
        (subst (λ m. S n m n1' uv1') (sym q)
          (subst (λ m. S n uv m uv1') r (subst (λ m. S n uv n1 m) s one)))

module _ (argb : List ℕ) (first second : ℕ → ℤ) (a b total : ℕ) where
  pub Steps-none :
      {n uv n1 uv1 : ℕ}
      → n ≡ n1
      → uv ≡ uv1
      → Steps argb first second a b total (λ s. some s) n uv n1 uv1
  Steps-none p q =
      Steps-eq refl refl p q (record { leads = λ bytes size w. (bytes, refl, size, w) })

  module _ (all : 2 * a * (2 * b) ≤ length argb) (room : frame_size a b ≤ total) where
    pub point_lit :
        (j n uv : ℕ)
        → (j % 2 ≡ 1) ⊎ (n % 2 ≡ 1)
        → n < 2 * a * (2 * b)
        → Steps argb first second a b total (convert_point argb first second j) n uv (n + 1) uv
    unfolding convert_point write_pair
    point_lit j n uv odd low = record {
      leads = λ bytes size w.
          let (v, found) = get_elem?-in argb n (omega arith) in
          let test : (((j % 2) == 0) && ((n % 2) == 0)) ≡ false = ground arith in
          (
            set bytes n (clamp (luma v)),
            rw (found, put-in bytes n (clamp (luma v)) (omega arith), test),
            length-set bytes n (clamp (luma v)) ∙ size,
            lit-Written argb first second a b n uv v bytes w found low (omega arith),
          );
    }

    pub point_coloured :
        (c r : ℕ)
        → c < a
        → r < b
        → Steps argb first second a b total
            (convert_point argb first second (2 * r))
            (luma_at a (2 * c) (2 * r))
            (chroma_at a b c r)
            (luma_at a (2 * c) (2 * r) + 1)
            (chroma_at a b c r + 2)
    unfolding convert_point write_pair
    point_coloured c r hc hr = record {
      leads = λ bytes size w.
          let n : ℕ = luma_at a (2 * c) (2 * r) in
          let low : n < 2 * a * (2 * b) =
            let e : 2 * b * (2 * a) ≡ 2 * a * (2 * b) = grind arith in
            omega
              (arith, e, place-fits (2 * r) (2 * b) (2 * a) (2 * c) (omega arith) (omega arith)) in
          let (v, found) = get_elem?-in argb n (omega arith) in
          let even : n ≡ 2 * (2 * r * a + c) = grind arith in
          let test : (((2 * r % 2) == 0) && ((n % 2) == 0)) ≡ true =
            let row : 2 * r % 2 ≡ 0 = omega arith in
            let column : n % 2 ≡ 0 = omega (arith, even) in ground arith in
          let lit : List ℕ = set bytes n (clamp (luma v)) in
          let lit_size : length lit ≡ total = length-set bytes n (clamp (luma v)) ∙ size in
          let fits : chroma_at a b c r + 1 < total =
            let e : b * (2 * a) ≡ 2 * a * b = grind arith in
            omega (arith, e, rows-fit r b (2 * a) hr) in
          let half : List ℕ = set lit (chroma_at a b c r) (clamp (first v)) in
          let half_size : length half ≡ total =
            length-set lit (chroma_at a b c r) (clamp (first v)) ∙ lit_size in
          (
            set half (chroma_at a b c r + 1) (clamp (second v)),
            rw (
              found,
              put-in bytes n (clamp (luma v)) (omega arith),
              test,
              put-in lit (chroma_at a b c r) (clamp (first v)) (omega (arith, lit_size)),
              put-in half (chroma_at a b c r + 1) (clamp (second v)) (omega (arith, half_size)),
            ),
            length-set half (chroma_at a b c r + 1) (clamp (second v)) ∙ half_size,
            coloured-Written argb first second a b (n + 1) c r v lit
                (lit-Written argb first second a b n (chroma_at a b c r) v bytes w found low
                  (omega arith))
                (omega arith) hc found (omega (arith, lit_size)),
          );
    }
