-- ===== src/Osd/Argb/Points.antt =====
-- What the conversion has written after some of the points of a frame of `2 * a` by `2 * b`.
use jrtplib4android.Prelude.{
  ℕ, ◌+◌, ◌*◌, ◌<◌, ◌≤◌, ◌≡◌, sym, ap, ap₂, ◌∙◌, ◌⊎◌, inl, Option, some, List, arith, length,
  get_elem?, set, length-set, get_elem?-set_self, get_elem?-set_ne, dec_lt,
}
use jrtplib4android.Prelude.Int.{ℤ}
use jrtplib4android.Osd.Argb.{luma, clamp}
use jrtplib4android.Osd.Frame.Picture.{luma_at, chroma_at, place_unique}

same_word : {o : Option ℕ} {v x : ℕ} → o ≡ some v → o ≡ some x → v ≡ x
same_word h k = let e = sym h ∙ k in ground arith

module _ (argb : List ℕ) where
  -- The first `n` points have their brightness.
  abbrev pub Lit : ℕ → List ℕ → Type 0
  Lit n bytes =
      (m v : ℕ) → m < n → get_elem? argb m ≡ some v → get_elem? bytes m ≡ some (clamp (luma v))

  pub set-Lit :
      (n v : ℕ) (bytes : List ℕ)
      → Lit n bytes
      → get_elem? argb n ≡ some v
      → n < length bytes
      → Lit (n + 1) (set bytes n (clamp (luma v)))
  set-Lit n v bytes w found room m x h there = elim (dec_lt m n) [
    | yes k ↦ get_elem?-set_ne bytes (clamp (luma v)) (λ e. absurd (omega arith)) ∙ w m x k there
    | no k ↦
        let here : m ≡ n = omega (arith, k) in
        let same : v ≡ x = same_word found (ap (λ i. get_elem? argb i) (sym here) ∙ there) in
        ap (λ i. get_elem? (set bytes n (clamp (luma v))) i) here
        ∙ (get_elem?-set_self bytes n (clamp (luma v)) room ∙ ap (λ z. some (clamp (luma z))) same)
  ]

module _ (argb : List ℕ) (first second : ℕ → ℤ) (a b : ℕ) where
  -- The first `n` points have their brightness, and the squares before `uv` have their colours.
  pub record Written (n uv : ℕ) (bytes : List ℕ) : Type 0 where
    pub lit : Lit argb n bytes
    pub coloured :
        (c r v : ℕ)
        → c < a
        → chroma_at a b c r < uv
        → get_elem? argb (luma_at a (2 * c) (2 * r)) ≡ some v
        → (get_elem? bytes (chroma_at a b c r) ≡ some (clamp (first v)))
          × (get_elem? bytes (chroma_at a b c r + 1) ≡ some (clamp (second v)))

  pub lit-Written :
      (n uv v : ℕ) (bytes : List ℕ)
      → Written n uv bytes
      → get_elem? argb n ≡ some v
      → n < 2 * a * (2 * b)
      → n < length bytes
      → Written (n + 1) uv (set bytes n (clamp (luma v)))
  lit-Written n uv v bytes w found low room = record {
    lit = set-Lit argb n v bytes w.lit found room;
    coloured = λ c r x hc before there. (
      get_elem?-set_ne bytes (clamp (luma v)) (λ e. absurd (omega arith))
          ∙ (w.coloured c r x hc before there).0,
      get_elem?-set_ne bytes (clamp (luma v)) (λ e. absurd (omega arith))
          ∙ (w.coloured c r x hc before there).1,
    );
  }

  even_column : (c r : ℕ) → chroma_at a b c r ≡ 2 * (2 * a * b + r * a + c)
  even_column c r = grind arith

  -- Two colour bytes at the next square.
  module _ (n c r v : ℕ) (bytes : List ℕ) where
    abbrev half : List ℕ
    half = set bytes (chroma_at a b c r) (clamp (first v))

    abbrev both : List ℕ
    both = set half (chroma_at a b c r + 1) (clamp (second v))

    unchanged :
        (q : ℕ)
        → (q < chroma_at a b c r) ⊎ (chroma_at a b c r + 1 < q)
        → get_elem? both q ≡ get_elem? bytes q
    unchanged q far =
        get_elem?-set_ne half (clamp (second v)) (λ e. ground arith)
        ∙ get_elem?-set_ne bytes (clamp (first v)) (λ e. ground arith)

    here :
        chroma_at a b c r + 1 < length bytes
        → (get_elem? both (chroma_at a b c r) ≡ some (clamp (first v)))
          × (get_elem? both (chroma_at a b c r + 1) ≡ some (clamp (second v)))
    here room = (
      get_elem?-set_ne half (clamp (second v)) (λ e. absurd (omega arith))
          ∙ get_elem?-set_self bytes (chroma_at a b c r) (clamp (first v)) (omega arith),
      get_elem?-set_self half (chroma_at a b c r + 1) (clamp (second v))
          (omega (arith, length-set bytes (chroma_at a b c r) (clamp (first v)))),
    )

    pub coloured-Written :
        Written n (chroma_at a b c r) bytes
        → n ≤ 2 * a * (2 * b)
        → c < a
        → get_elem? argb (luma_at a (2 * c) (2 * r)) ≡ some v
        → chroma_at a b c r + 1 < length bytes
        → Written n (chroma_at a b c r + 2) both
    coloured-Written w low hc found room = record {
      lit = λ m x h there. unchanged m (inl (omega arith)) ∙ w.lit m x h there;
      coloured = coloured;
    }
      where
        coloured :
            (c' r' x : ℕ)
            → c' < a
            → chroma_at a b c' r' < chroma_at a b c r + 2
            → get_elem? argb (luma_at a (2 * c') (2 * r')) ≡ some x
            → (get_elem? both (chroma_at a b c' r') ≡ some (clamp (first x)))
              × (get_elem? both (chroma_at a b c' r' + 1) ≡ some (clamp (second x)))
        coloured c' r' x hc' before there =
            let even = even_column c r in
            let even' = even_column c' r' in
            elim (dec_lt (chroma_at a b c' r') (chroma_at a b c r)) [
              | yes k ↦ (
                unchanged (chroma_at a b c' r') (inl k) ∙ (w.coloured c' r' x hc' k there).0,
                unchanged (chroma_at a b c' r' + 1) (inl (omega (arith, even, even')))
                    ∙ (w.coloured c' r' x hc' k there).1,
              )
              | no k ↦
                  let (same_r, same_c) =
                    place_unique (2 * a) r' r (2 * c') (2 * c) (omega arith) (omega arith)
                      (omega (arith, even, even', k)) in
                  let c_eq : c' ≡ c = omega (arith, same_c) in
                  let word : v ≡ x = same_word found (
                    ap₂ (λ i j. get_elem? argb (luma_at a (2 * i) (2 * j))) (sym c_eq) (sym same_r)
                    ∙ there) in
                  (
                    ap₂ (λ i j. get_elem? both (chroma_at a b i j)) c_eq same_r
                        ∙ ((here room).0 ∙ ap (λ z. some (clamp (first z))) word),
                    ap₂ (λ i j. get_elem? both (chroma_at a b i j + 1)) c_eq same_r
                        ∙ ((here room).1 ∙ ap (λ z. some (clamp (second z))) word),
                  )
            ]
