-- ===== src/Osd/Frame/Straight.antt =====
-- The frame that `addOsd` does not turn, and the two copies that make it.
use jrtplib4android.Prelude.{
  ℕ, ◌+◌, ◌*◌, ◌-◌, ◌/◌, ◌<◌, ◌≤◌, ◌≡◌, refl, ap, ◌∙◌, inl, Option, none, some, List, arith, length,
  take, drop, ◌++◌, length-append, length-drop, get_elem?,
}
use jrtplib4android.Prelude.Bytes.{
  ◌>>=◌, slice, blit, slice-in, blit-in, length-slice, get_elem?-take-append, get_elem?-append,
  get_elem?-drop,
}
use jrtplib4android.Osd.Frame.{copy_pairs, turn_0}
use jrtplib4android.Osd.Frame.Blocks.{Fills-pair, copy_pairs-Fills}
use jrtplib4android.Osd.Frame.Turn.{frame_size}
use jrtplib4android.Osd.Frame.Picture.{Same, nv21, nv12, luma_at, chroma_at, place-fits}

-- The chroma of a frame that is not turned, with the bytes of each pair exchanged.
pub chroma_copy :
    (src d : List ℕ) (a b : ℕ)
    → frame_size a b ≤ length src
    → frame_size a b ≤ length d
    → let n : ℕ = 2 * a * (2 * b) in
      (e : List ℕ) × (copy_pairs src (λ r t. n + 2 * t) 1 ((n / 2 + 1) / 2) n d ≡ some e)
      × (length e ≡ length d)
      × ((i : ℕ) → i < n → get_elem? e i ≡ get_elem? d i)
      × ((column row : ℕ)
          → column < a
          → row < b
          → (get_elem? e (chroma_at a b column row) ≡ get_elem? src (chroma_at a b column row + 1))
            × (get_elem? e (chroma_at a b column row + 1)
                ≡ get_elem? src (chroma_at a b column row)))
chroma_copy src d a b enough room =
    let n : ℕ = 2 * a * (2 * b) in
    let pairs : ℕ → ℕ → ℕ = λ r t. n + 2 * t in
    let rounds : (n / 2 + 1) / 2 ≡ a * b = grind arith in
    let half : 2 * a * b ≡ 1 * (2 * (a * b)) = grind arith in
    let (e, ran, chroma) =
      copy_pairs-Fills src pairs 1 (a * b) n d (λ r t hr ht. omega (arith, half))
        (omega (arith, half)) in
    (
      e,
      ap (λ m. copy_pairs src pairs 1 m n d) rounds ∙ ran,
      chroma.same_size,
      λ i h. chroma.outside i (inl h),
      λ column row hc hr.
          let at : chroma_at a b column row ≡ n + 0 * (2 * (a * b)) + 2 * (row * a + column) =
            grind arith in
          let from : n + 2 * (row * a + column) ≡ chroma_at a b column row = grind arith in
          let turned : b * a ≡ a * b = grind arith in
          let (one, two) =
            Fills-pair src pairs 1 (a * b) n d e chroma 0 (row * a + column) (omega arith)
              (omega (arith, turned, place-fits row b a column hr hc)) in
          (
            ap (λ i. get_elem? e i) at ∙ (one ∙ ap (λ i. get_elem? src (i + 1)) from),
            ap (λ i. get_elem? e (i + 1)) at ∙ (two ∙ ap (λ i. get_elem? src i) from),
          ),
    )

-- The copy of the first `n` bytes of one buffer over those of another.
pub prefix_copy :
    (src dest : List ℕ) (n : ℕ)
    → n ≤ length src
    → n ≤ length dest
    → (d : List ℕ) × ((slice src 0 n >>= λ luma. blit dest 0 luma) ≡ some d)
      × (length d ≡ length dest)
      × ((i : ℕ) → i < n → get_elem? d i ≡ get_elem? src i)
      × ((i : ℕ) → n ≤ i → get_elem? d i ≡ get_elem? dest i)
prefix_copy src dest n enough room =
    let luma : List ℕ = take n src in
    let luma_size : length luma ≡ n = length-slice src 0 n (omega arith) in
    let behind : List ℕ = drop (0 + length luma) dest in
    (
      luma ++ behind,
      rw (slice-in src 0 n (omega arith), blit-in dest 0 luma (omega (arith, luma_size))),
      omega (arith, luma_size, length-append luma behind, length-drop (0 + length luma) dest),
      λ i h. get_elem?-take-append n src behind i (omega arith) h,
      λ i h.
          get_elem?-append luma behind i (i - n) (omega (arith, luma_size))
          ∙ (get_elem?-drop (0 + length luma) dest (i - n)
              ∙ ap (λ j. get_elem? dest j) (omega (arith, luma_size))),
    )

pub >>=_assoc :
    {A B C : Type 0} (o : Option A) (f : A → Option B) (k : B → Option C) (b : B)
    → (o >>= f) ≡ some b
    → (o >>= λ a. f a >>= k) ≡ k b
>>=_assoc none f k b h = absurd (ground arith)
>>=_assoc (some a) f k b h = rw h

pub turn_0-Same :
    (src dest : List ℕ) (a b : ℕ)
    → frame_size a b ≤ length src
    → frame_size a b ≤ length dest
    → (e : List ℕ) × (turn_0 src (2 * a) (2 * b) dest ≡ some e)
      × (length e ≡ length dest)
      × Same (nv12 a b e) (nv21 a b src)
unfolding turn_0
turn_0-Same src dest a b enough room =
    let n : ℕ = 2 * a * (2 * b) in
    let turned : 2 * b * (2 * a) ≡ n = grind arith in
    let (d, copied, d_size, luma, behind) = prefix_copy src dest n (omega arith) (omega arith) in
    let (e, ran, e_size, kept, pair) = chroma_copy src d a b enough (omega (arith, d_size)) in
    (
      e,
      >>=_assoc (slice src 0 n) (λ l. blit dest 0 l)
            (copy_pairs src (λ r t. n + 2 * t) 1 ((n / 2 + 1) / 2) n) d copied
          ∙ ran,
      e_size ∙ d_size,
      record {
        same_a = refl;
        same_b = refl;
        same_y = λ column row hc hr.
            let inside : luma_at a column row < n =
              omega (arith, turned, place-fits row (2 * b) (2 * a) column hr hc) in
            kept (luma_at a column row) inside ∙ luma (luma_at a column row) inside;
        same_u = λ column row hc hr. (pair column row hc hr).0;
        same_v = λ column row hc hr. (pair column row hc hr).1;
      },
    )
