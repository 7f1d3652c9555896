-- ===== src/Osd/Frame/Blocks.antt =====
-- What the copying loops of `addOsd` write.
use jrtplib4android.Prelude.{
  ℕ, zero, suc, ◌+◌, ◌*◌, ◌-◌, ◌/◌, ◌%◌, ◌≤◌, ◌<◌, ◌≡◌, refl, sym, ap, ◌∙◌, some, List, arith,
  get_elem?, length, set, length-set, get_elem?-set_self, get_elem?-set_ne,
}
use jrtplib4android.Prelude.Bytes.{put-in, get_elem?-in}
use jrtplib4android.Osd.Frame.Fills.{Fills, walk_all, flatten_points, flatten_pairs}
use jrtplib4android.Osd.Frame.{walk, copy_point, copy_pair, copy_points, copy_pairs}

module _ (src : List ℕ) where
  -- One byte, and one pair of bytes.
  point-Fills :
      (i k : ℕ) (d : List ℕ)
      → i < length src
      → k + 1 ≤ length d
      → (e : List ℕ) × (copy_point src i k d ≡ some e) × Fills 1 1 k (λ r c. get_elem? src i) d e
  unfolding copy_point
  point-Fills i k d there room =
      let (v, found) = get_elem?-in src i there in
      (
        set d k v,
        rw (found, put-in d k v (omega arith)),
        record {
          same_size = length-set d k v;
          inside = λ r c hr hc.
              let e : k + r * 1 + c ≡ k = omega arith in
              rw (e, found) (get_elem?-set_self d k v (omega arith));
          outside = λ q h. get_elem?-set_ne d v (λ e. ground arith);
        },
      )

  pair_inside :
      (i k r c : ℕ) (e : List ℕ)
      → get_elem? e k ≡ get_elem? src (i + 1)
      → get_elem? e (k + 1) ≡ get_elem? src i
      → r < 1
      → c < 2
      → get_elem? e (k + r * 2 + c) ≡ get_elem? src (i + 1 - c)
  pair_inside i k r zero e first second hr hc =
      let p : k + r * 2 + 0 ≡ k = omega arith in
      let q : i + 1 ≡ i + 1 - 0 = omega arith in
      ap (λ n. get_elem? e n) p ∙ (first ∙ ap (λ n. get_elem? src n) q)
  pair_inside i k r (suc c) e first second hr hc =
      let p : k + r * 2 + suc c ≡ k + 1 = omega arith in
      let q : i ≡ i + 1 - suc c = omega arith in
      ap (λ n. get_elem? e n) p ∙ (second ∙ ap (λ n. get_elem? src n) q)

  pair-Fills :
      (i k : ℕ) (d : List ℕ)
      → i + 1 < length src
      → k + 2 ≤ length d
      → (e : List ℕ) × (copy_pair src i k d ≡ some e)
        × Fills 1 2 k (λ r c. get_elem? src (i + 1 - c)) d e
  unfolding copy_pair
  pair-Fills i k d there room =
      let (v, found) = get_elem?-in src (i + 1) there in
      let (u, found_u) = get_elem?-in src i (omega arith) in
      let half : List ℕ = set d k v in
      let e : List ℕ = set half (k + 1) u in
      let size : length half ≡ length d = length-set d k v in
      let at_k : get_elem? e k ≡ some v =
        get_elem?-set_ne half u (λ q. ground arith) ∙ get_elem?-set_self d k v (omega arith) in
      let at_next : get_elem? e (k + 1) ≡ some u =
        get_elem?-set_self half (k + 1) u (omega arith) in
      (
        e,
        rw (found, put-in d k v (omega arith), found_u, put-in half (k + 1) u (omega arith)),
        record {
          same_size = length-set half (k + 1) u ∙ size;
          inside =
              λ r c hr hc. pair_inside i k r c e (at_k ∙ sym found) (at_next ∙ sym found_u) hr hc;
          outside = λ q h.
              get_elem?-set_ne half u (λ e. ground arith)
              ∙ get_elem?-set_ne d v (λ e. ground arith);
        },
      )

-- What a pair of the chroma loops leaves.
pub Fills-pair :
    (src : List ℕ) (index : ℕ → ℕ → ℕ) (rows n k : ℕ) (before after : List ℕ)
    → Fills rows (2 * n) k (λ r c. get_elem? src (index r (c / 2) + 1 - c % 2)) before after
    → (r t : ℕ) → r < rows
    → t < n
    → (get_elem? after (k + r * (2 * n) + 2 * t) ≡ get_elem? src (index r t + 1))
      × (get_elem? after (k + r * (2 * n) + 2 * t + 1) ≡ get_elem? src (index r t))
Fills-pair src index rows n k before after f r t hr ht = (
  let p : 2 * t / 2 ≡ t = omega arith in
      let q : index r t + 1 - 2 * t % 2 ≡ index r t + 1 = omega arith in
      f.inside r (2 * t) hr (omega arith)
      ∙ (ap (λ s. get_elem? src (index r s + 1 - 2 * t % 2)) p ∙ ap (λ i. get_elem? src i) q),
  let o : k + r * (2 * n) + 2 * t + 1 ≡ k + r * (2 * n) + (2 * t + 1) = omega arith in
      let p : (2 * t + 1) / 2 ≡ t = omega arith in
      let q : index r t + 1 - (2 * t + 1) % 2 ≡ index r t = omega arith in
      ap (λ i. get_elem? after i) o
      ∙ (f.inside r (2 * t + 1) hr (omega arith)
          ∙ (ap (λ s. get_elem? src (index r s + 1 - (2 * t + 1) % 2)) p
              ∙ ap (λ i. get_elem? src i) q)),
)

module _ (src : List ℕ) (index : ℕ → ℕ → ℕ) (rows n k : ℕ) (dest : List ℕ) where
  -- The luma loops, and the chroma loops, if they read within the source and write within the
  -- destination.
  pub copy_points-Fills :
      ((r t : ℕ) → r < rows → t < n → index r t < length src)
      → k + rows * n ≤ length dest
      → (e : List ℕ) × (copy_points src index rows n k dest ≡ some e)
        × Fills rows n k (λ r t. get_elem? src (index r t)) dest e
  unfolding copy_points
  copy_points-Fills there room =
      walk_all n (λ r. walk 1 (λ t. copy_point src (index r t)) n 0)
        (λ r t. get_elem? src (index r t)) rows k (length dest) row dest room refl
    where
      row :
          (r at : ℕ) (d : List ℕ)
          → r < rows
          → at + n ≤ length dest
          → length d ≡ length dest
          → (e : List ℕ) × (walk 1 (λ t. copy_point src (index r t)) n 0 at d ≡ some e)
            × Fills 1 n at (λ i t. get_elem? src (index r t)) d e
      row r at d hr fits all =
          let (e, ran, filled) =
            walk_all 1 (λ t. copy_point src (index r t)) (λ t c. get_elem? src (index r t)) n at
              (length dest)
              (λ t m d ht room size.
                point-Fills src (index r t) m d (there r t hr ht) (omega arith))
              d (omega arith) all in
          (e, ran, flatten_points n at (λ t. get_elem? src (index r t)) d e filled)

  pub copy_pairs-Fills :
      ((r t : ℕ) → r < rows → t < n → index r t + 1 < length src)
      → k + rows * (2 * n) ≤ length dest
      → (e : List ℕ) × (copy_pairs src index rows n k dest ≡ some e)
        × Fills rows (2 * n) k (λ r c. get_elem? src (index r (c / 2) + 1 - c % 2)) dest e
  unfolding copy_pairs
  copy_pairs-Fills there room =
      walk_all (2 * n) (λ r. walk 2 (λ t. copy_pair src (index r t)) n 0)
        (λ r c. get_elem? src (index r (c / 2) + 1 - c % 2)) rows k (length dest) row dest room refl
    where
      row :
          (r at : ℕ) (d : List ℕ)
          → r < rows
          → at + 2 * n ≤ length dest
          → length d ≡ length dest
          → (e : List ℕ) × (walk 2 (λ t. copy_pair src (index r t)) n 0 at d ≡ some e)
            × Fills 1 (2 * n) at (λ i c. get_elem? src (index r (c / 2) + 1 - c % 2)) d e
      row r at d hr fits all =
          let (e, ran, filled) =
            walk_all 2 (λ t. copy_pair src (index r t)) (λ t c. get_elem? src (index r t + 1 - c)) n
              at (length dest)
              (λ t m d ht room size. pair-Fills src (index r t) m d (there r t hr ht) (omega arith))
              d (omega arith) all in
          (e, ran, flatten_pairs n at (λ t c. get_elem? src (index r t + 1 - c)) d e filled)
