-- ===== src/Osd/Frame/Fills.antt =====
-- Loops that write blocks one behind the other, and nothing else.
use jrtplib4android.Prelude.{
  ℕ, zero, suc, ◌+◌, ◌*◌, ◌/◌, ◌%◌, ◌≤◌, ◌<◌, ◌≡◌, refl, ap, ◌∙◌, ◌⊎◌, inl, inr, Option, some, List,
  arith, get_elem?, length,
}
use jrtplib4android.Osd.Frame.{walk}

-- `n` blocks of `w` bytes from `k` on hold what `value` says, block by block; all else is as before.
pub record Fills (n w k : ℕ) (value : ℕ → ℕ → Option ℕ) (before after : List ℕ) : Type 0 where
  pub same_size : length after ≡ length before
  pub inside : (r c : ℕ) → r < n → c < w → get_elem? after (k + r * w + c) ≡ value r c
  pub outside : (q : ℕ) → (q < k) ⊎ (k + n * w ≤ q) → get_elem? after q ≡ get_elem? before q

suc-mul : (n w : ℕ) → suc n * w ≡ w + n * w
suc-mul n w = grind arith

-- One block and the blocks behind it.
Fills-cons :
    (n w k : ℕ) (value first rest : ℕ → ℕ → Option ℕ) (before middle after : List ℕ)
    → Fills 1 w k first before middle
    → Fills n w (k + w) rest middle after
    → ((c : ℕ) → first 0 c ≡ value 0 c)
    → ((r c : ℕ) → rest r c ≡ value (suc r) c)
    → Fills (suc n) w k value before after
Fills-cons n w k value first rest before middle after one more same same_rest = record {
  same_size = more.same_size ∙ one.same_size;
  inside = inside;
  outside = outside;
}
  where
    inside : (r c : ℕ) → r < suc n → c < w → get_elem? after (k + r * w + c) ≡ value r c
    inside zero c h small =
        more.outside (k + 0 * w + c) (inl (omega arith))
        ∙ (one.inside 0 c (omega arith) small ∙ same c)
    inside (suc r) c h small =
        let e : k + suc r * w + c ≡ k + w + r * w + c = omega (arith, suc-mul r w) in
        ap (λ q. get_elem? after q) e ∙ (more.inside r c (omega arith) small ∙ same_rest r c)

    outside : (q : ℕ) → (q < k) ⊎ (k + suc n * w ≤ q) → get_elem? after q ≡ get_elem? before q
    outside q (inl below) = more.outside q (inl (omega arith)) ∙ one.outside q (inl below)
    outside q (inr above) =
        more.outside q (inr (omega (arith, suc-mul n w)))
        ∙ one.outside q (inr (omega (arith, suc-mul n w)))

-- So from any round on.
walk-Fills :
    (w : ℕ) (body : ℕ → ℕ → List ℕ → Option (List ℕ)) (value : ℕ → ℕ → Option ℕ) (stop size : ℕ)
    → ((r k : ℕ) (d : List ℕ)
        → r < stop
        → k + w ≤ size
        → length d ≡ size
        → (e : List ℕ) × (body r k d ≡ some e) × Fills 1 w k (λ i. value r) d e)
    → (n r k : ℕ) (d : List ℕ) → r + n ≤ stop
    → k + n * w ≤ size
    → length d ≡ size
    → (e : List ℕ) × (walk w body n r k d ≡ some e) × Fills n w k (λ i. value (r + i)) d e
unfolding walk
walk-Fills w body value stop size step zero r k d below room all = (
  d,
  refl,
  record { same_size = refl; inside = λ i c h. absurd (omega arith); outside = λ q h. refl },
)
walk-Fills w body value stop size step (suc n) r k d below room all =
    let (e, ran, one) = step r k d (omega arith) (omega (arith, suc-mul n w)) all in
    let (f, rest, more) =
      walk-Fills w body value stop size step n (r + 1) (k + w) e (omega arith)
        (omega (arith, suc-mul n w)) (one.same_size ∙ all) in
    (
      f,
      rw ran rest,
      Fills-cons n w k (λ i. value (r + i)) (λ i. value r) (λ i. value (r + 1 + i)) d e f one more
          (λ c. ap (λ i. value i c) (omega arith)) (λ i c. ap (λ j. value j c) (omega arith)),
    )

Fills-eq :
    (n w k : ℕ) (value other : ℕ → ℕ → Option ℕ) (before after : List ℕ)
    → ((r c : ℕ) → value r c ≡ other r c)
    → Fills n w k value before after
    → Fills n w k other before after
Fills-eq n w k value other before after same f = record {
  same_size = f.same_size;
  inside = λ r c hr hc. f.inside r c hr hc ∙ same r c;
  outside = f.outside;
}

-- A loop whose every round fills one block fills all its blocks.
pub walk_all :
    (w : ℕ) (body : ℕ → ℕ → List ℕ → Option (List ℕ)) (value : ℕ → ℕ → Option ℕ) (n k size : ℕ)
    → ((r k : ℕ) (d : List ℕ)
        → r < n
        → k + w ≤ size
        → length d ≡ size
        → (e : List ℕ) × (body r k d ≡ some e) × Fills 1 w k (λ i. value r) d e)
    → (d : List ℕ) → k + n * w ≤ size
    → length d ≡ size
    → (e : List ℕ) × (walk w body n 0 k d ≡ some e) × Fills n w k value d e
walk_all w body value n k size step d room all =
    let (e, ran, filled) = walk-Fills w body value n size step n 0 k d (omega arith) room all in
    (
      e,
      ran,
      Fills-eq n w k (λ i. value (0 + i)) value d e (λ r c. ap (λ i. value i c) (omega arith))
          filled,
    )

-- Blocks of one byte, or of two, are one long block.
pub flatten_points :
    (n k : ℕ) (value : ℕ → Option ℕ) (before after : List ℕ)
    → Fills n 1 k (λ r c. value r) before after
    → Fills 1 n k (λ r c. value c) before after
flatten_points n k value before after f = record {
  same_size = f.same_size;
  inside = λ r c hr hc.
      let e : k + r * n + c ≡ k + c * 1 + 0 = grind arith in
      ap (λ q. get_elem? after q) e ∙ f.inside c 0 hc (omega arith);
  outside = λ q h. f.outside q (ground arith);
}

pub flatten_pairs :
    (n k : ℕ) (value : ℕ → ℕ → Option ℕ) (before after : List ℕ)
    → Fills n 2 k value before after
    → Fills 1 (2 * n) k (λ r c. value (c / 2) (c % 2)) before after
flatten_pairs n k value before after f = record {
  same_size = f.same_size;
  inside = λ r c hr hc.
      let e : k + r * (2 * n) + c ≡ k + c / 2 * 2 + c % 2 = grind arith in
      ap (λ q. get_elem? after q) e ∙ f.inside (c / 2) (c % 2) (omega arith) (omega arith);
  outside = λ q h. f.outside q (ground arith);
}
