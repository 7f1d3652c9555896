-- ===== src/Osd/Frame/Mark.antt =====
-- Which bytes the mark of `addOsd` whitens.
use jrtplib4android.Prelude.{
  ℕ, zero, suc, ◌+◌, ◌<◌, ◌≤◌, ◌≡◌, ◌≢◌, refl, sym, ap, ◌∙◌, ◌⊎◌, inl, inr, some, List, [], ◌∷◌,
  arith, length, get_elem?, set, length-set, get_elem?-set_self, get_elem?-set_ne, ℕ_discrete,
}
use jrtplib4android.Prelude.Bytes.{put-in}
use jrtplib4android.Osd.Frame.{draw_point, draw_row}

-- The bytes that `P` tells of are white afterwards, and no other byte has changed.
pub record Draws (P : ℕ → Type 0) (before after : List ℕ) : Type 0 where
  pub same_size : length after ≡ length before
  pub white : (q : ℕ) → P q → get_elem? after q ≡ some 235
  pub other : (q : ℕ) → P q ⊎ (get_elem? after q ≡ get_elem? before q)

pub Draws-both :
    (P Q : ℕ → Type 0) (before middle after : List ℕ)
    → Draws P before middle
    → Draws Q middle after
    → Draws (λ q. P q ⊎ Q q) before after
Draws-both P Q before middle after f g = record {
  same_size = g.same_size ∙ f.same_size;
  white = white;
  other = other;
}
  where
    white : (q : ℕ) → P q ⊎ Q q → get_elem? after q ≡ some 235
    white q (inl p) = elim (g.other q) [ inl r ↦ g.white q r | inr e ↦ e ∙ f.white q p ]
    white q (inr r) = g.white q r

    other : (q : ℕ) → (P q ⊎ Q q) ⊎ (get_elem? after q ≡ get_elem? before q)
    other q = elim (g.other q) [
      | inl r ↦ inl (inr r)
      | inr e ↦ elim (f.other q) [ inl p ↦ inl (inl p) | inr d ↦ inr (e ∙ d) ]
    ]

pub Draws-iff :
    (P Q : ℕ → Type 0) (before after : List ℕ)
    → ((q : ℕ) → P q → Q q)
    → ((q : ℕ) → Q q → P q)
    → Draws P before after
    → Draws Q before after
Draws-iff P Q before after to from f = record {
  same_size = f.same_size;
  white = λ q h. f.white q (from q h);
  other = λ q. elim (f.other q) [ inl p ↦ inl (to q p) | inr e ↦ inr e ];
}

-- The points of a row that are set, as places in the frame.
abbrev pub RowPoint : List ℕ → ℕ → ℕ → Type 0
RowPoint points at q = (k p : ℕ) × (get_elem? points k ≡ some p) × (p ≢ 0) × (q ≡ at + k)

point-Draws :
    (p at : ℕ) (dest : List ℕ)
    → at < length dest
    → (e : List ℕ) × (draw_point p at dest ≡ some e) × Draws (λ q. (p ≢ 0) × (q ≡ at)) dest e
unfolding draw_point
point-Draws zero at dest h = (
  dest,
  refl,
  record { same_size = refl; white = λ q w. absurd (w.0 refl); other = λ q. inr refl },
)
point-Draws (suc p) at dest h = (
  set dest at 235,
  let written = put-in dest at 235 h in ground arith,
  record {
    same_size = length-set dest at 235;
    white = λ q w. ap (λ i. get_elem? (set dest at 235) i) w.1 ∙ get_elem?-set_self dest at 235 h;
    other = λ q. elim (ℕ_discrete q at) [
      | yes e ↦ inl ((λ z. absurd (omega (arith, z))), e)
      | no n ↦ inr (get_elem?-set_ne dest 235 (λ e. n (sym e)))
    ];
  },
)

pub row-Draws :
    (points : List ℕ) (at : ℕ) (dest : List ℕ)
    → at + length points ≤ length dest
    → (e : List ℕ) × (draw_row points at dest ≡ some e) × Draws (RowPoint points at) dest e
unfolding draw_row
row-Draws [] at dest h = (
  dest,
  refl,
  record {
    same_size = refl;
    white = λ q w. let (k, p, there, n, e) = w in absurd (ground arith);
    other = λ q. inr refl;
  },
)
row-Draws (p ∷ ps) at dest h =
    let (d, ran, first) = point-Draws p at dest (omega arith) in
    let (e, rest, more) = row-Draws ps (at + 1) d (omega (arith, first.same_size)) in
    (
      e,
      rw ran rest,
      Draws-iff (λ q. ((p ≢ 0) × (q ≡ at)) ⊎ RowPoint ps (at + 1) q) (RowPoint (p ∷ ps) at) dest e
          to from (Draws-both (λ q. (p ≢ 0) × (q ≡ at)) (RowPoint ps (at + 1)) dest d e first more),
    )
  where
    to : (q : ℕ) → ((p ≢ 0) × (q ≡ at)) ⊎ RowPoint ps (at + 1) q → RowPoint (p ∷ ps) at q
    to q (inl (n, e)) = (0, p, refl, n, omega arith)
    to q (inr (k, r, there, n, e)) = (suc k, r, there, n, omega arith)

    from : (q : ℕ) → RowPoint (p ∷ ps) at q → ((p ≢ 0) × (q ≡ at)) ⊎ RowPoint ps (at + 1) q
    from q (zero, r, there, n, e) = inl (ground arith, omega arith)
    from q (suc k, r, there, n, e) = inr (k, r, there, n, omega arith)
