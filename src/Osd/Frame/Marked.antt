-- ===== src/Osd/Frame/Marked.antt =====
-- Which bytes the whole mark whitens, over a table of all 16 pictures.
use jrtplib4android.Prelude.{
  ℕ, zero, suc, ◌+◌, ◌*◌, ◌<◌, ◌≤◌, ◌≡◌, ◌≢◌, refl, sym, ap, ◌∙◌, ◌⊎◌, inl, inr, some, List, [],
  ◌∷◌, arith, length, get_elem?, take, drop,
}
use jrtplib4android.Prelude.Bytes.{slice-in, length-slice, get_elem?-slice}
use jrtplib4android.Osd.Glyphs.{size, get_index}
use jrtplib4android.Osd.Glyphs.Index.{get_index_lem}
use jrtplib4android.Osd.Frame.{draw_mark}
use jrtplib4android.Osd.Frame.Mark.{Draws, Draws-both, Draws-iff}
use jrtplib4android.Osd.Frame.Drawn.{PicturePoint, picture-Draws}

-- The points of the mark that are set: row `j`, column `k` of the picture of character `i`.
abbrev pub MarkPoint : (table text : List ℕ) → (frame at q : ℕ) → Type 0
MarkPoint table text frame at q =
    (i j k c p : ℕ) × (get_elem? text i ≡ some c)
    × (j < 23)
    × (k < 17)
    × (get_elem? table (size * get_index c + (j * 17 + k)) ≡ some p)
    × (p ≢ 0)
    × (q ≡ at + i * 17 + j * frame + k)

module _ (table : List ℕ) (all : 16 * size ≤ length table) (frame : ℕ) where
  inside : (c : ℕ) → size * get_index c + size ≤ length table
  inside c = omega (arith, (get_index_lem c c).0)

  to :
      (c : ℕ) (cs : List ℕ) (at q : ℕ)
      → PicturePoint 23 (take size (drop (size * get_index c) table)) frame at q
        ⊎ MarkPoint table cs frame (at + 17) q
      → MarkPoint table (c ∷ cs) frame at q
  to c cs at q (inl (j, k, p, hj, hk, there, n, e)) = (
    0,
    j,
    k,
    c,
    p,
    refl,
    hj,
    hk,
    sym (get_elem?-slice table (size * get_index c) size (j * 17 + k) (inside c) (omega arith))
        ∙ there,
    n,
    omega arith,
  )
  to c cs at q (inr (i, j, k, c', p, text, hj, hk, there, n, e)) =
      (suc i, j, k, c', p, text, hj, hk, there, n, omega arith)

  from :
      (c : ℕ) (cs : List ℕ) (at q : ℕ)
      → MarkPoint table (c ∷ cs) frame at q
      → PicturePoint 23 (take size (drop (size * get_index c) table)) frame at q
        ⊎ MarkPoint table cs frame (at + 17) q
  from c cs at q (zero, j, k, c', p, text, hj, hk, there, n, e) =
      let same : c' ≡ c = ground arith in
      inl (
        j,
        k,
        p,
        hj,
        hk,
        get_elem?-slice table (size * get_index c) size (j * 17 + k) (inside c) (omega arith)
            ∙ (ap (λ d. get_elem? table (size * get_index d + (j * 17 + k))) (sym same) ∙ there),
        n,
        omega arith,
      )
  from c cs at q (suc i, j, k, c', p, text, hj, hk, there, n, e) =
      inr (i, j, k, c', p, text, hj, hk, there, n, omega arith)

  -- With a table of 16 pictures, and a mark that ends inside the memory, drawing succeeds; the points
  -- of the mark that are set become white, and no other byte of the memory changes.
  pub mark-Draws :
      (text : List ℕ) (at : ℕ) (dest : List ℕ)
      → at + 22 * frame + 17 * length text ≤ length dest
      → (e : List ℕ) × (draw_mark table text frame at dest ≡ some e)
        × Draws (MarkPoint table text frame at) dest e
  unfolding draw_mark
  mark-Draws [] at dest room = (
    dest,
    refl,
    record {
      same_size = refl;
      white = λ q w. let (i, j, k, c, p, text, hj, hk, there, n, e) = w in absurd (ground arith);
      other = λ q. inr refl;
    },
  )
  mark-Draws (c ∷ cs) at dest room =
      let points : List ℕ = take size (drop (size * get_index c) table) in
      let (d, ran, first) =
        picture-Draws 23 points frame at dest
          (omega (arith, length-slice table (size * get_index c) size (inside c)))
          (λ j hj. omega (arith, row-le j hj)) in
      let (e, rest, more) = mark-Draws cs (at + 17) d (omega (arith, first.same_size)) in
      (
        e,
        rw (slice-in table (size * get_index c) size (inside c), ran) rest,
        Draws-iff (λ q. PicturePoint 23 points frame at q ⊎ MarkPoint table cs frame (at + 17) q)
            (MarkPoint table (c ∷ cs) frame at) dest e (to c cs at) (from c cs at)
            (Draws-both (PicturePoint 23 points frame at) (MarkPoint table cs frame (at + 17)) dest
              d e first more),
      )
    where
      row-le : (j : ℕ) → j < 23 → j * frame ≤ 22 * frame
      row-le j hj = grind arith
