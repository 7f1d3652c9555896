-- ===== src/Osd/Frame/Drawn.antt =====
-- Which bytes the pictures of the mark whiten.
use jrtplib4android.Prelude.{
  ℕ, zero, suc, ◌+◌, ◌*◌, ◌<◌, ◌≤◌, ◌≡◌, ◌≢◌, refl, sym, ap, ◌∙◌, ◌⊎◌, inl, inr, some, List, arith,
  length, get_elem?, take, drop,
}
use jrtplib4android.Prelude.Bytes.{slice-in, length-slice, get_elem?-slice, get_elem?-some}
use jrtplib4android.Osd.Frame.{draw_picture}
use jrtplib4android.Osd.Frame.Mark.{Draws, Draws-both, Draws-iff, RowPoint, row-Draws}

-- The points of a picture of `rows` rows that are set, as places in the frame.
abbrev pub PicturePoint : (rows : ℕ) → List ℕ → (frame at q : ℕ) → Type 0
PicturePoint rows points frame at q =
    (j k p : ℕ) × (j < rows)
    × (k < 17)
    × (get_elem? points (j * 17 + k) ≡ some p)
    × (p ≢ 0)
    × (q ≡ at + j * frame + k)

pub picture-Draws :
    (rows : ℕ) (points : List ℕ) (frame at : ℕ) (dest : List ℕ)
    → rows * 17 ≤ length points
    → ((j : ℕ) → j < rows → at + j * frame + 17 ≤ length dest)
    → (e : List ℕ) × (draw_picture rows points frame at dest ≡ some e)
      × Draws (PicturePoint rows points frame at) dest e
unfolding draw_picture
picture-Draws zero points frame at dest all room = (
  dest,
  refl,
  record {
    same_size = refl;
    white = λ q w. let (j, k, p, hj, hk, there, n, e) = w in absurd (omega arith);
    other = λ q. inr refl;
  },
)
picture-Draws (suc rows) points frame at dest all room =
    let row : List ℕ = take 17 (drop 0 points) in
    let below : List ℕ = take (rows * 17) (drop 17 points) in
    let row_size : length row ≡ 17 = length-slice points 0 17 (omega arith) in
    let below_size : length below ≡ rows * 17 = length-slice points 17 (rows * 17) (omega arith) in
    let (d, ran, first) = row-Draws row at dest (omega (arith, row_size, room 0 (omega arith))) in
    let (e, rest, more) =
      picture-Draws rows below frame (at + frame) d (omega (arith, below_size))
        (λ j hj. omega (arith, first.same_size, room (suc j) (omega arith), next_row j frame)) in
    (
      e,
      rw (slice-in points 0 17 (omega arith), ran, slice-in points 17 (rows * 17) (omega arith))
          rest,
      Draws-iff (λ q. RowPoint row at q ⊎ PicturePoint rows below frame (at + frame) q)
          (PicturePoint (suc rows) points frame at) dest e to from
          (Draws-both (RowPoint row at) (PicturePoint rows below frame (at + frame)) dest d e first
            more),
    )
  where
    next_row : (j n : ℕ) → suc j * n ≡ n + j * n
    next_row j n = grind arith

    to :
        (q : ℕ)
        → RowPoint (take 17 (drop 0 points)) at q
          ⊎ PicturePoint rows (take (rows * 17) (drop 17 points)) frame (at + frame) q
        → PicturePoint (suc rows) points frame at q
    to q (inl (k, p, there, n, e)) =
        let small : k < 17 = omega (
          arith,
          get_elem?-some (take 17 (drop 0 points)) k p there,
          length-slice points 0 17 (omega arith),
        ) in
        (
          0,
          k,
          p,
          omega arith,
          small,
          sym (get_elem?-slice points 0 17 k (omega arith) small) ∙ there,
          n,
          omega arith,
        )
    to q (inr (j, k, p, hj, hk, there, n, e)) =
        let place : suc j * 17 + k ≡ 17 + (j * 17 + k) = omega arith in
        (
          suc j,
          k,
          p,
          omega arith,
          hk,
          ap (λ i. get_elem? points i) place
              ∙ (sym
                    (get_elem?-slice points 17 (rows * 17) (j * 17 + k) (omega arith) (omega arith))
                  ∙ there),
          n,
          omega (arith, next_row j frame),
        )

    from :
        (q : ℕ)
        → PicturePoint (suc rows) points frame at q
        → RowPoint (take 17 (drop 0 points)) at q
          ⊎ PicturePoint rows (take (rows * 17) (drop 17 points)) frame (at + frame) q
    from q (zero, k, p, hj, hk, there, n, e) =
        inl (k, p, get_elem?-slice points 0 17 k (omega arith) hk ∙ there, n, omega arith)
    from q (suc j, k, p, hj, hk, there, n, e) =
        let place : 17 + (j * 17 + k) ≡ suc j * 17 + k = omega arith in
        inr (
          j,
          k,
          p,
          omega arith,
          hk,
          get_elem?-slice points 17 (rows * 17) (j * 17 + k) (omega arith) (omega arith)
              ∙ (ap (λ i. get_elem? points i) place ∙ there),
          n,
          omega (arith, next_row j frame),
        )
