-- ===== src/Osd/Argb/Odd/Passes.antt =====
-- How many bytes the loops of the conversions write, whatever the width and height.
use jrtplib4android.Prelude.{
  dec_lt, ℕ, zero, suc, ◌+◌, ◌-◌, ◌*◌, ◌/◌, ◌%◌, ◌<◌, ◌≤◌, ◌≡◌, refl, sym, ◌∙◌, inl, inr, some,
  List, arith, length, get_elem?, length-set, Option-cases, ap,
}
use jrtplib4android.Prelude.Int.{ℤ}
use jrtplib4android.Prelude.Bytes.{◌>>=◌, put}
use jrtplib4android.Osd.Argb.{
  Canvas, luma, clamp, write_pair, convert_point, convert_row, convert_rows,
}

put-some :
    (bytes d : List ℕ) (at v : ℕ)
    → put bytes at v ≡ some d
    → (at < length bytes) × (length d ≡ length bytes)
unfolding put
put-some bytes d at v done = ground (arith, length-set bytes at v)

-- What a part of the loops has done: it passed `n` points and wrote `pairs` pairs of colours, which
-- ended inside the memory if they began there.
abbrev pub Passes : (n pairs : ℕ) → (s t : Canvas) → Type 0
Passes n pairs s t =
    (t.index ≡ s.index + n)
    × (length t.yuv420sp ≡ length s.yuv420sp)
    × (t.uv_index ≡ s.uv_index + 2 * pairs)
    × (s.uv_index ≤ length s.yuv420sp → t.uv_index ≤ length t.yuv420sp)

-- How many of `n` numbers from `i` on are even.
abbrev pub evens : (i n : ℕ) → ℕ
evens i n = (n + 1 - i % 2) / 2

Passes-then :
    (n m p q : ℕ) (s t u : Canvas) → Passes n p s t → Passes m q t u → Passes (n + m) (p + q) s u
Passes-then n m p q s t u a b = ground arith

module _ (argb : List ℕ) (first second : ℕ → ℤ) where
  write_pair-on :
      (j word : ℕ) (s t : Canvas)
      → j % 2 ≡ 0
      → write_pair argb first second j word s ≡ some t
      → Passes 0 (evens s.index 1) s t
  unfolding write_pair
  write_pair-on j word s t on done =
      elim (Option-cases (put s.yuv420sp s.uv_index (clamp (first word)))) [
        | inl e ↦ ground arith
        | inr (half, e) ↦ elim (Option-cases (put half (s.uv_index + 1) (clamp (second word)))) [
          | inl e2 ↦ ground arith
          | inr (both, e2) ↦
              let one = put-some s.yuv420sp half s.uv_index (clamp (first word)) e in
              let two = put-some half both (s.uv_index + 1) (clamp (second word)) e2 in ground arith
        ]
      ]

  write_pair-off :
      (j word : ℕ) (s t : Canvas)
      → j % 2 ≡ 1
      → write_pair argb first second j word s ≡ some t
      → Passes 0 0 s t
  unfolding write_pair
  write_pair-off j word s t off done = ground arith

  -- A point: its brightness first.
  point-Passes :
      (j pairs : ℕ) (s t : Canvas)
      → ((word : ℕ) (lit u : Canvas)
          → lit.index ≡ s.index
          → write_pair argb first second j word lit ≡ some u
          → Passes 0 pairs lit u)
      → convert_point argb first second j s ≡ some t
      → Passes 1 pairs s t
  unfolding convert_point
  point-Passes j pairs s t pair done = elim (Option-cases (get_elem? argb s.index)) [
    | inl e ↦ ground arith
    | inr (word, e) ↦ elim (Option-cases (put s.yuv420sp s.y_index (clamp (luma word)))) [
      | inl e2 ↦ ground arith
      | inr (bytes, e2) ↦
          let lit : Canvas = record s { yuv420sp = bytes; y_index = s.y_index + 1 } in
          let one = put-some s.yuv420sp bytes s.y_index (clamp (luma word)) e2 in
          elim (Option-cases (write_pair argb first second j word lit)) [
            | inl e3 ↦ ground arith
            | inr (u, e3) ↦ let two = pair word lit u refl e3 in ground arith
          ]
    ]
  ]

  row-on :
      (j n : ℕ) (s t : Canvas)
      → j % 2 ≡ 0
      → convert_row argb first second j n s ≡ some t
      → Passes n (evens s.index n) s t
  unfolding convert_row
  row-on j zero s t on done = ground arith
  row-on j (suc n) s t on done = elim (Option-cases (convert_point argb first second j s)) [
    | inl e ↦ ground arith
    | inr (u, e) ↦
        let one =
          point-Passes j (evens s.index 1) s u
            (λ word lit v same ran. ground (arith, write_pair-on j word lit v on ran)) e in
        let rest =
          row-on j n u t on (ap (λ o. o >>= convert_row argb first second j n) (sym e) ∙ done) in
        ground (arith, Passes-then 1 n (evens s.index 1) (evens u.index n) s u t one rest)
  ]

  row-off :
      (j n : ℕ) (s t : Canvas)
      → j % 2 ≡ 1
      → convert_row argb first second j n s ≡ some t
      → Passes n 0 s t
  unfolding convert_row
  row-off j zero s t off done = ground arith
  row-off j (suc n) s t off done = elim (Option-cases (convert_point argb first second j s)) [
    | inl e ↦ ground arith
    | inr (u, e) ↦
        let one =
          point-Passes j 0 s u (λ word lit v same ran. write_pair-off j word lit v off ran) e in
        let rest =
          row-off j n u t off (ap (λ o. o >>= convert_row argb first second j n) (sym e) ∙ done) in
        ground (arith, Passes-then 1 n 0 0 s u t one rest)
  ]

  -- Whole rows from row `j` on.
  pub rows-Passes :
      (width rows j : ℕ) (s t : Canvas)
      → s.index ≡ j * width
      → convert_rows argb first second width rows j s ≡ some t
      → Passes (rows * width) (evens 0 width * evens j rows) s t
  unfolding convert_rows
  rows-Passes width zero j s t start done =
      let none_even : evens j 0 ≡ 0 = omega arith in
      let no_pairs : evens 0 width * evens j 0 ≡ 0 = rw none_even (grind arith) in
      let no_points : 0 * width ≡ 0 = grind arith in ground (arith, no_pairs, no_points)
  rows-Passes width (suc rows) j s t start done =
      elim (Option-cases (convert_row argb first second j width s)) [
        | inl e ↦ ground arith
        | inr (u, e) ↦
            let rest_ran : convert_rows argb first second width rows (j + 1) u ≡ some t =
              ap (λ o. o >>= convert_rows argb first second width rows (j + 1)) (sym e) ∙ done in
            let all : suc rows * width ≡ width + rows * width = grind arith in
            let below : (j + 1) * width ≡ j * width + width = grind arith in
            elim (dec_lt 0 (j % 2)) [
              | no on ↦
                  let even : j ≡ 2 * (j / 2) = omega arith in
                  let half : j * width ≡ 2 * (j / 2 * width) =
                    ap (λ n. n * width) even ∙ grind arith in
                  let (i1, s1, v1, n1) = row-on j width s u (omega arith) e in
                  let (i2, s2, v2, n2) =
                    rows-Passes width rows (j + 1) u t (omega (arith, i1, start, below)) rest_ran in
                  let same : evens s.index width ≡ evens 0 width = omega (arith, half, start) in
                  let one_more : evens j (suc rows) ≡ 1 + evens (j + 1) rows = omega arith in
                  let grown : evens 0 width * evens j (suc rows)
                      ≡ evens 0 width + evens 0 width * evens (j + 1) rows =
                    rw one_more (grind arith) in
                  (
                    omega (arith, i1, i2, all),
                    s2 ∙ s1,
                    omega (arith, v1, v2, same, grown),
                    λ h. n2 (n1 h),
                  )
              | yes off ↦
                  let (i1, s1, v1, n1) = row-off j width s u (omega arith) e in
                  let (i2, s2, v2, n2) =
                    rows-Passes width rows (j + 1) u t (omega (arith, i1, start, below)) rest_ran in
                  let same : evens j (suc rows) ≡ evens (j + 1) rows = omega arith in
                  (
                    omega (arith, i1, i2, all),
                    s2 ∙ s1,
                    rw same (omega (arith, v1, v2)),
                    λ h. n2 (n1 h),
                  )
            ]
      ]
