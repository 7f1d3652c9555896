-- ===== src/Osd/Frame/Angles.antt =====
-- The angles that `addOsd` turns by, and turning back.
use jrtplib4android.Prelude.{
  ℕ, zero, suc, ◌+◌, ◌*◌, ◌-◌, ◌/◌, ◌%◌, ◌<◌, ◌≤◌, ◌≡◌, refl, sym, ap, ◌∙◌, some, List, arith,
  length, get_elem?, dec_lt, subst, ◌⊎◌, inl, inr,
}
use jrtplib4android.Osd.Frame.{turn}
use jrtplib4android.Osd.Frame.Turn.{frame_size, turn_90-clockwise, turn_270-clockwise}
use jrtplib4android.Osd.Frame.Straight.{turn_0-Same}
use jrtplib4android.Osd.Frame.Picture.{
  Picture, Same, nv21, nv12, quarters, chroma_at, Same-trans, quarters-Same, quarters-four,
  exchanged, exchanged-Same, place, clockwise,
}

-- The angles, in quarter turns.
pub data Angle : Type 0 where
  straight : Angle
  right : Angle
  left : Angle

abbrev pub count : Angle → ℕ
count straight = 0
count right = 1
count left = 3

abbrev pub degrees : Angle → ℕ
degrees straight = 0
degrees right = 90
degrees left = 270

abbrev pub opposite : Angle → Angle
opposite straight = straight
opposite right = left
opposite left = right

-- For frames of `2 * a` by `2 * b` points, and memory for such a frame in both buffers, the turn
-- succeeds for each of the three angles. Read as NV12, the result shows what the source shows as
-- NV21, turned clockwise as often as the angle says, and the reported width is that picture's.
pub turn_lem :
    (g : Angle) (a b : ℕ) (src dest : List ℕ)
    → frame_size a b ≤ length src
    → frame_size a b ≤ length dest
    → let p : Picture = quarters (count g) (nv21 a b src) in
      (e : List ℕ) × (turn (degrees g) (2 * a) (2 * b) src dest ≡ some (e, 2 * p.a))
      × (length e ≡ length dest)
      × Same (nv12 p.a p.b e) p
unfolding turn
turn_lem straight a b src dest enough room =
    let (e, ran, size, same) = turn_0-Same src dest a b enough room in (e, rw ran, size, same)
turn_lem right a b src dest enough room =
    let (e, ran, size, same) = turn_90-clockwise src dest a b enough room in (e, rw ran, size, same)
turn_lem left a b src dest enough room =
    let (e, ran, size, same) = turn_270-clockwise src dest a b enough room in
    (e, rw ran, size, same)

-- A byte of a frame is a point's brightness, or a colour of a square.
bytes-Same :
    (a b : ℕ) (e src : List ℕ)
    → Same (nv21 a b e) (nv21 a b src)
    → (i : ℕ) → i < frame_size a b
    → get_elem? e i ≡ get_elem? src i
bytes-Same a b e src same i h = elim (dec_lt i (2 * a * (2 * b))) [
  | yes k ↦
      let turned : 2 * b * (2 * a) ≡ 2 * a * (2 * b) = grind arith in
      let (row, column, at, hr, hc) = place (2 * a) (2 * b) i (omega (arith, turned)) in
      ap (λ j. get_elem? e j) at
      ∙ (same.same_y column row hc hr ∙ ap (λ j. get_elem? src j) (sym at))
  | no k ↦
      let n : ℕ = 2 * a * (2 * b) in
      let half : b * (2 * a) ≡ 2 * a * b = grind arith in
      let (row, column, at, hr, hc) = place (2 * a) b (i - n) (omega (arith, half, k)) in
      elim (chroma_byte n row column) [
        | inl even ↦
            let there : i ≡ chroma_at a b (column / 2) row = omega (arith, at, even, k) in
            ap (λ j. get_elem? e j) there
            ∙ (same.same_v (column / 2) row (omega arith) hr
                ∙ ap (λ j. get_elem? src j) (sym there))
        | inr odd ↦
            let there : i ≡ chroma_at a b (column / 2) row + 1 = omega (arith, at, odd, k) in
            ap (λ j. get_elem? e j) there
            ∙ (same.same_u (column / 2) row (omega arith) hr
                ∙ ap (λ j. get_elem? src j) (sym there))
      ]
]
  where
    chroma_byte : (n row column : ℕ) → (column ≡ 2 * (column / 2)) ⊎ (column ≡ 2 * (column / 2) + 1)
    chroma_byte n row column = elim (dec_lt (column % 2) 1) [
      | yes k ↦ inl (omega arith)
      | no k ↦ inr (omega (arith, k))
    ]

-- Four quarter turns in all, the first of a frame in NV21, the others of what they made of it.
turned_back :
    (k a b : ℕ) (e f : List ℕ) (p : Picture)
    → Same (nv12 b a e) p
    → Same (nv12 a b f) (quarters k (nv21 b a e))
    → Same (nv21 a b f) (quarters k p)
turned_back k a b e f p same back =
    Same-trans (nv21 a b f) (quarters k (nv12 b a e)) (quarters k p)
      (subst (λ q. Same (nv21 a b f) q) (exchanged-quarters k (nv21 b a e))
        (exchanged-Same (nv12 a b f) (quarters k (nv21 b a e)) back))
      (quarters-Same k (nv12 b a e) p same)
  where
    exchanged-quarters : (k : ℕ) (q : Picture) → exchanged (quarters k q) ≡ quarters k (exchanged q)
    exchanged-quarters zero q = refl
    exchanged-quarters (suc k) q = ap clockwise (exchanged-quarters k q)

size_comm : (a b : ℕ) → frame_size b a ≡ frame_size a b
size_comm a b = grind arith

-- So when there are four in all, the bytes are those of the first frame.
all_round :
    (j k a b : ℕ) (src e f : List ℕ)
    → Same (quarters k (quarters j (nv21 a b src))) (nv21 a b src)
    → Same (nv12 b a e) (quarters j (nv21 a b src))
    → Same (nv12 a b f) (quarters k (nv21 b a e))
    → (i : ℕ) → i < frame_size a b
    → get_elem? f i ≡ get_elem? src i
all_round j k a b src e f round same back =
    let p : Picture = quarters j (nv21 a b src) in
    bytes-Same a b f src (
      Same-trans (nv21 a b f) (quarters k p) (nv21 a b src) (turned_back k a b e f p same back)
        round)

-- A frame of `2 * a` by `2 * b` points that is turned, and turned back by the opposite angle, has its
-- bytes again: the colours are exchanged twice. All three buffers have room for the frame.
pub turn-turn :
    (g : Angle) (a b : ℕ) (src dest other : List ℕ)
    → frame_size a b ≤ length src
    → frame_size a b ≤ length dest
    → frame_size a b ≤ length other
    → let p : Picture = quarters (count g) (nv21 a b src) in
      (e f : List ℕ) × (turn (degrees g) (2 * a) (2 * b) src dest ≡ some (e, 2 * p.a))
      × (turn (degrees (opposite g)) (2 * p.a) (2 * p.b) e other ≡ some (f, 2 * a))
      × ((i : ℕ) → i < frame_size a b → get_elem? f i ≡ get_elem? src i)
turn-turn straight a b src dest other enough room more =
    let (e, ran, size, same) = turn_lem straight a b src dest enough room in
    let (f, again, size2, back) = turn_lem straight a b e other (omega (arith, size)) more in
    (
      e,
      f,
      ran,
      again,
      bytes-Same a b f src (
          Same-trans (nv21 a b f) (nv12 a b e) (nv21 a b src)
            (exchanged-Same (nv12 a b f) (nv21 a b e) back) same),
    )
turn-turn right a b src dest other enough room more =
    let (e, ran, size, same) = turn_lem right a b src dest enough room in
    let (f, again, size2, back) =
      turn_lem left b a e other (omega (arith, size, size_comm a b))
        (omega (arith, size_comm a b)) in
    (e, f, ran, again, all_round 1 3 a b src e f (quarters-four (nv21 a b src)) same back)
turn-turn left a b src dest other enough room more =
    let (e, ran, size, same) = turn_lem left a b src dest enough room in
    let (f, again, size2, back) =
      turn_lem right b a e other (omega (arith, size, size_comm a b))
        (omega (arith, size_comm a b)) in
    (e, f, ran, again, all_round 3 1 a b src e f (quarters-four (nv21 a b src)) same back)
