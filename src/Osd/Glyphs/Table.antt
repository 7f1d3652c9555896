-- ===== src/Osd/Glyphs/Table.antt =====
-- The table that `initOsd` makes: when its copies fit, and what it holds.
use jrtplib4android.Prelude.{
  ℕ, zero, suc, ◌+◌, ◌*◌, ◌<◌, ◌≤◌, ◌≡◌, ◌==◌, ◌&&◌, Bool, true, false, refl, sym, if◌then◌else◌,
  ap, ◌∙◌, some, none, List, [], ◌∷◌, ◌++◌, arith, length, get_elem?, take, drop, replicate,
  length-append, length-take, length-drop, length-replicate, dec_lt, get_or,
}
use jrtplib4android.Prelude.Bytes.{blit, blit-in, blit-out, get_elem?-append, get_elem?-take-append}
use jrtplib4android.Osd.Glyphs.{YuvUtils, Setup, size, pictures, copy_pictures, init_osd, get_index}
use jrtplib4android.Osd.Glyphs.Digits.{
  num_0, num_1, num_2, num_3, num_4, num_5, num_6, num_7, num_8, num_9,
}
use jrtplib4android.Osd.Glyphs.Signs.{
  num_space, num_colon, num_line, char_year, char_month, char_day,
}
use jrtplib4android.Osd.Glyphs.Index.{get_index_lem}

-- Every picture has 23 rows of 17 points.
abbrev all_sized : List (List ℕ) → Bool
all_sized [] = true
all_sized (p ∷ ps) = (length p == size) && all_sized ps

-- One copy: its size, what it writes, and what it leaves.
blit-copy :
    (table p : List ℕ) (at : ℕ)
    → at + length p ≤ length table
    → (t : List ℕ) × (blit table at p ≡ some t)
      × (length t ≡ length table)
      × ((c : ℕ) → c < length p → get_elem? t (at + c) ≡ get_elem? p c)
      × ((q : ℕ) → q < at → get_elem? t q ≡ get_elem? table q)
blit-copy table p at h =
    let behind : List ℕ = drop (at + length p) table in
    let front : List ℕ = take at table in
    let front_size : length front ≡ at = omega (arith, length-take at table) in
    (
      front ++ (p ++ behind),
      blit-in table at p h,
      omega (
        arith,
        front_size,
        length-append front (p ++ behind),
        length-append p behind,
        length-drop (at + length p) table,
      ),
      λ c k.
          get_elem?-append front (p ++ behind) (at + c) c (omega (arith, front_size))
          ∙ inside p behind c k,
      λ q k. get_elem?-take-append at table (p ++ behind) q (omega arith) k,
    )
  where
    inside : (xs ys : List ℕ) (c : ℕ) → c < length xs → get_elem? (xs ++ ys) c ≡ get_elem? xs c
    inside [] ys c k = absurd (omega arith)
    inside (x ∷ xs) ys zero k = refl
    inside (x ∷ xs) ys (suc c) k = inside xs ys c (omega arith)

-- From place `i` on, the pictures stand one behind the other.
abbrev Holds : ℕ → List (List ℕ) → List ℕ → Type 0
Holds i ps t =
    (j c : ℕ)
    → j < length ps
    → c < size
    → get_elem? t (size * (i + j) + c) ≡ get_elem? (get_or ps j []) c

Holds-cons :
    (p : List ℕ) (ps : List (List ℕ)) (i : ℕ) (t : List ℕ)
    → ((c : ℕ) → c < size → get_elem? t (size * i + c) ≡ get_elem? p c)
    → Holds (i + 1) ps t
    → Holds i (p ∷ ps) t
Holds-cons p ps i t one more zero c hj hc =
    let e : size * (i + 0) + c ≡ size * i + c = omega arith in ap (λ q. get_elem? t q) e ∙ one c hc
Holds-cons p ps i t one more (suc j) c hj hc =
    let e : size * (i + suc j) + c ≡ size * (i + 1 + j) + c = omega arith in
    ap (λ q. get_elem? t q) e ∙ more j c (omega arith) hc

copies-fit :
    (ps : List (List ℕ)) (i : ℕ) (table : List ℕ)
    → all_sized ps ≡ true
    → size * (i + length ps) ≤ length table
    → (t : List ℕ) × (copy_pictures i ps table ≡ some t)
      × (length t ≡ length table)
      × Holds i ps t
      × ((q : ℕ) → q < size * i → get_elem? t q ≡ get_elem? table q)
unfolding copy_pictures
copies-fit [] i table sized h = (table, refl, refl, λ j c k. absurd (omega arith), λ q k. refl)
copies-fit (p ∷ ps) i table sized h =
    let one : length p ≡ size = ground arith in
    let others : all_sized ps ≡ true = ground arith in
    let (d, ran, kept, wrote, left) = blit-copy table p (size * i) (omega (arith, one)) in
    let (e, rest, same, more, earlier) = copies-fit ps (i + 1) d others (omega (arith, kept)) in
    (
      e,
      rw ran rest,
      same ∙ kept,
      Holds-cons p ps i e
          (λ c hc. earlier (size * i + c) (omega arith) ∙ wrote c (omega (arith, one))) more,
      λ q k. earlier q (omega arith) ∙ left q k,
    )

copies-fault :
    (ps : List (List ℕ)) (i : ℕ) (table : List ℕ)
    → all_sized ps ≡ true
    → size * i ≤ length table
    → length table < size * (i + length ps)
    → copy_pictures i ps table ≡ none
unfolding copy_pictures
copies-fault [] i table sized low h = absurd (omega arith)
copies-fault (p ∷ ps) i table sized low h =
    let one : length p ≡ size = ground arith in
    let others : all_sized ps ≡ true = ground arith in
    elim (dec_lt (length table) (size * i + length p)) [
      | yes k ↦ rw (blit-out table (size * i) p k)
      | no k ↦
          let (d, ran, kept, wrote, left) = blit-copy table p (size * i) (omega (arith, k)) in
          rw ran
            (copies-fault ps (i + 1) d others (omega (arith, kept, one, k)) (omega (arith, kept)))
    ]

-- One of 16 pictures by character: the digits, `-`, the space, `:`, and the signs for year, month and day;
-- the one for the space for any other.
abbrev by_character :
    (d0 d1 d2 d3 d4 d5 d6 d7 d8 d9 line space colon year month day : List ℕ) → ℕ → List ℕ
by_character d0 d1 d2 d3 d4 d5 d6 d7 d8 d9 line space colon year month day c =
    if c == b'0'
    then d0
    else if c == b'1'
    then d1
    else if c == b'2'
    then d2
    else if c == b'3'
    then d3
    else if c == b'4'
    then d4
    else if c == b'5'
    then d5
    else if c == b'6'
    then d6
    else if c == b'7'
    then d7
    else if c == b'8'
    then d8
    else if c == b'9'
    then d9
    else if c == b'-'
    then line
    else if c == b':'
    then colon
    else if c == 24180
    then year
    else if c == 26376
    then month
    else if c == 26085
    then day
    else space

-- The picture of a character.
pub picture : ℕ → List ℕ
picture c =
    by_character num_0 num_1 num_2 num_3 num_4 num_5 num_6 num_7 num_8 num_9 num_line num_space
      num_colon char_year char_month char_day c

by_character-get_index :
    (d0 d1 d2 d3 d4 d5 d6 d7 d8 d9 line space colon year month day other : List ℕ) (c : ℕ)
    → by_character d0 d1 d2 d3 d4 d5 d6 d7 d8 d9 line space colon year month day c
      ≡ get_or
          (d0 ∷ d1 ∷ d2 ∷ d3 ∷ d4 ∷ d5 ∷ d6 ∷ d7 ∷ d8 ∷ d9 ∷ line ∷ space ∷ colon ∷ year ∷ month
            ∷ day ∷ [])
          (get_index c)
          other
unfolding get_index
by_character-get_index d0 d1 d2 d3 d4 d5 d6 d7 d8 d9 line space colon year month day other c =
    ground arith

picture_lem : (c : ℕ) → picture c ≡ get_or pictures (get_index c) []
unfolding picture
picture_lem c = by_character-get_index _ _ _ _ _ _ _ _ _ _ _ _ _ _ _ _ [] c

-- On a handle that was not set up, `initOsd` with a mark of 16 or more characters takes its
-- arguments over and leaves a table that holds every character's picture at that character's place;
-- with a mark of fewer characters the copies run over the table, a fault.
pub init_osd_lem :
    (a : Setup) (u : YuvUtils)
    → u.is_init ≡ false
    → ((16 ≤ a.pattern_len)
        → (t : List ℕ) × (init_osd a u
            ≡ some (record {
              is_init = true;
              off_x = a.off_x;
              off_y = a.off_y;
              date_len = a.pattern_len;
              frame_width = a.frame_width;
              frame_height = a.frame_height;
              rotation = a.rotation_angle;
              num_arrays = some t;
            }))
          × (length t ≡ a.pattern_len * size)
          × ((ch c : ℕ)
              → c < size
              → get_elem? t (size * get_index ch + c) ≡ get_elem? (picture ch) c))
      × (a.pattern_len < 16 → init_osd a u ≡ none)
unfolding init_osd
init_osd_lem a u fresh = (
  λ enough.
      let empty : List ℕ = replicate (a.pattern_len * size) 0 in
      let room : length empty ≡ a.pattern_len * size =
        length-replicate {A = ℕ} (a.pattern_len * size) 0 in
      let (t, ran, kept, holds, left) = copies-fit pictures 0 empty refl (omega (arith, room)) in
      (
        t,
        rw (fresh, ran),
        kept ∙ room,
        λ ch c hc.
            let e : size * get_index ch + c ≡ size * (0 + get_index ch) + c = omega arith in
            ap (λ q. get_elem? t q) e
            ∙ holds (get_index ch) c (omega (arith, (get_index_lem ch ch).0)) hc
            ∙ ap (λ p. get_elem? p c) (sym (picture_lem ch)),
      ),
  λ short.
      let empty : List ℕ = replicate (a.pattern_len * size) 0 in
      let room : length empty ≡ a.pattern_len * size =
        length-replicate {A = ℕ} (a.pattern_len * size) 0 in
      rw (fresh, copies-fault pictures 0 empty refl (omega arith) (omega (arith, room))),
)
