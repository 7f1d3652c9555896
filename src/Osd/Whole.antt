-- ===== src/Osd/Whole.antt =====
-- The OSD library from the set-up to a marked frame.
use jrtplib4android.Prelude.{
  ℕ, ◌+◌, ◌*◌, ◌<◌, ◌≤◌, ◌≡◌, ◌≢◌, refl, sym, ◌∙◌, inl, inr, some, List, [], ◌∷◌, arith, length,
  get_elem?, take, true, false, none, subst,
}
use jrtplib4android.Jni.{
  HostCall, Loan, Object, GivesBack, release-GivesBack, get_all, release_all, byte_elements, chars,
}
use jrtplib4android.Osd.Glyphs.{YuvUtils, Setup, size, get_index, release_osd}
use jrtplib4android.Osd.Glyphs.Table.{picture, init_osd_lem}
use jrtplib4android.Osd.Handle.{
  new_utils, init_osd_handle, argb_int_to_nv21_handle, add_osd_handle, add_osd_lent, convert_calls,
  release_osd_handle,
}
use jrtplib4android.Osd.Argb.Frames.{words, argb_int-words}
use jrtplib4android.Osd.Frame.Turn.{frame_size}
use jrtplib4android.Osd.Frame.Picture.{Picture, Same, nv21, nv12, quarters, quarters-Same}
use jrtplib4android.Osd.Frame.Angles.{Angle, count, degrees}
use jrtplib4android.Osd.Frame.Shown.{TextPoint, Marks, add_osd_lem}

-- The set points of a text whose upper left corner is at column `x` and row `y`: row `j` and column
-- `k` of the picture of character `i`.
abbrev pub CharPoint : (text : List ℕ) → (x y column row : ℕ) → Type 0
CharPoint text x y column row =
    (i j k c p : ℕ) × (get_elem? text i ≡ some c)
    × (j < 23)
    × (k < 17)
    × (get_elem? (picture c) (j * 17 + k) ≡ some p)
    × (p ≢ 0)
    × (column ≡ x + i * 17 + k)
    × (row ≡ y + j)

-- The same marks, and the same picture below them.
Marks-iff :
    (M N : ℕ → ℕ → Type 0) (shown p q : Picture)
    → ((column row : ℕ) → M column row → N column row)
    → ((column row : ℕ) → N column row → M column row)
    → Same p q
    → Marks M shown p
    → Marks N shown q
Marks-iff M N shown p q to from same m = record {
  white = λ c r hc hr h. m.white c r (wide c hc) (high r hr) (from c r h);
  other = λ c r hc hr. elim (m.other c r (wide c hc) (high r hr)) [
    | inl h ↦ inl (to c r h)
    | inr e ↦ inr (e ∙ same.same_y c r hc hr)
  ];
  same_u = λ c r hc hr.
      m.same_u c r (subst (λ n. c < n) (sym same.same_a) hc)
        (subst (λ n. r < n) (sym same.same_b) hr)
      ∙ same.same_u c r hc hr;
  same_v = λ c r hc hr.
      m.same_v c r (subst (λ n. c < n) (sym same.same_a) hc)
        (subst (λ n. r < n) (sym same.same_b) hr)
      ∙ same.same_v c r hc hr;
}
  where
    wide : (c : ℕ) → c < 2 * q.a → c < 2 * p.a
    wide c h = subst (λ n. c < 2 * n) (sym same.same_a) h

    high : (r : ℕ) → r < 2 * q.b → r < 2 * p.b
    high r h = subst (λ n. r < 2 * n) (sym same.same_b) h

-- A table that holds the pictures marks as the pictures do.
by_pictures :
    (t text f : List ℕ) (x y : ℕ)
    → ((ch c : ℕ) → c < size → get_elem? t (size * get_index ch + c) ≡ get_elem? (picture ch) c)
    → (q p : Picture) → Same q p
    → Marks (TextPoint t text x y) (nv12 q.a q.b f) q
    → Marks (CharPoint text x y) (nv12 p.a p.b f) p
by_pictures t text f x y holds q p same marks =
    subst (λ m. Marks (CharPoint text x y) (nv12 m p.b f) p) same.same_a
      (subst (λ m. Marks (CharPoint text x y) (nv12 q.a m f) p) same.same_b
        (Marks-iff (TextPoint t text x y) (CharPoint text x y) (nv12 q.a q.b f) q p to from same
          marks))
  where
    to : (column row : ℕ) → TextPoint t text x y column row → CharPoint text x y column row
    to column row (i, j, k, c, v, there, hj, hk, point, n, e, f) =
        (i, j, k, c, v, there, hj, hk, sym (holds c (j * 17 + k) (omega arith)) ∙ point, n, e, f)

    from : (column row : ℕ) → CharPoint text x y column row → TextPoint t text x y column row
    from column row (i, j, k, c, v, there, hj, hk, point, n, e, f) =
        (i, j, k, c, v, there, hj, hk, holds c (j * 17 + k) (omega arith) ∙ point, n, e, f)

-- A handle is set up for even frames of `2 * a` by `2 * b` points, one of the three angles and a mark
-- of 16 or more characters that fits into the turned frame. Then a bitmap that Java has converted to
-- NV21 and passed through `addOsd_` comes out in NV12 as the bitmap's picture, turned, with the
-- points of the text's characters in white and nothing else changed; every array and text that Java
-- lent is given back; and when the handle is released its table is freed.
pub bitmap-marked :
    (s : Setup) (g : Angle) (a b : ℕ) (ints : Object) (memory : List ℕ) (made : ℕ)
    (dest date : Object) (calls : List HostCall)
    → let p : Picture = quarters (count g) (words a b ints.elements) in
      16 ≤ s.pattern_len
      → s.rotation_angle ≡ degrees g
      → s.frame_width ≡ 2 * a
      → s.frame_height ≡ 2 * b
      → 2 * a * (2 * b) ≤ length ints.elements
      → frame_size a b ≤ length memory
      → frame_size a b ≤ length dest.elements
      → s.pattern_len ≤ length date.elements
      → s.off_x + 17 * s.pattern_len ≤ 2 * p.a
      → s.off_y + 23 ≤ 2 * p.b
      → (v w : YuvUtils) × (e f : List ℕ) × (between after : List HostCall) × (init_osd_handle s
          ≡ some v)
        × (argb_int_to_nv21_handle (some v) ints memory (2 * a) (2 * b) calls
            ≡ some (some e, between))
        × (add_osd_handle (some v) (record { ref = made; elements = e }) dest date between
            ≡ some (f, after))
        × Marks (CharPoint (take s.pattern_len date.elements) s.off_x s.off_y) (nv12 p.a p.b f) p
        × GivesBack calls after
        × (release_osd_handle (some v) ≡ some w)
        × (w.num_arrays ≡ none)
unfolding init_osd_handle argb_int_to_nv21_handle add_osd_handle add_osd_lent release_osd_handle
    release_osd
bitmap-marked s g a b ints memory made dest date calls many angle width height all room out long
      wide high =
    let (t, set_up, t_size, table) = (init_osd_lem s new_utils refl).0 many in
    let (e, converted, e_size, shown) = (argb_int-words ints.elements memory a b all room).0 in
    let v : YuvUtils = record {
      is_init = true;
      off_x = s.off_x;
      off_y = s.off_y;
      date_len = s.pattern_len;
      frame_width = s.frame_width;
      frame_height = s.frame_height;
      rotation = s.rotation_angle;
      num_arrays = some t;
    } in
    let p : Picture = quarters (count g) (words a b ints.elements) in
    let q : Picture = quarters (count g) (nv21 a b e) in
    let same : Same q p = quarters-Same (count g) (nv21 a b e) (words a b ints.elements) shown in
    let (f, marked, f_size, marks) =
      add_osd_lem v g a b t e dest.elements date.elements angle width height refl
        (omega (arith, t_size)) (omega (arith, e_size)) out long (omega (arith, same.same_a))
        (omega (arith, same.same_b)) in
    let between : List HostCall = convert_calls ints e calls in
    let loans : List Loan = byte_elements made ∷ byte_elements dest.ref ∷ chars date.ref ∷ [] in
    let after : List HostCall = release_all loans (get_all loans between) in
    let back : GivesBack between after = release-GivesBack loans between in
    let before : GivesBack calls between = λ l. ground arith in
    (
      v,
      record v { is_init = false; num_arrays = none },
      e,
      f,
      between,
      after,
      set_up,
      rw converted refl,
      rw marked refl,
      by_pictures t (take s.pattern_len date.elements) f s.off_x s.off_y table q p same marks,
      λ l. omega (arith, before l, back l),
      refl,
      refl,
    )
