-- ===== src/Osd/Argb/Frames.antt =====
-- The frames that the conversions return.
use jrtplib4android.Prelude.{
  ℕ, ◌+◌, ◌*◌, ◌/◌, ◌<◌, ◌≤◌, ◌≡◌, refl, sym, ap, ◌∙◌, Option, none, some, List, arith, length,
  get_elem?, take, drop,
}
use jrtplib4android.Prelude.Int.{ℤ}
use jrtplib4android.Prelude.Bytes.{
  ◌>>=◌, slice, slice-in, length-slice, get_elem?-slice, get_elem?-in,
}
use jrtplib4android.Osd.Argb.{
  luma, chroma_u, chroma_v, clamp, convert_rows, argb_int_to_nv21_byte, argb_int_to_nv12_byte,
}
use jrtplib4android.Osd.Argb.Points.{Written}
use jrtplib4android.Osd.Argb.Rows.{frame_rows}
use jrtplib4android.Osd.Argb.Steps.{canvas}
use jrtplib4android.Osd.Frame.Picture.{
  Picture, Same, nv21, nv12, luma_at, chroma_at, place-fits, rows-fit,
}
use jrtplib4android.Osd.Frame.Turn.{frame_size}

-- A value of a word that may be missing.
abbrev pub on_word : (ℕ → ℤ) → Option ℕ → Option ℕ
on_word f none = none
on_word f (some word) = some (clamp (f word))

-- The picture that the words show: every point's brightness, and each square's colours taken from
-- its upper left point.
abbrev pub words : (a b : ℕ) → List ℕ → Picture
words a b argb = record {
  a = a;
  b = b;
  y = λ column row. on_word luma (get_elem? argb (luma_at a column row));
  u = λ column row. on_word chroma_u (get_elem? argb (luma_at a (2 * column) (2 * row)));
  v = λ column row. on_word chroma_v (get_elem? argb (luma_at a (2 * column) (2 * row)));
}

module _ (argb memory : List ℕ) (a b : ℕ) (all : 2 * a * (2 * b) ≤ length argb)
    (room : frame_size a b ≤ length memory) where
  -- The loops, and the copy of the bytes that are returned.
  converted :
      (first second : ℕ → ℤ)
      → (e : List ℕ) × ((convert_rows argb first second
              (2 * a)
              (2 * b)
              0
              (canvas 0 (2 * a * (2 * b)) memory)
            >>= λ s. slice s.yuv420sp 0 (2 * a * (2 * b) * 3 / 2))
          ≡ some e)
        × (length e ≡ frame_size a b)
        × Written argb first second a b (2 * a * (2 * b)) (frame_size a b) e
  converted first second =
      let n : ℕ = 2 * a * (2 * b) in
      let turned : 2 * b * (2 * a) ≡ n = grind arith in
      let half : b * (2 * a) ≡ 2 * a * b = grind arith in
      let bytes : n * 3 / 2 ≡ frame_size a b = grind arith in
      let (d, ran, size, w) =
        (frame_rows argb first second a b (length memory) all room).leads memory refl (record {
          lit = λ m v h there. absurd (omega arith);
          coloured = λ c r v hc before there. absurd (omega arith);
        }) in
      let fits : 0 + n * 3 / 2 ≤ length d = omega (arith, size, bytes) in
      let inside : (i : ℕ)
          → i < frame_size a b
          → get_elem? (take (n * 3 / 2) (drop 0 d)) i ≡ get_elem? d i =
        λ i h.
          get_elem?-slice d 0 (n * 3 / 2) i fits (omega (arith, bytes))
          ∙ ap (λ j. get_elem? d j) (omega arith) in
      (
        take (n * 3 / 2) (drop 0 d),
        rw ran (slice-in d 0 (n * 3 / 2) fits),
        length-slice d 0 (n * 3 / 2) fits ∙ bytes,
        record {
          lit = λ m v h there. inside m (omega arith) ∙ w.lit m v h there;
          coloured = λ c r v hc before there. (
            inside (chroma_at a b c r) before ∙ (w.coloured c r v hc before there).0,
            inside (chroma_at a b c r + 1) (even_end c r before)
                ∙ (w.coloured c r v hc before there).1,
          );
        },
      )
    where
      even_end :
          (c r : ℕ) → chroma_at a b c r < frame_size a b → chroma_at a b c r + 1 < frame_size a b
      even_end c r h =
          let e : chroma_at a b c r ≡ 2 * (2 * a * b + r * a + c) = grind arith in
          let f : frame_size a b ≡ 2 * (3 * (a * b)) = grind arith in omega (arith, e, f)

  module _ (first second : ℕ → ℤ) (e : List ℕ)
      (w : Written argb first second a b (2 * a * (2 * b)) (frame_size a b) e) where
    written_y :
        (column row : ℕ)
        → column < 2 * a
        → row < 2 * b
        → get_elem? e (luma_at a column row) ≡ on_word luma (get_elem? argb (luma_at a column row))
    written_y column row hc hr =
        let turned : 2 * b * (2 * a) ≡ 2 * a * (2 * b) = grind arith in
        let inside : luma_at a column row < 2 * a * (2 * b) =
          omega (arith, turned, place-fits row (2 * b) (2 * a) column hr hc) in
        let (v, found) = get_elem?-in argb (luma_at a column row) (omega arith) in
        w.lit (luma_at a column row) v inside found ∙ ap (on_word luma) (sym found)

    written_pair :
        (column row : ℕ)
        → column < a
        → row < b
        → (get_elem? e (chroma_at a b column row)
            ≡ on_word first (get_elem? argb (luma_at a (2 * column) (2 * row))))
          × (get_elem? e (chroma_at a b column row + 1)
              ≡ on_word second (get_elem? argb (luma_at a (2 * column) (2 * row))))
    written_pair column row hc hr =
        let turned : 2 * b * (2 * a) ≡ 2 * a * (2 * b) = grind arith in
        let half : b * (2 * a) ≡ 2 * a * b = grind arith in
        let inside : luma_at a (2 * column) (2 * row) < 2 * a * (2 * b) = omega (
          arith,
          turned,
          place-fits (2 * row) (2 * b) (2 * a) (2 * column) (omega arith) (omega arith),
        ) in
        let before : chroma_at a b column row < frame_size a b =
          omega (arith, half, rows-fit row b (2 * a) hr) in
        let (v, found) = get_elem?-in argb (luma_at a (2 * column) (2 * row)) (omega arith) in
        let (one, two) = w.coloured column row v hc before found in
        (one ∙ ap (on_word first) (sym found), two ∙ ap (on_word second) (sym found))

  -- For an even width and height, words for every point and memory for a frame, both conversions
  -- return a frame whatever the memory held, one that shows the words' picture: read as NV21 for the
  -- one, as NV12 for the other.
  pub argb_int-words :
      ((e : List ℕ) × (argb_int_to_nv21_byte argb memory (2 * a) (2 * b) ≡ some e)
        × (length e ≡ frame_size a b)
        × Same (nv21 a b e) (words a b argb))
      × ((e : List ℕ) × (argb_int_to_nv12_byte argb memory (2 * a) (2 * b) ≡ some e)
          × (length e ≡ frame_size a b)
          × Same (nv12 a b e) (words a b argb))
  unfolding argb_int_to_nv21_byte argb_int_to_nv12_byte
  argb_int-words =
      let (e, ran, size, w) = converted chroma_v chroma_u in
      let (f, also, f_size, x) = converted chroma_u chroma_v in
      (
        (
          e,
          ran,
          size,
          record {
            same_a = refl;
            same_b = refl;
            same_y = written_y chroma_v chroma_u e w;
            same_u = λ c r hc hr. (written_pair chroma_v chroma_u e w c r hc hr).1;
            same_v = λ c r hc hr. (written_pair chroma_v chroma_u e w c r hc hr).0;
          },
        ),
        (
          f,
          also,
          f_size,
          record {
            same_a = refl;
            same_b = refl;
            same_y = written_y chroma_u chroma_v f x;
            same_u = λ c r hc hr. (written_pair chroma_u chroma_v f x c r hc hr).0;
            same_v = λ c r hc hr. (written_pair chroma_u chroma_v f x c r hc hr).1;
          },
        ),
      )
