-- ===== src/Osd/Argb/Gray.antt =====
-- The gray frame, and the three conversions beside each other.
use jrtplib4android.Prelude.{
  ℕ, zero, suc, ◌+◌, ◌*◌, ◌<◌, ◌≤◌, ◌≡◌, refl, sym, ap, ◌∙◌, some, List, arith, length, get_elem?,
  take, drop, set, length-set, subst,
}
use jrtplib4android.Prelude.Bytes.{slice-in, length-slice, get_elem?-slice, get_elem?-in, put-in}
use jrtplib4android.Osd.Argb.{
  luma, clamp, argb_int_to_nv21_byte, argb_int_to_nv12_byte, argb_int_to_gray_nv_byte, gray_row,
  gray_rows,
}
use jrtplib4android.Osd.Argb.Points.{Lit, set-Lit}
use jrtplib4android.Osd.Argb.Steps.{canvas}
use jrtplib4android.Osd.Argb.Frames.{words, on_word, argb_int-words}
use jrtplib4android.Osd.Frame.Picture.{Same, nv21, nv12, place, Same-trans, Same-sym}
use jrtplib4android.Osd.Frame.Turn.{frame_size}

module _ (argb : List ℕ) where
  gray_row-Lit :
      (k n : ℕ) (bytes : List ℕ)
      → n + k ≤ length argb
      → n + k ≤ length bytes
      → Lit argb n bytes
      → (d : List ℕ) × (gray_row argb k (canvas n 0 bytes) ≡ some (canvas (n + k) 0 d))
        × (length d ≡ length bytes)
        × Lit argb (n + k) d
  unfolding gray_row
  gray_row-Lit zero n bytes all room w =
      let e : n ≡ n + 0 = omega arith in
      (bytes, ap (λ m. some (canvas m 0 bytes)) e, refl, subst (λ m. Lit argb m bytes) e w)
  gray_row-Lit (suc k) n bytes all room w =
      let (v, found) = get_elem?-in argb n (omega arith) in
      let lit : List ℕ = set bytes n (clamp (luma v)) in
      let size : length lit ≡ length bytes = length-set bytes n (clamp (luma v)) in
      let (d, ran, d_size, dw) =
        gray_row-Lit k (n + 1) lit (omega arith) (omega (arith, size))
          (set-Lit argb n v bytes w found (omega arith)) in
      let e : n + 1 + k ≡ n + suc k = omega arith in
      (
        d,
        rw (found, put-in bytes n (clamp (luma v)) (omega arith)) ran
            ∙ ap (λ m. some (canvas m 0 d)) e,
        d_size ∙ size,
        subst (λ m. Lit argb m d) e dw,
      )

  gray_rows-Lit :
      (width rows n : ℕ) (bytes : List ℕ)
      → n + rows * width ≤ length argb
      → n + rows * width ≤ length bytes
      → Lit argb n bytes
      → (d : List ℕ) × (gray_rows argb width rows (canvas n 0 bytes)
          ≡ some (canvas (n + rows * width) 0 d))
        × (length d ≡ length bytes)
        × Lit argb (n + rows * width) d
  unfolding gray_rows
  gray_rows-Lit width zero n bytes all room w =
      let e : n ≡ n + 0 * width = grind arith in
      (bytes, ap (λ m. some (canvas m 0 bytes)) e, refl, subst (λ m. Lit argb m bytes) e w)
  gray_rows-Lit width (suc rows) n bytes all room w =
      let more : suc rows * width ≡ width + rows * width = grind arith in
      let (c, first, c_size, cw) =
        gray_row-Lit width n bytes (omega (arith, more)) (omega (arith, more)) w in
      let (d, ran, d_size, dw) =
        gray_rows-Lit width rows (n + width) c (omega (arith, more)) (omega (arith, more, c_size))
          cw in
      let e : n + width + rows * width ≡ n + suc rows * width = omega (arith, more) in
      (
        d,
        rw first ran ∙ ap (λ m. some (canvas m 0 d)) e,
        d_size ∙ c_size,
        subst (λ m. Lit argb m d) e dw,
      )

-- For any width and height, with words for every point and memory for a byte each, the gray
-- conversion returns exactly the clamped brightness of every word, in order.
pub gray_nv_byte-luma :
    (argb memory : List ℕ) (width height : ℕ)
    → width * height ≤ length argb
    → width * height ≤ length memory
    → (e : List ℕ) × (argb_int_to_gray_nv_byte argb memory width height ≡ some e)
      × (length e ≡ width * height)
      × ((i : ℕ) → i < width * height → get_elem? e i ≡ on_word luma (get_elem? argb i))
unfolding argb_int_to_gray_nv_byte
gray_nv_byte-luma argb memory width height all room =
    let n : ℕ = width * height in
    let turned : height * width ≡ n = grind arith in
    let (d, ran, size, w) =
      gray_rows-Lit argb width height 0 memory (omega (arith, turned)) (omega (arith, turned))
        (λ m v h there. absurd (omega arith)) in
    let fits : 0 + n ≤ length d = omega (arith, size) in
    (
      take n (drop 0 d),
      rw ran (slice-in d 0 n fits),
      length-slice d 0 n fits,
      λ i h.
          let (v, found) = get_elem?-in argb i (omega arith) in
          let z : 0 + i ≡ i = omega arith in
          get_elem?-slice d 0 n i fits h
          ∙ (ap (λ j. get_elem? d j) z
              ∙ (w i v (omega (arith, turned)) found ∙ ap (on_word luma) (sym found))),
    )

-- For an even width and height, words for every point and memory for the frames, whatever it holds,
-- the NV12 frame shows the same picture as the NV21 frame, and the gray frame is the first
-- `width * height` bytes of either.
pub conversions-agree :
    (argb memory21 memory12 memory_gray : List ℕ) (a b : ℕ)
    → 2 * a * (2 * b) ≤ length argb
    → frame_size a b ≤ length memory21
    → frame_size a b ≤ length memory12
    → 2 * a * (2 * b) ≤ length memory_gray
    → (e f g : List ℕ) × (argb_int_to_nv21_byte argb memory21 (2 * a) (2 * b) ≡ some e)
      × (argb_int_to_nv12_byte argb memory12 (2 * a) (2 * b) ≡ some f)
      × (argb_int_to_gray_nv_byte argb memory_gray (2 * a) (2 * b) ≡ some g)
      × Same (nv12 a b f) (nv21 a b e)
      × ((i : ℕ)
          → i < 2 * a * (2 * b)
          → (get_elem? g i ≡ get_elem? e i) × (get_elem? g i ≡ get_elem? f i))
conversions-agree argb memory21 memory12 memory_gray a b all room21 room12 room_gray =
    let (e, ran, size, same) = (argb_int-words argb memory21 a b all room21).0 in
    let (f, also, f_size, f_same) = (argb_int-words argb memory12 a b all room12).1 in
    let (g, gray, g_size, lit) = gray_nv_byte-luma argb memory_gray (2 * a) (2 * b) all room_gray in
    (
      e,
      f,
      g,
      ran,
      also,
      gray,
      Same-trans (nv12 a b f) (words a b argb) (nv21 a b e) f_same
          (Same-sym (nv21 a b e) (words a b argb) same),
      λ i h.
          let turned : 2 * b * (2 * a) ≡ 2 * a * (2 * b) = grind arith in
          let (row, column, at, hr, hc) = place (2 * a) (2 * b) i (omega (arith, turned)) in
          (
            lit i h
                ∙ (ap (λ j. on_word luma (get_elem? argb j)) at
                    ∙ (sym (same.same_y column row hc hr) ∙ ap (λ j. get_elem? e j) (sym at))),
            lit i h
                ∙ (ap (λ j. on_word luma (get_elem? argb j)) at
                    ∙ (sym (f_same.same_y column row hc hr) ∙ ap (λ j. get_elem? f j) (sym at))),
          ),
    )
