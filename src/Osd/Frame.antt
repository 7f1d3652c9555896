-- ===== src/Osd/Frame.antt =====
-- `addOsd` of osd/src/main/jni/YuvUtils.cpp: a picture in NV21 is turned, its chroma bytes are
-- exchanged (which makes NV12 of it), and the time is drawn into it.
pub mod Fills
pub mod Blocks
pub mod Picture
pub mod Turn
pub mod Straight
pub mod Mark
pub mod Drawn
pub mod Marked
pub mod Shown
pub mod Angles
use jrtplib4android.Prelude.{
  ℕ, zero, suc, ◌+◌, ◌*◌, ◌-◌, ◌/◌, Option, none, some, List, [], ◌∷◌, ◌==◌, if◌then◌else◌,
  get_elem?,
}
use jrtplib4android.Prelude.Bytes.{◌>>=◌, slice, blit, put}
use jrtplib4android.Osd.Glyphs.{YuvUtils, size, get_index}

-- A loop whose rounds write `w` bytes each, from `k` on; `r` counts the rounds.
unfoldable pub walk :
    (w : ℕ) → (ℕ → ℕ → List ℕ → Option (List ℕ)) → (rounds r k : ℕ) → List ℕ → Option (List ℕ)
walk w body zero r k dest = some dest
walk w body (suc rounds) r k dest = body r k dest >>= walk w body rounds (r + 1) (k + w)

module _ (src : List ℕ) where
  -- `dest[k++] = src[i]`
  unfoldable pub copy_point : ℕ → ℕ → List ℕ → Option (List ℕ)
  copy_point i k dest = get_elem? src i >>= λ v. put dest k v

  -- `dest[k] = src[i + 1]; dest[k + 1] = src[i]`
  unfoldable pub copy_pair : ℕ → ℕ → List ℕ → Option (List ℕ)
  copy_pair i k dest = get_elem? src (i + 1) >>= λ v.
      put dest k v >>= λ half. get_elem? src i >>= λ u. put half (k + 1) u

  -- The two nested loops over the luma and over the chroma, by the index of the byte that is read.
  unfoldable pub copy_points : (ℕ → ℕ → ℕ) → (rows n k : ℕ) → List ℕ → Option (List ℕ)
  copy_points index rows n k dest =
      walk n (λ r. walk 1 (λ t. copy_point (index r t)) n 0) rows 0 k dest

  unfoldable pub copy_pairs : (ℕ → ℕ → ℕ) → (rows n k : ℕ) → List ℕ → Option (List ℕ)
  copy_pairs index rows n k dest =
      walk (2 * n) (λ r. walk 2 (λ t. copy_pair (index r t)) n 0) rows 0 k dest

  -- No turn: the luma as it is, the chroma bytes exchanged.
  unfoldable pub turn_0 : (width height : ℕ) → List ℕ → Option (List ℕ)
  turn_0 width height dest =
      let framesize = width * height in
      slice src 0 framesize >>= λ luma. blit dest 0 luma >>= λ copied.
      copy_pairs (λ r t. framesize + 2 * t) 1 ((framesize / 2 + 1) / 2) framesize copied

  -- Clockwise by 90 degrees.
  unfoldable pub turn_90 : (width height : ℕ) → List ℕ → Option (List ℕ)
  turn_90 width height dest =
      let framesize = width * height in
      let uv_height = height / 2 in
      copy_points (λ i t. (height - 1 - t) * width + i) width height 0 dest >>= λ copied.
      copy_pairs (λ i t. framesize + width * (uv_height - 1 - t) + 2 * i) ((width + 1) / 2)
        uv_height (width * height) copied

  -- Clockwise by 270 degrees. The pair that is read ends at column `width - 1 - 2 * i`.
  unfoldable pub turn_270 : (width height : ℕ) → List ℕ → Option (List ℕ)
  turn_270 width height dest =
      let framesize = width * height in
      let uv_height = height / 2 in
      copy_points (λ i t. t * width + (width - 1 - i)) width height 0 dest >>= λ copied.
      copy_pairs (λ i t. framesize + width * t + (width - 1 - 2 * i) - 1) ((width + 1) / 2)
        uv_height (width * height) copied

-- The turned picture and its width; for any other angle the width is not set, a fault.
unfoldable pub turn : ℕ → (width height : ℕ) → (src dest : List ℕ) → Option (List ℕ × ℕ)
turn rotation width height src dest =
    if rotation == 0
    then (turn_0 src width height dest >>= λ d. some (d, width))
    else if rotation == 90
    then (turn_90 src width height dest >>= λ d. some (d, height))
    else if rotation == 270
    then (turn_270 src width height dest >>= λ d. some (d, height))
    else none

-- One point of a picture: only the points that are set are drawn, in white (-21 as a byte).
unfoldable pub draw_point : ℕ → ℕ → List ℕ → Option (List ℕ)
draw_point point at dest = if point == 0 then some dest else put dest at 235

-- The points of a row of a picture, the rows of a picture, `frame` bytes apart.
unfoldable pub draw_row : List ℕ → ℕ → List ℕ → Option (List ℕ)
draw_row [] at dest = some dest
draw_row (p ∷ ps) at dest = draw_point p at dest >>= draw_row ps (at + 1)

unfoldable pub draw_picture : (rows : ℕ) → List ℕ → (frame at : ℕ) → List ℕ → Option (List ℕ)
draw_picture zero points frame at dest = some dest
draw_picture (suc rows) points frame at dest = slice points 0 17 >>= λ row.
    draw_row row at dest >>= λ drawn.
    slice points 17 (rows * 17) >>= λ below. draw_picture rows below frame (at + frame) drawn

-- The characters of the mark, each 17 points to the right of the one before.
unfoldable pub draw_mark : List ℕ → List ℕ → (frame at : ℕ) → List ℕ → Option (List ℕ)
draw_mark table [] frame at dest = some dest
draw_mark table (c ∷ cs) frame at dest = slice table (size * get_index c) size >>= λ points.
    draw_picture 23 points frame at dest >>= draw_mark table cs frame (at + 17)

-- `addOsd`: `date` are the characters of the text, of which as many as the mark has are read.
unfoldable pub add_osd : YuvUtils → (src dest date : List ℕ) → Option (List ℕ)
add_osd u src dest date = turn u.rotation u.frame_width u.frame_height src dest >>= λ turned.
    slice date 0 u.date_len >>= λ text. elim text [
      | [] ↦ some (turned.0)
      | c ∷ cs ↦ u.num_arrays >>= λ table.
          draw_mark table (c ∷ cs) (turned.1) (u.off_y * turned.1 + u.off_x) (turned.0)
    ]
