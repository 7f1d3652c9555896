-- ===== src/Osd/Argb.antt =====
-- `argbIntToNV21Byte`, `argbIntToNV12Byte` and `argbIntToGrayNVByte` of osd/src/main/jni/YuvUtils.cpp:
-- words of alpha, red, green and blue become brightness and colour bytes. A `jint` is its 32 bits.
pub mod Colours
pub mod Points
pub mod Steps
pub mod Rows
pub mod Frames
pub mod Gray
pub mod Odd
use jrtplib4android.Prelude.{
  ℕ, zero, suc, ◌+◌, ◌*◌, ◌/◌, ◌%◌, ◌^◌, Option, some, List, ◌==◌, ◌&&◌, if◌then◌else◌, get_elem?,
  ltb, bit_and,
}
use jrtplib4android.Prelude.Int.{ℤ, pos, negsuc, sub_ℕ}
use jrtplib4android.Prelude.Bytes.{◌>>=◌, slice, put}

-- `(argb[index] & 0xff0000) >> 16`, and so on.
unfoldable pub red : ℕ → ℕ
red word = bit_and word 0xff0000 / 2 ^ 16

unfoldable pub green : ℕ → ℕ
green word = bit_and word 0xff00 / 2 ^ 8

unfoldable pub blue : ℕ → ℕ
blue word = bit_and word 0xff

-- `a >> 8` rounds down, below zero too.
abbrev pub shift_8 : ℤ → ℤ
shift_8 (pos n) = pos (n / 2 ^ 8)
shift_8 (negsuc n) = negsuc (n / 2 ^ 8)

abbrev pub plus : ℤ → ℕ → ℤ
plus (pos n) m = pos (n + m)
plus (negsuc n) m = sub_ℕ m (n + 1)

-- `Y`, `U` and `V`; what is subtracted is gathered on the right.
unfoldable pub luma : ℕ → ℤ
luma word = plus (shift_8 (pos (66 * red word + 129 * green word + 25 * blue word + 128))) 16

unfoldable pub chroma_u : ℕ → ℤ
chroma_u word = plus (shift_8 (sub_ℕ (112 * blue word + 128) (38 * red word + 74 * green word))) 128

unfoldable pub chroma_v : ℕ → ℤ
chroma_v word = plus (shift_8 (sub_ℕ (112 * red word + 128) (94 * green word + 18 * blue word))) 128

-- `(jbyte) ((Y < 0) ? 0 : ((Y > 255) ? 255 : Y))`
unfoldable pub clamp : ℤ → ℕ
clamp (pos n) = if ltb 255 n then 255 else n
clamp (negsuc n) = 0

-- The local variables of the loops: the memory behind `yuv420sp` and the indexes.
pub record Canvas : Type 0 where
  pub yuv420sp : List ℕ
  pub y_index : ℕ
  pub uv_index : ℕ
  pub index : ℕ

module _ (argb : List ℕ) where
  module _ (first second : ℕ → ℤ) where
    -- The chroma of a point, in the order that the two functions have.
    unfoldable pub write_pair : (j word : ℕ) → Canvas → Option Canvas
    write_pair j word s =
        if ((j % 2) == 0) && ((s.index % 2) == 0)
        then (put s.yuv420sp s.uv_index (clamp (first word)) >>= λ half.
            put half (s.uv_index + 1) (clamp (second word)) >>= λ both.
            some (record s { yuv420sp = both; uv_index = s.uv_index + 2 }))
        else some s

    unfoldable pub convert_point : ℕ → Canvas → Option Canvas
    convert_point j s = get_elem? argb s.index >>= λ word.
        put s.yuv420sp s.y_index (clamp (luma word)) >>= λ lit.
        write_pair j word (record s { yuv420sp = lit; y_index = s.y_index + 1 }) >>= λ t.
        some (record t { index = t.index + 1 })

    -- The points of row `j`, and `rows` rows from row `j` on.
    unfoldable pub convert_row : (j n : ℕ) → Canvas → Option Canvas
    convert_row j zero s = some s
    convert_row j (suc n) s = convert_point j s >>= convert_row j n

    unfoldable pub convert_rows : (width rows j : ℕ) → Canvas → Option Canvas
    convert_rows width zero j s = some s
    convert_rows width (suc rows) j s = convert_row j width s >>= convert_rows width rows (j + 1)

  -- The loops of the third function.
  unfoldable pub gray_row : ℕ → Canvas → Option Canvas
  gray_row zero s = some s
  gray_row (suc n) s = get_elem? argb s.index >>= λ word.
      put s.yuv420sp s.y_index (clamp (luma word)) >>= λ lit.
      gray_row n (record s { yuv420sp = lit; y_index = s.y_index + 1; index = s.index + 1 })

  unfoldable pub gray_rows : (width rows : ℕ) → Canvas → Option Canvas
  gray_rows width zero s = some s
  gray_rows width (suc rows) s = gray_row width s >>= gray_rows width rows

  -- What the functions return; `memory` is what `malloc` returned, `resLength + 1` bytes that hold
  -- anything.
  unfoldable pub argb_int_to_nv21_byte : (memory : List ℕ) → (width height : ℕ) → Option (List ℕ)
  argb_int_to_nv21_byte memory width height =
      let frame_size = width * height in
      let start : Canvas = record {
        yuv420sp = memory;
        y_index = 0;
        uv_index = frame_size;
        index = 0;
      } in
      convert_rows chroma_v chroma_u width height 0 start >>= λ s.
      slice s.yuv420sp 0 (frame_size * 3 / 2)

  unfoldable pub argb_int_to_nv12_byte : (memory : List ℕ) → (width height : ℕ) → Option (List ℕ)
  argb_int_to_nv12_byte memory width height =
      let frame_size = width * height in
      let start : Canvas = record {
        yuv420sp = memory;
        y_index = 0;
        uv_index = frame_size;
        index = 0;
      } in
      convert_rows chroma_u chroma_v width height 0 start >>= λ s.
      slice s.yuv420sp 0 (frame_size * 3 / 2)

  unfoldable pub argb_int_to_gray_nv_byte : (memory : List ℕ) → (width height : ℕ) → Option (List ℕ)
  argb_int_to_gray_nv_byte memory width height =
      let frame_size = width * height in
      let start : Canvas = record { yuv420sp = memory; y_index = 0; uv_index = 0; index = 0 } in
      gray_rows width height start >>= λ s. slice s.yuv420sp 0 frame_size
