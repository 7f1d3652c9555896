-- ===== src/Osd/Tests.antt =====
-- The theorems on the OSD library at concrete frames, and runs of its loops.
use jrtplib4android.Prelude.{
  ℕ, ◌+◌, ◌*◌, ◌<◌, ◌≤◌, ◌≡◌, refl, true, ◌⊎◌, inl, Option, none, some, List, [], ◌∷◌, arith,
  length, get_elem?, take, replicate, length-replicate,
}
use jrtplib4android.Prelude.Int.{pos}
use jrtplib4android.Osd.Glyphs.{YuvUtils, Setup, size, get_index, init_osd}
use jrtplib4android.Osd.Glyphs.Table.{picture, init_osd_lem}
use jrtplib4android.Osd.Argb.{
  red, green, blue, luma, chroma_u, chroma_v, argb_int_to_nv21_byte, argb_int_to_nv12_byte,
  argb_int_to_gray_nv_byte, convert_rows, convert_row, convert_point, write_pair, clamp,
}
use jrtplib4android.Osd.Argb.Colours.{InRange, colours-InRange}
use jrtplib4android.Osd.Argb.Frames.{words, argb_int-words}
use jrtplib4android.Osd.Argb.Odd.{argb_int-odd}
use jrtplib4android.Osd.Argb.Gray.{conversions-agree}
use jrtplib4android.Osd.Frame.{
  turn, turn_90, copy_points, copy_pairs, walk, copy_point, copy_pair, add_osd,
}
use jrtplib4android.Prelude.Bytes.{put, slice}
use jrtplib4android.Osd.Frame.Picture.{Same, nv21, nv12, quarters}
use jrtplib4android.Osd.Frame.Angles.{right, straight, turn_lem, turn-turn}
use jrtplib4android.Osd.Frame.Shown.{TextPoint, Marks, add_osd_lem}
use jrtplib4android.Osd.Nv12.{nv21_to_nv12, nv21_to_nv12-luma_lost}
use jrtplib4android.Osd.Handle.{
  new_utils, init_osd_handle, argb_int_to_nv21_handle, argb_int_to_nv12_handle,
  argb_int_to_gray_nv_handle, nv21_to_nv12_handle, add_osd_handle, release_osd_handle,
}
use jrtplib4android.Jni.{HostCall, Object, GivesBack}
use jrtplib4android.Osd.Handle.Loans.{IsFilled, osd-GivesBack}
use jrtplib4android.Osd.Whole.{CharPoint, bitmap-marked}

-- A frame of 4 by 2 points, whose luma is 1 to 8, with its chroma pairs (9, 10) and (11, 12).
abbrev small : List ℕ
small = 1 ∷ 2 ∷ 3 ∷ 4 ∷ 5 ∷ 6 ∷ 7 ∷ 8 ∷ 9 ∷ 10 ∷ 11 ∷ 12 ∷ []

abbrev empty : List ℕ
empty = replicate 12 0

turned_right :
    turn 90 4 2 small empty ≡ some (5 ∷ 1 ∷ 6 ∷ 2 ∷ 7 ∷ 3 ∷ 8 ∷ 4 ∷ 10 ∷ 9 ∷ 12 ∷ 11 ∷ [], 2)
unfolding turn turn_90 copy_points copy_pairs walk copy_point copy_pair put
turned_right = refl

turn_example :
    (e : List ℕ) × (turn 90 4 2 small empty ≡ some (e, 2))
    × (length e ≡ 12)
    × Same (nv12 1 2 e) (quarters 1 (nv21 2 1 small))
turn_example = turn_lem right 2 1 small empty (omega arith) (omega arith)

turn-turn_example :
    (e f : List ℕ) × (turn 90 4 2 small empty ≡ some (e, 2))
    × (turn 270 2 4 e empty ≡ some (f, 4))
    × ((i : ℕ) → i < 12 → get_elem? f i ≡ get_elem? small i)
turn-turn_example = turn-turn right 2 1 small empty empty (omega arith) (omega arith) (omega arith)

-- A mark of one character in a frame of 18 by 24 points.
abbrev one_mark : YuvUtils
one_mark = record {
  is_init = true;
  off_x = 1;
  off_y = 1;
  date_len = 1;
  frame_width = 18;
  frame_height = 24;
  rotation = 0;
  num_arrays = some (replicate 6256 1);
}

add_osd_example :
    (e : List ℕ) × (add_osd one_mark (replicate 648 7) (replicate 648 0) (b'3' ∷ []) ≡ some e)
    × (length e ≡ length {A = ℕ} (replicate 648 0))
    × Marks
        (TextPoint (replicate 6256 1) (b'3' ∷ []) 1 1)
        (nv12 9 12 e)
        (nv21 9 12 (replicate 648 7))
add_osd_example =
    add_osd_lem one_mark straight 9 12 (replicate 6256 1) (replicate 648 7) (replicate 648 0)
      (b'3' ∷ []) refl refl refl refl (omega (arith, length-replicate {A = ℕ} 6256 1))
      (omega (arith, length-replicate {A = ℕ} 648 7))
      (omega (arith, length-replicate {A = ℕ} 648 0)) (omega arith) (omega arith) (omega arith)

abbrev white : List ℕ
white = replicate 4 0xffffff

argb_int_example :
    ((e : List ℕ) × (argb_int_to_nv21_byte white (replicate 7 0) 2 2 ≡ some e)
      × (length e ≡ 6)
      × Same (nv21 1 1 e) (words 1 1 white))
    × ((e : List ℕ) × (argb_int_to_nv12_byte white (replicate 7 0) 2 2 ≡ some e)
        × (length e ≡ 6)
        × Same (nv12 1 1 e) (words 1 1 white))
argb_int_example = argb_int-words white (replicate 7 0) 1 1 (omega arith) (omega arith)

conversions-agree_example :
    (e f g : List ℕ) × (argb_int_to_nv21_byte white (replicate 7 0) 2 2 ≡ some e)
    × (argb_int_to_nv12_byte white (replicate 7 1) 2 2 ≡ some f)
    × (argb_int_to_gray_nv_byte white (replicate 5 2) 2 2 ≡ some g)
    × Same (nv12 1 1 f) (nv21 1 1 e)
    × ((i : ℕ) → i < 4 → (get_elem? g i ≡ get_elem? e i) × (get_elem? g i ≡ get_elem? f i))
conversions-agree_example =
    conversions-agree white (replicate 7 0) (replicate 7 1) (replicate 5 2) 1 1 (omega arith)
      (omega arith) (omega arith) (omega arith)

-- White: 235, 128, 128. Three points in one row need more chroma than the memory has.
white_word : (luma 0xffffff ≡ pos 235) × (chroma_u 0xffffff ≡ pos 128)
unfolding luma chroma_u red green blue
white_word = (refl, refl)

odd_width_faults : argb_int_to_nv21_byte white (replicate 5 0) 3 1 ≡ none
unfolding argb_int_to_nv21_byte convert_rows convert_row convert_point write_pair put luma clamp
    chroma_u chroma_v red green blue slice
odd_width_faults = refl

colours_example :
    InRange (luma 0xff8000) 16 235
    × InRange (chroma_u 0xff8000) 16 240
    × InRange (chroma_v 0xff8000) 16 240
    × (red 0xff8000 ≡ green 0xff8000
        → green 0xff8000 ≡ blue 0xff8000
        → (chroma_u 0xff8000 ≡ pos 128) × (chroma_v 0xff8000 ≡ pos 128))
colours_example = colours-InRange 0xff8000

nv21_to_nv12_example :
    (s d : List ℕ) × (nv21_to_nv12 small empty 4 2 ≡ some (s, d))
    × ((column row : ℕ)
        → column < 2
        → row < 1
        → ((nv12 2 1 d).u column row ≡ (nv21 2 1 small).u column row)
          × ((nv12 2 1 d).v column row ≡ (nv21 2 1 small).v column row))
    × ((i : ℕ) → i < 8 → (get_elem? d i ≡ get_elem? empty i) × (get_elem? s i ≡ get_elem? empty i))
nv21_to_nv12_example = nv21_to_nv12-luma_lost small empty 2 1 (omega arith) (omega arith)

-- A mark of 16 characters in frames of 272 by 24 points.
abbrev date_mark : Setup
date_mark = record {
  off_x = 0;
  off_y = 1;
  pattern_len = 16;
  frame_width = 272;
  frame_height = 24;
  rotation_angle = 0;
}

init_osd_example :
    ((16 ≤ 16)
      → (t : List ℕ) × (init_osd date_mark new_utils
          ≡ some (record {
            is_init = true;
            off_x = 0;
            off_y = 1;
            date_len = 16;
            frame_width = 272;
            frame_height = 24;
            rotation = 0;
            num_arrays = some t;
          }))
        × (length t ≡ 16 * size)
        × ((ch c : ℕ)
            → c < size
            → get_elem? t (size * get_index ch + c) ≡ get_elem? (picture ch) c))
    × (16 < 16 → init_osd date_mark new_utils ≡ none)
init_osd_example = init_osd_lem date_mark new_utils refl

abbrev of_list : ℕ → List ℕ → Object
of_list r l = record { ref = r; elements = l }

bitmap_example :
    (v w : YuvUtils) × (e f : List ℕ) × (between after : List HostCall) × (init_osd_handle date_mark
      ≡ some v)
    × (argb_int_to_nv21_handle
          (some v)
          (of_list 1 (replicate 6528 255))
          (replicate 9793 0)
          272
          24
          []
        ≡ some (some e, between))
    × (add_osd_handle
          (some v)
          (of_list 2 e)
          (of_list 3 (replicate 9792 0))
          (of_list 4 (replicate 16 b'8'))
          between
        ≡ some (f, after))
    × Marks
        (CharPoint (take 16 (replicate 16 b'8')) 0 1)
        (nv12 136 12 f)
        (words 136 12 (replicate 6528 255))
    × GivesBack [] after
    × (release_osd_handle (some v) ≡ some w)
    × (w.num_arrays ≡ none)
bitmap_example =
    bitmap-marked date_mark straight 136 12 (of_list 1 (replicate 6528 255)) (replicate 9793 0) 2
      (of_list 3 (replicate 9792 0)) (of_list 4 (replicate 16 b'8')) [] (omega arith) refl refl refl
      (omega (arith, length-replicate {A = ℕ} 6528 255))
      (omega (arith, length-replicate {A = ℕ} 9793 0))
      (omega (arith, length-replicate {A = ℕ} 9792 0)) (omega arith) (omega arith) (omega arith)

osd_loans_example :
    ((yuv_in yvu_out date : Object) (d : List ℕ) (after : List HostCall)
      → add_osd_handle (some new_utils) yuv_in yvu_out date [] ≡ some (d, after)
      → GivesBack [] after)
    × ((ints : Object) (memory : List ℕ) (width height : ℕ) (bytes : Option (List ℕ))
          (after : List HostCall)
        → (argb_int_to_nv21_handle (some new_utils) ints memory width height []
            ≡ some (bytes, after))
          ⊎ (argb_int_to_nv12_handle (some new_utils) ints memory width height []
              ≡ some (bytes, after))
          ⊎ (argb_int_to_gray_nv_handle (some new_utils) ints memory width height []
              ≡ some (bytes, after))
        → GivesBack [] after × IsFilled bytes after)
    × ((src dest : Object) (width height : ℕ) (s d : List ℕ) (after : List HostCall)
        → nv21_to_nv12_handle (some new_utils) src dest width height [] ≡ some (s, d, after)
        → GivesBack [] after)
osd_loans_example = osd-GivesBack [] (some new_utils)

-- A bitmap of three points in a row.
argb_int-odd_example :
    (argb_int_to_nv21_byte (1 ∷ 2 ∷ 3 ∷ []) (0 ∷ 0 ∷ 0 ∷ 0 ∷ 0 ∷ []) 3 1 ≡ none)
    × (argb_int_to_nv12_byte (1 ∷ 2 ∷ 3 ∷ []) (0 ∷ 0 ∷ 0 ∷ 0 ∷ 0 ∷ []) 3 1 ≡ none)
argb_int-odd_example =
    argb_int-odd (1 ∷ 2 ∷ 3 ∷ []) (0 ∷ 0 ∷ 0 ∷ 0 ∷ 0 ∷ []) 3 1 (omega arith) (omega arith)
      (inl refl) (omega arith) (omega arith) refl
