-- ===== src/Osd/Glyphs.antt =====
-- The time mark of YuvUtils.cpp: its pictures, the table that `initOsd` makes of them, and the
-- place of a character in the table.
pub mod Digits
pub mod Signs
pub mod Index
pub mod Table
use jrtplib4android.Prelude.{
  ℕ, ◌+◌, ◌*◌, ◌-◌, Bool, true, false, Option, none, some, List, [], ◌∷◌, leb, ◌==◌, ◌&&◌,
  if◌then◌else◌, replicate,
}
use jrtplib4android.Prelude.Bytes.{◌>>=◌, blit}
use Digits.{num_0, num_1, num_2, num_3, num_4, num_5, num_6, num_7, num_8, num_9}
use Signs.{num_space, num_colon, num_line, char_year, char_month, char_day}

-- The fields of `YuvUtils`; `num_arrays` is the memory behind `mNumArrays`, none after `free`.
pub record YuvUtils : Type 0 where
  pub is_init : Bool
  pub off_x : ℕ
  pub off_y : ℕ
  pub date_len : ℕ
  pub frame_width : ℕ
  pub frame_height : ℕ
  pub rotation : ℕ
  pub num_arrays : Option (List ℕ)

-- `num_width * num_height`
abbrev pub size : ℕ
size = 17 * 23

-- The pictures in the order of the table.
abbrev pub pictures : List (List ℕ)
pictures =
    num_0 ∷ num_1 ∷ num_2 ∷ num_3 ∷ num_4 ∷ num_5 ∷ num_6 ∷ num_7 ∷ num_8 ∷ num_9 ∷ num_line
    ∷ num_space ∷ num_colon ∷ char_year ∷ char_month ∷ char_day ∷ []

-- The copies of the pictures, one behind the other from place `i` on.
unfoldable pub copy_pictures : ℕ → List (List ℕ) → List ℕ → Option (List ℕ)
copy_pictures i [] table = some table
copy_pictures i (p ∷ ps) table = blit table (size * i) p >>= λ next. copy_pictures (i + 1) ps next

-- What `initOsd` is given.
pub record Setup : Type 0 where
  pub off_x : ℕ
  pub off_y : ℕ
  pub pattern_len : ℕ
  pub frame_width : ℕ
  pub frame_height : ℕ
  pub rotation_angle : ℕ

-- `initOsd`: the table has room for as many pictures as the mark has characters, all 16 are copied.
unfoldable pub init_osd : Setup → YuvUtils → Option YuvUtils
init_osd a u =
    if u.is_init
    then some u
    else (copy_pictures 0 pictures (replicate (a.pattern_len * size) 0) >>= λ table. some (record {
      is_init = true;
      off_x = a.off_x;
      off_y = a.off_y;
      date_len = a.pattern_len;
      frame_width = a.frame_width;
      frame_height = a.frame_height;
      rotation = a.rotation_angle;
      num_arrays = some table;
    }))

-- `getIndex`
unfoldable pub get_index : ℕ → ℕ
get_index c =
    if leb b'0' c && leb c b'9'
    then c - b'0'
    else if c == b'-'
    then 10
    else if c == b' '
    then 11
    else if c == b':'
    then 12
    else if c == 24180
    then 13
    else if c == 26376
    then 14
    else if c == 26085
    then 15
    else 11

-- `releaseOsd`
unfoldable pub release_osd : YuvUtils → YuvUtils
release_osd u = if u.is_init then record u { is_init = false; num_arrays = none } else u
