-- ===== src/Osd/Handle.antt =====
-- osd/src/main/jni/YuvOsdUtils.cpp: what Java calls, with the object behind the handle; a handle of 0
-- is `none`. What the Java virtual machine lends stands in the calls made so far.
pub mod Loans
use jrtplib4android.Prelude.{ℕ, false, Option, none, some, List, [], ◌∷◌, length}
use jrtplib4android.Prelude.Bytes.{◌>>=◌}
use jrtplib4android.Jni.{
  HostCall, Object, get, release, get_all, release_all, chars, byte_elements, int_elements,
  new_byte_array, set_byte_array_region,
}
use jrtplib4android.Osd.Glyphs.{YuvUtils, Setup, init_osd, release_osd}
use jrtplib4android.Osd.Frame.{add_osd}
use jrtplib4android.Osd.Argb.{
  argb_int_to_nv21_byte, argb_int_to_nv12_byte, argb_int_to_gray_nv_byte,
}
use jrtplib4android.Osd.Nv12.{nv21_to_nv12}

-- `new YuvUtils()` sets every field to zero.
abbrev pub new_utils : YuvUtils
new_utils = record {
  is_init = false;
  off_x = 0;
  off_y = 0;
  date_len = 0;
  frame_width = 0;
  frame_height = 0;
  rotation = 0;
  num_arrays = none;
}

-- `initOsd_`
unfoldable pub init_osd_handle : Setup → Option YuvUtils
init_osd_handle a = init_osd a new_utils

-- `YuvUtils::addOsd` between the calls of the virtual machine.
unfoldable pub add_osd_lent :
    YuvUtils → (yuv_in yvu_out date : Object) → List HostCall → Option (List ℕ × List HostCall)
add_osd_lent u yuv_in yvu_out date calls =
    let loans = byte_elements yuv_in.ref ∷ byte_elements yvu_out.ref ∷ chars date.ref ∷ [] in
    add_osd u yuv_in.elements yvu_out.elements date.elements >>= λ d.
    some (d, release_all loans (get_all loans calls))

-- `addOsd_`: what the output array holds afterwards.
unfoldable pub add_osd_handle :
    Option YuvUtils
    → (yuv_in yvu_out date : Object) → List HostCall
    → Option (List ℕ × List HostCall)
add_osd_handle none yuv_in yvu_out date calls = some (yvu_out.elements, calls)
add_osd_handle (some u) yuv_in yvu_out date calls = add_osd_lent u yuv_in yvu_out date calls

-- The words of a bitmap are lent while they are converted; the bytes go into a new array.
abbrev pub convert_calls : Object → List ℕ → List HostCall → List HostCall
convert_calls ints bytes calls =
    set_byte_array_region bytes
    ∷ new_byte_array (length bytes)
    ∷ release (int_elements ints.ref)
    ∷ get (int_elements ints.ref)
    ∷ calls

-- The three conversions: `none` inside is `NULL`.
module _ (handle : Option YuvUtils) (ints : Object) (memory : List ℕ) (width height : ℕ)
    (calls : List HostCall) where
  unfoldable pub argb_int_to_nv21_handle : Option (Option (List ℕ) × List HostCall)
  argb_int_to_nv21_handle = elim handle [
    | none ↦ some (none, calls)
    | some u ↦ argb_int_to_nv21_byte ints.elements memory width height >>= λ e.
        some (some e, convert_calls ints e calls)
  ]

  unfoldable pub argb_int_to_nv12_handle : Option (Option (List ℕ) × List HostCall)
  argb_int_to_nv12_handle = elim handle [
    | none ↦ some (none, calls)
    | some u ↦ argb_int_to_nv12_byte ints.elements memory width height >>= λ e.
        some (some e, convert_calls ints e calls)
  ]

  unfoldable pub argb_int_to_gray_nv_handle : Option (Option (List ℕ) × List HostCall)
  argb_int_to_gray_nv_handle = elim handle [
    | none ↦ some (none, calls)
    | some u ↦ argb_int_to_gray_nv_byte ints.elements memory width height >>= λ e.
        some (some e, convert_calls ints e calls)
  ]

-- `nv21ToNv12_`: both arrays afterwards. They are lent without a handle too.
unfoldable pub nv21_to_nv12_handle :
    Option YuvUtils
    → (nv21_src nv12_dest : Object) → (width height : ℕ) → List HostCall
    → Option (List ℕ × List ℕ × List HostCall)
nv21_to_nv12_handle handle nv21_src nv12_dest width height calls =
    let loans = byte_elements nv21_src.ref ∷ byte_elements nv12_dest.ref ∷ [] in
    let lent = release_all loans (get_all loans calls) in
    elim handle [
      | none ↦ some (nv21_src.elements, nv12_dest.elements, lent)
      | some u ↦ nv21_to_nv12 nv21_src.elements nv12_dest.elements width height >>= λ r.
          some (r.0, r.1, lent)
    ]

-- `releaseOsd_`: what is left of the object before it is deleted.
unfoldable pub release_osd_handle : Option YuvUtils → Option YuvUtils
release_osd_handle none = none
release_osd_handle (some u) = some (release_osd u)
