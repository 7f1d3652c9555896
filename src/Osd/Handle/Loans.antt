-- ===== src/Osd/Handle/Loans.antt =====
-- What the functions of YuvOsdUtils.cpp take from the virtual machine, they give back.
use jrtplib4android.Prelude.{
  ℕ, ◌≡◌, ◌∷◌, Option, none, some, List, [], length, ◌⊎◌, inl, inr, Option-cases, arith,
}
use jrtplib4android.Jni.{
  HostCall, Object, GivesBack, release-GivesBack, chars, byte_elements, new_byte_array,
  set_byte_array_region,
}
use jrtplib4android.Osd.Glyphs.{YuvUtils}
use jrtplib4android.Osd.Frame.{add_osd}
use jrtplib4android.Osd.Handle.{
  add_osd_lent, add_osd_handle, argb_int_to_nv21_handle, argb_int_to_nv12_handle,
  argb_int_to_gray_nv_handle, nv21_to_nv12_handle,
}

-- The calls that end with a new array, filled with as many bytes as it has.
abbrev pub IsFilled : Option (List ℕ) → List HostCall → Type 0
IsFilled none calls = Unit
IsFilled (some bytes) calls =
    (before : List HostCall) × (calls
      ≡ set_byte_array_region bytes ∷ new_byte_array (length bytes) ∷ before)

module _ (calls : List HostCall) where
  add_osd-GivesBack :
      (handle : Option YuvUtils) (yuv_in yvu_out date : Object) (d : List ℕ) (after : List HostCall)
      → add_osd_handle handle yuv_in yvu_out date calls ≡ some (d, after)
      → GivesBack calls after
  unfolding add_osd_handle add_osd_lent
  add_osd-GivesBack none yuv_in yvu_out date d after done = ground arith
  add_osd-GivesBack (some u) yuv_in yvu_out date d after done =
      elim (Option-cases (add_osd u yuv_in.elements yvu_out.elements date.elements)) [
        | inl e ↦ ground arith
        | inr (q, e) ↦
            let back =
              release-GivesBack
                (byte_elements yuv_in.ref ∷ byte_elements yvu_out.ref ∷ chars date.ref ∷ [])
                calls in
            ground arith
      ]

  nv21_to_nv12-GivesBack :
      (handle : Option YuvUtils) (src dest : Object) (width height : ℕ) (s d : List ℕ)
      (after : List HostCall)
      → nv21_to_nv12_handle handle src dest width height calls ≡ some (s, d, after)
      → GivesBack calls after
  unfolding nv21_to_nv12_handle
  nv21_to_nv12-GivesBack handle src dest width height s d after done =
      let back = release-GivesBack (byte_elements src.ref ∷ byte_elements dest.ref ∷ []) calls in
      ground arith

  -- With or without a handle, every function that takes arrays or texts gives them back, if it is no
  -- fault; a conversion returns a new array that is filled in full, or nothing.
  pub osd-GivesBack :
      (handle : Option YuvUtils)
      → ((yuv_in yvu_out date : Object) (d : List ℕ) (after : List HostCall)
          → add_osd_handle handle yuv_in yvu_out date calls ≡ some (d, after)
          → GivesBack calls after)
        × ((ints : Object) (memory : List ℕ) (width height : ℕ) (bytes : Option (List ℕ))
              (after : List HostCall)
            → (argb_int_to_nv21_handle handle ints memory width height calls ≡ some (bytes, after))
              ⊎ (argb_int_to_nv12_handle handle ints memory width height calls
                  ≡ some (bytes, after))
              ⊎ (argb_int_to_gray_nv_handle handle ints memory width height calls
                  ≡ some (bytes, after))
            → GivesBack calls after × IsFilled bytes after)
        × ((src dest : Object) (width height : ℕ) (s d : List ℕ) (after : List HostCall)
            → nv21_to_nv12_handle handle src dest width height calls ≡ some (s, d, after)
            → GivesBack calls after)
  unfolding argb_int_to_nv21_handle argb_int_to_nv12_handle argb_int_to_gray_nv_handle
  osd-GivesBack handle = (
    add_osd-GivesBack handle,
    λ ints memory width height bytes after done. ground arith,
    nv21_to_nv12-GivesBack handle,
  )
