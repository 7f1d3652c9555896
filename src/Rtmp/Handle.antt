-- ===== src/Rtmp/Handle.antt =====
-- librtmp/src/main/jni/RtmpHandle.cpp: what Java calls. The pushes run under one mutex, `mute_x`; a
-- handle of 0 is `none`. The arrays and strings are those that the Java virtual machine lends;
-- behind an array there is memory that the machine does not say anything of.
pub mod Guarded
use jrtplib4android.Prelude.{
  ℕ, Bool, Option, none, some, List, [], ◌∷◌, ◌++◌, ◌==◌, length, if◌then◌else◌,
}
use jrtplib4android.Prelude.Int.{ℤ, pos, negsuc}
use jrtplib4android.Prelude.Bytes.{◌>>=◌}
use jrtplib4android.Jni.{
  HostCall, Loan, Object, lock, unlock, get, release, get_all, release_all, utf_chars,
  byte_elements,
}
use jrtplib4android.Rtmp.Util.State.{RtmpUtils, Library, Call}
use jrtplib4android.Rtmp.Util.File.{push_flv_file}
use jrtplib4android.Rtmp.Util.{
  Result, init_rtmp_handle, push_sps_pps, push_h264_data, push_flv_data, release_rtmp_handle,
}

-- An array of Java: the elements are `none` where the virtual machine returns `NULL`.
pub record Array : Type 0 where
  pub ref : ℕ
  pub elements : Option (List ℕ)

-- What a call returns, the object behind the handle, and the calls made so far.
abbrev pub Guarded : Type 0
Guarded = Option (ℤ × Option RtmpUtils × List HostCall)

-- A push between `pthread_mutex_lock` and `pthread_mutex_unlock`, with the arrays that it takes.
unfoldable pub under_lock :
    Option RtmpUtils → List Loan → (RtmpUtils → Result) → List HostCall → Guarded
under_lock none loans push calls = some (pos 0, none, calls)
under_lock (some u) loans push calls = push u >>= λ r.
    some (r.0, some (r.1), unlock ∷ release_all loans (get_all loans (lock ∷ calls)))

module _ (library : Library) where
  -- `initRtmpHandle_`, with the object that `new` gives and the address as Java lends it.
  unfoldable pub init_handle : Object → RtmpUtils → List HostCall → Option RtmpUtils × List HostCall
  init_handle url fresh calls =
      let made = init_rtmp_handle library url.elements fresh in
      (
        elim made.0 [ pos n ↦ if n == 0 then some (made.1) else none | negsuc n ↦ none ],
        release (utf_chars url.ref) ∷ get (utf_chars url.ref) ∷ calls,
      )

  -- `pushSPSPPS_`: of the second array only the reference is looked at, not its elements.
  unfoldable pub push_sps_pps_handle :
      Option RtmpUtils → Array → ℕ → Bool → Array → ℕ → List HostCall → Guarded
  push_sps_pps_handle handle sps n has_pps pps m calls =
      under_lock handle (byte_elements sps.ref ∷ byte_elements pps.ref ∷ [])
        (λ u. elim sps.elements [
          | none ↦ some (pos 0, u)
          | some s ↦
              if has_pps
              then (pps.elements >>= λ p. push_sps_pps library s n p m u)
              else some (pos 0, u)
        ])
        calls

  -- `pushH264Data_`: the length is that of the array.
  unfoldable pub push_h264_handle : Option RtmpUtils → Array → Bool → List HostCall → Guarded
  push_h264_handle handle buf is_key calls =
      under_lock handle (byte_elements buf.ref ∷ [])
        (λ u. elim buf.elements [
          | none ↦ some (pos 0, u)
          | some b ↦ push_h264_data library b (length b) is_key u
        ])
        calls

  -- `pushFlvData_`
  unfoldable pub push_flv_handle : Option RtmpUtils → Array → List ℕ → List HostCall → Guarded
  push_flv_handle handle buf behind calls =
      under_lock handle (byte_elements buf.ref ∷ [])
        (λ u. elim buf.elements [
          | none ↦ some (pos 0, u)
          | some b ↦ push_flv_data library (b ++ behind) (length b) u
        ])
        calls

  -- `pushFlvFile_`: an object of its own, and no lock. `files` are the files, by their paths.
  unfoldable pub push_flv_file_handle :
      (url path : Object)
      → (files : List ℕ → Option (List ℕ)) → List HostCall
      → Option (ℤ × List Call × List HostCall)
  push_flv_file_handle url path files calls =
      let loans = utf_chars url.ref ∷ utf_chars path.ref ∷ [] in
      push_flv_file library url.elements (files path.elements) >>= λ r.
      some (r.0, r.1, release_all loans (get_all loans calls))

-- `releaseRtmpHandle_`: what is left of the object before it is deleted.
unfoldable pub release_handle : Option RtmpUtils → Option RtmpUtils
release_handle none = none
release_handle (some u) = some (release_rtmp_handle u)
