-- ===== src/Rtmp/Handle/Guarded.antt =====
-- Every push gives the mutex and the arrays back, and keeps the object sound.
use jrtplib4android.Prelude.{
  ℕ, ◌≡◌, Bool, true, false, Option, none, some, List, [], ◌∷◌, ◌++◌, inl, inr, Option-cases, arith,
  length, ◌∙◌, refl, if◌then◌else◌,
}
use jrtplib4android.Prelude.Bytes.{◌>>=◌}
use jrtplib4android.Prelude.Int.{ℤ, pos}
use jrtplib4android.Jni.{
  HostCall, Loan, Object, lock, unlock, get, release, get_all, release_all, GivesBack,
  release-GivesBack, utf_chars,
}
use jrtplib4android.Rtmp.Util.State.{RtmpUtils, Library, Call}
use jrtplib4android.Rtmp.Util.File.{push_flv_file}
use jrtplib4android.Rtmp.Util.{Result, push_sps_pps, push_h264_data, push_flv_data}
use jrtplib4android.Rtmp.Util.Life.{IsSound, sps_pps-IsSound, h264-IsSound, flv-IsSound}
use jrtplib4android.Rtmp.Handle.{
  Array, under_lock, push_sps_pps_handle, push_h264_handle, push_flv_handle, init_handle,
  push_flv_file_handle,
}

-- Whether the mutex is held, or free: each lock was followed by an unlock.
abbrev pub mutex_is : (held : Bool) → List HostCall → Bool
mutex_is false [] = true
mutex_is true [] = false
mutex_is false (lock ∷ calls) = false
mutex_is true (lock ∷ calls) = mutex_is false calls
mutex_is false (unlock ∷ calls) = mutex_is true calls
mutex_is true (unlock ∷ calls) = false
mutex_is held (c ∷ calls) = mutex_is held calls

mutex_is-get_all :
    (held : Bool) (ls : List Loan) (calls : List HostCall)
    → mutex_is held (get_all ls calls) ≡ mutex_is held calls
unfolding get_all
mutex_is-get_all held [] calls = refl
mutex_is-get_all true (l ∷ ls) calls = mutex_is-get_all true ls (get l ∷ calls)
mutex_is-get_all false (l ∷ ls) calls = mutex_is-get_all false ls (get l ∷ calls)

mutex_is-release_all :
    (held : Bool) (ls : List Loan) (calls : List HostCall)
    → mutex_is held (release_all ls calls) ≡ mutex_is held calls
unfolding release_all
mutex_is-release_all held [] calls = refl
mutex_is-release_all true (l ∷ ls) calls = mutex_is-release_all true ls (release l ∷ calls)
mutex_is-release_all false (l ∷ ls) calls = mutex_is-release_all false ls (release l ∷ calls)

abbrev pub IsSoundHandle : Option RtmpUtils → Type 0
IsSoundHandle none = Unit
IsSoundHandle (some u) = IsSound u

abbrev pub IsKept : (before : List HostCall) → ℤ × Option RtmpUtils × List HostCall → Type 0
IsKept before r = IsSoundHandle (r.1) × (mutex_is false (r.2) ≡ true) × GivesBack before (r.2)

under_lock-IsKept :
    (handle : Option RtmpUtils) (ls : List Loan) (push : RtmpUtils → Result) (calls : List HostCall)
    (r : ℤ × Option RtmpUtils × List HostCall)
    → IsSoundHandle handle
    → ((u : RtmpUtils) (q : ℤ × RtmpUtils) → IsSound u → push u ≡ some q → IsSound q.1)
    → mutex_is false calls ≡ true
    → under_lock handle ls push calls ≡ some r
    → IsKept calls r
unfolding under_lock
under_lock-IsKept none ls push calls r h keeps free_now done = ground arith
under_lock-IsKept (some u) ls push calls r h keeps free_now done = elim (Option-cases (push u)) [
  | inl e ↦ ground arith
  | inr (q, e) ↦
      let locked : List HostCall = lock ∷ calls in
      let free_again : mutex_is true (release_all ls (get_all ls locked)) ≡ true =
        mutex_is-release_all true ls (get_all ls locked)
        ∙ mutex_is-get_all true ls locked
        ∙ free_now in
      let back : GivesBack locked (release_all ls (get_all ls locked)) =
        release-GivesBack ls locked in
      ground (arith, keeps u q h e)
]

module _ (library : Library) (u : RtmpUtils) (q : ℤ × RtmpUtils) (h : IsSound u) where
  sets_keep :
      (sps : Option (List ℕ)) (n : ℕ) (has_pps : Bool) (pps : Option (List ℕ)) (m : ℕ)
      → elim sps [
        | none ↦ some (pos 0, u)
        | some s ↦
            if has_pps then (pps >>= λ p. push_sps_pps library s n p m u) else some (pos 0, u)
      ]
        ≡ some q
      → IsSound q.1
  sets_keep none n has_pps pps m done = ground arith
  sets_keep (some s) n false pps m done = ground arith
  sets_keep (some s) n true none m done = ground arith
  sets_keep (some s) n true (some p) m done = sps_pps-IsSound library s n p m u q h done

  h264_keeps :
      (buf : Option (List ℕ)) (is_key : Bool)
      → elim buf [ none ↦ some (pos 0, u) | some b ↦ push_h264_data library b (length b) is_key u ]
        ≡ some q
      → IsSound q.1
  h264_keeps none is_key done = ground arith
  h264_keeps (some b) is_key done = h264-IsSound library b (length b) is_key u q h done

  flv_keeps :
      (buf : Option (List ℕ)) (behind : List ℕ)
      → elim buf [
        | none ↦ some (pos 0, u)
        | some b ↦ push_flv_data library (b ++ behind) (length b) u
      ]
        ≡ some q
      → IsSound q.1
  flv_keeps none behind done = ground arith
  flv_keeps (some b) behind done = flv-IsSound library (b ++ behind) (length b) u q h done

-- Every push that Java asks for, on a sound object or none, with the mutex free, gives back the mutex
-- and the arrays and leaves the object sound, whatever the library answers, if it is no fault. The
-- set-up gives the address back, and the push of a file both texts.
pub pushes-IsKept :
    (library : Library) (handle : Option RtmpUtils) (calls : List HostCall)
    (r : ℤ × Option RtmpUtils × List HostCall)
    → IsSoundHandle handle
    → mutex_is false calls ≡ true
    → ((sps : Array) (n : ℕ) (has_pps : Bool) (pps : Array) (m : ℕ)
        → push_sps_pps_handle library handle sps n has_pps pps m calls ≡ some r
        → IsKept calls r)
      × ((buf : Array) (is_key : Bool)
          → push_h264_handle library handle buf is_key calls ≡ some r
          → IsKept calls r)
      × ((buf : Array) (behind : List ℕ)
          → push_flv_handle library handle buf behind calls ≡ some r
          → IsKept calls r)
      × ((url : Object) (fresh : RtmpUtils)
          → let after = (init_handle library url fresh calls).1 in
            (mutex_is false after ≡ true) × GivesBack calls after)
      × ((url path : Object) (files : List ℕ → Option (List ℕ)) (ret : ℤ) (sent : List Call)
            (after : List HostCall)
          → push_flv_file_handle library url path files calls ≡ some (ret, sent, after)
          → (mutex_is false after ≡ true) × GivesBack calls after)
unfolding push_sps_pps_handle push_h264_handle push_flv_handle init_handle push_flv_file_handle
pushes-IsKept library handle calls r h free_now = (
  λ sps n has_pps pps m done.
      under_lock-IsKept handle _ _ calls r h
        (λ u q sound e. sets_keep library u q sound sps.elements n has_pps pps.elements m e)
        free_now done,
  λ buf is_key done.
      under_lock-IsKept handle _ _ calls r h
        (λ u q sound e. h264_keeps library u q sound buf.elements is_key e) free_now done,
  λ buf behind done.
      under_lock-IsKept handle _ _ calls r h
        (λ u q sound e. flv_keeps library u q sound buf.elements behind e) free_now done,
  λ url fresh. ground arith,
  λ url path files ret sent after done.
      elim (Option-cases (push_flv_file library url.elements (files path.elements))) [
        | inl e ↦ ground arith
        | inr (q, e) ↦
            let ls : List Loan = utf_chars url.ref ∷ utf_chars path.ref ∷ [] in
            let free_still : mutex_is false (release_all ls (get_all ls calls)) ≡ true =
              mutex_is-release_all false ls (get_all ls calls)
              ∙ mutex_is-get_all false ls calls
              ∙ free_now in
            let back : GivesBack calls (release_all ls (get_all ls calls)) =
              release-GivesBack ls calls in
            ground arith
      ],
)
