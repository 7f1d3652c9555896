-- ===== src/Rtmp/Threads.antt =====
-- Threads that call RtmpHandle.cpp on one object at the same time: which steps their calls consist of.
pub mod Guards
pub mod Serial
use jrtplib4android.Prelude.{ℕ, ◌≡◌, Bool, Option, none, some, List, [], ◌∷◌, ◌==◌, if◌then◌else◌}
use jrtplib4android.Prelude.Int.{ℤ}
use jrtplib4android.Prelude.Bytes.{◌>>=◌}
use jrtplib4android.Jni.{HostCall}
use jrtplib4android.Rtmp.Util.State.{RtmpUtils, Library}
use jrtplib4android.Rtmp.Handle.{
  Array, Guarded, push_sps_pps_handle, push_h264_handle, push_flv_handle, release_handle,
}

-- The calls that push.
pub data Push : Type 0 where
  sets : Array → ℕ → Bool → Array → ℕ → Push
  nal_unit : Array → Bool → Push
  flv_tag : Array → List ℕ → Push

-- Where a thread is: outside of the library, before the mutex, or behind it, where it works on the
-- object that it found.
pub data Place : Type 0 where
  outside : Place
  waits : Push → Place
  works : Push → RtmpUtils → Place

-- What C leaves undefined: a push whose own accesses are not allowed, the use of an object that was
-- deleted, and a release while another thread works on the object.
pub data Fault : Type 0 where
  bad_push : Push → Fault
  push_deleted release_deleted : Fault
  release_at_work : Fault

-- The object, `none` when it is deleted, and then what was deleted; who holds `mute_x`; where each
-- thread is; the pushes that have returned, with what they returned, the newest first; and the first
-- fault.
pub record Threads : Type 0 where
  pub object : Option RtmpUtils
  pub gone : Option RtmpUtils
  pub owner : Option ℕ
  pub place : ℕ → Place
  pub finished : List Push
  pub answers : List ℤ
  pub fault : Option Fault

abbrev pub goes : ℕ → Place → (ℕ → Place) → ℕ → Place
goes t p place i = if i == t then p else place i

abbrev pub start : RtmpUtils → Threads
start u = record {
  object = some u;
  gone = none;
  owner = none;
  place = λ t. outside;
  finished = [];
  answers = [];
  fault = none;
}

-- What a push returns and what it leaves of the object.
abbrev pub stored : Guarded → Option (ℤ × RtmpUtils)
stored g = g >>= λ r. elim r.1 [ none ↦ none | some v ↦ some (r.0, v) ]

module _ (library : Library) where
  abbrev called : Push → Option RtmpUtils → List HostCall → Guarded
  called (sets sps n has_pps pps m) = λ h. push_sps_pps_handle library h sps n has_pps pps m
  called (nal_unit buf is_key) = λ h. push_h264_handle library h buf is_key
  called (flv_tag buf behind) = λ h. push_flv_handle library h buf behind

  -- A push that runs alone: what it returns and leaves, or a fault.
  abbrev pub serve : Push → RtmpUtils → Option (ℤ × RtmpUtils)
  serve job u = stored (called job (some u) [])

  -- Pushes that run one after the other, the newest first in the list.
  unfoldable pub replay : List Push → RtmpUtils → Option (List ℤ × RtmpUtils)
  replay [] u = some ([], u)
  replay (job ∷ jobs) u = replay jobs u >>= λ r. serve job (r.1) >>= λ q. some (q.0 ∷ r.0, q.1)

  -- A thread calls a push; it gets the mutex and finds the object; it stores what it made of the
  -- object, gives the mutex back and returns. Or it releases and deletes the object, which
  -- `releaseRtmpHandle_` does without the mutex: where that overlaps with a push at work, it is a fault,
  -- and so is a push or a release that finds the object deleted.
  pub data Step (s : Threads) : Threads → Type 0 where
    call :
        (t : ℕ) (job : Push)
        → s.place t ≡ outside
        → Step s (record s { place = goes t (waits job) s.place })
    lock :
        (t : ℕ) (job : Push) (u : RtmpUtils)
        → s.place t ≡ waits job
        → s.owner ≡ none
        → s.object ≡ some u
        → Step s (record s { owner = some t; place = goes t (works job u) s.place })
    lock_deleted :
        (t : ℕ) (job : Push)
        → s.place t ≡ waits job
        → s.owner ≡ none
        → s.object ≡ none
        → Step s (record s { fault = some push_deleted })
    unlock :
        (t : ℕ) (job : Push) (u v : RtmpUtils) (ret : ℤ)
        → s.place t ≡ works job u
        → serve job u ≡ some (ret, v)
        → Step s (record s {
          object = some v;
          owner = none;
          place = goes t outside s.place;
          finished = job ∷ s.finished;
          answers = ret ∷ s.answers;
        })
    overrun :
        (t : ℕ) (job : Push) (u : RtmpUtils)
        → s.place t ≡ works job u
        → serve job u ≡ none
        → Step s (record s { fault = some (bad_push job) })
    delete :
        (t : ℕ) (w : RtmpUtils)
        → s.place t ≡ outside
        → s.owner ≡ none
        → s.object ≡ some w
        → Step s (record s { object = none; gone = release_handle s.object })
    delete_at_work :
        (t i : ℕ)
        → s.place t ≡ outside
        → s.owner ≡ some i
        → Step s (record s { fault = some release_at_work })
    delete_again :
        (t : ℕ)
        → s.place t ≡ outside
        → s.object ≡ none
        → Step s (record s { fault = some release_deleted })

  -- Steps one after the other, up to the first fault.
  pub data Reaches (s : Threads) : Threads → Type 0 where
    here : Reaches s s
    next : {m n : Threads} → Reaches s m → m.fault ≡ none → Step m n → Reaches s n
