-- ===== src/Rtmp/Threads/Serial.antt =====
-- Whatever the order of the steps, the pushes happen one after the other.
use jrtplib4android.Prelude.{ℕ, ◌≡◌, ◌⊎◌, Option, none, some}
use jrtplib4android.Rtmp.Util.State.{RtmpUtils, Library}
use jrtplib4android.Rtmp.Handle.{Guarded, release_handle}
use jrtplib4android.Rtmp.Threads.{
  Push, works, Threads, serve, replay, Fault, bad_push, push_deleted, release_deleted,
  release_at_work,
}
use jrtplib4android.Rtmp.Threads.Guards.{Guards}

-- The object is there as it is given, or it was deleted, as its release left it.
abbrev pub Leaves : Threads → RtmpUtils → Type 0
Leaves s w =
    ((s.object ≡ some w) × (s.gone ≡ none))
    ⊎ ((s.object ≡ none) × (s.gone ≡ release_handle (some w)))

module _ (library : Library) (u₀ : RtmpUtils) where
  -- What a first fault stands for, where `w` is what the finished pushes leave: a push that is one on its
  -- own at this point, an object that is deleted, or a release while a thread works on the object.
  abbrev pub Blames : Threads → RtmpUtils → Option Fault → Type 0
  Blames s w none = Unit
  Blames s w (some (bad_push job)) = serve library job w ≡ none
  Blames s w (some push_deleted) = s.object ≡ none
  Blames s w (some release_deleted) = s.object ≡ none
  Blames s w (some release_at_work) = (t : ℕ) × (job : Push) × (s.place t ≡ works job w)

  -- The object is what the finished pushes make of the first one, one after the other.
  abbrev IsSerial : Threads → Type 0
  IsSerial s =
      Guards s
      × (w : RtmpUtils) × (replay library s.finished u₀ ≡ some (s.answers, w))
      × Leaves s w
      × Blames s w s.fault
