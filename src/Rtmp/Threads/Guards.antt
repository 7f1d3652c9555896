-- ===== src/Rtmp/Threads/Guards.antt =====
-- Only one thread works at a time: what each step keeps of it.
use jrtplib4android.Prelude.{
  ◌==◌, ℕ, ◌≡◌, inl, inr, refl, sym, Bool-cases, Bool, true, false, ◌∙◌, Option, none, some, ◌∷◌,
  arith,
}
use jrtplib4android.Prelude.Int.{ℤ}
use jrtplib4android.Rtmp.Util.State.{RtmpUtils}
use jrtplib4android.Rtmp.Threads.{Place, Push, outside, waits, works, Threads, goes}

-- Only the holder of the mutex works, and on the object as it is.
abbrev pub Guards : Threads → Type 0
Guards s =
    ((t : ℕ) (job : Push) (u : RtmpUtils)
      → s.place t ≡ works job u
      → (s.owner ≡ some t) × (s.object ≡ some u))
    × ((t : ℕ) → s.owner ≡ some t → (job : Push) × (u : RtmpUtils) × (s.place t ≡ works job u))

abbrev pub is_at_work : Place → Bool
is_at_work outside = false
is_at_work (waits job) = false
is_at_work (works job u) = true

abbrev pub holds : ℕ → Option ℕ → Bool
holds t none = false
holds t (some i) = i == t

at_work : (p : Place) → is_at_work p ≡ true → (job : Push) × (u : RtmpUtils) × (p ≡ works job u)
at_work outside h = absurd (ground arith)
at_work (waits job) h = absurd (ground arith)
at_work (works job u) h = (job, u, refl)

holds-some : (t : ℕ) (owner : Option ℕ) → holds t owner ≡ true → owner ≡ some t
holds-some t none h = absurd (ground arith)
holds-some t (some i) h = ground arith

pub at_work-holds : (s : Threads) (t : ℕ) → Guards s → is_at_work (s.place t) ≡ holds t s.owner
at_work-holds s t (alone, holder) = elim (Bool-cases (is_at_work (s.place t))) [
  | inl e ↦ let (job, u, at) = at_work (s.place t) e in ground (arith, alone t job u at)
  | inr e ↦ elim (Bool-cases (holds t s.owner)) [
    | inl h ↦ let (job, u, at) = holder t (holds-some t s.owner h) in absurd (ground arith)
    | inr h ↦ e ∙ sym h
  ]
]

pub call-Guards :
    (s : Threads) (t : ℕ) (job : Push)
    → s.place t ≡ outside
    → Guards s
    → Guards (record s { place = goes t (waits job) s.place })
call-Guards s t job out (alone, holder) = (
  λ i other x h. ground (arith, alone i other x),
  λ i h. let (other, x, at) = holder i h in (other, x, ground arith),
)

pub lock-Guards :
    (s : Threads) (t : ℕ) (job : Push) (u : RtmpUtils)
    → s.owner ≡ none
    → s.object ≡ some u
    → Guards s
    → Guards (record s { owner = some t; place = goes t (works job u) s.place })
lock-Guards s t job u free_now there (alone, holder) =
    (λ i other x h. ground (arith, alone i other x), λ i h. (job, u, ground arith))

pub unlock-Guards :
    (s : Threads) (t : ℕ) (job : Push) (u v : RtmpUtils) (ret : ℤ)
    → s.place t ≡ works job u
    → Guards s
    → Guards (record s {
      object = some v;
      owner = none;
      place = goes t outside s.place;
      finished = job ∷ s.finished;
      answers = ret ∷ s.answers;
    })
unlock-Guards s t job u v ret at (alone, holder) =
    (λ i other x h. ground (arith, alone i other x, alone t job u), λ i h. absurd (ground arith))

pub delete-Guards :
    (s : Threads) (left : Option RtmpUtils)
    → s.owner ≡ none
    → Guards s
    → Guards (record s { object = none; gone = left })
delete-Guards s left free_now (alone, holder) =
    (λ i other x h. ground (arith, alone i other x h), λ i h. absurd (ground arith))
