-- ===== src/Rtp/Receiver/PStream/Bounds.antt =====
-- The loop of `GetH246FromPs` ends, and never fills `h264Buffer`.
use jrtplib4android.Prelude.{
  ℕ, zero, suc, ◌+◌, ◌≤◌, ◌<◌, ◌≡◌, ◌⊎◌, inl, inr, refl, Bool, true, false, Option, none, some,
  List, [], ltb, leb, if◌then◌else◌, arith, length, drop, length-append, Option-cases, length-take,
  get_elem?, Bool-cases,
}
use jrtplib4android.Prelude.Bytes.{slice}
use jrtplib4android.Prelude.Int.{ℤ, pos, negsuc}
use jrtplib4android.Rtp.Receiver.PStream.{
  Position, left_after, program_stream_pack_header, pack_length, program_stream_map,
  program_sh_head, PesResult, pes, add_payload, is_unit, Round, stop, crash, go_on, follow,
  follow_map, follow_pes, demux_unit, demux_round, Demux, frame, fault, spent, demux_loop,
  get_h264_from_ps,
}

-- A place behind the present one, with fewer bytes left.
abbrev Nearer : ℕ → Position → Type 0
Nearer left p = (n l : ℕ) → p ≡ some (n, l) → l < left

left_after-Nearer : (next a b : ℕ) → 0 < b → Nearer a (left_after next a b)
left_after-Nearer next a b h n l e = ground arith

map-Nearer :
    (mem : List ℕ) (pack left : ℕ) (p : Position)
    → (program_stream_map mem pack left ≡ some p) ⊎ (program_sh_head mem pack left ≡ some p)
    → Nearer left p
unfolding program_stream_map program_sh_head
map-Nearer mem pack left p h n l e = elim (Option-cases (pack_length mem pack)) [
  | inl e' ↦ ground arith
  | inr (size, e') ↦ ground arith
]

pes-Nearer :
    (mem : List ℕ) (pack left : ℕ) (r : PesResult) → pes mem pack left ≡ some r → Nearer left r.next
unfolding pes
pes-Nearer mem pack left r h n l e = elim (Option-cases (pack_length mem pack)) [
  | inl e' ↦ ground arith
  | inr (size, e') ↦ ground arith
]

slice-length :
    (src : List ℕ) (from n : ℕ) (body : List ℕ) → slice src from n ≡ some body → length body ≤ n
unfolding slice
slice-length src from n body h = elim (Bool-cases (leb (from + n) (length src))) [
  | inl e ↦ ground (arith, length-take n (drop from src))
  | inr e ↦ ground arith
]

add_payload-fits :
    (mem out : List ℕ) (payload : ℕ) (len : ℤ) (kept : List ℕ)
    → add_payload mem out payload len ≡ some kept
    → length out < 2097152
    → length kept < 2097152
unfolding add_payload
add_payload-fits mem out payload (negsuc n) kept h fits = ground arith
add_payload-fits mem out payload (pos n) kept h fits = elim (Option-cases (slice mem payload n)) [
  | inl e ↦ ground arith
  | inr (body, e) ↦ ground (arith, slice-length mem payload n body e, length-append out body)
]

-- A round that keeps the output within `h264Buffer`, and goes on only with fewer bytes left.
abbrev IsGood : ℕ → Round → Type 0
IsGood left (stop kept) = length kept < 2097152
IsGood left crash = Unit
IsGood left (go_on n l kept) = (l < left) × (length kept < 2097152)

follow-IsGood :
    (left : ℕ) (p : Position) (kept : List ℕ)
    → Nearer left p
    → length kept < 2097152
    → IsGood left (follow p kept)
unfolding follow
follow-IsGood left none kept near fits = fits
follow-IsGood left (some (n, l)) kept near fits = (near n l refl, fits)

follow_map-IsGood :
    (left : ℕ) (o : Option Position) (kept : List ℕ)
    → ((p : Position) → o ≡ some p → Nearer left p)
    → length kept < 2097152
    → IsGood left (follow_map o kept)
unfolding follow_map
follow_map-IsGood left none kept near fits = tt
follow_map-IsGood left (some p) kept near fits = follow-IsGood left p kept (near p refl) fits

follow_pes-IsGood :
    (left : ℕ) (mem out : List ℕ) (o : Option PesResult)
    → ((r : PesResult) → o ≡ some r → Nearer left r.next)
    → length out < 2097152
    → IsGood left (follow_pes mem out o)
unfolding follow_pes
follow_pes-IsGood left mem out none near fits = tt
follow_pes-IsGood left mem out (some r) near fits =
    go (add_payload mem out r.payload r.payload_len)
      (λ kept e. add_payload-fits mem out r.payload r.payload_len kept e fits)
  where
    go :
        (o : Option (List ℕ))
        → ((kept : List ℕ) → o ≡ some kept → length kept < 2097152)
        → IsGood left (elim o [ none ↦ crash | some kept ↦ follow r.next kept ])
    go none h = tt
    go (some kept) h = follow-IsGood left r.next kept (near r refl) (h kept refl)

IsGood-if :
    (left : ℕ) (b : Bool) (x y : Round)
    → IsGood left x
    → IsGood left y
    → IsGood left (if b then x else y)
IsGood-if left true x y hx hy = hx
IsGood-if left false x y hx hy = hy

demux_unit-IsGood :
    (mem : List ℕ) (next left : ℕ) (out code : List ℕ)
    → length out < 2097152
    → IsGood left (demux_unit mem next left out code)
unfolding demux_unit
demux_unit-IsGood mem next left out code fits =
    IsGood-if left (is_unit 0xE0 code) _ _
      (follow_pes-IsGood left mem out (pes mem next left) (pes-Nearer mem next left) fits)
      (IsGood-if left (is_unit 0xBB code) _ _
        (follow_map-IsGood left (program_sh_head mem next left) out
          (λ p e. map-Nearer mem next left p (inr e)) fits)
        (IsGood-if left (is_unit 0xBC code) _ _
          (follow_map-IsGood left (program_stream_map mem next left) out
            (λ p e. map-Nearer mem next left p (inl e)) fits)
          fits))

demux_round-IsGood :
    (mem : List ℕ) (next left : ℕ) (out : List ℕ)
    → length out < 2097152
    → IsGood left (demux_round mem next left out)
unfolding demux_round
demux_round-IsGood mem next left out fits =
    IsGood-if left (ltb left 4) (stop out) _ fits (go (slice mem next 4))
  where
    go :
        (o : Option (List ℕ))
        → IsGood left (elim o [ none ↦ crash | some code ↦ demux_unit mem next left out code ])
    go none = tt
    go (some code) = demux_unit-IsGood mem next left out code fits

-- An end of the loop by the code, with a frame that fits `h264Buffer` if there is one.
abbrev pub Ends : Demux → Type 0
Ends (frame out) = length out < 2097152
Ends fault = Unit
Ends spent = ⊥

demux_loop-Ends :
    (fuel : ℕ) (mem : List ℕ) (next left : ℕ) (out : List ℕ)
    → left < fuel
    → length out < 2097152
    → Ends (demux_loop fuel mem next left out)
unfolding demux_loop
demux_loop-Ends zero mem next left out h fits = absurd (omega arith)
demux_loop-Ends (suc fuel) mem next left out h fits =
    go (demux_round mem next left out) (demux_round-IsGood mem next left out fits)
      (λ n l kept near kept_fits. demux_loop-Ends fuel mem n l kept (omega arith) kept_fits)
  where
    go :
        (r : Round)
        → IsGood left r
        → ((n l : ℕ) (kept : List ℕ)
            → l < left
            → length kept < 2097152
            → Ends (demux_loop fuel mem n l kept))
        → Ends (elim r [
          | stop kept ↦ frame kept
          | crash ↦ fault
          | go_on n l kept ↦ demux_loop fuel mem n l kept
        ])
    go (stop kept) good later = good
    go crash good later = tt
    go (go_on n l kept) good later = later n l kept good.0 good.1

header-left :
    (mem : List ℕ) (size n l : ℕ)
    → program_stream_pack_header mem size ≡ some (some (n, l))
    → l ≤ size
unfolding program_stream_pack_header
header-left mem size n l e = elim (Option-cases (get_elem? mem 13)) [
  | inl e' ↦ ground arith
  | inr (b, e') ↦ ground arith
]

-- `GetH246FromPs` ends on every input, and what it puts out is shorter than `h264Buffer`, or it
-- makes an access that is not allowed.
pub get_h264_from_ps-Ends : (mem : List ℕ) (length : ℕ) → Ends (get_h264_from_ps mem length)
unfolding get_h264_from_ps
get_h264_from_ps-Ends mem length =
    go (program_stream_pack_header mem length) (header-left mem length)
  where
    go :
        (o : Option Position)
        → ((n l : ℕ) → o ≡ some (some (n, l)) → l ≤ length)
        → Ends (elim o [
          | none ↦ fault
          | some none ↦ frame []
          | some (some (next, left)) ↦ demux_loop (suc length) mem next left []
        ])
    go none h = tt
    go (some none) h = omega arith
    go (some (some (n, l))) h =
        demux_loop-Ends (suc length) mem n l [] (omega (arith, h n l refl)) (omega arith)
