-- ===== src/Rtp/Receiver/Assemble/Buffer.antt =====
-- Whatever packets come, `psBuf` keeps its size and `psLen` stays inside it.
use jrtplib4android.Prelude.{
  ℕ, ◌+◌, ◌-◌, ◌%◌, ◌^◌, ◌<◌, ◌≤◌, ◌≡◌, refl, ap, ◌∙◌, sym, inl, inr, Bool, false, Option, none,
  some, List, [], ◌∷◌, ◌++◌, append_assoc, subst, ltb, if◌then◌else◌, arith, length, take, drop,
  length-append, length-take, length-drop, Option-cases, Bool-cases,
}
use jrtplib4android.Prelude.Bytes.{◌>>=◌, slice, blit, begins_with}
use jrtplib4android.Rtp.Session.{Call, receive_rtp_data}
use jrtplib4android.Rtp.Receiver.PStream.{Demux, frame, fault, spent, get_h264_from_ps}
use jrtplib4android.Rtp.Receiver.PStream.Bounds.{Ends, get_h264_from_ps-Ends}
use jrtplib4android.Rtp.Receiver.State.{Receiver, PsBuffer, RtpPacket}
use jrtplib4android.Rtp.Receiver.Assemble.{
  Assembled, note_sequence, complete, put_in, assemble, callback_rtp, process_rtp_packet,
  on_poll_thread_step,
}
use jrtplib4android.Rtp.Receiver.Assemble.Frames.{pack_code}

abbrev pub IsBuffer : PsBuffer → Type 0
IsBuffer s = (length s.ps_buf ≡ 4194304) × (s.ps_len < 4194304)

-- A frame is one that `h264Buffer` takes.
abbrev IsShort : Option (List ℕ) → Type 0
IsShort none = Unit
IsShort (some out) = length out < 2097152

blit-some :
    (dst src d : List ℕ) (at : ℕ)
    → blit dst at src ≡ some d
    → (at + length src ≤ length dst) × (length d ≡ length dst)
unfolding blit
blit-some dst src d at done = ground (
  arith,
  length-append (take at dst) (src ++ drop (at + length src) dst),
  length-append src (drop (at + length src) dst),
  length-take at dst,
  length-drop (at + length src) dst,
)

slice-some : (src d : List ℕ) (from n : ℕ) → slice src from n ≡ some d → length d ≡ n
unfolding slice
slice-some src d from n done = ground (arith, length-take n (drop from src), length-drop from src)

complete-IsBuffer :
    (filled payload : List ℕ) (n : ℕ) (o : Option (List ℕ)) (u : PsBuffer)
    → length filled ≡ 4194304
    → n < 4194304
    → complete filled payload n ≡ some (o, u)
    → IsBuffer u × IsShort o
unfolding complete
complete-IsBuffer filled payload n o u size low done =
    go (get_h264_from_ps filled n) (get_h264_from_ps-Ends filled n) done
  where
    go :
        (d : Demux)
        → Ends d
        → ◌≡◌ {A = Assembled}
            (elim d [
              | frame out ↦
                  if ltb n (length payload)
                  then none
                  else (blit filled 0 payload >>= λ moved.
                      some (some out, record { ps_buf = moved; ps_len = length payload }))
              | fault ↦ none
              | spent ↦ none
            ])
            (some (o, u))
        → IsBuffer u × IsShort o
    go (frame out) ends ran = elim (Option-cases (blit filled 0 payload)) [
      | inl e ↦ ground arith
      | inr (moved, e) ↦ ground (arith, blit-some filled payload moved 0 e)
    ]
    go fault ends ran = ground arith
    go spent ends ran = ground arith

put_in-IsBuffer :
    (payload : List ℕ) (s : PsBuffer) (o : Option (List ℕ)) (u : PsBuffer)
    → IsBuffer s
    → s.ps_len + length payload < 4194304
    → put_in payload s ≡ some (o, u)
    → IsBuffer u × IsShort o
unfolding put_in
put_in-IsBuffer payload s o u (size, low) room done =
    elim (Option-cases (blit s.ps_buf s.ps_len payload)) [
      | inl e ↦ ground arith
      | inr (filled, e) ↦
          let (inside, same) = blit-some s.ps_buf payload filled s.ps_len e in
          elim (Option-cases (begins_with (drop s.ps_len filled) pack_code)) [
            | inl e2 ↦ ground arith
            | inr (starts, e2) ↦
                ground (arith, complete-IsBuffer filled payload s.ps_len o u (same ∙ size) low)
          ]
    ]

assemble-IsBuffer :
    (packet_data : List ℕ) (s : PsBuffer) (o : Option (List ℕ)) (u : PsBuffer)
    → IsBuffer s
    → assemble packet_data s ≡ some (o, u)
    → IsBuffer u × IsShort o
unfolding assemble
assemble-IsBuffer packet_data s o u h done =
    elim (Option-cases (slice packet_data 12 (length packet_data % 2 ^ 16 - 12))) [
      | inl e ↦ ground arith
      | inr (payload, e) ↦ ground (
        arith,
        slice-some packet_data payload 12 (length packet_data % 2 ^ 16 - 12) e,
        put_in-IsBuffer payload s o u h,
      )
    ]

-- Calls that hand video to the listener: some bytes, and fewer than `h264Buffer` takes.
pub data AreVideos : List Call → Type 0 where
  no_video : AreVideos []
  next_video :
      {out : List ℕ} {marker : Bool} {calls : List Call}
      → 0 < length out
      → length out < 2097152
      → AreVideos calls
      → AreVideos (receive_rtp_data out marker 0 ∷ calls)

-- Nothing about a receiver has changed but its counters, and the video that it has told.
abbrev pub Tells : (before after : Receiver) → Type 0
Tells r t =
    (t.init ≡ r.init)
    × (t.has_env ≡ r.has_env)
    × (t.is_attach ≡ r.is_attach)
    × (told : List Call) × (t.calls ≡ told ++ r.calls)
    × AreVideos told
    × (r.has_env ≡ false → told ≡ [])

AreVideos-append :
    (later first : List Call) → AreVideos later → AreVideos first → AreVideos (later ++ first)
AreVideos-append [] first no_video k = k
AreVideos-append (c ∷ later) first (next_video some_bytes short h) k =
    next_video some_bytes short (AreVideos-append later first h k)

Tells-then : (r t v : Receiver) → Tells r t → Tells t v → Tells r v
Tells-then r t v (i, e, a, told, calls, videos, quiet)
      (i2, e2, a2, later, calls2, videos2, quiet2) =
    (
      i2 ∙ i,
      e2 ∙ e,
      a2 ∙ a,
      later ++ told,
      calls2 ∙ (ap (λ k. later ++ k) calls ∙ sym (append_assoc later told r.calls)),
      AreVideos-append later told videos2 videos,
      λ no_env. rw (quiet2 (e ∙ no_env), quiet no_env) refl,
    )

callback-Tells :
    (o : Option (List ℕ)) (marker : Bool) (r : Receiver)
    → IsShort o
    → Tells r (callback_rtp o marker r)
unfolding callback_rtp
callback-Tells none marker r short = (refl, refl, refl, [], refl, no_video, λ e. refl)
callback-Tells (some []) marker r short = (refl, refl, refl, [], refl, no_video, λ e. refl)
callback-Tells (some (b ∷ out)) marker r short = elim (Bool-cases r.has_env) [
  | inl e ↦ (
    rw e refl,
    rw e refl,
    rw e refl,
    receive_rtp_data (b ∷ out) marker 0 ∷ [],
    rw e refl,
    next_video (omega arith) short no_video,
    λ no_env. ground arith,
  )
  | inr e ↦ (rw e refl, rw e refl, rw e refl, [], rw e refl, no_video, λ no_env. refl)
]

process-IsBuffer :
    (p : RtpPacket) (r t : Receiver) (s u : PsBuffer)
    → IsBuffer s
    → process_rtp_packet p r s ≡ some (t, u)
    → IsBuffer u × Tells r t
unfolding process_rtp_packet note_sequence
process-IsBuffer p r t s u h done = elim (Option-cases (assemble p.packet_data s)) [
  | inl e ↦ ground arith
  | inr ((o, kept), e) ↦
      let (ok, short) = assemble-IsBuffer p.packet_data s o kept h e in
      let same : callback_rtp o p.marker (note_sequence p.sequence_number r) ≡ t = ground arith in
      (
        ground arith,
        subst (λ x. Tells r x) same
            (callback-Tells o p.marker (note_sequence p.sequence_number r) short),
      )
]

pub step-IsBuffer :
    (ps : List RtpPacket) (r t : Receiver) (s u : PsBuffer)
    → IsBuffer s
    → on_poll_thread_step ps r s ≡ some (t, u)
    → IsBuffer u × Tells r t
unfolding on_poll_thread_step
step-IsBuffer [] r t s u h done =
    let same : r ≡ t = ground arith in
    (ground arith, subst (λ x. Tells r x) same (refl, refl, refl, [], refl, no_video, λ e. refl))
step-IsBuffer (p ∷ ps) r t s u h done = elim (Option-cases (process_rtp_packet p r s)) [
  | inl e ↦ ground arith
  | inr ((mid, kept), e) ↦
      let (ok, told) = process-IsBuffer p r mid s kept h e in
      let (end, later) =
        step-IsBuffer ps mid t kept u ok
          (ap (λ m. m >>= λ q. on_poll_thread_step ps q.0 q.1) (sym e) ∙ done) in
      (end, Tells-then r mid t told later)
]
