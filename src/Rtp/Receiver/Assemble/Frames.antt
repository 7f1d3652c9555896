-- ===== src/Rtp/Receiver/Assemble/Frames.antt =====
-- Payloads that follow one another make up a frame, which goes out whole when the next one starts.
use jrtplib4android.Prelude.{
  ℕ, ◌+◌, ◌≤◌, ◌<◌, ◌≡◌, refl, sym, ap, ◌∙◌, Bool, true, false, none, some, List, [], ◌∷◌, ◌++◌,
  ltb, ◌==◌, ◌&&◌, if◌then◌else◌, arith, length, drop, length-append, length-drop, append_assoc,
  Bool-cases, inl, inr,
}
use jrtplib4android.Prelude.Bytes.{blit, begins_with, blit-in, drop-drop, drop-length, take-length}
use jrtplib4android.Rtp.Receiver.PStream.Header.{not-ltb}
use jrtplib4android.Rtp.Receiver.PStream.{frame, get_h264_from_ps}
use jrtplib4android.Rtp.Receiver.State.{PsBuffer}
use jrtplib4android.Rtp.Receiver.Assemble.{complete, put_in}

-- The buffer holds these bytes of a stream, and what is left over behind them.
pub record Holds (bytes : List ℕ) (s : PsBuffer) : Type 0 where
  pub stale : List ℕ
  pub shape : s.ps_buf ≡ bytes ++ stale
  pub len : s.ps_len ≡ length bytes
  pub size : length s.ps_buf ≡ 4194304

abbrev pub pack_code : List ℕ
pack_code = 0 ∷ 0 ∷ 1 ∷ 0xBA ∷ []

blit-append :
    (bytes stale payload : List ℕ)
    → length payload ≤ length stale
    → blit (bytes ++ stale) (length bytes) payload
      ≡ some (bytes ++ (payload ++ drop (length payload) stale))
blit-append bytes stale payload h =
    blit-in (bytes ++ stale) (length bytes) payload (omega (arith, length-append bytes stale))
    ∙ rw (
      take-length bytes stale,
      ← drop-drop (length payload) (length bytes) (bytes ++ stale),
      drop-length bytes stale (length bytes) refl,
    )

pub begins_with-append :
    (p x code : List ℕ) (b : Bool)
    → begins_with p code ≡ some b
    → begins_with (p ++ x) code ≡ some b
unfolding begins_with
begins_with-append p x [] b h = h
begins_with-append [] x (c ∷ code) b h = ground arith
begins_with-append (a ∷ p) x (c ∷ code) b h = elim (Bool-cases (a == c)) [
  | inl same ↦
      let e : begins_with (a ∷ p) (c ∷ code) ≡ begins_with p code = rw same in
      rw same (begins_with-append p x code b (sym e ∙ h))
  | inr other ↦
      let e : begins_with (a ∷ p) (c ∷ code) ≡ some false = rw other in rw other (sym e ∙ h)
]

module _ (bytes payload : List ℕ) (s : PsBuffer) (h : Holds bytes s)
    (room : length bytes + length payload < 4194304) where
  abbrev filled : List ℕ
  filled = bytes ++ (payload ++ drop (length payload) h.stale)

  length-filled : length filled ≡ 4194304
  length-filled = omega (
    arith,
    length-append bytes (payload ++ drop (length payload) h.stale),
    length-append payload (drop (length payload) h.stale),
    length-drop (length payload) h.stale,
    length-append bytes h.stale,
    ap length h.shape,
    h.size,
  )

  pub put_in-filled :
      (b : Bool)
      → begins_with payload pack_code ≡ some b
      → put_in payload s ≡ (
          if b && ltb 0 s.ps_len
          then complete filled payload s.ps_len
          else some (none, record { ps_buf = filled; ps_len = s.ps_len + length payload }))
  unfolding put_in
  put_in-filled b starts =
      rw
        (
          h.shape,
          h.len,
          blit-append bytes h.stale payload enough,
          drop-length bytes (payload ++ drop (length payload) h.stale) (length bytes) refl,
          begins_with-append payload (drop (length payload) h.stale) pack_code b starts,
        )
        refl
    where
      enough : length payload ≤ length h.stale
      enough = omega (arith, length-append bytes h.stale, ap length h.shape, h.size)

  abbrev pub more : PsBuffer
  more = record { ps_buf = filled; ps_len = s.ps_len + length payload }

  pub Holds-more : Holds (bytes ++ payload) more
  Holds-more = record {
    stale = drop (length payload) h.stale;
    shape = sym (append_assoc bytes payload (drop (length payload) h.stale));
    len = omega (arith, h.len, length-append bytes payload);
    size = length-filled;
  }

  pub put_in-more :
      begins_with payload pack_code ≡ some false → put_in payload s ≡ some (none, more)
  put_in-more quiet = put_in-filled false quiet ∙ refl

  abbrev pub moved : PsBuffer
  moved = record { ps_buf = payload ++ drop (length payload) filled; ps_len = length payload }

  pub Holds-moved : Holds payload moved
  Holds-moved = record {
    stale = drop (length payload) filled;
    shape = refl;
    len = refl;
    size = omega (
      arith,
      length-append payload (drop (length payload) filled),
      length-drop (length payload) filled,
      length-filled,
    );
  }

  complete-frame :
      (out : List ℕ)
      → length payload ≤ length bytes
      → get_h264_from_ps filled (length bytes) ≡ frame out
      → complete filled payload (length bytes) ≡ some (some out, moved)
  unfolding complete
  complete-frame out short got =
      rw
        (
          got,
          complete,
          not-ltb (length bytes) (length payload) short,
          blit-in filled 0 payload (omega (arith, length-filled)),
        )
        (ap
          (λ n.
            some (some out, record { ps_buf = payload ++ drop n filled; ps_len = length payload }))
          same)
    where
      same : 0 + length payload ≡ length payload
      same = omega arith

  pub put_in-frame :
      (out : List ℕ)
      → begins_with payload pack_code ≡ some true
      → 0 < length bytes
      → length payload ≤ length bytes
      → get_h264_from_ps filled (length bytes) ≡ frame out
      → put_in payload s ≡ some (some out, moved)
  put_in-frame out starts some_bytes short got =
      put_in-filled true starts ∙ rw (h.len, is_some) (complete-frame out short got)
    where
      is_some : ltb 0 (length bytes) ≡ true
      is_some = ground arith
