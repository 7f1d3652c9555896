-- ===== src/Rtp/Sender/Buffer.antt =====
-- What the packets of RtpSender.cpp hold, once the writes to `sendbuf` are done.
use jrtplib4android.Prelude.{
  ℕ, suc, ◌+◌, ◌*◌, ◌≤◌, ◌<◌, ◌≡◌, refl, ap, ◌∙◌, Option, none, some, List, [], ◌∷◌, ◌++◌, bit_and,
  arith, length, take, drop, length-replicate, length-append,
}
use jrtplib4android.Prelude.Bytes.{
  ◌>>=◌, slice, blit, blit-in, blit-out, take-append_le, take-all, slice-in, slice-out, take-length,
  length-slice,
}
use jrtplib4android.Rtp.Sender.Packet.{cleared, copied_header, fu_header, single_packet, fu_packet}

length-cleared : length cleared ≡ 1150
unfolding cleared
length-cleared = length-replicate {A = ℕ} 1150 0

blit-first : (a : ℕ) (dst : List ℕ) (x : ℕ) → blit (a ∷ dst) 0 (x ∷ []) ≡ some (x ∷ dst)
unfolding blit
blit-first a dst x = ground arith

blit-second : (x b : ℕ) (dst : List ℕ) (y : ℕ) → blit (x ∷ b ∷ dst) 1 (y ∷ []) ≡ some (x ∷ y ∷ dst)
unfolding blit
blit-second x b dst y = ground arith

slice-front : (src rest : List ℕ) (n : ℕ) → length src ≡ n → slice (src ++ rest) 0 n ≡ some src
slice-front src rest n e =
    slice-in (src ++ rest) 0 n (omega (arith, length-append src rest))
    ∙ ap some (rw (← e) (take-length src rest))

blit-third :
    (x y : ℕ) (dst body : List ℕ)
    → length body ≤ length dst
    → blit (x ∷ y ∷ dst) 2 body ≡ some ((x ∷ y ∷ body) ++ drop (length body) dst)
blit-third x y dst body h =
    let e : 2 + length body ≡ suc (suc (length body)) = omega arith in
    blit-in (x ∷ y ∷ dst) 2 body (omega arith)
    ∙ ap (λ k. some (x ∷ y ∷ (body ++ drop k (x ∷ y ∷ dst)))) e

-- The writes of a fragment: two header bytes and the body, at the front of any long enough buffer.
fragment_writes :
    (dst : List ℕ) (x y n : ℕ) (body : List ℕ)
    → length body ≡ n
    → n + 2 ≤ length dst
    → (blit dst 0 (x ∷ []) >>= λ one.
        blit one 1 (y ∷ []) >>= λ two. blit two 2 body >>= λ filled. slice filled 0 (n + 2))
      ≡ some (x ∷ y ∷ body)
fragment_writes [] x y n body e h = absurd (omega arith)
fragment_writes (a ∷ []) x y n body e h = absurd (omega arith)
fragment_writes (a ∷ b ∷ dst) x y n body e h = rw (
  blit-first a (b ∷ dst) x,
  blit-second x b dst y,
  blit-third x y dst body (omega arith),
  slice-front (x ∷ y ∷ body) (drop (length body) dst) (n + 2) (omega arith),
)

-- A fragment within the NALU is two header bytes and its slice.
pub fu_packet_lem :
    (first : ℕ) (rest : List ℕ) (t n s e : ℕ)
    → n ≤ 1100
    → t * 1100 + 1 + n ≤ suc (length rest)
    → fu_packet (first ∷ rest) t n s e
      ≡ some (
          copied_header first 28
          ∷ fu_header s e 0 (bit_and first 0x1f)
          ∷ take n (drop (t * 1100) rest))
unfolding fu_packet
fu_packet_lem first rest t n s e small fits = rw (body-slice) (
    fragment_writes cleared (copied_header first 28) (fu_header s e 0 (bit_and first 0x1f)) n
      (take n (drop (t * 1100) rest)) (length-slice rest (t * 1100) n (omega arith))
      (omega (arith, length-cleared)))
  where
    body-slice : slice (first ∷ rest) (t * 1100 + 1) n ≡ some (take n (drop (t * 1100) rest))
    body-slice =
        let e : t * 1100 + 1 ≡ suc (t * 1100) = omega arith in
        slice-in (first ∷ rest) (t * 1100 + 1) n (omega arith)
        ∙ ap (λ k. some (take n (drop k (first ∷ rest)))) e

after_none : {B C : Type 0} (m : Option B) → ◌≡◌ {A = Option C} (m >>= λ b. none) none
after_none none = refl
after_none (some b) = refl

then_none :
    {A B C : Type 0} (m : Option A) (k : A → Option B)
    → ◌≡◌ {A = Option C} (m >>= λ a. k a >>= λ b. none) none
then_none none k = refl
then_none (some a) k = after_none (k a)

-- A fragment that reaches past the NALU reads outside it.
pub fu_packet-over :
    (first : ℕ) (rest : List ℕ) (t n s e : ℕ)
    → length rest < t * 1100 + n
    → fu_packet (first ∷ rest) t n s e ≡ none
unfolding fu_packet
fu_packet-over first rest t n s e over =
    rw (slice-out (first ∷ rest) (t * 1100 + 1) n (omega arith))
      (then_none (blit cleared 0 _) (λ one. blit one 1 _))

single_writes :
    (dst : List ℕ) (x n : ℕ) (body : List ℕ)
    → length body ≡ suc n
    → n + 2 ≤ length dst
    → (blit dst 0 (x ∷ []) >>= λ one. blit one 1 body >>= λ filled. slice filled 0 (suc n))
      ≡ some (x ∷ take n body)
single_writes [] x n body e h = absurd (omega arith)
single_writes (a ∷ dst) x n body e h =
    rw (blit-first a dst x, blit-in (x ∷ dst) 1 body (omega arith))
      (slice-in _ 0 (suc n) (omega (arith, length-append body (drop (1 + length body) (x ∷ dst))))
        ∙ ap (λ t. some (x ∷ t)) (take-append_le n body _ (omega arith)))

-- A NALU of at most 1100 bytes goes out as a copy of its header and then all but its last byte.
pub single_packet_lem :
    (first : ℕ) (rest : List ℕ)
    → length rest < 1100
    → single_packet (first ∷ rest) (suc (length rest))
      ≡ some (copied_header first (bit_and first 0x1f) ∷ take (length rest) (first ∷ rest))
unfolding single_packet
single_packet_lem first rest small = rw whole (
    single_writes cleared (copied_header first (bit_and first 0x1f)) (length rest) (first ∷ rest)
      refl (omega (arith, length-cleared)))
  where
    whole : slice (first ∷ rest) 0 (suc (length rest)) ≡ some (first ∷ rest)
    whole =
        slice-in (first ∷ rest) 0 (suc (length rest)) (omega arith)
        ∙ ap (λ t. some (first ∷ t)) (take-all (length rest) rest (omega arith))

-- SPS and PPS of at most 1150 bytes pass through `sendbuf` unchanged.
pub parameter_set-payload :
    (p : List ℕ) {C : Type 0} (k : List ℕ → Option C)
    → length p ≤ 1150
    → (slice p 0 (length p) >>= λ body.
        blit cleared 0 body >>= λ filled. slice filled 0 (length p) >>= k)
      ≡ k p
parameter_set-payload p k small =
    rw (whole, blit-in cleared 0 p (omega (arith, length-cleared)), slice-front p _ (length p) refl)
  where
    whole : slice p 0 (length p) ≡ some p
    whole = slice-in p 0 (length p) (omega arith) ∙ ap some (take-all (length p) p (omega arith))

-- A longer one overflows `sendbuf`.
pub parameter_set-overflow :
    (p : List ℕ) {C : Type 0} (k : List ℕ → Option C)
    → 1150 < length p
    → (slice p 0 (length p) >>= λ body. blit cleared 0 body >>= k) ≡ none
parameter_set-overflow p k long = rw (whole, blit-out cleared 0 p (omega (arith, length-cleared)))
  where
    whole : slice p 0 (length p) ≡ some p
    whole = slice-in p 0 (length p) (omega arith) ∙ ap some (take-all (length p) p (omega arith))
