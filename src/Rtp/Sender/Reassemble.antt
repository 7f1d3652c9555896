-- ===== src/Rtp/Sender/Reassemble.antt =====
-- `SendH264Nalu` on a NALU of more than 1100 bytes: what a reader of its packets gets.
use jrtplib4android.Prelude.{
  ℕ, zero, suc, ◌+◌, ◌-◌, ◌*◌, ◌/◌, ◌%◌, ◌≤◌, ◌<◌, ◌≡◌, refl, ap, ◌∙◌, true, false, Option, none,
  some, List, [], ◌∷◌, ◌++◌, bit_and, ◌==◌, if◌then◌else◌, arith, length, take, drop, length-drop,
  take-append-drop, append_assoc, lt→ltb,
}
use jrtplib4android.Prelude.Bytes.{take-all, drop-drop}
use jrtplib4android.Prelude.Int.{is_negative}
use jrtplib4android.Rtp.Common.{check_error}
use jrtplib4android.Rtp.Session.{Call, Answer, set_default_mark, send_packet_with}
use jrtplib4android.Rtp.Sender.State.{Sender, tell, timestamp_step}
use jrtplib4android.Rtp.Sender.Packet.{copied_header, fu_header, fu_packet}
use jrtplib4android.Rtp.Sender.Buffer.{fu_packet_lem}
use jrtplib4android.Rtp.Sender.Header.{copied_header_lem, fu_header_lem}
use jrtplib4android.Rtp.Sender.Reader.{
  Packet, packets, join_one, join_rest, join_first, join, total_increment,
}
use jrtplib4android.Rtp.Sender.Send.{no_value, Outcome, send_last, send_fragments}

-- The session accepts every call.
abbrev pub Accepts : Answer → Type 0
Accepts answer = (calls : List Call) → is_negative (answer calls) ≡ false

pub accepted : (answer : Answer) (s : Sender) → Accepts answer → check_error (answer s.calls) ≡ true
unfolding check_error
accepted answer s ok = rw (ok s.calls)

-- What one fragment looks like to the reader.
join_one-middle :
    (first : ℕ) (body : List ℕ) (later : List Packet) (rest : Option (List ℕ))
    → join_one
        (copied_header first 28 ∷ fu_header 0 0 0 (bit_and first 0x1f) ∷ body)
        false
        later
        rest
      ≡ (elim rest [ none ↦ none | some r ↦ some (body ++ r) ])
unfolding join_one
join_one-middle first body later rest =
    rw
      (
        copied_header_lem first 28 (omega arith),
        fu_header_lem 0 0 first (omega arith) (omega arith),
      )
      (ground arith)

join_one-last :
    (first : ℕ) (body : List ℕ) (rest : Option (List ℕ))
    → join_one (copied_header first 28 ∷ fu_header 0 1 0 (bit_and first 0x1f) ∷ body) true [] rest
      ≡ some body
unfolding join_one
join_one-last first body rest =
    rw
      (
        copied_header_lem first 28 (omega arith),
        fu_header_lem 0 1 first (omega arith) (omega arith),
      )
      (ground arith)

join_first-start :
    (first : ℕ) (body r : List ℕ)
    → first < 128
    → join_first
        (copied_header first 28 ∷ fu_header 1 0 0 (bit_and first 0x1f) ∷ body)
        false
        (some r)
      ≡ some (first ∷ (body ++ r))
unfolding join_first
join_first-start first body r small =
    rw
      (
        copied_header_lem first 28 (omega arith),
        fu_header_lem 1 0 first (omega arith) (omega arith),
      )
      (ground arith)

-- The packets that a call adds to those of `s`, when it comes to the end of the function.
pub record Sends (s : Sender) (outcome : Outcome) (ps : List Packet) : Type 0 where
  pub after : Sender
  pub ran : outcome ≡ some (no_value, after)
  pub added : packets after.calls ≡ packets s.calls ++ ps
  pub advance : total_increment ps ≡ timestamp_step s

-- The payload of the last fragment, of a middle one and of the first.
abbrev last_payload : ℕ → List ℕ → List ℕ
last_payload first body = copied_header first 28 ∷ fu_header 0 1 0 (bit_and first 0x1f) ∷ body

abbrev middle_payload : ℕ → List ℕ → List ℕ
middle_payload first body = copied_header first 28 ∷ fu_header 0 0 0 (bit_and first 0x1f) ∷ body

abbrev first_payload : ℕ → List ℕ → List ℕ
first_payload first body = copied_header first 28 ∷ fu_header 1 0 0 (bit_and first 0x1f) ∷ body

abbrev quiet : List ℕ → Packet
quiet body = record { payload = body; mark = false; increment = 0 }

-- A fragment that is not the last, and the packets behind it.
Sends-cons :
    (s : Sender) (payload : List ℕ) {outcome : Outcome} {ps : List Packet}
    → Sends (tell (send_packet_with payload 96 false 0) s) outcome ps
    → Sends s outcome (quiet payload ∷ ps)
unfolding packets total_increment timestamp_step
Sends-cons s payload {ps} sent = record {
  after = sent.after;
  ran = sent.ran;
  added = sent.added ∙ append_assoc (packets s.calls) (quiet payload ∷ []) ps;
  advance = omega (arith, sent.advance);
}

module _ (answer : Answer) (ok : Accepts answer) (first : ℕ) (rest : List ℕ) (len : ℕ)
    (whole : len ≡ suc (length rest)) where
  last-Sends :
      (t : ℕ) (s : Sender)
      → t * 1100 < len
      → len - t * 1100 - 1 ≤ 1100
      → (ps : List Packet) × Sends s (send_last answer (first ∷ rest) t (len - t * 1100 - 1) s) ps
        × (join_rest ps ≡ some (drop (t * 1100) rest))
  unfolding send_last packets total_increment timestamp_step join_rest
  last-Sends t s inside short = (
    record { payload = payload; mark = true; increment = timestamp_step s } ∷ [],
    record {
      after = after;
      ran = rw (made, accepted answer after ok);
      added = refl;
      advance = omega arith;
    },
    join_one-last first (drop (t * 1100) rest) none,
  )
    where
      payload : List ℕ
      payload = last_payload first (drop (t * 1100) rest)

      after : Sender
      after =
          tell (send_packet_with payload 96 true (timestamp_step s))
            (tell (set_default_mark true) s)

      made : fu_packet (first ∷ rest) t (len - t * 1100 - 1) 0 1 ≡ some payload
      made =
          fu_packet_lem first rest t (len - t * 1100 - 1) 0 1 short (omega arith)
          ∙ ap (λ body. some (last_payload first body))
              (take-all (len - t * 1100 - 1) (drop (t * 1100) rest)
                (omega (arith, length-drop (t * 1100) rest)))

  -- The packet of round `t`, a middle fragment, and the state behind it.
  abbrev pub middle : ℕ → List ℕ
  middle t = middle_payload first (take 1100 (drop (t * 1100) rest))

  abbrev after_middle : ℕ → Sender → Sender
  after_middle t s = tell (send_packet_with (middle t) 96 false 0) s

  middle-Sends :
      (left t : ℕ) (s : Sender)
      → 0 < t
      → (t + 1) * 1100 < len
      → (ps : List Packet) × Sends
          (after_middle t s)
          (send_fragments answer left (first ∷ rest) len (t + 1) (after_middle t s))
          ps
        × (join_rest ps ≡ some (drop ((t + 1) * 1100) rest))
      → (ps : List Packet) × Sends s (send_fragments answer (suc left) (first ∷ rest) len t s) ps
        × (join_rest ps ≡ some (drop (t * 1100) rest))
  unfolding send_fragments join_rest
  middle-Sends left t s later inside others = (
    quiet (middle t) ∷ others.0,
    rw (not_first, made, accepted answer (after_middle t s) ok) (Sends-cons s (middle t) others.1),
    rw others.2 (
        join_one-middle first (take 1100 (drop (t * 1100) rest)) others.0
          (some (drop ((t + 1) * 1100) rest))
        ∙ ap some glued),
  )
    where
      not_first : ◌≡◌ {A = ℕ} (if t == 0 then 1 else 0) 0
      not_first = ground arith

      made : fu_packet (first ∷ rest) t 1100 0 0 ≡ some (middle t)
      made = fu_packet_lem first rest t 1100 0 0 (omega arith) (omega arith)

      glued : take 1100 (drop (t * 1100) rest) ++ drop ((t + 1) * 1100) rest ≡ drop (t * 1100) rest
      glued =
          let n : (t + 1) * 1100 ≡ t * 1100 + 1100 = omega arith in
          rw (n, ← drop-drop 1100 (t * 1100) rest) (take-append-drop 1100 (drop (t * 1100) rest))

  rest-Sends :
      (left t : ℕ) (s : Sender)
      → t + left ≡ len / 1100
      → 0 < len % 1100
      → 0 < t
      → (ps : List Packet) × Sends s (send_fragments answer left (first ∷ rest) len t s) ps
        × (join_rest ps ≡ some (drop (t * 1100) rest))
  rest-Sends zero t s e odd later =
      unfold send_fragments in
      rw (lt→ltb 0 (len % 1100) odd) (last-Sends t s (omega arith) (omega arith))
  rest-Sends (suc left) t s e odd later =
      middle-Sends left t s later (omega arith)
        (rest-Sends left (t + 1) (after_middle t s) (omega arith) odd (omega arith))

  abbrev opening : List ℕ
  opening = first_payload first (take 1100 rest)

  abbrev after_opening : Sender → Sender
  after_opening s = tell (send_packet_with opening 96 false 0) s

  first-Sends :
      (left : ℕ) (s : Sender)
      → first < 128
      → 1100 < len
      → (ps : List Packet) × Sends
          (after_opening s)
          (send_fragments answer left (first ∷ rest) len 1 (after_opening s))
          ps
        × (join_rest ps ≡ some (drop 1100 rest))
      → (ps : List Packet) × Sends s (send_fragments answer (suc left) (first ∷ rest) len 0 s) ps
        × (join ps ≡ some (first ∷ rest))
  unfolding send_fragments join
  first-Sends left s small long others = (
    quiet opening ∷ others.0,
    rw (made, accepted answer (after_opening s) ok) (Sends-cons s opening others.1),
    rw others.2 (
        join_first-start first (take 1100 rest) (drop 1100 rest) small
        ∙ ap (λ r. some (first ∷ r)) (take-append-drop 1100 rest)),
  )
    where
      made : fu_packet (first ∷ rest) 0 1100 1 0 ≡ some opening
      made = fu_packet_lem first rest 0 1100 1 0 (omega arith) (omega arith)

  -- All fragments of a NALU whose length is no multiple of 1100.
  pub all-Sends :
      (s : Sender)
      → 1100 < len
      → 0 < len % 1100
      → first < 128
      → (ps : List Packet) × Sends s (send_fragments answer (len / 1100) (first ∷ rest) len 0 s) ps
        × (join ps ≡ some (first ∷ rest))
  all-Sends s long odd small =
      let left : len / 1100 ≡ suc (len / 1100 - 1) = omega arith in
      rw left (
        first-Sends (len / 1100 - 1) s small long
          (rest-Sends (len / 1100 - 1) 1 (after_opening s) (omega arith) odd (omega arith)))
