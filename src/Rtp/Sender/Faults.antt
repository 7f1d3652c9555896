-- ===== src/Rtp/Sender/Faults.antt =====
-- Where `SendH264Nalu` does not do what it means to: a whole number of fragments, a NALU that fits
-- one packet, parameter sets that are too long.
use jrtplib4android.Prelude.{
  ℕ, zero, suc, ◌+◌, ◌-◌, ◌*◌, ◌/◌, ◌%◌, ◌<◌, ◌≡◌, refl, ap, ◌∙◌, Bool, true, false, none, some,
  List, [], ◌∷◌, ◌++◌, bit_and, ltb, leb, ◌==◌, if◌then◌else◌, arith, length, take, drop, replicate,
  get_or, dec_lt,
}
use jrtplib4android.Prelude.Bytes.{◌>>=◌, slice, slice-in, slice-out, take-all}
use jrtplib4android.Prelude.Int.{pos}
use jrtplib4android.Rtp.Common.{check_error}
use jrtplib4android.Rtp.Session.{
  Answer, set_default_mark, set_default_timestamp_increment, send_packet, send_packet_with,
}
use jrtplib4android.Rtp.Sender.State.{Sender, tell, timestamp_step, count_packet}
use jrtplib4android.Rtp.Sender.Packet.{copied_header, fu_packet}
use jrtplib4android.Rtp.Sender.Buffer.{
  fu_packet_lem, fu_packet-over, single_packet_lem, parameter_set-payload, parameter_set-overflow,
}
use jrtplib4android.Rtp.Sender.Header.{copied_header_lem, type-bits}
use jrtplib4android.Rtp.Sender.Reassemble.{Accepts, accepted}
use jrtplib4android.Rtp.Sender.Nalu.{StartCode, code_bytes, behind_code}
use jrtplib4android.Rtp.Sender.Send.{
  returned, Outcome, finish, send_fragments, send_stripped, send_h264_nalu, send_rtp_data,
}

-- A round whose packet is made and accepted goes on with the next.
fragment-accepted :
    (answer : Answer) (p payload : List ℕ) (len left t : ℕ) (s : Sender)
    → Accepts answer
    → fu_packet p t 1100 (if t == 0 then 1 else 0) 0 ≡ some payload
    → send_fragments answer (suc left) p len t s
      ≡ send_fragments answer left p len (t + 1) (tell (send_packet_with payload 96 false 0) s)
unfolding send_fragments
fragment-accepted answer p payload len left t s ok made =
    rw (made, accepted answer (tell (send_packet_with payload 96 false 0) s) ok)

overrun :
    (answer : Answer) (first : ℕ) (rest : List ℕ) (left t : ℕ) (s : Sender)
    → Accepts answer
    → (t + suc left) * 1100 ≡ suc (length rest)
    → send_fragments answer (suc left) (first ∷ rest) (suc (length rest)) t s ≡ none
overrun answer first rest zero t s ok e =
    unfold send_fragments in
    rw (fu_packet-over first rest t 1100 (if t == 0 then 1 else 0) 0 (omega arith))
overrun answer first rest (suc left) t s ok e =
    fragment-accepted answer (first ∷ rest) _ (suc (length rest)) (suc left) t s ok
      (fu_packet_lem first rest t 1100 (if t == 0 then 1 else 0) 0 (omega arith) (omega arith))
    ∙ overrun answer first rest left (t + 1) _ ok (omega arith)

-- A NALU behind a start code whose length is a multiple of 1100 above 1100: the session accepts every
-- call, the fragments of all rounds but the last are made, that of the last needs a byte past the end
-- of the NALU, and so the call is a fault.
pub send_h264_nalu-overrun :
    (answer : Answer) (c : StartCode) (first : ℕ) (rest : List ℕ) (s : Sender)
    → Accepts answer
    → 1100 < suc (length rest)
    → suc (length rest) % 1100 ≡ 0
    → let nal = first ∷ rest in
      let last = suc (length rest) / 1100 - 1 in
      ((t : ℕ)
        → t < last
        → (payload : List ℕ) × (fu_packet nal t 1100 (if t == 0 then 1 else 0) 0 ≡ some payload))
      × (last * 1100 + 1 + 1100 ≡ suc (length nal))
      × (slice nal (last * 1100 + 1) 1100 ≡ none)
      × (fu_packet nal last 1100 0 0 ≡ none)
      × (send_h264_nalu answer (code_bytes c ++ nal) (pos (length (code_bytes c ++ nal))) false s
          ≡ none)
unfolding send_stripped
send_h264_nalu-overrun answer c first rest s ok long even = (
  λ t below.
      (_, fu_packet_lem first rest t 1100 (if t == 0 then 1 else 0) 0 (omega arith) (omega arith)),
  omega arith,
  slice-out (first ∷ rest) (last * 1100 + 1) 1100 (omega arith),
  fu_packet-over first rest last 1100 0 0 (omega arith),
  rw (behind_code answer c (first ∷ rest) false s (omega arith), too_long, rounds)
      (overrun answer first rest last 0 _ ok (omega arith)),
)
  where
    last : ℕ
    last = suc (length rest) / 1100 - 1

    too_long : leb (suc (length rest)) 1100 ≡ false
    too_long = ground arith

    rounds : suc (length rest) / 1100 ≡ suc (suc (length rest) / 1100 - 1)
    rounds = omega arith

-- A NALU of at most 1100 bytes behind a start code goes out in one packet with the marker, which
-- holds a copy of its header (without the F bit) and then the NALU without its last byte.
pub send_h264_nalu-single :
    (answer : Answer) (c : StartCode) (first : ℕ) (rest : List ℕ) (s : Sender)
    → length rest < 1100
    → let nal = first ∷ rest in
      let payload = (first % 128) ∷ take (length rest) nal in
      let sent = tell (send_packet payload) (tell (set_default_mark true) (count_packet s)) in
      send_h264_nalu answer (code_bytes c ++ nal) (pos (length (code_bytes c ++ nal))) false s
      ≡ some (returned (check_error (answer sent.calls)), sent)
unfolding send_stripped
send_h264_nalu-single answer c first rest s short = rw (
  behind_code answer c (first ∷ rest) false s (omega arith),
  fits,
  single_packet_lem first rest short,
  header,
)
  where
    fits : leb (suc (length rest)) 1100 ≡ true
    fits = ground arith

    header : copied_header first (bit_and first 0x1f) ≡ first % 128
    header = omega (arith, type-bits first, copied_header_lem first (bit_and first 0x1f))

shifted-constant :
    (x : ℕ) (rest : List ℕ)
    → take (length rest) (x ∷ rest) ≡ rest
    → rest ≡ replicate (length rest) x
shifted-constant x [] e = refl
shifted-constant x (y ∷ rest) e =
    let same : x ≡ y = ap (λ l. get_or l 0 0) e in
    rw same (ap (λ l. y ∷ l) (shifted-constant y rest (ap (λ l. drop 1 l) e)))

-- So the payload is the NALU itself only if all its bytes are equal.
pub single-differs :
    (first : ℕ) (rest : List ℕ)
    → (first % 128) ∷ take (length rest) (first ∷ rest) ≡ first ∷ rest
    → rest ≡ replicate (length rest) first
single-differs first rest e = shifted-constant first rest (ap (λ l. drop 1 l) e)

-- A parameter set (SPS or PPS) of at most 1150 bytes behind a start code goes out unchanged, in one
-- packet without the marker; a longer one overflows the buffer on the stack.
pub send_h264_nalu-parameter_set :
    (answer : Answer) (c : StartCode) (set : List ℕ) (s : Sender)
    → 0 < length set
    → let sent = tell (send_packet set) (tell (set_default_mark false) (count_packet s)) in
      send_h264_nalu answer (code_bytes c ++ set) (pos (length (code_bytes c ++ set))) true s ≡ (
        if leb (length set) 1150
        then some (returned (check_error (answer sent.calls)), sent)
        else none)
unfolding send_stripped
send_h264_nalu-parameter_set answer c set s h = elim (dec_lt 1150 (length set)) [
  | yes long ↦
      let over : leb (length set) 1150 ≡ false = ground arith in
      rw (behind_code answer c set true s h, over)
        (parameter_set-overflow set (λ filled. slice filled 0 (length set) >>= send) long)
  | no short ↦
      let fits : leb (length set) 1150 ≡ true = ground arith in
      rw (behind_code answer c set true s h, fits) (parameter_set-payload set send (omega arith))
]
  where
    send : List ℕ → Outcome
    send payload =
        finish answer (tell (send_packet payload) (tell (set_default_mark false) (count_packet s)))

-- `SendRtpData` forwards a payload of at least 4 bytes unchanged, after it has set the marker and
-- the timestamp increment: a frame for the marked packet, nothing for the others. A shorter payload
-- is refused without any call.
pub send_rtp_data_lem :
    (answer : Answer) (buf : List ℕ) (is_marker : Bool) (s : Sender)
    → let step = if is_marker then timestamp_step s else 0 in
      let set_up =
        tell
          (set_default_timestamp_increment step)
          (tell (set_default_mark is_marker) (count_packet s)) in
      let sent = tell (send_packet buf) set_up in
      send_rtp_data answer buf (pos (length buf)) is_marker s
      ≡ some (
          if ltb (length buf) 4
          then (returned false, s)
          else (returned (check_error (answer sent.calls)), sent))
unfolding send_rtp_data
send_rtp_data_lem answer buf is_marker s = rw whole (ground arith)
  where
    whole : slice buf 0 (length buf) ≡ some buf
    whole =
        slice-in buf 0 (length buf) (omega arith)
        ∙ ap some (take-all (length buf) buf (omega arith))
