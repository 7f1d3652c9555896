-- ===== src/Rtp/Sender/Nalu.antt =====
-- `SendH264Nalu` and `SendRtpData` as their callers see them.
use jrtplib4android.Prelude.{
  ℕ, suc, ◌-◌, ◌/◌, ◌%◌, ◌<◌, ◌≡◌, refl, ap, Bool, false, some, List, [], ◌∷◌, ◌++◌, ltb, leb,
  arith, length,
}
use jrtplib4android.Prelude.Bytes.{begins_with}
use jrtplib4android.Prelude.Int.{pos}
use jrtplib4android.Rtp.Session.{Answer, set_default_mark}
use jrtplib4android.Rtp.Sender.State.{Sender, tell, timestamp_step, count_packet}
use jrtplib4android.Rtp.Sender.Packet.{find_start_code2, find_start_code3, skip_start_code}
use jrtplib4android.Rtp.Sender.Reader.{Packet, packets, join, total_increment}
use jrtplib4android.Rtp.Sender.Reassemble.{Accepts, Sends, all-Sends}
use jrtplib4android.Rtp.Sender.Send.{no_value, send_fragments, send_stripped, send_h264_nalu}

-- The two start codes of a byte stream.
pub data StartCode : Type 0 where
  three four : StartCode

abbrev pub code_bytes : StartCode → List ℕ
code_bytes three = 0 ∷ 0 ∷ 1 ∷ []
code_bytes four = 0 ∷ 0 ∷ 0 ∷ 1 ∷ []

skip-code :
    (c : StartCode) (nal : List ℕ)
    → skip_start_code (code_bytes c ++ nal) (length (code_bytes c ++ nal)) ≡ some (nal, length nal)
unfolding skip_start_code find_start_code2 find_start_code3 begins_with
skip-code three nal =
    let e : suc (suc (suc (length nal))) - 3 ≡ length nal = omega arith in ap (λ n. some (nal, n)) e
skip-code four nal =
    let e : suc (suc (suc (suc (length nal)))) - 4 ≡ length nal = omega arith in
    ap (λ n. some (nal, n)) e

-- What is left of `SendH264Nalu` behind a start code.
pub behind_code :
    (answer : Answer) (c : StartCode) (nal : List ℕ) (set : Bool) (s : Sender)
    → 0 < length nal
    → send_h264_nalu answer (code_bytes c ++ nal) (pos (length (code_bytes c ++ nal))) set s
      ≡ send_stripped answer nal (length nal) set (count_packet s)
unfolding send_h264_nalu
behind_code answer c nal set s h = rw (long c, skip-code c nal)
  where
    long : (c : StartCode) → ltb (length (code_bytes c ++ nal)) 4 ≡ false
    long three = ground arith
    long four = ground arith

-- A NALU behind a start code, longer than 1100 bytes, of a length that is no multiple of 1100 and
-- with the F bit clear, is sent as packets from which a reader of FU-A joins exactly this NALU,
-- whose timestamp increments add up to one frame; the code ends without a return value.
pub send_h264_nalu-join :
    (answer : Answer) (c : StartCode) (first : ℕ) (rest : List ℕ) (s : Sender)
    → Accepts answer
    → first < 128
    → 1100 < suc (length rest)
    → 0 < suc (length rest) % 1100
    → let nal = first ∷ rest in
      (ps : List Packet) × (after : Sender) × (send_h264_nalu answer
          (code_bytes c ++ nal)
          (pos (length (code_bytes c ++ nal)))
          false
          s
        ≡ some (no_value, after))
      × (packets after.calls ≡ packets s.calls ++ ps)
      × (join ps ≡ some nal)
      × (total_increment ps ≡ timestamp_step s)
unfolding send_stripped count_packet packets timestamp_step
send_h264_nalu-join answer c first rest s ok small long odd = (
  sent.0,
  sent.1.after,
  rw (behind_code answer c (first ∷ rest) false s (omega arith), too_long) sent.1.ran,
  sent.1.added,
  sent.2,
  sent.1.advance,
)
  where
    start : Sender
    start = tell (set_default_mark false) (count_packet s)

    sent :
        (ps : List Packet) × Sends start
          (send_fragments answer
            (suc (length rest) / 1100)
            (first ∷ rest)
            (suc (length rest))
            0
            start)
          ps
        × (join ps ≡ some (first ∷ rest))
    sent = all-Sends answer ok first rest (suc (length rest)) refl start long odd small

    too_long : leb (suc (length rest)) 1100 ≡ false
    too_long = ground arith
