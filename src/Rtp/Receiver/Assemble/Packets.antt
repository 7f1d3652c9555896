-- ===== src/Rtp/Receiver/Assemble/Packets.antt =====
-- RTP packets and what `processRtpPacket` does with them inside a frame.
use jrtplib4android.Prelude.{
  ℕ, ◌+◌, ◌-◌, ◌%◌, ◌^◌, ◌<◌, ◌≡◌, refl, sym, subst, ap, ◌∙◌, Bool, true, false, some, List, [],
  ◌∷◌, ◌++◌, ltb, arith, length, length-append, append_assoc, append-nil,
}
use jrtplib4android.Prelude.Bytes.{slice, begins_with, slice-in, take-all, drop-length}
use jrtplib4android.Rtp.Receiver.State.{Receiver, PsBuffer, RtpPacket}
use jrtplib4android.Rtp.Receiver.Assemble.{
  note_sequence, put_in, assemble, callback_rtp, process_rtp_packet, on_poll_thread_step,
}
use jrtplib4android.Rtp.Receiver.Assemble.Frames.{Holds, pack_code, more, Holds-more, put_in-more}

-- A packet: the RTP header of twelve bytes and the payload.
pub record Carried : Type 0 where
  pub seq : ℕ
  pub marker : Bool
  pub head : List ℕ
  pub payload : List ℕ

abbrev pub packet : Carried → RtpPacket
packet c = record { sequence_number = c.seq; marker = c.marker; packet_data = c.head ++ c.payload }

abbrev pub IsCarried : Carried → Type 0
IsCarried c = (length c.head ≡ 12) × (0 < length c.payload) × (12 + length c.payload < 2 ^ 16)

abbrev pub packets : List Carried → List RtpPacket
packets [] = []
packets (c ∷ cs) = packet c ∷ packets cs

abbrev pub payloads : List Carried → List ℕ
payloads [] = []
payloads (c ∷ cs) = c.payload ++ payloads cs

-- Packets that start no frame.
abbrev pub Quiet : List Carried → Type 0
Quiet [] = Unit
Quiet (c ∷ cs) = IsCarried c × (begins_with c.payload pack_code ≡ some false) × Quiet cs

pub assemble-packet :
    (c : Carried) (s : PsBuffer)
    → IsCarried c
    → s.ps_len + length c.payload < 4194304
    → assemble (c.head ++ c.payload) s ≡ put_in c.payload s
unfolding assemble
assemble-packet c s (h12, some_bytes, small) room = rw (size, is_more, less, fits, found) refl
  where
    size : length (c.head ++ c.payload) % 2 ^ 16 ≡ 12 + length c.payload
    size = omega (arith, length-append c.head c.payload)

    is_more : ltb 12 (12 + length c.payload) ≡ true
    is_more = ground arith

    less : 12 + length c.payload - 12 ≡ length c.payload
    less = omega arith

    fits : ltb (s.ps_len + length c.payload) 4194304 ≡ true
    fits = ground arith

    found : slice (c.head ++ c.payload) 12 (length c.payload) ≡ some c.payload
    found =
        slice-in (c.head ++ c.payload) 12 (length c.payload)
          (omega (arith, length-append c.head c.payload))
        ∙ ap some (
            rw (drop-length c.head c.payload 12 (sym h12))
              (take-all (length c.payload) c.payload (omega arith)))

-- What the receiver is after the sequence numbers of some packets.
abbrev pub noted : List Carried → Receiver → Receiver
noted [] r = r
noted (c ∷ cs) r = noted cs (note_sequence c.seq r)

pub noted-calls : (cs : List Carried) (r : Receiver) → (noted cs r).calls ≡ r.calls
unfolding note_sequence
noted-calls [] r = refl
noted-calls (c ∷ cs) r = noted-calls cs (note_sequence c.seq r)

pub noted-has_env : (cs : List Carried) (r : Receiver) → (noted cs r).has_env ≡ r.has_env
unfolding note_sequence
noted-has_env [] r = refl
noted-has_env (c ∷ cs) r = noted-has_env cs (note_sequence c.seq r)

pub process-quiet :
    (c : Carried) (bytes : List ℕ) (r : Receiver) (s : PsBuffer) (h : Holds bytes s)
    → IsCarried c
    → begins_with c.payload pack_code ≡ some false
    → (room : length bytes + length c.payload < 4194304)
    → process_rtp_packet (packet c) r s
      ≡ some (note_sequence c.seq r, more bytes c.payload s h room)
unfolding process_rtp_packet callback_rtp
process-quiet c bytes r s h ok quiet room =
    rw (assemble-packet c s ok (omega (arith, h.len)), put_in-more bytes c.payload s h room quiet)

-- Packets that start no frame are put behind what is held.
pub gather :
    (cs : List Carried) (bytes : List ℕ) (r : Receiver) (s : PsBuffer)
    → Holds bytes s
    → Quiet cs
    → length bytes + length (payloads cs) < 4194304
    → (rest : List RtpPacket)
    → (t : PsBuffer) × Holds (bytes ++ payloads cs) t
      × (on_poll_thread_step (packets cs ++ rest) r s ≡ on_poll_thread_step rest (noted cs r) t)
unfolding on_poll_thread_step
gather [] bytes r s h q room rest = (s, subst (λ b. Holds b s) (sym (append-nil bytes)) h, refl)
gather (c ∷ cs) bytes r s h (ok, quiet, q) room rest =
    let (t, held, e) =
      gather cs (bytes ++ c.payload) (note_sequence c.seq r) (more bytes c.payload s h now)
        (Holds-more bytes c.payload s h now) q
        (omega (arith, length-append bytes c.payload, length-append c.payload (payloads cs)))
        rest in
    (
      t,
      subst (λ b. Holds b t) (append_assoc bytes c.payload (payloads cs)) held,
      rw (process-quiet c bytes r s h ok quiet now) e,
    )
  where
    now : length bytes + length c.payload < 4194304
    now = omega (arith, length-append c.payload (payloads cs))
