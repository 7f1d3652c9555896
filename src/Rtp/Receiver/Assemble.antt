-- ===== src/Rtp/Receiver/Assemble.antt =====
-- `processRtpPacket` of RtpReceiver.cpp: RTP payloads are put one behind the other until the next
-- pack header, and what stands before it is the frame that goes to the listener.
pub mod Frames
pub mod Packets
pub mod Stream
pub mod Buffer
pub mod Progress
use jrtplib4android.Prelude.{
  ℕ, ◌+◌, ◌-◌, ◌%◌, ◌^◌, Bool, false, Option, none, some, List, [], ◌∷◌, ltb, ◌==◌, if◌then◌else◌,
  length, drop, ◌&&◌,
}
use jrtplib4android.Prelude.Bytes.{◌>>=◌, slice, blit, begins_with}
use jrtplib4android.Rtp.Session.{receive_rtp_data}
use jrtplib4android.Rtp.Receiver.PStream.{frame, fault, spent, get_h264_from_ps}
use jrtplib4android.Rtp.Receiver.State.{
  Receiver, PsBuffer, RtpPacket, ps_buf_size, rtp_head_len, tell,
}

-- The counter and the sequence numbers, which decide only what is logged.
unfoldable pub note_sequence : ℕ → Receiver → Receiver
note_sequence seq r =
    let next = (r.count + 1) % 2 ^ 16 in
    record r { count = if next % 1000 == 0 then 0 else next; first_seq = false; last_seq = seq }

-- The frame that a payload completes, if it does, and the buffer behind it.
abbrev pub Assembled : Type 0
Assembled = Option (Option (List ℕ) × PsBuffer)

-- The frame in the first `ps_len` bytes goes out and the payload moves to the front; `memcpy` must
-- not be given places that overlap.
unfoldable pub complete : List ℕ → List ℕ → ℕ → Assembled
complete filled payload ps_len = elim (get_h264_from_ps filled ps_len) [
  | frame out ↦
      if ltb ps_len (length payload)
      then none
      else (blit filled 0 payload >>= λ moved.
          some (some out, record { ps_buf = moved; ps_len = length payload }))
  | fault ↦ none
  | spent ↦ none
]

-- `psBuf` with a payload put in behind the first `ps_len` bytes.
unfoldable pub put_in : List ℕ → PsBuffer → Assembled
put_in payload s = blit s.ps_buf s.ps_len payload >>= λ filled.
    begins_with (drop s.ps_len filled) (0 ∷ 0 ∷ 1 ∷ 0xBA ∷ []) >>= λ starts.
    if starts && ltb 0 s.ps_len
    then complete filled payload s.ps_len
    else some (none, record { ps_buf = filled; ps_len = s.ps_len + length payload })

-- The packet length is taken as `uint16_t`. A stream that grows too long is dropped.
unfoldable pub assemble : List ℕ → PsBuffer → Assembled
assemble packet_data s =
    let recv_len = length packet_data % 2 ^ 16 in
    if ltb rtp_head_len recv_len
    then if ltb (s.ps_len + (recv_len - rtp_head_len)) ps_buf_size
      then (slice packet_data rtp_head_len (recv_len - rtp_head_len) >>= λ payload.
          put_in payload s)
      else some (none, record s { ps_len = 0 })
    else some (none, s)

-- `callbackRtp`, called for a frame that is not empty.
unfoldable pub callback_rtp : Option (List ℕ) → Bool → Receiver → Receiver
callback_rtp none marker r = r
callback_rtp (some []) marker r = r
callback_rtp (some (b ∷ out)) marker r =
    if r.has_env then tell (receive_rtp_data (b ∷ out) marker 0) r else r

-- `processRtpPacket`
unfoldable pub process_rtp_packet : RtpPacket → Receiver → PsBuffer → Option (Receiver × PsBuffer)
process_rtp_packet p r s = assemble p.packet_data s >>= λ result.
    some (callback_rtp result.0 p.marker (note_sequence p.sequence_number r), result.1)

-- `OnPollThreadStep`: the packets of all sources, in the order in which the session gives them.
unfoldable pub on_poll_thread_step :
    List RtpPacket → Receiver → PsBuffer → Option (Receiver × PsBuffer)
unfolding process_rtp_packet
on_poll_thread_step [] r s = some (r, s)
on_poll_thread_step (p ∷ packets) r s =
    process_rtp_packet p r s >>= λ result. on_poll_thread_step packets result.0 result.1
