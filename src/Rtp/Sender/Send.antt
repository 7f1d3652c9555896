-- ===== src/Rtp/Sender/Send.antt =====
-- `SendH264Nalu` and `SendRtpData` of RtpSender.cpp.
use jrtplib4android.Prelude.{
  ℕ, zero, suc, ◌+◌, ◌-◌, ◌*◌, ◌/◌, ◌%◌, Bool, true, false, Option, some, List, ltb, leb, ◌==◌,
  if◌then◌else◌,
}
use jrtplib4android.Prelude.Bytes.{◌>>=◌, slice, blit}
use jrtplib4android.Prelude.Int.{ℤ, pos, negsuc}
use jrtplib4android.Rtp.Common.{check_error}
use jrtplib4android.Rtp.Session.{
  Answer, set_default_mark, set_default_timestamp_increment, send_packet, send_packet_with,
}
use jrtplib4android.Rtp.Sender.State.{
  Sender, tell, status, count_packet, timestamp_step, max_rtp_pkt_length, h264,
}
use jrtplib4android.Rtp.Sender.Packet.{skip_start_code, cleared, single_packet, fu_packet}

-- How a call of `SendH264Nalu` ends: by a `return`, or by running off the end of the function, of
-- which C++ says nothing.
pub data Return : Type 0 where
  returned : Bool → Return
  no_value : Return

-- `none` is an access outside a buffer.
abbrev pub Outcome : Type 0
Outcome = Option (Return × Sender)

module _ (answer : Answer) where
  -- `return CheckError(status)`
  unfoldable pub finish : Sender → Outcome
  finish s = some (returned (check_error (status answer s)), s)

  -- SPS and PPS go out as they are, through the buffer of 1150 bytes.
  unfoldable pub send_parameter_set : List ℕ → ℕ → Sender → Outcome
  unfolding finish
  send_parameter_set p len s = do
    body ← slice p 0 len
    filled ← blit cleared 0 body
    payload ← slice filled 0 len
    finish (tell (send_packet payload) (tell (set_default_mark false) s))

  unfoldable pub send_single : List ℕ → ℕ → Sender → Outcome
  unfolding finish
  send_single p len s = single_packet p len >>= λ payload.
      finish (tell (send_packet payload) (tell (set_default_mark true) s))

  -- The last fragment, with `n` bytes behind its two header bytes.
  unfoldable pub send_last : List ℕ → ℕ → ℕ → Sender → Outcome
  send_last p t n s = fu_packet p t n 0 1 >>= λ payload.
      let marked = tell (set_default_mark true) s in
      let sent = tell (send_packet_with payload h264 true (timestamp_step s)) marked in
      some ((if check_error (status answer sent) then no_value else returned false), sent)

  -- `while (t < k || (t == k && l > 0))`, with `left` for `k - t`.
  unfoldable pub send_fragments : ℕ → List ℕ → ℕ → ℕ → Sender → Outcome
  unfolding send_last
  send_fragments zero p len t s =
      if ltb 0 (len % max_rtp_pkt_length)
      then send_last p t (len - t * max_rtp_pkt_length - 1) s
      else some (no_value, s)
  send_fragments (suc left) p len t s =
      fu_packet p t max_rtp_pkt_length (if t == 0 then 1 else 0) 0 >>= λ payload.
      let sent = tell (send_packet_with payload h264 false 0) s in
      let rest = send_fragments left p len (t + 1) sent in
      if check_error (status answer sent) then rest else some (returned false, sent)

  unfoldable pub send_stripped : List ℕ → ℕ → Bool → Sender → Outcome
  unfolding send_parameter_set send_single send_fragments
  send_stripped p len is_sps_or_pps s =
      if is_sps_or_pps
      then send_parameter_set p len s
      else if leb len max_rtp_pkt_length
      then send_single p len s
      else send_fragments (len / max_rtp_pkt_length) p len 0 (tell (set_default_mark false) s)

  unfoldable pub send_h264_nalu : List ℕ → ℤ → Bool → Sender → Outcome
  unfolding send_stripped
  send_h264_nalu buf (negsuc n) is_sps_or_pps s = some (returned false, s)
  send_h264_nalu buf (pos len) is_sps_or_pps s =
      if ltb len 4
      then some (returned false, s)
      else skip_start_code buf len >>= λ rest.
          send_stripped rest.0 rest.1 is_sps_or_pps (count_packet s)

  -- `SendRtpData`: forwards a payload as it is. The time of the caller is not used.
  unfoldable pub send_rtp_data : List ℕ → ℤ → Bool → Sender → Outcome
  unfolding finish
  send_rtp_data buf (negsuc n) is_marker s = some (returned false, s)
  send_rtp_data buf (pos len) is_marker s =
      if ltb len 4
      then some (returned false, s)
      else slice buf 0 len >>= λ payload.
          let counted = count_packet s in
          let marked = tell (set_default_mark is_marker) counted in
          let step = if is_marker then timestamp_step s else 0 in
          finish (tell (send_packet payload) (tell (set_default_timestamp_increment step) marked))
