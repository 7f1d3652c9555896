-- ===== src/Rtp/Receiver/Assemble/Stream.antt =====
-- A stream of frames, cut into packets anywhere, comes out of `OnPollThreadStep` frame by frame.
use jrtplib4android.Prelude.{
  ◌*◌, drop, ℕ, ◌+◌, ◌≤◌, ◌<◌, ◌≡◌, sym, subst, ap, ◌∙◌, Bool, true, some, List, [], ◌∷◌, ◌++◌,
  arith, length, length-append, append_assoc,
}
use jrtplib4android.Prelude.Bytes.{begins_with}
use jrtplib4android.Rtp.Session.{Call, receive_rtp_data}
use jrtplib4android.Rtp.Receiver.PStream.{frame, get_h264_from_ps}
use jrtplib4android.Rtp.Receiver.PStream.Code.{Section, encode, videos}
use jrtplib4android.Rtp.Receiver.PStream.Header.{pack_header}
use jrtplib4android.Rtp.Receiver.PStream.Videos.{get_h264-encode}
use jrtplib4android.Rtp.Receiver.State.{Receiver, PsBuffer, RtpPacket, tell}
use jrtplib4android.Rtp.Receiver.Assemble.{
  note_sequence, callback_rtp, process_rtp_packet, on_poll_thread_step,
}
use jrtplib4android.Rtp.Receiver.Assemble.Frames.{
  Holds, pack_code, more, Holds-more, moved, Holds-moved, put_in-frame, put_in-filled,
}
use jrtplib4android.Rtp.Receiver.Assemble.Packets.{
  Carried, packet, IsCarried, packets, payloads, Quiet, noted, assemble-packet, noted-calls,
  noted-has_env, gather,
}

-- A frame: the packets that carry it and the program stream they carry.
pub record PsFrame : Type 0 where
  pub first : Carried
  pub others : List Carried
  pub head : List ℕ
  pub flags : ℕ
  pub stuffing : List ℕ
  pub units : List Section

abbrev pub stream : PsFrame → List ℕ
stream f = pack_header f.head f.flags f.stuffing ++ encode f.units

abbrev pub IsPsFrame : PsFrame → Type 0
IsPsFrame f =
    IsCarried f.first
    × (begins_with f.first.payload pack_code ≡ some true)
    × Quiet f.others
    × (f.first.payload ++ payloads f.others ≡ stream f)
    × (length f.head ≡ 13)
    × (length f.stuffing < 8)
    × (0 < length (videos f.units))
    × (length (videos f.units) < 2097152)

abbrev pub flow : List PsFrame → List RtpPacket
flow [] = []
flow (f ∷ fs) = packet f.first ∷ (packets f.others ++ flow fs)

-- The buffer takes each frame together with the packet that ends it, which is not longer.
abbrev pub Fits : PsFrame → List PsFrame → Type 0
Fits f [] = length (stream f) < 4194304
Fits f (g ∷ gs) =
    (length (stream f) + length g.first.payload < 4194304)
    × (length g.first.payload ≤ length (stream f))
    × IsPsFrame g
    × Fits g gs

-- What the listener hears, the newest first: the video of each frame that another one follows.
abbrev pub heard : PsFrame → List PsFrame → List Call
heard f [] = []
heard f (g ∷ gs) = heard g gs ++ (receive_rtp_data (videos f.units) g.first.marker 0 ∷ [])

callback-some :
    (out : List ℕ) (marker : Bool) (r : Receiver)
    → 0 < length out
    → r.has_env ≡ true
    → callback_rtp (some out) marker r ≡ tell (receive_rtp_data out marker 0) r
unfolding callback_rtp
callback-some [] marker r some_bytes env = absurd (omega arith)
callback-some (b ∷ out) marker r some_bytes env = rw env

process-frame :
    (c : Carried) (f : PsFrame) (r : Receiver) (s : PsBuffer) (h : Holds (stream f) s)
    → IsCarried c
    → begins_with c.payload pack_code ≡ some true
    → length f.head ≡ 13
    → length f.stuffing < 8
    → 0 < length (videos f.units)
    → length (videos f.units) < 2097152
    → (room : length (stream f) + length c.payload < 4194304) → length c.payload ≤ length (stream f)
    → r.has_env ≡ true
    → process_rtp_packet (packet c) r s
      ≡ some (
        tell (receive_rtp_data (videos f.units) c.marker 0) (note_sequence c.seq r),
        moved (stream f) c.payload s h room,
      )
unfolding process_rtp_packet note_sequence
process-frame c f r s h ok starts h13 h8 some_video fit room short env = rw (
  assemble-packet c s ok (omega (arith, h.len)),
  put_in-frame (stream f) c.payload s h room (videos f.units) starts some_bytes short got,
  callback-some (videos f.units) c.marker (note_sequence c.seq r) some_video env,
)
  where
    some_bytes : 0 < length (stream f)
    some_bytes = omega (
      arith,
      length-append (pack_header f.head f.flags f.stuffing) (encode f.units),
      length-append f.head ((f.flags * 8 + length f.stuffing) ∷ f.stuffing),
    )

    got :
        get_h264_from_ps
          (stream f ++ (c.payload ++ drop (length c.payload) h.stale))
          (length (stream f))
        ≡ frame (videos f.units)
    got =
        get_h264-encode f.head f.flags f.stuffing f.units
          (c.payload ++ drop (length c.payload) h.stale) h13 h8 fit

-- From a buffer that holds the first packet of a frame.
hear-frames :
    (f : PsFrame) (fs : List PsFrame) (r : Receiver) (s : PsBuffer)
    → Holds f.first.payload s
    → IsPsFrame f
    → Fits f fs
    → r.has_env ≡ true
    → (t : Receiver) × (u : PsBuffer) × (on_poll_thread_step (packets f.others ++ flow fs) r s
        ≡ some (t, u))
      × (t.calls ≡ heard f fs ++ r.calls)
unfolding on_poll_thread_step note_sequence
hear-frames f [] r s h (ok, starts, q, whole, h13, h8, some_video, fit) fits env =
    let room : length f.first.payload + length (payloads f.others) < 4194304 =
      subst (λ n. n < 4194304)
        (sym (ap length whole) ∙ length-append f.first.payload (payloads f.others)) fits in
    let (u, held, e) = gather f.others f.first.payload r s h q room [] in
    (noted f.others r, u, e, noted-calls f.others r)
hear-frames f (g ∷ gs) r s h (ok, starts, q, whole, h13, h8, some_video, fit)
      (room, short, is_g, fits) env =
    let (gok, gstarts, g3, g4, g5, g6, g7, g8) = is_g in
    let (t, held, e) =
      gather f.others f.first.payload r s h q
        (omega (arith, ap length whole, length-append f.first.payload (payloads f.others)))
        (flow (g ∷ gs)) in
    let now : Holds (stream f) t = subst (λ b. Holds b t) whole held in
    let env2 : (noted f.others r).has_env ≡ true = noted-has_env f.others r ∙ env in
    let r2 : Receiver =
      tell (receive_rtp_data (videos f.units) g.first.marker 0)
        (note_sequence g.first.seq (noted f.others r)) in
    let (r3, u, e2, calls) =
      hear-frames g gs r2 (moved (stream f) g.first.payload t now room)
        (Holds-moved (stream f) g.first.payload t now room) is_g fits env2 in
    (
      r3,
      u,
      e
          ∙ rw
              (process-frame g.first f (noted f.others r) t now gok gstarts h13 h8 some_video fit
                room short env2)
              e2,
      calls
          ∙ (ap (λ k. heard g gs ++ (receive_rtp_data (videos f.units) g.first.marker 0 ∷ k))
                (noted-calls f.others r)
              ∙ sym (
                  append_assoc (heard g gs)
                    (receive_rtp_data (videos f.units) g.first.marker 0 ∷ []) r.calls)),
    )

frame-Fits : (f : PsFrame) (fs : List PsFrame) → Fits f fs → length (stream f) < 4194304
frame-Fits f [] fits = fits
frame-Fits f (g ∷ gs) (room, short, is_g, rest) = omega arith

first-packet :
    (c : Carried) (r : Receiver) (s : PsBuffer) (h : Holds [] s)
    → IsCarried c
    → begins_with c.payload pack_code ≡ some true
    → (room : 0 + length c.payload < 4194304)
    → process_rtp_packet (packet c) r s ≡ some (note_sequence c.seq r, more [] c.payload s h room)
unfolding process_rtp_packet callback_rtp
first-packet c r s h ok starts room = rw (
  assemble-packet c s ok (omega (arith, h.len)),
  put_in-filled [] c.payload s h room true starts,
  h.len,
)

-- A receiver whose buffer is empty takes in a stream of frames, each a pack header and units cut
-- into packets anywhere, and its listener hears exactly the video of each frame that another one
-- follows, in their order and with the marker of the packet that ended it. The packets hold the
-- RTP header of 12 bytes and some payload, only the first one of a frame starts with the pack code,
-- a frame has some video, less than `h264Buffer` takes, and fits in `psBuf` together with the first
-- packet of the next frame, which is not longer than it.
pub receive-frames :
    (f : PsFrame) (fs : List PsFrame) (r : Receiver) (s : PsBuffer)
    → Holds [] s
    → IsPsFrame f
    → Fits f fs
    → r.has_env ≡ true
    → (t : Receiver) × (u : PsBuffer) × (on_poll_thread_step (flow (f ∷ fs)) r s ≡ some (t, u))
      × (t.calls ≡ heard f fs ++ r.calls)
unfolding on_poll_thread_step note_sequence
receive-frames f fs r s h is_f fits env =
    let (ok, starts, q, whole, h13, h8, some_video, fit) = is_f in
    let room : 0 + length f.first.payload < 4194304 = omega (
      arith,
      frame-Fits f fs fits,
      ap length whole,
      length-append f.first.payload (payloads f.others),
    ) in
    let (t, u, e, calls) =
      hear-frames f fs (note_sequence f.first.seq r) (more [] f.first.payload s h room)
        (Holds-more [] f.first.payload s h room) is_f fits env in
    (t, u, rw (first-packet f.first r s h ok starts room) e, calls)
