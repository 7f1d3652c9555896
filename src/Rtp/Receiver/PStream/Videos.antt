-- ===== src/Rtp/Receiver/PStream/Videos.antt =====
-- `GetH246FromPs` gets back the video of a stream that a sender has written.
use jrtplib4android.Prelude.{
  ℕ, zero, suc, ◌+◌, ◌≤◌, ◌<◌, ◌≡◌, refl, sym, ap, ◌∙◌, false, List, [], ◌∷◌, ◌++◌, ltb, arith,
  length, length-append, append_assoc, append-nil,
}
use jrtplib4android.Rtp.Receiver.PStream.{
  left_after, program_stream_map, program_sh_head, stop, go_on, follow, demux_round, frame,
  demux_loop, get_h264_from_ps,
}
use jrtplib4android.Rtp.Receiver.PStream.Code.{
  Section, system, stream_map, video, body, bytes, encode, video_of, videos, pack_length-read,
  code-read, pes-read, add_payload-read,
}
use jrtplib4android.Rtp.Receiver.PStream.Header.{
  pack_header, header-read, short-header, behind-header, follow_pes-some, loop-stop, not-ltb,
}

behind_assoc :
    (before b out : List ℕ) (left : ℕ)
    → follow (left_after (length before + (length b + 6)) left (length b + 6)) out
      ≡ follow (left_after (length before + 6 + length b) left (length b + 6)) out
behind_assoc before b out left =
    let e : length before + (length b + 6) ≡ length before + 6 + length b = omega arith in
    ap (λ n. follow (left_after n left (length b + 6)) out) e

-- A round at a unit whose bytes are all there puts its video out, and goes on behind it.
round-section :
    (before after out : List ℕ) (u : Section) (left : ℕ)
    → length (bytes u) ≤ left
    → length (video_of u) + length out < 2097152
    → demux_round (before ++ (bytes u ++ after)) (length before) left out
      ≡ follow
          (left_after (length before + 6 + length (body u)) left (length (body u) + 6))
          (out ++ video_of u)
unfolding demux_round program_sh_head program_stream_map
round-section before after out (system b) left fits room =
    rw
      (
        not-ltb left 4 (omega arith),
        code-read before after (system b),
        not-ltb left 6 (omega arith),
        pack_length-read before after (system b),
        append-nil out,
      )
      (behind_assoc before b out left)
round-section before after out (stream_map b) left fits room =
    rw
      (
        not-ltb left 4 (omega arith),
        code-read before after (stream_map b),
        not-ltb left 6 (omega arith),
        pack_length-read before after (stream_map b),
        append-nil out,
      )
      (behind_assoc before b out left)
round-section before after out (video x y stuffing payload) left fits room =
    rw
      (
        not-ltb left 4 (omega arith),
        code-read before after (video x y stuffing payload),
        pes-read before after x y stuffing payload left fits,
      )
      (follow_pes-some _ out _ _ (add_payload-read before after out x y stuffing payload room))

loop-go_on :
    (fuel : ℕ) (mem out kept : List ℕ) (next left n l : ℕ)
    → demux_round mem next left out ≡ go_on n l kept
    → demux_loop (suc fuel) mem next left out ≡ demux_loop fuel mem n l kept
unfolding demux_loop
loop-go_on fuel mem out kept next left n l e = rw (e, demux_loop)

round-empty : (mem out : List ℕ) (next : ℕ) → demux_round mem next 0 out ≡ stop out
unfolding demux_round
round-empty mem out next = refl

-- The round at the first unit of several, in the terms of the loop over them.
module _ (u : Section) (us : List Section) (before after out : List ℕ)
    (room : length (video_of u) + length out < 2097152) where
  abbrev stream : List ℕ
  stream = before ++ (encode (u ∷ us) ++ after)

  stream-eq : stream ≡ before ++ (bytes u ++ (encode us ++ after))
  stream-eq = ap (λ t. before ++ t) (append_assoc (bytes u) (encode us) after)

  round-stream :
      demux_round stream (length before) (length (encode (u ∷ us))) out
      ≡ follow
          (left_after
            (length before + 6 + length (body u))
            (length (encode (u ∷ us)))
            (length (body u) + 6))
          (out ++ video_of u)
  round-stream = rw stream-eq (
      round-section before (encode us ++ after) out u (length (encode (u ∷ us)))
        (omega (arith, length-append (bytes u) (encode us))) room)

  round-last :
      length (encode us) ≡ 0
      → demux_round stream (length before) (length (encode (u ∷ us))) out ≡ stop (out ++ video_of u)
  unfolding follow
  round-last e =
      let none_left : ltb (length (body u) + 6) (length (encode (u ∷ us))) ≡ false =
        not-ltb _ _ (omega (arith, length-append (body u) (encode us))) in
      round-stream ∙ ground arith

  round-next :
      0 < length (encode us)
      → demux_round stream (length before) (length (encode (u ∷ us))) out
        ≡ go_on (length (before ++ bytes u)) (length (encode us)) (out ++ video_of u)
  unfolding follow
  round-next h =
      round-stream
      ∙ ground (arith, length-append before (bytes u), length-append (body u) (encode us))

demux_loop-videos :
    (us : List Section) (fuel : ℕ) (before after out : List ℕ)
    → length (encode us) < fuel
    → length (videos us) + length out < 2097152
    → demux_loop fuel (before ++ (encode us ++ after)) (length before) (length (encode us)) out
      ≡ frame (out ++ videos us)
demux_loop-videos us zero before after out h room = absurd (omega arith)
demux_loop-videos [] (suc fuel) before after out h room =
    loop-stop fuel _ out out (length before) 0 (round-empty _ out (length before))
    ∙ ap frame (sym (append-nil out))
demux_loop-videos (u ∷ []) (suc fuel) before after out h room =
    loop-stop fuel (stream u [] before after out fits) out (out ++ video_of u) (length before)
      (length (encode (u ∷ []))) (round-last u [] before after out fits refl)
    ∙ ap (λ t. frame (out ++ t)) (sym (append-nil (video_of u)))
  where
    fits : length (video_of u) + length out < 2097152
    fits = omega (arith, length-append (video_of u) [])
demux_loop-videos (u ∷ v ∷ us) (suc fuel) before after out h room =
    loop-go_on fuel (stream u (v ∷ us) before after out fits) out (out ++ video_of u)
      (length before) (length (encode (u ∷ v ∷ us))) (length (before ++ bytes u))
      (length (encode (v ∷ us))) (round-next u (v ∷ us) before after out fits (omega arith))
    ∙ rw shape (
        demux_loop-videos (v ∷ us) fuel (before ++ bytes u) after (out ++ video_of u)
          (omega (arith, length-append (bytes u) (encode (v ∷ us))))
          (omega
            (arith, length-append out (video_of u), length-append (video_of u) (videos (v ∷ us))))
        ∙ ap frame (append_assoc out (video_of u) (videos (v ∷ us))))
  where
    fits : length (video_of u) + length out < 2097152
    fits = omega (arith, length-append (video_of u) (videos (v ∷ us)))

    shape :
        before ++ ((bytes u ++ encode (v ∷ us)) ++ after)
        ≡ (before ++ bytes u) ++ (encode (v ∷ us) ++ after)
    shape = simp append_assoc

-- `GetH246FromPs` gets exactly the video payloads, in their order, from a frame that consists of a
-- pack header and any units, whatever stands in the memory behind it, if together they stay below
-- the size of `h264Buffer`.
pub get_h264-encode :
    (head : List ℕ) (flags : ℕ) (stuffing : List ℕ) (us : List Section) (after : List ℕ)
    → length head ≡ 13
    → length stuffing < 8
    → length (videos us) < 2097152
    → let stream = pack_header head flags stuffing ++ encode us in
      get_h264_from_ps (stream ++ after) (length stream) ≡ frame (videos us)
get_h264-encode head flags stuffing [] after h13 h8 room =
    short-header _ _ (header-read head flags stuffing (encode []) after h13 h8)
get_h264-encode head flags stuffing (u ∷ us) after h13 h8 room =
    behind-header _ _ (length header) (length (encode (u ∷ us)))
      (header-read head flags stuffing (encode (u ∷ us)) after h13 h8 ∙ rw some_units)
    ∙ rw (append_assoc header (encode (u ∷ us)) after) (
        demux_loop-videos (u ∷ us) _ header after []
          (omega (arith, length-append header (encode (u ∷ us)))) (omega arith))
  where
    header : List ℕ
    header = pack_header head flags stuffing

    some_units : ltb (length (encode (u ∷ us))) 4 ≡ false
    some_units = not-ltb _ _ (omega arith)
