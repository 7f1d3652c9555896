-- ===== src/Rtp/Receiver/PStream/Header.antt =====
-- The pack header at the front of a frame, and what `GetH246FromPs` does behind it.
use jrtplib4android.Prelude.{
  ℕ, suc, ◌+◌, ◌*◌, ◌≤◌, ◌<◌, ◌≡◌, false, none, some, List, [], ◌∷◌, ◌++◌, ltb, if◌then◌else◌,
  arith, length, length-append, append_assoc,
}
use jrtplib4android.Prelude.Bits.{and_low}
use jrtplib4android.Prelude.Bytes.{get_elem?-append}
use jrtplib4android.Rtp.Receiver.PStream.{
  follow_pes, demux_round, add_payload, follow, PesResult, stop, program_stream_pack_header, frame,
  demux_loop, get_h264_from_ps,
}

-- The pack header: 13 bytes, the first of them the pack start code, then the number of stuffing bytes
-- in the low three bits of a byte, and the stuffing.
abbrev pub pack_header : List ℕ → ℕ → List ℕ → List ℕ
pack_header head flags stuffing = head ++ ((flags * 8 + length stuffing) ∷ stuffing)

pub header-read :
    (head : List ℕ) (flags : ℕ) (stuffing : List ℕ) (units : List ℕ) (after : List ℕ)
    → length head ≡ 13
    → length stuffing < 8
    → let header = pack_header head flags stuffing in
      program_stream_pack_header ((header ++ units) ++ after) (length (header ++ units))
      ≡ some (if ltb (length (units)) 4 then none else some (length header, length (units)))
unfolding program_stream_pack_header
header-read head flags stuffing units after h13 h8 =
    rw
      (
        shape,
        get_elem?-append head rest 13 0 (omega arith),
        and_low 3 (flags * 8 + length stuffing),
      )
      (ground (
        arith,
        length-append (head ++ (flags * 8 + length stuffing) ∷ stuffing) (units),
        length-append head ((flags * 8 + length stuffing) ∷ stuffing),
      ))
  where
    rest : List ℕ
    rest = (flags * 8 + length stuffing) ∷ (stuffing ++ (units ++ after))

    shape : (pack_header head flags stuffing ++ units) ++ after ≡ head ++ rest
    shape = simp append_assoc

pub short-header :
    (mem : List ℕ) (size : ℕ)
    → program_stream_pack_header mem size ≡ some none
    → get_h264_from_ps mem size ≡ frame []
unfolding get_h264_from_ps
short-header mem size e = rw (e, get_h264_from_ps)

pub behind-header :
    (mem : List ℕ) (size next left : ℕ)
    → program_stream_pack_header mem size ≡ some (some (next, left))
    → get_h264_from_ps mem size ≡ demux_loop (suc size) mem next left []
unfolding get_h264_from_ps
behind-header mem size next left e = rw (e, get_h264_from_ps)

pub not-ltb : (a b : ℕ) → b ≤ a → ltb a b ≡ false
not-ltb a b h = ground arith

pub follow_pes-some :
    (mem out kept : List ℕ) (r : PesResult)
    → add_payload mem out r.payload r.payload_len ≡ some kept
    → follow_pes mem out (some r) ≡ follow r.next kept
unfolding follow_pes
follow_pes-some mem out kept r e = rw (e, follow_pes)

pub loop-stop :
    (fuel : ℕ) (mem out kept : List ℕ) (next left : ℕ)
    → demux_round mem next left out ≡ stop kept
    → demux_loop (suc fuel) mem next left out ≡ frame kept
unfolding demux_loop
loop-stop fuel mem out kept next left e = rw (e, demux_loop)
