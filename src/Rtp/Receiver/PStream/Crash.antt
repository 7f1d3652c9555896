-- ===== src/Rtp/Receiver/PStream/Crash.antt =====
-- Frames on which `GetH246FromPs` makes an access that is not allowed.
use jrtplib4android.Prelude.{
  none, ℕ, suc, ◌+◌, ◌-◌, ◌*◌, ◌≤◌, ◌<◌, ◌≡◌, refl, sym, ap, ◌∙◌, true, false, some, List, [], ◌∷◌,
  ◌++◌, ltb, leb, ◌==◌, arith, length, take, drop, take-append-drop, length-take, length-append,
  append_assoc,
}
use jrtplib4android.Prelude.Bytes.{take-past, slice, slice-middle, get_elem?-append}
use jrtplib4android.Prelude.Int.{pos}
use jrtplib4android.Rtp.Receiver.PStream.{
  pack_length, pes, add_payload, stop, crash, follow, demux_round, frame, fault, demux_loop,
  get_h264_from_ps,
}
use jrtplib4android.Rtp.Receiver.PStream.Header.{
  pack_header, header-read, behind-header, follow_pes-some, loop-stop, not-ltb,
}

loop-crash :
    (fuel : ℕ) (mem out : List ℕ) (next left : ℕ)
    → demux_round mem next left out ≡ crash
    → demux_loop (suc fuel) mem next left out ≡ fault
unfolding demux_loop
loop-crash fuel mem out next left e = rw (e, demux_loop)

round-crash :
    (before : List ℕ) (hi lo x y size : ℕ) (rest after : List ℕ)
    → hi * 256 + lo < 3 + size
    → let unit = 0 ∷ 0 ∷ 1 ∷ 0xE0 ∷ hi ∷ lo ∷ x ∷ y ∷ size ∷ rest in
      demux_round (before ++ (unit ++ after)) (length before) (length unit) [] ≡ crash
unfolding demux_round pes pack_length add_payload
round-crash before hi lo x y size rest after short =
    rw
      (
        not-ltb (length unit) 4 (omega arith),
        slice-middle before (0 ∷ 0 ∷ 1 ∷ 0xE0 ∷ []) behind (length before) 4 refl refl,
        not-ltb (length unit) 9 (omega arith),
        get_elem?-append before (unit ++ after) (length before + 5) 5 refl,
        get_elem?-append before (unit ++ after) (length before + 4) 4 refl,
        get_elem?-append before (unit ++ after) (length before + 8) 8 refl,
      )
      (rw negative)
  where
    behind : List ℕ
    behind = hi ∷ lo ∷ x ∷ y ∷ size ∷ (rest ++ after)

    unit : List ℕ
    unit = 0 ∷ 0 ∷ 1 ∷ 0xE0 ∷ hi ∷ lo ∷ x ∷ y ∷ size ∷ rest

    negative : leb (3 + size) (lo + hi * 256) ≡ false
    negative = ground arith

-- A PES packet of video whose length field is smaller than what its header data takes, three bytes
-- and the stuffing, makes the code copy a negative number of bytes from a NULL pointer: whatever
-- else the frame holds, one such packet behind the pack header is a fault.
pub get_h264-short_pes :
    (head : List ℕ) (flags : ℕ) (stuffing : List ℕ) (hi lo x y size : ℕ) (rest after : List ℕ)
    → length head ≡ 13
    → length stuffing < 8
    → hi * 256 + lo < 3 + size
    → let stream =
        pack_header head flags stuffing ++ (0 ∷ 0 ∷ 1 ∷ 0xE0 ∷ hi ∷ lo ∷ x ∷ y ∷ size ∷ rest) in
      get_h264_from_ps (stream ++ after) (length stream) ≡ fault
get_h264-short_pes head flags stuffing hi lo x y size rest after h13 h8 short =
    behind-header _ _ (length header) (length unit) (
      header-read head flags stuffing unit after h13 h8
      ∙ rw (not-ltb (length unit) 4 (omega arith)))
    ∙ rw (append_assoc header unit after) (
        loop-crash _ (header ++ (unit ++ after)) [] (length header) (length unit)
          (round-crash header hi lo x y size rest after short))
  where
    header : List ℕ
    header = pack_header head flags stuffing

    unit : List ℕ
    unit = 0 ∷ 0 ∷ 1 ∷ 0xE0 ∷ hi ∷ lo ∷ x ∷ y ∷ size ∷ rest

-- A video packet that claims more than is left of the frame.
abbrev pub cut_video : ℕ → ℕ → ℕ → ℕ → List ℕ → List ℕ
cut_video hi lo x y rest = 0 ∷ 0 ∷ 1 ∷ 0xE0 ∷ hi ∷ lo ∷ x ∷ y ∷ 0 ∷ rest

-- The copy from the memory behind the nine bytes of the packet's header.
copy-behind :
    (before unit behind : List ℕ) (n : ℕ)
    → length unit ≡ 9
    → 0 < n
    → n ≤ length behind
    → n < 2097152
    → add_payload (before ++ (unit ++ behind)) [] (length before + 9 + 0) (pos n)
      ≡ some (take n behind)
unfolding add_payload
copy-behind before unit behind n nine some_bytes there small = rw (not_zero, fits, found)
  where
    not_zero : (n == 0) ≡ false
    not_zero = ground arith

    fits : ltb (n + 0) 2097152 ≡ true
    fits = ground arith

    shape : before ++ (unit ++ behind) ≡ (before ++ unit) ++ (take n behind ++ drop n behind)
    shape = rw (take-append-drop n behind) (sym (append_assoc before unit behind))

    found : slice (before ++ (unit ++ behind)) (length before + 9 + 0) n ≡ some (take n behind)
    found = rw shape (
        slice-middle (before ++ unit) (take n behind) (drop n behind) _ n
          (omega (arith, length-append before unit)) (omega (arith, length-take n behind)))

round-stale :
    (before : List ℕ) (hi lo x y n : ℕ) (rest after : List ℕ)
    → hi * 256 + lo ≡ 3 + n
    → length rest < n
    → n ≤ length (rest ++ after)
    → n < 2097152
    → let unit = cut_video hi lo x y rest in
      demux_round (before ++ (unit ++ after)) (length before) (length unit) []
      ≡ stop (take n (rest ++ after))
unfolding demux_round pes pack_length add_payload follow
round-stale before hi lo x y n rest after claim more there small =
    rw
      (
        not-ltb (length unit) 4 (omega arith),
        slice-middle before (0 ∷ 0 ∷ 1 ∷ 0xE0 ∷ []) behind (length before) 4 refl refl,
        not-ltb (length unit) 9 (omega arith),
        get_elem?-append before (unit ++ after) (length before + 5) 5 refl,
        get_elem?-append before (unit ++ after) (length before + 4) 4 refl,
        get_elem?-append before (unit ++ after) (length before + 8) 8 refl,
      )
      (rw (size, enough, three_less, ends)
        (follow_pes-some (before ++ (unit ++ after)) [] (take n (rest ++ after))
          (record { payload = length before + 9 + 0; payload_len = pos n; next = none })
          (copy-behind before (cut_video hi lo x y []) (rest ++ after) n refl (omega arith) there
            small)))
  where
    behind : List ℕ
    behind = hi ∷ lo ∷ x ∷ y ∷ 0 ∷ (rest ++ after)

    unit : List ℕ
    unit = cut_video hi lo x y rest

    size : lo + hi * 256 ≡ 3 + n
    size = omega arith

    enough : leb 3 (3 + n) ≡ true
    enough = ground arith

    three_less : 3 + n - 3 ≡ n
    three_less = omega arith

    ends : ltb (3 + n + 6) (length unit) ≡ false
    ends = not-ltb _ _ (omega arith)

-- A single video packet that claims more bytes than the frame holds is answered with bytes from
-- behind the frame, left over in the buffer from before.
pub get_h264-stale :
    (head : List ℕ) (flags : ℕ) (stuffing : List ℕ) (hi lo x y n : ℕ) (rest after : List ℕ)
    → length head ≡ 13
    → length stuffing < 8
    → hi * 256 + lo ≡ 3 + n
    → length rest < n
    → n ≤ length rest + length after
    → n < 2097152
    → let stream = pack_header head flags stuffing ++ cut_video hi lo x y rest in
      get_h264_from_ps (stream ++ after) (length stream)
      ≡ frame (rest ++ take (n - length rest) after)
get_h264-stale head flags stuffing hi lo x y n rest after h13 h8 claim more there small =
    behind-header _ _ (length header) (length unit) (
      header-read head flags stuffing unit after h13 h8
      ∙ rw (not-ltb (length unit) 4 (omega arith)))
    ∙ rw (append_assoc header unit after) (
        loop-stop _ (header ++ (unit ++ after)) [] (take n (rest ++ after)) (length header)
          (length unit)
          (round-stale header hi lo x y n rest after claim more
            (omega (arith, length-append rest after)) small)
        ∙ ap frame (take-past n rest after (omega arith)))
  where
    header : List ℕ
    header = pack_header head flags stuffing

    unit : List ℕ
    unit = cut_video hi lo x y rest
