-- ===== src/Rtp/Receiver/PStream/Code.antt =====
-- Program streams as a sender writes them, and that `GetH246FromPs` gets their video back.
use jrtplib4android.Prelude.{
  ℕ, suc, ◌+◌, ◌/◌, ◌%◌, ◌≤◌, ◌<◌, ◌≡◌, refl, sym, ap, true, false, some, List, [], ◌∷◌, ◌++◌, ltb,
  ◌==◌, arith, length, length-append, append_assoc, append-nil,
}
use jrtplib4android.Prelude.Bytes.{slice, slice-middle, get_elem?-append}
use jrtplib4android.Prelude.Int.{pos, sub_ℕ}
use jrtplib4android.Rtp.Receiver.PStream.{left_after, pack_length, pes, add_payload}

-- A unit of the stream: a system header, a stream map, or a PES packet of video with its two bytes of
-- flags, its header data (stuffing) and its payload.
pub data Section : Type 0 where
  system : List ℕ → Section
  stream_map : List ℕ → Section
  video : ℕ → ℕ → List ℕ → List ℕ → Section

abbrev pub section_id : Section → ℕ
section_id (system b) = 0xBB
section_id (stream_map b) = 0xBC
section_id (video x y s p) = 0xE0

-- What stands behind the length field.
abbrev pub body : Section → List ℕ
body (system b) = b
body (stream_map b) = b
body (video x y stuffing payload) = x ∷ y ∷ length stuffing ∷ (stuffing ++ payload)

-- The start code and the length field, most significant byte first.
abbrev pub prefix : Section → List ℕ
prefix u = 0 ∷ 0 ∷ 1 ∷ section_id u ∷ length (body u) / 256 ∷ length (body u) % 256 ∷ []

abbrev pub bytes : Section → List ℕ
bytes u = prefix u ++ body u

abbrev pub encode : List Section → List ℕ
encode [] = []
encode (u ∷ us) = bytes u ++ encode us

-- The video in a unit, and in a list of them.
abbrev pub video_of : Section → List ℕ
video_of (video x y stuffing payload) = payload
video_of _ = []

abbrev pub videos : List Section → List ℕ
videos [] = []
videos (u ∷ us) = video_of u ++ videos us

pub pack_length-read :
    (before after : List ℕ) (u : Section)
    → pack_length (before ++ (bytes u ++ after)) (length before) ≡ some (length (body u))
unfolding pack_length
pack_length-read before after u =
    rw
      (
        get_elem?-append before (bytes u ++ after) (length before + 5) 5 refl,
        get_elem?-append before (bytes u ++ after) (length before + 4) 4 refl,
      )
      (ap some (omega arith))

pub code-read :
    (before after : List ℕ) (u : Section)
    → slice (before ++ (bytes u ++ after)) (length before) 4 ≡ some (0 ∷ 0 ∷ 1 ∷ section_id u ∷ [])
code-read before after u =
    slice-middle before (0 ∷ 0 ∷ 1 ∷ section_id u ∷ [])
      (length (body u) / 256 ∷ length (body u) % 256 ∷ (body u ++ after)) (length before) 4 refl
      refl

pub pes-read :
    (before after : List ℕ) (x y : ℕ) (stuffing payload : List ℕ) (left : ℕ)
    → let u = video x y stuffing payload in
      length (bytes u) ≤ left
      → pes (before ++ (bytes u ++ after)) (length before) left
        ≡ some (record {
          payload = length before + 9 + length stuffing;
          payload_len = pos (length payload);
          next = left_after (length before + 6 + length (body u)) left (length (body u) + 6);
        })
unfolding pes
pes-read before after x y stuffing payload left fits =
    rw
      (
        enough,
        pack_length-read before after u,
        get_elem?-append before (bytes u ++ after) (length before + 8) 8 refl,
      )
      (ap
        (λ n. some (record {
          payload = length before + 9 + length stuffing;
          payload_len = n;
          next = left_after (length before + 6 + length (body u)) left (length (body u) + 6);
        }))
        len)
  where
    u : Section
    u = video x y stuffing payload

    enough : ltb left 9 ≡ false
    enough = ground arith

    len : sub_ℕ (length (body u)) (2 + 1 + length stuffing) ≡ pos (length payload)
    len = ground (arith, length-append stuffing payload)

pub add_payload-read :
    (before after out : List ℕ) (x y : ℕ) (stuffing payload : List ℕ)
    → length payload + length out < 2097152
    → add_payload
        (before ++ (bytes (video x y stuffing payload) ++ after))
        out
        (length before + 9 + length stuffing)
        (pos (length payload))
      ≡ some (out ++ payload)
unfolding add_payload
add_payload-read before after out x y stuffing [] room = ap some (sym (append-nil out))
add_payload-read before after out x y stuffing (p ∷ payload) room = rw (more, fits, found)
  where
    u : Section
    u = video x y stuffing (p ∷ payload)

    head : List ℕ
    head = prefix u ++ (x ∷ y ∷ length stuffing ∷ stuffing)

    more : (suc (length payload) == 0) ≡ false
    more = ground arith

    fits : ltb (suc (length payload) + length out) 2097152 ≡ true
    fits = ground arith

    shape : before ++ (bytes u ++ after) ≡ (before ++ head) ++ ((p ∷ payload) ++ after)
    shape = simp append_assoc

    found :
        slice
          (before ++ (bytes u ++ after))
          (length before + 9 + length stuffing)
          (suc (length payload))
        ≡ some (p ∷ payload)
    found = rw shape (
        slice-middle (before ++ head) (p ∷ payload) after _ _
          (omega (arith, length-append before head)) refl)
