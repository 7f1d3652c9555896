-- ===== src/Rtmp/Util/File/Plays.antt =====
-- `pushFlvFile` on a well-formed file, with a library that does not fail: one round for each tag.
use jrtplib4android.Prelude.{
  ℕ, ◌+◌, ◌-◌, ◌<◌, ◌≡◌, refl, sym, ap, ◌∙◌, none, some, List, [], ◌∷◌, ◌++◌, arith, length, take,
  drop, length-append, length-drop, ◌==◌, ◌||◌, if◌then◌else◌, Bool-cases, inl, inr, get_elem?,
}
use jrtplib4android.Prelude.Bytes.{drop-drop}
use jrtplib4android.Rtmp.Util.Flv.Tag.{store-byte}
use jrtplib4android.Rtmp.Util.State.{Call, send_packet}
use jrtplib4android.Rtmp.Util.File.{Loop, read, pass, peek_u8, look_ahead}
use jrtplib4android.Rtmp.Util.File.Tags.{Tag, IsTag, bytes, store-over, read-ahead}

-- What a packet carries: its kind, its time and its data.
abbrev pub Media : Type 0
Media = ℕ × ℕ × List ℕ

-- What calls have sent, the oldest first, before `later`.
abbrev pub played : List Call → List Media → List Media
played [] later = later
played (send_packet p ∷ calls) later =
    played calls ((p.packet_type, p.time_stamp, take p.body_size p.body) ∷ later)
played (c ∷ calls) later = played calls later

-- The audio and video tags of a file.
abbrev pub media : List Tag → List Media
media [] = []
media (t ∷ ts) =
    if t.kind == 0x08 || t.kind == 0x09 then (t.kind, t.time, t.body) ∷ media ts else media ts

-- The look behind the last tag fails; behind any other it leaves a byte in `type`.
pub look_ahead-end :
    (l : Loop) (size : List ℕ)
    → drop l.at l.content ≡ size ++ []
    → length size ≡ 4
    → look_ahead l ≡ none
unfolding look_ahead pass peek_u8 read
look_ahead-end l size ahead four =
    let total : length l.content - l.at ≡ 4 =
      omega
        (arith, sym (length-drop l.at l.content), ap length ahead, length-append size [], four) in
    ground arith

-- The first byte of a tag's data, or of its size.
first_byte :
    (t : Tag) → IsTag t → (b : ℕ) × (more : List ℕ) × (t.body ++ t.size ≡ b ∷ more) × (b < 256)
first_byte t is_tag = by_shape (t.body ++ t.size) refl
  where
    by_shape :
        (xs : List ℕ)
        → t.body ++ t.size ≡ xs
        → (b : ℕ) × (more : List ℕ) × (t.body ++ t.size ≡ b ∷ more) × (b < 256)
    by_shape [] e = absurd (omega (arith, ap length e, length-append t.body t.size, is_tag.four))
    by_shape (b ∷ more) e = (b, more, e, is_tag.are_bytes 0 b (ap (λ xs. get_elem? xs 0) e))

peek-ahead :
    (l : Loop) (b : ℕ) (rest : List ℕ)
    → drop l.at l.content ≡ b ∷ rest
    → l.type < 256
    → peek_u8 l ≡ some (record l { type = b })
unfolding peek_u8
peek-ahead l b rest ahead small = rw (
  (read-ahead 1 l (b ∷ []) rest ahead refl (omega arith)).0,
  store-over l.type (b ∷ []) small ∙ store-byte b,
)

pub look_ahead-next :
    (l : Loop) (size : List ℕ) (t : Tag) (rest : List ℕ)
    → drop l.at l.content ≡ size ++ (bytes t ++ rest)
    → length size ≡ 4
    → l.type < 256
    → IsTag t
    → (x : ℕ) × (x < 256)
      × (look_ahead l ≡ some (record l { at = l.at + 4; type = x }))
      × (drop (l.at + 4) l.content ≡ bytes t ++ rest)
unfolding look_ahead pass
look_ahead-next l size t rest ahead four small is_tag =
    let (skip, ahead1) = read-ahead 4 l size (bytes t ++ rest) ahead four (omega arith) in
    let l1 : Loop = record l { at = l.at + 4 } in
    let l2 : Loop = record l1 { type = t.kind } in
    let seen : peek_u8 l1 ≡ some l2 =
      peek-ahead l1 t.kind (drop 1 (bytes t ++ rest)) ahead1 small in
    elim (Bool-cases (t.kind == 0x09)) [
      | inr other ↦ (t.kind, is_tag.is_byte, rw (skip, seen, other), ahead1)
      | inl video ↦
          let (b, more, shape, byte) = first_byte t is_tag in
          let l3 : Loop = record l2 { at = l.at + 4 + 11 } in
          let far : drop (l.at + 4 + 11) l.content ≡ b ∷ (more ++ rest) =
            sym (drop-drop 11 (l.at + 4) l.content)
            ∙ (ap (drop 11) ahead1 ∙ ap (λ xs. xs ++ rest) shape) in
          (
            b,
            byte,
            rw (skip, seen, video, peek-ahead l3 b (more ++ rest) far is_tag.is_byte),
            ahead1,
          )
    ]
