-- ===== src/Rtmp/Util/File/Tags.antt =====
-- A well-formed FLV file as tags, and how the loop of `pushFlvFile` reads one tag's header.
use jrtplib4android.Prelude.{
  ℕ, ◌+◌, ◌-◌, ◌*◌, ◌/◌, ◌%◌, ◌^◌, ◌≤◌, ◌<◌, ◌≡◌, refl, sym, ap, ◌∙◌, some, List, [], ◌∷◌, ◌++◌,
  arith, length, drop, get_elem?, length-append, length-drop, leb, true, subst,
}
use jrtplib4android.Prelude.Bytes.{take-length, drop-drop, drop-length}
use jrtplib4android.Rtmp.Wire.{hton24, hton_time, store, little_endian}
use native.Mathlib.Nat.{div-eq_of_lt, zero-div}
use jrtplib4android.Rtmp.Util.Flv.Tag.{tag_header, store-byte, store-length, store-time}
use jrtplib4android.Rtmp.Util.File.{Loop, read, read_u8, read_u24, read_time, pass, read_tag}

pub record Tag : Type 0 where
  pub kind : ℕ
  pub time : ℕ
  pub body : List ℕ
  pub size : List ℕ

abbrev pub IsBytes : List ℕ → Type 0
IsBytes xs = (i b : ℕ) → get_elem? xs i ≡ some b → b < 256

-- A tag whose header's fields hold its values, and whose body has room in the packet.
pub record IsTag (t : Tag) : Type 0 where
  pub is_byte : t.kind < 256
  pub in_time : t.time < 2 ^ 32
  pub room : length t.body ≤ 1024 * 64
  pub four : length t.size ≡ 4
  pub are_bytes : IsBytes (t.body ++ t.size)

-- The bytes of a tag, and of tags one behind the other.
abbrev pub bytes : Tag → List ℕ
bytes t = tag_header t.kind (length t.body) t.time ++ (t.body ++ t.size)

abbrev pub file : List Tag → List ℕ
file [] = []
file (t ∷ ts) = bytes t ++ file ts

pub data AreTags : List Tag → Type 0 where
  none_left : AreTags []
  one_more : {t : Tag} {ts : List Tag} → IsTag t → AreTags ts → AreTags (t ∷ ts)

-- The variables are small enough that reading replaces them.
pub record Small (l : Loop) : Type 0 where
  pub type_byte : l.type < 256
  pub length_24 : l.data_length < 2 ^ 24
  pub time_32 : l.time_stamp < 2 ^ 32

-- A variable is replaced when it has no byte above those that are read.
pub store-over : (old : ℕ) (bs : List ℕ) → old < 2 ^ (8 * length bs) → store old bs ≡ store 0 bs
unfolding store
store-over old bs h =
    ap (λ q. q * 2 ^ (8 * length bs) + little_endian bs)
      (div-eq_of_lt h ∙ sym (zero-div (2 ^ (8 * length bs))))

-- Bytes that stand at the position are read.
pub read-ahead :
    (n : ℕ) (l : Loop) (ys zs : List ℕ)
    → drop l.at l.content ≡ ys ++ zs
    → length ys ≡ n
    → 0 < n
    → (read n l ≡ some (ys, record l { at = l.at + n })) × (drop (l.at + n) l.content ≡ zs)
unfolding read
read-ahead n l ys zs ahead size some_bytes =
    let total : length l.content - l.at ≡ n + length zs =
      omega (arith, sym (length-drop l.at l.content), ap length ahead, length-append ys zs, size) in
    let fits : leb (l.at + n) (length l.content) ≡ true = ground arith in
    (
      rw (fits, ahead, sym size)
          (ap (λ t. some (t, record l { at = l.at + length ys })) (take-length ys zs)),
      sym (drop-drop n l.at l.content) ∙ (ap (drop n) ahead ∙ drop-length ys zs n (sym size)),
    )

module _ (l : Loop) (t : Tag) (rest : List ℕ) (small : Small l) (is_tag : IsTag t)
    (ahead : drop l.at l.content ≡ bytes t ++ rest) where
  abbrev n : ℕ
  n = length t.body

  abbrev low_24 : List ℕ
  low_24 = n / 65536 ∷ n / 256 % 256 ∷ n % 256 ∷ []

  abbrev times : List ℕ
  times = t.time / 65536 % 256 ∷ t.time / 256 % 256 ∷ t.time % 256 ∷ t.time / 2 ^ 24 ∷ []

  -- A tag's header is read into the variables.
  pub read_tag-header :
      (read_tag l
        ≡ some (record l {
          at = l.at + 11;
          type = t.kind;
          data_length = length t.body;
          time_stamp = t.time;
        }))
      × (drop (l.at + 11) l.content ≡ (t.body ++ t.size) ++ rest)
  unfolding read_tag read_u8 read_u24 read_time pass
  read_tag-header =
      let behind : List ℕ = (t.body ++ t.size) ++ rest in
      let ids : List ℕ = 0 ∷ 0 ∷ 0 ∷ [] in
      let (one, ahead1) =
        read-ahead 1 l (t.kind ∷ []) (low_24 ++ (times ++ (ids ++ behind))) ahead refl
          (omega arith) in
      let l1 : Loop = record l { at = l.at + 1; type = t.kind } in
      let (two, ahead2) =
        read-ahead 3 l1 low_24 (times ++ (ids ++ behind)) ahead1 refl (omega arith) in
      let l2 : Loop = record l1 { at = l.at + 1 + 3; data_length = n } in
      let (three, ahead3) = read-ahead 4 l2 times (ids ++ behind) ahead2 refl (omega arith) in
      let l3 : Loop = record l2 { at = l.at + 1 + 3 + 4; time_stamp = t.time } in
      let (four, ahead4) = read-ahead 3 l3 ids behind ahead3 refl (omega arith) in
      let s1 : store l.type (t.kind ∷ []) ≡ t.kind =
        store-over l.type (t.kind ∷ []) small.type_byte ∙ store-byte t.kind in
      let s2 : hton24 (store l.data_length low_24) ≡ n =
        ap hton24 (store-over l.data_length low_24 small.length_24)
        ∙ store-length n (omega (arith, is_tag.room)) in
      let s3 : hton_time (store l.time_stamp times) ≡ t.time =
        ap hton_time (store-over l.time_stamp times small.time_32)
        ∙ store-time t.time is_tag.in_time in
      let e : l.at + 1 + 3 + 4 + 3 ≡ l.at + 11 = omega arith in
      (
        rw (one, s1, two, s2, three, s3, four) (ap (λ q. some (record l3 { at = q })) e),
        subst (λ q. drop q l.content ≡ behind) e ahead4,
      )
