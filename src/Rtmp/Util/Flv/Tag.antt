-- ===== src/Rtmp/Util/Flv/Tag.antt =====
-- FLV tags, and how their fields are read.
use jrtplib4android.Prelude.{
  ℕ, ◌/◌, ◌%◌, ◌^◌, ◌<◌, ◌≡◌, ap, ◌∙◌, List, [], ◌∷◌, ◌++◌, arith, length,
}
use jrtplib4android.Rtmp.Wire.{hton24, hton_time, store, little_endian}
use jrtplib4android.Rtmp.Wire.Order.{hton24-bytes, hton_time-bytes}

-- The header of a tag, most significant bytes first: kind, data length, time with its extension
-- byte, stream id.
abbrev pub tag_header : ℕ → ℕ → ℕ → List ℕ
tag_header kind n time =
    kind
    ∷ n / 65536
    ∷ n / 256 % 256
    ∷ n % 256
    ∷ time / 65536 % 256
    ∷ time / 256 % 256
    ∷ time % 256
    ∷ time / 2 ^ 24
    ∷ 0
    ∷ 0
    ∷ 0
    ∷ []

-- A tag: the header, the data and the size of the tag, four bytes.
abbrev pub tag : ℕ → ℕ → List ℕ → List ℕ → List ℕ
tag kind time body size = tag_header kind (length body) time ++ (body ++ size)

pub store-byte : (b : ℕ) → store 0 (b ∷ []) ≡ b
unfolding store
store-byte b = omega arith

pub store-length :
    (n : ℕ) → n < 2 ^ 24 → hton24 (store 0 (n / 65536 ∷ n / 256 % 256 ∷ n % 256 ∷ [])) ≡ n
unfolding store
store-length n small =
    ap hton24 plain
    ∙ hton24-bytes (n / 65536) (n / 256 % 256) (n % 256) (omega arith) (omega arith) (omega arith)
    ∙ omega arith
  where
    bytes : List ℕ
    bytes = n / 65536 ∷ n / 256 % 256 ∷ n % 256 ∷ []

    plain : store 0 bytes ≡ little_endian bytes
    plain = omega arith

pub store-time :
    (n : ℕ)
    → n < 2 ^ 32
    → hton_time (store 0 (n / 65536 % 256 ∷ n / 256 % 256 ∷ n % 256 ∷ n / 2 ^ 24 ∷ [])) ≡ n
unfolding store
store-time n small =
    ap hton_time plain
    ∙ hton_time-bytes (n / 65536 % 256) (n / 256 % 256) (n % 256) (omega arith) (omega arith)
        (omega arith) (n / 2 ^ 24) (omega arith)
    ∙ omega arith
  where
    bytes : List ℕ
    bytes = n / 65536 % 256 ∷ n / 256 % 256 ∷ n % 256 ∷ n / 2 ^ 24 ∷ []

    plain : store 0 bytes ≡ little_endian bytes
    plain = omega arith
