-- ===== src/Rtp/Common/Dotted.antt =====
-- The text of an address: it is the dotted decimal form, it is read back to the address, and the
-- buffer of 16 bytes holds it.
use jrtplib4android.Prelude.Bits.{and_low}
use jrtplib4android.Prelude.{
  ℕ, ◌+◌, ◌-◌, ◌*◌, ◌/◌, ◌%◌, ◌^◌, ◌≤◌, ◌<◌, ◌≡◌, refl, ap, ◌∙◌, false, List, [], ◌∷◌, ◌++◌,
  append-nil, append_assoc, ltb, ◌==◌, if◌then◌else◌, arith, length, length-append, dec_lt,
}
use jrtplib4android.Rtp.Common.{make8_bit, write_octets, cut_last, change_ip}

-- An octet in decimal, as a reader expects it: no leading zeros.
unfoldable pub decimal : ℕ → List ℕ
decimal n =
    if ltb n 10
    then (n + b'0') ∷ []
    else if ltb n 100
    then (n / 10 + b'0') ∷ (n % 10 + b'0') ∷ []
    else (n / 100 + b'0') ∷ (n / 10 % 10 + b'0') ∷ (n % 10 + b'0') ∷ []

-- `make8Bit` appends the decimal form of an octet and a dot.
pub make8_bit_lem : (p : List ℕ) (n : ℕ) → n < 256 → make8_bit p n ≡ p ++ (decimal n ++ b'.' ∷ [])
unfolding make8_bit decimal
make8_bit_lem p n h = elim (dec_lt n 10) [
  | yes a ↦ ground (arith, append_assoc p ((n + 48) ∷ []) (46 ∷ []))
  | no a ↦ elim (dec_lt n 100) [
    | yes b ↦ ground (
      arith,
      append_assoc p ((n % 100 / 10 + 48) ∷ []) ((n % 100 % 10 / 1 + 48) ∷ []),
      append_assoc p ((n % 100 / 10 + 48) ∷ (n % 100 % 10 / 1 + 48) ∷ []) (46 ∷ []),
    )
    | no b ↦ ground (
      arith,
      append_assoc p ((n / 100 + 48) ∷ []) ((n % 100 / 10 + 48) ∷ []),
      append_assoc p ((n / 100 + 48) ∷ (n % 100 / 10 + 48) ∷ []) ((n % 100 % 10 / 1 + 48) ∷ []),
      append_assoc p ((n / 100 + 48) ∷ (n % 100 / 10 + 48) ∷ (n % 100 % 10 / 1 + 48) ∷ [])
          (46 ∷ []),
    )
  ]
]

-- Octet `i` of an address, the most significant first.
abbrev pub octet : ℕ → ℕ → ℕ
octet num i = num / 2 ^ ((3 - i) * 8) % 256

-- The dotted decimal form of an address.
unfoldable pub dotted : ℕ → List ℕ
dotted num =
    decimal (octet num 0)
    ++ (b'.' ∷ decimal (octet num 1)
        ++ (b'.' ∷ decimal (octet num 2) ++ (b'.' ∷ decimal (octet num 3))))

-- Reads an address back: `whole` is the value of the octets read, `part` that of the present one.
unfoldable pub read_dotted : ℕ → ℕ → List ℕ → ℕ
read_dotted whole part [] = whole * 256 + part
read_dotted whole part (c ∷ s) =
    read_dotted (if c == b'.' then whole * 256 + part else whole)
      (if c == b'.' then 0 else part * 10 + (c - b'0')) s

read_digit :
    (whole part d : ℕ) (s : List ℕ)
    → read_dotted whole part ((d + b'0') ∷ s) ≡ read_dotted whole (part * 10 + d) s
unfolding read_dotted
read_digit whole part d s =
    let other : (d + 48 == 46) ≡ false = ground arith in
    let digit : d + 48 - 48 ≡ d = omega arith in rw (other, digit)

read_dotted-decimal :
    (whole n : ℕ) (s : List ℕ)
    → n < 256
    → read_dotted whole 0 (decimal n ++ s) ≡ read_dotted whole n s
unfolding decimal read_dotted
read_dotted-decimal whole n s h = elim (dec_lt n 10) [
  | yes a ↦ ground (arith, read_digit whole 0 n s)
  | no a ↦ elim (dec_lt n 100) [
    | yes b ↦ ground (
      arith,
      read_digit whole 0 (n / 10) ((n % 10 + 48) ∷ s),
      read_digit whole (n / 10) (n % 10) s,
    )
    | no b ↦ ground (
      arith,
      read_digit whole 0 (n / 100) ((n / 10 % 10 + 48) ∷ (n % 10 + 48) ∷ s),
      read_digit whole (n / 100) (n / 10 % 10) ((n % 10 + 48) ∷ s),
      read_digit whole (n / 10) (n % 10) s,
    )
  ]
]

cut_last-append : (s : List ℕ) (c : ℕ) → cut_last (s ++ c ∷ []) ≡ s
unfolding cut_last
cut_last-append [] c = refl
cut_last-append (a ∷ []) c = refl
cut_last-append (a ∷ b ∷ s) c = ap (λ t. a ∷ t) (cut_last-append (b ∷ s) c)

written : ℕ → List ℕ
written num =
    decimal (octet num 0)
    ++ (b'.' ∷ decimal (octet num 1)
        ++ (b'.' ∷ decimal (octet num 2) ++ (b'.' ∷ decimal (octet num 3) ++ b'.' ∷ [])))

write_octets_lem : (num : ℕ) → write_octets 4 0 [] num ≡ written num
unfolding write_octets written
write_octets_lem num =
    rw
      (
        and_low 8 (num / 2 ^ 24),
        and_low 8 (num / 2 ^ 16),
        and_low 8 (num / 2 ^ 8),
        and_low 8 (num / 2 ^ 0),
      )
      (rw
        (
          make8_bit_lem [] (octet num 0) (omega arith),
          make8_bit_lem _ (octet num 1) (omega arith),
          make8_bit_lem _ (octet num 2) (omega arith),
          make8_bit_lem _ (octet num 3) (omega arith),
        )
        (simp append_assoc))

written-eq : (num : ℕ) → written num ≡ dotted num ++ b'.' ∷ []
unfolding written dotted
written-eq num = simp append_assoc

-- `changeIP` returns the dotted decimal form of the address, most significant octet first.
pub change_ip_lem : (num : ℕ) → change_ip num ≡ dotted num
unfolding change_ip
change_ip_lem num = rw (write_octets_lem num, written-eq num) (cut_last-append (dotted num) b'.')

read_dotted-dot :
    (whole n : ℕ) (s : List ℕ) → read_dotted whole n (b'.' ∷ s) ≡ read_dotted (whole * 256 + n) 0 s
unfolding read_dotted
read_dotted-dot whole n s = refl

four_octets :
    (num : ℕ)
    → num < 2 ^ 32
    → ((octet num 0 * 256 + octet num 1) * 256 + octet num 2) * 256 + octet num 3 ≡ num
four_octets num h = omega arith

read_dotted-last : (whole n : ℕ) → n < 256 → read_dotted whole 0 (decimal n) ≡ whole * 256 + n
unfolding read_dotted
read_dotted-last whole n h = rw (← append-nil (decimal n)) (read_dotted-decimal whole n [] h)

read_dotted-dotted :
    (num : ℕ)
    → read_dotted 0 0 (dotted num)
      ≡ ((octet num 0 * 256 + octet num 1) * 256 + octet num 2) * 256 + octet num 3
unfolding dotted
read_dotted-dotted num =
    rw
      (
        read_dotted-decimal 0 (octet num 0) _ (omega arith),
        read_dotted-dot,
        read_dotted-decimal (0 * 256 + octet num 0) (octet num 1) _ (omega arith),
        read_dotted-dot,
        read_dotted-decimal ((0 * 256 + octet num 0) * 256 + octet num 1) (octet num 2) _
            (omega arith),
        read_dotted-dot,
        read_dotted-last _ (octet num 3) (omega arith),
      )
      (omega arith)

length-decimal : (n : ℕ) → length (decimal n) ≤ 3
unfolding decimal
length-decimal n = ground arith

length-write_octets : (num : ℕ) → length (write_octets 4 0 [] num) ≤ 16
unfolding written
length-write_octets num =
    rw (write_octets_lem num) (simp length-append (omega (arith, length-decimal)))

-- Reading the octets of the text of a 32-bit address gives the address back, and what `changeIP` writes
-- fits into its buffer of 16 bytes.
pub read-change_ip :
    (num : ℕ)
    → num < 2 ^ 32
    → (read_dotted 0 0 (change_ip num) ≡ num) × (length (write_octets 4 0 [] num) ≤ 16)
read-change_ip num h =
    (rw (change_ip_lem num) (read_dotted-dotted num ∙ four_octets num h), length-write_octets num)
