-- ===== src/Rtp/Common.antt =====
-- jrtp/src/main/jni/RtpCommon.cpp: the check of a JRTPLIB status, and an address as text.
-- A text is the list of the bytes written so far through the pointer `p`. `num / pow(10, i)` is a
-- division of doubles truncated to `int`: at the values below 2 ^ 32 the integer quotient.
pub mod Dotted
use jrtplib4android.Prelude.{
  ℕ, zero, suc, ◌+◌, ◌-◌, ◌*◌, ◌/◌, ◌%◌, ◌^◌, Bool, true, false, List, [], ◌∷◌, ◌++◌, bit_and, ltb,
  if◌then◌else◌, not,
}
use jrtplib4android.Prelude.Int.{ℤ, is_negative}

-- `CheckError`: false for a negative status, which it logs.
unfoldable pub check_error : ℤ → Bool
check_error rtperr = not (is_negative rtperr)

-- The variables of the loop of `make8Bit`.
pub record Digits : Type 0 where
  pub text : List ℕ
  pub flag : Bool
  pub num : ℕ

-- One round: a digit is written if it is not 0 or one was written before.
unfoldable pub digit_round : ℕ → Digits → Digits
digit_round i s =
    let carry = s.num / 10 ^ i in
    let next = record s { text = s.text ++ (carry + b'0') ∷ []; num = s.num % 10 ^ i } in
    if ltb 0 carry
    then record next { flag = true }
    else if s.flag
    then next
    else record s { num = s.num % 10 ^ i }

unfoldable pub make8_bit : List ℕ → ℕ → List ℕ
unfolding digit_round
make8_bit p num =
    let s =
      digit_round 0
        (digit_round 1 (digit_round 2 (record { text = p; flag = false; num = num }))) in
    (if s.flag then s.text else s.text ++ b'0' ∷ []) ++ b'.' ∷ []

-- The bytes that `changeIP` writes for octet `i` on, with `left` octets to go.
unfoldable pub write_octets : ℕ → ℕ → List ℕ → ℕ → List ℕ
write_octets zero i p num = p
write_octets (suc left) i p num =
    write_octets left (i + 1) (make8_bit p (bit_and (num / 2 ^ ((3 - i) * 8)) 0xff)) num

-- `p--; *p = '\0'`: the last byte written is cut off.
unfoldable pub cut_last : List ℕ → List ℕ
cut_last [] = []
cut_last (c ∷ []) = []
cut_last (c ∷ d ∷ s) = c ∷ cut_last (d ∷ s)

-- The text that `changeIP` returns, without its NUL.
unfoldable pub change_ip : ℕ → List ℕ
change_ip num = cut_last (write_octets 4 0 [] num)
