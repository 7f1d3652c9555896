-- ===== src/Prelude/Bits.antt =====
-- The C operators `&`, `|` and shifts, as arithmetic: masks that stand at some bit, and the union
-- of disjoint fields.
use Prim.Native.Nat.{max, digits, bit_and-bitwise, bit_or-bitwise}
use native.Mathlib.Nat.{pow-suc, one-le-pow, div-div-eq-div-mul, div-add-mod}
use jrtplib4android.Prelude.{
  ℕ, zero, suc, ◌+◌, ◌-◌, ◌*◌, ◌/◌, ◌%◌, ◌^◌, ◌≤◌, ◌<◌, ◌≡◌, refl, ap, ap₂, ◌∙◌, bit_and, bit_or,
  min, arith,
}

-- The native operations recur on binary digits with fuel; any fuel from the first operand on does.
module _ (z : ℕ → ℕ) (f : ℕ → ℕ → ℕ) where
  enough_digits :
      (a b fuel more : ℕ) → a ≤ fuel → a ≤ more → digits z f fuel a b ≡ digits z f more a b
  enough_digits zero b zero zero p q = refl
  enough_digits zero b zero (suc more) p q = refl
  enough_digits zero b (suc fuel) zero p q = refl
  enough_digits zero b (suc fuel) (suc more) p q = refl
  enough_digits (suc a) b zero more p q = absurd (omega arith)
  enough_digits (suc a) b (suc fuel) zero p q = absurd (omega arith)
  enough_digits (suc a) b (suc fuel) (suc more) p q =
      ap (λ t. t * 2 + f (suc a % 2) (b % 2))
        (enough_digits (suc a / 2) (b / 2) fuel more (omega arith) (omega arith))

-- The lowest binary digit of `a & b`, and the rest.
and_halves : (a b : ℕ) → bit_and a b ≡ bit_and (a / 2) (b / 2) * 2 + min (a % 2) (b % 2)
and_halves zero b = omega (arith, bit_and-bitwise 0 b, bit_and-bitwise 0 (b / 2))
and_halves (suc a) b = omega (
  arith,
  bit_and-bitwise (suc a) b,
  bit_and-bitwise (suc a / 2) (b / 2),
  enough_digits (λ _. 0) min (suc a / 2) (b / 2) a (suc a / 2) (omega arith) (omega arith),
)

or_halves : (a b : ℕ) → bit_or a b ≡ bit_or (a / 2) (b / 2) * 2 + max (a % 2) (b % 2)
or_halves zero b = omega (arith, bit_or-bitwise 0 b, bit_or-bitwise 0 (b / 2))
or_halves (suc a) b = omega (
  arith,
  bit_or-bitwise (suc a) b,
  bit_or-bitwise (suc a / 2) (b / 2),
  enough_digits (λ y. y) max (suc a / 2) (b / 2) a (suc a / 2) (omega arith) (omega arith),
)

times-two-pow : (m k : ℕ) → m * 2 ^ suc k ≡ 2 * (m * 2 ^ k)
times-two-pow m k = omega (arith, ap (λ (t : ℕ). m * t) (pow-suc 2 k))

zero-and : (a : ℕ) → bit_and 0 a ≡ 0
zero-and a = bit_and-bitwise 0 a

and-zero_below : (fuel a : ℕ) → a ≤ fuel → bit_and a 0 ≡ 0
and-zero_below fuel zero h = zero-and 0
and-zero_below zero (suc a) h = absurd (omega arith)
and-zero_below (suc fuel) (suc a) h =
    omega (arith, and_halves (suc a) 0, and-zero_below fuel (suc a / 2) (omega arith))

-- `a & 0` is 0.
pub and-zero : (a : ℕ) → bit_and a 0 ≡ 0
and-zero a = and-zero_below a a (omega arith)

or-zero_below : (fuel a : ℕ) → a ≤ fuel → bit_or a 0 ≡ a
or-zero_below fuel zero h = bit_or-bitwise 0 0
or-zero_below zero (suc a) h = absurd (omega arith)
or-zero_below (suc fuel) (suc a) h =
    omega (arith, or_halves (suc a) 0, or-zero_below fuel (suc a / 2) (omega arith))

-- `(m << k) | r` adds `r`, if `r` fits the `k` free bits.
pub or_disjoint : (k m r : ℕ) → r < 2 ^ k → bit_or (m * 2 ^ k) r ≡ m * 2 ^ k + r
or_disjoint zero m r h = ground (arith, or-zero_below m m)
or_disjoint (suc k) m r h = ground (
  arith,
  times-two-pow m k,
  or_halves (m * 2 ^ suc k) r,
  or_disjoint k m (r / 2) (omega (arith, pow-suc 2 k)),
)

div-two-pow : (a k : ℕ) → a / 2 / 2 ^ k ≡ a / 2 ^ suc k
div-two-pow a k =
    div-div-eq-div-mul a 2 (2 ^ k) ∙ ap (λ (t : ℕ). a / t) (omega (arith, pow-suc 2 k))

-- `a & (m << k)` is `((a >> k) & m) << k`.
pub and_shifted : (k a m : ℕ) → bit_and a (m * 2 ^ k) ≡ bit_and (a / 2 ^ k) m * 2 ^ k
and_shifted zero a m = ground (arith, and_unit a m)
  where
    and_unit : (a m : ℕ) → bit_and a (m * 1) ≡ bit_and (a / 1) m * 1
    and_unit a m =
        let e : m * 1 ≡ m = omega arith in
        let d : a / 1 ≡ a = omega arith in rw (e, d) (omega arith)
and_shifted (suc k) a m = ground (
  arith,
  times-two-pow m k,
  times-two-pow (bit_and (a / 2 ^ suc k) m) k,
  and_halves a (m * 2 ^ suc k),
  and_shifted k (a / 2) m,
  div-two-pow a k,
)

low_split : (a k : ℕ) → a % 2 ^ suc k ≡ a / 2 % 2 ^ k * 2 + a % 2
low_split a k = omega (
  arith,
  div-add-mod a (2 ^ suc k),
  div-add-mod (a / 2) (2 ^ k),
  ap (λ (t : ℕ). 2 ^ suc k * t) (div-two-pow a k),
  times-two-pow (a / 2 / 2 ^ k) k,
)

-- `a & (2 ^ k - 1)` is the remainder by `2 ^ k`.
pub and_low : (k a : ℕ) → bit_and a (2 ^ k - 1) ≡ a % 2 ^ k
and_low zero a = ground (arith, and-zero a)
and_low (suc k) a = ground (
  arith,
  pow-suc 2 k,
  one-le-pow k 2,
  and_halves a (2 ^ suc k - 1),
  and_low k (a / 2),
  low_split a k,
)

or_comm_below : (fuel a b : ℕ) → a + b ≤ fuel → bit_or a b ≡ bit_or b a
or_comm_below fuel zero b h = omega (arith, bit_or-bitwise 0 b, or-zero_below b b)
or_comm_below zero (suc a) b h = absurd (omega arith)
or_comm_below (suc fuel) (suc a) b h = omega (
  arith,
  or_halves (suc a) b,
  or_halves b (suc a),
  or_comm_below fuel (suc a / 2) (b / 2) (omega arith),
)

pub or_comm : (a b : ℕ) → bit_or a b ≡ bit_or b a
or_comm a b = or_comm_below (a + b) a b (omega arith)

half_low : (a k : ℕ) → a % 2 ^ suc k / 2 ≡ a / 2 % 2 ^ k
half_low a k = omega (arith, low_split a k)

parity_low : (a k : ℕ) → a % 2 ^ suc k % 2 ≡ a % 2
parity_low a k = omega (arith, low_split a k)

-- `a | b` above and below bit `k`.
pub or_split :
    (k a b : ℕ)
    → bit_or a b ≡ bit_or (a / 2 ^ k) (b / 2 ^ k) * 2 ^ k + bit_or (a % 2 ^ k) (b % 2 ^ k)
or_split zero a b =
    omega (arith, ap₂ bit_or (unit a) (unit b), ap₂ bit_or (none_left a) (none_left b))
  where
    unit : (n : ℕ) → n / 1 ≡ n
    unit n = omega arith

    none_left : (n : ℕ) → n % 1 ≡ 0
    none_left n = omega arith
or_split (suc k) a b = omega (
  arith,
  or_halves a b,
  or_split k (a / 2) (b / 2),
  or_halves (a % 2 ^ suc k) (b % 2 ^ suc k),
  ap₂ bit_or (half_low a k) (half_low b k),
  ap₂ max (parity_low a k) (parity_low b k),
  ap (λ (n : ℕ). n * 2 ^ k) (ap₂ bit_or (div-two-pow a k) (div-two-pow b k)),
  times-two-pow (bit_or (a / 2 ^ suc k) (b / 2 ^ suc k)) k,
)
