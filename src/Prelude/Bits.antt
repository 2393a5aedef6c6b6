-- ===== src/Prelude/Bits.antt =====
-- `&` with a low mask, the top bit of a byte, and `|` of parts that do not overlap, as arithmetic.
use Prim.Native.Nat.{
  ℕ, zero, suc, ◌+◌, ◌*◌, ◌/◌, ◌%◌, ◌^◌, ◌≤◌, ◌<◌, min, max, bit_and, bit_or, digits,
  bit_and-bitwise, bit_or-bitwise,
}
use mathlib.Core.Path.{◌≡◌, refl, ap}
use native.Mathlib.Omega.{arith}
use native.Mathlib.Nat.{pow-suc}

-- Both operations walk the binary digits of the first number, and any count of rounds from that
-- number up gives one answer.
module _ (tail : ℕ → ℕ) (op : ℕ → ℕ → ℕ) where
  walk : ℕ → ℕ → ℕ → ℕ
  walk rounds a b = digits tail op rounds a b

  walk_rounds : (r s a b : ℕ) → a ≤ r → a ≤ s → walk r a b ≡ walk s a b
  unfolding walk
  walk_rounds (suc r) (suc s) (suc a) b at_most enough =
      let halved = walk_rounds r s (suc a / 2) (b / 2) (omega arith) (omega arith) in
      omega (arith, halved)
  walk_rounds (suc r) (suc s) zero b at_most enough = refl
  walk_rounds (suc r) zero (suc a) b at_most enough = absurd (omega arith)
  walk_rounds (suc r) zero zero b at_most enough = refl
  walk_rounds zero (suc s) (suc a) b at_most enough = absurd (omega arith)
  walk_rounds zero (suc s) zero b at_most enough = refl
  walk_rounds zero zero a b at_most enough = refl

  walk_halves :
      (a b : ℕ)
      → walk (suc a) (suc a) b ≡ walk (suc a / 2) (suc a / 2) (b / 2) * 2 + op (suc a % 2) (b % 2)
  unfolding walk
  walk_halves a b =
      omega (arith, walk_rounds a (suc a / 2) (suc a / 2) (b / 2) (omega arith) (omega arith))

-- The lowest digit of `a & b`, and the rest.
pub and_by_digits : (a b : ℕ) → bit_and a b ≡ min (a % 2) (b % 2) + 2 * bit_and (a / 2) (b / 2)
unfolding walk
and_by_digits zero b = omega (arith, bit_and-bitwise 0 (b / 2), bit_and-bitwise 0 b)
and_by_digits (suc a) b = omega (
  arith,
  walk_halves (λ _. 0) min a b,
  bit_and-bitwise (suc a / 2) (b / 2),
  bit_and-bitwise (suc a) b,
)

-- The same of `a | b`.
pub or_by_digits : (a b : ℕ) → bit_or a b ≡ max (a % 2) (b % 2) + 2 * bit_or (a / 2) (b / 2)
unfolding walk
or_by_digits zero b = omega (arith, bit_or-bitwise 0 b, bit_or-bitwise 0 (b / 2))
or_by_digits (suc a) b = omega (
  arith,
  bit_or-bitwise (suc a) b,
  bit_or-bitwise (suc a / 2) (b / 2),
  walk_halves (λ y. y) max a b,
)

double_pow : (q k : ℕ) → q * 2 ^ suc k ≡ q * 2 ^ k * 2
double_pow q k = omega (arith, ap (λ (t : ℕ). q * t) (pow-suc 2 k))

-- Where `a` lies below the lowest digit of the other part, `|` adds.
pub bit_or_above : (k a q : ℕ) → a < 2 ^ k → bit_or a (q * 2 ^ k) ≡ a + q * 2 ^ k
bit_or_above zero zero q h = omega (arith, bit_or-bitwise 0 (q * 2 ^ 0))
bit_or_above zero (suc a) q h = absurd (omega arith)
bit_or_above (suc k) a q h = rw double_pow (
    ground (
      arith,
      or_by_digits a (q * 2 ^ k * 2),
      bit_or_above k (a / 2) q (omega (arith, pow-suc 2 k)),
    ))

-- No digit of zero is set, so `&` with it keeps none, for every number below a bound.
and_nothing : (bound x : ℕ) → x < bound → bit_and x 0 ≡ 0
and_nothing zero x lt = absurd (omega arith)
and_nothing (suc bound) zero lt = refl
and_nothing (suc bound) (suc y) lt =
    let halved = and_nothing bound (suc y / 2) (omega arith) in
    omega (arith, halved, and_by_digits (suc y) 0)

-- The lowest digit, and then the masks of three, five, seven and eight.
pub lowest_digit : (x : ℕ) → bit_and x 1 ≡ x % 2
lowest_digit x = omega (arith, and_nothing (suc x) (x / 2) (omega arith), and_by_digits x 1)

bit_and_mask7 : (a : ℕ) → bit_and a 7 ≡ a % 8
bit_and_mask7 a =
    omega (arith, and_by_digits a 7, and_by_digits (a / 2) 3, lowest_digit (a / 2 / 2))

bit_and_mask31 : (a : ℕ) → bit_and a 31 ≡ a % 32
bit_and_mask31 a =
    omega (arith, and_by_digits a 31, and_by_digits (a / 2) 15, bit_and_mask7 (a / 2 / 2))

pub bit_and_mask127 : (a : ℕ) → bit_and a 0x7f ≡ a % 128
bit_and_mask127 a =
    omega (arith, and_by_digits a 127, and_by_digits (a / 2) 63, bit_and_mask31 (a / 2 / 2))

pub bit_and_mask255 : (a : ℕ) → bit_and a 0xff ≡ a % 256
bit_and_mask255 a = omega (arith, and_by_digits a 255, bit_and_mask127 (a / 2))

-- A mask of one bit, at places 1, 2 and 7.
pub bit_and_bit1 : (a : ℕ) → bit_and a 2 ≡ a / 2 % 2 * 2
bit_and_bit1 a = omega (arith, and_by_digits a 2, lowest_digit (a / 2))

pub bit_and_bit2 : (a : ℕ) → bit_and a 4 ≡ a / 4 % 2 * 4
bit_and_bit2 a = omega (arith, and_by_digits a 4, bit_and_bit1 (a / 2))

bit_and_bit4 : (a : ℕ) → bit_and a 16 ≡ a / 16 % 2 * 16
bit_and_bit4 a =
    omega (arith, and_by_digits a 16, and_by_digits (a / 2) 8, bit_and_bit2 (a / 2 / 2))

pub bit_and_bit7 : (a : ℕ) → bit_and a 0x80 ≡ a / 128 % 2 * 128
bit_and_bit7 a = omega (
  arith,
  and_by_digits a 128,
  and_by_digits (a / 2) 64,
  and_by_digits (a / 2 / 2) 32,
  bit_and_bit4 (a / 2 / 2 / 2),
)

-- Zero has no digit to add to another number.
or_nothing : (bound x : ℕ) → x < bound → bit_or x 0 ≡ x
or_nothing zero x lt = absurd (omega arith)
or_nothing (suc bound) zero lt = refl
or_nothing (suc bound) (suc y) lt =
    omega (arith, or_nothing bound (suc y / 2) (omega arith), or_by_digits (suc y) 0)

pub bit_or_zero : (x : ℕ) → bit_or x 0 ≡ x
bit_or_zero x = or_nothing (suc x) x (omega arith)

pub bit_or_one : (x : ℕ) → bit_or x 1 ≡ 1 + 2 * (x / 2)
bit_or_one x = omega (arith, or_by_digits x 1, bit_or_zero (x / 2))
