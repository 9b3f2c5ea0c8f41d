-- ===== src/Base/Bits.antt =====
-- Laws of the bit operations at variables, by halving both operands.
use Prim.Native.Nat.{
  ℕ, zero, suc, ◌+◌, ◌*◌, ◌/◌, ◌%◌, ◌≤◌, ◌<◌, min, bit_and, bit_xor, digits, differ,
  bit_and-bitwise, bit_xor-bitwise,
}
use mathlib.Core.Path.{◌≡◌, refl, ap₂}
use mathlib.Core.Bool.{Bool, true, ◌&&◌}
use native.Mathlib.Decide.{dec_lt}
use native.Mathlib.Omega.{arith}

-- Digit by digit: an operation on the digits of two numbers, which reads those of the first as long as
-- it has rounds.
module _ (rest : ℕ → ℕ) (digit : ℕ → ℕ → ℕ) where
  -- More rounds than the first number has change nothing.
  spare_rounds : (m n a b : ℕ) → n ≤ m → a ≤ n → digits rest digit m a b ≡ digits rest digit n a b
  spare_rounds (suc m) (suc n) (suc a) b few h =
      omega (arith, spare_rounds m n (suc a / 2) (b / 2) (omega arith) (omega arith))
  spare_rounds m zero (suc a) b few h = absurd (omega arith)
  spare_rounds zero (suc n) (suc a) b few h = absurd (omega arith)
  spare_rounds zero zero zero b few h = refl
  spare_rounds zero (suc n) zero b few h = refl
  spare_rounds (suc m) zero zero b few h = refl
  spare_rounds (suc m) (suc n) zero b few h = refl

  half_rounds :
      (a b : ℕ) → digits rest digit a (suc a / 2) b ≡ digits rest digit (suc a / 2) (suc a / 2) b
  half_rounds a b = spare_rounds a (suc a / 2) (suc a / 2) b (omega arith) (omega arith)

no_bits : (b : ℕ) → bit_and 0 b ≡ 0
no_bits b = bit_and-bitwise 0 b

pub zero-xor : (b : ℕ) → bit_xor 0 b ≡ b
zero-xor b = bit_xor-bitwise 0 b

-- An operation on the last digits and on the halves.
bit_and-halves : (a b : ℕ) → bit_and a b ≡ bit_and (a / 2) (b / 2) * 2 + min (a % 2) (b % 2)
bit_and-halves zero b = omega (arith, no_bits b, no_bits (b / 2))
bit_and-halves (suc a) b =
    let rounds = half_rounds (λ b. zero) min a (b / 2) in
    let low = bit_and-bitwise (suc a / 2) (b / 2) in
    let all = bit_and-bitwise (suc a) b in omega arith

bit_xor-halves : (a b : ℕ) → bit_xor a b ≡ bit_xor (a / 2) (b / 2) * 2 + differ (a % 2) (b % 2)
bit_xor-halves zero b = omega (arith, zero-xor b, zero-xor (b / 2))
bit_xor-halves (suc a) b =
    let rounds = half_rounds (λ b. b) differ a (b / 2) in
    let low = bit_xor-bitwise (suc a / 2) (b / 2) in
    let all = bit_xor-bitwise (suc a) b in omega arith

-- The result of a mask is at most the mask.
bit_and-le_fuel : (n a b : ℕ) → a ≤ n → bit_and a b ≤ b
bit_and-le_fuel n zero b h = omega (arith, no_bits b)
bit_and-le_fuel zero (suc a) b h = absurd (omega arith)
bit_and-le_fuel (suc n) (suc a) b h =
    omega (arith, bit_and-halves (suc a) b, bit_and-le_fuel n (suc a / 2) (b / 2) (omega arith))

pub bit_and-le : (a b : ℕ) → bit_and a b ≤ b
bit_and-le a b = bit_and-le_fuel a a b (omega arith)

-- The exclusive or acts on the two halves of its operands, at a width of 1, 2, 4 and 8 digits.
abbrev pub Splits : ℕ → Type 0
Splits m = (a b : ℕ) → bit_xor a b ≡ bit_xor (a / m) (b / m) * m + bit_xor (a % m) (b % m)

differ_digits : (x y : ℕ) → x < 2 → y < 2 → bit_xor x y ≡ differ x y
differ_digits zero y h k = zero-xor y
differ_digits (suc zero) zero h k = refl
differ_digits (suc zero) (suc zero) h k = refl
differ_digits (suc zero) (suc (suc y)) h k = absurd (omega arith)
differ_digits (suc (suc x)) y h k = absurd (omega arith)

parts_two : Splits 2
parts_two a b =
    omega (arith, bit_xor-halves a b, differ_digits (a % 2) (b % 2) (omega arith) (omega arith))

-- From a width to its double: both halves are split in turn, and the four parts are named anew.
pub quarters : (a b c d : ℕ) → a ≡ b → c ≡ d → bit_xor a c ≡ bit_xor b d
quarters a b c d p q = ap₂ bit_xor p q

parts_four : Splits 4
parts_four a b = omega (
  arith,
  parts_two a b,
  parts_two (a / 2) (b / 2),
  parts_two (a % 4) (b % 4),
  quarters (a / 2 / 2) (a / 4) (b / 2 / 2) (b / 4) (omega arith) (omega arith),
  quarters (a % 4 / 2) (a / 2 % 2) (b % 4 / 2) (b / 2 % 2) (omega arith) (omega arith),
  quarters (a % 4 % 2) (a % 2) (b % 4 % 2) (b % 2) (omega arith) (omega arith),
)

parts_sixteen : Splits 16
parts_sixteen a b = omega (
  arith,
  parts_four a b,
  parts_four (a / 4) (b / 4),
  parts_four (a % 16) (b % 16),
  quarters (a / 4 / 4) (a / 16) (b / 4 / 4) (b / 16) (omega arith) (omega arith),
  quarters (a % 16 / 4) (a / 4 % 4) (b % 16 / 4) (b / 4 % 4) (omega arith) (omega arith),
  quarters (a % 16 % 4) (a % 4) (b % 16 % 4) (b % 4) (omega arith) (omega arith),
)

pub bit_xor-split : Splits 256
bit_xor-split a b = omega (
  arith,
  parts_sixteen a b,
  parts_sixteen (a / 16) (b / 16),
  parts_sixteen (a % 256) (b % 256),
  quarters (a / 16 / 16) (a / 256) (b / 16 / 16) (b / 256) (omega arith) (omega arith),
  quarters (a % 256 / 16) (a / 16 % 16) (b % 256 / 16) (b / 16 % 16) (omega arith) (omega arith),
  quarters (a % 256 % 16) (a % 16) (b % 256 % 16) (b % 16) (omega arith) (omega arith),
)

differ-zero : (x : ℕ) → x < 2 → differ x 0 ≡ x
differ-zero zero h = refl
differ-zero (suc zero) h = refl
differ-zero (suc (suc x)) h = absurd (omega arith)

xor-zero_fuel : (n a : ℕ) → a ≤ n → bit_xor a 0 ≡ a
xor-zero_fuel n zero h = zero-xor 0
xor-zero_fuel zero (suc a) h = absurd (omega arith)
xor-zero_fuel (suc n) (suc a) h = omega (
  arith,
  bit_xor-halves (suc a) 0,
  xor-zero_fuel n (suc a / 2) (omega arith),
  differ-zero (suc a % 2) (omega arith),
)

pub xor-zero : (a : ℕ) → bit_xor a 0 ≡ a
xor-zero a = xor-zero_fuel a a (omega arith)

-- Every value below a bound passes a test, by evaluation.
unfoldable pub all_below : ℕ → (ℕ → Bool) → Bool
all_below zero test = true
all_below (suc bound) test = all_below bound test && test bound

pub all_below_sound :
    (bound : ℕ) (test : ℕ → Bool) (x : ℕ) → all_below bound test ≡ true → x < bound → test x ≡ true
unfolding all_below
all_below_sound zero test x passed inside = absurd (omega arith)
all_below_sound (suc bound) test x passed inside = elim (dec_lt x bound) [
  | yes before ↦ all_below_sound bound test x (ground arith) before
  | no last ↦ ground arith
]
