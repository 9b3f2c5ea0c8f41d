-- ===== src/Zend/Decimal.antt =====
-- snprintf with "%d" and "%ld", of the C library.
use icore_tax_gateway.Base.{
  ℕ, zero, suc, ◌+◌, ◌-◌, ◌*◌, ◌/◌, ◌%◌, ◌<◌, ◌≡◌, ◌≢◌, ap, ◌∙◌, inl, inr, Bool-cases, [], ◌∷◌,
  Bytes, length, ◌≤◌, ◌^◌, arith, ltb, if◌then◌else◌, All,
}
use icore_tax_gateway.Base.Int.{ℤ, pos, negsuc}
use icore_tax_gateway.Zend.{IsDigit, digits_value}

-- The digits of a number, the last of which is written first. A number has fewer digits than itself
-- plus one, which is the fuel.
decimal_from : ℕ → ℕ → Bytes → Bytes
decimal_from zero n out = out
decimal_from (suc fuel) n out =
    let more = decimal_from fuel (n / 10) ((b'0' + n % 10) ∷ out) in
    if ltb n 10 then (b'0' + n) ∷ out else more

unfoldable pub decimal : ℕ → Bytes
unfolding decimal_from
decimal n = decimal_from (suc n) n []

unfoldable pub snprintf_ld : ℤ → Bytes
unfolding decimal
snprintf_ld (pos n) = decimal n
snprintf_ld (negsuc n) = b'-' ∷ decimal (suc n)

decimal_from-digits :
    (fuel n : ℕ) (out : Bytes) → All IsDigit out → All IsDigit (decimal_from fuel n out)
unfolding decimal_from
decimal_from-digits zero n out h = h
decimal_from-digits (suc fuel) n out h =
    ground (arith, decimal_from-digits fuel (n / 10) ((b'0' + n % 10) ∷ out))

digit_back : (n : ℕ) → 0 * 10 + (b'0' + n - b'0') ≡ n
digit_back n = omega arith

next_digit : (n : ℕ) → n / 10 * 10 + (b'0' + n % 10 - b'0') ≡ n
next_digit n = omega arith

-- The digits of `n` before those of `out` are read as `n`, then `out`.
decimal_from-value :
    (fuel n : ℕ) (out : Bytes)
    → n < fuel
    → digits_value 0 (decimal_from fuel n out) ≡ digits_value n out
unfolding decimal_from
decimal_from-value zero n out h = absurd (omega arith)
decimal_from-value (suc fuel) n out h = elim (Bool-cases (ltb n 10)) [
  | inl last ↦ rw last (ap (λ k. digits_value k out) (digit_back n))
  | inr more ↦ rw more (
      decimal_from-value fuel (n / 10) ((b'0' + n % 10) ∷ out) (ground arith)
      ∙ ap (λ k. digits_value k out) (next_digit n))
]

decimal_from-keeps : (fuel n c : ℕ) (out : Bytes) → decimal_from fuel n (c ∷ out) ≢ []
unfolding decimal_from
decimal_from-keeps zero n c out h = cc
decimal_from-keeps (suc fuel) n c out h =
    ground (arith, decimal_from-keeps fuel (n / 10) (b'0' + n % 10) (c ∷ out))

decimal_from-ne : (fuel n : ℕ) → decimal_from (suc fuel) n [] ≢ []
unfolding decimal_from
decimal_from-ne fuel n h = ground (arith, decimal_from-keeps fuel (n / 10) (b'0' + n % 10) [])

pub decimal-digits : (n : ℕ) → All IsDigit (decimal n)
unfolding decimal
decimal-digits n = decimal_from-digits (suc n) n [] tt

pub decimal-value : (n : ℕ) → digits_value 0 (decimal n) ≡ n
unfolding decimal
decimal-value n = decimal_from-value (suc n) n [] (omega arith)

pub decimal-ne : (n : ℕ) → decimal n ≢ []
unfolding decimal
decimal-ne n = decimal_from-ne n n

-- 10 to the power of `k`.
abbrev tens : ℕ → ℕ
tens zero = 1
tens (suc k) = 10 * tens k

decimal_from-length :
    (fuel n k : ℕ) (out : Bytes)
    → n < tens (suc k)
    → length (decimal_from fuel n out) ≤ suc k + length out
unfolding decimal_from
decimal_from-length zero n k out h = omega arith
decimal_from-length (suc fuel) n zero out h = ground arith
decimal_from-length (suc fuel) n (suc k) out h =
    let digit = (b'0' + n % 10) ∷ out in
    let rest = decimal_from-length fuel (n / 10) k digit (omega (arith, h)) in ground (arith, rest)

-- A number of 64 bits has at most 20 digits.
pub decimal-short : (n : ℕ) → n < 2 ^ 64 → length (decimal n) ≤ 20
unfolding decimal
decimal-short n h = decimal_from-length (suc n) n 19 [] (omega arith)
