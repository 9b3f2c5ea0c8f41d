-- ===== src/Sock/Numbers.antt =====
-- The numbers in the headers of replies.
use icore_tax_gateway.Base.{ℕ, suc, ◌^◌, ◌<◌, ◌≤◌, ◌≡◌, ap, ◌∙◌, ◌++◌, Bytes, arith, length}
use icore_tax_gateway.Base.Int.{ℤ, pos, negsuc, to_int}
use icore_tax_gateway.Base.Text.{Lacks}
use icore_tax_gateway.Zend.Decimal.{
  decimal, snprintf_ld, decimal-digits, decimal-value, decimal-short,
}
use icore_tax_gateway.Cluster.Redirect.{atoi, negated}
use icore_tax_gateway.Cluster.Redirect.Parse.{Stops, atoi_digits-value, atoi-decimal, digits_lack}
use icore_tax_gateway.Sock.Read.{atol}

-- A number that fits a long.
abbrev pub InLong : ℤ → Type 0
InLong (pos k) = k < 2 ^ 63
InLong (negsuc k) = k < 2 ^ 63

pub number-Lacks : (v : ℤ) → Lacks 10 (snprintf_ld v)
unfolding snprintf_ld
number-Lacks (pos k) = digits_lack 10 (decimal k) (omega arith) (decimal-digits k)
number-Lacks (negsuc k) =
    (omega arith, digits_lack 10 (decimal (suc k)) (omega arith) (decimal-digits (suc k)))

pub number-short : (v : ℤ) → InLong v → length (snprintf_ld v) ≤ 21
unfolding snprintf_ld
number-short (pos k) h = omega (arith, decimal-short k (omega arith))
number-short (negsuc k) h = omega (arith, decimal-short (suc k) (omega arith))

atoi-number : (v : ℤ) (rest : Bytes) → Stops rest → atoi (snprintf_ld v ++ rest) ≡ v
unfolding snprintf_ld
atoi-number (pos k) rest stops = atoi-decimal k rest stops
atoi-number (negsuc k) rest stops =
    unfold atoi in
    ap negated (
      atoi_digits-value 0 (decimal (suc k)) rest (decimal-digits (suc k)) stops
      ∙ decimal-value (suc k))

cut_long : (v : ℤ) (s : Bytes) → InLong v → atoi s ≡ v → atol s ≡ v
unfolding atol
cut_long (pos k) s h e = rw (e, atol) (ap pos (omega arith))
cut_long (negsuc k) s h e = rw (e, atol) (ap negsuc (omega arith))

-- A number that a server prints is read back.
pub atol-number : (v : ℤ) (rest : Bytes) → InLong v → Stops rest → atol (snprintf_ld v ++ rest) ≡ v
atol-number v rest h stops = cut_long v _ h (atoi-number v rest stops)

pub to_int-small : (k : ℕ) → k < 2 ^ 31 → to_int (pos k) ≡ pos k
unfolding to_int
to_int-small k h = ground arith
