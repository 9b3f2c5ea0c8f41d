-- ===== src/Zend/Host.antt =====
-- An instance of the Zend interface, which shows that its laws can hold: a string is its bytes, a
-- number its digits, and nothing else has text.
use icore_tax_gateway.Base.{Bool, false, Bytes, []}
use icore_tax_gateway.Base.Int.{ℤ, pos}
use icore_tax_gateway.Base.Text.{same_word}
use icore_tax_gateway.Zend.{Zend, ZendLaws, Zval, is_bool, is_long, is_string}
use icore_tax_gateway.Zend.Decimal.{decimal, snprintf_ld, decimal-digits, decimal-value, decimal-ne}

unfoldable pub text_of : Zval → Bytes
text_of (is_long n) = snprintf_ld n
text_of (is_string s) = s
text_of _ = []

unfoldable pub number_of : Zval → ℤ
number_of (is_long n) = n
number_of _ = pos 0

unfoldable pub truth_of : Zval → Bool
truth_of (is_bool b) = b
truth_of _ = false

abbrev pub host : Zend
host = record {
  append_long = decimal;
  equals_ci = same_word;
  get_string = text_of;
  get_long = number_of;
  is_true = truth_of;
  format_double = decimal;
  pack = text_of;
}

pub host_laws : ZendLaws host
host_laws = record {
  append_long_digits = decimal-digits;
  append_long_ne = decimal-ne;
  append_long_value = decimal-value;
}
