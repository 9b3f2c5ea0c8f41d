-- ===== src/Zend.antt =====
-- What redis-6.0.2 takes from PHP: the values that a call passes, and the functions of the Zend API
-- that the modelled code calls. Those are not part of the repository, so they are fields of a record
-- that every caller takes as an instance, with what the code relies on in `ZendLaws`.
pub mod Decimal
pub mod Host
use icore_tax_gateway.Base.{
  ℕ, suc, ◌+◌, ◌-◌, ◌*◌, ◌<◌, ◌≤◌, ◌≡◌, ◌≢◌, Bool, List, [], ◌∷◌, Bytes, All,
}
use icore_tax_gateway.Base.Int.{ℤ}

-- A key of a PHP array: a string, or the number of an element.
pub data ZendKey : Type 0 where
  name : Bytes → ZendKey
  index : ℤ → ZendKey

-- A zval. A double is the pattern of its 64 bits.
mutual
  pub data Zval : Type 0 where
    is_null : Zval
    is_bool : Bool → Zval
    is_long : ℤ → Zval
    is_double : ℕ → Zval
    is_string : Bytes → Zval
    is_array : HashTable → Zval
    is_object : ℕ → Zval

  -- The elements of an array, in the order in which ZEND_HASH_FOREACH visits them.
  pub data HashTable : Type 0 where
    end : HashTable
    entry : ZendKey → Zval → HashTable → HashTable

pub record Zend : Type 0 where
  -- smart_string_append_long and smart_str_append_long, at a number that is not negative.
  pub append_long : ℕ → Bytes
  -- zend_string_equals_literal_ci.
  pub equals_ci : Bytes → Bytes → Bool
  -- zval_get_string, zval_get_long and zval_is_true.
  pub get_string : Zval → Bytes
  pub get_long : Zval → ℤ
  pub is_true : Zval → Bool
  -- snprintf with "%.17g", whose decimal point depends on the locale.
  pub format_double : ℕ → Bytes
  -- php_serialize and its kin, through redis_pack.
  pub pack : Zval → Bytes

abbrev pub IsDigit : ℕ → Type 0
IsDigit c = (b'0' ≤ c) × (c ≤ b'9')

-- The number that a row of digits stands for, after the digits that have been read.
abbrev pub digits_value : ℕ → Bytes → ℕ
digits_value acc [] = acc
digits_value acc (c ∷ s) = digits_value (acc * 10 + (c - b'0')) s

-- The documented behaviour of the Zend functions, as far as a theorem relies on it.
pub record ZendLaws (z : Zend) : Type 0 where
  pub append_long_digits : (n : ℕ) → All IsDigit (z.append_long n)
  pub append_long_ne : (n : ℕ) → z.append_long n ≢ []
  pub append_long_value : (n : ℕ) → digits_value 0 (z.append_long n) ≡ n
