-- ===== src/Commands/SetMeant.antt =====
-- What the argument with the options of SET means, by the times and the words that stand in it.
use icore_tax_gateway.Base.{
  ◌≡◌, refl, ap, ◌∙◌, Bool, true, false, ◌||◌, ◌&&◌, not, Option, none, some, List, [], ◌∷◌, Bytes,
  codes, Bool-cases, inl, inr, if◌then◌else◌,
}
use icore_tax_gateway.Base.Int.{ℤ}
use icore_tax_gateway.Base.Text.{c_string}
use icore_tax_gateway.Zend.{
  Zend, Zval, is_null, is_long, is_double, is_string, is_array, HashTable, end, entry, name, index,
}
use icore_tax_gateway.Commands.Set.{
  SetOptions, no_options, is_expire_key, option_expire, word_option, value_option, set_option,
  set_options, redis_try_get_expiry, plain_expire, read_options,
}

module _ ⦃z : Zend⦄ where
  abbrev is_time_key : Bytes → Bool
  is_time_key k =
      z.equals_ci k (codes "EX")
      || z.equals_ci k (codes "PX")
      || z.equals_ci k (codes "EXAT")
      || z.equals_ci k (codes "PXAT")

  abbrev is_keep : Bytes → Bool
  is_keep v = z.equals_ci v (codes "KEEPTTL")

  abbrev is_get : Bytes → Bool
  is_get v = not (is_keep v) && z.equals_ci v (codes "GET")

  abbrev is_side : Bytes → Bool
  is_side v =
      not (is_keep v)
      && not (z.equals_ci v (codes "GET"))
      && (z.equals_ci v (codes "NX") || z.equals_ci v (codes "XX"))

  -- The elements that are times: those with the name of a type of time.
  abbrev times : HashTable → List (Bytes × Zval)
  times end = []
  times (entry (name k) v ht) = if is_time_key k then (k, v) ∷ times ht else times ht
  times (entry (index i) v ht) = times ht

  abbrev with_word : Zval → List Bytes → List Bytes
  with_word (is_string s) words = s ∷ words
  with_word _ words = words

  -- The strings among the other elements, whatever their names.
  abbrev words : HashTable → List Bytes
  words end = []
  words (entry (name k) v ht) = if is_time_key k then words ht else with_word v (words ht)
  words (entry (index i) v ht) = with_word v (words ht)

  abbrev any_of : (Bytes → Bool) → List Bytes → Bool → Bool
  any_of p [] before = before
  any_of p (w ∷ ws) before = any_of p ws (if p w then true else before)

  abbrev any_time : List (Bytes × Zval) → Bool → Bool
  any_time [] before = before
  any_time (t ∷ ts) before = any_time ts true

  abbrev last_type : List (Bytes × Zval) → Option Bytes → Option Bytes
  last_type [] before = before
  last_type ((k, v) ∷ ts) before = last_type ts (some (c_string k))

  abbrev last_time : List (Bytes × Zval) → ℤ → ℤ
  last_time [] before = before
  last_time ((k, v) ∷ ts) before = last_time ts (option_expire v before)

  abbrev last_side : List Bytes → Option Bytes → Option Bytes
  last_side [] before = before
  last_side (w ∷ ws) before = last_side ws (if is_side w then some (c_string w) else before)

  -- The last time with its type, the last of NX and XX, and whether KEEPTTL and GET are there.
  abbrev options_of : List (Bytes × Zval) → List Bytes → SetOptions → SetOptions
  options_of ts ws o = record {
    exp_set = any_time ts o.exp_set;
    exp_type = last_type ts o.exp_type;
    expire = last_time ts o.expire;
    set_type = last_side ws o.set_type;
    keep_ttl = any_of is_keep ws o.keep_ttl;
    get = any_of is_get ws o.get;
  }

  word_meant :
      (ts : List (Bytes × Zval)) (v : Bytes) (ws : List Bytes) (o : SetOptions)
      → options_of ts ws (word_option v o) ≡ options_of ts (v ∷ ws) o
  unfolding word_option
  word_meant ts v ws o = elim (Bool-cases (z.equals_ci v (codes "KEEPTTL"))) [
    | inl keep ↦ rw keep refl
    | inr other ↦ elim (Bool-cases (z.equals_ci v (codes "GET"))) [
      | inl old ↦ rw (other, old) refl
      | inr new ↦ elim (Bool-cases (z.equals_ci v (codes "NX") || z.equals_ci v (codes "XX"))) [
        | inl side ↦ rw (other, new, side) refl
        | inr strange ↦ rw (other, new, strange) refl
      ]
    ]
  ]

  value_meant :
      (ts : List (Bytes × Zval)) (v : Zval) (ws : List Bytes) (o : SetOptions)
      → options_of ts ws (value_option v o) ≡ options_of ts (with_word v ws) o
  unfolding value_option
  value_meant ts (is_string v) ws o = word_meant ts v ws o
  value_meant ts _ ws o = refl

  array_meant :
      (ht : HashTable) (o : SetOptions) → set_options ht o ≡ options_of (times ht) (words ht) o
  unfolding set_options set_option is_expire_key
  array_meant end o = refl
  array_meant (entry (index i) v ht) o =
      array_meant ht (value_option v o) ∙ value_meant (times ht) v (words ht) o
  array_meant (entry (name k) v ht) o = elim (Bool-cases (is_time_key k)) [
    | inl time ↦ array_meant ht (set_option (name k) v o) ∙ rw time refl
    | inr other ↦
        array_meant ht (set_option (name k) v o) ∙ rw other (value_meant (times ht) v (words ht) o)
  ]

  -- A time without a type, where it is a number.
  abbrev plain_time : Option ℤ → Option SetOptions
  plain_time none = none
  plain_time (some n) = some (record {
    exp_set = true;
    exp_type = none;
    expire = n;
    set_type = none;
    keep_ttl = false;
    get = false;
  })

  abbrev pub options_meant : (Bytes → Option ℤ) → Option Zval → Option SetOptions
  options_meant is_numeric none = some no_options
  options_meant is_numeric (some is_null) = some no_options
  options_meant is_numeric (some (is_array ht)) = some (options_of (times ht) (words ht) no_options)
  options_meant is_numeric (some (is_long n)) = plain_time (some (z.get_long (is_long n)))
  options_meant is_numeric (some (is_double d)) = plain_time (some (z.get_long (is_double d)))
  options_meant is_numeric (some (is_string s)) = plain_time (is_numeric s)
  options_meant is_numeric (some _) = none

  plain_meant :
      (is_numeric : Bytes → Option ℤ) (n : Option ℤ) → plain_expire is_numeric n ≡ plain_time n
  unfolding plain_expire
  plain_meant is_numeric none = refl
  plain_meant is_numeric (some n) = refl

  pub options_lem :
      (is_numeric : Bytes → Option ℤ) (z_opts : Option Zval)
      → read_options is_numeric z_opts ≡ options_meant is_numeric z_opts
  unfolding read_options redis_try_get_expiry
  options_lem is_numeric none = refl
  options_lem is_numeric (some is_null) = refl
  options_lem is_numeric (some (is_array ht)) = ap some (array_meant ht no_options)
  options_lem is_numeric (some (is_long n)) = plain_meant is_numeric (some (z.get_long (is_long n)))
  options_lem is_numeric (some (is_double d)) =
      plain_meant is_numeric (some (z.get_long (is_double d)))
  options_lem is_numeric (some (is_string s)) = plain_meant is_numeric (is_numeric s)
  options_lem is_numeric (some _) = plain_meant is_numeric none
