-- ===== src/Commands/Set.antt =====
-- SET and its options: `redis_set_cmd`.
use icore_tax_gateway.Base.{
  ℕ, ◌+◌, Bool, true, false, ◌||◌, ◌&&◌, not, Option, none, some, [], ◌∷◌, Bytes, codes,
  if◌then◌else◌,
}
use icore_tax_gateway.Base.Int.{ℤ, pos, negsuc, ltb_ℤ}
use icore_tax_gateway.Base.Text.{c_string}
use icore_tax_gateway.Zend.{
  Zend, Zval, is_null, is_long, is_double, is_string, is_array, HashTable, end, entry, ZendKey,
  name, index,
}
use icore_tax_gateway.Sock.Read.{atol}
use icore_tax_gateway.Resp.Sstr.{
  redis_cmd_init_sstr, redis_cmd_append_sstr, redis_cmd_append_sstr_long,
  redis_cmd_append_sstr_zval, redis_cmd_append_sstr_key,
}
use icore_tax_gateway.Resp.Spprintf.{key, long, packed, redis_spprintf}

-- The options of SET, as the local variables of redis_set_cmd.
pub record SetOptions : Type 0 where
  pub exp_set : Bool
  pub exp_type : Option Bytes
  pub expire : ℤ
  pub set_type : Option Bytes
  pub keep_ttl : Bool
  pub get : Bool

abbrev pub no_options : SetOptions
no_options = record {
  exp_set = false;
  exp_type = none;
  expire = negsuc 0;
  set_type = none;
  keep_ttl = false;
  get = false;
}

unfoldable pub is_given {ℓ} : {A : Type ℓ} → Option A → Bool
is_given none = false
is_given (some a) = true

module _ ⦃z : Zend⦄ where
  unfoldable pub is_expire_key : Bytes → Bool
  is_expire_key zkey =
      z.equals_ci zkey (codes "EX")
      || z.equals_ci zkey (codes "PX")
      || z.equals_ci zkey (codes "EXAT")
      || z.equals_ci zkey (codes "PXAT")

  -- The timeout of an option, if it is a long or a string.
  unfoldable pub option_expire : Zval → ℤ → ℤ
  option_expire (is_long n) expire = n
  option_expire (is_string s) expire = atol s
  option_expire _ expire = expire

  -- An option that is named by a value.
  unfoldable pub word_option : Bytes → SetOptions → SetOptions
  word_option v o =
      if z.equals_ci v (codes "KEEPTTL")
      then record o { keep_ttl = true }
      else if z.equals_ci v (codes "GET")
      then record o { get = true }
      else if z.equals_ci v (codes "NX") || z.equals_ci v (codes "XX")
      then record o { set_type = some (c_string v) }
      else o

  unfoldable pub value_option : Zval → SetOptions → SetOptions
  unfolding word_option
  value_option (is_string v) o = word_option v o
  value_option _ o = o

  unfoldable pub set_option : ZendKey → Zval → SetOptions → SetOptions
  unfolding is_expire_key option_expire value_option
  set_option (index i) v o = value_option v o
  set_option (name zkey) v o =
      if is_expire_key zkey
      then record o {
        exp_set = true;
        exp_type = some (c_string zkey);
        expire = option_expire v o.expire;
      }
      else value_option v o

  -- ZEND_HASH_FOREACH_STR_KEY_VAL
  unfoldable pub set_options : HashTable → SetOptions → SetOptions
  unfolding set_option
  set_options end o = o
  set_options (entry zkey v kt) o = set_options kt (set_option zkey v o)

  -- is_numeric_string of PHP: the long, or the double cut to a long.
  module _ (is_numeric : Bytes → Option ℤ) where
    unfoldable pub redis_try_get_expiry : Zval → Option ℤ
    redis_try_get_expiry (is_long n) = some (z.get_long (is_long n))
    redis_try_get_expiry (is_double d) = some (z.get_long (is_double d))
    redis_try_get_expiry (is_string s) = is_numeric s
    redis_try_get_expiry _ = none

    -- An expire time without a type.
    unfoldable pub plain_expire : Option ℤ → Option SetOptions
    plain_expire none = none
    plain_expire (some expire) = some (record no_options { exp_set = true; expire = expire })

    -- The options, where there is no argument, null, an array or a time.
    unfoldable pub read_options : Option Zval → Option SetOptions
    unfolding set_options redis_try_get_expiry plain_expire
    read_options none = some no_options
    read_options (some is_null) = some no_options
    read_options (some (is_array kt)) = some (set_options kt no_options)
    read_options (some z_opts) = plain_expire (redis_try_get_expiry z_opts)

  unfoldable pub set_argc : SetOptions → ℕ
  unfolding is_given
  set_argc o =
      2
      + (if is_given o.exp_type then 2 else 0)
      + (if is_given o.set_type then 1 else 0)
      + (if o.keep_ttl then 1 else 0)
      + (if o.get then 1 else 0)

  unfoldable pub append_expire : Option Bytes → ℤ → Bytes → Bytes
  append_expire none expire cmd = cmd
  append_expire (some exp_type) expire cmd =
      redis_cmd_append_sstr_long (redis_cmd_append_sstr cmd exp_type) expire

  unfoldable pub append_set_type : Option Bytes → Bytes → Bytes
  append_set_type none cmd = cmd
  append_set_type (some set_type) cmd = redis_cmd_append_sstr cmd set_type

  unfoldable pub append_flag : Bool → Bytes → Bytes → Bytes
  append_flag flag word cmd = if flag then redis_cmd_append_sstr cmd word else cmd

  -- SET with its options; and the slot.
  unfoldable pub full_set : Option Bytes → Option ℕ → Bytes → Zval → SetOptions → Bytes × Option ℕ
  unfolding set_argc append_expire append_set_type append_flag
  full_set prefix slot key_name value o =
      let cmd = redis_cmd_init_sstr [] (set_argc o) (codes "SET") in
      let keyed = redis_cmd_append_sstr_key cmd key_name prefix slot in
      let cmd₁ = redis_cmd_append_sstr_zval keyed.0 value true in
      let cmd₂ = append_set_type o.set_type (append_expire o.exp_type o.expire cmd₁) in
      (append_flag o.get (codes "GET") (append_flag o.keep_ttl (codes "KEEPTTL") cmd₂), keyed.1)

  -- `exp_set && expire < 1`, or KEEPTTL with a type
  unfoldable pub refused_options : SetOptions → Bool
  unfolding is_given
  refused_options o = o.exp_set && ltb_ℤ o.expire (pos 1) || is_given o.exp_type && o.keep_ttl

  -- `expire > 0 && !exp_type && !set_type && !keep_ttl`
  unfoldable pub is_setex : SetOptions → Bool
  unfolding is_given
  is_setex o =
      ltb_ℤ (pos 0) o.expire
      && not (is_given o.exp_type)
      && not (is_given o.set_type)
      && not o.keep_ttl

  unfoldable pub setex : Option Bytes → Option ℕ → Bytes → Zval → ℤ → Bytes × Option ℕ
  setex prefix slot key_name value expire =
      redis_spprintf prefix slot (codes "SETEX") (key key_name ∷ long expire ∷ packed value ∷ [])

  -- The command, its slot and whether the reply is the old value, once the options are read; `none` is FAILURE.
  unfoldable pub send_set :
      Option Bytes → Option ℕ → Bytes → Zval → Option SetOptions → Option (Bytes × Option ℕ × Bool)
  unfolding refused_options is_setex full_set setex
  send_set prefix slot key_name value none = none
  send_set prefix slot key_name value (some o) =
      if refused_options o
      then none
      else if is_setex o
      then (let (cmd, slot') = setex prefix slot key_name value o.expire in
          some (cmd, slot', false))
      else (let (cmd, slot') = full_set prefix slot key_name value o in some (cmd, slot', o.get))

  unfoldable pub redis_set_cmd :
      (Bytes → Option ℤ)
      → Option Bytes
      → Option ℕ
      → Bytes
      → Zval
      → Option Zval
      → Option (Bytes × Option ℕ × Bool)
  unfolding send_set read_options
  redis_set_cmd is_numeric prefix slot key_name value z_opts =
      send_set prefix slot key_name value (read_options is_numeric z_opts)
