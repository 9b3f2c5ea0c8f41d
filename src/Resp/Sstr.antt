-- ===== src/Resp/Sstr.antt =====
-- redis-6.0.2/library.c: the commands that are appended to a smart string. A smart string is the list
-- of its bytes; the returned length is the length of the returned list.
use icore_tax_gateway.Base.{
  ℕ, ◌+◌, Bool, Option, none, some, [], ◌∷◌, ◌++◌, Bytes, length, ◌==◌, if◌then◌else◌,
}
use icore_tax_gateway.Base.Int.{ℤ}
use icore_tax_gateway.Zend.{Zend, Zval, ZendKey, name, index}
use icore_tax_gateway.Zend.Decimal.{snprintf_ld}
use icore_tax_gateway.Cluster.HashKey.{cluster_hash_key}

-- _NL of common.h
abbrev pub nl : Bytes
nl = 13 ∷ 10 ∷ []

-- `redis_sock->prefix == NULL` leaves the key as it is.
unfoldable pub redis_key_prefix : Option Bytes → Bytes → Bytes
redis_key_prefix none key = key
redis_key_prefix (some prefix) key = prefix ++ key

-- `*slot = cluster_hash_key(key, len)`, where the caller passed a pointer.
unfoldable pub set_slot : Option ℕ → Bytes → Option ℕ
set_slot none key = none
set_slot (some old) key = some (cluster_hash_key key)

-- `if ((p = strchr(tmp, ',')) != NULL) *p = '.';`
unfoldable pub comma_to_point : Bytes → Bytes
comma_to_point [] = []
comma_to_point (c ∷ s) = if c == b',' then b'.' ∷ s else c ∷ comma_to_point s

module _ ⦃z : Zend⦄ where
  unfoldable pub redis_cmd_init_sstr : Bytes → ℕ → Bytes → Bytes
  redis_cmd_init_sstr str num_args keyword =
      let str₁ = str ++ b'*' ∷ [] in
      let str₂ = str₁ ++ z.append_long (num_args + 1) in
      let str₃ = str₂ ++ nl in
      let str₄ = str₃ ++ b'$' ∷ [] in
      let str₅ = str₄ ++ z.append_long (length keyword) in
      let str₆ = str₅ ++ nl in let str₇ = str₆ ++ keyword in str₇ ++ nl

  unfoldable pub redis_cmd_append_sstr : Bytes → Bytes → Bytes
  redis_cmd_append_sstr str append =
      let str₁ = str ++ b'$' ∷ [] in
      let str₂ = str₁ ++ z.append_long (length append) in
      let str₃ = str₂ ++ nl in let str₄ = str₃ ++ append in str₄ ++ nl

  unfoldable pub redis_cmd_append_sstr_int : Bytes → ℤ → Bytes
  unfolding redis_cmd_append_sstr
  redis_cmd_append_sstr_int str append = redis_cmd_append_sstr str (snprintf_ld append)

  unfoldable pub redis_cmd_append_sstr_long : Bytes → ℤ → Bytes
  unfolding redis_cmd_append_sstr
  redis_cmd_append_sstr_long str append = redis_cmd_append_sstr str (snprintf_ld append)

  unfoldable pub redis_cmd_append_sstr_dbl : Bytes → ℕ → Bytes
  unfolding redis_cmd_append_sstr
  redis_cmd_append_sstr_dbl str value =
      redis_cmd_append_sstr str (comma_to_point (z.format_double value))

  -- With a socket the value is packed, without one it is converted to a string.
  unfoldable pub redis_cmd_append_sstr_zval : Bytes → Zval → Bool → Bytes
  unfolding redis_cmd_append_sstr
  redis_cmd_append_sstr_zval str v has_sock =
      redis_cmd_append_sstr str (if has_sock then z.pack v else z.get_string v)

  unfoldable pub redis_cmd_append_sstr_key :
      Bytes → Bytes → Option Bytes → Option ℕ → Bytes × Option ℕ
  unfolding redis_cmd_append_sstr
  redis_cmd_append_sstr_key str key prefix slot =
      let key' = redis_key_prefix prefix key in (redis_cmd_append_sstr str key', set_slot slot key')

  unfoldable pub redis_cmd_append_sstr_arrkey : Bytes → ZendKey → Bytes
  unfolding redis_cmd_append_sstr
  redis_cmd_append_sstr_arrkey cmd (name kstr) = redis_cmd_append_sstr cmd kstr
  redis_cmd_append_sstr_arrkey cmd (index idx) = redis_cmd_append_sstr cmd (snprintf_ld idx)
