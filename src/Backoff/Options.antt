-- ===== src/Backoff/Options.antt =====
-- redis-6.0.2/library.c, `redis_sock_set_backoff`: the backoff settings from a PHP array.
use icore_tax_gateway.Base.{
  ℕ, ◌*◌, ◌%◌, ◌^◌, ◌<◌, ◌≡◌, Bool, true, false, Option, none, some, codes, arith, leb,
  if◌then◌else◌, Option-cases, inl, inr,
}
use icore_tax_gateway.Base.Int.{ℤ, pos, negsuc}
use icore_tax_gateway.Zend.{Zend, Zval, is_array, HashTable, ZendKey, end, entry, name, index}
use icore_tax_gateway.Backoff.{RedisBackoff, algorithms, redis_initialize_backoff}

module _ ⦃z : Zend⦄ where
  -- `none` is a value below zero or past the table.
  unfoldable pub set_algorithm : RedisBackoff → ℤ → Option RedisBackoff
  set_algorithm b (negsuc n) = none
  set_algorithm b (pos n) = if leb algorithms n then none else some (record b { algorithm = n })

  unfoldable pub set_base : RedisBackoff → ℤ → Option RedisBackoff
  set_base b (negsuc n) = none
  set_base b (pos n) = some (record b { base = n * 1000 % 2 ^ 64 })

  unfoldable pub set_cap : RedisBackoff → ℤ → Option RedisBackoff
  set_cap b (negsuc n) = none
  set_cap b (pos n) = some (record b { cap = n * 1000 % 2 ^ 64 })

  -- One element of the array; a key of another name is skipped with a warning.
  unfoldable pub set_one : RedisBackoff → ZendKey → Zval → Option RedisBackoff
  unfolding set_algorithm set_base set_cap
  set_one b (index i) v = some b
  set_one b (name zkey) v =
      if z.equals_ci zkey (codes "algorithm")
      then set_algorithm b (z.get_long v)
      else if z.equals_ci zkey (codes "base")
      then set_base b (z.get_long v)
      else if z.equals_ci zkey (codes "cap")
      then set_cap b (z.get_long v)
      else some b

  -- A refused value ends the loop, and what stands before it has been set.
  unfoldable pub set_loop : RedisBackoff → HashTable → RedisBackoff × Bool
  set_loop b end = (b, true)
  set_loop b (entry zkey v rest) = elim (set_one b zkey v) [
    | none ↦ (b, false)
    | some b' ↦ set_loop b' rest
  ]

  -- The state and whether it is SUCCESS.
  unfoldable pub redis_sock_set_backoff : RedisBackoff → Zval → RedisBackoff × Bool
  unfolding set_loop set_one
  redis_sock_set_backoff b (is_array options) = set_loop b options
  redis_sock_set_backoff b _ = (b, false)

-- The algorithm is one of the table, and the base and the cap fit their fields.
pub record IsValid (b : RedisBackoff) : Type 0 where
  pub known : b.algorithm < algorithms
  pub base_fits : b.base < 2 ^ 64
  pub cap_fits : b.cap < 2 ^ 64

pub initialize-IsValid :
    (retry_interval : ℕ)
    → retry_interval < 2 ^ 64
    → IsValid (redis_initialize_backoff retry_interval)
unfolding redis_initialize_backoff
initialize-IsValid retry_interval h = omega arith

module _ ⦃z : Zend⦄ where
  set_one-IsValid :
      (b b' : RedisBackoff) (zkey : ZendKey) (v : Zval)
      → IsValid b
      → set_one b zkey v ≡ some b'
      → IsValid b'
  unfolding set_one
  set_one-IsValid b b' (index i) v h e = ground arith
  set_one-IsValid b b' (name zkey) v h e = ground arith

  set_loop-IsValid : (b : RedisBackoff) (rest : HashTable) → IsValid b → IsValid (set_loop b rest).0
  unfolding set_loop
  set_loop-IsValid b end h = h
  set_loop-IsValid b (entry zkey v rest) h = elim (Option-cases (set_one b zkey v)) [
    | inl refused ↦ rw (refused, set_loop) h
    | inr (b', set) ↦
        rw (set, set_loop) (set_loop-IsValid b' rest (set_one-IsValid b b' zkey v h set))
  ]

  -- Whatever the options are, accepted or refused half-way, settings that are valid stay valid: the
  -- algorithm is one of the table, and the base and the cap are below 2^64.
  pub set_backoff-IsValid :
      (b : RedisBackoff) (options : Zval) → IsValid b → IsValid (redis_sock_set_backoff b options).0
  unfolding redis_sock_set_backoff
  set_backoff-IsValid b (is_array options) h = set_loop-IsValid b options h
  set_backoff-IsValid b _ h = h
