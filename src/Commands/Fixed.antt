-- ===== src/Commands/Fixed.antt =====
-- redis-6.0.2/redis_commands.c: the commands of a fixed shape, each a call of redis_spprintf. What
-- zend_parse_parameters makes of the arguments of PHP is the input.
use icore_tax_gateway.Base.{
  ℕ, zero, suc, Bool, true, false, Option, none, some, [], ◌∷◌, Bytes, codes, ◌&&◌, ◌||◌, not,
  if◌then◌else◌,
}
use icore_tax_gateway.Base.Int.{ℤ, pos, to_int, ltb_ℤ}
use icore_tax_gateway.Base.Text.{same_word, c_string}
use icore_tax_gateway.Zend.{Zend, Zval}
use icore_tax_gateway.Resp.Spprintf.{string, key, packed, double, int, long, redis_spprintf}

unfoldable pub is_one : ℤ → Bool
is_one (pos (suc zero)) = true
is_one _ = false

module _ ⦃z : Zend⦄ (prefix : Option Bytes) (slot : Option ℕ) where
  unfoldable pub redis_empty_cmd : Bytes → Bytes × Option ℕ
  redis_empty_cmd kw = redis_spprintf prefix slot kw []

  unfoldable pub redis_opt_str_cmd : Bytes → Option Bytes → Bytes × Option ℕ
  redis_opt_str_cmd kw none = redis_spprintf prefix slot kw []
  redis_opt_str_cmd kw (some arg) = redis_spprintf prefix slot kw (string arg ∷ [])

  unfoldable pub redis_str_cmd : Bytes → Bytes → Bytes × Option ℕ
  redis_str_cmd kw arg = redis_spprintf prefix slot kw (string arg ∷ [])

  unfoldable pub redis_key_long_val_cmd : Bytes → Bytes → ℤ → Zval → Bytes × Option ℕ
  redis_key_long_val_cmd kw k expire z_val =
      redis_spprintf prefix slot kw (key k ∷ long expire ∷ packed z_val ∷ [])

  -- The number is cast to an int.
  unfoldable pub redis_key_long_str_cmd : Bytes → Bytes → ℤ → Bytes → Bytes × Option ℕ
  redis_key_long_str_cmd kw k lval val =
      redis_spprintf prefix slot kw (key k ∷ int (to_int lval) ∷ string val ∷ [])

  unfoldable pub redis_kv_cmd : Bytes → Bytes → Zval → Bytes × Option ℕ
  redis_kv_cmd kw k z_val = redis_spprintf prefix slot kw (key k ∷ packed z_val ∷ [])

  unfoldable pub redis_key_str_cmd : Bytes → Bytes → Bytes → Bytes × Option ℕ
  redis_key_str_cmd kw k val = redis_spprintf prefix slot kw (key k ∷ string val ∷ [])

  unfoldable pub redis_key_str_str_cmd : Bytes → Bytes → Bytes → Bytes → Bytes × Option ℕ
  redis_key_str_str_cmd kw k v1 v2 =
      redis_spprintf prefix slot kw (key k ∷ string v1 ∷ string v2 ∷ [])

  unfoldable pub redis_key_long_cmd : Bytes → Bytes → ℤ → Bytes × Option ℕ
  redis_key_long_cmd kw k lval = redis_spprintf prefix slot kw (key k ∷ long lval ∷ [])

  unfoldable pub redis_long_long_cmd : Bytes → ℤ → ℤ → Bytes × Option ℕ
  redis_long_long_cmd kw l1 l2 = redis_spprintf prefix slot kw (long l1 ∷ long l2 ∷ [])

  unfoldable pub redis_key_long_long_cmd : Bytes → Bytes → ℤ → ℤ → Bytes × Option ℕ
  redis_key_long_long_cmd kw k val1 val2 =
      redis_spprintf prefix slot kw (key k ∷ long val1 ∷ long val2 ∷ [])

  unfoldable pub redis_key_cmd : Bytes → Bytes → Bytes × Option ℕ
  redis_key_cmd kw k = redis_spprintf prefix slot kw (key k ∷ [])

  unfoldable pub redis_key_dbl_cmd : Bytes → Bytes → ℕ → Bytes × Option ℕ
  redis_key_dbl_cmd kw k val = redis_spprintf prefix slot kw (key k ∷ double val ∷ [])

  -- The value that is added is 1 if none is given.
  unfoldable pub redis_atomic_increment : Bytes → Bytes → Bytes → ℤ → Bytes × Option ℕ
  unfolding is_one
  redis_atomic_increment one by k val =
      if is_one val
      then redis_spprintf prefix slot one (key k ∷ [])
      else redis_spprintf prefix slot by (key k ∷ long val ∷ [])

  unfoldable pub redis_incr_cmd : Bytes → ℤ → Bytes × Option ℕ
  unfolding redis_atomic_increment
  redis_incr_cmd k val = redis_atomic_increment (codes "INCR") (codes "INCRBY") k val

  unfoldable pub redis_decr_cmd : Bytes → ℤ → Bytes × Option ℕ
  unfolding redis_atomic_increment
  redis_decr_cmd k val = redis_atomic_increment (codes "DECR") (codes "DECRBY") k val

  unfoldable pub redis_hincrby_cmd : Bytes → Bytes → ℤ → Bytes × Option ℕ
  redis_hincrby_cmd k mem byval =
      redis_spprintf prefix slot (codes "HINCRBY") (key k ∷ string mem ∷ long byval ∷ [])

  unfoldable pub redis_hincrbyfloat_cmd : Bytes → Bytes → ℕ → Bytes × Option ℕ
  redis_hincrbyfloat_cmd k mem byval =
      redis_spprintf prefix slot (codes "HINCRBYFLOAT") (key k ∷ string mem ∷ double byval ∷ [])

  unfoldable pub redis_hstrlen_cmd : Bytes → Bytes → Bytes × Option ℕ
  redis_hstrlen_cmd k field =
      redis_spprintf prefix slot (codes "HSTRLEN") (key k ∷ string field ∷ [])

  unfoldable pub redis_hsetnx_cmd : Bytes → Bytes → Zval → Bytes × Option ℕ
  redis_hsetnx_cmd k mem z_val =
      redis_spprintf prefix slot (codes "HSETNX") (key k ∷ string mem ∷ packed z_val ∷ [])

  unfoldable pub redis_zincrby_cmd : Bytes → ℕ → Zval → Bytes × Option ℕ
  redis_zincrby_cmd k incrby z_val =
      redis_spprintf prefix slot (codes "ZINCRBY") (key k ∷ double incrby ∷ packed z_val ∷ [])

  unfoldable pub redis_bitcount_cmd : Bytes → ℤ → ℤ → Bool → Bytes × Option ℕ
  redis_bitcount_cmd k start end isbit =
      if isbit
      then redis_spprintf prefix slot (codes "BITCOUNT")
          (key k ∷ int (to_int start) ∷ int (to_int end) ∷ string (codes "BIT") ∷ [])
      else redis_spprintf prefix slot (codes "BITCOUNT")
          (key k ∷ int (to_int start) ∷ int (to_int end) ∷ [])

  -- The count is a long that redis_spprintf reads as an int.
  unfoldable pub redis_lrem_cmd : Bytes → Zval → ℤ → Bytes × Option ℕ
  redis_lrem_cmd k z_val count =
      redis_spprintf prefix slot (codes "LREM") (key k ∷ int (to_int count) ∷ packed z_val ∷ [])

  -- SETBIT, with an offset from 0 to 2^32 - 1; `none` is FAILURE.
  unfoldable pub redis_setbit_cmd : Bytes → ℤ → Bool → Option (Bytes × Option ℕ)
  redis_setbit_cmd k offset val =
      if ltb_ℤ offset (pos 0) || ltb_ℤ (pos 4294967295) offset
      then none
      else some (
          redis_spprintf prefix slot (codes "SETBIT")
            (key k ∷ long offset ∷ int (pos (if val then 1 else 0)) ∷ []))

  unfoldable pub redis_linsert_cmd : Bytes → Bytes → Zval → Zval → Option (Bytes × Option ℕ)
  redis_linsert_cmd k pos' z_pivot z_val =
      if not (same_word (c_string pos') (codes "after"))
        && not (same_word (c_string pos') (codes "before"))
      then none
      else some (
          redis_spprintf prefix slot (codes "LINSERT")
            (key k ∷ string pos' ∷ packed z_pivot ∷ packed z_val ∷ []))

  unfoldable pub redis_select_cmd : ℤ → Option (Bytes × Option ℕ)
  redis_select_cmd db =
      if ltb_ℤ db (pos 0) || ltb_ℤ (pos 2147483647) db
      then none
      else some (redis_spprintf prefix slot (codes "SELECT") (int (to_int db) ∷ []))
