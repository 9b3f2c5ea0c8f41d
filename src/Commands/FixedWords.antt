-- ===== src/Commands/FixedWords.antt =====
-- What the commands of a fixed shape should be to a server.
use icore_tax_gateway.Base.{
  ℕ, ◌^◌, ◌<◌, ◌≡◌, Bool, true, false, Option, none, some, List, [], ◌∷◌, Bytes, codes, ◌||◌,
  if◌then◌else◌, arith, ltb,
}
use icore_tax_gateway.Base.Int.{ℤ, pos, negsuc, to_int}
use icore_tax_gateway.Base.Text.{same_word, c_string}
use icore_tax_gateway.Zend.{Zend, Zval}
use icore_tax_gateway.Zend.Decimal.{snprintf_ld}
use icore_tax_gateway.Resp.Sstr.{redis_key_prefix, set_slot, comma_to_point}
use icore_tax_gateway.Resp.Server.{Delivers}
use icore_tax_gateway.Commands.Fixed.{
  is_one, redis_empty_cmd, redis_opt_str_cmd, redis_str_cmd, redis_key_long_val_cmd,
  redis_key_long_str_cmd, redis_kv_cmd, redis_key_str_cmd, redis_key_str_str_cmd,
  redis_key_long_cmd, redis_long_long_cmd, redis_key_long_long_cmd, redis_key_cmd,
  redis_key_dbl_cmd, redis_incr_cmd, redis_decr_cmd, redis_hincrby_cmd, redis_hincrbyfloat_cmd,
  redis_hstrlen_cmd, redis_hsetnx_cmd, redis_zincrby_cmd, redis_bitcount_cmd, redis_lrem_cmd,
  redis_setbit_cmd, redis_linsert_cmd, redis_select_cmd,
}

-- A call with its arguments.
pub data Call : Type 0 where
  empty : Bytes → Call
  opt_str : Bytes → Option Bytes → Call
  str : Bytes → Bytes → Call
  key_long_val : Bytes → Bytes → ℤ → Zval → Call
  key_long_str : Bytes → Bytes → ℤ → Bytes → Call
  kv : Bytes → Bytes → Zval → Call
  key_str : Bytes → Bytes → Bytes → Call
  key_str_str : Bytes → Bytes → Bytes → Bytes → Call
  key_long : Bytes → Bytes → ℤ → Call
  long_long : Bytes → ℤ → ℤ → Call
  key_long_long : Bytes → Bytes → ℤ → ℤ → Call
  only_key : Bytes → Bytes → Call
  key_dbl : Bytes → Bytes → ℕ → Call
  incr : Bytes → ℤ → Call
  decr : Bytes → ℤ → Call
  hincrby : Bytes → Bytes → ℤ → Call
  hincrbyfloat : Bytes → Bytes → ℕ → Call
  hstrlen : Bytes → Bytes → Call
  hsetnx : Bytes → Bytes → Zval → Call
  zincrby : Bytes → ℕ → Zval → Call
  bitcount : Bytes → ℤ → ℤ → Bool → Call
  lrem : Bytes → Zval → ℤ → Call
  setbit : Bytes → ℤ → Bool → Call
  linsert : Bytes → Bytes → Zval → Zval → Call
  select : ℤ → Call

-- The range of an int.
abbrev pub InInt : ℤ → Type 0
InInt (pos n) = n < 2 ^ 31
InInt (negsuc n) = n < 2 ^ 31

-- The numbers that the code casts to an int are in its range.
abbrev pub Fits : Call → Type 0
Fits (key_long_str kw k lval val) = InInt lval
Fits (bitcount k start end isbit) = InInt start × InInt end
Fits (lrem k v count) = InInt count
Fits _ = Unit

pub to_int-InInt : (v : ℤ) → InInt v → to_int v ≡ v
unfolding to_int
to_int-InInt (pos n) h = ground arith
to_int-InInt (negsuc n) h = ground arith

module _ ⦃z : Zend⦄ (prefix : Option Bytes) (slot : Option ℕ) where
  abbrev pub run : Call → Option (Bytes × Option ℕ)
  run (empty kw) = some (redis_empty_cmd prefix slot kw)
  run (opt_str kw arg) = some (redis_opt_str_cmd prefix slot kw arg)
  run (str kw arg) = some (redis_str_cmd prefix slot kw arg)
  run (key_long_val kw k n v) = some (redis_key_long_val_cmd prefix slot kw k n v)
  run (key_long_str kw k n s) = some (redis_key_long_str_cmd prefix slot kw k n s)
  run (kv kw k v) = some (redis_kv_cmd prefix slot kw k v)
  run (key_str kw k s) = some (redis_key_str_cmd prefix slot kw k s)
  run (key_str_str kw k s t) = some (redis_key_str_str_cmd prefix slot kw k s t)
  run (key_long kw k n) = some (redis_key_long_cmd prefix slot kw k n)
  run (long_long kw m n) = some (redis_long_long_cmd prefix slot kw m n)
  run (key_long_long kw k m n) = some (redis_key_long_long_cmd prefix slot kw k m n)
  run (only_key kw k) = some (redis_key_cmd prefix slot kw k)
  run (key_dbl kw k d) = some (redis_key_dbl_cmd prefix slot kw k d)
  run (incr k n) = some (redis_incr_cmd prefix slot k n)
  run (decr k n) = some (redis_decr_cmd prefix slot k n)
  run (hincrby k s n) = some (redis_hincrby_cmd prefix slot k s n)
  run (hincrbyfloat k s d) = some (redis_hincrbyfloat_cmd prefix slot k s d)
  run (hstrlen k s) = some (redis_hstrlen_cmd prefix slot k s)
  run (hsetnx k s v) = some (redis_hsetnx_cmd prefix slot k s v)
  run (zincrby k d v) = some (redis_zincrby_cmd prefix slot k d v)
  run (bitcount k m n b) = some (redis_bitcount_cmd prefix slot k m n b)
  run (lrem k v n) = some (redis_lrem_cmd prefix slot k v n)
  run (setbit k n b) = redis_setbit_cmd prefix slot k n b
  run (linsert k s v u) = redis_linsert_cmd prefix slot k s v u
  run (select n) = redis_select_cmd prefix slot n

  -- INCRBY by 1 is INCR.
  abbrev pub step_words : Bytes → Bytes → Bytes → ℤ → List Bytes
  step_words one by k n = if is_one n then one ∷ k ∷ [] else by ∷ k ∷ snprintf_ld n ∷ []

  -- A key as the server should see it, a value, and a double.
  abbrev pub full : Bytes → Bytes
  full k = redis_key_prefix prefix k

  abbrev pub text_of_double : ℕ → Bytes
  text_of_double d = comma_to_point (z.format_double d)

  -- The words of a call, if it is one that should be sent.
  abbrev pub call_words : Call → Option (List Bytes)
  call_words (empty kw) = some (kw ∷ [])
  call_words (opt_str kw none) = some (kw ∷ [])
  call_words (opt_str kw (some s)) = some (kw ∷ s ∷ [])
  call_words (str kw s) = some (kw ∷ s ∷ [])
  call_words (key_long_val kw k n v) = some (kw ∷ full k ∷ snprintf_ld n ∷ z.pack v ∷ [])
  call_words (key_long_str kw k n s) = some (kw ∷ full k ∷ snprintf_ld n ∷ s ∷ [])
  call_words (kv kw k v) = some (kw ∷ full k ∷ z.pack v ∷ [])
  call_words (key_str kw k s) = some (kw ∷ full k ∷ s ∷ [])
  call_words (key_str_str kw k s t) = some (kw ∷ full k ∷ s ∷ t ∷ [])
  call_words (key_long kw k n) = some (kw ∷ full k ∷ snprintf_ld n ∷ [])
  call_words (long_long kw m n) = some (kw ∷ snprintf_ld m ∷ snprintf_ld n ∷ [])
  call_words (key_long_long kw k m n) = some (kw ∷ full k ∷ snprintf_ld m ∷ snprintf_ld n ∷ [])
  call_words (only_key kw k) = some (kw ∷ full k ∷ [])
  call_words (key_dbl kw k d) = some (kw ∷ full k ∷ text_of_double d ∷ [])
  call_words (incr k n) = some (step_words (codes "INCR") (codes "INCRBY") (full k) n)
  call_words (decr k n) = some (step_words (codes "DECR") (codes "DECRBY") (full k) n)
  call_words (hincrby k s n) = some (codes "HINCRBY" ∷ full k ∷ s ∷ snprintf_ld n ∷ [])
  call_words (hincrbyfloat k s d) = some (codes "HINCRBYFLOAT" ∷ full k ∷ s ∷ text_of_double d ∷ [])
  call_words (hstrlen k s) = some (codes "HSTRLEN" ∷ full k ∷ s ∷ [])
  call_words (hsetnx k s v) = some (codes "HSETNX" ∷ full k ∷ s ∷ z.pack v ∷ [])
  call_words (zincrby k d v) = some (codes "ZINCRBY" ∷ full k ∷ text_of_double d ∷ z.pack v ∷ [])
  call_words (bitcount k m n true) =
      some (codes "BITCOUNT" ∷ full k ∷ snprintf_ld m ∷ snprintf_ld n ∷ codes "BIT" ∷ [])
  call_words (bitcount k m n false) =
      some (codes "BITCOUNT" ∷ full k ∷ snprintf_ld m ∷ snprintf_ld n ∷ [])
  call_words (lrem k v n) = some (codes "LREM" ∷ full k ∷ snprintf_ld n ∷ z.pack v ∷ [])
  call_words (setbit k (negsuc n) b) = none
  call_words (setbit k (pos n) b) =
      if ltb n (2 ^ 32)
      then some (
          codes "SETBIT"
          ∷ full k
          ∷ snprintf_ld (pos n)
          ∷ snprintf_ld (pos (if b then 1 else 0))
          ∷ [])
      else none
  call_words (linsert k s v u) =
      if same_word (c_string s) (codes "before") || same_word (c_string s) (codes "after")
      then some (codes "LINSERT" ∷ full k ∷ s ∷ z.pack v ∷ z.pack u ∷ [])
      else none
  call_words (select (negsuc n)) = none
  call_words (select (pos n)) =
      if ltb n (2 ^ 31) then some (codes "SELECT" ∷ snprintf_ld (pos n) ∷ []) else none

  -- The slot of the key, if there is one, where a slot is asked for.
  abbrev pub call_slot : Call → Option ℕ
  call_slot (empty kw) = slot
  call_slot (opt_str kw s) = slot
  call_slot (str kw s) = slot
  call_slot (long_long kw m n) = slot
  call_slot (select n) = slot
  call_slot (key_long_val kw k n v) = set_slot slot (full k)
  call_slot (key_long_str kw k n s) = set_slot slot (full k)
  call_slot (kv kw k v) = set_slot slot (full k)
  call_slot (key_str kw k s) = set_slot slot (full k)
  call_slot (key_str_str kw k s t) = set_slot slot (full k)
  call_slot (key_long kw k n) = set_slot slot (full k)
  call_slot (key_long_long kw k m n) = set_slot slot (full k)
  call_slot (only_key kw k) = set_slot slot (full k)
  call_slot (key_dbl kw k d) = set_slot slot (full k)
  call_slot (incr k n) = set_slot slot (full k)
  call_slot (decr k n) = set_slot slot (full k)
  call_slot (hincrby k s n) = set_slot slot (full k)
  call_slot (hincrbyfloat k s d) = set_slot slot (full k)
  call_slot (hstrlen k s) = set_slot slot (full k)
  call_slot (hsetnx k s v) = set_slot slot (full k)
  call_slot (zincrby k d v) = set_slot slot (full k)
  call_slot (bitcount k m n b) = set_slot slot (full k)
  call_slot (lrem k v n) = set_slot slot (full k)
  call_slot (setbit k n b) = set_slot slot (full k)
  call_slot (linsert k s v u) = set_slot slot (full k)

-- Sent as these words and with this slot, or refused.
abbrev pub IsBuilt : Option (Bytes × Option ℕ) → Option (List Bytes) → Option ℕ → Type 0
IsBuilt none none slot = Unit
IsBuilt (some (cmd, slot')) (some words) slot = Delivers cmd words × (slot' ≡ slot)
IsBuilt _ _ slot = ⊥
