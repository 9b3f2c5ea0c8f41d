-- ===== src/Commands/FixedBuilt.antt =====
-- The commands of a fixed shape are what they should be to a server.
use icore_tax_gateway.Base.{
  ℕ, ◌^◌, ◌≡◌, refl, Bool, true, false, Option, none, some, List, [], ◌∷◌, Bytes, codes, ◌&&◌, ◌||◌,
  not, if◌then◌else◌, map, arith, ltb, ltb→lt, Bool-cases, inl, inr,
}
use icore_tax_gateway.Base.Int.{ℤ, pos, negsuc, to_int, ltb_ℤ}
use icore_tax_gateway.Base.Text.{same_word, c_string}
use icore_tax_gateway.Zend.{Zend, ZendLaws}
use icore_tax_gateway.Zend.Decimal.{snprintf_ld}
use icore_tax_gateway.Resp.Sstr.{redis_key_prefix, set_slot}
use icore_tax_gateway.Resp.Spprintf.{
  Resparg, string, key, packed, double, int, long, redis_spprintf, append_args, append_arg,
  arg_slot, arg_word, redis_spprintf-Delivers,
}
use icore_tax_gateway.Commands.Fixed.{
  is_one, redis_empty_cmd, redis_opt_str_cmd, redis_str_cmd, redis_key_long_val_cmd,
  redis_key_long_str_cmd, redis_kv_cmd, redis_key_str_cmd, redis_key_str_str_cmd,
  redis_key_long_cmd, redis_long_long_cmd, redis_key_long_long_cmd, redis_key_cmd,
  redis_key_dbl_cmd, redis_atomic_increment, redis_incr_cmd, redis_decr_cmd, redis_hincrby_cmd,
  redis_hincrbyfloat_cmd, redis_hstrlen_cmd, redis_hsetnx_cmd, redis_zincrby_cmd,
  redis_bitcount_cmd, redis_lrem_cmd, redis_setbit_cmd, redis_linsert_cmd, redis_select_cmd,
}
use icore_tax_gateway.Commands.FixedWords.{
  Call, empty, opt_str, str, key_long_val, key_long_str, kv, key_str, key_str_str, key_long,
  long_long, key_long_long, only_key, key_dbl, incr, decr, hincrby, hincrbyfloat, hstrlen, hsetnx,
  zincrby, bitcount, lrem, setbit, linsert, select, InInt, Fits, to_int-InInt, run, call_words,
  call_slot, IsBuilt,
}

args_slot :
    ⦃z : Zend⦄ (prefix : Option Bytes) (args : List Resparg) (cmd cmd' : Bytes) (slot : Option ℕ)
    → (append_args prefix cmd slot args).1 ≡ (append_args prefix cmd' slot args).1
unfolding append_args
args_slot prefix [] cmd cmd' slot = refl
args_slot prefix (arg ∷ args) cmd cmd' slot =
    args_slot prefix args (append_arg prefix cmd arg) (append_arg prefix cmd' arg)
      (arg_slot prefix slot arg)

-- A guard that refuses just what should not be sent.
pub guarded :
    (refused sent : Bool) (x : Bytes × Option ℕ) (words : List Bytes) (slot : Option ℕ)
    → refused ≡ not sent
    → IsBuilt (some x) (some words) slot
    → IsBuilt (if refused then none else some x) (if sent then some words else none) slot
guarded true true x words slot e b = absurd (cc)
guarded true false x words slot e b = tt
guarded false true x words slot e b = b
guarded false false x words slot e b = absurd (cc)

refused_lem :
    (refused : Bool) (x : Bytes × Option ℕ) (slot : Option ℕ)
    → refused ≡ true
    → IsBuilt (if refused then none else some x) none slot
refused_lem true x slot e = tt
refused_lem false x slot e = cc

negative : (n : ℕ) (b : Bool) → (ltb_ℤ (negsuc n) (pos 0) || b) ≡ true
negative n b = ground arith

offset_range :
    (n : ℕ) → (ltb_ℤ (pos n) (pos 0) || ltb_ℤ (pos 4294967295) (pos n)) ≡ not (ltb n (2 ^ 32))
offset_range n = ground arith

db_range :
    (n : ℕ) → (ltb_ℤ (pos n) (pos 0) || ltb_ℤ (pos 2147483647) (pos n)) ≡ not (ltb n (2 ^ 31))
db_range n = ground arith

neither : (b c : Bool) → (not c && not b) ≡ not (b || c)
neither true true = refl
neither true false = refl
neither false true = refl
neither false false = refl

module _ ⦃z : Zend⦄ (laws : ZendLaws z) (prefix : Option Bytes) (slot : Option ℕ) where
  built :
      (kw : Bytes) (args : List Resparg)
      → IsBuilt
          (some (redis_spprintf prefix slot kw args))
          (some (kw ∷ map (arg_word prefix) args))
          (append_args prefix [] slot args).1
  unfolding redis_spprintf
  built kw args =
      (redis_spprintf-Delivers laws prefix slot kw args, args_slot prefix args _ [] slot)

  -- The numbers that are cast to an int are sent as they are if they fit.
  built_int :
      (kw k : Bytes) (n : ℤ) (after : List Resparg)
      → InInt n
      → IsBuilt
          (some (redis_spprintf prefix slot kw (key k ∷ int (to_int n) ∷ after)))
          (some (kw ∷ map (arg_word prefix) (key k ∷ int n ∷ after)))
          (append_args prefix [] slot (key k ∷ int n ∷ after)).1
  built_int kw k n after h = rw (to_int-InInt n h) (built kw (key k ∷ int n ∷ after))

  step_built :
      (one by k : Bytes) (n : ℤ)
      → IsBuilt
          (some (redis_atomic_increment prefix slot one by k n))
          (some (
            if is_one n
            then one ∷ redis_key_prefix prefix k ∷ []
            else by ∷ redis_key_prefix prefix k ∷ snprintf_ld n ∷ []))
          (set_slot slot (redis_key_prefix prefix k))
  unfolding redis_atomic_increment arg_word append_args arg_slot
  step_built one by k n = elim (Bool-cases (is_one n)) [
    | inl e ↦ rw e (built one (key k ∷ []))
    | inr e ↦ rw e (built by (key k ∷ long n ∷ []))
  ]

  -- Whatever the call, the prefix and the arguments, if the numbers that are cast to an int are in its range: a
  -- command is sent just where the offset of SETBIT, the position of LINSERT and the number of the database allow
  -- it; a server reads it as its keyword, the key behind the prefix if there is one, and the arguments in their
  -- order, with INCR for INCRBY 1; and a slot that is asked for is that of the prefixed key, or as it was without a key.
  pub fixed-IsBuilt :
      (c : Call)
      → Fits c
      → IsBuilt (run prefix slot c) (call_words prefix slot c) (call_slot prefix slot c)
  unfolding redis_empty_cmd redis_opt_str_cmd redis_str_cmd redis_key_long_val_cmd
      redis_key_long_str_cmd redis_kv_cmd redis_key_str_cmd redis_key_str_str_cmd redis_key_long_cmd
      redis_long_long_cmd redis_key_long_long_cmd redis_key_cmd redis_key_dbl_cmd redis_incr_cmd
      redis_decr_cmd redis_hincrby_cmd redis_hincrbyfloat_cmd redis_hstrlen_cmd redis_hsetnx_cmd
      redis_zincrby_cmd redis_bitcount_cmd redis_lrem_cmd redis_setbit_cmd redis_linsert_cmd
      redis_select_cmd arg_word append_args arg_slot
  fixed-IsBuilt (empty kw) h = built kw []
  fixed-IsBuilt (opt_str kw none) h = built kw []
  fixed-IsBuilt (opt_str kw (some s)) h = built kw (string s ∷ [])
  fixed-IsBuilt (str kw s) h = built kw (string s ∷ [])
  fixed-IsBuilt (key_long_val kw k n v) h = built kw (key k ∷ long n ∷ packed v ∷ [])
  fixed-IsBuilt (key_long_str kw k n s) h = built_int kw k n (string s ∷ []) h
  fixed-IsBuilt (kv kw k v) h = built kw (key k ∷ packed v ∷ [])
  fixed-IsBuilt (key_str kw k s) h = built kw (key k ∷ string s ∷ [])
  fixed-IsBuilt (key_str_str kw k s t) h = built kw (key k ∷ string s ∷ string t ∷ [])
  fixed-IsBuilt (key_long kw k n) h = built kw (key k ∷ long n ∷ [])
  fixed-IsBuilt (long_long kw m n) h = built kw (long m ∷ long n ∷ [])
  fixed-IsBuilt (key_long_long kw k m n) h = built kw (key k ∷ long m ∷ long n ∷ [])
  fixed-IsBuilt (only_key kw k) h = built kw (key k ∷ [])
  fixed-IsBuilt (key_dbl kw k d) h = built kw (key k ∷ double d ∷ [])
  fixed-IsBuilt (incr k n) h = step_built (codes "INCR") (codes "INCRBY") k n
  fixed-IsBuilt (decr k n) h = step_built (codes "DECR") (codes "DECRBY") k n
  fixed-IsBuilt (hincrby k s n) h = built (codes "HINCRBY") (key k ∷ string s ∷ long n ∷ [])
  fixed-IsBuilt (hincrbyfloat k s d) h =
      built (codes "HINCRBYFLOAT") (key k ∷ string s ∷ double d ∷ [])
  fixed-IsBuilt (hstrlen k s) h = built (codes "HSTRLEN") (key k ∷ string s ∷ [])
  fixed-IsBuilt (hsetnx k s v) h = built (codes "HSETNX") (key k ∷ string s ∷ packed v ∷ [])
  fixed-IsBuilt (zincrby k d v) h = built (codes "ZINCRBY") (key k ∷ double d ∷ packed v ∷ [])
  fixed-IsBuilt (bitcount k m n true) (h, h') =
      rw (to_int-InInt m h, to_int-InInt n h')
        (built (codes "BITCOUNT") (key k ∷ int m ∷ int n ∷ string (codes "BIT") ∷ []))
  fixed-IsBuilt (bitcount k m n false) (h, h') =
      rw (to_int-InInt m h, to_int-InInt n h')
        (built (codes "BITCOUNT") (key k ∷ int m ∷ int n ∷ []))
  fixed-IsBuilt (lrem k v n) h = built_int (codes "LREM") k n (packed v ∷ []) h
  fixed-IsBuilt (setbit k (negsuc n) b) h = refused_lem _ _ _ (negative n _)
  fixed-IsBuilt (setbit k (pos n) b) h =
      guarded _ (ltb n (2 ^ 32)) _ _ _ (offset_range n)
        (built (codes "SETBIT") (key k ∷ long (pos n) ∷ int (pos (if b then 1 else 0)) ∷ []))
  fixed-IsBuilt (linsert k s v u) h =
      guarded _ _ _ _ _
        (neither (same_word (c_string s) (codes "before")) (same_word (c_string s) (codes "after")))
        (built (codes "LINSERT") (key k ∷ string s ∷ packed v ∷ packed u ∷ []))
  fixed-IsBuilt (select (negsuc n)) h = refused_lem _ _ _ (negative n _)
  fixed-IsBuilt (select (pos n)) h = elim (Bool-cases (ltb n (2 ^ 31))) [
    | inl e ↦
        rw (db_range n, e, to_int-InInt (pos n) (ltb→lt n (2 ^ 31) e))
          (built (codes "SELECT") (int (pos n) ∷ []))
    | inr e ↦ rw (db_range n, e) tt
  ]
