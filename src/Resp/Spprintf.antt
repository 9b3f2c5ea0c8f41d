-- ===== src/Resp/Spprintf.antt =====
-- redis-6.0.2/library.c, `redis_spprintf`: a command from a format and its arguments. An argument
-- stands with its specifier, so that a format and its arguments are one list.
use icore_tax_gateway.Base.{
  ℕ, suc, ◌+◌, ◌≡◌, refl, ap, ◌∙◌, subst, Option, List, [], ◌∷◌, ◌++◌, map, Bytes, arith, length,
  append_assoc, append-nil,
}
use icore_tax_gateway.Base.Int.{ℤ}
use icore_tax_gateway.Zend.{Zend, ZendLaws, Zval}
use icore_tax_gateway.Zend.Decimal.{snprintf_ld}
use icore_tax_gateway.Resp.Sstr.{
  redis_key_prefix, set_slot, comma_to_point, redis_cmd_init_sstr, redis_cmd_append_sstr,
  redis_cmd_append_sstr_int, redis_cmd_append_sstr_long, redis_cmd_append_sstr_dbl,
}
use icore_tax_gateway.Resp.Server.{Delivers}
use icore_tax_gateway.Resp.RoundTrip.{
  request, init-eq-request, append-request, append_int-request, append_long-request,
  append_dbl-request, request-Delivers,
}

-- `s` and `S` are strings, `k` is a key, `v` a value to pack, `f` a double, `i` and `d` are
-- numbers of the type int, and `l` is one of the type long.
pub data Resparg : Type 0 where
  string : Bytes → Resparg
  key : Bytes → Resparg
  packed : Zval → Resparg
  double : ℕ → Resparg
  int : ℤ → Resparg
  long : ℤ → Resparg

module _ ⦃z : Zend⦄ where
  unfoldable pub append_arg : Option Bytes → Bytes → Resparg → Bytes
  append_arg prefix cmd (string s) = redis_cmd_append_sstr cmd s
  append_arg prefix cmd (key s) = redis_cmd_append_sstr cmd (redis_key_prefix prefix s)
  append_arg prefix cmd (packed v) = redis_cmd_append_sstr cmd (z.pack v)
  append_arg prefix cmd (double d) = redis_cmd_append_sstr_dbl cmd d
  append_arg prefix cmd (int i) = redis_cmd_append_sstr_int cmd i
  append_arg prefix cmd (long l) = redis_cmd_append_sstr_long cmd l

  -- `if (slot) *slot = cluster_hash_key(...)`, for a key.
  unfoldable pub arg_slot : Option Bytes → Option ℕ → Resparg → Option ℕ
  arg_slot prefix slot (key s) = set_slot slot (redis_key_prefix prefix s)
  arg_slot prefix slot _ = slot

  unfoldable pub append_args : Option Bytes → Bytes → Option ℕ → List Resparg → Bytes × Option ℕ
  append_args prefix cmd slot [] = (cmd, slot)
  append_args prefix cmd slot (arg ∷ args) =
      append_args prefix (append_arg prefix cmd arg) (arg_slot prefix slot arg) args

  -- The command and the slot that is left where the caller asked for it.
  unfoldable pub redis_spprintf : Option Bytes → Option ℕ → Bytes → List Resparg → Bytes × Option ℕ
  redis_spprintf prefix slot kw args =
      append_args prefix (redis_cmd_init_sstr [] (length args) kw) slot args

  -- What each argument is to the server.
  unfoldable pub arg_word : Option Bytes → Resparg → Bytes
  arg_word prefix (string s) = s
  arg_word prefix (key s) = redis_key_prefix prefix s
  arg_word prefix (packed v) = z.pack v
  arg_word prefix (double d) = comma_to_point (z.format_double d)
  arg_word prefix (int i) = snprintf_ld i
  arg_word prefix (long l) = snprintf_ld l

  append_arg-request :
      (prefix : Option Bytes) (n : ℕ) (ws : List Bytes) (arg : Resparg)
      → append_arg prefix (request n ws) arg ≡ request n (ws ++ arg_word prefix arg ∷ [])
  unfolding append_arg arg_word
  append_arg-request prefix n ws (string s) = append-request n ws s
  append_arg-request prefix n ws (key s) = append-request n ws (redis_key_prefix prefix s)
  append_arg-request prefix n ws (packed v) = append-request n ws (z.pack v)
  append_arg-request prefix n ws (double d) = append_dbl-request n ws d
  append_arg-request prefix n ws (int i) = append_int-request n ws i
  append_arg-request prefix n ws (long l) = append_long-request n ws l

  append_args-request :
      (prefix : Option Bytes) (n : ℕ) (ws : List Bytes) (slot : Option ℕ) (args : List Resparg)
      → (append_args prefix (request n ws) slot args).0
        ≡ request n (ws ++ map (arg_word prefix) args)
  unfolding append_args
  append_args-request prefix n ws slot [] = rw append-nil
  append_args-request prefix n ws slot (arg ∷ args) =
      let next = arg_slot prefix slot arg in
      ap (λ cmd. (append_args prefix cmd next args).0) (append_arg-request prefix n ws arg)
      ∙ append_args-request prefix n (ws ++ arg_word prefix arg ∷ []) next args
      ∙ ap (request n) (append_assoc ws (arg_word prefix arg ∷ []) (map (arg_word prefix) args))

  words_count :
      (prefix : Option Bytes) (args : List Resparg)
      → suc (length (map (arg_word prefix) args)) ≡ length args + 1
  words_count prefix [] = refl
  words_count prefix (arg ∷ args) = omega (arith, words_count prefix args)

module _ ⦃z : Zend⦄ (laws : ZendLaws z) where
  -- Whatever bytes the keyword and the arguments hold, and if PHP prints numbers by their digits, a
  -- server reads the command as the keyword and one word for each argument, with a key behind the
  -- prefix, and takes no more.
  pub redis_spprintf-Delivers :
      (prefix : Option Bytes) (slot : Option ℕ) (kw : Bytes) (args : List Resparg)
      → Delivers (redis_spprintf prefix slot kw args).0 (kw ∷ map (arg_word prefix) args)
  unfolding redis_spprintf
  redis_spprintf-Delivers prefix slot kw args =
      let words = kw ∷ map (arg_word prefix) args in
      rw (init-eq-request, append_args-request)
        (subst (λ k. Delivers (request k words) words) (words_count prefix args)
          (request-Delivers laws words))
