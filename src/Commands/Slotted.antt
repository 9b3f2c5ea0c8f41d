-- ===== src/Commands/Slotted.antt =====
-- redis-6.0.2/redis_commands.c: commands with several keys, which a cluster wants in one slot.
use icore_tax_gateway.Base.{
  ℕ, zero, suc, ◌+◌, Bool, true, false, ◌&&◌, not, Option, none, some, List, [], ◌∷◌, Bytes, codes,
  ltb, ◌==◌, length, if◌then◌else◌,
}
use icore_tax_gateway.Base.Int.{ℤ, pos, negsuc}
use icore_tax_gateway.Zend.{
  Zend, Zval, is_null, is_long, is_double, is_array, HashTable, end, entry,
}
use icore_tax_gateway.Resp.Sstr.{
  redis_cmd_init_sstr, redis_cmd_append_sstr, redis_cmd_append_sstr_long, redis_cmd_append_sstr_dbl,
  redis_cmd_append_sstr_zval, redis_cmd_append_sstr_key,
}
use icore_tax_gateway.Commands.Lists.{num_elements}

-- `slot && *slot != slot2`
unfoldable pub differ : Option ℕ → Option ℕ → Bool
differ (some a) (some b) = not (a == b)
differ _ _ = false

-- `slot ? &slot2 : NULL`, where slot2 has any value before.
unfoldable pub second : Option ℕ → Option ℕ
second none = none
second (some old) = some 0

-- `kslot != -1 && *slot != kslot`; `none` is -1.
unfoldable pub differs_from : Option ℕ → Option ℕ → Bool
unfolding differ
differs_from kslot slot = differ kslot slot

unfoldable pub is_timeout : Zval → Bool
is_timeout (is_long n) = true
is_timeout (is_double d) = true
is_timeout _ = false

unfoldable pub array_values : HashTable → List Zval
array_values end = []
array_values (entry k v ht) = v ∷ array_values ht

unfoldable pub array_of : Zval → Option HashTable
array_of (is_array ht) = some ht
array_of _ = none

-- `single_array`, with the array.
unfoldable pub single_array : Bool → List Zval → Option HashTable
unfolding array_of
single_array false (a ∷ []) = array_of a
single_array true (a ∷ b ∷ []) = array_of a
single_array _ _ = none

unfoldable pub last_or : Zval → List Zval → Zval
last_or a [] = a
last_or a (b ∷ argv) = last_or b argv

-- `ztimeout`: argv[argc - 1], which is argv[1] behind a single array.
unfoldable pub timeout_of : Bool → List Zval → Zval
unfolding last_or
timeout_of true argv = last_or is_null argv
timeout_of false argv = is_null

-- `argv[i]` for `i < argc - 1`
unfoldable pub but_last : List Zval → List Zval
but_last [] = []
but_last (a ∷ []) = []
but_last (a ∷ b ∷ argv) = a ∷ but_last (b ∷ argv)

-- `argv[i]` for `i < argc - !!has_timeout`
unfoldable pub key_args : Bool → List Zval → List Zval
unfolding but_last
key_args true argv = but_last argv
key_args false argv = argv

-- EVAL: the arguments, of which the first are keys. `num_keys-- > 0` is counted down to 0.
unfoldable pub positive : ℤ → ℕ
positive (pos n) = n
positive (negsuc n) = 0

-- CMD_RAND_SLOT, with the slot that rand() gives.
unfoldable pub any_slot : ℕ → Option ℕ → Option ℕ
any_slot random none = none
any_slot random (some old) = some random

module _ ⦃z : Zend⦄ where
  -- A timeout is a long or a double.
  unfoldable pub append_timeout : Zval → Bytes → Bytes
  append_timeout (is_long n) cmd = redis_cmd_append_sstr_long cmd n
  append_timeout (is_double d) cmd = redis_cmd_append_sstr_dbl cmd d
  append_timeout _ cmd = cmd

module _ ⦃z : Zend⦄ (prefix : Option Bytes) where
  -- Keys from the front of the arguments; `none` is FAILURE, at the first key of another slot.
  unfoldable pub append_keys : Option ℕ → Option ℕ → Bytes → List Zval → Option (Bytes × Option ℕ)
  unfolding differs_from
  append_keys slot kslot cmd [] = some (cmd, slot)
  append_keys slot kslot cmd (k ∷ keys) =
      let (cmd', slot') = redis_cmd_append_sstr_key cmd (z.get_string k) prefix slot in
      let rest = append_keys slot' slot' cmd' keys in
      if differs_from kslot slot' then none else rest

  module _ (slot : Option ℕ) where
    unfoldable pub redis_key_key_cmd : Bytes → Bytes → Bytes → Option (Bytes × Option ℕ)
    unfolding differ second
    redis_key_key_cmd kw key1 key2 =
        let cmd = redis_cmd_init_sstr [] 2 kw in
        let (cmd₁, slot₁) = redis_cmd_append_sstr_key cmd key1 prefix slot in
        let (cmd₂, slot₂) = redis_cmd_append_sstr_key cmd₁ key2 prefix (second slot) in
        if differ slot₁ slot₂ then none else some (cmd₂, slot₁)

    unfoldable pub redis_smove_cmd : Bytes → Bytes → Zval → Option (Bytes × Option ℕ)
    unfolding differ second
    redis_smove_cmd src dst zv =
        let cmd = redis_cmd_init_sstr [] 3 (codes "SMOVE") in
        let (cmd₁, slot₁) = redis_cmd_append_sstr_key cmd src prefix slot in
        let (cmd₂, slot₂) = redis_cmd_append_sstr_key cmd₁ dst prefix (second slot) in
        let cmd₃ = redis_cmd_append_sstr_zval cmd₂ zv true in
        if differ slot₁ slot₂ then none else some (cmd₃, slot₁)

    unfoldable pub finish_keys : Zval → Option (Bytes × Option ℕ) → Option (Bytes × Option ℕ)
    unfolding append_timeout
    finish_keys timeout none = none
    finish_keys timeout (some (cmd, slot')) = some (append_timeout timeout cmd, slot')

    unfoldable pub varkey : Bytes → ℕ → List Zval → Zval → Option (Bytes × Option ℕ)
    unfolding append_keys finish_keys
    varkey kw argc keys timeout =
        finish_keys timeout (append_keys slot none (redis_cmd_init_sstr [] argc kw) keys)

    -- An array or the arguments have the keys.
    unfoldable pub varkey_of :
        Bytes → Bool → List Zval → Option HashTable → Option (Bytes × Option ℕ)
    unfolding varkey timeout_of key_args array_values num_elements
    varkey_of kw has_timeout argv none =
        varkey kw (length argv) (key_args has_timeout argv) (timeout_of has_timeout argv)
    varkey_of kw has_timeout argv (some ht) =
        if num_elements ht == 0
        then none
        else varkey kw (num_elements ht + (if has_timeout then 1 else 0)) (array_values ht)
            (timeout_of has_timeout argv)

    unfoldable pub gen_varkey_cmd : Bytes → Bool → List Zval → Option (Bytes × Option ℕ)
    unfolding varkey_of single_array timeout_of is_timeout
    gen_varkey_cmd kw has_timeout argv =
        if ltb (length argv) (if has_timeout then 2 else 1)
        then none
        else if has_timeout && not (is_timeout (timeout_of has_timeout argv))
        then none
        else varkey_of kw has_timeout argv (single_array has_timeout argv)

  unfoldable pub append_eval :
      Option ℕ → Option ℕ → ℕ → Bytes → List Zval → Option (Bytes × Option ℕ)
  unfolding differs_from
  append_eval slot prevslot num_keys cmd [] = some (cmd, slot)
  append_eval slot prevslot zero cmd (v ∷ argv) =
      append_eval slot prevslot zero (redis_cmd_append_sstr cmd (z.get_string v)) argv
  append_eval slot prevslot (suc n) cmd (v ∷ argv) =
      let (cmd', slot') = redis_cmd_append_sstr_key cmd (z.get_string v) prefix slot in
      let rest = append_eval slot' slot' n cmd' argv in
      if differs_from prevslot slot' then none else rest

  unfoldable pub redis_eval_cmd :
      ℕ → Option ℕ → Bytes → Bytes → List Zval → ℤ → Option (Bytes × Option ℕ)
  unfolding append_eval any_slot positive
  redis_eval_cmd random slot kw lua [] num_keys =
      let cmd = redis_cmd_append_sstr (redis_cmd_init_sstr [] 2 kw) lua in
      some (redis_cmd_append_sstr_long cmd num_keys, any_slot random slot)
  redis_eval_cmd random slot kw lua (v ∷ argv) num_keys =
      let cmd = redis_cmd_append_sstr (redis_cmd_init_sstr [] (2 + suc (length argv)) kw) lua in
      append_eval slot none (positive num_keys) (redis_cmd_append_sstr_long cmd num_keys) (v ∷ argv)
