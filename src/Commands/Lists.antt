-- ===== src/Commands/Lists.antt =====
-- redis-6.0.2/redis_commands.c: commands with any number of values, fields or keys.
use icore_tax_gateway.Base.{
  ℕ, suc, ◌+◌, ◌*◌, Bool, true, false, Option, none, some, List, [], ◌∷◌, Bytes, codes, ltb, ◌==◌,
  ◌%◌, length, if◌then◌else◌,
}
use icore_tax_gateway.Zend.{
  Zend, Zval, is_long, is_string, is_array, HashTable, end, entry, ZendKey, name, index,
}
use icore_tax_gateway.Zend.Decimal.{snprintf_ld}
use icore_tax_gateway.Resp.Sstr.{
  redis_cmd_init_sstr, redis_cmd_append_sstr, redis_cmd_append_sstr_long,
  redis_cmd_append_sstr_zval, redis_cmd_append_sstr_key,
}

-- zend_hash_num_elements
unfoldable pub num_elements : HashTable → ℕ
num_elements end = 0
num_elements (entry k v ht) = suc (num_elements ht)

module _ ⦃z : Zend⦄ where
  -- for (i = 0; i < argc; i++), with a socket or none.
  unfoldable pub append_zvals : Bool → Bytes → List Zval → Bytes
  append_zvals pack cmd [] = cmd
  append_zvals pack cmd (v ∷ argv) = append_zvals pack (redis_cmd_append_sstr_zval cmd v pack) argv

  -- ZEND_HASH_FOREACH_VAL
  unfoldable pub append_values : Bool → Bytes → HashTable → Bytes
  append_values pack cmd end = cmd
  append_values pack cmd (entry k v ht) =
      append_values pack (redis_cmd_append_sstr_zval cmd v pack) ht

  unfoldable pub append_texts : Bytes → List Zval → Bytes
  append_texts cmd [] = cmd
  append_texts cmd (v ∷ argv) = append_texts (redis_cmd_append_sstr cmd (z.get_string v)) argv

  unfoldable pub append_field : Bytes → ZendKey → Bytes
  append_field cmd (name k) = redis_cmd_append_sstr cmd k
  append_field cmd (index idx) = redis_cmd_append_sstr_long cmd idx

  -- ZEND_HASH_FOREACH_KEY_VAL
  unfoldable pub append_fields : Bytes → HashTable → Bytes
  unfolding append_field
  append_fields cmd end = cmd
  append_fields cmd (entry k v ht) =
      append_fields (redis_cmd_append_sstr_zval (append_field cmd k) v true) ht

  -- A field is a text that is not empty, or a number; others are left out.
  unfoldable pub is_field : Zval → Bool
  is_field (is_string s) = ltb 0 (length s)
  is_field (is_long n) = true
  is_field _ = false

  unfoldable pub valid_fields : HashTable → List Zval
  unfolding is_field
  valid_fields end = []
  valid_fields (entry k v ht) = let rest = valid_fields ht in if is_field v then v ∷ rest else rest

  -- HSET with an array: elements with a number for a key are left out.
  unfoldable pub append_named : Bytes → HashTable → Bytes
  append_named cmd end = cmd
  append_named cmd (entry (index i) v ht) = append_named cmd ht
  append_named cmd (entry (name k) v ht) =
      append_named (redis_cmd_append_sstr_zval (redis_cmd_append_sstr cmd k) v true) ht

  -- Every other argument is a field.
  unfoldable pub append_alternating : Bytes → List Zval → Bytes
  append_alternating cmd [] = cmd
  append_alternating cmd (f ∷ []) = redis_cmd_append_sstr cmd (z.get_string f)
  append_alternating cmd (f ∷ v ∷ argv) =
      append_alternating
        (redis_cmd_append_sstr_zval (redis_cmd_append_sstr cmd (z.get_string f)) v true) argv

  module _ (prefix : Option Bytes) where
    -- redis_cmd_append_sstr_key_zstr, or redis_cmd_append_sstr_key_long, for no slot.
    unfoldable pub append_mset_key : Bytes → ZendKey → Bytes
    append_mset_key cmd (name k) = (redis_cmd_append_sstr_key cmd k prefix none).0
    append_mset_key cmd (index idx) =
        (redis_cmd_append_sstr_key cmd (snprintf_ld idx) prefix none).0

    unfoldable pub append_pairs : Bytes → HashTable → Bytes
    unfolding append_mset_key
    append_pairs cmd end = cmd
    append_pairs cmd (entry k v ht) =
        append_pairs (redis_cmd_append_sstr_zval (append_mset_key cmd k) v true) ht

  module _ (prefix : Option Bytes) (slot : Option ℕ) where
    -- The first argument as a key.
    unfoldable pub append_first_key : Bytes → Bytes → Bytes × Option ℕ
    append_first_key cmd k = redis_cmd_append_sstr_key cmd k prefix slot

    unfoldable pub redis_key_varval_cmd : Bytes → List Zval → Option (Bytes × Option ℕ)
    unfolding append_first_key append_zvals
    redis_key_varval_cmd kw [] = none
    redis_key_varval_cmd kw (k ∷ []) = none
    redis_key_varval_cmd kw (k ∷ v ∷ argv) =
        let cmd = redis_cmd_init_sstr [] (suc (suc (length argv))) kw in
        let (cmd', slot') = append_first_key cmd (z.get_string k) in
        some (append_zvals true cmd' (v ∷ argv), slot')

    unfoldable pub gen_key_arr_cmd : Bytes → Bool → Bytes → HashTable → Option (Bytes × Option ℕ)
    unfolding append_first_key append_values num_elements
    gen_key_arr_cmd kw pack_values k values =
        if num_elements values == 0
        then none
        else (let cmd = redis_cmd_init_sstr [] (1 + num_elements values) kw in
            let (cmd', slot') = append_first_key cmd k in
            some (append_values pack_values cmd' values, slot'))

    unfoldable pub redis_key_val_arr_cmd : Bytes → Bytes → HashTable → Option (Bytes × Option ℕ)
    unfolding gen_key_arr_cmd
    redis_key_val_arr_cmd kw k values = gen_key_arr_cmd kw true k values

    unfoldable pub redis_key_str_arr_cmd : Bytes → Bytes → HashTable → Option (Bytes × Option ℕ)
    unfolding gen_key_arr_cmd
    redis_key_str_arr_cmd kw k values = gen_key_arr_cmd kw false k values

    -- zend_parse_parameters refuses fewer than min_argc arguments.
    unfoldable pub gen_vararg_cmd : ℕ → Bytes → List Zval → Option (Bytes × Option ℕ)
    unfolding append_zvals
    gen_vararg_cmd min_argc kw argv =
        if ltb (length argv) min_argc
        then none
        else some (append_zvals false (redis_cmd_init_sstr [] (length argv) kw) argv, slot)

    unfoldable pub redis_hmset_cmd : Bytes → HashTable → Option (Bytes × Option ℕ)
    unfolding append_first_key append_fields num_elements
    redis_hmset_cmd k ht =
        if num_elements ht == 0
        then none
        else (let cmd = redis_cmd_init_sstr [] (1 + 2 * num_elements ht) (codes "HMSET") in
            let (cmd', slot') = append_first_key cmd k in some (append_fields cmd' ht, slot'))

    unfoldable pub redis_mset_cmd : Bytes → HashTable → Option (Bytes × Option ℕ)
    unfolding append_pairs num_elements
    redis_mset_cmd kw kvals =
        if num_elements kvals == 0
        then none
        else some
            (append_pairs prefix (redis_cmd_init_sstr [] (num_elements kvals * 2) kw) kvals, slot)

    unfoldable pub hmget_of : Bytes → List Zval → Option (Bytes × Option ℕ)
    unfolding append_first_key append_zvals
    hmget_of k [] = none
    hmget_of k (v ∷ zctx) =
        let cmd = redis_cmd_init_sstr [] (1 + length (v ∷ zctx)) (codes "HMGET") in
        let (cmd', slot') = append_first_key cmd k in
        some (append_zvals false cmd' (v ∷ zctx), slot')

    unfoldable pub redis_hmget_cmd : Bytes → HashTable → Option (Bytes × Option ℕ)
    unfolding hmget_of valid_fields
    redis_hmget_cmd k fields = hmget_of k (valid_fields fields)

    unfoldable pub redis_hdel_cmd : List Zval → Option (Bytes × Option ℕ)
    unfolding append_first_key append_texts
    redis_hdel_cmd [] = none
    redis_hdel_cmd (k ∷ []) = none
    redis_hdel_cmd (k ∷ v ∷ argv) =
        let cmd = redis_cmd_init_sstr [] (suc (suc (length argv))) (codes "HDEL") in
        let (cmd', slot') = append_first_key cmd (z.get_string k) in
        some (append_texts cmd' (v ∷ argv), slot')

    unfoldable pub hset_array : Zval → Zval → Option (Bytes × Option ℕ)
    unfolding append_first_key append_named num_elements
    hset_array k (is_array ht) =
        if num_elements ht == 0
        then none
        else (let cmd = redis_cmd_init_sstr [] (1 + num_elements ht) (codes "HSET") in
            let (cmd', slot') = append_first_key cmd (z.get_string k) in
            some (append_named cmd' ht, slot'))
    hset_array k _ = none

    unfoldable pub redis_hset_cmd : List Zval → Option (Bytes × Option ℕ)
    unfolding append_first_key hset_array append_alternating
    redis_hset_cmd [] = none
    redis_hset_cmd (k ∷ []) = none
    redis_hset_cmd (k ∷ v ∷ []) = hset_array k v
    redis_hset_cmd (k ∷ f ∷ v ∷ argv) =
        if (3 + length argv) % 2 == 0
        then none
        else (let cmd = redis_cmd_init_sstr [] (3 + length argv) (codes "HSET") in
            let (cmd', slot') = append_first_key cmd (z.get_string k) in
            some (append_alternating cmd' (f ∷ v ∷ argv), slot'))
