-- ===== src/Commands/ListCalls.antt =====
-- Commands with any number of values, fields or keys are what they should be to a server.
use icore_tax_gateway.Base.{
  ℕ, suc, ◌+◌, ◌*◌, ◌≡◌, refl, ap, sym, ◌∙◌, subst, Bool, true, false, not, Option, some, List, [],
  ◌∷◌, ◌++◌, Bytes, codes, arith, ltb, ◌==◌, ◌%◌, length, map, Bool-cases, inl, inr,
}
use icore_tax_gateway.Zend.{Zend, ZendLaws, Zval, HashTable, end, entry}
use icore_tax_gateway.Resp.Sstr.{
  redis_key_prefix, set_slot, redis_cmd_init_sstr, redis_cmd_append_sstr_key,
}
use icore_tax_gateway.Resp.Server.{Delivers}
use icore_tax_gateway.Resp.RoundTrip.{
  request, init-eq-request, append_key-request, request-Delivers,
}
use icore_tax_gateway.Commands.FixedWords.{IsBuilt}
use icore_tax_gateway.Commands.FixedBuilt.{guarded}
use icore_tax_gateway.Commands.Lists.{
  num_elements, append_zvals, append_values, append_texts, append_fields, valid_fields,
  append_alternating, append_first_key, redis_key_varval_cmd, gen_key_arr_cmd,
  redis_key_val_arr_cmd, redis_key_str_arr_cmd, gen_vararg_cmd, redis_hmset_cmd, append_pairs,
  redis_mset_cmd, hmget_of, redis_hmget_cmd, redis_hdel_cmd, redis_hset_cmd,
}
use icore_tax_gateway.Commands.ListsBuilt.{
  values_of, field_words, pair_words, alternating, value_word, zvals_step, values_step, texts_step,
  fields_step, pairs_step, alternating_step,
}
use icore_tax_gateway.Commands.ListWords.{
  ListCall, key_varval, key_val_arr, key_str_arr, vararg, hmset, mset, hmget, hdel, hset, run_list,
  full_key, arr_words, hmget_words, list_words, list_slot, IsPlain,
}

module _ ⦃z : Zend⦄ (laws : ZendLaws z) (prefix : Option Bytes) (slot : Option ℕ) where
  -- A request that announces as many words as it holds.
  pub whole_request :
      (n : ℕ) (words : List Bytes) (cmd : Bytes)
      → cmd ≡ request n words
      → length words ≡ n
      → Delivers cmd words
  whole_request n words cmd e counted =
      subst (λ c. Delivers c words) (sym (e ∙ ap (λ k. request k words) (sym counted)))
        (request-Delivers laws words)

  pub keyed_request :
      (n : ℕ) (kw k : Bytes)
      → append_first_key prefix slot (redis_cmd_init_sstr [] n kw) k ≡ (
        request (n + 1) (kw ∷ redis_key_prefix prefix k ∷ []),
        set_slot slot (redis_key_prefix prefix k),
      )
  unfolding append_first_key
  keyed_request n kw k =
      ap (λ c. redis_cmd_append_sstr_key c k prefix slot) (init-eq-request n kw)
      ∙ append_key-request (n + 1) (kw ∷ []) k prefix slot

  -- A key and what a loop appends behind it.
  keyed_built :
      (n : ℕ) (kw k : Bytes) (append : Bytes → Bytes) (more : List Bytes)
      → ((ws : List Bytes) → append (request (n + 1) ws) ≡ request (n + 1) (ws ++ more))
      → suc (length more) ≡ n
      → IsBuilt
          (some (
            append (append_first_key prefix slot (redis_cmd_init_sstr [] n kw) k).0,
            (append_first_key prefix slot (redis_cmd_init_sstr [] n kw) k).1,
          ))
          (some (kw ∷ redis_key_prefix prefix k ∷ more))
          (set_slot slot (redis_key_prefix prefix k))
  keyed_built n kw k append more step counted = (
    whole_request (n + 1) (kw ∷ redis_key_prefix prefix k ∷ more) _
        (ap (λ r. append r.0) (keyed_request n kw k) ∙ step (kw ∷ redis_key_prefix prefix k ∷ []))
        (omega (arith, counted)),
    ap (λ r. r.1) (keyed_request n kw k),
  )

pub length-map {ℓ κ} :
    {A : Type ℓ} {B : Type κ} (f : A → B) (xs : List A) → length (map f xs) ≡ length xs
length-map f [] = refl
length-map f (x ∷ xs) = ap suc (length-map f xs)

pub not_empty : (n : ℕ) → (suc n == 0) ≡ false
not_empty n = ground arith

length-values : (ht : HashTable) → length (values_of ht) ≡ num_elements ht
unfolding num_elements
length-values end = refl
length-values (entry k v ht) = ap suc (length-values ht)

odd_or_even : (n : ℕ) → ((3 + n) % 2 == 0) ≡ not (suc (suc n) % 2 == 0)
odd_or_even n = ground arith

module _ ⦃z : Zend⦄ where
  pub length-fields : (ht : HashTable) → length (field_words ht) ≡ 2 * num_elements ht
  unfolding num_elements
  length-fields end = refl
  length-fields (entry k v ht) = omega (arith, length-fields ht)

  length-pairs :
      (prefix : Option Bytes) (ht : HashTable) → length (pair_words prefix ht) ≡ num_elements ht * 2
  unfolding num_elements
  length-pairs prefix end = refl
  length-pairs prefix (entry k v ht) = omega (arith, length-pairs prefix ht)

  length-alternating : (argv : List Zval) → length (alternating argv) ≡ length argv
  length-alternating [] = refl
  length-alternating (f ∷ []) = refl
  length-alternating (f ∷ v ∷ argv) = ap (λ n. suc (suc n)) (length-alternating argv)

module _ ⦃z : Zend⦄ (laws : ZendLaws z) (prefix : Option Bytes) (slot : Option ℕ) where
  arr_built :
      (kw k : Bytes) (pack : Bool) (ht : HashTable)
      → IsBuilt
          (gen_key_arr_cmd prefix slot kw pack k ht)
          (arr_words prefix slot kw k pack ht)
          (set_slot slot (redis_key_prefix prefix k))
  unfolding gen_key_arr_cmd num_elements
  arr_built kw k pack end = tt
  arr_built kw k pack (entry i v ht) =
      let all = entry i v ht in
      rw (not_empty (num_elements ht)) (
        keyed_built laws prefix slot (1 + suc (num_elements ht)) kw k
          (λ c. append_values pack c all) (map (value_word pack) (values_of all))
          (λ ws. values_step pack (1 + suc (num_elements ht) + 1) all ws)
          (omega (arith, length-map (value_word pack) (values_of ht), length-values ht)))

  hmget_built :
      (k : Bytes) (fields : List Zval)
      → IsBuilt
          (hmget_of prefix slot k fields)
          (hmget_words prefix slot k fields)
          (set_slot slot (redis_key_prefix prefix k))
  unfolding hmget_of
  hmget_built k [] = tt
  hmget_built k (v ∷ fields) =
      keyed_built laws prefix slot (1 + length (v ∷ fields)) (codes "HMGET") k
        (λ c. append_zvals false c (v ∷ fields)) (map z.get_string (v ∷ fields))
        (λ ws. zvals_step false (1 + length (v ∷ fields) + 1) (v ∷ fields) ws)
        (omega (arith, length-map z.get_string fields))

  hset_built :
      (k f v : Zval) (argv : List Zval)
      → IsBuilt
          (redis_hset_cmd prefix slot (k ∷ f ∷ v ∷ argv))
          (list_words prefix slot (hset k (f ∷ v ∷ argv)))
          (set_slot slot (full_key prefix slot k))
  unfolding redis_hset_cmd append_alternating
  hset_built k f v argv =
      guarded ((3 + length argv) % 2 == 0) (suc (suc (length argv)) % 2 == 0) _ _ _
        (odd_or_even (length argv))
        (keyed_built laws prefix slot (3 + length argv) (codes "HSET") (z.get_string k)
          (λ c. append_alternating c (f ∷ v ∷ argv)) (alternating (f ∷ v ∷ argv))
          (λ ws. alternating_step (3 + length argv + 1) (f ∷ v ∷ argv) ws)
          (omega (arith, length-alternating argv)))

  -- Whatever the values, if HSET has fields and values as arguments of their own: a command is sent unless
  -- its elements are missing, too few, or of odd number (HSET); a server reads it as its keyword, the key
  -- behind the prefix where it has one key, and then each element in its order, packed or as a text, with the
  -- fields of an array in front of their values and the prefix on each key of MSET; HMGET leaves out what is no
  -- field. The slot is that of the one key, and as it was where there is no such key.
  pub list-IsBuilt :
      (c : ListCall)
      → IsPlain c
      → IsBuilt (run_list prefix slot c) (list_words prefix slot c) (list_slot prefix slot c)
  unfolding redis_key_varval_cmd redis_key_val_arr_cmd redis_key_str_arr_cmd gen_vararg_cmd
      redis_hmset_cmd redis_mset_cmd redis_hmget_cmd redis_hdel_cmd num_elements
  list-IsBuilt (key_varval kw []) h = tt
  list-IsBuilt (key_varval kw (k ∷ [])) h = tt
  list-IsBuilt (key_varval kw (k ∷ v ∷ argv)) h =
      keyed_built laws prefix slot (suc (suc (length argv))) kw (z.get_string k)
        (λ c. append_zvals true c (v ∷ argv)) (map z.pack (v ∷ argv))
        (λ ws. zvals_step true (suc (suc (length argv)) + 1) (v ∷ argv) ws)
        (omega (arith, length-map z.pack argv))
  list-IsBuilt (key_val_arr kw k ht) h = arr_built kw k true ht
  list-IsBuilt (key_str_arr kw k ht) h = arr_built kw k false ht
  list-IsBuilt (vararg min_argc kw argv) h = elim (Bool-cases (ltb (length argv) min_argc)) [
    | inl e ↦ rw e tt
    | inr e ↦ rw e (
      whole_request laws prefix slot (length argv + 1) (kw ∷ map z.get_string argv) _
          (ap (λ c. append_zvals false c argv) (init-eq-request (length argv) kw)
            ∙ zvals_step false (length argv + 1) argv (kw ∷ []))
          (omega (arith, length-map z.get_string argv)),
      refl,
    )
  ]
  list-IsBuilt (hmset k end) h = tt
  list-IsBuilt (hmset k (entry i v ht)) h = rw (not_empty (num_elements ht)) (
      keyed_built laws prefix slot (1 + 2 * suc (num_elements ht)) (codes "HMSET") k
        (λ c. append_fields c (entry i v ht)) (field_words (entry i v ht))
        (λ ws. fields_step (1 + 2 * suc (num_elements ht) + 1) (entry i v ht) ws)
        (omega (arith, length-fields ht)))
  list-IsBuilt (mset kw end) h = tt
  list-IsBuilt (mset kw (entry i v ht)) h =
      let all = entry i v ht in
      let n : ℕ = suc (num_elements ht) * 2 in
      rw (not_empty (num_elements ht)) (
        whole_request laws prefix slot (n + 1) (kw ∷ pair_words prefix all) _
            (ap (λ c. append_pairs prefix c all) (init-eq-request n kw)
              ∙ pairs_step prefix (n + 1) all (kw ∷ []))
            (omega (arith, length-pairs prefix ht)),
        refl,
      )
  list-IsBuilt (hmget k ht) h = hmget_built k (valid_fields ht)
  list-IsBuilt (hdel []) h = tt
  list-IsBuilt (hdel (k ∷ [])) h = tt
  list-IsBuilt (hdel (k ∷ v ∷ argv)) h =
      keyed_built laws prefix slot (suc (suc (length argv))) (codes "HDEL") (z.get_string k)
        (λ c. append_texts c (v ∷ argv)) (map z.get_string (v ∷ argv))
        (λ ws. texts_step (suc (suc (length argv)) + 1) (v ∷ argv) ws)
        (omega (arith, length-map z.get_string argv))
  list-IsBuilt (hset k []) h = absurd (omega (arith, h))
  list-IsBuilt (hset k (f ∷ [])) h = absurd (omega (arith, h))
  list-IsBuilt (hset k (f ∷ v ∷ argv)) h = hset_built k f v argv
