-- ===== src/Commands/ListWords.antt =====
-- What the commands with any number of values, fields or keys should be to a server.
use icore_tax_gateway.Base.{
  ℕ, ◌≤◌, Bool, true, false, Option, none, some, List, [], ◌∷◌, Bytes, codes, ltb, ◌==◌, ◌%◌,
  length, if◌then◌else◌, map,
}
use icore_tax_gateway.Zend.{Zend, Zval, HashTable, end, entry}
use icore_tax_gateway.Resp.Sstr.{redis_key_prefix, set_slot}
use icore_tax_gateway.Commands.Lists.{
  valid_fields, redis_key_varval_cmd, redis_key_val_arr_cmd, redis_key_str_arr_cmd, gen_vararg_cmd,
  redis_hmset_cmd, redis_mset_cmd, redis_hmget_cmd, redis_hdel_cmd, redis_hset_cmd,
}
use icore_tax_gateway.Commands.ListsBuilt.{
  values_of, field_words, pair_words, alternating, value_word,
}

-- A call with its arguments.
pub data ListCall : Type 0 where
  key_varval : Bytes → List Zval → ListCall
  key_val_arr key_str_arr : Bytes → Bytes → HashTable → ListCall
  vararg : ℕ → Bytes → List Zval → ListCall
  hmset : Bytes → HashTable → ListCall
  mset : Bytes → HashTable → ListCall
  hmget : Bytes → HashTable → ListCall
  hdel : List Zval → ListCall
  hset : Zval → List Zval → ListCall

module _ ⦃z : Zend⦄ (prefix : Option Bytes) (slot : Option ℕ) where
  abbrev pub run_list : ListCall → Option (Bytes × Option ℕ)
  run_list (key_varval kw argv) = redis_key_varval_cmd prefix slot kw argv
  run_list (key_val_arr kw k ht) = redis_key_val_arr_cmd prefix slot kw k ht
  run_list (key_str_arr kw k ht) = redis_key_str_arr_cmd prefix slot kw k ht
  run_list (vararg min_argc kw argv) = gen_vararg_cmd prefix slot min_argc kw argv
  run_list (hmset k ht) = redis_hmset_cmd prefix slot k ht
  run_list (mset kw ht) = redis_mset_cmd prefix slot kw ht
  run_list (hmget k ht) = redis_hmget_cmd prefix slot k ht
  run_list (hdel argv) = redis_hdel_cmd prefix slot argv
  run_list (hset k argv) = redis_hset_cmd prefix slot (k ∷ argv)

  abbrev pub full_key : Zval → Bytes
  full_key k = redis_key_prefix prefix (z.get_string k)

  -- Nothing is sent for no elements.
  abbrev pub arr_words : Bytes → Bytes → Bool → HashTable → Option (List Bytes)
  arr_words kw k pack end = none
  arr_words kw k pack (entry i v ht) =
      some (kw ∷ redis_key_prefix prefix k ∷ map (value_word pack) (values_of (entry i v ht)))

  abbrev pub hmget_words : Bytes → List Zval → Option (List Bytes)
  hmget_words k [] = none
  hmget_words k (v ∷ fields) =
      some (codes "HMGET" ∷ redis_key_prefix prefix k ∷ map z.get_string (v ∷ fields))

  -- The words of a call, if it is one that should be sent.
  abbrev pub list_words : ListCall → Option (List Bytes)
  list_words (key_varval kw []) = none
  list_words (key_varval kw (k ∷ [])) = none
  list_words (key_varval kw (k ∷ v ∷ argv)) = some (kw ∷ full_key k ∷ map z.pack (v ∷ argv))
  list_words (key_val_arr kw k ht) = arr_words kw k true ht
  list_words (key_str_arr kw k ht) = arr_words kw k false ht
  list_words (vararg min_argc kw argv) =
      if ltb (length argv) min_argc then none else some (kw ∷ map z.get_string argv)
  list_words (hmset k end) = none
  list_words (hmset k (entry i v ht)) =
      some (codes "HMSET" ∷ redis_key_prefix prefix k ∷ field_words (entry i v ht))
  list_words (mset kw end) = none
  list_words (mset kw (entry i v ht)) = some (kw ∷ pair_words prefix (entry i v ht))
  list_words (hmget k ht) = hmget_words k (valid_fields ht)
  list_words (hdel []) = none
  list_words (hdel (k ∷ [])) = none
  list_words (hdel (k ∷ v ∷ argv)) = some (codes "HDEL" ∷ full_key k ∷ map z.get_string (v ∷ argv))
  list_words (hset k argv) =
      if length argv % 2 == 0 then some (codes "HSET" ∷ full_key k ∷ alternating argv) else none

  abbrev pub first_slot : List Zval → Option ℕ
  first_slot [] = slot
  first_slot (k ∷ argv) = set_slot slot (full_key k)

  -- The slot of the key, if the command has one.
  abbrev pub list_slot : ListCall → Option ℕ
  list_slot (key_varval kw argv) = first_slot argv
  list_slot (key_val_arr kw k ht) = set_slot slot (redis_key_prefix prefix k)
  list_slot (key_str_arr kw k ht) = set_slot slot (redis_key_prefix prefix k)
  list_slot (vararg min_argc kw argv) = slot
  list_slot (hmset k ht) = set_slot slot (redis_key_prefix prefix k)
  list_slot (mset kw ht) = slot
  list_slot (hmget k ht) = set_slot slot (redis_key_prefix prefix k)
  list_slot (hdel argv) = first_slot argv
  list_slot (hset k argv) = set_slot slot (full_key k)

-- HSET with an array, or with a key alone, is another matter.
abbrev pub IsPlain : ListCall → Type 0
IsPlain (hset k argv) = 2 ≤ length argv
IsPlain _ = Unit
