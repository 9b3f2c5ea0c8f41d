-- ===== src/Commands/ListsBuilt.antt =====
-- The words that the loops over values, fields and pairs append.
use icore_tax_gateway.Base.{
  ℕ, ◌≡◌, ap, ◌∙◌, Bool, true, Option, none, List, [], ◌∷◌, ◌++◌, Bytes, if◌then◌else◌, map,
  append_assoc, append-nil,
}
use icore_tax_gateway.Zend.{Zend, Zval, HashTable, end, entry, ZendKey, name, index}
use icore_tax_gateway.Zend.Decimal.{snprintf_ld}
use icore_tax_gateway.Resp.Sstr.{redis_key_prefix, redis_cmd_append_sstr_zval}
use icore_tax_gateway.Resp.RoundTrip.{
  request, append-request, append_long-request, append_zval-request, append_key-request,
}
use icore_tax_gateway.Commands.Lists.{
  append_zvals, append_values, append_texts, append_field, append_fields, append_alternating,
  append_mset_key, append_pairs,
}

-- The values of an array in their order.
abbrev pub values_of : HashTable → List Zval
values_of end = []
values_of (entry k v ht) = v ∷ values_of ht

abbrev pub field_name : ZendKey → Bytes
field_name (name k) = k
field_name (index i) = snprintf_ld i

module _ ⦃z : Zend⦄ where
  -- A value as it is stored, or as a text.
  abbrev pub value_word : Bool → Zval → Bytes
  value_word pack v = if pack then z.pack v else z.get_string v

  -- Fields and values in turn.
  abbrev pub field_words : HashTable → List Bytes
  field_words end = []
  field_words (entry k v ht) = field_name k ∷ z.pack v ∷ field_words ht

  abbrev pub pair_words : Option Bytes → HashTable → List Bytes
  pair_words prefix end = []
  pair_words prefix (entry k v ht) =
      redis_key_prefix prefix (field_name k) ∷ z.pack v ∷ pair_words prefix ht

  abbrev pub alternating : List Zval → List Bytes
  alternating [] = []
  alternating (f ∷ []) = z.get_string f ∷ []
  alternating (f ∷ v ∷ argv) = z.get_string f ∷ z.pack v ∷ alternating argv

  pub zvals_step :
      (pack : Bool) (n : ℕ) (argv : List Zval) (ws : List Bytes)
      → append_zvals pack (request n ws) argv ≡ request n (ws ++ map (value_word pack) argv)
  unfolding append_zvals
  zvals_step pack n [] ws = rw append-nil
  zvals_step pack n (v ∷ argv) ws =
      ap (λ c. append_zvals pack c argv) (append_zval-request n ws v pack)
      ∙ zvals_step pack n argv (ws ++ value_word pack v ∷ [])
      ∙ ap (request n) (append_assoc ws (value_word pack v ∷ []) (map (value_word pack) argv))

  pub values_step :
      (pack : Bool) (n : ℕ) (ht : HashTable) (ws : List Bytes)
      → append_values pack (request n ws) ht
        ≡ request n (ws ++ map (value_word pack) (values_of ht))
  unfolding append_values
  values_step pack n end ws = rw append-nil
  values_step pack n (entry k v ht) ws =
      ap (λ c. append_values pack c ht) (append_zval-request n ws v pack)
      ∙ values_step pack n ht (ws ++ value_word pack v ∷ [])
      ∙ ap (request n)
          (append_assoc ws (value_word pack v ∷ []) (map (value_word pack) (values_of ht)))

  pub texts_step :
      (n : ℕ) (argv : List Zval) (ws : List Bytes)
      → append_texts (request n ws) argv ≡ request n (ws ++ map z.get_string argv)
  unfolding append_texts
  texts_step n [] ws = rw append-nil
  texts_step n (v ∷ argv) ws =
      ap (λ c. append_texts c argv) (append-request n ws (z.get_string v))
      ∙ texts_step n argv (ws ++ z.get_string v ∷ [])
      ∙ ap (request n) (append_assoc ws (z.get_string v ∷ []) (map z.get_string argv))

  field_step :
      (n : ℕ) (k : ZendKey) (ws : List Bytes)
      → append_field (request n ws) k ≡ request n (ws ++ field_name k ∷ [])
  unfolding append_field
  field_step n (name k) ws = append-request n ws k
  field_step n (index i) ws = append_long-request n ws i

  -- A field and its value.
  pub both_step :
      (n : ℕ) (w : Bytes) (v : Zval) (ws : List Bytes)
      → redis_cmd_append_sstr_zval (request n (ws ++ w ∷ [])) v true
        ≡ request n (ws ++ w ∷ z.pack v ∷ [])
  both_step n w v ws =
      append_zval-request n (ws ++ w ∷ []) v true ∙ ap (request n) (append_assoc ws (w ∷ []) _)

  pub fields_step :
      (n : ℕ) (ht : HashTable) (ws : List Bytes)
      → append_fields (request n ws) ht ≡ request n (ws ++ field_words ht)
  unfolding append_fields
  fields_step n end ws = rw append-nil
  fields_step n (entry k v ht) ws =
      ap (λ c. append_fields (redis_cmd_append_sstr_zval c v true) ht) (field_step n k ws)
      ∙ ap (λ c. append_fields c ht) (both_step n (field_name k) v ws)
      ∙ fields_step n ht (ws ++ field_name k ∷ z.pack v ∷ [])
      ∙ ap (request n) (append_assoc ws (field_name k ∷ z.pack v ∷ []) (field_words ht))

  mset_key_step :
      (prefix : Option Bytes) (n : ℕ) (k : ZendKey) (ws : List Bytes)
      → append_mset_key prefix (request n ws) k
        ≡ request n (ws ++ redis_key_prefix prefix (field_name k) ∷ [])
  unfolding append_mset_key
  mset_key_step prefix n (name k) ws = ap (λ r. r.0) (append_key-request n ws k prefix none)
  mset_key_step prefix n (index i) ws =
      ap (λ r. r.0) (append_key-request n ws (snprintf_ld i) prefix none)

  pub pairs_step :
      (prefix : Option Bytes) (n : ℕ) (ht : HashTable) (ws : List Bytes)
      → append_pairs prefix (request n ws) ht ≡ request n (ws ++ pair_words prefix ht)
  unfolding append_pairs
  pairs_step prefix n end ws = rw append-nil
  pairs_step prefix n (entry k v ht) ws =
      let w = redis_key_prefix prefix (field_name k) in
      ap (λ c. append_pairs prefix (redis_cmd_append_sstr_zval c v true) ht)
        (mset_key_step prefix n k ws)
      ∙ ap (λ c. append_pairs prefix c ht) (both_step n w v ws)
      ∙ pairs_step prefix n ht (ws ++ w ∷ z.pack v ∷ [])
      ∙ ap (request n) (append_assoc ws (w ∷ z.pack v ∷ []) (pair_words prefix ht))

  pub alternating_step :
      (n : ℕ) (argv : List Zval) (ws : List Bytes)
      → append_alternating (request n ws) argv ≡ request n (ws ++ alternating argv)
  unfolding append_alternating
  alternating_step n [] ws = rw append-nil
  alternating_step n (f ∷ []) ws = append-request n ws (z.get_string f)
  alternating_step n (f ∷ v ∷ argv) ws =
      let w = z.get_string f in
      ap (λ c. append_alternating (redis_cmd_append_sstr_zval c v true) argv)
        (append-request n ws w)
      ∙ ap (λ c. append_alternating c argv) (both_step n w v ws)
      ∙ alternating_step n argv (ws ++ w ∷ z.pack v ∷ [])
      ∙ ap (request n) (append_assoc ws (w ∷ z.pack v ∷ []) (alternating argv))
