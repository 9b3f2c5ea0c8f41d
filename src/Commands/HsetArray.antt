-- ===== src/Commands/HsetArray.antt =====
-- HSET with an array of fields and values.
use icore_tax_gateway.Base.{
  ℕ, zero, suc, ◌+◌, ◌≤◌, ◌≡◌, refl, ap, sym, ◌∙◌, true, Option, some, List, [], ◌∷◌, ◌++◌, Bytes,
  codes, arith, length, append_assoc, append-nil,
}
use icore_tax_gateway.Zend.{Zend, ZendLaws, Zval, is_array, HashTable, end, entry, name, index}
use icore_tax_gateway.Resp.Sstr.{redis_cmd_init_sstr, redis_cmd_append_sstr_zval}
use icore_tax_gateway.Resp.Server.{read_request}
use icore_tax_gateway.Resp.RoundTrip.{request, bulks, append-request, request-leaves}
use icore_tax_gateway.Commands.Lists.{
  num_elements, append_named, append_first_key, hset_array, redis_hset_cmd,
}
use icore_tax_gateway.Commands.ListsBuilt.{field_words, both_step}
use icore_tax_gateway.Commands.ListWords.{full_key}
use icore_tax_gateway.Commands.ListCalls.{keyed_request, length-fields, not_empty}

-- A list cut at a length.
cut_at {ℓ} :
    {A : Type ℓ} (n : ℕ) (xs : List A)
    → n ≤ length xs
    → (ws vs : List A) × (xs ≡ ws ++ vs) × (length ws ≡ n) × (length vs + n ≡ length xs)
cut_at zero xs h = ([], xs, refl, refl, omega arith)
cut_at (suc n) [] h = absurd (omega (arith, h))
cut_at (suc n) (x ∷ xs) h =
    let (ws, vs, e, first, second) = cut_at n xs (omega (arith, h)) in
    (x ∷ ws, vs, ap (λ l. x ∷ l) e, ap suc first, omega (arith, second))

module _ ⦃z : Zend⦄ where
  -- The named elements that an array has.
  abbrev pub AllNamed : HashTable → Type 0
  AllNamed end = Unit
  AllNamed (entry (name k) v ht) = AllNamed ht
  AllNamed (entry (index i) v ht) = ⊥

  named_step :
      (n : ℕ) (ht : HashTable) (ws : List Bytes)
      → AllNamed ht
      → append_named (request n ws) ht ≡ request n (ws ++ field_words ht)
  unfolding append_named
  named_step n end ws h = rw append-nil
  named_step n (entry (index i) v ht) ws h = absurd h
  named_step n (entry (name k) v ht) ws h =
      ap (λ c. append_named (redis_cmd_append_sstr_zval c v true) ht) (append-request n ws k)
      ∙ ap (λ c. append_named c ht) (both_step n k v ws)
      ∙ named_step n ht (ws ++ k ∷ z.pack v ∷ []) h
      ∙ ap (request n) (append_assoc ws (k ∷ z.pack v ∷ []) (field_words ht))

  announced_short :
      (laws : ZendLaws z) (n : ℕ) (all : List Bytes)
      → n ≤ length all
      → (ws vs : List Bytes) × (read_request (request n all) ≡ some (ws, bulks vs))
        × (length vs + n ≡ length all)
  announced_short laws n all h =
      let (ws, vs, e, first, second) = cut_at n all h in
      (
        ws,
        vs,
        ap (λ l. read_request (request n l)) e
            ∙ ap (λ k. read_request (request k (ws ++ vs))) (sym first)
            ∙ request-leaves laws ws vs,
        second,
      )

module _ ⦃z : Zend⦄ (laws : ZendLaws z) (prefix : Option Bytes) (slot : Option ℕ) where
  -- HSET with an array of n elements, at least one and all with texts for keys, is built, but announces n words
  -- fewer than it holds: a server reads a shorter request, and n bulk strings are left that belong to no request.
  pub hset_array_short :
      (k v : Zval) (f : Bytes) (ht : HashTable)
      → AllNamed ht
      → (cmd : Bytes) × (slot' : Option ℕ) × (ws vs : List Bytes) × (redis_hset_cmd prefix slot
            (k ∷ is_array (entry (name f) v ht) ∷ [])
          ≡ some (cmd, slot'))
        × (read_request cmd ≡ some (ws, bulks vs))
        × (length vs ≡ suc (num_elements ht))
  unfolding redis_hset_cmd hset_array num_elements
  hset_array_short k v f ht named =
      let all = entry (name f) v ht in
      let n = suc (num_elements ht) in
      let words = codes "HSET" ∷ full_key prefix slot k ∷ field_words all in
      let start =
        append_first_key prefix slot (redis_cmd_init_sstr [] (1 + n) (codes "HSET"))
          (z.get_string k) in
      let whole : append_named start.0 all ≡ request (1 + n + 1) words =
        ap (λ r. append_named r.0 all)
          (keyed_request laws prefix slot (1 + n) (codes "HSET") (z.get_string k))
        ∙ named_step (1 + n + 1) all (codes "HSET" ∷ full_key prefix slot k ∷ []) named in
      let (ws, vs, reads, rest) =
        announced_short laws (1 + n + 1) words (omega (arith, length-fields ht)) in
      (
        append_named start.0 all,
        start.1,
        ws,
        vs,
        rw (not_empty (num_elements ht)) refl,
        ap read_request whole ∙ reads,
        omega (arith, rest, length-fields ht),
      )
