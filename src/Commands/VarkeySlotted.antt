-- ===== src/Commands/VarkeySlotted.antt =====
-- redis-6.0.2/redis_commands.c: gen_varkey_cmd
use icore_tax_gateway.Base.{
  ℕ, suc, ◌+◌, ◌≡◌, refl, ap, ◌∙◌, Bool, true, false, Option, none, some, List, [], ◌∷◌, ◌++◌,
  Bytes, arith, ltb, length, if◌then◌else◌, Bool-cases, inl, inr, length-append,
}
use icore_tax_gateway.Zend.{
  Zend, ZendLaws, Zval, is_null, is_long, is_double, HashTable, end, entry,
}
use icore_tax_gateway.Resp.RoundTrip.{init-eq-request}
use icore_tax_gateway.Commands.Lists.{num_elements}
use icore_tax_gateway.Commands.ListCalls.{whole_request, not_empty}
use icore_tax_gateway.Commands.Slotted.{
  append_timeout, is_timeout, array_values, finish_keys, varkey, varkey_of, single_array,
  timeout_of, but_last, key_args, gen_varkey_cmd,
}
use icore_tax_gateway.Commands.SlottedBuilt.{full_keys}
use icore_tax_gateway.Commands.SlotCalls.{
  IsSlotted, IsStarted, timeout_words, append_keys-IsStarted, append_timeout-request,
  length-full_keys,
}

-- What the code takes from its arguments.
abbrev pub key_call : Bool → List Zval → Option HashTable → Option (List Zval × Zval)
key_call has_timeout argv none = some (key_args has_timeout argv, timeout_of has_timeout argv)
key_call has_timeout argv (some end) = none
key_call has_timeout argv (some ht) = some (array_values ht, timeout_of has_timeout argv)

abbrev pub the_keys : Bool → List Zval → Option (List Zval × Zval)
the_keys false [] = none
the_keys true [] = none
the_keys true (a ∷ []) = none
the_keys false (a ∷ argv) = key_call false (a ∷ argv) (single_array false (a ∷ argv))
the_keys true (a ∷ b ∷ argv) =
    if is_timeout (timeout_of true (b ∷ argv))
    then key_call true (a ∷ b ∷ argv) (single_array true (a ∷ b ∷ argv))
    else none

module _ ⦃z : Zend⦄ (prefix : Option Bytes) (slot : Option ℕ) where
  abbrev pub IsVarkey : Bytes → Option (Bytes × Option ℕ) → Option (List Zval × Zval) → Type 0
  IsVarkey kw r none = r ≡ none
  IsVarkey kw r (some (keys, t)) =
      IsSlotted r (kw ∷ full_keys prefix keys ++ timeout_words t) (full_keys prefix keys) slot

pub length-values : (ht : HashTable) → length (array_values ht) ≡ num_elements ht
unfolding array_values num_elements
length-values end = refl
length-values (entry k v ht) = ap suc (length-values ht)

length-but_last : (a : Zval) (argv : List Zval) → length (but_last (a ∷ argv)) ≡ length argv
unfolding but_last
length-but_last a [] = refl
length-but_last a (b ∷ argv) = ap suc (length-but_last b argv)

module _ ⦃z : Zend⦄ (laws : ZendLaws z) (prefix : Option Bytes) (slot : Option ℕ) where
  finish_keys-IsSlotted :
      (n : ℕ) (words keys : List Bytes) (t : Zval) (r : Option (Bytes × Option ℕ))
      → IsStarted r n words keys slot
      → length (words ++ timeout_words t) ≡ n
      → IsSlotted (finish_keys prefix slot t r) (words ++ timeout_words t) keys slot
  unfolding finish_keys
  finish_keys-IsSlotted n words keys t none h counted = h
  finish_keys-IsSlotted n words keys t (some (cmd, s)) h counted = (
    whole_request laws prefix slot n (words ++ timeout_words t) _
        (ap (append_timeout t) h.0 ∙ append_timeout-request prefix n words t) counted,
    h.1,
  )

  -- As many keys and timeouts as are announced.
  varkey-IsSlotted :
      (kw : Bytes) (argc : ℕ) (keys : List Zval) (t : Zval)
      → length keys + length (timeout_words t) ≡ argc
      → IsSlotted
          (varkey prefix slot kw argc keys t)
          (kw ∷ full_keys prefix keys ++ timeout_words t)
          (full_keys prefix keys)
          slot
  unfolding varkey
  varkey-IsSlotted kw argc keys t counted = rw (init-eq-request argc kw) (
      finish_keys-IsSlotted (argc + 1) (kw ∷ full_keys prefix keys) (full_keys prefix keys) t _
        (append_keys-IsStarted prefix (argc + 1) slot keys (kw ∷ []))
        (omega (
          arith,
          length-append (full_keys prefix keys) (timeout_words t),
          length-full_keys prefix keys,
          counted,
        )))

  one_timeout : (t : Zval) → is_timeout t ≡ true → length (timeout_words t) ≡ 1
  unfolding is_timeout
  one_timeout (is_long v) h = refl
  one_timeout (is_double v) h = refl
  one_timeout t h = absurd (cc h)

  counted_timeout :
      (has_timeout : Bool) (t : Zval)
      → (if has_timeout then is_timeout t ≡ true else (t ≡ is_null))
      → length (timeout_words t) ≡ (if has_timeout then 1 else 0)
  counted_timeout true t h = one_timeout t h
  counted_timeout false t h = ap (λ v. length (timeout_words v)) h

  -- The array_values of an array.
  array_slotted :
      (kw : Bytes) (has_timeout : Bool) (argv : List Zval) (ht : HashTable)
      → length (timeout_words (timeout_of has_timeout argv)) ≡ (if has_timeout then 1 else 0)
      → IsVarkey prefix slot kw
          (varkey_of prefix slot kw has_timeout argv (some ht))
          (key_call has_timeout argv (some ht))
  unfolding varkey_of num_elements
  array_slotted kw has_timeout argv end counted = refl
  array_slotted kw has_timeout argv (entry k v ht) counted = rw (not_empty (num_elements ht)) (
      varkey-IsSlotted kw (suc (num_elements ht) + (if has_timeout then 1 else 0))
        (array_values (entry k v ht)) (timeout_of has_timeout argv)
        (omega (arith, counted, length-values (entry k v ht))))

  -- The arguments themselves.
  args_slotted :
      (kw : Bytes) (has_timeout : Bool) (argv : List Zval)
      → length (key_args has_timeout argv) + length (timeout_words (timeout_of has_timeout argv))
        ≡ length argv
      → IsVarkey prefix slot kw
          (varkey_of prefix slot kw has_timeout argv none)
          (key_call has_timeout argv none)
  unfolding varkey_of
  args_slotted kw has_timeout argv counted =
      varkey-IsSlotted kw (length argv) (key_args has_timeout argv) (timeout_of has_timeout argv)
        counted

  call_slotted :
      (kw : Bytes) (has_timeout : Bool) (argv : List Zval) (single : Option HashTable)
      → length (timeout_words (timeout_of has_timeout argv)) ≡ (if has_timeout then 1 else 0)
      → length (key_args has_timeout argv) + (if has_timeout then 1 else 0) ≡ length argv
      → IsVarkey prefix slot kw
          (varkey_of prefix slot kw has_timeout argv single)
          (key_call has_timeout argv single)
  call_slotted kw has_timeout argv none timed counted =
      args_slotted kw has_timeout argv (omega (arith, timed, counted))
  call_slotted kw has_timeout argv (some ht) timed counted =
      array_slotted kw has_timeout argv ht timed

enough_for_keys : (n : ℕ) → ltb (suc n) 1 ≡ false
enough_for_keys n = ground arith

enough_for_timeout : (n : ℕ) → ltb (suc (suc n)) 2 ≡ false
enough_for_timeout n = ground arith

module _ ⦃z : Zend⦄ (laws : ZendLaws z) (prefix : Option Bytes) (slot : Option ℕ) where
  -- The keys and the timeout that the code takes from its arguments are sent.
  pub taken-IsVarkey :
      (kw : Bytes) (has_timeout : Bool) (argv : List Zval)
      → IsVarkey prefix slot kw
          (gen_varkey_cmd prefix slot kw has_timeout argv)
          (the_keys has_timeout argv)
  unfolding gen_varkey_cmd timeout_of key_args
  taken-IsVarkey kw false [] = refl
  taken-IsVarkey kw true [] = refl
  taken-IsVarkey kw true (a ∷ []) = refl
  taken-IsVarkey kw false (a ∷ argv) = rw (enough_for_keys (length argv)) (
      call_slotted laws prefix slot kw false (a ∷ argv) (single_array false (a ∷ argv)) refl
        (omega arith))
  taken-IsVarkey kw true (a ∷ b ∷ argv) =
      elim (Bool-cases (is_timeout (timeout_of true (b ∷ argv)))) [
        | inl e ↦
            rw (enough_for_timeout (length argv), e)
              (call_slotted laws prefix slot kw true (a ∷ b ∷ argv)
                (single_array true (a ∷ b ∷ argv))
                (one_timeout laws prefix slot (timeout_of true (b ∷ argv)) e)
                (omega (arith, length-but_last a (b ∷ argv))))
        | inr e ↦ rw (enough_for_timeout (length argv), e) refl
      ]
