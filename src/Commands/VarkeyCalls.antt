-- ===== src/Commands/VarkeyCalls.antt =====
-- What BLPOP, SINTER and their like should be to a server.
use icore_tax_gateway.Base.{
  ℕ, ◌≡◌, refl, ap, ◌∙◌, subst, Bool, true, false, Option, none, some, List, [], ◌∷◌, ◌++◌, Bytes,
  if◌then◌else◌,
}
use icore_tax_gateway.Zend.{
  Zend, ZendLaws, Zval, is_null, is_long, is_double, is_array, HashTable, end, entry,
}
use icore_tax_gateway.Zend.Decimal.{snprintf_ld}
use icore_tax_gateway.Resp.Sstr.{comma_to_point}
use icore_tax_gateway.Commands.ListsBuilt.{values_of}
use icore_tax_gateway.Commands.Slotted.{
  is_timeout, array_values, array_of, single_array, last_or, timeout_of, but_last, key_args,
  gen_varkey_cmd,
}
use icore_tax_gateway.Commands.SlottedBuilt.{full_keys}
use icore_tax_gateway.Commands.SlotCalls.{IsSlotted, timeout_words}
use icore_tax_gateway.Commands.VarkeySlotted.{key_call, the_keys, IsVarkey, taken-IsVarkey}

-- A call of a command that takes no timeout, or of one that takes a timeout behind its keys.
pub data KeyCall : Type 0 where
  untimed : List Zval → KeyCall
  timed : List Zval → Zval → KeyCall

abbrev pub takes_timeout : KeyCall → Bool
takes_timeout (untimed keys) = false
takes_timeout (timed keys t) = true

abbrev pub arguments : KeyCall → List Zval
arguments (untimed keys) = keys
arguments (timed keys t) = keys ++ t ∷ []

-- A value alone is a key, or an array that has the keys.
abbrev pub one_key : Zval → Option (List Zval)
one_key (is_array end) = none
one_key (is_array (entry i v ht)) = some (v ∷ values_of ht)
one_key k = some (k ∷ [])

-- There has to be a key.
abbrev pub keys_meant : List Zval → Option (List Zval)
keys_meant [] = none
keys_meant (k ∷ []) = one_key k
keys_meant (k ∷ l ∷ keys) = some (k ∷ l ∷ keys)

abbrev pub followed_by : Option (List Zval) → List Bytes → Option (List Zval × List Bytes)
followed_by none words = none
followed_by (some keys) words = some (keys, words)

module _ ⦃z : Zend⦄ where
  -- The keys and what follows them; a timeout is a long or a double.
  abbrev pub call_meant : KeyCall → Option (List Zval × List Bytes)
  call_meant (untimed keys) = followed_by (keys_meant keys) []
  call_meant (timed keys (is_long n)) = followed_by (keys_meant keys) (snprintf_ld n ∷ [])
  call_meant (timed keys (is_double d)) =
      followed_by (keys_meant keys) (comma_to_point (z.format_double d) ∷ [])
  call_meant (timed keys t) = none

  abbrev pub IsKeyCall :
      Option Bytes
      → Option ℕ
      → Bytes
      → Option (Bytes × Option ℕ)
      → Option (List Zval × List Bytes)
      → Type 0
  IsKeyCall prefix slot kw r none = r ≡ none
  IsKeyCall prefix slot kw r (some (keys, words)) =
      IsSlotted r (kw ∷ full_keys prefix keys ++ words) (full_keys prefix keys) slot

  abbrev with_words : Option (List Zval × Zval) → Option (List Zval × List Bytes)
  with_words none = none
  with_words (some (keys, t)) = some (keys, timeout_words t)

values-eq : (ht : HashTable) → array_values ht ≡ values_of ht
unfolding array_values
values-eq end = refl
values-eq (entry i v ht) = ap (λ vs. v ∷ vs) (values-eq ht)

last-append : (a : Zval) (keys : List Zval) (t : Zval) → last_or a (keys ++ t ∷ []) ≡ t
unfolding last_or
last-append a [] t = refl
last-append a (k ∷ keys) t = last-append k keys t

but_last-append : (keys : List Zval) (t : Zval) → but_last (keys ++ t ∷ []) ≡ keys
unfolding but_last
but_last-append [] t = refl
but_last-append (a ∷ []) t = refl
but_last-append (a ∷ b ∷ keys) t = ap (λ l. a ∷ l) (but_last-append (b ∷ keys) t)

not_single :
    (a b : Zval) (keys : List Zval) (t : Zval) → single_array true (a ∷ b ∷ (keys ++ t ∷ [])) ≡ none
unfolding single_array
not_single a b [] t = refl
not_single a b (k ∷ keys) t = refl

module _ ⦃z : Zend⦄ where
  alone_meant : (k : Zval) → with_words (the_keys false (k ∷ [])) ≡ followed_by (one_key k) []
  unfolding single_array array_of key_args timeout_of array_values
  alone_meant (is_array end) = refl
  alone_meant (is_array (entry i v ht)) = ap (λ vs. some (v ∷ vs, [])) (values-eq ht)
  alone_meant k = refl

  abbrev paired : Option (List Zval) → Zval → Option (List Zval × Zval)
  paired none t = none
  paired (some keys) t = some (keys, t)

  paired_words :
      (m : Option (List Zval)) (t : Zval)
      → with_words (paired m t) ≡ followed_by m (timeout_words t)
  paired_words none t = refl
  paired_words (some keys) t = refl

  -- Keys that are understood, with a timeout that has to be one.
  choice_meant :
      (keys : List Zval) (t : Zval)
      → with_words (if is_timeout t then paired (keys_meant keys) t else none)
        ≡ call_meant (timed keys t)
  unfolding is_timeout
  choice_meant keys (is_long n) = paired_words (keys_meant keys) (is_long n)
  choice_meant keys (is_double d) = paired_words (keys_meant keys) (is_double d)
  choice_meant keys t = refl

  pair_taken : (k t : Zval) → key_call true (k ∷ t ∷ []) (array_of k) ≡ paired (one_key k) t
  unfolding array_of key_args timeout_of last_or but_last array_values
  pair_taken (is_array end) t = refl
  pair_taken (is_array (entry i v ht)) t = ap (λ vs. some (v ∷ vs, t)) (values-eq ht)
  pair_taken k t = refl

  many_taken :
      (a b : Zval) (keys : List Zval) (t : Zval)
      → key_call true (a ∷ b ∷ (keys ++ t ∷ [])) (single_array true (a ∷ b ∷ (keys ++ t ∷ [])))
        ≡ some (a ∷ b ∷ keys, t)
  unfolding key_args timeout_of
  many_taken a b keys t =
      rw
        (
          not_single a b keys t,
          last-append is_null (a ∷ b ∷ keys) t,
          but_last-append (a ∷ b ∷ keys) t,
        )
        refl

  timed_meant :
      (keys : List Zval) (t : Zval)
      → with_words (the_keys true (keys ++ t ∷ [])) ≡ call_meant (timed keys t)
  unfolding single_array timeout_of last_or
  timed_meant [] (is_long n) = refl
  timed_meant [] (is_double d) = refl
  timed_meant [] t = refl
  timed_meant (k ∷ []) t =
      ap (λ x. with_words (if is_timeout t then x else none)) (pair_taken k t)
      ∙ choice_meant (k ∷ []) t
  timed_meant (a ∷ b ∷ keys) t =
      ap (λ x. with_words (if is_timeout (last_or b (keys ++ t ∷ [])) then x else none))
        (many_taken a b keys t)
      ∙ ap (λ u. with_words (if is_timeout u then some (a ∷ b ∷ keys, t) else none))
          (last-append b keys t)
      ∙ choice_meant (a ∷ b ∷ keys) t

  call_taken : (c : KeyCall) → with_words (the_keys (takes_timeout c) (arguments c)) ≡ call_meant c
  unfolding single_array key_args timeout_of
  call_taken (untimed []) = refl
  call_taken (untimed (k ∷ [])) = alone_meant k
  call_taken (untimed (k ∷ l ∷ keys)) = refl
  call_taken (timed keys t) = timed_meant keys t

  sent_words :
      (prefix : Option Bytes) (slot : Option ℕ) (kw : Bytes) (r : Option (Bytes × Option ℕ))
      (x : Option (List Zval × Zval))
      → IsVarkey prefix slot kw r x
      → IsKeyCall prefix slot kw r (with_words x)
  sent_words prefix slot kw r none h = h
  sent_words prefix slot kw r (some (keys, t)) h = h

module _ ⦃z : Zend⦄ (laws : ZendLaws z) (prefix : Option Bytes) (slot : Option ℕ) where
  -- BLPOP, SINTER, DEL and their like, called with keys as arguments or with one array of keys, and with a timeout
  -- behind them where the command takes one: refused if there is no key, or if the timeout is neither a long nor a
  -- double. Else a server reads what is sent as the keyword, each key behind the prefix, and the timeout. A
  -- cluster's command is refused then only if no slot has all keys, and else its slot is that of every key; without
  -- a cluster it is never refused then.
  pub gen_varkey_cmd-IsKeyCall :
      (kw : Bytes) (c : KeyCall)
      → IsKeyCall prefix slot kw
          (gen_varkey_cmd prefix slot kw (takes_timeout c) (arguments c))
          (call_meant c)
  gen_varkey_cmd-IsKeyCall kw c =
      subst
        (IsKeyCall prefix slot kw (gen_varkey_cmd prefix slot kw (takes_timeout c) (arguments c)))
        (call_taken c)
        (sent_words prefix slot kw _ _
          (taken-IsVarkey laws prefix slot kw (takes_timeout c) (arguments c)))
