-- ===== src/Commands/PairsBuilt.antt =====
-- Commands with two keys are what they should be to a server.
use icore_tax_gateway.Base.{
  ℕ, ◌+◌, ◌≡◌, refl, ap, sym, ◌∙◌, Bool, true, false, ◌||◌, ◌&&◌, not, Option, none, some, List, [],
  ◌∷◌, ◌++◌, Bytes, codes, if◌then◌else◌, length, arith, Bool-cases, inl, inr, append_assoc,
  append-nil,
}
use icore_tax_gateway.Base.Int.{ℤ, negsuc}
use icore_tax_gateway.Zend.{Zend, ZendLaws, Zval, HashTable}
use icore_tax_gateway.Cluster.HashKey.{cluster_hash_key}
use icore_tax_gateway.Resp.Sstr.{
  redis_key_prefix, set_slot, comma_to_point, redis_cmd_init_sstr, redis_cmd_append_sstr,
  redis_cmd_append_sstr_zval, redis_cmd_append_sstr_key,
}
use icore_tax_gateway.Resp.RoundTrip.{
  request, init-eq-request, append-request, append_dbl-request, append_zval-request,
  append_key-request, request_if,
}
use icore_tax_gateway.Commands.SetWords.{flag_word, flag_step}
use icore_tax_gateway.Commands.RestoreWords.{number_words, number_step}
use icore_tax_gateway.Commands.Restore.{above_minus_one, append_number}
use icore_tax_gateway.Commands.Set.{append_flag}
use icore_tax_gateway.Commands.Slotted.{differ, second, redis_key_key_cmd, redis_smove_cmd}
use icore_tax_gateway.Commands.SlottedBuilt.{differ_lem, differ_ne}
use icore_tax_gateway.Commands.SlotCalls.{IsSlotted}
use icore_tax_gateway.Commands.ListCalls.{whole_request}
use icore_tax_gateway.Commands.ZrangeBuilt.{IsSentUnless}
use icore_tax_gateway.Commands.Pairs.{
  is_blocking, is_database, is_some, is_end, append_blocking, copy_options, redis_lmove_cmd,
  copy_with, redis_copy_cmd,
}

-- A call with its arguments.
pub data PairCall : Type 0 where
  key_key : Bytes → Bytes → Bytes → PairCall
  smove : Bytes → Bytes → Zval → PairCall
  lmove : Bytes → Bytes → Bytes → Bytes → Bytes → ℕ → PairCall
  copy : Bytes → Bytes → HashTable → PairCall

module _ ⦃z : Zend⦄ (prefix : Option Bytes) (slot : Option ℕ) where
  abbrev pub run_pair : PairCall → Option (Bytes × Option ℕ)
  run_pair (key_key kw k₁ k₂) = redis_key_key_cmd prefix slot kw k₁ k₂
  run_pair (smove src dst v) = redis_smove_cmd prefix slot src dst v
  run_pair (lmove kw src dst from to timeout) =
      redis_lmove_cmd prefix slot kw src dst from to timeout
  run_pair (copy src dst opts) = redis_copy_cmd prefix slot src dst opts

  abbrev pub pair_keys : PairCall → List Bytes
  pair_keys (key_key kw k₁ k₂) = redis_key_prefix prefix k₁ ∷ redis_key_prefix prefix k₂ ∷ []
  pair_keys (smove src dst v) = redis_key_prefix prefix src ∷ redis_key_prefix prefix dst ∷ []
  pair_keys (lmove kw src dst from to timeout) =
      redis_key_prefix prefix src ∷ redis_key_prefix prefix dst ∷ []
  pair_keys (copy src dst opts) = redis_key_prefix prefix src ∷ redis_key_prefix prefix dst ∷ []

  -- An end of a list is LEFT or RIGHT, and a cluster has one database.
  abbrev pub is_refused : PairCall → Bool
  is_refused (lmove kw src dst from to timeout) = not (is_end from) || not (is_end to)
  is_refused (copy src dst opts) =
      is_some slot && is_database (copy_options opts (negsuc 0, false)).0
  is_refused _ = false

  abbrev pub blocking_words : Bool → ℕ → List Bytes
  blocking_words blocking timeout =
      if blocking then comma_to_point (z.format_double timeout) ∷ [] else []

  abbrev pub pair_kw : PairCall → Bytes
  pair_kw (key_key kw k₁ k₂) = kw
  pair_kw (smove src dst v) = codes "SMOVE"
  pair_kw (lmove kw src dst from to timeout) = kw
  pair_kw (copy src dst opts) = codes "COPY"

  -- What stands behind the keys.
  abbrev pub pair_more : PairCall → List Bytes
  pair_more (key_key kw k₁ k₂) = []
  pair_more (smove src dst v) = z.pack v ∷ []
  pair_more (lmove kw src dst from to timeout) = from ∷ to ∷ blocking_words (is_blocking kw) timeout
  pair_more (copy src dst opts) =
      let (db, replace) = copy_options opts (negsuc 0, false) in
      number_words (codes "DB") db ++ flag_word replace (codes "REPLACE")

  -- Two keys in front of what a function appends.
  abbrev pair_of : ℕ → Bytes → Bytes → Bytes → (Bytes → Bytes) → Option (Bytes × Option ℕ)
  pair_of n kw k₁ k₂ append =
      let (cmd₁, slot₁) = redis_cmd_append_sstr_key (redis_cmd_init_sstr [] n kw) k₁ prefix slot in
      let (cmd₂, slot₂) = redis_cmd_append_sstr_key cmd₁ k₂ prefix (second slot) in
      if differ slot₁ slot₂ then none else some (append cmd₂, slot₁)

module _ ⦃z : Zend⦄ (laws : ZendLaws z) (prefix : Option Bytes) where
  pair_sent :
      (slot : Option ℕ) (n : ℕ) (kw k₁ k₂ : Bytes) (append : Bytes → Bytes) (more : List Bytes)
      → ((ws : List Bytes) → append (request (n + 1) ws) ≡ request (n + 1) (ws ++ more))
      → 2 + length more ≡ n
      → let keys = redis_key_prefix prefix k₁ ∷ redis_key_prefix prefix k₂ ∷ [] in
        IsSlotted (pair_of prefix slot n kw k₁ k₂ append) (kw ∷ keys ++ more) keys slot
  unfolding set_slot second
  pair_sent none n kw k₁ k₂ append more step counted =
      let words = kw ∷ redis_key_prefix prefix k₁ ∷ redis_key_prefix prefix k₂ ∷ [] in
      rw (init-eq-request, append_key-request, append_key-request)
        (unfold differ in
          (
            whole_request laws prefix none (n + 1) (words ++ more) _ (step words)
                (omega (arith, counted)),
            tt,
          ))
  pair_sent (some old) n kw k₁ k₂ append more step counted =
      let words = kw ∷ redis_key_prefix prefix k₁ ∷ redis_key_prefix prefix k₂ ∷ [] in
      let a = cluster_hash_key (redis_key_prefix prefix k₁) in
      let b = cluster_hash_key (redis_key_prefix prefix k₂) in
      elim (Bool-cases (differ (some a) (some b))) [
        | inl cross ↦
            rw (init-eq-request, append_key-request, append_key-request, cross)
              (λ s all. differ_ne a b cross (all.1.0 ∙ sym all.0))
        | inr same ↦
            rw (init-eq-request, append_key-request, append_key-request, same)
              (
                whole_request laws prefix (some old) (n + 1) (words ++ more) _ (step words)
                    (omega (arith, counted)),
                (refl, (differ_lem a b same, tt)),
              )
      ]

module _ ⦃z : Zend⦄ where
  pub blocking_step :
      (blocking : Bool) (timeout n : ℕ) (ws : List Bytes)
      → append_blocking blocking timeout (request n ws)
        ≡ request n (ws ++ (if blocking then comma_to_point (z.format_double timeout) ∷ [] else []))
  unfolding append_blocking
  blocking_step blocking timeout n ws =
      request_if blocking n ws (comma_to_point (z.format_double timeout) ∷ []) _
        (append_dbl-request n ws timeout)

copy_counted :
    (db : ℤ) (replace : Bool)
    → length (number_words (codes "DB") db ++ flag_word replace (codes "REPLACE"))
      ≡ (if above_minus_one db then 2 else 0) + (if replace then 1 else 0)
copy_counted db replace = ground arith

module _ ⦃z : Zend⦄ (laws : ZendLaws z) (prefix : Option Bytes) (slot : Option ℕ) where
  -- RENAME and the others with two keys, SMOVE, LMOVE with BLMOVE, and COPY, whatever their arguments: LMOVE is
  -- refused for an end that is neither LEFT nor RIGHT, and COPY for a database (but -1) in a cluster. Else a server
  -- reads what is sent as the keyword, both keys behind the prefix, and the arguments. A cluster's command is
  -- refused then only if the keys have no slot in common, and else its slot is that of both.
  pub pair-IsSentUnless :
      (c : PairCall)
      → IsSentUnless
          (is_refused prefix slot c)
          (run_pair prefix slot c)
          (pair_kw prefix slot c ∷ pair_keys prefix slot c ++ pair_more prefix slot c)
          (pair_keys prefix slot c)
          slot
  unfolding redis_key_key_cmd redis_smove_cmd redis_lmove_cmd redis_copy_cmd copy_with
  pair-IsSentUnless (key_key kw k₁ k₂) =
      pair_sent laws prefix slot 2 kw k₁ k₂ (λ cmd. cmd) []
        (λ ws. ap (request 3) (sym (append-nil ws))) refl
  pair-IsSentUnless (smove src dst v) =
      pair_sent laws prefix slot 3 (codes "SMOVE") src dst
        (λ cmd. redis_cmd_append_sstr_zval cmd v true) (z.pack v ∷ [])
        (λ ws. append_zval-request 4 ws v true) refl
  pair-IsSentUnless (lmove kw src dst from to timeout) =
      elim (Bool-cases (not (is_end from) || not (is_end to))) [
        | inl e ↦ rw e refl
        | inr e ↦ rw e (
            pair_sent laws prefix slot (4 + (if is_blocking kw then 1 else 0)) kw src dst
              (λ cmd.
                append_blocking (is_blocking kw) timeout
                  (redis_cmd_append_sstr (redis_cmd_append_sstr cmd from) to))
              (from
                ∷ to
                ∷ (if is_blocking kw then comma_to_point (z.format_double timeout) ∷ [] else []))
              (λ ws. rw (append-request, append-request, blocking_step) (simp append_assoc))
              (ground arith))
      ]
  pair-IsSentUnless (copy src dst opts) =
      let db = (copy_options opts (negsuc 0, false)).0 in
      let replace = (copy_options opts (negsuc 0, false)).1 in
      elim (Bool-cases (is_some slot && is_database db)) [
        | inl e ↦ rw e refl
        | inr e ↦ rw e (
            pair_sent laws prefix slot
              (2 + (if above_minus_one db then 2 else 0) + (if replace then 1 else 0))
              (codes "COPY") src dst
              (λ cmd. append_flag replace (codes "REPLACE") (append_number (codes "DB") db cmd))
              (number_words (codes "DB") db ++ flag_word replace (codes "REPLACE"))
              (λ ws. rw (number_step, flag_step) (simp append_assoc))
              (omega (arith, copy_counted db replace)))
      ]
