-- ===== src/Commands/MpopBuilt.antt =====
-- LMPOP and its like are what they should be to a server.
use icore_tax_gateway.Base.{
  Bool, true, false, not, ◌||◌, zero, suc, ℕ, ◌+◌, ◌≡◌, refl, ap, sym, ◌∙◌, Option, none, some,
  List, [], ◌∷◌, ◌++◌, Bytes, codes, if◌then◌else◌, length, arith, Bool-cases, inl, inr,
  append_assoc, append-nil, length-append,
}
use icore_tax_gateway.Base.Int.{ℤ, pos, negsuc, ltb_ℤ}
use icore_tax_gateway.Zend.{Zend, ZendLaws, HashTable, end, entry}
use icore_tax_gateway.Zend.Decimal.{snprintf_ld}
use icore_tax_gateway.Resp.Sstr.{
  comma_to_point, redis_cmd_init_sstr, redis_cmd_append_sstr, redis_cmd_append_sstr_long,
}
use icore_tax_gateway.Resp.RoundTrip.{request, init-eq-request, append-request, append_long-request}
use icore_tax_gateway.Commands.Fixed.{is_one}
use icore_tax_gateway.Commands.Lists.{num_elements}
use icore_tax_gateway.Commands.Slotted.{array_values}
use icore_tax_gateway.Commands.SlottedBuilt.{full_keys}
use icore_tax_gateway.Commands.SlotCalls.{
  IsSlotted, IsStarted, append_keys-IsStarted, length-full_keys,
}
use icore_tax_gateway.Commands.VarkeySlotted.{length-values}
use icore_tax_gateway.Commands.ListCalls.{whole_request, not_empty}
use icore_tax_gateway.Commands.ZrangeBuilt.{IsSentUnless}
use icore_tax_gateway.Commands.Pairs.{is_blocking, is_end, append_blocking}
use icore_tax_gateway.Commands.PairsBuilt.{blocking_step}
use icore_tax_gateway.Commands.Mpop.{
  is_zmpop, starts_with_z, is_min_or_max, refuses_mpop, append_count, finish_mpop, mpop_argc,
  redis_mpop_cmd,
}

module _ ⦃z : Zend⦄ where
  abbrev pub count_words : ℤ → List Bytes
  count_words count = if is_one count then [] else codes "COUNT" ∷ snprintf_ld count ∷ []

  -- The keyword, the timeout if it blocks, and the number of keys.
  abbrev pub mpop_head : Bytes → Bool → ℕ → HashTable → List Bytes
  mpop_head kw blocking timeout keys =
      kw ∷ (if blocking then comma_to_point (z.format_double timeout) ∷ [] else [])
      ++ snprintf_ld (pos (num_elements keys)) ∷ []

  count_step :
      (count : ℤ) (n : ℕ) (ws : List Bytes)
      → append_count count (request n ws) ≡ request n (ws ++ count_words count)
  unfolding append_count
  count_step count n ws = elim (Bool-cases (is_one count)) [
    | inl e ↦ rw e (ap (request n) (sym (append-nil ws)))
    | inr e ↦ rw (e, append-request, append_long-request) (simp append_assoc)
  ]

  head_step :
      (argc : ℕ) (kw : Bytes) (timeout : ℕ) (keys : HashTable)
      → redis_cmd_append_sstr_long
          (append_blocking (is_blocking kw) timeout (redis_cmd_init_sstr [] argc kw))
          (pos (num_elements keys))
        ≡ request (argc + 1) (mpop_head kw (is_blocking kw) timeout keys)
  head_step argc kw timeout keys =
      rw (init-eq-request, blocking_step, append_long-request) (simp append_assoc)

module _ ⦃z : Zend⦄ (laws : ZendLaws z) (prefix : Option Bytes) (slot : Option ℕ) where
  finish_mpop-IsSlotted :
      (n : ℕ) (words keys : List Bytes) (from : Bytes) (count : ℤ) (r : Option (Bytes × Option ℕ))
      → IsStarted r n words keys slot
      → length (words ++ from ∷ count_words count) ≡ n
      → IsSlotted (finish_mpop from count r) (words ++ from ∷ count_words count) keys slot
  unfolding finish_mpop
  finish_mpop-IsSlotted n words keys from count none h counted = h
  finish_mpop-IsSlotted n words keys from count (some (cmd, s)) h counted = (
    whole_request laws prefix slot n (words ++ from ∷ count_words count) _
        (ap (λ c. append_count count (redis_cmd_append_sstr c from)) h.0
          ∙ rw (append-request, count_step) (simp append_assoc))
        counted,
    h.1,
  )

  mpop_counted :
      (kw : Bytes) (timeout : ℕ) (keys : HashTable) (from : Bytes) (count : ℤ)
      → length (
          (mpop_head kw (is_blocking kw) timeout keys ++ full_keys prefix (array_values keys))
          ++ from ∷ count_words count)
        ≡ mpop_argc kw keys count + 1
  unfolding mpop_argc
  mpop_counted kw timeout keys from count =
      rw (length-append, length-append, length-full_keys, length-values) (ground arith)

  -- What is sent where the guards let it pass.
  unguarded :
      (kw : Bytes) (timeout : ℕ) (keys : HashTable) (from : Bytes) (count : ℤ)
      (blocking refused : Bool)
      → is_blocking kw ≡ blocking
      → refuses_mpop kw keys from count ≡ refused
      → IsSentUnless refused
          (redis_mpop_cmd prefix slot kw timeout keys from count)
          ((mpop_head kw blocking timeout keys ++ full_keys prefix (array_values keys))
            ++ from ∷ count_words count)
          (full_keys prefix (array_values keys))
          slot
  unfolding redis_mpop_cmd
  unguarded kw timeout keys from count blocking true blocks e = rw e refl
  unguarded kw timeout keys from count blocking false blocks e =
      rw (← blocks, e, head_step)
        (finish_mpop-IsSlotted (mpop_argc kw keys count + 1)
          (mpop_head kw (is_blocking kw) timeout keys ++ full_keys prefix (array_values keys)) _
          from count _
          (append_keys-IsStarted prefix (mpop_argc kw keys count + 1) slot (array_values keys)
            (mpop_head kw (is_blocking kw) timeout keys))
          (mpop_counted kw timeout keys from count))

-- The four commands that redis_mpop_cmd makes.
pub data Mpop : Type 0 where
  lmpop blmpop zmpop bzmpop : Mpop

abbrev pub keyword : Mpop → Bytes
keyword lmpop = codes "LMPOP"
keyword blmpop = codes "BLMPOP"
keyword zmpop = codes "ZMPOP"
keyword bzmpop = codes "BZMPOP"

abbrev pub blocks : Mpop → Bool
blocks lmpop = false
blocks blmpop = true
blocks zmpop = false
blocks bzmpop = true

one_or_more : (n : ℕ) → ltb_ℤ (pos (suc n)) (pos 1) ≡ false
one_or_more n = ground arith

below_one : (n : ℕ) → ltb_ℤ (negsuc n) (pos 1) ≡ true
below_one n = ground arith

is_blocking-blocks : (m : Mpop) → is_blocking (keyword m) ≡ blocks m
unfolding is_blocking
is_blocking-blocks lmpop = refl
is_blocking-blocks blmpop = refl
is_blocking-blocks zmpop = refl
is_blocking-blocks bzmpop = refl

module _ ⦃z : Zend⦄ where
  -- A list has a LEFT and a RIGHT, a sorted set a MIN and a MAX.
  abbrev pub has_end : Mpop → Bytes → Bool
  has_end lmpop from = z.equals_ci from (codes "LEFT") || z.equals_ci from (codes "RIGHT")
  has_end blmpop from = z.equals_ci from (codes "LEFT") || z.equals_ci from (codes "RIGHT")
  has_end zmpop from = z.equals_ci from (codes "MIN") || z.equals_ci from (codes "MAX")
  has_end bzmpop from = z.equals_ci from (codes "MIN") || z.equals_ci from (codes "MAX")

  -- There are keys, and one element or more are to be taken.
  abbrev pub is_refused_call : Mpop → HashTable → Bytes → ℤ → Bool
  is_refused_call m end from count = true
  is_refused_call m (entry k v keys) from (negsuc n) = true
  is_refused_call m (entry k v keys) from (pos zero) = true
  is_refused_call m (entry k v keys) from (pos (suc n)) = not (has_end m from)

  ends-eq :
      (m : Mpop) (from : Bytes)
      → (if is_zmpop (keyword m) then is_min_or_max from else is_end from) ≡ has_end m from
  unfolding is_zmpop starts_with_z is_blocking is_min_or_max is_end
  ends-eq lmpop from = refl
  ends-eq blmpop from = refl
  ends-eq zmpop from = refl
  ends-eq bzmpop from = refl

  refuses-eq :
      (m : Mpop) (keys : HashTable) (from : Bytes) (count : ℤ)
      → refuses_mpop (keyword m) keys from count ≡ is_refused_call m keys from count
  unfolding refuses_mpop num_elements
  refuses-eq m end from count = refl
  refuses-eq m (entry k v keys) from (negsuc n) =
      rw (not_empty (num_elements keys), below_one n) refl
  refuses-eq m (entry k v keys) from (pos zero) = rw (not_empty (num_elements keys)) refl
  refuses-eq m (entry k v keys) from (pos (suc n)) =
      rw (not_empty (num_elements keys), one_or_more n, ends-eq m from) refl

module _ ⦃z : Zend⦄ (laws : ZendLaws z) (prefix : Option Bytes) (slot : Option ℕ) where
  -- LMPOP, BLMPOP, ZMPOP and BZMPOP, whatever the arguments, are refused for no keys, a count below 1, or an end
  -- other than LEFT and RIGHT (MIN and MAX for a Z), and for nothing else without a cluster. Else a server reads
  -- what is sent as the keyword, the timeout if the command blocks, the number of keys, as many keys behind the
  -- prefix, the end, and a count that is not 1. A cluster's command is refused then only if no slot has all keys,
  -- and else its slot is that of every key.
  pub mpop_cmd-IsSentUnless :
      (m : Mpop) (timeout : ℕ) (keys : HashTable) (from : Bytes) (count : ℤ)
      → let full = full_keys prefix (array_values keys) in
        IsSentUnless
          (is_refused_call m keys from count)
          (redis_mpop_cmd prefix slot (keyword m) timeout keys from count)
          ((mpop_head (keyword m) (blocks m) timeout keys ++ full) ++ from ∷ count_words count)
          full
          slot
  mpop_cmd-IsSentUnless m timeout keys from count =
      unguarded laws prefix slot (keyword m) timeout keys from count (blocks m)
        (is_refused_call m keys from count) (is_blocking-blocks m) (refuses-eq m keys from count)
