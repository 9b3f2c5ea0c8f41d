-- ===== src/Commands/SlotCalls.antt =====
-- redis-6.0.2/redis_commands.c: what a command with several keys is, and its slot, while it is written.
use icore_tax_gateway.Base.{
  ℕ, zero, suc, ◌≡◌, refl, ap, sym, ◌∙◌, subst, Option, none, some, List, [], ◌∷◌, ◌++◌, Bytes,
  length, append_assoc, append-nil,
}
use icore_tax_gateway.Zend.{Zend, Zval, is_long, is_double}
use icore_tax_gateway.Zend.Decimal.{snprintf_ld}
use icore_tax_gateway.Cluster.HashKey.{cluster_hash_key}
use icore_tax_gateway.Resp.Sstr.{redis_key_prefix, comma_to_point}
use icore_tax_gateway.Resp.Server.{Delivers}
use icore_tax_gateway.Resp.RoundTrip.{request, append_long-request, append_dbl-request}
use icore_tax_gateway.Commands.ListCalls.{length-map}
use icore_tax_gateway.Commands.Slotted.{
  append_keys, append_timeout, append_eval, differs_from, differ,
}
use icore_tax_gateway.Commands.SlottedBuilt.{
  InSlot, full_keys, Continued, key_step, keys_slotted, keys_plain, eval_args, eval_keys,
  eval_slotted, eval_plain, texts_kept,
}

-- The slot that a command is sent to, where one is asked for, is that of these keys.
abbrev pub IsSlotOf : Option ℕ → List Bytes → Option ℕ → Type 0
IsSlotOf none keys none = Unit
IsSlotOf (some s) keys (some old) = InSlot s keys
IsSlotOf _ keys _ = ⊥

-- Refused since the keys have no slot in common.
abbrev pub IsCrossSlot : List Bytes → Option ℕ → Type 0
IsCrossSlot keys none = ⊥
IsCrossSlot keys (some old) = (s : ℕ) → ¬ InSlot s keys

-- A command with these words in the slot of these keys, or none if the keys are in different slots.
abbrev pub IsSlotted : Option (Bytes × Option ℕ) → List Bytes → List Bytes → Option ℕ → Type 0
IsSlotted none words keys slot = IsCrossSlot keys slot
IsSlotted (some (cmd, slot')) words keys slot = Delivers cmd words × IsSlotOf slot' keys slot

module _ ⦃z : Zend⦄ where
  -- A command of which these words are written.
  abbrev pub IsStarted : Option (Bytes × Option ℕ) → ℕ → List Bytes → List Bytes → Option ℕ → Type 0
  IsStarted none n words keys slot = IsCrossSlot keys slot
  IsStarted (some (cmd, slot')) n words keys slot =
      (cmd ≡ request n words) × IsSlotOf slot' keys slot

  abbrev pub timeout_words : Zval → List Bytes
  timeout_words (is_long n) = snprintf_ld n ∷ []
  timeout_words (is_double d) = comma_to_point (z.format_double d) ∷ []
  timeout_words _ = []

module _ ⦃z : Zend⦄ (prefix : Option Bytes) where
  start_with :
      (n old : ℕ) (ws : List Bytes) (key : Bytes) (more keys : List Bytes)
      (r : Option (Bytes × Option ℕ))
      → Continued prefix (cluster_hash_key key) n (ws ++ key ∷ []) more keys r
      → IsStarted r n (ws ++ key ∷ more) (key ∷ keys) (some old)
  start_with n old ws key more keys none c =
      λ s all. c (subst (λ t. InSlot t keys) (sym all.0) all.1)
  start_with n old ws key more keys (some (cmd, slot)) (words, slots, inside) = (
    words ∙ ap (request n) (append_assoc ws (key ∷ []) more),
    subst (λ t. IsSlotOf t (key ∷ keys) (some old)) (sym slots) (refl, inside),
  )

  pub append_keys-IsStarted :
      (n : ℕ) (slot : Option ℕ) (keys : List Zval) (ws : List Bytes)
      → IsStarted
          (append_keys prefix slot none (request n ws) keys)
          n
          (ws ++ full_keys prefix keys)
          (full_keys prefix keys)
          slot
  unfolding append_keys differs_from differ
  append_keys-IsStarted n none keys ws = rw (keys_plain prefix n keys ws) (refl, tt)
  append_keys-IsStarted n (some old) [] ws = (ap (request n) (sym (append-nil ws)), tt)
  append_keys-IsStarted n (some old) (k ∷ keys) ws =
      let key = redis_key_prefix prefix (z.get_string k) in
      rw (key_step prefix n ws (z.get_string k) old) (
        start_with n old ws key (full_keys prefix keys) (full_keys prefix keys) _
          (keys_slotted prefix n (cluster_hash_key key) keys (ws ++ key ∷ [])))

  pub append_eval-IsStarted :
      (n : ℕ) (slot : Option ℕ) (num_keys : ℕ) (argv : List Zval) (ws : List Bytes)
      → IsStarted
          (append_eval prefix slot none num_keys (request n ws) argv)
          n
          (ws ++ eval_args prefix num_keys argv)
          (eval_keys prefix num_keys argv)
          slot
  unfolding append_eval differs_from differ
  append_eval-IsStarted n none num_keys argv ws =
      rw (eval_plain prefix n num_keys argv ws) (refl, tt)
  append_eval-IsStarted n (some old) zero [] ws = (ap (request n) (sym (append-nil ws)), tt)
  append_eval-IsStarted n (some old) (suc m) [] ws = (ap (request n) (sym (append-nil ws)), tt)
  append_eval-IsStarted n (some old) zero (v ∷ argv) ws =
      rw (texts_kept prefix n (some old) none (v ∷ argv) ws) (refl, tt)
  append_eval-IsStarted n (some old) (suc m) (k ∷ argv) ws =
      let key = redis_key_prefix prefix (z.get_string k) in
      rw (key_step prefix n ws (z.get_string k) old) (
        start_with n old ws key (eval_args prefix m argv) (eval_keys prefix m argv) _
          (eval_slotted prefix n (cluster_hash_key key) m argv (ws ++ key ∷ [])))

  pub append_timeout-request :
      (n : ℕ) (ws : List Bytes) (t : Zval)
      → append_timeout t (request n ws) ≡ request n (ws ++ timeout_words t)
  unfolding append_timeout
  append_timeout-request n ws (is_long v) = append_long-request n ws v
  append_timeout-request n ws (is_double v) = append_dbl-request n ws v
  append_timeout-request n ws t = ap (request n) (sym (append-nil ws))

  pub length-full_keys : (keys : List Zval) → length (full_keys prefix keys) ≡ length keys
  length-full_keys [] = refl
  length-full_keys (k ∷ keys) = ap suc (length-full_keys keys)

  pub length-eval_args :
      (num_keys : ℕ) (argv : List Zval) → length (eval_args prefix num_keys argv) ≡ length argv
  length-eval_args zero [] = refl
  length-eval_args (suc m) [] = refl
  length-eval_args zero (v ∷ argv) = ap suc (length-map z.get_string argv)
  length-eval_args (suc m) (k ∷ argv) = ap suc (length-eval_args m argv)
