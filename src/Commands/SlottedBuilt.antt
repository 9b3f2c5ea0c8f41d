-- ===== src/Commands/SlottedBuilt.antt =====
-- Keys of a cluster's command are in one slot.
use icore_tax_gateway.Base.{
  ℕ, zero, suc, ◌≡◌, ◌≢◌, refl, ap, sym, ◌∙◌, subst, true, false, Option, none, some, List, [], ◌∷◌,
  ◌++◌, Bytes, arith, All, map, append_assoc, append-nil, Bool-cases, inl, inr, ==_iff,
}
use icore_tax_gateway.Zend.{Zend, Zval}
use icore_tax_gateway.Cluster.HashKey.{cluster_hash_key}
use icore_tax_gateway.Resp.Sstr.{redis_key_prefix, set_slot, redis_cmd_append_sstr_key}
use icore_tax_gateway.Resp.RoundTrip.{request, append-request, append_key-request}
use icore_tax_gateway.Commands.Slotted.{differ, differs_from, append_keys, append_eval}

-- Every key hashes to the slot.
abbrev pub InSlot : ℕ → List Bytes → Type 0
InSlot s keys = All (λ k. cluster_hash_key k ≡ s) keys

pub differ_lem : (a b : ℕ) → differ (some a) (some b) ≡ false → b ≡ a
unfolding differ
differ_lem a b h = ground (arith, ==_iff a b)

pub differ_ne : (a b : ℕ) → differ (some a) (some b) ≡ true → b ≢ a
unfolding differ
differ_ne a b h = ground (arith, ==_iff a b)

module _ ⦃z : Zend⦄ (prefix : Option Bytes) where
  abbrev pub full_keys : List Zval → List Bytes
  full_keys [] = []
  full_keys (k ∷ keys) = redis_key_prefix prefix (z.get_string k) ∷ full_keys keys

  -- What a loop over keys leaves: the words behind those that are there, in the slot of the key before.
  abbrev pub Continued :
      ℕ → ℕ → List Bytes → List Bytes → List Bytes → Option (Bytes × Option ℕ) → Type 0
  Continued s n ws more keys none = ¬ InSlot s keys
  Continued s n ws more keys (some (cmd, slot)) =
      (cmd ≡ request n (ws ++ more)) × (slot ≡ some s) × InSlot s keys

  pub key_step :
      (n : ℕ) (ws : List Bytes) (k : Bytes) (old : ℕ)
      → redis_cmd_append_sstr_key (request n ws) k prefix (some old) ≡ (
        request n (ws ++ redis_key_prefix prefix k ∷ []),
        some (cluster_hash_key (redis_key_prefix prefix k)),
      )
  unfolding set_slot
  key_step n ws k old = append_key-request n ws k prefix (some old)

  -- A key of the slot in front.
  continue_with :
      (n s : ℕ) (ws : List Bytes) (key : Bytes) (more keys : List Bytes)
      (r : Option (Bytes × Option ℕ))
      → cluster_hash_key key ≡ s
      → Continued s n (ws ++ key ∷ []) more keys r
      → Continued s n ws (key ∷ more) (key ∷ keys) r
  continue_with n s ws key more keys none e c = λ all. c all.1
  continue_with n s ws key more keys (some (cmd, slot)) e (words, slots, inside) =
      (words ∙ ap (request n) (append_assoc ws (key ∷ []) more), slots, (e, inside))

  pub keys_slotted :
      (n s : ℕ) (keys : List Zval) (ws : List Bytes)
      → Continued s n ws
          (full_keys keys)
          (full_keys keys)
          (append_keys prefix (some s) (some s) (request n ws) keys)
  unfolding append_keys differs_from
  keys_slotted n s [] ws = (ap (request n) (sym (append-nil ws)), refl, tt)
  keys_slotted n s (k ∷ keys) ws =
      let key = redis_key_prefix prefix (z.get_string k) in
      let h = cluster_hash_key key in
      elim (Bool-cases (differ (some s) (some h))) [
        | inl e ↦ rw (key_step n ws (z.get_string k) s, e) (λ all. differ_ne s h e all.0)
        | inr e ↦
            rw (key_step n ws (z.get_string k) s, e)
              (subst
                (λ t.
                  Continued s n ws (key ∷ full_keys keys) (key ∷ full_keys keys)
                    (append_keys prefix (some t) (some t) (request n (ws ++ key ∷ [])) keys))
                (sym (differ_lem s h e))
                (continue_with n s ws key (full_keys keys) (full_keys keys) _ (differ_lem s h e)
                  (keys_slotted n s keys (ws ++ key ∷ []))))
      ]

  -- Arguments that are no keys leave the slot as it is.
  pub texts_kept :
      (n : ℕ) (slot prevslot : Option ℕ) (argv : List Zval) (ws : List Bytes)
      → append_eval prefix slot prevslot zero (request n ws) argv
        ≡ some (request n (ws ++ map z.get_string argv), slot)
  unfolding append_eval
  texts_kept n slot prevslot [] ws = ap (λ l. some (request n l, slot)) (sym (append-nil ws))
  texts_kept n slot prevslot (v ∷ argv) ws =
      ap (λ c. append_eval prefix slot prevslot zero c argv) (append-request n ws (z.get_string v))
      ∙ texts_kept n slot prevslot argv (ws ++ z.get_string v ∷ [])
      ∙ ap (λ l. some (request n l, slot))
          (append_assoc ws (z.get_string v ∷ []) (map z.get_string argv))

  -- The first arguments are keys.
  abbrev pub eval_args : ℕ → List Zval → List Bytes
  eval_args num_keys [] = []
  eval_args zero (v ∷ argv) = z.get_string v ∷ map z.get_string argv
  eval_args (suc n) (k ∷ argv) = redis_key_prefix prefix (z.get_string k) ∷ eval_args n argv

  abbrev pub eval_keys : ℕ → List Zval → List Bytes
  eval_keys num_keys [] = []
  eval_keys zero (v ∷ argv) = []
  eval_keys (suc n) (k ∷ argv) = redis_key_prefix prefix (z.get_string k) ∷ eval_keys n argv

  pub eval_slotted :
      (n s num_keys : ℕ) (argv : List Zval) (ws : List Bytes)
      → Continued s n ws
          (eval_args num_keys argv)
          (eval_keys num_keys argv)
          (append_eval prefix (some s) (some s) num_keys (request n ws) argv)
  unfolding append_eval differs_from
  eval_slotted n s zero [] ws = (ap (request n) (sym (append-nil ws)), refl, tt)
  eval_slotted n s (suc m) [] ws = (ap (request n) (sym (append-nil ws)), refl, tt)
  eval_slotted n s zero (v ∷ argv) ws =
      subst (Continued s n ws (map z.get_string (v ∷ argv)) [])
        (sym (texts_kept n (some s) (some s) (v ∷ argv) ws)) (refl, refl, tt)
  eval_slotted n s (suc m) (k ∷ argv) ws =
      let key = redis_key_prefix prefix (z.get_string k) in
      let h = cluster_hash_key key in
      elim (Bool-cases (differ (some s) (some h))) [
        | inl e ↦ rw (key_step n ws (z.get_string k) s, e) (λ all. differ_ne s h e all.0)
        | inr e ↦
            rw (key_step n ws (z.get_string k) s, e)
              (subst
                (λ t.
                  Continued s n ws (key ∷ eval_args m argv) (key ∷ eval_keys m argv)
                    (append_eval prefix (some t) (some t) m (request n (ws ++ key ∷ [])) argv))
                (sym (differ_lem s h e))
                (continue_with n s ws key (eval_args m argv) (eval_keys m argv) _ (differ_lem s h e)
                  (eval_slotted n s m argv (ws ++ key ∷ []))))
      ]

  -- Without a cluster no slot is asked for, and all keys are taken.
  pub keys_plain :
      (n : ℕ) (keys : List Zval) (ws : List Bytes)
      → append_keys prefix none none (request n ws) keys
        ≡ some (request n (ws ++ full_keys keys), none)
  unfolding append_keys differs_from differ set_slot
  keys_plain n [] ws = ap (λ l. some (request n l, none)) (sym (append-nil ws))
  keys_plain n (k ∷ keys) ws =
      let key = redis_key_prefix prefix (z.get_string k) in
      rw append_key-request (
        keys_plain n keys (ws ++ key ∷ [])
        ∙ ap (λ l. some (request n l, none)) (append_assoc ws (key ∷ []) (full_keys keys)))

  pub eval_plain :
      (n num_keys : ℕ) (argv : List Zval) (ws : List Bytes)
      → append_eval prefix none none num_keys (request n ws) argv
        ≡ some (request n (ws ++ eval_args num_keys argv), none)
  unfolding append_eval differs_from differ set_slot
  eval_plain n zero [] ws = ap (λ l. some (request n l, none)) (sym (append-nil ws))
  eval_plain n (suc m) [] ws = ap (λ l. some (request n l, none)) (sym (append-nil ws))
  eval_plain n zero (v ∷ argv) ws = texts_kept n none none (v ∷ argv) ws
  eval_plain n (suc m) (k ∷ argv) ws =
      let key = redis_key_prefix prefix (z.get_string k) in
      rw append_key-request (
        eval_plain n m argv (ws ++ key ∷ [])
        ∙ ap (λ l. some (request n l, none)) (append_assoc ws (key ∷ []) (eval_args m argv)))
