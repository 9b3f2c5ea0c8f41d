-- ===== src/Commands/EvalSlotted.antt =====
-- redis-6.0.2/redis_commands.c: redis_eval_cmd
use icore_tax_gateway.Base.{
  ℕ, suc, ◌+◌, ◌≡◌, refl, ap, ◌∙◌, Option, none, some, List, [], ◌∷◌, Bytes, arith, length, map,
}
use icore_tax_gateway.Base.Int.{ℤ}
use icore_tax_gateway.Zend.{Zend, ZendLaws, Zval}
use icore_tax_gateway.Zend.Decimal.{snprintf_ld}
use icore_tax_gateway.Resp.Sstr.{
  redis_cmd_init_sstr, redis_cmd_append_sstr, redis_cmd_append_sstr_long,
}
use icore_tax_gateway.Resp.RoundTrip.{request, init-eq-request, append-request, append_long-request}
use icore_tax_gateway.Commands.ListCalls.{whole_request}
use icore_tax_gateway.Commands.Slotted.{positive, any_slot, redis_eval_cmd}
use icore_tax_gateway.Commands.SlottedBuilt.{eval_args, eval_keys, texts_kept}
use icore_tax_gateway.Commands.SlotCalls.{
  IsSlotOf, IsSlotted, IsStarted, append_eval-IsStarted, length-eval_args,
}

any_slot-IsSlotOf : (random : ℕ) (slot : Option ℕ) → IsSlotOf (any_slot random slot) [] slot
unfolding any_slot
any_slot-IsSlotOf random none = tt
any_slot-IsSlotOf random (some old) = tt

module _ ⦃z : Zend⦄ where
  eval_head :
      (argc : ℕ) (kw lua : Bytes) (num_keys : ℤ)
      → redis_cmd_append_sstr_long
          (redis_cmd_append_sstr (redis_cmd_init_sstr [] argc kw) lua)
          num_keys
        ≡ request (argc + 1) (kw ∷ lua ∷ snprintf_ld num_keys ∷ [])
  eval_head argc kw lua num_keys =
      ap (λ c. redis_cmd_append_sstr_long (redis_cmd_append_sstr c lua) num_keys)
        (init-eq-request argc kw)
      ∙ ap (λ c. redis_cmd_append_sstr_long c num_keys) (append-request (argc + 1) (kw ∷ []) lua)
      ∙ append_long-request (argc + 1) (kw ∷ lua ∷ []) num_keys

module _ ⦃z : Zend⦄ (laws : ZendLaws z) (prefix : Option Bytes) (slot : Option ℕ) where
  whole-IsSlotted :
      (n : ℕ) (words keys : List Bytes) (r : Option (Bytes × Option ℕ))
      → IsStarted r n words keys slot
      → length words ≡ n
      → IsSlotted r words keys slot
  whole-IsSlotted n words keys none h counted = h
  whole-IsSlotted n words keys (some (cmd, s)) h counted =
      (whole_request laws prefix slot n words cmd h.0 counted, h.1)

  -- A server reads EVAL or EVALSHA as the keyword, the script, the number of keys, and then the arguments, of
  -- which as many as the number says have the prefix, since they are keys. In a cluster they are refused only if
  -- no slot has all keys, and else their slot is that of every key; without a cluster they are never refused.
  pub eval-IsSlotted :
      (random : ℕ) (kw lua : Bytes) (argv : List Zval) (num_keys : ℤ)
      → IsSlotted
          (redis_eval_cmd prefix random slot kw lua argv num_keys)
          (kw ∷ lua ∷ snprintf_ld num_keys ∷ eval_args prefix (positive num_keys) argv)
          (eval_keys prefix (positive num_keys) argv)
          slot
  unfolding redis_eval_cmd
  eval-IsSlotted random kw lua [] num_keys = (
    whole_request laws prefix slot 3 (kw ∷ lua ∷ snprintf_ld num_keys ∷ []) _
        (eval_head 2 kw lua num_keys) refl,
    any_slot-IsSlotOf random slot,
  )
  eval-IsSlotted random kw lua (v ∷ argv) num_keys =
      let n : ℕ = 2 + suc (length argv) + 1 in
      rw (eval_head (2 + suc (length argv)) kw lua num_keys) (
        whole-IsSlotted n _ _ _
          (append_eval-IsStarted prefix n slot (positive num_keys) (v ∷ argv)
            (kw ∷ lua ∷ snprintf_ld num_keys ∷ []))
          (omega (arith, length-eval_args prefix (positive num_keys) (v ∷ argv))))

module _ ⦃z : Zend⦄ (prefix : Option Bytes) where
  -- In a cluster, EVAL with arguments of which none is a key has the slot that its caller had before, whatever it was.
  pub eval_slot_kept :
      (random old : ℕ) (kw lua : Bytes) (v : Zval) (argv : List Zval) (num_keys : ℤ)
      → positive num_keys ≡ 0
      → redis_eval_cmd prefix random (some old) kw lua (v ∷ argv) num_keys
        ≡ some (
          request
              (2 + suc (length argv) + 1)
              (kw ∷ lua ∷ snprintf_ld num_keys ∷ map z.get_string (v ∷ argv)),
          some old,
        )
  unfolding redis_eval_cmd
  eval_slot_kept random old kw lua v argv num_keys h =
      rw (h, eval_head (2 + suc (length argv)) kw lua num_keys)
        (rw
          (texts_kept prefix (2 + suc (length argv) + 1) (some old) none (v ∷ argv)
            (kw ∷ lua ∷ snprintf_ld num_keys ∷ []))
          refl)
