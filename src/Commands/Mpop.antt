-- ===== src/Commands/Mpop.antt =====
-- redis-6.0.2/redis_commands.c: redis_mpop_cmd, which makes LMPOP, BLMPOP, ZMPOP and BZMPOP. Its warnings
-- are left out.
use icore_tax_gateway.Base.{
  ℕ, ◌+◌, ◌==◌, Bool, false, ◌||◌, not, Option, none, some, [], ◌∷◌, Bytes, codes, if◌then◌else◌,
}
use icore_tax_gateway.Base.Int.{ℤ, pos, ltb_ℤ}
use icore_tax_gateway.Zend.{Zend, HashTable}
use icore_tax_gateway.Resp.Sstr.{
  redis_cmd_init_sstr, redis_cmd_append_sstr, redis_cmd_append_sstr_long,
}
use icore_tax_gateway.Commands.Fixed.{is_one}
use icore_tax_gateway.Commands.Lists.{num_elements}
use icore_tax_gateway.Commands.Slotted.{append_keys, array_values}
use icore_tax_gateway.Commands.Pairs.{is_blocking, is_end, append_blocking}

-- `tolower(*kw) == 'z'`
unfoldable pub starts_with_z : Bytes → Bool
starts_with_z [] = false
starts_with_z (c ∷ kw) = (c == b'Z') || (c == b'z')

-- `tolower(kw[blocking]) == 'z'`
unfoldable pub is_zmpop : Bytes → Bool
unfolding is_blocking starts_with_z
is_zmpop [] = false
is_zmpop (c ∷ kw) = if is_blocking (c ∷ kw) then starts_with_z kw else starts_with_z (c ∷ kw)

module _ ⦃z : Zend⦄ where
  unfoldable pub is_min_or_max : Bytes → Bool
  is_min_or_max from = z.equals_ci from (codes "MIN") || z.equals_ci from (codes "MAX")

  -- No keys, a count below 1, or an end that the command does not have.
  unfoldable pub refuses_mpop : Bytes → HashTable → Bytes → ℤ → Bool
  unfolding num_elements is_end is_zmpop is_min_or_max
  refuses_mpop kw keys from count =
      num_elements keys == 0
      || ltb_ℤ count (pos 1)
      || not (if is_zmpop kw then is_min_or_max from else is_end from)

  unfoldable pub append_count : ℤ → Bytes → Bytes
  unfolding is_one
  append_count count cmd =
      if is_one count
      then cmd
      else redis_cmd_append_sstr_long (redis_cmd_append_sstr cmd (codes "COUNT")) count

  unfoldable pub finish_mpop : Bytes → ℤ → Option (Bytes × Option ℕ) → Option (Bytes × Option ℕ)
  unfolding append_count
  finish_mpop from count none = none
  finish_mpop from count (some (cmd, slot)) =
      some (append_count count (redis_cmd_append_sstr cmd from), slot)

unfoldable pub mpop_argc : Bytes → HashTable → ℤ → ℕ
unfolding is_one num_elements is_blocking
mpop_argc kw keys count =
    2 + (if is_blocking kw then 1 else 0) + num_elements keys + (if is_one count then 0 else 2)

module _ ⦃z : Zend⦄ (prefix : Option Bytes) (slot : Option ℕ) where
  unfoldable pub redis_mpop_cmd : Bytes → ℕ → HashTable → Bytes → ℤ → Option (Bytes × Option ℕ)
  unfolding refuses_mpop mpop_argc append_blocking append_keys array_values finish_mpop
  redis_mpop_cmd kw timeout keys from count =
      if refuses_mpop kw keys from count
      then none
      else (let cmd =
            append_blocking (is_blocking kw) timeout
              (redis_cmd_init_sstr [] (mpop_argc kw keys count) kw) in
          let cmd₁ = redis_cmd_append_sstr_long cmd (pos (num_elements keys)) in
          finish_mpop from count (append_keys prefix slot none cmd₁ (array_values keys)))
