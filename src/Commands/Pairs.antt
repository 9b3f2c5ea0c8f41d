-- ===== src/Commands/Pairs.antt =====
-- redis-6.0.2/redis_commands.c: LMOVE with BLMOVE, and COPY. The warnings are left out.
use icore_tax_gateway.Base.{
  ℕ, zero, ◌+◌, ◌==◌, Bool, true, false, ◌||◌, ◌&&◌, not, Option, none, some, [], ◌∷◌, Bytes, codes,
  if◌then◌else◌,
}
use icore_tax_gateway.Base.Int.{ℤ, negsuc}
use icore_tax_gateway.Zend.{Zend, HashTable, end, entry, name, index}
use icore_tax_gateway.Resp.Sstr.{
  redis_cmd_init_sstr, redis_cmd_append_sstr, redis_cmd_append_sstr_dbl, redis_cmd_append_sstr_key,
}
use icore_tax_gateway.Commands.Set.{append_flag}
use icore_tax_gateway.Commands.Restore.{above_minus_one, append_number}
use icore_tax_gateway.Commands.Slotted.{differ, second}

-- `toupper(*kw) == 'B'`
unfoldable pub is_blocking : Bytes → Bool
is_blocking [] = false
is_blocking (c ∷ kw) = (c == b'B') || (c == b'b')

-- `db != -1`
unfoldable pub is_database : ℤ → Bool
is_database (negsuc zero) = false
is_database db = true

unfoldable pub is_some {ℓ} : {A : Type ℓ} → Option A → Bool
is_some none = false
is_some (some a) = true

module _ ⦃z : Zend⦄ where
  unfoldable pub is_end : Bytes → Bool
  is_end from = z.equals_ci from (codes "LEFT") || z.equals_ci from (codes "RIGHT")

  -- `if (blocking) redis_cmd_append_sstr_dbl(&cmdstr, timeout)`
  unfoldable pub append_blocking : Bool → ℕ → Bytes → Bytes
  append_blocking blocking timeout cmd =
      if blocking then redis_cmd_append_sstr_dbl cmd timeout else cmd

  unfoldable pub copy_options : HashTable → ℤ × Bool → ℤ × Bool
  copy_options end o = o
  copy_options (entry (index i) zv ht) o = copy_options ht o
  copy_options (entry (name zkey) zv ht) (db, replace) = copy_options ht (
      if z.equals_ci zkey (codes "db")
      then (z.get_long zv, replace)
      else if z.equals_ci zkey (codes "replace")
      then (db, z.is_true zv)
      else (db, replace))

module _ ⦃z : Zend⦄ (prefix : Option Bytes) (slot : Option ℕ) where
  unfoldable pub redis_lmove_cmd :
      Bytes → Bytes → Bytes → Bytes → Bytes → ℕ → Option (Bytes × Option ℕ)
  unfolding is_end is_blocking append_blocking differ second
  redis_lmove_cmd kw src dst from to timeout =
      if not (is_end from) || not (is_end to)
      then none
      else (let cmd = redis_cmd_init_sstr [] (4 + (if is_blocking kw then 1 else 0)) kw in
          let (cmd₁, slot₁) = redis_cmd_append_sstr_key cmd src prefix slot in
          let (cmd₂, slot₂) = redis_cmd_append_sstr_key cmd₁ dst prefix (second slot) in
          let cmd₃ = redis_cmd_append_sstr (redis_cmd_append_sstr cmd₂ from) to in
          if differ slot₁ slot₂
          then none
          else some (append_blocking (is_blocking kw) timeout cmd₃, slot₁))

  unfoldable pub copy_with : ℤ → Bool → Bytes → Bytes → Option (Bytes × Option ℕ)
  unfolding is_database is_some differ second
  copy_with db replace src dst =
      if is_some slot && is_database db
      then none
      else (let cmd =
            redis_cmd_init_sstr []
              (2 + (if above_minus_one db then 2 else 0) + (if replace then 1 else 0))
              (codes "COPY") in
          let (cmd₁, slot₁) = redis_cmd_append_sstr_key cmd src prefix slot in
          let (cmd₂, slot₂) = redis_cmd_append_sstr_key cmd₁ dst prefix (second slot) in
          if differ slot₁ slot₂
          then none
          else some
              (append_flag replace (codes "REPLACE") (append_number (codes "DB") db cmd₂), slot₁))

  unfoldable pub redis_copy_cmd : Bytes → Bytes → HashTable → Option (Bytes × Option ℕ)
  unfolding copy_with copy_options
  redis_copy_cmd src dst opts =
      let (db, replace) = copy_options opts (negsuc 0, false) in copy_with db replace src dst
