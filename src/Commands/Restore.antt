-- ===== src/Commands/Restore.antt =====
-- RESTORE with its options, `redis_get_restore_options` and `redis_restore_cmd`, and GETEX,
-- `redis_getex_cmd`. The warnings that they raise are left out.
use icore_tax_gateway.Base.{
  ℕ, ◌+◌, Bool, true, false, ◌||◌, ◌&&◌, Option, none, some, [], Bytes, codes, if◌then◌else◌,
}
use icore_tax_gateway.Base.Int.{ℤ, pos, negsuc, ltb_ℤ}
use icore_tax_gateway.Base.Text.{c_string}
use icore_tax_gateway.Zend.{Zend, Zval, is_string, HashTable, end, entry, ZendKey, name, index}
use icore_tax_gateway.Resp.Sstr.{
  redis_cmd_init_sstr, redis_cmd_append_sstr, redis_cmd_append_sstr_long, redis_cmd_append_sstr_key,
}
use icore_tax_gateway.Commands.Set.{is_given, is_expire_key, append_flag, append_expire}

pub record RestoreOptions : Type 0 where
  pub idletime : ℤ
  pub freq : ℤ
  pub replace : Bool
  pub absttl : Bool

-- `memset(dst, 0, sizeof(*dst)); dst->idletime = dst->freq = -1;`
abbrev pub no_restore_options : RestoreOptions
no_restore_options = record {
  idletime = negsuc 0;
  freq = negsuc 0;
  replace = false;
  absttl = false;
}

-- `n > -1`
unfoldable pub above_minus_one : ℤ → Bool
above_minus_one n = ltb_ℤ (negsuc 0) n

-- The variables of GETEX: the type of a time, the time, and PERSIST.
pub record GetexOptions : Type 0 where
  pub exp_type : Option Bytes
  pub expire : ℤ
  pub persist : Bool

module _ ⦃z : Zend⦄ where
  unfoldable pub set_idletime : ℤ → RestoreOptions → RestoreOptions
  set_idletime lval dst =
      if ltb_ℤ lval (pos 0) then dst else record dst { idletime = lval; freq = negsuc 0 }

  unfoldable pub set_freq : ℤ → RestoreOptions → RestoreOptions
  set_freq lval dst =
      if ltb_ℤ lval (pos 0) || ltb_ℤ (pos 255) lval
      then dst
      else record dst { freq = lval; idletime = negsuc 0 }

  unfoldable pub restore_word : Zval → RestoreOptions → RestoreOptions
  restore_word (is_string v) dst =
      if z.equals_ci v (codes "REPLACE")
      then record dst { replace = true }
      else if z.equals_ci v (codes "ABSTTL")
      then record dst { absttl = true }
      else dst
  restore_word _ dst = dst

  unfoldable pub restore_option : ZendKey → Zval → RestoreOptions → RestoreOptions
  unfolding set_idletime set_freq restore_word
  restore_option (index i) zv dst = restore_word zv dst
  restore_option (name key) zv dst =
      if z.equals_ci key (codes "IDLETIME")
      then set_idletime (z.get_long zv) dst
      else if z.equals_ci key (codes "FREQ")
      then set_freq (z.get_long zv) dst
      else dst

  unfoldable pub redis_get_restore_options : RestoreOptions → HashTable → RestoreOptions
  unfolding restore_option
  redis_get_restore_options dst end = dst
  redis_get_restore_options dst (entry key zv ht) =
      redis_get_restore_options (restore_option key zv dst) ht

  unfoldable pub restore_argc : RestoreOptions → ℕ
  unfolding above_minus_one
  restore_argc opt =
      3
      + (if above_minus_one opt.idletime then 2 else 0)
      + (if above_minus_one opt.freq then 2 else 0)
      + (if opt.absttl then 1 else 0)
      + (if opt.replace then 1 else 0)

  -- An option that has a number.
  unfoldable pub append_number : Bytes → ℤ → Bytes → Bytes
  unfolding above_minus_one
  append_number word number cmd =
      if above_minus_one number
      then redis_cmd_append_sstr_long (redis_cmd_append_sstr cmd word) number
      else cmd

  unfoldable pub redis_restore_cmd :
      Option Bytes → Option ℕ → Bytes → ℤ → Bytes → HashTable → Bytes × Option ℕ
  unfolding redis_get_restore_options restore_argc append_flag append_number
  redis_restore_cmd prefix slot key timeout value options =
      let opt = redis_get_restore_options no_restore_options options in
      let cmd = redis_cmd_init_sstr [] (restore_argc opt) (codes "RESTORE") in
      let keyed = redis_cmd_append_sstr_key cmd key prefix slot in
      let cmd₁ = redis_cmd_append_sstr (redis_cmd_append_sstr_long keyed.0 timeout) value in
      let cmd₂ =
        append_flag opt.absttl (codes "ABSTTL") (append_flag opt.replace (codes "REPLACE") cmd₁) in
      (
        append_number (codes "FREQ") opt.freq (append_number (codes "IDLETIME") opt.idletime cmd₂),
        keyed.1,
      )

  unfoldable pub getex_option : ZendKey → Zval → GetexOptions → GetexOptions
  unfolding is_expire_key
  getex_option (index i) z_ele o = o
  getex_option (name zkey) z_ele o =
      if is_expire_key zkey
      then record { exp_type = some (c_string zkey); expire = z.get_long z_ele; persist = false }
      else if z.equals_ci zkey (codes "PERSIST")
      then record o { persist = z.is_true z_ele; exp_type = none }
      else o

  unfoldable pub getex_options : GetexOptions → HashTable → GetexOptions
  unfolding getex_option
  getex_options o end = o
  getex_options o (entry zkey z_ele z_opts) = getex_options (getex_option zkey z_ele o) z_opts

  abbrev pub no_getex_options : GetexOptions
  no_getex_options = record { exp_type = none; expire = negsuc 0; persist = false }

  unfoldable pub getex_argc : GetexOptions → ℕ
  unfolding is_given
  getex_argc o = 1 + (if is_given o.exp_type then 2 else if o.persist then 1 else 0)

  unfoldable pub append_getex : GetexOptions → Bytes → Bytes
  unfolding is_given append_expire append_flag
  append_getex o cmd =
      if is_given o.exp_type
      then append_expire o.exp_type o.expire cmd
      else append_flag o.persist (codes "PERSIST") cmd

  unfoldable pub getex_command : Option Bytes → Option ℕ → Bytes → GetexOptions → Bytes × Option ℕ
  unfolding getex_argc append_getex
  getex_command prefix slot key o =
      let cmd = redis_cmd_init_sstr [] (getex_argc o) (codes "GETEX") in
      let keyed = redis_cmd_append_sstr_key cmd key prefix slot in (append_getex o keyed.0, keyed.1)

  -- `none` is a time below 1.
  unfoldable pub redis_getex_cmd :
      Option Bytes → Option ℕ → Bytes → HashTable → Option (Bytes × Option ℕ)
  unfolding getex_options getex_command is_given
  redis_getex_cmd prefix slot key z_opts =
      let o = getex_options no_getex_options z_opts in
      if is_given o.exp_type && ltb_ℤ o.expire (pos 1)
      then none
      else some (getex_command prefix slot key o)
