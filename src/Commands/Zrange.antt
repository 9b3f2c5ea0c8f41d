-- ===== src/Commands/Zrange.antt =====
-- redis-6.0.2/redis_commands.c: redis_zrange_cmd, with redis_get_zcmd_flags and redis_get_zcmd_options.
-- The warnings that they raise are left out.
use icore_tax_gateway.Base.{
  ℕ, ◌+◌, ◌==◌, Bool, true, false, ◌||◌, ◌&&◌, not, Option, none, some, [], ◌∷◌, Bytes, codes,
  if◌then◌else◌,
}
use icore_tax_gateway.Base.Int.{ℤ, pos}
use icore_tax_gateway.Zend.{
  Zend, Zval, is_string, is_bool, is_array, HashTable, end, entry, ZendKey, name, index,
}
use icore_tax_gateway.Resp.Sstr.{
  redis_cmd_init_sstr, redis_cmd_append_sstr, redis_cmd_append_sstr_long,
  redis_cmd_append_sstr_zval, redis_cmd_append_sstr_key,
}
use icore_tax_gateway.Base.Text.{same_word}
use icore_tax_gateway.Commands.Set.{append_flag}
use icore_tax_gateway.Commands.Slotted.{differ}

-- The bits REDIS_ZCMD_HAS_… and REDIS_ZCMD_INT_RANGE.
pub record ZcmdFlags : Type 0 where
  pub has_dst_key : Bool
  pub has_withscores : Bool
  pub has_by_lex_score : Bool
  pub has_rev : Bool
  pub has_limit : Bool
  pub has_aggregate : Bool
  pub int_range : Bool

pub record ZcmdOptions : Type 0 where
  pub withscores : Bool
  pub byscore : Bool
  pub bylex : Bool
  pub rev : Bool
  pub limit : Option (ℤ × ℤ)
  pub aggregate : Option Bytes

-- memset(dst, 0, sizeof(*dst))
abbrev pub no_zcmd_options : ZcmdOptions
no_zcmd_options = record {
  withscores = false;
  byscore = false;
  bylex = false;
  rev = false;
  limit = none;
  aggregate = none;
}

abbrev pub no_zcmd_flags : ZcmdFlags
no_zcmd_flags = record {
  has_dst_key = false;
  has_withscores = false;
  has_by_lex_score = false;
  has_rev = false;
  has_limit = false;
  has_aggregate = false;
  int_range = false;
}

-- The keywords that the code has a row for; `none` is the assertion behind them.
unfoldable pub redis_get_zcmd_flags : Bytes → Option ZcmdFlags
redis_get_zcmd_flags kw =
    if same_word kw (codes "ZRANGESTORE")
    then some (record no_zcmd_flags {
      has_dst_key = true;
      has_withscores = true;
      has_by_lex_score = true;
      has_rev = true;
      has_limit = true;
    })
    else if same_word kw (codes "ZRANGE")
    then some (record no_zcmd_flags {
      has_withscores = true;
      has_by_lex_score = true;
      has_rev = true;
      has_limit = true;
    })
    else if same_word kw (codes "ZREVRANGE")
    then some (record no_zcmd_flags { has_withscores = true; int_range = true })
    else if same_word kw (codes "ZRANGEBYSCORE") || same_word kw (codes "ZREVRANGEBYSCORE")
    then some (record no_zcmd_flags { has_limit = true; has_withscores = true })
    else if same_word kw (codes "ZRANGEBYLEX") || same_word kw (codes "ZREVRANGEBYLEX")
    then some (record no_zcmd_flags { has_limit = true })
    else if same_word kw (codes "ZDIFF")
    then some (record no_zcmd_flags { has_withscores = true })
    else if same_word kw (codes "ZINTER") || same_word kw (codes "ZUNION")
    then some (record no_zcmd_flags { has_withscores = true; has_aggregate = true })
    else none

-- zend_hash_index_find
unfoldable pub index_find : ℕ → HashTable → Option Zval
index_find i end = none
index_find i (entry (name k) v ht) = index_find i ht
index_find i (entry (index (pos n)) v ht) =
    let rest = index_find i ht in if n == i then some v else rest
index_find i (entry (index idx) v ht) = index_find i ht

unfoldable pub validate_zlex_arg : Bytes → Bool
validate_zlex_arg [] = false
validate_zlex_arg (c ∷ []) = (c == b'+') || (c == b'-')
validate_zlex_arg (c ∷ d ∷ str) = (c == b'[') || (c == b'(')

unfoldable pub validate_zlex_arg_zval : Zval → Bool
unfolding validate_zlex_arg
validate_zlex_arg_zval (is_string s) = validate_zlex_arg s
validate_zlex_arg_zval _ = false

-- The range, as the parser reads it: two numbers for REDIS_ZCMD_INT_RANGE, else two values.
pub data ZRange : Type 0 where
  longs : ℤ → ℤ → ZRange
  zvals : Zval → Zval → ZRange

-- Both ends of a range; for numbers there is the assertion that this is not asked.
unfoldable pub valid_lex : ZRange → Bool
unfolding validate_zlex_arg_zval
valid_lex (longs start end') = false
valid_lex (zvals zstart zend) = validate_zlex_arg_zval zstart && validate_zlex_arg_zval zend

unfoldable pub is_table : Zval → Bool
is_table (is_array ht) = true
is_table _ = false

module _ ⦃z : Zend⦄ where
  unfoldable pub set_limit : Option Zval → Option Zval → ZcmdOptions → ZcmdOptions
  set_limit (some zoff) (some zcnt) dst = record dst {
    limit = some (z.get_long zoff, z.get_long zcnt);
  }
  set_limit _ _ dst = dst

  unfoldable pub limit_option : Zval → ZcmdOptions → ZcmdOptions
  unfolding set_limit index_find
  limit_option (is_array ht) dst = set_limit (index_find 0 ht) (index_find 1 ht) dst
  limit_option _ dst = dst

  unfoldable pub aggregate_option : Zval → ZcmdOptions → ZcmdOptions
  aggregate_option (is_string s) dst =
      if z.equals_ci s (codes "SUM") || z.equals_ci s (codes "MIN") || z.equals_ci s (codes "MAX")
      then record dst { aggregate = some s }
      else dst
  aggregate_option _ dst = dst

  unfoldable pub named_option : ZcmdFlags → Bytes → Zval → ZcmdOptions → ZcmdOptions
  unfolding limit_option aggregate_option is_table
  named_option flags key zv dst =
      if flags.has_withscores && z.equals_ci key (codes "WITHSCORES")
      then record dst { withscores = z.is_true zv }
      else if flags.has_limit && z.equals_ci key (codes "LIMIT") && is_table zv
      then limit_option zv dst
      else if flags.has_aggregate && z.equals_ci key (codes "AGGREGATE")
      then aggregate_option zv dst
      else dst

  unfoldable pub flag_option : ZcmdFlags → Zval → ZcmdOptions → ZcmdOptions
  flag_option flags (is_string key) dst =
      if flags.has_by_lex_score && z.equals_ci key (codes "BYSCORE")
      then record dst { byscore = true; bylex = false }
      else if flags.has_by_lex_score && z.equals_ci key (codes "BYLEX")
      then record dst { bylex = true; byscore = false }
      else if flags.has_rev && z.equals_ci key (codes "REV")
      then record dst { rev = true }
      else if flags.has_withscores && z.equals_ci key (codes "WITHSCORES")
      then record dst { withscores = true }
      else dst
  flag_option flags _ dst = dst

  unfoldable pub zcmd_option : ZcmdFlags → ZendKey → Zval → ZcmdOptions → ZcmdOptions
  unfolding named_option flag_option
  zcmd_option flags (name key) zv dst = named_option flags key zv dst
  zcmd_option flags (index i) zv dst = flag_option flags zv dst

  unfoldable pub zcmd_options : ZcmdFlags → HashTable → ZcmdOptions → ZcmdOptions
  unfolding zcmd_option
  zcmd_options flags end dst = dst
  zcmd_options flags (entry key zv ht) dst = zcmd_options flags ht (zcmd_option flags key zv dst)

  unfoldable pub redis_get_zcmd_options : ZcmdFlags → Option Zval → ZcmdOptions
  unfolding zcmd_options
  redis_get_zcmd_options flags (some (is_array ht)) = zcmd_options flags ht no_zcmd_options
  redis_get_zcmd_options flags (some (is_bool true)) = record no_zcmd_options {
    withscores = flags.has_withscores;
  }
  redis_get_zcmd_options flags _ = no_zcmd_options

  unfoldable pub append_range : ZRange → Bytes → Bytes
  append_range (longs start end') cmd =
      redis_cmd_append_sstr_long (redis_cmd_append_sstr_long cmd start) end'
  append_range (zvals zstart zend) cmd =
      redis_cmd_append_sstr_zval (redis_cmd_append_sstr_zval cmd zstart false) zend false

  unfoldable pub append_limit : Option (ℤ × ℤ) → Bytes → Bytes
  append_limit none cmd = cmd
  append_limit (some (offset, count)) cmd =
      redis_cmd_append_sstr_long
        (redis_cmd_append_sstr_long (redis_cmd_append_sstr cmd (codes "LIMIT")) offset) count

-- `flag ? 1 : 0`
unfoldable pub one_if : Bool → ℕ
one_if flag = if flag then 1 else 0

unfoldable pub limit_argc : Option (ℤ × ℤ) → ℕ
limit_argc none = 0
limit_argc (some l) = 3

unfoldable pub zrange_argc : ZcmdFlags → ZcmdOptions → ℕ
unfolding one_if limit_argc
zrange_argc flags opt =
    3
    + one_if flags.has_dst_key
    + one_if opt.bylex
    + one_if opt.byscore
    + one_if opt.rev
    + one_if opt.withscores
    + limit_argc opt.limit

module _ ⦃z : Zend⦄ (prefix : Option Bytes) (slot : Option ℕ) where
  unfoldable pub append_dst : Bool → Bytes → Bytes → Bytes × Option ℕ
  append_dst false dst cmd = (cmd, slot)
  append_dst true dst cmd = redis_cmd_append_sstr_key cmd dst prefix slot

  unfoldable pub append_zrange : ZRange → ZcmdOptions → Bytes → Bytes
  unfolding append_range append_limit append_flag
  append_zrange range opt cmd = append_flag opt.withscores (codes "WITHSCORES") (
      append_limit opt.limit (
        append_flag opt.rev (codes "REV") (
          append_flag opt.bylex (codes "BYLEX")
            (append_flag opt.byscore (codes "BYSCORE") (append_range range cmd)))))

  -- `if (slot) *slot = slot2`
  unfoldable pub take_slot : Option ℕ → Option ℕ
  take_slot slot2 = elim slot [ none ↦ none | some old ↦ slot2 ]

  -- The command of so many words, with a destination or without.
  unfoldable pub send_zrange :
      Bool → ℕ → Bytes → Bytes → Bytes → ZRange → ZcmdOptions → Option (Bytes × Option ℕ)
  unfolding append_dst append_zrange take_slot differ
  send_zrange has_dst argc kw dst src range opt =
      let cmd = redis_cmd_init_sstr [] argc kw in
      let (cmd₁, slot₁) = append_dst has_dst dst cmd in
      let (cmd₂, slot₂) = redis_cmd_append_sstr_key cmd₁ src prefix (some 0) in
      if has_dst && differ slot₁ slot₂
      then none
      else some (append_zrange range opt cmd₂, take_slot slot₂)

  unfoldable pub zrange_with :
      ZcmdFlags → Bytes → Bytes → Bytes → ZRange → ZcmdOptions → Option (Bytes × Option ℕ)
  unfolding send_zrange valid_lex zrange_argc
  zrange_with flags kw dst src range opt =
      if opt.bylex && not (valid_lex range)
      then none
      else send_zrange flags.has_dst_key (zrange_argc flags opt) kw dst src range opt

  unfoldable pub zrange_flagged :
      Option ZcmdFlags → Bytes → Bytes → Bytes → ZRange → Option Zval → Option (Bytes × Option ℕ)
  unfolding zrange_with redis_get_zcmd_options
  zrange_flagged none kw dst src range zoptions = none
  zrange_flagged (some flags) kw dst src range zoptions =
      zrange_with flags kw dst src range (redis_get_zcmd_options flags zoptions)

  unfoldable pub redis_zrange_cmd :
      Bytes → Bytes → Bytes → ZRange → Option Zval → Option (Bytes × Option ℕ)
  unfolding zrange_flagged redis_get_zcmd_flags
  redis_zrange_cmd kw dst src range zoptions =
      zrange_flagged (redis_get_zcmd_flags kw) kw dst src range zoptions
