-- ===== src/Commands/ZrangeOptions.antt =====
-- The options that ZRANGE and its like take are those that they have.
use icore_tax_gateway.Base.{
  ◌≡◌, ap, Bool, true, false, ◌||◌, ◌&&◌, not, Option, none, some, Bytes, codes, arith, Bool-cases,
  inl, inr,
}
use icore_tax_gateway.Zend.{
  Zend, Zval, is_bool, is_string, is_array, HashTable, end, entry, name, index,
}
use icore_tax_gateway.Commands.Zrange.{
  ZcmdFlags, ZcmdOptions, no_zcmd_options, set_limit, limit_option, aggregate_option, named_option,
  flag_option, zcmd_option, zcmd_options, redis_get_zcmd_options, is_table,
}

-- Only options that the command has, and not both an order by score and one by text.
abbrev pub IsAllowed : ZcmdFlags → ZcmdOptions → Type 0
IsAllowed flags opt =
    ((flags.has_withscores || not opt.withscores) ≡ true)
    × ((flags.has_by_lex_score || not (opt.byscore || opt.bylex)) ≡ true)
    × ((flags.has_rev || not opt.rev) ≡ true)
    × (flags.has_limit ≡ false → opt.limit ≡ none)
    × (flags.has_aggregate ≡ false → opt.aggregate ≡ none)
    × ((opt.byscore && opt.bylex) ≡ false)

module _ ⦃z : Zend⦄ (flags : ZcmdFlags) where
  nothing-IsAllowed : IsAllowed flags no_zcmd_options
  nothing-IsAllowed = ground arith

  set_limit-IsAllowed :
      (zoff zcnt : Option Zval) (dst : ZcmdOptions)
      → flags.has_limit ≡ true
      → IsAllowed flags dst
      → IsAllowed flags (set_limit zoff zcnt dst)
  unfolding set_limit
  set_limit-IsAllowed none zcnt dst has h = h
  set_limit-IsAllowed (some a) none dst has h = h
  set_limit-IsAllowed (some a) (some b) dst has (scores, by, rev, limit, aggregate, one) =
      (scores, by, rev, (λ e. absurd (cc (has, e))), aggregate, one)

  limit-IsAllowed :
      (zv : Zval) (dst : ZcmdOptions)
      → flags.has_limit ≡ true
      → IsAllowed flags dst
      → IsAllowed flags (limit_option zv dst)
  unfolding limit_option
  limit-IsAllowed (is_array ht) dst has h = set_limit-IsAllowed _ _ dst has h
  limit-IsAllowed zv dst has h = h

  aggregate-IsAllowed :
      (zv : Zval) (dst : ZcmdOptions)
      → flags.has_aggregate ≡ true
      → IsAllowed flags dst
      → IsAllowed flags (aggregate_option zv dst)
  unfolding aggregate_option
  aggregate-IsAllowed (is_string s) dst has (scores, by, rev, limit, aggregate, one) =
      elim (Bool-cases (
        z.equals_ci s (codes "SUM")
        || z.equals_ci s (codes "MIN")
        || z.equals_ci s (codes "MAX"))) [
          | inl e ↦ rw e (scores, by, rev, limit, (λ e'. absurd (cc (has, e'))), one)
          | inr e ↦ rw e (scores, by, rev, limit, aggregate, one)
        ]
  aggregate-IsAllowed zv dst has h = h

  flag-IsAllowed :
      (zv : Zval) (dst : ZcmdOptions)
      → IsAllowed flags dst
      → IsAllowed flags (flag_option flags zv dst)
  unfolding flag_option
  flag-IsAllowed (is_string s) dst h = ground arith
  flag-IsAllowed zv dst h = h

  scores-IsAllowed :
      (b : Bool) (dst : ZcmdOptions)
      → flags.has_withscores ≡ true
      → IsAllowed flags dst
      → IsAllowed flags (record dst { withscores = b })
  scores-IsAllowed b dst has (scores, by, rev, limit, aggregate, one) =
      (ap (λ f. f || not b) has, by, rev, limit, aggregate, one)

  first_of : (a b : Bool) → a && b ≡ true → a ≡ true
  first_of a b h = ground arith

  named-IsAllowed :
      (key : Bytes) (zv : Zval) (dst : ZcmdOptions)
      → IsAllowed flags dst
      → IsAllowed flags (named_option flags key zv dst)
  unfolding named_option
  named-IsAllowed key zv dst h =
      let scores = flags.has_withscores && z.equals_ci key (codes "WITHSCORES") in
      let limit = flags.has_limit && z.equals_ci key (codes "LIMIT") && is_table zv in
      let aggregate = flags.has_aggregate && z.equals_ci key (codes "AGGREGATE") in
      elim (Bool-cases scores) [
        | inl e ↦ rw e (scores-IsAllowed (z.is_true zv) dst (first_of flags.has_withscores _ e) h)
        | inr e ↦ elim (Bool-cases limit) [
          | inl e' ↦
              rw (e, e') (limit-IsAllowed zv dst (first_of flags.has_limit _ (first_of _ _ e')) h)
          | inr e' ↦ elim (Bool-cases aggregate) [
            | inl e'' ↦
                rw (e, e', e'') (aggregate-IsAllowed zv dst (first_of flags.has_aggregate _ e'') h)
            | inr e'' ↦ rw (e, e', e'') h
          ]
        ]
      ]

  options-IsAllowed :
      (ht : HashTable) (dst : ZcmdOptions)
      → IsAllowed flags dst
      → IsAllowed flags (zcmd_options flags ht dst)
  unfolding zcmd_options zcmd_option
  options-IsAllowed end dst h = h
  options-IsAllowed (entry (name key) zv ht) dst h =
      options-IsAllowed ht (named_option flags key zv dst) (named-IsAllowed key zv dst h)
  options-IsAllowed (entry (index i) zv ht) dst h =
      options-IsAllowed ht (flag_option flags zv dst) (flag-IsAllowed zv dst h)

  pub taken-IsAllowed :
      (zoptions : Option Zval) → IsAllowed flags (redis_get_zcmd_options flags zoptions)
  unfolding redis_get_zcmd_options
  taken-IsAllowed (some (is_array ht)) = options-IsAllowed ht no_zcmd_options nothing-IsAllowed
  taken-IsAllowed (some (is_bool true)) = ground arith
  taken-IsAllowed (some zv) = nothing-IsAllowed
  taken-IsAllowed none = nothing-IsAllowed
