-- ===== src/Commands/ZrangeCalls.antt =====
-- The members of the ZRANGE family that redis_zrange_cmd sends, and what each takes.
use icore_tax_gateway.Base.{
  ◌≡◌, refl, ap, ◌∙◌, Bool, true, false, ◌||◌, ◌&&◌, not, Option, none, some, [], ◌∷◌, ◌==◌, Bytes,
  codes, arith, Bool-cases, inl, inr, if◌then◌else◌,
}
use icore_tax_gateway.Base.Int.{ℤ}
use icore_tax_gateway.Base.Text.{bytes_eq, same_word}
use icore_tax_gateway.Zend.{
  Zend, Zval, is_bool, is_string, is_array, HashTable, end, entry, name, index,
}
use icore_tax_gateway.Commands.Zrange.{
  ZcmdFlags, ZcmdOptions, no_zcmd_options, redis_get_zcmd_flags, index_find, validate_zlex_arg,
  validate_zlex_arg_zval, ZRange, longs, zvals, valid_lex, set_limit, limit_option, named_option,
  flag_option, zcmd_option, zcmd_options, redis_get_zcmd_options, is_table,
}

pub data ZrangeCall : Type 0 where
  zrange : ZrangeCall
  zrangestore : ZrangeCall
  zrevrange : ZrangeCall
  zrangebyscore : ZrangeCall
  zrevrangebyscore : ZrangeCall
  zrangebylex : ZrangeCall
  zrevrangebylex : ZrangeCall

abbrev pub word_of : ZrangeCall → Bytes
word_of zrange = codes "ZRANGE"
word_of zrangestore = codes "ZRANGESTORE"
word_of zrevrange = codes "ZREVRANGE"
word_of zrangebyscore = codes "ZRANGEBYSCORE"
word_of zrevrangebyscore = codes "ZREVRANGEBYSCORE"
word_of zrangebylex = codes "ZRANGEBYLEX"
word_of zrevrangebylex = codes "ZREVRANGEBYLEX"

abbrev pub stores : ZrangeCall → Bool
stores zrangestore = true
stores _ = false

abbrev pub takes_scores : ZrangeCall → Bool
takes_scores zrangebylex = false
takes_scores zrevrangebylex = false
takes_scores _ = true

abbrev pub takes_order : ZrangeCall → Bool
takes_order zrange = true
takes_order zrangestore = true
takes_order _ = false

abbrev pub takes_limit : ZrangeCall → Bool
takes_limit zrevrange = false
takes_limit _ = true

abbrev pub is_by_rank : ZrangeCall → Bool
is_by_rank zrevrange = true
is_by_rank _ = false

abbrev pub flags_of : ZrangeCall → ZcmdFlags
flags_of call = record {
  has_dst_key = stores call;
  has_withscores = takes_scores call;
  has_by_lex_score = takes_order call;
  has_rev = takes_order call;
  has_limit = takes_limit call;
  has_aggregate = false;
  int_range = is_by_rank call;
}

pub flags_found : (call : ZrangeCall) → redis_get_zcmd_flags (word_of call) ≡ some (flags_of call)
unfolding redis_get_zcmd_flags same_word
flags_found zrange = refl
flags_found zrangestore = refl
flags_found zrevrange = refl
flags_found zrangebyscore = refl
flags_found zrevrangebyscore = refl
flags_found zrangebylex = refl
flags_found zrevrangebylex = refl

-- The ends that Redis takes for a range of texts.
abbrev pub is_opened : Bytes → Bool
is_opened (c ∷ d ∷ text) = (c == b'[') || (c == b'(')
is_opened _ = false

abbrev pub is_lex_end : Zval → Bool
is_lex_end (is_string s) = bytes_eq s (codes "-") || bytes_eq s (codes "+") || is_opened s
is_lex_end _ = false

abbrev pub is_lex_range : ZRange → Bool
is_lex_range (longs low high) = false
is_lex_range (zvals low high) = is_lex_end low && is_lex_end high

lex_end_lem : (zv : Zval) → validate_zlex_arg_zval zv ≡ is_lex_end zv
unfolding validate_zlex_arg_zval validate_zlex_arg bytes_eq
lex_end_lem (is_string []) = refl
lex_end_lem (is_string (c ∷ [])) = ground arith
lex_end_lem (is_string (c ∷ d ∷ s)) = ground arith
lex_end_lem _ = refl

pub lex_range_lem : (range : ZRange) → valid_lex range ≡ is_lex_range range
unfolding valid_lex
lex_range_lem (longs low high) = refl
lex_range_lem (zvals low high) = rw (lex_end_lem low, lex_end_lem high) refl

-- The later of two.
abbrev latest : Option (ℤ × ℤ) → Option (ℤ × ℤ) → Option (ℤ × ℤ)
latest (some later) before = some later
latest none before = before

module _ ⦃z : Zend⦄ (call : ZrangeCall) where
  abbrev is_limit : Bytes → Bool
  is_limit key =
      takes_limit call
      && z.equals_ci key (codes "LIMIT")
      && not (takes_scores call && z.equals_ci key (codes "WITHSCORES"))

  abbrev both_of : Option Zval → Option Zval → Option (ℤ × ℤ)
  both_of (some offset) (some count) = some (z.get_long offset, z.get_long count)
  both_of _ _ = none

  -- The offset and the count: elements 0 and 1.
  abbrev pair_of : Zval → Option (ℤ × ℤ)
  pair_of (is_array ht) = both_of (index_find 0 ht) (index_find 1 ht)
  pair_of _ = none

  -- The last LIMIT of an array that has both.
  abbrev limit_from : HashTable → Option (ℤ × ℤ) → Option (ℤ × ℤ)
  limit_from end before = before
  limit_from (entry (name key) zv ht) before =
      limit_from ht (if is_limit key then latest (pair_of zv) before else before)
  limit_from (entry (index i) zv ht) before = limit_from ht before

  abbrev pub limit_meant : Option Zval → Option (ℤ × ℤ)
  limit_meant (some (is_array ht)) = limit_from ht none
  limit_meant _ = none

  set_limit_lem :
      (a b : Option Zval) (dst : ZcmdOptions)
      → (set_limit a b dst).limit ≡ latest (both_of a b) dst.limit
  unfolding set_limit
  set_limit_lem (some a) (some b) dst = refl
  set_limit_lem (some a) none dst = refl
  set_limit_lem none b dst = refl

  limit_option_lem :
      (zv : Zval) (dst : ZcmdOptions) → (limit_option zv dst).limit ≡ latest (pair_of zv) dst.limit
  unfolding limit_option
  limit_option_lem (is_array ht) dst = set_limit_lem (index_find 0 ht) (index_find 1 ht) dst
  limit_option_lem _ dst = refl

  no_table : (zv : Zval) → is_table zv ≡ false → pair_of zv ≡ none
  unfolding is_table
  no_table (is_array ht) h = cc
  no_table _ h = refl

  flag_limit :
      (zv : Zval) (dst : ZcmdOptions) → (flag_option (flags_of call) zv dst).limit ≡ dst.limit
  unfolding flag_option
  flag_limit (is_string s) dst = ground arith
  flag_limit _ dst = refl

  named_limit :
      (key : Bytes) (zv : Zval) (dst : ZcmdOptions)
      → (named_option (flags_of call) key zv dst).limit
        ≡ (if is_limit key then latest (pair_of zv) dst.limit else dst.limit)
  unfolding named_option
  named_limit key zv dst =
      elim (Bool-cases (takes_scores call && z.equals_ci key (codes "WITHSCORES"))) [
        | inl scores ↦ ground (arith, scores)
        | inr other ↦ elim (Bool-cases (is_table zv)) [
          | inl table ↦ ground (arith, other, table, limit_option_lem zv dst)
          | inr bare ↦ ground (arith, other, bare, no_table zv bare)
        ]
      ]

  options_limit :
      (ht : HashTable) (dst : ZcmdOptions)
      → (zcmd_options (flags_of call) ht dst).limit ≡ limit_from ht dst.limit
  unfolding zcmd_options zcmd_option
  options_limit end dst = refl
  options_limit (entry (name key) zv ht) dst =
      options_limit ht (named_option (flags_of call) key zv dst)
      ∙ ap (limit_from ht) (named_limit key zv dst)
  options_limit (entry (index i) zv ht) dst =
      options_limit ht (flag_option (flags_of call) zv dst) ∙ ap (limit_from ht) (flag_limit zv dst)

  pub limit_lem :
      (zoptions : Option Zval)
      → (redis_get_zcmd_options (flags_of call) zoptions).limit ≡ limit_meant zoptions
  unfolding redis_get_zcmd_options
  limit_lem (some (is_array ht)) = options_limit ht no_zcmd_options
  limit_lem (some (is_bool true)) = refl
  limit_lem (some _) = refl
  limit_lem none = refl
