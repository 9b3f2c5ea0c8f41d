-- ===== src/Commands/ZrangeWords.antt =====
-- What ZRANGE and its like should be to a server.
use icore_tax_gateway.Base.{
  ℕ, ◌+◌, ◌≡◌, refl, ap, sym, Bool, true, false, Option, none, some, List, [], ◌∷◌, ◌++◌, Bytes,
  codes, length, arith, append_assoc, append-nil, length-append,
}
use icore_tax_gateway.Base.Int.{ℤ}
use icore_tax_gateway.Zend.{Zend}
use icore_tax_gateway.Zend.Decimal.{snprintf_ld}
use icore_tax_gateway.Resp.Sstr.{redis_key_prefix}
use icore_tax_gateway.Resp.RoundTrip.{
  request, append-request, append_long-request, append_zval-request,
}
use icore_tax_gateway.Commands.SetWords.{flag_word, flag_step}
use icore_tax_gateway.Commands.Zrange.{
  ZcmdFlags, ZcmdOptions, ZRange, longs, zvals, append_range, append_limit, one_if, limit_argc,
  zrange_argc, append_zrange,
}

abbrev pub limit_words : Option (ℤ × ℤ) → List Bytes
limit_words none = []
limit_words (some (offset, count)) = codes "LIMIT" ∷ snprintf_ld offset ∷ snprintf_ld count ∷ []

module _ ⦃z : Zend⦄ where
  abbrev pub range_words : ZRange → List Bytes
  range_words (longs start end') = snprintf_ld start ∷ snprintf_ld end' ∷ []
  range_words (zvals zstart zend) = z.get_string zstart ∷ z.get_string zend ∷ []

  -- What stands behind the keys.
  abbrev pub zrange_words : ZRange → ZcmdOptions → List Bytes
  zrange_words range opt =
      range_words range
      ++ (flag_word opt.byscore (codes "BYSCORE")
          ++ (flag_word opt.bylex (codes "BYLEX")
              ++ (flag_word opt.rev (codes "REV")
                  ++ (limit_words opt.limit ++ flag_word opt.withscores (codes "WITHSCORES")))))

  abbrev pub zrange_keys : Option Bytes → Bool → Bytes → Bytes → List Bytes
  zrange_keys prefix false dst src = redis_key_prefix prefix src ∷ []
  zrange_keys prefix true dst src = redis_key_prefix prefix dst ∷ redis_key_prefix prefix src ∷ []

  range_step :
      (range : ZRange) (n : ℕ) (ws : List Bytes)
      → append_range range (request n ws) ≡ request n (ws ++ range_words range)
  unfolding append_range
  range_step (longs a b) n ws = rw (append_long-request, append_long-request) (simp append_assoc)
  range_step (zvals a b) n ws = rw (append_zval-request, append_zval-request) (simp append_assoc)

  limit_step :
      (limit : Option (ℤ × ℤ)) (n : ℕ) (ws : List Bytes)
      → append_limit limit (request n ws) ≡ request n (ws ++ limit_words limit)
  unfolding append_limit
  limit_step none n ws = ap (request n) (sym (append-nil ws))
  limit_step (some (offset, count)) n ws =
      rw (append-request, append_long-request, append_long-request) (simp append_assoc)

  pub zrange_step :
      (range : ZRange) (opt : ZcmdOptions) (prefix : Option Bytes) (slot : Option ℕ) (n : ℕ)
      (ws : List Bytes)
      → append_zrange prefix slot range opt (request n ws)
        ≡ request n (ws ++ zrange_words range opt)
  unfolding append_zrange
  zrange_step range opt prefix slot n ws =
      rw (range_step, flag_step, flag_step, flag_step, limit_step, flag_step) (simp append_assoc)

  range_counted : (range : ZRange) → length (range_words range) ≡ 2
  range_counted (longs a b) = refl
  range_counted (zvals a b) = refl

flag_counted : (flag : Bool) (word : Bytes) → length (flag_word flag word) ≡ one_if flag
unfolding one_if
flag_counted false word = refl
flag_counted true word = refl

limit_counted : (limit : Option (ℤ × ℤ)) → length (limit_words limit) ≡ limit_argc limit
unfolding limit_argc
limit_counted none = refl
limit_counted (some l) = refl

module _ ⦃z : Zend⦄ where
  pub zrange_counted :
      (flags : ZcmdFlags) (range : ZRange) (opt : ZcmdOptions)
      → 1 + one_if flags.has_dst_key + length (zrange_words range opt) ≡ zrange_argc flags opt
  unfolding zrange_argc
  zrange_counted flags range opt =
      rw
        (
          length-append, length-append, length-append, length-append, length-append, range_counted,
          flag_counted, flag_counted, flag_counted, limit_counted, flag_counted,
        )
        (omega arith)
