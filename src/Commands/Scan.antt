-- ===== src/Commands/Scan.antt =====
-- SCAN, SSCAN, HSCAN and ZSCAN: `redis_fmt_scan_cmd`.
use icore_tax_gateway.Base.{
  ℕ, zero, ◌+◌, ◌≡◌, refl, Bool, true, false, List, [], ◌∷◌, ◌++◌, Bytes, codes, arith, length,
  append_assoc, some, if◌then◌else◌, ltb,
}
use icore_tax_gateway.Base.Int.{ℤ, pos, negsuc, ltb_ℤ}
use icore_tax_gateway.Zend.{Zend, ZendLaws}
use icore_tax_gateway.Zend.Decimal.{snprintf_ld}
use icore_tax_gateway.Resp.Sstr.{
  redis_cmd_init_sstr, redis_cmd_append_sstr, redis_cmd_append_sstr_long,
}
use icore_tax_gateway.Resp.Server.{Delivers, read_request}
use icore_tax_gateway.Resp.RoundTrip.{
  bulks, request, init-eq-request, append-request, request-Delivers, request-leaves, request_if,
  append_long-request,
}

-- REDIS_SCAN_TYPE of library.h
pub data ScanType : Type 0 where
  type_scan type_sscan type_hscan type_zscan : ScanType

unfoldable pub kw : ScanType → Bytes
kw type_scan = codes "SCAN"
kw type_sscan = codes "SSCAN"
kw type_hscan = codes "HSCAN"
kw type_zscan = codes "ZSCAN"

-- `type != TYPE_SCAN`
unfoldable pub has_key : ScanType → Bool
has_key type_scan = false
has_key _ = true

-- `if (count)`
unfoldable pub is_set : ℤ → Bool
is_set (pos zero) = false
is_set _ = true

-- `1 + (type!=TYPE_SCAN) + (pat_len>0?2:0) + (count>0?2:0)`
unfoldable pub scan_argc : ScanType → Bytes → ℤ → ℕ
scan_argc type pat count =
    1
    + (if has_key type then 1 else 0)
    + (if ltb 0 (length pat) then 2 else 0)
    + (if ltb_ℤ (pos 0) count then 2 else 0)

module _ ⦃z : Zend⦄ where
  unfoldable pub append_scan_key : ScanType → Bytes → Bytes → Bytes
  append_scan_key type key cmd = if has_key type then redis_cmd_append_sstr cmd key else cmd

  unfoldable pub append_scan_count : ℤ → Bytes → Bytes
  append_scan_count count cmd =
      if is_set count
      then redis_cmd_append_sstr_long (redis_cmd_append_sstr cmd (codes "COUNT")) count
      else cmd

  unfoldable pub append_scan_pattern : Bytes → Bytes → Bytes
  append_scan_pattern pat cmd =
      if ltb 0 (length pat)
      then redis_cmd_append_sstr (redis_cmd_append_sstr cmd (codes "MATCH")) pat
      else cmd

  unfoldable pub redis_fmt_scan_cmd : ScanType → Bytes → ℤ → Bytes → ℤ → Bytes
  redis_fmt_scan_cmd type key it pat count =
      let cmd₁ = redis_cmd_init_sstr [] (scan_argc type pat count) (kw type) in
      let cmd₂ = append_scan_key type key cmd₁ in
      let cmd₃ = redis_cmd_append_sstr_long cmd₂ it in
      append_scan_pattern pat (append_scan_count count cmd₃)

-- The words of a scan, from the arguments of the method.
abbrev key_words : ScanType → Bytes → List Bytes
key_words type key = if has_key type then key ∷ [] else []

abbrev count_words : ℤ → List Bytes
count_words count = if is_set count then codes "COUNT" ∷ snprintf_ld count ∷ [] else []

abbrev pattern_words : Bytes → List Bytes
pattern_words pat = if ltb 0 (length pat) then codes "MATCH" ∷ pat ∷ [] else []

unfoldable pub scan_words : ScanType → Bytes → ℤ → Bytes → ℤ → List Bytes
scan_words type key it pat count =
    kw type ∷ (key_words type key ++ (snprintf_ld it ∷ (count_words count ++ pattern_words pat)))

module _ ⦃z : Zend⦄ where
  key_step :
      (type : ScanType) (key : Bytes) (n : ℕ) (ws : List Bytes)
      → append_scan_key type key (request n ws) ≡ request n (ws ++ key_words type key)
  unfolding append_scan_key
  key_step type key n ws = request_if (has_key type) n ws (key ∷ []) _ (append-request n ws key)

  count_step :
      (count : ℤ) (n : ℕ) (ws : List Bytes)
      → append_scan_count count (request n ws) ≡ request n (ws ++ count_words count)
  unfolding append_scan_count
  count_step count n ws =
      request_if (is_set count) n ws (codes "COUNT" ∷ snprintf_ld count ∷ []) _
        (rw (append-request, append_long-request, append_assoc))

  pattern_step :
      (pat : Bytes) (n : ℕ) (ws : List Bytes)
      → append_scan_pattern pat (request n ws) ≡ request n (ws ++ pattern_words pat)
  unfolding append_scan_pattern
  pattern_step pat n ws =
      request_if (ltb 0 (length pat)) n ws (codes "MATCH" ∷ pat ∷ []) _
        (rw (append-request, append-request, append_assoc))

  scan_request :
      (type : ScanType) (key : Bytes) (it : ℤ) (pat : Bytes) (count : ℤ)
      → redis_fmt_scan_cmd type key it pat count
        ≡ request (scan_argc type pat count + 1) (scan_words type key it pat count)
  unfolding redis_fmt_scan_cmd scan_words
  scan_request type key it pat count =
      simp (init-eq-request, key_step, append_long-request, count_step, pattern_step, append_assoc)

module _ ⦃z : Zend⦄ (laws : ZendLaws z) where
  short_request :
      (ws vs all : List Bytes) (n : ℕ)
      → length ws ≡ n
      → all ≡ ws ++ vs
      → read_request (request n all) ≡ some (ws, bulks vs)
  short_request ws vs all n counted split = rw (split, ← counted) (request-leaves laws ws vs)

-- A count that is not negative is announced as it is appended.
announced :
    (type : ScanType) (key : Bytes) (it : ℤ) (pat : Bytes) (count : ℕ)
    → length (scan_words type key it pat (pos count)) ≡ scan_argc type pat (pos count) + 1
unfolding scan_words scan_argc has_key is_set
announced type key it pat count = ground arith

module _ ⦃z : Zend⦄ (laws : ZendLaws z) where
  -- With a count that is not negative, every scan command is read as its keyword, its key (but for
  -- SCAN), its cursor, its count if that is not zero and its pattern if that is not empty.
  pub redis_fmt_scan_cmd-Delivers :
      (type : ScanType) (key : Bytes) (it : ℤ) (pat : Bytes) (count : ℕ)
      → Delivers
          (redis_fmt_scan_cmd type key it pat (pos count))
          (scan_words type key it pat (pos count))
  redis_fmt_scan_cmd-Delivers type key it pat count =
      rw (scan_request, ← announced type key it pat count) (request-Delivers laws _)

  -- With a negative count the command announces two words fewer than it holds: a server that reads
  -- it takes a shorter request, and two bulk strings are left over that belong to no request.
  pub scan_negative_count :
      (type : ScanType) (key : Bytes) (it : ℤ) (pat : Bytes) (count : ℕ)
      → (ws vs : List Bytes) × (read_request (redis_fmt_scan_cmd type key it pat (negsuc count))
          ≡ some (ws, bulks vs))
        × (length vs ≡ 2)
  unfolding scan_words scan_argc has_key is_set
  scan_negative_count type key it [] count =
      let ws = kw type ∷ (key_words type key ++ snprintf_ld it ∷ []) in
      let vs = codes "COUNT" ∷ snprintf_ld (negsuc count) ∷ [] in
      (ws, vs, rw scan_request (short_request laws ws vs _ _ (ground arith) (ground arith)), refl)
  scan_negative_count type key it (c ∷ pat) count =
      let ws =
        kw type
        ∷ (key_words type key
            ++ snprintf_ld it ∷ codes "COUNT" ∷ snprintf_ld (negsuc count) ∷ []) in
      let vs = codes "MATCH" ∷ (c ∷ pat) ∷ [] in
      (ws, vs, rw scan_request (short_request laws ws vs _ _ (ground arith) (ground arith)), refl)
