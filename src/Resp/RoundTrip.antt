-- ===== src/Resp/RoundTrip.antt =====
-- Requests as a whole: as the functions of `Sstr` write them and the reader of `Server` reads them.
use icore_tax_gateway.Base.{
  ℕ, zero, suc, ◌+◌, ◌<◌, ◌≡◌, refl, ap, ◌∙◌, Option, none, some, List, [], ◌∷◌, ◌++◌, Bytes, arith,
  ◌*◌, ◌-◌, append-nil, true, leb, Bool, false, if◌then◌else◌, sym, length, All, take-length_append,
  drop-length_append, append_assoc, length-append,
}
use icore_tax_gateway.Base.Int.{ℤ}
use icore_tax_gateway.Zend.{Zend, ZendLaws, Zval, IsDigit, digits_value}
use icore_tax_gateway.Zend.Decimal.{snprintf_ld}
use icore_tax_gateway.Resp.Sstr.{
  nl, redis_key_prefix, set_slot, comma_to_point, redis_cmd_init_sstr, redis_cmd_append_sstr,
  redis_cmd_append_sstr_int, redis_cmd_append_sstr_long, redis_cmd_append_sstr_dbl,
  redis_cmd_append_sstr_zval, redis_cmd_append_sstr_key,
}
use icore_tax_gateway.Resp.Server.{
  read_number, skip_newline, take_text, read_bulk, read_bulks, read_request, Delivers,
}

read_number-digits :
    (ds rest : Bytes) (acc : ℕ)
    → All IsDigit ds
    → read_number acc (ds ++ 13 ∷ 10 ∷ rest) ≡ some (digits_value acc ds, rest)
unfolding read_number
read_number-digits [] rest acc h = ground arith
read_number-digits (c ∷ []) rest acc h =
    ground (arith, read_number-digits [] rest (acc * 10 + (c - b'0')) tt)
read_number-digits (c ∷ d ∷ ds) rest acc h =
    ground (arith, read_number-digits (d ∷ ds) rest (acc * 10 + (c - b'0')) h.1)

within : (w rest : Bytes) → leb (length w) (length (w ++ rest)) ≡ true
within w rest = ground (arith, length-append w rest)

take_text-exact :
    (w rest : Bytes) → take_text (some (length w, w ++ 13 ∷ 10 ∷ rest)) ≡ some (w, rest)
unfolding take_text skip_newline
take_text-exact w rest = rw (within w (13 ∷ 10 ∷ rest), take-length_append, drop-length_append)

module _ ⦃z : Zend⦄ where
  -- A word as a bulk string, and a row of them.
  pub bulk : Bytes → Bytes
  bulk w = b'$' ∷ (z.append_long (length w) ++ (nl ++ (w ++ nl)))

  pub bulks : List Bytes → Bytes
  bulks [] = []
  bulks (w ∷ ws) = bulk w ++ bulks ws

  -- A header that announces `n` words, and words behind it.
  pub request : ℕ → List Bytes → Bytes
  request n ws = b'*' ∷ (z.append_long n ++ (nl ++ bulks ws))

  pub init-eq-request :
      (n : ℕ) (kw : Bytes) → redis_cmd_init_sstr [] n kw ≡ request (n + 1) (kw ∷ [])
  unfolding redis_cmd_init_sstr request bulks bulk
  init-eq-request n kw = simp (append_assoc, append-nil)

  bulks-append : (ws vs : List Bytes) → bulks (ws ++ vs) ≡ bulks ws ++ bulks vs
  unfolding bulks
  bulks-append [] vs = refl
  bulks-append (w ∷ ws) vs = simp (bulks-append ws vs, append_assoc)

  pub append-request :
      (n : ℕ) (ws : List Bytes) (w : Bytes)
      → redis_cmd_append_sstr (request n ws) w ≡ request n (ws ++ w ∷ [])
  unfolding redis_cmd_append_sstr request bulks bulk
  append-request n ws w = simp (bulks-append, append_assoc, append-nil)

  pub append_int-request :
      (n : ℕ) (ws : List Bytes) (v : ℤ)
      → redis_cmd_append_sstr_int (request n ws) v ≡ request n (ws ++ snprintf_ld v ∷ [])
  unfolding redis_cmd_append_sstr_int
  append_int-request n ws v = append-request n ws (snprintf_ld v)

  pub append_long-request :
      (n : ℕ) (ws : List Bytes) (v : ℤ)
      → redis_cmd_append_sstr_long (request n ws) v ≡ request n (ws ++ snprintf_ld v ∷ [])
  unfolding redis_cmd_append_sstr_long
  append_long-request n ws v = append-request n ws (snprintf_ld v)

  pub append_dbl-request :
      (n : ℕ) (ws : List Bytes) (v : ℕ)
      → redis_cmd_append_sstr_dbl (request n ws) v
        ≡ request n (ws ++ comma_to_point (z.format_double v) ∷ [])
  unfolding redis_cmd_append_sstr_dbl
  append_dbl-request n ws v = append-request n ws (comma_to_point (z.format_double v))

  pub append_zval-request :
      (n : ℕ) (ws : List Bytes) (v : Zval) (has_sock : Bool)
      → redis_cmd_append_sstr_zval (request n ws) v has_sock
        ≡ request n (ws ++ (if has_sock then z.pack v else z.get_string v) ∷ [])
  unfolding redis_cmd_append_sstr_zval
  append_zval-request n ws v has_sock = append-request n ws _

  pub append_key-request :
      (n : ℕ) (ws : List Bytes) (key : Bytes) (prefix : Option Bytes) (slot : Option ℕ)
      → redis_cmd_append_sstr_key (request n ws) key prefix slot ≡ (
        request n (ws ++ redis_key_prefix prefix key ∷ []),
        set_slot slot (redis_key_prefix prefix key),
      )
  unfolding redis_cmd_append_sstr_key
  append_key-request n ws key prefix slot =
      ap (λ cmd. (cmd, set_slot slot (redis_key_prefix prefix key)))
        (append-request n ws (redis_key_prefix prefix key))

  -- Words that are appended under a condition.
  pub request_if :
      (b : Bool) (n : ℕ) (ws more : List Bytes) (cmd : Bytes)
      → cmd ≡ request n (ws ++ more)
      → (if b then cmd else request n ws) ≡ request n (ws ++ (if b then more else []))
  request_if true n ws more cmd h = h
  request_if false n ws more cmd h = ap (request n) (sym (append-nil ws))

module _ ⦃z : Zend⦄ (laws : ZendLaws z) where
  number_lem :
      (n : ℕ) (rest : Bytes) → read_number 0 (z.append_long n ++ (nl ++ rest)) ≡ some (n, rest)
  number_lem n rest =
      read_number-digits (z.append_long n) rest 0 (laws.append_long_digits n)
      ∙ ap (λ k. some (k, rest)) (laws.append_long_value n)

  read_bulk-bulk : (w rest : Bytes) → read_bulk (bulk w ++ rest) ≡ some (w, rest)
  unfolding read_bulk bulk
  read_bulk-bulk w rest = simp append_assoc (rw number_lem (take_text-exact w rest))

  read_bulks-bulks :
      (ws : List Bytes) (rest : Bytes) → read_bulks (length ws) (bulks ws ++ rest) ≡ some (ws, rest)
  unfolding read_bulks bulks
  read_bulks-bulks [] rest = refl
  read_bulks-bulks (w ∷ ws) rest =
      rw append_assoc
        (rw (read_bulk-bulk w (bulks ws ++ rest), read_bulks) (rw (read_bulks-bulks ws rest)))

  -- A request that announces as many words as it holds is read as these words.
  pub request-Delivers : (ws : List Bytes) → Delivers (request (length ws) ws) ws
  unfolding read_request request
  request-Delivers ws = record {
    reads = λ rest. simp append_assoc (rw number_lem (read_bulks-bulks ws rest));
  }

  -- A request that announces fewer words than it holds: the reader leaves the others, which are no
  -- request.
  pub request-leaves :
      (ws vs : List Bytes) → read_request (request (length ws) (ws ++ vs)) ≡ some (ws, bulks vs)
  unfolding read_request request
  request-leaves ws vs = rw bulks-append (rw number_lem (read_bulks-bulks ws (bulks vs)))

  read_bulks-missing : (n : ℕ) (ws : List Bytes) → length ws < n → read_bulks n (bulks ws) ≡ none
  unfolding read_bulks bulks
  read_bulks-missing zero ws h = elim h [ ]
  read_bulks-missing (suc n) [] h = unfold read_bulk in refl
  read_bulks-missing (suc n) (w ∷ ws) h =
      rw (read_bulk-bulk w (bulks ws), read_bulks) (rw (read_bulks-missing n ws (omega arith)))

  -- A request that announces more words than it holds is not complete.
  pub request-missing :
      (n : ℕ) (ws : List Bytes) → length ws < n → read_request (request n ws) ≡ none
  unfolding read_request request
  request-missing n ws h = rw number_lem (read_bulks-missing n ws h)
