-- ===== src/Reply/Element.antt =====
-- One element of a reply: its header, and the value that is made of what stands behind it.
use icore_tax_gateway.Base.{
  ℕ, suc, ◌+◌, ◌^◌, ◌<◌, ◌≤◌, ◌≡◌, refl, ap, ◌∙◌, Bool, true, false, some, List, [], ◌∷◌, ◌++◌,
  Bytes, arith, ◌==◌, if◌then◌else◌, length,
}
use icore_tax_gateway.Base.Int.{ℤ, pos, negsuc, to_int}
use icore_tax_gateway.Base.Text.{Lacks}
use icore_tax_gateway.Zend.{Zval, is_bool, is_string, entry, index}
use icore_tax_gateway.Zend.Decimal.{snprintf_ld}
use icore_tax_gateway.Sock.{
  Stream, StreamLaws, RedisSock, is_failed, redis_sock_set_err, redis_error_throw, throw_exception,
}
use icore_tax_gateway.Sock.Read.{
  then_do, redis_sock_read_bulk_reply, reply_type, reply_number, has_number, redis_read_reply_type,
}
use icore_tax_gateway.Sock.Exact.{at, whole-line, alive-step, gets-line, read_bulk-text}
use icore_tax_gateway.Sock.Numbers.{InLong, number-Lacks, number-short, atol-number, to_int-small}
use icore_tax_gateway.Reply.{
  add_from, add_next_index_zval, line_value, bulk_value, set_or_undefined, ArrayStep, array_value,
  redis_read_variant_line, redis_read_variant_bulk, nested_value, element_value,
}
use icore_tax_gateway.Reply.Protocol.{
  Reply, status, error, integer, bulk, null_bulk, multibulk, null_multibulk, no_more, more, count,
  print, print_all, HasRoom, numbered_from, value, values, noted, noted_all, work,
}

add_from-numbered :
    (i : ℕ) (vs : List Zval) (v : Zval)
    → add_from i (numbered_from i vs) v ≡ numbered_from i (vs ++ v ∷ [])
unfolding add_from numbered_from
add_from-numbered i [] v = refl
add_from-numbered i (w ∷ vs) v = ap (entry (index (pos i)) w) (add_from-numbered (suc i) vs v)

pub add_next-numbered :
    (vs : List Zval) (v : Zval)
    → add_next_index_zval (numbered_from 0 vs) v ≡ numbered_from 0 (vs ++ v ∷ [])
unfolding add_next_index_zval
add_next-numbered vs v = add_from-numbered 0 vs v

-- Errors leave the status and the settings of the connection alone.
noted_error-keeps :
    (text unread : Bytes) (s : RedisSock)
    → redis_error_throw (redis_sock_set_err text (at s unread))
      ≡ at (redis_error_throw (redis_sock_set_err text s)) unread
unfolding redis_error_throw redis_sock_set_err throw_exception
noted_error-keeps [] unread s = refl
noted_error-keeps (c ∷ text) unread s = ground arith

pub noted_error-status :
    (text : Bytes) (s : RedisSock)
    → (redis_error_throw (redis_sock_set_err text s)).status ≡ s.status
unfolding redis_error_throw redis_sock_set_err throw_exception
noted_error-status [] s = refl
noted_error-status (c ∷ text) s = ground arith

pub noted_error-setting :
    (text : Bytes) (s : RedisSock)
    → (redis_error_throw (redis_sock_set_err text s)).null_mbulk_as_null ≡ s.null_mbulk_as_null
unfolding redis_error_throw redis_sock_set_err throw_exception
noted_error-setting [] s = refl
noted_error-setting (c ∷ text) s = ground arith

module _ ⦃n : Stream⦄ (laws : StreamLaws n) (s : RedisSock)
    (live : is_failed s.status ≡ false) where
  reply_number-line :
      (c : ℕ) (v : ℤ) (rest unread : Bytes)
      → InLong v
      → reply_number (at s unread) (snprintf_ld v ++ 13 ∷ 10 ∷ rest) c
        ≡ some (at s rest, some (c, v))
  unfolding reply_number
  reply_number-line c v rest unread h =
      rw
        (
          whole-line laws 255 (snprintf_ld v) rest (number-Lacks v)
              (omega (arith, number-short v h)),
          reply_number,
          atol-number v (13 ∷ 10 ∷ []) h (omega arith),
        )
        refl

  -- The type and the number of an integer, a bulk string or an array.
  pub type-number :
      (c : ℕ) (v : ℤ) (rest : Bytes)
      → InLong v
      → (c == 255) ≡ false
      → has_number c ≡ true
      → redis_read_reply_type (at s (c ∷ (snprintf_ld v ++ 13 ∷ 10 ∷ rest)))
        ≡ some (at s rest, some (c, v))
  unfolding redis_read_reply_type
  type-number c v rest h ascii numbered =
      alive-step laws s live c (snprintf_ld v ++ 13 ∷ 10 ∷ rest) reply_type
      ∙ (unfold reply_type in
          rw (laws.getc_next c (snprintf_ld v ++ 13 ∷ 10 ∷ rest), reply_type, ascii, numbered)
            (reply_number-line c v rest (snprintf_ld v ++ 13 ∷ 10 ∷ rest) h))

  -- The type of a line.
  pub type-line :
      (c : ℕ) (rest : Bytes)
      → (c == 255) ≡ false
      → has_number c ≡ false
      → redis_read_reply_type (at s (c ∷ rest)) ≡ some (at s rest, some (c, pos 0))
  unfolding redis_read_reply_type
  type-line c rest ascii plain =
      alive-step laws s live c rest reply_type
      ∙ (unfold reply_type in rw (laws.getc_next c rest, reply_type, ascii, plain) refl)

-- The type byte and the number of a reply, and what stands behind them.
abbrev pub header : Reply → ℕ × ℤ
header (status text) = (b'+', pos 0)
header (error text) = (b'-', pos 0)
header (integer v) = (b':', v)
header (bulk text) = (b'$', pos (length text))
header null_bulk = (b'$', negsuc 0)
header (multibulk rs) = (b'*', pos (count rs))
header null_multibulk = (b'*', negsuc 0)

abbrev pub body : Reply → Bytes → Bytes
body (status text) rest = text ++ 13 ∷ 10 ∷ rest
body (error text) rest = text ++ 13 ∷ 10 ∷ rest
body (bulk text) rest = text ++ 13 ∷ 10 ∷ rest
body (multibulk rs) rest = print_all rs rest
body _ rest = rest

module _ (s : RedisSock) where
  -- What is asked of the reader of the elements.
  abbrev pub ElementsRead : (ℕ → RedisSock → ArrayStep) → Bool → Reply → Bytes → Type 0
  ElementsRead sub strings (multibulk rs) rest =
      sub (count rs) (at s (print_all rs rest))
      ≡ some
          (at (noted_all rs s) rest, numbered_from 0 (values strings s.null_mbulk_as_null rs), true)
  ElementsRead sub strings _ rest = Unit

module _ ⦃n : Stream⦄ (laws : StreamLaws n) (s : RedisSock)
    (live : is_failed s.status ≡ false) where
  pub header-read :
      (r : Reply) (rest : Bytes)
      → HasRoom r
      → redis_read_reply_type (at s (print r rest)) ≡ some (at s (body r rest), some (header r))
  unfolding print HasRoom
  header-read (status text) rest room =
      type-line laws s live b'+' _ refl (unfold has_number in refl)
  header-read (error text) rest room = type-line laws s live b'-' _ refl (unfold has_number in refl)
  header-read (integer v) rest room =
      type-number laws s live b':' v rest room refl (unfold has_number in refl)
  header-read (bulk text) rest room =
      unfold snprintf_ld in
      type-number laws s live b'$' (pos (length text)) (text ++ 13 ∷ 10 ∷ rest) (omega arith) refl
        (unfold has_number in refl)
  header-read null_bulk rest room =
      type-number laws s live b'$' (negsuc 0) rest (omega arith) refl (unfold has_number in refl)
  header-read (multibulk rs) rest room =
      unfold snprintf_ld in
      type-number laws s live b'*' (pos (count rs)) (print_all rs rest) room.0 refl
        (unfold has_number in refl)
  header-read null_multibulk rest room =
      type-number laws s live b'*' (negsuc 0) rest (omega arith) refl (unfold has_number in refl)

  pub variant_line-status :
      (strings : Bool) (text rest : Bytes)
      → Lacks 10 text × (length text ≤ 4093)
      → redis_read_variant_line b'+' strings (at s (text ++ 13 ∷ 10 ∷ rest))
        ≡ some (at s rest, some (if strings then is_string text else is_bool true))
  unfolding redis_read_variant_line line_value then_do
  variant_line-status strings text rest room =
      rw (gets-line laws s live 4096 text rest room.0 (omega (arith, room.1)), then_do) refl

  pub variant_line-error :
      (strings : Bool) (text rest : Bytes)
      → Lacks 10 text × (length text ≤ 4093)
      → redis_read_variant_line b'-' strings (at s (text ++ 13 ∷ 10 ∷ rest))
        ≡ some (at (redis_error_throw (redis_sock_set_err text s)) rest, some (is_bool false))
  unfolding redis_read_variant_line line_value then_do
  variant_line-error strings text rest room =
      rw (gets-line laws s live 4096 text rest room.0 (omega (arith, room.1)), then_do)
        (ap (λ s'. some (s', some (is_bool false))) (noted_error-keeps text rest s))

  pub variant_bulk-text :
      (fuel : ℕ) (text rest : Bytes)
      → length text + 2 ≤ fuel
      → length text + 2 < 2 ^ 31
      → redis_read_variant_bulk fuel (pos (length text)) (at s (text ++ 13 ∷ 10 ∷ rest))
        ≡ some (at s rest, some (is_string text))
  unfolding redis_read_variant_bulk bulk_value
  variant_bulk-text fuel text rest enough small =
      rw
        (
          to_int-small (length text) (omega arith),
          read_bulk-text laws fuel s text rest live enough small,
          bulk_value,
        )
        refl

  pub variant_bulk-null :
      (fuel : ℕ) (rest : Bytes)
      → redis_read_variant_bulk fuel (negsuc 0) (at s rest) ≡ some (at s rest, some (is_bool false))
  unfolding redis_read_variant_bulk redis_sock_read_bulk_reply bulk_value to_int
  variant_bulk-null fuel rest = refl

  pub element-read :
      (sub : ℕ → RedisSock → ArrayStep) (fuel : ℕ) (strings : Bool) (r : Reply) (rest : Bytes)
      → HasRoom r
      → work r ≤ fuel
      → ElementsRead s sub strings r rest
      → element_value sub fuel strings (at s (body r rest)) (header r)
        ≡ some (at (noted r s) rest, some (value strings s.null_mbulk_as_null r))
  unfolding element_value set_or_undefined nested_value array_value HasRoom work value values noted
      noted_all count print_all numbered_from
  element-read sub fuel strings (status text) rest room enough inner =
      rw (variant_line-status strings text rest room, set_or_undefined) refl
  element-read sub fuel strings (error text) rest room enough inner =
      rw (variant_line-error strings text rest room, set_or_undefined) refl
  element-read sub fuel strings (integer v) rest room enough inner = refl
  element-read sub fuel strings (bulk text) rest room enough inner =
      variant_bulk-text fuel text rest enough room
  element-read sub fuel strings null_bulk rest room enough inner = variant_bulk-null fuel rest
  element-read sub fuel strings (multibulk no_more) rest room enough inner = refl
  element-read sub fuel strings (multibulk (more r rs)) rest room enough inner =
      rw (inner, array_value) refl
  element-read sub fuel strings null_multibulk rest room enough inner = refl
