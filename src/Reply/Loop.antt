-- ===== src/Reply/Loop.antt =====
-- redis-6.0.2/library.c: arrays of bulk strings, `redis_mbulk_reply_loop` and
-- `redis_sock_read_multibulk_reply_zval`.
use icore_tax_gateway.Base.{
  ℕ, zero, suc, ◌+◌, ◌%◌, ◌^◌, ◌<◌, ◌≤◌, ◌≡◌, ap, sym, ◌∙◌, Bool, true, false, not, Option, none,
  some, List, [], ◌∷◌, ◌++◌, append_assoc, append-nil, Bytes, arith, All, length, ◌==◌,
}
use icore_tax_gateway.Base.Int.{ℤ, pos, negsuc}
use icore_tax_gateway.Zend.{Zval, is_bool, is_string, is_array, HashTable, end}
use icore_tax_gateway.Zend.Decimal.{snprintf_ld}
use icore_tax_gateway.Sock.{Stream, StreamLaws, RedisSock, is_failed}
use icore_tax_gateway.Sock.Read.{
  Step, then_do, atol, redis_sock_read, read_mbulk_header, switch_reply,
  redis_sock_read_bulk_reply_of,
}
use icore_tax_gateway.Sock.Exact.{at, gets-line, read_bulk-text}
use icore_tax_gateway.Sock.Numbers.{number-Lacks, number-short, atol-number, to_int-small}
use icore_tax_gateway.Reply.{add_next_index_zval}
use icore_tax_gateway.Reply.Protocol.{numbered_from}
use icore_tax_gateway.Reply.Element.{add_next-numbered}

-- UNSERIALIZE_NONE and its kin.
pub data Unserialize : Type 0 where
  unserialize_none unserialize_keys unserialize_vals unserialize_all : Unserialize

-- Whether the element at an index is unserialized.
unfoldable pub unwraps : Unserialize → ℕ → Bool
unwraps unserialize_none i = false
unwraps unserialize_keys i = i % 2 == 0
unwraps unserialize_vals i = not (i % 2 == 0)
unwraps unserialize_all i = true

-- redis_unpack, by the configuration of the connection, and zend_symtable_update.
module _ (unpack : Bytes → Option Zval) where
  unfoldable pub unpacked : Bool → Bytes → Zval
  unpacked false line = is_string line
  unpacked true line = elim (unpack line) [ none ↦ is_string line | some v ↦ v ]

  -- What is added for a line, or for none.
  unfoldable pub add_line : Bool → HashTable → Option Bytes → HashTable
  unfolding unpacked
  add_line unwrap z_tab none = add_next_index_zval z_tab (is_bool false)
  add_line unwrap z_tab (some line) = add_next_index_zval z_tab (unpacked unwrap line)

  unfoldable pub next_line :
      (RedisSock → HashTable → Option (RedisSock × HashTable))
      → Bool
      → HashTable
      → Step Bytes
      → Option (RedisSock × HashTable)
  unfolding add_line
  next_line continue unwrap z_tab none = none
  next_line continue unwrap z_tab (some (s, line)) = continue s (add_line unwrap z_tab line)

  module _ ⦃n : Stream⦄ where
    -- for (i = 0; i < count; ++i), with the elements that are left.
    unfoldable pub redis_mbulk_reply_loop :
        ℕ → Unserialize → ℕ → ℕ → RedisSock → HashTable → Option (RedisSock × HashTable)
    unfolding unwraps next_line
    redis_mbulk_reply_loop fuel unserialize zero i s z_tab = some (s, z_tab)
    redis_mbulk_reply_loop fuel unserialize (suc left) i s z_tab =
        next_line (λ s' z'. redis_mbulk_reply_loop fuel unserialize left (suc i) s' z')
          (unwraps unserialize i) z_tab (redis_sock_read fuel s)

    unfoldable pub zval_of : Option (RedisSock × HashTable) → Step Zval
    zval_of none = none
    zval_of (some (s, z_tab)) = some (s, some (is_array z_tab))

    -- A count below zero is no element.
    unfoldable pub element_count : ℤ → ℕ
    element_count (pos k) = k
    element_count (negsuc k) = 0

    -- `none` is NULL, with z_tab set to null.
    unfoldable pub redis_sock_read_multibulk_reply_zval : ℕ → RedisSock → Step Zval
    unfolding zval_of element_count
    redis_sock_read_multibulk_reply_zval fuel s = then_do (read_mbulk_header s) (λ s' numElems.
        zval_of (redis_mbulk_reply_loop fuel unserialize_all (element_count numElems) 0 s' end))

-- A bulk string as a server prints it, before others.
abbrev pub print_bulk : Bytes → Bytes → Bytes
print_bulk text rest =
    b'$' ∷ (snprintf_ld (pos (length text)) ++ 13 ∷ 10 ∷ (text ++ 13 ∷ 10 ∷ rest))

abbrev pub print_bulks : List Bytes → Bytes → Bytes
print_bulks [] rest = rest
print_bulks (text ∷ texts) rest = print_bulk text (print_bulks texts rest)

module _ ⦃n : Stream⦄ (laws : StreamLaws n) (s : RedisSock)
    (live : is_failed s.status ≡ false) where
  -- A bulk string is read whole.
  pub sock_read-bulk :
      (fuel : ℕ) (text rest : Bytes)
      → length text + 2 ≤ fuel
      → length text + 2 < 2 ^ 31
      → redis_sock_read fuel (at s (print_bulk text rest)) ≡ some (at s rest, some text)
  unfolding redis_sock_read then_do switch_reply redis_sock_read_bulk_reply_of
  sock_read-bulk fuel text rest enough small =
      let v = pos (length text) in
      let header : Bytes = snprintf_ld v in
      ap (λ o. then_do o (switch_reply fuel))
        (gets-line laws s live 4095 (b'$' ∷ header) (text ++ 13 ∷ 10 ∷ rest)
          (omega arith, number-Lacks v) (omega (arith, number-short v (omega arith))))
      ∙ rw (number, to_int-small (length text) (omega arith))
          (read_bulk-text laws fuel s text rest live enough small)
    where
      number : atol (snprintf_ld (pos (length text))) ≡ pos (length text)
      number =
          ap atol (sym (append-nil (snprintf_ld (pos (length text)))))
          ∙ atol-number (pos (length text)) [] (omega arith) tt

module _ (unpack : Bytes → Option Zval) ⦃n : Stream⦄ (laws : StreamLaws n) where
  -- The strings from an index on, unserialized where the mode says so.
  abbrev pub unpacked_from : Unserialize → ℕ → List Bytes → List Zval
  unpacked_from unserialize i [] = []
  unpacked_from unserialize i (text ∷ texts) =
      unpacked unpack (unwraps unserialize i) text ∷ unpacked_from unserialize (suc i) texts

  -- Bulk strings that arrive in pieces of any size are added in their order, each of them unserialized
  -- if the mode asks for it at its index, and nothing behind them is taken.
  pub reply_loop-strings :
      (fuel : ℕ) (unserialize : Unserialize) (texts : List Bytes) (i : ℕ) (s : RedisSock)
      (vs : List Zval) (rest : Bytes)
      → is_failed s.status ≡ false
      → All (λ text. (length text + 2 ≤ fuel) × (length text + 2 < 2 ^ 31)) texts
      → redis_mbulk_reply_loop unpack fuel unserialize
          (length texts)
          i
          (at s (print_bulks texts rest))
          (numbered_from 0 vs)
        ≡ some (at s rest, numbered_from 0 (vs ++ unpacked_from unserialize i texts))
  unfolding redis_mbulk_reply_loop next_line add_line
  reply_loop-strings fuel unserialize [] i s vs rest live fits =
      ap (λ l. some (at s rest, numbered_from 0 l)) (sym (append-nil vs))
  reply_loop-strings fuel unserialize (text ∷ texts) i s vs rest live fits =
      let v = unpacked unpack (unwraps unserialize i) text in
      let next : RedisSock → HashTable → Option (RedisSock × HashTable) =
        λ s' z'. redis_mbulk_reply_loop unpack fuel unserialize (length texts) (suc i) s' z' in
      let z_tab = numbered_from 0 vs in
      ap (next_line unpack next (unwraps unserialize i) z_tab)
        (sock_read-bulk laws s live fuel text (print_bulks texts rest) fits.0.0 fits.0.1)
      ∙ ap (next (at s (print_bulks texts rest))) (add_next-numbered vs v)
      ∙ reply_loop-strings fuel unserialize texts (suc i) s (vs ++ v ∷ []) rest live fits.1
      ∙ ap (λ l. some (at s rest, numbered_from 0 l)) (append_assoc vs (v ∷ []) _)
