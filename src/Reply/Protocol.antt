-- ===== src/Reply/Protocol.antt =====
-- The replies of the protocol: how a server prints them, and what a caller should see of them. It is
-- written from the protocol, and not from the library.
use icore_tax_gateway.Base.{
  ℕ, suc, ◌+◌, ◌<◌, ◌≤◌, ◌^◌, Bool, true, false, List, [], ◌∷◌, ◌++◌, Bytes, if◌then◌else◌, length,
}
use icore_tax_gateway.Base.Int.{ℤ, pos, negsuc}
use icore_tax_gateway.Base.Text.{Lacks}
use icore_tax_gateway.Zend.{
  Zval, is_null, is_bool, is_long, is_string, is_array, HashTable, end, entry, index,
}
use icore_tax_gateway.Zend.Decimal.{decimal, snprintf_ld}
use icore_tax_gateway.Sock.Numbers.{InLong}
use icore_tax_gateway.Sock.{RedisSock, redis_sock_set_err, redis_error_throw}

mutual
  pub data Reply : Type 0 where
    status : Bytes → Reply
    error : Bytes → Reply
    integer : ℤ → Reply
    bulk : Bytes → Reply
    null_bulk : Reply
    multibulk : Replies → Reply
    null_multibulk : Reply

  pub data Replies : Type 0 where
    no_more : Replies
    more : Reply → Replies → Replies

unfoldable pub count : Replies → ℕ
count no_more = 0
count (more r rs) = suc (count rs)

-- The end of a line.
abbrev pub line_end : Bytes → Bytes
line_end rest = 13 ∷ 10 ∷ rest

-- The bytes of a reply, before others.
unfoldable mutual
  pub print : Reply → Bytes → Bytes
  print (status text) rest = b'+' ∷ (text ++ line_end rest)
  print (error text) rest = b'-' ∷ (text ++ line_end rest)
  print (integer v) rest = b':' ∷ (snprintf_ld v ++ line_end rest)
  print (bulk text) rest = b'$' ∷ (decimal (length text) ++ line_end (text ++ line_end rest))
  print null_bulk rest = b'$' ∷ (snprintf_ld (negsuc 0) ++ line_end rest)
  print (multibulk rs) rest = b'*' ∷ (decimal (count rs) ++ line_end (print_all rs rest))
  print null_multibulk rest = b'*' ∷ (snprintf_ld (negsuc 0) ++ line_end rest)

  pub print_all : Replies → Bytes → Bytes
  print_all no_more rest = rest
  print_all (more r rs) rest = print r (print_all rs rest)

-- A reply that the buffers of the client and the numbers of C have room for: lines without a newline
-- of at most 4093 bytes, bulk strings below two gigabytes.
unfoldable mutual
  pub HasRoom : Reply → Type 0
  HasRoom (status text) = Lacks 10 text × (length text ≤ 4093)
  HasRoom (error text) = Lacks 10 text × (length text ≤ 4093)
  HasRoom (integer v) = InLong v
  HasRoom (bulk text) = length text + 2 < 2 ^ 31
  HasRoom null_bulk = Unit
  HasRoom (multibulk rs) = (count rs < 2 ^ 63) × AllRoom rs
  HasRoom null_multibulk = Unit

  pub AllRoom : Replies → Type 0
  AllRoom no_more = Unit
  AllRoom (more r rs) = HasRoom r × AllRoom rs

unfoldable pub numbered_from : ℕ → List Zval → HashTable
numbered_from i [] = end
numbered_from i (v ∷ vs) = entry (index (pos i)) v (numbered_from (suc i) vs)

-- The value of a reply: false for an error and for a missing string, true or the text for a status,
-- and null or an empty array for a missing array.
unfoldable mutual
  pub value : Bool → Bool → Reply → Zval
  value strings as_null (status text) = if strings then is_string text else is_bool true
  value strings as_null (error text) = is_bool false
  value strings as_null (integer v) = is_long v
  value strings as_null (bulk text) = is_string text
  value strings as_null null_bulk = is_bool false
  value strings as_null (multibulk rs) = is_array (numbered_from 0 (values strings as_null rs))
  value strings as_null null_multibulk = if as_null then is_null else is_array end

  pub values : Bool → Bool → Replies → List Zval
  values strings as_null no_more = []
  values strings as_null (more r rs) = value strings as_null r ∷ values strings as_null rs

-- What the errors in a reply leave on the connection, in their order: the last one is kept, and those
-- that are not harmless are thrown.
unfoldable mutual
  pub noted : Reply → RedisSock → RedisSock
  noted (error text) s = redis_error_throw (redis_sock_set_err text s)
  noted (multibulk rs) s = noted_all rs s
  noted _ s = s

  pub noted_all : Replies → RedisSock → RedisSock
  noted_all no_more s = s
  noted_all (more r rs) s = noted_all rs (noted r s)

-- The bytes of the bulk strings and the elements of the arrays: as much fuel as a reply needs.
unfoldable mutual
  pub work : Reply → ℕ
  work (bulk text) = length text + 2
  work (multibulk rs) = work_all rs
  work _ = 0

  pub work_all : Replies → ℕ
  work_all no_more = 0
  work_all (more r rs) = suc (work r + work_all rs)
