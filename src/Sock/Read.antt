-- ===== src/Sock/Read.antt =====
-- redis-6.0.2/library.c: the functions that read lines, bulk strings and headers from a connection.
-- A function returns the state and `none` where the C function returns NULL or a negative number.
-- `none` for the whole is a write out of bounds, an int that overflows, or a loop without fuel.
use icore_tax_gateway.Base.{
  ℕ, zero, suc, ◌+◌, ◌-◌, ◌^◌, min, Bool, true, false, ◌&&◌, ◌||◌, Option, none, some, [], ◌∷◌,
  ◌++◌, Bytes, codes, ltb, ◌==◌, if◌then◌else◌, length, take,
}
use icore_tax_gateway.Base.Int.{ℤ, pos, negsuc, to_int}
use icore_tax_gateway.Base.Text.{starts_with}
use icore_tax_gateway.Cluster.Redirect.{atoi}
use icore_tax_gateway.Sock.{
  Stream, RedisSock, throw_exception, redis_sock_set_err, redis_error_throw, redis_sock_disconnect,
  check_eof,
}

abbrev pub Step {ℓ} : Type ℓ → Type ℓ
Step A = Option (RedisSock × Option A)

-- Go on with the value, if there is one.
unfoldable pub then_do {ℓ κ} :
    {A : Type ℓ} {B : Type κ} → Step A → (RedisSock → A → Step B) → Step B
then_do none k = none
then_do (some (s, none)) k = some (s, none)
then_do (some (s, some a)) k = k s a

-- atol: as atoi, but cut to a long.
unfoldable pub atol : Bytes → ℤ
atol s = elim (atoi s) [ pos n ↦ pos (min n (2 ^ 63 - 1)) | negsuc n ↦ negsuc (min n (2 ^ 63 - 1)) ]

-- What a buffer holds from its second byte on.
abbrev pub tail : Bytes → Bytes
tail [] = []
tail (c ∷ s) = s

-- Go on with the stream, unless redis_check_eof has returned -1.
unfoldable pub if_alive {ℓ} :
    {A : Type ℓ} → RedisSock × Bool → (RedisSock → Bytes → Step A) → Step A
if_alive (lost, false) k = some (lost, none)
if_alive (s, true) k = elim s.stream [ none ↦ none | some unread ↦ k s unread ]

module _ ⦃n : Stream⦄ where
  -- The text of the exception names the host; that of redis_sock_get_line is cut here.
  unfoldable pub get_line_of : ℕ → RedisSock → Bytes → Step Bytes
  get_line_of buf_size s unread = elim (n.get_line buf_size unread) [
    | none ↦ some (
      throw_exception (codes "read error on connection") (redis_sock_disconnect true true s),
      none,
    )
    | some (line, rest) ↦
        (if ltb (length line) 2
          then none
          else some (record s { stream = some rest }, some (take (length line - 2) line)))
  ]

  unfoldable pub redis_sock_gets : ℕ → RedisSock → Step Bytes
  unfolding get_line_of
  redis_sock_gets buf_size s = if_alive (check_eof s) (get_line_of buf_size)

  -- while (offset < nbytes), for what is still missing.
  unfoldable pub consume_bulk : ℕ → ℕ → RedisSock → Bytes → Step Bytes
  consume_bulk fuel zero s got = some (s, some got)
  consume_bulk zero (suc missing) s got = none
  consume_bulk (suc fuel) (suc missing) s got = elim s.stream [
    | none ↦ none
    | some unread ↦ elim (n.read (suc missing) unread) [
      | none ↦ some (s, none)
      | some ([], left) ↦
          (let again = consume_bulk fuel (suc missing) (record s { stream = some left }) got in
            if n.eof left then some (record s { stream = some left }, none) else again)
      | some (c ∷ more, left) ↦
          consume_bulk fuel (missing - length more) (record s { stream = some left })
            (got ++ c ∷ more)
    ]
  ]

  -- Protect against reading too few bytes.
  unfoldable pub whole_bulk : ℕ → Step Bytes → Step Bytes
  whole_bulk bytes none = none
  whole_bulk bytes (some (s, none)) =
      some (throw_exception (codes "socket error on read socket") s, none)
  whole_bulk bytes (some (s, some reply)) = some (s, some (take bytes reply))

  -- `bytes + 2` is an int, and so is not below zero unless `bytes` is.
  unfoldable pub bulk_bytes : ℕ → ℤ → RedisSock → Bytes → Step Bytes
  bulk_bytes fuel (negsuc k) s unread = none
  bulk_bytes fuel (pos bytes) s unread =
      if ltb (bytes + 2) (2 ^ 31)
      then whole_bulk bytes (consume_bulk fuel (bytes + 2) s [])
      else none

  unfoldable pub redis_sock_read_bulk_reply : ℕ → ℤ → RedisSock → Step Bytes
  unfolding bulk_bytes
  redis_sock_read_bulk_reply fuel (negsuc zero) s = some (s, none)
  redis_sock_read_bulk_reply fuel bytes s = if_alive (check_eof s) (bulk_bytes fuel bytes)

  unfoldable pub redis_sock_read_bulk_reply_of : ℕ → Bytes → RedisSock → Step Bytes
  unfolding redis_sock_read_bulk_reply
  redis_sock_read_bulk_reply_of fuel size s = redis_sock_read_bulk_reply fuel (to_int (atol size)) s

  unfoldable pub protocol_error : RedisSock → Step Bytes
  protocol_error s = some (throw_exception (codes "protocol error") s, none)

  -- The replies of a single line, such as +OK or :123.
  unfoldable pub single_line : RedisSock → Bytes → Step Bytes
  single_line s inbuf = if ltb 1 (length inbuf) then some (s, some inbuf) else protocol_error s

  -- switch(inbuf[0]). The message of an error is `len` bytes from the second on, the zero byte at the
  -- end of the buffer included.
  unfoldable pub switch_reply : ℕ → RedisSock → Bytes → Step Bytes
  unfolding redis_sock_read_bulk_reply_of
  switch_reply fuel s [] = protocol_error s
  switch_reply fuel s (c ∷ text) =
      if c == b'-'
      then some (redis_error_throw (redis_sock_set_err (text ++ 0 ∷ []) s), none)
      else if c == b'$'
      then redis_sock_read_bulk_reply_of fuel text s
      else if c == b'*' && starts_with text (codes "-1")
      then some (s, none)
      else if c == b'*' || c == b'+' || c == b':'
      then single_line s (c ∷ text)
      else protocol_error s

  unfoldable pub redis_sock_read : ℕ → RedisSock → Step Bytes
  unfolding switch_reply
  redis_sock_read fuel s = then_do (redis_sock_gets 4095 s) (switch_reply fuel)

  -- The number of elements that a header announces.
  unfoldable pub header_elements : RedisSock → Bytes → Step ℤ
  header_elements s [] = some (s, none)
  header_elements s (c ∷ text) =
      if c == b'*'
      then some (s, some (to_int (atol text)))
      else if c == b'-'
      then some (redis_sock_set_err text s, none)
      else some (s, none)

  unfoldable pub read_mbulk_header : RedisSock → Step ℤ
  unfolding header_elements
  read_mbulk_header s = then_do (redis_sock_gets 4095 s) header_elements

  -- The number of an integer, a bulk string or an array. Other types leave `*reply_info` alone.
  unfoldable pub reply_number : RedisSock → Bytes → ℕ → Step (ℕ × ℤ)
  reply_number s unread c = elim (n.get_line 255 unread) [
    | none ↦ some (s, none)
    | some (line, rest) ↦ some (record s { stream = some rest }, some (c, atol line))
  ]

  unfoldable pub has_number : ℕ → Bool
  has_number c = c == b':' || c == b'$' || c == b'*'

  -- The byte 255 is EOF as a char.
  unfoldable pub reply_type : RedisSock → Bytes → Step (ℕ × ℤ)
  unfolding reply_number has_number
  reply_type s unread = elim (n.getc unread) [
    | none ↦ some (throw_exception (codes "socket error on read socket") s, none)
    | some (c, rest) ↦
        (let s' = record s { stream = some rest } in
          if c == 255
          then some (throw_exception (codes "socket error on read socket") s', none)
          else if has_number c
          then reply_number s' rest c
          else some (s', some (c, pos 0)))
  ]

  -- The reply type, and the number behind it where the type has one.
  unfoldable pub redis_read_reply_type : RedisSock → Step (ℕ × ℤ)
  unfolding reply_type
  redis_read_reply_type s = if_alive (check_eof s) reply_type
