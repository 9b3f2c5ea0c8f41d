-- ===== src/Connect.antt =====
-- redis-6.0.2/library.c: how a connection is opened, and opened again when it is lost. The functions
-- call each other through redis_sock_write: each check of a connection inside another takes one unit
-- of fuel, and so does each byte of a bulk string. `none` for the whole is no fuel, or undefined
-- behaviour.
pub mod Auth
pub mod Check
pub mod Retries
pub mod Login
pub mod Reopen
pub mod Tests
use icore_tax_gateway.Base.{
  ℕ, zero, suc, ◌+◌, ◌≤◌, Bool, true, false, ◌&&◌, ◌||◌, not, Option, none, some, List, [], ◌∷◌,
  ◌++◌, Bytes, codes, ltb, leb, ◌==◌, if◌then◌else◌, length, take, drop,
}
use icore_tax_gateway.Base.Int.{ℤ, pos, negsuc, ltb_ℤ, to_int}
use icore_tax_gateway.Base.Text.{starts_with, bytes_eq}
use icore_tax_gateway.Zend.{Zend}
use icore_tax_gateway.Zend.Decimal.{snprintf_ld}
use icore_tax_gateway.Resp.Sstr.{redis_cmd_init_sstr, redis_cmd_append_sstr}
use icore_tax_gateway.Resp.Spprintf.{string, long, redis_spprintf}
use icore_tax_gateway.Sock.{
  Stream, RedisSock, SockStatus, failed, disconnected, connected, authenticated, ready,
  throw_exception, redis_sock_set_err, ConnectionPool, redis_sock_disconnect, one_less,
}
use icore_tax_gateway.Sock.Read.{Step, then_do, atol, tail, redis_sock_gets, redis_sock_read}

-- What PHP and the system decide: the settings, what php_stream_xport_create returns the nth time and
-- its error, whether a command is written whole, whether a stream of the pool is live, what
-- redis_stream_detect_dirty leaves of it, and the ids of redis_uniqid.
pub record Net : Type 0 where
  pub ipv6 : Bool
  pub connection_limit : ℤ
  pub echo_check_liveness : Bool
  pub xport_create : ℕ → Bytes → Option Bytes
  pub xport_error : ℕ → Bytes → Option Bytes
  pub write : Bytes → Bytes → Bool
  pub is_live : Bytes → Bool
  pub clean : Bytes → Option Bytes
  pub uniqid : ℕ → Bytes

-- strstr: what stands before the first occurrence, and behind it.
unfoldable pub strstr : Bytes → Bytes → Option (Bytes × Bytes)
strstr needle [] = if starts_with [] needle then some ([], []) else none
strstr needle (c ∷ s) =
    let later = strstr needle s in
    if starts_with (c ∷ s) needle
    then some ([], drop (length needle) (c ∷ s))
    else elim later [ none ↦ none | some (before, after) ↦ some (c ∷ before, after) ]

-- The scheme and the address behind it.
unfoldable pub scheme_address : RedisSock → Bytes × Bytes
unfolding strstr
scheme_address s = elim (strstr (codes "://") s.host) [
  | none ↦ (if s.has_ssl then codes "ssl" else codes "tcp", s.host)
  | some (scheme, address) ↦ (take 7 scheme, address)
]

-- `if (redis_sock->port == 0) redis_sock->port = 6379`
unfoldable pub default_port : ℤ → ℤ
default_port (pos zero) = pos 6379
default_port port = port

unfoldable pub contains : ℕ → Bytes → Bool
contains c [] = false
contains c (d ∷ s) = c == d || contains c s

-- The state, and whether the C function returns SUCCESS.
abbrev pub Outcome : Type 0
Outcome = Option (RedisSock × Bool)

unfoldable pub if_ok : Outcome → (RedisSock → Outcome) → Outcome
if_ok none k = none
if_ok (some (s, false)) k = some (s, false)
if_ok (some (s, true)) k = k s

unfoldable pub or_else : Outcome → (RedisSock → Outcome) → Outcome
or_else none k = none
or_else (some (s, true)) k = some (s, true)
or_else (some (s, false)) k = k s

-- Whether there is a reply, and it passes the test.
unfoldable pub expect : (Bytes → Bool) → Step Bytes → Outcome
expect test none = none
expect test (some (s, none)) = some (s, false)
expect test (some (s, some line)) = some (s, test line)

unfoldable pub with_line : Step Bytes → (RedisSock → Bytes → Outcome) → Outcome
with_line none k = none
with_line (some (s, none)) k = some (s, false)
with_line (some (s, some line)) k = k s line

-- `p->nb_active++`
unfoldable pub one_more : ℤ → ℤ
one_more (pos n) = pos (suc n)
one_more (negsuc zero) = pos zero
one_more (negsuc (suc n)) = negsuc n

-- A change of the count of the pool, if there is one.
unfoldable pub count_active : (ℤ → ℤ) → Option ConnectionPool → Option ConnectionPool
count_active change none = none
count_active change (some p) = some (record p { nb_active = change p.nb_active })

-- zend_llist_get_last and zend_llist_remove_tail
unfoldable pub get_last : List Bytes → Option (Bytes × List Bytes)
get_last [] = none
get_last (x ∷ xs) = elim (get_last xs) [
  | none ↦ some (x, [])
  | some (last, others) ↦ some (last, x ∷ others)
]

unfoldable pub same_ℤ : ℤ → ℤ → Bool
same_ℤ a b = not (ltb_ℤ a b) && not (ltb_ℤ b a)

module _ ⦃w : Net⦄ where
  -- The text of the address, and the port that is set on the way.
  unfoldable pub transport : RedisSock → Bytes × ℤ
  unfolding scheme_address default_port contains
  transport s =
      let (scheme, address) = scheme_address s in
      let port = default_port s.port in
      let brackets = w.ipv6 && contains b':' address && not (contains b'[' address) in
      if starts_with address (codes "/") && ltb_ℤ s.port (pos 1)
      then (codes "unix://" ++ address, s.port)
      else if brackets
      then (scheme ++ codes "://[" ++ address ++ codes "]:" ++ snprintf_ld port, port)
      else (scheme ++ codes "://" ++ address ++ codes ":" ++ snprintf_ld port, port)

  -- php_stream_xport_create and what follows it. The stream counts as active in the pool that is used.
  unfoldable pub open_stream : Bytes → RedisSock → Outcome
  unfolding count_active
  open_stream address s =
      let tried = record s { attempts = s.attempts + 1 } in
      elim (w.xport_create s.attempts address) [
        | none ↦ elim (w.xport_error s.attempts address) [
          | none ↦ some (tried, false)
          | some estr ↦ some (redis_sock_set_err estr tried, false)
        ]
        | some stream ↦ some (
          record tried {
            stream = some stream;
            status = connected;
            pool = if s.persistent then count_active one_more s.pool else s.pool;
          },
          true,
        )
      ]

  -- `limit > 0 && p->nb_active >= limit`
  unfoldable pub limit_reached : ConnectionPool → Bool
  limit_reached p = ltb_ℤ (pos 0) w.connection_limit && not (ltb_ℤ p.nb_active w.connection_limit)

  -- A stream of its own, unless the limit of the pool is reached.
  unfoldable pub open_limited : Bytes → RedisSock → Outcome
  unfolding open_stream limit_reached
  open_limited address s =
      let opened = open_stream address s in
      elim s.pool [
        | none ↦ opened
        | some p ↦
            (if s.persistent && limit_reached p
              then some (redis_sock_set_err (codes "Connection limit reached") s, false)
              else opened)
      ]
