-- ===== src/Sock.antt =====
-- redis-6.0.2/common.h and library.c: the connection to one server (RedisSock), its errors, and how it
-- is closed. A PHP stream is the bytes that it has still to deliver before the connection ends, which
-- no reader of it sees at once; what its functions do with them is a parameter, `Stream`.
pub mod Read
pub mod Wire
pub mod Exact
pub mod Numbers
use icore_tax_gateway.Base.{
  ℕ, zero, suc, ◌+◌, ◌≤◌, ◌<◌, ◌≡◌, ◌≢◌, Bool, true, false, ◌||◌, ◌&&◌, not, Option, none, some,
  List, [], ◌∷◌, ◌++◌, Bytes, codes, if◌then◌else◌, length,
}
use icore_tax_gateway.Base.Int.{ℤ, pos, negsuc}
use icore_tax_gateway.Base.Text.{starts_with, Lacks}
use icore_tax_gateway.Backoff.{RedisBackoff, redis_backoff_reset}
use icore_tax_gateway.Cluster.Abort.{RedisMode, atomic, is_multi}

-- php_stream_eof, php_stream_getc, php_stream_get_line with the size of its buffer, and
-- php_stream_read with the bytes that are wanted: what they return, and what is left. `none` is EOF,
-- NULL or a negative number.
pub record Stream : Type 0 where
  pub eof : Bytes → Bool
  pub getc : Bytes → Option (ℕ × Bytes)
  pub get_line : ℕ → Bytes → Option (Bytes × Bytes)
  pub read : ℕ → Bytes → Option (Bytes × Bytes)

-- The documented behaviour of a stream whose bytes arrive in time: a line that fits is delivered with
-- its newline, and a read delivers some of what is left, not more than what was asked for.
pub record StreamLaws (n : Stream) : Type 0 where
  pub eof_not : (c : ℕ) (rest : Bytes) → n.eof (c ∷ rest) ≡ false
  pub getc_next : (c : ℕ) (rest : Bytes) → n.getc (c ∷ rest) ≡ some (c, rest)
  pub get_line_next :
      (size : ℕ) (line rest : Bytes)
      → Lacks 10 line
      → length line + 1 < size
      → n.get_line size (line ++ 10 ∷ rest) ≡ some (line ++ 10 ∷ [], rest)
  pub read_some :
      (wanted c : ℕ) (rest : Bytes)
      → (got left : Bytes) × (n.read (suc wanted) (c ∷ rest) ≡ some (got, left))
        × (got ++ left ≡ c ∷ rest)
        × (got ≢ [])
        × (length got ≤ suc wanted)

-- redis_sock_status
pub data SockStatus : Type 0 where
  failed disconnected connected authenticated ready : SockStatus

unfoldable pub is_failed : SockStatus → Bool
is_failed failed = true
is_failed _ = false

-- ConnectionPool: the active connections, and the streams of the list.
pub record ConnectionPool : Type 0 where
  pub nb_active : ℤ
  pub list : List Bytes

-- RedisSock. Of the model's own, `attempts` counts the connections that were tried, `sent` is the
-- commands that were written and `slept` the delays, the last one first. `pool` is what redis_sock_get_connection_pool returns if pooling is enabled;
-- `callbacks` counts the items of the list at `head`; `exceptions` are those that were thrown, the
-- last one first.
pub record RedisSock : Type 0 where
  pub stream : Option Bytes
  pub status : SockStatus
  pub mode : RedisMode
  pub watching : Bool
  pub persistent : Bool
  pub pool : Option ConnectionPool
  pub callbacks : ℕ
  pub backoff : RedisBackoff
  pub max_retries : ℕ
  pub user : Option Bytes
  pub pass : Option Bytes
  pub db_number : ℤ
  pub reply_literal : Bool
  pub null_mbulk_as_null : Bool
  pub host : Bytes
  pub port : ℤ
  pub has_ssl : Bool
  pub sentinel : Bool
  pub attempts : ℕ
  pub sent : List Bytes
  pub slept : List ℕ
  pub err : Option Bytes
  pub exceptions : List Bytes

-- REDIS_THROW_EXCEPTION
unfoldable pub throw_exception : Bytes → RedisSock → RedisSock
throw_exception msg s = record s { exceptions = msg ∷ s.exceptions }

unfoldable pub redis_sock_set_err : Bytes → RedisSock → RedisSock
redis_sock_set_err [] s = record s { err = none }
redis_sock_set_err (c ∷ msg) s = record s { err = some (c ∷ msg) }

unfoldable pub redis_sock_errcmp : Bytes → Bytes → Bool
redis_sock_errcmp err prefix = starts_with err prefix

-- Whether an error of the server is thrown and not only kept.
unfoldable pub error_throws : Bytes → Bool
unfolding redis_sock_errcmp
error_throws err =
    if redis_sock_errcmp err (codes "ERR") && not (redis_sock_errcmp err (codes "ERR AUTH"))
    then false
    else not (redis_sock_errcmp err (codes "NOSCRIPT"))
      && not (redis_sock_errcmp err (codes "NOQUORUM"))
      && not (redis_sock_errcmp err (codes "NOGOODSLAVE"))
      && not (redis_sock_errcmp err (codes "WRONGTYPE"))
      && not (redis_sock_errcmp err (codes "BUSYGROUP"))
      && not (redis_sock_errcmp err (codes "NOGROUP"))

unfoldable pub redis_error_throw : RedisSock → RedisSock
redis_error_throw s = elim s.err [
  | none ↦ s
  | some err ↦ if error_throws err then throw_exception err s else s
]

-- `p->nb_active--`
unfoldable pub one_less : ℤ → ℤ
one_less (pos zero) = negsuc zero
one_less (pos (suc n)) = pos n
one_less (negsuc n) = negsuc (suc n)

unfoldable pub drop_active : ConnectionPool → ConnectionPool
drop_active p = record p { nb_active = one_less p.nb_active }

unfoldable pub is_atomic : RedisMode → Bool
is_atomic atomic = true
is_atomic _ = false

-- What happens to the stream: it is closed, with the callbacks that are queued, or goes back to the
-- pool.
unfoldable pub give_up_stream : Bytes → Bool → RedisSock → RedisSock
unfolding one_less drop_active is_atomic
give_up_stream stream force s =
    if not s.persistent
    then s
    else if force || not (is_atomic s.mode)
    then record s {
      callbacks = 0;
      pool = elim s.pool [ none ↦ none | some p ↦ some (drop_active p) ];
    }
    else record s {
      pool = elim s.pool [ none ↦ none | some p ↦ some (record p { list = stream ∷ p.list }) ];
    }

unfoldable pub close_stream : Bool → RedisSock → RedisSock
close_stream force s = elim s.stream [
  | none ↦ s
  | some stream ↦ record (give_up_stream stream force s) { stream = none }
]

unfoldable pub redis_sock_disconnect : Bool → Bool → RedisSock → RedisSock
redis_sock_disconnect force is_reset_mode s =
    let closed = close_stream force s in
    record closed {
      mode = if is_reset_mode then atomic else closed.mode;
      status = disconnected;
      watching = false;
    }

-- The end of redis_check_eof: close the stream and mark the socket as failed.
unfoldable pub connection_lost : Bytes → Bool → RedisSock → RedisSock
connection_lost errmsg no_throw s =
    let s' = record (redis_sock_disconnect true true s) { status = failed } in
    if no_throw then s' else throw_exception errmsg s'

module _ ⦃n : Stream⦄ where
  -- `redis_check_eof(redis_sock, 1, 0)`, with no retry: the state, and whether it returns 0.
  unfoldable pub check_eof : RedisSock → RedisSock × Bool
  check_eof s = elim s.stream [
    | none ↦ (throw_exception (codes "Connection closed") s, false)
    | some unread ↦
        (if is_failed s.status
          then (throw_exception (codes "Connection closed") s, false)
          else if not (n.eof unread)
          then (s, true)
          else if is_multi s.mode || s.watching
          then (
            connection_lost (codes "Connection lost and socket is in MULTI/watching mode") false s,
            false,
          )
          else (
            connection_lost (codes "Connection lost") false
                (record s { backoff = redis_backoff_reset s.backoff }),
            false,
          ))
  ]
