-- ===== src/Connect/Auth.antt =====
-- redis-6.0.2/library.c: AUTH, SELECT, the check of a stream from the pool, and redis_sock_connect.
use icore_tax_gateway.Base.{
  ℕ, Bool, true, false, ◌&&◌, ◌||◌, not, Option, none, some, [], ◌∷◌, Bytes, codes, leb,
  if◌then◌else◌, length,
}
use icore_tax_gateway.Base.Int.{pos, to_int}
use icore_tax_gateway.Base.Text.{starts_with}
use icore_tax_gateway.Zend.{Zend}
use icore_tax_gateway.Resp.Sstr.{redis_cmd_init_sstr, redis_cmd_append_sstr}
use icore_tax_gateway.Resp.Spprintf.{string, long, redis_spprintf}
use icore_tax_gateway.Sock.{
  Stream, RedisSock, disconnected, connected, authenticated, redis_sock_disconnect, one_less,
}
use icore_tax_gateway.Sock.Read.{atol, tail, redis_sock_gets, redis_sock_read}
use icore_tax_gateway.Connect.{
  Net, Outcome, strstr, if_ok, or_else, expect, with_line, count_active, get_last, same_ℤ,
  transport, open_limited,
}

-- `goto failure` of redis_sock_check_liveness
unfoldable pub dead_stream : Outcome → Outcome
dead_stream none = none
dead_stream (some (s, true)) = some (s, true)
dead_stream (some (s, false)) = some (record s { status = disconnected; stream = none }, false)

-- The stream that there is, if any, is given up before another is opened.
unfoldable pub leave_stream : RedisSock → RedisSock
leave_stream s = elim s.stream [ none ↦ s | some stream ↦ redis_sock_disconnect false true s ]

-- Whether a reply begins with +OK.
unfoldable pub is_ok : Bytes → Bool
is_ok line = starts_with line (codes "+OK")

module _ ⦃z : Zend⦄ where
  unfoldable pub redis_sock_auth_cmd : RedisSock → Option Bytes
  redis_sock_auth_cmd s = elim s.pass [
    | none ↦ none
    | some pass ↦ elim s.user [
      | none ↦ some (redis_spprintf none none (codes "AUTH") (string pass ∷ [])).0
      | some user ↦
          some (redis_spprintf none none (codes "AUTH") (string user ∷ string pass ∷ [])).0
    ]
  ]

  unfoldable pub select_cmd : RedisSock → Bytes
  select_cmd s = (redis_spprintf none none (codes "SELECT") (long s.db_number ∷ [])).0

  -- AUTH, if there is a password, behind what stands in the buffer.
  unfoldable pub redis_sock_append_auth : RedisSock → Bytes × Bool
  redis_sock_append_auth s = elim s.pass [
    | none ↦ ([], false)
    | some pass ↦ elim s.user [
      | none ↦ (redis_cmd_append_sstr (redis_cmd_init_sstr [] 1 (codes "AUTH")) pass, true)
      | some user ↦ (
        redis_cmd_append_sstr (redis_cmd_append_sstr (redis_cmd_init_sstr [] 2 (codes "AUTH")) user)
            pass,
        true,
      )
    ]
  ]

-- The functions below are given redis_sock_write, which may open the connection again.
module _ ⦃n : Stream⦄ ⦃w : Net⦄ ⦃z : Zend⦄ (write : Bytes → RedisSock → Outcome) where
  -- AUTH, where there is a command for it, and its reply.
  unfoldable pub send_auth : Option Bytes → RedisSock → Outcome
  unfolding is_ok
  send_auth none s = some (s, true)
  send_auth (some cmd) s = if_ok (write cmd s) (λ s'. expect is_ok (redis_sock_gets 4095 s'))

  unfoldable pub redis_sock_auth : RedisSock → Outcome
  unfolding redis_sock_auth_cmd send_auth
  redis_sock_auth s = send_auth (redis_sock_auth_cmd s) s

  unfoldable pub reselect_db : ℕ → RedisSock → Outcome
  unfolding is_ok select_cmd
  reselect_db fuel s = if_ok (write (select_cmd s) s) (λ s'. expect is_ok (redis_sock_read fuel s'))

  -- The header of the reply to ECHO, and the reply.
  unfoldable pub echo_reply : Bytes → RedisSock → Bytes → Outcome
  unfolding strstr
  echo_reply id s inbuf =
      let unexpected =
        not (starts_with inbuf (codes "-ERR unknown command"))
        || (elim (strstr id inbuf) [ none ↦ true | some found ↦ false ]) in
      let reply = expect (λ line. starts_with line id) (redis_sock_gets 4095 s) in
      if s.sentinel && unexpected
        || not (starts_with inbuf (codes "$"))
        || not (same_ℤ (to_int (atol (tail inbuf))) (pos (length id)))
      then some (s, false)
      else reply

  -- The line behind the one that answers AUTH.
  unfoldable pub auth_answered : Bytes → RedisSock → Bytes → Outcome
  unfolding echo_reply
  auth_answered id s inbuf =
      let echo =
        with_line (redis_sock_gets 4095 s)
          (λ s' line. echo_reply id (record s' { status = authenticated }) line) in
      let refused = expect (λ line. starts_with line (codes "-NOAUTH")) (redis_sock_gets 4095 s) in
      if is_ok inbuf || starts_with inbuf (codes "-ERR Client sent AUTH")
      then echo
      else if starts_with inbuf (codes "-NOAUTH")
      then refused
      else some (s, false)

  unfoldable pub echo_answered : Bool → Bytes → RedisSock → Bytes → Outcome
  unfolding auth_answered echo_reply
  echo_answered auth id s inbuf =
      let echo = echo_reply id s inbuf in
      if auth
      then auth_answered id s inbuf
      else if starts_with inbuf (codes "-NOAUTH")
      then some (s, true)
      else echo

  -- AUTH and ECHO, and their replies.
  unfoldable pub echo_challenge : RedisSock → Outcome
  unfolding redis_sock_append_auth echo_answered
  echo_challenge s =
      let (auth_text, auth) = redis_sock_append_auth s in
      let id = w.uniqid s.attempts in
      let cmd = redis_cmd_append_sstr (redis_cmd_init_sstr auth_text 1 (codes "ECHO")) id in
      if_ok (write cmd s) (λ s'. with_line (redis_sock_gets 4095 s') (echo_answered auth id))

  unfoldable pub redis_sock_check_liveness : Bytes → RedisSock → Outcome
  unfolding echo_challenge dead_stream
  redis_sock_check_liveness stream s = dead_stream (
      if not (w.is_live stream) then some (s, false) else elim (w.clean stream) [
        | none ↦ some (s, false)
        | some left ↦
            (let s' = record s { stream = some left; status = connected } in
              let challenge = echo_challenge s' in
              if w.echo_check_liveness then challenge else some (s', true))
      ])

  -- A live stream of the pool, or one that is opened.
  unfoldable pub pooled_stream : Bytes → RedisSock → Outcome
  unfolding redis_sock_check_liveness open_limited count_active
  pooled_stream address s = elim s.pool [
    | none ↦ open_limited address s
    | some p ↦ elim (get_last p.list) [
      | none ↦ open_limited address s
      | some (stream, others) ↦
          or_else
            (redis_sock_check_liveness stream
              (record s { stream = some stream; pool = some (record p { list = others }) }))
            (λ s'. open_limited address (record s' { pool = count_active one_less s'.pool }))
    ]
  ]

  -- A host[] of 1024 bytes; a longer address is read out of bounds.
  unfoldable pub redis_sock_connect : RedisSock → Outcome
  unfolding pooled_stream transport leave_stream
  redis_sock_connect s =
      let s' = leave_stream s in
      let (address, port) = transport s' in
      let ported = record s' { port = port } in
      if leb 1024 (length address)
      then none
      else if s'.persistent
      then pooled_stream address ported
      else open_limited address ported
