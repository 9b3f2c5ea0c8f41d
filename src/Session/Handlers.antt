-- ===== src/Session/Handlers.antt =====
-- The functions that PHP calls for a session: PS_READ, PS_WRITE, PS_UPDATE_TIMESTAMP,
-- PS_VALIDATE_SID, PS_DESTROY and PS_CLOSE.
pub mod Safe
use icore_tax_gateway.Base.{
  ℕ, ◌-◌, ◌^◌, Bool, true, false, ◌&&◌, ◌||◌, Option, none, some, List, [], ◌∷◌, Bytes, codes, ltb,
  ◌==◌, if◌then◌else◌,
}
use icore_tax_gateway.Base.Int.{ℤ, pos, negsuc, ltb_ℤ}
use icore_tax_gateway.Zend.{Zend}
use icore_tax_gateway.Resp.Spprintf.{Resparg, string, int, redis_spprintf}
use icore_tax_gateway.Session.{
  LockStatus, Ini, Process, Answer, lost, unanswered, null_reply, replied, Server, redis_simple_cmd,
  redis_session_key, RedisPool, redis_pool_get_sock,
}
use icore_tax_gateway.Session.Lock.{is_redis_ok, Run, lock_acquire, write_allowed, lock_release}

-- The module data of a session: the pool with its lock, the prefix of each connection, and the commands
-- that went over each.
pub record Handler : Type 0 where
  pub pool : RedisPool
  pub lock_status : LockStatus
  pub prefix : ℕ → Option Bytes
  pub sent : ℕ → List Bytes

-- What a handler leaves when it has used the connection.
unfoldable pub used : Handler → ℕ → LockStatus → List Bytes → Handler
used st redis_sock status commands = record st {
  lock_status = status;
  sent = λ s. if s == redis_sock then commands else st.sent s;
}

unfoldable pub session_gc_maxlifetime : ℤ → ℤ
session_gc_maxlifetime value =
    if ltb_ℤ (pos (2 ^ 31 - 1)) value
    then pos (2 ^ 31 - 1)
    else if ltb_ℤ (pos 0) value
    then value
    else pos 1440

-- `resp == NULL && resp_len != -1` is FAILURE, a negative length the empty session.
unfoldable pub read_value : Answer → Option Bytes
read_value lost = none
read_value unanswered = none
read_value null_reply = some []
read_value (replied resp) = some resp

unfoldable pub ok_reply : Answer → Bool
ok_reply (replied response) = is_redis_ok response
ok_reply _ = false

-- `response_len == 2 && response[0] == ':'`, and what the digit may be.
unfoldable pub digit_reply : (ℕ → Bool) → Answer → Bool
digit_reply allowed (replied (c ∷ d ∷ [])) = c == b':' && allowed d
digit_reply allowed _ = false

-- `if (!skeylen) return FAILURE;` and the choice of the connection.
unfoldable pub select_sock : (ℕ → Bool) → Handler → Bytes → Option ℕ
select_sock opens st [] = none
select_sock opens st (c ∷ key) = redis_pool_get_sock opens st.pool (c ∷ key)

module _ ⦃z : Zend⦄ (opens : ℕ → Bool) (net : ℕ → Server) where
  -- One command over a connection, with the lock as it is.
  unfoldable pub exchange : Handler → ℕ → Bytes → List Resparg → Handler × Answer
  exchange st s kwd args =
      let cmd = (redis_spprintf (st.prefix s) none kwd args).0 in
      let asked = redis_simple_cmd (net s) (st.sent s) cmd in
      (used st s st.lock_status asked.0, asked.1)

  unfoldable pub finish_read : Handler → ℕ → Bytes → Run × Bool → Handler × Option Bytes
  finish_read st s session (run, locked) =
      let st' = used st s run.status run.sent in
      let asked = exchange st' s (codes "GET") (string session ∷ []) in
      if locked then (asked.0, read_value asked.1) else (st', none)

  -- The outer `none` is a lock that is still waited for; the value is `none` on FAILURE.
  unfoldable pub ps_read : Ini → Process → ℕ → Handler → Bytes → Option (Handler × Option Bytes)
  ps_read ini process fuel st key = elim (select_sock opens st key) [
    | none ↦ some (st, none)
    | some s ↦
        (let status = record st.lock_status { session_key = redis_session_key (st.prefix s) key } in
          elim (lock_acquire (st.prefix s) (net s) ini process fuel status (st.sent s)) [
            | none ↦ none
            | some acquired ↦ some (finish_read st s status.session_key acquired)
          ])
  ]

  unfoldable pub finish_write :
      Handler → ℕ → Bytes → Ini → Bytes → LockStatus × List Bytes × Bool → Handler × Bool
  finish_write st s session ini val (status, commands, allowed) =
      let st' = used st s status commands in
      let asked =
        exchange st' s (codes "SETEX")
          (string session ∷ int (session_gc_maxlifetime ini.gc_maxlifetime) ∷ string val ∷ []) in
      if allowed then (asked.0, ok_reply asked.1) else (st', false)

  unfoldable pub ps_write : Ini → Handler → Bytes → Bytes → Handler × Bool
  ps_write ini st key val = elim (select_sock opens st key) [
    | none ↦ (st, false)
    | some s ↦
        finish_write st s (redis_session_key (st.prefix s) key) ini val
          (write_allowed (st.prefix s) (net s) ini st.lock_status (st.sent s))
  ]

  unfoldable pub ps_update_timestamp : Ini → Handler → Bytes → Handler × Bool
  ps_update_timestamp ini st key = elim (select_sock opens st key) [
    | none ↦ (st, false)
    | some s ↦
        (let asked = exchange st s (codes "EXPIRE") (
            string (redis_session_key (st.prefix s) key)
            ∷ int (session_gc_maxlifetime ini.gc_maxlifetime)
            ∷ []) in
          (asked.0, digit_reply (λ d. true) asked.1))
  ]

  unfoldable pub ps_validate_sid : Handler → Bytes → Handler × Bool
  ps_validate_sid st key = elim (select_sock opens st key) [
    | none ↦ (st, false)
    | some s ↦
        (let asked =
            exchange st s (codes "EXISTS") (string (redis_session_key (st.prefix s) key) ∷ []) in
          (asked.0, digit_reply (λ d. d == b'1') asked.1))
  ]

  -- The key is not checked for being empty here.
  unfoldable pub ps_destroy : Handler → Bytes → Handler × Bool
  ps_destroy st key = elim (redis_pool_get_sock opens st.pool key) [
    | none ↦ (st, false)
    | some s ↦
        (let released = lock_release (st.prefix s) (net s) st.lock_status (st.sent s) in
          let st' = used st s released.0 released.1 in
          let asked =
            exchange st' s (codes "DEL") (string (redis_session_key (st.prefix s) key) ∷ []) in
          (asked.0, digit_reply (λ d. d == b'0' || d == b'1') asked.1))
  ]

  -- What the pool has done before it is freed.
  unfoldable pub ps_close : Handler → Handler
  ps_close st = elim (select_sock opens st st.lock_status.session_key) [
    | none ↦ st
    | some s ↦
        (let released = lock_release (st.prefix s) (net s) st.lock_status (st.sent s) in
          used st s released.0 released.1)
  ]
