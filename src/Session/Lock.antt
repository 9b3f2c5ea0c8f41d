-- ===== src/Session/Lock.antt =====
-- The lock of a session: how it is acquired, checked before a write, and released.
use icore_tax_gateway.Base.{
  ℕ, zero, suc, ◌+◌, ◌*◌, Bool, true, false, ◌&&◌, ◌||◌, not, Option, none, some, List, [], ◌∷◌,
  ◌++◌, Bytes, codes, leb, ltb, ◌==◌, if◌then◌else◌, length,
}
use icore_tax_gateway.Base.Int.{ℤ, pos, negsuc, to_int}
use icore_tax_gateway.Base.Text.{bytes_eq, c_string}
use icore_tax_gateway.Zend.{Zend}
use icore_tax_gateway.Zend.Decimal.{decimal}
use icore_tax_gateway.Resp.Spprintf.{Resparg, string, int, redis_spprintf}
use icore_tax_gateway.Session.{
  LockStatus, Ini, Process, Answer, lost, unanswered, null_reply, replied, Server, redis_simple_cmd,
}

unfoldable pub is_zero : ℤ → Bool
is_zero (pos zero) = true
is_zero _ = false

unfoldable pub is_redis_ok : Bytes → Bool
is_redis_ok reply = bytes_eq reply (codes "+OK")

-- SUCCESS, NEGATIVE_LOCK_RESPONSE and FAILURE.
pub data Attempt : Type 0 where
  success negative failure : Attempt

unfoldable pub set_session_lock_key : Answer → Attempt
set_session_lock_key (replied reply) = if is_redis_ok reply then success else negative
set_session_lock_key unanswered = negative
set_session_lock_key null_reply = negative
set_session_lock_key lost = failure

-- The settings with what stands for zero.
unfoldable pub wait_time : Ini → ℤ
wait_time ini = let t = to_int ini.lock_wait_time in if is_zero t then pos 20000 else t

unfoldable pub max_retries : Ini → ℤ
max_retries ini = let r = to_int ini.lock_retries in if is_zero r then pos 100 else r

unfoldable pub lock_expiry : Ini → ℤ
lock_expiry ini =
    let e = to_int ini.lock_expire in if is_zero e then to_int ini.max_execution_time else e

-- `retries == -1 || i <= retries`
unfoldable pub tries_left : ℤ → ℕ → Bool
tries_left (pos n) i = leb i n
tries_left (negsuc n) i = n == 0

-- `retries == -1 || i < retries`
unfoldable pub sleeps : ℤ → ℕ → Bool
sleeps (pos n) i = ltb i n
sleeps (negsuc n) i = n == 0

-- The lock, the commands that were sent, and how often usleep was called.
pub record Run : Type 0 where
  pub status : LockStatus
  pub sent : List Bytes
  pub slept : ℕ

unfoldable pub set_locked : LockStatus → Bool → LockStatus
set_locked status b = record status { is_locked = b }

-- for (i = 0; ...; i++), on fuel: `none` is a loop that is still running.
unfoldable pub try_lock : Server → Bytes → ℤ → ℕ → ℕ → Run → Option Run
try_lock server cmd retries zero i run = none
try_lock server cmd retries (suc fuel) i run =
    let tried = redis_simple_cmd server run.sent cmd in
    let slept = if sleeps retries i then run.slept + 1 else run.slept in
    let again =
      try_lock server cmd retries fuel (i + 1) (record run { sent = tried.0; slept = slept }) in
    if tries_left retries i
    then elim (set_session_lock_key tried.1) [
      | success ↦ some (record run { status = set_locked run.status true; sent = tried.0 })
      | failure ↦ some (record run { status = set_locked run.status false; sent = tried.0 })
      | negative ↦ again
    ]
    else some run

-- `lock_key` is the key of the session and "_LOCK", `lock_secret` the name of the process.
unfoldable pub name_lock : Process → LockStatus → LockStatus
name_lock process status = record status {
  lock_key = status.session_key ++ codes "_LOCK";
  lock_secret = process.hostname ++ b'|' ∷ decimal process.pid;
}

-- `len == ZSTR_LEN(secret) && !strncmp(reply, ZSTR_VAL(secret), len)`
unfoldable pub is_lock_secret : Bytes → Bytes → Bool
is_lock_secret reply secret =
    length reply == length secret && bytes_eq (c_string reply) (c_string secret)

unfoldable pub still_locked : Answer → LockStatus → Bool
still_locked (replied reply) status = is_lock_secret reply status.lock_secret
still_locked _ status = false

unfoldable pub is_reply : Answer → Bool
is_reply (replied reply) = true
is_reply _ = false

-- LOCK_RELEASE_SHA_STR and LOCK_RELEASE_LUA_STR
abbrev pub release_sha : Bytes
release_sha = codes "b70c2384248f88e6b75b9f89241a180f856ad852"

abbrev pub release_lua : Bytes
release_lua =
    codes
      "if redis.call(\"get\",KEYS[1]) == ARGV[1] then return redis.call(\"del\",KEYS[1]) else return 0 end"

module _ ⦃z : Zend⦄ (prefix : Option Bytes) where
  unfoldable pub lock_args : LockStatus → ℤ → List Resparg
  lock_args status (pos (suc n)) =
      string status.lock_key
      ∷ string status.lock_secret
      ∷ string (codes "NX")
      ∷ string (codes "PX")
      ∷ int (to_int (pos (suc n * 1000)))
      ∷ []
  lock_args status _ = string status.lock_key ∷ string status.lock_secret ∷ string (codes "NX") ∷ []

  unfoldable pub lock_command : LockStatus → ℤ → Bytes
  lock_command status expiry =
      (redis_spprintf prefix none (codes "SET") (lock_args status expiry)).0

  -- The run, whose lock says whether the result is SUCCESS, but for the first return.
  unfoldable pub lock_acquire :
      Server → Ini → Process → ℕ → LockStatus → List Bytes → Option (Run × Bool)
  lock_acquire server ini process fuel status sent =
      let start : Run = record { status = status; sent = sent; slept = 0 } in
      let named = name_lock process status in
      let cmd = lock_command named (lock_expiry ini) in
      if status.is_locked || is_zero ini.locking_enabled
      then some (start, true)
      else elim (try_lock server cmd (max_retries ini) fuel 0 (record start { status = named })) [
        | none ↦ none
        | some run ↦ some (run, run.status.is_locked)
      ]

  unfoldable pub write_allowed :
      Server → Ini → LockStatus → List Bytes → LockStatus × List Bytes × Bool
  write_allowed server ini status sent =
      let cmd = (redis_spprintf prefix none (codes "GET") (string status.lock_key ∷ [])).0 in
      let asked = redis_simple_cmd server sent cmd in
      let status' = set_locked status (still_locked asked.1 status) in
      if is_zero ini.locking_enabled
      then (status, sent, true)
      else if status.is_locked && not (is_zero ini.lock_expire)
      then (status', asked.0, status'.is_locked)
      else (status, sent, status.is_locked)

  unfoldable pub release_command : LockStatus → Bytes → Bytes → Bytes
  release_command status kwd lua =
      (redis_spprintf prefix none kwd
        (string lua ∷ int (pos 1) ∷ string status.lock_key ∷ string status.lock_secret ∷ [])).0

  -- One round of the loop: it sends the command while the lock is held, and any reply ends the lock.
  unfoldable pub release_round :
      Server → LockStatus × List Bytes → Bytes × Bytes → LockStatus × List Bytes
  release_round server (status, sent) (kwd, lua) =
      let asked = redis_simple_cmd server sent (release_command status kwd lua) in
      if status.is_locked
      then (if is_reply asked.1 then (set_locked status false, asked.0) else (status, asked.0))
      else (status, sent)

  unfoldable pub lock_release : Server → LockStatus → List Bytes → LockStatus × List Bytes
  lock_release server status sent =
      release_round server (release_round server (status, sent) (codes "EVALSHA", release_sha))
        (codes "EVAL", release_lua)
