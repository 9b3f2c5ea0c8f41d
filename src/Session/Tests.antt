-- ===== src/Session/Tests.antt =====
-- The theorems on sessions at concrete inputs.
use icore_tax_gateway.Base.{
  take, ℕ, ◌%◌, ◌≡◌, refl, Bool, true, false, not, none, some, [], ◌∷◌, codes, arith, Bytes, Option,
  if◌then◌else◌,
}
use icore_tax_gateway.Base.Int.{pos, to_int, little_endian}
use icore_tax_gateway.Base.Text.{bytes_eq, c_string}
use icore_tax_gateway.Zend.Host.{host}
use icore_tax_gateway.Session.{
  LockStatus, Ini, Process, unanswered, replied, Server, RedisPool, redis_pool_get_sock,
  key_position, redis_session_key, redis_simple_cmd, pool_walk,
}
use icore_tax_gateway.Session.Lock.{
  is_redis_ok, is_zero, max_retries, Run, set_locked, name_lock, lock_acquire, is_lock_secret,
  still_locked, write_allowed, release_command, is_reply, release_sha, release_lua, lock_release,
}
use icore_tax_gateway.Session.Acquire.{Settled, lock_acquire-Settled}
use icore_tax_gateway.Session.Hold.{HasSecret, ask, lock_release_lem}
use icore_tax_gateway.Session.Handlers.{
  Handler, used, ok_reply, select_sock, exchange, ps_read, finish_write, ps_write,
}
use icore_tax_gateway.Session.Handlers.Safe.{
  ReadLocked, setex, ps_read-ReadLocked, ps_write-HasSecret,
}
use icore_tax_gateway.Session.Pool.{HasShare, get_sock-HasShare}

abbrev settings : Ini
settings = record {
  locking_enabled = pos 1;
  lock_wait_time = pos 0;
  lock_retries = pos 2;
  lock_expire = pos 30;
  max_execution_time = pos 0;
  gc_maxlifetime = pos 1440;
}

abbrev worker : Process
worker = record { hostname = codes "web"; pid = 42 }

abbrev lock_of : Bool → LockStatus
lock_of is_locked = record {
  is_locked = is_locked;
  session_key = codes "PHPREDIS_SESSION:abcd";
  lock_key = codes "PHPREDIS_SESSION:abcd_LOCK";
  lock_secret = codes "web|42";
}

-- A server that grants the lock at the second attempt.
abbrev busy_once : Server
busy_once (first ∷ second ∷ sent) = replied (codes "+OK")
busy_once _ = unanswered

lock_acquire-Settled_example :
    (run : Run) × (lock_acquire ⦃z = host⦄ none busy_once settings worker 4 (lock_of false) []
      ≡ some (run, run.status.is_locked))
    × Settled busy_once 2
        (record { status = name_lock worker (lock_of false); sent = []; slept = 0 })
        run
lock_acquire-Settled_example =
    lock_acquire-Settled ⦃z = host⦄ none busy_once settings worker 4 2 (lock_of false) [] refl
      (unfold is_zero in refl) (unfold max_retries to_int is_zero in refl) (omega arith)

-- A server that answers every question with the secret.
abbrev keeper : Server
keeper sent = replied (codes "web|42")

lock_release_lem_example :
    let sha = release_command ⦃z = host⦄ none (lock_of true) (codes "EVALSHA") release_sha ∷ [] in
    let text = release_command ⦃z = host⦄ none (lock_of true) (codes "EVAL") release_lua ∷ sha in
    lock_release ⦃z = host⦄ none busy_once (lock_of true) [] ≡ (
      if is_reply (busy_once sha)
      then (set_locked (lock_of true) false, sha)
      else (set_locked (lock_of true) (not (is_reply (busy_once text))), text))
lock_release_lem_example = lock_release_lem ⦃z = host⦄ none busy_once (lock_of true) [] refl

abbrev two_members : RedisPool
two_members = record {
  behind = λ key. [];
  total_weight = 3;
  head = record { redis_sock = 7; weight = 1 } ∷ record { redis_sock = 8; weight = 2 } ∷ [];
}

get_sock-HasShare_example :
    (redis_sock : ℕ) × (redis_pool_get_sock (λ s. true) two_members (codes "abcd")
      ≡ some redis_sock)
    × HasShare two_members.head (little_endian (take 4 (codes "abcd")) % 3) redis_sock
get_sock-HasShare_example =
    get_sock-HasShare (λ s. true) (λ s. refl) two_members (codes "abcd") refl (omega arith)
      (omega arith) (omega arith)

-- Where the sessions are read from differs.
abbrev read_from : Bytes → Option ℕ
read_from key = redis_pool_get_sock (λ s. true) two_members key

abcd_read_from : read_from (codes "abcd") ≡ some 8
unfolding redis_pool_get_sock key_position pool_walk little_endian
abcd_read_from = refl

abcc_read_from : read_from (codes "abcc") ≡ some 7
unfolding redis_pool_get_sock key_position pool_walk little_endian
abcc_read_from = refl

abbrev open_session : Bool → Handler
open_session is_locked = record {
  pool = two_members;
  lock_status = lock_of is_locked;
  prefix = λ s. none;
  sent = λ s. [];
}

ps_read-ReadLocked_example :
    (result : Handler × Option Bytes) × (ps_read ⦃z = host⦄
        (λ s. true)
        (λ s. busy_once)
        settings
        worker
        4
        (open_session false)
        (codes "abcd")
      ≡ some result)
    × ReadLocked ⦃z = host⦄
        (open_session false)
        8
        busy_once
        (redis_session_key none (codes "abcd"))
        (lock_acquire ⦃z = host⦄ none busy_once settings worker 4
          (record (lock_of false) { session_key = redis_session_key none (codes "abcd") })
          [])
        result
ps_read-ReadLocked_example =
    ps_read-ReadLocked ⦃z = host⦄ (λ s. true) (λ s. busy_once) settings worker 4 2
      (open_session false) (codes "abcd") 8
      (unfold select_sock redis_pool_get_sock key_position pool_walk little_endian in refl) refl
      (unfold is_zero in refl) (unfold max_retries to_int is_zero in refl) (omega arith)

-- A server that answers the first question with the secret, and then with OK.
abbrev guarded : Server
guarded (first ∷ []) = replied (codes "web|42")
guarded _ = replied (codes "+OK")

ps_write-HasSecret_example :
    let asked = ask ⦃z = host⦄ none (lock_of true) ∷ [] in
    let session = redis_session_key none (codes "abcd") in
    ((lock_of true).is_locked ≡ true)
    × HasSecret (codes "web|42") (guarded asked)
    × (ok_reply
          (guarded (setex ⦃z = host⦄ (open_session true) 8 session settings (codes "data") ∷ asked))
        ≡ true)
ps_write-HasSecret_example =
    ps_write-HasSecret ⦃z = host⦄ (λ s. true) (λ s. guarded) settings (open_session true)
      (codes "abcd") (codes "data") 8
      (unfold select_sock redis_pool_get_sock key_position pool_walk little_endian in refl)
      (unfold is_zero in refl) (unfold is_zero in refl)
      (unfold ps_write select_sock redis_pool_get_sock key_position pool_walk little_endian
          finish_write exchange used redis_session_key ok_reply write_allowed redis_simple_cmd
          is_zero set_locked still_locked is_lock_secret is_redis_ok bytes_eq c_string in
        refl)
