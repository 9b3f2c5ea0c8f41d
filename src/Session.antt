-- ===== src/Session.antt =====
-- redis-6.0.2/redis_session.c: PHP sessions that are kept in Redis, in a pool of servers. What comes
-- back for a command depends on the commands that were sent before, so a server and the network to it
-- are a function of the commands sent, the last one first.
pub mod Lock
pub mod Acquire
pub mod Hold
pub mod Pool
pub mod Handlers
pub mod Tests
use icore_tax_gateway.Base.{
  ℕ, ◌+◌, ◌%◌, Bool, ◌&&◌, Option, none, some, List, [], ◌∷◌, ◌++◌, Bytes, codes, ltb, leb,
  if◌then◌else◌, take,
}
use icore_tax_gateway.Base.Int.{ℤ, little_endian}

-- redis_session_lock_status; a string that is not set is empty.
pub record LockStatus : Type 0 where
  pub is_locked : Bool
  pub session_key : Bytes
  pub lock_key : Bytes
  pub lock_secret : Bytes

-- The settings of php.ini that the handler reads.
pub record Ini : Type 0 where
  pub locking_enabled : ℤ
  pub lock_wait_time : ℤ
  pub lock_retries : ℤ
  pub lock_expire : ℤ
  pub max_execution_time : ℤ
  pub gc_maxlifetime : ℤ

-- gethostname and getpid.
pub record Process : Type 0 where
  pub hostname : Bytes
  pub pid : ℕ

-- The outcome of one exchange: the write failed, or no reply could be read, or the reply was a bulk
-- string of length -1, which is read as NULL, or another reply came.
pub data Answer : Type 0 where
  lost unanswered null_reply : Answer
  replied : Bytes → Answer

abbrev pub Server : Type 0
Server = List Bytes → Answer

unfoldable pub redis_simple_cmd : Server → List Bytes → Bytes → List Bytes × Answer
redis_simple_cmd server sent cmd = (cmd ∷ sent, server (cmd ∷ sent))

unfoldable pub redis_session_key : Option Bytes → Bytes → Bytes
redis_session_key none key = codes "PHPREDIS_SESSION:" ++ key
redis_session_key (some prefix) key = prefix ++ key

-- redis_pool_member: the number of a connection, and its weight.
pub record PoolMember : Type 0 where
  pub redis_sock : ℕ
  pub weight : ℕ

-- The weights are not negative and their sum fits an int. `behind` has what memory holds behind the zero at
-- the end of a key, where reading past it ends up.
pub record RedisPool : Type 0 where
  pub behind : Bytes → Bytes
  pub total_weight : ℕ
  pub head : List PoolMember

unfoldable pub redis_pool_add : RedisPool → ℕ → ℕ → RedisPool
redis_pool_add pool redis_sock weight = record {
  behind = pool.behind;
  total_weight = pool.total_weight + weight;
  head = record { redis_sock = redis_sock; weight = weight } ∷ pool.head;
}

-- `memcpy(&pos, key, sizeof(pos))`, which reads on behind a key of fewer bytes.
unfoldable pub key_position : RedisPool → Bytes → ℕ
key_position pool key = little_endian (take 4 (key ++ 0 ∷ pool.behind key))

module _ (opens : ℕ → Bool) where
  -- The loop over the members, `i` being the weight of those before; `opens` is the result of
  -- `redis_sock_server_open(rpm->redis_sock) == 0`.
  unfoldable pub pool_walk : ℕ → ℕ → ℕ → List PoolMember → Option ℕ
  pool_walk total pos i [] = none
  pool_walk total pos i (rpm ∷ next) =
      let rest = pool_walk total pos (i + rpm.weight) next in
      if ltb i total
      then (if leb i pos && ltb pos (i + rpm.weight) && opens rpm.redis_sock
          then some rpm.redis_sock
          else rest)
      else none

  -- The pool has a total weight that is not zero.
  unfoldable pub redis_pool_get_sock : RedisPool → Bytes → Option ℕ
  redis_pool_get_sock pool key =
      pool_walk pool.total_weight (key_position pool key % pool.total_weight) 0 pool.head
