-- ===== src/Backoff.antt =====
-- redis-6.0.2/backoff.c: how long a client waits before it connects again. A zend_ulong is a number
-- below 2^64, and its arithmetic is cut to that.
pub mod Bounds
pub mod Options
pub mod Tests
use icore_tax_gateway.Base.{
  ℕ, zero, suc, ◌+◌, ◌*◌, ◌/◌, ◌%◌, ◌^◌, ◌≤◌, min, Option, none, some, ltb, if◌then◌else◌, ◌==◌,
}

pub record RedisBackoff : Type 0 where
  pub algorithm : ℕ
  pub base : ℕ
  pub cap : ℕ
  pub previous_backoff : ℕ

-- php_mt_rand_range of PHP: a number between its arguments, both included.
pub record Random : Type 0 where
  pub php_mt_rand_range : ℕ → ℕ → ℕ
  pub at_least : (lo hi : ℕ) → lo ≤ hi → lo ≤ php_mt_rand_range lo hi
  pub at_most : (lo hi : ℕ) → lo ≤ hi → php_mt_rand_range lo hi ≤ hi

-- REDIS_BACKOFF_ALGORITHMS of common.h
abbrev pub algorithms : ℕ
algorithms = 7

module _ (random : Random) where
  unfoldable pub random_range : ℕ → ℕ → ℕ
  random_range lo hi =
      if ltb hi lo then random.php_mt_rand_range hi lo else random.php_mt_rand_range lo hi

  unfoldable pub redis_default_backoff : RedisBackoff → ℕ → ℕ
  redis_default_backoff self retry_index =
      let backoff = if retry_index == 0 then random_range 0 self.base else self.base in
      min self.cap backoff

  unfoldable pub redis_constant_backoff : RedisBackoff → ℕ
  redis_constant_backoff self = min self.cap self.base

  unfoldable pub redis_uniform_backoff : RedisBackoff → ℕ
  redis_uniform_backoff self = min self.cap (random_range 0 self.base)

  -- `self->base * (1 << MIN(retry_index, 10))`
  unfoldable pub doubled : RedisBackoff → ℕ → ℕ
  doubled self retry_index = self.base * 2 ^ min retry_index 10 % 2 ^ 64

  unfoldable pub redis_exponential_backoff : RedisBackoff → ℕ → ℕ
  unfolding doubled
  redis_exponential_backoff self retry_index = min self.cap (doubled self retry_index)

  unfoldable pub redis_full_jitter_backoff : RedisBackoff → ℕ → ℕ
  unfolding doubled
  redis_full_jitter_backoff self retry_index =
      random_range 0 (min self.cap (doubled self retry_index))

  unfoldable pub redis_equal_jitter_backoff : RedisBackoff → ℕ → ℕ
  unfolding doubled
  redis_equal_jitter_backoff self retry_index =
      let temp = min self.cap (doubled self retry_index) in
      (temp / 2 + random_range 0 temp / 2) % 2 ^ 64

  unfoldable pub redis_decorrelated_jitter_backoff : RedisBackoff → RedisBackoff × ℕ
  redis_decorrelated_jitter_backoff self =
      let next = random_range self.base (self.previous_backoff * 3 % 2 ^ 64) in
      (record self { previous_backoff = next }, min self.cap next)

  -- `redis_backoff_algorithms[self->algorithm](self, retry_index)`; `none` is a read past the table.
  unfoldable pub redis_backoff_compute : RedisBackoff → ℕ → Option (RedisBackoff × ℕ)
  unfolding redis_default_backoff redis_decorrelated_jitter_backoff redis_full_jitter_backoff
      redis_equal_jitter_backoff redis_exponential_backoff redis_uniform_backoff
      redis_constant_backoff random_range
  redis_backoff_compute self retry_index =
      if self.algorithm == 0
      then some (self, redis_default_backoff self retry_index)
      else if self.algorithm == 1
      then some (redis_decorrelated_jitter_backoff self)
      else if self.algorithm == 2
      then some (self, redis_full_jitter_backoff self retry_index)
      else if self.algorithm == 3
      then some (self, redis_equal_jitter_backoff self retry_index)
      else if self.algorithm == 4
      then some (self, redis_exponential_backoff self retry_index)
      else if self.algorithm == 5
      then some (self, redis_uniform_backoff self)
      else if self.algorithm == 6
      then some (self, redis_constant_backoff self)
      else none

unfoldable pub redis_initialize_backoff : ℕ → RedisBackoff
redis_initialize_backoff retry_interval = record {
  algorithm = 0;
  base = retry_interval;
  cap = retry_interval;
  previous_backoff = 0;
}

unfoldable pub redis_backoff_reset : RedisBackoff → RedisBackoff
redis_backoff_reset self = record self { previous_backoff = 0 }
