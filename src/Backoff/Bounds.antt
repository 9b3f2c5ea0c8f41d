-- ===== src/Backoff/Bounds.antt =====
-- What the seven algorithms have in common, and how the exponential one grows.
use icore_tax_gateway.Base.{ℕ, zero, suc, ◌*◌, ◌^◌, ◌≤◌, ◌<◌, ◌≡◌, min, Option, none, some, arith}
use native.Mathlib.Decide.{dec_le}
use native.Mathlib.Nat.{pow-suc}
use icore_tax_gateway.Backoff.{
  RedisBackoff, Random, algorithms, random_range, doubled, redis_default_backoff,
  redis_exponential_backoff, redis_full_jitter_backoff, redis_equal_jitter_backoff,
  redis_backoff_compute, redis_initialize_backoff,
}

le_zero : (a : ℕ) → a ≤ 0 → a ≡ 0
le_zero a h = omega arith

le_antisymm_suc : (a b : ℕ) → a ≤ suc b → ¬ (a ≤ b) → a ≡ suc b
le_antisymm_suc a b h p = omega arith

pow_mono : (a b : ℕ) → a ≤ b → 2 ^ a ≤ 2 ^ b
pow_mono a zero h = rw (le_zero a h) (omega arith)
pow_mono a (suc b) h = elim (dec_le a b) [
  | yes p ↦ omega (arith, pow_mono a b p, pow-suc 2 b)
  | no p ↦ rw (le_antisymm_suc a b h p) (omega arith)
]

scaled : (base a b : ℕ) → a ≤ b → base * a ≤ base * b
scaled base a b h = grind arith

-- A state and a delay come out: the delay is at most the cap, and the settings are kept.
abbrev pub Computes : RedisBackoff → Option (RedisBackoff × ℕ) → Type 0
Computes self none = ⊥
Computes self (some (self', delay)) =
    (delay ≤ self.cap)
    × (self'.algorithm ≡ self.algorithm)
    × (self'.base ≡ self.base)
    × (self'.cap ≡ self.cap)

module _ (random : Random) where
  random_range-zero : (hi : ℕ) → random_range random 0 hi ≤ hi
  unfolding random_range
  random_range-zero hi = ground (arith, random.at_most 0 hi)

  full_jitter-le :
      (self : RedisBackoff) (i : ℕ) → redis_full_jitter_backoff random self i ≤ self.cap
  unfolding redis_full_jitter_backoff
  full_jitter-le self i = omega (arith, random_range-zero (min self.cap (doubled random self i)))

  equal_jitter-le :
      (self : RedisBackoff) (i : ℕ) → redis_equal_jitter_backoff random self i ≤ self.cap
  unfolding redis_equal_jitter_backoff
  equal_jitter-le self i = omega (arith, random_range-zero (min self.cap (doubled random self i)))

  default-le : (self : RedisBackoff) (i : ℕ) → redis_default_backoff random self i ≤ self.cap
  unfolding redis_default_backoff
  default-le self i = omega arith

  -- With an algorithm of the table a delay is computed, whatever the random numbers; it never passes
  -- the cap, and the algorithm, the base and the cap stay as they are.
  pub backoff_bounded :
      (self : RedisBackoff) (retry_index : ℕ)
      → self.algorithm < algorithms
      → Computes self (redis_backoff_compute random self retry_index)
  unfolding redis_backoff_compute
  backoff_bounded self i h =
      ground (arith, full_jitter-le self i, equal_jitter-le self i, default-le self i)

  -- The exponential delay grows with the number of the attempt, if no shift leaves the 64 bits.
  pub exponential_grows :
      (self : RedisBackoff) (i j : ℕ)
      → self.base * 1024 < 2 ^ 64
      → i ≤ j
      → redis_exponential_backoff random self i ≤ redis_exponential_backoff random self j
  unfolding redis_exponential_backoff
  exponential_grows self i j fits h =
      let pi = scaled self.base (2 ^ min i 10) 1024 (pow_mono (min i 10) 10 (omega arith)) in
      let pj = scaled self.base (2 ^ min j 10) 1024 (pow_mono (min j 10) 10 (omega arith)) in
      let pij =
        scaled self.base (2 ^ min i 10) (2 ^ min j 10)
          (pow_mono (min i 10) (min j 10) (omega arith)) in
      omega arith

  -- Right after it is initialised with an interval, the delay of every attempt but the first is that
  -- interval, and the state stays as it is.
  pub initialize_waits :
      (interval retry_index : ℕ)
      → 0 < retry_index
      → redis_backoff_compute random (redis_initialize_backoff interval) retry_index
        ≡ some (redis_initialize_backoff interval, interval)
  unfolding redis_backoff_compute redis_initialize_backoff
  initialize_waits interval retry_index h = ground arith
