-- ===== src/Session/Pool.antt =====
-- Which server of the pool a key selects.
use icore_tax_gateway.Base.{
  ℕ, zero, suc, ◌^◌, ◌+◌, ◌%◌, ◌≤◌, ◌<◌, ◌≡◌, refl, ap, subst, ◌-◌, lt→ltb, false, ◌∙◌, Bool, true,
  some, List, [], ◌∷◌, ◌++◌, Bytes, arith, length, take, leb, ltb, ◌&&◌,
}
use native.Mathlib.Decide.{dec_lt}
use icore_tax_gateway.Base.Int.{little_endian}
use icore_tax_gateway.Session.{PoolMember, RedisPool, key_position, pool_walk, redis_pool_get_sock}

take-append : (n : ℕ) (xs ys : Bytes) → n ≤ length xs → take n (xs ++ ys) ≡ take n xs
take-append zero [] ys h = refl
take-append zero (x ∷ xs) ys h = refl
take-append (suc n) [] ys h = absurd (omega arith)
take-append (suc n) (x ∷ xs) ys h = ap (λ l. x ∷ l) (take-append n xs ys (omega arith))

-- The weights of the members.
abbrev pub weight_of : List PoolMember → ℕ
weight_of [] = 0
weight_of (rpm ∷ next) = rpm.weight + weight_of next

-- The member that has a position: each has as many as its weight, one after the other.
pub data HasShare : List PoolMember → ℕ → ℕ → Type 0 where
  here :
      (rpm : PoolMember) (next : List PoolMember) (pos : ℕ)
      → pos < rpm.weight
      → HasShare (rpm ∷ next) pos rpm.redis_sock
  later :
      (rpm : PoolMember) (next : List PoolMember) (pos redis_sock : ℕ)
      → HasShare next pos redis_sock
      → HasShare (rpm ∷ next) (rpm.weight + pos) redis_sock

move_share :
    {rpm : PoolMember} {next : List PoolMember} {pos redis_sock : ℕ}
    → ¬ (pos < rpm.weight)
    → HasShare next (pos - rpm.weight) redis_sock
    → HasShare (rpm ∷ next) pos redis_sock
move_share {rpm} {next} {pos} {redis_sock} past share =
    subst (λ p. HasShare (rpm ∷ next) p redis_sock) (omega arith)
      (later rpm next (pos - rpm.weight) redis_sock share)

module _ (opens : ℕ → Bool) (all_open : (redis_sock : ℕ) → opens redis_sock ≡ true) where
  passed :
      (rpm : PoolMember) (next : List PoolMember) (total pos i : ℕ)
      → i < total
      → ¬ (pos < rpm.weight)
      → pool_walk opens total (i + pos) i (rpm ∷ next)
        ≡ pool_walk opens total (i + rpm.weight + (pos - rpm.weight)) (i + rpm.weight) next
  unfolding pool_walk
  passed rpm next total pos i inside past =
      rw (lt→ltb i total inside, not_mine)
        (ap (λ p. pool_walk opens total p (i + rpm.weight) next) (omega arith))
    where
      not_mine : (leb i (i + pos) && ltb (i + pos) (i + rpm.weight) && opens rpm.redis_sock) ≡ false
      not_mine = ground arith

  walk-HasShare :
      (members : List PoolMember) (total pos i : ℕ)
      → pos < weight_of members
      → i + weight_of members ≤ total
      → (redis_sock : ℕ) × (pool_walk opens total (i + pos) i members ≡ some redis_sock)
        × HasShare members pos redis_sock
  unfolding pool_walk
  walk-HasShare [] total pos i inside fits = absurd (omega arith)
  walk-HasShare (rpm ∷ next) total pos i inside fits = elim (dec_lt pos rpm.weight) [
    | yes mine ↦ (rpm.redis_sock, ground (arith, all_open rpm.redis_sock), here rpm next pos mine)
    | no past ↦
        let rest =
          walk-HasShare next total (pos - rpm.weight) (i + rpm.weight) (omega arith)
            (omega arith) in
        (rest.0, passed rpm next total pos i (omega arith) past ∙ rest.1, move_share past rest.2)
  ]

  -- In a pool whose total weight is that of its members, not zero and within an int, and whose connections all
  -- open, a key of at least four bytes selects the member that has the position of the key, its first four bytes
  -- modulo the total weight, where the members take as many positions as their weights, one after the other.
  pub get_sock-HasShare :
      (pool : RedisPool) (key : Bytes)
      → pool.total_weight ≡ weight_of pool.head
      → 0 < pool.total_weight
      → pool.total_weight < 2 ^ 31
      → 4 ≤ length key
      → (redis_sock : ℕ) × (redis_pool_get_sock opens pool key ≡ some redis_sock)
        × HasShare pool.head (little_endian (take 4 key) % pool.total_weight) redis_sock
  unfolding redis_pool_get_sock key_position
  get_sock-HasShare pool key sums some_weight fits long_key =
      let total = pool.total_weight in
      let pos = little_endian (take 4 key) % total in
      let walked = walk-HasShare pool.head total pos 0 (omega arith) (omega arith) in
      (
        walked.0,
        ap (λ start. pool_walk opens total (little_endian start % total) 0 pool.head)
              (take-append 4 key (0 ∷ pool.behind key) long_key)
            ∙ ap (λ p. pool_walk opens total p 0 pool.head) (omega arith)
            ∙ walked.1,
        walked.2,
      )
