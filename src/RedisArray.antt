-- ===== src/RedisArray.antt =====
-- redis-6.0.2/redis_array_impl.c: to which server of a RedisArray a key belongs.
pub mod Search
pub mod Distribute
pub mod Tags
pub mod Tests
use icore_tax_gateway.Base.{
  ℕ, zero, suc, ◌+◌, ◌-◌, ◌*◌, ◌/◌, ◌%◌, ◌^◌, ◌<◌, bit_xor, Bool, Option, none, some, List, [], ◌∷◌,
  Bytes, ltb, leb, ◌==◌, if◌then◌else◌, get_or, length,
}
use icore_tax_gateway.Base.Int.{ℤ, pos, negsuc, to_int, little_endian}
use icore_tax_gateway.Base.Text.{c_string, split_at}

-- A point of the ring: the number of its server, and its place.
pub record ContinuumPoint : Type 0 where
  pub index : ℕ
  pub value : ℕ

-- The fields that decide where a key goes. A function of the user that is not set is `none`; one that
-- is set returns a string, or `none`, for the extractor, and a number, or `none`, for the distributor.
pub record RedisArray : Type 0 where
  pub count : ℕ
  pub z_fun : Option (Bytes → Option Bytes)
  pub z_dist : Option (Bytes → Option ℤ)
  pub algorithm : Option Bytes
  pub continuum : Option (List ContinuumPoint)

-- PHP's CRC32 macro and its hash functions: one step of the checksum, which stays in 32 bits, and the
-- digest of a named algorithm, if PHP has it.
pub record PhpHash : Type 0 where
  pub crc32_step : ℕ → ℕ → ℕ
  pub crc32_step-lt : (crc c : ℕ) → crc < 2 ^ 32 → crc32_step crc c < 2 ^ 32
  pub fetch_ops : Bytes → Option (Bytes → Bytes)

-- strchr(key, '{') and strchr(start + 1, '}'): the bytes between, or the whole key.
unfoldable pub between_braces : Bytes → Bytes
between_braces key = elim (split_at b'{' (c_string key)) [
  | none ↦ key
  | some (before, start) ↦ elim (split_at b'}' start) [ none ↦ key | some (tag, after) ↦ tag ]
]

unfoldable pub ra_extract_key : RedisArray → Bytes → Option Bytes
ra_extract_key ra key = elim ra.z_fun [
  | some extractor ↦ extractor key
  | none ↦ some (between_braces key)
]

-- memcpy(&ret, digest, MIN(sizeof(ret), digest_size)) on a little-endian machine: the bytes of the
-- digest replace the first of the eight that `ret` has.
unfoldable pub overlay : Bytes → Bytes → Bytes
overlay [] digest = []
overlay (r ∷ rs) [] = r ∷ rs
overlay (r ∷ rs) (d ∷ ds) = d ∷ overlay rs ds

-- The bytes of `unsigned long ret = 0xffffffff`.
abbrev pub ret_bytes : Bytes
ret_bytes = 255 ∷ 255 ∷ 255 ∷ 255 ∷ 0 ∷ 0 ∷ 0 ∷ 0 ∷ []

unfoldable pub hash_digest : Bytes → ℕ
unfolding overlay little_endian
hash_digest digest = little_endian (overlay ret_bytes digest) % 0xffff_ffff

-- while (left < right): the search runs for at most as many rounds as there are points.
unfoldable pub search_ring : ℕ → List ContinuumPoint → ℕ → ℕ → ℕ → ℕ
search_ring zero points ret left right = right
search_ring (suc rounds) points ret left right =
    let i = (left + right) / 2 in
    let above = search_ring rounds points ret (i + 1) right in
    let below = search_ring rounds points ret left i in
    if ltb left right
    then (if ltb (get_or points i (record { index = 0; value = 0 })).value ret
        then above
        else below)
    else right

unfoldable pub ring_position : List ContinuumPoint → ℕ → ℕ
unfolding search_ring
ring_position points ret =
    let n = length points in
    let right = search_ring n points ret 0 n in if right == n then 0 else right

-- `(int)((ret ^ 0xffffffff) * ra->count / 0xffffffff)`
unfoldable pub spread : ℕ → ℕ → ℕ
spread ret count = bit_xor ret 0xffff_ffff * count % 2 ^ 64 / 0xffff_ffff

-- What `ra_find_node` returns: NULL, the address of an element of `ra->redis`, or an address past
-- its end.
pub data Found : Type 0 where
  not_found : Found
  node : ℕ → Found
  past_end : ℕ → Found

unfoldable pub redis_at : RedisArray → ℕ → Found
redis_at ra i = if ltb i ra.count then node i else past_end i

unfoldable pub server_of : RedisArray → ℤ → Found
server_of ra (pos i) = if ltb i ra.count then node i else not_found
server_of ra (negsuc i) = not_found

-- The check on what the distributor returned; anything but a number counts as -1.
unfoldable pub distributed : RedisArray → Option ℤ → Found
unfolding to_int server_of
distributed ra none = not_found
distributed ra (some i) = server_of ra (to_int i)

module _ (php : PhpHash) where
  unfoldable pub crc32_loop : ℕ → Bytes → ℕ
  crc32_loop ret [] = ret
  crc32_loop ret (c ∷ out) = crc32_loop (php.crc32_step ret c) out

  unfoldable pub crc32_or : Option (Bytes → Bytes) → Bytes → ℕ
  crc32_or none out = crc32_loop 0xffff_ffff out
  crc32_or (some digest) out = hash_digest (digest out)

  -- The hash of the extracted key, by the chosen algorithm if PHP has it.
  unfoldable pub ring_hash : RedisArray → Bytes → ℕ
  ring_hash ra out = elim ra.algorithm [
    | none ↦ crc32_loop 0xffff_ffff out
    | some name ↦ crc32_or (php.fetch_ops name) out
  ]

  -- A ring has points: ra_make_continuum makes some for every server, so index 0 is one of them.
  unfoldable pub ring_index : RedisArray → ℕ → ℕ
  ring_index ra ret = elim ra.continuum [
    | some points ↦
        (get_or points (ring_position points ret) (record { index = 0; value = 0 })).index
    | none ↦ spread ret ra.count
  ]

  unfoldable pub ra_find_node : RedisArray → Bytes → Found
  ra_find_node ra key = elim (ra_extract_key ra key) [
    | none ↦ not_found
    | some out ↦ elim ra.z_dist [
      | none ↦ redis_at ra (ring_index ra (ring_hash ra out))
      | some dist ↦ distributed ra (dist key)
    ]
  ]
