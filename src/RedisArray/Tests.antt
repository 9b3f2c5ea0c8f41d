-- ===== src/RedisArray/Tests.antt =====
-- The theorems on the choice of a server at concrete inputs.
use icore_tax_gateway.Base.{ℕ, zero, suc, ◌≡◌, ◌<◌, refl, none, some, List, [], ◌∷◌, codes, arith}
use icore_tax_gateway.RedisArray.{
  ContinuumPoint, RedisArray, PhpHash, node, ra_find_node, ring_position, ra_extract_key, ring_hash,
  hash_digest, crc32_or, between_braces,
}
use icore_tax_gateway.Base.Text.{c_string, split_at}
use icore_tax_gateway.RedisArray.Search.{IsSorted, Owns, ring_position-Owns}
use icore_tax_gateway.RedisArray.Distribute.{find_node_in_range}

abbrev ring : List ContinuumPoint
ring = record { index = 1; value = 10 } ∷ record { index = 0; value = 20 } ∷ []

ring-IsSorted : IsSorted ring
ring-IsSorted zero zero h k = omega arith
ring-IsSorted zero (suc zero) h k = omega arith
ring-IsSorted (suc zero) (suc zero) h k = omega arith
ring-IsSorted (suc i) zero h k = absurd (omega arith)
ring-IsSorted (suc (suc i)) (suc zero) h k = absurd (omega arith)
ring-IsSorted i (suc (suc j)) h k = absurd (omega arith)

ring_position-Owns_example : Owns ring 15 (ring_position ring 15)
ring_position-Owns_example = ring_position-Owns ring 15 ring-IsSorted

-- A hash with one algorithm, whose digest is the bytes themselves.
abbrev plain : PhpHash
plain = record {
  crc32_step = λ crc c. crc;
  crc32_step-lt = λ crc c h. h;
  fetch_ops = λ name. some (λ bytes. bytes);
}

abbrev two_servers : RedisArray
two_servers = record {
  count = 2;
  z_fun = none;
  z_dist = none;
  algorithm = some (codes "plain");
  continuum = none;
}

find_node_in_range_example :
    (i : ℕ) × (ra_find_node plain two_servers (codes "a{abcd}") ≡ node i) × (i < 2)
find_node_in_range_example =
    find_node_in_range plain two_servers (codes "a{abcd}") (codes "abcd")
      (unfold ra_extract_key between_braces c_string split_at in refl) refl refl (omega arith)
      (omega arith) (unfold ring_hash crc32_or hash_digest in omega arith)
