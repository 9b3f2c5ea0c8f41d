-- ===== src/RedisArray/Distribute.antt =====
-- How a hash is spread over the servers of an array without a ring.
use icore_tax_gateway.Base.{
  ℕ, ◌+◌, ◌-◌, ◌*◌, ◌/◌, ◌%◌, ◌^◌, ◌≤◌, ◌<◌, ◌≡◌, refl, ap, ◌∙◌, bit_xor, true, arith, Option, none,
  some, ◌==◌, ==_iff, lt→ltb, Option-cases, inl, inr, [], ◌∷◌, Bytes,
}
use native.Mathlib.Nat.{mul-le-mul_right}
use icore_tax_gateway.Base.Bits.{bit_xor-split, quarters, all_below, all_below_sound}
use icore_tax_gateway.RedisArray.{
  RedisArray, PhpHash, node, past_end, spread, redis_at, hash_digest, crc32_loop, crc32_or,
  ring_hash, ring_index, ra_extract_key, ra_find_node,
}

-- Exclusive or with all ones, over a byte by checking every value, then a byte at a time.
bytes_flip : all_below 256 (λ x. bit_xor x 0xff == 0xff - x) ≡ true
unfolding all_below
bytes_flip = refl

flip_byte : (x : ℕ) → x < 256 → bit_xor x 0xff ≡ 0xff - x
flip_byte x h = (==_iff _ _).0 (all_below_sound 256 _ x bytes_flip h)

-- One more byte of ones.
flip_more :
    (x ones : ℕ)
    → bit_xor (x / 256) ones ≡ ones - x / 256
    → x / 256 ≤ ones
    → bit_xor x (ones * 256 + 0xff) ≡ ones * 256 + 0xff - x
flip_more x ones high h = omega (
  arith,
  bit_xor-split x (ones * 256 + 0xff),
  quarters (x / 256) (x / 256) ((ones * 256 + 0xff) / 256) ones refl (omega arith),
  quarters (x % 256) (x % 256) ((ones * 256 + 0xff) % 256) 0xff refl (omega arith),
  flip_byte (x % 256) (omega arith),
)

flip_word : (x : ℕ) → x < 2 ^ 32 → bit_xor x 0xffff_ffff ≡ 0xffff_ffff - x
flip_word x h =
    let high = x / 256 / 256 / 256 in
    let one : bit_xor high 0xff ≡ 0xff - high = flip_byte high (omega arith) in
    let two = flip_more (x / 256 / 256) 0xff one (omega arith) in
    let three = flip_more (x / 256) 0xffff two (omega arith) in
    flip_more x 0xff_ffff three (omega arith)

-- Any number below all ones has its share among the servers below the last one's end.
in_share :
    (y ret count : ℕ)
    → y + ret ≡ 0xffff_ffff
    → 0 < ret
    → 0 < count
    → count < 2 ^ 31
    → y * count % 2 ^ 64 / 0xffff_ffff < count
in_share y ret count e h c d = omega (arith, ap (λ (t : ℕ). t * count) e, mul-le-mul_right count h)

-- A hash that is not zero is spread over the servers.
spread-lt :
    (ret count : ℕ) → 0 < ret → ret < 2 ^ 32 → 0 < count → count < 2 ^ 31 → spread ret count < count
unfolding spread
spread-lt ret count h k c d =
    rw (flip_word ret k) (in_share (0xffff_ffff - ret) ret count (omega arith) h c d)

-- A hash of zero is spread past them.
spread-zero : (count : ℕ) → count < 2 ^ 31 → spread 0 count ≡ count
unfolding spread
spread-zero count h = rw (flip_word 0 (omega arith)) (omega arith)

module _ (php : PhpHash) where
  crc32_loop-lt : (ret : ℕ) (out : Bytes) → ret < 2 ^ 32 → crc32_loop php ret out < 2 ^ 32
  unfolding crc32_loop
  crc32_loop-lt ret [] h = h
  crc32_loop-lt ret (c ∷ out) h =
      crc32_loop-lt (php.crc32_step ret c) out (php.crc32_step-lt ret c h)

  crc32_or-lt : (ops : Option (Bytes → Bytes)) (out : Bytes) → crc32_or php ops out < 2 ^ 32
  unfolding crc32_or hash_digest
  crc32_or-lt none out = crc32_loop-lt 0xffff_ffff out (omega arith)
  crc32_or-lt (some digest) out = omega arith

  ring_hash-lt : (ra : RedisArray) (out : Bytes) → ring_hash php ra out < 2 ^ 32
  unfolding ring_hash
  ring_hash-lt ra out = elim (Option-cases ra.algorithm) [
    | inl plain ↦ rw plain (crc32_loop-lt 0xffff_ffff out (omega arith))
    | inr (name, chosen) ↦ rw chosen (crc32_or-lt (php.fetch_ops name) out)
  ]

  module _ (ra : RedisArray) (key out : Bytes) (extracted : ra_extract_key ra key ≡ some out)
      (no_dist : ra.z_dist ≡ none) (no_ring : ra.continuum ≡ none) (few : ra.count < 2 ^ 31) where
    found_at : ra_find_node php ra key ≡ redis_at ra (spread (ring_hash php ra out) ra.count)
    unfolding ra_find_node ring_index redis_at spread ring_hash
    found_at = rw (extracted, ra_find_node) (rw no_dist (rw (no_ring, ring_index)))

    -- Without a distributor and a ring, a key of which a part is extracted whose hash is not zero goes
    -- to one of the servers, of which there are some and fewer than 2^31.
    pub find_node_in_range :
        0 < ra.count
        → 0 < ring_hash php ra out
        → (i : ℕ) × (ra_find_node php ra key ≡ node i) × (i < ra.count)
    find_node_in_range some_server h =
        let i = spread (ring_hash php ra out) ra.count in
        let lt : i < ra.count =
          spread-lt (ring_hash php ra out) ra.count h (ring_hash-lt ra out) some_server few in
        (i, found_at ∙ (unfold redis_at in rw (lt→ltb i ra.count lt)), lt)

    -- Without a distributor and a ring, a key of which a part is extracted whose hash is zero gets the
    -- address past the last of the servers, of which there are fewer than 2^31.
    pub find_node_past_end : ring_hash php ra out ≡ 0 → ra_find_node php ra key ≡ past_end ra.count
    find_node_past_end h =
        found_at ∙ rw (h, spread-zero ra.count few) (unfold redis_at in ground arith)
