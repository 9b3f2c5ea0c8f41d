-- ===== src/Cluster/HashKey.antt =====
-- redis-6.0.2/cluster_library.c: the hash slot of a key, and the hash tag in braces.
pub mod Tags
use icore_tax_gateway.Base.{
  ℕ, zero, suc, ◌+◌, ◌-◌, bit_and, Bool, ◌||◌, List, [], ◌∷◌, Bytes, ◌==◌, if◌then◌else◌, length,
  take, drop,
}
use icore_tax_gateway.Cluster.Crc16.{crc16}

-- REDIS_CLUSTER_SLOTS and REDIS_CLUSTER_MOD of cluster_library.h.
abbrev pub cluster_slots : ℕ
cluster_slots = 16384

abbrev pub cluster_mod : ℕ
cluster_mod = 16383

-- `for (s = i; s < len; s++) if (key[s] == c) break;`, over the bytes from `i` on: the index of the
-- first `c`, or the length of the key.
unfoldable pub scan_for : ℕ → Bytes → ℕ → ℕ
scan_for c [] s = s
scan_for c (k ∷ rest) s = let next = scan_for c rest (s + 1) in if k == c then s else next

unfoldable pub cluster_hash_key : Bytes → ℕ
unfolding scan_for
cluster_hash_key key =
    let len = length key in
    let s = scan_for b'{' key 0 in
    if s == len
    then bit_and (crc16 key) cluster_mod
    else (let e = scan_for b'}' (drop (s + 1) key) (s + 1) in
        if e == len || e == s + 1
        then bit_and (crc16 key) cluster_mod
        else bit_and (crc16 (take (e - s - 1) (drop (s + 1) key))) cluster_mod)
