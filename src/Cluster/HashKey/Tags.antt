-- ===== src/Cluster/HashKey/Tags.antt =====
-- Which part of a key decides its slot.
use icore_tax_gateway.Base.{
  ℕ, suc, ◌+◌, ◌-◌, ◌<◌, bit_and, ◌≡◌, ◌≢◌, refl, ap, ◌∙◌, [], ◌∷◌, ◌++◌, Bytes, arith, length,
  take, drop, length-append, take-length_append,
}
use native.Mathlib.Numerals.{add-one}
use icore_tax_gateway.Base.Text.{Lacks}
use icore_tax_gateway.Base.Bits.{bit_and-le}
use icore_tax_gateway.Cluster.Crc16.{crc16}
use icore_tax_gateway.Cluster.HashKey.{cluster_slots, cluster_mod, scan_for, cluster_hash_key}

-- The scan stops at the first occurrence.
scan_for_hit :
    (c : ℕ) (before rest : Bytes) (s : ℕ)
    → Lacks c before
    → scan_for c (before ++ c ∷ rest) s ≡ s + length before
unfolding scan_for
scan_for_hit c [] rest s h = ground arith
scan_for_hit c (k ∷ before) rest s h = ground (arith, scan_for_hit c before rest (s + 1) h.1)

scan_for_miss : (c : ℕ) (key : Bytes) (s : ℕ) → Lacks c key → scan_for c key s ≡ s + length key
unfolding scan_for
scan_for_miss c [] s h = omega arith
scan_for_miss c (k ∷ key) s h = ground (arith, scan_for_miss c key (s + 1) h.1)

-- The slot of every key is one of the 16384 slots of the cluster.
pub cluster_hash_key-lt : (key : Bytes) → cluster_hash_key key < cluster_slots
unfolding cluster_hash_key
cluster_hash_key-lt key = grind (arith, bit_and-le)

-- The two indices at which the braces stand decide what is hashed.
module _ (key : Bytes) (s e : ℕ) where
  hash_between :
      scan_for b'{' key 0 ≡ s
      → s < length key
      → scan_for b'}' (drop (s + 1) key) (s + 1) ≡ e
      → e < length key
      → s + 1 < e
      → cluster_hash_key key ≡ bit_and (crc16 (take (e - s - 1) (drop (s + 1) key))) cluster_mod
  unfolding cluster_hash_key
  hash_between hs s_in he e_in gap = rw hs (rw he (ground arith))

drop_past : (c : ℕ) (before rest : Bytes) → drop (suc (length before)) (before ++ c ∷ rest) ≡ rest
drop_past c [] rest = refl
drop_past c (k ∷ before) rest = drop_past c before rest

exact_width : (s n : ℕ) → s + 1 + n - s - 1 ≡ n
exact_width s n = omega arith

length-lt_of_ne : (tag : Bytes) → tag ≢ [] → 0 < length tag
length-lt_of_ne [] ne = absurd (ne refl)
length-lt_of_ne (k ∷ tag) ne = omega arith

-- A key with a tag in braces, before which no brace opens, goes to the slot of the tag's checksum,
-- whatever stands before and after. The tag is not empty and holds no closing brace.
pub tag_decides_slot :
    (before tag after : Bytes)
    → Lacks b'{' before
    → tag ≢ []
    → Lacks b'}' tag
    → cluster_hash_key (before ++ b'{' ∷ (tag ++ b'}' ∷ after)) ≡ bit_and (crc16 tag) cluster_mod
tag_decides_slot before tag after h ne k =
    let inner = tag ++ b'}' ∷ after in
    let key = before ++ b'{' ∷ inner in
    let s = length before in
    let e = s + 1 + length tag in
    let past : drop (s + 1) key ≡ inner = rw add-one (drop_past b'{' before inner) in
    let hs : scan_for b'{' key 0 ≡ s = scan_for_hit b'{' before inner 0 h ∙ omega arith in
    let he : scan_for b'}' (drop (s + 1) key) (s + 1) ≡ e =
      rw past (scan_for_hit b'}' tag after (s + 1) k) in
    let total : length key ≡ s + suc (length tag + suc (length after)) =
      omega (arith, length-append before (b'{' ∷ inner), length-append tag (b'}' ∷ after)) in
    let gap = length-lt_of_ne tag ne in
    let middle : take (e - s - 1) (drop (s + 1) key) ≡ tag =
      rw past (rw (exact_width s (length tag)) (take-length_append tag (b'}' ∷ after))) in
    hash_between key s e hs (omega arith) he (omega arith) (omega arith)
    ∙ ap (λ part. bit_and (crc16 part) cluster_mod) middle

-- A key with no tag: no brace opens, or none closes behind the first that opens, or the tag is empty.
pub data Untagged : Bytes → Type 0 where
  none_opens : (key : Bytes) → Lacks b'{' key → Untagged key
  none_closes :
      (before rest : Bytes) → Lacks b'{' before → Lacks b'}' rest → Untagged (before ++ b'{' ∷ rest)
  empty_tag : (before after : Bytes) → Lacks b'{' before → Untagged (before ++ b'{' ∷ b'}' ∷ after)

-- The whole key decides the slot if no brace opens in it, if none closes behind the first that opens,
-- or if the first that opens is closed at once.
pub cluster_hash_key-Untagged :
    {key : Bytes} → Untagged key → cluster_hash_key key ≡ bit_and (crc16 key) cluster_mod
unfolding cluster_hash_key
cluster_hash_key-Untagged (none_opens key h) = rw (scan_for_miss b'{' key 0 h) (ground arith)
cluster_hash_key-Untagged (none_closes before rest h k) =
    let key = before ++ b'{' ∷ rest in
    let s = length before in
    let past : drop (s + 1) key ≡ rest = rw add-one (drop_past b'{' before rest) in
    let hs : scan_for b'{' key 0 ≡ s = scan_for_hit b'{' before rest 0 h ∙ omega arith in
    let he : scan_for b'}' (drop (s + 1) key) (s + 1) ≡ length key =
      rw past
        (scan_for_miss b'}' rest (s + 1) k ∙ omega (arith, length-append before (b'{' ∷ rest))) in
    rw hs (rw he (ground arith))
cluster_hash_key-Untagged (empty_tag before after h) =
    let rest = b'}' ∷ after in
    let key = before ++ b'{' ∷ rest in
    let s = length before in
    let past : drop (s + 1) key ≡ rest = rw add-one (drop_past b'{' before rest) in
    let hs : scan_for b'{' key 0 ≡ s = scan_for_hit b'{' before rest 0 h ∙ omega arith in
    let he : scan_for b'}' (drop (s + 1) key) (s + 1) ≡ s + 1 =
      rw past (scan_for_hit b'}' [] after (s + 1) tt ∙ omega arith) in
    rw hs (rw he (ground arith))
