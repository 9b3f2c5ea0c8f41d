-- ===== src/RedisArray/Tags.antt =====
-- Keys with the same tag in braces.
use icore_tax_gateway.Base.{◌≡◌, ◌∙◌, sym, arith, none, some, ◌∷◌, ◌++◌, Bytes}
use icore_tax_gateway.Base.Text.{c_string, c_string-append, split_at, Lacks, split_at-hit}
use icore_tax_gateway.RedisArray.{
  RedisArray, PhpHash, between_braces, ra_extract_key, ra_find_node, redis_at, ring_index,
  ring_hash,
}

-- The parts of a tagged key: the first brace opens the tag, and the tag is read to its end.
pub record Tagged (before tag : Bytes) : Type 0 where
  pub no_open : Lacks b'{' before
  pub no_zero : Lacks 0 before
  pub no_close : Lacks b'}' tag
  pub tag_no_zero : Lacks 0 tag

c_string-brace :
    (tag after : Bytes)
    → Lacks 0 tag
    → c_string (b'{' ∷ (tag ++ b'}' ∷ after)) ≡ b'{' ∷ (tag ++ b'}' ∷ c_string after)
unfolding c_string
c_string-brace tag after h = rw (c_string-append tag (b'}' ∷ after) h)

between_braces-tag :
    (before tag after : Bytes)
    → Tagged before tag
    → between_braces (before ++ b'{' ∷ (tag ++ b'}' ∷ after)) ≡ tag
unfolding between_braces
between_braces-tag before tag after t =
    let opened : split_at b'{' (c_string (before ++ b'{' ∷ (tag ++ b'}' ∷ after)))
        ≡ some (before, tag ++ b'}' ∷ c_string after) =
      rw (c_string-append before (b'{' ∷ (tag ++ b'}' ∷ after)) t.no_zero) (
        rw (c_string-brace tag after t.tag_no_zero)
          (split_at-hit b'{' before (tag ++ b'}' ∷ c_string after) t.no_open)) in
    let closed = split_at-hit b'}' tag (c_string after) t.no_close in ground arith

-- The server is found from what is extracted, and from nothing else of the key.
found_by :
    (php : PhpHash) (ra : RedisArray) (key out : Bytes)
    → ra.z_dist ≡ none
    → ra_extract_key ra key ≡ some out
    → ra_find_node php ra key ≡ redis_at ra (ring_index php ra (ring_hash php ra out))
unfolding ra_find_node
found_by php ra key out d e = ground arith

extracts_tag :
    (ra : RedisArray) (before tag after : Bytes)
    → ra.z_fun ≡ none
    → Tagged before tag
    → ra_extract_key ra (before ++ b'{' ∷ (tag ++ b'}' ∷ after)) ≡ some tag
unfolding ra_extract_key
extracts_tag ra before tag after f t = ground (arith, between_braces-tag before tag after t)

-- Without functions of the user, two keys with the same tag get the same answer, whatever stands
-- around the tag and however the array distributes. No brace opens before the tag, none closes in
-- it, and neither holds a zero byte.
pub same_tag_same_server :
    (php : PhpHash) (ra : RedisArray) (before₁ after₁ before₂ after₂ tag : Bytes)
    → ra.z_fun ≡ none
    → ra.z_dist ≡ none
    → Tagged before₁ tag
    → Tagged before₂ tag
    → ra_find_node php ra (before₁ ++ b'{' ∷ (tag ++ b'}' ∷ after₁))
      ≡ ra_find_node php ra (before₂ ++ b'{' ∷ (tag ++ b'}' ∷ after₂))
same_tag_same_server php ra before₁ after₁ before₂ after₂ tag f d t₁ t₂ =
    found_by php ra _ tag d (extracts_tag ra before₁ tag after₁ f t₁)
    ∙ sym (found_by php ra _ tag d (extracts_tag ra before₂ tag after₂ f t₂))
