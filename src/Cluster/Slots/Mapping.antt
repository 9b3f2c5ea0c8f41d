-- ===== src/Cluster/Slots/Mapping.antt =====
-- redis-6.0.2/cluster_library.c, `cluster_map_slots` and `cluster_map_keyspace`: the map of the slots
-- from the reply to CLUSTER SLOTS. A node that is freed stays in `heap`, as what is left in memory.
-- `none` is a write beside the table of masters, or a host that the key of 1024 bytes does not hold.
use icore_tax_gateway.Base.{
  ℕ, ◌-◌, ◌^◌, Bool, true, false, ◌&&◌, ◌||◌, not, Option, none, some, List, [], ◌∷◌, ◌++◌, Bytes,
  leb, ltb, ◌==◌, ◌+◌, length, if◌then◌else◌,
}
use icore_tax_gateway.Base.Int.{ℤ, pos, negsuc, ltb_ℤ}
use icore_tax_gateway.Cluster.HashKey.{cluster_slots}
use icore_tax_gateway.Cluster.Redirect.{unsigned_short}
use icore_tax_gateway.Cluster.Slots.{
  Keyspace, node_key, set_node, cluster_node_create, track_node, cluster_find_node,
}

-- clusterReply, of the types that are looked at.
mutual
  pub data ClusterReply : Type 0 where
    bulk_reply : Bytes → ClusterReply
    integer_reply : ℤ → ClusterReply
    multibulk_reply : Elements → ClusterReply
    other_reply : ClusterReply

  pub data Elements : Type 0 where
    no_elements : Elements
    element : ClusterReply → Elements → Elements

-- VALIDATE_SLOTS_INNER, and the host and the port.
unfoldable pub valid_node : ClusterReply → Option (Bytes × ℕ)
valid_node (multibulk_reply (element (bulk_reply host) (element (integer_reply port) more))) =
    some (host, unsigned_short port)
valid_node _ = none

-- The slots of a range, its master, and the slaves behind it.
pub record SlotRange : Type 0 where
  pub low : ℕ
  pub high : ℕ
  pub host : Bytes
  pub port : ℕ
  pub slaves : Elements

unfoldable pub range_of : ℤ → ℤ → Elements → Option (Bytes × ℕ) → Option SlotRange
range_of low high more none = none
range_of low high more (some (host, port)) = some (record {
  low = unsigned_short low;
  high = unsigned_short high;
  host = host;
  port = port;
  slaves = more;
})

-- VALIDATE_SLOTS_OUTER, and what is taken from the range.
unfoldable pub valid_range : ClusterReply → Option SlotRange
unfolding valid_node range_of
valid_range
      (multibulk_reply
        (element (integer_reply low) (element (integer_reply high) (element node more)))) =
    range_of low high more (valid_node node)
valid_range _ = none

-- An unsigned short that is stored in a short.
unfoldable pub as_short : ℕ → ℤ
as_short n = if ltb n (2 ^ 15) then pos n else negsuc (2 ^ 16 - n - 1)

unfoldable pub cluster_node_add_slave : ℕ → ℕ → Keyspace → Keyspace
cluster_node_add_slave master slave c =
    let n = c.heap master in set_node master (record n { slaves = n.slaves ++ slave ∷ [] }) c

-- A slave with an empty host is skipped.
unfoldable pub attach_slave : ℕ → ℕ → Bytes × ℕ → Keyspace → Keyspace
unfolding cluster_node_add_slave
attach_slave master low ([], port) c = c
attach_slave master low (b ∷ host, port) c =
    let (c', slave) = cluster_node_create (b ∷ host) port low true c in
    cluster_node_add_slave master slave c'

-- for (j = 3; j < r2->elements; j++)
unfoldable pub attach_slaves : ℕ → ℕ → Elements → Keyspace → Keyspace × Bool
unfolding attach_slave
attach_slaves master low no_elements c = (c, true)
attach_slaves master low (element r3 more) c = elim (valid_node r3) [
  | none ↦ (c, false)
  | some address ↦ attach_slaves master low more (attach_slave master low address c)
]

-- The master of the range, and whether its slaves are valid.
unfoldable pub master_of : SlotRange → Keyspace → Keyspace × ℕ × Bool
unfolding attach_slaves
master_of r c = elim (cluster_find_node r.host r.port c) [
  | some node ↦ (c, node, true)
  | none ↦
      (let (c', node) = cluster_node_create r.host r.port r.low false c in
        let (c'', whole) =
          attach_slaves node r.low r.slaves (track_node node (node_key r.host r.port) c') in
        (c'', node, whole))
]

-- for (j = low; j <= high; j++)
unfoldable pub assign_range : ℕ → ℕ → ℕ → Keyspace → Option Keyspace
unfolding as_short
assign_range low high node c =
    if ltb_ℤ (as_short high) (as_short low)
    then some c
    else if ltb_ℤ (as_short low) (pos 0) || not (ltb_ℤ (as_short high) (pos cluster_slots))
    then none
    else some (record c { master = λ j. if leb low j && leb j high then some node else c.master j })

unfoldable pub add_range : ℕ → ℕ → ℕ → Keyspace → Keyspace
add_range low high node c =
    let n = c.heap node in set_node node (record n { slots = n.slots ++ (low, high) ∷ [] }) c

-- One range; `false` ends the loop with -1.
unfoldable pub map_range : SlotRange → Keyspace × ℕ × Bool → Option (Keyspace × Bool)
unfolding assign_range add_range
map_range r (c, node, false) = some (c, false)
map_range r (c, node, true) = elim (assign_range r.low r.high node c) [
  | none ↦ none
  | some c' ↦ some (add_range r.low r.high node c', true)
]

unfoldable pub next_range :
    (Keyspace → Option (Keyspace × Bool)) → Option (Keyspace × Bool) → Option (Keyspace × Bool)
next_range continue none = none
next_range continue (some (c, false)) = some (c, false)
next_range continue (some (c, true)) = continue c

-- char key[1024], for a host with a colon, five digits and a zero byte behind it.
unfoldable pub key_size : ℕ
key_size = 1024

unfoldable pub has_zero : Bytes → Bool
has_zero [] = false
has_zero (b ∷ bs) = (b == 0) || has_zero bs

-- The host is all in the key that is printed.
unfoldable pub is_keyable : Bytes → Bool
unfolding key_size has_zero
is_keyable host = leb (length host + 7) key_size && not (has_zero host)

-- The body of the loop, once the range is validated.
unfoldable pub map_valid :
    (Keyspace → Option (Keyspace × Bool)) → Keyspace → Option SlotRange → Option (Keyspace × Bool)
unfolding master_of map_range next_range is_keyable
map_valid continue c none = some (c, false)
map_valid continue c (some r) =
    if is_keyable r.host then next_range continue (map_range r (master_of r c)) else none

-- for (i = 0; i < r->elements; i++)
unfoldable pub map_ranges : Elements → Keyspace → Option (Keyspace × Bool)
unfolding valid_range map_valid
map_ranges no_elements c = some (c, true)
map_ranges (element r2 more) c = map_valid (λ c'. map_ranges more c') c (valid_range r2)

unfoldable pub cluster_map_slots : Elements → Keyspace → Option (Keyspace × Bool)
unfolding map_ranges
cluster_map_slots r c = map_ranges r (record c { nodes = [] })

-- Go on with the next seed, with no masters if the reply could not be mapped.
unfoldable pub after_seed :
    (Keyspace → Option (Keyspace × Bool)) → Option (Keyspace × Bool) → Option (Keyspace × Bool)
after_seed continue none = none
after_seed continue (some (c, true)) = some (c, true)
after_seed continue (some (c, false)) = continue (record c { master = λ j. none })

-- The replies of the seeds; `none` is a seed that cannot be opened, or whose reply is no reply.
unfoldable pub cluster_map_keyspace : List (Option Elements) → Keyspace → Option (Keyspace × Bool)
unfolding cluster_map_slots after_seed
cluster_map_keyspace [] c = some (c, false)
cluster_map_keyspace (none ∷ seeds) c = cluster_map_keyspace seeds c
cluster_map_keyspace (some slots ∷ seeds) c =
    after_seed (λ c'. cluster_map_keyspace seeds c') (cluster_map_slots slots c)
