-- ===== src/Cluster/Slots.antt =====
-- redis-6.0.2/cluster_library.c: which node has a slot. A redisClusterNode is a number, and `heap` has
-- what it points to; `next` is the first number that no node has. The reply to CLUSTER SLOTS of each
-- seed that can be reached is a parameter.
pub mod Points
pub mod Mapping
pub mod Grown
pub mod Mapped
use icore_tax_gateway.Base.{
  ℕ, zero, suc, ◌+◌, ◌≤◌, ◌<◌, Bool, true, false, ◌&&◌, ◌||◌, not, Option, none, some, List, [],
  ◌∷◌, ◌++◌, Bytes, leb, ltb, ◌==◌, if◌then◌else◌, length, take,
}
use icore_tax_gateway.Base.Int.{ℤ, pos, negsuc}
use icore_tax_gateway.Base.Text.{bytes_eq, same_word}
use icore_tax_gateway.Zend.Decimal.{decimal}
use icore_tax_gateway.Cluster.HashKey.{cluster_slots}
use icore_tax_gateway.Cluster.Redirect.{ClusterFlags, unsigned_short}

-- redisClusterNode, with the host and the port of its socket.
pub record ClusterNode : Type 0 where
  pub host : Bytes
  pub port : ℕ
  pub slot : ℕ
  pub slots : List (ℕ × ℕ)
  pub slave : Bool
  pub slaves : List ℕ

-- The fields of redisCluster that say where a slot is: `nodes` has the nodes by host and port.
pub record Keyspace : Type 0 where
  pub heap : ℕ → ClusterNode
  pub next : ℕ
  pub nodes : List (Bytes × ℕ)
  pub master : ℕ → Option ℕ

-- `snprintf(key, sizeof(key), "%s:%d", host, port)`
unfoldable pub node_key : Bytes → ℕ → Bytes
node_key host port = host ++ b':' ∷ decimal port

-- zend_hash_str_find_ptr
unfoldable pub find_key : List (Bytes × ℕ) → Bytes → Option ℕ
find_key [] key = none
find_key ((k, node) ∷ nodes) key = if bytes_eq k key then some node else find_key nodes key

unfoldable pub set_node : ℕ → ClusterNode → Keyspace → Keyspace
set_node node n c = record c { heap = λ i. if i == node then n else c.heap i }

unfoldable pub set_master : ℕ → Option ℕ → Keyspace → Keyspace
set_master slot node c = record c { master = λ i. if i == slot then node else c.master i }

-- The state and the node.
unfoldable pub cluster_node_create : Bytes → ℕ → ℕ → Bool → Keyspace → Keyspace × ℕ
unfolding set_node
cluster_node_create host port slot slave c =
    let n : ClusterNode = record {
      host = host;
      port = port;
      slot = slot;
      slots = [];
      slave = slave;
      slaves = [];
    } in
    (record (set_node c.next n c) { next = suc c.next }, c.next)

-- `zend_hash_str_update_ptr` for a key that is not there yet.
unfoldable pub track_node : ℕ → Bytes → Keyspace → Keyspace
track_node node key c = record c { nodes = c.nodes ++ (key, node) ∷ [] }

unfoldable pub cluster_find_node : Bytes → ℕ → Keyspace → Option ℕ
unfolding node_key find_key
cluster_find_node host port c = find_key c.nodes (node_key host port)

-- `!CLUSTER_REDIR_CMP(c, sock)`
unfoldable pub is_redirected_to : ClusterFlags → ClusterNode → Bool
is_redirected_to f n =
    n.port == f.redir_port && length n.host == f.redir_host_len && bytes_eq n.host f.redir_host

-- Whether one of the slaves is the node of the redirection.
unfoldable pub is_replica : ClusterFlags → Keyspace → List ℕ → Bool
unfolding is_redirected_to
is_replica f c [] = false
is_replica f c (slave ∷ slaves) = is_redirected_to f (c.heap slave) || is_replica f c slaves

-- The node serves the slot of the redirection, as a master.
unfoldable pub serve_slot : ClusterFlags → ℕ → Keyspace → Keyspace
unfolding set_node set_master
serve_slot f node c =
    let c' = set_master f.redir_slot (some node) c in
    set_node node (record (c'.heap node) { slot = f.redir_slot; slave = false }) c'

unfoldable pub create_redirected : ClusterFlags → Keyspace → Keyspace × ℕ
unfolding cluster_node_create
create_redirected f c = cluster_node_create f.redir_host f.redir_port f.redir_slot false c

-- A new node that is kept track of.
unfoldable pub serve_new : ClusterFlags → Keyspace → Keyspace
unfolding create_redirected track_node serve_slot node_key
serve_new f c =
    let (c', node) = create_redirected f c in
    serve_slot f node (track_node node (node_key f.redir_host f.redir_port) c')

-- A new node that is not.
unfoldable pub serve_untracked : ClusterFlags → Keyspace → Keyspace
unfolding create_redirected serve_slot
serve_untracked f c = let (c', node) = create_redirected f c in serve_slot f node c'

-- The host of a redirection is all in its buffer: it was not cut, and its length is that of the text.
unfoldable pub is_held : ClusterFlags → Bool
is_held f = f.redir_host_len == length f.redir_host

-- Given cluster_map_keyspace, for a slot of c->master and a host that its buffer holds.
unfoldable pub update_inside : (Keyspace → Keyspace) → ClusterFlags → Keyspace → Keyspace
unfolding is_redirected_to is_replica serve_slot serve_new serve_untracked cluster_find_node
update_inside map_keyspace f c =
    let found = cluster_find_node f.redir_host f.redir_port c in
    elim (c.master f.redir_slot) [
      | none ↦ elim found [ none ↦ serve_untracked f c | some node ↦ serve_slot f node c ]
      | some owner ↦
          (let remapped = map_keyspace c in
            let moved = elim found as (λ x. Keyspace) [
              | some node ↦ serve_slot f node c
              | none ↦ (if is_replica f c (c.heap owner).slaves then remapped else serve_new f c)
            ] in
            if is_redirected_to f (c.heap owner) then c else moved)
    ]

-- `none` is an access outside of c->master, which is indexed by the slot as it was sent, or behind the host.
unfoldable pub cluster_update_slot :
    (Keyspace → Keyspace) → ClusterFlags → Keyspace → Option Keyspace
unfolding update_inside is_held
cluster_update_slot map_keyspace f c =
    let updated = update_inside map_keyspace f c in
    if ltb f.redir_slot cluster_slots && is_held f then some updated else none

-- for (i = 0; i < REDIS_CLUSTER_SLOTS; i++), with the slots that are left.
unfoldable pub find_slot_from : Bytes → ℕ → Keyspace → ℕ → ℕ → Option ℕ
find_slot_from host port c zero i = none
find_slot_from host port c (suc left) i =
    let later = find_slot_from host port c left (suc i) in
    elim (c.master i) [
      | none ↦ later
      | some node ↦
          (if (c.heap node).port == port && same_word (c.heap node).host host
            then some i
            else later)
    ]

unfoldable pub cluster_find_slot : Bytes → ℕ → Keyspace → Option ℕ
unfolding find_slot_from
cluster_find_slot host port c = find_slot_from host port c cluster_slots 0
