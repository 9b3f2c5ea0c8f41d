-- ===== src/Cluster/Slots/Grown.antt =====
-- What the steps of the mapping keep.
use icore_tax_gateway.Base.{
  ℕ, ◌≤◌, ◌<◌, ◌≡◌, refl, ap, ◌∙◌, Bool, true, List, [], ◌∷◌, Bytes, arith,
}
use icore_tax_gateway.Base.Int.{pos}
use icore_tax_gateway.Cluster.Redirect.{unsigned_short}
use icore_tax_gateway.Cluster.Slots.{
  ClusterNode, Keyspace, node_key, set_node, cluster_node_create, track_node,
}
use icore_tax_gateway.Cluster.Slots.Points.{
  IsKeyed, keep-Keyed, set_node-address, create-keeps, create-IsKeyed, track-IsKeyed,
}
use icore_tax_gateway.Cluster.Slots.Mapping.{
  ClusterReply, bulk_reply, integer_reply, multibulk_reply, Elements, no_elements, element,
  valid_node, cluster_node_add_slave, attach_slave, attach_slaves,
}

-- Nodes stay where they are and keep their addresses; the table is keyed.
pub record Extends (c c' : Keyspace) : Type 0 where
  pub grows : c.next ≤ c'.next
  pub address :
      (i : ℕ)
      → i < c.next
      → ((c'.heap i).host ≡ (c.heap i).host) × ((c'.heap i).port ≡ (c.heap i).port)
  pub masters : (j : ℕ) → c'.master j ≡ c.master j
  pub keyed : IsKeyed c'

pub Extends-refl : (c : Keyspace) → IsKeyed c → Extends c c
Extends-refl c keyed = record {
  grows = omega arith;
  address = λ i below. (refl, refl);
  masters = λ j. refl;
  keyed = keyed;
}

pub Extends-trans : (a b c : Keyspace) → Extends a b → Extends b c → Extends a c
Extends-trans a b c ab bc = record {
  grows = omega (arith, ab.grows, bc.grows);
  address = λ i below.
      let later = bc.address i (omega (arith, ab.grows)) in
      let first = ab.address i below in (later.0 ∙ first.0, later.1 ∙ first.1);
  masters = λ j. bc.masters j ∙ ab.masters j;
  keyed = bc.keyed;
}

pub create-Extends :
    (c : Keyspace) (host : Bytes) (port slot : ℕ) (slave : Bool)
    → IsKeyed c
    → Extends c (cluster_node_create host port slot slave c).0
unfolding cluster_node_create
create-Extends c host port slot slave keyed = record {
  grows = omega arith;
  address = λ i below.
      let same = create-keeps c host port slot slave i below in
      (ap (λ n. n.host) same, ap (λ n. n.port) same);
  masters = λ j. refl;
  keyed = create-IsKeyed c host port slot slave keyed;
}

pub set_node-Extends :
    (c : Keyspace) (node : ℕ) (n : ClusterNode)
    → IsKeyed c
    → n.host ≡ (c.heap node).host
    → n.port ≡ (c.heap node).port
    → Extends c (set_node node n c)
unfolding set_node
set_node-Extends c node n keyed hosts ports =
    let same = set_node-address c node n hosts ports in
    record {
      grows = omega arith;
      address = λ i below. same i;
      masters = λ j. refl;
      keyed = record {
        entries =
            keep-Keyed c.heap (set_node node n c).heap c.next c.next c.nodes (λ i below. same i)
              (omega arith) keyed.entries;
      };
    }

pub track-Extends :
    (c : Keyspace) (node : ℕ) (key : Bytes)
    → IsKeyed c
    → key ≡ node_key (c.heap node).host (c.heap node).port
    → node < c.next
    → Extends c (track_node node key c)
unfolding track_node
track-Extends c node key keyed is_key below = record {
  grows = omega arith;
  address = λ i inside. (refl, refl);
  masters = λ j. refl;
  keyed = track-IsKeyed c node key keyed is_key below;
}

attach_slave-Extends :
    (master low : ℕ) (address : Bytes × ℕ) (c : Keyspace)
    → IsKeyed c
    → Extends c (attach_slave master low address c)
unfolding attach_slave cluster_node_add_slave cluster_node_create
attach_slave-Extends master low ([], port) c keyed = Extends-refl c keyed
attach_slave-Extends master low (b ∷ host, port) c keyed =
    let c' = (cluster_node_create (b ∷ host) port low true c).0 in
    let created = create-Extends c (b ∷ host) port low true keyed in
    Extends-trans c c' (attach_slave master low (b ∷ host, port) c) created
      (set_node-Extends c' master _ created.keyed refl refl)

-- The address of a node in a reply.
abbrev pub print_node : Bytes × ℕ → ClusterReply
print_node (host, port) =
    multibulk_reply (element (bulk_reply host) (element (integer_reply (pos port)) no_elements))

abbrev pub print_slaves : List (Bytes × ℕ) → Elements
print_slaves [] = no_elements
print_slaves (slave ∷ slaves) = element (print_node slave) (print_slaves slaves)

pub attach_slaves-Extends :
    (master low : ℕ) (slaves : List (Bytes × ℕ)) (c : Keyspace)
    → IsKeyed c
    → ((attach_slaves master low (print_slaves slaves) c).1 ≡ true)
      × Extends c (attach_slaves master low (print_slaves slaves) c).0
unfolding attach_slaves valid_node
attach_slaves-Extends master low [] c keyed = (refl, Extends-refl c keyed)
attach_slaves-Extends master low ((host, port) ∷ slaves) c keyed =
    let first = attach_slave-Extends master low (host, unsigned_short (pos port)) c keyed in
    let c' = attach_slave master low (host, unsigned_short (pos port)) c in
    let (whole, later) = attach_slaves-Extends master low slaves c' first.keyed in
    (whole, Extends-trans c c' _ first later)
