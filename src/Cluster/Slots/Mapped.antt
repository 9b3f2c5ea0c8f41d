-- ===== src/Cluster/Slots/Mapped.antt =====
-- A reply to CLUSTER SLOTS whose ranges are within the table, and the map that is made of it.
use icore_tax_gateway.Base.{
  ℕ, ◌^◌, ◌≤◌, ◌<◌, ◌≡◌, refl, ap, sym, ◌∙◌, Bool, true, false, ◌&&◌, Option, none, some, List, [],
  ◌∷◌, ◌++◌, Bytes, arith, leb, length, if◌then◌else◌, All, Option-cases, inl, inr,
}
use icore_tax_gateway.Base.Int.{pos}
use icore_tax_gateway.Cluster.Redirect.{unsigned_short}
use icore_tax_gateway.Cluster.Slots.{
  ClusterNode, Keyspace, node_key, set_node, cluster_node_create, track_node, cluster_find_node,
}
use icore_tax_gateway.Cluster.Slots.Points.{
  IsKeyed, Points, keep-Keyed, set_node-address, create-fresh, find_node-Keyed,
}
use icore_tax_gateway.Cluster.Slots.Mapping.{
  ClusterReply, integer_reply, multibulk_reply, Elements, no_elements, element, valid_node,
  SlotRange, range_of, valid_range, as_short, attach_slaves, master_of, assign_range, add_range,
  map_range, next_range, map_valid, map_ranges, cluster_map_slots, is_keyable, key_size, has_zero,
}
use icore_tax_gateway.Cluster.Slots.Grown.{
  Extends, Extends-refl, Extends-trans, create-Extends, track-Extends, attach_slaves-Extends,
  print_node, print_slaves,
}

-- A range as the server prints it.
pub record Range : Type 0 where
  pub low : ℕ
  pub high : ℕ
  pub host : Bytes
  pub port : ℕ
  pub slaves : List (Bytes × ℕ)

abbrev pub print_range : Range → ClusterReply
print_range r = multibulk_reply (
    element (integer_reply (pos r.low)) (
      element (integer_reply (pos r.high))
        (element (print_node (r.host, r.port)) (print_slaves r.slaves))))

abbrev pub print_ranges : List Range → Elements
print_ranges [] = no_elements
print_ranges (r ∷ rs) = element (print_range r) (print_ranges rs)

abbrev pub HasSlots : Range → Type 0
HasSlots r =
    (r.low ≤ r.high)
    × (r.high < 16384)
    × (r.port < 2 ^ 16)
    × (length r.host ≤ 1017)
    × (has_zero r.host ≡ false)

abbrev pub covers : Range → ℕ → Bool
covers r j = leb r.low j && leb j r.high

-- The later of two.
abbrev pub last_of : Option (Bytes × ℕ) → Option (Bytes × ℕ) → Option (Bytes × ℕ)
last_of (some later) first = some later
last_of none first = first

-- The address of the last range that has the slot.
abbrev pub owner : List Range → ℕ → Option (Bytes × ℕ)
owner [] j = none
owner (r ∷ rs) j = last_of (owner rs j) (if covers r j then some (r.host, r.port) else none)

-- The slot is where it should be: with its new owner, or where it was.
abbrev pub IsMapped : Keyspace → Keyspace → ℕ → Option (Bytes × ℕ) → Type 0
IsMapped c c' j none = c'.master j ≡ c.master j
IsMapped c c' j (some (host, port)) = Points c' j host port

short_lem : (n : ℕ) → n < 2 ^ 16 → unsigned_short (pos n) ≡ n
unfolding unsigned_short
short_lem n h = omega arith

range_read :
    (r : Range)
    → HasSlots r
    → valid_range (print_range r)
      ≡ some (record {
        low = r.low;
        high = r.high;
        host = r.host;
        port = r.port;
        slaves = print_slaves r.slaves;
      })
unfolding valid_range valid_node range_of
range_read r slots =
    rw
      (
        short_lem r.low (omega arith),
        short_lem r.high (omega arith),
        short_lem r.port (omega arith),
      )
      refl

-- The range that is read.
abbrev read_range : Range → SlotRange
read_range r = record {
  low = r.low;
  high = r.high;
  host = r.host;
  port = r.port;
  slaves = print_slaves r.slaves;
}

master_of_lem :
    (r : Range) (c : Keyspace)
    → IsKeyed c
    → (c' : Keyspace) × (node : ℕ) × (master_of (read_range r) c ≡ (c', node, true))
      × Extends c c'
      × ((c'.heap node).host ≡ r.host)
      × ((c'.heap node).port ≡ r.port)
      × (node < c'.next)
unfolding master_of cluster_node_create
master_of_lem r c keyed = elim (Option-cases (cluster_find_node r.host r.port c)) [
  | inr (node, known) ↦
      (let (hosts, ports, below) = find_node-Keyed c r.host r.port node keyed known in
        (c, node, rw (known, master_of) refl, Extends-refl c keyed, hosts, ports, below))
  | inl unknown ↦
      (let c1 = (cluster_node_create r.host r.port r.low false c).0 in
        let key = node_key r.host r.port in
        let (hosts, ports) = create-fresh c r.host r.port r.low false in
        let created = create-Extends c r.host r.port r.low false keyed in
        let tracked =
          track-Extends c1 c.next key created.keyed
            (ap (λ h. node_key h r.port) (sym hosts)
              ∙ ap (node_key (c1.heap c.next).host) (sym ports))
            (omega arith) in
        let c2 = track_node c.next key c1 in
        let (whole, attached) = attach_slaves-Extends c.next r.low r.slaves c2 tracked.keyed in
        let c3 = (attach_slaves c.next r.low (print_slaves r.slaves) c2).0 in
        let later = Extends-trans c1 c2 c3 tracked attached in
        let same = later.address c.next (omega arith) in
        (
          c3,
          c.next,
          rw (unknown, master_of) (ap (λ b. (c3, c.next, b)) whole),
          Extends-trans c c1 c3 created later,
          same.0 ∙ hosts,
          same.1 ∙ ports,
          omega (arith, later.grows),
        ))
]

assign_lem :
    (r : Range) (node : ℕ) (c : Keyspace)
    → HasSlots r
    → assign_range r.low r.high node c
      ≡ some (record c { master = λ j. if covers r j then some node else c.master j })
unfolding assign_range as_short
assign_lem r node c slots = ground arith

keyable_lem : (r : Range) → HasSlots r → is_keyable r.host ≡ true
unfolding is_keyable key_size
keyable_lem r (ordered, below, short, fits, text) = rw text (ground arith)

-- The map after one range: its slots have its master, and the others theirs.
record Assigned (r : Range) (c c' : Keyspace) : Type 0 where
  pub grows : c.next ≤ c'.next
  pub address :
      (i : ℕ)
      → i < c.next
      → ((c'.heap i).host ≡ (c.heap i).host) × ((c'.heap i).port ≡ (c.heap i).port)
  pub keyed : IsKeyed c'
  pub node : ℕ
  pub below : node < c'.next
  pub hosts : (c'.heap node).host ≡ r.host
  pub ports : (c'.heap node).port ≡ r.port
  pub masters : (j : ℕ) → c'.master j ≡ (if covers r j then some node else c.master j)

map_range_lem :
    (r : Range) (c : Keyspace)
    → IsKeyed c
    → HasSlots r
    → (c' : Keyspace) × (map_range (read_range r) (master_of (read_range r) c) ≡ some (c', true))
      × Assigned r c c'
unfolding map_range add_range set_node
map_range_lem r c keyed slots =
    let (c1, node, mastered, grown, hosts, ports, below) = master_of_lem r c keyed in
    let c2 : Keyspace = record c1 { master = λ j. if covers r j then some node else c1.master j } in
    let n = c2.heap node in
    let n' : ClusterNode = record n { slots = n.slots ++ (r.low, r.high) ∷ [] } in
    let c3 = set_node node n' c2 in
    let same = set_node-address c2 node n' refl refl in
    (
      c3,
      ap (map_range (read_range r)) mastered ∙ rw (assign_lem r node c1 slots, map_range) refl,
      record {
        grows = grown.grows;
        address = λ i inside.
            ((same i).0 ∙ (grown.address i inside).0, (same i).1 ∙ (grown.address i inside).1);
        keyed = record {
          entries =
              keep-Keyed c1.heap c3.heap c1.next c1.next c1.nodes (λ i inside. same i) (omega arith)
                grown.keyed.entries;
        };
        node = node;
        below = below;
        hosts = (same node).0 ∙ hosts;
        ports = (same node).1 ∙ ports;
        masters = λ j. ap (λ m. if covers r j then some node else m) (grown.masters j);
      },
    )

-- The range decides where no later one does.
range_decides :
    (r : Range) (c c1 c' : Keyspace) (j : ℕ) (covered : Bool) (first : Assigned r c c1)
    → ((i : ℕ)
        → i < c1.next
        → ((c'.heap i).host ≡ (c1.heap i).host) × ((c'.heap i).port ≡ (c1.heap i).port))
    → c1.master j ≡ (if covered then some first.node else c.master j)
    → c'.master j ≡ c1.master j
    → IsMapped c c' j (if covered then some (r.host, r.port) else none)
range_decides r c c1 c' j true first address assigned kept =
    let same = address first.node first.below in
    (first.node, kept ∙ assigned, same.0 ∙ first.hosts, same.1 ∙ first.ports)
range_decides r c c1 c' j false first address assigned kept = kept ∙ assigned

later_decides :
    (r : Range) (c c1 c' : Keyspace) (j : ℕ) (last : Option (Bytes × ℕ))
    → Assigned r c c1
    → ((i : ℕ)
        → i < c1.next
        → ((c'.heap i).host ≡ (c1.heap i).host) × ((c'.heap i).port ≡ (c1.heap i).port))
    → IsMapped c1 c' j last
    → IsMapped c c' j (last_of last (if covers r j then some (r.host, r.port) else none))
later_decides r c c1 c' j (some (host, port)) first address later = later
later_decides r c c1 c' j none first address later =
    range_decides r c c1 c' j (covers r j) first address (first.masters j) later

map_keyable :
    (continue : Keyspace → Option (Keyspace × Bool)) (c : Keyspace) (r : SlotRange)
    → is_keyable r.host ≡ true
    → map_valid continue c (some r) ≡ next_range continue (map_range r (master_of r c))
unfolding map_valid
map_keyable continue c r keyable = rw keyable refl

map_ranges_lem :
    (rs : List Range) (c : Keyspace)
    → IsKeyed c
    → All HasSlots rs
    → (c' : Keyspace) × (map_ranges (print_ranges rs) c ≡ some (c', true))
      × IsKeyed c'
      × ((i : ℕ)
          → i < c.next
          → ((c'.heap i).host ≡ (c.heap i).host) × ((c'.heap i).port ≡ (c.heap i).port))
      × ((j : ℕ) → IsMapped c c' j (owner rs j))
unfolding map_ranges map_valid next_range
map_ranges_lem [] c keyed slots = (c, refl, keyed, (λ i below. (refl, refl)), λ j. refl)
map_ranges_lem (r ∷ rs) c keyed slots =
    let (c1, one, first) = map_range_lem r c keyed slots.0 in
    let (c', more, keyed', address, later) = map_ranges_lem rs c1 first.keyed slots.1 in
    (
      c',
      ap (map_valid (λ k. map_ranges (print_ranges rs) k) c) (range_read r slots.0)
          ∙ map_keyable (λ k. map_ranges (print_ranges rs) k) c (read_range r)
              (keyable_lem r slots.0)
          ∙ ap (next_range (λ k. map_ranges (print_ranges rs) k)) one
          ∙ more,
      keyed',
      (λ i below.
          let a = address i (omega (arith, first.grows)) in
          let b = first.address i below in (a.0 ∙ b.0, a.1 ∙ b.1)),
      λ j. later_decides r c c1 c' j (owner rs j) first address (later j),
    )

-- A reply to CLUSTER SLOTS with ranges that are in order and below the number of slots, ports of 16 bits, masters'
-- hosts of at most 1017 bytes without a zero byte (which the key of 1024 bytes holds) and any slaves is mapped: each
-- slot belongs to the host and the port of the last range that has it, a slot that no range has keeps what it
-- had, and each entry of the table of nodes has the host and the port of its key.
pub map_slots-IsMapped :
    (rs : List Range) (c : Keyspace)
    → All HasSlots rs
    → (c' : Keyspace) × (cluster_map_slots (print_ranges rs) c ≡ some (c', true))
      × IsKeyed c'
      × ((j : ℕ) → IsMapped c c' j (owner rs j))
unfolding cluster_map_slots
map_slots-IsMapped rs c slots =
    let (c', maps, keyed, address, mapped) =
      map_ranges_lem rs (record c { nodes = [] }) (record { entries = tt }) slots in
    (c', maps, keyed, λ j. same_master rs c c' j (owner rs j) (mapped j))
  where
    same_master :
        (rs : List Range) (c c' : Keyspace) (j : ℕ) (o : Option (Bytes × ℕ))
        → IsMapped (record c { nodes = [] }) c' j o
        → IsMapped c c' j o
    same_master rs c c' j none h = h
    same_master rs c c' j (some (host, port)) h = h
