-- ===== src/Cluster/Slots/Points.antt =====
-- Where a slot points after a redirection.
use icore_tax_gateway.Base.{length}
use icore_tax_gateway.Base.{
  ℕ, suc, ◌≤◌, ◌<◌, ◌≡◌, ◌≢◌, refl, ap, sym, ◌∙◌, Bool, true, false, Option, some, List, [], ◌∷◌,
  ◌++◌, Bytes, arith, All, Option-cases, inl, inr, Bool-cases,
}
use icore_tax_gateway.Base.Text.{bytes_eq_lem, split_at_last, split_at_last-hit}
use icore_tax_gateway.Zend.{digits_value}
use icore_tax_gateway.Zend.Decimal.{decimal, decimal-digits, decimal-value}
use icore_tax_gateway.Cluster.Redirect.{ClusterFlags}
use icore_tax_gateway.Cluster.Redirect.Parse.{digits_lack}
use icore_tax_gateway.Cluster.HashKey.{cluster_slots}
use icore_tax_gateway.Cluster.Slots.{
  ClusterNode, Keyspace, node_key, find_key, set_node, set_master, cluster_node_create, track_node,
  cluster_find_node, is_redirected_to, is_replica, serve_slot, create_redirected, serve_new,
  serve_untracked, cluster_update_slot, update_inside, is_held,
}

-- The port is what stands behind the last colon, so that a key has one host and one port.
split_key :
    (host : Bytes) (port : ℕ) → split_at_last b':' (node_key host port) ≡ some (host, decimal port)
unfolding node_key
split_key host port =
    split_at_last-hit b':' host (decimal port)
      (digits_lack b':' (decimal port) (omega arith) (decimal-digits port))

both_parts :
    (a b c d : Bytes)
    → ◌≡◌ {A = Option (Bytes × Bytes)} (some (a, b)) (some (c, d))
    → (a ≡ c) × (b ≡ d)
both_parts a b c d e = (cc, cc)

key_host : (h h' : Bytes) (p p' : ℕ) → node_key h p ≡ node_key h' p' → (h ≡ h') × (p ≡ p')
key_host h h' p p' e =
    let (hosts, digits) =
      both_parts h (decimal p) h' (decimal p')
        (sym (split_key h p) ∙ ap (split_at_last b':') e ∙ split_key h' p') in
    (hosts, sym (decimal-value p) ∙ ap (digits_value 0) digits ∙ decimal-value p')

-- An entry of `nodes` is a node that exists and has the host and the port of the key.
abbrev pub Keyed : (ℕ → ClusterNode) → ℕ → Bytes × ℕ → Type 0
Keyed heap next (key, node) = (key ≡ node_key (heap node).host (heap node).port) × (node < next)

pub record IsKeyed (c : Keyspace) : Type 0 where
  pub entries : All (Keyed c.heap c.next) c.nodes

found_lem :
    (heap : ℕ → ClusterNode) (next : ℕ) (nodes : List (Bytes × ℕ)) (key : Bytes) (node : ℕ)
    → All (Keyed heap next) nodes
    → find_key nodes key ≡ some node
    → Keyed heap next (key, node)
unfolding find_key
found_lem heap next [] key node h e = cc
found_lem heap next ((k, n) ∷ nodes) key node h e =
    ground (arith, bytes_eq_lem k key, found_lem heap next nodes key node h.1)

pub find_node-Keyed :
    (c : Keyspace) (host : Bytes) (port node : ℕ)
    → IsKeyed c
    → cluster_find_node host port c ≡ some node
    → ((c.heap node).host ≡ host) × ((c.heap node).port ≡ port) × (node < c.next)
unfolding cluster_find_node
find_node-Keyed c host port node keyed e =
    let (key, below) = found_lem c.heap c.next c.nodes (node_key host port) node keyed.entries e in
    let (hosts, ports) = key_host host (c.heap node).host port (c.heap node).port key in
    (sym hosts, sym ports, below)

-- The slot belongs to a node with this host and this port.
abbrev pub Points : Keyspace → ℕ → Bytes → ℕ → Type 0
Points c slot host port =
    (node : ℕ) × (c.master slot ≡ some node)
    × ((c.heap node).host ≡ host)
    × ((c.heap node).port ≡ port)

-- What a redirection should make of the map: its slot points to its node, and other slots where they
-- did.
pub record Redirected (f : ClusterFlags) (c c' : Keyspace) : Type 0 where
  pub points : Points c' f.redir_slot f.redir_host f.redir_port
  pub keyed : IsKeyed c'
  pub others : (j : ℕ) → j ≢ f.redir_slot → c'.master j ≡ c.master j

-- Entries stay as they are if the nodes below the next number keep their host and their port.
pub keep-Keyed :
    (heap heap' : ℕ → ClusterNode) (next next' : ℕ) (nodes : List (Bytes × ℕ))
    → ((i : ℕ) → i < next → ((heap' i).host ≡ (heap i).host) × ((heap' i).port ≡ (heap i).port))
    → next ≤ next'
    → All (Keyed heap next) nodes
    → All (Keyed heap' next') nodes
keep-Keyed heap heap' next next' [] same grows h = tt
keep-Keyed heap heap' next next' ((key, node) ∷ nodes) same grows ((k, below), h) =
    let (hosts, ports) = same node below in
    (
      (
        k
            ∙ ap (λ x. node_key x (heap node).port) (sym hosts)
            ∙ ap (node_key (heap' node).host) (sym ports),
        omega arith,
      ),
      keep-Keyed heap heap' next next' nodes same grows h,
    )

pub Keyed-append :
    (heap : ℕ → ClusterNode) (next : ℕ) (nodes : List (Bytes × ℕ)) (entry : Bytes × ℕ)
    → All (Keyed heap next) nodes
    → Keyed heap next entry
    → All (Keyed heap next) (nodes ++ entry ∷ [])
Keyed-append heap next [] entry h e = (e, tt)
Keyed-append heap next (n ∷ nodes) entry h e = (h.0, Keyed-append heap next nodes entry h.1 e)

-- Changes of a node other than of its host and its port.
pub set_node-address :
    (c : Keyspace) (node : ℕ) (n : ClusterNode)
    → n.host ≡ (c.heap node).host
    → n.port ≡ (c.heap node).port
    → (i : ℕ)
    → (((set_node node n c).heap i).host ≡ (c.heap i).host)
      × (((set_node node n c).heap i).port ≡ (c.heap i).port)
unfolding set_node
set_node-address c node n hosts ports i = ground arith

set_master-same :
    (slot : ℕ) (owner : Option ℕ) (c : Keyspace) → (set_master slot owner c).master slot ≡ owner
unfolding set_master
set_master-same slot owner c = ground arith

set_master-other :
    (slot j : ℕ) (owner : Option ℕ) (c : Keyspace)
    → j ≢ slot
    → (set_master slot owner c).master j ≡ c.master j
unfolding set_master
set_master-other slot j owner c other = ground arith

serve_slot-Redirected :
    (f : ClusterFlags) (c : Keyspace) (node : ℕ)
    → IsKeyed c
    → (c.heap node).host ≡ f.redir_host
    → (c.heap node).port ≡ f.redir_port
    → Redirected f c (serve_slot f node c)
unfolding serve_slot set_node
serve_slot-Redirected f c node keyed hosts ports =
    let c' = set_master f.redir_slot (some node) c in
    let n : ClusterNode = record (c.heap node) { slot = f.redir_slot; slave = false } in
    let same = set_node-address c' node n refl refl in
    record {
      points = (
        node,
        set_master-same f.redir_slot (some node) c,
        (same node).0 ∙ hosts,
        (same node).1 ∙ ports,
      );
      keyed = record {
        entries =
            keep-Keyed c.heap (serve_slot f node c).heap c.next c.next c.nodes (λ i below. same i)
              (omega arith) keyed.entries;
      };
      others = λ j other. set_master-other f.redir_slot j (some node) c other;
    }

-- A new node has its host and its port, and those that are there keep theirs.
pub create-fresh :
    (c : Keyspace) (host : Bytes) (port slot : ℕ) (slave : Bool)
    → (((cluster_node_create host port slot slave c).0.heap c.next).host ≡ host)
      × (((cluster_node_create host port slot slave c).0.heap c.next).port ≡ port)
unfolding cluster_node_create set_node
create-fresh c host port slot slave = ground arith

pub create-keeps :
    (c : Keyspace) (host : Bytes) (port slot : ℕ) (slave : Bool) (i : ℕ)
    → i < c.next
    → (cluster_node_create host port slot slave c).0.heap i ≡ c.heap i
unfolding cluster_node_create set_node
create-keeps c host port slot slave i below = ground arith

pub create-IsKeyed :
    (c : Keyspace) (host : Bytes) (port slot : ℕ) (slave : Bool)
    → IsKeyed c
    → IsKeyed (cluster_node_create host port slot slave c).0
unfolding cluster_node_create
create-IsKeyed c host port slot slave keyed =
    let c' = (cluster_node_create host port slot slave c).0 in
    record {
      entries =
          keep-Keyed c.heap c'.heap c.next (suc c.next) c.nodes
            (λ i below.
              let same = create-keeps c host port slot slave i below in
              (ap (λ n. n.host) same, ap (λ n. n.port) same))
            (omega arith) keyed.entries;
    }

serve_untracked-Redirected :
    (f : ClusterFlags) (c : Keyspace) → IsKeyed c → Redirected f c (serve_untracked f c)
unfolding serve_untracked create_redirected cluster_node_create
serve_untracked-Redirected f c keyed =
    let (hosts, ports) = create-fresh c f.redir_host f.redir_port f.redir_slot false in
    let c' = (cluster_node_create f.redir_host f.redir_port f.redir_slot false c).0 in
    let done =
      serve_slot-Redirected f c' c.next
        (create-IsKeyed c f.redir_host f.redir_port f.redir_slot false keyed) hosts ports in
    record { points = done.points; keyed = done.keyed; others = done.others }

pub track-IsKeyed :
    (c : Keyspace) (node : ℕ) (key : Bytes)
    → IsKeyed c
    → key ≡ node_key (c.heap node).host (c.heap node).port
    → node < c.next
    → IsKeyed (track_node node key c)
unfolding track_node
track-IsKeyed c node key keyed is_key below = record {
  entries = Keyed-append c.heap c.next c.nodes (key, node) keyed.entries (is_key, below);
}

serve_new-Redirected :
    (f : ClusterFlags) (c : Keyspace) → IsKeyed c → Redirected f c (serve_new f c)
unfolding serve_new create_redirected cluster_node_create track_node
serve_new-Redirected f c keyed =
    let (hosts, ports) = create-fresh c f.redir_host f.redir_port f.redir_slot false in
    let c' = (cluster_node_create f.redir_host f.redir_port f.redir_slot false c).0 in
    let tracked : IsKeyed (track_node c.next (node_key f.redir_host f.redir_port) c') =
      track-IsKeyed c' c.next (node_key f.redir_host f.redir_port)
        (create-IsKeyed c f.redir_host f.redir_port f.redir_slot false keyed)
        (ap (λ h. node_key h f.redir_port) (sym hosts)
          ∙ ap (node_key (c'.heap c.next).host) (sym ports))
        (omega arith) in
    let done =
      serve_slot-Redirected f (track_node c.next (node_key f.redir_host f.redir_port) c') c.next
        tracked hosts ports in
    record { points = done.points; keyed = done.keyed; others = done.others }

same_owner :
    (f : ClusterFlags) (c : Keyspace) (owner : ℕ)
    → IsKeyed c
    → c.master f.redir_slot ≡ some owner
    → is_redirected_to f (c.heap owner) ≡ true
    → Redirected f c c
unfolding is_redirected_to
same_owner f c owner keyed owned same = record {
  points =
      (owner, owned, ground (arith, bytes_eq_lem (c.heap owner).host f.redir_host), ground arith);
  keyed = keyed;
  others = λ j other. refl;
}

pub update_inside-Redirected :
    (map_keyspace : Keyspace → Keyspace) (f : ClusterFlags) (c : Keyspace)
    → IsKeyed c
    → ((owner : ℕ)
        → c.master f.redir_slot ≡ some owner
        → is_replica f c (c.heap owner).slaves ≡ false)
    → Redirected f c (update_inside map_keyspace f c)
unfolding update_inside
update_inside-Redirected map_keyspace f c keyed no_failover =
    elim (Option-cases (c.master f.redir_slot)) [
      | inl unowned ↦ elim (Option-cases (cluster_find_node f.redir_host f.redir_port c)) [
        | inl unknown ↦ rw (unowned, update_inside, unknown) (serve_untracked-Redirected f c keyed)
        | inr (node, known) ↦
            (let (hosts, ports, below) =
                find_node-Keyed c f.redir_host f.redir_port node keyed known in
              rw (unowned, update_inside, known) (serve_slot-Redirected f c node keyed hosts ports))
      ]
      | inr (owner, owned) ↦ elim (Bool-cases (is_redirected_to f (c.heap owner))) [
        | inl same ↦ rw (owned, update_inside, same) (same_owner f c owner keyed owned same)
        | inr different ↦ elim (Option-cases (cluster_find_node f.redir_host f.redir_port c)) [
          | inl unknown ↦
              rw (owned, update_inside, different, unknown, no_failover owner owned)
                (serve_new-Redirected f c keyed)
          | inr (node, known) ↦
              (let (hosts, ports, below) =
                  find_node-Keyed c f.redir_host f.redir_port node keyed known in
                rw (owned, update_inside, different, known)
                  (serve_slot-Redirected f c node keyed hosts ports))
        ]
      ]
    ]

pub update_inside_lem :
    (map_keyspace : Keyspace → Keyspace) (f : ClusterFlags) (c : Keyspace)
    → f.redir_slot < cluster_slots
    → f.redir_host_len ≡ length f.redir_host
    → cluster_update_slot map_keyspace f c ≡ some (update_inside map_keyspace f c)
unfolding cluster_update_slot is_held
update_inside_lem map_keyspace f c inside held = ground (arith, inside, held)

-- After a redirection for one of the slots, with a host that its buffer holds, whose node is not a slave of the
-- slot's owner: the slot belongs to the node of the redirection, other slots belong to whom they did, and each
-- entry of the table of nodes still has the host and the port of its key. It is so whether the node is the owner,
-- another node of the table, or new.
pub update_slot-Redirected :
    (map_keyspace : Keyspace → Keyspace) (f : ClusterFlags) (c : Keyspace)
    → IsKeyed c
    → f.redir_slot < cluster_slots
    → f.redir_host_len ≡ length f.redir_host
    → ((owner : ℕ)
        → c.master f.redir_slot ≡ some owner
        → is_replica f c (c.heap owner).slaves ≡ false)
    → (c' : Keyspace) × (cluster_update_slot map_keyspace f c ≡ some c') × Redirected f c c'
update_slot-Redirected map_keyspace f c keyed inside held no_failover = (
  update_inside map_keyspace f c,
  update_inside_lem map_keyspace f c inside held,
  update_inside-Redirected map_keyspace f c keyed no_failover,
)
