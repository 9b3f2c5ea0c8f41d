-- ===== src/Cluster/Tests.antt =====
-- The theorems on slots and redirections at concrete inputs, and runs of their functions.
use icore_tax_gateway.Base.{
  ℕ, List, Bool, ◌≡◌, ◌<◌, refl, false, true, none, some, [], ◌∷◌, ◌++◌, codes, arith, bit_and,
  Bytes,
}
use icore_tax_gateway.Base.Text.{starts_with}
use icore_tax_gateway.Cluster.Crc16.{crc16}
use icore_tax_gateway.Cluster.Crc16.Bitwise.{crc16_bitwise, crc16-eq-crc16_bitwise}
use icore_tax_gateway.Cluster.HashKey.{cluster_slots, cluster_mod, cluster_hash_key}
use icore_tax_gateway.Cluster.HashKey.Tags.{cluster_hash_key-lt, tag_decides_slot}
use icore_tax_gateway.Cluster.Abort.{
  multi, Transaction, is_multi, cluster_abort_exec, abort_loop, cluster_send_discard,
  cluster_send_direct, set_sock,
}
use icore_tax_gateway.Cluster.Abort.Discards.{AllClosed, cluster_abort_exec-AllClosed}
use icore_tax_gateway.Cluster.Redirect.{
  ClusterFlags, redir_none, redir_moved, redir_ask, redirected, proceed, count_redirection,
  check_error_line,
}
use icore_tax_gateway.Cluster.Redirect.Parse.{redirection}
use icore_tax_gateway.Cluster.Redirect.Errors.{
  cleared, redirection_followed, check_error_line-Recorded, Recorded,
}
use icore_tax_gateway.Zend.Decimal.{decimal}
use icore_tax_gateway.Cluster.Slots.{
  ClusterNode, Keyspace, node_key, is_replica, cluster_update_slot,
}
use icore_tax_gateway.Cluster.Slots.Points.{IsKeyed, Redirected, update_slot-Redirected}
use icore_tax_gateway.Cluster.Slots.Mapping.{cluster_map_slots, has_zero}
use icore_tax_gateway.Cluster.Slots.Mapped.{
  Range, print_ranges, owner, IsMapped, map_slots-IsMapped,
}

-- The check value of this CRC.
crc16_check : crc16 (codes "123456789") ≡ 0x31c3
unfolding crc16
crc16_check = refl

crc16-eq-crc16_bitwise_example : crc16 (codes "123456789") ≡ crc16_bitwise 0 (codes "123456789")
crc16-eq-crc16_bitwise_example = crc16-eq-crc16_bitwise (codes "123456789") (omega arith)

cluster_hash_key-lt_example : cluster_hash_key (codes "user:{1000}") < cluster_slots
cluster_hash_key-lt_example = cluster_hash_key-lt (codes "user:{1000}")

tag_decides_slot_example :
    cluster_hash_key (codes "user:" ++ b'{' ∷ (codes "1000" ++ b'}' ∷ codes ".name"))
    ≡ bit_and (crc16 (codes "1000")) cluster_mod
tag_decides_slot_example =
    tag_decides_slot (codes "user:") (codes "1000") (codes ".name") (omega arith) (λ h. cc)
      (omega arith)

abbrev idle : ClusterFlags
idle = record {
  redirections = 0;
  redir_type = redir_none;
  redir_host = [];
  redir_host_len = 0;
  redir_slot = 0;
  redir_port = 0;
  err = some (codes "ERR");
  clusterdown = true;
}

redirection_followed_example : check_error_line idle (redirection false 3999 (codes "::1") 6381) ≡ (
  record (count_redirection false (cleared idle)) {
    redir_type = redir_ask;
    redir_host = codes "::1";
    redir_host_len = 3;
    redir_slot = 3999;
    redir_port = 6381;
  },
  redirected,
)
redirection_followed_example =
    redirection_followed idle false 3999 (codes "::1") 6381 (omega arith) (omega arith)
      (omega arith) (omega arith)

abbrev down_line : Bytes
down_line = codes "CLUSTERDOWN Hash slot not served"

check_error_line-Recorded_example :
    Recorded idle (check_error_line idle (down_line ++ 13 ∷ 10 ∷ [])).0 down_line
    × ((check_error_line idle (down_line ++ 13 ∷ 10 ∷ [])).1 ≡ proceed)
check_error_line-Recorded_example =
    check_error_line-Recorded idle down_line (λ h. cc) (omega arith) (unfold starts_with in refl)
      (unfold starts_with in refl)

-- Two slots, each on a connection of its own, with a transaction open on both.
abbrev both_open : Transaction
both_open = record {
  slot_sock = λ slot. slot;
  sock = λ s. record { mode = multi; watching = true };
  multi_head = 1 ∷ 2 ∷ [];
  mode = multi;
  discards = [];
  disconnected = false;
}

abbrev always : List ℕ → Bool
always sent = true

abbrev never : List ℕ → Bool
never sent = false

cluster_abort_exec-AllClosed_example :
    AllClosed (λ slot. slot) (cluster_abort_exec never both_open).0 (1 ∷ 2 ∷ [])
cluster_abort_exec-AllClosed_example = cluster_abort_exec-AllClosed never both_open (
    unfold cluster_abort_exec abort_loop is_multi set_sock cluster_send_discard
      cluster_send_direct in
    refl)

abbrev first_node : ClusterNode
first_node = record {
  host = codes "10.0.0.1";
  port = 7000;
  slot = 7;
  slots = (0, 9) ∷ [];
  slave = false;
  slaves = [];
}

-- One node has all slots.
abbrev one_node : Keyspace
one_node = record {
  heap = λ i. first_node;
  next = 1;
  nodes = (codes "10.0.0.1:7000", 0) ∷ [];
  master = λ j. some 0;
}

one_node-IsKeyed : IsKeyed one_node
one_node-IsKeyed = record {
  entries = ((unfold node_key in unfold decimal in refl, omega arith), tt);
}

abbrev moved_away : ClusterFlags
moved_away = record {
  redirections = 1;
  redir_type = redir_moved;
  redir_host = codes "10.0.0.2";
  redir_host_len = 8;
  redir_slot = 7;
  redir_port = 7001;
  err = none;
  clusterdown = false;
}

update_slot-Redirected_example :
    (c' : Keyspace) × (cluster_update_slot (λ c. c) moved_away one_node ≡ some c')
    × Redirected moved_away one_node c'
update_slot-Redirected_example =
    update_slot-Redirected (λ c. c) moved_away one_node one_node-IsKeyed (omega arith) refl
      (λ owner owned. unfold is_replica in refl)

abbrev two_ranges : List Range
two_ranges =
    record {
      low = 0;
      high = 8191;
      host = codes "10.0.0.1";
      port = 7000;
      slaves = (codes "10.0.0.3", 7002) ∷ (codes "", 0) ∷ [];
    }
    ∷ record { low = 8192; high = 16383; host = codes "10.0.0.2"; port = 7001; slaves = [] }
    ∷ []

map_slots-IsMapped_example :
    (c' : Keyspace) × (cluster_map_slots (print_ranges two_ranges) one_node ≡ some (c', true))
    × IsKeyed c'
    × ((j : ℕ) → IsMapped one_node c' j (owner two_ranges j))
map_slots-IsMapped_example = map_slots-IsMapped two_ranges one_node (
  (omega arith, omega arith, omega arith, omega arith, unfold has_zero in refl),
  ((omega arith, omega arith, omega arith, omega arith, unfold has_zero in refl), tt),
)
