-- ===== src/Cluster/Send/Write.antt =====
-- redis-6.0.2/cluster_library.c, `cluster_dist_write` and `cluster_sock_write`: the choice of a node
-- that a command can be written to.
use icore_tax_gateway.Base.{
  ℕ, zero, suc, ◌+◌, Bool, true, false, ◌&&◌, ◌||◌, Option, none, some, List, [], ◌∷◌, Bytes, ◌==◌,
  if◌then◌else◌, length, get_elem?,
}
use icore_tax_gateway.Cluster.Redirect.{RedirType, redir_ask}
use icore_tax_gateway.Cluster.Send.{
  RedisCluster, Failover, failover_none, failover_error, failover_distribute,
  failover_distribute_slaves, command, World, send_payload, cluster_send_asking,
  cluster_send_readonly, sock_of_slot, fyshuffle, indices,
}

-- The connection of the master of the command's slot, or of one of its slaves, which count from 1.
unfoldable pub cluster_slot_sock : ℕ → ℕ → RedisCluster → Option ℕ
cluster_slot_sock owner zero c = some owner
cluster_slot_sock owner (suc i) c = get_elem? (c.keys.heap owner).slaves i

-- `c->readonly && c->failover != REDIS_FAILOVER_NONE ? c->failover : REDIS_FAILOVER_NONE`
unfoldable pub chosen_failover : RedisCluster → Failover
chosen_failover c = if c.readonly then c.failover else failover_none

unfoldable pub is_ask : RedirType → Bool
is_ask redir_ask = true
is_ask _ = false

module _ (w : World) where
  -- The command to the node, which is the connection of the command from then on.
  unfoldable pub deliver_to :
      (RedisCluster → RedisCluster × Bool) → ℕ → RedisCluster → RedisCluster × Bool
  deliver_to next s c =
      let (c', written) = send_payload w s command c in
      let later = next c' in if written then (record c' { cmd_sock = s }, true) else later

  -- A slave is sent READONLY first.
  unfoldable pub try_index :
      (RedisCluster → RedisCluster × Bool) → ℕ → Option ℕ → RedisCluster → RedisCluster × Bool
  unfolding deliver_to
  try_index next i none c = next c
  try_index next zero (some s) c = deliver_to next s c
  try_index next (suc i) (some s) c =
      let (c', ok) = cluster_send_readonly w s c in
      let later = next c' in let sent = deliver_to next s c' in if ok then sent else later

  unfoldable pub dist_loop : Bool → ℕ → List ℕ → RedisCluster → RedisCluster × Bool
  unfolding try_index cluster_slot_sock
  dist_loop nomaster owner [] c = (c, false)
  dist_loop nomaster owner (i ∷ nodes) c =
      let next : RedisCluster → RedisCluster × Bool = dist_loop nomaster owner nodes in
      let skipped = next c in
      let tried = try_index next i (cluster_slot_sock owner i c) c in
      if nomaster && i == 0 then skipped else tried

  -- `none` is a slot without a master.
  unfoldable pub cluster_dist_write : Bool → RedisCluster → Option (RedisCluster × Bool)
  unfolding dist_loop fyshuffle indices sock_of_slot
  cluster_dist_write nomaster c = elim (sock_of_slot c.cmd_slot c) [
    | none ↦ none
    | some owner ↦
        (let count = 1 + length (c.keys.heap owner).slaves in
          some (dist_loop nomaster owner (fyshuffle (w.draw c.sent) count (indices count)) c))
  ]

  -- The master was tried: the slaves, if it failed.
  unfoldable pub or_slaves : RedisCluster × Bool → Option (RedisCluster × Bool)
  unfolding cluster_dist_write
  or_slaves (c, true) = some (c, true)
  or_slaves (c, false) = cluster_dist_write true c

  unfoldable pub write_chosen : Failover → ℕ → RedisCluster → Option (RedisCluster × Bool)
  unfolding cluster_dist_write or_slaves
  write_chosen failover_none s c = some (send_payload w s command c)
  write_chosen failover_error s c = or_slaves (send_payload w s command c)
  write_chosen failover_distribute s c = cluster_dist_write false c
  write_chosen failover_distribute_slaves s c = cluster_dist_write true c

  -- The other masters of the table, one after the other.
  unfoldable pub write_seeds : ℕ → List (Bytes × ℕ) → RedisCluster → RedisCluster × Bool
  write_seeds s [] c = (c, false)
  write_seeds s ((key, seed) ∷ nodes) c =
      let (c', written) = send_payload w seed command c in
      let skipped = write_seeds s nodes c in
      let later = write_seeds s nodes c' in
      if seed == s || (c.keys.heap seed).slave
      then skipped
      else if written
      then (record c' { cmd_slot = (c'.keys.heap seed).slot; cmd_sock = seed }, true)
      else later

  unfoldable pub fall_back : Bool → ℕ → Option (RedisCluster × Bool) → Option (RedisCluster × Bool)
  unfolding write_seeds
  fall_back direct s none = none
  fall_back direct s (some (c, true)) = some (c, true)
  fall_back direct s (some (c, false)) =
      if direct then some (c, false) else some (write_seeds s c.keys.nodes c)

  unfoldable pub write_asked :
      Bool → Failover → ℕ → RedisCluster × Bool → Option (RedisCluster × Bool)
  unfolding write_chosen fall_back
  write_asked direct failover s (c, false) = some (c, false)
  write_asked direct failover s (c, true) = fall_back direct s (write_chosen failover s c)

  unfoldable pub cluster_sock_write : Bool → RedisCluster → Option (RedisCluster × Bool)
  unfolding write_asked is_ask chosen_failover
  cluster_sock_write direct c =
      write_asked direct (chosen_failover c) c.cmd_sock
        (if is_ask c.flags.redir_type then cluster_send_asking w c.cmd_sock c else (c, true))
