-- ===== src/Cluster/Send/Loop.antt =====
-- redis-6.0.2/cluster_library.c, `cluster_send_command` with its loop, and `cluster_send_slot`.
use icore_tax_gateway.Base.{
  ℕ, zero, suc, ◌-◌, Bool, true, false, ◌&&◌, ◌||◌, not, Option, none, some, leb, ◌==◌,
  if◌then◌else◌,
}
use icore_tax_gateway.Cluster.Abort.{atomic, is_multi}
use icore_tax_gateway.Cluster.Redirect.{
  redir_none, redir_moved, redir_ask, RedirType, Response, proceed, redirected, failed,
}
use icore_tax_gateway.Cluster.Slots.{
  Keyspace, is_held, cluster_node_create, cluster_find_node, cluster_update_slot,
}
use icore_tax_gateway.Cluster.Send.{
  RedisCluster, World, set_mode, sock_of_slot, cluster_send_multi, cluster_check_response,
}
use icore_tax_gateway.Cluster.Send.Write.{cluster_sock_write}

-- The state and whether the result is 0; a NULL pointer that is followed, or memory outside of an array; or no
-- more fuel.
pub data SendOutcome : Type 0 where
  out_of_fuel crashed : SendOutcome
  returned : RedisCluster → Bool → SendOutcome

unfoldable pub then_round :
    Option (RedisCluster × Bool) → (RedisCluster → SendOutcome) → SendOutcome
then_round none next = crashed
then_round (some (c, false)) next = returned c false
then_round (some (c, true)) next = next c

-- The map of slots and the node; `none` reads behind the host of the redirection.
unfoldable pub cluster_get_asking_node : RedisCluster → Option (Keyspace × ℕ)
unfolding is_held
cluster_get_asking_node c =
    let f = c.flags in
    let created = cluster_node_create f.redir_host f.redir_port f.redir_slot false c.keys in
    elim (cluster_find_node f.redir_host f.redir_port c.keys) as (λ x. Option (Keyspace × ℕ)) [
      | some node ↦ some (c.keys, node)
      | none ↦ (if is_held f then some created else none)
    ]

-- redis_sock_disconnect(c->cmd_sock, 1, 1)
unfoldable pub drop_connection : RedisCluster → RedisCluster
unfolding set_mode
drop_connection c = set_mode c.cmd_sock atomic c

-- The state with the map as cluster_update_slot leaves it.
unfoldable pub update_map : RedisCluster → Option Keyspace → Option RedisCluster
update_map c none = none
update_map c (some keys) = some (record c { keys = keys })

unfoldable pub use_slot : ℕ → Option RedisCluster → Option RedisCluster
unfolding sock_of_slot
use_slot slot none = none
use_slot slot (some c) = elim (sock_of_slot slot c) [
  | none ↦ none
  | some s ↦ some (record c { cmd_sock = s })
]

unfoldable pub use_asking : RedisCluster → Option RedisCluster
unfolding cluster_get_asking_node
use_asking c = elim (cluster_get_asking_node c) [
  | none ↦ none
  | some (keys, node) ↦ some (record c { keys = keys; cmd_sock = node })
]

unfoldable pub is_failure : Response → Bool
is_failure failed = true
is_failure _ = false

-- Behind the loop.
unfoldable pub leave : Bool → Response → RedisCluster → SendOutcome
unfolding drop_connection is_failure
leave timedout resp c =
    if c.flags.clusterdown
    then returned c false
    else if timedout || is_failure resp
    then returned (drop_connection c) false
    else returned (record c { flags = record c.flags { redir_type = redir_none } }) true

-- Whether the reply is of the type that is asked for, where one is.
unfoldable pub expected : Option ℕ → RedisCluster × Response → SendOutcome
expected rtype (c, proceed) = elim rtype [
  | none ↦ returned c true
  | some type ↦ returned c (type == c.reply_type)
]
expected rtype (c, _) = returned c false

module _ (w : World) where
  -- Whether MULTI is still to be sent.
  unfoldable pub enter_multi : ℕ → RedisCluster → Option (RedisCluster × Bool)
  unfolding is_multi
  enter_multi slot c =
      if is_multi c.mode && not (is_multi (c.sock_mode c.cmd_sock))
      then cluster_send_multi w slot c
      else some (c, true)

  unfoldable pub follow : RedirType → ℕ → RedisCluster → Option RedisCluster
  unfolding update_map use_slot use_asking
  follow redir_moved slot c =
      use_slot slot (update_map c (cluster_update_slot w.map_keyspace c.flags c.keys))
  follow redir_ask slot c = use_asking c
  follow redir_none slot c = some c

  -- `c->waitms ? mstime() - msstart >= c->waitms : 0`
  unfoldable pub is_timed_out : ℕ → RedisCluster → Bool
  is_timed_out msstart c = if c.waitms == 0 then false else leb c.waitms (w.mstime c.sent - msstart)

  unfoldable pub repeat : (RedisCluster → SendOutcome) → ℕ → Option RedisCluster → SendOutcome
  unfolding is_timed_out leave
  repeat again msstart none = crashed
  repeat again msstart (some c) =
      let timedout = is_timed_out msstart c in
      let next = again c in
      if not c.flags.clusterdown && not timedout then next else leave timedout redirected c

  unfoldable pub respond :
      (RedisCluster → SendOutcome) → ℕ → ℕ → RedisCluster × Response → SendOutcome
  unfolding leave follow repeat
  respond again slot msstart (c, proceed) = leave false proceed c
  respond again slot msstart (c, failed) = leave false failed c
  respond again slot msstart (c, redirected) =
      let followed = repeat again msstart (follow c.flags.redir_type slot c) in
      if is_multi c.mode then returned c false else followed

  -- do { ... } while (!c->clusterdown && !timedout);
  unfoldable pub send_loop : ℕ → ℕ → ℕ → RedisCluster → SendOutcome
  unfolding enter_multi then_round respond
  send_loop zero slot msstart c = out_of_fuel
  send_loop (suc fuel) slot msstart c = then_round (enter_multi slot c) (λ c₁.
      then_round (cluster_sock_write w false c₁)
        (λ c₂. respond (send_loop fuel slot msstart) slot msstart (cluster_check_response w c₂)))

  unfoldable pub cluster_send_command : ℕ → ℕ → RedisCluster → SendOutcome
  unfolding send_loop sock_of_slot
  cluster_send_command fuel slot c = elim (sock_of_slot slot c) [
    | none ↦ returned c false
    | some s ↦ send_loop fuel slot (w.mstime c.sent) (record c { cmd_slot = slot; cmd_sock = s })
  ]

  unfoldable pub cluster_send_slot : ℕ → Option ℕ → RedisCluster → SendOutcome
  unfolding enter_multi then_round expected sock_of_slot
  cluster_send_slot slot rtype c = elim (sock_of_slot slot c) [
    | none ↦ crashed
    | some s ↦ then_round (enter_multi slot (record c { cmd_slot = slot; cmd_sock = s })) (λ c₁.
        then_round (cluster_sock_write w true c₁)
          (λ c₂. expected rtype (cluster_check_response w c₂)))
  ]
