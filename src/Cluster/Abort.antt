-- ===== src/Cluster/Abort.antt =====
-- redis-6.0.2/cluster_library.c, `cluster_send_discard` and `cluster_abort_exec`: the transactions that
-- are open on nodes of the cluster are discarded.
pub mod Discards
use icore_tax_gateway.Base.{ℕ, Bool, true, false, not, List, [], ◌∷◌, ◌==◌, if◌then◌else◌}
use icore_tax_gateway.Base.Int.{ℤ, pos, negsuc, ltb_ℤ}

-- redis_mode of common.h
pub data RedisMode : Type 0 where
  atomic multi pipeline : RedisMode

unfoldable pub is_multi : RedisMode → Bool
is_multi multi = true
is_multi _ = false

-- The fields of a connection that a transaction sets.
pub record NodeSock : Type 0 where
  pub mode : RedisMode
  pub watching : Bool

-- The cluster: the connection of each slot, the connections, the slots with queued commands, the mode
-- of the whole, the connections that DISCARD was sent on, the last one first, and whether all nodes
-- were disconnected.
pub record Transaction : Type 0 where
  pub slot_sock : ℕ → ℕ
  pub sock : ℕ → NodeSock
  pub multi_head : List ℕ
  pub mode : RedisMode
  pub discards : List ℕ
  pub disconnected : Bool

unfoldable pub set_sock : Transaction → ℕ → Transaction
set_sock c s = record c {
  sock = λ t. if t == s then record { mode = atomic; watching = false } else c.sock t;
}

-- Whether the DISCARD that was sent last is written and answered by a status line.
module _ (answered : List ℕ → Bool) where
  unfoldable pub cluster_send_direct : List ℕ → ℤ
  cluster_send_direct sent = if answered sent then pos 0 else negsuc 0

  -- `if (cluster_send_direct(...)) return 0;` and otherwise -1.
  unfoldable pub cluster_send_discard : List ℕ → ℤ
  unfolding cluster_send_direct
  cluster_send_discard sent = elim (cluster_send_direct sent) [
    | pos n ↦ (if n == 0 then negsuc 0 else pos 0)
    | negsuc n ↦ pos 0
  ]

  -- while (fi)
  unfoldable pub abort_loop : Transaction → List ℕ → Transaction × ℤ
  abort_loop c [] = (record c { mode = atomic }, pos 0)
  abort_loop c (slot ∷ fi) =
      let s = c.slot_sock slot in
      let sent = record c { discards = s ∷ c.discards } in
      let after = abort_loop (set_sock sent s) fi in
      let skipped = abort_loop c fi in
      if is_multi (c.sock s).mode
      then (if ltb_ℤ (cluster_send_discard (s ∷ c.discards)) (pos 0)
          then (record sent { disconnected = true }, negsuc 0)
          else after)
      else skipped

  unfoldable pub cluster_abort_exec : Transaction → Transaction × ℤ
  unfolding abort_loop cluster_send_discard
  cluster_abort_exec c = abort_loop c c.multi_head
