-- ===== src/Cluster/Send/Strays.antt =====
-- Where a command goes that its node does not take, and a redirection after which no node has the slot.
use icore_tax_gateway.Base.{
  ℕ, suc, ◌^◌, ◌≤◌, ◌<◌, ◌≡◌, ◌≢◌, refl, ap, ◌∙◌, true, false, none, some, List, ◌∷◌, Bytes, arith,
  length, ◌==◌,
}
use icore_tax_gateway.Base.Text.{Lacks}
use icore_tax_gateway.Cluster.HashKey.{cluster_slots}
use icore_tax_gateway.Cluster.Abort.{atomic, is_multi}
use icore_tax_gateway.Cluster.Redirect.{ClusterFlags, redir_none, count_redirection}
use icore_tax_gateway.Cluster.Redirect.Parse.{redirection}
use icore_tax_gateway.Cluster.Slots.{
  Keyspace, update_inside, is_replica, is_redirected_to, cluster_find_node,
}
use icore_tax_gateway.Cluster.Send.{
  RedisCluster, World, sock_of_slot, clear_reply, take_answer, cluster_check_response, command,
  whole, closed, error_line, first_line, send_payload, finish_send, set_mode,
}
use icore_tax_gateway.Cluster.Send.Write.{
  cluster_sock_write, write_asked, fall_back, write_chosen, is_ask, write_seeds,
}
use icore_tax_gateway.Cluster.Send.Loop.{
  crashed, returned, then_round, enter_multi, is_failure, leave, repeat, respond, send_loop,
  cluster_send_command,
}
use icore_tax_gateway.Cluster.Send.Returns.{not_reading, followed_nowhere}
use icore_tax_gateway.Cluster.Send.Moved.{told, moved_flags, take_moved, round_taken, sent_to}

-- The state once the connection of a node is found lost.
abbrev pub lost : ℕ → RedisCluster → RedisCluster
lost s c = set_mode s atomic (sent_to s c)

module _ (w : World) where
  not_written :
      (s : ℕ) (c : RedisCluster)
      → w.writes ((s, command) ∷ c.sent) ≡ closed
      → send_payload w s command c ≡ (lost s c, false)
  unfolding send_payload finish_send
  not_written s c e = rw (e, send_payload, finish_send) refl

  to_seed :
      (s seed : ℕ) (key : Bytes) (nodes : List (Bytes × ℕ)) (c : RedisCluster)
      → (seed == s) ≡ false
      → (c.keys.heap seed).slave ≡ false
      → w.writes ((seed, command) ∷ c.sent) ≡ whole
      → write_seeds w s ((key, seed) ∷ nodes) c
        ≡ (record (sent_to seed c) { cmd_slot = (c.keys.heap seed).slot; cmd_sock = seed }, true)
  unfolding write_seeds send_payload finish_send
  to_seed s seed key nodes c other is_master e = rw (other, is_master, e, finish_send) refl

  abbrev pub stray : ℕ → RedisCluster → RedisCluster
  stray seed c = record (sent_to seed (lost c.cmd_sock c)) {
    cmd_slot = (c.keys.heap seed).slot;
    cmd_sock = seed;
  }

  strayed :
      (seed : ℕ) (key : Bytes) (nodes : List (Bytes × ℕ)) (c : RedisCluster)
      → c.readonly ≡ false
      → is_ask c.flags.redir_type ≡ false
      → c.keys.nodes ≡ (key, seed) ∷ nodes
      → (seed == c.cmd_sock) ≡ false
      → (c.keys.heap seed).slave ≡ false
      → w.writes ((c.cmd_sock, command) ∷ c.sent) ≡ closed
      → w.writes ((seed, command) ∷ (c.cmd_sock, command) ∷ c.sent) ≡ whole
      → cluster_sock_write w false c ≡ some (stray seed c, true)
  unfolding cluster_sock_write write_asked write_chosen fall_back set_mode
  strayed seed key nodes c writing direct table other is_master e next =
      rw (not_reading c writing, direct, not_written c.cmd_sock c e)
        (ap some (
          ap (λ l. write_seeds w c.cmd_sock l (lost c.cmd_sock c)) table
          ∙ to_seed c.cmd_sock seed key nodes (lost c.cmd_sock c) other is_master next))

  -- In a transaction of the cluster, for a command that is no read, with no ASK left behind, on a node that has
  -- taken MULTI: if the connection to this node is found closed, and the first entry of the table of nodes is
  -- another master, which takes the command and answers it with a line that is no error, then no MULTI is sent to
  -- that master, its answer is returned as a success, and its connection is in the mode that it was in.
  pub multi_strays :
      (fuel slot s seed : ℕ) (key : Bytes) (nodes : List (Bytes × ℕ)) (type : ℕ) (line : Bytes)
      (c : RedisCluster)
      → c.keys.master slot ≡ some s
      → is_multi c.mode ≡ true
      → is_multi (c.sock_mode s) ≡ true
      → c.readonly ≡ false
      → is_ask c.flags.redir_type ≡ false
      → c.keys.nodes ≡ (key, seed) ∷ nodes
      → seed ≢ s
      → (c.keys.heap seed).slave ≡ false
      → w.writes ((s, command) ∷ c.sent) ≡ closed
      → w.writes ((seed, command) ∷ (s, command) ∷ c.sent) ≡ whole
      → w.answers ((seed, command) ∷ (s, command) ∷ c.sent) ≡ first_line type line
      → (c' : RedisCluster) × (cluster_send_command w (suc fuel) slot c ≡ returned c' true)
        × (c'.sent ≡ (seed, command) ∷ (s, command) ∷ c.sent)
        × (c'.sock_mode seed ≡ c.sock_mode seed)
        × (c'.reply_type ≡ type)
        × (c'.line_reply ≡ line)
  unfolding cluster_send_command sock_of_slot set_mode send_loop enter_multi then_round
      cluster_check_response respond leave is_failure take_answer clear_reply
  multi_strays fuel slot s seed key nodes type line c owned queued entered writing direct table
        differs is_master e next answer =
      let c₀ : RedisCluster = record c { cmd_slot = slot; cmd_sock = s } in
      let other : (seed == s) ≡ false = ground arith in
      let d = (take_answer (clear_reply (stray seed c₀)) (first_line type line)).0 in
      let looped : send_loop w (suc fuel) slot (w.mstime c.sent) c₀
          ≡ returned (record d { flags = record d.flags { redir_type = redir_none } }) true =
        rw (queued, entered, then_round)
          (ap
              (λ r. then_round r (λ x.
                respond w (send_loop w fuel slot (w.mstime c.sent)) slot (w.mstime c.sent)
                  (cluster_check_response w x)))
              (strayed seed key nodes c₀ writing direct table other is_master e next)
            ∙ rw (answer, take_answer) refl) in
      (
        record d { flags = record d.flags { redir_type = redir_none } },
        rw (owned, cluster_send_command) looped,
        refl,
        rw other refl,
        refl,
        refl,
      )

  remapped :
      (f : ClusterFlags) (k : Keyspace) (s : ℕ)
      → k.master f.redir_slot ≡ some s
      → is_redirected_to f (k.heap s) ≡ false
      → cluster_find_node f.redir_host f.redir_port k ≡ none
      → is_replica f k (k.heap s).slaves ≡ true
      → update_inside w.map_keyspace f k ≡ w.map_keyspace k
  unfolding update_inside
  remapped f k s owned differs unknown replica =
      rw (owned, update_inside, differs, unknown, replica) refl

  -- Outside MULTI, for a command that is no read, with no ASK left behind: the node of one of the slots takes it
  -- and answers that the slot has moved to an address (a host of at most 254 bytes, none of them zero) that is
  -- not its own and not in the table of nodes, but that of one of its slaves, as after a failover; and mapping the
  -- keyspace again leaves the slot to no node. Then the loop follows a NULL pointer, whatever the fuel.
  pub unmapped_crashes :
      (fuel slot s : ℕ) (host : Bytes) (port : ℕ) (c : RedisCluster)
      → is_multi c.mode ≡ false
      → c.readonly ≡ false
      → is_ask c.flags.redir_type ≡ false
      → c.keys.master slot ≡ some s
      → is_redirected_to (moved_flags c.flags slot host port) (c.keys.heap s) ≡ false
      → cluster_find_node host port c.keys ≡ none
      → is_replica (moved_flags c.flags slot host port) c.keys (c.keys.heap s).slaves ≡ true
      → (w.map_keyspace c.keys).master slot ≡ none
      → slot < cluster_slots
      → port < 2 ^ 16
      → length host ≤ 254
      → Lacks 0 host
      → w.writes ((s, command) ∷ c.sent) ≡ whole
      → w.answers ((s, command) ∷ c.sent) ≡ error_line (redirection true slot host port)
      → cluster_send_command w (suc fuel) slot c ≡ crashed
  unfolding cluster_send_command sock_of_slot respond update_inside repeat clear_reply
      count_redirection
  unmapped_crashes fuel slot s host port c single writing direct owned differs unknown replica
        unmapped hs hp short h e answer =
      let c₀ : RedisCluster = record c { cmd_slot = slot; cmd_sock = s } in
      let f = moved_flags c.flags slot host port in
      let gone : (update_inside w.map_keyspace f c.keys).master slot ≡ none =
        ap (λ k. k.master slot) (remapped f c.keys s owned differs unknown replica) ∙ unmapped in
      rw (owned, cluster_send_command)
        (round_taken w fuel slot (w.mstime c.sent) c₀ (error_line (redirection true slot host port))
            single writing direct e answer
          ∙ ap (respond w (send_loop w fuel slot (w.mstime c.sent)) slot (w.mstime c.sent))
              (take_moved w s slot host port c₀ (omega arith) hp short h)
          ∙ rw (single, followed_nowhere w slot (told w s slot host port c₀) (hs, refl) gone) refl)
