-- ===== src/Cluster/Send/Moved.antt =====
-- A command to a slot that has moved, and what happens where a node cannot be reached.
use icore_tax_gateway.Base.{arith}
use icore_tax_gateway.Base.{
  ℕ, suc, ◌+◌, ◌^◌, ◌%◌, ◌≤◌, ◌<◌, ◌≡◌, refl, ap, sym, ◌∙◌, subst, true, false, Option, some, ◌∷◌,
  Bytes, length,
}
use icore_tax_gateway.Base.Text.{Lacks}
use icore_tax_gateway.Cluster.Abort.{is_multi}
use icore_tax_gateway.Cluster.Redirect.{
  ClusterFlags, redir_none, redir_moved, redirected, count_redirection,
}
use icore_tax_gateway.Cluster.Redirect.Parse.{redirection}
use icore_tax_gateway.Cluster.Redirect.Errors.{cleared, redirection_followed}
use icore_tax_gateway.Cluster.Slots.{update_inside, is_replica}
use icore_tax_gateway.Cluster.Slots.Points.{IsKeyed, Redirected, update_inside-Redirected}
use icore_tax_gateway.Cluster.Send.Returns.{followed_moved}
use icore_tax_gateway.Cluster.HashKey.{cluster_slots}
use icore_tax_gateway.Cluster.Send.{
  RedisCluster, World, NodeAnswer, sock_of_slot, clear_reply, take_answer, cluster_check_response,
  command, whole, error_line, first_line, send_payload, finish_send,
}
use icore_tax_gateway.Cluster.Send.Write.{
  cluster_sock_write, write_asked, fall_back, write_chosen, is_ask,
}
use icore_tax_gateway.Cluster.Send.Loop.{
  returned, then_round, enter_multi, update_map, is_timed_out, is_failure, leave, repeat, respond,
  send_loop, cluster_send_command,
}
use icore_tax_gateway.Cluster.Send.Returns.{not_reading}

abbrev pub sent_to : ℕ → RedisCluster → RedisCluster
sent_to s c = record c { sent = (s, command) ∷ c.sent }

-- The flags after MOVED.
abbrev pub moved_flags : ClusterFlags → ℕ → Bytes → ℕ → ClusterFlags
moved_flags f slot host port = record (count_redirection true (cleared f)) {
  redir_type = redir_moved;
  redir_host = host;
  redir_host_len = length host;
  redir_slot = slot;
  redir_port = port;
}

same_owner : (s owner : ℕ) → ◌≡◌ {A = Option ℕ} (some s) (some owner) → s ≡ owner
same_owner s owner e = cc

module _ (w : World) where
  written_whole :
      (s : ℕ) (c : RedisCluster)
      → w.writes ((s, command) ∷ c.sent) ≡ whole
      → send_payload w s command c ≡ (sent_to s c, true)
  unfolding send_payload finish_send
  written_whole s c e = rw (e, send_payload, finish_send) refl

  sock_write-whole :
      (c : RedisCluster)
      → c.readonly ≡ false
      → is_ask c.flags.redir_type ≡ false
      → w.writes ((c.cmd_sock, command) ∷ c.sent) ≡ whole
      → cluster_sock_write w false c ≡ some (sent_to c.cmd_sock c, true)
  unfolding cluster_sock_write write_asked write_chosen fall_back
  sock_write-whole c writing direct e =
      rw (not_reading c writing, direct, written_whole c.cmd_sock c e) refl

  -- A round in which the node takes the command.
  pub round_taken :
      (fuel slot msstart : ℕ) (c : RedisCluster) (a : NodeAnswer)
      → is_multi c.mode ≡ false
      → c.readonly ≡ false
      → is_ask c.flags.redir_type ≡ false
      → w.writes ((c.cmd_sock, command) ∷ c.sent) ≡ whole
      → w.answers ((c.cmd_sock, command) ∷ c.sent) ≡ a
      → send_loop w (suc fuel) slot msstart c
        ≡ respond w
            (send_loop w fuel slot msstart)
            slot
            msstart
            (take_answer (clear_reply (sent_to c.cmd_sock c)) a)
  unfolding send_loop enter_multi then_round cluster_check_response
  round_taken fuel slot msstart c a single writing direct e answer =
      rw (single, sock_write-whole c writing direct e, then_round)
        (ap
          (λ x.
            respond w (send_loop w fuel slot msstart) slot msstart
              (take_answer (clear_reply (sent_to c.cmd_sock c)) x))
          answer)

  -- The answer of a node that has the slot.
  round_answered :
      (fuel slot msstart : ℕ) (c : RedisCluster) (type : ℕ) (line : Bytes)
      → is_multi c.mode ≡ false
      → c.readonly ≡ false
      → is_ask c.flags.redir_type ≡ false
      → w.writes ((c.cmd_sock, command) ∷ c.sent) ≡ whole
      → w.answers ((c.cmd_sock, command) ∷ c.sent) ≡ first_line type line
      → (c' : RedisCluster) × (send_loop w (suc fuel) slot msstart c ≡ returned c' true)
        × (c'.keys ≡ c.keys)
        × (c'.sent ≡ (c.cmd_sock, command) ∷ c.sent)
        × (c'.reply_type ≡ type)
        × (c'.line_reply ≡ line)
        × (c'.flags.redirections ≡ c.flags.redirections)
  unfolding respond leave is_failure take_answer clear_reply
  round_answered fuel slot msstart c type line single writing direct e answer =
      let d = (take_answer (clear_reply (sent_to c.cmd_sock c)) (first_line type line)).0 in
      (
        record d { flags = record d.flags { redir_type = redir_none } },
        round_taken fuel slot msstart c (first_line type line) single writing direct e answer,
        refl,
        refl,
        refl,
        refl,
        refl,
      )

  -- What the state is after MOVED, before the map is updated.
  abbrev pub told : ℕ → ℕ → Bytes → ℕ → RedisCluster → RedisCluster
  told s slot host port c = record (clear_reply (sent_to s c)) {
    flags = moved_flags c.flags slot host port;
    reply_type = b'-';
  }

  pub take_moved :
      (s slot : ℕ) (host : Bytes) (port : ℕ) (c : RedisCluster)
      → slot < 2 ^ 16
      → port < 2 ^ 16
      → length host ≤ 254
      → Lacks 0 host
      → take_answer (clear_reply (sent_to s c)) (error_line (redirection true slot host port))
        ≡ (told s slot host port c, redirected)
  unfolding take_answer clear_reply
  take_moved s slot host port c hs hp short h =
      ap (λ r. (record (clear_reply (sent_to s c)) { flags = r.0; reply_type = b'-' }, r.1))
        (redirection_followed (clear_reply c).flags true slot host port hs hp short h)

  -- The map of slots is updated.
  abbrev mapped : RedisCluster → RedisCluster
  mapped c = record c { keys = update_inside w.map_keyspace c.flags c.keys }

  round_moved :
      (fuel slot msstart : ℕ) (host : Bytes) (port node : ℕ) (c : RedisCluster)
      → is_multi c.mode ≡ false
      → c.readonly ≡ false
      → is_ask c.flags.redir_type ≡ false
      → w.writes ((c.cmd_sock, command) ∷ c.sent) ≡ whole
      → w.answers ((c.cmd_sock, command) ∷ c.sent) ≡ error_line (redirection true slot host port)
      → slot < cluster_slots
      → port < 2 ^ 16
      → length host ≤ 254
      → Lacks 0 host
      → is_timed_out w msstart (sent_to c.cmd_sock c) ≡ false
      → (mapped (told c.cmd_sock slot host port c)).keys.master slot ≡ some node
      → send_loop w (suc fuel) slot msstart c
        ≡ send_loop w fuel slot msstart
            (record (mapped (told c.cmd_sock slot host port c)) { cmd_sock = node })
  unfolding respond sock_of_slot repeat is_timed_out clear_reply count_redirection
  round_moved fuel slot msstart host port node c single writing direct e answer hs hp short h early
        owned =
      round_taken fuel slot msstart c (error_line (redirection true slot host port)) single writing
        direct e answer
      ∙ ap (respond w (send_loop w fuel slot msstart) slot msstart)
          (take_moved c.cmd_sock slot host port c (omega arith) hp short h)
      ∙ rw (single, followed_moved w slot node (told c.cmd_sock slot host port c) (hs, refl) owned)
          (rw early refl)

  -- One of the 16384 slots has moved: its node answers MOVED, to a node that is no slave of it, and whichever node
  -- has the new address takes the command and answers. Outside MULTI, with a command that is no read and no ASK
  -- left behind, and if the limit on the time is not passed, two rounds are enough: the command is sent twice, the
  -- slot belongs to the new node and other slots to whom they did, the answer of that node is in the state, and one
  -- redirection is counted.
  pub send_command-follows_moved :
      (fuel slot s : ℕ) (host : Bytes) (port type : ℕ) (line : Bytes) (c : RedisCluster)
      → is_multi c.mode ≡ false
      → c.readonly ≡ false
      → is_ask c.flags.redir_type ≡ false
      → IsKeyed c.keys
      → c.keys.master slot ≡ some s
      → is_replica (moved_flags c.flags slot host port) c.keys (c.keys.heap s).slaves ≡ false
      → slot < cluster_slots
      → port < 2 ^ 16
      → length host ≤ 254
      → Lacks 0 host
      → w.writes ((s, command) ∷ c.sent) ≡ whole
      → w.answers ((s, command) ∷ c.sent) ≡ error_line (redirection true slot host port)
      → is_timed_out w (w.mstime c.sent) (sent_to s c) ≡ false
      → ((n : ℕ)
          → (w.writes ((n, command) ∷ (s, command) ∷ c.sent) ≡ whole)
            × (w.answers ((n, command) ∷ (s, command) ∷ c.sent) ≡ first_line type line))
      → (c' : RedisCluster) × (cluster_send_command w (suc (suc fuel)) slot c ≡ returned c' true)
        × Redirected (moved_flags c.flags slot host port) c.keys c'.keys
        × ((n : ℕ) × (c'.keys.master slot ≡ some n)
            × (c'.sent ≡ (n, command) ∷ (s, command) ∷ c.sent))
        × (c'.reply_type ≡ type)
        × (c'.line_reply ≡ line)
        × (c'.flags.redirections ≡ (c.flags.redirections + 1) % 2 ^ 64)
  unfolding cluster_send_command sock_of_slot update_map is_ask is_timed_out clear_reply
      count_redirection
  send_command-follows_moved fuel slot s host port type line c single writing direct keyed owned
        no_failover hs hp short h e answer early next =
      let f = moved_flags c.flags slot host port in
      let c₀ : RedisCluster = record c { cmd_slot = slot; cmd_sock = s } in
      let redirected_map : Redirected f c.keys (update_inside w.map_keyspace f c.keys) =
        update_inside-Redirected w.map_keyspace f c.keys keyed (λ owner has.
          subst (λ o. is_replica f c.keys (c.keys.heap o).slaves ≡ false)
            (same_owner s owner (sym owned ∙ has)) no_failover) in
      let (n, points, _, _) = redirected_map.points in
      let d : RedisCluster = record (mapped (told s slot host port c₀)) { cmd_sock = n } in
      let (c', ends, keys, sent, types, lines, count) =
        round_answered fuel slot (w.mstime c.sent) d type line single writing refl (next n).0
          (next n).1 in
      (
        c',
        rw (owned, cluster_send_command)
            (round_moved (suc fuel) slot (w.mstime c.sent) host port n c₀ single writing direct e
                answer hs hp short h early points
              ∙ ends),
        subst (Redirected f c.keys) (sym keys) redirected_map,
        (n, ap (λ k. k.master slot) keys ∙ points, sent),
        types,
        lines,
        count,
      )
