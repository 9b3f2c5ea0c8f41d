-- ===== src/Cluster/Send/Tests.antt =====
-- The theorems on commands to the cluster at concrete inputs.
use icore_tax_gateway.Base.{subst, sym}
use icore_tax_gateway.Cluster.Send.Returns.{RedirectsInside, IsInside}
use icore_tax_gateway.Cluster.Redirect.{check_error_line, Response, redirected}
use icore_tax_gateway.Cluster.Redirect.Errors.{redirection_followed}
use icore_tax_gateway.Base.{
  ℕ, ◌+◌, ◌≡◌, ◌%◌, ◌^◌, refl, true, false, none, some, List, [], ◌∷◌, Bytes, codes, arith, length,
  ◌==◌, if◌then◌else◌,
}
use icore_tax_gateway.Base.Int.{pos}
use icore_tax_gateway.Base.Text.{bytes_eq}
use icore_tax_gateway.Zend.Decimal.{decimal}
use icore_tax_gateway.Cluster.Abort.{atomic, multi, is_multi}
use icore_tax_gateway.Cluster.Redirect.{ClusterFlags, redir_none}
use icore_tax_gateway.Cluster.Redirect.Parse.{redirection}
use icore_tax_gateway.Cluster.Slots.{
  ClusterNode, Keyspace, node_key, is_replica, is_redirected_to, cluster_find_node, find_key,
}
use icore_tax_gateway.Cluster.Slots.Points.{IsKeyed, Redirected}
use icore_tax_gateway.Cluster.Send.{
  RedisCluster, World, History, NodeAnswer, Written, failover_none, command, whole, closed,
  error_line, first_line, clear_reply, take_answer, cluster_check_response, send_payload,
  finish_send, sock_of_slot,
}
use icore_tax_gateway.Cluster.Send.Write.{
  is_ask, cluster_sock_write, write_asked, write_chosen, fall_back, chosen_failover,
}
use icore_tax_gateway.Cluster.Send.Loop.{
  crashed, returned, cluster_send_command, send_loop, enter_multi, then_round, respond, leave,
  is_failure, is_timed_out,
}
use icore_tax_gateway.Cluster.Send.Ends.{IsAnswered, send_command-IsAnswered}
use icore_tax_gateway.Cluster.Send.Returns.{Returned, send_command-Returned}
use icore_tax_gateway.Cluster.Send.Moved.{moved_flags, send_command-follows_moved}
use icore_tax_gateway.Cluster.Send.Strays.{multi_strays, unmapped_crashes}

abbrev node_at : Bytes → ℕ → List ℕ → ClusterNode
node_at host port slaves = record {
  host = host;
  port = port;
  slot = 7;
  slots = (0, 9) ∷ [];
  slave = false;
  slaves = slaves;
}

-- Node 0 has all slots and node 1 as a slave; node 2 is another master of the table.
abbrev nodes : Keyspace
nodes = record {
  heap = λ i.
      if i == 0
      then node_at (codes "10.0.0.1") 7000 (1 ∷ [])
      else if i == 1
      then node_at (codes "10.0.0.2") 7001 []
      else node_at (codes "10.0.0.3") 7002 [];
  next = 3;
  nodes = (codes "10.0.0.3:7002", 2) ∷ (codes "10.0.0.1:7000", 0) ∷ [];
  master = λ j. some 0;
}

nodes-IsKeyed : IsKeyed nodes
nodes-IsKeyed = record {
  entries = (
    (unfold node_key in unfold decimal in refl, omega arith),
    ((unfold node_key in unfold decimal in refl, omega arith), tt),
  );
}

abbrev no_flags : ClusterFlags
no_flags = record {
  redirections = 0;
  redir_type = redir_none;
  redir_host = [];
  redir_host_len = 0;
  redir_slot = 0;
  redir_port = 0;
  err = none;
  clusterdown = false;
}

abbrev at_rest : RedisCluster
at_rest = record {
  keys = nodes;
  flags = no_flags;
  mode = atomic;
  sock_mode = λ s. atomic;
  sock_readonly = λ s. false;
  cmd_slot = 0;
  cmd_sock = 0;
  readonly = false;
  failover = failover_none;
  waitms = 5;
  reply_type = 0;
  reply_len = pos 0;
  line_reply = [];
  sent = [];
}

-- Every node takes every payload, and says OK.
abbrev agreeing : World
agreeing = record {
  writes = λ h. whole;
  answers = λ h. first_line b'+' (codes "OK");
  draw = λ h n. 0;
  mstime = λ h. length h;
  map_keyspace = λ k. k;
}

-- The first payload is answered by MOVED.
abbrev first_moved : ℕ → History → NodeAnswer
first_moved port (a ∷ []) = error_line (redirection true 7 (codes "10.0.0.2") port)
first_moved port _ = first_line b'+' (codes "OK")

abbrev redirecting : World
redirecting = record agreeing { answers = first_moved 7009 }

-- The same, and mapping the keyspace finds nothing.
abbrev unmapping : World
unmapping = record agreeing {
  answers = first_moved 7001;
  map_keyspace = λ k. record k { master = λ j. none };
}

-- The first payload finds the connection lost.
abbrev first_lost : History → Written
first_lost (a ∷ []) = closed
first_lost _ = whole

abbrev losing : World
losing = record agreeing { writes = first_lost }

abbrev in_multi : RedisCluster
in_multi = record at_rest { mode = multi; sock_mode = λ s. if s == 0 then multi else atomic }

abbrev answered : RedisCluster
answered = record at_rest {
  cmd_slot = 7;
  reply_type = b'+';
  reply_len = pos 2;
  line_reply = codes "OK";
  sent = (0, command) ∷ [];
}

send_command-IsAnswered_example : IsAnswered agreeing answered
send_command-IsAnswered_example = send_command-IsAnswered agreeing 1 7 at_rest answered (
    unfold cluster_send_command send_loop sock_of_slot enter_multi is_multi then_round
      cluster_sock_write write_asked write_chosen fall_back chosen_failover is_ask send_payload
      finish_send cluster_check_response take_answer clear_reply respond leave is_failure in
    refl)

-- The one redirection names a slot and a host that fits.
redirecting-RedirectsInside : RedirectsInside redirecting
redirecting-RedirectsInside f [] line e = cc
redirecting-RedirectsInside f (a ∷ b ∷ h) line e = cc
redirecting-RedirectsInside f (a ∷ []) line e =
    subst (λ l. (check_error_line f l).1 ≡ redirected → IsInside (check_error_line f l).0)
      (error_line-inj e)
      (subst (λ (r : ClusterFlags × Response). r.1 ≡ redirected → IsInside r.0)
        (sym (
          redirection_followed f true 7 (codes "10.0.0.2") 7009 (omega arith) (omega arith)
            (omega arith) (omega arith)))
        (λ same. (omega arith, refl)))
  where
    error_line-inj : {a b : Bytes} → error_line a ≡ error_line b → a ≡ b
    error_line-inj e = cc

send_command-Returned_example : Returned (cluster_send_command redirecting 6 7 at_rest)
send_command-Returned_example =
    send_command-Returned redirecting 6 7 5 at_rest (λ k covered. covered)
      (λ h long. omega (arith, long)) (omega arith) redirecting-RedirectsInside refl (0, refl)
      (omega arith)

send_command-follows_moved_example :
    (c' : RedisCluster) × (cluster_send_command redirecting 2 7 at_rest ≡ returned c' true)
    × Redirected (moved_flags no_flags 7 (codes "10.0.0.2") 7009) nodes c'.keys
    × ((n : ℕ) × (c'.keys.master 7 ≡ some n) × (c'.sent ≡ (n, command) ∷ (0, command) ∷ []))
    × (c'.reply_type ≡ b'+')
    × (c'.line_reply ≡ codes "OK")
    × (c'.flags.redirections ≡ (0 + 1) % 2 ^ 64)
send_command-follows_moved_example =
    send_command-follows_moved redirecting 0 7 0 (codes "10.0.0.2") 7009 b'+' (codes "OK") at_rest
      (unfold is_multi in refl) refl (unfold is_ask in refl) nodes-IsKeyed refl
      (unfold is_replica is_redirected_to in refl) (omega arith) (omega arith) (omega arith)
      (omega arith) refl refl (unfold is_timed_out in refl) (λ n. (refl, refl))

multi_strays_example :
    (c' : RedisCluster) × (cluster_send_command losing 1 7 in_multi ≡ returned c' true)
    × (c'.sent ≡ (2, command) ∷ (0, command) ∷ [])
    × (c'.sock_mode 2 ≡ atomic)
    × (c'.reply_type ≡ b'+')
    × (c'.line_reply ≡ codes "OK")
multi_strays_example =
    multi_strays losing 0 7 0 2 (codes "10.0.0.3:7002") ((codes "10.0.0.1:7000", 0) ∷ []) b'+'
      (codes "OK") in_multi refl (unfold is_multi in refl) (unfold is_multi in refl) refl
      (unfold is_ask in refl) refl (λ h. absurd (omega arith)) refl refl refl refl

unmapped_crashes_example : cluster_send_command unmapping 1 7 at_rest ≡ crashed
unmapped_crashes_example =
    unmapped_crashes unmapping 0 7 0 (codes "10.0.0.2") 7001 at_rest (unfold is_multi in refl) refl
      (unfold is_ask in refl) refl (unfold is_redirected_to in refl)
      (unfold cluster_find_node find_key node_key bytes_eq in unfold decimal in refl)
      (unfold is_replica is_redirected_to bytes_eq in refl) refl (omega arith) (omega arith)
      (omega arith) (omega arith) refl refl
