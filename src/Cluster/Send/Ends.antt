-- ===== src/Cluster/Send/Ends.antt =====
-- What holds when cluster_send_command returns, and that it does.
use icore_tax_gateway.Base.{
  ℕ, zero, suc, ◌≡◌, ◌≢◌, refl, ap, sym, ◌∙◌, subst, Bool, true, false, ◌&&◌, ◌||◌, not, Option,
  none, some, ◌∷◌, Bytes, arith, length, Bool-cases, Option-cases, inl, inr, if◌then◌else◌, codes,
}
use icore_tax_gateway.Base.Text.{starts_with}
use icore_tax_gateway.Cluster.Abort.{is_multi}
use icore_tax_gateway.Cluster.Redirect.{
  ClusterFlags, redir_none, Response, proceed, redirected, failed, check_error_line,
  redirection_result,
}
use icore_tax_gateway.Cluster.Send.{
  RedisCluster, World, History, NodeAnswer, nothing, cut, error_line, first_line, sock_of_slot,
  clear_reply, take_answer, cluster_check_response, command,
}
use icore_tax_gateway.Cluster.Send.Write.{cluster_sock_write}
use icore_tax_gateway.Cluster.Send.Loop.{
  SendOutcome, out_of_fuel, crashed, returned, then_round, drop_connection, enter_multi, follow,
  is_timed_out, is_failure, leave, repeat, respond, send_loop, cluster_send_command,
}
use icore_tax_gateway.Cluster.Send.Kept.{LastSent, Tried, sock_write-Tried}

-- The reply that stands in the state is this answer, and no redirection.
abbrev pub Reported : RedisCluster → NodeAnswer → Type 0
Reported c nothing = ⊥
Reported c cut = ⊥
Reported c (error_line inbuf) =
    (c.reply_type ≡ b'-')
    × (starts_with inbuf (codes "MOVED ") ≡ false)
    × (starts_with inbuf (codes "ASK ") ≡ false)
Reported c (first_line type line) =
    (c.reply_type ≡ type) × (c.line_reply ≡ line) × (c.flags.err ≡ none)

-- The last payload is the command, to the connection that the cluster points to; the reply in the state
-- is what came for it; no redirection is left, and the cluster is not known to be down.
pub record IsAnswered (w : World) (c : RedisCluster) : Type 0 where
  pub older : History
  pub last : c.sent ≡ (c.cmd_sock, command) ∷ older
  pub reported : Reported c (w.answers c.sent)
  pub settled : c.flags.redir_type ≡ redir_none
  pub up : c.flags.clusterdown ≡ false

abbrev pub Answered : World → SendOutcome → Type 0
Answered w (returned c true) = IsAnswered w c
Answered w (returned c false) = Unit
Answered w crashed = Unit
Answered w out_of_fuel = Unit

-- The type of the redirection is no part of a reply.
Reported-settled :
    (c : RedisCluster) (a : NodeAnswer)
    → Reported c a
    → Reported (record c { flags = record c.flags { redir_type = redir_none } }) a
Reported-settled c nothing r = r
Reported-settled c cut r = r
Reported-settled c (error_line inbuf) r = r
Reported-settled c (first_line type line) r = r

no_proceed : (r : ClusterFlags × Bool) → (redirection_result r).1 ≢ proceed
no_proceed (c, true) e = cc
no_proceed (c, false) e = cc

error-Reported :
    (f : ClusterFlags) (inbuf : Bytes)
    → (check_error_line f inbuf).1 ≡ proceed
    → (starts_with inbuf (codes "MOVED ") ≡ false) × (starts_with inbuf (codes "ASK ") ≡ false)
unfolding check_error_line
error-Reported f inbuf e = elim (Bool-cases (starts_with inbuf (codes "MOVED "))) [
  | inl m ↦ absurd (no_proceed _ (rw m at e))
  | inr m ↦ elim (Bool-cases (starts_with inbuf (codes "ASK "))) [
    | inl a ↦ absurd (no_proceed _ (rw (m, a) at e))
    | inr a ↦ (m, a)
  ]
]

take_answer-Reported :
    (c : RedisCluster) (a : NodeAnswer)
    → (take_answer (clear_reply c) a).1 ≡ proceed
    → Reported (take_answer (clear_reply c) a).0 a
unfolding take_answer clear_reply
take_answer-Reported c nothing e = cc
take_answer-Reported c cut e = cc
take_answer-Reported c (error_line inbuf) e =
    let (m, a) = error-Reported (record c.flags { err = none; clusterdown = false }) inbuf e in
    (refl, m, a)
take_answer-Reported c (first_line type line) e = (refl, refl, refl)

-- A reply changes neither what was sent nor where to, nor the map of slots and the mode.
pub take_answer-same :
    (c : RedisCluster) (a : NodeAnswer)
    → ((take_answer (clear_reply c) a).0.sent ≡ c.sent)
      × ((take_answer (clear_reply c) a).0.cmd_sock ≡ c.cmd_sock)
      × ((take_answer (clear_reply c) a).0.keys ≡ c.keys)
      × ((take_answer (clear_reply c) a).0.mode ≡ c.mode)
      × ((take_answer (clear_reply c) a).0.waitms ≡ c.waitms)
      × ((take_answer (clear_reply c) a).0.readonly ≡ c.readonly)
unfolding take_answer clear_reply
take_answer-same c nothing = (refl, refl, refl, refl, refl, refl)
take_answer-same c cut = (refl, refl, refl, refl, refl, refl)
take_answer-same c (error_line inbuf) = (refl, refl, refl, refl, refl, refl)
take_answer-same c (first_line type line) = (refl, refl, refl, refl, refl, refl)

module _ (w : World) where
  leave_failed-Answered :
      (timedout : Bool) (resp : Response) (c : RedisCluster)
      → (c.flags.clusterdown || (timedout || is_failure resp)) ≡ true
      → Answered w (leave timedout resp c)
  unfolding leave is_failure
  leave_failed-Answered timedout resp c h =
      at_end c.flags.clusterdown (timedout || is_failure resp) h
    where
      at_end :
          (down bad : Bool)
          → (down || bad) ≡ true
          → Answered w (
              if down
              then returned c false
              else if bad
              then returned (drop_connection c) false
              else returned (record c { flags = record c.flags { redir_type = redir_none } }) true)
      at_end true bad h = tt
      at_end false true h = tt
      at_end false false h = absurd (cc)

  repeat-Answered :
      (again : RedisCluster → SendOutcome) (msstart : ℕ) (c : Option RedisCluster)
      → ((d : RedisCluster) → Answered w (again d))
      → Answered w (repeat w again msstart c)
  unfolding repeat
  repeat-Answered again msstart none h = tt
  repeat-Answered again msstart (some c) h =
      elim (Bool-cases (not c.flags.clusterdown && not (is_timed_out w msstart c))) [
        | inl e ↦ rw e (h c)
        | inr e ↦
            rw e (leave_failed-Answered (is_timed_out w msstart c) redirected c (ground arith))
      ]

  -- A reply that ends the loop.
  leave_proceed-Answered :
      (c : RedisCluster)
      → LastSent c 0
      → Reported c (w.answers c.sent)
      → Answered w (leave false proceed c)
  unfolding leave is_failure
  leave_proceed-Answered c l r = at_end c.flags.clusterdown refl
    where
      at_end :
          (down : Bool)
          → c.flags.clusterdown ≡ down
          → Answered w (
              if down
              then returned c false
              else returned (record c { flags = record c.flags { redir_type = redir_none } }) true)
      at_end true e = tt
      at_end false e = record {
        older = l.older;
        last = l.last;
        reported = Reported-settled c (w.answers c.sent) r;
        settled = refl;
        up = e;
      }

  respond-Answered :
      (again : RedisCluster → SendOutcome) (slot msstart : ℕ) (c : RedisCluster) (r : Response)
      → ((d : RedisCluster) → Answered w (again d))
      → LastSent c 0
      → (r ≡ proceed → Reported c (w.answers c.sent))
      → Answered w (respond w again slot msstart (c, r))
  unfolding respond is_failure
  respond-Answered again slot msstart c proceed h l rep = leave_proceed-Answered c l (rep refl)
  respond-Answered again slot msstart c failed h l rep =
      leave_failed-Answered false failed c (ground arith)
  respond-Answered again slot msstart c redirected h l rep = elim (Bool-cases (is_multi c.mode)) [
    | inl e ↦ rw e tt
    | inr e ↦ rw e (repeat-Answered again msstart (follow w c.flags.redir_type slot c) h)
  ]

  LastSent-same :
      (c d : RedisCluster) (n : ℕ)
      → LastSent c n
      → d.sent ≡ c.sent
      → d.cmd_sock ≡ c.cmd_sock
      → LastSent d 0
  LastSent-same c d n l sent same = record {
    older = l.older;
    last = sent ∙ l.last ∙ ap (λ s. (s, command) ∷ l.older) (sym same);
    after = omega arith;
  }

  checked-Answered :
      (again : RedisCluster → SendOutcome) (slot msstart : ℕ) (c : RedisCluster) (n : ℕ)
      → ((d : RedisCluster) → Answered w (again d))
      → LastSent c n
      → Answered w (respond w again slot msstart (cluster_check_response w c))
  unfolding cluster_check_response
  checked-Answered again slot msstart c n h l =
      let a = w.answers c.sent in
      let d = (take_answer (clear_reply c) a).0 in
      let (sent, same, _, _, _, _) = take_answer-same c a in
      respond-Answered again slot msstart d (take_answer (clear_reply c) a).1 h
        (LastSent-same c d n l sent same)
        (λ e. subst (λ h'. Reported d (w.answers h')) (sym sent) (take_answer-Reported c a e))

  written-Answered :
      (again : RedisCluster → SendOutcome) (slot msstart : ℕ) (c : RedisCluster)
      (r : Option (RedisCluster × Bool))
      → ((d : RedisCluster) → Answered w (again d))
      → Tried c r
      → Answered w (then_round r (λ d. respond w again slot msstart (cluster_check_response w d)))
  unfolding then_round
  written-Answered again slot msstart c none h t = tt
  written-Answered again slot msstart c (some (d, false)) h t = tt
  written-Answered again slot msstart c (some (d, true)) h t =
      checked-Answered again slot msstart d (length c.sent) h t.1

  entered-Answered :
      (next : RedisCluster → SendOutcome) (r : Option (RedisCluster × Bool))
      → ((d : RedisCluster) → Answered w (next d))
      → Answered w (then_round r next)
  unfolding then_round
  entered-Answered next none h = tt
  entered-Answered next (some (d, false)) h = tt
  entered-Answered next (some (d, true)) h = h d

  send_loop-Answered :
      (fuel slot msstart : ℕ) (c : RedisCluster) → Answered w (send_loop w fuel slot msstart c)
  unfolding send_loop
  send_loop-Answered zero slot msstart c = tt
  send_loop-Answered (suc fuel) slot msstart c = entered-Answered _ (enter_multi w slot c) (λ d.
      written-Answered (send_loop w fuel slot msstart) slot msstart d (cluster_sock_write w false d)
        (send_loop-Answered fuel slot msstart) (sock_write-Tried w false d))

  command-Answered :
      (fuel slot : ℕ) (c : RedisCluster) → Answered w (cluster_send_command w fuel slot c)
  unfolding cluster_send_command
  command-Answered fuel slot c = elim (Option-cases (sock_of_slot slot c)) [
    | inl e ↦ rw (e, cluster_send_command) tt
    | inr (s, e) ↦ rw (e, cluster_send_command) (send_loop-Answered fuel slot _ _)
  ]

  -- Whatever the nodes do, and however many redirections there are: if the result is 0, the command was
  -- the last payload sent, on the connection that the cluster points to; the reply in the state is what
  -- came for it, and no MOVED or ASK error; no redirection is left behind, and the cluster is not flagged
  -- as down.
  pub send_command-IsAnswered :
      (fuel slot : ℕ) (c c' : RedisCluster)
      → cluster_send_command w fuel slot c ≡ returned c' true
      → IsAnswered w c'
  send_command-IsAnswered fuel slot c c' e = subst (Answered w) e (command-Answered fuel slot c)
