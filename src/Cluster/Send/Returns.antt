-- ===== src/Cluster/Send/Returns.antt =====
-- That cluster_send_command returns.
use icore_tax_gateway.Base.{
  ℕ, zero, suc, ◌+◌, ◌≤◌, ◌<◌, ◌≡◌, refl, ap, sym, ◌∙◌, subst, Bool, true, false, ◌&&◌, ◌||◌, not,
  Option, none, some, arith, length, Bool-cases, Option-cases, inl, inr, if◌then◌else◌, ◌==◌,
}
use icore_tax_gateway.Cluster.Abort.{is_multi}
use icore_tax_gateway.Cluster.Redirect.{
  ClusterFlags, RedirType, redir_none, redir_moved, redir_ask, Response, proceed, redirected,
  failed, check_error_line,
}
use icore_tax_gateway.Cluster.Slots.{
  Keyspace, update_inside, is_held, cluster_find_node, cluster_node_create, serve_slot, serve_new,
  serve_untracked, is_redirected_to, is_replica, set_master, set_node, create_redirected,
  track_node,
}
use icore_tax_gateway.Cluster.Send.{
  NodeAnswer, nothing, cut, error_line, first_line, RedisCluster, World, History, sock_of_slot,
  clear_reply, take_answer, cluster_check_response, failover_none, cluster_send_multi,
  cluster_send_asking, send_payload, command,
}
use icore_tax_gateway.Cluster.Send.Write.{
  cluster_sock_write, chosen_failover, write_asked, fall_back, write_chosen, is_ask,
}
use icore_tax_gateway.Cluster.Send.Loop.{
  SendOutcome, out_of_fuel, crashed, returned, then_round, cluster_get_asking_node, drop_connection,
  enter_multi, update_map, use_slot, use_asking, follow, is_timed_out, is_failure, leave, repeat,
  respond, send_loop, cluster_send_command,
}
use icore_tax_gateway.Cluster.HashKey.{cluster_slots}
use icore_tax_gateway.Cluster.Slots.Points.{update_inside_lem}
use icore_tax_gateway.Base.{Bytes}
use icore_tax_gateway.Cluster.Send.Kept.{Kept, Tried, Stays, sock_write-Tried, enter_multi-Stays}
use icore_tax_gateway.Cluster.Send.Ends.{take_answer-same}

-- A node has the slot.
abbrev pub Covered : ℕ → Keyspace → Type 0
Covered slot c = (node : ℕ) × (c.master slot ≡ some node)

serve_slot-Covered :
    (f : ClusterFlags) (node slot : ℕ) (c : Keyspace)
    → Covered slot c
    → Covered slot (serve_slot f node c)
unfolding serve_slot set_master set_node
serve_slot-Covered f node slot c (owner, owned) = elim (Bool-cases (slot == f.redir_slot)) [
  | inl e ↦ (node, rw e refl)
  | inr e ↦ (owner, rw e owned)
]

-- A redirection takes no slot away, if mapping the keyspace again does not.
pub update_inside-Covered :
    (map_keyspace : Keyspace → Keyspace) (f : ClusterFlags) (slot : ℕ) (c : Keyspace)
    → ((k : Keyspace) → Covered slot k → Covered slot (map_keyspace k))
    → Covered slot c
    → Covered slot (update_inside map_keyspace f c)
unfolding update_inside
update_inside-Covered map_keyspace f slot c keeps covered =
    elim (Option-cases (c.master f.redir_slot)) [
      | inl unowned ↦ elim (Option-cases (cluster_find_node f.redir_host f.redir_port c)) [
        | inl unknown ↦ rw (unowned, update_inside, unknown) untracked
        | inr (node, known) ↦
            rw (unowned, update_inside, known) (serve_slot-Covered f node slot c covered)
      ]
      | inr (owner, owned) ↦ elim (Bool-cases (is_redirected_to f (c.heap owner))) [
        | inl same ↦ rw (owned, update_inside, same) covered
        | inr different ↦ elim (Option-cases (cluster_find_node f.redir_host f.redir_port c)) [
          | inr (node, known) ↦
              rw (owned, update_inside, different, known) (serve_slot-Covered f node slot c covered)
          | inl unknown ↦ elim (Bool-cases (is_replica f c (c.heap owner).slaves)) [
            | inl replica ↦ rw (owned, update_inside, different, unknown, replica) (keeps c covered)
            | inr fresh ↦ rw (owned, update_inside, different, unknown, fresh) new
          ]
        ]
      ]
    ]
  where
    fresh_or_kept :
        (node : ℕ)
        → Covered slot
            (record c { master = λ i. if i == f.redir_slot then some node else c.master i })
    fresh_or_kept node = elim (Bool-cases (slot == f.redir_slot)) [
      | inl e ↦ (node, rw e refl)
      | inr e ↦ (covered.0, rw e covered.1)
    ]

    untracked : Covered slot (serve_untracked f c)
    untracked =
        unfold serve_untracked create_redirected cluster_node_create serve_slot in
        fresh_or_kept c.next

    new : Covered slot (serve_new f c)
    new =
        unfold serve_new create_redirected cluster_node_create serve_slot track_node in
        fresh_or_kept c.next

-- Where a redirection may point: one of the slots, and a host that its buffer holds.
abbrev pub IsInside : ClusterFlags → Type 0
IsInside f = (f.redir_slot < cluster_slots) × (f.redir_host_len ≡ length f.redir_host)

held_lem :
    (f : ClusterFlags)
    → f.redir_host_len ≡ length f.redir_host
    → (f.redir_host_len == length f.redir_host) ≡ true
held_lem f h = ground (arith, h)

asking-Covered :
    (slot : ℕ) (c : RedisCluster)
    → IsInside c.flags
    → Covered slot c.keys
    → (keys : Keyspace) × (node : ℕ) × (cluster_get_asking_node c ≡ some (keys, node))
      × Covered slot keys
unfolding cluster_get_asking_node is_held
asking-Covered slot c (inside, held) covered =
    let f = c.flags in
    let created = cluster_node_create f.redir_host f.redir_port f.redir_slot false c.keys in
    elim (Option-cases (cluster_find_node f.redir_host f.redir_port c.keys)) [
      | inl e ↦ (
        created.0,
        created.1,
        rw (e, cluster_get_asking_node, held_lem f held) refl,
        unfold cluster_node_create set_node in covered,
      )
      | inr (node, e) ↦ (c.keys, node, rw (e, cluster_get_asking_node) refl, covered)
    ]

abbrev pub Returned : SendOutcome → Type 0
Returned (returned c ok) = Unit
Returned crashed = ⊥
Returned out_of_fuel = ⊥

-- A command that writes, with a limit on the time, for a slot that a node has.
pub record IsReady (slot wait : ℕ) (c : RedisCluster) : Type 0 where
  pub covered : Covered slot c.keys
  pub limit : c.waitms ≡ wait
  pub writing : c.readonly ≡ false

Kept-IsReady :
    (slot wait : ℕ) (c d : RedisCluster) → Kept c d → IsReady slot wait c → IsReady slot wait d
Kept-IsReady slot wait c d k r = record {
  covered = subst (Covered slot) (sym k.keys) r.covered;
  limit = k.waitms ∙ r.limit;
  writing = k.readonly ∙ r.writing;
}

leave-Returned :
    (timedout : Bool) (resp : Response) (c : RedisCluster) → Returned (leave timedout resp c)
unfolding leave
leave-Returned timedout resp c = at_end c.flags.clusterdown (timedout || is_failure resp)
  where
    at_end :
        (down bad : Bool)
        → Returned (
            if down
            then returned c false
            else if bad
            then returned (drop_connection c) false
            else returned (record c { flags = record c.flags { redir_type = redir_none } }) true)
    at_end true bad = tt
    at_end false true = tt
    at_end false false = tt

pub followed_moved :
    (w : World) (slot node : ℕ) (c : RedisCluster)
    → IsInside c.flags
    → (update_inside w.map_keyspace c.flags c.keys).master slot ≡ some node
    → follow w redir_moved slot c
      ≡ some (record c { keys = update_inside w.map_keyspace c.flags c.keys; cmd_sock = node })
unfolding follow update_map use_slot sock_of_slot
followed_moved w slot node c (inside, held) owned =
    ap (λ k. use_slot slot (update_map c k))
      (update_inside_lem w.map_keyspace c.flags c.keys inside held)
    ∙ rw (owned, use_slot) refl

pub followed_nowhere :
    (w : World) (slot : ℕ) (c : RedisCluster)
    → IsInside c.flags
    → (update_inside w.map_keyspace c.flags c.keys).master slot ≡ none
    → follow w redir_moved slot c ≡ none
unfolding follow update_map use_slot sock_of_slot
followed_nowhere w slot c (inside, held) gone =
    ap (λ k. use_slot slot (update_map c k))
      (update_inside_lem w.map_keyspace c.flags c.keys inside held)
    ∙ rw (gone, use_slot) refl

-- Whatever the nodes answer, a redirection names one of the slots and a host of the size of its buffer.
abbrev pub RedirectsInside : World → Type 0
RedirectsInside w =
    (f : ClusterFlags) (h : History) (line : Bytes)
    → w.answers h ≡ error_line line
    → (check_error_line f line).1 ≡ redirected
    → IsInside (check_error_line f line).0

take-IsInside :
    (c : RedisCluster) (a : NodeAnswer)
    → ((line : Bytes)
        → a ≡ error_line line
        → (check_error_line c.flags line).1 ≡ redirected
        → IsInside (check_error_line c.flags line).0)
    → (take_answer c a).1 ≡ redirected
    → IsInside (take_answer c a).0.flags
unfolding take_answer
take-IsInside c nothing names h = cc
take-IsInside c cut names h = cc
take-IsInside c (error_line line) names h = names line refl h
take-IsInside c (first_line type line) names h = cc

module _ (w : World) (slot wait msstart limit : ℕ) where
  follow-IsReady :
      (t : RedirType) (c : RedisCluster)
      → ((k : Keyspace) → Covered slot k → Covered slot (w.map_keyspace k))
      → IsInside c.flags
      → IsReady slot wait c
      → (d : RedisCluster) × (follow w t slot c ≡ some d) × IsReady slot wait d × (d.sent ≡ c.sent)
  unfolding follow update_map use_slot use_asking sock_of_slot
  follow-IsReady redir_none c keeps inside r = (c, refl, r, refl)
  follow-IsReady redir_moved c keeps inside r =
      let keys = update_inside w.map_keyspace c.flags c.keys in
      let (node, owned) =
        update_inside-Covered w.map_keyspace c.flags slot c.keys keeps r.covered in
      (
        record c { keys = keys; cmd_sock = node },
        followed_moved w slot node c inside owned,
        record { covered = (node, owned); limit = r.limit; writing = r.writing },
        refl,
      )
  follow-IsReady redir_ask c keeps inside r =
      let (keys, node, asked, covered) = asking-Covered slot c inside r.covered in
      (
        record c { keys = keys; cmd_sock = node },
        rw (asked, use_asking) refl,
        record { covered = covered; limit = r.limit; writing = r.writing },
        refl,
      )

  not_yet :
      (c : RedisCluster)
      → ((h : History) → limit ≤ length h → msstart + wait ≤ w.mstime h)
      → c.waitms ≡ wait
      → 0 < wait
      → is_timed_out w msstart c ≡ false
      → length c.sent < limit
  unfolding is_timed_out
  not_yet c clock e pos_wait h = ground (arith, clock c.sent)

  repeat-Returned :
      (again : RedisCluster → SendOutcome) (c : RedisCluster)
      → ((h : History) → limit ≤ length h → msstart + wait ≤ w.mstime h)
      → 0 < wait
      → IsReady slot wait c
      → (length c.sent < limit → Returned (again c))
      → Returned (repeat w again msstart (some c))
  unfolding repeat
  repeat-Returned again c clock pos_wait r next =
      elim (Bool-cases (not c.flags.clusterdown && not (is_timed_out w msstart c))) [
        | inl e ↦ rw e (next (not_yet c clock r.limit pos_wait (ground arith)))
        | inr e ↦ rw e (leave-Returned (is_timed_out w msstart c) redirected c)
      ]

  respond-Returned :
      (again : RedisCluster → SendOutcome) (c : RedisCluster) (r : Response)
      → ((k : Keyspace) → Covered slot k → Covered slot (w.map_keyspace k))
      → ((h : History) → limit ≤ length h → msstart + wait ≤ w.mstime h)
      → 0 < wait
      → (r ≡ redirected → IsInside c.flags)
      → IsReady slot wait c
      → ((d : RedisCluster)
          → IsReady slot wait d
          → d.sent ≡ c.sent
          → length d.sent < limit
          → Returned (again d))
      → Returned (respond w again slot msstart (c, r))
  unfolding respond
  respond-Returned again c proceed keeps clock pos_wait inside r next =
      leave-Returned false proceed c
  respond-Returned again c failed keeps clock pos_wait inside r next = leave-Returned false failed c
  respond-Returned again c redirected keeps clock pos_wait inside r next =
      let (d, followed, r', same) = follow-IsReady c.flags.redir_type c keeps (inside refl) r in
      elim (Bool-cases (is_multi c.mode)) [
        | inl e ↦ rw e tt
        | inr e ↦ rw (e, followed) (repeat-Returned again d clock pos_wait r' (next d r' same))
      ]

  checked-Returned :
      (again : RedisCluster → SendOutcome) (c : RedisCluster)
      → ((k : Keyspace) → Covered slot k → Covered slot (w.map_keyspace k))
      → ((h : History) → limit ≤ length h → msstart + wait ≤ w.mstime h)
      → 0 < wait
      → RedirectsInside w
      → IsReady slot wait c
      → ((d : RedisCluster)
          → IsReady slot wait d
          → d.sent ≡ c.sent
          → length d.sent < limit
          → Returned (again d))
      → Returned (respond w again slot msstart (cluster_check_response w c))
  unfolding cluster_check_response
  checked-Returned again c keeps clock pos_wait names r next =
      let a = w.answers c.sent in
      let d = (take_answer (clear_reply c) a).0 in
      let (sent, _, keys, _, waits, reads) = take_answer-same c a in
      respond-Returned again d (take_answer (clear_reply c) a).1 keeps clock pos_wait
        (take-IsInside (clear_reply c) a (λ line e. names (clear_reply c).flags c.sent line e))
        (record {
          covered = subst (Covered slot) (sym keys) r.covered;
          limit = waits ∙ r.limit;
          writing = reads ∙ r.writing;
        })
        (λ e r' same below. next e r' (same ∙ sent) below)

-- A command that is no read is tried on the node, and then on the others: a slot is never looked up.
abbrev pub IsTried : Option (RedisCluster × Bool) → Type 0
IsTried none = ⊥
IsTried (some r) = Unit

pub not_reading : (c : RedisCluster) → c.readonly ≡ false → chosen_failover c ≡ failover_none
unfolding chosen_failover
not_reading c e = ground arith

module _ (w : World) where
  fall_back-IsTried : (s : ℕ) (r : RedisCluster × Bool) → IsTried (fall_back w false s (some r))
  unfolding fall_back
  fall_back-IsTried s (c, true) = tt
  fall_back-IsTried s (c, false) = tt

  write_asked-IsTried :
      (s : ℕ) (r : RedisCluster × Bool) → IsTried (write_asked w false failover_none s r)
  unfolding write_asked write_chosen
  write_asked-IsTried s (c, false) = tt
  write_asked-IsTried s (c, true) = fall_back-IsTried s (send_payload w s command c)

  sock_write-IsTried :
      (c : RedisCluster) → c.readonly ≡ false → IsTried (cluster_sock_write w false c)
  unfolding cluster_sock_write
  sock_write-IsTried c e = rw (not_reading c e) (
      write_asked-IsTried c.cmd_sock
        (if is_ask c.flags.redir_type then cluster_send_asking w c.cmd_sock c else (c, true)))

  enter_multi-IsTried :
      (slot : ℕ) (c : RedisCluster) → Covered slot c.keys → IsTried (enter_multi w slot c)
  unfolding enter_multi cluster_send_multi sock_of_slot
  enter_multi-IsTried slot c (node, owned) =
      elim (Bool-cases (is_multi c.mode && not (is_multi (c.sock_mode c.cmd_sock)))) [
        | inl e ↦ rw (e, owned, cluster_send_multi) tt
        | inr e ↦ rw e tt
      ]

  then_round-Returned :
      (next : RedisCluster → SendOutcome) (c : RedisCluster) (r : Option (RedisCluster × Bool))
      → IsTried r
      → Stays c r
      → ((d : RedisCluster) → Kept c d → r ≡ some (d, true) → Returned (next d))
      → Returned (then_round r next)
  unfolding then_round
  then_round-Returned next c none t k h = t
  then_round-Returned next c (some (d, false)) t k h = tt
  then_round-Returned next c (some (d, true)) t k h = h d k refl

  Tried-Stays : (c : RedisCluster) (r : Option (RedisCluster × Bool)) → Tried c r → Stays c r
  Tried-Stays c none t = tt
  Tried-Stays c (some (d, true)) t = t.0
  Tried-Stays c (some (d, false)) t = t

  Tried-after :
      (c d : RedisCluster) (r : Option (RedisCluster × Bool))
      → Tried c r
      → r ≡ some (d, true)
      → length c.sent < length d.sent
  Tried-after c d none t e = cc
  Tried-after c d (some (d', false)) t e = cc
  Tried-after c d (some (d', true)) t e =
      let same : d' ≡ d = cc in
      subst (λ x. length c.sent < length x.sent) same (omega (arith, t.1.after, ap length t.1.last))

  send_loop-Returned :
      (fuel slot wait msstart limit : ℕ) (c : RedisCluster)
      → ((k : Keyspace) → Covered slot k → Covered slot (w.map_keyspace k))
      → ((h : History) → limit ≤ length h → msstart + wait ≤ w.mstime h)
      → 0 < wait
      → RedirectsInside w
      → IsReady slot wait c
      → length c.sent ≤ limit
      → limit < fuel + length c.sent
      → Returned (send_loop w fuel slot msstart c)
  unfolding send_loop
  send_loop-Returned zero slot wait msstart limit c keeps clock pos_wait names r short enough =
      absurd (omega arith)
  send_loop-Returned (suc fuel) slot wait msstart limit c keeps clock pos_wait names r short
        enough =
      then_round-Returned _ c (enter_multi w slot c) (enter_multi-IsTried slot c r.covered)
        (enter_multi-Stays w slot c)
        (λ d k e.
          let r' = Kept-IsReady slot wait c d k r in
          then_round-Returned _ d (cluster_sock_write w false d) (sock_write-IsTried d r'.writing)
            (Tried-Stays d (cluster_sock_write w false d) (sock_write-Tried w false d))
            (λ f l written.
              checked-Returned w slot wait msstart limit (send_loop w fuel slot msstart) f keeps
                clock pos_wait names (Kept-IsReady slot wait d f l r')
                (λ g ready same below.
                  send_loop-Returned fuel slot wait msstart limit g keeps clock pos_wait names ready
                    (omega arith)
                    (omega (
                      arith,
                      k.grows,
                      ap length same,
                      Tried-after d f (cluster_sock_write w false d) (sock_write-Tried w false d)
                          written,
                    )))))

  -- A command that is no read, to a slot that a node has, with a limit on the time: if the clock reaches
  -- the limit once `n` payloads were sent, and mapping the keyspace again leaves the slot to some node, then
  -- with fuel for n + 1 rounds the call returns, whatever the nodes answer and however often they redirect, as long
  -- as each redirection names one of the 16384 slots and a host that fits its buffer.
  pub send_command-Returned :
      (fuel slot n : ℕ) (c : RedisCluster)
      → ((k : Keyspace) → Covered slot k → Covered slot (w.map_keyspace k))
      → ((h : History) → n + length c.sent ≤ length h → w.mstime c.sent + c.waitms ≤ w.mstime h)
      → 0 < c.waitms
      → RedirectsInside w
      → c.readonly ≡ false
      → Covered slot c.keys
      → n < fuel
      → Returned (cluster_send_command w fuel slot c)
  unfolding cluster_send_command sock_of_slot
  send_command-Returned fuel slot n c keeps clock pos_wait names writing (node, owned) enough =
      rw (owned, cluster_send_command)
        (send_loop-Returned fuel slot c.waitms (w.mstime c.sent) (n + length c.sent)
          (record c { cmd_slot = slot; cmd_sock = node }) keeps clock pos_wait names
          (record { covered = (node, owned); limit = refl; writing = writing }) (omega arith)
          (omega arith))
