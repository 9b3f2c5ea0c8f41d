-- ===== src/Cluster/Send/Kept.antt =====
-- What sending leaves as it is, and that the history of payloads only grows.
use icore_tax_gateway.Base.{
  ℕ, zero, suc, ◌≤◌, ◌≡◌, refl, ◌∙◌, Bool, true, false, ◌&&◌, ◌||◌, not, Option, none, some, List,
  [], ◌∷◌, Bytes, ◌==◌, arith, length, Bool-cases, Option-cases, inl, inr,
}
use icore_tax_gateway.Cluster.Abort.{is_multi}
use icore_tax_gateway.Cluster.Send.{
  RedisCluster, Failover, failover_none, failover_error, failover_distribute,
  failover_distribute_slaves, Payload, command, asking_cmd, readonly_cmd, multi_cmd, Written, whole,
  partial, closed, History, World, set_mode, set_readonly, finish_send, send_payload,
  cluster_send_direct, cluster_send_asking, cluster_send_readonly, cluster_send_multi, multi_sent,
  sock_of_slot,
}
use icore_tax_gateway.Cluster.Send.Write.{
  cluster_slot_sock, deliver_to, try_index, dist_loop, cluster_dist_write, or_slaves, write_chosen,
  write_seeds, fall_back, is_ask, write_asked, chosen_failover, cluster_sock_write,
}
use icore_tax_gateway.Cluster.Send.Loop.{enter_multi}

-- Sending changes neither the map of slots nor what the replies have set.
pub record Kept (c c' : RedisCluster) : Type 0 where
  pub keys : c'.keys ≡ c.keys
  pub flags : c'.flags ≡ c.flags
  pub mode : c'.mode ≡ c.mode
  pub waitms : c'.waitms ≡ c.waitms
  pub readonly : c'.readonly ≡ c.readonly
  pub grows : length c.sent ≤ length c'.sent

pub Kept-refl : (c : RedisCluster) → Kept c c
Kept-refl c = record {
  keys = refl;
  flags = refl;
  mode = refl;
  waitms = refl;
  readonly = refl;
  grows = omega arith;
}

pub Kept-trans : (c d e : RedisCluster) → Kept c d → Kept d e → Kept c e
Kept-trans c d e p q = record {
  keys = q.keys ∙ p.keys;
  flags = q.flags ∙ p.flags;
  mode = q.mode ∙ p.mode;
  waitms = q.waitms ∙ p.waitms;
  readonly = q.readonly ∙ p.readonly;
  grows = omega (arith, p.grows, q.grows);
}

-- The last payload is the command, on the connection from which the reply will be read.
pub record LastSent (c : RedisCluster) (before : ℕ) : Type 0 where
  pub older : History
  pub last : c.sent ≡ (c.cmd_sock, command) ∷ older
  pub after : before ≤ length older

multi_sent-Kept :
    (c : RedisCluster) (r : RedisCluster × Bool) → Kept c r.0 → Kept c (multi_sent r).0
unfolding multi_sent set_mode
multi_sent-Kept c (d, true) k = record {
  keys = k.keys;
  flags = k.flags;
  mode = k.mode;
  waitms = k.waitms;
  readonly = k.readonly;
  grows = k.grows;
}
multi_sent-Kept c (d, false) k = k

module _ (w : World) where
  pub send-Kept : (s : ℕ) (p : Payload) (c : RedisCluster) → Kept c (send_payload w s p c).0
  unfolding send_payload finish_send set_mode
  send-Kept s p c = at_end (w.writes ((s, p) ∷ c.sent))
    where
      at_end : (o : Written) → Kept c (finish_send s (record c { sent = (s, p) ∷ c.sent }) o).0
      at_end whole = ground arith
      at_end partial = ground arith
      at_end closed = ground arith

  -- The payload is in the history, whether it was written or not.
  pub send-sent :
      (s : ℕ) (p : Payload) (c : RedisCluster)
      → ((send_payload w s p c).0.sent ≡ (s, p) ∷ c.sent)
        × ((send_payload w s p c).0.cmd_sock ≡ c.cmd_sock)
  unfolding send_payload finish_send set_mode
  send-sent s p c = at_end (w.writes ((s, p) ∷ c.sent))
    where
      at_end :
          (o : Written)
          → ((finish_send s (record c { sent = (s, p) ∷ c.sent }) o).0.sent ≡ (s, p) ∷ c.sent)
            × ((finish_send s (record c { sent = (s, p) ∷ c.sent }) o).0.cmd_sock ≡ c.cmd_sock)
      at_end whole = (refl, refl)
      at_end partial = (refl, refl)
      at_end closed = (refl, refl)

  direct-Kept : (s : ℕ) (p : Payload) (c : RedisCluster) → Kept c (cluster_send_direct w s p c).0
  unfolding cluster_send_direct
  direct-Kept s p c = elim (Bool-cases (send_payload w s p c).1) [
    | inl e ↦ rw e (send-Kept s p c)
    | inr e ↦ rw e (send-Kept s p c)
  ]

  readonly-Kept : (s : ℕ) (c : RedisCluster) → Kept c (cluster_send_readonly w s c).0
  unfolding cluster_send_readonly set_readonly
  readonly-Kept s c = elim (Bool-cases (c.sock_readonly s)) [
    | inl e ↦ rw e (Kept-refl c)
    | inr e ↦ rw e (
        let k = direct-Kept s readonly_cmd c in
        record {
          keys = k.keys;
          flags = k.flags;
          mode = k.mode;
          waitms = k.waitms;
          readonly = k.readonly;
          grows = k.grows;
        })
  ]

-- What a try to send the command leaves, and, if it succeeds, what it sent.
abbrev pub Found : RedisCluster → RedisCluster × Bool → Type 0
Found c (c', true) = Kept c c' × LastSent c' (length c.sent)
Found c (c', false) = Kept c c'

abbrev pub Tried : RedisCluster → Option (RedisCluster × Bool) → Type 0
Tried c none = Unit {0}
Tried c (some r) = Found c r

abbrev pub Stays : RedisCluster → Option (RedisCluster × Bool) → Type 0
Stays c none = Unit {0}
Stays c (some (c', ok)) = Kept c c'

LastSent-le : (c : RedisCluster) (m n : ℕ) → m ≤ n → LastSent c n → LastSent c m
LastSent-le c m n h l = record { older = l.older; last = l.last; after = omega (arith, l.after) }

Found-trans : (c d : RedisCluster) (r : RedisCluster × Bool) → Kept c d → Found d r → Found c r
Found-trans c d (e, true) k (f, l) =
    (Kept-trans c d e k f, LastSent-le e (length c.sent) (length d.sent) k.grows l)
Found-trans c d (e, false) k f = Kept-trans c d e k f

Tried-trans :
    (c d : RedisCluster) (r : Option (RedisCluster × Bool)) → Kept c d → Tried d r → Tried c r
Tried-trans c d none k f = tt
Tried-trans c d (some r) k f = Found-trans c d r k f

-- Another connection or slot of the command changes nothing else.
moved-Kept :
    (c d : RedisCluster) (slot s : ℕ)
    → Kept c d
    → Kept c (record d { cmd_slot = slot; cmd_sock = s })
moved-Kept c d slot s k = record {
  keys = k.keys;
  flags = k.flags;
  mode = k.mode;
  waitms = k.waitms;
  readonly = k.readonly;
  grows = k.grows;
}

module _ (w : World) where
  command_sent :
      (c : RedisCluster) (s slot : ℕ)
      → Kept c (record (send_payload w s command c).0 { cmd_slot = slot; cmd_sock = s })
        × LastSent
            (record (send_payload w s command c).0 { cmd_slot = slot; cmd_sock = s })
            (length c.sent)
  command_sent c s slot = (
    moved-Kept c (send_payload w s command c).0 slot s (send-Kept w s command c),
    record { older = c.sent; last = (send-sent w s command c).0; after = omega arith },
  )

  deliver_to-Found :
      (next : RedisCluster → RedisCluster × Bool) (s : ℕ) (c : RedisCluster)
      → ((d : RedisCluster) → Found d (next d))
      → Found c (deliver_to w next s c)
  unfolding deliver_to
  deliver_to-Found next s c found = elim (Bool-cases (send_payload w s command c).1) [
    | inl e ↦ rw e (command_sent c s (send_payload w s command c).0.cmd_slot)
    | inr e ↦ rw e (
        Found-trans c (send_payload w s command c).0 (next (send_payload w s command c).0)
          (send-Kept w s command c) (found (send_payload w s command c).0))
  ]

  try_index-Found :
      (next : RedisCluster → RedisCluster × Bool) (i : ℕ) (s : Option ℕ) (c : RedisCluster)
      → ((d : RedisCluster) → Found d (next d))
      → Found c (try_index w next i s c)
  unfolding try_index
  try_index-Found next i none c found = found c
  try_index-Found next zero (some s) c found = deliver_to-Found next s c found
  try_index-Found next (suc i) (some s) c found =
      let d = (cluster_send_readonly w s c).0 in
      elim (Bool-cases (cluster_send_readonly w s c).1) [
        | inl e ↦ rw e (
            Found-trans c d (deliver_to w next s d) (readonly-Kept w s c)
              (deliver_to-Found next s d found))
        | inr e ↦ rw e (Found-trans c d (next d) (readonly-Kept w s c) (found d))
      ]

  dist_loop-Found :
      (nomaster : Bool) (owner : ℕ) (nodes : List ℕ) (c : RedisCluster)
      → Found c (dist_loop w nomaster owner nodes c)
  unfolding dist_loop
  dist_loop-Found nomaster owner [] c = Kept-refl c
  dist_loop-Found nomaster owner (i ∷ nodes) c = elim (Bool-cases (nomaster && i == 0)) [
    | inl e ↦ rw e (dist_loop-Found nomaster owner nodes c)
    | inr e ↦ rw e (
        try_index-Found (dist_loop w nomaster owner nodes) i (cluster_slot_sock owner i c) c
          (dist_loop-Found nomaster owner nodes))
  ]

  dist_write-Tried :
      (nomaster : Bool) (c : RedisCluster) → Tried c (cluster_dist_write w nomaster c)
  unfolding cluster_dist_write
  dist_write-Tried nomaster c = elim (Option-cases (sock_of_slot c.cmd_slot c)) [
    | inl e ↦ rw (e, cluster_dist_write) tt
    | inr (owner, e) ↦ rw (e, cluster_dist_write) (dist_loop-Found nomaster owner _ c)
  ]

  -- The command to the connection that the cluster points to.
  own_send-Found :
      (s : ℕ) (c : RedisCluster) → c.cmd_sock ≡ s → Found c (send_payload w s command c)
  own_send-Found s c e =
      at_end (send_payload w s command c) (send-Kept w s command c) (send-sent w s command c)
    where
      at_end :
          (r : RedisCluster × Bool)
          → Kept c r.0
          → (r.0.sent ≡ (s, command) ∷ c.sent) × (r.0.cmd_sock ≡ c.cmd_sock)
          → Found c r
      at_end (d, true) k (sent, same) =
          (k, record { older = c.sent; last = ground (arith, sent, same, e); after = omega arith })
      at_end (d, false) k h = k

  or_slaves-Tried :
      (c : RedisCluster) (r : RedisCluster × Bool) → Found c r → Tried c (or_slaves w r)
  unfolding or_slaves
  or_slaves-Tried c (d, true) f = f
  or_slaves-Tried c (d, false) k =
      Tried-trans c d (cluster_dist_write w true d) k (dist_write-Tried true d)

  write_chosen-Tried :
      (f : Failover) (s : ℕ) (c : RedisCluster) → c.cmd_sock ≡ s → Tried c (write_chosen w f s c)
  unfolding write_chosen
  write_chosen-Tried failover_none s c e = own_send-Found s c e
  write_chosen-Tried failover_error s c e =
      or_slaves-Tried c (send_payload w s command c) (own_send-Found s c e)
  write_chosen-Tried failover_distribute s c e = dist_write-Tried false c
  write_chosen-Tried failover_distribute_slaves s c e = dist_write-Tried true c

  write_seeds-Found :
      (s : ℕ) (nodes : List (Bytes × ℕ)) (c : RedisCluster) → Found c (write_seeds w s nodes c)
  unfolding write_seeds
  write_seeds-Found s [] c = Kept-refl c
  write_seeds-Found s ((key, seed) ∷ nodes) c =
      let d = (send_payload w seed command c).0 in
      elim (Bool-cases (seed == s || (c.keys.heap seed).slave)) [
        | inl e ↦ rw e (write_seeds-Found s nodes c)
        | inr e ↦ elim (Bool-cases (send_payload w seed command c).1) [
          | inl f ↦ rw (e, f) (command_sent c seed (d.keys.heap seed).slot)
          | inr f ↦
              rw (e, f)
                (Found-trans c d (write_seeds w s nodes d) (send-Kept w seed command c)
                  (write_seeds-Found s nodes d))
        ]
      ]

  fall_back-Tried :
      (direct : Bool) (s : ℕ) (c : RedisCluster) (r : Option (RedisCluster × Bool))
      → Tried c r
      → Tried c (fall_back w direct s r)
  unfolding fall_back
  fall_back-Tried direct s c none t = tt
  fall_back-Tried direct s c (some (d, true)) t = t
  fall_back-Tried true s c (some (d, false)) t = t
  fall_back-Tried false s c (some (d, false)) t =
      Found-trans c d (write_seeds w s d.keys.nodes d) t (write_seeds-Found s d.keys.nodes d)

  write_asked-Tried :
      (direct : Bool) (f : Failover) (s : ℕ) (c : RedisCluster) (r : RedisCluster × Bool)
      → Kept c r.0
      → r.0.cmd_sock ≡ s
      → Tried c (write_asked w direct f s r)
  unfolding write_asked
  write_asked-Tried direct f s c (d, false) k e = k
  write_asked-Tried direct f s c (d, true) k e =
      Tried-trans c d (fall_back w direct s (write_chosen w f s d)) k
        (fall_back-Tried direct s d (write_chosen w f s d) (write_chosen-Tried f s d e))

  direct_sock :
      (s : ℕ) (p : Payload) (c : RedisCluster)
      → (cluster_send_direct w s p c).0.cmd_sock ≡ c.cmd_sock
  unfolding cluster_send_direct
  direct_sock s p c = elim (Bool-cases (send_payload w s p c).1) [
    | inl e ↦ rw e (send-sent w s p c).1
    | inr e ↦ rw e (send-sent w s p c).1
  ]

  -- A command that is written is the last payload, on the connection whose reply is read next; and
  -- whether it is written or not, the map of slots and what the replies have set are as before.
  pub sock_write-Tried :
      (direct : Bool) (c : RedisCluster) → Tried c (cluster_sock_write w direct c)
  unfolding cluster_sock_write cluster_send_asking
  sock_write-Tried direct c = elim (Bool-cases (is_ask c.flags.redir_type)) [
    | inl e ↦ rw e (
        write_asked-Tried direct (chosen_failover c) c.cmd_sock c
          (cluster_send_direct w c.cmd_sock asking_cmd c) (direct-Kept w c.cmd_sock asking_cmd c)
          (direct_sock c.cmd_sock asking_cmd c))
    | inr e ↦
        rw e
          (write_asked-Tried direct (chosen_failover c) c.cmd_sock c (c, true) (Kept-refl c) refl)
  ]

  -- MULTI before a command, or none.
  pub enter_multi-Stays : (slot : ℕ) (c : RedisCluster) → Stays c (enter_multi w slot c)
  unfolding enter_multi cluster_send_multi
  enter_multi-Stays slot c =
      elim (Bool-cases (is_multi c.mode && not (is_multi (c.sock_mode c.cmd_sock)))) [
        | inl e ↦ elim (Option-cases (sock_of_slot slot c)) [
          | inl f ↦ rw (e, f, cluster_send_multi) tt
          | inr (s, f) ↦
              rw (e, f, cluster_send_multi)
                (multi_sent-Kept c (cluster_send_direct w s multi_cmd c)
                  (direct-Kept w s multi_cmd c))
        ]
        | inr e ↦ rw e (Kept-refl c)
      ]
