-- ===== src/Cluster/Send.antt =====
-- redis-6.0.2/cluster_library.c: what is sent to which node. The connection of a node goes by the
-- number of the node. What the nodes do is a parameter, by all that was sent before.
pub mod Write
pub mod Loop
pub mod Kept
pub mod Ends
pub mod Returns
pub mod Moved
pub mod Strays
pub mod Tests
use icore_tax_gateway.Base.{
  ℕ, zero, suc, ◌+◌, ◌-◌, Bool, true, false, Option, none, some, List, [], ◌∷◌, ◌++◌, Bytes, ◌==◌,
  if◌then◌else◌, length, get_elem?, get_or, set,
}
use icore_tax_gateway.Base.Int.{ℤ, pos}
use icore_tax_gateway.Sock.Read.{atol}
use icore_tax_gateway.Cluster.Abort.{RedisMode, atomic, multi}
use icore_tax_gateway.Cluster.Redirect.{ClusterFlags, Response, proceed, failed, check_error_line}
use icore_tax_gateway.Cluster.Slots.{Keyspace}

-- REDIS_FAILOVER_NONE and its kin
pub data Failover : Type 0 where
  failover_none failover_error failover_distribute failover_distribute_slaves : Failover

-- RESP_MULTI_CMD, RESP_ASKING_CMD, RESP_READONLY_CMD, and the command of the caller.
pub data Payload : Type 0 where
  multi_cmd asking_cmd readonly_cmd command : Payload

-- The payloads and the nodes they were sent to, the last one first.
abbrev pub History : Type 0
History = List (ℕ × Payload)

-- redisCluster, with the mode and the flag of the connection of each node.
pub record RedisCluster : Type 0 where
  pub keys : Keyspace
  pub flags : ClusterFlags
  pub mode : RedisMode
  pub sock_mode : ℕ → RedisMode
  pub sock_readonly : ℕ → Bool
  pub cmd_slot : ℕ
  pub cmd_sock : ℕ
  pub readonly : Bool
  pub failover : Failover
  pub waitms : ℕ
  pub reply_type : ℕ
  pub reply_len : ℤ
  pub line_reply : Bytes
  pub sent : History

-- Whether a payload is written whole, or not, or the connection is found lost and closed.
pub data Written : Type 0 where
  whole partial closed : Written

-- What arrives for the last payload: nothing, a type with no line, an error with the end of its line,
-- or the type and the first line of another reply.
pub data NodeAnswer : Type 0 where
  nothing cut : NodeAnswer
  error_line : Bytes → NodeAnswer
  first_line : ℕ → Bytes → NodeAnswer

-- The nodes, the random numbers, the clock, and cluster_map_keyspace.
pub record World : Type 0 where
  pub writes : History → Written
  pub answers : History → NodeAnswer
  pub draw : History → ℕ → ℕ
  pub mstime : History → ℕ
  pub map_keyspace : Keyspace → Keyspace

unfoldable pub set_mode : ℕ → RedisMode → RedisCluster → RedisCluster
set_mode s mode c = record c { sock_mode = λ t. if t == s then mode else c.sock_mode t }

unfoldable pub set_readonly : ℕ → Bool → RedisCluster → RedisCluster
set_readonly s flag c = record c { sock_readonly = λ t. if t == s then flag else c.sock_readonly t }

-- SLOT_SOCK; `none` is a NULL pointer that is followed.
unfoldable pub sock_of_slot : ℕ → RedisCluster → Option ℕ
sock_of_slot slot c = c.keys.master slot

unfoldable pub finish_send : ℕ → RedisCluster → Written → RedisCluster × Bool
unfolding set_mode
finish_send s c whole = (c, true)
finish_send s c partial = (c, false)
finish_send s c closed = (set_mode s atomic c, false)

unfoldable pub is_status : NodeAnswer → Bool
is_status (first_line type line) = type == b'+'
is_status _ = false

unfoldable pub multi_sent : RedisCluster × Bool → RedisCluster × Bool
unfolding set_mode
multi_sent (c, true) = (set_mode c.cmd_sock multi c, true)
multi_sent (c, false) = (c, false)

-- CLUSTER_CLEAR_ERROR and CLUSTER_CLEAR_REPLY
unfoldable pub clear_reply : RedisCluster → RedisCluster
clear_reply c = record c {
  flags = record c.flags { err = none; clusterdown = false };
  line_reply = [];
  reply_len = pos 0;
}

unfoldable pub take_answer : RedisCluster → NodeAnswer → RedisCluster × Response
take_answer c nothing = (c, failed)
take_answer c cut = (c, failed)
take_answer c (error_line inbuf) =
    let (flags, response) = check_error_line c.flags inbuf in
    (record c { flags = flags; reply_type = b'-' }, response)
take_answer c (first_line type line) = (
  record c {
    reply_type = type;
    line_reply = line;
    reply_len = if type == b'+' then pos (length line) else atol line;
  },
  proceed,
)

module _ (w : World) where
  -- CLUSTER_SEND_PAYLOAD
  unfoldable pub send_payload : ℕ → Payload → RedisCluster → RedisCluster × Bool
  unfolding finish_send
  send_payload s p c =
      let c' = record c { sent = (s, p) ∷ c.sent } in finish_send s c' (w.writes c'.sent)

  -- With TYPE_LINE, the type that every caller passes.
  unfoldable pub cluster_send_direct : ℕ → Payload → RedisCluster → RedisCluster × Bool
  unfolding send_payload is_status
  cluster_send_direct s p c =
      let (c', written) = send_payload s p c in
      if written then (c', is_status (w.answers c'.sent)) else (c', false)

  unfoldable pub cluster_send_asking : ℕ → RedisCluster → RedisCluster × Bool
  unfolding cluster_send_direct
  cluster_send_asking s c = cluster_send_direct s asking_cmd c

  unfoldable pub cluster_send_readonly : ℕ → RedisCluster → RedisCluster × Bool
  unfolding cluster_send_direct set_readonly
  cluster_send_readonly s c =
      if c.sock_readonly s
      then (c, true)
      else (let (c', ok) = cluster_send_direct s readonly_cmd c in (set_readonly s ok c', ok))

  unfoldable pub cluster_send_multi : ℕ → RedisCluster → Option (RedisCluster × Bool)
  unfolding cluster_send_direct multi_sent sock_of_slot
  cluster_send_multi slot c = elim (sock_of_slot slot c) [
    | none ↦ none
    | some s ↦ some (multi_sent (cluster_send_direct s multi_cmd c))
  ]

  unfoldable pub cluster_check_response : RedisCluster → RedisCluster × Response
  unfolding clear_reply take_answer
  cluster_check_response c = take_answer (clear_reply c) (w.answers c.sent)

-- Two elements of an array change places.
unfoldable pub swap : ℕ → ℕ → List ℕ → List ℕ
swap i j array = set (set array i (get_or array j 0)) j (get_or array i 0)

-- while (n > 1), with the random number that is drawn below `n`.
unfoldable pub fyshuffle : (ℕ → ℕ) → ℕ → List ℕ → List ℕ
unfolding swap
fyshuffle draw zero array = array
fyshuffle draw (suc zero) array = array
fyshuffle draw (suc (suc n)) array =
    fyshuffle draw (suc n) (swap (suc n) (draw (suc (suc n))) array)

-- for (i = 0; i < count; i++) nodes[i] = i;
unfoldable pub indices : ℕ → List ℕ
indices zero = []
indices (suc n) = indices n ++ n ∷ []
