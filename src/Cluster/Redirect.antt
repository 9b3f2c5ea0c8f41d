-- ===== src/Cluster/Redirect.antt =====
-- redis-6.0.2/cluster_library.c, `cluster_set_redirection` and the branch of `cluster_check_response`
-- that calls it: what a MOVED or ASK error makes of the state of the cluster.
pub mod Parse
pub mod Errors
use icore_tax_gateway.Base.{
  ℕ, zero, suc, ◌+◌, ◌-◌, ◌*◌, ◌%◌, ◌^◌, Bool, true, false, ◌&&◌, ◌||◌, Option, none, some, List,
  [], ◌∷◌, Bytes, codes, leb, ◌==◌, if◌then◌else◌, length, take, drop,
}
use icore_tax_gateway.Base.Int.{ℤ, pos, negsuc}
use icore_tax_gateway.Base.Text.{c_string, split_at, split_at_last, starts_with}

-- CLUSTER_REDIR_TYPE
pub data RedirType : Type 0 where
  redir_none redir_moved redir_ask : RedirType

-- The fields of redisCluster that a redirection and an error reply set.
pub record ClusterFlags : Type 0 where
  pub redirections : ℕ
  pub redir_type : RedirType
  pub redir_host : Bytes
  pub redir_host_len : ℕ
  pub redir_slot : ℕ
  pub redir_port : ℕ
  pub err : Option Bytes
  pub clusterdown : Bool

-- atoi of the C library: spaces, a sign, and digits up to anything else.
abbrev pub is_space : ℕ → Bool
is_space c = c == 32 || leb 9 c && leb c 13

unfoldable pub atoi_digits : ℕ → Bytes → ℕ
atoi_digits n [] = n
atoi_digits n (c ∷ s) =
    let more = atoi_digits (n * 10 + (c - b'0')) s in if leb b'0' c && leb c b'9' then more else n

abbrev pub negated : ℕ → ℤ
negated zero = pos zero
negated (suc n) = negsuc n

unfoldable pub atoi : Bytes → ℤ
unfolding atoi_digits
atoi [] = pos 0
atoi (c ∷ s) =
    let rest = atoi s in
    if is_space c
    then rest
    else if c == b'-'
    then negated (atoi_digits 0 s)
    else if c == b'+'
    then pos (atoi_digits 0 s)
    else pos (atoi_digits 0 (c ∷ s))

-- `(unsigned short)` of an int
unfoldable pub unsigned_short : ℤ → ℕ
unsigned_short (pos n) = n % 2 ^ 16
unsigned_short (negsuc n) = 2 ^ 16 - 1 - n % 2 ^ 16

-- `msg += moved ? MOVED_LEN : ASK_LEN`
unfoldable pub skip_verb : Bool → Bytes → Bytes
skip_verb moved msg = drop (if moved then 6 else 4) msg

-- `if (moved) c->redirections++;`
unfoldable pub count_redirection : Bool → ClusterFlags → ClusterFlags
count_redirection moved c =
    if moved then record c { redirections = (c.redirections + 1) % 2 ^ 64 } else c

-- The state and whether the message could be parsed; sizeof(c->redir_host) is 255.
unfoldable pub cluster_set_redirection : ClusterFlags → Bytes → Bool → ClusterFlags × Bool
cluster_set_redirection c msg moved =
    let c' = count_redirection moved c in
    elim (split_at b' ' (skip_verb moved (c_string msg))) [
      | none ↦ (c', false)
      | some (slot, rest) ↦ elim (split_at_last b':' rest) [
        | none ↦ (c', false)
        | some (host, port) ↦ (
          record c' {
            redir_type = if moved then redir_moved else redir_ask;
            redir_host = take 254 host;
            redir_host_len = length host;
            redir_slot = unsigned_short (atoi slot);
            redir_port = unsigned_short (atoi port);
          },
          true,
        )
      ]
    ]

-- `cluster_set_err(c, inbuf, strlen(inbuf)-2)`
unfoldable pub cluster_set_err : ClusterFlags → Bytes → ClusterFlags
cluster_set_err c [] = record c { err = none }
cluster_set_err c (e ∷ text) =
    let c' = record c { err = some (e ∷ text) } in
    if starts_with (e ∷ text) (codes "CLUSTERDOWN") then record c' { clusterdown = true } else c'

-- What the reader of an error line tells the command loop: `proceed` is 0, `redirected` is 1 and
-- `failed` is -1.
pub data Response : Type 0 where
  proceed redirected failed : Response

abbrev pub redirection_result : ClusterFlags × Bool → ClusterFlags × Response
redirection_result (c, true) = (c, redirected)
redirection_result (c, false) = (c, failed)

-- The branch for TYPE_ERR, once the line is read into `inbuf`, with CLUSTER_CLEAR_ERROR before it.
unfoldable pub check_error_line : ClusterFlags → Bytes → ClusterFlags × Response
unfolding cluster_set_err
check_error_line c inbuf =
    let c' = record c { err = none; clusterdown = false } in
    if starts_with inbuf (codes "MOVED ")
    then redirection_result (cluster_set_redirection c' inbuf true)
    else if starts_with inbuf (codes "ASK ")
    then redirection_result (cluster_set_redirection c' inbuf false)
    else (cluster_set_err c' (take (length (c_string inbuf) - 2) inbuf), proceed)
