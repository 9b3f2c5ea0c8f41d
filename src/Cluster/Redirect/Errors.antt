-- ===== src/Cluster/Redirect/Errors.antt =====
-- What an error line of a server makes of the state of the cluster.
use icore_tax_gateway.Base.{
  ℕ, ◌+◌, ◌-◌, ◌^◌, ◌≤◌, ◌<◌, ◌≡◌, ◌≢◌, refl, Bool, true, false, some, none, [], ◌∷◌, ◌++◌, Bytes,
  codes, arith, if◌then◌else◌, length, take, length-append, take-length_append,
}
use icore_tax_gateway.Base.Text.{Lacks, starts_with, c_string}
use icore_tax_gateway.Cluster.Redirect.{
  redir_moved, redir_ask, ClusterFlags, redirected, proceed, count_redirection, check_error_line,
  cluster_set_err,
}
use icore_tax_gateway.Cluster.Redirect.Parse.{
  redirection, redirection_parsed, Lacks-append, c_string-whole,
}

-- CLUSTER_CLEAR_ERROR
abbrev pub cleared : ClusterFlags → ClusterFlags
cleared c = record c { err = none; clusterdown = false }

-- A redirection that a server prints, with a slot and a port of 16 bits and any host of at most 254
-- bytes that are not zero, clears the last error, counts if it is MOVED, is kept in the state, and is
-- reported as a redirection.
pub redirection_followed :
    (c : ClusterFlags) (moved : Bool) (slot : ℕ) (host : Bytes) (port : ℕ)
    → slot < 2 ^ 16
    → port < 2 ^ 16
    → length host ≤ 254
    → Lacks 0 host
    → check_error_line c (redirection moved slot host port) ≡ (
      record (count_redirection moved (cleared c)) {
        redir_type = if moved then redir_moved else redir_ask;
        redir_host = host;
        redir_host_len = length host;
        redir_slot = slot;
        redir_port = port;
      },
      redirected,
    )
unfolding check_error_line
redirection_followed c true slot host port hs hp short h =
    rw (redirection_parsed (cleared c) true slot host port hs hp short h)
      (unfold redirection starts_with in refl)
redirection_followed c false slot host port hs hp short h =
    rw (redirection_parsed (cleared c) false slot host port hs hp short h)
      (unfold redirection starts_with in refl)

-- What an error that is no redirection leaves.
pub record Recorded (c c' : ClusterFlags) (text : Bytes) : Type 0 where
  pub message : c'.err ≡ some text
  pub down : c'.clusterdown ≡ starts_with text (codes "CLUSTERDOWN")
  pub count_kept : c'.redirections ≡ c.redirections
  pub type_kept : c'.redir_type ≡ c.redir_type

set_err-Recorded :
    (c : ClusterFlags) (text : Bytes)
    → text ≢ []
    → Recorded c (cluster_set_err (cleared c) text) text
unfolding cluster_set_err
set_err-Recorded c [] ne = absurd (ne refl)
set_err-Recorded c (e ∷ text) ne = ground arith

two_back : (n : ℕ) → n + 2 - 2 ≡ n
two_back n = omega arith

without_newline :
    (text : Bytes)
    → Lacks 0 text
    → take (length (c_string (text ++ 13 ∷ 10 ∷ [])) - 2) (text ++ 13 ∷ 10 ∷ []) ≡ text
without_newline text h =
    let line = text ++ 13 ∷ 10 ∷ [] in
    let whole = c_string-whole line (Lacks-append 0 text (13 ∷ 10 ∷ []) h (omega arith)) in
    rw (whole, length-append text (13 ∷ 10 ∷ []), two_back (length text))
      (take-length_append text (13 ∷ 10 ∷ []))

-- An error line, not empty and without a zero byte, that is neither MOVED nor ASK is recorded without the end of the line, with the flag
-- for a cluster that is down just when it says so; no redirection is counted.
pub check_error_line-Recorded :
    (c : ClusterFlags) (text : Bytes)
    → text ≢ []
    → Lacks 0 text
    → starts_with (text ++ 13 ∷ 10 ∷ []) (codes "MOVED ") ≡ false
    → starts_with (text ++ 13 ∷ 10 ∷ []) (codes "ASK ") ≡ false
    → Recorded c (check_error_line c (text ++ 13 ∷ 10 ∷ [])).0 text
      × ((check_error_line c (text ++ 13 ∷ 10 ∷ [])).1 ≡ proceed)
unfolding check_error_line
check_error_line-Recorded c text ne h no_moved no_ask =
    rw (no_moved, no_ask, without_newline text h) (set_err-Recorded c text ne, refl)
