-- ===== src/Connect/Login.antt =====
-- A login that the server accepts.
use icore_tax_gateway.Base.{
  ℕ, suc, ◌≡◌, refl, ap, ◌∙◌, Bool, true, false, Option, none, some, List, ◌∷◌, ◌++◌, Bytes, codes,
  arith,
}
use icore_tax_gateway.Zend.{Zend}
use icore_tax_gateway.Backoff.{Random}
use icore_tax_gateway.Sock.{Stream, StreamLaws, RedisSock, authenticated, ready, is_failed}
use icore_tax_gateway.Base.Text.{starts_with}
use icore_tax_gateway.Sock.Read.{
  redis_sock_gets, redis_sock_read, then_do, switch_reply, single_line,
}
use icore_tax_gateway.Sock.Exact.{at, gets-line}
use icore_tax_gateway.Connect.{Net, Outcome, if_ok, expect}
use icore_tax_gateway.Connect.Auth.{
  redis_sock_auth, reselect_db, is_ok, send_auth, select_cmd, redis_sock_auth_cmd,
}
use icore_tax_gateway.Connect.Check.{
  redis_sock_write, write_after, redis_check_eof, nonzero, selected, logged_in, reopened,
}

-- The words of a server that accepts.
abbrev pub ok_line : Bytes → Bytes
ok_line rest = codes "+OK" ++ 13 ∷ 10 ∷ rest

-- The reply to AUTH, if it is sent, and to SELECT, if a database is chosen.
abbrev pub auth_reply : Option Bytes → Bytes → Bytes
auth_reply none rest = rest
auth_reply (some cmd) rest = ok_line rest

abbrev pub select_reply : Bool → Bytes → Bytes
select_reply false rest = rest
select_reply true rest = ok_line rest

-- The commands that log in, the last one first.
abbrev pub auth_sent : Option Bytes → List Bytes → List Bytes
auth_sent none before = before
auth_sent (some cmd) before = cmd ∷ before

abbrev pub select_sent : Bool → Bytes → List Bytes → List Bytes
select_sent false cmd before = before
select_sent true cmd before = cmd ∷ before

module _ ⦃n : Stream⦄ ⦃w : Net⦄ ⦃z : Zend⦄ (laws : StreamLaws n) (random : Random)
    (accepts : (unread cmd : Bytes) → w.write unread cmd ≡ true) (fuel : ℕ) where
  -- redis_sock_write, with fuel for one check.
  abbrev pub writer : Bytes → RedisSock → Outcome
  writer = redis_sock_write random (suc fuel)

  write-live :
      (cmd : Bytes) (t : RedisSock) (c : ℕ) (more : Bytes)
      → is_failed t.status ≡ false
      → writer cmd (at t (c ∷ more)) ≡ some (record (at t (c ∷ more)) { sent = cmd ∷ t.sent }, true)
  unfolding redis_sock_write write_after redis_check_eof if_ok
  write-live cmd t c more live = rw (live, laws.eof_not, if_ok, accepts) refl

  gets-ok :
      (t : RedisSock) (rest : Bytes)
      → is_failed t.status ≡ false
      → expect (λ line. starts_with line (codes "+OK")) (redis_sock_gets 4095 (at t (ok_line rest)))
        ≡ some (at t rest, true)
  unfolding expect starts_with
  gets-ok t rest live =
      rw (gets-line laws t live 4095 (codes "+OK") rest (omega arith) (omega arith), expect) refl

  read-ok :
      (t : RedisSock) (rest : Bytes)
      → is_failed t.status ≡ false
      → expect
          (λ line. starts_with line (codes "+OK"))
          (redis_sock_read (suc fuel) (at t (ok_line rest)))
        ≡ some (at t rest, true)
  unfolding redis_sock_read expect starts_with then_do switch_reply single_line
  read-ok t rest live =
      rw (gets-line laws t live 4095 (codes "+OK") rest (omega arith) (omega arith), then_do) refl

  pub auth-accepted :
      (t : RedisSock) (cmd : Option Bytes) (rest : Bytes)
      → is_failed t.status ≡ false
      → redis_sock_auth_cmd t ≡ cmd
      → redis_sock_auth writer (at t (auth_reply cmd rest))
        ≡ some (record (at t rest) { sent = auth_sent cmd t.sent }, true)
  unfolding redis_sock_auth redis_sock_auth_cmd send_auth is_ok if_ok
  auth-accepted t none rest live is_cmd = ap (λ o. send_auth writer o (at t rest)) is_cmd
  auth-accepted t (some cmd) rest live is_cmd =
      ap (λ o. send_auth writer o (at t (ok_line rest))) is_cmd
      ∙ ap (λ o. if_ok o (λ s'. expect is_ok (redis_sock_gets 4095 s')))
          (write-live cmd t b'+' (codes "OK" ++ 13 ∷ 10 ∷ rest) live)
      ∙ gets-ok (record t { sent = cmd ∷ t.sent }) rest live

  pub logged_in-accepted :
      (t : RedisSock) (cmd : Option Bytes) (chosen : Bool) (rest : Bytes)
      → is_failed t.status ≡ false
      → redis_sock_auth_cmd t ≡ cmd
      → nonzero t.db_number ≡ chosen
      → logged_in
          (reselect_db writer (suc fuel))
          (redis_sock_auth writer (at t (auth_reply cmd (select_reply chosen rest))))
        ≡ some (
          record (at t rest) {
            status = ready;
            sent = select_sent chosen (select_cmd t) (auth_sent cmd t.sent);
          },
          reopened,
        )
  unfolding logged_in selected reselect_db select_cmd is_ok if_ok is_failed
  logged_in-accepted t cmd false rest live is_cmd is_chosen =
      rw (auth-accepted t cmd rest live is_cmd, logged_in, is_chosen) refl
  logged_in-accepted t cmd true rest live is_cmd is_chosen =
      let t' = record t { status = authenticated; sent = auth_sent cmd t.sent } in
      rw (auth-accepted t cmd (ok_line rest) live is_cmd, logged_in, is_chosen)
        (ap selected (
          ap (λ o. if_ok o (λ s'. expect is_ok (redis_sock_read (suc fuel) s')))
            (write-live (select_cmd t) t' b'+' (codes "OK" ++ 13 ∷ 10 ∷ rest) refl)
          ∙ read-ok (record t' { sent = select_cmd t ∷ t'.sent }) rest refl))
