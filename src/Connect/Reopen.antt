-- ===== src/Connect/Reopen.antt =====
-- Connections that are lost, and opened again.
use icore_tax_gateway.Base.{
  ℕ, suc, ◌+◌, ◌-◌, ◌<◌, ◌≡◌, refl, ap, ◌∙◌, Bool, true, false, ◌||◌, Option, none, some, List, ◌∷◌,
  Bytes, codes, arith, length, leb,
}
use icore_tax_gateway.Zend.{Zend}
use icore_tax_gateway.Backoff.{
  Random, RedisBackoff, redis_backoff_reset, redis_backoff_compute, algorithms,
}
use icore_tax_gateway.Cluster.Abort.{atomic, is_multi}
use icore_tax_gateway.Sock.{
  Stream, StreamLaws, RedisSock, failed, connected, ready, is_failed, check_eof,
}
use icore_tax_gateway.Sock.Exact.{at}
use icore_tax_gateway.Connect.Retries.{
  idle, computes-HasDelay, next_delay, slept-idle, connect-own, fails-many, first-idle, none-left,
  same_place, stops, lost_lem,
}
use icore_tax_gateway.Connect.Login.{
  auth_reply, select_reply, auth_sent, select_sent, logged_in-accepted,
}
use icore_tax_gateway.Connect.{Net, Outcome, transport, open_stream}
use icore_tax_gateway.Connect.Auth.{select_cmd, redis_sock_auth_cmd}
use icore_tax_gateway.Connect.Check.{
  redis_sock_write, close_before, finish_retries, lost_stream, closed_already, redis_check_eof,
  nonzero, check_again, retry_once, retry_loop, more_retries, reopened,
}

module _ ⦃n : Stream⦄ ⦃w : Net⦄ ⦃z : Zend⦄ (random : Random) where
  -- The check that the readers of replies make is redis_check_eof with no retry, which opens nothing:
  -- with any fuel it returns, and does the same.
  pub check_eof-no_retry :
      (fuel : ℕ) (s : RedisSock)
      → redis_check_eof random (suc fuel) true false s ≡ some (check_eof s)
  unfolding redis_check_eof lost_stream closed_already finish_retries check_eof
  check_eof-no_retry fuel s = ground arith

module _ ⦃n : Stream⦄ ⦃w : Net⦄ ⦃z : Zend⦄ (laws : StreamLaws n) (random : Random) (s : RedisSock)
    (address unread : Bytes) (own : s.persistent ≡ false) (known : transport s ≡ (address, s.port))
    (short : leb 1024 (length address) ≡ false) (live : is_failed s.status ≡ false)
    (free : (is_multi s.mode || s.watching) ≡ false) (over : n.eof unread ≡ true)
    (known_algorithm : s.backoff.algorithm < algorithms) where
  abbrev reset : RedisSock
  reset = record s { stream = some unread; backoff = redis_backoff_reset s.backoff }

  retried :
      (fuel : ℕ) (no_throw : Bool)
      → redis_check_eof random (suc fuel) false no_throw (at s unread)
        ≡ finish_retries no_throw
            (retry_loop random fuel (redis_sock_write random fuel) s.max_retries 0 reset)
  unfolding redis_check_eof lost_stream redis_sock_write
  retried fuel no_throw = rw (live, over, free) refl

  -- A connection that is not from a pool is lost outside MULTI and WATCH, and no attempt to open it
  -- again succeeds: with any fuel the check ends after as many attempts as there are retries, with
  -- the status failed, no stream, the mode of single commands and no watching, and nothing sent.
  pub check_eof-gives_up :
      (fuel : ℕ) (no_throw : Bool)
      → ((m : ℕ) → m < s.max_retries → w.xport_create (s.attempts + m) address ≡ none)
      → (t : RedisSock) × (redis_check_eof random (suc fuel) false no_throw (at s unread)
          ≡ some (t, false))
        × (t.status ≡ failed)
        × (t.stream ≡ none)
        × (t.mode ≡ atomic)
        × (t.watching ≡ false)
        × (t.attempts ≡ s.attempts + s.max_retries)
        × (t.sent ≡ s.sent)
  unfolding finish_retries
  check_eof-gives_up fuel no_throw refused =
      let (u, ends, attempted, unsent) =
        none-left random fuel (redis_sock_write random fuel) s address own known short unread
          s.max_retries known_algorithm refused in
      let (st, str, mode', watching', attempts', sent') =
        lost_lem (codes "Connection lost") no_throw u in
      (
        _,
        retried fuel no_throw ∙ ap (finish_retries no_throw) ends,
        st,
        str,
        mode',
        watching',
        attempts' ∙ attempted,
        sent' ∙ unsent,
      )

  module _ (fuel : ℕ) (accepts : (unread cmd : Bytes) → w.write unread cmd ≡ true) where
    abbrev writer : Bytes → RedisSock → Outcome
    writer = redis_sock_write random (suc fuel)

    -- The connection with its login done.
    abbrev opened :
        RedisBackoff → List ℕ → Option Bytes → ℕ → Option Bytes → Bool → Bytes → RedisSock
    opened b l e k cmd chosen rest = record (at (idle s b l e k) rest) {
      status = ready;
      sent = select_sent chosen (select_cmd s) (auth_sent cmd s.sent);
    }

    opens :
        (b : RedisBackoff) (l : List ℕ) (e : Option Bytes) (k : ℕ) (greeting : Bytes)
        → w.xport_create k address ≡ some greeting
        → open_stream address (idle s b l e k)
          ≡ some (record (at (idle s b l e (k + 1)) greeting) { status = connected }, true)
    unfolding open_stream
    opens b l e k greeting created = rw (created, open_stream, own) refl

    more_to_come :
        (cmd : Option Bytes) (chosen : Bool) (c : ℕ) (rest : Bytes)
        → n.eof (auth_reply cmd (select_reply chosen (c ∷ rest))) ≡ false
    more_to_come (some cmd) chosen c rest = laws.eof_not _ _
    more_to_come none true c rest = laws.eof_not _ _
    more_to_come none false c rest = laws.eof_not _ _

    succeeds-once :
        (i : ℕ) (b : RedisBackoff) (l : List ℕ) (e : Option Bytes) (k c : ℕ) (rest : Bytes)
        (cmd : Option Bytes) (chosen : Bool)
        → b.algorithm < algorithms
        → redis_sock_auth_cmd s ≡ cmd
        → nonzero s.db_number ≡ chosen
        → w.xport_create k address ≡ some (auth_reply cmd (select_reply chosen (c ∷ rest)))
        → (b' : RedisBackoff) × (l' : List ℕ) × (retry_once random
              (suc fuel)
              writer
              i
              (idle s b l e k)
            ≡ some (opened b' l' e (k + 1) cmd chosen (c ∷ rest), reopened))
    unfolding retry_once close_before check_again redis_sock_auth_cmd select_cmd is_failed
    succeeds-once i b l e k c rest cmd chosen known' is_cmd is_chosen created =
        let (b', delay, computes, known'') =
          next_delay (redis_backoff_compute random b i) (computes-HasDelay random b i known') in
        let (l', slept') = slept-idle s b b' l e k delay in
        let login =
          logged_in-accepted laws random accepts fuel
            (record (idle s b' l' e (k + 1)) { status = connected }) cmd chosen (c ∷ rest) refl
            is_cmd is_chosen in
        (
          b',
          l',
          rw
              (
                computes,
                retry_once,
                slept',
                connect-own random (suc fuel) writer s address own known short b' l' e k,
                opens b' l' e k _ created,
                check_again,
                more_to_come cmd chosen c rest,
              )
              login,
        )

    -- A connection that is not from a pool is lost outside MULTI and WATCH, the first `j` attempts to open it
    -- again fail, `j` less than the number of retries, and the next is answered by +OK to AUTH, if there is a
    -- password, and to SELECT, if a database is chosen: the check succeeds after that attempt, with the
    -- status ready, in the mode it was in, the bytes behind the answers to come, and the two commands sent in that order.
    pub check_eof-reconnects :
        (j c : ℕ) (rest : Bytes) (cmd : Option Bytes) (chosen no_throw : Bool)
        → j < s.max_retries
        → ((m : ℕ) → m < j → w.xport_create (s.attempts + m) address ≡ none)
        → redis_sock_auth_cmd s ≡ cmd
        → nonzero s.db_number ≡ chosen
        → w.xport_create (s.attempts + j) address
          ≡ some (auth_reply cmd (select_reply chosen (c ∷ rest)))
        → (t : RedisSock) × (redis_check_eof random (suc (suc fuel)) false no_throw (at s unread)
            ≡ some (t, true))
          × (t.status ≡ ready)
          × (t.stream ≡ some (c ∷ rest))
          × (t.mode ≡ s.mode)
          × (t.attempts ≡ s.attempts + suc j)
          × (t.sent ≡ select_sent chosen (select_cmd s) (auth_sent cmd s.sent))
    unfolding finish_retries retry_loop more_retries redis_backoff_reset
    check_eof-reconnects j c rest cmd chosen no_throw below refused is_cmd is_chosen created =
        let left = s.max_retries - suc j in
        let count : s.max_retries ≡ suc (j + left) = omega arith in
        let b = redis_backoff_reset s.backoff in
        let loop = retry_loop random (suc fuel) writer in
        let place = same_place random (suc fuel) writer s address own known short in
        let (b', l', e', skipped, known') =
          fails-many random (suc fuel) writer s address own known short j (suc left) 0 b s.slept
            s.err s.attempts known_algorithm refused in
        let (b'', l'', once) =
          succeeds-once j b' l' e' (s.attempts + j) c rest cmd chosen known' is_cmd is_chosen
            created in
        (
          opened b'' l'' e' (s.attempts + j + 1) cmd chosen (c ∷ rest),
          retried (suc fuel) no_throw
              ∙ ap (finish_retries no_throw) (
                  ap (λ m. loop m 0 reset) count
                  ∙ first-idle random (suc fuel) writer s address own known short (j + left) unread
                      b
                  ∙ place (suc (j + left)) (j + suc left) 0 0 s.attempts s.attempts b s.slept s.err
                      (omega arith) refl refl
                  ∙ skipped
                  ∙ place (suc left) (suc left) (0 + j) j (s.attempts + j) (s.attempts + j) b' l' e'
                      refl (omega arith) refl
                  ∙ stops random (suc fuel) writer s address own known short left j
                      (idle s b' l' e' (s.attempts + j))
                      (opened b'' l'' e' (s.attempts + j + 1) cmd chosen (c ∷ rest)) once),
          refl,
          refl,
          refl,
          omega arith,
          refl,
        )
