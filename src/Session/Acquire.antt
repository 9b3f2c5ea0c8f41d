-- ===== src/Session/Acquire.antt =====
-- What lock_acquire promises, whatever the servers answer.
use icore_tax_gateway.Base.{
  ℕ, zero, suc, ◌+◌, ◌≤◌, ◌<◌, ◌≡◌, refl, true, false, ◌⊎◌, inl, inr, Option, some, List, ◌∷◌,
  Bytes, arith, length, ltb, ◌∙◌, ap, ◌≢◌, le→leb, lt→ltb,
}
use icore_tax_gateway.Base.Int.{pos}
use icore_tax_gateway.Zend.{Zend}
use icore_tax_gateway.Session.{LockStatus, Ini, Process, Server, redis_simple_cmd}
use icore_tax_gateway.Session.Lock.{
  is_zero, Attempt, success, negative, failure, set_session_lock_key, max_retries, tries_left,
  sleeps, Run, set_locked, try_lock, lock_command, lock_expiry, name_lock, lock_acquire,
}

Attempt-cases : (a : Attempt) → (a ≡ success) ⊎ (a ≡ failure) ⊎ (a ≡ negative)
Attempt-cases success = inl refl
Attempt-cases failure = inr (inl refl)
Attempt-cases negative = inr (inr refl)

-- The attempts of one call as steps: one that is refused is repeated while retries are left.
pub data Tries (server : Server) (cmd : Bytes) : ℕ → Run → Run → Type 0 where
  gained :
      (retries : ℕ) (run : Run)
      → set_session_lock_key (server (cmd ∷ run.sent)) ≡ success
      → Tries server cmd retries run
          (record run { status = set_locked run.status true; sent = cmd ∷ run.sent })
  broke :
      (retries : ℕ) (run : Run)
      → set_session_lock_key (server (cmd ∷ run.sent)) ≡ failure
      → Tries server cmd retries run
          (record run { status = set_locked run.status false; sent = cmd ∷ run.sent })
  gave_up :
      (run : Run)
      → set_session_lock_key (server (cmd ∷ run.sent)) ≡ negative
      → Tries server cmd 0 run (record run { sent = cmd ∷ run.sent })
  again :
      (retries : ℕ) (run run' : Run)
      → set_session_lock_key (server (cmd ∷ run.sent)) ≡ negative
      → Tries server cmd retries (record run { sent = cmd ∷ run.sent; slept = run.slept + 1 }) run'
      → Tries server cmd (suc retries) run run'

module _ (server : Server) (cmd : Bytes) where
  module _ (fuel n i : ℕ) (run : Run) where
    -- The loop past its last attempt.
    loop_ends : n < i → try_lock server cmd (pos n) (suc fuel) i run ≡ some run
    unfolding try_lock tries_left
    loop_ends h = ground arith

    ends_locked :
        i ≤ n
        → set_session_lock_key (server (cmd ∷ run.sent)) ≡ success
        → try_lock server cmd (pos n) (suc fuel) i run
          ≡ some (record run { status = set_locked run.status true; sent = cmd ∷ run.sent })
    unfolding try_lock tries_left redis_simple_cmd
    ends_locked h ok = rw ok (ground arith)

    ends_unlocked :
        i ≤ n
        → set_session_lock_key (server (cmd ∷ run.sent)) ≡ failure
        → try_lock server cmd (pos n) (suc fuel) i run
          ≡ some (record run { status = set_locked run.status false; sent = cmd ∷ run.sent })
    unfolding try_lock tries_left redis_simple_cmd
    ends_unlocked h bad = rw bad (ground arith)

    goes_on :
        i < n
        → set_session_lock_key (server (cmd ∷ run.sent)) ≡ negative
        → try_lock server cmd (pos n) (suc fuel) i run
          ≡ try_lock server cmd
              (pos n)
              fuel
              (i + 1)
              (record run { sent = cmd ∷ run.sent; slept = run.slept + 1 })
    unfolding try_lock tries_left redis_simple_cmd sleeps
    goes_on h refused = rw (refused, le→leb i n (omega arith), lt→ltb i n h) refl

    last_refused :
        i ≡ n
        → set_session_lock_key (server (cmd ∷ run.sent)) ≡ negative
        → try_lock server cmd (pos n) (suc fuel) i run
          ≡ try_lock server cmd (pos n) fuel (i + 1) (record run { sent = cmd ∷ run.sent })
    unfolding try_lock tries_left redis_simple_cmd sleeps
    last_refused h refused = rw (refused, le→leb i n (omega arith), not_before i n h) refl
      where
        not_before : (i n : ℕ) → i ≡ n → ltb i n ≡ false
        not_before i n h = ground arith

  -- With a number of retries and fuel for all of them, the loop ends, by these steps.
  try_lock-Tries :
      (retries fuel n i : ℕ) (run : Run)
      → i + retries ≡ n
      → retries + 2 ≤ fuel
      → (run' : Run) × (try_lock server cmd (pos n) fuel i run ≡ some run')
        × Tries server cmd retries run run'
  try_lock-Tries retries zero n i run e h = absurd (omega arith)
  try_lock-Tries zero (suc zero) n i run e h = absurd (omega arith)
  try_lock-Tries zero (suc (suc fuel)) n i run e h =
      elim (Attempt-cases (set_session_lock_key (server (cmd ∷ run.sent)))) [
        | inl ok ↦ (_, ends_locked (suc fuel) n i run (omega arith) ok, gained zero run ok)
        | inr (inl bad) ↦
            (_, ends_unlocked (suc fuel) n i run (omega arith) bad, broke zero run bad)
        | inr (inr refused) ↦ (
          _,
          last_refused (suc fuel) n i run (omega arith) refused
              ∙ loop_ends fuel n (i + 1) (record run { sent = cmd ∷ run.sent }) (omega arith),
          gave_up run refused,
        )
      ]
  try_lock-Tries (suc retries) (suc fuel) n i run e h =
      elim (Attempt-cases (set_session_lock_key (server (cmd ∷ run.sent)))) [
        | inl ok ↦ (_, ends_locked fuel n i run (omega arith) ok, gained (suc retries) run ok)
        | inr (inl bad) ↦
            (_, ends_unlocked fuel n i run (omega arith) bad, broke (suc retries) run bad)
        | inr (inr refused) ↦
            let next : Run = record run { sent = cmd ∷ run.sent; slept = run.slept + 1 } in
            let rest = try_lock-Tries retries fuel n (i + 1) next (omega arith) (omega arith) in
            (
              rest.0,
              goes_on fuel n i run (omega arith) refused ∙ rest.1,
              again retries run rest.0 refused rest.2,
            )
      ]

-- What holds when the attempts are over: the lock is held just when the last command was answered by
-- OK; a client without it has used all its attempts, or the connection is lost; it slept between the
-- attempts, and nothing but the lock's state has changed.
pub record Settled (server : Server) (retries : ℕ) (run run' : Run) : Type 0 where
  pub by_ok : run'.status.is_locked ≡ true → set_session_lock_key (server run'.sent) ≡ success
  pub not_ok : run'.status.is_locked ≡ false → set_session_lock_key (server run'.sent) ≢ success
  pub all_used :
      set_session_lock_key (server run'.sent) ≡ negative
      → length run'.sent ≡ length run.sent + retries + 1
  pub attempts : length run'.sent ≤ length run.sent + retries + 1
  pub between : run'.slept + length run.sent + 1 ≡ run.slept + length run'.sent
  pub names_kept :
      (run'.status.lock_key ≡ run.status.lock_key)
      × (run'.status.lock_secret ≡ run.status.lock_secret)

Tries-Settled :
    {server : Server} {cmd : Bytes} {retries : ℕ} {run run' : Run}
    → Tries server cmd retries run run'
    → run.status.is_locked ≡ false
    → Settled server retries run run'
unfolding set_locked
Tries-Settled (gained retries run ok) h = record {
  by_ok = λ l. ok;
  not_ok = λ l. cc;
  all_used = λ l. cc;
  attempts = omega arith;
  between = omega arith;
  names_kept = (refl, refl);
}
Tries-Settled (broke retries run bad) h = record {
  by_ok = λ l. cc;
  not_ok = λ l k. cc;
  all_used = λ l. cc;
  attempts = omega arith;
  between = omega arith;
  names_kept = (refl, refl);
}
Tries-Settled (gave_up run refused) h = record {
  by_ok = λ l. cc;
  not_ok = λ l k. cc;
  all_used = λ l. omega arith;
  attempts = omega arith;
  between = omega arith;
  names_kept = (refl, refl);
}
Tries-Settled (again retries run run' refused rest) h =
    let later = Tries-Settled rest h in
    record {
      by_ok = later.by_ok;
      not_ok = later.not_ok;
      all_used = λ l. omega (arith, later.all_used l);
      attempts = omega (arith, later.attempts);
      between = omega (arith, later.between);
      names_kept = later.names_kept;
    }

module _ ⦃z : Zend⦄ where
  -- Past the first return the result is what the loop leaves.
  lock_acquire-loop :
      (prefix : Option Bytes) (server : Server) (ini : Ini) (process : Process) (fuel : ℕ)
      (status : LockStatus) (sent : List Bytes) (run : Run)
      → status.is_locked ≡ false
      → is_zero ini.locking_enabled ≡ false
      → try_lock server
          (lock_command prefix (name_lock process status) (lock_expiry ini))
          (max_retries ini)
          fuel
          0
          (record { status = name_lock process status; sent = sent; slept = 0 })
        ≡ some run
      → lock_acquire prefix server ini process fuel status sent ≡ some (run, run.status.is_locked)
  unfolding lock_acquire
  lock_acquire-loop prefix server ini process fuel status sent run free on loop =
      simp (free, on, loop)

  -- With locking on, no lock held, and a number of retries, lock_acquire returns, whatever the servers
  -- answer: SUCCESS just when the last SET was answered by OK, after at most one attempt more than there
  -- are retries, all of which are used unless the lock is gained or the connection lost.
  pub lock_acquire-Settled :
      (prefix : Option Bytes) (server : Server) (ini : Ini) (process : Process) (fuel retries : ℕ)
      (status : LockStatus) (sent : List Bytes)
      → status.is_locked ≡ false
      → is_zero ini.locking_enabled ≡ false
      → max_retries ini ≡ pos retries
      → retries + 2 ≤ fuel
      → (run : Run) × (lock_acquire prefix server ini process fuel status sent
          ≡ some (run, run.status.is_locked))
        × Settled server retries
            (record { status = name_lock process status; sent = sent; slept = 0 })
            run
  lock_acquire-Settled prefix server ini process fuel retries status sent free on count enough =
      let named = name_lock process status in
      let cmd = lock_command prefix named (lock_expiry ini) in
      let start : Run = record { status = named; sent = sent; slept = 0 } in
      let run = try_lock-Tries server cmd retries fuel retries 0 start (omega arith) enough in
      (
        run.0,
        lock_acquire-loop prefix server ini process fuel status sent run.0 free on
            (ap (λ r. try_lock server cmd r fuel 0 start) count ∙ run.1),
        Tries-Settled run.2 (unfold name_lock in free),
      )
