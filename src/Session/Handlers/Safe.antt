-- ===== src/Session/Handlers/Safe.antt =====
-- Reading and writing a session, and its lock.
use icore_tax_gateway.Base.{
  ℕ, ◌+◌, ◌≤◌, ◌≡◌, refl, ap, sym, subst, ◌∙◌, Bool, true, false, Option, none, some, List, [], ◌∷◌,
  ◌++◌, Bytes, codes, arith, if◌then◌else◌,
}
use icore_tax_gateway.Base.Int.{pos}
use icore_tax_gateway.Zend.{Zend}
use icore_tax_gateway.Resp.Spprintf.{string, int, redis_spprintf}
use icore_tax_gateway.Session.{
  LockStatus, Ini, Process, Server, redis_simple_cmd, redis_session_key,
}
use icore_tax_gateway.Session.Lock.{
  is_zero, max_retries, Run, name_lock, lock_acquire, write_allowed,
}
use icore_tax_gateway.Session.Acquire.{lock_acquire-Settled}
use icore_tax_gateway.Session.Hold.{HasSecret, ask, checked, write_allowed-HasSecret}
use icore_tax_gateway.Session.Handlers.{
  Handler, used, session_gc_maxlifetime, read_value, ok_reply, select_sock, exchange, finish_read,
  ps_read, finish_write, ps_write,
}

used-sent :
    (st : Handler) (s : ℕ) (status : LockStatus) (commands : List Bytes)
    → (used st s status commands).sent s ≡ commands
unfolding used
used-sent st s status commands = ground arith

module _ ⦃z : Zend⦄ where
  -- The command that writes a session.
  abbrev pub setex : Handler → ℕ → Bytes → Ini → Bytes → Bytes
  setex st s session ini val =
      (redis_spprintf (st.prefix s) none (codes "SETEX")
        (string session ∷ int (session_gc_maxlifetime ini.gc_maxlifetime) ∷ string val ∷ [])).0

  -- The command that reads a session.
  abbrev pub get : Handler → ℕ → Bytes → Bytes
  get st s session = (redis_spprintf (st.prefix s) none (codes "GET") (string session ∷ [])).0

  -- What PS_READ leaves: its run through lock_acquire, with the lock of the session held at the end and the
  -- answer to the GET that is sent next; or without the lock, and then nothing is read and nothing sent.
  abbrev pub ReadLocked :
      Handler → ℕ → Server → Bytes → Option (Run × Bool) → Handler × Option Bytes → Type 0
  ReadLocked st s server session acquired (st', value) =
      (run : Run) × (locked : Bool) × (acquired ≡ some (run, locked))
      × (run.status.is_locked ≡ locked)
      × (run.status.lock_key ≡ session ++ codes "_LOCK")
      × (st'.lock_status ≡ run.status)
      × (value ≡ (if locked then read_value (server (get st s session ∷ run.sent)) else none))
      × (st'.sent s ≡ (if locked then get st s session ∷ run.sent else run.sent))

module _ ⦃z : Zend⦄ (opens : ℕ → Bool) (net : ℕ → Server) where
  finish_read-ReadLocked :
      (st : Handler) (s : ℕ) (session : Bytes) (run : Run) (locked : Bool)
      → run.status.is_locked ≡ locked
      → run.status.lock_key ≡ session ++ codes "_LOCK"
      → ReadLocked st s
          (net s)
          session
          (some (run, locked))
          (finish_read opens net st s session (run, locked))
  unfolding finish_read exchange redis_simple_cmd used
  finish_read-ReadLocked st s session run true held named =
      let same = used-sent st s run.status run.sent in
      (
        run,
        true,
        refl,
        held,
        named,
        refl,
        ap (λ c. read_value (net s (get st s session ∷ c))) same,
        used-sent (used st s run.status run.sent) s run.status _
            ∙ ap (λ c. get st s session ∷ c) same,
      )
  finish_read-ReadLocked st s session run false free named =
      (run, false, refl, free, named, refl, refl, used-sent st s run.status run.sent)

  -- With locking on, no lock held, a number of retries and a server selected, PS_READ returns. Its lock_acquire
  -- comes to an end with the key of the lock of that session; if it has the lock, the GET of the session is the
  -- next command behind those of lock_acquire and the value is what its answer says; else nothing is read and no
  -- command follows.
  pub ps_read-ReadLocked :
      (ini : Ini) (process : Process) (fuel retries : ℕ) (st : Handler) (key : Bytes) (s : ℕ)
      → select_sock opens st key ≡ some s
      → st.lock_status.is_locked ≡ false
      → is_zero ini.locking_enabled ≡ false
      → max_retries ini ≡ pos retries
      → retries + 2 ≤ fuel
      → (result : Handler × Option Bytes) × (ps_read opens net ini process fuel st key
          ≡ some result)
        × ReadLocked st s
            (net s)
            (redis_session_key (st.prefix s) key)
            (lock_acquire
              (st.prefix s)
              (net s)
              ini
              process
              fuel
              (record st.lock_status { session_key = redis_session_key (st.prefix s) key })
              (st.sent s))
            result
  unfolding ps_read
  ps_read-ReadLocked ini process fuel retries st key s chosen free on count enough =
      let session = redis_session_key (st.prefix s) key in
      let status : LockStatus = record st.lock_status { session_key = session } in
      let acquired =
        lock_acquire-Settled (st.prefix s) (net s) ini process fuel retries status (st.sent s) free
          on count enough in
      let run = acquired.0 in
      (
        finish_read opens net st s session (run, run.status.is_locked),
        rw (chosen, ps_read) (rw acquired.1 refl),
        subst
            (λ a.
              ReadLocked st s (net s) session a
                (finish_read opens net st s session (run, run.status.is_locked)))
            (sym acquired.1)
            (finish_read-ReadLocked st s session run run.status.is_locked refl
              (acquired.2.names_kept.0 ∙ (unfold name_lock in refl))),
      )

  finish_write-true :
      (st : Handler) (s : ℕ) (session : Bytes) (ini : Ini) (val : Bytes)
      (asked : LockStatus × List Bytes × Bool)
      → (finish_write opens net st s session ini val asked).1 ≡ true
      → (asked.2 ≡ true) × (ok_reply (net s (setex st s session ini val ∷ asked.1)) ≡ true)
  unfolding finish_write exchange redis_simple_cmd used
  finish_write-true st s session ini val (status, commands, true) h = (
    refl,
    subst (λ c. ok_reply (net s (setex st s session ini val ∷ c)) ≡ true)
        (used-sent st s status commands) h,
  )
  finish_write-true st s session ini val (status, commands, false) h = cc

  -- With locking on and locks that expire, PS_WRITE reports success only if the client held the lock,
  -- the server then answered with its secret, and the SETEX after that was answered by OK.
  pub ps_write-HasSecret :
      (ini : Ini) (st : Handler) (key val : Bytes) (s : ℕ)
      → select_sock opens st key ≡ some s
      → is_zero ini.locking_enabled ≡ false
      → is_zero ini.lock_expire ≡ false
      → (ps_write opens net ini st key val).1 ≡ true
      → let asked = ask (st.prefix s) st.lock_status ∷ st.sent s in
        let session = redis_session_key (st.prefix s) key in
        (st.lock_status.is_locked ≡ true)
        × HasSecret st.lock_status.lock_secret (net s asked)
        × (ok_reply (net s (setex st s session ini val ∷ asked)) ≡ true)
  unfolding ps_write
  ps_write-HasSecret ini st key val s chosen on expires written =
      let session = redis_session_key (st.prefix s) key in
      let allowed = write_allowed (st.prefix s) (net s) ini st.lock_status (st.sent s) in
      let wrote : (finish_write opens net st s session ini val allowed).1 ≡ true =
        sym (rw (chosen, ps_write) refl) ∙ written in
      let ok = finish_write-true st s session ini val allowed wrote in
      let safe =
        write_allowed-HasSecret (st.prefix s) (net s) ini st.lock_status (st.sent s) on expires
          ok.0 in
      let run = checked (st.prefix s) (net s) ini st.lock_status (st.sent s) on expires safe.0 in
      (
        safe.0,
        safe.2,
        subst (λ c. ok_reply (net s (setex st s session ini val ∷ c)) ≡ true) (ap (λ r. r.1) run)
            ok.1,
      )
