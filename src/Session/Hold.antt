-- ===== src/Session/Hold.antt =====
-- What write_allowed and lock_release promise, whatever the servers answer.
use icore_tax_gateway.Base.{
  ◌≡◌, Bool, true, false, not, Option, none, List, [], ◌∷◌, Bytes, codes, arith, length,
  if◌then◌else◌, Bool-cases, inl, inr, ap, sym, ◌∙◌,
}
use icore_tax_gateway.Base.Text.{bytes_eq_lem, c_string}
use icore_tax_gateway.Zend.{Zend}
use icore_tax_gateway.Resp.Spprintf.{string, redis_spprintf}
use icore_tax_gateway.Session.{
  LockStatus, Ini, Answer, lost, unanswered, null_reply, replied, Server, redis_simple_cmd,
}
use icore_tax_gateway.Session.Lock.{
  is_zero, set_locked, is_lock_secret, still_locked, write_allowed, release_command, is_reply,
  release_round, release_sha, release_lua, lock_release,
}

-- The answer is a reply with the secret: the same length, and the same text.
pub data HasSecret (secret : Bytes) : Answer → Type 0 where
  has_secret :
      (reply : Bytes)
      → length reply ≡ length secret
      → c_string reply ≡ c_string secret
      → HasSecret secret (replied reply)

still_locked-HasSecret :
    (answer : Answer) (status : LockStatus)
    → still_locked answer status ≡ true
    → HasSecret status.lock_secret answer
unfolding still_locked is_lock_secret
still_locked-HasSecret lost status h = cc
still_locked-HasSecret unanswered status h = cc
still_locked-HasSecret null_reply status h = cc
still_locked-HasSecret (replied reply) status h =
    has_secret reply (ground arith)
      (bytes_eq_lem (c_string reply) (c_string status.lock_secret) (ground arith))

module _ ⦃z : Zend⦄ (prefix : Option Bytes) where
  -- The command that asks for the secret.
  abbrev pub ask : LockStatus → Bytes
  ask status = (redis_spprintf prefix none (codes "GET") (string status.lock_key ∷ [])).0

module _ ⦃z : Zend⦄ (prefix : Option Bytes) (server : Server) where
  not_held :
      (ini : Ini) (status : LockStatus) (sent : List Bytes)
      → is_zero ini.locking_enabled ≡ false
      → status.is_locked ≡ false
      → (write_allowed prefix server ini status sent).2 ≡ false
  unfolding write_allowed
  not_held ini status sent on free = simp (on, free)

  pub checked :
      (ini : Ini) (status : LockStatus) (sent : List Bytes)
      → is_zero ini.locking_enabled ≡ false
      → is_zero ini.lock_expire ≡ false
      → status.is_locked ≡ true
      → let still = still_locked (server (ask prefix status ∷ sent)) status in
        write_allowed prefix server ini status sent
        ≡ (set_locked status still, ask prefix status ∷ sent, still)
  unfolding write_allowed redis_simple_cmd set_locked
  checked ini status sent on expires held = simp (on, expires, held)

  held_again : (status : LockStatus) → status.is_locked ≡ true → set_locked status true ≡ status
  unfolding set_locked
  held_again status held = ap (λ b. record status { is_locked = b }) (sym held)

  -- With locking on and locks that expire, a write is allowed only to a client that has held the lock,
  -- and to which the server, asked for the key of the lock, answers with the secret of this client;
  -- the state of the lock stays as it is.
  pub write_allowed-HasSecret :
      (ini : Ini) (status : LockStatus) (sent : List Bytes)
      → is_zero ini.locking_enabled ≡ false
      → is_zero ini.lock_expire ≡ false
      → (write_allowed prefix server ini status sent).2 ≡ true
      → (status.is_locked ≡ true)
        × ((write_allowed prefix server ini status sent).0 ≡ status)
        × HasSecret status.lock_secret (server (ask prefix status ∷ sent))
  write_allowed-HasSecret ini status sent on expires allowed = elim (Bool-cases status.is_locked) [
    | inl held ↦
        let run = checked ini status sent on expires held in
        let still = sym (ap (λ r. r.2) run) ∙ allowed in
        (
          held,
          ap (λ r. r.0) run ∙ ap (set_locked status) still ∙ held_again status held,
          still_locked-HasSecret (server (ask prefix status ∷ sent)) status still,
        )
    | inr free ↦ absurd (contradicts (not_held ini status sent on free) allowed)
  ]
    where
      contradicts : {b : Bool} → b ≡ false → b ≡ true → ⊥
      contradicts f t = cc

  -- A lock that is held is released by the script that the server may have, or else by its text: the
  -- text is sent just when no reply comes to the first command, and the lock is held after it just when
  -- no reply comes to either.
  pub lock_release_lem :
      (status : LockStatus) (sent : List Bytes)
      → status.is_locked ≡ true
      → let sha = release_command prefix status (codes "EVALSHA") release_sha ∷ sent in
        let text = release_command prefix status (codes "EVAL") release_lua ∷ sha in
        lock_release prefix server status sent ≡ (
          if is_reply (server sha)
          then (set_locked status false, sha)
          else (set_locked status (not (is_reply (server text))), text))
  unfolding lock_release release_round redis_simple_cmd set_locked
  lock_release_lem status sent held =
      let sha = release_command prefix status (codes "EVALSHA") release_sha ∷ sent in
      elim (Bool-cases (is_reply (server sha))) [
        | inl came ↦ simp (held, came)
        | inr none_came ↦
            let text = release_command prefix status (codes "EVAL") release_lua ∷ sha in
            elim (Bool-cases (is_reply (server text))) [
              | inl later ↦ simp (held, none_came, later)
              | inr never ↦
                  simp (held, none_came, never) (ap (λ s. (s, text)) (sym (held_again status held)))
            ]
      ]
