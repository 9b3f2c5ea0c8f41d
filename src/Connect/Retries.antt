-- ===== src/Connect/Retries.antt =====
-- Retries of a connection that is not from a pool, and that fail.
use icore_tax_gateway.Base.{
  ℕ, zero, suc, ◌+◌, ◌<◌, ◌≡◌, refl, ap, ◌∙◌, Option-cases, inl, inr, Bool, false, Option, none,
  some, List, [], ◌∷◌, Bytes, arith, length, leb, ◌==◌,
}
use icore_tax_gateway.Zend.{Zend}
use icore_tax_gateway.Backoff.{
  Random, RedisBackoff, redis_backoff_reset, redis_backoff_compute, algorithms,
}
use icore_tax_gateway.Cluster.Abort.{atomic}
use icore_tax_gateway.Sock.{
  Stream, RedisSock, failed, disconnected, throw_exception, redis_sock_set_err,
  redis_sock_disconnect, connection_lost, close_stream, give_up_stream,
}
use icore_tax_gateway.Connect.{Net, Outcome, transport, open_stream, open_limited}
use icore_tax_gateway.Connect.Auth.{redis_sock_connect, leave_stream}
use icore_tax_gateway.Connect.Check.{
  sleep_for, close_before, check_again, retry_once, retry_loop, more_retries, reopened, again,
}

-- A delay for every retry, whatever the algorithm, as long as it is one of the table.
abbrev pub HasDelay : Option (RedisBackoff × ℕ) → Type 0
HasDelay none = ⊥
HasDelay (some (b, delay)) = b.algorithm < algorithms

pub computes-HasDelay :
    (random : Random) (b : RedisBackoff) (i : ℕ)
    → b.algorithm < algorithms
    → HasDelay (redis_backoff_compute random b i)
unfolding redis_backoff_compute
computes-HasDelay random b i h = ground arith

pub next_delay :
    (o : Option (RedisBackoff × ℕ))
    → HasDelay o
    → (b : RedisBackoff) × (delay : ℕ) × (o ≡ some (b, delay)) × (b.algorithm < algorithms)
next_delay none h = absurd h
next_delay (some (b, delay)) h = (b, delay, refl, h)

-- A connection without a stream, after `attempts` tries: the delays and the last error have changed
-- and nothing else.
abbrev pub idle : RedisSock → RedisBackoff → List ℕ → Option Bytes → ℕ → RedisSock
idle s b slept' e k = record s {
  stream = none;
  status = disconnected;
  watching = false;
  backoff = b;
  slept = slept';
  err = e;
  attempts = k;
}

-- A number of the model is the same after a choice.
pub slept-idle :
    (s : RedisSock) (b b' : RedisBackoff) (l : List ℕ) (e : Option Bytes) (k delay : ℕ)
    → (l' : List ℕ) × (sleep_for (idle s b l e k) (b', delay) ≡ idle s b' l' e k)
unfolding sleep_for
slept-idle s b b' l e k zero = (l, refl)
slept-idle s b b' l e k (suc delay) =
    let waits : (suc delay == 0) ≡ false = ground arith in (suc delay ∷ l, rw waits refl)

limited-own :
    ⦃w : Net⦄ (address : Bytes) (s : RedisSock)
    → s.persistent ≡ false
    → open_limited address s ≡ open_stream address s
unfolding open_limited
limited-own address s own =
    elim s.pool
      as (λ pool.
        open_limited address (record s { pool = pool })
        ≡ open_stream address (record s { pool = pool })) [ none ↦ refl | some p ↦ rw own refl ]

set_err-some :
    (estr : Bytes) (s : RedisSock)
    → (e : Option Bytes) × (redis_sock_set_err estr s ≡ record s { err = e })
unfolding redis_sock_set_err
set_err-some [] s = (none, refl)
set_err-some (c ∷ estr) s = (some (c ∷ estr), refl)

refused-idle :
    ⦃w : Net⦄ (address : Bytes) (s : RedisSock) (b : RedisBackoff) (l : List ℕ) (e : Option Bytes)
    (k : ℕ)
    → w.xport_create k address ≡ none
    → (e' : Option Bytes) × (open_stream address (idle s b l e k)
        ≡ some (idle s b l e' (k + 1), false))
unfolding open_stream
refused-idle ⦃w = w⦄ address s b l e k refused = elim (Option-cases (w.xport_error k address)) [
  | inl silent ↦ (e, rw (refused, open_stream, silent) refl)
  | inr (estr, said) ↦
      (let (e', set) = set_err-some estr (idle s b l e (k + 1)) in
        (e', rw (refused, open_stream, said) (ap (λ t. some (t, false)) set)))
]

module _ ⦃n : Stream⦄ ⦃w : Net⦄ ⦃z : Zend⦄ (random : Random) (fuel : ℕ)
    (write : Bytes → RedisSock → Outcome) (s : RedisSock) (address : Bytes)
    (own : s.persistent ≡ false) (known : transport s ≡ (address, s.port))
    (short : leb 1024 (length address) ≡ false) where
  pub connect-own :
      (b : RedisBackoff) (l : List ℕ) (e : Option Bytes) (k : ℕ)
      → redis_sock_connect write (idle s b l e k) ≡ open_stream address (idle s b l e k)
  unfolding redis_sock_connect transport leave_stream
  connect-own b l e k =
      rw (known, short, own)
        (limited-own address (record (idle s b l e k) { persistent = false }) refl)

  fails-once :
      (i : ℕ) (b : RedisBackoff) (l : List ℕ) (e : Option Bytes) (k : ℕ)
      → b.algorithm < algorithms
      → w.xport_create k address ≡ none
      → (b' : RedisBackoff) × (l' : List ℕ) × (e' : Option Bytes) × (retry_once random fuel write i
            (idle s b l e k)
          ≡ some (idle s b' l' e' (k + 1), again))
        × (b'.algorithm < algorithms)
  unfolding retry_once close_before check_again
  fails-once i b l e k known_algorithm refused =
      let (b', delay, computes, known') =
        next_delay (redis_backoff_compute random b i)
          (computes-HasDelay random b i known_algorithm) in
      let (l', slept') = slept-idle s b b' l e k delay in
      let (e', refused') = refused-idle address s b' l' e k refused in
      (
        b',
        l',
        e',
        rw (computes, retry_once, slept', connect-own b' l' e k, refused', check_again) refl,
        known',
      )

  pub same_place :
      (left left' i i' k k' : ℕ) (b : RedisBackoff) (l : List ℕ) (e : Option Bytes)
      → left ≡ left'
      → i ≡ i'
      → k ≡ k'
      → retry_loop random fuel write left i (idle s b l e k)
        ≡ retry_loop random fuel write left' i' (idle s b l e k')
  same_place left left' i i' k k' b l e o p q =
      ap (λ x. retry_loop random fuel write x i (idle s b l e k)) o
      ∙ ap (λ x. retry_loop random fuel write left' x (idle s b l e k)) p
      ∙ ap (λ x. retry_loop random fuel write left' i' (idle s b l e x)) q

  goes-on :
      (left i : ℕ) (t t' : RedisSock)
      → retry_once random fuel write i t ≡ some (t', again)
      → retry_loop random fuel write (suc left) i t ≡ retry_loop random fuel write left (suc i) t'
  unfolding retry_loop more_retries
  goes-on left i t t' once = rw (once, more_retries) refl

  pub stops :
      (left i : ℕ) (t t' : RedisSock)
      → retry_once random fuel write i t ≡ some (t', reopened)
      → retry_loop random fuel write (suc left) i t ≡ some (t', reopened)
  unfolding retry_loop more_retries
  stops left i t t' once = rw (once, more_retries) refl

  -- Attempts that fail are passed over.
  pub fails-many :
      (j left i : ℕ) (b : RedisBackoff) (l : List ℕ) (e : Option Bytes) (k : ℕ)
      → b.algorithm < algorithms
      → ((m : ℕ) → m < j → w.xport_create (k + m) address ≡ none)
      → (b' : RedisBackoff) × (l' : List ℕ) × (e' : Option Bytes) × (retry_loop random fuel write
            (j + left)
            i
            (idle s b l e k)
          ≡ retry_loop random fuel write left (i + j) (idle s b' l' e' (k + j)))
        × (b'.algorithm < algorithms)
  fails-many zero left i b l e k known_algorithm refused = (
    b,
    l,
    e,
    same_place (0 + left) left i (i + 0) k (k + 0) b l e (omega arith) (omega arith) (omega arith),
    known_algorithm,
  )
  fails-many (suc j) left i b l e k known_algorithm refused =
      let (b', l', e', once, known') =
        fails-once i b l e k known_algorithm
          (ap (λ a. w.xport_create a address) (omega arith) ∙ refused 0 (omega arith)) in
      let (b'', l'', e'', later, known'') =
        fails-many j left (suc i) b' l' e' (k + 1) known' (λ m below.
          ap (λ a. w.xport_create a address) (omega arith) ∙ refused (suc m) (omega arith)) in
      (
        b'',
        l'',
        e'',
        same_place (suc j + left) (suc (j + left)) i i k k b l e (omega arith) refl refl
            ∙ goes-on (j + left) i (idle s b l e k) (idle s b' l' e' (k + 1)) once
            ∙ later
            ∙ same_place left left (suc i + j) (i + suc j) (k + 1 + j) (k + suc j) b'' l'' e'' refl
                (omega arith) (omega arith),
        known'',
      )

  -- A lost connection is closed before the first retry.
  pub first-idle :
      (left : ℕ) (unread : Bytes) (b : RedisBackoff)
      → retry_loop random fuel write (suc left) 0 (record s { stream = some unread; backoff = b })
        ≡ retry_loop random fuel write (suc left) 0 (idle s b s.slept s.err s.attempts)
  unfolding retry_loop retry_once close_before redis_sock_disconnect close_stream give_up_stream
  first-idle left unread b = rw own refl

  pub none-left :
      (unread : Bytes) (i : ℕ)
      → s.backoff.algorithm < algorithms
      → ((m : ℕ) → m < i → w.xport_create (s.attempts + m) address ≡ none)
      → (t : RedisSock) × (retry_loop random fuel write i 0
            (record s { stream = some unread; backoff = redis_backoff_reset s.backoff })
          ≡ some (t, again))
        × (t.attempts ≡ s.attempts + i)
        × (t.sent ≡ s.sent)
  unfolding retry_loop redis_backoff_reset
  none-left unread zero known_algorithm refused = (_, refl, omega arith, refl)
  none-left unread (suc i) known_algorithm refused =
      let (b', l', e', loop, known') =
        fails-many (suc i) 0 0 (redis_backoff_reset s.backoff) s.slept s.err s.attempts
          known_algorithm refused in
      (
        idle s b' l' e' (s.attempts + suc i),
        first-idle i unread (redis_backoff_reset s.backoff)
            ∙ same_place (suc i) (suc i + 0) 0 0 s.attempts s.attempts
                (redis_backoff_reset s.backoff) s.slept s.err (omega arith) refl refl
            ∙ loop,
        refl,
        refl,
      )

-- What is left of a connection that is given up.
pub lost_lem :
    (errmsg : Bytes) (no_throw : Bool) (s : RedisSock)
    → ((connection_lost errmsg no_throw s).status ≡ failed)
      × ((connection_lost errmsg no_throw s).stream ≡ none)
      × ((connection_lost errmsg no_throw s).mode ≡ atomic)
      × ((connection_lost errmsg no_throw s).watching ≡ false)
      × ((connection_lost errmsg no_throw s).attempts ≡ s.attempts)
      × ((connection_lost errmsg no_throw s).sent ≡ s.sent)
unfolding connection_lost redis_sock_disconnect close_stream give_up_stream throw_exception
lost_lem errmsg no_throw s = ground arith
