-- ===== src/Connect/Check.antt =====
-- redis-6.0.2/library.c: redis_sock_write, redis_check_eof with its retries, and
-- redis_sock_server_open.
use icore_tax_gateway.Base.{
  ℕ, zero, suc, Bool, true, false, ◌||◌, not, Option, none, some, ◌∷◌, Bytes, codes, ◌==◌,
  if◌then◌else◌,
}
use icore_tax_gateway.Base.Int.{ℤ, pos}
use icore_tax_gateway.Zend.{Zend}
use icore_tax_gateway.Backoff.{Random, RedisBackoff, redis_backoff_reset, redis_backoff_compute}
use icore_tax_gateway.Cluster.Abort.{is_multi}
use icore_tax_gateway.Sock.{
  Stream, RedisSock, failed, disconnected, connected, authenticated, ready, is_failed,
  throw_exception, redis_sock_disconnect, connection_lost,
}
use icore_tax_gateway.Connect.{Net, Outcome, if_ok}
use icore_tax_gateway.Connect.Auth.{redis_sock_auth, reselect_db, redis_sock_connect}

-- How a retry ends: the connection is ready, it is given up with a message, or there is another.
pub data Retry : Type 0 where
  reopened again : Retry
  broken : Bytes → Retry

-- `redis_sock->dbNumber`, as a condition.
unfoldable pub nonzero : ℤ → Bool
nonzero (pos zero) = false
nonzero _ = true

-- Close the existing stream before reconnecting; the mode stays.
unfoldable pub close_before : RedisSock → RedisSock
close_before s = elim s.stream [ none ↦ s | some stream ↦ redis_sock_disconnect true false s ]

-- The delay, and the state behind it; a delay of zero is not slept.
unfoldable pub sleep_for : RedisSock → RedisBackoff × ℕ → RedisSock
sleep_for s (backoff, delay) =
    if delay == 0
    then record s { backoff = backoff }
    else record s { backoff = backoff; slept = delay ∷ s.slept }

-- Whether the connection is ready after SELECT.
unfoldable pub selected : Outcome → Option (RedisSock × Retry)
selected none = none
selected (some (s, false)) = some (s, broken (codes "SELECT failed while reconnecting"))
selected (some (s, true)) = some (record s { status = ready }, reopened)

unfoldable pub logged_in : (RedisSock → Outcome) → Outcome → Option (RedisSock × Retry)
unfolding selected nonzero
logged_in select none = none
logged_in select (some (s, false)) = some (s, broken (codes "AUTH failed while reconnecting"))
logged_in select (some (s, true)) =
    let s' = record s { status = authenticated } in
    let chosen = select s' in
    if nonzero s.db_number then selected chosen else selected (some (s', true))

-- The loop of the retries, and what follows it.
unfoldable pub finish_retries : Bool → Option (RedisSock × Retry) → Outcome
finish_retries no_throw none = none
finish_retries no_throw (some (s, reopened)) = some (s, true)
finish_retries no_throw (some (s, again)) =
    some (connection_lost (codes "Connection lost") no_throw s, false)
finish_retries no_throw (some (s, broken errmsg)) = some (connection_lost errmsg no_throw s, false)

unfoldable pub more_retries :
    (RedisSock → Option (RedisSock × Retry))
    → Option (RedisSock × Retry)
    → Option (RedisSock × Retry)
more_retries next none = none
more_retries next (some (s, again)) = next s
more_retries next (some (s, reopened)) = some (s, reopened)
more_retries next (some (s, broken errmsg)) = some (s, broken errmsg)

module _ ⦃n : Stream⦄ ⦃w : Net⦄ ⦃z : Zend⦄ (random : Random) where
  -- redis_sock_write, given the check of the connection.
  unfoldable pub write_after : (RedisSock → Outcome) → Bytes → RedisSock → Outcome
  write_after check cmd s = if_ok (check s) (λ s'. elim s'.stream [
    | none ↦ none
    | some unread ↦
        (if w.write unread cmd
          then some (record s' { sent = cmd ∷ s'.sent }, true)
          else some (s', false))
  ])

  -- Check for EOF again, once there is a stream.
  unfoldable pub check_again :
      ℕ → (Bytes → RedisSock → Outcome) → Outcome → Option (RedisSock × Retry)
  unfolding logged_in
  check_again fuel write none = none
  check_again fuel write (some (s, false)) = some (s, again)
  check_again fuel write (some (s, true)) = elim s.stream [
    | none ↦ none
    | some unread ↦
        (let login = logged_in (reselect_db write fuel) (redis_sock_auth write s) in
          if n.eof unread then some (s, again) else login)
  ]

  -- The body of the loop.
  unfoldable pub retry_once :
      ℕ → (Bytes → RedisSock → Outcome) → ℕ → RedisSock → Option (RedisSock × Retry)
  unfolding check_again sleep_for close_before
  retry_once fuel write retry_index s =
      let closed = close_before s in
      elim (redis_backoff_compute random closed.backoff retry_index) [
        | none ↦ none
        | some next ↦ check_again fuel write (redis_sock_connect write (sleep_for closed next))
      ]

  -- for (retry_index = 0; retry_index < max_retries; ++retry_index), with the retries that are left.
  unfoldable pub retry_loop :
      ℕ → (Bytes → RedisSock → Outcome) → ℕ → ℕ → RedisSock → Option (RedisSock × Retry)
  unfolding retry_once more_retries
  retry_loop fuel write zero retry_index s = some (s, again)
  retry_loop fuel write (suc left) retry_index s =
      more_retries (λ s'. retry_loop fuel write left (suc retry_index) s')
        (retry_once fuel write retry_index s)

  -- What is done when the end of the stream is reached.
  unfoldable pub lost_stream : ℕ → (Bytes → RedisSock → Outcome) → Bool → Bool → RedisSock → Outcome
  unfolding retry_loop finish_retries
  lost_stream fuel write no_retry no_throw s =
      let s' = record s { backoff = redis_backoff_reset s.backoff } in
      let retried = retry_loop fuel write s.max_retries 0 s' in
      if is_multi s.mode || s.watching
      then some (
        connection_lost (codes "Connection lost and socket is in MULTI/watching mode") no_throw s,
        false,
      )
      else if no_retry
      then finish_retries no_throw (some (s', again))
      else finish_retries no_throw retried

  unfoldable pub closed_already : Bool → RedisSock → Outcome
  closed_already no_throw s =
      some (if no_throw then s else throw_exception (codes "Connection closed") s, false)

  unfoldable pub redis_check_eof : ℕ → Bool → Bool → RedisSock → Outcome
  unfolding lost_stream closed_already write_after
  redis_check_eof zero no_retry no_throw s = none
  redis_check_eof (suc fuel) no_retry no_throw s =
      let write = write_after (λ s'. redis_check_eof fuel false false s') in
      elim s.stream [
        | none ↦ closed_already no_throw s
        | some unread ↦
            (let lost = lost_stream fuel write no_retry no_throw s in
              if is_failed s.status
              then closed_already no_throw s
              else if not (n.eof unread)
              then some (s, true)
              else lost)
      ]

  unfoldable pub redis_sock_write : ℕ → Bytes → RedisSock → Outcome
  unfolding redis_check_eof write_after
  redis_sock_write fuel = write_after (redis_check_eof fuel false false)

  -- The states through which a connection is opened: each falls through to the next.
  unfoldable pub open_authenticated : ℕ → RedisSock → Outcome
  unfolding nonzero redis_sock_write
  open_authenticated fuel s =
      let select =
        if_ok (reselect_db (redis_sock_write fuel) fuel s)
          (λ s'. some (record s' { status = ready }, true)) in
      if nonzero s.db_number then select else some (record s { status = ready }, true)

  unfoldable pub open_connected : ℕ → RedisSock → Outcome
  unfolding open_authenticated
  open_connected fuel s =
      if_ok (redis_sock_auth (redis_sock_write fuel) s)
        (λ s'. open_authenticated fuel (record s' { status = authenticated }))

  unfoldable pub redis_sock_server_open : ℕ → RedisSock → Outcome
  unfolding open_connected open_authenticated
  redis_sock_server_open fuel s = elim s.status [
    | disconnected ↦
        if_ok (redis_sock_connect (redis_sock_write fuel) s)
          (λ s'. open_connected fuel (record s' { status = connected }))
    | connected ↦ open_connected fuel s
    | authenticated ↦ open_authenticated fuel s
    | ready ↦ some (s, true)
    | failed ↦ some (s, false)
  ]
