-- ===== src/Connect/Tests.antt =====
-- The theorems on connections at concrete inputs.
use icore_tax_gateway.Base.{
  ℕ, ◌+◌, ◌≡◌, refl, true, false, Option, some, none, [], Bytes, codes, arith, if◌then◌else◌, ◌==◌,
}
use icore_tax_gateway.Base.Int.{pos}
use icore_tax_gateway.Base.Text.{starts_with}
use icore_tax_gateway.Zend.Host.{host}
use icore_tax_gateway.Zend.Decimal.{snprintf_ld}
use icore_tax_gateway.Backoff.{Random}
use icore_tax_gateway.Cluster.Abort.{atomic, is_multi}
use icore_tax_gateway.Sock.{RedisSock, ready, failed, is_failed}
use icore_tax_gateway.Sock.Wire.{wire, wire_laws}
use icore_tax_gateway.Sock.Exact.{at}
use icore_tax_gateway.Reply.Tests.{sock}
use icore_tax_gateway.Connect.{Net, transport}
use icore_tax_gateway.Connect.Auth.{redis_sock_auth_cmd, select_cmd}
use icore_tax_gateway.Connect.Check.{redis_check_eof, nonzero}
use icore_tax_gateway.Connect.Login.{auth_sent, select_sent}
use icore_tax_gateway.Connect.Reopen.{check_eof-gives_up, check_eof-reconnects}

abbrev least : Random
least = record {
  php_mt_rand_range = λ lo hi. lo;
  at_least = λ lo hi h. omega arith;
  at_most = λ lo hi h. h;
}

-- The first attempt fails, and the second is answered.
abbrev second_answers : ℕ → Bytes → Option Bytes
second_answers k address = if k == 1 then some (codes "+OK\r\n+OK\r\n+PONG\r\n") else none

abbrev net : Net
net = record {
  ipv6 = true;
  connection_limit = pos 0;
  echo_check_liveness = false;
  xport_create = second_answers;
  xport_error = λ k address. none;
  write = λ unread cmd. true;
  is_live = λ unread. true;
  clean = λ unread. some unread;
  uniqid = λ k. codes "id";
}

abbrev dead_net : Net
dead_net = record net { xport_create = λ k address. none }

dead_address : transport ⦃w = dead_net⦄ sock ≡ (codes "tcp://localhost:6379", pos 6379)
unfolding starts_with
dead_address = unfold transport in unfold snprintf_ld in refl

live_address : transport ⦃w = net⦄ sock ≡ (codes "tcp://localhost:6379", pos 6379)
unfolding starts_with
live_address = unfold transport in unfold snprintf_ld in refl

check_eof-gives_up_example :
    (t : RedisSock) × (redis_check_eof ⦃n = wire⦄ ⦃w = dead_net⦄ ⦃z = host⦄ least 1 false false
        (at sock [])
      ≡ some (t, false))
    × (t.status ≡ failed)
    × (t.stream ≡ none)
    × (t.mode ≡ atomic)
    × (t.watching ≡ false)
    × (t.attempts ≡ 0 + 10)
    × (t.sent ≡ [])
check_eof-gives_up_example =
    check_eof-gives_up ⦃n = wire⦄ ⦃w = dead_net⦄ ⦃z = host⦄ wire_laws least sock
      (codes "tcp://localhost:6379") [] refl dead_address refl (unfold is_failed in refl)
      (unfold is_multi in refl) (unfold wire in refl) (omega arith) 0 false (λ m below. refl)

check_eof-reconnects_example :
    (t : RedisSock) × (redis_check_eof ⦃n = wire⦄ ⦃w = net⦄ ⦃z = host⦄ least 2 false false
        (at sock [])
      ≡ some (t, true))
    × (t.status ≡ ready)
    × (t.stream ≡ some (codes "+PONG\r\n"))
    × (t.mode ≡ atomic)
    × (t.attempts ≡ 0 + 2)
    × (t.sent
        ≡ select_sent true
            (select_cmd ⦃z = host⦄ sock)
            (auth_sent (redis_sock_auth_cmd ⦃z = host⦄ sock) []))
check_eof-reconnects_example =
    check_eof-reconnects ⦃n = wire⦄ ⦃w = net⦄ ⦃z = host⦄ wire_laws least sock
      (codes "tcp://localhost:6379") [] refl live_address refl (unfold is_failed in refl)
      (unfold is_multi in refl) (unfold wire in refl) (omega arith) 0 (λ unread cmd. refl) 1 b'+'
      (codes "PONG\r\n") (redis_sock_auth_cmd ⦃z = host⦄ sock) true false (omega arith)
      (λ m below. ground arith) refl (unfold nonzero in refl) (unfold redis_sock_auth_cmd in refl)
