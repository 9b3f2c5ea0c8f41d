-- ===== src/Backoff/Tests.antt =====
-- The theorems on backoff at concrete inputs.
use icore_tax_gateway.Base.{codes, arith}
use icore_tax_gateway.Base.Int.{pos}
use icore_tax_gateway.Zend.{Zval, is_array, is_long, entry, end, name}
use icore_tax_gateway.Zend.Host.{host}
use icore_tax_gateway.Backoff.{
  RedisBackoff, Random, redis_backoff_compute, redis_initialize_backoff,
}
use icore_tax_gateway.Backoff.Bounds.{Computes, backoff_bounded}
use icore_tax_gateway.Backoff.Options.{
  redis_sock_set_backoff, IsValid, initialize-IsValid, set_backoff-IsValid,
}

-- The least of the range.
abbrev least : Random
least = record {
  php_mt_rand_range = λ lo hi. lo;
  at_least = λ lo hi h. omega arith;
  at_most = λ lo hi h. h;
}

abbrev decorrelated : RedisBackoff
decorrelated = record { algorithm = 1; base = 500; cap = 750; previous_backoff = 600 }

backoff_bounded_example : Computes decorrelated (redis_backoff_compute least decorrelated 3)
backoff_bounded_example = backoff_bounded least decorrelated 3 (omega arith)

abbrev options : Zval
options = is_array (
    entry (name (codes "base")) (is_long (pos 20))
      (entry (name (codes "algorithm")) (is_long (pos 9)) end))

set_backoff-IsValid_example :
    IsValid (redis_sock_set_backoff ⦃z = host⦄ (redis_initialize_backoff 100) options).0
set_backoff-IsValid_example =
    set_backoff-IsValid ⦃z = host⦄ (redis_initialize_backoff 100) options
      (initialize-IsValid 100 (omega arith))
