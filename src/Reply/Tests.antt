-- ===== src/Reply/Tests.antt =====
-- The theorem on replies at a concrete input.
use icore_tax_gateway.Base.{◌≡◌, refl, true, false, some, none, [], codes, arith}
use icore_tax_gateway.Base.Int.{pos}
use icore_tax_gateway.Zend.{end}
use icore_tax_gateway.Cluster.Abort.{atomic}
use icore_tax_gateway.Sock.{RedisSock, ready, is_failed}
use icore_tax_gateway.Sock.Wire.{wire, wire_laws}
use icore_tax_gateway.Sock.Exact.{at}
use icore_tax_gateway.Reply.{redis_read_variant_reply, deliver}
use icore_tax_gateway.Reply.Protocol.{
  Reply, error, integer, bulk, null_bulk, multibulk, null_multibulk, no_more, more, print, HasRoom,
  count, value, noted, work,
}
use icore_tax_gateway.Reply.RoundTrip.{variant_reply-reads}

abbrev pub sock : RedisSock
sock = record {
  stream = some [];
  status = ready;
  mode = atomic;
  watching = false;
  persistent = false;
  pool = none;
  callbacks = 0;
  backoff = record { algorithm = 0; base = 100; cap = 100; previous_backoff = 0 };
  max_retries = 10;
  user = none;
  pass = some (codes "secret");
  db_number = pos 3;
  reply_literal = false;
  null_mbulk_as_null = true;
  host = codes "localhost";
  port = pos 6379;
  has_ssl = false;
  sentinel = false;
  attempts = 0;
  sent = [];
  slept = [];
  err = none;
  exceptions = [];
}

abbrev nested : Reply
nested = multibulk (
    more (integer (pos 5)) (
      more (bulk (codes "a\r\nb")) (
        more (error (codes "LOADING"))
          (more (multibulk (more null_bulk no_more)) (more null_multibulk no_more)))))

variant_reply-reads_example :
    redis_read_variant_reply ⦃n = wire⦄ 20 end (at sock (print nested (codes "+PONG")))
    ≡ deliver end (at (noted nested sock) (codes "+PONG")) (value false true nested)
variant_reply-reads_example =
    variant_reply-reads ⦃n = wire⦄ wire_laws sock nested (codes "+PONG") 20 end
      (unfold is_failed in refl) (unfold HasRoom in unfold count in omega arith)
      (unfold work in omega arith)
