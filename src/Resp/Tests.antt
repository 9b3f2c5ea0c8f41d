-- ===== src/Resp/Tests.antt =====
-- The theorem on formatted commands at a concrete input, and a run of the functions.
use icore_tax_gateway.Base.{some, [], ◌∷◌, codes, map, List}
use icore_tax_gateway.Base.Int.{pos}
use icore_tax_gateway.Zend.Host.{host, host_laws}
use icore_tax_gateway.Resp.Server.{Delivers}
use icore_tax_gateway.Resp.Spprintf.{
  Resparg, string, key, int, arg_word, redis_spprintf, redis_spprintf-Delivers,
}

abbrev set_args : List Resparg
set_args = key (codes "a") ∷ string (codes "x y") ∷ string (codes "EX") ∷ int (pos 60) ∷ []

redis_spprintf-Delivers_example :
    Delivers
      (redis_spprintf ⦃z = host⦄ (some (codes "app:")) (some 0) (codes "SET") set_args).0
      (codes "SET" ∷ map (arg_word ⦃z = host⦄ (some (codes "app:"))) set_args)
redis_spprintf-Delivers_example =
    redis_spprintf-Delivers ⦃z = host⦄ host_laws (some (codes "app:")) (some 0) (codes "SET")
      set_args
