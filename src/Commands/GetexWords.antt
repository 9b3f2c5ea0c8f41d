-- ===== src/Commands/GetexWords.antt =====
-- What GETEX with its options should be to a server.
use icore_tax_gateway.Base.{
  ℕ, ◌+◌, ◌≡◌, refl, Bool, false, ◌&&◌, Option, none, some, List, ◌∷◌, ◌++◌, Bytes, codes, arith,
  length,
}
use icore_tax_gateway.Base.Int.{ℤ, pos, ltb_ℤ}
use icore_tax_gateway.Zend.{Zend, ZendLaws, HashTable}
use icore_tax_gateway.Resp.Sstr.{redis_key_prefix}
use icore_tax_gateway.Resp.Server.{Delivers}
use icore_tax_gateway.Resp.RoundTrip.{
  request, init-eq-request, append_key-request, request-Delivers,
}
use icore_tax_gateway.Commands.Set.{is_given}
use icore_tax_gateway.Commands.SetWords.{expire_words, expire_step, flag_word, flag_step}
use icore_tax_gateway.Commands.Restore.{
  GetexOptions, getex_argc, append_getex, getex_command, getex_options, no_getex_options,
  redis_getex_cmd,
}

-- A time, or PERSIST.
abbrev pub time_words : Option Bytes → ℤ → Bool → List Bytes
time_words none expire persist = flag_word persist (codes "PERSIST")
time_words (some exp_type) expire persist = expire_words (some exp_type) expire

abbrev pub getex_words : Option Bytes → Bytes → GetexOptions → List Bytes
getex_words prefix key o =
    codes "GETEX" ∷ redis_key_prefix prefix key ∷ time_words o.exp_type o.expire o.persist

module _ ⦃z : Zend⦄ where
  time_step :
      (exp_type : Option Bytes) (expire : ℤ) (persist : Bool) (n : ℕ) (ws : List Bytes)
      → append_getex
          (record { exp_type = exp_type; expire = expire; persist = persist })
          (request n ws)
        ≡ request n (ws ++ time_words exp_type expire persist)
  unfolding append_getex is_given
  time_step none expire persist n ws = flag_step persist (codes "PERSIST") n ws
  time_step (some exp_type) expire persist n ws = expire_step (some exp_type) expire n ws

  getex_counted :
      (prefix : Option Bytes) (key : Bytes) (exp_type : Option Bytes) (expire : ℤ) (persist : Bool)
      → let o : GetexOptions = record { exp_type = exp_type; expire = expire; persist = persist } in
        length (getex_words prefix key o) ≡ getex_argc o + 1
  unfolding getex_argc is_given
  getex_counted prefix key none expire persist = ground arith
  getex_counted prefix key (some exp_type) expire persist = refl

  getex_request :
      (prefix : Option Bytes) (slot : Option ℕ) (key : Bytes) (o : GetexOptions)
      → (getex_command prefix slot key o).0 ≡ request (getex_argc o + 1) (getex_words prefix key o)
  unfolding getex_command
  getex_request prefix slot key o =
      rw (init-eq-request, append_key-request, time_step o.exp_type o.expire o.persist) refl

module _ ⦃z : Zend⦄ (laws : ZendLaws z) where
  -- With options that hold no time below 1, GETEX is sent, and a server reads it as GETEX, the key
  -- behind the prefix, and the time or PERSIST, whichever came last.
  pub getex_cmd-Delivers :
      (prefix : Option Bytes) (slot : Option ℕ) (key : Bytes) (z_opts : HashTable)
      → let o = getex_options no_getex_options z_opts in
        ((is_given o.exp_type && ltb_ℤ o.expire (pos 1)) ≡ false)
        → (sent : Bytes × Option ℕ) × (redis_getex_cmd prefix slot key z_opts ≡ some sent)
          × Delivers sent.0 (getex_words prefix key o)
  unfolding redis_getex_cmd
  getex_cmd-Delivers prefix slot key z_opts valid =
      let o = getex_options no_getex_options z_opts in
      (
        getex_command prefix slot key o,
        rw valid refl,
        rw (getex_request, ← getex_counted prefix key o.exp_type o.expire o.persist)
            (request-Delivers laws _),
      )
