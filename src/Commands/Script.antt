-- ===== src/Commands/Script.antt =====
-- SCRIPT KILL, FLUSH, LOAD and EXISTS: `redis_build_script_cmd`.
use icore_tax_gateway.Base.{
  ℕ, suc, ◌+◌, ◌≡◌, refl, Bool, true, false, ◌||◌, not, Option, none, some, List, [], ◌∷◌, ◌++◌,
  map, Bytes, codes, arith, length, if◌then◌else◌, append_assoc, append-nil, ap, ◌∙◌, subst, inl,
  inr, Bool-cases,
}
use icore_tax_gateway.Base.Text.{c_string, same_word, same_word-same}
use icore_tax_gateway.Zend.{Zend, ZendLaws, Zval, is_string}
use icore_tax_gateway.Resp.Sstr.{redis_cmd_init_sstr, redis_cmd_append_sstr}
use icore_tax_gateway.Resp.Server.{Delivers, read_request}
use icore_tax_gateway.Resp.RoundTrip.{
  request, init-eq-request, append-request, request-Delivers, request-missing,
}

-- `!strcasecmp(text, word)`, for a word without a zero byte: what stands behind a zero is not seen.
unfoldable pub is_word : Bytes → Bytes → Bool
is_word text word = same_word (c_string text) word

-- `strcasecmp(s, "sync") || strcasecmp(s, "async")`
unfoldable pub refuses_flush_mode : Bytes → Bool
refuses_flush_mode s = not (is_word s (codes "sync")) || not (is_word s (codes "async"))

module _ ⦃z : Zend⦄ where
  -- for (i = 1; i < argc; ++i) redis_cmd_append_sstr(cmd, zval_get_string(&z_args[i]))
  unfoldable pub append_strings : Bytes → List Zval → Bytes
  append_strings cmd [] = cmd
  append_strings cmd (v ∷ vs) = append_strings (redis_cmd_append_sstr cmd (z.get_string v)) vs

  script_kill : ℕ → Option Bytes
  script_kill argc =
      some (redis_cmd_append_sstr (redis_cmd_init_sstr [] argc (codes "SCRIPT")) (codes "KILL"))

  script_flush : List Zval → Option Bytes
  script_flush [] =
      some (redis_cmd_append_sstr (redis_cmd_init_sstr [] 1 (codes "SCRIPT")) (codes "FLUSH"))
  script_flush (is_string mode ∷ more) =
      if refuses_flush_mode mode
      then none
      else (let argc = suc (suc (length more)) in
          let cmd =
            redis_cmd_append_sstr (redis_cmd_init_sstr [] argc (codes "SCRIPT")) (codes "FLUSH") in
          some (redis_cmd_append_sstr cmd mode))
  script_flush (_ ∷ more) = none

  script_load : List Zval → Option Bytes
  script_load (is_string (c ∷ script) ∷ more) =
      let argc = suc (suc (length more)) in
      let cmd =
        redis_cmd_append_sstr (redis_cmd_init_sstr [] argc (codes "SCRIPT")) (codes "LOAD") in
      some (redis_cmd_append_sstr cmd (c ∷ script))
  script_load _ = none

  script_exists : List Zval → Option Bytes
  script_exists [] = none
  script_exists (sha ∷ more) =
      let argc = suc (suc (length more)) in
      let cmd =
        redis_cmd_append_sstr (redis_cmd_init_sstr [] argc (codes "SCRIPT")) (codes "EXISTS") in
      some (append_strings cmd (sha ∷ more))

  -- `z_args[0]` and the arguments behind it; `argc` counts them all.
  unfoldable pub redis_build_script_cmd : Zval → List Zval → Option Bytes
  unfolding script_kill script_flush script_load script_exists
  redis_build_script_cmd (is_string directive) rest =
      if is_word directive (codes "kill")
      then script_kill (suc (length rest))
      else if is_word directive (codes "flush")
      then script_flush rest
      else if is_word directive (codes "load")
      then script_load rest
      else if is_word directive (codes "exists")
      then script_exists rest
      else none
  redis_build_script_cmd _ rest = none

  append_strings-request :
      (n : ℕ) (ws : List Bytes) (vs : List Zval)
      → append_strings (request n ws) vs ≡ request n (ws ++ map z.get_string vs)
  unfolding append_strings
  append_strings-request n ws [] = rw append-nil
  append_strings-request n ws (v ∷ vs) = rw append-request (
      append_strings-request n (ws ++ z.get_string v ∷ []) vs
      ∙ ap (request n) (append_assoc ws (z.get_string v ∷ []) (map z.get_string vs)))

  -- What a directive is, whatever its case.
  directive_is :
      (d word other : Bytes)
      → is_word d word ≡ true
      → same_word word other ≡ false
      → is_word d other ≡ false
  unfolding is_word
  directive_is d word other h k = same_word-same (c_string d) word other h ∙ k

  -- No word is both of the modes.
  flush_refuses : (mode : Zval) (more : List Zval) → script_flush (mode ∷ more) ≡ none
  unfolding script_flush refuses_flush_mode same_word
  flush_refuses (is_string s) more = elim (Bool-cases (is_word s (codes "sync"))) [
    | inl sync ↦ rw (sync, directive_is s (codes "sync") (codes "async") sync refl)
    | inr other ↦ rw other
  ]
  flush_refuses _ more = refl

  -- SCRIPT FLUSH with a mode behind it is refused, whatever the mode: the valid modes too.
  pub flush_mode_refused :
      (d : Bytes) (mode : Zval) (more : List Zval)
      → is_word d (codes "flush") ≡ true
      → redis_build_script_cmd (is_string d) (mode ∷ more) ≡ none
  unfolding redis_build_script_cmd same_word
  flush_mode_refused d mode more h =
      rw (directive_is d (codes "flush") (codes "kill") h refl, h) (flush_refuses mode more)

  counts : (vs : List Zval) → suc (suc (length (map z.get_string vs))) ≡ suc (length vs) + 1
  counts [] = refl
  counts (v ∷ vs) = omega (arith, counts vs)

module _ ⦃z : Zend⦄ (laws : ZendLaws z) where
  -- SCRIPT EXISTS, in any case, with at least one argument is the command that lists all of them.
  pub script_exists-Delivers :
      (d : Bytes) (sha : Zval) (shas : List Zval)
      → is_word d (codes "exists") ≡ true
      → (cmd : Bytes) × (redis_build_script_cmd (is_string d) (sha ∷ shas) ≡ some cmd)
        × Delivers cmd (codes "SCRIPT" ∷ codes "EXISTS" ∷ map z.get_string (sha ∷ shas))
  unfolding redis_build_script_cmd same_word
  script_exists-Delivers d sha shas h =
      let words = codes "SCRIPT" ∷ codes "EXISTS" ∷ map z.get_string (sha ∷ shas) in
      let n = suc (suc (length shas)) in
      let built : append_strings (request (n + 1) (codes "SCRIPT" ∷ codes "EXISTS" ∷ []))
            (sha ∷ shas)
          ≡ request (n + 1) words =
        append_strings-request (n + 1) (codes "SCRIPT" ∷ codes "EXISTS" ∷ []) (sha ∷ shas) in
      (
        request (n + 1) words,
        rw (
          directive_is d (codes "exists") (codes "kill") h refl,
          directive_is d (codes "exists") (codes "flush") h refl,
          directive_is d (codes "exists") (codes "load") h refl,
          h,
          init-eq-request,
          append-request,
          built,
        ),
        subst (λ k. Delivers (request k words) words) (counts (sha ∷ shas))
            (request-Delivers laws words),
      )

  -- SCRIPT KILL with an argument behind it is built all the same, and announces more words than it
  -- holds: a server that reads it finds no complete request.
  pub kill_with_argument :
      (d : Bytes) (v : Zval) (more : List Zval)
      → is_word d (codes "kill") ≡ true
      → (cmd : Bytes) × (redis_build_script_cmd (is_string d) (v ∷ more) ≡ some cmd)
        × (read_request cmd ≡ none)
  unfolding redis_build_script_cmd same_word
  kill_with_argument d v more h = (
    request (suc (suc (length more)) + 1) (codes "SCRIPT" ∷ codes "KILL" ∷ []),
    rw (h, init-eq-request, append-request),
    request-missing laws (suc (suc (length more)) + 1) _ (omega arith),
  )
