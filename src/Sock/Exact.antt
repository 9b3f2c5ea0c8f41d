-- ===== src/Sock/Exact.antt =====
-- Lines and bulk strings that arrive whole.
use icore_tax_gateway.Base.{
  ℕ, zero, suc, ◌+◌, ◌-◌, ◌^◌, ◌<◌, ◌≤◌, ◌≡◌, ◌≢◌, refl, ap, sym, ◌∙◌, true, false, some, [], ◌∷◌,
  ◌++◌, append_assoc, append-nil, Bytes, arith, ltb, length, take, length-append,
  take-length_append,
}
use icore_tax_gateway.Base.Int.{pos}
use icore_tax_gateway.Base.Text.{Lacks}
use icore_tax_gateway.Cluster.Redirect.Parse.{Lacks-append}
use icore_tax_gateway.Sock.{Stream, StreamLaws, RedisSock, is_failed, check_eof}
use icore_tax_gateway.Sock.Read.{
  Step, if_alive, get_line_of, redis_sock_gets, consume_bulk, whole_bulk, bulk_bytes,
  redis_sock_read_bulk_reply,
}

-- The connection with these bytes to come.
abbrev pub at : RedisSock → Bytes → RedisSock
at s unread = record s { stream = some unread }

take-append : (xs ys : Bytes) (n : ℕ) → n ≡ length xs → take n (xs ++ ys) ≡ xs
take-append xs ys n e = ap (λ k. take k (xs ++ ys)) e ∙ take-length_append xs ys

module _ ⦃n : Stream⦄ (laws : StreamLaws n) where
  moved_ends :
      (size : ℕ) (rest : Bytes) {a b c d : Bytes}
      → a ≡ b
      → c ≡ d
      → n.get_line size a ≡ some (c, rest)
      → n.get_line size b ≡ some (d, rest)
  moved_ends size rest p q h = cc

  pub whole-line :
      (size : ℕ) (text rest : Bytes)
      → Lacks 10 text
      → length text + 2 < size
      → n.get_line size (text ++ 13 ∷ 10 ∷ rest) ≡ some (text ++ 13 ∷ 10 ∷ [], rest)
  whole-line size text rest lacks fits =
      moved_ends size rest (append_assoc text (13 ∷ []) (10 ∷ rest))
        (append_assoc text (13 ∷ []) (10 ∷ []))
        (laws.get_line_next size (text ++ 13 ∷ []) rest
          (Lacks-append 10 text (13 ∷ []) lacks (omega arith))
          (omega (arith, fits, length-append text (13 ∷ []))))

module _ ⦃n : Stream⦄ (laws : StreamLaws n) (s : RedisSock)
    (live : is_failed s.status ≡ false) where
  pub check_eof-live :
      (c : ℕ) (rest : Bytes) → check_eof (at s (c ∷ rest)) ≡ (at s (c ∷ rest), true)
  unfolding check_eof
  check_eof-live c rest = rw (live, laws.eof_not) refl

  pub alive-step :
      {A : Type 0} (c : ℕ) (rest : Bytes) (k : RedisSock → Bytes → Step A)
      → if_alive (check_eof (at s (c ∷ rest))) k ≡ k (at s (c ∷ rest)) (c ∷ rest)
  unfolding if_alive
  alive-step c rest k = rw (check_eof-live c rest) refl

  pub alive-line :
      {A : Type 0} (text rest : Bytes) (k : RedisSock → Bytes → Step A)
      → if_alive (check_eof (at s (text ++ 13 ∷ rest))) k
        ≡ k (at s (text ++ 13 ∷ rest)) (text ++ 13 ∷ rest)
  alive-line [] rest k = alive-step 13 rest k
  alive-line (c ∷ text) rest k = alive-step c (text ++ 13 ∷ rest) k

  get_line_of-line :
      (size : ℕ) (text rest : Bytes)
      → Lacks 10 text
      → length text + 2 < size
      → get_line_of size (at s (text ++ 13 ∷ 10 ∷ rest)) (text ++ 13 ∷ 10 ∷ rest)
        ≡ some (at s rest, some text)
  unfolding get_line_of
  get_line_of-line size text rest lacks fits =
      let long : ltb (length (text ++ 13 ∷ 10 ∷ [])) 2 ≡ false =
        ground (arith, length-append text (13 ∷ 10 ∷ [])) in
      rw (whole-line laws size text rest lacks fits, get_line_of, long)
        (ap (λ t. some (at s rest, some t))
          (take-append text (13 ∷ 10 ∷ []) _ (omega (arith, length-append text (13 ∷ 10 ∷ [])))))

  pub gets-line :
      (size : ℕ) (text rest : Bytes)
      → Lacks 10 text
      → length text + 2 < size
      → redis_sock_gets size (at s (text ++ 13 ∷ 10 ∷ rest)) ≡ some (at s rest, some text)
  unfolding redis_sock_gets
  gets-line size text rest lacks fits =
      alive-line text (10 ∷ rest) (get_line_of size) ∙ get_line_of-line size text rest lacks fits

-- Two ways to cut the same bytes: the shorter first part begins the longer one.
shorter-begins :
    (xs left ys rest : Bytes)
    → xs ++ left ≡ ys ++ rest
    → length xs ≤ length ys
    → (more : Bytes) × (ys ≡ xs ++ more) × (left ≡ more ++ rest)
shorter-begins [] left ys rest e h = (ys, refl, e)
shorter-begins (x ∷ xs) left [] rest e h = absurd (omega arith)
shorter-begins (x ∷ xs) left (y ∷ ys) rest e h =
    let (more, begins, others) = shorter-begins xs left ys rest (ap drop_one e) (omega arith) in
    (more, (let same : x ≡ y = cc in cc), others)
  where
    drop_one : Bytes → Bytes
    drop_one [] = []
    drop_one (c ∷ s) = s

module _ ⦃n : Stream⦄ (laws : StreamLaws n) where
  -- One read, where all that is still missing is read behind it.
  put_together :
      (fuel : ℕ) (s : RedisSock) (c : ℕ) (text rest got part left : Bytes)
      → n.read (suc (length text)) (c ∷ text ++ rest) ≡ some (part, left)
      → part ++ left ≡ c ∷ text ++ rest
      → part ≢ []
      → length part ≤ suc (length text)
      → ((more got' : Bytes)
          → length more ≤ length text
          → consume_bulk fuel (length more) (at s (more ++ rest)) got'
            ≡ some (at s rest, some (got' ++ more)))
      → consume_bulk (suc fuel) (suc (length text)) (at s (c ∷ text ++ rest)) got
        ≡ some (at s rest, some (got ++ c ∷ text))
  unfolding consume_bulk
  put_together fuel s c text rest got [] left reads joins ne short go_on = absurd (ne refl)
  put_together fuel s c text rest got (d ∷ begun) left reads joins ne short go_on =
      let (more, begins, others) = shorter-begins (d ∷ begun) left (c ∷ text) rest joins short in
      let missing : length text - length begun ≡ length more =
        omega (arith, ap length begins, length-append begun more) in
      rw (reads, consume_bulk, missing, others)
        (go_on more (got ++ d ∷ begun) (omega (arith, missing))
          ∙ ap (λ t. some (at s rest, some t))
              (append_assoc got (d ∷ begun) more ∙ ap (λ t. got ++ t) (sym begins)))

  -- Whatever pieces the bytes arrive in, all of them are put together.
  pub consume-whole :
      (fuel : ℕ) (s : RedisSock) (text rest got : Bytes)
      → length text ≤ fuel
      → consume_bulk fuel (length text) (at s (text ++ rest)) got
        ≡ some (at s rest, some (got ++ text))
  unfolding consume_bulk
  consume-whole fuel s [] rest got enough =
      ap (λ t. some (at s rest, some t)) (sym (append-nil got))
  consume-whole zero s (c ∷ text) rest got enough = absurd (omega arith)
  consume-whole (suc fuel) s (c ∷ text) rest got enough =
      let (part, left, reads, joins, ne, short) = laws.read_some (length text) c (text ++ rest) in
      put_together fuel s c text rest got part left reads joins ne short
        (λ more got' fits. consume-whole fuel s more rest got' (omega (arith, fits, enough)))

  bulk_bytes-text :
      (fuel : ℕ) (s : RedisSock) (text rest : Bytes)
      → length text + 2 ≤ fuel
      → length text + 2 < 2 ^ 31
      → bulk_bytes fuel (pos (length text)) (at s (text ++ 13 ∷ 10 ∷ rest)) (text ++ 13 ∷ 10 ∷ rest)
        ≡ some (at s rest, some text)
  unfolding bulk_bytes whole_bulk
  bulk_bytes-text fuel s text rest enough small =
      let measure : length text + 2 ≡ length (text ++ 13 ∷ 10 ∷ []) =
        omega (arith, length-append text (13 ∷ 10 ∷ [])) in
      let small' : ltb (length text + 2) (2 ^ 31) ≡ true = ground arith in
      let read = consume-whole fuel s (text ++ 13 ∷ 10 ∷ []) rest [] (omega (arith, measure)) in
      rw (small', measure, sym (append_assoc text (13 ∷ 10 ∷ []) rest), read, whole_bulk)
        (ap (λ t. some (at s rest, some t)) (take-append text (13 ∷ 10 ∷ []) _ refl))

  -- A bulk string with the end of its line.
  pub read_bulk-text :
      (fuel : ℕ) (s : RedisSock) (text rest : Bytes)
      → is_failed s.status ≡ false
      → length text + 2 ≤ fuel
      → length text + 2 < 2 ^ 31
      → redis_sock_read_bulk_reply fuel (pos (length text)) (at s (text ++ 13 ∷ 10 ∷ rest))
        ≡ some (at s rest, some text)
  unfolding redis_sock_read_bulk_reply
  read_bulk-text fuel s text rest live enough small =
      alive-line laws s live text (10 ∷ rest) (bulk_bytes fuel (pos (length text)))
      ∙ bulk_bytes-text fuel s text rest enough small
