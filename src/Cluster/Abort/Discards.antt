-- ===== src/Cluster/Abort/Discards.antt =====
-- When a transaction is aborted, and what that leaves.
use icore_tax_gateway.Base.{
  ℕ, ◌≡◌, refl, Bool, true, false, List, [], ◌∷◌, arith, All, Bool-cases, inl, inr, ap, sym, subst,
  ◌∙◌,
}
use icore_tax_gateway.Base.Int.{pos, negsuc, ltb_ℤ}
use icore_tax_gateway.Cluster.Abort.{
  is_multi, Transaction, set_sock, cluster_send_discard, cluster_send_direct, abort_loop,
  cluster_abort_exec,
}

-- The connections of the slots are in no transaction.
abbrev pub AllClosed : (ℕ → ℕ) → Transaction → List ℕ → Type 0
AllClosed slot_sock c fi = All (λ slot. is_multi (c.sock (slot_sock slot)).mode ≡ false) fi

module _ (answered : List ℕ → Bool) where
  -- A DISCARD that a node answers counts as one that failed.
  discard_answered :
      (sent : List ℕ)
      → answered sent ≡ true
      → ltb_ℤ (cluster_send_discard answered sent) (pos 0) ≡ true
  unfolding cluster_send_discard cluster_send_direct
  discard_answered sent h = rw (cluster_send_discard, cluster_send_direct, h) refl

  module _ (c : Transaction) (slot : ℕ) (fi : List ℕ) where
    abbrev sock_of : ℕ
    sock_of = c.slot_sock slot

    abbrev asked : Transaction
    asked = record c { discards = sock_of ∷ c.discards }

    abbrev refused : Bool
    refused = ltb_ℤ (cluster_send_discard answered (sock_of ∷ c.discards)) (pos 0)

    skips :
        is_multi (c.sock sock_of).mode ≡ false
        → abort_loop answered c (slot ∷ fi) ≡ abort_loop answered c fi
    unfolding abort_loop
    skips closed = rw (closed, abort_loop) refl

    discards_one :
        is_multi (c.sock sock_of).mode ≡ true
        → refused ≡ false
        → abort_loop answered c (slot ∷ fi) ≡ abort_loop answered (set_sock asked sock_of) fi
    unfolding abort_loop
    discards_one open_there fine = rw (open_there, abort_loop) (rw fine refl)

    gives_up :
        is_multi (c.sock sock_of).mode ≡ true
        → refused ≡ true
        → abort_loop answered c (slot ∷ fi) ≡ (record asked { disconnected = true }, negsuc 0)
    unfolding abort_loop
    gives_up open_there failed = rw (open_there, abort_loop) (rw failed refl)

  -- If the first of the queued commands belongs to an open transaction, and its node answers DISCARD,
  -- the abort reports failure: all nodes are disconnected, and no other transaction is discarded.
  pub answered_aborts :
      (c : Transaction) (slot : ℕ) (fi : List ℕ)
      → c.multi_head ≡ slot ∷ fi
      → is_multi (c.sock (c.slot_sock slot)).mode ≡ true
      → answered (c.slot_sock slot ∷ c.discards) ≡ true
      → cluster_abort_exec answered c
        ≡ (record c { discards = c.slot_sock slot ∷ c.discards; disconnected = true }, negsuc 0)
  unfolding cluster_abort_exec
  answered_aborts c slot fi queued open_there answer =
      ap (abort_loop answered c) queued
      ∙ gives_up c slot fi open_there (discard_answered (c.slot_sock slot ∷ c.discards) answer)

  set_sock-closed :
      (c : Transaction) (s t : ℕ)
      → is_multi (c.sock t).mode ≡ false
      → is_multi ((set_sock c s).sock t).mode ≡ false
  unfolding set_sock is_multi
  set_sock-closed c s t h = ground arith

  set_sock-itself : (c : Transaction) (s : ℕ) → is_multi ((set_sock c s).sock s).mode ≡ false
  unfolding set_sock is_multi
  set_sock-itself c s = ground arith

  -- A connection that is not in a transaction stays so.
  stays_closed :
      (c : Transaction) (fi : List ℕ) (t : ℕ)
      → is_multi (c.sock t).mode ≡ false
      → is_multi ((abort_loop answered c fi).0.sock t).mode ≡ false
  unfolding abort_loop
  stays_closed c [] t h = h
  stays_closed c (slot ∷ fi) t h = elim (Bool-cases (is_multi (c.sock (c.slot_sock slot)).mode)) [
    | inr closed ↦
        subst (λ r. is_multi (r.0.sock t).mode ≡ false) (sym (skips c slot fi closed))
          (stays_closed c fi t h)
    | inl open_there ↦ elim (Bool-cases (refused c slot fi)) [
      | inl failed ↦
          subst (λ r. is_multi (r.0.sock t).mode ≡ false)
            (sym (gives_up c slot fi open_there failed)) h
      | inr fine ↦
          subst (λ r. is_multi (r.0.sock t).mode ≡ false)
            (sym (discards_one c slot fi open_there fine))
            (stays_closed (set_sock (asked c slot fi) (c.slot_sock slot)) fi t
              (set_sock-closed (asked c slot fi) (c.slot_sock slot) t h))
    ]
  ]

  loop-AllClosed :
      (c : Transaction) (fi : List ℕ)
      → (abort_loop answered c fi).1 ≡ pos 0
      → AllClosed c.slot_sock (abort_loop answered c fi).0 fi
  unfolding set_sock
  loop-AllClosed c [] done = tt
  loop-AllClosed c (slot ∷ fi) done =
      elim (Bool-cases (is_multi (c.sock (c.slot_sock slot)).mode)) [
        | inr closed ↦
            let e = skips c slot fi closed in
            subst (λ r. AllClosed c.slot_sock r.0 (slot ∷ fi)) (sym e)
              (
                stays_closed c fi (c.slot_sock slot) closed,
                loop-AllClosed c fi (sym (ap (λ r. r.1) e) ∙ done),
              )
        | inl open_there ↦ elim (Bool-cases (refused c slot fi)) [
          | inl failed ↦
              absurd
                (no_success (sym (ap (λ r. r.1) (gives_up c slot fi open_there failed)) ∙ done))
          | inr fine ↦
              let e = discards_one c slot fi open_there fine in
              let next = set_sock (asked c slot fi) (c.slot_sock slot) in
              subst (λ r. AllClosed c.slot_sock r.0 (slot ∷ fi)) (sym e)
                (
                  stays_closed next fi (c.slot_sock slot)
                      (set_sock-itself (asked c slot fi) (c.slot_sock slot)),
                  loop-AllClosed next fi (sym (ap (λ r. r.1) e) ∙ done),
                )
        ]
      ]
    where
      no_success : negsuc 0 ≡ pos 0 → ⊥
      no_success e = cc

  -- When the abort reports success, no connection that has queued commands is marked as in a
  -- transaction any more.
  pub cluster_abort_exec-AllClosed :
      (c : Transaction)
      → (cluster_abort_exec answered c).1 ≡ pos 0
      → AllClosed c.slot_sock (cluster_abort_exec answered c).0 c.multi_head
  unfolding cluster_abort_exec
  cluster_abort_exec-AllClosed c done = loop-AllClosed c c.multi_head done
