-- ===== src/Reply/RoundTrip.antt =====
-- A reply that a server prints, and the value that is made of it.
use icore_tax_gateway.Base.{
  ℕ, zero, suc, ◌≤◌, ◌≡◌, refl, ap, sym, ◌∙◌, Bool, true, false, some, List, [], ◌∷◌, ◌++◌,
  append_assoc, append-nil, Bytes, arith,
}
use icore_tax_gateway.Zend.{Zval, HashTable, end}
use icore_tax_gateway.Sock.{Stream, StreamLaws, RedisSock, is_failed}
use icore_tax_gateway.Sock.Read.{then_do, redis_read_reply_type}
use icore_tax_gateway.Sock.Exact.{at}
use icore_tax_gateway.Reply.{
  ArrayStep, array_value, set_or_undefined, top_array, reply_value, next_element, add_element,
  redis_read_multibulk_recursive, deliver, variant_reply_generic, redis_read_variant_reply,
}
use icore_tax_gateway.Reply.Protocol.{
  Reply, status, error, integer, bulk, null_bulk, multibulk, null_multibulk, Replies, no_more, more,
  count, print, print_all, HasRoom, AllRoom, numbered_from, value, values, noted, noted_all, work,
  work_all,
}
use icore_tax_gateway.Reply.Element.{
  add_next-numbered, noted_error-status, noted_error-setting, header, body, ElementsRead,
  header-read, element-read, variant_line-status, variant_line-error, variant_bulk-text,
  variant_bulk-null,
}

mutual
  unfolding noted

  noted-status : (r : Reply) (s : RedisSock) → (noted r s).status ≡ s.status
  noted-status (error text) s = noted_error-status text s
  noted-status (multibulk rs) s = noted_all-status rs s
  noted-status (status text) s = refl
  noted-status (integer v) s = refl
  noted-status (bulk text) s = refl
  noted-status null_bulk s = refl
  noted-status null_multibulk s = refl

  noted_all-status : (rs : Replies) (s : RedisSock) → (noted_all rs s).status ≡ s.status
  noted_all-status no_more s = refl
  noted_all-status (more r rs) s = noted_all-status rs (noted r s) ∙ noted-status r s

mutual
  unfolding noted

  noted-setting :
      (r : Reply) (s : RedisSock) → (noted r s).null_mbulk_as_null ≡ s.null_mbulk_as_null
  noted-setting (error text) s = noted_error-setting text s
  noted-setting (multibulk rs) s = noted_all-setting rs s
  noted-setting (status text) s = refl
  noted-setting (integer v) s = refl
  noted-setting (bulk text) s = refl
  noted-setting null_bulk s = refl
  noted-setting null_multibulk s = refl

  noted_all-setting :
      (rs : Replies) (s : RedisSock) → (noted_all rs s).null_mbulk_as_null ≡ s.null_mbulk_as_null
  noted_all-setting no_more s = refl
  noted_all-setting (more r rs) s = noted_all-setting rs (noted r s) ∙ noted-setting r s

module _ ⦃n : Stream⦄ (laws : StreamLaws n) (strings : Bool) where
  -- The reader of the elements of an array, with this much fuel.
  abbrev elements_of : ℕ → ℕ → RedisSock → ArrayStep
  elements_of fuel k s' = redis_read_multibulk_recursive fuel k strings s' end

  next-read :
      (r : Reply) (rest : Bytes) (fuel : ℕ) (s : RedisSock) (vs : List Zval)
      (continue : RedisSock → HashTable → ArrayStep)
      → is_failed s.status ≡ false
      → HasRoom r
      → work r ≤ fuel
      → ElementsRead s (elements_of fuel) strings r rest
      → next_element
          (elements_of fuel)
          continue
          fuel
          strings
          (numbered_from 0 vs)
          (redis_read_reply_type (at s (print r rest)))
        ≡ continue
            (at (noted r s) rest)
            (numbered_from 0 (vs ++ value strings s.null_mbulk_as_null r ∷ []))
  unfolding next_element add_element
  next-read r rest fuel s vs continue live room enough inner =
      rw
        (
          header-read laws s live r rest room,
          next_element,
          element-read laws s live (elements_of fuel) fuel strings r rest room enough inner,
          add_element,
          add_next-numbered,
        )
        refl

  mutual
    unfolding redis_read_multibulk_recursive HasRoom work values noted count print numbered_from

    inner-read :
        (r : Reply) (rest : Bytes) (fuel : ℕ) (s : RedisSock)
        → is_failed s.status ≡ false
        → HasRoom r
        → work r ≤ fuel
        → ElementsRead s (elements_of fuel) strings r rest
    inner-read (multibulk rs) rest fuel s live room enough =
        all-read rs rest fuel s [] live room.1 enough
    inner-read (status text) rest fuel s live room enough = tt
    inner-read (error text) rest fuel s live room enough = tt
    inner-read (integer v) rest fuel s live room enough = tt
    inner-read (bulk text) rest fuel s live room enough = tt
    inner-read null_bulk rest fuel s live room enough = tt
    inner-read null_multibulk rest fuel s live room enough = tt

    all-read :
        (rs : Replies) (rest : Bytes) (fuel : ℕ) (s : RedisSock) (vs : List Zval)
        → is_failed s.status ≡ false
        → AllRoom rs
        → work_all rs ≤ fuel
        → redis_read_multibulk_recursive fuel
            (count rs)
            strings
            (at s (print_all rs rest))
            (numbered_from 0 vs)
          ≡ some (
            at (noted_all rs s) rest,
            numbered_from 0 (vs ++ values strings s.null_mbulk_as_null rs),
            true,
          )
    all-read no_more rest fuel s vs live room enough =
        ap (λ l. some (at s rest, numbered_from 0 l, true)) (sym (append-nil vs))
    all-read (more r rs) rest zero s vs live room enough = absurd (omega arith)
    all-read (more r rs) rest (suc fuel) s vs live room enough =
        let v = value strings s.null_mbulk_as_null r in
        next-read r (print_all rs rest) fuel s vs
          (redis_read_multibulk_recursive fuel (count rs) strings) live room.0 (omega arith)
          (inner-read r (print_all rs rest) fuel s live room.0 (omega arith))
        ∙ all-read rs rest fuel (noted r s) (vs ++ v ∷ []) (ap is_failed (noted-status r s) ∙ live)
            room.1 (omega arith)
        ∙ ap (λ l. some (at (noted_all rs (noted r s)) rest, numbered_from 0 l, true))
            (append_assoc vs (v ∷ []) _
              ∙ ap (λ b. vs ++ v ∷ values strings b rs) (noted-setting r s))

module _ ⦃n : Stream⦄ (laws : StreamLaws n) (s : RedisSock)
    (live : is_failed s.status ≡ false) where
  top-read :
      (fuel : ℕ) (strings : Bool) (r : Reply) (rest : Bytes)
      → HasRoom r
      → work r ≤ fuel
      → reply_value fuel strings s.null_mbulk_as_null (at s (body r rest)) (header r)
        ≡ some (at (noted r s) rest, some (value strings s.null_mbulk_as_null r))
  unfolding reply_value set_or_undefined top_array HasRoom value noted work numbered_from
  top-read fuel strings (status text) rest room enough =
      rw (variant_line-status laws s live strings text rest room, set_or_undefined) refl
  top-read fuel strings (error text) rest room enough =
      rw (variant_line-error laws s live strings text rest room, set_or_undefined) refl
  top-read fuel strings (integer v) rest room enough = refl
  top-read fuel strings (bulk text) rest room enough =
      variant_bulk-text laws s live fuel text rest enough room
  top-read fuel strings null_bulk rest room enough = variant_bulk-null laws s live fuel rest
  top-read fuel strings (multibulk rs) rest room enough =
      ap array_value (all-read laws strings rs rest fuel s [] live room.1 enough)
      ∙ (unfold array_value in refl)
  top-read fuel strings null_multibulk rest room enough = refl

-- A reply of any type and depth that a server prints, with lines that fit the buffer of the client and
-- anything behind it, on a connection that has not failed and whose stream delivers what has arrived
-- in pieces of any size: redis_read_variant_reply takes exactly the bytes of the reply, returns or
-- queues its value, and leaves of the errors in it what they leave in their order. The fuel is that of
-- the bytes and the elements of the reply, or more.
pub variant_reply-reads :
    ⦃n : Stream⦄
    → StreamLaws n
    → (s : RedisSock) (r : Reply) (rest : Bytes) (fuel : ℕ) (z_tab : HashTable)
    → is_failed s.status ≡ false
    → HasRoom r
    → work r ≤ fuel
    → redis_read_variant_reply fuel z_tab (at s (print r rest))
      ≡ deliver z_tab (at (noted r s) rest) (value false s.null_mbulk_as_null r)
unfolding redis_read_variant_reply variant_reply_generic then_do
variant_reply-reads laws s r rest fuel z_tab live room enough =
    rw
      (
        header-read laws s live r rest room,
        then_do,
        top-read laws s live fuel false r rest room enough,
        then_do,
      )
      refl
