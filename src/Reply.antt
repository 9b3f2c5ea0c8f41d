-- ===== src/Reply.antt =====
-- redis-6.0.2/library.c, `redis_read_variant_reply` and what it calls: a reply of any type becomes a
-- PHP value. A loop takes one unit of fuel for each element.
pub mod Protocol
pub mod Element
pub mod Loop
pub mod RoundTrip
pub mod Tests
use icore_tax_gateway.Base.{
  ℕ, zero, suc, ◌+◌, Bool, true, false, ◌||◌, ◌&&◌, not, Option, none, some, [], ◌∷◌, Bytes, codes,
  ◌==◌, if◌then◌else◌,
}
use icore_tax_gateway.Base.Int.{ℤ, pos, negsuc, to_int}
use icore_tax_gateway.Zend.{
  Zval, is_null, is_bool, is_long, is_string, is_array, HashTable, end, entry, index,
}
use icore_tax_gateway.Sock.{
  Stream, RedisSock, throw_exception, redis_sock_set_err, redis_error_throw, is_atomic,
}
use icore_tax_gateway.Sock.Read.{
  Step, then_do, redis_sock_gets, redis_sock_read_bulk_reply, redis_read_reply_type,
}

-- add_next_index_zval, into an array that has no other keys.
unfoldable pub add_from : ℕ → HashTable → Zval → HashTable
add_from i end v = entry (index (pos i)) v end
add_from i (entry k w h) v = entry k w (add_from (suc i) h v)

unfoldable pub add_next_index_zval : HashTable → Zval → HashTable
unfolding add_from
add_next_index_zval h v = add_from 0 h v

-- The value of a line: of an error, of a status that is asked for as a string, of any other.
unfoldable pub line_value : ℕ → Bool → RedisSock → Bytes → Step Zval
line_value reply_type as_string s inbuf =
    if reply_type == b'-'
    then some (redis_error_throw (redis_sock_set_err inbuf s), some (is_bool false))
    else some (s, some (if as_string then is_string inbuf else is_bool true))

-- What the callers do with a bulk string, or with none.
unfoldable pub bulk_value : Step Bytes → Step Zval
bulk_value none = none
bulk_value (some (s, none)) = some (s, some (is_bool false))
bulk_value (some (s, some text)) = some (s, some (is_string text))

-- A value that the code takes although the function that sets it may have failed and left it as it
-- was, which is undefined behaviour.
unfoldable pub set_or_undefined : Step Zval → Step Zval
set_or_undefined none = none
set_or_undefined (some (s, none)) = none
set_or_undefined (some (s, some v)) = some (s, some v)

-- An array, and whether all its elements were read.
abbrev pub ArrayStep : Type 0
ArrayStep = Option (RedisSock × HashTable × Bool)

unfoldable pub array_value : ArrayStep → Step Zval
array_value none = none
array_value (some (s, h, whole)) = some (s, some (is_array h))

module _ ⦃n : Stream⦄ where
  unfoldable pub redis_read_variant_line : ℕ → Bool → RedisSock → Step Zval
  unfolding line_value
  redis_read_variant_line reply_type as_string s =
      then_do (redis_sock_gets 4096 s) (line_value reply_type as_string)

  unfoldable pub redis_read_variant_bulk : ℕ → ℤ → RedisSock → Step Zval
  unfolding bulk_value
  redis_read_variant_bulk fuel size s = bulk_value (redis_sock_read_bulk_reply fuel (to_int size) s)

  -- A multibulk inside another; `sub` reads its elements.
  unfoldable pub nested_value : (ℕ → RedisSock → ArrayStep) → ℤ → RedisSock → Step Zval
  unfolding array_value
  nested_value sub (negsuc k) s =
      some (s, some (if s.null_mbulk_as_null then is_null else is_array end))
  nested_value sub (pos zero) s = some (s, some (is_array end))
  nested_value sub (pos (suc k)) s = array_value (sub (suc k) s)

  -- switch (reply_type), for an element; `none` inside is a type that adds nothing.
  unfoldable pub element_value :
      (ℕ → RedisSock → ArrayStep) → ℕ → Bool → RedisSock → ℕ × ℤ → Step Zval
  unfolding set_or_undefined nested_value
  element_value sub fuel status_strings s (reply_type, reply_info) =
      if reply_type == b'-' || reply_type == b'+'
      then set_or_undefined (redis_read_variant_line reply_type status_strings s)
      else if reply_type == b':'
      then some (s, some (is_long reply_info))
      else if reply_type == b'$'
      then redis_read_variant_bulk fuel reply_info s
      else if reply_type == b'*'
      then nested_value sub reply_info s
      else some (s, none)

  -- Add the element, if there is one, and go on.
  unfoldable pub add_element :
      (RedisSock → HashTable → ArrayStep) → HashTable → Step Zval → ArrayStep
  add_element continue z_ret none = none
  add_element continue z_ret (some (s, none)) = continue s z_ret
  add_element continue z_ret (some (s, some v)) = continue s (add_next_index_zval z_ret v)

  unfoldable pub next_element :
      (ℕ → RedisSock → ArrayStep)
      → (RedisSock → HashTable → ArrayStep)
      → ℕ
      → Bool
      → HashTable
      → Step (ℕ × ℤ)
      → ArrayStep
  unfolding element_value add_element
  next_element sub continue fuel status_strings z_ret none = none
  next_element sub continue fuel status_strings z_ret (some (s, none)) =
      some (
        throw_exception (codes "protocol error, couldn't parse MULTI-BULK response") s,
        z_ret,
        false,
      )
  next_element sub continue fuel status_strings z_ret (some (s, some reply)) =
      add_element continue z_ret (element_value sub fuel status_strings s reply)

  -- while(elements > 0)
  unfoldable pub redis_read_multibulk_recursive : ℕ → ℕ → Bool → RedisSock → HashTable → ArrayStep
  unfolding next_element
  redis_read_multibulk_recursive fuel zero status_strings s z_ret = some (s, z_ret, true)
  redis_read_multibulk_recursive zero (suc elements) status_strings s z_ret = none
  redis_read_multibulk_recursive (suc fuel) (suc elements) status_strings s z_ret =
      next_element (λ k s'. redis_read_multibulk_recursive fuel k status_strings s' end)
        (λ s' z'. redis_read_multibulk_recursive fuel elements status_strings s' z') fuel
        status_strings z_ret (redis_read_reply_type s)

  -- A multibulk that is the whole reply.
  unfoldable pub top_array : ℕ → Bool → Bool → ℤ → RedisSock → Step Zval
  unfolding array_value
  top_array fuel status_strings null_mbulk_as_null (negsuc k) s =
      some (s, some (if null_mbulk_as_null then is_null else is_array end))
  top_array fuel status_strings null_mbulk_as_null (pos k) s =
      array_value (redis_read_multibulk_recursive fuel k status_strings s end)

  -- switch(reply_type), for the whole reply.
  unfoldable pub reply_value : ℕ → Bool → Bool → RedisSock → ℕ × ℤ → Step Zval
  unfolding set_or_undefined top_array
  reply_value fuel status_strings null_mbulk_as_null s (reply_type, reply_info) =
      if reply_type == b'-' || reply_type == b'+'
      then set_or_undefined (redis_read_variant_line reply_type status_strings s)
      else if reply_type == b':'
      then some (s, some (is_long reply_info))
      else if reply_type == b'$'
      then redis_read_variant_bulk fuel reply_info s
      else if reply_type == b'*'
      then top_array fuel status_strings null_mbulk_as_null reply_info s
      else some (throw_exception (codes "protocol error, got another reply-type byte") s, none)

-- Where the value goes: it is returned, or added to the replies of a transaction or a pipeline.
pub data Delivery : Type 0 where
  return_value : Zval → Delivery
  add_to_replies : HashTable → Delivery

unfoldable pub deliver : HashTable → RedisSock → Zval → Step Delivery
deliver z_tab s v = some (
  s,
  some (if is_atomic s.mode then return_value v else add_to_replies (add_next_index_zval z_tab v)),
)

module _ ⦃n : Stream⦄ where
  unfoldable pub variant_reply_generic : ℕ → Bool → Bool → HashTable → RedisSock → Step Delivery
  unfolding reply_value deliver
  variant_reply_generic fuel status_strings null_mbulk_as_null z_tab s =
      then_do
        (then_do (redis_read_reply_type s) (reply_value fuel status_strings null_mbulk_as_null))
        (deliver z_tab)

  unfoldable pub redis_read_raw_variant_reply : ℕ → HashTable → RedisSock → Step Delivery
  unfolding variant_reply_generic
  redis_read_raw_variant_reply fuel z_tab s =
      variant_reply_generic fuel s.reply_literal s.null_mbulk_as_null z_tab s

  unfoldable pub redis_read_variant_reply : ℕ → HashTable → RedisSock → Step Delivery
  unfolding variant_reply_generic
  redis_read_variant_reply fuel z_tab s =
      variant_reply_generic fuel false s.null_mbulk_as_null z_tab s

  unfoldable pub redis_read_variant_reply_strings : ℕ → HashTable → RedisSock → Step Delivery
  unfolding variant_reply_generic
  redis_read_variant_reply_strings fuel z_tab s = variant_reply_generic fuel true false z_tab s
