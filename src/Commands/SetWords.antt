-- ===== src/Commands/SetWords.antt =====
-- What SET with its options should be to a server.
use icore_tax_gateway.Base.{
  zero, suc, ◌&&◌, ℕ, ◌≡◌, refl, ap, sym, Bool, true, false, Option, none, some, List, [], ◌∷◌,
  ◌++◌, Bytes, codes, append_assoc, append-nil, if◌then◌else◌,
}
use icore_tax_gateway.Base.Int.{ℤ, pos, negsuc}
use icore_tax_gateway.Zend.{Zend, Zval}
use icore_tax_gateway.Zend.Decimal.{snprintf_ld}
use icore_tax_gateway.Resp.Sstr.{redis_key_prefix}
use icore_tax_gateway.Resp.Server.{Delivers}
use icore_tax_gateway.Resp.RoundTrip.{request, append-request, append_long-request, request_if}
use icore_tax_gateway.Commands.Set.{SetOptions, append_expire, append_flag}

abbrev pub expire_words : Option Bytes → ℤ → List Bytes
expire_words none expire = []
expire_words (some exp_type) expire = exp_type ∷ snprintf_ld expire ∷ []

abbrev pub word_of : Option Bytes → List Bytes
word_of none = []
word_of (some word) = word ∷ []

abbrev pub flag_word : Bool → Bytes → List Bytes
flag_word flag word = if flag then word ∷ [] else []

-- A time that is given is 1 or more.
abbrev pub has_time : Bool → ℤ → Bool
has_time false expire = true
has_time true (pos (suc n)) = true
has_time true (pos zero) = false
has_time true (negsuc n) = false

-- A time with a type, or KEEPTTL, or neither.
abbrev pub keeps_one : Option Bytes → Bool → Bool
keeps_one (some exp_type) true = false
keeps_one (some exp_type) false = true
keeps_one none keep_ttl = true

-- A time without a type, neither NX nor XX, and not KEEPTTL.
abbrev pub is_time_alone : ℤ → Option Bytes → Option Bytes → Bool → Bool
is_time_alone (pos (suc n)) none none false = true
is_time_alone expire exp_type set_type keep_ttl = false

module _ ⦃z : Zend⦄ where
  -- SET, the key behind the prefix, the value, and the options: a time, NX or XX, KEEPTTL and GET.
  abbrev pub set_words : Option Bytes → Bytes → Zval → SetOptions → List Bytes
  set_words prefix key_name value o =
      codes "SET"
      ∷ redis_key_prefix prefix key_name
      ∷ z.pack value
      ∷ (expire_words o.exp_type o.expire
          ++ (word_of o.set_type
              ++ (flag_word o.keep_ttl (codes "KEEPTTL") ++ flag_word o.get (codes "GET"))))

  abbrev pub setex_words : Option Bytes → Bytes → Zval → SetOptions → List Bytes
  setex_words prefix key_name value o =
      codes "SETEX" ∷ redis_key_prefix prefix key_name ∷ snprintf_ld o.expire ∷ z.pack value ∷ []

  -- A command is sent where one should be, and reads as these words.
  abbrev pub IsSent : Option (Bytes × Option ℕ × Bool) → Option (List Bytes) → Type 0
  IsSent none none = Unit
  IsSent (some (cmd, slot, old)) (some words) = Delivers cmd words
  IsSent _ _ = ⊥

  -- What the options ask for.
  abbrev pub asked : Option Bytes → Bytes → Zval → Option SetOptions → Option (List Bytes)
  asked prefix key_name value none = none
  asked prefix key_name value (some o) =
      if has_time o.exp_set o.expire && keeps_one o.exp_type o.keep_ttl
      then (if is_time_alone o.expire o.exp_type o.set_type o.keep_ttl
          then some (setex_words prefix key_name value o)
          else some (set_words prefix key_name value o))
      else none

  pub expire_step :
      (exp_type : Option Bytes) (expire : ℤ) (n : ℕ) (ws : List Bytes)
      → append_expire exp_type expire (request n ws)
        ≡ request n (ws ++ expire_words exp_type expire)
  unfolding append_expire
  expire_step none expire n ws = ap (request n) (sym (append-nil ws))
  expire_step (some exp_type) expire n ws =
      rw (append-request, append_long-request, append_assoc) refl

  pub flag_step :
      (flag : Bool) (word : Bytes) (n : ℕ) (ws : List Bytes)
      → append_flag flag word (request n ws) ≡ request n (ws ++ flag_word flag word)
  unfolding append_flag
  flag_step flag word n ws = request_if flag n ws (word ∷ []) _ (append-request n ws word)
