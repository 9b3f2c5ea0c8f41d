-- ===== src/Commands/RestoreWords.antt =====
-- What RESTORE with its options should be to a server.
use icore_tax_gateway.Base.{
  ℕ, ◌+◌, ◌≡◌, ◌⊎◌, inl, inr, Bool-cases, refl, false, Option, List, [], ◌∷◌, ◌++◌, Bytes, codes,
  arith, length, append_assoc, if◌then◌else◌,
}
use icore_tax_gateway.Base.Int.{ℤ, pos, negsuc, ltb_ℤ}
use icore_tax_gateway.Zend.{
  Zend, ZendLaws, Zval, is_null, is_bool, is_long, is_double, is_array, is_object, is_string,
  HashTable, end, entry, ZendKey, name, index,
}
use icore_tax_gateway.Zend.Decimal.{snprintf_ld}
use icore_tax_gateway.Resp.Sstr.{redis_key_prefix}
use icore_tax_gateway.Resp.Server.{Delivers}
use icore_tax_gateway.Resp.RoundTrip.{
  request, init-eq-request, append-request, append_long-request, append_key-request,
  request-Delivers, request_if,
}
use icore_tax_gateway.Commands.SetWords.{flag_word, flag_step}
use icore_tax_gateway.Commands.Restore.{
  RestoreOptions, no_restore_options, above_minus_one, set_idletime, set_freq, restore_word,
  restore_option, redis_get_restore_options, restore_argc, append_number, redis_restore_cmd,
}

-- An option with a number that was given.
abbrev pub number_words : Bytes → ℤ → List Bytes
number_words word number = if above_minus_one number then word ∷ snprintf_ld number ∷ [] else []

-- RESTORE, the key behind the prefix, the time to live, the value, and the options.
abbrev pub restore_words : Option Bytes → Bytes → ℤ → Bytes → RestoreOptions → List Bytes
restore_words prefix key timeout value opt =
    codes "RESTORE"
    ∷ redis_key_prefix prefix key
    ∷ snprintf_ld timeout
    ∷ value
    ∷ (flag_word opt.replace (codes "REPLACE")
        ++ (flag_word opt.absttl (codes "ABSTTL")
            ++ (number_words (codes "IDLETIME") opt.idletime
                ++ number_words (codes "FREQ") opt.freq)))

module _ ⦃z : Zend⦄ where
  pub number_step :
      (word : Bytes) (number : ℤ) (n : ℕ) (ws : List Bytes)
      → append_number word number (request n ws) ≡ request n (ws ++ number_words word number)
  unfolding append_number
  number_step word number n ws =
      request_if (above_minus_one number) n ws (word ∷ snprintf_ld number ∷ []) _
        (rw (append-request, append_long-request, append_assoc))

  restore_counted :
      (prefix : Option Bytes) (key : Bytes) (timeout : ℤ) (value : Bytes) (opt : RestoreOptions)
      → length (restore_words prefix key timeout value opt) ≡ restore_argc opt + 1
  unfolding restore_argc
  restore_counted prefix key timeout value opt = ground arith

module _ ⦃z : Zend⦄ where
  restore_request :
      (prefix : Option Bytes) (slot : Option ℕ) (key : Bytes) (timeout : ℤ) (value : Bytes)
      (options : HashTable)
      → let opt = redis_get_restore_options no_restore_options options in
        (redis_restore_cmd prefix slot key timeout value options).0
        ≡ request (restore_argc opt + 1) (restore_words prefix key timeout value opt)
  unfolding redis_restore_cmd
  restore_request prefix slot key timeout value options =
      rw
        (
          init-eq-request, append_key-request, append_long-request, append-request, flag_step,
          flag_step, number_step, number_step,
        )
        (simp append_assoc)

-- At most one of IDLETIME and FREQ is given, and FREQ fits a byte.
abbrev pub IsConsistent : RestoreOptions → Type 0
IsConsistent opt =
    ((opt.idletime ≡ negsuc 0) ⊎ (opt.freq ≡ negsuc 0)) × (ltb_ℤ (pos 255) opt.freq ≡ false)

module _ ⦃z : Zend⦄ where
  idletime-IsConsistent :
      (lval : ℤ) (dst : RestoreOptions) → IsConsistent dst → IsConsistent (set_idletime lval dst)
  unfolding set_idletime
  idletime-IsConsistent lval dst h = elim (Bool-cases (ltb_ℤ lval (pos 0))) [
    | inl below ↦ rw below h
    | inr fits ↦ rw fits (inr refl, refl)
  ]

  freq-IsConsistent :
      (lval : ℤ) (dst : RestoreOptions) → IsConsistent dst → IsConsistent (set_freq lval dst)
  unfolding set_freq
  freq-IsConsistent lval dst h = elim (Bool-cases (ltb_ℤ lval (pos 0))) [
    | inl below ↦ rw below h
    | inr fits ↦ elim (Bool-cases (ltb_ℤ (pos 255) lval)) [
      | inl above ↦ rw (fits, above) h
      | inr small ↦ rw (fits, small) (inl refl, small)
    ]
  ]

  word-IsConsistent :
      (zv : Zval) (dst : RestoreOptions) → IsConsistent dst → IsConsistent (restore_word zv dst)
  unfolding restore_word
  word-IsConsistent (is_string v) dst h = elim (Bool-cases (z.equals_ci v (codes "REPLACE"))) [
    | inl replace ↦ rw replace h
    | inr other ↦ elim (Bool-cases (z.equals_ci v (codes "ABSTTL"))) [
      | inl absttl ↦ rw (other, absttl) h
      | inr unknown ↦ rw (other, unknown) h
    ]
  ]
  word-IsConsistent is_null dst h = h
  word-IsConsistent (is_bool b) dst h = h
  word-IsConsistent (is_long n) dst h = h
  word-IsConsistent (is_double d) dst h = h
  word-IsConsistent (is_array ht) dst h = h
  word-IsConsistent (is_object o) dst h = h

  option-IsConsistent :
      (key : ZendKey) (zv : Zval) (dst : RestoreOptions)
      → IsConsistent dst
      → IsConsistent (restore_option key zv dst)
  unfolding restore_option
  option-IsConsistent (index i) zv dst h = word-IsConsistent zv dst h
  option-IsConsistent (name key) zv dst h = elim (Bool-cases (z.equals_ci key (codes "IDLETIME"))) [
    | inl idle ↦ rw idle (idletime-IsConsistent (z.get_long zv) dst h)
    | inr other ↦ elim (Bool-cases (z.equals_ci key (codes "FREQ"))) [
      | inl freq ↦ rw (other, freq) (freq-IsConsistent (z.get_long zv) dst h)
      | inr unknown ↦ rw (other, unknown) h
    ]
  ]

  options-IsConsistent :
      (ht : HashTable) (dst : RestoreOptions)
      → IsConsistent dst
      → IsConsistent (redis_get_restore_options dst ht)
  unfolding redis_get_restore_options
  options-IsConsistent end dst h = h
  options-IsConsistent (entry key zv ht) dst h =
      options-IsConsistent ht (restore_option key zv dst) (option-IsConsistent key zv dst h)

module _ ⦃z : Zend⦄ (laws : ZendLaws z) where
  -- Whatever the key, the time, the value and the array of options, a server reads the command as RESTORE, the key behind
  -- the prefix, the time, the value and each option that was taken, and of those at most one
  -- is IDLETIME or FREQ, with a FREQ of at most 255.
  pub restore_cmd-Delivers :
      (prefix : Option Bytes) (slot : Option ℕ) (key : Bytes) (timeout : ℤ) (value : Bytes)
      (options : HashTable)
      → let opt = redis_get_restore_options no_restore_options options in
        Delivers
          (redis_restore_cmd prefix slot key timeout value options).0
          (restore_words prefix key timeout value opt)
        × IsConsistent opt
  restore_cmd-Delivers prefix slot key timeout value options =
      let opt = redis_get_restore_options no_restore_options options in
      (
        rw (restore_request, ← restore_counted prefix key timeout value opt)
            (request-Delivers laws _),
        options-IsConsistent options no_restore_options (inl refl, refl),
      )
