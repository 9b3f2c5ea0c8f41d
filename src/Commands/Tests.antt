-- ===== src/Commands/Tests.antt =====
-- The theorems on commands at concrete inputs.
use icore_tax_gateway.Base.{
  ℕ, ◌≡◌, refl, none, some, List, [], ◌∷◌, codes, Bytes, length, true, Option, ◌+◌, arith, ◌++◌,
}
use icore_tax_gateway.Commands.FixedWords.{key_long_str, run, call_words, call_slot, IsBuilt}
use icore_tax_gateway.Commands.FixedBuilt.{fixed-IsBuilt}
use icore_tax_gateway.Commands.ListWords.{hset, run_list, list_words, list_slot}
use icore_tax_gateway.Commands.ListCalls.{list-IsBuilt}
use icore_tax_gateway.Commands.Lists.{num_elements, redis_hset_cmd}
use icore_tax_gateway.Commands.HsetArray.{hset_array_short}
use icore_tax_gateway.Commands.Slotted.{gen_varkey_cmd, redis_eval_cmd, positive}
use icore_tax_gateway.Commands.SlottedBuilt.{eval_args, eval_keys}
use icore_tax_gateway.Commands.SlotCalls.{IsSlotted}
use icore_tax_gateway.Commands.VarkeyCalls.{
  timed, arguments, IsKeyCall, call_meant, gen_varkey_cmd-IsKeyCall,
}
use icore_tax_gateway.Commands.EvalSlotted.{eval-IsSlotted, eval_slot_kept}
use icore_tax_gateway.Zend.Decimal.{snprintf_ld}
use icore_tax_gateway.Base.Int.{pos}
use icore_tax_gateway.Zend.{is_string, Zval}
use icore_tax_gateway.Zend.Host.{host, host_laws, text_of}
use icore_tax_gateway.Resp.Server.{Delivers, read_request}
use icore_tax_gateway.Resp.RoundTrip.{bulks, request}
use icore_tax_gateway.Commands.Scan.{
  type_hscan, redis_fmt_scan_cmd, scan_words, redis_fmt_scan_cmd-Delivers,
}
use icore_tax_gateway.Zend.{is_bool, HashTable, end, entry, name, index, is_array, is_long}
use icore_tax_gateway.Commands.Restore.{
  redis_restore_cmd, redis_get_restore_options, no_restore_options,
}
use icore_tax_gateway.Commands.RestoreWords.{restore_words, IsConsistent, restore_cmd-Delivers}
use icore_tax_gateway.Commands.Zrange.{ZRange, zvals}
use icore_tax_gateway.Commands.ZrangeBuilt.{IsSentUnless}
use icore_tax_gateway.Commands.PairsBuilt.{
  copy, run_pair, pair_keys, is_refused, pair_kw, pair_more, pair-IsSentUnless,
}
use icore_tax_gateway.Commands.Slotted.{array_values}
use icore_tax_gateway.Commands.SlottedBuilt.{full_keys}
use icore_tax_gateway.Commands.Mpop.{redis_mpop_cmd}
use icore_tax_gateway.Base.{false}
use icore_tax_gateway.Commands.MpopBuilt.{
  zmpop, is_refused_call, mpop_head, count_words, mpop_cmd-IsSentUnless,
}

redis_fmt_scan_cmd-Delivers_example :
    Delivers
      (redis_fmt_scan_cmd ⦃z = host⦄ type_hscan (codes "h") (pos 0) (codes "a*") (pos 10))
      (scan_words type_hscan (codes "h") (pos 0) (codes "a*") (pos 10))
redis_fmt_scan_cmd-Delivers_example =
    redis_fmt_scan_cmd-Delivers ⦃z = host⦄ host_laws type_hscan (codes "h") (pos 0) (codes "a*") 10

abbrev set_table : HashTable
set_table =
    entry (name (codes "px")) (is_string (codes "1500"))
      (entry (index (pos 0)) (is_string (codes "nx")) end)

abbrev restore_table : HashTable
restore_table =
    entry (name (codes "freq")) (is_long (pos 9))
      (entry (index (pos 0)) (is_string (codes "REPLACE")) end)

restore_cmd-Delivers_example :
    Delivers
      (redis_restore_cmd ⦃z = host⦄ none none (codes "k") (pos 0) (codes "dump") restore_table).0
      (restore_words none
        (codes "k")
        (pos 0)
        (codes "dump")
        (redis_get_restore_options ⦃z = host⦄ no_restore_options restore_table))
    × IsConsistent (redis_get_restore_options ⦃z = host⦄ no_restore_options restore_table)
restore_cmd-Delivers_example =
    restore_cmd-Delivers ⦃z = host⦄ host_laws none none (codes "k") (pos 0) (codes "dump")
      restore_table

fixed-IsBuilt_example :
    IsBuilt
      (run ⦃z = host⦄
        (some (codes "p:"))
        (some 7)
        (key_long_str (codes "SETRANGE") (codes "k") (pos 5) (codes "x")))
      (call_words ⦃z = host⦄
        (some (codes "p:"))
        (some 7)
        (key_long_str (codes "SETRANGE") (codes "k") (pos 5) (codes "x")))
      (call_slot ⦃z = host⦄
        (some (codes "p:"))
        (some 7)
        (key_long_str (codes "SETRANGE") (codes "k") (pos 5) (codes "x")))
fixed-IsBuilt_example =
    fixed-IsBuilt ⦃z = host⦄ host_laws (some (codes "p:")) (some 7)
      (key_long_str (codes "SETRANGE") (codes "k") (pos 5) (codes "x")) (omega arith)

abbrev two_fields : List Zval
two_fields = is_string (codes "f") ∷ is_long (pos 1) ∷ is_string (codes "g") ∷ is_long (pos 2) ∷ []

list-IsBuilt_example :
    IsBuilt
      (run_list ⦃z = host⦄ none none (hset (is_string (codes "h")) two_fields))
      (list_words ⦃z = host⦄ none none (hset (is_string (codes "h")) two_fields))
      (list_slot ⦃z = host⦄ none none (hset (is_string (codes "h")) two_fields))
list-IsBuilt_example =
    list-IsBuilt ⦃z = host⦄ host_laws none none (hset (is_string (codes "h")) two_fields)
      (omega arith)

hset_array_short_example :
    (cmd : Bytes) × (slot' : Option ℕ) × (ws vs : List Bytes) × (redis_hset_cmd ⦃z = host⦄ none none
        (is_string (codes "h") ∷ is_array (entry (name (codes "f")) (is_long (pos 1)) end) ∷ [])
      ≡ some (cmd, slot'))
    × (read_request cmd ≡ some (ws, bulks ⦃z = host⦄ vs))
    × (length vs ≡ 1)
hset_array_short_example =
    unfold num_elements in
    hset_array_short ⦃z = host⦄ host_laws none none (is_string (codes "h")) (is_long (pos 1))
      (codes "f") end tt

gen_varkey_cmd-IsKeyCall_example :
    IsKeyCall ⦃z = host⦄ none
      (some 0)
      (codes "BLPOP")
      (gen_varkey_cmd ⦃z = host⦄ none
        (some 0)
        (codes "BLPOP")
        true
        (arguments (timed two_fields (is_long (pos 5)))))
      (call_meant ⦃z = host⦄ (timed two_fields (is_long (pos 5))))
gen_varkey_cmd-IsKeyCall_example =
    gen_varkey_cmd-IsKeyCall ⦃z = host⦄ host_laws none (some 0) (codes "BLPOP")
      (timed two_fields (is_long (pos 5)))

eval-IsSlotted_example :
    IsSlotted
      (redis_eval_cmd ⦃z = host⦄ none 3
        (some 0)
        (codes "EVAL")
        (codes "return 1")
        two_fields
        (pos 1))
      (codes "EVAL"
        ∷ codes "return 1"
        ∷ snprintf_ld (pos 1)
        ∷ eval_args ⦃z = host⦄ none (positive (pos 1)) two_fields)
      (eval_keys ⦃z = host⦄ none (positive (pos 1)) two_fields)
      (some 0)
eval-IsSlotted_example =
    eval-IsSlotted ⦃z = host⦄ host_laws none (some 0) 3 (codes "EVAL") (codes "return 1") two_fields
      (pos 1)

eval_slot_kept_example :
    redis_eval_cmd ⦃z = host⦄ none 3
      (some 9)
      (codes "EVAL")
      (codes "return 1")
      (is_string (codes "a") ∷ [])
      (pos 0)
    ≡ some (
      request ⦃z = host⦄
          (2 + 1 + 1)
          (codes "EVAL" ∷ codes "return 1" ∷ snprintf_ld (pos 0) ∷ codes "a" ∷ []),
      some 9,
    )
unfolding text_of
eval_slot_kept_example =
    eval_slot_kept ⦃z = host⦄ none 3 9 (codes "EVAL") (codes "return 1") (is_string (codes "a")) []
      (pos 0) (unfold positive in refl)

abbrev zrange_table : HashTable
zrange_table = entry (index (pos 0)) (is_string (codes "bylex")) (
    entry (name (codes "limit"))
      (is_array
        (entry (index (pos 0)) (is_long (pos 0)) (entry (index (pos 1)) (is_long (pos 2)) end)))
      end)

abbrev lex_range : ZRange
lex_range = zvals (is_string (codes "[a")) (is_string (codes "+"))

abbrev copy_table : HashTable
copy_table =
    entry (name (codes "replace")) (is_bool true) (entry (name (codes "db")) (is_long (pos 2)) end)

pair-IsSentUnless_example :
    IsSentUnless
      (is_refused ⦃z = host⦄ none none (copy (codes "a") (codes "b") copy_table))
      (run_pair ⦃z = host⦄ none none (copy (codes "a") (codes "b") copy_table))
      (pair_kw ⦃z = host⦄ none none (copy (codes "a") (codes "b") copy_table)
          ∷ pair_keys ⦃z = host⦄ none none (copy (codes "a") (codes "b") copy_table)
        ++ pair_more ⦃z = host⦄ none none (copy (codes "a") (codes "b") copy_table))
      (pair_keys ⦃z = host⦄ none none (copy (codes "a") (codes "b") copy_table))
      none
pair-IsSentUnless_example =
    pair-IsSentUnless ⦃z = host⦄ host_laws none none (copy (codes "a") (codes "b") copy_table)

abbrev two_keys : HashTable
two_keys =
    entry (index (pos 0)) (is_string (codes "{a}x"))
      (entry (index (pos 1)) (is_string (codes "{a}y")) end)

mpop_cmd-IsSentUnless_example :
    IsSentUnless
      (is_refused_call ⦃z = host⦄ zmpop two_keys (codes "max") (pos 2))
      (redis_mpop_cmd ⦃z = host⦄ none (some 0) (codes "ZMPOP") 0 two_keys (codes "max") (pos 2))
      ((mpop_head ⦃z = host⦄ (codes "ZMPOP") false 0 two_keys
          ++ full_keys ⦃z = host⦄ none (array_values two_keys))
        ++ codes "max" ∷ count_words ⦃z = host⦄ (pos 2))
      (full_keys ⦃z = host⦄ none (array_values two_keys))
      (some 0)
mpop_cmd-IsSentUnless_example =
    mpop_cmd-IsSentUnless ⦃z = host⦄ host_laws none (some 0) zmpop 0 two_keys (codes "max") (pos 2)
