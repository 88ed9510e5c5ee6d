-- ===== src/Builtins/Complete.antt =====
-- `FunctionRegistry::Init` (src/function_registry.cc) on an empty table registers everything, and
-- what the code generator looks up by name is there.
use jitfusion.Common.{ℕ, ◌≡◌, ◌≢◌, refl, ap, subst, ◌∙◌, true, some, List, [], ◌++◌, String}
use jitfusion.Common.Lists.{get_elem?}
use jitfusion.Common.Result.{ok, ◌>>=◌}
use jitfusion.Types.{number}
use jitfusion.Registry.{Registry, same_types, find, get_func_by_sign, answer}
use jitfusion.Builtins.{
  in_order, list_comparison_func, list_internal_func, init, math_internal_func,
  list_arithmetic_func, if_func, filter_func, list_aggregation_func, list_basic_func,
  list_group_func, list_indexing_func, Strings.string_internal_func,
}
use jitfusion.Builtins.Calls.{Call}
use jitfusion.Builtins.Fresh.{fresh, seen, enter, member, Covers, assign_all, signatures}
use jitfusion.Builtins.Entries.{
  Entry, all_entries, all_keys, signatures-all_entries, register_each-fresh, find-entry,
  assign_all-append,
}
use jitfusion.Builtins.Registers.{
  concat, calls-register_each, AllValid-all_entries, Runs, calls-Runs, >>=-Runs, in_order-Runs,
}

abbrev internal_calls : List Call
internal_calls =
    (((((concat list_arithmetic_func ++ (concat if_func ++ concat filter_func))
            ++ concat list_aggregation_func)
          ++ concat list_basic_func)
        ++ concat list_group_func)
      ++ concat list_indexing_func)

-- Every call of `Init`, in order
abbrev pub init_calls : List Call
init_calls = (concat math_internal_func ++ string_internal_func) ++ internal_calls

init_keys-fresh : fresh (all_keys init_calls) [] ≡ true
unfolding fresh seen enter member same_types number
init_keys-fresh = refl

module _ (address : String → ℕ) (linked : (n : String) → address n ≢ 0) where
  list_comparison-Runs :
      Runs address linked (list_comparison_func address) (concat if_func ++ concat filter_func)
  unfolding list_comparison_func
  list_comparison-Runs =
      >>=-Runs address linked (in_order-Runs address linked if_func)
        (in_order-Runs address linked filter_func)

  up_to_basic-Runs :
      Runs address linked
        (λ r.
          in_order address list_arithmetic_func r
          >>= list_comparison_func address
          >>= in_order address list_aggregation_func
          >>= in_order address list_basic_func)
        (((concat list_arithmetic_func ++ (concat if_func ++ concat filter_func))
            ++ concat list_aggregation_func)
          ++ concat list_basic_func)
  up_to_basic-Runs =
      >>=-Runs address linked
        (>>=-Runs address linked
          (>>=-Runs address linked (in_order-Runs address linked list_arithmetic_func)
            list_comparison-Runs)
          (in_order-Runs address linked list_aggregation_func))
        (in_order-Runs address linked list_basic_func)

  list_internal-Runs : Runs address linked (list_internal_func address) internal_calls
  unfolding list_internal_func
  list_internal-Runs =
      >>=-Runs address linked
        (>>=-Runs address linked up_to_basic-Runs (in_order-Runs address linked list_group_func))
        (in_order-Runs address linked list_indexing_func)

  init-Runs : Runs address linked (init address) init_calls
  unfolding init
  init-Runs =
      >>=-Runs address linked
        (>>=-Runs address linked (in_order-Runs address linked math_internal_func)
          (calls-Runs address linked string_internal_func))
        list_internal-Runs

  keys-fresh : fresh (signatures (all_entries address init_calls)) [] ≡ true
  keys-fresh = ap (λ ss. fresh ss []) (signatures-all_entries address init_calls) ∙ init_keys-fresh

  nothing-Covers : Covers [] []
  unfolding seen find
  nothing-Covers q = refl

  -- `Init` on an empty table succeeds: no signature is registered twice. The table then holds
  -- every function, in the order of the calls.
  pub init-all_entries : init address [] ≡ ok (all_entries address init_calls)
  init-all_entries =
      init-Runs.same []
      ∙ calls-register_each address linked init_calls []
      ∙ register_each-fresh _ [] [] (AllValid-all_entries address linked init_calls) nothing-Covers
          keys-fresh
      ∙ ap ok (assign_all-append _ [] [] nothing-Covers keys-fresh)

  -- On an empty table `Init` succeeds, and afterwards the name and the parameter types of every
  -- function that it registers give this function, with the return type that it registers.
  pub get_func_by_sign-init :
      (i : ℕ) (e : Entry)
      → get_elem? (all_entries address init_calls) i ≡ some e
      → (r : Registry) × (init address [] ≡ ok r) × (get_func_by_sign e.0 r ≡ ok e)
  unfolding get_func_by_sign
  get_func_by_sign-init i e h =
      let es : List Entry = all_entries address init_calls in
      let found : find e.0 (assign_all es []) ≡ some e =
        find-entry es i e [] [] nothing-Covers keys-fresh h in
      let table : assign_all es [] ≡ es = assign_all-append es [] [] nothing-Covers keys-fresh in
      (es, init-all_entries, ap (answer e.0) (subst (λ r. find e.0 r ≡ some e) table found))
