-- ===== src/Builtins/Examples.antt =====
-- Tables on which the theorems about the functions of src/function are applied.
use jitfusion.Common.{ℕ, ◌≡◌, ◌≢◌, refl, true, false, some, [], ◌∷◌, String}
use jitfusion.Common.Lists.{get_elem?}
use jitfusion.Common.Result.{ok}
use jitfusion.Types.{string, number, add, is_logical, is_relational, is_numeric_type}
use jitfusion.Registry.{Registry, read_only, c_structure, get_func_by_sign}
use jitfusion.Validator.Operators.{binary_type}
use jitfusion.Codegen.Operators.{visit_binary}
use jitfusion.Codegen.Accepts.{Emits}
use jitfusion.Builtins.{init}
use jitfusion.Builtins.Calls.{signature}
use jitfusion.Builtins.Entries.{Entry, all_entries}
use jitfusion.Builtins.Complete.{init_calls, init-all_entries, get_func_by_sign-init}
use jitfusion.Builtins.Operators.{init-visit_binary-Emits}

-- All functions at one address
abbrev at_one : String → ℕ
at_one n = 1

at_one-linked : (n : String) → at_one n ≢ 0
at_one-linked n = λ e. cc

init-all_entries_example : init at_one [] ≡ ok (all_entries at_one init_calls)
init-all_entries_example = init-all_entries at_one at_one-linked

abbrev concat_entry : Entry
concat_entry =
    (signature "StringConcat" (string ∷ string ∷ []) string, c_structure 1 read_only true)

get_func_by_sign-init-step : get_elem? (all_entries at_one init_calls) 174 ≡ some concat_entry
get_func_by_sign-init-step = refl

get_func_by_sign-init_example :
    (r : Registry) × (init at_one [] ≡ ok r)
    × (get_func_by_sign (signature "StringConcat" (string ∷ string ∷ []) string) r
        ≡ ok concat_entry)
get_func_by_sign-init_example =
    get_func_by_sign-init at_one at_one-linked 174 concat_entry get_func_by_sign-init-step

init-visit_binary-Emits-step : binary_type add string string false ≡ ok string
unfolding binary_type number is_logical is_relational is_numeric_type
init-visit_binary-Emits-step = refl

init-visit_binary-Emits_example :
    (reg : Registry) × (init at_one [] ≡ ok reg) × Emits (visit_binary reg add string string string)
init-visit_binary-Emits_example =
    init-visit_binary-Emits at_one at_one-linked add string string false
      init-visit_binary-Emits-step
