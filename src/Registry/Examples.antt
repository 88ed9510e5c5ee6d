-- ===== src/Registry/Examples.antt =====
-- Tables of functions on which the theorems about src/function_registry.cc are applied.
use jitfusion.Common.{◌≡◌, refl, true, false, none, [], ◌∷◌}
use jitfusion.Common.Result.{ok}
use jitfusion.Types.{number, i32, f64}
use jitfusion.Registry.{
  same_sign, assign, FunctionSignature, FunctionStructure, Registry, c_structure, read_only,
  commutative, no_setter, find, register_func, register_read_only_c_func_with_exec_ctx,
  register_commutative_c_func_with_exec_ctx, get_func_by_sign, legacy_sign,
}
use jitfusion.Registry.Lookup.{get_func_by_sign-register_func, register_func-find}
use jitfusion.Registry.Contexts.{
  FindsBoth, register_read_only-FindsBoth, register_commutative-FindsBoth,
}

-- A sum that first returns `f64` and is then registered again to return `i32`
abbrev old_sum : FunctionSignature
old_sum = record { func_name = "sum"; param_types = f64 ∷ []; ret_type = f64 }

abbrev new_sum : FunctionSignature
new_sum = record { func_name = "sum"; param_types = f64 ∷ []; ret_type = i32 }

abbrev code : FunctionStructure
code = c_structure 7 no_setter false

abbrev old_code : FunctionStructure
old_code = c_structure 5 no_setter false

abbrev table : Registry
table = (old_sum, old_code) ∷ []

registers : register_func new_sum code true table ≡ ok ((old_sum, code) ∷ [])
unfolding register_func assign same_sign number
registers = refl

-- The override keeps the return type of the old registration.
get_func_by_sign-register_func_example :
    get_func_by_sign new_sum ((old_sum, code) ∷ []) ≡ ok (old_sum, code)
unfolding same_sign number find
get_func_by_sign-register_func_example =
    get_func_by_sign-register_func new_sum new_sum code true table registers

registers_first : register_func new_sum code false [] ≡ ok ((new_sum, code) ∷ [])
unfolding register_func find assign
registers_first = refl

register_func-find_example : find new_sum [] ≡ none
register_func-find_example =
    register_func-find new_sum code [] {r' = (new_sum, code) ∷ []} registers_first

abbrev both_sums : FunctionStructure → FunctionStructure → Registry
both_sums f g = (new_sum, f) ∷ (legacy_sign new_sum, g) ∷ []

register_read_only-FindsBoth-step :
    register_read_only_c_func_with_exec_ctx new_sum 9 false []
    ≡ ok (both_sums (c_structure 9 read_only true) (c_structure 9 read_only false))
unfolding register_read_only_c_func_with_exec_ctx register_func find assign same_sign number
register_read_only-FindsBoth-step = refl

register_read_only-FindsBoth_example :
    FindsBoth new_sum
      (c_structure 9 read_only true)
      (c_structure 9 read_only false)
      []
      (both_sums (c_structure 9 read_only true) (c_structure 9 read_only false))
register_read_only-FindsBoth_example =
    register_read_only-FindsBoth new_sum 9 false [] register_read_only-FindsBoth-step

register_commutative-FindsBoth-step :
    register_commutative_c_func_with_exec_ctx new_sum 9 false []
    ≡ ok (both_sums (c_structure 9 commutative true) (c_structure 9 commutative false))
unfolding register_commutative_c_func_with_exec_ctx register_func find assign same_sign number
register_commutative-FindsBoth-step = refl

register_commutative-FindsBoth_example :
    FindsBoth new_sum
      (c_structure 9 commutative true)
      (c_structure 9 commutative false)
      []
      (both_sums (c_structure 9 commutative true) (c_structure 9 commutative false))
register_commutative-FindsBoth_example =
    register_commutative-FindsBoth new_sum 9 false [] register_commutative-FindsBoth-step
