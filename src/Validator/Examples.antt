-- ===== src/Validator/Examples.antt =====
-- Small trees on which the theorems about src/validator.cc are applied.
use jitfusion.Common.{◌≡◌, refl, true, false, some, [], ◌∷◌, String}
use jitfusion.Common.Int.{pos}
use jitfusion.Common.Result.{ok, err}
use jitfusion.Types.{
  weight, promoted_type, is_relational, is_logical, number, is_numeric_type, void, i32, f64, add,
}
use jitfusion.Scope.{is_bound, get_shadowed, insert, find, Frame, lookup}
use jitfusion.ExecNode.{
  size, ExecNode, VarInfo, ConstantValue, const_value, binary_op, no_op, if_block, ref, nil, cons,
  end, stmt,
}
use jitfusion.Validator.{
  merge_shadowed, set_all, set_statement, VarEntry, Scopes, visit, visit_statements,
}
use jitfusion.Validator.Operators.{binary_type, constant_type, const_reassign, type_mismatch}
use jitfusion.Validator.Visibility.{
  visit-lookup, visit_statements-isolated, visit_statements-const_reassign,
  visit_statements-type_mismatch,
}

abbrev one : ExecNode
one = const_value (ConstantValue.i32 (pos 1))

abbrev half : ExecNode
half = const_value (ConstantValue.f64 0)

abbrev named : String → VarInfo
named name = record { name = name; is_const = false }

abbrev whole : VarEntry
whole = record { type = i32; is_const = false }

abbrev fixed : VarEntry
fixed = record { type = i32; is_const = true }

-- `if 1 { x = x + 1; y = 1 }`
abbrev body : ExecNode
body = no_op false (stmt (named "x") (binary_op add (ref "x") one) (stmt (named "y") one end))

abbrev branch : ExecNode
branch = if_block (cons one (cons body nil))

abbrev scope : Frame VarEntry
scope = ("x", whole) ∷ []

accepts : visit [] branch (scope ∷ []) ≡ ok (void, scope ∷ [])
unfolding visit size is_numeric_type constant_type lookup find binary_type number is_logical
    is_relational set_statement promoted_type weight insert set_all merge_shadowed get_shadowed
    is_bound
accepts = refl

visit-lookup_example :
    ((g : Frame VarEntry) × ((scope ∷ []) ≡ g ∷ []))
    × ((name : String) (e : VarEntry)
        → lookup name (scope ∷ []) ≡ some e
        → lookup name (scope ∷ []) ≡ some e)
visit-lookup_example = visit-lookup [] branch scope [] accepts

visit_statements-isolated-step :
    visit_statements [] true (stmt (named "y") one end) (scope ∷ []) ≡ ok (scope ∷ [])
unfolding visit set_statement lookup find
visit_statements-isolated-step = refl

visit_statements-isolated_example : (scope ∷ []) ≡ (scope ∷ [])
visit_statements-isolated_example =
    visit_statements-isolated [] (stmt (named "y") one end) (scope ∷ [])
      visit_statements-isolated-step

visit-one : (s : Scopes) → visit [] one s ≡ ok (i32, s)
unfolding visit constant_type
visit-one s = refl

visit-half : (s : Scopes) → visit [] half s ≡ ok (f64, s)
unfolding visit constant_type
visit-half s = refl

abbrev constants : Scopes
constants = (("k", fixed) ∷ []) ∷ []

visit_statements-const_reassign-found : lookup "k" constants ≡ some fixed
unfolding lookup find
visit_statements-const_reassign-found = refl

visit_statements-const_reassign_example :
    visit_statements [] true (stmt (named "k") one end) constants ≡ err (const_reassign "k")
visit_statements-const_reassign_example =
    visit_statements-const_reassign [] true (named "k") one end constants fixed refl
      visit_statements-const_reassign-found refl (visit-one ([] ∷ constants))

visit_statements-type_mismatch-found : lookup "x" (scope ∷ []) ≡ some whole
unfolding lookup find
visit_statements-type_mismatch-found = refl

visit_statements-type_mismatch_example :
    visit_statements [] false (stmt (named "x") half end) (scope ∷ [])
    ≡ err (type_mismatch "x" i32 f64)
unfolding number
visit_statements-type_mismatch_example =
    visit_statements-type_mismatch [] false (named "x") half end (scope ∷ []) whole {t = f64} refl
      visit_statements-type_mismatch-found refl refl (visit-half (scope ∷ []))
