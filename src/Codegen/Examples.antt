-- ===== src/Codegen/Examples.antt =====
-- Operators and conversions on which the theorems about src/codegen are applied.
use jitfusion.Common.{
  ℕ, ◌+◌, ◌-◌, ◌%◌, ◌^◌, ◌≤◌, ◌<◌, ◌≡◌, refl, Bool, true, false, List, [], ◌∷◌, arith, leb,
  if◌then◌else◌, le→leb, String,
}
use jitfusion.Common.Int.{negsuc}
use jitfusion.Common.Result.{ok}
use jitfusion.Types.{
  is_relational, is_logical, weight, promoted_type, is_numeric_type, number, is_signed_type,
  bit_width, is_integer_type, ValueType, u8, i8, i32, f64, string, is_list_type, add,
}
use jitfusion.Registry
use jitfusion.Validator.Operators.{binary_type, if_type}
use jitfusion.Codegen.Operators.{visit_if, visit_binary, find_function, compare_sign}
use jitfusion.Codegen.Accepts.{Emits, visit_if-Emits}
use jitfusion.Codegen.Binary.{HasConcat, visit_binary-Emits}
use jitfusion.Codegen.Casts.{
  int_value, sign_extended, Converts, convert-same_sign, convert-unsigned_signed,
}

-- A cast of the builder
abbrev cast : ℕ → ℕ → Bool → ℕ → ℕ
cast a b signed v = if leb a b then (if signed then sign_extended a b v else v) else v % 2 ^ b

cast-zero_extends : (a b v : ℕ) → a ≤ b → v < 2 ^ a → cast a b false v ≡ v
cast-zero_extends a b v h k = rw (le→leb a b h) refl

cast-sign_extends : (a b v : ℕ) → a ≤ b → v < 2 ^ a → cast a b true v ≡ sign_extended a b v
cast-sign_extends a b v h k = rw (le→leb a b h) refl

-- -56 as an `i8` stays -56 as an `i32`.
convert-same_sign_example :
    (w : ℕ) × Converts cast i8 i32 8 200 w × (int_value true 32 w ≡ int_value true 8 200)
unfolding is_integer_type bit_width is_signed_type
convert-same_sign_example =
    convert-same_sign cast cast-zero_extends cast-sign_extends i8 i32 8 32 200 refl refl refl refl
      (omega arith) refl (omega arith)

-- 200 as a `u8` becomes -56 as an `i32`.
convert-unsigned_signed_example :
    Converts cast u8 i32 8 200 (200 + 2 ^ 32 - 2 ^ 8)
    × (int_value true 32 (200 + 2 ^ 32 - 2 ^ 8) ≡ negsuc (2 ^ 8 - 200 - 1))
unfolding is_integer_type bit_width is_signed_type
convert-unsigned_signed_example =
    convert-unsigned_signed cast cast-zero_extends cast-sign_extends u8 i32 8 32 200 refl refl refl
      refl (omega arith) refl refl (omega arith) (omega arith)

visit_if-Emits-step : if_type u8 i32 f64 ≡ ok f64
unfolding if_type is_numeric_type promoted_type weight
visit_if-Emits-step = refl

visit_if-Emits_example : Emits (visit_if u8 i32 f64 f64)
unfolding number
visit_if-Emits_example = visit_if-Emits u8 i32 f64 visit_if-Emits-step refl

visit_binary-Emits-step : binary_type add u8 i32 false ≡ ok i32
unfolding binary_type number is_logical is_relational is_numeric_type promoted_type weight
visit_binary-Emits-step = refl

abbrev code : Registry.FunctionStructure
code = Registry.c_structure 1 Registry.AttributeSetter.read_only false

abbrev sign : String → List ValueType → ValueType → Registry.FunctionSignature
sign name types t = record { func_name = name; param_types = types; ret_type = t }

abbrev list_sign : ValueType → Registry.FunctionSignature
list_sign t = sign "ListConcat" (t ∷ t ∷ ValueType.ptr ∷ []) t

abbrev list_entry : ValueType → Registry.FunctionSignature × Registry.FunctionStructure
list_entry t = (list_sign t, code)

abbrev string_sign : Registry.FunctionSignature
string_sign = sign "StringConcat" (string ∷ string ∷ ValueType.ptr ∷ []) string

abbrev table : Registry.Registry
table =
    (sign "StringCmp" (string ∷ string ∷ []) i32, code)
    ∷ (string_sign, code)
    ∷ list_entry ValueType.u8_list
    ∷ list_entry ValueType.u16_list
    ∷ list_entry ValueType.u32_list
    ∷ list_entry ValueType.u64_list
    ∷ list_entry ValueType.i8_list
    ∷ list_entry ValueType.i16_list
    ∷ list_entry ValueType.i32_list
    ∷ list_entry ValueType.i64_list
    ∷ list_entry ValueType.f32_list
    ∷ list_entry ValueType.f64_list
    ∷ list_entry ValueType.string_list
    ∷ []

table-HasConcat : HasConcat table
unfolding Registry.get_func_by_sign Registry.find Registry.same_sign is_list_type number
table-HasConcat ValueType.string h = (string_sign, code, refl, refl)
table-HasConcat ValueType.u8_list h = (list_sign ValueType.u8_list, code, refl, refl)
table-HasConcat ValueType.u16_list h = (list_sign ValueType.u16_list, code, refl, refl)
table-HasConcat ValueType.u32_list h = (list_sign ValueType.u32_list, code, refl, refl)
table-HasConcat ValueType.u64_list h = (list_sign ValueType.u64_list, code, refl, refl)
table-HasConcat ValueType.i8_list h = (list_sign ValueType.i8_list, code, refl, refl)
table-HasConcat ValueType.i16_list h = (list_sign ValueType.i16_list, code, refl, refl)
table-HasConcat ValueType.i32_list h = (list_sign ValueType.i32_list, code, refl, refl)
table-HasConcat ValueType.i64_list h = (list_sign ValueType.i64_list, code, refl, refl)
table-HasConcat ValueType.f32_list h = (list_sign ValueType.f32_list, code, refl, refl)
table-HasConcat ValueType.f64_list h = (list_sign ValueType.f64_list, code, refl, refl)
table-HasConcat ValueType.string_list h = (list_sign ValueType.string_list, code, refl, refl)
table-HasConcat t h = absurd (cc)

table-compares : Emits (find_function compare_sign table)
unfolding Registry.get_func_by_sign Registry.find Registry.same_sign number
table-compares = ((sign "StringCmp" (string ∷ string ∷ []) i32, code), refl)

visit_binary-Emits_example : Emits (visit_binary table add u8 i32 i32)
visit_binary-Emits_example =
    visit_binary-Emits table add u8 i32 false table-compares table-HasConcat visit_binary-Emits-step
