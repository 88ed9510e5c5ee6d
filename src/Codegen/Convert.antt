-- ===== src/Codegen/Convert.antt =====
-- `NumericTypeConvert` and `ValueTypeToLLVMType` (src/codegen/codegen.cc)
use jitfusion.Common.{ℕ, Bool, if◌then◌else◌}
use jitfusion.Common.Int.{ℤ, ltb_ℤ}
use jitfusion.Common.Result.{Result, ok, err}
use jitfusion.Types.{
  ValueType, unknown, void, f32, ◌=ᵗ◌, is_integer_type, is_float_type, is_signed_type, bit_width,
}
use jitfusion.Registry

-- The calls of the builder that convert a value; the first is none.
pub data Cast : Type 0 where
  keep : Cast
  int_cast : ℤ → Bool → Cast
  si_to_fp ui_to_fp : ValueType → Cast
  fp_to_si fp_to_ui : ℤ → Cast
  fp_ext fp_trunc : Cast

pub data Error : Type 0 where
  unsupported_conversion : ValueType → ValueType → Error
  no_llvm_type : ValueType → Error
  unsupported_condition : ValueType → Error
  unknown_operator unknown_operand : Error
  registry : Registry.Error → Error

-- The type that a conversion of an integer to a float gives
abbrev fp_target : ValueType → ValueType
fp_target to = if to =ᵗ f32 then f32 else ValueType.f64

-- The branch for an integer
unfoldable pub convert_integer : ValueType → ValueType → Result Error Cast
convert_integer from to =
    if is_integer_type to
    then ok (int_cast (bit_width to) (is_signed_type to))
    else if is_float_type to
    then ok (if is_signed_type from then si_to_fp (fp_target to) else ui_to_fp (fp_target to))
    else err (unsupported_conversion from to)

-- The branch for a float
unfoldable pub convert_float : ValueType → ValueType → Result Error Cast
convert_float from to =
    if is_integer_type to
    then ok (if is_signed_type to then fp_to_si (bit_width to) else fp_to_ui (bit_width to))
    else if is_float_type to
    then ok (
        if ltb_ℤ (bit_width from) (bit_width to)
        then fp_ext
        else if ltb_ℤ (bit_width to) (bit_width from)
        then fp_trunc
        else keep)
    else err (unsupported_conversion from to)

-- `NumericTypeConvert`
unfoldable pub numeric_type_convert : ValueType → ValueType → Result Error Cast
unfolding convert_integer convert_float
numeric_type_convert from to =
    if from =ᵗ to
    then ok keep
    else if is_integer_type from
    then convert_integer from to
    else if is_float_type from
    then convert_float from to
    else err (unsupported_conversion from to)

-- The kinds of LLVM types; a struct is named by its value type.
pub data LlvmType : Type 0 where
  void_type pointer_type float_type double_type : LlvmType
  int_type : ℕ → LlvmType
  struct_type : ValueType → LlvmType

-- `ValueTypeToLLVMType`
unfoldable pub value_type_to_llvm_type : ValueType → Result Error LlvmType
value_type_to_llvm_type unknown = err (no_llvm_type unknown)
value_type_to_llvm_type void = ok void_type
value_type_to_llvm_type ValueType.u8 = ok (int_type 8)
value_type_to_llvm_type ValueType.i8 = ok (int_type 8)
value_type_to_llvm_type ValueType.u16 = ok (int_type 16)
value_type_to_llvm_type ValueType.i16 = ok (int_type 16)
value_type_to_llvm_type ValueType.u32 = ok (int_type 32)
value_type_to_llvm_type ValueType.i32 = ok (int_type 32)
value_type_to_llvm_type ValueType.u64 = ok (int_type 64)
value_type_to_llvm_type ValueType.i64 = ok (int_type 64)
value_type_to_llvm_type ValueType.f32 = ok LlvmType.float_type
value_type_to_llvm_type ValueType.f64 = ok double_type
value_type_to_llvm_type ValueType.ptr = ok pointer_type
value_type_to_llvm_type t = ok (struct_type t)

-- The tests `!= 0` of a condition: on an integer, or ordered on a float
pub data ToBool : Type 0 where
  icmp_ne fcmp_one : ToBool

abbrev pub test_of : ValueType → LlvmType → Result Error ToBool
test_of t (int_type w) = ok icmp_ne
test_of t LlvmType.float_type = ok fcmp_one
test_of t double_type = ok fcmp_one
test_of t _ = err (unsupported_condition t)

-- The test that a condition of value type `t` is given, by the type of its LLVM value
unfoldable pub to_bool : ValueType → Result Error ToBool
unfolding value_type_to_llvm_type
to_bool t = elim (value_type_to_llvm_type t) [ ok l ↦ test_of t l | err e ↦ err e ]
