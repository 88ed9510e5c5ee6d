-- ===== src/Types.antt =====
-- include/type.h and src/type.cc: the value types, the operators, and the tests of `TypeHelper`.
pub mod Promotion
mod Examples
use jitfusion.Common.{
  ℕ, ◌-◌, ◌^◌, ◌≡◌, refl, ap, ◌↔◌, ◌∙◌, sym, Bool, true, false, arith, ◌==◌, ==_iff, ==_refl,
  if◌then◌else◌,
}
use jitfusion.Common.Int.{ℤ, pos, negsuc, ltb_ℤ}

-- `ValueType`, in the order of its numbers
pub data ValueType : Type 0 where
  unknown void u8 u16 u32 u64 i8 i16 i32 i64 f32 f64 string : ValueType
  u8_list u16_list u32_list u64_list i8_list i16_list i32_list i64_list f32_list f64_list :
      ValueType
  string_list ptr : ValueType

-- `BinaryOPType`
pub data BinaryOpType : Type 0 where
  add sub mul div mod_op : BinaryOpType
  large large_equal equal less less_equal not_equal : BinaryOpType
  and or : BinaryOpType
  bitwise_and bitwise_or bitwise_xor bitwise_shift_left bitwise_shift_right : BinaryOpType

-- `UnaryOPType`
pub data UnaryOpType : Type 0 where
  plus minus not_op bitwise_not : UnaryOpType

-- The number of an enumerator (`static_cast<uint8_t>`)
unfoldable pub number : ValueType → ℕ
number unknown = 0
number void = 1
number u8 = 2
number u16 = 3
number u32 = 4
number u64 = 5
number i8 = 6
number i16 = 7
number i32 = 8
number i64 = 9
number f32 = 10
number f64 = 11
number string = 12
number u8_list = 13
number u16_list = 14
number u32_list = 15
number u64_list = 16
number i8_list = 17
number i16_list = 18
number i32_list = 19
number i64_list = 20
number f32_list = 21
number f64_list = 22
number string_list = 23
number ptr = 24

-- `==` on `ValueType`
infix 50 ◌=ᵗ◌
abbrev pub ◌=ᵗ◌ : ValueType → ValueType → Bool
a =ᵗ b = number a == number b

of_number : ℕ → ValueType
of_number n =
    if n == 0
    then unknown
    else if n == 1
    then void
    else if n == 2
    then u8
    else if n == 3
    then u16
    else if n == 4
    then u32
    else if n == 5
    then u64
    else if n == 6
    then i8
    else if n == 7
    then i16
    else if n == 8
    then i32
    else if n == 9
    then i64
    else if n == 10
    then f32
    else if n == 11
    then f64
    else if n == 12
    then string
    else if n == 13
    then u8_list
    else if n == 14
    then u16_list
    else if n == 15
    then u32_list
    else if n == 16
    then u64_list
    else if n == 17
    then i8_list
    else if n == 18
    then i16_list
    else if n == 19
    then i32_list
    else if n == 20
    then i64_list
    else if n == 21
    then f32_list
    else if n == 22
    then f64_list
    else if n == 23
    then string_list
    else ptr

of_number-number : (t : ValueType) → of_number (number t) ≡ t
unfolding of_number number
of_number-number unknown = refl
of_number-number _ = refl

-- Two enumerators with one number are the same.
pub =ᵗ_iff : (a b : ValueType) → ((a =ᵗ b) ≡ true) ↔ (a ≡ b)
=ᵗ_iff a b = (
  λ h.
      sym (of_number-number a)
      ∙ ap of_number ((==_iff (number a) (number b)).0 h)
      ∙ of_number-number b,
  λ e. (==_iff (number a) (number b)).1 (ap number e),
)

-- `IsNumericType`
unfoldable pub is_numeric_type : ValueType → Bool
is_numeric_type f32 = true
is_numeric_type f64 = true
is_numeric_type i8 = true
is_numeric_type i16 = true
is_numeric_type i32 = true
is_numeric_type i64 = true
is_numeric_type u8 = true
is_numeric_type u16 = true
is_numeric_type u32 = true
is_numeric_type u64 = true
is_numeric_type _ = false

-- `IsIntegerType`
unfoldable pub is_integer_type : ValueType → Bool
is_integer_type i8 = true
is_integer_type i16 = true
is_integer_type i32 = true
is_integer_type i64 = true
is_integer_type u8 = true
is_integer_type u16 = true
is_integer_type u32 = true
is_integer_type u64 = true
is_integer_type _ = false

-- `IsSignedType`
unfoldable pub is_signed_type : ValueType → Bool
is_signed_type i8 = true
is_signed_type i16 = true
is_signed_type i32 = true
is_signed_type i64 = true
is_signed_type f32 = true
is_signed_type f64 = true
is_signed_type _ = false

-- `IsFloatType`
unfoldable pub is_float_type : ValueType → Bool
is_float_type f32 = true
is_float_type f64 = true
is_float_type _ = false

-- `IsComplexType`
unfoldable pub is_complex_type : ValueType → Bool
is_complex_type string = true
is_complex_type u8_list = true
is_complex_type u16_list = true
is_complex_type u32_list = true
is_complex_type u64_list = true
is_complex_type i8_list = true
is_complex_type i16_list = true
is_complex_type i32_list = true
is_complex_type i64_list = true
is_complex_type f32_list = true
is_complex_type f64_list = true
is_complex_type string_list = true
is_complex_type _ = false

-- `IsListType`
unfoldable pub is_list_type : ValueType → Bool
is_list_type u8_list = true
is_list_type u16_list = true
is_list_type u32_list = true
is_list_type u64_list = true
is_list_type i8_list = true
is_list_type i16_list = true
is_list_type i32_list = true
is_list_type i64_list = true
is_list_type f32_list = true
is_list_type f64_list = true
is_list_type string_list = true
is_list_type _ = false

-- The table `kWeightTable` of `GetPromotedType`
unfoldable pub weight : ValueType → ℤ
weight i8 = pos 0
weight u8 = pos 1
weight i16 = pos 2
weight u16 = pos 3
weight i32 = pos 4
weight u32 = pos 5
weight i64 = pos 6
weight u64 = pos 7
weight f32 = pos 8
weight f64 = pos 9
weight string = pos 10
weight i8_list = pos 11
weight u8_list = pos 12
weight i16_list = pos 13
weight u16_list = pos 14
weight i32_list = pos 15
weight u32_list = pos 16
weight i64_list = pos 17
weight u64_list = pos 18
weight f32_list = pos 19
weight f64_list = pos 20
weight string_list = pos 21
weight _ = negsuc 0

-- `GetPromotedType`: the operand with the larger weight, the right one if neither is larger
unfoldable pub promoted_type : ValueType → ValueType → ValueType
promoted_type lhs rhs = if ltb_ℤ (weight rhs) (weight lhs) then lhs else rhs

-- `IsRelationalBinaryOPType`
unfoldable pub is_relational : BinaryOpType → Bool
is_relational large = true
is_relational large_equal = true
is_relational equal = true
is_relational less = true
is_relational less_equal = true
is_relational not_equal = true
is_relational _ = false

-- `IsLogicalBinaryOPType`
unfoldable pub is_logical : BinaryOpType → Bool
is_logical and = true
is_logical or = true
is_logical _ = false

-- `GetBitWidthFromType`; -1 for a type without a width
unfoldable pub bit_width : ValueType → ℤ
bit_width i8 = pos 8
bit_width i16 = pos 16
bit_width i32 = pos 32
bit_width i64 = pos 64
bit_width u8 = pos 8
bit_width u16 = pos 16
bit_width u32 = pos 32
bit_width u64 = pos 64
bit_width f32 = pos 32
bit_width f64 = pos 64
bit_width _ = negsuc 0

-- `GetElementSize`, with the sizes of a 64-bit target; -1 as a `uint32_t` otherwise
unfoldable pub element_size : ValueType → ℕ
element_size i8_list = 1
element_size i16_list = 2
element_size i32_list = 4
element_size i64_list = 8
element_size u8_list = 1
element_size u16_list = 2
element_size u32_list = 4
element_size u64_list = 8
element_size f32_list = 4
element_size f64_list = 8
element_size string = 1
element_size string_list = 16
element_size _ = 2 ^ 32 - 1

-- `GetElementType`
unfoldable pub element_type : ValueType → ValueType
element_type i8_list = i8
element_type i16_list = i16
element_type i32_list = i32
element_type i64_list = i64
element_type u8_list = u8
element_type u16_list = u16
element_type u32_list = u32
element_type u64_list = u64
element_type f32_list = f32
element_type f64_list = f64
element_type string = i8
element_type string_list = string_list
element_type _ = unknown
