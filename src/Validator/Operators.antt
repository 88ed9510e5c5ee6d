-- ===== src/Validator/Operators.antt =====
-- The types that `Validator` gives to an operator from the types of its operands
-- (src/validator.cc). An error has the types that its message shows.
use jitfusion.Common.{
  ℕ, ◌+◌, ◌%◌, Bool, true, false, not, ◌&&◌, ◌||◌, List, [], ◌∷◌, String, ◌==◌, if◌then◌else◌,
}
use jitfusion.Common.Int.{pos}
use jitfusion.Common.Result.{Result, ok, err, ◌>>=◌, ◌>>◌, guard}
use jitfusion.Types.{
  ValueType, unknown, void, string, ◌=ᵗ◌, UnaryOpType, plus, minus, not_op, bitwise_not,
  BinaryOpType, add, div, mod_op, bitwise_and, bitwise_or, bitwise_xor, bitwise_shift_left,
  bitwise_shift_right, is_logical, is_relational, is_numeric_type, is_integer_type, is_list_type,
  promoted_type,
}
use jitfusion.ExecNode.{ConstantValue, ConstantList, ExecNode, const_value}
use jitfusion.Registry

pub data Error : Type 0 where
  unary_void : Error
  unary_not_numeric bitwise_not_not_integer : ValueType → Error
  minus_not_implemented : ValueType → Error
  binary_void division_by_zero : Error
  logical_not_numeric relational_mismatch bitwise_not_integer :
      ValueType → ValueType → BinaryOpType → Error
  arithmetic_not_numeric : ValueType → ValueType → BinaryOpType → Error
  add_mismatch : ValueType → ValueType → Error
  argument_void : String → Error
  function_not_found : Registry.FunctionSignature → Error
  const_reassign redeclare : String → Error
  type_mismatch : String → ValueType → ValueType → Error
  if_arity : ℕ → Error
  if_void : Error
  if_condition : ValueType → Error
  if_mismatch : ValueType → ValueType → Error
  switch_arity : ℕ → Error
  switch_void : Error
  switch_condition : ValueType → Error
  switch_mismatch switch_mixed : ValueType → ValueType → Error
  if_block_arity : Error
  if_block_condition if_block_body : ValueType → Error
  undefined_variable : String → Error

-- `ConstantValueVisitor`
unfoldable pub constant_type : ConstantValue → ValueType
constant_type (ConstantValue.i8 v) = ValueType.i8
constant_type (ConstantValue.i16 v) = ValueType.i16
constant_type (ConstantValue.i32 v) = ValueType.i32
constant_type (ConstantValue.i64 v) = ValueType.i64
constant_type (ConstantValue.u8 v) = ValueType.u8
constant_type (ConstantValue.u16 v) = ValueType.u16
constant_type (ConstantValue.u32 v) = ValueType.u32
constant_type (ConstantValue.u64 v) = ValueType.u64
constant_type (ConstantValue.f32 v) = ValueType.f32
constant_type (ConstantValue.f64 v) = ValueType.f64
constant_type (ConstantValue.string v) = ValueType.string

-- `ConstantListValueVisitor`
unfoldable pub constant_list_type : ConstantList → ValueType
constant_list_type (ConstantList.i8_list v) = ValueType.i8_list
constant_list_type (ConstantList.i16_list v) = ValueType.i16_list
constant_list_type (ConstantList.i32_list v) = ValueType.i32_list
constant_list_type (ConstantList.i64_list v) = ValueType.i64_list
constant_list_type (ConstantList.u8_list v) = ValueType.u8_list
constant_list_type (ConstantList.u16_list v) = ValueType.u16_list
constant_list_type (ConstantList.u32_list v) = ValueType.u32_list
constant_list_type (ConstantList.u64_list v) = ValueType.u64_list
constant_list_type (ConstantList.f32_list v) = ValueType.f32_list
constant_list_type (ConstantList.f64_list v) = ValueType.f64_list
constant_list_type (ConstantList.string_list v) = ValueType.string_list

-- The inner switch of `kMinus`
unfoldable pub minus_type : ValueType → Result Error ValueType
minus_type ValueType.i8 = ok ValueType.i32
minus_type ValueType.u8 = ok ValueType.i32
minus_type ValueType.i16 = ok ValueType.i32
minus_type ValueType.u16 = ok ValueType.i32
minus_type ValueType.i32 = ok ValueType.i32
minus_type ValueType.u32 = ok ValueType.u32
minus_type ValueType.i64 = ok ValueType.i64
minus_type ValueType.u64 = ok ValueType.u64
minus_type ValueType.f32 = ok ValueType.f32
minus_type ValueType.f64 = ok ValueType.f64
minus_type t = err (minus_not_implemented t)

-- The switch on the operator in `Visit(UnaryOPNode&)`
unfoldable pub unary_switch : UnaryOpType → ValueType → Result Error ValueType
unfolding minus_type
unary_switch plus t = ok t
unary_switch minus t = minus_type t
unary_switch not_op t = ok ValueType.u8
unary_switch bitwise_not t = do guard (is_integer_type t) (bitwise_not_not_integer t); ok t

-- `Visit(UnaryOPNode&)` behind the visit of the child
unfoldable pub unary_type : UnaryOpType → ValueType → Result Error ValueType
unfolding unary_switch
unary_type op t = do
  guard (not (t =ᵗ void)) unary_void
  guard (is_numeric_type t) (unary_not_numeric t)
  unary_switch op t

-- `DivZeroVisit`
unfoldable pub is_zero : ConstantValue → Bool
is_zero (ConstantValue.i8 (pos n)) = n == 0
is_zero (ConstantValue.i16 (pos n)) = n == 0
is_zero (ConstantValue.i32 (pos n)) = n == 0
is_zero (ConstantValue.i64 (pos n)) = n == 0
is_zero (ConstantValue.u8 n) = n == 0
is_zero (ConstantValue.u16 n) = n == 0
is_zero (ConstantValue.u32 n) = n == 0
is_zero (ConstantValue.u64 n) = n == 0
is_zero _ = false

-- Is the node a `ConstantValueNode` that holds an integer zero?
unfoldable pub is_zero_const : ExecNode → Bool
unfolding is_zero
is_zero_const (const_value v) = is_zero v
is_zero_const _ = false

abbrev pub is_shift : BinaryOpType → Bool
is_shift bitwise_shift_left = true
is_shift bitwise_shift_right = true
is_shift _ = false

abbrev pub is_bitwise : BinaryOpType → Bool
is_bitwise bitwise_and = true
is_bitwise bitwise_or = true
is_bitwise bitwise_xor = true
is_bitwise bitwise_shift_left = true
is_bitwise bitwise_shift_right = true
is_bitwise _ = false

abbrev pub is_add : BinaryOpType → Bool
is_add add = true
is_add _ = false

abbrev pub is_division : BinaryOpType → Bool
is_division div = true
is_division mod_op = true
is_division _ = false

-- The `kAdd` case
unfoldable pub add_type : ValueType → ValueType → Result Error ValueType
add_type l r =
    if is_numeric_type l && is_numeric_type r
    then ok (promoted_type l r)
    else if (l =ᵗ string) && (r =ᵗ string)
    then ok string
    else if is_list_type l && (l =ᵗ r)
    then ok l
    else err (add_mismatch l r)

-- The logical, relational, bitwise and remaining arithmetic cases
unfoldable pub logical_type : BinaryOpType → ValueType → ValueType → Result Error ValueType
logical_type op l r = do
  guard (is_numeric_type l && is_numeric_type r) (logical_not_numeric l r op)
  ok ValueType.u8

unfoldable pub relational_type : BinaryOpType → ValueType → ValueType → Result Error ValueType
relational_type op l r = do
  guard ((is_numeric_type l && is_numeric_type r) || ((l =ᵗ string) && (r =ᵗ string)))
      (relational_mismatch l r op)
  ok ValueType.u8

unfoldable pub bitwise_type : BinaryOpType → ValueType → ValueType → Result Error ValueType
bitwise_type op l r = do
  guard (is_integer_type l && is_integer_type r) (bitwise_not_integer l r op)
  ok (if is_shift op then l else promoted_type l r)

unfoldable pub arithmetic_type :
    BinaryOpType → ValueType → ValueType → Bool → Result Error ValueType
arithmetic_type op l r zero = do
  guard (is_numeric_type l && is_numeric_type r) (arithmetic_not_numeric l r op)
  guard (not (is_division op && zero)) division_by_zero
  ok (promoted_type l r)

-- `Visit(BinaryOPNode&)` behind the visits of its operands; `zero` says that the right operand is
-- a constant zero
unfoldable pub binary_type : BinaryOpType → ValueType → ValueType → Bool → Result Error ValueType
unfolding logical_type relational_type bitwise_type add_type arithmetic_type
binary_type op l r zero =
    if (l =ᵗ void) || (r =ᵗ void)
    then err binary_void
    else if is_logical op
    then logical_type op l r
    else if is_relational op
    then relational_type op l r
    else if is_bitwise op
    then bitwise_type op l r
    else if is_add op
    then add_type l r
    else arithmetic_type op l r zero

-- `Visit(IfNode&)` behind the visits of its three arguments
unfoldable pub if_type : ValueType → ValueType → ValueType → Result Error ValueType
if_type c a b =
    if not (is_numeric_type c)
    then err (if_condition c)
    else if is_numeric_type a && is_numeric_type b
    then ok (promoted_type a b)
    else if a =ᵗ b
    then ok a
    else err (if_mismatch a b)

-- One round of the loop in `Visit(SwitchNode&)` for a branch: the numeric and the complex type
-- seen so far
unfoldable pub switch_branch :
    ValueType → ValueType → ValueType → Result Error (ValueType × ValueType)
switch_branch t numeric complex =
    if is_numeric_type t
    then ok (promoted_type numeric t, complex)
    else if not (complex =ᵗ unknown) && not (complex =ᵗ t)
    then err (switch_mismatch t complex)
    else ok (numeric, t)

-- The loop, at argument `i` of `size`
unfoldable pub switch_loop :
    List ValueType → ℕ → ℕ → ValueType → ValueType → Result Error (ValueType × ValueType)
switch_loop [] i size numeric complex = ok (numeric, complex)
switch_loop (t ∷ ts) i size numeric complex = do
  guard (not (not (i + 1 == size) && i % 2 == 0 && not (is_numeric_type t))) (switch_condition t)
  (numeric, complex) ←
      (if not (i % 2 == 0) || i + 1 == size
        then switch_branch t numeric complex
        else ok (numeric, complex))
  switch_loop ts (i + 1) size numeric complex

-- `Visit(SwitchNode&)` behind the visits of its arguments
unfoldable pub switch_type : List ValueType → ℕ → Result Error ValueType
switch_type ts size = do
  (numeric, complex) ← switch_loop ts 0 size unknown unknown
  guard (not (not (complex =ᵗ unknown) && not (numeric =ᵗ unknown))) (switch_mixed numeric complex)
  ok (if numeric =ᵗ unknown then complex else numeric)
