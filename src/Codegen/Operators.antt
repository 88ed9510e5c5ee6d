-- ===== src/Codegen/Operators.antt =====
-- The operators: src/codegen/unary_op_codegen.cc, src/codegen/binary_op_codegen.cc, and the branches
-- of src/codegen/if_codegen.cc. `l`, `r` and `t` are the types that the validator wrote into the nodes.
use jitfusion.Common.{Bool, true, false, ◌&&◌, [], ◌∷◌, if◌then◌else◌}
use jitfusion.Common.Result.{Result, ok, err, ◌>>=◌, ◌>>◌, guard}
use jitfusion.Types.{
  ValueType, unknown, string, ◌=ᵗ◌, is_integer_type, is_signed_type, is_numeric_type, is_relational,
  is_logical, promoted_type, UnaryOpType, plus, minus, not_op, bitwise_not, BinaryOpType, add, sub,
  mul, div, mod_op, large, large_equal, equal, less, less_equal, not_equal, and, bitwise_and,
  bitwise_or, bitwise_xor, bitwise_shift_left, bitwise_shift_right,
}
use jitfusion.Registry
use jitfusion.Codegen.Convert.{
  Cast, Error, unknown_operator, unknown_operand, registry, ToBool, numeric_type_convert, to_bool,
  value_type_to_llvm_type,
}

-- The builder's comparisons and calculations
pub data Instruction : Type 0 where
  icmp_sgt icmp_ugt fcmp_ogt icmp_sge icmp_uge fcmp_oge icmp_eq fcmp_oeq : Instruction
  icmp_slt icmp_ult fcmp_olt icmp_sle icmp_ule fcmp_ole icmp_ne fcmp_une : Instruction
  add_op fadd sub_op fsub mul_op fmul sdiv udiv fdiv srem urem frem : Instruction
  and_op or_op xor_op shl ashr lshr : Instruction

-- One of three, by the kind of the type
abbrev by_kind : ValueType → Instruction → Instruction → Instruction → Instruction
by_kind t signed unsigned float =
    if is_integer_type t then (if is_signed_type t then signed else unsigned) else float

-- The switch on a relational operator
unfoldable pub compare_instruction : BinaryOpType → ValueType → Result Error Instruction
compare_instruction large t = ok (by_kind t icmp_sgt icmp_ugt fcmp_ogt)
compare_instruction large_equal t = ok (by_kind t icmp_sge icmp_uge fcmp_oge)
compare_instruction equal t = ok (by_kind t icmp_eq icmp_eq fcmp_oeq)
compare_instruction less t = ok (by_kind t icmp_slt icmp_ult fcmp_olt)
compare_instruction less_equal t = ok (by_kind t icmp_sle icmp_ule fcmp_ole)
compare_instruction not_equal t = ok (by_kind t icmp_ne icmp_ne fcmp_une)
compare_instruction _ t = err unknown_operator

-- The switch on the other operators
unfoldable pub calculate_instruction : BinaryOpType → ValueType → Result Error Instruction
calculate_instruction add t = ok (by_kind t add_op add_op fadd)
calculate_instruction sub t = ok (by_kind t sub_op sub_op fsub)
calculate_instruction mul t = ok (by_kind t mul_op mul_op fmul)
calculate_instruction div t = ok (by_kind t sdiv udiv fdiv)
calculate_instruction mod_op t = ok (by_kind t srem urem frem)
calculate_instruction bitwise_and t = ok and_op
calculate_instruction bitwise_or t = ok or_op
calculate_instruction bitwise_xor t = ok xor_op
calculate_instruction bitwise_shift_left t = ok shl
calculate_instruction bitwise_shift_right t = ok (if is_signed_type t then ashr else lshr)
calculate_instruction _ t = err unknown_operator

-- What is emitted for a binary operator behind its operands
pub data BinaryCode : Type 0 where
  short_circuit : Bool → ToBool → ToBool → BinaryCode
  numeric : Cast → Cast → Instruction → BinaryCode
  concat : Registry.FunctionStructure → BinaryCode
  string_compare : Instruction → BinaryCode

-- `SolveBinaryOpNumericType`
unfoldable pub solve_numeric :
    BinaryOpType → ValueType → ValueType → ValueType → Result Error BinaryCode
solve_numeric op l r t =
    if is_relational op
    then (do
      a ← numeric_type_convert l (promoted_type l r)
      b ← numeric_type_convert r (promoted_type l r)
      i ← compare_instruction op (promoted_type l r)
      ok (numeric a b i))
    else (do
      a ← numeric_type_convert l t
      b ← numeric_type_convert r t
      i ← calculate_instruction op t
      ok (numeric a b i))

abbrev is_and : BinaryOpType → Bool
is_and and = true
is_and _ = false

-- `SolveShortCircuitLogicalOp`
unfoldable pub solve_logical : BinaryOpType → ValueType → ValueType → Result Error BinaryCode
solve_logical op l r = do a ← to_bool l; b ← to_bool r; ok (short_circuit (is_and op) a b)

-- `Visit(UnaryOPNode&)`, behind the child: the conversion, and whether the value is an integer
pub data UnaryCode : Type 0 where
  same not_code complement : UnaryCode
  negate : Cast → Bool → UnaryCode

unfoldable pub visit_unary : UnaryOpType → ValueType → ValueType → Result Error UnaryCode
visit_unary plus child t = ok same
visit_unary minus child t = do c ← numeric_type_convert child t; ok (negate c (is_integer_type t))
visit_unary not_op child t = ok not_code
visit_unary bitwise_not child t = ok complement

-- `Visit(IfNode&)`: the test of the condition, and the conversions of the branches
unfoldable pub visit_if :
    ValueType → ValueType → ValueType → ValueType → Result Error (ToBool × Cast × Cast)
visit_if c a b t = do
  l ← value_type_to_llvm_type t
  test ← to_bool c
  x ← numeric_type_convert a t
  y ← numeric_type_convert b t
  ok (test, x, y)

-- The signature that `ListOrStringConcat` looks up
abbrev pub concat_sign : ValueType → ValueType → ValueType → Registry.FunctionSignature
concat_sign l r t = record {
  func_name = if t =ᵗ string then "StringConcat" else "ListConcat";
  param_types = l ∷ r ∷ ValueType.ptr ∷ [];
  ret_type = unknown;
}

abbrev pub compare_sign : Registry.FunctionSignature
compare_sign = record {
  func_name = "StringCmp";
  param_types = string ∷ string ∷ [];
  ret_type = unknown;
}

abbrev pub find_function :
    Registry.FunctionSignature
    → Registry.Registry
    → Result Error (Registry.FunctionSignature × Registry.FunctionStructure)
find_function sign reg = elim (Registry.get_func_by_sign sign reg) [
  | ok found ↦ ok found
  | err e ↦ err (registry e)
]

abbrev pub is_concat : BinaryOpType → Bool
is_concat add = true
is_concat _ = false

-- The switch on the operator in `SolveBinaryOpComplexType`: the result of the comparison of the
-- strings is compared with zero, as a signed number.
unfoldable pub string_instruction : BinaryOpType → Result Error Instruction
string_instruction large = ok icmp_sgt
string_instruction large_equal = ok icmp_sge
string_instruction equal = ok icmp_eq
string_instruction less = ok icmp_slt
string_instruction less_equal = ok icmp_sle
string_instruction not_equal = ok icmp_ne
string_instruction _ = err unknown_operator

-- `SolveBinaryOpComplexType`
unfoldable pub solve_complex :
    Registry.Registry → BinaryOpType → ValueType → ValueType → ValueType → Result Error BinaryCode
solve_complex reg op l r t =
    if is_concat op
    then (do
      found ← find_function (concat_sign l r t) reg
      ret ← value_type_to_llvm_type ((found.0).ret_type)
      ok (concat found.1))
    else (do
      guard ((l =ᵗ string) && (r =ᵗ string)) unknown_operand
      found ← find_function compare_sign reg
      i ← string_instruction op
      ok (string_compare i))

-- `Visit(BinaryOPNode&)`, behind its operands
unfoldable pub visit_binary :
    Registry.Registry → BinaryOpType → ValueType → ValueType → ValueType → Result Error BinaryCode
visit_binary reg op l r t =
    if is_logical op
    then solve_logical op l r
    else if is_numeric_type l && is_numeric_type r
    then solve_numeric op l r t
    else solve_complex reg op l r t
