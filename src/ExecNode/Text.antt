-- ===== src/ExecNode/Text.antt =====
-- src/exec_node.cc: `ToString` of the nodes, and the names of the operators in src/type.cc. The
-- overloads of `std::to_string` are parameters.
use Prim.Native.String.{◌++◌}
use jitfusion.Common.{ℕ, List, [], ◌∷◌, String, ◌=ˢ◌, if◌then◌else◌}
use jitfusion.Common.Int.{ℤ}
use jitfusion.Types.{
  UnaryOpType, BinaryOpType, plus, minus, not_op, bitwise_not, add, sub, mul, div, mod_op, large,
  large_equal, equal, less, less_equal, not_equal, and, or, bitwise_and, bitwise_or, bitwise_xor,
  bitwise_shift_left, bitwise_shift_right,
}
use jitfusion.ExecNode.{
  ConstantValue, ConstantList, VarInfo, ExecNode, ExecNodes, Statements, entry_argument,
  exec_context, output, const_value, const_list, unary_op, binary_op, function, no_op, if_node,
  switch_node, if_block, ref, nil, cons, end, stmt,
}

-- `UnaryOPTypeToString`
unfoldable pub unary_op_type_to_string : UnaryOpType → String
unary_op_type_to_string plus = "+"
unary_op_type_to_string minus = "-"
unary_op_type_to_string not_op = "!"
unary_op_type_to_string bitwise_not = "~"

-- `BinaryOPTypeToString`
unfoldable pub binary_op_type_to_string : BinaryOpType → String
binary_op_type_to_string add = "+"
binary_op_type_to_string sub = "-"
binary_op_type_to_string mul = "*"
binary_op_type_to_string div = "/"
binary_op_type_to_string mod_op = "%"
binary_op_type_to_string large = ">"
binary_op_type_to_string large_equal = ">="
binary_op_type_to_string equal = "=="
binary_op_type_to_string less = "<"
binary_op_type_to_string less_equal = "<="
binary_op_type_to_string not_equal = "!="
binary_op_type_to_string and = "&&"
binary_op_type_to_string or = "||"
binary_op_type_to_string bitwise_and = "&"
binary_op_type_to_string bitwise_or = "|"
binary_op_type_to_string bitwise_xor = "^"
binary_op_type_to_string bitwise_shift_left = "<<"
binary_op_type_to_string bitwise_shift_right = ">>"

-- `std::to_string` of the signed, the unsigned and the floating-point numbers; a float is its bit
-- pattern
pub record StdToString : Type 0 where
  pub of_signed : ℤ → String
  pub of_unsigned : ℕ → String
  pub of_f32 : ℕ → String
  pub of_f64 : ℕ → String

-- The loop of `VectorValueToString` behind its first turn, and the bracket
unfoldable pub more_values : {A : Type 0} → (A → String) → List A → String
more_values print [] = "]"
more_values print (v ∷ vs) = "," ++ (print v ++ more_values print vs)

-- `VectorValueToString`
unfoldable pub vector_value_to_string : {A : Type 0} → (A → String) → List A → String
unfolding more_values
vector_value_to_string print [] = "[]"
vector_value_to_string print (v ∷ vs) = "[" ++ (print v ++ more_values print vs)

module _ (std : StdToString) where
  -- `ValueToString`
  unfoldable pub value_to_string : ConstantValue → String
  value_to_string (ConstantValue.i8 v) = std.of_signed v
  value_to_string (ConstantValue.i16 v) = std.of_signed v
  value_to_string (ConstantValue.i32 v) = std.of_signed v
  value_to_string (ConstantValue.i64 v) = std.of_signed v
  value_to_string (ConstantValue.u8 v) = std.of_unsigned v
  value_to_string (ConstantValue.u16 v) = std.of_unsigned v
  value_to_string (ConstantValue.u32 v) = std.of_unsigned v
  value_to_string (ConstantValue.u64 v) = std.of_unsigned v
  value_to_string (ConstantValue.f32 v) = std.of_f32 v
  value_to_string (ConstantValue.f64 v) = std.of_f64 v
  value_to_string (ConstantValue.string v) = v

  unfoldable pub list_to_string : ConstantList → String
  unfolding vector_value_to_string
  list_to_string (ConstantList.i8_list vs) = vector_value_to_string std.of_signed vs
  list_to_string (ConstantList.i16_list vs) = vector_value_to_string std.of_signed vs
  list_to_string (ConstantList.i32_list vs) = vector_value_to_string std.of_signed vs
  list_to_string (ConstantList.i64_list vs) = vector_value_to_string std.of_signed vs
  list_to_string (ConstantList.u8_list vs) = vector_value_to_string std.of_unsigned vs
  list_to_string (ConstantList.u16_list vs) = vector_value_to_string std.of_unsigned vs
  list_to_string (ConstantList.u32_list vs) = vector_value_to_string std.of_unsigned vs
  list_to_string (ConstantList.u64_list vs) = vector_value_to_string std.of_unsigned vs
  list_to_string (ConstantList.f32_list vs) = vector_value_to_string std.of_f32 vs
  list_to_string (ConstantList.f64_list vs) = vector_value_to_string std.of_f64 vs
  list_to_string (ConstantList.string_list vs) = vector_value_to_string (λ v. v) vs

  -- The line that names a variable (`NoOPNode::ToStringImpl`)
  abbrev pub var_line : String → VarInfo → String
  var_line prefix var =
      if var.name =ˢ ""
      then ""
      else prefix ++ ("|   |--[" ++ ((if var.is_const then "let " else "") ++ (var.name ++ "]\n")))

  unfoldable mutual
    unfolding unary_op_type_to_string binary_op_type_to_string value_to_string list_to_string

    -- `ToString`, by the class of the node
    pub to_string : String → ExecNode → String
    to_string prefix entry_argument = prefix ++ "|--entry_argument\n"
    to_string prefix exec_context = prefix ++ "|--exec_context\n"
    to_string prefix output = prefix ++ "|--output\n"
    to_string prefix (const_value v) = prefix ++ ("|--" ++ (value_to_string v ++ "\n"))
    to_string prefix (const_list v) = prefix ++ ("|--" ++ (list_to_string v ++ "\n"))
    to_string prefix (unary_op op child) =
        prefix
        ++ ("|--" ++ (unary_op_type_to_string op ++ ("\n" ++ to_string (prefix ++ "|   ") child)))
    to_string prefix (binary_op op left right) =
        prefix
        ++ ("|--"
            ++ (binary_op_type_to_string op
                ++ ("\n"
                    ++ (to_string (prefix ++ "|   ") left ++ to_string (prefix ++ "|   ") right))))
    to_string prefix (function name args) =
        prefix ++ ("|--" ++ (name ++ ("\n" ++ args_to_string prefix args)))
    to_string prefix (no_op isolated statements) =
        prefix ++ ("|--no_op\n" ++ statements_to_string prefix statements)
    to_string prefix (if_node args) = prefix ++ ("|--if\n" ++ args_to_string prefix args)
    to_string prefix (switch_node args) = prefix ++ ("|--switch\n" ++ args_to_string prefix args)
    to_string prefix (if_block args) = prefix ++ ("|--if_block\n" ++ args_to_string prefix args)
    to_string prefix (ref name) = prefix ++ ("|--ref(" ++ (name ++ ")\n"))

    pub args_to_string : String → ExecNodes → String
    args_to_string prefix nil = ""
    args_to_string prefix (cons a rest) =
        to_string (prefix ++ "|   ") a ++ args_to_string prefix rest

    pub statements_to_string : String → Statements → String
    statements_to_string prefix end = ""
    statements_to_string prefix (stmt var a rest) =
        var_line prefix var ++ (to_string (prefix ++ "|   ") a ++ statements_to_string prefix rest)
