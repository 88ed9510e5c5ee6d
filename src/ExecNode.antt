-- ===== src/ExecNode.antt =====
-- include/exec_node.h and src/exec_node.cc: the tree of execution nodes. The source location of a
-- node, which only messages show, is left out; its return type is the result of the validator.
pub mod Text
use jitfusion.Common.{ℕ, Bool, suc, List, String}
use jitfusion.Common.Int.{ℤ}
use jitfusion.Types.{UnaryOpType, BinaryOpType}

-- `ConstantValueType`; a float is its bit pattern
pub data ConstantValue : Type 0 where
  i8 i16 i32 i64 : ℤ → ConstantValue
  u8 u16 u32 u64 : ℕ → ConstantValue
  f32 f64 : ℕ → ConstantValue
  string : String → ConstantValue

-- `ConstantListValueType`
pub data ConstantList : Type 0 where
  i8_list i16_list i32_list i64_list : List ℤ → ConstantList
  u8_list u16_list u32_list u64_list : List ℕ → ConstantList
  f32_list f64_list : List ℕ → ConstantList
  string_list : List String → ConstantList

-- `VarInfo`
pub record VarInfo : Type 0 where
  pub name : String
  pub is_const : Bool

-- The node classes. `NoOPNode` holds its `var_infos_` beside its `args_`, one for each.
mutual
  pub data ExecNode : Type 0 where
    entry_argument exec_context output : ExecNode
    const_value : ConstantValue → ExecNode
    const_list : ConstantList → ExecNode
    unary_op : UnaryOpType → ExecNode → ExecNode
    binary_op : BinaryOpType → ExecNode → ExecNode → ExecNode
    function : String → ExecNodes → ExecNode
    no_op : Bool → Statements → ExecNode
    if_node switch_node if_block : ExecNodes → ExecNode
    ref : String → ExecNode

  pub data ExecNodes : Type 0 where
    nil : ExecNodes
    cons : ExecNode → ExecNodes → ExecNodes

  pub data Statements : Type 0 where
    end : Statements
    stmt : VarInfo → ExecNode → Statements → Statements

-- `args_.size()`
unfoldable pub size : ExecNodes → ℕ
size nil = 0
size (cons a rest) = suc (size rest)
