-- ===== src/Grouper.antt =====
-- athena/pipeline_grouper.cc: the heights, and the nodes whose text joins a pipeline to a group. A
-- height has 32 bits.
pub mod Depth
pub mod Refs
pub mod Group
pub mod Classes
mod Examples
use jitfusion.Common.{ℕ, ◌+◌, ◌%◌, ◌^◌, max, List, [], ◌∷◌, ◌++◌, ◌==◌, if◌then◌else◌}
use jitfusion.ExecNode.{
  ExecNode, ExecNodes, Statements, entry_argument, exec_context, output, const_value, const_list,
  unary_op, binary_op, function, no_op, if_node, switch_node, if_block, ref, nil, cons, end, stmt,
}

unfoldable mutual
  -- The height that a `Visit` leaves in `height_`
  pub height : ExecNode → ℕ
  height entry_argument = 0
  height exec_context = 0
  height output = 0
  height (const_value v) = 0
  height (const_list v) = 0
  height (unary_op op child) = (height child + 1) % 2 ^ 32
  height (binary_op op left right) = (max (height left) (height right) + 1) % 2 ^ 32
  height (function name args) = (max_height args + 1) % 2 ^ 32
  height (no_op isolated statements) = (statements_height statements + 1) % 2 ^ 32
  height (if_node args) = (max_height args + 1) % 2 ^ 32
  height (switch_node args) = (max_height args + 1) % 2 ^ 32
  height (if_block args) = (max_height args + 1) % 2 ^ 32
  height (ref name) = 2

  -- The loop over arguments
  pub max_height : ExecNodes → ℕ
  max_height nil = 0
  max_height (cons a rest) = max (height a) (max_height rest)

  pub statements_height : Statements → ℕ
  statements_height end = 0
  statements_height (stmt v a rest) = max (height a) (statements_height rest)

-- `GetHeight` behind the visit: the node is joined if its height is 1.
unfoldable pub joined : ExecNode → List ExecNode
joined n = if height n == 1 then n ∷ [] else []

unfoldable mutual
  -- The nodes that `GetHeight` joins with the pipeline, in the order of the calls of `Union`
  pub unions : ExecNode → List ExecNode
  unions entry_argument = joined entry_argument
  unions exec_context = joined exec_context
  unions output = joined output
  unions (const_value v) = joined (const_value v)
  unions (const_list v) = joined (const_list v)
  unions (unary_op op child) = unions child ++ joined (unary_op op child)
  unions (binary_op op left right) =
      unions left ++ (unions right ++ joined (binary_op op left right))
  unions (function name args) = arg_unions args ++ joined (function name args)
  unions (no_op isolated statements) =
      statement_unions statements ++ joined (no_op isolated statements)
  unions (if_node args) = arg_unions args ++ joined (if_node args)
  unions (switch_node args) = arg_unions args ++ joined (switch_node args)
  unions (if_block args) = arg_unions args ++ joined (if_block args)
  unions (ref name) = joined (ref name)

  pub arg_unions : ExecNodes → List ExecNode
  arg_unions nil = []
  arg_unions (cons a rest) = unions a ++ arg_unions rest

  pub statement_unions : Statements → List ExecNode
  statement_unions end = []
  statement_unions (stmt v a rest) = unions a ++ statement_unions rest
