-- ===== src/Grouper/Depth.antt =====
-- athena/pipeline_grouper.cc: the heights, which have 32 bits, against the depth of a tree.
use jitfusion.Common.{ℕ, ◌+◌, ◌^◌, ◌≤◌, ◌<◌, max, arith}
use jitfusion.ExecNode.{
  ExecNode, ExecNodes, Statements, entry_argument, exec_context, output, const_value, const_list,
  unary_op, binary_op, function, no_op, if_node, switch_node, if_block, ref, nil, cons, end, stmt,
}
use jitfusion.Grouper.{height, max_height, statements_height}

-- How many nodes the longest path down a tree has
unfoldable mutual
  pub depth : ExecNode → ℕ
  depth (unary_op op child) = depth child + 1
  depth (binary_op op left right) = max (depth left) (depth right) + 1
  depth (function name args) = deepest args + 1
  depth (no_op isolated statements) = statements_depth statements + 1
  depth (if_node args) = deepest args + 1
  depth (switch_node args) = deepest args + 1
  depth (if_block args) = deepest args + 1
  depth _ = 1

  pub deepest : ExecNodes → ℕ
  deepest nil = 0
  deepest (cons a rest) = max (depth a) (deepest rest)

  pub statements_depth : Statements → ℕ
  statements_depth end = 0
  statements_depth (stmt v a rest) = max (depth a) (statements_depth rest)

-- The height of a tree is bounded by its depth, and does not wrap on a tree that is not too deep.
mutual
  unfolding height depth

  pub height-depth : (n : ExecNode) → depth n + 1 < 2 ^ 32 → height n ≤ depth n + 1
  height-depth entry_argument h = omega arith
  height-depth exec_context h = omega arith
  height-depth output h = omega arith
  height-depth (const_value v) h = omega arith
  height-depth (const_list v) h = omega arith
  height-depth (unary_op op c) h = omega (arith, h, height-depth c (omega (arith, h)))
  height-depth (binary_op op l r) h =
      omega (arith, h, height-depth l (omega (arith, h)), height-depth r (omega (arith, h)))
  height-depth (function name args) h = omega (arith, h, max_height-depth args (omega (arith, h)))
  height-depth (no_op i s) h = omega (arith, h, statements_height-depth s (omega (arith, h)))
  height-depth (if_node args) h = omega (arith, h, max_height-depth args (omega (arith, h)))
  height-depth (switch_node args) h = omega (arith, h, max_height-depth args (omega (arith, h)))
  height-depth (if_block args) h = omega (arith, h, max_height-depth args (omega (arith, h)))
  height-depth (ref name) h = omega arith

  pub max_height-depth :
      (args : ExecNodes) → deepest args + 1 < 2 ^ 32 → max_height args ≤ deepest args + 1
  max_height-depth nil h = omega arith
  max_height-depth (cons a rest) h =
      omega (arith, height-depth a (omega (arith, h)), max_height-depth rest (omega (arith, h)))

  pub statements_height-depth :
      (s : Statements)
      → statements_depth s + 1 < 2 ^ 32
      → statements_height s ≤ statements_depth s + 1
  statements_height-depth end h = omega arith
  statements_height-depth (stmt v a rest) h =
      omega
        (arith, height-depth a (omega (arith, h)), statements_height-depth rest (omega (arith, h)))
