-- ===== src/Grouper/Refs.antt =====
-- References keep a node from being joined (athena/pipeline_grouper.cc).
use jitfusion.Common.{
  ◌+◌, ◌%◌, ◌^◌, ◌<◌, ◌≡◌, refl, inl, inr, Bool, true, false, ◌||◌, List, [], ◌∷◌, ◌++◌, ◌==◌,
  ==_iff, arith, Bool-cases,
}
use jitfusion.ExecNode.{
  ExecNode, ExecNodes, Statements, entry_argument, exec_context, output, const_value, const_list,
  unary_op, binary_op, function, no_op, if_node, switch_node, if_block, ref, nil, cons, end, stmt,
}
use jitfusion.Grouper.{
  height, max_height, statements_height, joined, unions, arg_unions, statement_unions,
}
use jitfusion.Grouper.Depth.{
  depth, deepest, statements_depth, height-depth, max_height-depth, statements_height-depth,
}

-- Does the tree hold a reference to a variable?
unfoldable mutual
  pub has_ref : ExecNode → Bool
  has_ref (unary_op op child) = has_ref child
  has_ref (binary_op op left right) = has_ref left || has_ref right
  has_ref (function name args) = any_ref args
  has_ref (no_op isolated statements) = statements_ref statements
  has_ref (if_node args) = any_ref args
  has_ref (switch_node args) = any_ref args
  has_ref (if_block args) = any_ref args
  has_ref (ref name) = true
  has_ref _ = false

  pub any_ref : ExecNodes → Bool
  any_ref nil = false
  any_ref (cons a rest) = has_ref a || any_ref rest

  pub statements_ref : Statements → Bool
  statements_ref end = false
  statements_ref (stmt v a rest) = has_ref a || statements_ref rest

leaf_ref : (n : ExecNode) → depth n + 1 < 2 ^ 32 → height n ≡ 0 → has_ref n ≡ false
unfolding height has_ref depth
leaf_ref entry_argument s h = refl
leaf_ref exec_context s h = refl
leaf_ref output s h = refl
leaf_ref (const_value v) s h = refl
leaf_ref (const_list v) s h = refl
leaf_ref (unary_op op c) s h = absurd (omega (arith, s, h, height-depth c (omega (arith, s))))
leaf_ref (binary_op op l r) s h =
    absurd
      (omega (arith, s, h, height-depth l (omega (arith, s)), height-depth r (omega (arith, s))))
leaf_ref (function name args) s h =
    absurd (omega (arith, s, h, max_height-depth args (omega (arith, s))))
leaf_ref (no_op i b) s h =
    absurd (omega (arith, s, h, statements_height-depth b (omega (arith, s))))
leaf_ref (if_node args) s h = absurd (omega (arith, s, h, max_height-depth args (omega (arith, s))))
leaf_ref (switch_node args) s h =
    absurd (omega (arith, s, h, max_height-depth args (omega (arith, s))))
leaf_ref (if_block args) s h =
    absurd (omega (arith, s, h, max_height-depth args (omega (arith, s))))
leaf_ref (ref name) s h = absurd (omega (arith, h))

leaves_ref :
    (args : ExecNodes) → deepest args + 1 < 2 ^ 32 → max_height args ≡ 0 → any_ref args ≡ false
unfolding height has_ref depth
leaves_ref nil s h = refl
leaves_ref (cons a rest) s h =
    rw
      (
        leaf_ref a (omega (arith, s)) (omega (arith, h)),
        leaves_ref rest (omega (arith, s)) (omega (arith, h)),
      )
      refl

statements_leaves_ref :
    (b : Statements)
    → statements_depth b + 1 < 2 ^ 32
    → statements_height b ≡ 0
    → statements_ref b ≡ false
unfolding height has_ref depth
statements_leaves_ref end s h = refl
statements_leaves_ref (stmt v a rest) s h =
    rw
      (
        leaf_ref a (omega (arith, s)) (omega (arith, h)),
        statements_leaves_ref rest (omega (arith, s)) (omega (arith, h)),
      )
      refl

-- A node whose arguments have the height 1 above them has leaves as arguments.
args_ref :
    (args : ExecNodes)
    → deepest args + 2 < 2 ^ 32
    → (max_height args + 1) % 2 ^ 32 ≡ 1
    → any_ref args ≡ false
args_ref args s h =
    leaves_ref args (omega (arith, s))
      (omega (arith, s, h, max_height-depth args (omega (arith, s))))

height_one_ref : (n : ExecNode) → depth n + 1 < 2 ^ 32 → height n ≡ 1 → has_ref n ≡ false
unfolding height has_ref depth
height_one_ref (unary_op op c) s h =
    leaf_ref c (omega (arith, s)) (omega (arith, s, h, height-depth c (omega (arith, s))))
height_one_ref (binary_op op l r) s h =
    let bl = height-depth l (omega (arith, s)) in
    let br = height-depth r (omega (arith, s)) in
    rw
      (
        leaf_ref l (omega (arith, s)) (omega (arith, s, h, bl, br)),
        leaf_ref r (omega (arith, s)) (omega (arith, s, h, bl, br)),
      )
      refl
height_one_ref (function name args) s h = args_ref args (omega (arith, s)) h
height_one_ref (no_op i b) s h =
    statements_leaves_ref b (omega (arith, s))
      (omega (arith, s, h, statements_height-depth b (omega (arith, s))))
height_one_ref (if_node args) s h = args_ref args (omega (arith, s)) h
height_one_ref (switch_node args) s h = args_ref args (omega (arith, s)) h
height_one_ref (if_block args) s h = args_ref args (omega (arith, s)) h
height_one_ref (ref name) s h = absurd (omega (arith, h))
height_one_ref n s h = absurd (omega (arith, h))

abbrev pub NoRefs : List ExecNode → Type 0
NoRefs [] = Unit
NoRefs (n ∷ ns) = (has_ref n ≡ false) × NoRefs ns

NoRefs-append : (xs ys : List ExecNode) → NoRefs xs → NoRefs ys → NoRefs (xs ++ ys)
NoRefs-append [] ys h k = k
NoRefs-append (x ∷ xs) ys h k = (h.0, NoRefs-append xs ys h.1 k)

joined-NoRefs : (n : ExecNode) → depth n + 1 < 2 ^ 32 → NoRefs (joined n)
unfolding joined
joined-NoRefs n s = elim (Bool-cases (height n == 1)) [
  | inl p ↦ rw p (height_one_ref n s ((==_iff (height n) 1).0 p), tt)
  | inr p ↦ rw p tt
]

mutual
  unfolding unions depth

  unions_lem : (n : ExecNode) → depth n + 1 < 2 ^ 32 → NoRefs (unions n)
  unions_lem entry_argument s = joined-NoRefs entry_argument s
  unions_lem exec_context s = joined-NoRefs exec_context s
  unions_lem output s = joined-NoRefs output s
  unions_lem (const_value v) s = joined-NoRefs (const_value v) s
  unions_lem (const_list v) s = joined-NoRefs (const_list v) s
  unions_lem (unary_op op c) s =
      NoRefs-append (unions c) _ (unions_lem c (omega (arith, s))) (joined-NoRefs (unary_op op c) s)
  unions_lem (binary_op op l r) s = NoRefs-append (unions l) _ (unions_lem l (omega (arith, s))) (
      NoRefs-append (unions r) _ (unions_lem r (omega (arith, s)))
        (joined-NoRefs (binary_op op l r) s))
  unions_lem (function name args) s =
      NoRefs-append (arg_unions args) _ (arg_unions_lem args (omega (arith, s)))
        (joined-NoRefs (function name args) s)
  unions_lem (no_op i b) s =
      NoRefs-append (statement_unions b) _ (statement_unions_lem b (omega (arith, s)))
        (joined-NoRefs (no_op i b) s)
  unions_lem (if_node args) s =
      NoRefs-append (arg_unions args) _ (arg_unions_lem args (omega (arith, s)))
        (joined-NoRefs (if_node args) s)
  unions_lem (switch_node args) s =
      NoRefs-append (arg_unions args) _ (arg_unions_lem args (omega (arith, s)))
        (joined-NoRefs (switch_node args) s)
  unions_lem (if_block args) s =
      NoRefs-append (arg_unions args) _ (arg_unions_lem args (omega (arith, s)))
        (joined-NoRefs (if_block args) s)
  unions_lem (ref name) s = joined-NoRefs (ref name) s

  arg_unions_lem : (args : ExecNodes) → deepest args + 1 < 2 ^ 32 → NoRefs (arg_unions args)
  arg_unions_lem nil s = tt
  arg_unions_lem (cons a rest) s =
      NoRefs-append (unions a) _ (unions_lem a (omega (arith, s)))
        (arg_unions_lem rest (omega (arith, s)))

  statement_unions_lem :
      (b : Statements) → statements_depth b + 1 < 2 ^ 32 → NoRefs (statement_unions b)
  statement_unions_lem end s = tt
  statement_unions_lem (stmt v a rest) s =
      NoRefs-append (unions a) _ (unions_lem a (omega (arith, s)))
        (statement_unions_lem rest (omega (arith, s)))

-- In a tree whose longest path has fewer than 2^32 - 1 nodes, so that no height wraps, no node that
-- joins a pipeline to a group holds a reference to a variable, however deep inside it.
pub unions-NoRefs : (n : ExecNode) → depth n + 1 < 2 ^ 32 → NoRefs (unions n)
unions-NoRefs n s = unions_lem n s
