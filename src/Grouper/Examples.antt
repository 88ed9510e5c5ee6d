-- ===== src/Grouper/Examples.antt =====
-- Trees on which the theorems about athena/pipeline_grouper.cc are applied: `-1 + x`, `-1` and `x`.
use Prim.Native.Char.{code}
use Prim.Native.String.{[] as empty_text, ◌∷◌ as ◌::◌, ◌++◌ as ◌+++◌}
use jitfusion.Common.{
  ℕ, zero, suc, ◌+◌, ◌/◌, ◌%◌, ◌^◌, ◌<◌, ◌≡◌, refl, true, false, some, List, [], ◌∷◌, map, String,
  arith, ltb, if◌then◌else◌,
}
use jitfusion.Common.Int.{ℤ, pos, negsuc}
use jitfusion.Common.Lists.{length, get_or}
use jitfusion.Types.{minus, add}
use jitfusion.ExecNode.{
  ExecNode, ConstantValue, VarInfo, no_op, end, stmt, const_value, unary_op, binary_op, ref,
}
use jitfusion.ExecNode.Text.{StdToString, to_string}
use jitfusion.Grouper.{height, joined, unions}
use jitfusion.Grouper.Depth.{depth}
use jitfusion.Grouper.Refs.{NoRefs, unions-NoRefs}
use jitfusion.Grouper.Group.{all_unions, node_unions, root_id, isolated, group}
use jitfusion.Grouper.Classes.{members, total, in_class, group-Joined}
use jitfusion.Dsu.Joined.{Tells}

abbrev tree : ExecNode
tree = binary_op add (unary_op minus (const_value (ConstantValue.i32 (pos 1)))) (ref "x")

shallow : depth tree + 1 < 2 ^ 32
unfolding depth
shallow = omega arith

unions-NoRefs_example : NoRefs (unions tree)
unions-NoRefs_example = unions-NoRefs tree shallow

-- The bytes of a text of ASCII characters
abbrev ascii : String → List ℕ
ascii empty_text = []
ascii (c :: s) = code c ∷ ascii s

abbrev digit : ℕ → String
digit n = get_or ("0" ∷ "1" ∷ "2" ∷ "3" ∷ "4" ∷ "5" ∷ "6" ∷ "7" ∷ "8" ∷ []) n "9"

-- As many as `suc more` decimal digits
abbrev decimal : ℕ → ℕ → String
decimal zero n = digit n
decimal (suc more) n = if ltb n 10 then digit n else decimal more (n / 10) +++ digit (n % 10)

abbrev signed : ℤ → String
signed (pos n) = decimal 20 n
signed (negsuc n) = "-" +++ decimal 20 (suc n)

abbrev printed : StdToString
printed = record {
  of_signed = signed;
  of_unsigned = decimal 20;
  of_f32 = decimal 20;
  of_f64 = decimal 20;
}

abbrev pipelines : List ExecNode
pipelines = tree ∷ ref "x" ∷ unary_op minus (const_value (ConstantValue.i32 (pos 1))) ∷ []

tree_text : to_string printed "" tree ≡ "|--+\n|   |---\n|   |   |--1\n|   |--ref(x)\n"
unfolding to_string
tree_text = refl

few : length (all_unions ascii printed 0 pipelines []) < 2 ^ 32
unfolding all_unions node_unions unions joined height
few = omega arith

abbrev unnamed_var : VarInfo
unnamed_var = record { name = ""; is_const = false }

group-Joined_example :
    (groups : List (ℕ × List ExecNode)) × (group ascii printed pipelines
      ≡ some (map isolated groups))
    × (total groups ≡ length pipelines)
    × (label : ℕ → ℕ) × Tells (all_unions ascii printed 0 pipelines []) label
    × ((z : ℕ) → members z groups ≡ in_class (λ j. label (root_id ascii printed j)) z 0 pipelines)
group-Joined_example = group-Joined ascii printed pipelines few

-- The two pipelines that hold `-1` are one group, and `x` is another.
two_groups :
    group ascii printed pipelines
    ≡ some (
        no_op true (
          stmt unnamed_var tree
            (stmt unnamed_var (unary_op minus (const_value (ConstantValue.i32 (pos 1)))) end))
        ∷ no_op true (stmt unnamed_var (ref "x") end)
        ∷ [])
unfolding group joined height
two_groups = refl
