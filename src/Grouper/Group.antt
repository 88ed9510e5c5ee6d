-- ===== src/Grouper/Group.antt =====
-- athena/pipeline_grouper.cc: `StringHash` and `Group`. A `std::string` is a text whose bytes a
-- parameter gives. The order of an `std::unordered_map` is that in which its keys came.
use Prim.Native.String.{◌++◌ as ◌+++◌}
use jitfusion.Common.{
  ℕ, suc, ◌+◌, ◌-◌, ◌*◌, ◌%◌, ◌^◌, true, false, Option, none, some, List, [], ◌∷◌, ◌++◌, map,
  String, ◌==◌, ltb, if◌then◌else◌,
}
use jitfusion.Common.Lists.{length}
use jitfusion.ExecNode.{ExecNode, Statements, no_op, end, stmt}
use jitfusion.ExecNode.Text.{StdToString, to_string}
use jitfusion.Dsu.{Dsu, empty, find, union_all}
use jitfusion.Grouper.{unions}

-- A signed byte in 64 bits, as `hash * 131 + c` takes it
abbrev pub char_value : ℕ → ℕ
char_value c = if ltb c 128 then c else 2 ^ 64 - 256 + c

-- The loop of `StringHash`
unfoldable pub hash_from : ℕ → List ℕ → ℕ
hash_from hash [] = hash
hash_from hash (c ∷ str) = hash_from ((hash * 131 + char_value c) % 2 ^ 64) str

-- `union_id_to_nodes[union_id].emplace_back`
unfoldable pub emplace_back : ℕ → ExecNode → List (ℕ × List ExecNode) → List (ℕ × List ExecNode)
emplace_back union_id n [] = (union_id, n ∷ []) ∷ []
emplace_back union_id n (entry ∷ rest) =
    if union_id == entry.0
    then (entry.0, entry.1 ++ (n ∷ [])) ∷ rest
    else entry ∷ emplace_back union_id n rest

-- The arguments of a `NoOPNode` that is made without names
unfoldable pub unnamed : List ExecNode → Statements
unnamed [] = end
unnamed (n ∷ ns) = stmt (record { name = ""; is_const = false }) n (unnamed ns)

-- The last loop of `Group`
unfoldable pub isolated : ℕ × List ExecNode → ExecNode
unfolding unnamed
isolated entry = no_op true (unnamed entry.1)

module _ (bytes : String → List ℕ) (std : StdToString) where
  -- `StringHash`
  unfoldable pub string_hash : String → ℕ
  unfolding hash_from
  string_hash str = hash_from 0 (bytes str)

  -- The hash of a pipeline's number
  unfoldable pub root_id : ℕ → ℕ
  unfolding string_hash
  root_id i = string_hash ("root_" +++ std.of_unsigned i)

  -- The calls of `Union` for one pipeline, the latest at the front
  unfoldable pub node_unions : ℕ → List ExecNode → List (ℕ × ℕ) → List (ℕ × ℕ)
  unfolding string_hash to_string
  node_unions root [] done = done
  node_unions root (u ∷ us) done =
      node_unions root us ((root, string_hash (to_string std "" u)) ∷ done)

  -- The first loop of `Group`: its calls of `Union`, the latest at the front
  unfoldable pub all_unions : ℕ → List ExecNode → List (ℕ × ℕ) → List (ℕ × ℕ)
  unfolding root_id node_unions unions
  all_unions i [] done = done
  all_unions i (n ∷ nodes) done = all_unions (suc i) nodes (node_unions (root_id i) (unions n) done)

  -- The second loop of `Group`
  unfoldable pub union_id_to_nodes :
      ℕ → ℕ → List ExecNode → Dsu → List (ℕ × List ExecNode) → Option (List (ℕ × List ExecNode))
  unfolding root_id find emplace_back
  union_id_to_nodes fuel i [] dsu groups = some groups
  union_id_to_nodes fuel i (n ∷ nodes) dsu groups = elim (find fuel (root_id i) dsu) [
    | none ↦ none
    | some found ↦ union_id_to_nodes fuel (suc i) nodes found.1 (emplace_back found.0 n groups)
  ]

  -- `Group`; the searches have one turn more than there are unions. None where that is not enough
  unfoldable pub group : List ExecNode → Option (List ExecNode)
  unfolding all_unions union_all union_id_to_nodes isolated
  group nodes =
      let joins = all_unions 0 nodes [] in
      let fuel = suc (length joins) in
      elim (union_all fuel joins empty) [
        | none ↦ none
        | some dsu ↦ elim (union_id_to_nodes fuel 0 nodes dsu []) [
          | none ↦ none
          | some groups ↦ some (map isolated groups)
        ]
      ]
