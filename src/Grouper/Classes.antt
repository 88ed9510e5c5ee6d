-- ===== src/Grouper/Classes.antt =====
-- athena/pipeline_grouper.cc: `Group` puts every pipeline into the group of its set.
use jitfusion.Common.{
  ℕ, suc, ◌+◌, ◌^◌, ◌<◌, ◌≡◌, refl, sym, ap, ◌∙◌, inl, inr, true, false, some, List, [], ◌∷◌, ◌++◌,
  map, String, arith, ◌==◌, ==_iff, if◌then◌else◌, Bool-cases,
}
use mathlib.Core.List.{append-nil, append_assoc}
use jitfusion.Common.Lists.{length, length-append}
use jitfusion.ExecNode.{ExecNode}
use jitfusion.ExecNode.Text.{StdToString}
use jitfusion.Dsu.{Dsu, empty, find, union_all}
use jitfusion.Dsu.Labels.{Labels}
use jitfusion.Dsu.Find.{Finds, find-Finds}
use jitfusion.Dsu.Joined.{Ran, Tells, union_all-Ran}
use jitfusion.Grouper.Group.{root_id, all_unions, emplace_back, union_id_to_nodes, isolated, group}

-- The nodes under an identifier; nothing where there is none
unfoldable pub members : ℕ → List (ℕ × List ExecNode) → List ExecNode
members c [] = []
members c (entry ∷ rest) = if c == entry.0 then entry.1 else members c rest

-- How many nodes there are in all groups
unfoldable pub total : List (ℕ × List ExecNode) → ℕ
total [] = 0
total (entry ∷ rest) = length entry.1 + total rest

-- The nodes, counted from `i`, whose number a test holds of
unfoldable pub in_class : (ℕ → ℕ) → ℕ → ℕ → List ExecNode → List ExecNode
in_class class c i [] = []
in_class class c i (n ∷ nodes) =
    let rest = in_class class c (suc i) nodes in if c == class i then n ∷ rest else rest

total-emplace_back :
    (c : ℕ) (n : ExecNode) (groups : List (ℕ × List ExecNode))
    → total (emplace_back c n groups) ≡ suc (total groups)
unfolding total emplace_back
total-emplace_back c n [] = omega arith
total-emplace_back c n (entry ∷ rest) = elim (Bool-cases (c == entry.0)) [
  | inl p ↦ rw p (omega (arith, length-append entry.1 (n ∷ [])))
  | inr p ↦ rw p (omega (arith, total-emplace_back c n rest))
]

-- The node is put behind the members of its own group, and no other group changes.
members-emplace_back :
    (z c : ℕ) (n : ExecNode) (groups : List (ℕ × List ExecNode))
    → members z (emplace_back c n groups) ≡ members z groups ++ (if z == c then n ∷ [] else [])
unfolding members emplace_back
members-emplace_back z c n [] = refl
members-emplace_back z c n (entry ∷ rest) = elim (Bool-cases (c == entry.0)) [
  | inl p ↦
      let same : (z == c) ≡ (z == entry.0) = ap (λ x. z == x) ((==_iff c entry.0).0 p) in
      elim (Bool-cases (z == entry.0)) [
        | inl q ↦ rw (p, same, q) refl
        | inr q ↦ rw (p, same, q) (sym (append-nil (members z rest)))
      ]
  | inr p ↦ elim (Bool-cases (z == entry.0)) [
    | inl q ↦ rw (p, other entry.0 q p, members, q) (sym (append-nil entry.1))
    | inr q ↦ rw (p, members, q) (members-emplace_back z c n rest)
  ]
]
  where
    other : (e : ℕ) → (z == e) ≡ true → (c == e) ≡ false → (z == c) ≡ false
    other e q p = ground arith

module _ (bytes : String → List ℕ) (std : StdToString) (top fuel : ℕ) (label : ℕ → ℕ)
    (enough : top < fuel) where
  -- Behind the second loop, a group has the nodes that it had, and those of its class.
  union_id_to_nodes-members :
      (i : ℕ) (nodes : List ExecNode) (dsu : Dsu) (groups : List (ℕ × List ExecNode))
      → Labels top label dsu
      → (groups' : List (ℕ × List ExecNode)) × (union_id_to_nodes bytes std fuel i nodes dsu groups
          ≡ some groups')
        × ((z : ℕ)
            → members z groups'
              ≡ members z groups ++ in_class (λ j. label (root_id bytes std j)) z i nodes)
        × (total groups' ≡ total groups + length nodes)
  unfolding union_id_to_nodes in_class
  union_id_to_nodes-members i [] dsu groups labels =
      (groups, refl, λ z. sym (append-nil (members z groups)), omega arith)
  union_id_to_nodes-members i (n ∷ nodes) dsu groups labels =
      let c : ℕ = label (root_id bytes std i) in
      let found : Finds top label dsu (root_id bytes std i) (find fuel (root_id bytes std i) dsu) =
        find-Finds top label fuel (root_id bytes std i) dsu labels (omega (arith, enough))
          (omega (arith, enough)) in
      let (groups', e, m, t) =
        union_id_to_nodes-members (suc i) nodes found.after (emplace_back c n groups)
          found.labels in
      (
        groups',
        rw (found.gives, union_id_to_nodes) e,
        λ z.
            m z
            ∙ ap (λ ms. ms ++ in_class (λ j. label (root_id bytes std j)) z (suc i) nodes)
                (members-emplace_back z c n groups)
            ∙ append_assoc (members z groups) _ _
            ∙ ap (λ ms. members z groups ++ ms)
                (first z c (in_class (λ j. label (root_id bytes std j)) z (suc i) nodes)),
        omega (arith, t, total-emplace_back c n groups),
      )
    where
      first :
          (z c : ℕ) (rest : List ExecNode)
          → (if z == c then n ∷ [] else []) ++ rest ≡ (if z == c then n ∷ rest else rest)
      first z c rest = elim (Bool-cases (z == c)) [ inl p ↦ rw p refl | inr p ↦ rw p refl ]

-- Where there are fewer than 2^32 unions, every search of `Group` ends. The nodes that it gives are
-- those of groups with as many pipelines in all as there are; there are labels that two hashes share
-- exactly where the least equivalence that relates the pairs of the unions relates them, and the
-- group of a label has the pipelines whose number's hash has this label, in their order.
pub group-Joined :
    (bytes : String → List ℕ) (std : StdToString) (nodes : List ExecNode)
    → length (all_unions bytes std 0 nodes []) < 2 ^ 32
    → (groups : List (ℕ × List ExecNode)) × (group bytes std nodes ≡ some (map isolated groups))
      × (total groups ≡ length nodes)
      × (label : ℕ → ℕ) × Tells (all_unions bytes std 0 nodes []) label
      × ((z : ℕ) → members z groups ≡ in_class (λ j. label (root_id bytes std j)) z 0 nodes)
unfolding group total members
group-Joined bytes std nodes small =
    let joins : List (ℕ × ℕ) = all_unions bytes std 0 nodes [] in
    let ran : Ran joins (union_all (suc (length joins)) joins empty) =
      union_all-Ran joins (suc (length joins)) (omega arith) small in
    let (groups, e, m, t) =
      union_id_to_nodes-members bytes std (length joins) (suc (length joins)) ran.label
        (omega arith) 0 nodes ran.after [] ran.labels in
    (groups, rw (ran.gives, group, e) refl, omega (arith, t), ran.label, ran.tells, m)
