-- ===== src/Dsu.antt =====
-- athena/dsu.h and athena/dsu.cc: the disjoint sets. A hash map is a function; the recursion of
-- `Find` runs on fuel.
pub mod Labels
pub mod Find
pub mod Union
pub mod Link
pub mod Joined
mod Examples
use jitfusion.Common.{
  ℕ, zero, suc, ◌+◌, ◌%◌, ◌^◌, Bool, true, false, Option, none, some, List, [], ◌∷◌, ◌==◌, ltb,
  if◌then◌else◌,
}

pub record Dsu : Type 0 where
  pub parent : ℕ → Option ℕ
  pub rank : ℕ → ℕ

abbrev pub empty : Dsu
empty = record { parent = λ x. none; rank = λ x. 0 }

-- An assignment to an entry of a map
abbrev pub write : {A : Type 0} → (ℕ → A) → ℕ → A → ℕ → A
write f x v z = if z == x then v else f z

-- `DSU::Find`: the root, and the sets with the shorter paths; none where the fuel runs out
unfoldable pub find : ℕ → ℕ → Dsu → Option (ℕ × Dsu)
find zero x d = none
find (suc fuel) x d = elim (d.parent x) [
  | none ↦ some (x, record { parent = write d.parent x (some x); rank = write d.rank x 0 })
  | some y ↦ elim (y == x) [
    | true ↦ some (y, d)
    | false ↦ elim (find fuel y d) [
      | none ↦ none
      | some found ↦
          some (found.0, record found.1 { parent = write ((found.1).parent) x (some found.0) })
    ]
  ]
]

-- `DSU::Union` behind its two searches
unfoldable pub link : ℕ → ℕ → Dsu → Dsu
link rx ry d =
    if rx == ry
    then d
    else if ltb (d.rank rx) (d.rank ry)
    then record d { parent = write d.parent rx (some ry) }
    else if ltb (d.rank ry) (d.rank rx)
    then record d { parent = write d.parent ry (some rx) }
    else record {
      parent = write d.parent ry (some rx);
      rank = write d.rank rx ((d.rank rx + 1) % 2 ^ 32);
    }

-- `DSU::Union`
unfoldable pub union : ℕ → ℕ → ℕ → Dsu → Option Dsu
unfolding find link
union fuel x y d = elim (find fuel x d) [
  | none ↦ none
  | some rx ↦ elim (find fuel y rx.1) [ none ↦ none | some ry ↦ some (link rx.0 ry.0 ry.1) ]
]

-- `DSU::Connected`
unfoldable pub connected : ℕ → ℕ → ℕ → Dsu → Option (Bool × Dsu)
unfolding find
connected fuel x y d = elim (find fuel x d) [
  | none ↦ none
  | some rx ↦ elim (find fuel y rx.1) [ none ↦ none | some ry ↦ some (rx.0 == ry.0, ry.1) ]
]

-- A run of unions, the latest at the front
unfoldable pub union_all : ℕ → List (ℕ × ℕ) → Dsu → Option Dsu
unfolding union
union_all fuel [] d = some d
union_all fuel (p ∷ ps) d = elim (union_all fuel ps d) [
  | none ↦ none
  | some d' ↦ union fuel p.0 p.1 d'
]
