-- ===== src/Dsu/Examples.antt =====
-- Unions on which the theorems about athena/dsu.cc are applied.
use jitfusion.Common.{ℕ, ◌≡◌, ◌↔◌, Bool, true, some, List, [], ◌∷◌, arith}
use jitfusion.Dsu.{Dsu, empty, union_all, connected, find}
use jitfusion.Dsu.Find.{Finds, find-Finds}
use jitfusion.Dsu.Joined.{Joined, Ran, union_all-Ran, connected-Joined}

abbrev pairs : List (ℕ × ℕ)
pairs = (1, 2) ∷ (3, 4) ∷ (2, 3) ∷ []

connected-Joined_example :
    (d : Dsu) × (union_all 4 pairs empty ≡ some d)
    × (b : Bool) × (d' : Dsu) × (connected 4 1 4 d ≡ some (b, d'))
    × ((b ≡ true) ↔ Joined pairs 1 4)
connected-Joined_example = connected-Joined pairs 4 1 4 (omega arith) (omega arith)

behind : Ran pairs (union_all 4 pairs empty)
behind = union_all-Ran pairs 4 (omega arith) (omega arith)

find-Finds_example : Finds 3 behind.label behind.after 1 (find 4 1 behind.after)
find-Finds_example =
    find-Finds 3 behind.label 4 1 behind.after behind.labels (omega arith) (omega arith)
