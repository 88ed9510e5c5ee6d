-- ===== src/Lists/Examples.antt =====
-- Lists on which the theorems about src/function/list_indexing.cc, list_group.cc and
-- list_comparison.cc are applied.
use jitfusion.Common.{
  ℕ, zero, suc, ◌+◌, ◌≡◌, refl, sym, ◌∙◌, Bool, true, false, not, Option, none, some, List, [], ◌∷◌,
  map, arith, ◌==◌, ==_iff, ltb, le→ltb, if◌then◌else◌,
}
use mathlib.Core.Option.{some-injective}
use jitfusion.Lists.Table.{
  lookup_miss, find, lookup_table, build_lookup_table, IsPartialEquality,
  lookup_table-build_lookup_table,
}
use jitfusion.Lists.Search.{leading}
use jitfusion.Lists.Sorted.{
  bucketize, find_sorted, IsSorted, IsCotransitive, IsTrichotomous, bucketize-leading,
}
use jitfusion.Lists.SortedFind.{find_sorted-find}
use jitfusion.Lists.Compact.{
  list_gather, list_compact_positions, list_compact_index, contains, list_compact_index-list_gather,
  list_gather-lookup_table,
}
use jitfusion.Lists.Bitmap.{gen_bitmap, bitmap_len, pack_bits, kept, filter_by_bitmap_sugar}
use jitfusion.Lists.Choose.{chosen, if_compare, if_by_bitmap_lbrl}
use jitfusion.Lists.Choices.{if_by_bitmap_lbrl-gen_bitmap}
use jitfusion.Lists.Filter.{where_true, filter_by_bitmap_sugar-gen_bitmap}
use jitfusion.Lists.Group.{
  values, overrun, filled, group_count, group_index, group_keys_sugar, group_sum_sugar,
}
use jitfusion.Lists.Cells.{InRange, nothing, next, fold_groups}
use jitfusion.Lists.Sums.{here, later, group_sum_sugar-fold_groups, group_sum_sugar-overrun}
use jitfusion.Lists.Dictionary.{group_keys_sugar-group_index}

abbrev equal : ℕ → ℕ → Bool
equal a b = a == b

-- Numbers with a NaN, which is not equal to itself
abbrev float_equal : Option ℕ → Option ℕ → Bool
float_equal (some a) (some b) = a == b
float_equal _ _ = false

float_symmetric : (a b : Option ℕ) → float_equal a b ≡ true → float_equal b a ≡ true
float_symmetric none b h = absurd (cc)
float_symmetric (some a) none h = absurd (cc)
float_symmetric (some a) (some b) h = (==_iff b a).1 (sym ((==_iff a b).0 h))

float_transitive :
    (a b c : Option ℕ) → float_equal a b ≡ true → float_equal b c ≡ true → float_equal a c ≡ true
float_transitive none b c h k = absurd (cc)
float_transitive (some a) none c h k = absurd (cc)
float_transitive (some a) (some b) none h k = absurd (cc)
float_transitive (some a) (some b) (some c) h k =
    (==_iff a c).1 ((==_iff a b).0 h ∙ (==_iff b c).0 k)

float_equality : IsPartialEquality float_equal
float_equality = record { symmetric = float_symmetric; transitive = float_transitive }

abbrev floats : List (Option ℕ)
floats = some 4 ∷ none ∷ some 7 ∷ some 4 ∷ []

lookup_table-build_lookup_table_example :
    lookup_table float_equal (some 7 ∷ none ∷ some 4 ∷ []) (build_lookup_table float_equal floats)
    ≡ map (λ x. find float_equal floats x) (some 7 ∷ none ∷ some 4 ∷ [])
lookup_table-build_lookup_table_example =
    lookup_table-build_lookup_table float_equal float_equality (some 7 ∷ none ∷ some 4 ∷ []) floats

abbrev raw : List ℕ
raw = 5 ∷ lookup_miss ∷ 2 ∷ []

list_compact_index-list_gather_example :
    list_gather raw (list_compact_positions raw) 0 ≡ list_compact_index raw
list_compact_index-list_gather_example = list_compact_index-list_gather raw 0

abbrev cities : List ℕ
cities = 30 ∷ 10 ∷ 20 ∷ 10 ∷ []

list_gather-lookup_table_example :
    list_gather cities (lookup_table equal (10 ∷ 99 ∷ []) (build_lookup_table equal cities)) 0
    ≡ map (λ x. if contains equal cities x then x else 0) (10 ∷ 99 ∷ [])
list_gather-lookup_table_example =
    list_gather-lookup_table equal ==_iff (10 ∷ 99 ∷ []) cities 0 (omega arith)

ltb-IsCotransitive : IsCotransitive ltb
ltb-IsCotransitive a b c h = ground arith

ltb-IsTrichotomous : IsTrichotomous ltb equal
ltb-IsTrichotomous a b = ground arith

abbrev bounds : List ℕ
bounds = 10 ∷ 20 ∷ []

bounds-IsSorted : IsSorted ltb bounds
bounds-IsSorted zero zero x y h p q =
    le→ltb y x (omega (arith, some-injective 10 x p, some-injective 10 y q))
bounds-IsSorted zero (suc zero) x y h p q =
    le→ltb y x (omega (arith, some-injective 10 x p, some-injective 20 y q))
bounds-IsSorted (suc zero) (suc zero) x y h p q =
    le→ltb y x (omega (arith, some-injective 20 x p, some-injective 20 y q))
bounds-IsSorted (suc zero) zero x y h p q = absurd (omega (arith, h))
bounds-IsSorted (suc (suc i)) j x y h p q = absurd (cc)
bounds-IsSorted zero (suc (suc j)) x y h p q = absurd (cc)
bounds-IsSorted (suc zero) (suc (suc j)) x y h p q = absurd (cc)

bucketize-leading_example :
    bucketize ltb (5 ∷ 20 ∷ []) bounds
    ≡ map (λ v. leading (λ b. not (ltb v b)) bounds) (5 ∷ 20 ∷ [])
bucketize-leading_example =
    bucketize-leading ltb ltb-IsCotransitive (5 ∷ 20 ∷ []) bounds bounds-IsSorted

find_sorted-find_example : find_sorted ltb equal bounds 20 ≡ find equal bounds 20
find_sorted-find_example =
    find_sorted-find ltb ltb-IsCotransitive equal ltb-IsTrichotomous bounds 20 bounds-IsSorted

-- A sum that wraps at 64 bits is one addition.
abbrev add : ℕ → ℕ → ℕ
add a v = a + v

numbers-InRange : InRange lookup_miss (1 ∷ 0 ∷ 1 ∷ [])
numbers-InRange = next (omega arith) (next (omega arith) (next (omega arith) nothing))

group_sum_sugar-fold_groups_example :
    group_sum_sugar add 0 (5 ∷ 6 ∷ 7 ∷ []) (1 ∷ 0 ∷ 1 ∷ [])
    ≡ values (
        fold_groups add 0
          (filled (group_count (1 ∷ 0 ∷ 1 ∷ [])) 0)
          (1 ∷ 0 ∷ 1 ∷ [])
          (5 ∷ 6 ∷ 7 ∷ []))
group_sum_sugar-fold_groups_example =
    group_sum_sugar-fold_groups add 0 (5 ∷ 6 ∷ 7 ∷ []) (1 ∷ 0 ∷ 1 ∷ []) refl numbers-InRange

group_sum_sugar-overrun_example :
    group_sum_sugar add 0 (5 ∷ 6 ∷ []) (0 ∷ lookup_miss ∷ []) ≡ overrun
group_sum_sugar-overrun_example =
    group_sum_sugar-overrun add 0 (5 ∷ 6 ∷ []) (0 ∷ lookup_miss ∷ []) refl
      (next (omega arith) (next (omega arith) nothing)) (later (here (omega arith)))

group_keys_sugar-group_index_example :
    (ks : List ℕ) × (group_keys_sugar cities (group_index equal cities) ≡ values ks)
    × (list_gather ks (group_index equal cities) 0 ≡ cities)
group_keys_sugar-group_index_example =
    group_keys_sugar-group_index equal ==_iff cities 0 (omega arith)

abbrev numbers : List ℕ
numbers = 5 ∷ 1 ∷ 9 ∷ 2 ∷ 8 ∷ 3 ∷ 7 ∷ 4 ∷ 6 ∷ 0 ∷ []

filter_by_bitmap_sugar-gen_bitmap_example :
    filter_by_bitmap_sugar numbers ((gen_bitmap ltb numbers 5).bytes)
    ≡ kept (where_true (λ x. ltb x 5) numbers)
filter_by_bitmap_sugar-gen_bitmap_example =
    filter_by_bitmap_sugar-gen_bitmap ltb numbers 5 (omega arith)

-- The five numbers below 5, and the byte behind the bitmap of a list of eight
five_below : where_true (λ x. ltb x 5) numbers ≡ 1 ∷ 2 ∷ 3 ∷ 4 ∷ 0 ∷ []
unfolding where_true
five_below = refl

full_byte : (gen_bitmap ltb (1 ∷ 9 ∷ 2 ∷ 8 ∷ 3 ∷ 7 ∷ 4 ∷ 6 ∷ []) 5).writes_behind ≡ true
unfolding gen_bitmap pack_bits bitmap_len
full_byte = refl

if_by_bitmap_lbrl-gen_bitmap_example :
    if_by_bitmap_lbrl ((gen_bitmap ltb numbers 5).bytes) 5 numbers
    ≡ chosen (if_compare ltb numbers 5 5)
if_by_bitmap_lbrl-gen_bitmap_example = if_by_bitmap_lbrl-gen_bitmap ltb numbers 5 5 (omega arith)

-- None of the numbers is below 5 any more.
raised : if_compare ltb numbers 5 5 ≡ 5 ∷ 5 ∷ 9 ∷ 5 ∷ 8 ∷ 5 ∷ 7 ∷ 5 ∷ 6 ∷ 5 ∷ []
unfolding if_compare
raised = refl
