-- ===== src/Lists/Group.antt =====
-- src/function/list_group.cc: grouping by a list of group numbers. A write behind the end of an
-- array, which the source does not test for, ends the model with `overrun`.
use jitfusion.Common.{
  ℕ, zero, suc, ◌+◌, ◌%◌, ◌^◌, max, Bool, true, false, not, Option, none, some, List, [], ◌∷◌, map,
  ◌==◌, if◌then◌else◌, ltb,
}
use mathlib.Core.Option.{map as map_option}
use jitfusion.Common.Lists.{length}
use jitfusion.Lists.Table.{find_key, try_emplace}

-- What a function of this file gives: its list, the error for lists of different lengths, with the
-- empty list in place of a result, or a write behind the end of an array
pub data Grouped {ℓ} (A : Type ℓ) : Type ℓ where
  values : List A → Grouped A
  len_mismatch overrun : Grouped A

abbrev pub of_loop {ℓ} : {A : Type ℓ} → Option (List A) → Grouped A
of_loop none = overrun
of_loop (some xs) = values xs

module _ {ℓ} {K : Type ℓ} (same : K → K → Bool) where
  -- The loop of `GroupIndex` and `GroupIndexString`
  unfoldable pub index_from : List K → List (K × ℕ) → ℕ → List ℕ
  unfolding find_key try_emplace
  index_from [] table next_id = []
  index_from (k ∷ keys) table next_id = elim (find_key same k table) [
    | none ↦ next_id ∷ index_from keys (try_emplace same k next_id table) (suc next_id)
    | some id ↦ id ∷ index_from keys table next_id
  ]

  -- `GroupIndex`, `GroupIndexString`; the numbers stay below the length, which has 32 bits
  unfoldable pub group_index : List K → List ℕ
  unfolding index_from
  group_index keys = index_from keys [] 0

-- The loop of `GroupCount`
abbrev pub max_from : ℕ → List ℕ → ℕ
max_from max_id [] = max_id
max_from max_id (i ∷ idx) = max_from (max i max_id) idx

-- `GroupCount`; the sum has 32 bits
unfoldable pub group_count : List ℕ → ℕ
group_count [] = 0
group_count (i ∷ idx) = (max_from 0 (i ∷ idx) + 1) % 2 ^ 32

module _ {ℓ} {K : Type ℓ} where
  -- The loop of `GroupKeys`, which writes at `filled` in an array of `distinct` elements
  unfoldable pub keys_from : ℕ → ℕ → List K → List ℕ → Option (List K)
  keys_from distinct filled [] idx = some []
  keys_from distinct filled (k ∷ keys) [] = some []
  keys_from distinct filled (k ∷ keys) (i ∷ idx) = elim (i == filled) [
    | true ↦ elim (ltb filled distinct) [
      | true ↦ map_option (λ ks. k ∷ ks) (keys_from distinct (suc filled) keys idx)
      | false ↦ none
    ]
    | false ↦ keys_from distinct filled keys idx
  ]

  -- `GroupKeys`
  unfoldable pub group_keys : List K → List ℕ → ℕ → Grouped K
  unfolding keys_from
  group_keys keys idx distinct =
      if not (length keys == length idx)
      then len_mismatch
      else of_loop (keys_from distinct 0 keys idx)

  -- `GroupKeys` of two arguments (`EmitGroupKeysSugar`)
  unfoldable pub group_keys_sugar : List K → List ℕ → Grouped K
  unfolding group_keys group_count
  group_keys_sugar keys idx = group_keys keys idx (group_count idx)

-- An array of equal elements
abbrev pub filled {ℓ} : {A : Type ℓ} → ℕ → A → List A
filled zero seed = []
filled (suc n) seed = seed ∷ filled n seed

module _ {ℓ κ} {A : Type ℓ} {V : Type κ} where
  -- `result.data[i] = step(result.data[i], v)`
  unfoldable pub step_at : (A → V → A) → ℕ → V → List A → Option (List A)
  step_at step i v [] = none
  step_at step zero v (c ∷ cells) = some (step c v ∷ cells)
  step_at step (suc i) v (c ∷ cells) = map_option (λ cs. c ∷ cs) (step_at step i v cells)

  -- The loop of `GroupSum`, `GroupMax`, `GroupMin` and `GroupAvg`
  unfoldable pub step_all : (A → V → A) → List A → List ℕ → List V → Option (List A)
  unfolding step_at
  step_all step cells (i ∷ idx) (v ∷ vs) = elim (step_at step i v cells) [
    | none ↦ none
    | some cells ↦ step_all step cells idx vs
  ]
  step_all step cells _ _ = some cells

  -- What the four functions share: the test of the lengths, the array of seeds, and the loop
  unfoldable pub group_steps : (A → V → A) → A → List V → List ℕ → ℕ → Grouped A
  unfolding step_all
  group_steps step seed vs idx distinct =
      if not (length vs == length idx)
      then len_mismatch
      else of_loop (step_all step (filled distinct seed) idx vs)

  -- `GroupSum`, with the addition of the accumulator
  unfoldable pub group_sum : (A → V → A) → A → List V → List ℕ → ℕ → Grouped A
  unfolding group_steps
  group_sum add null vs idx distinct = group_steps add null vs idx distinct

  -- `GroupSum` of two arguments (`EmitGroupSumSugar`)
  unfoldable pub group_sum_sugar : (A → V → A) → A → List V → List ℕ → Grouped A
  unfolding group_sum group_count
  group_sum_sugar add null vs idx = group_sum add null vs idx (group_count idx)

module _ {ℓ} {V : Type ℓ} where
  -- `GroupMax`: `std::max` keeps its first argument unless it is less than the second.
  unfoldable pub group_max : (V → V → Bool) → V → List V → List ℕ → ℕ → Grouped V
  unfolding group_steps
  group_max less lowest vs idx distinct =
      group_steps (λ a v. if less a v then v else a) lowest vs idx distinct

  -- `GroupMin`: `std::min` keeps its first argument unless the second is less.
  unfoldable pub group_min : (V → V → Bool) → V → List V → List ℕ → ℕ → Grouped V
  unfolding group_steps
  group_min less highest vs idx distinct =
      group_steps (λ a v. if less v a then v else a) highest vs idx distinct

-- The last loop of `GroupAvg`
abbrev pub averages {ℓ} : {A : Type ℓ} → (A → ℕ → A) → Grouped (A × ℕ) → Grouped A
averages divide (values cells) = values (map (λ c. divide c.0 c.1) cells)
averages divide len_mismatch = len_mismatch
averages divide overrun = overrun

module _ {ℓ κ} {A : Type ℓ} {V : Type κ} where
  -- `GroupAvg`: a cell is the sum and the count of its group.
  unfoldable pub group_avg : (A → V → A) → (A → ℕ → A) → A → List V → List ℕ → ℕ → Grouped A
  unfolding group_steps
  group_avg add divide null vs idx distinct =
      averages divide (group_steps (λ c v. (add c.0 v, c.1 + 1)) (null, 0) vs idx distinct)
