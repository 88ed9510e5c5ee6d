-- ===== src/Lists/Sums.antt =====
-- src/function/list_group.cc: the aggregates of groups, and the number of groups.
use jitfusion.Common.{
  ℕ, zero, suc, ◌+◌, ◌-◌, ◌%◌, ◌^◌, ◌≤◌, ◌<◌, max, ◌≡◌, refl, sym, ap, subst, ◌⊎◌, inl, inr, true,
  none, some, List, [], ◌∷◌, arith, ◌==◌, ==_iff,
}
use mathlib.Core.Option.{map as map_option}
use jitfusion.Common.Lists.{length}
use jitfusion.Lists.Table.{lookup_miss}
use jitfusion.Lists.Group.{
  values, overrun, of_loop, max_from, group_count, step_at, step_all, filled, group_steps,
  group_sum, group_sum_sugar,
}
use jitfusion.Lists.Cells.{InRange, nothing, next, fold_groups, step_all-fold_groups}

length-filled {ℓ} : {A : Type ℓ} (n : ℕ) (seed : A) → length (filled n seed) ≡ n
length-filled zero seed = refl
length-filled (suc n) seed = ap (λ m. suc m) (length-filled n seed)

pub max_from-least : (m : ℕ) (idx : List ℕ) → m ≤ max_from m idx
max_from-least m [] = omega arith
max_from-least m (i ∷ idx) = omega (arith, max_from-least (max i m) idx)

InRange-max_from : (m : ℕ) (idx : List ℕ) → InRange (max_from m idx + 1) idx
InRange-max_from m [] = nothing
InRange-max_from m (i ∷ idx) =
    next (omega (arith, max_from-least (max i m) idx)) (InRange-max_from (max i m) idx)

pub max_from-below : (n m : ℕ) (idx : List ℕ) → m < n → InRange n idx → max_from m idx < n
max_from-below n m [] h nothing = h
max_from-below n m (i ∷ idx) h (next k r) = max_from-below n (max i m) idx (omega (arith, h, k)) r

no_wrap : (n : ℕ) → n < 2 ^ 32 - 1 → n + 1 ≡ (n + 1) % 2 ^ 32
no_wrap n h = omega (arith, h)

InRange-group_count : (idx : List ℕ) → InRange lookup_miss idx → InRange (group_count idx) idx
unfolding group_count
InRange-group_count [] r = nothing
InRange-group_count (i ∷ idx) r =
    subst (λ n. InRange n (i ∷ idx))
      (no_wrap _ (max_from-below lookup_miss 0 (i ∷ idx) (omega arith) r))
      (InRange-max_from 0 (i ∷ idx))

-- Some number is not that of a cell.
pub data Beyond (n : ℕ) : List ℕ → Type 0 where
  here : {i : ℕ} {idx : List ℕ} → n ≤ i → Beyond n (i ∷ idx)
  later : {i : ℕ} {idx : List ℕ} → Beyond n idx → Beyond n (i ∷ idx)

module _ {ℓ κ} {A : Type ℓ} {V : Type κ} (step : A → V → A) where
  same_length :
      (vs : List V) (idx : List ℕ) → length vs ≡ length idx → (length vs == length idx) ≡ true
  same_length vs idx e = (==_iff (length vs) (length idx)).1 e

  group_steps-fold_groups :
      (seed : A) (vs : List V) (idx : List ℕ) (distinct : ℕ)
      → length vs ≡ length idx
      → InRange distinct idx
      → group_steps step seed vs idx distinct
        ≡ values (fold_groups step 0 (filled distinct seed) idx vs)
  unfolding group_steps
  group_steps-fold_groups seed vs idx distinct e r = rw (same_length vs idx e) (
      ap of_loop (
        step_all-fold_groups step (filled distinct seed) idx vs
          (subst (λ n. InRange n idx) (sym (length-filled distinct seed)) r)))

  step_at-none : (i : ℕ) (v : V) (cells : List A) → length cells ≤ i → step_at step i v cells ≡ none
  unfolding step_at
  step_at-none i v [] h = refl
  step_at-none zero v (c ∷ cells) h = absurd (omega (arith, h))
  step_at-none (suc i) v (c ∷ cells) h =
      ap (map_option (λ cs. c ∷ cs)) (step_at-none i v cells (omega (arith, h)))

  step_at-cases :
      (i : ℕ) (v : V) (cells : List A)
      → (step_at step i v cells ≡ none)
        ⊎ ((cs : List A) × (step_at step i v cells ≡ some cs) × (length cs ≡ length cells))
  unfolding step_at
  step_at-cases i v [] = inl refl
  step_at-cases zero v (c ∷ cells) = inr (step c v ∷ cells, refl, refl)
  step_at-cases (suc i) v (c ∷ cells) = elim (step_at-cases i v cells) [
    | inl e ↦ inl (ap (map_option (λ cs. c ∷ cs)) e)
    | inr (cs, e, n) ↦ inr (c ∷ cs, ap (map_option (λ cs. c ∷ cs)) e, ap (λ n. suc n) n)
  ]

  step_all-none :
      (cells : List A) (idx : List ℕ) (vs : List V)
      → Beyond (length cells) idx
      → length vs ≡ length idx
      → step_all step cells idx vs ≡ none
  unfolding step_all
  step_all-none cells [] vs b e = elim b [ ]
  step_all-none cells (i ∷ idx) [] b e = absurd (omega (arith, e))
  step_all-none cells (i ∷ idx) (v ∷ vs) (here h) e = rw (step_at-none i v cells h, step_all) refl
  step_all-none cells (i ∷ idx) (v ∷ vs) (later b) e = elim (step_at-cases i v cells) [
    | inl p ↦ rw (p, step_all) refl
    | inr (cs, p, n) ↦ rw (p, step_all) (step_all-none cs idx vs (rw n b) (omega (arith, e)))
  ]

module _ {ℓ κ} {A : Type ℓ} {V : Type κ} (add : A → V → A) (null : A) where
  -- With as many numbers as values, all of them below 2^32 - 1, the sum by two arguments neither
  -- fails nor writes behind its array: the cell of each group is the fold of the group's values, in
  -- their order.
  pub group_sum_sugar-fold_groups :
      (vs : List V) (idx : List ℕ)
      → length vs ≡ length idx
      → InRange lookup_miss idx
      → group_sum_sugar add null vs idx
        ≡ values (fold_groups add 0 (filled (group_count idx) null) idx vs)
  unfolding group_sum_sugar group_sum
  group_sum_sugar-fold_groups vs idx e r =
      group_steps-fold_groups add null vs idx (group_count idx) e (InRange-group_count idx r)

  -- With as many numbers as values, the sum writes behind its array where some number is not below
  -- the number of cells.
  pub group_sum-overrun :
      (vs : List V) (idx : List ℕ) (distinct : ℕ)
      → length vs ≡ length idx
      → Beyond distinct idx
      → group_sum add null vs idx distinct ≡ overrun
  unfolding group_sum group_steps
  group_sum-overrun vs idx distinct e b = rw (same_length add vs idx e) (
      ap of_loop (
        step_all-none add (filled distinct null) idx vs
          (subst (λ n. Beyond n idx) (sym (length-filled distinct null)) b) e))

-- The largest number is the mark of a miss.
group_count-miss :
    (idx : List ℕ) → InRange (suc lookup_miss) idx → Beyond lookup_miss idx → group_count idx ≡ 0
unfolding group_count
group_count-miss [] r b = elim b [ ]
group_count-miss (i ∷ idx) r b =
    let low : max_from 0 (i ∷ idx) < suc lookup_miss =
      max_from-below (suc lookup_miss) 0 (i ∷ idx) (omega arith) r in
    let high : lookup_miss ≤ max_from 0 (i ∷ idx) = reached 0 (i ∷ idx) b in wraps _ low high
  where
    reached : (m : ℕ) (idx : List ℕ) → Beyond lookup_miss idx → lookup_miss ≤ max_from m idx
    reached m [] b = elim b [ ]
    reached m (i ∷ idx) (here h) = omega (arith, h, max_from-least (max i m) idx)
    reached m (i ∷ idx) (later b) = reached (max i m) idx b

    wraps : (n : ℕ) → n < suc lookup_miss → lookup_miss ≤ n → (n + 1) % 2 ^ 32 ≡ 0
    wraps n h k = omega (arith, h, k)

-- Among numbers of 32 bits with the mark of a miss, the number of groups wraps to 0, and the sum by
-- two arguments writes behind its array.
pub group_sum_sugar-overrun {ℓ κ} :
    {A : Type ℓ} {V : Type κ} (add : A → V → A) (null : A) (vs : List V) (idx : List ℕ)
    → length vs ≡ length idx
    → InRange (suc lookup_miss) idx
    → Beyond lookup_miss idx
    → group_sum_sugar add null vs idx ≡ overrun
unfolding group_sum_sugar
group_sum_sugar-overrun add null vs idx e r b =
    rw (group_count-miss idx r b) (group_sum-overrun add null vs idx 0 e (lower idx b))
  where
    lower : (idx : List ℕ) → Beyond lookup_miss idx → Beyond 0 idx
    lower [] b = elim b [ ]
    lower (i ∷ idx) (here h) = here (omega arith)
    lower (i ∷ idx) (later b) = later (lower idx b)
