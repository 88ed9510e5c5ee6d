-- ===== src/Lists/Cells.antt =====
-- src/function/list_group.cc: each cell of a grouped result is the fold of its group's values.
use jitfusion.Common.{
  ℕ, zero, suc, ◌+◌, ◌<◌, ◌≡◌, refl, sym, ap, ◌∙◌, true, false, some, List, [], ◌∷◌, arith, ◌==◌,
  ==_iff, if◌then◌else◌,
}
use mathlib.Core.Option.{map as map_option}
use jitfusion.Common.Lists.{length}
use jitfusion.Lists.Group.{step_at, step_all}

-- Every number is that of a cell.
pub data InRange (n : ℕ) : List ℕ → Type 0 where
  nothing : InRange n []
  next : {i : ℕ} {idx : List ℕ} → i < n → InRange n idx → InRange n (i ∷ idx)

module _ {ℓ κ} {A : Type ℓ} {V : Type κ} (step : A → V → A) where
  -- The values of a group, folded from the front into its cell
  unfoldable pub fold_group : ℕ → A → List ℕ → List V → A
  fold_group g c (i ∷ idx) (v ∷ vs) =
      if i == g then fold_group g (step c v) idx vs else fold_group g c idx vs
  fold_group g c _ _ = c

  -- The cells of the groups from `g` on
  unfoldable pub fold_groups : ℕ → List A → List ℕ → List V → List A
  unfolding fold_group
  fold_groups g [] idx vs = []
  fold_groups g (c ∷ cells) idx vs = fold_group g c idx vs ∷ fold_groups (suc g) cells idx vs

  skip_groups :
      (g i : ℕ) (cells : List A) (idx : List ℕ) (v : V) (vs : List V)
      → i < g
      → fold_groups g cells (i ∷ idx) (v ∷ vs) ≡ fold_groups g cells idx vs
  unfolding fold_groups fold_group
  skip_groups g i [] idx v vs h = refl
  skip_groups g i (c ∷ cells) idx v vs h = rw (differ i g h) (
      ap (λ cs. fold_group g c idx vs ∷ cs)
        (skip_groups (suc g) i cells idx v vs (omega (arith, h))))
    where
      differ : (i g : ℕ) → i < g → (i == g) ≡ false
      differ i g h = ground arith

  no_numbers : (g : ℕ) (cells : List A) (vs : List V) → fold_groups g cells [] vs ≡ cells
  unfolding fold_groups fold_group
  no_numbers g [] vs = refl
  no_numbers g (c ∷ cells) vs = ap (λ cs. c ∷ cs) (no_numbers (suc g) cells vs)

  no_values : (g : ℕ) (cells : List A) (idx : List ℕ) → fold_groups g cells idx [] ≡ cells
  unfolding fold_groups fold_group
  no_values g [] idx = refl
  no_values g (c ∷ cells) [] = ap (λ cs. c ∷ cs) (no_values (suc g) cells [])
  no_values g (c ∷ cells) (i ∷ idx) = ap (λ cs. c ∷ cs) (no_values (suc g) cells (i ∷ idx))

  step_at-fold_groups :
      (g i j : ℕ) (cells : List A) (idx : List ℕ) (v : V) (vs : List V)
      → i < length cells
      → j ≡ g + i
      → (cells' : List A) × (step_at step i v cells ≡ some cells')
        × (length cells' ≡ length cells)
        × (fold_groups g cells' idx vs ≡ fold_groups g cells (j ∷ idx) (v ∷ vs))
  unfolding step_at fold_groups fold_group
  step_at-fold_groups g i j [] idx v vs h e = absurd (omega (arith, h))
  step_at-fold_groups g zero j (c ∷ cells) idx v vs h e =
      let same : (j == g) ≡ true = (==_iff j g).1 (omega (arith, e)) in
      (
        step c v ∷ cells,
        refl,
        refl,
        rw same (
            ap (λ cs. fold_group g (step c v) idx vs ∷ cs)
              (sym (skip_groups (suc g) j cells idx v vs (omega (arith, e))))),
      )
  step_at-fold_groups g (suc i) j (c ∷ cells) idx v vs h e =
      let (cs, p, q, r) =
        step_at-fold_groups (suc g) i j cells idx v vs (omega (arith, h)) (omega (arith, e)) in
      (
        c ∷ cs,
        ap (map_option (λ cs. c ∷ cs)) p,
        ap (λ n. suc n) q,
        rw (differs g i j e) (ap (λ xs. fold_group g c idx vs ∷ xs) r),
      )
    where
      differs : (g i j : ℕ) → j ≡ g + suc i → (j == g) ≡ false
      differs g i j e = ground arith

  pub step_all-fold_groups :
      (cells : List A) (idx : List ℕ) (vs : List V)
      → InRange (length cells) idx
      → step_all step cells idx vs ≡ some (fold_groups 0 cells idx vs)
  unfolding step_all
  step_all-fold_groups cells [] vs r = ap some (sym (no_numbers 0 cells vs))
  step_all-fold_groups cells (i ∷ idx) [] r = ap some (sym (no_values 0 cells (i ∷ idx)))
  step_all-fold_groups cells (i ∷ idx) (v ∷ vs) (next h r) =
      let (cs, p, q, e) = step_at-fold_groups 0 i i cells idx v vs h (omega arith) in
      rw (p, step_all) (step_all-fold_groups cs idx vs (rw q r) ∙ ap some e)
