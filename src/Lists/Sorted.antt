-- ===== src/Lists/Sorted.antt =====
-- src/function/list_indexing.cc: `FindSorted` and `Bucketize`, on lists that are sorted.
use jitfusion.Common.{
  ℕ, zero, suc, ◌≤◌, ◌≡◌, refl, sym, ap₂, ◌∙◌, ◌⊎◌, ◌↔◌, inl, inr, Bool, true, false, not, Option,
  none, some, List, [], ◌∷◌, map, arith, leb, if◌then◌else◌, Bool-cases, Option-cases,
}
use jitfusion.Common.Lists.{length, get_elem?}
use jitfusion.Lists.Table.{lookup_miss}
use jitfusion.Lists.Search.{
  leading, partition_point, IsPartitioned, partition_point-leading, test_at-some, test_at-none,
}

-- `kBucketizeLinearThreshold`
abbrev bucketize_linear_threshold : ℕ
bucketize_linear_threshold = 16

module _ {ℓ} {K : Type ℓ} (less : K → K → Bool) where
  -- `std::lower_bound`
  unfoldable pub lower_bound : List K → K → ℕ
  unfolding partition_point
  lower_bound a value = partition_point (λ x. less x value) a

  -- `std::upper_bound`
  unfoldable pub upper_bound : List K → K → ℕ
  unfolding partition_point
  upper_bound a value = partition_point (λ x. not (less value x)) a

  -- `FindSorted`, `FindSortedString`
  unfoldable pub find_sorted : (K → K → Bool) → List K → K → ℕ
  unfolding lower_bound
  find_sorted same a value =
      let it : ℕ = lower_bound a value in
      elim (get_elem? a it) [
        | none ↦ lookup_miss
        | some x ↦ if not (same x value) then lookup_miss else it
      ]

  -- `Bucketize`: a scan up to the threshold, and a search by halving above it
  unfoldable pub bucketize : List K → List K → List ℕ
  unfolding upper_bound leading
  bucketize values boundaries =
      if leb (length boundaries) bucketize_linear_threshold
      then map (λ v. leading (λ b. not (less v b)) boundaries) values
      else map (λ v. upper_bound boundaries v) values

  -- No element is less than one before it.
  abbrev pub IsSorted : List K → Type ℓ
  IsSorted a =
      (i j : ℕ) (x y : K)
      → i ≤ j
      → get_elem? a i ≡ some x
      → get_elem? a j ≡ some y
      → less y x ≡ false

  -- Whatever lies between is on one side.
  abbrev pub IsCotransitive : Type ℓ
  IsCotransitive = (a b c : K) → less a c ≡ true → (less a b ≡ true) ⊎ (less b c ≡ true)

  module _ (cotransitive : IsCotransitive) where
    past_end : (i j : ℕ) (a : List K) → i ≤ j → get_elem? a i ≡ none → get_elem? a j ≡ none
    past_end i j [] h e = refl
    past_end zero j (x ∷ a) h e = absurd (cc)
    past_end (suc i) zero (x ∷ a) h e = absurd (omega (arith, h))
    past_end (suc i) (suc j) (x ∷ a) h e = past_end i j a (omega (arith, h)) e

    -- A predicate that fails on with the order partitions a sorted list.
    pub sorted-IsPartitioned :
        (holds : K → Bool) (a : List K)
        → ((x y : K) → less y x ≡ false → holds x ≡ false → holds y ≡ false)
        → IsSorted a
        → IsPartitioned holds a
    sorted-IsPartitioned holds a step sorted i j h e = elim (Option-cases (get_elem? a j)) [
      | inl q ↦ test_at-none holds a j q
      | inr (y, q) ↦ elim (Option-cases (get_elem? a i)) [
        | inl p ↦
            absurd (let c : ◌≡◌ {A = Option K} none (some y) = sym (past_end i j a h p) ∙ q in cc)
        | inr (x, p) ↦
            let fails : holds x ≡ false = sym (test_at-some holds a i x p) ∙ e in
            test_at-some holds a j y q ∙ step x y (sorted i j x y h p q) fails
      ]
    ]

    above_step : (v x y : K) → less y x ≡ false → not (less v x) ≡ false → not (less v y) ≡ false
    above_step v x y h e = elim (cotransitive v y x (was_true (less v x) e)) [
      | inl l ↦ rw l refl
      | inr l ↦ absurd (let c : true ≡ false = sym l ∙ h in cc)
    ]
      where
        was_true : (b : Bool) → not b ≡ false → b ≡ true
        was_true true h = refl
        was_true false h = absurd (cc)

    pub below_step : (v x y : K) → less y x ≡ false → less x v ≡ false → less y v ≡ false
    below_step v x y h e = elim (Bool-cases (less y v)) [
      | inl l ↦ elim (cotransitive y x v l) [
        | inl k ↦ absurd (let c : true ≡ false = sym k ∙ h in cc)
        | inr k ↦ absurd (let c : true ≡ false = sym k ∙ e in cc)
      ]
      | inr l ↦ l
    ]

    -- For an order in which whatever lies between two elements is on one side of them, on sorted
    -- boundaries of any number, on both sides of the threshold, the bucket of a value is the number
    -- of boundaries before the first that is greater than the value.
    pub bucketize-leading :
        (values boundaries : List K)
        → IsSorted boundaries
        → bucketize values boundaries ≡ map (λ v. leading (λ b. not (less v b)) boundaries) values
    unfolding bucketize upper_bound
    bucketize-leading values boundaries sorted =
        split (leb (length boundaries) bucketize_linear_threshold) values
      where
        one : (v : K) → upper_bound boundaries v ≡ leading (λ b. not (less v b)) boundaries
        one v =
            partition_point-leading (λ b. not (less v b)) boundaries
              (sorted-IsPartitioned (λ b. not (less v b)) boundaries (above_step v) sorted)

        all :
            (values : List K)
            → map (λ v. upper_bound boundaries v) values
              ≡ map (λ v. leading (λ b. not (less v b)) boundaries) values
        all [] = refl
        all (v ∷ vs) = ap₂ (λ i is. i ∷ is) (one v) (all vs)

        split :
            (c : Bool) (values : List K)
            → (if c
                then map (λ v. leading (λ b. not (less v b)) boundaries) values
                else map (λ v. upper_bound boundaries v) values)
              ≡ map (λ v. leading (λ b. not (less v b)) boundaries) values
        split true values = refl
        split false values = all values

  -- Two elements are equal where neither is less.
  abbrev pub IsTrichotomous : (K → K → Bool) → Type ℓ
  IsTrichotomous same = (a b : K) → (same a b ≡ true) ↔ ((less a b ≡ false) × (less b a ≡ false))
