-- ===== src/Lists/SortedFind.antt =====
-- src/function/list_indexing.cc: `FindSorted` finds what `Find` finds.
use jitfusion.Common.{
  ℕ, suc, ◌+◌, ◌≡◌, refl, sym, ap, ◌∙◌, inl, inr, Bool, true, false, not, Option, none, some, List,
  [], ◌∷◌, arith, if◌then◌else◌, Bool-cases,
}
use jitfusion.Common.Lists.{get_elem?}
use jitfusion.Lists.Table.{lookup_miss, find, find_from}
use jitfusion.Lists.Search.{leading, partition_point-leading}
use jitfusion.Lists.Sorted.{
  find_sorted, lower_bound, IsSorted, IsCotransitive, IsTrichotomous, sorted-IsPartitioned,
  below_step,
}

module _ {ℓ} {K : Type ℓ} (less : K → K → Bool) (cotransitive : IsCotransitive less)
    (same : K → K → Bool) (trichotomous : IsTrichotomous less same) where
  -- What `FindSorted` makes of the element at a position
  abbrev answer_at : K → Option K → ℕ → ℕ
  answer_at value none it = lookup_miss
  answer_at value (some x) it = if not (same x value) then lookup_miss else it

  find_from-none :
      (i : ℕ) (a : List K) (v : K)
      → ((j : ℕ) (y : K) → get_elem? a j ≡ some y → same y v ≡ false)
      → find_from same i a v ≡ lookup_miss
  unfolding find_from
  find_from-none i [] v h = refl
  find_from-none i (x ∷ a) v h =
      rw (h 0 x refl) (find_from-none (suc i) a v (λ j y e. h (suc j) y e))

  not_same : (x v : K) → less x v ≡ true → same x v ≡ false
  not_same x v h = elim (Bool-cases (same x v)) [
    | inl e ↦ absurd (let c : true ≡ false = sym h ∙ ((trichotomous x v).0 e).0 in cc)
    | inr e ↦ e
  ]

  greater : (x v : K) → less x v ≡ false → same x v ≡ false → less v x ≡ true
  greater x v h e = elim (Bool-cases (less v x)) [
    | inl l ↦ l
    | inr l ↦ absurd (let c : true ≡ false = sym ((trichotomous x v).1 (h, l)) ∙ e in cc)
  ]

  -- Behind an element that is greater, no element is equal.
  later_differ : (x v y : K) → less v x ≡ true → less y x ≡ false → same y v ≡ false
  later_differ x v y g h = elim (cotransitive v y x g) [
    | inl l ↦ elim (Bool-cases (same y v)) [
      | inl e ↦ absurd (let c : true ≡ false = sym l ∙ ((trichotomous y v).0 e).1 in cc)
      | inr e ↦ e
    ]
    | inr l ↦ absurd (let c : true ≡ false = sym l ∙ h in cc)
  ]

  answer_at-elim :
      (v : K) (it : ℕ) (o : Option K)
      → (elim o [ none ↦ lookup_miss | some x ↦ if not (same x v) then lookup_miss else it ])
        ≡ answer_at v o it
  answer_at-elim v it none = refl
  answer_at-elim v it (some x) = refl

  shift : (i r : ℕ) → i + suc r ≡ suc i + r
  shift i r = omega arith

  checked-find_from :
      (i : ℕ) (a : List K) (v : K)
      → IsSorted less a
      → answer_at v (get_elem? a (leading (λ x. less x v) a)) (i + leading (λ x. less x v) a)
        ≡ find_from same i a v
  unfolding find_from leading
  checked-find_from i [] v sorted = refl
  checked-find_from i (x ∷ a) v sorted = elim (Bool-cases (less x v)) [
    | inl l ↦
        let r : ℕ = leading (λ y. less y v) a in
        rw (l, not_same x v l)
          (ap (answer_at v (get_elem? a r)) (shift i r)
            ∙ checked-find_from (suc i) a v
                (λ j k y z h. sorted (suc j) (suc k) y z (omega (arith, h))))
    | inr l ↦ elim (Bool-cases (same x v)) [
      | inl e ↦ rw (l, e) (omega arith)
      | inr e ↦
          rw (l, e)
            (sym (
              find_from-none (suc i) a v λ j y g.
                later_differ x v y (greater x v l e) (sorted 0 (suc j) x y (omega arith) refl g)))
    ]
  ]

  -- On a sorted list, where two elements are equal if neither is less and whatever lies between two
  -- elements is on one side of them, the search by halving gives what the search from the front
  -- gives: the first index of the value, or the mark of a miss.
  pub find_sorted-find :
      (a : List K) (v : K) → IsSorted less a → find_sorted less same a v ≡ find same a v
  unfolding find_sorted lower_bound find
  find_sorted-find a v sorted =
      let r : ℕ = leading (λ x. less x v) a in
      let e : lower_bound less a v ≡ r =
        partition_point-leading (λ x. less x v) a
          (sorted-IsPartitioned less cotransitive (λ x. less x v) a (below_step less cotransitive v)
            sorted) in
      answer_at-elim v (lower_bound less a v) (get_elem? a (lower_bound less a v))
      ∙ ap (λ it. answer_at v (get_elem? a it) it) e
      ∙ ap (answer_at v (get_elem? a r)) (from_zero r)
      ∙ checked-find_from 0 a v sorted
    where
      from_zero : (r : ℕ) → r ≡ 0 + r
      from_zero r = omega arith
