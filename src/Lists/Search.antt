-- ===== src/Lists/Search.antt =====
-- src/function/list_indexing.cc: the searches in sorted lists. `std::lower_bound` and
-- `std::upper_bound` halve the range that is left; the fuel is the length of the list.
use jitfusion.Common.{
  ℕ, zero, suc, ◌+◌, ◌-◌, ◌/◌, ◌≤◌, ◌<◌, ◌≡◌, refl, sym, subst, ◌∙◌, ◌⊎◌, inl, inr, Bool, true,
  false, none, some, List, [], ◌∷◌, arith, ◌==◌, ==_iff, if◌then◌else◌, Bool-cases,
}
use jitfusion.Common.Lists.{length, get_elem?}

module _ {ℓ} {K : Type ℓ} (holds : K → Bool) where
  -- The predicate at an index of the list
  abbrev pub test_at : List K → ℕ → Bool
  test_at xs i = elim (get_elem? xs i) [ some x ↦ holds x | none ↦ false ]

-- The loop of both on the `len` elements from `first`: the position behind the elements that the
-- predicate holds of
unfoldable pub partition_from : (ℕ → Bool) → ℕ → ℕ → ℕ → ℕ
partition_from p zero first len = first
partition_from p (suc fuel) first len = if len == 0 then first else elim (p (first + len / 2)) [
  | true ↦ partition_from p fuel (first + len / 2 + 1) (len - len / 2 - 1)
  | false ↦ partition_from p fuel first (len / 2)
]

module _ {ℓ} {K : Type ℓ} where
  unfoldable pub partition_point : (K → Bool) → List K → ℕ
  unfolding partition_from
  partition_point holds xs = partition_from (test_at holds xs) (length xs) 0 (length xs)

  -- How many elements the predicate holds of before the first that it does not hold of
  unfoldable pub leading : (K → Bool) → List K → ℕ
  leading holds [] = 0
  leading holds (x ∷ xs) = let rest = leading holds xs in if holds x then suc rest else 0

  -- The predicate holds of no element behind one that it does not hold of.
  abbrev pub IsPartitioned : (K → Bool) → List K → Type 0
  IsPartitioned holds xs =
      (i j : ℕ) → i ≤ j → test_at holds xs i ≡ false → test_at holds xs j ≡ false

-- A position up to which the predicate holds, and from which on it does not
abbrev Splits : (ℕ → Bool) → ℕ → Type 0
Splits p r = ((i : ℕ) → i < r → p i ≡ true) × (p r ≡ false)

compare-cases : (r s : ℕ) → (r ≡ s) ⊎ ((r < s) ⊎ (s < r))
compare-cases r s = ground arith

module _ (p : ℕ → Bool) (closed : (i j : ℕ) → i ≤ j → p i ≡ false → p j ≡ false) where
  before : (i j : ℕ) → i ≤ j → p j ≡ true → p i ≡ true
  before i j h t = elim (Bool-cases (p i)) [
    | inl e ↦ e
    | inr e ↦ absurd (let f : true ≡ false = sym t ∙ closed i j h e in cc)
  ]

  moved : (i j : ℕ) → i ≡ j → p i ≡ false → p j ≡ false
  moved i j e h = subst (λ k. p k ≡ false) e h

  partition_from-Splits :
      (fuel first len : ℕ)
      → len ≤ fuel
      → ((i : ℕ) → i < first → p i ≡ true)
      → p (first + len) ≡ false
      → Splits p (partition_from p fuel first len)
  unfolding partition_from
  partition_from-Splits zero first len h low high =
      (low, moved (first + len) first (omega arith) high)
  partition_from-Splits (suc fuel) first len h low high = elim (Bool-cases (len == 0)) [
    | inl e ↦
        let none_left : len ≡ 0 = (==_iff len 0).0 e in
        rw e (low, moved (first + len) first (omega arith) high)
    | inr e ↦ elim (Bool-cases (p (first + len / 2))) [
      | inl q ↦
          rw (e, q)
            (partition_from-Splits fuel (first + len / 2 + 1) (len - len / 2 - 1) (smaller len h e)
              (λ i l. before i (first + len / 2) (omega (arith, l)) q)
              (moved _ _ (behind first len e) high))
      | inr q ↦ rw (e, q) (partition_from-Splits fuel first (len / 2) (half len h e) low q)
    ]
  ]
    where
      some_left : (len : ℕ) → (len == 0) ≡ false → 1 ≤ len
      some_left len e = ground arith

      smaller : (len : ℕ) → len ≤ suc fuel → (len == 0) ≡ false → len - len / 2 - 1 ≤ fuel
      smaller len h e = omega (arith, h, some_left len e)

      half : (len : ℕ) → len ≤ suc fuel → (len == 0) ≡ false → len / 2 ≤ fuel
      half len h e = omega (arith, h, some_left len e)

      behind :
          (first len : ℕ)
          → (len == 0) ≡ false
          → first + len ≡ first + len / 2 + 1 + (len - len / 2 - 1)
      behind first len e = omega (arith, some_left len e)

  Splits-same : (r s : ℕ) → Splits p r → Splits p s → r ≡ s
  Splits-same r s (u, v) (u', v') = elim (compare-cases r s) [
    | inl e ↦ e
    | inr (inl l) ↦ absurd (let c : true ≡ false = sym (u' r l) ∙ v in cc)
    | inr (inr l) ↦ absurd (let c : true ≡ false = sym (u s l) ∙ v' in cc)
  ]

module _ {ℓ} {K : Type ℓ} (holds : K → Bool) where
  leading-Splits : (xs : List K) → Splits (test_at holds xs) (leading holds xs)
  unfolding leading
  leading-Splits [] = ((λ i l. absurd (omega (arith, l))), refl)
  leading-Splits (x ∷ xs) = elim (Bool-cases (holds x)) [
    | inl e ↦ rw e (later (leading-Splits xs) e)
    | inr e ↦ rw e ((λ i l. absurd (omega (arith, l))), e)
  ]
    where
      later :
          {r : ℕ}
          → Splits (test_at holds xs) r
          → holds x ≡ true
          → Splits (test_at holds (x ∷ xs)) (suc r)
      later (u, v) e = ((λ i l. here i l u e), v)
        where
          here :
              (i : ℕ) {r : ℕ}
              → i < suc r
              → ((i : ℕ) → i < r → test_at holds xs i ≡ true)
              → holds x ≡ true
              → test_at holds (x ∷ xs) i ≡ true
          here zero l u e = e
          here (suc i) l u e = u i (omega (arith, l))

  pub test_at-some :
      (xs : List K) (i : ℕ) (x : K) → get_elem? xs i ≡ some x → test_at holds xs i ≡ holds x
  test_at-some xs i x h = rw (h, test_at) refl

  pub test_at-none : (xs : List K) (i : ℕ) → get_elem? xs i ≡ none → test_at holds xs i ≡ false
  test_at-none xs i h = rw (h, test_at) refl

  test_at-length : (xs : List K) → test_at holds xs (length xs) ≡ false
  test_at-length [] = refl
  test_at-length (x ∷ xs) = test_at-length xs

  -- On a partitioned list, halving finds the first element that the predicate does not hold of.
  pub partition_point-leading :
      (xs : List K) → IsPartitioned holds xs → partition_point holds xs ≡ leading holds xs
  unfolding partition_point
  partition_point-leading xs closed =
      let n : ℕ = length xs in
      Splits-same (test_at holds xs) closed _ _
        (partition_from-Splits (test_at holds xs) closed n 0 n (omega arith)
          (λ i l. absurd (omega (arith, l)))
          (subst (λ k. test_at holds xs k ≡ false) (the_end n) (test_at-length xs)))
        (leading-Splits xs)
    where
      the_end : (n : ℕ) → n ≡ 0 + n
      the_end n = omega arith
