-- ===== src/Lists/Table.antt =====
-- src/function/list_indexing.cc: the lookup tables. `std::unordered_map` is an association list
-- whose keys differ; `same` is the equality of its keys, and the `==` of the source.
use jitfusion.Common.{
  ℕ, suc, ◌-◌, ◌^◌, ◌≡◌, refl, sym, ap₂, ◌∙◌, inl, inr, Bool, true, false, Option, none, some, List,
  [], ◌∷◌, map, if◌then◌else◌, Bool-cases, Option-cases,
}

-- `kLookupMiss`
abbrev pub lookup_miss : ℕ
lookup_miss = 2 ^ 32 - 1

-- What `it->second` or the end of the table gives
abbrev pub or_miss : Option ℕ → ℕ
or_miss none = lookup_miss
or_miss (some j) = j

module _ {ℓ} {K : Type ℓ} (same : K → K → Bool) where
  -- `table.find`
  unfoldable pub find_key : K → List (K × ℕ) → Option ℕ
  find_key k [] = none
  find_key k ((k', v) ∷ t) = if same k' k then some v else find_key k t

  -- `table.try_emplace`: an entry that is there stays.
  unfoldable pub try_emplace : K → ℕ → List (K × ℕ) → List (K × ℕ)
  unfolding find_key
  try_emplace k v t = elim (find_key k t) [ none ↦ (k, v) ∷ t | some w ↦ t ]

  -- The loop of `BuildLookupTableInt` and `BuildLookupTableString` from the index `j`
  unfoldable pub fill_table : ℕ → List K → List (K × ℕ) → List (K × ℕ)
  unfolding try_emplace
  fill_table j [] seed = seed
  fill_table j (x ∷ b) seed = fill_table (suc j) b (try_emplace x j seed)

  -- `BuildLookupTableInt`, `BuildLookupTableString`
  unfoldable pub build_lookup_table : List K → List (K × ℕ)
  unfolding fill_table
  build_lookup_table b = fill_table 0 b []

  -- `LookupTableInt`, `LookupTableString`
  unfoldable pub lookup_table : List K → List (K × ℕ) → List ℕ
  unfolding find_key
  lookup_table a table = map (λ x. or_miss (find_key x table)) a

  -- The loop of `Find` and `FindString` from the index `i`
  unfoldable pub find_from : ℕ → List K → K → ℕ
  find_from i [] value = lookup_miss
  find_from i (x ∷ a) value = if same x value then i else find_from (suc i) a value

  -- `Find`, `FindString`
  unfoldable pub find : List K → K → ℕ
  unfolding find_from
  find a value = find_from 0 a value

module _ {ℓ} {K : Type ℓ} (same : K → K → Bool) where
  pub emplace_absent :
      (y : K) (j : ℕ) (t : List (K × ℕ))
      → find_key same y t ≡ none
      → try_emplace same y j t ≡ (y, j) ∷ t
  unfolding try_emplace
  emplace_absent y j t h = rw (h, try_emplace) refl

  pub emplace_present :
      (y : K) (j : ℕ) (t : List (K × ℕ)) (v : ℕ)
      → find_key same y t ≡ some v
      → try_emplace same y j t ≡ t
  unfolding try_emplace
  emplace_present y j t v h = rw (h, try_emplace) refl

-- An equality that need not be reflexive, such as that of floating-point numbers
pub record IsPartialEquality {ℓ} {K : Type ℓ} (same : K → K → Bool) : Type ℓ where
  pub symmetric : (a b : K) → same a b ≡ true → same b a ≡ true
  pub transitive : (a b c : K) → same a b ≡ true → same b c ≡ true → same a c ≡ true

module _ {ℓ} {K : Type ℓ} (same : K → K → Bool) (is_equality : IsPartialEquality same) where
  same_left : (k x y : K) → same x y ≡ true → same k x ≡ same k y
  same_left k x y h = elim (Bool-cases (same k x)) [
    | inl p ↦ p ∙ sym (is_equality.transitive k x y p h)
    | inr p ↦ elim (Bool-cases (same k y)) [
      | inl q ↦ absurd (
          let c : same k x ≡ true = is_equality.transitive k y x q (is_equality.symmetric x y h) in
          let d : false ≡ true = sym p ∙ c in cc)
      | inr q ↦ p ∙ sym q
    ]
  ]

  find_key-same :
      (x y : K) (t : List (K × ℕ)) → same x y ≡ true → find_key same x t ≡ find_key same y t
  unfolding find_key
  find_key-same x y [] h = refl
  find_key-same x y ((k, v) ∷ t) h = rw (same_left k x y h, find_key-same x y t h) refl

  -- What a table gives for a key, or the first later index
  abbrev first_after : K → ℕ → List K → Option ℕ → ℕ
  first_after x j b (some v) = v
  first_after x j b none = find_from same j b x

  first_after-try_emplace :
      (x y : K) (j : ℕ) (b : List K) (t : List (K × ℕ))
      → first_after x (suc j) b (find_key same x (try_emplace same y j t))
        ≡ first_after x j (y ∷ b) (find_key same x t)
  unfolding find_key find_from
  first_after-try_emplace x y j b t = elim (Option-cases (find_key same y t)) [
    | inl q ↦ rw (emplace_absent same y j t q) (elim (Bool-cases (same y x)) [
      | inl p ↦ rw (sym (find_key-same y x t p) ∙ q, p) refl
      | inr p ↦ rw p (skip (find_key same x t) p)
    ])
    | inr (v, q) ↦ rw (emplace_present same y j t v q) (elim (Bool-cases (same y x)) [
      | inl p ↦ rw (sym (find_key-same y x t p) ∙ q) refl
      | inr p ↦ skip (find_key same x t) p
    ])
  ]
    where
      skip :
          (o : Option ℕ) → same y x ≡ false → first_after x (suc j) b o ≡ first_after x j (y ∷ b) o
      skip none p = rw p refl
      skip (some v) p = refl

  -- A table that is filled on from an index gives what it held, or else the first later index.
  find_key-fill_table :
      (x : K) (j : ℕ) (b : List K) (t : List (K × ℕ))
      → or_miss (find_key same x (fill_table same j b t)) ≡ first_after x j b (find_key same x t)
  unfolding fill_table find_from
  find_key-fill_table x j [] t = elim (find_key same x t) [ none ↦ refl | some v ↦ refl ]
  find_key-fill_table x j (y ∷ b) t =
      find_key-fill_table x (suc j) b (try_emplace same y j t) ∙ first_after-try_emplace x y j b t

  -- Where `==` is symmetric and transitive, though not reflexive at NaN, probing a table built over
  -- a list gives, for each element, what a search from the front of this list gives.
  pub lookup_table-build_lookup_table :
      (a b : List K) → lookup_table same a (build_lookup_table same b) ≡ map (λ x. find same b x) a
  unfolding lookup_table build_lookup_table find find_key
  lookup_table-build_lookup_table [] b = refl
  lookup_table-build_lookup_table (x ∷ a) b =
      ap₂ (λ i is. i ∷ is) (find_key-fill_table x 0 b []) (lookup_table-build_lookup_table a b)
