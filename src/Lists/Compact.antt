-- ===== src/Lists/Compact.antt =====
-- src/function/list_indexing.cc: the hits of a list of indices, and the gather.
use jitfusion.Common.{
  ℕ, suc, ◌+◌, ◌≤◌, ◌<◌, ◌≡◌, refl, sym, ap, ap₂, subst, ◌∙◌, inl, inr, Bool, true, false, not,
  List, [], ◌∷◌, ◌++◌, map, arith, ◌==◌, if◌then◌else◌, Bool-cases, ltb, lt→ltb, le→ltb, ◌↔◌,
}
use jitfusion.Common.Lists.{length, get_or, length-append}
use mathlib.Core.List.{append_assoc}
use jitfusion.Lists.Table.{
  lookup_miss, find, find_from, lookup_table, build_lookup_table, IsPartialEquality,
  lookup_table-build_lookup_table,
}

-- The loop of `ListCompactPositions` from the index `i`
unfoldable pub positions_from : ℕ → List ℕ → List ℕ
positions_from i [] = []
positions_from i (j ∷ raw) =
    if not (j == lookup_miss) then i ∷ positions_from (suc i) raw else positions_from (suc i) raw

-- `ListCompactPositions`
unfoldable pub list_compact_positions : List ℕ → List ℕ
unfolding positions_from
list_compact_positions raw = positions_from 0 raw

-- `ListCompactIndex`
unfoldable pub list_compact_index : List ℕ → List ℕ
list_compact_index [] = []
list_compact_index (j ∷ raw) =
    if not (j == lookup_miss) then j ∷ list_compact_index raw else list_compact_index raw

-- `hits` of both
unfoldable pub hits : List ℕ → ℕ
hits [] = 0
hits (j ∷ raw) = hits raw + (if not (j == lookup_miss) then 1 else 0)

module _ {ℓ} {V : Type ℓ} where
  -- One turn of the loop of `ListGather`
  abbrev pub gather_one : List V → V → ℕ → V
  gather_one values default_value j =
      if ltb j (length values) then get_or values j default_value else default_value

  -- `ListGather`
  unfoldable pub list_gather : List V → List ℕ → V → List V
  list_gather values idx default_value = map (gather_one values default_value) idx

length-positions_from : (i : ℕ) (raw : List ℕ) → length (positions_from i raw) ≡ hits raw
unfolding positions_from hits
length-positions_from i [] = refl
length-positions_from i (j ∷ raw) = elim (Bool-cases (j == lookup_miss)) [
  | inl e ↦ rw e (omega (arith, length-positions_from (suc i) raw))
  | inr e ↦ rw e (omega (arith, length-positions_from (suc i) raw))
]

length-list_compact_index : (raw : List ℕ) → length (list_compact_index raw) ≡ hits raw
unfolding list_compact_index hits
length-list_compact_index [] = refl
length-list_compact_index (j ∷ raw) = elim (Bool-cases (j == lookup_miss)) [
  | inl e ↦ rw e (omega (arith, length-list_compact_index raw))
  | inr e ↦ rw e (omega (arith, length-list_compact_index raw))
]

-- Both compactions fill exactly the `hits` elements that they reserve.
pub compact-hits :
    (raw : List ℕ)
    → (length (list_compact_positions raw) ≡ hits raw)
      × (length (list_compact_index raw) ≡ hits raw)
unfolding list_compact_positions
compact-hits raw = (length-positions_from 0 raw, length-list_compact_index raw)

module _ {ℓ} {V : Type ℓ} where
  get_or_append :
      (front : List V) (x : V) (rest : List V) (d : V)
      → get_or (front ++ x ∷ rest) (length front) d ≡ x
  get_or_append [] x rest d = refl
  get_or_append (y ∷ front) x rest d = get_or_append front x rest d

  length_append :
      (front : List V) (x : V) (rest : List V) → length front < length (front ++ x ∷ rest)
  length_append front x rest = omega (arith, length-append front (x ∷ rest))

  gather_one-middle :
      (front : List V) (x : V) (rest : List V) (d : V)
      → gather_one (front ++ x ∷ rest) d (length front) ≡ x
  gather_one-middle front x rest d =
      rw (lt→ltb _ _ (length_append front x rest)) (get_or_append front x rest d)

  -- To move the next element to the front
  moved_front {κ} :
      (P : List V → ℕ → Type κ) (front : List V) (x : V) (rest : List V)
      → P ((front ++ x ∷ []) ++ rest) (length (front ++ x ∷ []))
      → P (front ++ x ∷ rest) (suc (length front))
  moved_front P front x rest h =
      let e : length (front ++ x ∷ []) ≡ suc (length front) =
        omega (arith, length-append front (x ∷ [])) in
      subst (P (front ++ x ∷ rest)) e
        (subst (λ xs. P xs (length (front ++ x ∷ []))) (append_assoc front (x ∷ []) rest) h)

gather_suffix :
    (front raw : List ℕ) (d : ℕ)
    → list_gather (front ++ raw) (positions_from (length front) raw) d ≡ list_compact_index raw
unfolding list_gather positions_from list_compact_index
gather_suffix front [] d = refl
gather_suffix front (j ∷ raw) d =
    let rest =
      moved_front (λ xs n. list_gather xs (positions_from n raw) d ≡ list_compact_index raw) front j
        raw (gather_suffix (front ++ j ∷ []) raw d) in
    elim (Bool-cases (j == lookup_miss)) [
      | inl e ↦ rw e rest
      | inr e ↦ rw e (ap₂ (λ i is. i ∷ is) (gather_one-middle front j raw d) rest)
    ]

-- The indices that hit are those that a gather takes at the positions that hit.
pub list_compact_index-list_gather :
    (raw : List ℕ) (d : ℕ) → list_gather raw (list_compact_positions raw) d ≡ list_compact_index raw
unfolding list_compact_positions
list_compact_index-list_gather raw d = gather_suffix [] raw d

module _ {ℓ} {K : Type ℓ} (same : K → K → Bool) where
  -- Whether an element of the list is equal to the value
  unfoldable pub contains : List K → K → Bool
  contains [] value = false
  contains (x ∷ a) value = if same x value then true else contains a value

  module _ (same_iff : (a b : K) → (same a b ≡ true) ↔ (a ≡ b)) where
    gather_one-find_from :
        (front b : List K) (x d : K)
        → length (front ++ b) ≤ lookup_miss
        → gather_one (front ++ b) d (find_from same (length front) b x)
          ≡ (if contains b x then x else d)
    unfolding find_from contains
    gather_one-find_from front [] x d h = rw (le→ltb _ _ h) refl
    gather_one-find_from front (y ∷ b) x d h = elim (Bool-cases (same y x)) [
      | inl e ↦ rw e (gather_one-middle front y b d ∙ (same_iff y x).0 e)
      | inr e ↦ rw e (
          moved_front
            (λ xs n.
              length xs ≤ lookup_miss
              → gather_one xs d (find_from same n b x) ≡ (if contains b x then x else d))
            front y b (gather_one-find_from (front ++ y ∷ []) b x d) h)
    ]

    equality : IsPartialEquality same
    equality = record {
      symmetric = λ a b h. (same_iff b a).1 (sym ((same_iff a b).0 h));
      transitive = λ a b c h k. (same_iff a c).1 ((same_iff a b).0 h ∙ (same_iff b c).0 k);
    }

    -- Where `==` tells equal elements, a gather from a list of fewer than 2^32 elements at the
    -- indices that a table built over this list gives is the list that was looked up, with the
    -- default in place of the elements that the list does not contain.
    pub list_gather-lookup_table :
        (a b : List K) (d : K)
        → length b ≤ lookup_miss
        → list_gather b (lookup_table same a (build_lookup_table same b)) d
          ≡ map (λ x. if contains b x then x else d) a
    unfolding list_gather find
    list_gather-lookup_table a b d h =
        ap (λ idx. list_gather b idx d) (lookup_table-build_lookup_table same equality a b) ∙ each a
      where
        each :
            (a : List K)
            → map (gather_one b d) (map (λ x. find_from same 0 b x) a)
              ≡ map (λ x. if contains b x then x else d) a
        each [] = refl
        each (x ∷ a) = ap₂ (λ y ys. y ∷ ys) (gather_one-find_from [] b x d h) (each a)
