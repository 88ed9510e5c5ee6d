-- ===== src/Lists/Encode.antt =====
-- src/function/list_group.cc: the group numbers and the keys of the groups together encode a list.
use jitfusion.Common.{
  ℕ, zero, suc, ◌+◌, ◌≤◌, ◌<◌, ◌≡◌, ◌↔◌, refl, sym, ap, ap₂, subst, ◌∙◌, inl, inr, Bool, true,
  false, none, some, List, [], ◌∷◌, ◌++◌, arith, ◌==◌, ==_refl, lt→ltb, Bool-cases, Option-cases,
}
use mathlib.Core.List.{append_assoc}
use mathlib.Core.Option.{map as map_option, some-injective}
use jitfusion.Common.Lists.{length, get_elem?, get_or, length-append}
use jitfusion.Lists.Table.{find_key, try_emplace, emplace_absent}
use jitfusion.Lists.Compact.{gather_one, list_gather}
use jitfusion.Lists.Group.{index_from, keys_from}

module _ {ℓ} {K : Type ℓ} where
  get_elem?-append :
      (xs ys : List K) (i : ℕ) (x : K) → get_elem? xs i ≡ some x → get_elem? (xs ++ ys) i ≡ some x
  get_elem?-append [] ys i x h = absurd (cc)
  get_elem?-append (y ∷ xs) ys zero x h = h
  get_elem?-append (y ∷ xs) ys (suc i) x h = get_elem?-append xs ys i x h

  pub get_elem?-length : (xs : List K) (i : ℕ) (x : K) → get_elem? xs i ≡ some x → i < length xs
  get_elem?-length [] i x h = absurd (cc)
  get_elem?-length (y ∷ xs) zero x h = omega arith
  get_elem?-length (y ∷ xs) (suc i) x h = omega (arith, get_elem?-length xs i x h)

  get_or-get_elem? : (xs : List K) (i : ℕ) (x d : K) → get_elem? xs i ≡ some x → get_or xs i d ≡ x
  get_or-get_elem? [] i x d h = absurd (cc)
  get_or-get_elem? (y ∷ xs) zero x d h = some-injective y x h
  get_or-get_elem? (y ∷ xs) (suc i) x d h = get_or-get_elem? xs i x d h

  get_elem?-last : (xs : List K) (x : K) → get_elem? (xs ++ x ∷ []) (length xs) ≡ some x
  get_elem?-last [] x = refl
  get_elem?-last (y ∷ xs) x = get_elem?-last xs x

  gather_one-found :
      (xs : List K) (i : ℕ) (x d : K) → get_elem? xs i ≡ some x → gather_one xs d i ≡ x
  gather_one-found xs i x d h =
      rw (lt→ltb _ _ (get_elem?-length xs i x h)) (get_or-get_elem? xs i x d h)

module _ {ℓ} {K : Type ℓ} (same : K → K → Bool)
    (same_iff : (a b : K) → (same a b ≡ true) ↔ (a ≡ b)) where
  -- The keys that a loop from a table adds
  unfoldable pub new_keys : List K → List (K × ℕ) → ℕ → List K
  new_keys [] t n = []
  new_keys (k ∷ keys) t n = elim (find_key same k t) [
    | none ↦ k ∷ new_keys keys (try_emplace same k n t) (suc n)
    | some id ↦ new_keys keys t n
  ]

  -- The table gives the positions of the keys found so far.
  abbrev pub Positions : List K → List (K × ℕ) → Type ℓ
  Positions seen t = (k : K) (i : ℕ) → find_key same k t ≡ some i → get_elem? seen i ≡ some k

  pub Positions-try_emplace :
      (seen : List K) (t : List (K × ℕ)) (k : K)
      → Positions seen t
      → find_key same k t ≡ none
      → Positions (seen ++ k ∷ []) (try_emplace same k (length seen) t)
  unfolding find_key
  Positions-try_emplace seen t k h absent q i e =
      let e' : find_key same q ((k, length seen) ∷ t) ≡ some i =
        ap (find_key same q) (sym (emplace_absent same k (length seen) t absent)) ∙ e in
      elim (Bool-cases (same k q)) [
        | inl p ↦
            let at : length seen ≡ i = some-injective (length seen) i (rw p at e') in
            rw (sym at, sym ((same_iff k q).0 p)) (get_elem?-last seen k)
        | inr p ↦ get_elem?-append seen (k ∷ []) i q (h q i (rw p at e'))
      ]

  module _ (k : K) (keys : List K) (t : List (K × ℕ)) (n : ℕ) where
    pub new_keys_absent :
        find_key same k t ≡ none
        → new_keys (k ∷ keys) t n ≡ k ∷ new_keys keys (try_emplace same k n t) (suc n)
    unfolding new_keys
    new_keys_absent p = rw (p, new_keys) refl

    pub new_keys_present :
        (i : ℕ) → find_key same k t ≡ some i → new_keys (k ∷ keys) t n ≡ new_keys keys t n
    unfolding new_keys
    new_keys_present i p = rw (p, new_keys) refl

    pub index_absent :
        find_key same k t ≡ none
        → index_from same (k ∷ keys) t n ≡ n ∷ index_from same keys (try_emplace same k n t) (suc n)
    unfolding index_from
    index_absent p = rw (p, index_from) refl

    pub index_present :
        (i : ℕ)
        → find_key same k t ≡ some i
        → index_from same (k ∷ keys) t n ≡ i ∷ index_from same keys t n
    unfolding index_from
    index_present i p = rw (p, index_from) refl

  pub longer : (seen : List K) (k : K) → length (seen ++ k ∷ []) ≡ suc (length seen)
  longer seen k = omega (arith, length-append seen (k ∷ []))

  -- The numbers lead to the keys, among the keys found so far and those that are added.
  pub index_from-list_gather :
      (keys seen : List K) (t : List (K × ℕ)) (d : K)
      → Positions seen t
      → list_gather (seen ++ new_keys keys t (length seen)) (index_from same keys t (length seen)) d
        ≡ keys
  unfolding index_from list_gather
  index_from-list_gather [] seen t d h = refl
  index_from-list_gather (k ∷ keys) seen t d h =
      let n : ℕ = length seen in
      elim (Option-cases (find_key same k t)) [
        | inl p ↦
            let t' : List (K × ℕ) = try_emplace same k n t in
            let added : List K = new_keys keys t' (suc n) in
            let rest =
              index_from-list_gather keys (seen ++ k ∷ []) t' d
                (Positions-try_emplace seen t k h p) in
            let rest = rw (longer seen k, append_assoc seen (k ∷ []) added) at rest in
            let first = gather_one-found (seen ++ k ∷ added) n k d (
              subst (λ xs. get_elem? xs n ≡ some k) (append_assoc seen (k ∷ []) added)
                (get_elem?-append (seen ++ k ∷ []) added n k (get_elem?-last seen k))) in
            ap₂ (λ ks is. list_gather (seen ++ ks) is d) (new_keys_absent k keys t n p)
              (index_absent k keys t n p)
            ∙ ap₂ (λ x xs. x ∷ xs) first rest
        | inr (i, p) ↦
            ap₂ (λ ks is. list_gather (seen ++ ks) is d) (new_keys_present k keys t n i p)
              (index_present k keys t n i p)
            ∙ ap₂ (λ x xs. x ∷ xs)
                (gather_one-found _ i k d (get_elem?-append seen _ i k (h k i p)))
                (index_from-list_gather keys seen t d h)
      ]

  keys_from_written :
      (distinct n : ℕ) (k : K) (keys : List K) (idx : List ℕ)
      → n < distinct
      → keys_from distinct n (k ∷ keys) (n ∷ idx)
        ≡ map_option (λ ks. k ∷ ks) (keys_from distinct (suc n) keys idx)
  unfolding keys_from
  keys_from_written distinct n k keys idx h = rw (==_refl n, lt→ltb _ _ h, keys_from) refl

  keys_from_other :
      (distinct n i : ℕ) (k : K) (keys : List K) (idx : List ℕ)
      → i < n
      → keys_from distinct n (k ∷ keys) (i ∷ idx) ≡ keys_from distinct n keys idx
  unfolding keys_from
  keys_from_other distinct n i k keys idx h = rw (differ i n h, keys_from) refl
    where
      differ : (i n : ℕ) → i < n → (i == n) ≡ false
      differ i n h = ground arith

  -- `GroupKeys` writes the added keys, where the array has room for them.
  pub keys_from-index_from :
      (keys seen : List K) (t : List (K × ℕ)) (distinct : ℕ)
      → Positions seen t
      → length seen + length (new_keys keys t (length seen)) ≤ distinct
      → keys_from distinct (length seen) keys (index_from same keys t (length seen))
        ≡ some (new_keys keys t (length seen))
  unfolding keys_from index_from new_keys
  keys_from-index_from [] seen t distinct h room = refl
  keys_from-index_from (k ∷ keys) seen t distinct h room =
      let n : ℕ = length seen in
      elim (Option-cases (find_key same k t)) [
        | inl p ↦
            let t' : List (K × ℕ) = try_emplace same k n t in
            let room' = rw (new_keys_absent k keys t n p) at room in
            let rest =
              keys_from-index_from keys (seen ++ k ∷ []) t' distinct
                (Positions-try_emplace seen t k h p) (rw (longer seen k) (omega (arith, room'))) in
            let rest = rw (longer seen k) at rest in
            rw (index_absent k keys t n p, new_keys_absent k keys t n p)
              (keys_from_written distinct n k keys _ (omega (arith, room'))
                ∙ ap (map_option (λ ks. k ∷ ks)) rest)
        | inr (i, p) ↦
            let room' = rw (new_keys_present k keys t n i p) at room in
            rw (index_present k keys t n i p, new_keys_present k keys t n i p)
              (keys_from_other distinct n i k keys _ (get_elem?-length seen i k (h k i p))
                ∙ keys_from-index_from keys seen t distinct h room')
      ]
