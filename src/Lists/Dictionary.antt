-- ===== src/Lists/Dictionary.antt =====
-- src/function/list_group.cc: the keys by the sugared `GroupKeys` for the numbers of `GroupIndex`.
use jitfusion.Common.{
  ℕ, suc, ◌+◌, ◌≤◌, ◌<◌, max, ◌≡◌, ◌↔◌, refl, ap, subst, inl, inr, Bool, true, List, [], ◌∷◌, ◌++◌,
  arith, ◌==◌, ==_iff, Option-cases,
}
use jitfusion.Common.Lists.{length}
use jitfusion.Lists.Table.{find_key, try_emplace, lookup_miss}
use jitfusion.Lists.Compact.{list_gather}
use jitfusion.Lists.Group.{
  index_from, group_index, max_from, group_count, group_keys, group_keys_sugar, values, of_loop,
}
use jitfusion.Lists.Encode.{
  new_keys, Positions, Positions-try_emplace, new_keys_absent, new_keys_present, index_absent,
  index_present, longer, index_from-list_gather, keys_from-index_from, get_elem?-length,
}

module _ {ℓ} {K : Type ℓ} (same : K → K → Bool)
    (same_iff : (a b : K) → (same a b ≡ true) ↔ (a ≡ b)) where
  -- The largest number is not below the number of keys.
  max_from-new_keys :
      (m n : ℕ) (keys : List K) (t : List (K × ℕ))
      → n ≤ m + 1
      → n + length (new_keys same same_iff keys t n) ≤ max_from m (index_from same keys t n) + 1
  unfolding index_from new_keys
  max_from-new_keys m n [] t h = omega (arith, h)
  max_from-new_keys m n (k ∷ keys) t h = elim (Option-cases (find_key same k t)) [
    | inl p ↦
        rw (new_keys_absent same same_iff k keys t n p, index_absent same same_iff k keys t n p)
          (omega (
            arith,
            max_from-new_keys (max n m) (suc n) keys (try_emplace same k n t) (omega (arith, h)),
          ))
    | inr (i, p) ↦
        rw
          (
            new_keys_present same same_iff k keys t n i p,
            index_present same same_iff k keys t n i p,
          )
          (max_from-new_keys (max i m) n keys t (omega (arith, h)))
  ]

  max_from-index_from :
      (m n top : ℕ) (keys seen : List K) (t : List (K × ℕ))
      → Positions same same_iff seen t
      → length seen ≡ n
      → m < top
      → n + length keys ≤ top
      → max_from m (index_from same keys t n) < top
  unfolding index_from
  max_from-index_from m n top [] seen t h e l b = l
  max_from-index_from m n top (k ∷ keys) seen t h e l b = elim (Option-cases (find_key same k t)) [
    | inl p ↦ rw (index_absent same same_iff k keys t n p) (
        max_from-index_from (max n m) (suc n) top keys (seen ++ k ∷ []) (try_emplace same k n t)
          (subst (λ j. Positions same same_iff (seen ++ k ∷ []) (try_emplace same k j t)) e
            (Positions-try_emplace same same_iff seen t k h p))
          (omega (arith, longer same same_iff seen k, e)) (omega (arith, l, b)) (omega (arith, b)))
    | inr (i, p) ↦ rw (index_present same same_iff k keys t n i p) (
        max_from-index_from (max i m) n top keys seen t h e
          (omega (arith, get_elem?-length seen i k (h k i p), e, b)) (omega (arith, b)))
  ]

  length-index_from :
      (keys : List K) (t : List (K × ℕ)) (n : ℕ) → length keys ≡ length (index_from same keys t n)
  unfolding index_from
  length-index_from [] t n = refl
  length-index_from (k ∷ keys) t n = elim (Option-cases (find_key same k t)) [
    | inl p ↦
        rw (index_absent same same_iff k keys t n p) (ap (λ m. suc m) (length-index_from keys _ _))
    | inr (i, p) ↦
        rw (index_present same same_iff k keys t n i p)
          (ap (λ m. suc m) (length-index_from keys _ _))
  ]

  -- The array of the sugared `GroupKeys` has room for every key.
  room_for_keys :
      (keys : List K)
      → length keys ≤ lookup_miss
      → 0 + length (new_keys same same_iff keys [] 0) ≤ group_count (index_from same keys [] 0)
  unfolding new_keys index_from group_count find_key
  room_for_keys [] h = omega arith
  room_for_keys (k ∷ keys) h =
      let idx : List ℕ = index_from same (k ∷ keys) [] 0 in
      let top : max_from 0 idx < length (k ∷ keys) =
        max_from-index_from 0 0 (length (k ∷ keys)) (k ∷ keys) [] [] nowhere refl (omega arith)
          (omega arith) in
      let least : 0 + length (new_keys same same_iff (k ∷ keys) [] 0) ≤ max_from 0 idx + 1 =
        max_from-new_keys 0 0 (k ∷ keys) [] (omega arith) in
      omega (arith, top, least, h)
    where
      nowhere : Positions same same_iff [] []
      nowhere q i e = absurd (cc)

  -- For a list of fewer than 2^32 elements whose `==` tells equal ones, the keys that `GroupKeys`
  -- by two arguments gives for the numbers of `GroupIndex`, without writing behind its array, are
  -- a dictionary: a gather from them at these numbers is the list.
  pub group_keys_sugar-group_index :
      (keys : List K) (d : K)
      → length keys ≤ lookup_miss
      → (ks : List K) × (group_keys_sugar keys (group_index same keys) ≡ values ks)
        × (list_gather ks (group_index same keys) d ≡ keys)
  unfolding group_keys_sugar group_keys group_index find_key
  group_keys_sugar-group_index keys d h =
      let idx : List ℕ = index_from same keys [] 0 in
      let e : (length keys == length idx) ≡ true = (==_iff _ _).1 (length-index_from keys [] 0) in
      (
        new_keys same same_iff keys [] 0,
        rw e (
            ap of_loop (
              keys_from-index_from same same_iff keys [] [] (group_count idx) nowhere
                (room_for_keys keys h))),
        index_from-list_gather same same_iff keys [] [] d nowhere,
      )
    where
      nowhere : Positions same same_iff [] []
      nowhere q i e = absurd (cc)
