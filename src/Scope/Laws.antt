-- ===== src/Scope/Laws.antt =====
-- How the reads of src/scope_stack.h see its writes.
use jitfusion.Common.{
  ◌≡◌, refl, ap, sym, inl, inr, Bool, true, false, some, none, Option-cases, [], ◌∷◌, String, ◌=ˢ◌,
  eq_iff, if◌then◌else◌, Bool-cases, if-collapse, if-swap,
}
use jitfusion.Scope.{Frame, ScopeStack, find, insert, set, lookup, or_below, is_bound}

-- Two names that both are the third are the same.
same_name : (j m n : String) → (j =ˢ m) ≡ true → (j =ˢ n) ≡ (m =ˢ n)
same_name j m n p = ap (λ x. x =ˢ n) ((eq_iff j m).0 p)

other_name : (j m n : String) → (j =ˢ m) ≡ false → (m =ˢ n) ≡ true → (j =ˢ n) ≡ false
other_name j m n p q = rw (sym ((eq_iff m n).0 q)) p

module _ {ℓ} {V : Type ℓ} where
  pub find-insert :
      (n m : String) (v : V) (f : Frame V)
      → find n (insert m v f) ≡ (if m =ˢ n then some v else find n f)
  unfolding find insert
  find-insert n m v [] = refl
  find-insert n m v ((j, w) ∷ f) = elim (Bool-cases (j =ˢ m)) [
    | inl p ↦ rw p (rw (same_name j m n p) (sym (if-collapse _ _ _ (m =ˢ n))))
    | inr p ↦ rw p (rw (find-insert n m v f) (if-swap _ _ _ (j =ˢ n) (m =ˢ n) (other_name j m n p)))
  ]

  pub lookup-set :
      (n m : String) (v : V) (f : Frame V) (s : ScopeStack V)
      → lookup n (set m v (f ∷ s)) ≡ (if m =ˢ n then some v else lookup n (f ∷ s))
  unfolding lookup
  lookup-set n m v f s = rw (find-insert n m v f) (split (m =ˢ n))
    where
      split :
          (b : Bool)
          → or_below (if b then some v else find n f) (lookup n s)
            ≡ (if b then some v else or_below (find n f) (lookup n s))
      split true = refl
      split false = refl

  -- A name without a value is in no scope.
  pub unbound : (n : String) (s : ScopeStack V) → lookup n s ≡ none → is_bound n s ≡ false
  unfolding lookup is_bound
  unbound n [] h = refl
  unbound n (f ∷ s) h = elim (Option-cases (find n f)) [
    | inl p ↦ rw p (unbound n s (rw p at h))
    | inr (d, p) ↦ absurd (let e : some d ≡ none = rw p at h in cc)
  ]
