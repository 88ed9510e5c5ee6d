-- ===== src/Builtins/Fresh.antt =====
-- A table of functions whose signatures are all different can be registered whole. The keys are
-- collected by name, so that the test is quick on a large table.
use jitfusion.Common.{
  ◌≡◌, refl, ap, sym, ◌∙◌, inl, inr, Bool, true, false, not, ◌&&◌, ◌||◌, Option, none, some, List,
  [], ◌∷◌, String, ◌=ˢ◌, eq_iff, if◌then◌else◌, Bool-cases,
}
use jitfusion.Types.{ValueType}
use jitfusion.Registry.{
  FunctionSignature, FunctionStructure, Registry, same_types, same_sign, find, assign,
}
use jitfusion.Registry.Lookup.{same_sign-right, find-assign}

-- The parameter lists that a name is registered with
abbrev pub Index : Type 0
Index = List (String × List (List ValueType))

unfoldable pub member : List ValueType → List (List ValueType) → Bool
unfolding same_types
member ts [] = false
member ts (us ∷ uss) = same_types us ts || member ts uss

unfoldable pub seen : FunctionSignature → Index → Bool
unfolding member
seen q [] = false
seen q ((n, tss) ∷ b) = if n =ˢ q.func_name then member q.param_types tss else seen q b

unfoldable pub enter : FunctionSignature → Index → Index
enter s [] = (s.func_name, s.param_types ∷ []) ∷ []
enter s ((n, tss) ∷ b) =
    if n =ˢ s.func_name then (n, s.param_types ∷ tss) ∷ b else (n, tss) ∷ enter s b

abbrev pub is_some {ℓ} : {A : Type ℓ} → Option A → Bool
is_some none = false
is_some (some a) = true

other : (n m k : String) → (n =ˢ m) ≡ false → (n =ˢ k) ≡ true → (m =ˢ k) ≡ false
other n m k h e = elim (Bool-cases (m =ˢ k)) [
  | inl p ↦
      let same : n ≡ m = (eq_iff n k).0 e ∙ sym ((eq_iff m k).0 p) in
      absurd (let c : true ≡ false = sym ((eq_iff n m).1 same) ∙ h in cc)
  | inr p ↦ p
]

-- A signature is seen behind an entry where it is the one entered, or was seen before.
seen-enter :
    (s q : FunctionSignature) (b : Index) → seen q (enter s b) ≡ (same_sign s q || seen q b)
unfolding seen enter member same_sign
seen-enter s q [] = elim (Bool-cases (s.func_name =ˢ q.func_name)) [
  | inl p ↦ rw p refl
  | inr p ↦ rw p refl
]
seen-enter s q ((n, tss) ∷ b) = elim (Bool-cases (n =ˢ s.func_name)) [
  | inl p ↦
      let e : s.func_name =ˢ q.func_name ≡ n =ˢ q.func_name =
        ap (λ m. m =ˢ q.func_name) (sym ((eq_iff _ _).0 p)) in
      elim (Bool-cases (n =ˢ q.func_name)) [ inl h ↦ rw (p, e, h) refl | inr h ↦ rw (p, e, h) refl ]
  | inr p ↦ elim (Bool-cases (n =ˢ q.func_name)) [
    | inl h ↦ rw (p, h, other n s.func_name q.func_name p h) refl
    | inr h ↦ rw (p, h) (seen-enter s q b)
  ]
]

-- Whether no signature is seen before it is entered
unfoldable pub fresh : List FunctionSignature → Index → Bool
unfolding seen enter
fresh [] b = true
fresh (s ∷ ss) b = not (seen s b) && fresh ss (enter s b)

-- The index sees what the table holds.
abbrev pub Covers : Index → Registry → Type 0
Covers b r = (q : FunctionSignature) → seen q b ≡ is_some (find q r)

Covers-assign :
    (s : FunctionSignature) (f : FunctionStructure) (b : Index) (r : Registry)
    → Covers b r
    → Covers (enter s b) (assign s f r)
Covers-assign s f b r h q =
    seen-enter s q b
    ∙ ap (λ x. same_sign s q || x) (h q)
    ∙ split _ (same_sign s q)
    ∙ sym (ap is_some (find-assign s q f r))
  where
    split :
        (e : FunctionSignature × FunctionStructure) (c : Bool)
        → (c || is_some (find q r)) ≡ is_some (if c then some e else find q r)
    split e true = refl
    split e false = refl

pub find-same :
    (s q : FunctionSignature) (r : Registry) → same_sign s q ≡ true → find s r ≡ find q r
unfolding find
find-same s q [] h = refl
find-same s q ((k, f) ∷ r) h =
    rw (same_sign-right s q k h)
      (ap (λ x. if same_sign k q then some (k, f) else x) (find-same s q r h))

none_of : {A : Type 0} (o : Option A) → is_some o ≡ false → o ≡ none
none_of none h = refl
none_of (some a) h = absurd (cc)

-- The table behind the registrations of a list of entries
unfoldable pub assign_all : List (FunctionSignature × FunctionStructure) → Registry → Registry
unfolding assign
assign_all [] r = r
assign_all ((s, f) ∷ es) r = assign_all es (assign s f r)

abbrev pub signatures : List (FunctionSignature × FunctionStructure) → List FunctionSignature
signatures [] = []
signatures ((s, f) ∷ es) = s ∷ signatures es

module _ (s : FunctionSignature) (f : FunctionStructure)
    (es : List (FunctionSignature × FunctionStructure)) (b : Index) (r : Registry)
    (covers : Covers b r) (new : fresh (s ∷ signatures es) b ≡ true) where
  -- The first of fresh entries is not in the table,
  pub first_absent : find s r ≡ none
  unfolding fresh
  first_absent = none_of (find s r) (sym (covers s) ∙ not_seen (seen s b) new)
    where
      not_seen : (c : Bool) → (not c && fresh (signatures es) (enter s b)) ≡ true → c ≡ false
      not_seen true h = cc
      not_seen false h = refl

  -- and the others are fresh behind it.
  pub rest_fresh : fresh (signatures es) (enter s b) ≡ true
  unfolding fresh
  rest_fresh = rest (not (seen s b)) new
    where
      rest :
          (c : Bool)
          → (c && fresh (signatures es) (enter s b)) ≡ true
          → fresh (signatures es) (enter s b) ≡ true
      rest true h = h
      rest false h = absurd (cc)

  pub rest-Covers : Covers (enter s b) (assign s f r)
  rest-Covers = Covers-assign s f b r covers
