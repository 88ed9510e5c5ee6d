-- ===== src/Registry/Lookup.antt =====
-- What `GetFuncBySign` finds in the table behind a registration (src/function_registry.cc).
use jitfusion.Common.{
  ◌≡◌, refl, ap, ap₂, sym, ◌∙◌, inl, inr, Bool, true, false, ◌&&◌, not, Option, none, some, List,
  [], ◌∷◌, ◌=ˢ◌, ◌==◌, eq_iff, if◌then◌else◌, Bool-cases, Option-cases, if-collapse, if-swap,
}
use jitfusion.Common.Result.{ok, guard-elim, ok-injective}
use jitfusion.Types.{ValueType, ◌=ᵗ◌, =ᵗ_iff}
use jitfusion.Registry.{
  FunctionSignature, FunctionStructure, Registry, same_types, same_sign, find, assign, is_c_func,
  is_none, is_registered, register_func, answer, get_func_by_sign,
}

same_types-eq : (as' bs : List ValueType) → same_types as' bs ≡ true → as' ≡ bs
unfolding same_types
same_types-eq [] [] h = refl
same_types-eq (a ∷ as') (b ∷ bs) h = elim (Bool-cases (a =ᵗ b)) [
  | inl p ↦ ap₂ (λ x xs. x ∷ xs) ((=ᵗ_iff a b).0 p) (same_types-eq as' bs (rw p at h))
  | inr p ↦ absurd (let h : false ≡ true = rw p at h in cc)
]
same_types-eq [] (b ∷ bs) h = absurd (cc)
same_types-eq (a ∷ as') [] h = absurd (cc)

-- Equal keys have the same name and the same parameters.
pub same_sign-eq :
    (a b : FunctionSignature)
    → same_sign a b ≡ true
    → (a.func_name ≡ b.func_name) × (a.param_types ≡ b.param_types)
unfolding same_sign
same_sign-eq a b h = elim (Bool-cases (a.func_name =ˢ b.func_name)) [
  | inl p ↦ ((eq_iff _ _).0 p, same_types-eq a.param_types b.param_types (rw p at h))
  | inr p ↦ absurd (let h : false ≡ true = rw p at h in cc)
]

pub same_sign-left :
    (a b q : FunctionSignature) → same_sign a b ≡ true → same_sign a q ≡ same_sign b q
unfolding same_sign
same_sign-left a b q h =
    let (n, ts) = same_sign-eq a b h in
    ap₂ (λ n ts. (n =ˢ q.func_name) && same_types ts q.param_types) n ts

pub same_sign-right :
    (a b q : FunctionSignature) → same_sign a b ≡ true → same_sign q a ≡ same_sign q b
unfolding same_sign
same_sign-right a b q h =
    let (n, ts) = same_sign-eq a b h in
    ap₂ (λ n ts. (q.func_name =ˢ n) && same_types q.param_types ts) n ts

-- The key that the table holds behind an assignment
abbrev kept : Option (FunctionSignature × FunctionStructure) → FunctionSignature → FunctionSignature
kept none sign = sign
kept (some (k, f)) sign = k

pub find-assign :
    (sign q : FunctionSignature) (f : FunctionStructure) (r : Registry)
    → find q (assign sign f r)
      ≡ (if same_sign sign q then some (kept (find sign r) sign, f) else find q r)
unfolding find assign
find-assign sign q f [] = refl
find-assign sign q f ((k, g) ∷ r) = elim (Bool-cases (same_sign k sign)) [
  | inl p ↦ rw p (rw (same_sign-left k sign q p) (sym (if-collapse _ _ _ (same_sign sign q))))
  | inr p ↦ rw p (
      rw (find-assign sign q f r) (
        if-swap _ _ _ (same_sign k q) (same_sign sign q)
          (λ e. sym (same_sign-right sign q k e) ∙ p)))
]

-- A successful `RegisterFunc` writes the structure, whatever the table holds.
pub register_func-eq :
    (sign : FunctionSignature) (f : FunctionStructure) (allow_override : Bool) (r : Registry)
    {r' : Registry}
    → register_func sign f allow_override r ≡ ok r'
    → (r' ≡ assign sign f r) × ((not allow_override && is_registered (find sign r)) ≡ false)
unfolding register_func
register_func-eq sign f allow_override r h =
    guard-elim (not (not (is_c_func f.func_type) && is_none f.codegen_func)) _ _ h λ a h.
      guard-elim (not (is_c_func f.func_type && f.c_func_ptr == 0)) _ _ h λ b h.
        guard-elim (not (not allow_override && is_registered (find sign r))) _ _ h
          λ c h. (sym (ok-injective h), not_true _ c)
  where
    not_true : (b : Bool) → not b ≡ true → b ≡ false
    not_true true h = cc
    not_true false h = refl

-- The return type that a signature has in the table
abbrev pub kept_type :
    Option (FunctionSignature × FunctionStructure) → FunctionSignature → ValueType
kept_type o sign = (kept o sign).ret_type

-- After a registration that succeeds, the signature's name and parameters give the structure that
-- was registered, with the return type of the key that the table held before, or of the signature
-- where it held none; every other signature gives what it gave before.
pub get_func_by_sign-register_func :
    (sign q : FunctionSignature) (f : FunctionStructure) (allow_override : Bool) (r : Registry)
    {r' : Registry}
    → register_func sign f allow_override r ≡ ok r'
    → get_func_by_sign q r' ≡ (
        if same_sign sign q
        then ok (record q { ret_type = kept_type (find sign r) sign }, f)
        else get_func_by_sign q r)
unfolding get_func_by_sign
get_func_by_sign-register_func sign q f allow_override r h =
    ap (λ t. answer q (find q t)) ((register_func-eq sign f allow_override r h).0)
    ∙ ap (answer q) (find-assign sign q f r)
    ∙ split (same_sign sign q)
  where
    split :
        (b : Bool)
        → answer q (if b then some (kept (find sign r) sign, f) else find q r) ≡ (
            if b
            then ok (record q { ret_type = kept_type (find sign r) sign }, f)
            else answer q (find q r))
    split true = refl
    split false = refl

-- Without the override flag, only a signature that the table does not hold can be registered.
pub register_func-find :
    (sign : FunctionSignature) (f : FunctionStructure) (r : Registry) {r' : Registry}
    → register_func sign f false r ≡ ok r'
    → find sign r ≡ none
register_func-find sign f r h = elim (Option-cases (find sign r)) [
  | inl p ↦ p
  | inr (e, p) ↦
      absurd (let c : true ≡ false = rw p at ((register_func-eq sign f false r h).1) in cc)
]
