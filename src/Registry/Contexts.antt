-- ===== src/Registry/Contexts.antt =====
-- The registrations of src/function_registry.cc that enter a function twice: under its signature,
-- and under the legacy signature with a trailing pointer.
use jitfusion.Common.{
  ℕ, ◌≡◌, refl, ap, ◌∙◌, true, false, Bool, not, List, [], ◌∷◌, ◌++◌, ◌==◌, eq_iff,
}
use jitfusion.Common.Result.{ok, >>=-elim, guard-elim}
use jitfusion.Types.{ValueType, ptr, ◌=ᵗ◌, =ᵗ_iff}
use jitfusion.Registry.{
  FunctionSignature, FunctionStructure, Registry, read_only, commutative, c_structure, same_types,
  same_sign, find, register_func, get_func_by_sign, legacy_sign,
  register_read_only_c_func_with_exec_ctx, register_commutative_c_func_with_exec_ctx,
}
use jitfusion.Registry.Lookup.{
  kept_type, find-assign, register_func-eq, get_func_by_sign-register_func,
}

same_type : (a : ValueType) → (a =ᵗ a) ≡ true
same_type a = (=ᵗ_iff a a).1 refl

longer : (as' : List ValueType) (t : ValueType) → same_types as' (as' ++ t ∷ []) ≡ false
unfolding same_types
longer [] t = refl
longer (a ∷ as') t = rw (same_type a) (longer as' t)

shorter : (as' : List ValueType) (t : ValueType) → same_types (as' ++ t ∷ []) as' ≡ false
unfolding same_types
shorter [] t = refl
shorter (a ∷ as') t = rw (same_type a) (shorter as' t)

same_types_refl : (ts : List ValueType) → same_types ts ts ≡ true
unfolding same_types
same_types_refl [] = refl
same_types_refl (t ∷ ts) = rw (same_type t) (same_types_refl ts)

pub same_sign_refl : (sign : FunctionSignature) → same_sign sign sign ≡ true
unfolding same_sign
same_sign_refl sign =
    rw ((eq_iff sign.func_name sign.func_name).1 refl) (same_types_refl sign.param_types)

legacy_differs :
    (sign : FunctionSignature)
    → (same_sign sign (legacy_sign sign) ≡ false) × (same_sign (legacy_sign sign) sign ≡ false)
unfolding same_sign
legacy_differs sign = (
  rw ((eq_iff sign.func_name sign.func_name).1 refl) (longer sign.param_types ptr),
  rw ((eq_iff sign.func_name sign.func_name).1 refl) (shorter sign.param_types ptr),
)

-- The signature with the return type that it has in a table behind its registration
abbrev pub registered : FunctionSignature → Registry → FunctionSignature
registered sign r = record sign { ret_type = kept_type (find sign r) sign }

-- The table finds the structures for a signature and for its legacy form.
abbrev pub FindsBoth :
    FunctionSignature → FunctionStructure → FunctionStructure → Registry → Registry → Type 0
FindsBoth sign f g r r2 =
    (get_func_by_sign sign r2 ≡ ok (registered sign r, f))
    × (get_func_by_sign (legacy_sign sign) r2 ≡ ok (registered (legacy_sign sign) r, g))

both :
    (sign : FunctionSignature) (f g : FunctionStructure) (allow_override : Bool) (r : Registry)
    {r1 r2 : Registry}
    → register_func sign f allow_override r ≡ ok r1
    → register_func (legacy_sign sign) g allow_override r1 ≡ ok r2
    → FindsBoth sign f g r r2
both sign f g allow_override r {r1} h1 h2 =
    let l : FunctionSignature = legacy_sign sign in
    let (apart, apart') = legacy_differs sign in
    let first = get_func_by_sign-register_func sign sign f allow_override r h1 in
    let second = get_func_by_sign-register_func l sign g allow_override r1 h2 in
    let third = get_func_by_sign-register_func l l g allow_override r1 h2 in
    let same_key : find l r1 ≡ find l r =
      rw apart at
        (ap (find l) ((register_func-eq sign f allow_override r h1).0) ∙ find-assign sign l f r) in
    (
      (rw apart' at second) ∙ (rw (same_sign_refl sign) at first),
      rw (same_sign_refl l, same_key) at third,
    )

-- `RegisterReadOnlyCFuncWithExecCtx`, where it succeeds, leaves a table in which the signature
-- gives the function with the context flag set, and the signature with the trailing pointer gives
-- it with the flag clear; each has the return type that its key had before, or the signature's.
pub register_read_only-FindsBoth :
    (sign : FunctionSignature) (p : ℕ) (allow_override : Bool) (r : Registry) {r2 : Registry}
    → register_read_only_c_func_with_exec_ctx sign p allow_override r ≡ ok r2
    → FindsBoth sign (c_structure p read_only true) (c_structure p read_only false) r r2
unfolding register_read_only_c_func_with_exec_ctx
register_read_only-FindsBoth sign p allow_override r h = guard-elim (not (p == 0)) _ _ h λ c h.
    >>=-elim (register_func sign (c_structure p read_only true) allow_override r) _ h
      λ r1 e h. both sign _ _ allow_override r e h

-- `RegisterCommutativeCFuncWithExecCtx`, where it succeeds, leaves a table in which the signature
-- gives the function with the context flag set, and the signature with the trailing pointer gives
-- it with the flag clear; each has the return type that its key had before, or the signature's.
pub register_commutative-FindsBoth :
    (sign : FunctionSignature) (p : ℕ) (allow_override : Bool) (r : Registry) {r2 : Registry}
    → register_commutative_c_func_with_exec_ctx sign p allow_override r ≡ ok r2
    → FindsBoth sign (c_structure p commutative true) (c_structure p commutative false) r r2
unfolding register_commutative_c_func_with_exec_ctx
register_commutative-FindsBoth sign p allow_override r h = guard-elim (not (p == 0)) _ _ h λ c h.
    >>=-elim (register_func sign (c_structure p commutative true) allow_override r) _ h
      λ r1 e h. both sign _ _ allow_override r e h
