-- ===== src/Builtins/Entries.antt =====
-- What the registrations of src/function enter in the table, and that fresh entries all go in.
use jitfusion.Common.{
  ℕ, zero, suc, ◌≡◌, refl, ap, ap₂, sym, subst, ◌∙◌, inl, inr, Bool, true, false, Option, none,
  some, List, [], ◌∷◌, ◌++◌, String, ◌==◌, Bool-cases,
}
use jitfusion.Common.Lists.{get_elem?}
use jitfusion.Common.Result.{Result, ok, err, ◌>>=◌}
use jitfusion.Registry.{
  Error, FunctionSignature, FunctionStructure, Registry, llvm_intrinic_func, no_setter, read_only,
  commutative, c_structure, legacy_sign, same_sign, find, assign, register_func,
}
use jitfusion.Registry.Lookup.{find-assign}
use jitfusion.Registry.Contexts.{same_sign_refl}
use mathlib.Core.List.{append-nil, append_assoc}
use mathlib.Core.Option.{some-injective}
use jitfusion.Builtins.Calls.{
  Call, intrinic, read_only as read_only_call, read_only_ctx, commutative_ctx, signature,
}
use jitfusion.Builtins.Fresh.{
  Index, fresh, Covers, find-same, assign_all, signatures, first_absent, rest_fresh, rest-Covers,
}

abbrev pub Entry : Type 0
Entry = FunctionSignature × FunctionStructure

-- The structure for an emitter
abbrev pub emitter_structure : ℕ → FunctionStructure
emitter_structure p = record {
  func_type = llvm_intrinic_func;
  c_func_ptr = 0;
  codegen_func = some p;
  func_attr_setter = no_setter;
  needs_exec_ctx = false;
}

-- What a call enters: a function that takes the context stands under two signatures.
abbrev pub entries : (String → ℕ) → Call → List Entry
entries address (intrinic n ts t f) = (signature n ts t, emitter_structure (address f)) ∷ []
entries address (read_only_call n ts t f) =
    (signature n ts t, c_structure (address f) read_only false) ∷ []
entries address (read_only_ctx n ts t f) =
    (signature n ts t, c_structure (address f) read_only true)
    ∷ (legacy_sign (signature n ts t), c_structure (address f) read_only false)
    ∷ []
entries address (commutative_ctx n ts t f) =
    (signature n ts t, c_structure (address f) commutative true)
    ∷ (legacy_sign (signature n ts t), c_structure (address f) commutative false)
    ∷ []

abbrev pub all_entries : (String → ℕ) → List Call → List Entry
all_entries address [] = []
all_entries address (c ∷ cs) = entries address c ++ all_entries address cs

-- The signatures of the entries, which do not depend on the addresses
abbrev keys : Call → List FunctionSignature
keys (intrinic n ts t f) = signature n ts t ∷ []
keys (read_only_call n ts t f) = signature n ts t ∷ []
keys (read_only_ctx n ts t f) = signature n ts t ∷ legacy_sign (signature n ts t) ∷ []
keys (commutative_ctx n ts t f) = signature n ts t ∷ legacy_sign (signature n ts t) ∷ []

abbrev pub all_keys : List Call → List FunctionSignature
all_keys [] = []
all_keys (c ∷ cs) = keys c ++ all_keys cs

signatures_append : (xs ys : List Entry) → signatures (xs ++ ys) ≡ signatures xs ++ signatures ys
signatures_append [] ys = refl
signatures_append ((s, f) ∷ xs) ys = ap (λ ss. s ∷ ss) (signatures_append xs ys)

signatures-entries : (address : String → ℕ) (c : Call) → signatures (entries address c) ≡ keys c
signatures-entries address (intrinic n ts t f) = refl
signatures-entries address (read_only_call n ts t f) = refl
signatures-entries address (read_only_ctx n ts t f) = refl
signatures-entries address (commutative_ctx n ts t f) = refl

pub signatures-all_entries :
    (address : String → ℕ) (cs : List Call) → signatures (all_entries address cs) ≡ all_keys cs
signatures-all_entries address [] = refl
signatures-all_entries address (c ∷ cs) =
    signatures_append (entries address c) (all_entries address cs)
    ∙ ap₂ (λ xs ys. xs ++ ys) (signatures-entries address c) (signatures-all_entries address cs)

-- A structure that `RegisterFunc` accepts
pub data IsValid : FunctionStructure → Type 0 where
  emitter : (p : ℕ) → IsValid (emitter_structure p)
  c_code : (p : ℕ) (a : _) (x : Bool) → p == 0 ≡ false → IsValid (c_structure p a x)

register_func-new :
    (s : FunctionSignature) (f : FunctionStructure) (r : Registry)
    → IsValid f
    → find s r ≡ none
    → register_func s f false r ≡ ok (assign s f r)
unfolding register_func
register_func-new s _ r (emitter p) h = rw h refl
register_func-new s _ r (c_code p a x e) h = rw (e, h) refl

pub data AllValid : List Entry → Type 0 where
  none_left : AllValid []
  one_more :
      {s : FunctionSignature} {f : FunctionStructure} {es : List Entry}
      → IsValid f
      → AllValid es
      → AllValid ((s, f) ∷ es)

pub AllValid-append : {xs ys : List Entry} → AllValid xs → AllValid ys → AllValid (xs ++ ys)
AllValid-append none_left v = v
AllValid-append (one_more h u) v = one_more h (AllValid-append u v)

-- The entries in order, without the override flag
unfoldable pub register_each : List Entry → Registry → Result Error Registry
register_each [] r = ok r
register_each ((s, f) ∷ es) r = register_func s f false r >>= register_each es

pub >>=_assoc :
    (f g h : Registry → Result Error Registry) (m : Result Error Registry)
    → ((r : Registry) → f r ≡ (g r >>= h))
    → (m >>= f) ≡ ((m >>= g) >>= h)
>>=_assoc f g h (ok r) k = k r
>>=_assoc f g h (err e) k = refl

pub register_each_append :
    (xs ys : List Entry) (r : Registry)
    → register_each (xs ++ ys) r ≡ (register_each xs r >>= register_each ys)
unfolding register_each
register_each_append [] ys r = refl
register_each_append ((s, f) ∷ xs) ys r =
    >>=_assoc (register_each (xs ++ ys)) (register_each xs) (register_each ys)
      (register_func s f false r) (λ r'. register_each_append xs ys r')

-- Fresh entries are all assigned.
pub register_each-fresh :
    (es : List Entry) (b : Index) (r : Registry)
    → AllValid es
    → Covers b r
    → fresh (signatures es) b ≡ true
    → register_each es r ≡ ok (assign_all es r)
unfolding register_each assign_all
register_each-fresh _ b r none_left covers new = refl
register_each-fresh _ b r (one_more {s} {f} {es} v vs) covers new =
    rw (register_func-new s f r v (first_absent s f es b r covers new)) (
      register_each-fresh es _ _ vs (rest-Covers s f es b r covers new)
        (rest_fresh s f es b r covers new))

-- What the table holds stays behind fresh entries.
pub find-assign_all :
    (es : List Entry) (q : FunctionSignature) (e : Entry) (b : Index) (r : Registry)
    → Covers b r
    → fresh (signatures es) b ≡ true
    → find q r ≡ some e
    → find q (assign_all es r) ≡ some e
unfolding assign_all
find-assign_all [] q e b r covers new h = h
find-assign_all ((s, f) ∷ es) q e b r covers new h =
    find-assign_all es q e _ _ (rest-Covers s f es b r covers new)
      (rest_fresh s f es b r covers new)
      (elim (Bool-cases (same_sign s q)) [
        | inl p ↦ absurd (
            let c : ◌≡◌ {A = Option Entry} none (some e) =
              sym (first_absent s f es b r covers new) ∙ find-same s q r p ∙ h in
            cc)
        | inr p ↦ find-assign s q f r ∙ rw p h
      ])

-- Each entry is found behind all of them.
pub find-entry :
    (es : List Entry) (i : ℕ) (e : Entry) (b : Index) (r : Registry)
    → Covers b r
    → fresh (signatures es) b ≡ true
    → get_elem? es i ≡ some e
    → find e.0 (assign_all es r) ≡ some e
unfolding assign_all
find-entry [] i e b r covers new h = absurd (cc)
find-entry ((s, f) ∷ es) zero e b r covers new h =
    subst (λ d. find d.0 (assign_all es (assign s f r)) ≡ some d) (some-injective (s, f) e h)
      (find-assign_all es s (s, f) _ _ (rest-Covers s f es b r covers new)
        (rest_fresh s f es b r covers new)
        (find-assign s s f r ∙ rw (same_sign_refl s, first_absent s f es b r covers new) refl))
find-entry ((s, f) ∷ es) (suc i) e b r covers new h =
    find-entry es i e _ _ (rest-Covers s f es b r covers new) (rest_fresh s f es b r covers new) h

-- An absent signature is assigned at the end.
assign-absent :
    (s : FunctionSignature) (f : FunctionStructure) (r : Registry)
    → find s r ≡ none
    → assign s f r ≡ r ++ (s, f) ∷ []
unfolding find assign
assign-absent s f [] h = refl
assign-absent s f ((k, g) ∷ r) h = elim (Bool-cases (same_sign k s)) [
  | inl p ↦ absurd (let c : ◌≡◌ {A = Option Entry} (some (k, g)) none = rw p at h in cc)
  | inr p ↦ rw p (ap (λ t. (k, g) ∷ t) (assign-absent s f r (rw p at h)))
]

-- So fresh entries stand in the table in their order.
pub assign_all-append :
    (es : List Entry) (b : Index) (r : Registry)
    → Covers b r
    → fresh (signatures es) b ≡ true
    → assign_all es r ≡ r ++ es
unfolding assign_all
assign_all-append [] b r covers new = sym (append-nil r)
assign_all-append ((s, f) ∷ es) b r covers new =
    assign_all-append es _ _ (rest-Covers s f es b r covers new) (rest_fresh s f es b r covers new)
    ∙ ap (λ t. t ++ es) (assign-absent s f r (first_absent s f es b r covers new))
    ∙ append_assoc r ((s, f) ∷ []) es
