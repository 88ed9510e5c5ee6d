-- ===== src/Codegen/Accepts.antt =====
-- What src/validator.cc accepts, the code generator emits without an internal error.
use jitfusion.Common.{
  ◌≡◌, refl, sym, subst, ◌∙◌, ◌⊎◌, inl, inr, Bool, true, false, ◌&&◌, arith, Bool-cases,
  if◌then◌else◌,
}
use jitfusion.Common.Result.{Result, ok, err, ◌>>=◌, ok-injective}
use jitfusion.Types.{
  ValueType, unknown, void, number, ◌=ᵗ◌, =ᵗ_iff, is_integer_type, is_float_type, is_numeric_type,
  promoted_type,
}
use jitfusion.Validator.Operators.{if_type, if_condition, if_mismatch}
use jitfusion.Codegen.Convert.{
  keep, icmp_ne, fcmp_one, numeric_type_convert, value_type_to_llvm_type, to_bool, convert_integer,
  convert_float,
}
use jitfusion.Codegen.Operators.{visit_if}

-- The result is a value.
abbrev pub Emits {ℓ} : {E : Type 0} {A : Type ℓ} → Result E A → Type ℓ
Emits {A = A} r = (a : A) × (r ≡ ok a)

pub numeric_is :
    (t : ValueType)
    → is_numeric_type t ≡ true
    → (is_integer_type t ≡ true) ⊎ (is_float_type t ≡ true)
unfolding is_numeric_type is_integer_type is_float_type
numeric_is t h = ground arith

pub promoted_is : (l r : ValueType) → (promoted_type l r ≡ l) ⊎ (promoted_type l r ≡ r)
unfolding promoted_type
promoted_is l r = ground arith

pub Emits-ok {ℓ} : {E : Type 0} {A : Type ℓ} (a : A) → Emits {E = E} (ok a)
Emits-ok a = (a, refl)

pub Emits-if {ℓ} :
    {E : Type 0} {A : Type ℓ} (c : Bool) (x y : Result E A)
    → (c ≡ true → Emits x)
    → (c ≡ false → Emits y)
    → Emits (if c then x else y)
Emits-if true x y h k = h refl
Emits-if false x y h k = k refl

pub Emits->>= {ℓ κ} :
    {E : Type 0} {A : Type ℓ} {B : Type κ} (m : Result E A) (f : A → Result E B)
    → Emits m
    → ((a : A) → Emits (f a))
    → Emits (m >>= f)
Emits->>= m f (a, e) h = subst (λ r. Emits (r >>= f)) (sym e) (h a)

not_numeric :
    {P : Type 0} (t : ValueType)
    → is_numeric_type t ≡ true
    → is_integer_type t ≡ false
    → is_float_type t ≡ false
    → P
not_numeric t n i f = elim (numeric_is t n) [ inl p ↦ absurd (cc) | inr p ↦ absurd (cc) ]

convert_integer-Emits : (a b : ValueType) → is_numeric_type b ≡ true → Emits (convert_integer a b)
unfolding convert_integer
convert_integer-Emits a b nb =
    Emits-if (is_integer_type b) _ _ (λ _. Emits-ok _)
      (λ i. Emits-if (is_float_type b) _ _ (λ _. Emits-ok _) (not_numeric b nb i))

convert_float-Emits : (a b : ValueType) → is_numeric_type b ≡ true → Emits (convert_float a b)
unfolding convert_float
convert_float-Emits a b nb =
    Emits-if (is_integer_type b) _ _ (λ _. Emits-ok _)
      (λ i. Emits-if (is_float_type b) _ _ (λ _. Emits-ok _) (not_numeric b nb i))

pub both_true : (a b : Bool) → (a && b) ≡ true → (a ≡ true) × (b ≡ true)
both_true true true h = (refl, refl)
both_true true false h = absurd (cc)
both_true false b h = absurd (cc)

-- A numeric type converts into every numeric type.
pub convert-Emits :
    (a b : ValueType)
    → is_numeric_type a ≡ true
    → is_numeric_type b ≡ true
    → Emits (numeric_type_convert a b)
unfolding numeric_type_convert
convert-Emits a b na nb =
    Emits-if (a =ᵗ b) _ _ (λ _. Emits-ok _)
      (λ _.
        Emits-if (is_integer_type a) _ _ (λ _. convert_integer-Emits a b nb)
          (λ i.
            Emits-if (is_float_type a) _ _ (λ _. convert_float-Emits a b nb) (not_numeric a na i)))

-- Every type converts into itself.
pub convert_same-Emits : (a b : ValueType) → (a =ᵗ b) ≡ true → Emits (numeric_type_convert a b)
unfolding numeric_type_convert
convert_same-Emits a b p = rw p (Emits-ok keep)

pub to_bool-Emits : (t : ValueType) → is_numeric_type t ≡ true → Emits (to_bool t)
unfolding to_bool value_type_to_llvm_type is_numeric_type
to_bool-Emits ValueType.u8 h = (icmp_ne, refl)
to_bool-Emits ValueType.u16 h = (icmp_ne, refl)
to_bool-Emits ValueType.u32 h = (icmp_ne, refl)
to_bool-Emits ValueType.u64 h = (icmp_ne, refl)
to_bool-Emits ValueType.i8 h = (icmp_ne, refl)
to_bool-Emits ValueType.i16 h = (icmp_ne, refl)
to_bool-Emits ValueType.i32 h = (icmp_ne, refl)
to_bool-Emits ValueType.i64 h = (icmp_ne, refl)
to_bool-Emits ValueType.f32 h = (fcmp_one, refl)
to_bool-Emits ValueType.f64 h = (fcmp_one, refl)
to_bool-Emits t h = absurd (cc)

pub promoted_numeric :
    (l r : ValueType)
    → is_numeric_type l ≡ true
    → is_numeric_type r ≡ true
    → is_numeric_type (promoted_type l r) ≡ true
promoted_numeric l r nl nr = elim (promoted_is l r) [ inl p ↦ rw p nl | inr p ↦ rw p nr ]

pub known-Emits : (t : ValueType) → (t =ᵗ unknown) ≡ false → Emits (value_type_to_llvm_type t)
unfolding value_type_to_llvm_type number
known-Emits unknown k = absurd (cc)
known-Emits void k = Emits-ok _
known-Emits t k = Emits-ok _

-- The three results of an `if`: the branches convert to the type of the whole.
if_parts :
    (c a b : ValueType) {t : ValueType}
    → if_type c a b ≡ ok t
    → (is_numeric_type c ≡ true)
      × Emits (numeric_type_convert a t)
      × Emits (numeric_type_convert b t)
unfolding if_type
if_parts c a b {t} h = elim (Bool-cases (is_numeric_type c)) [
  | inr p ↦ let h : err (if_condition c) ≡ ok t = rw p at h in absurd (cc)
  | inl p ↦ elim (Bool-cases (is_numeric_type a && is_numeric_type b)) [
    | inl q ↦
        let e : promoted_type a b ≡ t = ok-injective (rw (p, q) at h) in
        let (na, nb) = both_true (is_numeric_type a) (is_numeric_type b) q in
        let n : is_numeric_type t ≡ true =
          subst (λ u. is_numeric_type u ≡ true) e (promoted_numeric a b na nb) in
        (p, convert-Emits a t na n, convert-Emits b t nb n)
    | inr q ↦ elim (Bool-cases (a =ᵗ b)) [
      | inl r ↦
          let e : a ≡ t = ok-injective (rw (p, q, r) at h) in
          let f : b ≡ t = sym ((=ᵗ_iff a b).0 r) ∙ e in
          (p, convert_same-Emits a t ((=ᵗ_iff a t).1 e), convert_same-Emits b t ((=ᵗ_iff b t).1 f))
      | inr r ↦ let h : err (if_mismatch a b) ≡ ok t = rw (p, q, r) at h in absurd (cc)
    ]
  ]
]

-- Whatever the validator accepts for an `if` with a known type, the code generator emits: the test
-- of the condition, the conversions of both branches, and the type of the phi node.
pub visit_if-Emits :
    (c a b : ValueType) {t : ValueType}
    → if_type c a b ≡ ok t
    → (t =ᵗ unknown) ≡ false
    → Emits (visit_if c a b t)
unfolding visit_if
visit_if-Emits c a b {t} h k =
    let (n, x, y) = if_parts c a b h in
    Emits->>= (value_type_to_llvm_type t) _ (known-Emits t k) λ _.
      Emits->>= (to_bool c) _ (to_bool-Emits c n) λ _.
        Emits->>= (numeric_type_convert a t) _ x
          λ _. Emits->>= (numeric_type_convert b t) _ y λ _. Emits-ok _
