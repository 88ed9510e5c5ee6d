-- ===== src/Codegen/Operands.antt =====
-- Which operands of a binary operator src/validator.cc accepts.
use jitfusion.Common.{
  ◌≡◌, refl, sym, subst, ◌∙◌, ◌⊎◌, inl, inr, Bool, true, false, ◌&&◌, ◌||◌, not, arith, Bool-cases,
  if◌then◌else◌,
}
use jitfusion.Common.Result.{ok, err, guard-elim, if-err-elim, ok-injective}
use jitfusion.Types.{
  ValueType, string, void, ◌=ᵗ◌, =ᵗ_iff, is_integer_type, is_numeric_type, is_list_type,
  is_relational, is_logical, promoted_type, BinaryOpType,
}
use jitfusion.Validator.Operators.{
  binary_type, logical_type, relational_type, bitwise_type, add_type, arithmetic_type, is_bitwise,
  is_add, is_shift, is_division, binary_void, add_mismatch,
}
use jitfusion.Codegen.Accepts.{both_true, promoted_numeric}

abbrev pub Numeric : ValueType → ValueType → Type 0
Numeric l r = (is_numeric_type l ≡ true) × (is_numeric_type r ≡ true)

-- The operands of `+` on strings and on lists, and its result
abbrev pub Concat : ValueType → ValueType → ValueType → Type 0
Concat l r t = (((l =ᵗ string) || is_list_type l) ≡ true) × (l ≡ r) × (l ≡ t)

integer_numeric : (t : ValueType) → is_integer_type t ≡ true → is_numeric_type t ≡ true
unfolding is_integer_type is_numeric_type
integer_numeric t h = ground arith

either_true : (a b : Bool) → (a || b) ≡ true → (a ≡ true) ⊎ (b ≡ true)
either_true true b h = inl refl
either_true false b h = inr h

bitwise_operands :
    (op : BinaryOpType) (l r : ValueType) {t : ValueType}
    → bitwise_type op l r ≡ ok t
    → Numeric l r × (is_numeric_type t ≡ true)
unfolding bitwise_type
bitwise_operands op l r h = guard-elim (is_integer_type l && is_integer_type r) _ _ h λ n h.
    let (a, b) = both_true _ _ n in
    let na = integer_numeric l a in
    let nb = integer_numeric r b in
    ((na, nb), subst (λ u. is_numeric_type u ≡ true) (ok-injective h) (one_of (is_shift op) na nb))
  where
    one_of :
        (c : Bool)
        → is_numeric_type l ≡ true
        → is_numeric_type r ≡ true
        → is_numeric_type (if c then l else promoted_type l r) ≡ true
    one_of true na nb = na
    one_of false na nb = promoted_numeric l r na nb

arithmetic_operands :
    (op : BinaryOpType) (l r : ValueType) (z : Bool) {t : ValueType}
    → arithmetic_type op l r z ≡ ok t
    → Numeric l r × (is_numeric_type t ≡ true)
unfolding arithmetic_type
arithmetic_operands op l r z h = guard-elim (is_numeric_type l && is_numeric_type r) _ _ h λ n h.
    guard-elim (not (is_division op && z)) _ _ h λ _ h.
      let (na, nb) = both_true _ _ n in
      (
        (na, nb),
        subst (λ u. is_numeric_type u ≡ true) (ok-injective h) (promoted_numeric l r na nb),
      )

add_operands :
    (l r : ValueType) {t : ValueType}
    → add_type l r ≡ ok t
    → (Numeric l r × (is_numeric_type t ≡ true)) ⊎ Concat l r t
unfolding add_type
add_operands l r {t} h = elim (Bool-cases (is_numeric_type l && is_numeric_type r)) [
  | inl n ↦
      let (na, nb) = both_true _ _ n in
      let e : promoted_type l r ≡ t = ok-injective (rw n at h) in
      inl ((na, nb), subst (λ u. is_numeric_type u ≡ true) e (promoted_numeric l r na nb))
  | inr n ↦ elim (Bool-cases ((l =ᵗ string) && (r =ᵗ string))) [
    | inl s ↦
        let (a, b) = both_true _ _ s in
        let e : string ≡ t = ok-injective (rw (n, s) at h) in
        let el : l ≡ string = (=ᵗ_iff l string).0 a in
        let er : r ≡ string = (=ᵗ_iff r string).0 b in inr (rw a refl, el ∙ sym er, el ∙ e)
    | inr s ↦ elim (Bool-cases (is_list_type l && (l =ᵗ r))) [
      | inl c ↦
          let (a, b) = both_true _ _ c in
          let e : l ≡ t = ok-injective (rw (n, s, c) at h) in
          inr (or_true (l =ᵗ string) (is_list_type l) a, (=ᵗ_iff l r).0 b, e)
      | inr c ↦ let h : err (add_mismatch l r) ≡ ok t = rw (n, s, c) at h in absurd (cc)
    ]
  ]
]
  where
    or_true : (a b : Bool) → b ≡ true → (a || b) ≡ true
    or_true true b e = refl
    or_true false b e = e

module _ (op : BinaryOpType) (l r : ValueType) (z : Bool) {t : ValueType}
    (h : binary_type op l r z ≡ ok t) where
  pub logical_operands : is_logical op ≡ true → Numeric l r
  unfolding binary_type logical_type
  logical_operands p = if-err-elim ((l =ᵗ void) || (r =ᵗ void)) binary_void _ h λ _ h.
      guard-elim (is_numeric_type l && is_numeric_type r) _ _ (rw p at h) λ n _. both_true _ _ n

  pub relational_operands :
      is_logical op ≡ false
      → is_relational op ≡ true
      → Numeric l r ⊎ ((l =ᵗ string) && (r =ᵗ string)) ≡ true
  unfolding binary_type relational_type
  relational_operands p q = if-err-elim ((l =ᵗ void) || (r =ᵗ void)) binary_void _ h λ _ h.
      guard-elim ((is_numeric_type l && is_numeric_type r) || ((l =ᵗ string) && (r =ᵗ string))) _ _
        (rw (p, q) at h)
        λ n _. elim (either_true _ _ n) [ inl a ↦ inl (both_true _ _ a) | inr b ↦ inr b ]

  pub other_operands :
      is_logical op ≡ false
      → is_relational op ≡ false
      → (Numeric l r × (is_numeric_type t ≡ true)) ⊎ ((is_add op ≡ true) × Concat l r t)
  unfolding binary_type
  other_operands p q = if-err-elim ((l =ᵗ void) || (r =ᵗ void)) binary_void _ h λ _ h.
      elim (Bool-cases (is_bitwise op)) [
        | inl b ↦ inl (bitwise_operands op l r (rw (p, q, b) at h))
        | inr b ↦ elim (Bool-cases (is_add op)) [
          | inl a ↦ elim (add_operands l r (rw (p, q, b, a) at h)) [
            | inl n ↦ inl n
            | inr c ↦ inr (a, c)
          ]
          | inr a ↦ inl (arithmetic_operands op l r z (rw (p, q, b, a) at h))
        ]
      ]
