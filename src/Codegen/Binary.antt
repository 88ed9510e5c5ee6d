-- ===== src/Codegen/Binary.antt =====
-- The code for a binary operator exists where src/validator.cc accepts the operator.
use jitfusion.Common.{
  ◌≡◌, refl, sym, subst, ◌∙◌, inl, inr, Bool, true, false, ◌&&◌, ◌||◌, Bool-cases, arith,
}
use jitfusion.Common.Result.{ok}
use jitfusion.Types.{
  ValueType, number, string, unknown, ◌=ᵗ◌, is_numeric_type, is_list_type, is_relational,
  is_logical, promoted_type, BinaryOpType,
}
use jitfusion.Registry
use jitfusion.Validator.Operators.{binary_type, is_add}
use jitfusion.Codegen.Convert.{numeric_type_convert, to_bool, value_type_to_llvm_type}
use jitfusion.Codegen.Operators.{
  compare_instruction, calculate_instruction, string_instruction, solve_logical, solve_numeric,
  solve_complex, is_concat, find_function, concat_sign, compare_sign, visit_binary,
}
use jitfusion.Codegen.Accepts.{
  both_true, Emits, Emits-ok, Emits->>=, convert-Emits, to_bool-Emits, known-Emits,
  promoted_numeric,
}
use jitfusion.Codegen.Operands.{
  Numeric, Concat, logical_operands, relational_operands, other_operands,
}

compare-Emits :
    (op : BinaryOpType) (t : ValueType) → is_relational op ≡ true → Emits (compare_instruction op t)
unfolding compare_instruction is_relational
compare-Emits BinaryOpType.large t p = Emits-ok _
compare-Emits BinaryOpType.large_equal t p = Emits-ok _
compare-Emits BinaryOpType.equal t p = Emits-ok _
compare-Emits BinaryOpType.less t p = Emits-ok _
compare-Emits BinaryOpType.less_equal t p = Emits-ok _
compare-Emits BinaryOpType.not_equal t p = Emits-ok _
compare-Emits op t p = absurd (cc)

string-Emits : (op : BinaryOpType) → is_relational op ≡ true → Emits (string_instruction op)
unfolding string_instruction is_relational
string-Emits BinaryOpType.large p = Emits-ok _
string-Emits BinaryOpType.large_equal p = Emits-ok _
string-Emits BinaryOpType.equal p = Emits-ok _
string-Emits BinaryOpType.less p = Emits-ok _
string-Emits BinaryOpType.less_equal p = Emits-ok _
string-Emits BinaryOpType.not_equal p = Emits-ok _
string-Emits op p = absurd (cc)

calculate-Emits :
    (op : BinaryOpType) (t : ValueType)
    → is_logical op ≡ false
    → is_relational op ≡ false
    → Emits (calculate_instruction op t)
unfolding calculate_instruction is_relational is_logical
calculate-Emits BinaryOpType.add t p q = Emits-ok _
calculate-Emits BinaryOpType.sub t p q = Emits-ok _
calculate-Emits BinaryOpType.mul t p q = Emits-ok _
calculate-Emits BinaryOpType.div t p q = Emits-ok _
calculate-Emits BinaryOpType.mod_op t p q = Emits-ok _
calculate-Emits BinaryOpType.bitwise_and t p q = Emits-ok _
calculate-Emits BinaryOpType.bitwise_or t p q = Emits-ok _
calculate-Emits BinaryOpType.bitwise_xor t p q = Emits-ok _
calculate-Emits BinaryOpType.bitwise_shift_left t p q = Emits-ok _
calculate-Emits BinaryOpType.bitwise_shift_right t p q = Emits-ok _
calculate-Emits op t p q = absurd (cc)

relational_concat : (op : BinaryOpType) → is_relational op ≡ true → is_concat op ≡ false
unfolding is_relational
relational_concat BinaryOpType.add p = absurd (cc)
relational_concat op p = refl

pub complex_numeric :
    (l : ValueType) → ((l =ᵗ string) || is_list_type l) ≡ true → is_numeric_type l ≡ false
unfolding is_numeric_type is_list_type number
complex_numeric l h = ground arith

string_numeric :
    (l r : ValueType)
    → ((l =ᵗ string) && (r =ᵗ string)) ≡ true
    → (is_numeric_type l && is_numeric_type r) ≡ false
string_numeric l r s =
    let (a, b) = both_true (l =ᵗ string) (r =ᵗ string) s in
    let n : is_numeric_type l ≡ false = complex_numeric l (rw a refl) in rw n refl

solve_numeric-Emits :
    (op : BinaryOpType) (l r t : ValueType)
    → is_logical op ≡ false
    → Numeric l r
    → (is_relational op ≡ false → is_numeric_type t ≡ true)
    → Emits (solve_numeric op l r t)
unfolding solve_numeric
solve_numeric-Emits op l r t g (nl, nr) n = elim (Bool-cases (is_relational op)) [
  | inl p ↦
      let np = promoted_numeric l r nl nr in
      rw p (
        Emits->>= (numeric_type_convert l (promoted_type l r)) _ (convert-Emits l _ nl np) λ _.
          Emits->>= (numeric_type_convert r (promoted_type l r)) _ (convert-Emits r _ nr np) λ _.
            Emits->>= (compare_instruction op (promoted_type l r)) _ (compare-Emits op _ p)
              λ _. Emits-ok _)
  | inr p ↦ rw p (
      Emits->>= (numeric_type_convert l t) _ (convert-Emits l t nl (n p)) λ _.
        Emits->>= (numeric_type_convert r t) _ (convert-Emits r t nr (n p))
          λ _. Emits->>= (calculate_instruction op t) _ (calculate-Emits op t g p) λ _. Emits-ok _)
]

-- The concatenation of each type is registered with a known return type.
abbrev pub HasConcat : Registry.Registry → Type 0
HasConcat reg =
    (t : ValueType)
    → ((t =ᵗ string) || is_list_type t) ≡ true
    → (k : Registry.FunctionSignature) × (f : Registry.FunctionStructure) × (find_function
          (concat_sign t t t) reg
        ≡ ok (k, f))
      × ((k.ret_type =ᵗ unknown) ≡ false)

module _ (reg : Registry.Registry) where
  concat-Emits :
      (op : BinaryOpType) (l r t : ValueType)
      → HasConcat reg
      → is_concat op ≡ true
      → Concat l r t
      → Emits (solve_complex reg op l r t)
  unfolding solve_complex
  concat-Emits op l r t has p (c, e, e') =
      let (k, f, found, known) = has l c in
      let at : find_function (concat_sign l r t) reg ≡ ok (k, f) =
        subst (λ x. find_function (concat_sign l x t) reg ≡ ok (k, f)) e
          (subst (λ x. find_function (concat_sign l l x) reg ≡ ok (k, f)) e' found) in
      rw (p, at)
        (Emits->>= (value_type_to_llvm_type k.ret_type) _ (known-Emits k.ret_type known)
          λ _. Emits-ok _)

  string_compare-Emits :
      (op : BinaryOpType) (l r t : ValueType)
      → Emits (find_function compare_sign reg)
      → is_relational op ≡ true
      → ((l =ᵗ string) && (r =ᵗ string)) ≡ true
      → Emits (solve_complex reg op l r t)
  unfolding solve_complex
  string_compare-Emits op l r t has p s =
      rw (relational_concat op p, s)
        (Emits->>= (find_function compare_sign reg) _ has
          λ _. Emits->>= (string_instruction op) _ (string-Emits op p) λ _. Emits-ok _)

  -- If the registry holds the comparison of strings, and the concatenation of strings and of each
  -- type of list with a known return type, then the code generator emits code, and reaches none of
  -- its internal errors, for every binary operator on operand types that the validator accepts.
  pub visit_binary-Emits :
      (op : BinaryOpType) (l r : ValueType) (z : Bool) {t : ValueType}
      → Emits (find_function compare_sign reg)
      → HasConcat reg
      → binary_type op l r z ≡ ok t
      → Emits (visit_binary reg op l r t)
  unfolding visit_binary solve_logical
  visit_binary-Emits op l r z {t} compare has h = elim (Bool-cases (is_logical op)) [
    | inl p ↦
        let (nl, nr) = logical_operands op l r z h p in
        rw p (
          Emits->>= (to_bool l) _ (to_bool-Emits l nl)
            λ _. Emits->>= (to_bool r) _ (to_bool-Emits r nr) λ _. Emits-ok _)
    | inr p ↦ elim (Bool-cases (is_relational op)) [
      | inl q ↦ elim (relational_operands op l r z h p q) [
        | inl n ↦
            rw (p, n.0, n.1)
              (solve_numeric-Emits op l r t p n
                (λ e. absurd (let c : true ≡ false = sym q ∙ e in cc)))
        | inr s ↦ rw (p, string_numeric l r s) (string_compare-Emits op l r t compare q s)
      ]
      | inr q ↦ elim (other_operands op l r z h p q) [
        | inl (n, nt) ↦ rw (p, n.0, n.1) (solve_numeric-Emits op l r t p n (λ _. nt))
        | inr (a, c) ↦
            rw (p, complex_numeric l c.0) (concat-Emits op l r t has (is_add-is_concat op a) c)
      ]
    ]
  ]
    where
      is_add-is_concat : (op : BinaryOpType) → is_add op ≡ true → is_concat op ≡ true
      is_add-is_concat BinaryOpType.add a = refl
      is_add-is_concat op a = absurd (cc)
