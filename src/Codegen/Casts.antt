-- ===== src/Codegen/Casts.antt =====
-- What the integer conversions of `NumericTypeConvert` compute (src/codegen/codegen.cc). The cast of
-- the builder is a parameter: it truncates to a width that is not larger, and extends with zeros or
-- with the sign to one that is not smaller.
use native.Mathlib.Nat.{pow-le-pow_right}
use jitfusion.Common.{
  ℕ, ◌+◌, ◌-◌, ◌*◌, ◌^◌, ◌≤◌, ◌<◌, ◌≡◌, refl, ap, sym, ◌∙◌, inl, inr, Bool, true, false, not, ◌&&◌,
  Option, some, none, arith, ltb, if◌then◌else◌, Bool-cases, le→ltb, lt→ltb, ltb→lt, ltb→ge,
}
use jitfusion.Common.Int.{ℤ, pos, negsuc, pos_part}
use jitfusion.Common.Result.{ok}
use jitfusion.Types.{ValueType, ◌=ᵗ◌, =ᵗ_iff, is_integer_type, is_signed_type, bit_width}
use jitfusion.Codegen.Convert.{Cast, keep, int_cast, numeric_type_convert, convert_integer}

-- The number that `w` bits stand for
abbrev pub int_value : Bool → ℕ → ℕ → ℤ
int_value signed w v = if signed && not (ltb (v * 2) (2 ^ w)) then negsuc (2 ^ w - v - 1) else pos v

-- The extension of a value with its sign
abbrev pub sign_extended : ℕ → ℕ → ℕ → ℕ
sign_extended a b v = if ltb (v * 2) (2 ^ a) then v else v + 2 ^ b - 2 ^ a

-- It keeps the number.
sign_extended_value :
    (a b v : ℕ) → a ≤ b → v < 2 ^ a → int_value true b (sign_extended a b v) ≡ int_value true a v
sign_extended_value a b v h k =
    let m : 2 ^ a ≤ 2 ^ b = pow-le-pow_right {n = 2} (omega arith) h in
    elim (Bool-cases (ltb (v * 2) (2 ^ a))) [
      | inl p ↦
          let low : v * 2 < 2 ^ a = ltb→lt (v * 2) (2 ^ a) p in
          let wide : ltb (v * 2) (2 ^ b) ≡ true = lt→ltb (v * 2) (2 ^ b) (omega (arith, low, m)) in
          rw (p, wide) refl
      | inr p ↦
          let top : 2 ^ a ≤ v * 2 = ltb→ge (v * 2) (2 ^ a) p in
          let wide : ltb ((v + 2 ^ b - 2 ^ a) * 2) (2 ^ b) ≡ false =
            le→ltb ((v + 2 ^ b - 2 ^ a) * 2) (2 ^ b) (omega (arith, m, top, k)) in
          let same : 2 ^ b - (v + 2 ^ b - 2 ^ a) - 1 ≡ 2 ^ a - v - 1 = omega (arith, m, k) in
          rw (p, wide) (ap negsuc same)
    ]

abbrev pub Width : ValueType → ℕ → Type 0
Width t a = bit_width t ≡ pos a

pos-injective : {m n : ℕ} → pos m ≡ pos n → m ≡ n
pos-injective h = ap pos_part h

signs_differ :
    (from to : ValueType)
    → is_signed_type from ≡ false
    → is_signed_type to ≡ true
    → (from =ᵗ to) ≡ false
signs_differ from to e f = elim (Bool-cases (from =ᵗ to)) [
  | inl p ↦
      let c : false ≡ true = sym e ∙ ap is_signed_type ((=ᵗ_iff from to).0 p) ∙ f in absurd (cc)
  | inr p ↦ p
]

-- Between two integer types that differ, the builder's cast gets the signedness of the target.
convert_integers :
    (from to : ValueType) (b : ℕ)
    → (from =ᵗ to) ≡ false
    → is_integer_type from ≡ true
    → is_integer_type to ≡ true
    → Width to b
    → numeric_type_convert from to ≡ ok (int_cast (pos b) (is_signed_type to))
unfolding numeric_type_convert convert_integer
convert_integers from to b p i j w = rw (p, i, j, w) refl

module _ (int_cast_value : ℕ → ℕ → Bool → ℕ → ℕ) where
  -- What a conversion does with the bits of an integer of the given width
  unfoldable pub run : Cast → ℕ → ℕ → Option ℕ
  run keep a v = some v
  run (int_cast (pos b) signed) a v = some (int_cast_value a b signed v)
  run _ a v = none

  -- The conversion of the source, run on `v`, gives `w`.
  abbrev pub Converts : ValueType → ValueType → ℕ → ℕ → ℕ → Type 0
  Converts from to a v w = (c : Cast) × (numeric_type_convert from to ≡ ok c) × (run c a v ≡ some w)

  module _ (zero_extends : (a b v : ℕ) → a ≤ b → v < 2 ^ a → int_cast_value a b false v ≡ v)
      (sign_extends : (a b v : ℕ)
        → a ≤ b
        → v < 2 ^ a
        → int_cast_value a b true v ≡ sign_extended a b v)
      (from to : ValueType) (a b v : ℕ) (from_integer : is_integer_type from ≡ true)
      (to_integer : is_integer_type to ≡ true) (from_width : Width from a) (to_width : Width to b)
      (small : v < 2 ^ a) where
    -- A conversion between integer types of the same signedness, to a width that is not smaller,
    -- keeps the number.
    pub convert-same_sign :
        is_signed_type from ≡ is_signed_type to
        → a ≤ b
        → (w : ℕ) × Converts from to a v w
          × (int_value (is_signed_type to) b w ≡ int_value (is_signed_type from) a v)
    unfolding numeric_type_convert run
    convert-same_sign e h = elim (Bool-cases (from =ᵗ to)) [
      | inl p ↦
          let same : from ≡ to = (=ᵗ_iff from to).0 p in
          let widths : a ≡ b = pos-injective (sym from_width ∙ ap bit_width same ∙ to_width) in
          (v, (keep, rw p refl, refl), rw (widths, same) refl)
      | inr p ↦
          let c = int_cast (pos b) (is_signed_type to) in
          let converts = convert_integers from to b p from_integer to_integer to_width in
          elim (Bool-cases (is_signed_type to)) [
            | inl s ↦ (
              sign_extended a b v,
              (c, converts, ap some (rw s (sign_extends a b v (omega arith) small))),
              rw (e, s) (sign_extended_value a b v h small),
            )
            | inr s ↦ (
              v,
              (c, converts, ap some (rw s (zero_extends a b v (omega arith) small))),
              rw (e, s) refl,
            )
          ]
    ]

    -- A conversion of an unsigned type to a wider signed type extends the top bit of the value,
    -- so a value with that bit set becomes negative.
    pub convert-unsigned_signed :
        is_signed_type from ≡ false
        → is_signed_type to ≡ true
        → a < b
        → 2 ^ a ≤ v * 2
        → Converts from to a v (v + 2 ^ b - 2 ^ a)
          × (int_value (is_signed_type to) b (v + 2 ^ b - 2 ^ a) ≡ negsuc (2 ^ a - v - 1))
    unfolding run
    convert-unsigned_signed e f h k =
        let differ : (from =ᵗ to) ≡ false = signs_differ from to e f in
        let top : ltb (v * 2) (2 ^ a) ≡ false = le→ltb (v * 2) (2 ^ a) k in
        let extended : sign_extended a b v ≡ v + 2 ^ b - 2 ^ a = rw top refl in
        let value : int_value true a v ≡ negsuc (2 ^ a - v - 1) = rw top refl in
        (
          (
            int_cast (pos b) (is_signed_type to),
            convert_integers from to b differ from_integer to_integer to_width,
            ap some (rw f (sign_extends a b v (omega arith) small ∙ extended)),
          ),
          rw f (rw extended at (sign_extended_value a b v (omega arith) small ∙ value)),
        )
