-- ===== src/Types/Promotion.antt =====
-- Laws of `GetPromotedType` (src/type.cc) and of the tests on types.
use jitfusion.Common.{◌≡◌, true, not, ◌&&◌, arith, if◌then◌else◌}
use jitfusion.Common.Int.{◌≤ℤ◌, ltb_ℤ}
use jitfusion.Types.{
  ValueType, promoted_type, is_numeric_type, is_integer_type, is_float_type, is_signed_type,
  bit_width, weight,
}

-- The promotion that the source's tests on types ask for: a float wins against an integer, then the
-- wider type against the narrower, then the unsigned type against the signed.
unfoldable pub usual : ValueType → ValueType → ValueType
usual a b =
    if is_float_type a && not (is_float_type b)
    then a
    else if is_float_type b && not (is_float_type a)
    then b
    else if ltb_ℤ (bit_width b) (bit_width a)
    then a
    else if ltb_ℤ (bit_width a) (bit_width b)
    then b
    else if is_signed_type a
    then b
    else a

-- Two numeric types promote to the float of the two if only one is a float, else to the wider of
-- the two, and to the unsigned one of two integer types of one width, in either order.
pub promoted_type-usual :
    (a b : ValueType)
    → is_numeric_type a ≡ true
    → is_numeric_type b ≡ true
    → (promoted_type a b ≡ usual a b) × (promoted_type b a ≡ usual a b)
unfolding promoted_type weight usual is_numeric_type is_float_type is_signed_type bit_width
promoted_type-usual a b n m = (ground arith, ground arith)

-- Two integer types promote to an integer type that is at least as wide as both.
pub promoted_type-wide :
    (a b : ValueType)
    → is_integer_type a ≡ true
    → is_integer_type b ≡ true
    → (is_integer_type (promoted_type a b) ≡ true)
      × (bit_width a ≤ℤ bit_width (promoted_type a b))
      × (bit_width b ≤ℤ bit_width (promoted_type a b))
unfolding promoted_type weight is_integer_type bit_width
promoted_type-wide a b n m = (ground arith, ground arith, ground arith)
