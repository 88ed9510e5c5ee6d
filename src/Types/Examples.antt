-- ===== src/Types/Examples.antt =====
-- Types on which the theorems about src/type.cc are applied.
use jitfusion.Common.{◌≡◌, refl, true}
use jitfusion.Common.Int.{◌≤ℤ◌}
use jitfusion.Types.{
  u8, u32, u64, i16, i32, i64, f32, f64, promoted_type, is_integer_type, is_numeric_type,
  is_float_type, is_signed_type, bit_width,
}
use jitfusion.Types.Promotion.{usual, promoted_type-usual, promoted_type-wide}

promoted_type-usual_example :
    (promoted_type u32 i32 ≡ usual u32 i32) × (promoted_type i32 u32 ≡ usual u32 i32)
unfolding is_numeric_type
promoted_type-usual_example = promoted_type-usual u32 i32 refl refl

-- Four entries of the usual promotion
usual_table :
    (usual u8 i16 ≡ i16) × (usual u64 f32 ≡ f32) × (usual i64 u64 ≡ u64) × (usual f64 f32 ≡ f64)
unfolding usual is_float_type is_signed_type bit_width
usual_table = (refl, refl, refl, refl)

promoted_type-wide_example :
    (is_integer_type (promoted_type u8 i16) ≡ true)
    × (bit_width u8 ≤ℤ bit_width (promoted_type u8 i16))
    × (bit_width i16 ≤ℤ bit_width (promoted_type u8 i16))
unfolding is_integer_type
promoted_type-wide_example = promoted_type-wide u8 i16 refl refl
