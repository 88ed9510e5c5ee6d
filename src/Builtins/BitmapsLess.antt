-- ===== src/Builtins/BitmapsLess.antt =====
-- src/function/list_comparison.cc: the bitmaps of the other comparisons, as they are registered.
use jitfusion.Common.{List, [], ◌∷◌}
use jitfusion.Types.{
  u8, i8, u16, i16, u32, i32, u64, i64, f32, f64, u8_list, i8_list, u16_list, i16_list, u32_list,
  i32_list, u64_list, i64_list, f32_list, f64_list,
}
use jitfusion.Builtins.Calls.{Call, read_only_ctx, commutative_ctx}

-- `InitGenLessBitmapFunc`
abbrev pub gen_less_bitmap_func : List Call
gen_less_bitmap_func =
    read_only_ctx "GenLessBitmap" (u8_list ∷ u8 ∷ []) u8_list
      "GenBitmap<U8ListStruct, BinaryOPType::kLess>"
    ∷ read_only_ctx "GenLessBitmap" (u16_list ∷ u16 ∷ []) u8_list
        "GenBitmap<U16ListStruct, BinaryOPType::kLess>"
    ∷ read_only_ctx "GenLessBitmap" (u32_list ∷ u32 ∷ []) u8_list
        "GenBitmap<U32ListStruct, BinaryOPType::kLess>"
    ∷ read_only_ctx "GenLessBitmap" (u64_list ∷ u64 ∷ []) u8_list
        "GenBitmap<U64ListStruct, BinaryOPType::kLess>"
    ∷ read_only_ctx "GenLessBitmap" (i8_list ∷ i8 ∷ []) u8_list
        "GenBitmap<I8ListStruct, BinaryOPType::kLess>"
    ∷ read_only_ctx "GenLessBitmap" (i16_list ∷ i16 ∷ []) u8_list
        "GenBitmap<I16ListStruct, BinaryOPType::kLess>"
    ∷ read_only_ctx "GenLessBitmap" (i32_list ∷ i32 ∷ []) u8_list
        "GenBitmap<I32ListStruct, BinaryOPType::kLess>"
    ∷ read_only_ctx "GenLessBitmap" (i64_list ∷ i64 ∷ []) u8_list
        "GenBitmap<I64ListStruct, BinaryOPType::kLess>"
    ∷ read_only_ctx "GenLessBitmap" (f32_list ∷ f32 ∷ []) u8_list
        "GenBitmap<F32ListStruct, BinaryOPType::kLess>"
    ∷ read_only_ctx "GenLessBitmap" (f64_list ∷ f64 ∷ []) u8_list
        "GenBitmap<F64ListStruct, BinaryOPType::kLess>"
    ∷ []

-- `InitGenLessBitmapListFunc`
abbrev pub gen_less_bitmap_list_func : List Call
gen_less_bitmap_list_func =
    read_only_ctx "GenLessBitmap" (u8_list ∷ u8_list ∷ []) u8_list
      "GenBitmapList<U8ListStruct, BinaryOPType::kLess>"
    ∷ read_only_ctx "GenLessBitmap" (u16_list ∷ u16_list ∷ []) u8_list
        "GenBitmapList<U16ListStruct, BinaryOPType::kLess>"
    ∷ read_only_ctx "GenLessBitmap" (u32_list ∷ u32_list ∷ []) u8_list
        "GenBitmapList<U32ListStruct, BinaryOPType::kLess>"
    ∷ read_only_ctx "GenLessBitmap" (u64_list ∷ u64_list ∷ []) u8_list
        "GenBitmapList<U64ListStruct, BinaryOPType::kLess>"
    ∷ read_only_ctx "GenLessBitmap" (i8_list ∷ i8_list ∷ []) u8_list
        "GenBitmapList<I8ListStruct, BinaryOPType::kLess>"
    ∷ read_only_ctx "GenLessBitmap" (i16_list ∷ i16_list ∷ []) u8_list
        "GenBitmapList<I16ListStruct, BinaryOPType::kLess>"
    ∷ read_only_ctx "GenLessBitmap" (i32_list ∷ i32_list ∷ []) u8_list
        "GenBitmapList<I32ListStruct, BinaryOPType::kLess>"
    ∷ read_only_ctx "GenLessBitmap" (i64_list ∷ i64_list ∷ []) u8_list
        "GenBitmapList<I64ListStruct, BinaryOPType::kLess>"
    ∷ read_only_ctx "GenLessBitmap" (f32_list ∷ f32_list ∷ []) u8_list
        "GenBitmapList<F32ListStruct, BinaryOPType::kLess>"
    ∷ read_only_ctx "GenLessBitmap" (f64_list ∷ f64_list ∷ []) u8_list
        "GenBitmapList<F64ListStruct, BinaryOPType::kLess>"
    ∷ []

-- `InitGenLessEqualBitmapFunc`
abbrev pub gen_less_equal_bitmap_func : List Call
gen_less_equal_bitmap_func =
    read_only_ctx "GenLessEqualBitmap" (u8_list ∷ u8 ∷ []) u8_list
      "GenBitmap<U8ListStruct, BinaryOPType::kLessEqual>"
    ∷ read_only_ctx "GenLessEqualBitmap" (u16_list ∷ u16 ∷ []) u8_list
        "GenBitmap<U16ListStruct, BinaryOPType::kLessEqual>"
    ∷ read_only_ctx "GenLessEqualBitmap" (u32_list ∷ u32 ∷ []) u8_list
        "GenBitmap<U32ListStruct, BinaryOPType::kLessEqual>"
    ∷ read_only_ctx "GenLessEqualBitmap" (u64_list ∷ u64 ∷ []) u8_list
        "GenBitmap<U64ListStruct, BinaryOPType::kLessEqual>"
    ∷ read_only_ctx "GenLessEqualBitmap" (i8_list ∷ i8 ∷ []) u8_list
        "GenBitmap<I8ListStruct, BinaryOPType::kLessEqual>"
    ∷ read_only_ctx "GenLessEqualBitmap" (i16_list ∷ i16 ∷ []) u8_list
        "GenBitmap<I16ListStruct, BinaryOPType::kLessEqual>"
    ∷ read_only_ctx "GenLessEqualBitmap" (i32_list ∷ i32 ∷ []) u8_list
        "GenBitmap<I32ListStruct, BinaryOPType::kLessEqual>"
    ∷ read_only_ctx "GenLessEqualBitmap" (i64_list ∷ i64 ∷ []) u8_list
        "GenBitmap<I64ListStruct, BinaryOPType::kLessEqual>"
    ∷ read_only_ctx "GenLessEqualBitmap" (f32_list ∷ f32 ∷ []) u8_list
        "GenBitmap<F32ListStruct, BinaryOPType::kLessEqual>"
    ∷ read_only_ctx "GenLessEqualBitmap" (f64_list ∷ f64 ∷ []) u8_list
        "GenBitmap<F64ListStruct, BinaryOPType::kLessEqual>"
    ∷ []

-- `InitGenLessEqualBitmapListFunc`
abbrev pub gen_less_equal_bitmap_list_func : List Call
gen_less_equal_bitmap_list_func =
    read_only_ctx "GenLessEqualBitmap" (u8_list ∷ u8_list ∷ []) u8_list
      "GenBitmapList<U8ListStruct, BinaryOPType::kLessEqual>"
    ∷ read_only_ctx "GenLessEqualBitmap" (u16_list ∷ u16_list ∷ []) u8_list
        "GenBitmapList<U16ListStruct, BinaryOPType::kLessEqual>"
    ∷ read_only_ctx "GenLessEqualBitmap" (u32_list ∷ u32_list ∷ []) u8_list
        "GenBitmapList<U32ListStruct, BinaryOPType::kLessEqual>"
    ∷ read_only_ctx "GenLessEqualBitmap" (u64_list ∷ u64_list ∷ []) u8_list
        "GenBitmapList<U64ListStruct, BinaryOPType::kLessEqual>"
    ∷ read_only_ctx "GenLessEqualBitmap" (i8_list ∷ i8_list ∷ []) u8_list
        "GenBitmapList<I8ListStruct, BinaryOPType::kLessEqual>"
    ∷ read_only_ctx "GenLessEqualBitmap" (i16_list ∷ i16_list ∷ []) u8_list
        "GenBitmapList<I16ListStruct, BinaryOPType::kLessEqual>"
    ∷ read_only_ctx "GenLessEqualBitmap" (i32_list ∷ i32_list ∷ []) u8_list
        "GenBitmapList<I32ListStruct, BinaryOPType::kLessEqual>"
    ∷ read_only_ctx "GenLessEqualBitmap" (i64_list ∷ i64_list ∷ []) u8_list
        "GenBitmapList<I64ListStruct, BinaryOPType::kLessEqual>"
    ∷ read_only_ctx "GenLessEqualBitmap" (f32_list ∷ f32_list ∷ []) u8_list
        "GenBitmapList<F32ListStruct, BinaryOPType::kLessEqual>"
    ∷ read_only_ctx "GenLessEqualBitmap" (f64_list ∷ f64_list ∷ []) u8_list
        "GenBitmapList<F64ListStruct, BinaryOPType::kLessEqual>"
    ∷ []

-- `InitGenNotEqualBitmapFunc`
abbrev pub gen_not_equal_bitmap_func : List Call
gen_not_equal_bitmap_func =
    read_only_ctx "GenNotEqualBitmap" (u8_list ∷ u8 ∷ []) u8_list
      "GenBitmap<U8ListStruct, BinaryOPType::kNotEqual>"
    ∷ read_only_ctx "GenNotEqualBitmap" (u16_list ∷ u16 ∷ []) u8_list
        "GenBitmap<U16ListStruct, BinaryOPType::kNotEqual>"
    ∷ read_only_ctx "GenNotEqualBitmap" (u32_list ∷ u32 ∷ []) u8_list
        "GenBitmap<U32ListStruct, BinaryOPType::kNotEqual>"
    ∷ read_only_ctx "GenNotEqualBitmap" (u64_list ∷ u64 ∷ []) u8_list
        "GenBitmap<U64ListStruct, BinaryOPType::kNotEqual>"
    ∷ read_only_ctx "GenNotEqualBitmap" (i8_list ∷ i8 ∷ []) u8_list
        "GenBitmap<I8ListStruct, BinaryOPType::kNotEqual>"
    ∷ read_only_ctx "GenNotEqualBitmap" (i16_list ∷ i16 ∷ []) u8_list
        "GenBitmap<I16ListStruct, BinaryOPType::kNotEqual>"
    ∷ read_only_ctx "GenNotEqualBitmap" (i32_list ∷ i32 ∷ []) u8_list
        "GenBitmap<I32ListStruct, BinaryOPType::kNotEqual>"
    ∷ read_only_ctx "GenNotEqualBitmap" (i64_list ∷ i64 ∷ []) u8_list
        "GenBitmap<I64ListStruct, BinaryOPType::kNotEqual>"
    ∷ read_only_ctx "GenNotEqualBitmap" (f32_list ∷ f32 ∷ []) u8_list
        "GenBitmap<F32ListStruct, BinaryOPType::kNotEqual>"
    ∷ read_only_ctx "GenNotEqualBitmap" (f64_list ∷ f64 ∷ []) u8_list
        "GenBitmap<F64ListStruct, BinaryOPType::kNotEqual>"
    ∷ []

-- `InitGenNotEqualBitmapListFunc`
abbrev pub gen_not_equal_bitmap_list_func : List Call
gen_not_equal_bitmap_list_func =
    commutative_ctx "GenNotEqualBitmap" (u8_list ∷ u8_list ∷ []) u8_list
      "GenBitmapList<U8ListStruct, BinaryOPType::kNotEqual>"
    ∷ commutative_ctx "GenNotEqualBitmap" (u16_list ∷ u16_list ∷ []) u8_list
        "GenBitmapList<U16ListStruct, BinaryOPType::kNotEqual>"
    ∷ commutative_ctx "GenNotEqualBitmap" (u32_list ∷ u32_list ∷ []) u8_list
        "GenBitmapList<U32ListStruct, BinaryOPType::kNotEqual>"
    ∷ commutative_ctx "GenNotEqualBitmap" (u64_list ∷ u64_list ∷ []) u8_list
        "GenBitmapList<U64ListStruct, BinaryOPType::kNotEqual>"
    ∷ commutative_ctx "GenNotEqualBitmap" (i8_list ∷ i8_list ∷ []) u8_list
        "GenBitmapList<I8ListStruct, BinaryOPType::kNotEqual>"
    ∷ commutative_ctx "GenNotEqualBitmap" (i16_list ∷ i16_list ∷ []) u8_list
        "GenBitmapList<I16ListStruct, BinaryOPType::kNotEqual>"
    ∷ commutative_ctx "GenNotEqualBitmap" (i32_list ∷ i32_list ∷ []) u8_list
        "GenBitmapList<I32ListStruct, BinaryOPType::kNotEqual>"
    ∷ commutative_ctx "GenNotEqualBitmap" (i64_list ∷ i64_list ∷ []) u8_list
        "GenBitmapList<I64ListStruct, BinaryOPType::kNotEqual>"
    ∷ commutative_ctx "GenNotEqualBitmap" (f32_list ∷ f32_list ∷ []) u8_list
        "GenBitmapList<F32ListStruct, BinaryOPType::kNotEqual>"
    ∷ commutative_ctx "GenNotEqualBitmap" (f64_list ∷ f64_list ∷ []) u8_list
        "GenBitmapList<F64ListStruct, BinaryOPType::kNotEqual>"
    ∷ []
