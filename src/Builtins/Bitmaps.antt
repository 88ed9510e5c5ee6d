-- ===== src/Builtins/Bitmaps.antt =====
-- src/function/list_comparison.cc: the bitmaps of comparisons, as they are registered.
use jitfusion.Common.{List, [], ◌∷◌}
use jitfusion.Types.{
  u8, i8, u16, i16, u32, i32, u64, i64, f32, f64, u8_list, i8_list, u16_list, i16_list, u32_list,
  i32_list, u64_list, i64_list, f32_list, f64_list,
}
use jitfusion.Builtins.Calls.{Call, read_only_ctx, commutative_ctx}

-- `InitGenLargeBitmapFunc`
abbrev pub gen_large_bitmap_func : List Call
gen_large_bitmap_func =
    read_only_ctx "GenLargeBitmap" (u8_list ∷ u8 ∷ []) u8_list
      "GenBitmap<U8ListStruct, BinaryOPType::kLarge>"
    ∷ read_only_ctx "GenLargeBitmap" (u16_list ∷ u16 ∷ []) u8_list
        "GenBitmap<U16ListStruct, BinaryOPType::kLarge>"
    ∷ read_only_ctx "GenLargeBitmap" (u32_list ∷ u32 ∷ []) u8_list
        "GenBitmap<U32ListStruct, BinaryOPType::kLarge>"
    ∷ read_only_ctx "GenLargeBitmap" (u64_list ∷ u64 ∷ []) u8_list
        "GenBitmap<U64ListStruct, BinaryOPType::kLarge>"
    ∷ read_only_ctx "GenLargeBitmap" (i8_list ∷ i8 ∷ []) u8_list
        "GenBitmap<I8ListStruct, BinaryOPType::kLarge>"
    ∷ read_only_ctx "GenLargeBitmap" (i16_list ∷ i16 ∷ []) u8_list
        "GenBitmap<I16ListStruct, BinaryOPType::kLarge>"
    ∷ read_only_ctx "GenLargeBitmap" (i32_list ∷ i32 ∷ []) u8_list
        "GenBitmap<I32ListStruct, BinaryOPType::kLarge>"
    ∷ read_only_ctx "GenLargeBitmap" (i64_list ∷ i64 ∷ []) u8_list
        "GenBitmap<I64ListStruct, BinaryOPType::kLarge>"
    ∷ read_only_ctx "GenLargeBitmap" (f32_list ∷ f32 ∷ []) u8_list
        "GenBitmap<F32ListStruct, BinaryOPType::kLarge>"
    ∷ read_only_ctx "GenLargeBitmap" (f64_list ∷ f64 ∷ []) u8_list
        "GenBitmap<F64ListStruct, BinaryOPType::kLarge>"
    ∷ []

-- `InitGenLargeBitmapListFunc`
abbrev pub gen_large_bitmap_list_func : List Call
gen_large_bitmap_list_func =
    read_only_ctx "GenLargeBitmap" (u8_list ∷ u8_list ∷ []) u8_list
      "GenBitmapList<U8ListStruct, BinaryOPType::kLarge>"
    ∷ read_only_ctx "GenLargeBitmap" (u16_list ∷ u16_list ∷ []) u8_list
        "GenBitmapList<U16ListStruct, BinaryOPType::kLarge>"
    ∷ read_only_ctx "GenLargeBitmap" (u32_list ∷ u32_list ∷ []) u8_list
        "GenBitmapList<U32ListStruct, BinaryOPType::kLarge>"
    ∷ read_only_ctx "GenLargeBitmap" (u64_list ∷ u64_list ∷ []) u8_list
        "GenBitmapList<U64ListStruct, BinaryOPType::kLarge>"
    ∷ read_only_ctx "GenLargeBitmap" (i8_list ∷ i8_list ∷ []) u8_list
        "GenBitmapList<I8ListStruct, BinaryOPType::kLarge>"
    ∷ read_only_ctx "GenLargeBitmap" (i16_list ∷ i16_list ∷ []) u8_list
        "GenBitmapList<I16ListStruct, BinaryOPType::kLarge>"
    ∷ read_only_ctx "GenLargeBitmap" (i32_list ∷ i32_list ∷ []) u8_list
        "GenBitmapList<I32ListStruct, BinaryOPType::kLarge>"
    ∷ read_only_ctx "GenLargeBitmap" (i64_list ∷ i64_list ∷ []) u8_list
        "GenBitmapList<I64ListStruct, BinaryOPType::kLarge>"
    ∷ read_only_ctx "GenLargeBitmap" (f32_list ∷ f32_list ∷ []) u8_list
        "GenBitmapList<F32ListStruct, BinaryOPType::kLarge>"
    ∷ read_only_ctx "GenLargeBitmap" (f64_list ∷ f64_list ∷ []) u8_list
        "GenBitmapList<F64ListStruct, BinaryOPType::kLarge>"
    ∷ []

-- `InitGenLargeEqualBitmapFunc`
abbrev pub gen_large_equal_bitmap_func : List Call
gen_large_equal_bitmap_func =
    read_only_ctx "GenLargeEqualBitmap" (u8_list ∷ u8 ∷ []) u8_list
      "GenBitmap<U8ListStruct, BinaryOPType::kLargeEqual>"
    ∷ read_only_ctx "GenLargeEqualBitmap" (u16_list ∷ u16 ∷ []) u8_list
        "GenBitmap<U16ListStruct, BinaryOPType::kLargeEqual>"
    ∷ read_only_ctx "GenLargeEqualBitmap" (u32_list ∷ u32 ∷ []) u8_list
        "GenBitmap<U32ListStruct, BinaryOPType::kLargeEqual>"
    ∷ read_only_ctx "GenLargeEqualBitmap" (u64_list ∷ u64 ∷ []) u8_list
        "GenBitmap<U64ListStruct, BinaryOPType::kLargeEqual>"
    ∷ read_only_ctx "GenLargeEqualBitmap" (i8_list ∷ i8 ∷ []) u8_list
        "GenBitmap<I8ListStruct, BinaryOPType::kLargeEqual>"
    ∷ read_only_ctx "GenLargeEqualBitmap" (i16_list ∷ i16 ∷ []) u8_list
        "GenBitmap<I16ListStruct, BinaryOPType::kLargeEqual>"
    ∷ read_only_ctx "GenLargeEqualBitmap" (i32_list ∷ i32 ∷ []) u8_list
        "GenBitmap<I32ListStruct, BinaryOPType::kLargeEqual>"
    ∷ read_only_ctx "GenLargeEqualBitmap" (i64_list ∷ i64 ∷ []) u8_list
        "GenBitmap<I64ListStruct, BinaryOPType::kLargeEqual>"
    ∷ read_only_ctx "GenLargeEqualBitmap" (f32_list ∷ f32 ∷ []) u8_list
        "GenBitmap<F32ListStruct, BinaryOPType::kLargeEqual>"
    ∷ read_only_ctx "GenLargeEqualBitmap" (f64_list ∷ f64 ∷ []) u8_list
        "GenBitmap<F64ListStruct, BinaryOPType::kLargeEqual>"
    ∷ []

-- `InitGenLargeEqualBitmapListFunc`
abbrev pub gen_large_equal_bitmap_list_func : List Call
gen_large_equal_bitmap_list_func =
    read_only_ctx "GenLargeEqualBitmap" (u8_list ∷ u8_list ∷ []) u8_list
      "GenBitmapList<U8ListStruct, BinaryOPType::kLargeEqual>"
    ∷ read_only_ctx "GenLargeEqualBitmap" (u16_list ∷ u16_list ∷ []) u8_list
        "GenBitmapList<U16ListStruct, BinaryOPType::kLargeEqual>"
    ∷ read_only_ctx "GenLargeEqualBitmap" (u32_list ∷ u32_list ∷ []) u8_list
        "GenBitmapList<U32ListStruct, BinaryOPType::kLargeEqual>"
    ∷ read_only_ctx "GenLargeEqualBitmap" (u64_list ∷ u64_list ∷ []) u8_list
        "GenBitmapList<U64ListStruct, BinaryOPType::kLargeEqual>"
    ∷ read_only_ctx "GenLargeEqualBitmap" (i8_list ∷ i8_list ∷ []) u8_list
        "GenBitmapList<I8ListStruct, BinaryOPType::kLargeEqual>"
    ∷ read_only_ctx "GenLargeEqualBitmap" (i16_list ∷ i16_list ∷ []) u8_list
        "GenBitmapList<I16ListStruct, BinaryOPType::kLargeEqual>"
    ∷ read_only_ctx "GenLargeEqualBitmap" (i32_list ∷ i32_list ∷ []) u8_list
        "GenBitmapList<I32ListStruct, BinaryOPType::kLargeEqual>"
    ∷ read_only_ctx "GenLargeEqualBitmap" (i64_list ∷ i64_list ∷ []) u8_list
        "GenBitmapList<I64ListStruct, BinaryOPType::kLargeEqual>"
    ∷ read_only_ctx "GenLargeEqualBitmap" (f32_list ∷ f32_list ∷ []) u8_list
        "GenBitmapList<F32ListStruct, BinaryOPType::kLargeEqual>"
    ∷ read_only_ctx "GenLargeEqualBitmap" (f64_list ∷ f64_list ∷ []) u8_list
        "GenBitmapList<F64ListStruct, BinaryOPType::kLargeEqual>"
    ∷ []

-- `InitGenEqualBitmapFunc`
abbrev pub gen_equal_bitmap_func : List Call
gen_equal_bitmap_func =
    read_only_ctx "GenEqualBitmap" (u8_list ∷ u8 ∷ []) u8_list
      "GenBitmap<U8ListStruct, BinaryOPType::kEqual>"
    ∷ read_only_ctx "GenEqualBitmap" (u16_list ∷ u16 ∷ []) u8_list
        "GenBitmap<U16ListStruct, BinaryOPType::kEqual>"
    ∷ read_only_ctx "GenEqualBitmap" (u32_list ∷ u32 ∷ []) u8_list
        "GenBitmap<U32ListStruct, BinaryOPType::kEqual>"
    ∷ read_only_ctx "GenEqualBitmap" (u64_list ∷ u64 ∷ []) u8_list
        "GenBitmap<U64ListStruct, BinaryOPType::kEqual>"
    ∷ read_only_ctx "GenEqualBitmap" (i8_list ∷ i8 ∷ []) u8_list
        "GenBitmap<I8ListStruct, BinaryOPType::kEqual>"
    ∷ read_only_ctx "GenEqualBitmap" (i16_list ∷ i16 ∷ []) u8_list
        "GenBitmap<I16ListStruct, BinaryOPType::kEqual>"
    ∷ read_only_ctx "GenEqualBitmap" (i32_list ∷ i32 ∷ []) u8_list
        "GenBitmap<I32ListStruct, BinaryOPType::kEqual>"
    ∷ read_only_ctx "GenEqualBitmap" (i64_list ∷ i64 ∷ []) u8_list
        "GenBitmap<I64ListStruct, BinaryOPType::kEqual>"
    ∷ read_only_ctx "GenEqualBitmap" (f32_list ∷ f32 ∷ []) u8_list
        "GenBitmap<F32ListStruct, BinaryOPType::kEqual>"
    ∷ read_only_ctx "GenEqualBitmap" (f64_list ∷ f64 ∷ []) u8_list
        "GenBitmap<F64ListStruct, BinaryOPType::kEqual>"
    ∷ []

-- `InitGenEqualBitmapListFunc`
abbrev pub gen_equal_bitmap_list_func : List Call
gen_equal_bitmap_list_func =
    commutative_ctx "GenEqualBitmap" (u8_list ∷ u8_list ∷ []) u8_list
      "GenBitmapList<U8ListStruct, BinaryOPType::kEqual>"
    ∷ commutative_ctx "GenEqualBitmap" (u16_list ∷ u16_list ∷ []) u8_list
        "GenBitmapList<U16ListStruct, BinaryOPType::kEqual>"
    ∷ commutative_ctx "GenEqualBitmap" (u32_list ∷ u32_list ∷ []) u8_list
        "GenBitmapList<U32ListStruct, BinaryOPType::kEqual>"
    ∷ commutative_ctx "GenEqualBitmap" (u64_list ∷ u64_list ∷ []) u8_list
        "GenBitmapList<U64ListStruct, BinaryOPType::kEqual>"
    ∷ commutative_ctx "GenEqualBitmap" (i8_list ∷ i8_list ∷ []) u8_list
        "GenBitmapList<I8ListStruct, BinaryOPType::kEqual>"
    ∷ commutative_ctx "GenEqualBitmap" (i16_list ∷ i16_list ∷ []) u8_list
        "GenBitmapList<I16ListStruct, BinaryOPType::kEqual>"
    ∷ commutative_ctx "GenEqualBitmap" (i32_list ∷ i32_list ∷ []) u8_list
        "GenBitmapList<I32ListStruct, BinaryOPType::kEqual>"
    ∷ commutative_ctx "GenEqualBitmap" (i64_list ∷ i64_list ∷ []) u8_list
        "GenBitmapList<I64ListStruct, BinaryOPType::kEqual>"
    ∷ commutative_ctx "GenEqualBitmap" (f32_list ∷ f32_list ∷ []) u8_list
        "GenBitmapList<F32ListStruct, BinaryOPType::kEqual>"
    ∷ commutative_ctx "GenEqualBitmap" (f64_list ∷ f64_list ∷ []) u8_list
        "GenBitmapList<F64ListStruct, BinaryOPType::kEqual>"
    ∷ []
