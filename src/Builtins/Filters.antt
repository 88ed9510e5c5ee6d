-- ===== src/Builtins/Filters.antt =====
-- src/function/list_comparison.cc: the filters by a bitmap, as they are registered.
use jitfusion.Common.{List, [], ◌∷◌}
use jitfusion.Types.{
  u32, u8_list, i8_list, u16_list, i16_list, u32_list, i32_list, u64_list, i64_list, f32_list,
  f64_list,
}
use jitfusion.Builtins.Calls.{Call, intrinic, read_only_ctx}

-- `InitFilterByBitmapFunc`
abbrev pub filter_by_bitmap_func : List Call
filter_by_bitmap_func =
    read_only_ctx "FilterByBitmap" (u8_list ∷ u8_list ∷ u32 ∷ []) u8_list
      "FilterByBitmap<U8ListStruct>"
    ∷ read_only_ctx "FilterByBitmap" (u16_list ∷ u8_list ∷ u32 ∷ []) u16_list
        "FilterByBitmap<U16ListStruct>"
    ∷ read_only_ctx "FilterByBitmap" (u32_list ∷ u8_list ∷ u32 ∷ []) u32_list
        "FilterByBitmap<U32ListStruct>"
    ∷ read_only_ctx "FilterByBitmap" (u64_list ∷ u8_list ∷ u32 ∷ []) u64_list
        "FilterByBitmap<U64ListStruct>"
    ∷ read_only_ctx "FilterByBitmap" (i8_list ∷ u8_list ∷ u32 ∷ []) i8_list
        "FilterByBitmap<I8ListStruct>"
    ∷ read_only_ctx "FilterByBitmap" (i16_list ∷ u8_list ∷ u32 ∷ []) i16_list
        "FilterByBitmap<I16ListStruct>"
    ∷ read_only_ctx "FilterByBitmap" (i32_list ∷ u8_list ∷ u32 ∷ []) i32_list
        "FilterByBitmap<I32ListStruct>"
    ∷ read_only_ctx "FilterByBitmap" (i64_list ∷ u8_list ∷ u32 ∷ []) i64_list
        "FilterByBitmap<I64ListStruct>"
    ∷ read_only_ctx "FilterByBitmap" (f32_list ∷ u8_list ∷ u32 ∷ []) f32_list
        "FilterByBitmap<F32ListStruct>"
    ∷ read_only_ctx "FilterByBitmap" (f64_list ∷ u8_list ∷ u32 ∷ []) f64_list
        "FilterByBitmap<F64ListStruct>"
    ∷ []

-- `InitFilterByBitmapSugarFunc`
abbrev pub filter_by_bitmap_sugar_func : List Call
filter_by_bitmap_sugar_func =
    intrinic "FilterByBitmap" (u8_list ∷ u8_list ∷ []) u8_list "EmitFilterByBitmapSugar"
    ∷ intrinic "FilterByBitmap" (u16_list ∷ u8_list ∷ []) u16_list "EmitFilterByBitmapSugar"
    ∷ intrinic "FilterByBitmap" (u32_list ∷ u8_list ∷ []) u32_list "EmitFilterByBitmapSugar"
    ∷ intrinic "FilterByBitmap" (u64_list ∷ u8_list ∷ []) u64_list "EmitFilterByBitmapSugar"
    ∷ intrinic "FilterByBitmap" (i8_list ∷ u8_list ∷ []) i8_list "EmitFilterByBitmapSugar"
    ∷ intrinic "FilterByBitmap" (i16_list ∷ u8_list ∷ []) i16_list "EmitFilterByBitmapSugar"
    ∷ intrinic "FilterByBitmap" (i32_list ∷ u8_list ∷ []) i32_list "EmitFilterByBitmapSugar"
    ∷ intrinic "FilterByBitmap" (i64_list ∷ u8_list ∷ []) i64_list "EmitFilterByBitmapSugar"
    ∷ intrinic "FilterByBitmap" (f32_list ∷ u8_list ∷ []) f32_list "EmitFilterByBitmapSugar"
    ∷ intrinic "FilterByBitmap" (f64_list ∷ u8_list ∷ []) f64_list "EmitFilterByBitmapSugar"
    ∷ []
