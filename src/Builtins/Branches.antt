-- ===== src/Builtins/Branches.antt =====
-- src/function/list_comparison.cc: the choices between elements, as they are registered.
use jitfusion.Common.{List, [], ◌∷◌}
use jitfusion.Types.{
  u8, i8, u16, i16, u32, i32, u64, i64, f32, f64, u8_list, i8_list, u16_list, i16_list, u32_list,
  i32_list, u64_list, i64_list, f32_list, f64_list,
}
use jitfusion.Builtins.Calls.{Call, read_only_ctx}

-- `InitIfLargeFunc`
abbrev pub if_large_func : List Call
if_large_func =
    read_only_ctx "IfLarge" (u8_list ∷ u8 ∷ u8 ∷ []) u8_list "IfLarge<U8ListStruct>"
    ∷ read_only_ctx "IfLarge" (u16_list ∷ u16 ∷ u16 ∷ []) u16_list "IfLarge<U16ListStruct>"
    ∷ read_only_ctx "IfLarge" (u32_list ∷ u32 ∷ u32 ∷ []) u32_list "IfLarge<U32ListStruct>"
    ∷ read_only_ctx "IfLarge" (u64_list ∷ u64 ∷ u64 ∷ []) u64_list "IfLarge<U64ListStruct>"
    ∷ read_only_ctx "IfLarge" (i8_list ∷ i8 ∷ i8 ∷ []) i8_list "IfLarge<I8ListStruct>"
    ∷ read_only_ctx "IfLarge" (i16_list ∷ i16 ∷ i16 ∷ []) i16_list "IfLarge<I16ListStruct>"
    ∷ read_only_ctx "IfLarge" (i32_list ∷ i32 ∷ i32 ∷ []) i32_list "IfLarge<I32ListStruct>"
    ∷ read_only_ctx "IfLarge" (i64_list ∷ i64 ∷ i64 ∷ []) i64_list "IfLarge<I64ListStruct>"
    ∷ read_only_ctx "IfLarge" (f32_list ∷ f32 ∷ f32 ∷ []) f32_list "IfLarge<F32ListStruct>"
    ∷ read_only_ctx "IfLarge" (f64_list ∷ f64 ∷ f64 ∷ []) f64_list "IfLarge<F64ListStruct>"
    ∷ []

-- `InitIfLargeEqualFunc`
abbrev pub if_large_equal_func : List Call
if_large_equal_func =
    read_only_ctx "IfLargeEqual" (u8_list ∷ u8 ∷ u8 ∷ []) u8_list "IfLargeEqual<U8ListStruct>"
    ∷ read_only_ctx "IfLargeEqual" (u16_list ∷ u16 ∷ u16 ∷ []) u16_list
        "IfLargeEqual<U16ListStruct>"
    ∷ read_only_ctx "IfLargeEqual" (u32_list ∷ u32 ∷ u32 ∷ []) u32_list
        "IfLargeEqual<U32ListStruct>"
    ∷ read_only_ctx "IfLargeEqual" (u64_list ∷ u64 ∷ u64 ∷ []) u64_list
        "IfLargeEqual<U64ListStruct>"
    ∷ read_only_ctx "IfLargeEqual" (i8_list ∷ i8 ∷ i8 ∷ []) i8_list "IfLargeEqual<I8ListStruct>"
    ∷ read_only_ctx "IfLargeEqual" (i16_list ∷ i16 ∷ i16 ∷ []) i16_list
        "IfLargeEqual<I16ListStruct>"
    ∷ read_only_ctx "IfLargeEqual" (i32_list ∷ i32 ∷ i32 ∷ []) i32_list
        "IfLargeEqual<I32ListStruct>"
    ∷ read_only_ctx "IfLargeEqual" (i64_list ∷ i64 ∷ i64 ∷ []) i64_list
        "IfLargeEqual<I64ListStruct>"
    ∷ read_only_ctx "IfLargeEqual" (f32_list ∷ f32 ∷ f32 ∷ []) f32_list
        "IfLargeEqual<F32ListStruct>"
    ∷ read_only_ctx "IfLargeEqual" (f64_list ∷ f64 ∷ f64 ∷ []) f64_list
        "IfLargeEqual<F64ListStruct>"
    ∷ []

-- `InitIfEqualFunc`
abbrev pub if_equal_func : List Call
if_equal_func =
    read_only_ctx "IfEqual" (u8_list ∷ u8 ∷ u8 ∷ []) u8_list "IfEqual<U8ListStruct>"
    ∷ read_only_ctx "IfEqual" (u16_list ∷ u16 ∷ u16 ∷ []) u16_list "IfEqual<U16ListStruct>"
    ∷ read_only_ctx "IfEqual" (u32_list ∷ u32 ∷ u32 ∷ []) u32_list "IfEqual<U32ListStruct>"
    ∷ read_only_ctx "IfEqual" (u64_list ∷ u64 ∷ u64 ∷ []) u64_list "IfEqual<U64ListStruct>"
    ∷ read_only_ctx "IfEqual" (i8_list ∷ i8 ∷ i8 ∷ []) i8_list "IfEqual<I8ListStruct>"
    ∷ read_only_ctx "IfEqual" (i16_list ∷ i16 ∷ i16 ∷ []) i16_list "IfEqual<I16ListStruct>"
    ∷ read_only_ctx "IfEqual" (i32_list ∷ i32 ∷ i32 ∷ []) i32_list "IfEqual<I32ListStruct>"
    ∷ read_only_ctx "IfEqual" (i64_list ∷ i64 ∷ i64 ∷ []) i64_list "IfEqual<I64ListStruct>"
    ∷ read_only_ctx "IfEqual" (f32_list ∷ f32 ∷ f32 ∷ []) f32_list "IfEqual<F32ListStruct>"
    ∷ read_only_ctx "IfEqual" (f64_list ∷ f64 ∷ f64 ∷ []) f64_list "IfEqual<F64ListStruct>"
    ∷ []

-- `InitIfLessFunc`
abbrev pub if_less_func : List Call
if_less_func =
    read_only_ctx "IfLess" (u8_list ∷ u8 ∷ u8 ∷ []) u8_list "IfLess<U8ListStruct>"
    ∷ read_only_ctx "IfLess" (u16_list ∷ u16 ∷ u16 ∷ []) u16_list "IfLess<U16ListStruct>"
    ∷ read_only_ctx "IfLess" (u32_list ∷ u32 ∷ u32 ∷ []) u32_list "IfLess<U32ListStruct>"
    ∷ read_only_ctx "IfLess" (u64_list ∷ u64 ∷ u64 ∷ []) u64_list "IfLess<U64ListStruct>"
    ∷ read_only_ctx "IfLess" (i8_list ∷ i8 ∷ i8 ∷ []) i8_list "IfLess<I8ListStruct>"
    ∷ read_only_ctx "IfLess" (i16_list ∷ i16 ∷ i16 ∷ []) i16_list "IfLess<I16ListStruct>"
    ∷ read_only_ctx "IfLess" (i32_list ∷ i32 ∷ i32 ∷ []) i32_list "IfLess<I32ListStruct>"
    ∷ read_only_ctx "IfLess" (i64_list ∷ i64 ∷ i64 ∷ []) i64_list "IfLess<I64ListStruct>"
    ∷ read_only_ctx "IfLess" (f32_list ∷ f32 ∷ f32 ∷ []) f32_list "IfLess<F32ListStruct>"
    ∷ read_only_ctx "IfLess" (f64_list ∷ f64 ∷ f64 ∷ []) f64_list "IfLess<F64ListStruct>"
    ∷ []

-- `InitIfLessEqualFunc`
abbrev pub if_less_equal_func : List Call
if_less_equal_func =
    read_only_ctx "IfLessEqual" (u8_list ∷ u8 ∷ u8 ∷ []) u8_list "IfLessEqual<U8ListStruct>"
    ∷ read_only_ctx "IfLessEqual" (u16_list ∷ u16 ∷ u16 ∷ []) u16_list "IfLessEqual<U16ListStruct>"
    ∷ read_only_ctx "IfLessEqual" (u32_list ∷ u32 ∷ u32 ∷ []) u32_list "IfLessEqual<U32ListStruct>"
    ∷ read_only_ctx "IfLessEqual" (u64_list ∷ u64 ∷ u64 ∷ []) u64_list "IfLessEqual<U64ListStruct>"
    ∷ read_only_ctx "IfLessEqual" (i8_list ∷ i8 ∷ i8 ∷ []) i8_list "IfLessEqual<I8ListStruct>"
    ∷ read_only_ctx "IfLessEqual" (i16_list ∷ i16 ∷ i16 ∷ []) i16_list "IfLessEqual<I16ListStruct>"
    ∷ read_only_ctx "IfLessEqual" (i32_list ∷ i32 ∷ i32 ∷ []) i32_list "IfLessEqual<I32ListStruct>"
    ∷ read_only_ctx "IfLessEqual" (i64_list ∷ i64 ∷ i64 ∷ []) i64_list "IfLessEqual<I64ListStruct>"
    ∷ read_only_ctx "IfLessEqual" (f32_list ∷ f32 ∷ f32 ∷ []) f32_list "IfLessEqual<F32ListStruct>"
    ∷ read_only_ctx "IfLessEqual" (f64_list ∷ f64 ∷ f64 ∷ []) f64_list "IfLessEqual<F64ListStruct>"
    ∷ []

-- `InitIfNotEqualFunc`
abbrev pub if_not_equal_func : List Call
if_not_equal_func =
    read_only_ctx "IfNotEqual" (u8_list ∷ u8 ∷ u8 ∷ []) u8_list "IfNotEqual<U8ListStruct>"
    ∷ read_only_ctx "IfNotEqual" (u16_list ∷ u16 ∷ u16 ∷ []) u16_list "IfNotEqual<U16ListStruct>"
    ∷ read_only_ctx "IfNotEqual" (u32_list ∷ u32 ∷ u32 ∷ []) u32_list "IfNotEqual<U32ListStruct>"
    ∷ read_only_ctx "IfNotEqual" (u64_list ∷ u64 ∷ u64 ∷ []) u64_list "IfNotEqual<U64ListStruct>"
    ∷ read_only_ctx "IfNotEqual" (i8_list ∷ i8 ∷ i8 ∷ []) i8_list "IfNotEqual<I8ListStruct>"
    ∷ read_only_ctx "IfNotEqual" (i16_list ∷ i16 ∷ i16 ∷ []) i16_list "IfNotEqual<I16ListStruct>"
    ∷ read_only_ctx "IfNotEqual" (i32_list ∷ i32 ∷ i32 ∷ []) i32_list "IfNotEqual<I32ListStruct>"
    ∷ read_only_ctx "IfNotEqual" (i64_list ∷ i64 ∷ i64 ∷ []) i64_list "IfNotEqual<I64ListStruct>"
    ∷ read_only_ctx "IfNotEqual" (f32_list ∷ f32 ∷ f32 ∷ []) f32_list "IfNotEqual<F32ListStruct>"
    ∷ read_only_ctx "IfNotEqual" (f64_list ∷ f64 ∷ f64 ∷ []) f64_list "IfNotEqual<F64ListStruct>"
    ∷ []

-- `InitIfByBitmapLLRB`
abbrev pub if_by_bitmap_llrb : List Call
if_by_bitmap_llrb =
    read_only_ctx "IfByBitmap" (u8_list ∷ u8_list ∷ u8 ∷ []) u8_list "IfByBitmapLLRB<U8ListStruct>"
    ∷ read_only_ctx "IfByBitmap" (u8_list ∷ u16_list ∷ u16 ∷ []) u16_list
        "IfByBitmapLLRB<U16ListStruct>"
    ∷ read_only_ctx "IfByBitmap" (u8_list ∷ u32_list ∷ u32 ∷ []) u32_list
        "IfByBitmapLLRB<U32ListStruct>"
    ∷ read_only_ctx "IfByBitmap" (u8_list ∷ u64_list ∷ u64 ∷ []) u64_list
        "IfByBitmapLLRB<U64ListStruct>"
    ∷ read_only_ctx "IfByBitmap" (u8_list ∷ i8_list ∷ i8 ∷ []) i8_list
        "IfByBitmapLLRB<I8ListStruct>"
    ∷ read_only_ctx "IfByBitmap" (u8_list ∷ i16_list ∷ i16 ∷ []) i16_list
        "IfByBitmapLLRB<I16ListStruct>"
    ∷ read_only_ctx "IfByBitmap" (u8_list ∷ i32_list ∷ i32 ∷ []) i32_list
        "IfByBitmapLLRB<I32ListStruct>"
    ∷ read_only_ctx "IfByBitmap" (u8_list ∷ i64_list ∷ i64 ∷ []) i64_list
        "IfByBitmapLLRB<I64ListStruct>"
    ∷ read_only_ctx "IfByBitmap" (u8_list ∷ f32_list ∷ f32 ∷ []) f32_list
        "IfByBitmapLLRB<F32ListStruct>"
    ∷ read_only_ctx "IfByBitmap" (u8_list ∷ f64_list ∷ f64 ∷ []) f64_list
        "IfByBitmapLLRB<F64ListStruct>"
    ∷ []

-- `InitIfByBitmapLBRL`
abbrev pub if_by_bitmap_lbrl : List Call
if_by_bitmap_lbrl =
    read_only_ctx "IfByBitmap" (u8_list ∷ u8 ∷ u8_list ∷ []) u8_list "IfByBitmapLBRL<U8ListStruct>"
    ∷ read_only_ctx "IfByBitmap" (u8_list ∷ u16 ∷ u16_list ∷ []) u16_list
        "IfByBitmapLBRL<U16ListStruct>"
    ∷ read_only_ctx "IfByBitmap" (u8_list ∷ u32 ∷ u32_list ∷ []) u32_list
        "IfByBitmapLBRL<U32ListStruct>"
    ∷ read_only_ctx "IfByBitmap" (u8_list ∷ u64 ∷ u64_list ∷ []) u64_list
        "IfByBitmapLBRL<U64ListStruct>"
    ∷ read_only_ctx "IfByBitmap" (u8_list ∷ i8 ∷ i8_list ∷ []) i8_list
        "IfByBitmapLBRL<I8ListStruct>"
    ∷ read_only_ctx "IfByBitmap" (u8_list ∷ i16 ∷ i16_list ∷ []) i16_list
        "IfByBitmapLBRL<I16ListStruct>"
    ∷ read_only_ctx "IfByBitmap" (u8_list ∷ i32 ∷ i32_list ∷ []) i32_list
        "IfByBitmapLBRL<I32ListStruct>"
    ∷ read_only_ctx "IfByBitmap" (u8_list ∷ i64 ∷ i64_list ∷ []) i64_list
        "IfByBitmapLBRL<I64ListStruct>"
    ∷ read_only_ctx "IfByBitmap" (u8_list ∷ f32 ∷ f32_list ∷ []) f32_list
        "IfByBitmapLBRL<F32ListStruct>"
    ∷ read_only_ctx "IfByBitmap" (u8_list ∷ f64 ∷ f64_list ∷ []) f64_list
        "IfByBitmapLBRL<F64ListStruct>"
    ∷ []

-- `InitIfByBitmapLLRL`
abbrev pub if_by_bitmap_llrl : List Call
if_by_bitmap_llrl =
    read_only_ctx "IfByBitmap" (u8_list ∷ u8_list ∷ u8_list ∷ []) u8_list
      "IfByBitmapLLRL<U8ListStruct>"
    ∷ read_only_ctx "IfByBitmap" (u8_list ∷ u16_list ∷ u16_list ∷ []) u16_list
        "IfByBitmapLLRL<U16ListStruct>"
    ∷ read_only_ctx "IfByBitmap" (u8_list ∷ u32_list ∷ u32_list ∷ []) u32_list
        "IfByBitmapLLRL<U32ListStruct>"
    ∷ read_only_ctx "IfByBitmap" (u8_list ∷ u64_list ∷ u64_list ∷ []) u64_list
        "IfByBitmapLLRL<U64ListStruct>"
    ∷ read_only_ctx "IfByBitmap" (u8_list ∷ i8_list ∷ i8_list ∷ []) i8_list
        "IfByBitmapLLRL<I8ListStruct>"
    ∷ read_only_ctx "IfByBitmap" (u8_list ∷ i16_list ∷ i16_list ∷ []) i16_list
        "IfByBitmapLLRL<I16ListStruct>"
    ∷ read_only_ctx "IfByBitmap" (u8_list ∷ i32_list ∷ i32_list ∷ []) i32_list
        "IfByBitmapLLRL<I32ListStruct>"
    ∷ read_only_ctx "IfByBitmap" (u8_list ∷ i64_list ∷ i64_list ∷ []) i64_list
        "IfByBitmapLLRL<I64ListStruct>"
    ∷ read_only_ctx "IfByBitmap" (u8_list ∷ f32_list ∷ f32_list ∷ []) f32_list
        "IfByBitmapLLRL<F32ListStruct>"
    ∷ read_only_ctx "IfByBitmap" (u8_list ∷ f64_list ∷ f64_list ∷ []) f64_list
        "IfByBitmapLLRL<F64ListStruct>"
    ∷ []
