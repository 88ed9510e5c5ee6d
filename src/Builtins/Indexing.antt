-- ===== src/Builtins/Indexing.antt =====
-- src/function/list_indexing.cc: the searches and the gather, as they are registered.
use jitfusion.Common.{List, [], ◌∷◌}
use jitfusion.Types.{
  ValueType, u8, i8, u16, i16, u32, i32, u64, i64, f32, f64, u8_list, i8_list, u16_list, i16_list,
  u32_list, i32_list, u64_list, i64_list, f32_list, f64_list, string, string_list, ptr,
}
use jitfusion.Builtins.Calls.{Call, intrinic, read_only, read_only_ctx}

-- `InitFindFunc`
abbrev pub find_func : List Call
find_func =
    read_only "Find" (u8_list ∷ u8 ∷ []) u32 "Find<U8ListStruct>"
    ∷ read_only "Find" (i8_list ∷ i8 ∷ []) u32 "Find<I8ListStruct>"
    ∷ read_only "Find" (u16_list ∷ u16 ∷ []) u32 "Find<U16ListStruct>"
    ∷ read_only "Find" (i16_list ∷ i16 ∷ []) u32 "Find<I16ListStruct>"
    ∷ read_only "Find" (u32_list ∷ u32 ∷ []) u32 "Find<U32ListStruct>"
    ∷ read_only "Find" (i32_list ∷ i32 ∷ []) u32 "Find<I32ListStruct>"
    ∷ read_only "Find" (u64_list ∷ u64 ∷ []) u32 "Find<U64ListStruct>"
    ∷ read_only "Find" (i64_list ∷ i64 ∷ []) u32 "Find<I64ListStruct>"
    ∷ read_only "Find" (f32_list ∷ f32 ∷ []) u32 "Find<F32ListStruct>"
    ∷ read_only "Find" (f64_list ∷ f64 ∷ []) u32 "Find<F64ListStruct>"
    ∷ read_only "Find" (string_list ∷ string ∷ []) u32 "FindString"
    ∷ []

-- `InitFindSortedFunc`
abbrev pub find_sorted_func : List Call
find_sorted_func =
    read_only "FindSorted" (u8_list ∷ u8 ∷ []) u32 "FindSorted<U8ListStruct>"
    ∷ read_only "FindSorted" (i8_list ∷ i8 ∷ []) u32 "FindSorted<I8ListStruct>"
    ∷ read_only "FindSorted" (u16_list ∷ u16 ∷ []) u32 "FindSorted<U16ListStruct>"
    ∷ read_only "FindSorted" (i16_list ∷ i16 ∷ []) u32 "FindSorted<I16ListStruct>"
    ∷ read_only "FindSorted" (u32_list ∷ u32 ∷ []) u32 "FindSorted<U32ListStruct>"
    ∷ read_only "FindSorted" (i32_list ∷ i32 ∷ []) u32 "FindSorted<I32ListStruct>"
    ∷ read_only "FindSorted" (u64_list ∷ u64 ∷ []) u32 "FindSorted<U64ListStruct>"
    ∷ read_only "FindSorted" (i64_list ∷ i64 ∷ []) u32 "FindSorted<I64ListStruct>"
    ∷ read_only "FindSorted" (f32_list ∷ f32 ∷ []) u32 "FindSorted<F32ListStruct>"
    ∷ read_only "FindSorted" (f64_list ∷ f64 ∷ []) u32 "FindSorted<F64ListStruct>"
    ∷ read_only "FindSorted" (string_list ∷ string ∷ []) u32 "FindSortedString"
    ∷ []

-- `InitFindMissFunc`
abbrev pub find_miss_func : List Call
find_miss_func = intrinic "FindMiss" [] u32 "CodegenFindMiss" ∷ []

-- `InitListCompactFuncs`
abbrev pub list_compact_funcs : List Call
list_compact_funcs =
    read_only_ctx "ListCompactPositions" (u32_list ∷ []) u32_list "ListCompactPositions"
    ∷ read_only_ctx "ListCompactIndex" (u32_list ∷ []) u32_list "ListCompactIndex"
    ∷ []

-- `InitListGatherFunc`
abbrev pub list_gather_func : List Call
list_gather_func =
    read_only_ctx "ListGather" (u8_list ∷ u32_list ∷ u8 ∷ []) u8_list "ListGather<U8ListStruct>"
    ∷ read_only_ctx "ListGather" (i8_list ∷ u32_list ∷ i8 ∷ []) i8_list "ListGather<I8ListStruct>"
    ∷ read_only_ctx "ListGather" (u16_list ∷ u32_list ∷ u16 ∷ []) u16_list
        "ListGather<U16ListStruct>"
    ∷ read_only_ctx "ListGather" (i16_list ∷ u32_list ∷ i16 ∷ []) i16_list
        "ListGather<I16ListStruct>"
    ∷ read_only_ctx "ListGather" (u32_list ∷ u32_list ∷ u32 ∷ []) u32_list
        "ListGather<U32ListStruct>"
    ∷ read_only_ctx "ListGather" (i32_list ∷ u32_list ∷ i32 ∷ []) i32_list
        "ListGather<I32ListStruct>"
    ∷ read_only_ctx "ListGather" (u64_list ∷ u32_list ∷ u64 ∷ []) u64_list
        "ListGather<U64ListStruct>"
    ∷ read_only_ctx "ListGather" (i64_list ∷ u32_list ∷ i64 ∷ []) i64_list
        "ListGather<I64ListStruct>"
    ∷ read_only_ctx "ListGather" (f32_list ∷ u32_list ∷ f32 ∷ []) f32_list
        "ListGather<F32ListStruct>"
    ∷ read_only_ctx "ListGather" (f64_list ∷ u32_list ∷ f64 ∷ []) f64_list
        "ListGather<F64ListStruct>"
    ∷ read_only_ctx "ListGather" (string_list ∷ u32_list ∷ string ∷ []) string_list
        "ListGather<StringListStruct>"
    ∷ []

-- `InitBucketizeFunc`
abbrev pub bucketize_func : List Call
bucketize_func =
    read_only_ctx "Bucketize" (u8_list ∷ u8_list ∷ []) u32_list "Bucketize<U8ListStruct>"
    ∷ read_only_ctx "Bucketize" (i8_list ∷ i8_list ∷ []) u32_list "Bucketize<I8ListStruct>"
    ∷ read_only_ctx "Bucketize" (u16_list ∷ u16_list ∷ []) u32_list "Bucketize<U16ListStruct>"
    ∷ read_only_ctx "Bucketize" (i16_list ∷ i16_list ∷ []) u32_list "Bucketize<I16ListStruct>"
    ∷ read_only_ctx "Bucketize" (u32_list ∷ u32_list ∷ []) u32_list "Bucketize<U32ListStruct>"
    ∷ read_only_ctx "Bucketize" (i32_list ∷ i32_list ∷ []) u32_list "Bucketize<I32ListStruct>"
    ∷ read_only_ctx "Bucketize" (u64_list ∷ u64_list ∷ []) u32_list "Bucketize<U64ListStruct>"
    ∷ read_only_ctx "Bucketize" (i64_list ∷ i64_list ∷ []) u32_list "Bucketize<I64ListStruct>"
    ∷ read_only_ctx "Bucketize" (f32_list ∷ f32_list ∷ []) u32_list "Bucketize<F32ListStruct>"
    ∷ read_only_ctx "Bucketize" (f64_list ∷ f64_list ∷ []) u32_list "Bucketize<F64ListStruct>"
    ∷ []

-- The loop of `InitListLookupIndexFunc`
abbrev pub lookup_index_calls : List ValueType → List Call
lookup_index_calls [] = []
lookup_index_calls (vt ∷ vts) =
    intrinic "ListLookupIndex" (vt ∷ vt ∷ []) u32_list "CodegenListLookupIndex"
    ∷ lookup_index_calls vts

-- `InitListLookupIndexFunc`
abbrev pub list_lookup_index_func : List Call
list_lookup_index_func =
    read_only_ctx "__BuildLookupTableInt" (u8_list ∷ []) ptr "BuildLookupTableInt<U8ListStruct>"
    ∷ read_only_ctx "__LookupTableInt" (u8_list ∷ ptr ∷ []) u32_list "LookupTableInt<U8ListStruct>"
    ∷ read_only_ctx "__BuildLookupTableInt" (i8_list ∷ []) ptr "BuildLookupTableInt<I8ListStruct>"
    ∷ read_only_ctx "__LookupTableInt" (i8_list ∷ ptr ∷ []) u32_list "LookupTableInt<I8ListStruct>"
    ∷ read_only_ctx "__BuildLookupTableInt" (u16_list ∷ []) ptr "BuildLookupTableInt<U16ListStruct>"
    ∷ read_only_ctx "__LookupTableInt" (u16_list ∷ ptr ∷ []) u32_list
        "LookupTableInt<U16ListStruct>"
    ∷ read_only_ctx "__BuildLookupTableInt" (i16_list ∷ []) ptr "BuildLookupTableInt<I16ListStruct>"
    ∷ read_only_ctx "__LookupTableInt" (i16_list ∷ ptr ∷ []) u32_list
        "LookupTableInt<I16ListStruct>"
    ∷ read_only_ctx "__BuildLookupTableInt" (u32_list ∷ []) ptr "BuildLookupTableInt<U32ListStruct>"
    ∷ read_only_ctx "__LookupTableInt" (u32_list ∷ ptr ∷ []) u32_list
        "LookupTableInt<U32ListStruct>"
    ∷ read_only_ctx "__BuildLookupTableInt" (i32_list ∷ []) ptr "BuildLookupTableInt<I32ListStruct>"
    ∷ read_only_ctx "__LookupTableInt" (i32_list ∷ ptr ∷ []) u32_list
        "LookupTableInt<I32ListStruct>"
    ∷ read_only_ctx "__BuildLookupTableInt" (u64_list ∷ []) ptr "BuildLookupTableInt<U64ListStruct>"
    ∷ read_only_ctx "__LookupTableInt" (u64_list ∷ ptr ∷ []) u32_list
        "LookupTableInt<U64ListStruct>"
    ∷ read_only_ctx "__BuildLookupTableInt" (i64_list ∷ []) ptr "BuildLookupTableInt<I64ListStruct>"
    ∷ read_only_ctx "__LookupTableInt" (i64_list ∷ ptr ∷ []) u32_list
        "LookupTableInt<I64ListStruct>"
    ∷ read_only_ctx "__BuildLookupTableInt" (f32_list ∷ []) ptr "BuildLookupTableInt<F32ListStruct>"
    ∷ read_only_ctx "__LookupTableInt" (f32_list ∷ ptr ∷ []) u32_list
        "LookupTableInt<F32ListStruct>"
    ∷ read_only_ctx "__BuildLookupTableInt" (f64_list ∷ []) ptr "BuildLookupTableInt<F64ListStruct>"
    ∷ read_only_ctx "__LookupTableInt" (f64_list ∷ ptr ∷ []) u32_list
        "LookupTableInt<F64ListStruct>"
    ∷ read_only_ctx "__BuildLookupTableString" (string_list ∷ []) ptr "BuildLookupTableString"
    ∷ read_only_ctx "__LookupTableString" (string_list ∷ ptr ∷ []) u32_list "LookupTableString"
    ∷ lookup_index_calls (
        u8_list ∷ i8_list ∷ u16_list ∷ i16_list ∷ u32_list ∷ i32_list ∷ u64_list ∷ i64_list
        ∷ f32_list ∷ f64_list ∷ string_list ∷ [])
