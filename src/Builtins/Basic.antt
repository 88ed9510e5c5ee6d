-- ===== src/Builtins/Basic.antt =====
-- src/function/list_basic.cc: the basic operations on lists, as they are registered.
use jitfusion.Common.{List, [], ◌∷◌}
use jitfusion.Types.{
  u8, i8, u16, i16, u32, i32, u64, i64, f32, f64, u8_list, i8_list, u16_list, i16_list, u32_list,
  i32_list, u64_list, i64_list, f32_list, f64_list, string, string_list,
}
use jitfusion.Builtins.Calls.{Call, intrinic, read_only, read_only_ctx}

-- `InitCrossJoinFunc`
abbrev pub cross_join_func : List Call
cross_join_func =
    read_only_ctx "CrossJoin" (string_list ∷ string_list ∷ string ∷ []) string_list
      "CrossJoinString"
    ∷ []

-- `InitZipConcatFunc`
abbrev pub zip_concat_func : List Call
zip_concat_func =
    read_only_ctx "ZipConcat" (string_list ∷ string_list ∷ string ∷ []) string_list
      "ZipConcatString"
    ∷ []

-- `InitUniqueFunc`
abbrev pub unique_func : List Call
unique_func =
    read_only_ctx "Unique" (u8_list ∷ []) u8_list "Unique<U8ListStruct>"
    ∷ read_only_ctx "Unique" (u16_list ∷ []) u16_list "Unique<U16ListStruct>"
    ∷ read_only_ctx "Unique" (u32_list ∷ []) u32_list "Unique<U32ListStruct>"
    ∷ read_only_ctx "Unique" (u64_list ∷ []) u64_list "Unique<U64ListStruct>"
    ∷ read_only_ctx "Unique" (i8_list ∷ []) i8_list "Unique<I8ListStruct>"
    ∷ read_only_ctx "Unique" (i16_list ∷ []) i16_list "Unique<I16ListStruct>"
    ∷ read_only_ctx "Unique" (i32_list ∷ []) i32_list "Unique<I32ListStruct>"
    ∷ read_only_ctx "Unique" (i64_list ∷ []) i64_list "Unique<I64ListStruct>"
    ∷ read_only_ctx "Unique" (f32_list ∷ []) f32_list "Unique<F32ListStruct>"
    ∷ read_only_ctx "Unique" (f64_list ∷ []) f64_list "Unique<F64ListStruct>"
    ∷ read_only_ctx "Unique" (string_list ∷ []) string_list "UniqueString"
    ∷ []

-- `InitListConcatFunc`
abbrev pub list_concat_func : List Call
list_concat_func =
    read_only_ctx "ListConcat" (u8_list ∷ u8_list ∷ []) u8_list "ListConcat<U8ListStruct>"
    ∷ read_only_ctx "ListConcat" (u16_list ∷ u16_list ∷ []) u16_list "ListConcat<U16ListStruct>"
    ∷ read_only_ctx "ListConcat" (u32_list ∷ u32_list ∷ []) u32_list "ListConcat<U32ListStruct>"
    ∷ read_only_ctx "ListConcat" (u64_list ∷ u64_list ∷ []) u64_list "ListConcat<U64ListStruct>"
    ∷ read_only_ctx "ListConcat" (i8_list ∷ i8_list ∷ []) i8_list "ListConcat<I8ListStruct>"
    ∷ read_only_ctx "ListConcat" (i16_list ∷ i16_list ∷ []) i16_list "ListConcat<I16ListStruct>"
    ∷ read_only_ctx "ListConcat" (i32_list ∷ i32_list ∷ []) i32_list "ListConcat<I32ListStruct>"
    ∷ read_only_ctx "ListConcat" (i64_list ∷ i64_list ∷ []) i64_list "ListConcat<I64ListStruct>"
    ∷ read_only_ctx "ListConcat" (f32_list ∷ f32_list ∷ []) f32_list "ListConcat<F32ListStruct>"
    ∷ read_only_ctx "ListConcat" (f64_list ∷ f64_list ∷ []) f64_list "ListConcat<F64ListStruct>"
    ∷ read_only_ctx "ListConcat" (string_list ∷ string_list ∷ []) string_list
        "ListConcat<StringListStruct>"
    ∷ []

-- `InitInFunc`
abbrev pub in_func : List Call
in_func =
    read_only "in" (u8 ∷ u8_list ∷ []) u8 "IsInList<U8ListStruct>"
    ∷ read_only "in" (u16 ∷ u16_list ∷ []) u8 "IsInList<U16ListStruct>"
    ∷ read_only "in" (u32 ∷ u32_list ∷ []) u8 "IsInList<U32ListStruct>"
    ∷ read_only "in" (u64 ∷ u64_list ∷ []) u8 "IsInList<U64ListStruct>"
    ∷ read_only "in" (i8 ∷ i8_list ∷ []) u8 "IsInList<I8ListStruct>"
    ∷ read_only "in" (i16 ∷ i16_list ∷ []) u8 "IsInList<I16ListStruct>"
    ∷ read_only "in" (i32 ∷ i32_list ∷ []) u8 "IsInList<I32ListStruct>"
    ∷ read_only "in" (i64 ∷ i64_list ∷ []) u8 "IsInList<I64ListStruct>"
    ∷ read_only "in" (f32 ∷ f32_list ∷ []) u8 "IsInList<F32ListStruct>"
    ∷ read_only "in" (f64 ∷ f64_list ∷ []) u8 "IsInList<F64ListStruct>"
    ∷ read_only "in" (string ∷ string_list ∷ []) u8 "IsInStringList"
    ∷ []

-- `InitLenFunc`
abbrev pub len_func : List Call
len_func =
    intrinic "Len" (u8_list ∷ []) u32 "CallBuiltinLenFunction"
    ∷ intrinic "Len" (u16_list ∷ []) u32 "CallBuiltinLenFunction"
    ∷ intrinic "Len" (u32_list ∷ []) u32 "CallBuiltinLenFunction"
    ∷ intrinic "Len" (u64_list ∷ []) u32 "CallBuiltinLenFunction"
    ∷ intrinic "Len" (i8_list ∷ []) u32 "CallBuiltinLenFunction"
    ∷ intrinic "Len" (i16_list ∷ []) u32 "CallBuiltinLenFunction"
    ∷ intrinic "Len" (i32_list ∷ []) u32 "CallBuiltinLenFunction"
    ∷ intrinic "Len" (i64_list ∷ []) u32 "CallBuiltinLenFunction"
    ∷ intrinic "Len" (f32_list ∷ []) u32 "CallBuiltinLenFunction"
    ∷ intrinic "Len" (f64_list ∷ []) u32 "CallBuiltinLenFunction"
    ∷ intrinic "Len" (string_list ∷ []) u32 "CallBuiltinLenFunction"
    ∷ []

-- `InitSortFunc`
abbrev pub sort_func : List Call
sort_func =
    read_only_ctx "SortAsc" (u8_list ∷ []) u8_list "SortAsc<U8ListStruct>"
    ∷ read_only_ctx "SortAsc" (u16_list ∷ []) u16_list "SortAsc<U16ListStruct>"
    ∷ read_only_ctx "SortAsc" (u32_list ∷ []) u32_list "SortAsc<U32ListStruct>"
    ∷ read_only_ctx "SortAsc" (u64_list ∷ []) u64_list "SortAsc<U64ListStruct>"
    ∷ read_only_ctx "SortAsc" (i8_list ∷ []) i8_list "SortAsc<I8ListStruct>"
    ∷ read_only_ctx "SortAsc" (i16_list ∷ []) i16_list "SortAsc<I16ListStruct>"
    ∷ read_only_ctx "SortAsc" (i32_list ∷ []) i32_list "SortAsc<I32ListStruct>"
    ∷ read_only_ctx "SortAsc" (i64_list ∷ []) i64_list "SortAsc<I64ListStruct>"
    ∷ read_only_ctx "SortAsc" (f32_list ∷ []) f32_list "SortAsc<F32ListStruct>"
    ∷ read_only_ctx "SortAsc" (f64_list ∷ []) f64_list "SortAsc<F64ListStruct>"
    ∷ read_only_ctx "SortDesc" (u8_list ∷ []) u8_list "SortDesc<U8ListStruct>"
    ∷ read_only_ctx "SortDesc" (u16_list ∷ []) u16_list "SortDesc<U16ListStruct>"
    ∷ read_only_ctx "SortDesc" (u32_list ∷ []) u32_list "SortDesc<U32ListStruct>"
    ∷ read_only_ctx "SortDesc" (u64_list ∷ []) u64_list "SortDesc<U64ListStruct>"
    ∷ read_only_ctx "SortDesc" (i8_list ∷ []) i8_list "SortDesc<I8ListStruct>"
    ∷ read_only_ctx "SortDesc" (i16_list ∷ []) i16_list "SortDesc<I16ListStruct>"
    ∷ read_only_ctx "SortDesc" (i32_list ∷ []) i32_list "SortDesc<I32ListStruct>"
    ∷ read_only_ctx "SortDesc" (i64_list ∷ []) i64_list "SortDesc<I64ListStruct>"
    ∷ read_only_ctx "SortDesc" (f32_list ∷ []) f32_list "SortDesc<F32ListStruct>"
    ∷ read_only_ctx "SortDesc" (f64_list ∷ []) f64_list "SortDesc<F64ListStruct>"
    ∷ []

-- `InitTruncateFunc`
abbrev pub truncate_func : List Call
truncate_func =
    intrinic "Truncate" (u8_list ∷ u32 ∷ []) u8_list "CallBuiltinTruncateFunction"
    ∷ intrinic "Truncate" (u16_list ∷ u32 ∷ []) u16_list "CallBuiltinTruncateFunction"
    ∷ intrinic "Truncate" (u32_list ∷ u32 ∷ []) u32_list "CallBuiltinTruncateFunction"
    ∷ intrinic "Truncate" (u64_list ∷ u32 ∷ []) u64_list "CallBuiltinTruncateFunction"
    ∷ intrinic "Truncate" (i8_list ∷ u32 ∷ []) i8_list "CallBuiltinTruncateFunction"
    ∷ intrinic "Truncate" (i16_list ∷ u32 ∷ []) i16_list "CallBuiltinTruncateFunction"
    ∷ intrinic "Truncate" (i32_list ∷ u32 ∷ []) i32_list "CallBuiltinTruncateFunction"
    ∷ intrinic "Truncate" (i64_list ∷ u32 ∷ []) i64_list "CallBuiltinTruncateFunction"
    ∷ intrinic "Truncate" (f32_list ∷ u32 ∷ []) f32_list "CallBuiltinTruncateFunction"
    ∷ intrinic "Truncate" (f64_list ∷ u32 ∷ []) f64_list "CallBuiltinTruncateFunction"
    ∷ intrinic "Truncate" (string_list ∷ u32 ∷ []) string_list "CallBuiltinTruncateFunction"
    ∷ []

-- `InitHashFunc`
abbrev pub hash_func : List Call
hash_func =
    read_only "MurmurHash3X8632" (u8_list ∷ []) u32 "MurmurHash3X8632<U8ListStruct>"
    ∷ read_only "MurmurHash3X8632" (u16_list ∷ []) u32 "MurmurHash3X8632<U16ListStruct>"
    ∷ read_only "MurmurHash3X8632" (u32_list ∷ []) u32 "MurmurHash3X8632<U32ListStruct>"
    ∷ read_only "MurmurHash3X8632" (u64_list ∷ []) u32 "MurmurHash3X8632<U64ListStruct>"
    ∷ read_only "MurmurHash3X8632" (i8_list ∷ []) u32 "MurmurHash3X8632<I8ListStruct>"
    ∷ read_only "MurmurHash3X8632" (i16_list ∷ []) u32 "MurmurHash3X8632<I16ListStruct>"
    ∷ read_only "MurmurHash3X8632" (i32_list ∷ []) u32 "MurmurHash3X8632<I32ListStruct>"
    ∷ read_only "MurmurHash3X8632" (i64_list ∷ []) u32 "MurmurHash3X8632<I64ListStruct>"
    ∷ read_only "MurmurHash3X8632" (f32_list ∷ []) u32 "MurmurHash3X8632<F32ListStruct>"
    ∷ read_only "MurmurHash3X8632" (f64_list ∷ []) u32 "MurmurHash3X8632<F64ListStruct>"
    ∷ []
