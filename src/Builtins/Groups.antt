-- ===== src/Builtins/Groups.antt =====
-- src/function/list_group.cc: the group index, its keys and the sums of groups, as they are registered.
use jitfusion.Common.{List, [], ◌∷◌}
use jitfusion.Types.{
  u32, u8_list, i8_list, u16_list, i16_list, u32_list, i32_list, u64_list, i64_list, f32_list,
  f64_list, string_list,
}
use jitfusion.Builtins.Calls.{Call, intrinic, read_only, read_only_ctx}

-- `InitGroupIndexFunc`
abbrev pub group_index_func : List Call
group_index_func =
    read_only_ctx "GroupIndex" (u8_list ∷ []) u32_list "GroupIndex<U8ListStruct>"
    ∷ read_only_ctx "GroupIndex" (i8_list ∷ []) u32_list "GroupIndex<I8ListStruct>"
    ∷ read_only_ctx "GroupIndex" (u16_list ∷ []) u32_list "GroupIndex<U16ListStruct>"
    ∷ read_only_ctx "GroupIndex" (i16_list ∷ []) u32_list "GroupIndex<I16ListStruct>"
    ∷ read_only_ctx "GroupIndex" (u32_list ∷ []) u32_list "GroupIndex<U32ListStruct>"
    ∷ read_only_ctx "GroupIndex" (i32_list ∷ []) u32_list "GroupIndex<I32ListStruct>"
    ∷ read_only_ctx "GroupIndex" (u64_list ∷ []) u32_list "GroupIndex<U64ListStruct>"
    ∷ read_only_ctx "GroupIndex" (i64_list ∷ []) u32_list "GroupIndex<I64ListStruct>"
    ∷ read_only_ctx "GroupIndex" (f32_list ∷ []) u32_list "GroupIndex<F32ListStruct>"
    ∷ read_only_ctx "GroupIndex" (f64_list ∷ []) u32_list "GroupIndex<F64ListStruct>"
    ∷ read_only_ctx "GroupIndex" (string_list ∷ []) u32_list "GroupIndexString"
    ∷ []

-- `InitGroupCountFunc`
abbrev pub group_count_func : List Call
group_count_func = read_only "GroupCount" (u32_list ∷ []) u32 "GroupCount" ∷ []

-- `InitGroupKeysFunc`
abbrev pub group_keys_func : List Call
group_keys_func =
    read_only_ctx "GroupKeys" (u8_list ∷ u32_list ∷ u32 ∷ []) u8_list "GroupKeys<U8ListStruct>"
    ∷ read_only_ctx "GroupKeys" (i8_list ∷ u32_list ∷ u32 ∷ []) i8_list "GroupKeys<I8ListStruct>"
    ∷ read_only_ctx "GroupKeys" (u16_list ∷ u32_list ∷ u32 ∷ []) u16_list "GroupKeys<U16ListStruct>"
    ∷ read_only_ctx "GroupKeys" (i16_list ∷ u32_list ∷ u32 ∷ []) i16_list "GroupKeys<I16ListStruct>"
    ∷ read_only_ctx "GroupKeys" (u32_list ∷ u32_list ∷ u32 ∷ []) u32_list "GroupKeys<U32ListStruct>"
    ∷ read_only_ctx "GroupKeys" (i32_list ∷ u32_list ∷ u32 ∷ []) i32_list "GroupKeys<I32ListStruct>"
    ∷ read_only_ctx "GroupKeys" (u64_list ∷ u32_list ∷ u32 ∷ []) u64_list "GroupKeys<U64ListStruct>"
    ∷ read_only_ctx "GroupKeys" (i64_list ∷ u32_list ∷ u32 ∷ []) i64_list "GroupKeys<I64ListStruct>"
    ∷ read_only_ctx "GroupKeys" (f32_list ∷ u32_list ∷ u32 ∷ []) f32_list "GroupKeys<F32ListStruct>"
    ∷ read_only_ctx "GroupKeys" (f64_list ∷ u32_list ∷ u32 ∷ []) f64_list "GroupKeys<F64ListStruct>"
    ∷ read_only_ctx "GroupKeys" (string_list ∷ u32_list ∷ u32 ∷ []) string_list
        "GroupKeys<StringListStruct>"
    ∷ []

-- `InitGroupKeysSugarFunc`
abbrev pub group_keys_sugar_func : List Call
group_keys_sugar_func =
    intrinic "GroupKeys" (u8_list ∷ u32_list ∷ []) u8_list "EmitGroupKeysSugar"
    ∷ intrinic "GroupKeys" (i8_list ∷ u32_list ∷ []) i8_list "EmitGroupKeysSugar"
    ∷ intrinic "GroupKeys" (u16_list ∷ u32_list ∷ []) u16_list "EmitGroupKeysSugar"
    ∷ intrinic "GroupKeys" (i16_list ∷ u32_list ∷ []) i16_list "EmitGroupKeysSugar"
    ∷ intrinic "GroupKeys" (u32_list ∷ u32_list ∷ []) u32_list "EmitGroupKeysSugar"
    ∷ intrinic "GroupKeys" (i32_list ∷ u32_list ∷ []) i32_list "EmitGroupKeysSugar"
    ∷ intrinic "GroupKeys" (u64_list ∷ u32_list ∷ []) u64_list "EmitGroupKeysSugar"
    ∷ intrinic "GroupKeys" (i64_list ∷ u32_list ∷ []) i64_list "EmitGroupKeysSugar"
    ∷ intrinic "GroupKeys" (f32_list ∷ u32_list ∷ []) f32_list "EmitGroupKeysSugar"
    ∷ intrinic "GroupKeys" (f64_list ∷ u32_list ∷ []) f64_list "EmitGroupKeysSugar"
    ∷ intrinic "GroupKeys" (string_list ∷ u32_list ∷ []) string_list "EmitGroupKeysSugar"
    ∷ []

-- `InitGroupSumFunc`
abbrev pub group_sum_func : List Call
group_sum_func =
    read_only_ctx "GroupSum" (i8_list ∷ u32_list ∷ u32 ∷ []) i64_list
      "GroupSum<I64ListStruct, I8ListStruct>"
    ∷ read_only_ctx "GroupSum" (i16_list ∷ u32_list ∷ u32 ∷ []) i64_list
        "GroupSum<I64ListStruct, I16ListStruct>"
    ∷ read_only_ctx "GroupSum" (i32_list ∷ u32_list ∷ u32 ∷ []) i64_list
        "GroupSum<I64ListStruct, I32ListStruct>"
    ∷ read_only_ctx "GroupSum" (i64_list ∷ u32_list ∷ u32 ∷ []) i64_list
        "GroupSum<I64ListStruct, I64ListStruct>"
    ∷ read_only_ctx "GroupSum" (u8_list ∷ u32_list ∷ u32 ∷ []) u64_list
        "GroupSum<U64ListStruct, U8ListStruct>"
    ∷ read_only_ctx "GroupSum" (u16_list ∷ u32_list ∷ u32 ∷ []) u64_list
        "GroupSum<U64ListStruct, U16ListStruct>"
    ∷ read_only_ctx "GroupSum" (u32_list ∷ u32_list ∷ u32 ∷ []) u64_list
        "GroupSum<U64ListStruct, U32ListStruct>"
    ∷ read_only_ctx "GroupSum" (u64_list ∷ u32_list ∷ u32 ∷ []) u64_list
        "GroupSum<U64ListStruct, U64ListStruct>"
    ∷ read_only_ctx "GroupSum" (f32_list ∷ u32_list ∷ u32 ∷ []) f64_list
        "GroupSum<F64ListStruct, F32ListStruct>"
    ∷ read_only_ctx "GroupSum" (f64_list ∷ u32_list ∷ u32 ∷ []) f64_list
        "GroupSum<F64ListStruct, F64ListStruct>"
    ∷ []

-- `InitGroupSumSugarFunc`
abbrev pub group_sum_sugar_func : List Call
group_sum_sugar_func =
    intrinic "GroupSum" (i8_list ∷ u32_list ∷ []) i64_list "EmitGroupSumSugar"
    ∷ intrinic "GroupSum" (i16_list ∷ u32_list ∷ []) i64_list "EmitGroupSumSugar"
    ∷ intrinic "GroupSum" (i32_list ∷ u32_list ∷ []) i64_list "EmitGroupSumSugar"
    ∷ intrinic "GroupSum" (i64_list ∷ u32_list ∷ []) i64_list "EmitGroupSumSugar"
    ∷ intrinic "GroupSum" (u8_list ∷ u32_list ∷ []) u64_list "EmitGroupSumSugar"
    ∷ intrinic "GroupSum" (u16_list ∷ u32_list ∷ []) u64_list "EmitGroupSumSugar"
    ∷ intrinic "GroupSum" (u32_list ∷ u32_list ∷ []) u64_list "EmitGroupSumSugar"
    ∷ intrinic "GroupSum" (u64_list ∷ u32_list ∷ []) u64_list "EmitGroupSumSugar"
    ∷ intrinic "GroupSum" (f32_list ∷ u32_list ∷ []) f64_list "EmitGroupSumSugar"
    ∷ intrinic "GroupSum" (f64_list ∷ u32_list ∷ []) f64_list "EmitGroupSumSugar"
    ∷ []
