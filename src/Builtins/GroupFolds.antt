-- ===== src/Builtins/GroupFolds.antt =====
-- src/function/list_group.cc: the largest, least and average value of groups, as they are registered.
use jitfusion.Common.{List, [], ◌∷◌}
use jitfusion.Types.{
  u32, u8_list, i8_list, u16_list, i16_list, u32_list, i32_list, u64_list, i64_list, f32_list,
  f64_list,
}
use jitfusion.Builtins.Calls.{Call, intrinic, read_only_ctx}

-- `InitGroupMaxFunc`
abbrev pub group_max_func : List Call
group_max_func =
    read_only_ctx "GroupMax" (u8_list ∷ u32_list ∷ u32 ∷ []) u8_list "GroupMax<U8ListStruct>"
    ∷ read_only_ctx "GroupMax" (i8_list ∷ u32_list ∷ u32 ∷ []) i8_list "GroupMax<I8ListStruct>"
    ∷ read_only_ctx "GroupMax" (u16_list ∷ u32_list ∷ u32 ∷ []) u16_list "GroupMax<U16ListStruct>"
    ∷ read_only_ctx "GroupMax" (i16_list ∷ u32_list ∷ u32 ∷ []) i16_list "GroupMax<I16ListStruct>"
    ∷ read_only_ctx "GroupMax" (u32_list ∷ u32_list ∷ u32 ∷ []) u32_list "GroupMax<U32ListStruct>"
    ∷ read_only_ctx "GroupMax" (i32_list ∷ u32_list ∷ u32 ∷ []) i32_list "GroupMax<I32ListStruct>"
    ∷ read_only_ctx "GroupMax" (u64_list ∷ u32_list ∷ u32 ∷ []) u64_list "GroupMax<U64ListStruct>"
    ∷ read_only_ctx "GroupMax" (i64_list ∷ u32_list ∷ u32 ∷ []) i64_list "GroupMax<I64ListStruct>"
    ∷ read_only_ctx "GroupMax" (f32_list ∷ u32_list ∷ u32 ∷ []) f32_list "GroupMax<F32ListStruct>"
    ∷ read_only_ctx "GroupMax" (f64_list ∷ u32_list ∷ u32 ∷ []) f64_list "GroupMax<F64ListStruct>"
    ∷ []

-- `InitGroupMinFunc`
abbrev pub group_min_func : List Call
group_min_func =
    read_only_ctx "GroupMin" (u8_list ∷ u32_list ∷ u32 ∷ []) u8_list "GroupMin<U8ListStruct>"
    ∷ read_only_ctx "GroupMin" (i8_list ∷ u32_list ∷ u32 ∷ []) i8_list "GroupMin<I8ListStruct>"
    ∷ read_only_ctx "GroupMin" (u16_list ∷ u32_list ∷ u32 ∷ []) u16_list "GroupMin<U16ListStruct>"
    ∷ read_only_ctx "GroupMin" (i16_list ∷ u32_list ∷ u32 ∷ []) i16_list "GroupMin<I16ListStruct>"
    ∷ read_only_ctx "GroupMin" (u32_list ∷ u32_list ∷ u32 ∷ []) u32_list "GroupMin<U32ListStruct>"
    ∷ read_only_ctx "GroupMin" (i32_list ∷ u32_list ∷ u32 ∷ []) i32_list "GroupMin<I32ListStruct>"
    ∷ read_only_ctx "GroupMin" (u64_list ∷ u32_list ∷ u32 ∷ []) u64_list "GroupMin<U64ListStruct>"
    ∷ read_only_ctx "GroupMin" (i64_list ∷ u32_list ∷ u32 ∷ []) i64_list "GroupMin<I64ListStruct>"
    ∷ read_only_ctx "GroupMin" (f32_list ∷ u32_list ∷ u32 ∷ []) f32_list "GroupMin<F32ListStruct>"
    ∷ read_only_ctx "GroupMin" (f64_list ∷ u32_list ∷ u32 ∷ []) f64_list "GroupMin<F64ListStruct>"
    ∷ []

-- `InitGroupMaxSugarFunc`
abbrev pub group_max_sugar_func : List Call
group_max_sugar_func =
    intrinic "GroupMax" (u8_list ∷ u32_list ∷ []) u8_list "EmitGroupMaxSugar"
    ∷ intrinic "GroupMax" (i8_list ∷ u32_list ∷ []) i8_list "EmitGroupMaxSugar"
    ∷ intrinic "GroupMax" (u16_list ∷ u32_list ∷ []) u16_list "EmitGroupMaxSugar"
    ∷ intrinic "GroupMax" (i16_list ∷ u32_list ∷ []) i16_list "EmitGroupMaxSugar"
    ∷ intrinic "GroupMax" (u32_list ∷ u32_list ∷ []) u32_list "EmitGroupMaxSugar"
    ∷ intrinic "GroupMax" (i32_list ∷ u32_list ∷ []) i32_list "EmitGroupMaxSugar"
    ∷ intrinic "GroupMax" (u64_list ∷ u32_list ∷ []) u64_list "EmitGroupMaxSugar"
    ∷ intrinic "GroupMax" (i64_list ∷ u32_list ∷ []) i64_list "EmitGroupMaxSugar"
    ∷ intrinic "GroupMax" (f32_list ∷ u32_list ∷ []) f32_list "EmitGroupMaxSugar"
    ∷ intrinic "GroupMax" (f64_list ∷ u32_list ∷ []) f64_list "EmitGroupMaxSugar"
    ∷ []

-- `InitGroupMinSugarFunc`
abbrev pub group_min_sugar_func : List Call
group_min_sugar_func =
    intrinic "GroupMin" (u8_list ∷ u32_list ∷ []) u8_list "EmitGroupMinSugar"
    ∷ intrinic "GroupMin" (i8_list ∷ u32_list ∷ []) i8_list "EmitGroupMinSugar"
    ∷ intrinic "GroupMin" (u16_list ∷ u32_list ∷ []) u16_list "EmitGroupMinSugar"
    ∷ intrinic "GroupMin" (i16_list ∷ u32_list ∷ []) i16_list "EmitGroupMinSugar"
    ∷ intrinic "GroupMin" (u32_list ∷ u32_list ∷ []) u32_list "EmitGroupMinSugar"
    ∷ intrinic "GroupMin" (i32_list ∷ u32_list ∷ []) i32_list "EmitGroupMinSugar"
    ∷ intrinic "GroupMin" (u64_list ∷ u32_list ∷ []) u64_list "EmitGroupMinSugar"
    ∷ intrinic "GroupMin" (i64_list ∷ u32_list ∷ []) i64_list "EmitGroupMinSugar"
    ∷ intrinic "GroupMin" (f32_list ∷ u32_list ∷ []) f32_list "EmitGroupMinSugar"
    ∷ intrinic "GroupMin" (f64_list ∷ u32_list ∷ []) f64_list "EmitGroupMinSugar"
    ∷ []

-- `InitGroupAvgFunc`
abbrev pub group_avg_func : List Call
group_avg_func =
    read_only_ctx "GroupAvg" (u8_list ∷ u32_list ∷ u32 ∷ []) f64_list "GroupAvg<U8ListStruct>"
    ∷ read_only_ctx "GroupAvg" (i8_list ∷ u32_list ∷ u32 ∷ []) f64_list "GroupAvg<I8ListStruct>"
    ∷ read_only_ctx "GroupAvg" (u16_list ∷ u32_list ∷ u32 ∷ []) f64_list "GroupAvg<U16ListStruct>"
    ∷ read_only_ctx "GroupAvg" (i16_list ∷ u32_list ∷ u32 ∷ []) f64_list "GroupAvg<I16ListStruct>"
    ∷ read_only_ctx "GroupAvg" (u32_list ∷ u32_list ∷ u32 ∷ []) f64_list "GroupAvg<U32ListStruct>"
    ∷ read_only_ctx "GroupAvg" (i32_list ∷ u32_list ∷ u32 ∷ []) f64_list "GroupAvg<I32ListStruct>"
    ∷ read_only_ctx "GroupAvg" (u64_list ∷ u32_list ∷ u32 ∷ []) f64_list "GroupAvg<U64ListStruct>"
    ∷ read_only_ctx "GroupAvg" (i64_list ∷ u32_list ∷ u32 ∷ []) f64_list "GroupAvg<I64ListStruct>"
    ∷ read_only_ctx "GroupAvg" (f32_list ∷ u32_list ∷ u32 ∷ []) f64_list "GroupAvg<F32ListStruct>"
    ∷ read_only_ctx "GroupAvg" (f64_list ∷ u32_list ∷ u32 ∷ []) f64_list "GroupAvg<F64ListStruct>"
    ∷ []

-- `InitGroupAvgSugarFunc`
abbrev pub group_avg_sugar_func : List Call
group_avg_sugar_func =
    intrinic "GroupAvg" (u8_list ∷ u32_list ∷ []) f64_list "EmitGroupAvgSugar"
    ∷ intrinic "GroupAvg" (i8_list ∷ u32_list ∷ []) f64_list "EmitGroupAvgSugar"
    ∷ intrinic "GroupAvg" (u16_list ∷ u32_list ∷ []) f64_list "EmitGroupAvgSugar"
    ∷ intrinic "GroupAvg" (i16_list ∷ u32_list ∷ []) f64_list "EmitGroupAvgSugar"
    ∷ intrinic "GroupAvg" (u32_list ∷ u32_list ∷ []) f64_list "EmitGroupAvgSugar"
    ∷ intrinic "GroupAvg" (i32_list ∷ u32_list ∷ []) f64_list "EmitGroupAvgSugar"
    ∷ intrinic "GroupAvg" (u64_list ∷ u32_list ∷ []) f64_list "EmitGroupAvgSugar"
    ∷ intrinic "GroupAvg" (i64_list ∷ u32_list ∷ []) f64_list "EmitGroupAvgSugar"
    ∷ intrinic "GroupAvg" (f32_list ∷ u32_list ∷ []) f64_list "EmitGroupAvgSugar"
    ∷ intrinic "GroupAvg" (f64_list ∷ u32_list ∷ []) f64_list "EmitGroupAvgSugar"
    ∷ []
