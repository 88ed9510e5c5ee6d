-- ===== src/Builtins/Elementwise.antt =====
-- src/function/list_arithmetic.cc: the functions applied to each element, as they are registered.
use jitfusion.Common.{List, [], ◌∷◌}
use jitfusion.Types.{
  u8, i8, u16, i16, u32, i32, u64, i64, f32, f64, u8_list, i8_list, u16_list, i16_list, u32_list,
  i32_list, u64_list, i64_list, f32_list, f64_list,
}
use jitfusion.Builtins.Calls.{Call, read_only_ctx}

-- `InitListExpFunc`
abbrev pub list_exp_func : List Call
list_exp_func =
    read_only_ctx "ListExp" (u8_list ∷ []) f64_list "ListExp<U8ListStruct, F64ListStruct>"
    ∷ read_only_ctx "ListExp" (u16_list ∷ []) f64_list "ListExp<U16ListStruct, F64ListStruct>"
    ∷ read_only_ctx "ListExp" (u32_list ∷ []) f64_list "ListExp<U32ListStruct, F64ListStruct>"
    ∷ read_only_ctx "ListExp" (u64_list ∷ []) f64_list "ListExp<U64ListStruct, F64ListStruct>"
    ∷ read_only_ctx "ListExp" (i8_list ∷ []) f64_list "ListExp<I8ListStruct, F64ListStruct>"
    ∷ read_only_ctx "ListExp" (i16_list ∷ []) f64_list "ListExp<I16ListStruct, F64ListStruct>"
    ∷ read_only_ctx "ListExp" (i32_list ∷ []) f64_list "ListExp<I32ListStruct, F64ListStruct>"
    ∷ read_only_ctx "ListExp" (i64_list ∷ []) f64_list "ListExp<I64ListStruct, F64ListStruct>"
    ∷ read_only_ctx "ListExp" (f32_list ∷ []) f32_list "ListExp<F32ListStruct, F32ListStruct>"
    ∷ read_only_ctx "ListExp" (f64_list ∷ []) f64_list "ListExp<F64ListStruct, F64ListStruct>"
    ∷ []

-- `InitListLogFunc`
abbrev pub list_log_func : List Call
list_log_func =
    read_only_ctx "ListLog" (u8_list ∷ []) f64_list "ListLog<U8ListStruct, F64ListStruct>"
    ∷ read_only_ctx "ListLog" (u16_list ∷ []) f64_list "ListLog<U16ListStruct, F64ListStruct>"
    ∷ read_only_ctx "ListLog" (u32_list ∷ []) f64_list "ListLog<U32ListStruct, F64ListStruct>"
    ∷ read_only_ctx "ListLog" (u64_list ∷ []) f64_list "ListLog<U64ListStruct, F64ListStruct>"
    ∷ read_only_ctx "ListLog" (i8_list ∷ []) f64_list "ListLog<I8ListStruct, F64ListStruct>"
    ∷ read_only_ctx "ListLog" (i16_list ∷ []) f64_list "ListLog<I16ListStruct, F64ListStruct>"
    ∷ read_only_ctx "ListLog" (i32_list ∷ []) f64_list "ListLog<I32ListStruct, F64ListStruct>"
    ∷ read_only_ctx "ListLog" (i64_list ∷ []) f64_list "ListLog<I64ListStruct, F64ListStruct>"
    ∷ read_only_ctx "ListLog" (f32_list ∷ []) f32_list "ListLog<F32ListStruct, F32ListStruct>"
    ∷ read_only_ctx "ListLog" (f64_list ∷ []) f64_list "ListLog<F64ListStruct, F64ListStruct>"
    ∷ []

-- `InitListLog2Func`
abbrev pub list_log2_func : List Call
list_log2_func =
    read_only_ctx "ListLog2" (u8_list ∷ []) f64_list "ListLog2<U8ListStruct, F64ListStruct>"
    ∷ read_only_ctx "ListLog2" (u16_list ∷ []) f64_list "ListLog2<U16ListStruct, F64ListStruct>"
    ∷ read_only_ctx "ListLog2" (u32_list ∷ []) f64_list "ListLog2<U32ListStruct, F64ListStruct>"
    ∷ read_only_ctx "ListLog2" (u64_list ∷ []) f64_list "ListLog2<U64ListStruct, F64ListStruct>"
    ∷ read_only_ctx "ListLog2" (i8_list ∷ []) f64_list "ListLog2<I8ListStruct, F64ListStruct>"
    ∷ read_only_ctx "ListLog2" (i16_list ∷ []) f64_list "ListLog2<I16ListStruct, F64ListStruct>"
    ∷ read_only_ctx "ListLog2" (i32_list ∷ []) f64_list "ListLog2<I32ListStruct, F64ListStruct>"
    ∷ read_only_ctx "ListLog2" (i64_list ∷ []) f64_list "ListLog2<I64ListStruct, F64ListStruct>"
    ∷ read_only_ctx "ListLog2" (f32_list ∷ []) f32_list "ListLog2<F32ListStruct, F32ListStruct>"
    ∷ read_only_ctx "ListLog2" (f64_list ∷ []) f64_list "ListLog2<F64ListStruct, F64ListStruct>"
    ∷ []

-- `InitListLog10Func`
abbrev pub list_log10_func : List Call
list_log10_func =
    read_only_ctx "ListLog10" (u8_list ∷ []) f64_list "ListLog10<U8ListStruct, F64ListStruct>"
    ∷ read_only_ctx "ListLog10" (u16_list ∷ []) f64_list "ListLog10<U16ListStruct, F64ListStruct>"
    ∷ read_only_ctx "ListLog10" (u32_list ∷ []) f64_list "ListLog10<U32ListStruct, F64ListStruct>"
    ∷ read_only_ctx "ListLog10" (u64_list ∷ []) f64_list "ListLog10<U64ListStruct, F64ListStruct>"
    ∷ read_only_ctx "ListLog10" (i8_list ∷ []) f64_list "ListLog10<I8ListStruct, F64ListStruct>"
    ∷ read_only_ctx "ListLog10" (i16_list ∷ []) f64_list "ListLog10<I16ListStruct, F64ListStruct>"
    ∷ read_only_ctx "ListLog10" (i32_list ∷ []) f64_list "ListLog10<I32ListStruct, F64ListStruct>"
    ∷ read_only_ctx "ListLog10" (i64_list ∷ []) f64_list "ListLog10<I64ListStruct, F64ListStruct>"
    ∷ read_only_ctx "ListLog10" (f32_list ∷ []) f32_list "ListLog10<F32ListStruct, F32ListStruct>"
    ∷ read_only_ctx "ListLog10" (f64_list ∷ []) f64_list "ListLog10<F64ListStruct, F64ListStruct>"
    ∷ []

-- `InitListCeilFunc`
abbrev pub list_ceil_func : List Call
list_ceil_func =
    read_only_ctx "ListCeil" (f32_list ∷ []) f32_list "ListCeil<F32ListStruct>"
    ∷ read_only_ctx "ListCeil" (f64_list ∷ []) f64_list "ListCeil<F64ListStruct>"
    ∷ []

-- `InitListFloorFunc`
abbrev pub list_floor_func : List Call
list_floor_func =
    read_only_ctx "ListFloor" (f32_list ∷ []) f32_list "ListFloor<F32ListStruct>"
    ∷ read_only_ctx "ListFloor" (f64_list ∷ []) f64_list "ListFloor<F64ListStruct>"
    ∷ []

-- `InitListRoundFunc`
abbrev pub list_round_func : List Call
list_round_func =
    read_only_ctx "ListRound" (f32_list ∷ []) f32_list "ListRound<F32ListStruct>"
    ∷ read_only_ctx "ListRound" (f64_list ∷ []) f64_list "ListRound<F64ListStruct>"
    ∷ []

-- `InitListMinFunc`
abbrev pub list_min_func : List Call
list_min_func =
    read_only_ctx "ListMin" (u8_list ∷ u8 ∷ []) u8_list "ListMin<U8ListStruct>"
    ∷ read_only_ctx "ListMin" (u16_list ∷ u16 ∷ []) u16_list "ListMin<U16ListStruct>"
    ∷ read_only_ctx "ListMin" (u32_list ∷ u32 ∷ []) u32_list "ListMin<U32ListStruct>"
    ∷ read_only_ctx "ListMin" (u64_list ∷ u64 ∷ []) u64_list "ListMin<U64ListStruct>"
    ∷ read_only_ctx "ListMin" (i8_list ∷ i8 ∷ []) i8_list "ListMin<I8ListStruct>"
    ∷ read_only_ctx "ListMin" (i16_list ∷ i16 ∷ []) i16_list "ListMin<I16ListStruct>"
    ∷ read_only_ctx "ListMin" (i32_list ∷ i32 ∷ []) i32_list "ListMin<I32ListStruct>"
    ∷ read_only_ctx "ListMin" (i64_list ∷ i64 ∷ []) i64_list "ListMin<I64ListStruct>"
    ∷ read_only_ctx "ListMin" (f32_list ∷ f32 ∷ []) f32_list "ListMin<F32ListStruct>"
    ∷ read_only_ctx "ListMin" (f64_list ∷ f64 ∷ []) f64_list "ListMin<F64ListStruct>"
    ∷ []

-- `InitListMaxFunc`
abbrev pub list_max_func : List Call
list_max_func =
    read_only_ctx "ListMax" (u8_list ∷ u8 ∷ []) u8_list "ListMax<U8ListStruct>"
    ∷ read_only_ctx "ListMax" (u16_list ∷ u16 ∷ []) u16_list "ListMax<U16ListStruct>"
    ∷ read_only_ctx "ListMax" (u32_list ∷ u32 ∷ []) u32_list "ListMax<U32ListStruct>"
    ∷ read_only_ctx "ListMax" (u64_list ∷ u64 ∷ []) u64_list "ListMax<U64ListStruct>"
    ∷ read_only_ctx "ListMax" (i8_list ∷ i8 ∷ []) i8_list "ListMax<I8ListStruct>"
    ∷ read_only_ctx "ListMax" (i16_list ∷ i16 ∷ []) i16_list "ListMax<I16ListStruct>"
    ∷ read_only_ctx "ListMax" (i32_list ∷ i32 ∷ []) i32_list "ListMax<I32ListStruct>"
    ∷ read_only_ctx "ListMax" (i64_list ∷ i64 ∷ []) i64_list "ListMax<I64ListStruct>"
    ∷ read_only_ctx "ListMax" (f32_list ∷ f32 ∷ []) f32_list "ListMax<F32ListStruct>"
    ∷ read_only_ctx "ListMax" (f64_list ∷ f64 ∷ []) f64_list "ListMax<F64ListStruct>"
    ∷ []
