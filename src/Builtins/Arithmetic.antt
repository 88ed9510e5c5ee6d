-- ===== src/Builtins/Arithmetic.antt =====
-- src/function/list_arithmetic.cc: the operators on lists, as they are registered.
use jitfusion.Common.{List, [], ◌∷◌}
use jitfusion.Types.{
  u8, i8, u16, i16, u32, i32, u64, i64, f32, f64, u8_list, i8_list, u16_list, i16_list, u32_list,
  i32_list, u64_list, i64_list, f32_list, f64_list,
}
use jitfusion.Builtins.Calls.{Call, read_only_ctx, commutative_ctx}

-- `InitListAddFunc`
abbrev pub list_add_func : List Call
list_add_func =
    read_only_ctx "ListAdd" (u8_list ∷ u8 ∷ []) u8_list "ListAdd<U8ListStruct>"
    ∷ read_only_ctx "ListAdd" (u16_list ∷ u16 ∷ []) u16_list "ListAdd<U16ListStruct>"
    ∷ read_only_ctx "ListAdd" (u32_list ∷ u32 ∷ []) u32_list "ListAdd<U32ListStruct>"
    ∷ read_only_ctx "ListAdd" (u64_list ∷ u64 ∷ []) u64_list "ListAdd<U64ListStruct>"
    ∷ read_only_ctx "ListAdd" (i8_list ∷ i8 ∷ []) i8_list "ListAdd<I8ListStruct>"
    ∷ read_only_ctx "ListAdd" (i16_list ∷ i16 ∷ []) i16_list "ListAdd<I16ListStruct>"
    ∷ read_only_ctx "ListAdd" (i32_list ∷ i32 ∷ []) i32_list "ListAdd<I32ListStruct>"
    ∷ read_only_ctx "ListAdd" (i64_list ∷ i64 ∷ []) i64_list "ListAdd<I64ListStruct>"
    ∷ read_only_ctx "ListAdd" (f32_list ∷ f32 ∷ []) f32_list "ListAdd<F32ListStruct>"
    ∷ read_only_ctx "ListAdd" (f64_list ∷ f64 ∷ []) f64_list "ListAdd<F64ListStruct>"
    ∷ commutative_ctx "ListAdd" (u8_list ∷ u8_list ∷ []) u8_list "ListAddList<U8ListStruct>"
    ∷ commutative_ctx "ListAdd" (u16_list ∷ u16_list ∷ []) u16_list "ListAddList<U16ListStruct>"
    ∷ commutative_ctx "ListAdd" (u32_list ∷ u32_list ∷ []) u32_list "ListAddList<U32ListStruct>"
    ∷ commutative_ctx "ListAdd" (u64_list ∷ u64_list ∷ []) u64_list "ListAddList<U64ListStruct>"
    ∷ commutative_ctx "ListAdd" (i8_list ∷ i8_list ∷ []) i8_list "ListAddList<I8ListStruct>"
    ∷ commutative_ctx "ListAdd" (i16_list ∷ i16_list ∷ []) i16_list "ListAddList<I16ListStruct>"
    ∷ commutative_ctx "ListAdd" (i32_list ∷ i32_list ∷ []) i32_list "ListAddList<I32ListStruct>"
    ∷ commutative_ctx "ListAdd" (i64_list ∷ i64_list ∷ []) i64_list "ListAddList<I64ListStruct>"
    ∷ commutative_ctx "ListAdd" (f32_list ∷ f32_list ∷ []) f32_list "ListAddList<F32ListStruct>"
    ∷ commutative_ctx "ListAdd" (f64_list ∷ f64_list ∷ []) f64_list "ListAddList<F64ListStruct>"
    ∷ []

-- `InitListSubFunc`
abbrev pub list_sub_func : List Call
list_sub_func =
    read_only_ctx "ListSub" (u8_list ∷ u8 ∷ []) u8_list "ListSub<U8ListStruct>"
    ∷ read_only_ctx "ListSub" (u16_list ∷ u16 ∷ []) u16_list "ListSub<U16ListStruct>"
    ∷ read_only_ctx "ListSub" (u32_list ∷ u32 ∷ []) u32_list "ListSub<U32ListStruct>"
    ∷ read_only_ctx "ListSub" (u64_list ∷ u64 ∷ []) u64_list "ListSub<U64ListStruct>"
    ∷ read_only_ctx "ListSub" (i8_list ∷ i8 ∷ []) i8_list "ListSub<I8ListStruct>"
    ∷ read_only_ctx "ListSub" (i16_list ∷ i16 ∷ []) i16_list "ListSub<I16ListStruct>"
    ∷ read_only_ctx "ListSub" (i32_list ∷ i32 ∷ []) i32_list "ListSub<I32ListStruct>"
    ∷ read_only_ctx "ListSub" (i64_list ∷ i64 ∷ []) i64_list "ListSub<I64ListStruct>"
    ∷ read_only_ctx "ListSub" (f32_list ∷ f32 ∷ []) f32_list "ListSub<F32ListStruct>"
    ∷ read_only_ctx "ListSub" (f64_list ∷ f64 ∷ []) f64_list "ListSub<F64ListStruct>"
    ∷ read_only_ctx "ListSub" (u8_list ∷ u8_list ∷ []) u8_list "ListSubList<U8ListStruct>"
    ∷ read_only_ctx "ListSub" (u16_list ∷ u16_list ∷ []) u16_list "ListSubList<U16ListStruct>"
    ∷ read_only_ctx "ListSub" (u32_list ∷ u32_list ∷ []) u32_list "ListSubList<U32ListStruct>"
    ∷ read_only_ctx "ListSub" (u64_list ∷ u64_list ∷ []) u64_list "ListSubList<U64ListStruct>"
    ∷ read_only_ctx "ListSub" (i8_list ∷ i8_list ∷ []) i8_list "ListSubList<I8ListStruct>"
    ∷ read_only_ctx "ListSub" (i16_list ∷ i16_list ∷ []) i16_list "ListSubList<I16ListStruct>"
    ∷ read_only_ctx "ListSub" (i32_list ∷ i32_list ∷ []) i32_list "ListSubList<I32ListStruct>"
    ∷ read_only_ctx "ListSub" (i64_list ∷ i64_list ∷ []) i64_list "ListSubList<I64ListStruct>"
    ∷ read_only_ctx "ListSub" (f32_list ∷ f32_list ∷ []) f32_list "ListSubList<F32ListStruct>"
    ∷ read_only_ctx "ListSub" (f64_list ∷ f64_list ∷ []) f64_list "ListSubList<F64ListStruct>"
    ∷ []

-- `InitListMulFunc`
abbrev pub list_mul_func : List Call
list_mul_func =
    read_only_ctx "ListMul" (u8_list ∷ u8 ∷ []) u8_list "ListMul<U8ListStruct>"
    ∷ read_only_ctx "ListMul" (u16_list ∷ u16 ∷ []) u16_list "ListMul<U16ListStruct>"
    ∷ read_only_ctx "ListMul" (u32_list ∷ u32 ∷ []) u32_list "ListMul<U32ListStruct>"
    ∷ read_only_ctx "ListMul" (u64_list ∷ u64 ∷ []) u64_list "ListMul<U64ListStruct>"
    ∷ read_only_ctx "ListMul" (i8_list ∷ i8 ∷ []) i8_list "ListMul<I8ListStruct>"
    ∷ read_only_ctx "ListMul" (i16_list ∷ i16 ∷ []) i16_list "ListMul<I16ListStruct>"
    ∷ read_only_ctx "ListMul" (i32_list ∷ i32 ∷ []) i32_list "ListMul<I32ListStruct>"
    ∷ read_only_ctx "ListMul" (i64_list ∷ i64 ∷ []) i64_list "ListMul<I64ListStruct>"
    ∷ read_only_ctx "ListMul" (f32_list ∷ f32 ∷ []) f32_list "ListMul<F32ListStruct>"
    ∷ read_only_ctx "ListMul" (f64_list ∷ f64 ∷ []) f64_list "ListMul<F64ListStruct>"
    ∷ commutative_ctx "ListMul" (u8_list ∷ u8_list ∷ []) u8_list "ListMulList<U8ListStruct>"
    ∷ commutative_ctx "ListMul" (u16_list ∷ u16_list ∷ []) u16_list "ListMulList<U16ListStruct>"
    ∷ commutative_ctx "ListMul" (u32_list ∷ u32_list ∷ []) u32_list "ListMulList<U32ListStruct>"
    ∷ commutative_ctx "ListMul" (u64_list ∷ u64_list ∷ []) u64_list "ListMulList<U64ListStruct>"
    ∷ commutative_ctx "ListMul" (i8_list ∷ i8_list ∷ []) i8_list "ListMulList<I8ListStruct>"
    ∷ commutative_ctx "ListMul" (i16_list ∷ i16_list ∷ []) i16_list "ListMulList<I16ListStruct>"
    ∷ commutative_ctx "ListMul" (i32_list ∷ i32_list ∷ []) i32_list "ListMulList<I32ListStruct>"
    ∷ commutative_ctx "ListMul" (i64_list ∷ i64_list ∷ []) i64_list "ListMulList<I64ListStruct>"
    ∷ commutative_ctx "ListMul" (f32_list ∷ f32_list ∷ []) f32_list "ListMulList<F32ListStruct>"
    ∷ commutative_ctx "ListMul" (f64_list ∷ f64_list ∷ []) f64_list "ListMulList<F64ListStruct>"
    ∷ []

-- `InitListDivFunc`
abbrev pub list_div_func : List Call
list_div_func =
    read_only_ctx "ListDiv" (u8_list ∷ u8 ∷ []) u8_list "ListDiv<U8ListStruct>"
    ∷ read_only_ctx "ListDiv" (u16_list ∷ u16 ∷ []) u16_list "ListDiv<U16ListStruct>"
    ∷ read_only_ctx "ListDiv" (u32_list ∷ u32 ∷ []) u32_list "ListDiv<U32ListStruct>"
    ∷ read_only_ctx "ListDiv" (u64_list ∷ u64 ∷ []) u64_list "ListDiv<U64ListStruct>"
    ∷ read_only_ctx "ListDiv" (i8_list ∷ i8 ∷ []) i8_list "ListDiv<I8ListStruct>"
    ∷ read_only_ctx "ListDiv" (i16_list ∷ i16 ∷ []) i16_list "ListDiv<I16ListStruct>"
    ∷ read_only_ctx "ListDiv" (i32_list ∷ i32 ∷ []) i32_list "ListDiv<I32ListStruct>"
    ∷ read_only_ctx "ListDiv" (i64_list ∷ i64 ∷ []) i64_list "ListDiv<I64ListStruct>"
    ∷ read_only_ctx "ListDiv" (f32_list ∷ f32 ∷ []) f32_list "ListDiv<F32ListStruct>"
    ∷ read_only_ctx "ListDiv" (f64_list ∷ f64 ∷ []) f64_list "ListDiv<F64ListStruct>"
    ∷ read_only_ctx "ListDiv" (u8_list ∷ u8_list ∷ []) u8_list "ListDivList<U8ListStruct>"
    ∷ read_only_ctx "ListDiv" (u16_list ∷ u16_list ∷ []) u16_list "ListDivList<U16ListStruct>"
    ∷ read_only_ctx "ListDiv" (u32_list ∷ u32_list ∷ []) u32_list "ListDivList<U32ListStruct>"
    ∷ read_only_ctx "ListDiv" (u64_list ∷ u64_list ∷ []) u64_list "ListDivList<U64ListStruct>"
    ∷ read_only_ctx "ListDiv" (i8_list ∷ i8_list ∷ []) i8_list "ListDivList<I8ListStruct>"
    ∷ read_only_ctx "ListDiv" (i16_list ∷ i16_list ∷ []) i16_list "ListDivList<I16ListStruct>"
    ∷ read_only_ctx "ListDiv" (i32_list ∷ i32_list ∷ []) i32_list "ListDivList<I32ListStruct>"
    ∷ read_only_ctx "ListDiv" (i64_list ∷ i64_list ∷ []) i64_list "ListDivList<I64ListStruct>"
    ∷ read_only_ctx "ListDiv" (f32_list ∷ f32_list ∷ []) f32_list "ListDivList<F32ListStruct>"
    ∷ read_only_ctx "ListDiv" (f64_list ∷ f64_list ∷ []) f64_list "ListDivList<F64ListStruct>"
    ∷ []

-- `InitListModFunc`
abbrev pub list_mod_func : List Call
list_mod_func =
    read_only_ctx "ListMod" (u8_list ∷ u8 ∷ []) u8_list "ListMod<U8ListStruct>"
    ∷ read_only_ctx "ListMod" (u16_list ∷ u16 ∷ []) u16_list "ListMod<U16ListStruct>"
    ∷ read_only_ctx "ListMod" (u32_list ∷ u32 ∷ []) u32_list "ListMod<U32ListStruct>"
    ∷ read_only_ctx "ListMod" (u64_list ∷ u64 ∷ []) u64_list "ListMod<U64ListStruct>"
    ∷ read_only_ctx "ListMod" (i8_list ∷ i8 ∷ []) i8_list "ListMod<I8ListStruct>"
    ∷ read_only_ctx "ListMod" (i16_list ∷ i16 ∷ []) i16_list "ListMod<I16ListStruct>"
    ∷ read_only_ctx "ListMod" (i32_list ∷ i32 ∷ []) i32_list "ListMod<I32ListStruct>"
    ∷ read_only_ctx "ListMod" (i64_list ∷ i64 ∷ []) i64_list "ListMod<I64ListStruct>"
    ∷ read_only_ctx "ListMod" (u8_list ∷ u8_list ∷ []) u8_list "ListModList<U8ListStruct>"
    ∷ read_only_ctx "ListMod" (u16_list ∷ u16_list ∷ []) u16_list "ListModList<U16ListStruct>"
    ∷ read_only_ctx "ListMod" (u32_list ∷ u32_list ∷ []) u32_list "ListModList<U32ListStruct>"
    ∷ read_only_ctx "ListMod" (u64_list ∷ u64_list ∷ []) u64_list "ListModList<U64ListStruct>"
    ∷ read_only_ctx "ListMod" (i8_list ∷ i8_list ∷ []) i8_list "ListModList<I8ListStruct>"
    ∷ read_only_ctx "ListMod" (i16_list ∷ i16_list ∷ []) i16_list "ListModList<I16ListStruct>"
    ∷ read_only_ctx "ListMod" (i32_list ∷ i32_list ∷ []) i32_list "ListModList<I32ListStruct>"
    ∷ read_only_ctx "ListMod" (i64_list ∷ i64_list ∷ []) i64_list "ListModList<I64ListStruct>"
    ∷ []

-- `InitListBitwiseAndFunc`
abbrev pub list_bitwise_and_func : List Call
list_bitwise_and_func =
    read_only_ctx "ListBitwiseAnd" (u8_list ∷ u8 ∷ []) u8_list "ListBitwiseAnd<U8ListStruct>"
    ∷ read_only_ctx "ListBitwiseAnd" (u16_list ∷ u16 ∷ []) u16_list "ListBitwiseAnd<U16ListStruct>"
    ∷ read_only_ctx "ListBitwiseAnd" (u32_list ∷ u32 ∷ []) u32_list "ListBitwiseAnd<U32ListStruct>"
    ∷ read_only_ctx "ListBitwiseAnd" (u64_list ∷ u64 ∷ []) u64_list "ListBitwiseAnd<U64ListStruct>"
    ∷ read_only_ctx "ListBitwiseAnd" (i8_list ∷ i8 ∷ []) i8_list "ListBitwiseAnd<I8ListStruct>"
    ∷ read_only_ctx "ListBitwiseAnd" (i16_list ∷ i16 ∷ []) i16_list "ListBitwiseAnd<I16ListStruct>"
    ∷ read_only_ctx "ListBitwiseAnd" (i32_list ∷ i32 ∷ []) i32_list "ListBitwiseAnd<I32ListStruct>"
    ∷ read_only_ctx "ListBitwiseAnd" (i64_list ∷ i64 ∷ []) i64_list "ListBitwiseAnd<I64ListStruct>"
    ∷ commutative_ctx "ListBitwiseAnd" (u8_list ∷ u8_list ∷ []) u8_list
        "ListBitwiseAndList<U8ListStruct>"
    ∷ commutative_ctx "ListBitwiseAnd" (u16_list ∷ u16_list ∷ []) u16_list
        "ListBitwiseAndList<U16ListStruct>"
    ∷ commutative_ctx "ListBitwiseAnd" (u32_list ∷ u32_list ∷ []) u32_list
        "ListBitwiseAndList<U32ListStruct>"
    ∷ commutative_ctx "ListBitwiseAnd" (u64_list ∷ u64_list ∷ []) u64_list
        "ListBitwiseAndList<U64ListStruct>"
    ∷ commutative_ctx "ListBitwiseAnd" (i8_list ∷ i8_list ∷ []) i8_list
        "ListBitwiseAndList<I8ListStruct>"
    ∷ commutative_ctx "ListBitwiseAnd" (i16_list ∷ i16_list ∷ []) i16_list
        "ListBitwiseAndList<I16ListStruct>"
    ∷ commutative_ctx "ListBitwiseAnd" (i32_list ∷ i32_list ∷ []) i32_list
        "ListBitwiseAndList<I32ListStruct>"
    ∷ commutative_ctx "ListBitwiseAnd" (i64_list ∷ i64_list ∷ []) i64_list
        "ListBitwiseAndList<I64ListStruct>"
    ∷ []

-- `InitListBitwiseOrFunc`
abbrev pub list_bitwise_or_func : List Call
list_bitwise_or_func =
    read_only_ctx "ListBitwiseOr" (u8_list ∷ u8 ∷ []) u8_list "ListBitwiseOr<U8ListStruct>"
    ∷ read_only_ctx "ListBitwiseOr" (u16_list ∷ u16 ∷ []) u16_list "ListBitwiseOr<U16ListStruct>"
    ∷ read_only_ctx "ListBitwiseOr" (u32_list ∷ u32 ∷ []) u32_list "ListBitwiseOr<U32ListStruct>"
    ∷ read_only_ctx "ListBitwiseOr" (u64_list ∷ u64 ∷ []) u64_list "ListBitwiseOr<U64ListStruct>"
    ∷ read_only_ctx "ListBitwiseOr" (i8_list ∷ i8 ∷ []) i8_list "ListBitwiseOr<I8ListStruct>"
    ∷ read_only_ctx "ListBitwiseOr" (i16_list ∷ i16 ∷ []) i16_list "ListBitwiseOr<I16ListStruct>"
    ∷ read_only_ctx "ListBitwiseOr" (i32_list ∷ i32 ∷ []) i32_list "ListBitwiseOr<I32ListStruct>"
    ∷ read_only_ctx "ListBitwiseOr" (i64_list ∷ i64 ∷ []) i64_list "ListBitwiseOr<I64ListStruct>"
    ∷ commutative_ctx "ListBitwiseOr" (u8_list ∷ u8_list ∷ []) u8_list
        "ListBitwiseOrList<U8ListStruct>"
    ∷ commutative_ctx "ListBitwiseOr" (u16_list ∷ u16_list ∷ []) u16_list
        "ListBitwiseOrList<U16ListStruct>"
    ∷ commutative_ctx "ListBitwiseOr" (u32_list ∷ u32_list ∷ []) u32_list
        "ListBitwiseOrList<U32ListStruct>"
    ∷ commutative_ctx "ListBitwiseOr" (u64_list ∷ u64_list ∷ []) u64_list
        "ListBitwiseOrList<U64ListStruct>"
    ∷ commutative_ctx "ListBitwiseOr" (i8_list ∷ i8_list ∷ []) i8_list
        "ListBitwiseOrList<I8ListStruct>"
    ∷ commutative_ctx "ListBitwiseOr" (i16_list ∷ i16_list ∷ []) i16_list
        "ListBitwiseOrList<I16ListStruct>"
    ∷ commutative_ctx "ListBitwiseOr" (i32_list ∷ i32_list ∷ []) i32_list
        "ListBitwiseOrList<I32ListStruct>"
    ∷ commutative_ctx "ListBitwiseOr" (i64_list ∷ i64_list ∷ []) i64_list
        "ListBitwiseOrList<I64ListStruct>"
    ∷ []

-- `InitListBitwiseXorFunc`
abbrev pub list_bitwise_xor_func : List Call
list_bitwise_xor_func =
    read_only_ctx "ListBitwiseXor" (u8_list ∷ u8 ∷ []) u8_list "ListBitwiseXor<U8ListStruct>"
    ∷ read_only_ctx "ListBitwiseXor" (u16_list ∷ u16 ∷ []) u16_list "ListBitwiseXor<U16ListStruct>"
    ∷ read_only_ctx "ListBitwiseXor" (u32_list ∷ u32 ∷ []) u32_list "ListBitwiseXor<U32ListStruct>"
    ∷ read_only_ctx "ListBitwiseXor" (u64_list ∷ u64 ∷ []) u64_list "ListBitwiseXor<U64ListStruct>"
    ∷ read_only_ctx "ListBitwiseXor" (i8_list ∷ i8 ∷ []) i8_list "ListBitwiseXor<I8ListStruct>"
    ∷ read_only_ctx "ListBitwiseXor" (i16_list ∷ i16 ∷ []) i16_list "ListBitwiseXor<I16ListStruct>"
    ∷ read_only_ctx "ListBitwiseXor" (i32_list ∷ i32 ∷ []) i32_list "ListBitwiseXor<I32ListStruct>"
    ∷ read_only_ctx "ListBitwiseXor" (i64_list ∷ i64 ∷ []) i64_list "ListBitwiseXor<I64ListStruct>"
    ∷ commutative_ctx "ListBitwiseXor" (u8_list ∷ u8_list ∷ []) u8_list
        "ListBitwiseXorList<U8ListStruct>"
    ∷ commutative_ctx "ListBitwiseXor" (u16_list ∷ u16_list ∷ []) u16_list
        "ListBitwiseXorList<U16ListStruct>"
    ∷ commutative_ctx "ListBitwiseXor" (u32_list ∷ u32_list ∷ []) u32_list
        "ListBitwiseXorList<U32ListStruct>"
    ∷ commutative_ctx "ListBitwiseXor" (u64_list ∷ u64_list ∷ []) u64_list
        "ListBitwiseXorList<U64ListStruct>"
    ∷ commutative_ctx "ListBitwiseXor" (i8_list ∷ i8_list ∷ []) i8_list
        "ListBitwiseXorList<I8ListStruct>"
    ∷ commutative_ctx "ListBitwiseXor" (i16_list ∷ i16_list ∷ []) i16_list
        "ListBitwiseXorList<I16ListStruct>"
    ∷ commutative_ctx "ListBitwiseXor" (i32_list ∷ i32_list ∷ []) i32_list
        "ListBitwiseXorList<I32ListStruct>"
    ∷ commutative_ctx "ListBitwiseXor" (i64_list ∷ i64_list ∷ []) i64_list
        "ListBitwiseXorList<I64ListStruct>"
    ∷ []
