-- ===== src/Builtins/Casts.antt =====
-- src/function/list_basic.cc: the conversions of lists, as they are registered.
use jitfusion.Common.{List, [], ◌∷◌, ◌++◌, String, Bool, true, false, if◌then◌else◌}
use Prim.Native.String.{◌++◌ as ◌<>◌}
use jitfusion.Types.{
  ValueType, ◌=ᵗ◌, u8_list, i8_list, u16_list, i16_list, u32_list, i32_list, u64_list, i64_list,
  f32_list, f64_list, string_list,
}
use jitfusion.Builtins.Calls.{Call, read_only_ctx}

-- `RegisterNumericListCast`: nothing to register from a type to itself
abbrev pub numeric_list_cast : String → ValueType → String → ValueType → List Call
numeric_list_cast func_name input_list_vt symbol output_list_vt =
    if input_list_vt =ᵗ output_list_vt
    then []
    else read_only_ctx func_name (input_list_vt ∷ []) output_list_vt symbol ∷ []

-- `RegisterAllInputsForNumericListCast`, for the name and the type of the elements of the output
abbrev pub all_numeric_list_casts : String → String → ValueType → Bool → List Call
all_numeric_list_casts output func_name output_list_vt is_floating_point =
    numeric_list_cast func_name u8_list (conversion "U8ListStruct") output_list_vt
    ++ numeric_list_cast func_name i8_list (conversion "I8ListStruct") output_list_vt
    ++ numeric_list_cast func_name u16_list (conversion "U16ListStruct") output_list_vt
    ++ numeric_list_cast func_name i16_list (conversion "I16ListStruct") output_list_vt
    ++ numeric_list_cast func_name u32_list (conversion "U32ListStruct") output_list_vt
    ++ numeric_list_cast func_name i32_list (conversion "I32ListStruct") output_list_vt
    ++ numeric_list_cast func_name u64_list (conversion "U64ListStruct") output_list_vt
    ++ numeric_list_cast func_name i64_list (conversion "I64ListStruct") output_list_vt
    ++ numeric_list_cast func_name f32_list (conversion "F32ListStruct") output_list_vt
    ++ numeric_list_cast func_name f64_list (conversion "F64ListStruct") output_list_vt
    ++ (if is_floating_point
        then []
        else read_only_ctx func_name (string_list ∷ []) output_list_vt
            ("ListCastStringToNumeric<" <> output <> ">")
          ∷ [])
  where
    conversion : String → String
    conversion input = "ListCastNumericToNumeric<" <> input <> ", " <> output <> ">"

-- `InitListCastFunc`
abbrev pub list_cast_func : List Call
list_cast_func =
    all_numeric_list_casts "U8ListStruct" "CastU8List" u8_list false
    ++ all_numeric_list_casts "I8ListStruct" "CastI8List" i8_list false
    ++ all_numeric_list_casts "U16ListStruct" "CastU16List" u16_list false
    ++ all_numeric_list_casts "I16ListStruct" "CastI16List" i16_list false
    ++ all_numeric_list_casts "U32ListStruct" "CastU32List" u32_list false
    ++ all_numeric_list_casts "I32ListStruct" "CastI32List" i32_list false
    ++ all_numeric_list_casts "U64ListStruct" "CastU64List" u64_list false
    ++ all_numeric_list_casts "I64ListStruct" "CastI64List" i64_list false
    ++ all_numeric_list_casts "F32ListStruct" "CastF32List" f32_list true
    ++ all_numeric_list_casts "F64ListStruct" "CastF64List" f64_list true
    ++ read_only_ctx "CastStringList" (u8_list ∷ []) string_list
        "ListCastNumericToString<U8ListStruct>"
      ∷ read_only_ctx "CastStringList" (i8_list ∷ []) string_list
          "ListCastNumericToString<I8ListStruct>"
      ∷ read_only_ctx "CastStringList" (u16_list ∷ []) string_list
          "ListCastNumericToString<U16ListStruct>"
      ∷ read_only_ctx "CastStringList" (i16_list ∷ []) string_list
          "ListCastNumericToString<I16ListStruct>"
      ∷ read_only_ctx "CastStringList" (u32_list ∷ []) string_list
          "ListCastNumericToString<U32ListStruct>"
      ∷ read_only_ctx "CastStringList" (i32_list ∷ []) string_list
          "ListCastNumericToString<I32ListStruct>"
      ∷ read_only_ctx "CastStringList" (u64_list ∷ []) string_list
          "ListCastNumericToString<U64ListStruct>"
      ∷ read_only_ctx "CastStringList" (i64_list ∷ []) string_list
          "ListCastNumericToString<I64ListStruct>"
      ∷ read_only_ctx "CastStringList" (f32_list ∷ []) string_list
          "ListCastNumericToString<F32ListStruct>"
      ∷ read_only_ctx "CastStringList" (f64_list ∷ []) string_list
          "ListCastNumericToString<F64ListStruct>"
      ∷ []
