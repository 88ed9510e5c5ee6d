-- ===== src/Builtins/Strings.antt =====
-- src/function/string_function_init.cc: the functions on strings, as they are registered.
use jitfusion.Common.{List, [], ◌∷◌}
use jitfusion.Types.{u8, i8, u16, i16, u32, i32, u64, i64, f32, f64, string}
use jitfusion.Builtins.Calls.{Call, intrinic, read_only, read_only_ctx}

-- `InitStringInternalFunc`
abbrev pub string_internal_func : List Call
string_internal_func =
    read_only_ctx "StringConcat" (string ∷ string ∷ []) string "StringConcat"
    ∷ read_only "StringCmp" (string ∷ string ∷ []) i32 "StringCmp"
    ∷ intrinic "StringLen" (string ∷ []) u32 "CallBuiltinStringLenFunction"
    ∷ read_only "StringContains" (string ∷ string ∷ []) u8 "StringContains"
    ∷ read_only_ctx "CastString" (u8 ∷ []) string "CastNumericToString<uint8_t>"
    ∷ read_only_ctx "CastString" (i8 ∷ []) string "CastNumericToString<int8_t>"
    ∷ read_only_ctx "CastString" (u16 ∷ []) string "CastNumericToString<uint16_t>"
    ∷ read_only_ctx "CastString" (i16 ∷ []) string "CastNumericToString<int16_t>"
    ∷ read_only_ctx "CastString" (u32 ∷ []) string "CastNumericToString<uint32_t>"
    ∷ read_only_ctx "CastString" (i32 ∷ []) string "CastNumericToString<int32_t>"
    ∷ read_only_ctx "CastString" (u64 ∷ []) string "CastNumericToString<uint64_t>"
    ∷ read_only_ctx "CastString" (i64 ∷ []) string "CastNumericToString<int64_t>"
    ∷ read_only_ctx "CastString" (f32 ∷ []) string "CastNumericToString<float>"
    ∷ read_only_ctx "CastString" (f64 ∷ []) string "CastNumericToString<double>"
    ∷ read_only "CastU8" (string ∷ []) u8 "CastStringToNumeric<uint8_t>"
    ∷ read_only "CastI8" (string ∷ []) i8 "CastStringToNumeric<int8_t>"
    ∷ read_only "CastU16" (string ∷ []) u16 "CastStringToNumeric<uint16_t>"
    ∷ read_only "CastI16" (string ∷ []) i16 "CastStringToNumeric<int16_t>"
    ∷ read_only "CastU32" (string ∷ []) u32 "CastStringToNumeric<uint32_t>"
    ∷ read_only "CastI32" (string ∷ []) i32 "CastStringToNumeric<int32_t>"
    ∷ read_only "CastU64" (string ∷ []) u64 "CastStringToNumeric<uint64_t>"
    ∷ read_only "CastI64" (string ∷ []) i64 "CastStringToNumeric<int64_t>"
    ∷ []
