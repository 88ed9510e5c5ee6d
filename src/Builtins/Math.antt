-- ===== src/Builtins/Math.antt =====
-- src/function/math_function_init.cc: the functions on numbers, as they are registered.
use jitfusion.Common.{List, [], ◌∷◌, ◌++◌, String}
use jitfusion.Types.{ValueType, u8, i8, u16, i16, u32, i32, u64, i64, f32, f64}
use jitfusion.Builtins.Calls.{Call, intrinic}

-- `InitExpFunc`
abbrev pub exp_func : List Call
exp_func =
    intrinic "exp" (i32 ∷ []) f64 "CallBuiltinExpFunction"
    ∷ intrinic "exp" (i64 ∷ []) f64 "CallBuiltinExpFunction"
    ∷ intrinic "exp" (u32 ∷ []) f64 "CallBuiltinExpFunction"
    ∷ intrinic "exp" (u64 ∷ []) f64 "CallBuiltinExpFunction"
    ∷ intrinic "exp" (f32 ∷ []) f32 "CallBuiltinExpFunction"
    ∷ intrinic "exp" (f64 ∷ []) f64 "CallBuiltinExpFunction"
    ∷ []

-- `InitLogFunc`
abbrev pub log_func : List Call
log_func =
    intrinic "log" (i32 ∷ []) f64 "CallBuiltinLogFunction"
    ∷ intrinic "log" (i64 ∷ []) f64 "CallBuiltinLogFunction"
    ∷ intrinic "log" (u32 ∷ []) f64 "CallBuiltinLogFunction"
    ∷ intrinic "log" (u64 ∷ []) f64 "CallBuiltinLogFunction"
    ∷ intrinic "log" (f32 ∷ []) f32 "CallBuiltinLogFunction"
    ∷ intrinic "log" (f64 ∷ []) f64 "CallBuiltinLogFunction"
    ∷ intrinic "log2" (i32 ∷ []) f64 "CallBuiltinLog2Function"
    ∷ intrinic "log2" (i64 ∷ []) f64 "CallBuiltinLog2Function"
    ∷ intrinic "log2" (u32 ∷ []) f64 "CallBuiltinLog2Function"
    ∷ intrinic "log2" (u64 ∷ []) f64 "CallBuiltinLog2Function"
    ∷ intrinic "log2" (f32 ∷ []) f32 "CallBuiltinLog2Function"
    ∷ intrinic "log2" (f64 ∷ []) f64 "CallBuiltinLog2Function"
    ∷ intrinic "log10" (i32 ∷ []) f64 "CallBuiltinLog10Function"
    ∷ intrinic "log10" (i64 ∷ []) f64 "CallBuiltinLog10Function"
    ∷ intrinic "log10" (u32 ∷ []) f64 "CallBuiltinLog10Function"
    ∷ intrinic "log10" (u64 ∷ []) f64 "CallBuiltinLog10Function"
    ∷ intrinic "log10" (f32 ∷ []) f32 "CallBuiltinLog10Function"
    ∷ intrinic "log10" (f64 ∷ []) f64 "CallBuiltinLog10Function"
    ∷ []

-- `InitFracFunc`
abbrev pub frac_func : List Call
frac_func =
    intrinic "frac" (f32 ∷ []) f32 "CallBuiltinFracFunction"
    ∷ intrinic "frac" (f64 ∷ []) f64 "CallBuiltinFracFunction"
    ∷ []

-- `InitTruncFunc`
abbrev pub trunc_func : List Call
trunc_func =
    intrinic "trunc" (f32 ∷ []) f32 "CallBuiltinTruncFunction"
    ∷ intrinic "trunc" (f64 ∷ []) f64 "CallBuiltinTruncFunction"
    ∷ []

-- `InitPowFunc`
abbrev pub pow_func : List Call
pow_func =
    intrinic "pow" (f32 ∷ i32 ∷ []) f32 "CallBuiltinPowIFunction"
    ∷ intrinic "pow" (f64 ∷ i32 ∷ []) f64 "CallBuiltinPowIFunction"
    ∷ intrinic "pow" (i32 ∷ i32 ∷ []) f64 "CallBuiltinPowIFunction"
    ∷ intrinic "pow" (i64 ∷ i32 ∷ []) f64 "CallBuiltinPowIFunction"
    ∷ intrinic "pow" (f32 ∷ f32 ∷ []) f32 "CallBuiltinPowFunction"
    ∷ intrinic "pow" (f64 ∷ f64 ∷ []) f64 "CallBuiltinPowFunction"
    ∷ []

-- `InitTrigonometricFunc`
abbrev pub trigonometric_func : List Call
trigonometric_func =
    intrinic "sin" (f32 ∷ []) f32 "CallBuiltinSinFunction"
    ∷ intrinic "sin" (f64 ∷ []) f64 "CallBuiltinSinFunction"
    ∷ intrinic "cos" (f32 ∷ []) f32 "CallBuiltinCosFunction"
    ∷ intrinic "cos" (f64 ∷ []) f64 "CallBuiltinCosFunction"
    ∷ intrinic "tan" (f32 ∷ []) f32 "CallBuiltinTanFunction"
    ∷ intrinic "tan" (f64 ∷ []) f64 "CallBuiltinTanFunction"
    ∷ []

-- `InitSqrtFunc`
abbrev pub sqrt_func : List Call
sqrt_func =
    intrinic "sqrt" (f32 ∷ []) f32 "CallBuiltinSqrtFunction"
    ∷ intrinic "sqrt" (f64 ∷ []) f64 "CallBuiltinSqrtFunction"
    ∷ []

-- `InitAbsFunc`
abbrev pub abs_func : List Call
abs_func =
    intrinic "abs" (i8 ∷ []) i32 "CallBuiltinAbsFunction"
    ∷ intrinic "abs" (i16 ∷ []) i32 "CallBuiltinAbsFunction"
    ∷ intrinic "abs" (i32 ∷ []) i32 "CallBuiltinAbsFunction"
    ∷ intrinic "abs" (i64 ∷ []) i64 "CallBuiltinAbsFunction"
    ∷ intrinic "abs" (f32 ∷ []) f32 "CallBuiltinAbsFunction"
    ∷ intrinic "abs" (f64 ∷ []) f64 "CallBuiltinAbsFunction"
    ∷ []

-- `InitCeilFunc`
abbrev pub ceil_func : List Call
ceil_func =
    intrinic "ceil" (f32 ∷ []) f32 "CallBuiltinCeilFunction"
    ∷ intrinic "ceil" (f64 ∷ []) f64 "CallBuiltinCeilFunction"
    ∷ []

-- `InitFloorFunc`
abbrev pub floor_func : List Call
floor_func =
    intrinic "floor" (f32 ∷ []) f32 "CallBuiltinFloorFunction"
    ∷ intrinic "floor" (f64 ∷ []) f64 "CallBuiltinFloorFunction"
    ∷ []

-- `InitRoundFunc`
abbrev pub round_func : List Call
round_func =
    intrinic "round" (f32 ∷ []) f32 "CallBuiltinRoundFunction"
    ∷ intrinic "round" (f64 ∷ []) f64 "CallBuiltinRoundFunction"
    ∷ []

-- `InitMinFunc`
abbrev pub min_func : List Call
min_func =
    intrinic "min" (u8 ∷ u8 ∷ []) u8 "CallBuiltinMinFunction"
    ∷ intrinic "min" (u16 ∷ u16 ∷ []) u16 "CallBuiltinMinFunction"
    ∷ intrinic "min" (u32 ∷ u32 ∷ []) u32 "CallBuiltinMinFunction"
    ∷ intrinic "min" (u64 ∷ u64 ∷ []) u64 "CallBuiltinMinFunction"
    ∷ intrinic "min" (i8 ∷ i8 ∷ []) i8 "CallBuiltinMinFunction"
    ∷ intrinic "min" (i16 ∷ i16 ∷ []) i16 "CallBuiltinMinFunction"
    ∷ intrinic "min" (i32 ∷ i32 ∷ []) i32 "CallBuiltinMinFunction"
    ∷ intrinic "min" (i64 ∷ i64 ∷ []) i64 "CallBuiltinMinFunction"
    ∷ intrinic "min" (f32 ∷ f32 ∷ []) f32 "CallBuiltinMinFunction"
    ∷ intrinic "min" (f64 ∷ f64 ∷ []) f64 "CallBuiltinMinFunction"
    ∷ []

-- `InitMaxFunc`
abbrev pub max_func : List Call
max_func =
    intrinic "max" (u8 ∷ u8 ∷ []) u8 "CallBuiltinMaxFunction"
    ∷ intrinic "max" (u16 ∷ u16 ∷ []) u16 "CallBuiltinMaxFunction"
    ∷ intrinic "max" (u32 ∷ u32 ∷ []) u32 "CallBuiltinMaxFunction"
    ∷ intrinic "max" (u64 ∷ u64 ∷ []) u64 "CallBuiltinMaxFunction"
    ∷ intrinic "max" (i8 ∷ i8 ∷ []) i8 "CallBuiltinMaxFunction"
    ∷ intrinic "max" (i16 ∷ i16 ∷ []) i16 "CallBuiltinMaxFunction"
    ∷ intrinic "max" (i32 ∷ i32 ∷ []) i32 "CallBuiltinMaxFunction"
    ∷ intrinic "max" (i64 ∷ i64 ∷ []) i64 "CallBuiltinMaxFunction"
    ∷ intrinic "max" (f32 ∷ f32 ∷ []) f32 "CallBuiltinMaxFunction"
    ∷ intrinic "max" (f64 ∷ f64 ∷ []) f64 "CallBuiltinMaxFunction"
    ∷ []

-- `kTypeVec` of `InitCastFunc`
abbrev type_vec : List ValueType
type_vec = u8 ∷ i8 ∷ u16 ∷ i16 ∷ u32 ∷ i32 ∷ u64 ∷ i64 ∷ f32 ∷ f64 ∷ []

-- The inner loop of `InitCastFunc`
abbrev pub cast_calls : String → ValueType → List ValueType → List Call
cast_calls func_name ret_type [] = []
cast_calls func_name ret_type (args_type ∷ ts) =
    intrinic func_name (args_type ∷ []) ret_type "CallBuiltinCastFunction"
    ∷ cast_calls func_name ret_type ts

-- The outer loop, over `kNameWithType`
abbrev all_cast_calls : List (String × ValueType) → List Call
all_cast_calls [] = []
all_cast_calls ((func_name, ret_type) ∷ rest) =
    cast_calls func_name ret_type type_vec ++ all_cast_calls rest

-- `InitCastFunc`
abbrev pub cast_func : List Call
cast_func = all_cast_calls (
    ("CastU8", u8)
    ∷ ("CastI8", i8)
    ∷ ("CastU16", u16)
    ∷ ("CastI16", i16)
    ∷ ("CastU32", u32)
    ∷ ("CastI32", i32)
    ∷ ("CastU64", u64)
    ∷ ("CastI64", i64)
    ∷ ("CastF32", f32)
    ∷ ("CastF64", f64)
    ∷ [])
