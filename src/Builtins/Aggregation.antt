-- ===== src/Builtins/Aggregation.antt =====
-- src/function/list_aggregation.cc: the aggregations of a list, as they are registered.
use jitfusion.Common.{List, [], ◌∷◌}
use jitfusion.Types.{
  u8, i8, u16, i16, u32, i32, u64, i64, f32, f64, u8_list, i8_list, u16_list, i16_list, u32_list,
  i32_list, u64_list, i64_list, f32_list, f64_list,
}
use jitfusion.Builtins.Calls.{Call, read_only}

-- `InitSumFunc`
abbrev pub sum_func : List Call
sum_func =
    read_only "Sum" (u8_list ∷ []) u64 "Sum<uint64_t, U8ListStruct>"
    ∷ read_only "Sum" (i8_list ∷ []) i64 "Sum<int64_t, I8ListStruct>"
    ∷ read_only "Sum" (u16_list ∷ []) u64 "Sum<uint64_t, U16ListStruct>"
    ∷ read_only "Sum" (i16_list ∷ []) i64 "Sum<int64_t, I16ListStruct>"
    ∷ read_only "Sum" (u32_list ∷ []) u64 "Sum<uint64_t, U32ListStruct>"
    ∷ read_only "Sum" (i32_list ∷ []) i64 "Sum<int64_t, I32ListStruct>"
    ∷ read_only "Sum" (u64_list ∷ []) u64 "Sum<uint64_t, U64ListStruct>"
    ∷ read_only "Sum" (i64_list ∷ []) i64 "Sum<int64_t, I64ListStruct>"
    ∷ read_only "Sum" (f32_list ∷ []) f64 "Sum<double, F32ListStruct>"
    ∷ read_only "Sum" (f64_list ∷ []) f64 "Sum<double, F64ListStruct>"
    ∷ []

-- `InitMaxFunc`
abbrev pub max_func : List Call
max_func =
    read_only "Max" (u8_list ∷ []) u8 "Max<U8ListStruct>"
    ∷ read_only "Max" (i8_list ∷ []) i8 "Max<I8ListStruct>"
    ∷ read_only "Max" (u16_list ∷ []) u16 "Max<U16ListStruct>"
    ∷ read_only "Max" (i16_list ∷ []) i16 "Max<I16ListStruct>"
    ∷ read_only "Max" (u32_list ∷ []) u32 "Max<U32ListStruct>"
    ∷ read_only "Max" (i32_list ∷ []) i32 "Max<I32ListStruct>"
    ∷ read_only "Max" (u64_list ∷ []) u64 "Max<U64ListStruct>"
    ∷ read_only "Max" (i64_list ∷ []) i64 "Max<I64ListStruct>"
    ∷ read_only "Max" (f32_list ∷ []) f32 "Max<F32ListStruct>"
    ∷ read_only "Max" (f64_list ∷ []) f64 "Max<F64ListStruct>"
    ∷ []

-- `InitMinFunc`
abbrev pub min_func : List Call
min_func =
    read_only "Min" (u8_list ∷ []) u8 "Min<U8ListStruct>"
    ∷ read_only "Min" (i8_list ∷ []) i8 "Min<I8ListStruct>"
    ∷ read_only "Min" (u16_list ∷ []) u16 "Min<U16ListStruct>"
    ∷ read_only "Min" (i16_list ∷ []) i16 "Min<I16ListStruct>"
    ∷ read_only "Min" (u32_list ∷ []) u32 "Min<U32ListStruct>"
    ∷ read_only "Min" (i32_list ∷ []) i32 "Min<I32ListStruct>"
    ∷ read_only "Min" (u64_list ∷ []) u64 "Min<U64ListStruct>"
    ∷ read_only "Min" (i64_list ∷ []) i64 "Min<I64ListStruct>"
    ∷ read_only "Min" (f32_list ∷ []) f32 "Min<F32ListStruct>"
    ∷ read_only "Min" (f64_list ∷ []) f64 "Min<F64ListStruct>"
    ∷ []

-- `InitCountDistinctFunc`
abbrev pub count_distinct_func : List Call
count_distinct_func =
    read_only "CountDistinct" (u8_list ∷ []) u32 "CountDistinct<U8ListStruct>"
    ∷ read_only "CountDistinct" (i8_list ∷ []) u32 "CountDistinct<I8ListStruct>"
    ∷ read_only "CountDistinct" (u16_list ∷ []) u32 "CountDistinct<U16ListStruct>"
    ∷ read_only "CountDistinct" (i16_list ∷ []) u32 "CountDistinct<I16ListStruct>"
    ∷ read_only "CountDistinct" (u32_list ∷ []) u32 "CountDistinct<U32ListStruct>"
    ∷ read_only "CountDistinct" (i32_list ∷ []) u32 "CountDistinct<I32ListStruct>"
    ∷ read_only "CountDistinct" (u64_list ∷ []) u32 "CountDistinct<U64ListStruct>"
    ∷ read_only "CountDistinct" (i64_list ∷ []) u32 "CountDistinct<I64ListStruct>"
    ∷ read_only "CountDistinct" (f32_list ∷ []) u32 "CountDistinct<F32ListStruct>"
    ∷ read_only "CountDistinct" (f64_list ∷ []) u32 "CountDistinct<F64ListStruct>"
    ∷ []

-- `InitCountBitsFunc`
abbrev pub count_bits_func : List Call
count_bits_func = read_only "CountBits" (u8_list ∷ []) u32 "CountBits" ∷ []

-- `InitMedianFunc`
abbrev pub median_func : List Call
median_func =
    read_only "Median" (u8_list ∷ []) f64 "Median<U8ListStruct>"
    ∷ read_only "Median" (i8_list ∷ []) f64 "Median<I8ListStruct>"
    ∷ read_only "Median" (u16_list ∷ []) f64 "Median<U16ListStruct>"
    ∷ read_only "Median" (i16_list ∷ []) f64 "Median<I16ListStruct>"
    ∷ read_only "Median" (u32_list ∷ []) f64 "Median<U32ListStruct>"
    ∷ read_only "Median" (i32_list ∷ []) f64 "Median<I32ListStruct>"
    ∷ read_only "Median" (u64_list ∷ []) f64 "Median<U64ListStruct>"
    ∷ read_only "Median" (i64_list ∷ []) f64 "Median<I64ListStruct>"
    ∷ read_only "Median" (f32_list ∷ []) f64 "Median<F32ListStruct>"
    ∷ read_only "Median" (f64_list ∷ []) f64 "Median<F64ListStruct>"
    ∷ []

-- `InitSortedMedianFunc`
abbrev pub sorted_median_func : List Call
sorted_median_func =
    read_only "SortedMedian" (u8_list ∷ []) f64 "SortedMedian<U8ListStruct>"
    ∷ read_only "SortedMedian" (i8_list ∷ []) f64 "SortedMedian<I8ListStruct>"
    ∷ read_only "SortedMedian" (u16_list ∷ []) f64 "SortedMedian<U16ListStruct>"
    ∷ read_only "SortedMedian" (i16_list ∷ []) f64 "SortedMedian<I16ListStruct>"
    ∷ read_only "SortedMedian" (u32_list ∷ []) f64 "SortedMedian<U32ListStruct>"
    ∷ read_only "SortedMedian" (i32_list ∷ []) f64 "SortedMedian<I32ListStruct>"
    ∷ read_only "SortedMedian" (u64_list ∷ []) f64 "SortedMedian<U64ListStruct>"
    ∷ read_only "SortedMedian" (i64_list ∷ []) f64 "SortedMedian<I64ListStruct>"
    ∷ read_only "SortedMedian" (f32_list ∷ []) f64 "SortedMedian<F32ListStruct>"
    ∷ read_only "SortedMedian" (f64_list ∷ []) f64 "SortedMedian<F64ListStruct>"
    ∷ []

-- `InitGetAtFunc`
abbrev pub get_at_func : List Call
get_at_func =
    read_only "GetAt" (u8_list ∷ u32 ∷ []) u8 "GetAt<U8ListStruct>"
    ∷ read_only "GetAt" (i8_list ∷ u32 ∷ []) i8 "GetAt<I8ListStruct>"
    ∷ read_only "GetAt" (u16_list ∷ u32 ∷ []) u16 "GetAt<U16ListStruct>"
    ∷ read_only "GetAt" (i16_list ∷ u32 ∷ []) i16 "GetAt<I16ListStruct>"
    ∷ read_only "GetAt" (u32_list ∷ u32 ∷ []) u32 "GetAt<U32ListStruct>"
    ∷ read_only "GetAt" (i32_list ∷ u32 ∷ []) i32 "GetAt<I32ListStruct>"
    ∷ read_only "GetAt" (u64_list ∷ u32 ∷ []) u64 "GetAt<U64ListStruct>"
    ∷ read_only "GetAt" (i64_list ∷ u32 ∷ []) i64 "GetAt<I64ListStruct>"
    ∷ read_only "GetAt" (f32_list ∷ u32 ∷ []) f32 "GetAt<F32ListStruct>"
    ∷ read_only "GetAt" (f64_list ∷ u32 ∷ []) f64 "GetAt<F64ListStruct>"
    ∷ []

-- `InitAvgFunc`
abbrev pub avg_func : List Call
avg_func =
    read_only "Avg" (u8_list ∷ []) f64 "Avg<U8ListStruct>"
    ∷ read_only "Avg" (i8_list ∷ []) f64 "Avg<I8ListStruct>"
    ∷ read_only "Avg" (u16_list ∷ []) f64 "Avg<U16ListStruct>"
    ∷ read_only "Avg" (i16_list ∷ []) f64 "Avg<I16ListStruct>"
    ∷ read_only "Avg" (u32_list ∷ []) f64 "Avg<U32ListStruct>"
    ∷ read_only "Avg" (i32_list ∷ []) f64 "Avg<I32ListStruct>"
    ∷ read_only "Avg" (u64_list ∷ []) f64 "Avg<U64ListStruct>"
    ∷ read_only "Avg" (i64_list ∷ []) f64 "Avg<I64ListStruct>"
    ∷ read_only "Avg" (f32_list ∷ []) f64 "Avg<F32ListStruct>"
    ∷ read_only "Avg" (f64_list ∷ []) f64 "Avg<F64ListStruct>"
    ∷ []
