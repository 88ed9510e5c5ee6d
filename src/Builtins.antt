-- ===== src/Builtins.antt =====
-- src/function/function_init.h, the files of src/function and `FunctionRegistry::Init` of
-- src/function_registry.cc: the functions that every registry starts with, in the order in which
-- they are registered. Each child holds the tables of one source file or of a part of it.
pub mod Calls
pub mod Math
pub mod Strings
pub mod Arithmetic
pub mod Elementwise
pub mod Branches
pub mod Bitmaps
pub mod BitmapsLess
pub mod Filters
pub mod Aggregation
pub mod Basic
pub mod Groups
pub mod GroupFolds
pub mod Indexing
pub mod Casts
pub mod Fresh
pub mod Entries
pub mod Registers
pub mod Complete
pub mod Operators
mod Examples
use jitfusion.Common.{ℕ, List, [], ◌∷◌, String}
use jitfusion.Common.Result.{Result, ok, ◌>>=◌}
use jitfusion.Registry.{Error, Registry}
use Calls.{Call, calls}

-- A function of the source that runs others in order, each under `JF_RETURN_NOT_OK`
unfoldable pub in_order : (String → ℕ) → List (List Call) → Registry → Result Error Registry
unfolding calls
in_order address [] r = ok r
in_order address (cs ∷ css) r = calls address cs r >>= in_order address css

-- `InitMathInternalFunc`
abbrev pub math_internal_func : List (List Call)
math_internal_func =
    Math.exp_func ∷ Math.log_func ∷ Math.frac_func ∷ Math.trunc_func ∷ Math.pow_func
    ∷ Math.trigonometric_func ∷ Math.sqrt_func ∷ Math.abs_func ∷ Math.ceil_func ∷ Math.floor_func
    ∷ Math.round_func ∷ Math.min_func ∷ Math.max_func ∷ Math.cast_func ∷ []

-- `InitListArithmeticFunc`
abbrev pub list_arithmetic_func : List (List Call)
list_arithmetic_func =
    Arithmetic.list_add_func ∷ Arithmetic.list_sub_func ∷ Arithmetic.list_mul_func
    ∷ Arithmetic.list_div_func ∷ Arithmetic.list_mod_func ∷ Arithmetic.list_bitwise_and_func
    ∷ Arithmetic.list_bitwise_or_func ∷ Arithmetic.list_bitwise_xor_func ∷ Elementwise.list_exp_func
    ∷ Elementwise.list_log_func ∷ Elementwise.list_log2_func ∷ Elementwise.list_log10_func
    ∷ Elementwise.list_ceil_func ∷ Elementwise.list_floor_func ∷ Elementwise.list_round_func
    ∷ Elementwise.list_min_func ∷ Elementwise.list_max_func ∷ []

-- `InitIfFunc`
abbrev pub if_func : List (List Call)
if_func =
    Branches.if_large_func ∷ Branches.if_large_equal_func ∷ Branches.if_equal_func
    ∷ Branches.if_less_func ∷ Branches.if_less_equal_func ∷ Branches.if_not_equal_func
    ∷ Branches.if_by_bitmap_llrb ∷ Branches.if_by_bitmap_lbrl ∷ Branches.if_by_bitmap_llrl ∷ []

-- `InitFilterFunc`
abbrev pub filter_func : List (List Call)
filter_func =
    Bitmaps.gen_large_bitmap_func ∷ Bitmaps.gen_large_bitmap_list_func
    ∷ Bitmaps.gen_large_equal_bitmap_func ∷ Bitmaps.gen_large_equal_bitmap_list_func
    ∷ Bitmaps.gen_equal_bitmap_func ∷ Bitmaps.gen_equal_bitmap_list_func
    ∷ BitmapsLess.gen_less_bitmap_func ∷ BitmapsLess.gen_less_bitmap_list_func
    ∷ BitmapsLess.gen_less_equal_bitmap_func ∷ BitmapsLess.gen_less_equal_bitmap_list_func
    ∷ BitmapsLess.gen_not_equal_bitmap_func ∷ BitmapsLess.gen_not_equal_bitmap_list_func
    ∷ Filters.filter_by_bitmap_func ∷ Filters.filter_by_bitmap_sugar_func ∷ []

-- `InitListAggregationFunc`
abbrev pub list_aggregation_func : List (List Call)
list_aggregation_func =
    Aggregation.sum_func ∷ Aggregation.max_func ∷ Aggregation.min_func
    ∷ Aggregation.count_distinct_func ∷ Aggregation.count_bits_func ∷ Aggregation.get_at_func
    ∷ Aggregation.avg_func ∷ Aggregation.median_func ∷ Aggregation.sorted_median_func ∷ []

-- `InitListBasicFunc`
abbrev pub list_basic_func : List (List Call)
list_basic_func =
    Basic.list_concat_func ∷ Basic.in_func ∷ Basic.len_func ∷ Basic.sort_func ∷ Basic.truncate_func
    ∷ Basic.hash_func ∷ Casts.list_cast_func ∷ Basic.unique_func ∷ Basic.cross_join_func
    ∷ Basic.zip_concat_func ∷ []

-- `InitListGroupFunc`
abbrev pub list_group_func : List (List Call)
list_group_func =
    Groups.group_index_func ∷ Groups.group_count_func ∷ Groups.group_keys_func
    ∷ Groups.group_keys_sugar_func ∷ Groups.group_sum_func ∷ Groups.group_sum_sugar_func
    ∷ GroupFolds.group_max_func ∷ GroupFolds.group_max_sugar_func ∷ GroupFolds.group_min_func
    ∷ GroupFolds.group_min_sugar_func ∷ GroupFolds.group_avg_func ∷ GroupFolds.group_avg_sugar_func
    ∷ []

-- `InitListIndexingFunc`
abbrev pub list_indexing_func : List (List Call)
list_indexing_func =
    Indexing.list_lookup_index_func ∷ Indexing.find_func ∷ Indexing.find_sorted_func
    ∷ Indexing.find_miss_func ∷ Indexing.list_compact_funcs ∷ Indexing.list_gather_func
    ∷ Indexing.bucketize_func ∷ []

-- `InitListComparisonFunc`
unfoldable pub list_comparison_func : (String → ℕ) → Registry → Result Error Registry
unfolding in_order
list_comparison_func address r = in_order address if_func r >>= in_order address filter_func

-- `InitListInternalFunc`
unfoldable pub list_internal_func : (String → ℕ) → Registry → Result Error Registry
unfolding in_order list_comparison_func
list_internal_func address r =
    in_order address list_arithmetic_func r
    >>= list_comparison_func address
    >>= in_order address list_aggregation_func
    >>= in_order address list_basic_func
    >>= in_order address list_group_func
    >>= in_order address list_indexing_func

-- `FunctionRegistry::Init`
unfoldable pub init : (String → ℕ) → Registry → Result Error Registry
unfolding in_order list_internal_func
init address r =
    in_order address math_internal_func r
    >>= calls address Strings.string_internal_func
    >>= list_internal_func address
