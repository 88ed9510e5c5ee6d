-- ===== src/Builtins/Operators.antt =====
-- The functions that the code generator looks up for the operators on strings and lists
-- (src/codegen/binary_op_codegen.cc) are among those that `FunctionRegistry::Init` registers.
use jitfusion.Common.{
  ℕ, ◌≡◌, ◌≢◌, refl, true, false, Bool, ◌||◌, not, Option, none, some, [], String,
}
use jitfusion.Common.Result.{ok}
use jitfusion.Types.{ValueType, string, unknown, ◌=ᵗ◌, is_list_type, number, BinaryOpType}
use jitfusion.Registry.{
  same_types, same_sign, find, get_func_by_sign, Registry, FunctionSignature, FunctionStructure,
}
use jitfusion.Builtins.{init}
use jitfusion.Builtins.Entries.{all_entries}
use jitfusion.Builtins.Complete.{init_calls, init-all_entries}
use jitfusion.Validator.Operators.{binary_type}
use jitfusion.Codegen.Operators.{visit_binary, find_function, compare_sign, concat_sign}
use jitfusion.Codegen.Accepts.{Emits}
use jitfusion.Codegen.Binary.{visit_binary-Emits}

-- Whether a signature is in the table with a return type
abbrev is_known : Option (FunctionSignature × FunctionStructure) → Bool
is_known none = false
is_known (some e) = not ((e.0).ret_type =ᵗ unknown)

abbrev Found : FunctionSignature → Registry → Type 0
Found sign reg =
    (k : FunctionSignature) × (f : FunctionStructure) × (find_function sign reg ≡ ok (k, f))
    × ((k.ret_type =ᵗ unknown) ≡ false)

was_false : (b : Bool) → not b ≡ true → b ≡ false
was_false true h = cc
was_false false h = refl

known-Found :
    (sign : FunctionSignature) (reg : Registry) → is_known (find sign reg) ≡ true → Found sign reg
unfolding get_func_by_sign
known-Found sign reg h = split (find sign reg) refl h
  where
    split :
        (o : Option (FunctionSignature × FunctionStructure))
        → find sign reg ≡ o
        → is_known o ≡ true
        → Found sign reg
    split none e k = absurd (cc)
    split (some (s, f)) e k =
        (record sign { ret_type = s.ret_type }, f, rw (e, find_function) refl, was_false _ k)

module _ (address : String → ℕ) where
  concat_known :
      (t : ValueType)
      → ((t =ᵗ string) || is_list_type t) ≡ true
      → is_known (find (concat_sign t t t) (all_entries address init_calls)) ≡ true
  unfolding find same_sign same_types number is_list_type
  concat_known ValueType.string h = refl
  concat_known ValueType.u8_list h = refl
  concat_known ValueType.u16_list h = refl
  concat_known ValueType.u32_list h = refl
  concat_known ValueType.u64_list h = refl
  concat_known ValueType.i8_list h = refl
  concat_known ValueType.i16_list h = refl
  concat_known ValueType.i32_list h = refl
  concat_known ValueType.i64_list h = refl
  concat_known ValueType.f32_list h = refl
  concat_known ValueType.f64_list h = refl
  concat_known ValueType.string_list h = refl
  concat_known t h = absurd (cc)

  compare_known : is_known (find compare_sign (all_entries address init_calls)) ≡ true
  unfolding find same_sign same_types number
  compare_known = refl

  -- After `Init` on an empty table, which succeeds, the code generator emits code, and reaches none
  -- of its internal errors, for every binary operator on operand types that the validator accepts.
  pub init-visit_binary-Emits :
      (linked : (n : String) → address n ≢ 0) (op : BinaryOpType) (l r : ValueType) (z : Bool)
      {t : ValueType}
      → binary_type op l r z ≡ ok t
      → (reg : Registry) × (init address [] ≡ ok reg) × Emits (visit_binary reg op l r t)
  init-visit_binary-Emits linked op l r z h =
      let reg : Registry = all_entries address init_calls in
      let (s, f, e, k) = known-Found compare_sign reg compare_known in
      (
        reg,
        init-all_entries address linked,
        visit_binary-Emits reg op l r z ((s, f), e)
            (λ t c. known-Found (concat_sign t t t) reg (concat_known t c)) h,
      )
