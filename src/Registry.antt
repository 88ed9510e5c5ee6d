-- ===== src/Registry.antt =====
-- include/function_registry.h and src/function_registry.cc: signatures, and the table of functions.
-- A function pointer is its address, with 0 for `nullptr`; an emitter (`CodeGenFunc`) is named by
-- a number. The order of the hash table's entries is never observed.
pub mod Lookup
pub mod Contexts
mod Examples
use jitfusion.Common.{
  ℕ, Bool, true, false, not, ◌&&◌, Option, none, some, List, [], ◌∷◌, ◌++◌, String, ◌=ˢ◌, ◌==◌,
  if◌then◌else◌,
}
use jitfusion.Common.Result.{Result, ok, err, ◌>>=◌, ◌>>◌, guard}
use jitfusion.Types.{ValueType, ptr, ◌=ᵗ◌}

-- `FunctionType`
pub data FunctionType : Type 0 where
  llvm_intrinic_func c_func : FunctionType

-- `func_attr_setter`
pub data AttributeSetter : Type 0 where
  no_setter read_only commutative : AttributeSetter
  store : ℕ → AttributeSetter

pub record FunctionStructure : Type 0 where
  pub func_type : FunctionType
  pub c_func_ptr : ℕ
  pub codegen_func : Option ℕ
  pub func_attr_setter : AttributeSetter
  pub needs_exec_ctx : Bool

pub record FunctionSignature : Type 0 where
  pub func_name : String
  pub param_types : List ValueType
  pub ret_type : ValueType

-- The loop of `FunctionSignature::operator==`, and its test on the lengths
unfoldable pub same_types : List ValueType → List ValueType → Bool
same_types [] [] = true
same_types (a ∷ as') (b ∷ bs) = (a =ᵗ b) && same_types as' bs
same_types _ _ = false

-- `FunctionSignature::operator==`; the return type takes no part
unfoldable pub same_sign : FunctionSignature → FunctionSignature → Bool
unfolding same_types
same_sign a b = (a.func_name =ˢ b.func_name) && same_types a.param_types b.param_types

abbrev pub Registry : Type 0
Registry = List (FunctionSignature × FunctionStructure)

-- `signature2funcstruct_.find`, with the key that the table holds
unfoldable pub find : FunctionSignature → Registry → Option (FunctionSignature × FunctionStructure)
find sign [] = none
find sign ((k, f) ∷ r) = if same_sign k sign then some (k, f) else find sign r

-- `signature2funcstruct_[func_sign] = func_struct`: a key that is there stays as it is
unfoldable pub assign : FunctionSignature → FunctionStructure → Registry → Registry
assign sign f [] = (sign, f) ∷ []
assign sign f ((k, g) ∷ r) = if same_sign k sign then (k, f) ∷ r else (k, g) ∷ assign sign f r

pub data Error : Type 0 where
  missing_codegen_func missing_c_func codegen_func_null c_func_ptr_null : Error
  already_registered not_found : FunctionSignature → Error

abbrev is_registered : Option (FunctionSignature × FunctionStructure) → Bool
is_registered none = false
is_registered (some e) = true

abbrev is_none : Option ℕ → Bool
is_none none = true
is_none (some e) = false

abbrev is_c_func : FunctionType → Bool
is_c_func c_func = true
is_c_func llvm_intrinic_func = false

-- `RegisterFunc`
unfoldable pub register_func :
    FunctionSignature → FunctionStructure → Bool → Registry → Result Error Registry
register_func sign f allow_override r = do
  guard (not (not (is_c_func f.func_type) && is_none f.codegen_func)) missing_codegen_func
  guard (not (is_c_func f.func_type && f.c_func_ptr == 0)) missing_c_func
  guard (not (not allow_override && is_registered (find sign r))) (already_registered sign)
  ok (assign sign f r)

-- `RegisterLLVMIntrinicFunc`
unfoldable pub register_llvm_intrinic_func :
    FunctionSignature → Option ℕ → Bool → Registry → Result Error Registry
register_llvm_intrinic_func sign codegen_func allow_override r = do
  guard (not (is_none codegen_func)) codegen_func_null
  let f : FunctionStructure = record {
    func_type = llvm_intrinic_func;
    c_func_ptr = 0;
    codegen_func = codegen_func;
    func_attr_setter = no_setter;
    needs_exec_ctx = false;
  }
  register_func sign f allow_override r

-- A structure for a C function
abbrev pub c_structure : ℕ → AttributeSetter → Bool → FunctionStructure
c_structure c_func_ptr setter needs_exec_ctx = record {
  func_type = c_func;
  c_func_ptr = c_func_ptr;
  codegen_func = none;
  func_attr_setter = setter;
  needs_exec_ctx = needs_exec_ctx;
}

-- `RegisterReadOnlyCFunc`
unfoldable pub register_read_only_c_func :
    FunctionSignature → ℕ → Bool → Registry → Result Error Registry
register_read_only_c_func sign p allow_override r = do
  guard (not (p == 0)) c_func_ptr_null
  register_func sign (c_structure p read_only false) allow_override r

-- The signature with the trailing `kPtr`
abbrev pub legacy_sign : FunctionSignature → FunctionSignature
legacy_sign sign = record sign { param_types = sign.param_types ++ ptr ∷ [] }

-- `RegisterReadOnlyCFuncWithExecCtx`
unfoldable pub register_read_only_c_func_with_exec_ctx :
    FunctionSignature → ℕ → Bool → Registry → Result Error Registry
register_read_only_c_func_with_exec_ctx sign p allow_override r = do
  guard (not (p == 0)) c_func_ptr_null
  r ← register_func sign (c_structure p read_only true) allow_override r
  register_func (legacy_sign sign) (c_structure p read_only false) allow_override r

-- `RegisterStoreCFunc`
unfoldable pub register_store_c_func :
    FunctionSignature → ℕ → ℕ → Bool → Registry → Result Error Registry
register_store_c_func sign p store_args_index allow_override r = do
  guard (not (p == 0)) c_func_ptr_null
  register_func sign (c_structure p (store store_args_index) false) allow_override r

-- `RegisterCommutativeCFunc`
unfoldable pub register_commutative_c_func :
    FunctionSignature → ℕ → Bool → Registry → Result Error Registry
register_commutative_c_func sign p allow_override r = do
  guard (not (p == 0)) c_func_ptr_null
  register_func sign (c_structure p commutative false) allow_override r

-- `RegisterCommutativeCFuncWithExecCtx`
unfoldable pub register_commutative_c_func_with_exec_ctx :
    FunctionSignature → ℕ → Bool → Registry → Result Error Registry
register_commutative_c_func_with_exec_ctx sign p allow_override r = do
  guard (not (p == 0)) c_func_ptr_null
  r ← register_func sign (c_structure p commutative true) allow_override r
  register_func (legacy_sign sign) (c_structure p commutative false) allow_override r

-- What `GetFuncBySign` makes of its lookup
abbrev pub answer :
    FunctionSignature
    → Option (FunctionSignature × FunctionStructure)
    → Result Error (FunctionSignature × FunctionStructure)
answer sign none = err (not_found sign)
answer sign (some (k, f)) = ok (record sign { ret_type = k.ret_type }, f)

-- `GetFuncBySign`: the signature with its return type set, and the structure
unfoldable pub get_func_by_sign :
    FunctionSignature → Registry → Result Error (FunctionSignature × FunctionStructure)
get_func_by_sign sign r = answer sign (find sign r)
