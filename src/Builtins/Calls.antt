-- ===== src/Builtins/Calls.antt =====
-- One registration of a function that comes with the library (the `Init...Func` functions of
-- src/function): the call of `FunctionRegistry`, with the function's name in the source. The
-- address of a function is the linker's and a parameter; an emitter is named by its address too.
use jitfusion.Common.{ℕ, false, some, List, [], ◌∷◌, String}
use jitfusion.Common.Result.{Result, ok, ◌>>=◌}
use jitfusion.Types.{ValueType}
use jitfusion.Registry.{
  Error, FunctionSignature, Registry, register_llvm_intrinic_func, register_read_only_c_func,
  register_read_only_c_func_with_exec_ctx, register_commutative_c_func_with_exec_ctx,
}

pub data Call : Type 0 where
  intrinic : String → List ValueType → ValueType → String → Call
  read_only : String → List ValueType → ValueType → String → Call
  read_only_ctx : String → List ValueType → ValueType → String → Call
  commutative_ctx : String → List ValueType → ValueType → String → Call

abbrev pub signature : String → List ValueType → ValueType → FunctionSignature
signature func_name param_types ret_type = record {
  func_name = func_name;
  param_types = param_types;
  ret_type = ret_type;
}

-- The call itself; none passes `allow_override`, which is false then.
unfoldable pub call : (String → ℕ) → Call → Registry → Result Error Registry
call address (intrinic n ts t f) r =
    register_llvm_intrinic_func (signature n ts t) (some (address f)) false r
call address (read_only n ts t f) r =
    register_read_only_c_func (signature n ts t) (address f) false r
call address (read_only_ctx n ts t f) r =
    register_read_only_c_func_with_exec_ctx (signature n ts t) (address f) false r
call address (commutative_ctx n ts t f) r =
    register_commutative_c_func_with_exec_ctx (signature n ts t) (address f) false r

-- The calls in order, each under `JF_RETURN_NOT_OK`
unfoldable pub calls : (String → ℕ) → List Call → Registry → Result Error Registry
calls address [] r = ok r
calls address (c ∷ cs) r = call address c r >>= calls address cs
