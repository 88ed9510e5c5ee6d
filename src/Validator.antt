-- ===== src/Validator.antt =====
-- src/validator.h and src/validator.cc: the checks of a tree before code is generated. The type
-- that a visit returns is the one that it writes into the node by `SetReturnType`.
pub mod Operators
pub mod Scoping
pub mod Keeps
pub mod Visibility
mod Examples
use jitfusion.Common.{
  ℕ, zero, suc, ◌%◌, ltb, Bool, true, false, not, ◌&&◌, Option, none, some, List, [], ◌∷◌, String,
  ◌=ˢ◌, ◌==◌, if◌then◌else◌,
}
use jitfusion.Common.Result.{Result, ok, err, ◌>>=◌, ◌>>◌, guard}
use jitfusion.Types.{ValueType, unknown, void, ptr, ◌=ᵗ◌, is_numeric_type}
use jitfusion.Registry
use jitfusion.Scope.{Frame, ScopeStack, insert, push_scope, pop_scope, set, lookup, get_shadowed}
use jitfusion.ExecNode.{
  ExecNode, ExecNodes, Statements, VarInfo, entry_argument, exec_context, output, const_value,
  const_list, unary_op, binary_op, function, no_op, if_node, switch_node, if_block, ref, nil, cons,
  end, stmt, size,
}
use Operators.{
  Error, argument_void, function_not_found, const_reassign, redeclare, type_mismatch, if_arity,
  if_void, switch_arity, switch_void, if_block_arity, if_block_condition, if_block_body,
  undefined_variable, constant_type, constant_list_type, unary_type, is_zero_const, binary_type,
  if_type, switch_type,
}

-- `VarEntry`
pub record VarEntry : Type 0 where
  pub type : ValueType
  pub is_const : Bool

abbrev pub Scopes : Type 0
Scopes = ScopeStack VarEntry

-- The tests of `TrySetVar` on an entry that is there, each with its message in `Visit(NoOPNode&)`
abbrev pub check_entry : String → ValueType → Bool → Option VarEntry → Result Error (Unit {0})
check_entry name type is_const none = ok tt
check_entry name type is_const (some e) =
    if e.is_const
    then err (const_reassign name)
    else if is_const
    then err (redeclare name)
    else if not (e.type =ᵗ type)
    then err (type_mismatch name e.type type)
    else ok tt

-- `TrySetVar`, with the errors that `Visit(NoOPNode&)` makes of its results
unfoldable pub try_set_var : String → ValueType → Bool → Scopes → Result Error Scopes
try_set_var name type is_const s = do
  check_entry name type is_const (lookup name s)
  ok (set name (record { type = type; is_const = is_const }) s)

-- The assignment of one statement of `Visit(NoOPNode&)`
unfoldable pub set_statement : VarInfo → ValueType → Scopes → Result Error Scopes
unfolding try_set_var
set_statement v type s = if v.name =ˢ "" then ok s else try_set_var v.name type v.is_const s

-- `all_shadowed[name] = new_entry.type` for each shadowed entry
unfoldable pub merge_shadowed : Frame VarEntry → Frame ValueType → Frame ValueType
merge_shadowed [] all_shadowed = all_shadowed
merge_shadowed ((name, e) ∷ f) all_shadowed = merge_shadowed f (insert name e.type all_shadowed)

-- The last loop of `Visit(IfBlockNode&)`
unfoldable pub set_all : Frame ValueType → Scopes → Scopes
set_all [] s = s
set_all ((name, type) ∷ f) s = set_all f (set name (record { type = type; is_const = false }) s)

-- `GetFuncBySign` on the types of the arguments: the return type
unfoldable pub function_type : Registry.Registry → String → List ValueType → Result Error ValueType
function_type reg name types =
    let sign : Registry.FunctionSignature = record {
      func_name = name;
      param_types = types;
      ret_type = unknown;
    } in
    elim (Registry.get_func_by_sign sign reg) [
      | ok (found, f) ↦ ok found.ret_type
      | err e ↦ err (function_not_found sign)
    ]

-- The three types of an `IfNode`
abbrev pub if_types : List ValueType → Result Error ValueType
if_types (c ∷ a ∷ b ∷ []) = if_type c a b
if_types _ = err (if_arity 0)

-- `Visit(RefNode&)` behind its lookup
abbrev pub var_type : String → Option VarEntry → Result Error ValueType
var_type name none = err (undefined_variable name)
var_type name (some e) = ok e.type

abbrev pub enter : Bool → Scopes → Scopes
enter isolated s = if isolated then push_scope s else s

abbrev leave : Bool → Scopes → Scopes
leave isolated s = if isolated then pop_scope s else s

module _ (reg : Registry.Registry) where
  unfoldable mutual
    -- `Accept` of a `Validator`: one clause for each `Visit`
    pub visit : ExecNode → Scopes → Result Error (ValueType × Scopes)
    visit entry_argument s = ok (ptr, s)
    visit exec_context s = ok (ptr, s)
    visit output s = ok (ptr, s)
    visit (const_value v) s = ok (constant_type v, s)
    visit (const_list v) s = ok (constant_list_type v, s)
    visit (unary_op op child) s = do (t, s) ← visit child s; t ← unary_type op t; ok (t, s)
    visit (binary_op op left right) s = do
      (l, s) ← visit left s
      (r, s) ← visit right s
      t ← binary_type op l r (is_zero_const right)
      ok (t, s)
    visit (function name args) s = do
      (ts, s) ← visit_args (argument_void name) args s
      t ← function_type reg name ts
      ok (t, s)
    visit (no_op isolated statements) s = do
      s ← visit_statements isolated statements s
      ok (void, s)
    visit (if_node args) s = do
      guard (size args == 3) (if_arity (size args))
      (ts, s) ← visit_args if_void args s
      t ← if_types ts
      ok (t, s)
    visit (switch_node args) s = do
      guard (not (size args % 2 == 0)) (switch_arity (size args))
      (ts, s) ← visit_args switch_void args s
      t ← switch_type ts (size args)
      ok (t, s)
    visit (if_block args) s = do
      guard (not (ltb (size args) 2)) if_block_arity
      (all_shadowed, s) ← visit_branches args [] s
      ok (void, set_all all_shadowed s)
    visit (ref name) s = do t ← var_type name (lookup name s); ok (t, s)

    -- The loop over arguments, none of which may be void
    pub visit_args : Error → ExecNodes → Scopes → Result Error (List ValueType × Scopes)
    visit_args e nil s = ok ([], s)
    visit_args e (cons a rest) s = do
      (t, s) ← visit a s
      guard (not (t =ᵗ void)) e
      (ts, s) ← visit_args e rest s
      ok (t ∷ ts, s)

    -- The loop of `Visit(NoOPNode&)`
    pub visit_statements : Bool → Statements → Scopes → Result Error Scopes
    visit_statements isolated end s = ok s
    visit_statements isolated (stmt v a rest) s = do
      (t, s) ← visit a (enter isolated s)
      s ← set_statement v t s
      visit_statements isolated rest (leave isolated s)

    -- The branches of `Visit(IfBlockNode&)`: a condition with a body, and a last body without one
    pub visit_branches :
        ExecNodes → Frame ValueType → Scopes → Result Error (Frame ValueType × Scopes)
    visit_branches nil all_shadowed s = ok (all_shadowed, s)
    visit_branches (cons body nil) all_shadowed s = do
      (t, s) ← visit body (push_scope s)
      guard (t =ᵗ void) (if_block_body t)
      ok (merge_shadowed (get_shadowed s) all_shadowed, pop_scope s)
    visit_branches (cons condition (cons body rest)) all_shadowed s = do
      (c, s) ← visit condition s
      guard (is_numeric_type c) (if_block_condition c)
      (t, s) ← visit body (push_scope s)
      guard (t =ᵗ void) (if_block_body t)
      visit_branches rest (merge_shadowed (get_shadowed s) all_shadowed) (pop_scope s)

-- `Validate`, on a new `Validator`
unfoldable pub validate : Registry.Registry → ExecNode → Result Error ValueType
validate reg node = do (t, s) ← visit reg node ([] ∷ []); ok t
