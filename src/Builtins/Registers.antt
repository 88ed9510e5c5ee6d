-- ===== src/Builtins/Registers.antt =====
-- `FunctionRegistry::Init` of src/function_registry.cc on an empty table.
use jitfusion.Common.{
  ℕ, ◌≡◌, ◌≢◌, refl, sym, ◌∙◌, inl, inr, true, false, List, [], ◌∷◌, ◌++◌, String, ◌==◌, ==_iff,
  Bool-cases,
}
use jitfusion.Common.Result.{Result, ok, err, ◌>>=◌}
use jitfusion.Registry.{
  Error, Registry, read_only, commutative, c_structure, legacy_sign, register_func,
  register_llvm_intrinic_func, register_read_only_c_func, register_read_only_c_func_with_exec_ctx,
  register_commutative_c_func_with_exec_ctx,
}
use jitfusion.Builtins.{in_order}
use jitfusion.Builtins.Calls.{
  Call, intrinic, read_only as read_only_call, read_only_ctx, commutative_ctx, signature, call,
  calls,
}
use jitfusion.Builtins.Entries.{
  entries, all_entries, emitter, c_code, AllValid, none_left, one_more, AllValid-append,
  register_each, register_each_append, >>=_assoc,
}

-- The calls of functions that run one after another
abbrev pub concat : List (List Call) → List Call
concat [] = []
concat (cs ∷ css) = cs ++ concat css

module _ (address : String → ℕ) (linked : (n : String) → address n ≢ 0) where
  not_null : (n : String) → address n == 0 ≡ false
  not_null n = elim (Bool-cases (address n == 0)) [
    | inl p ↦ absurd (linked n ((==_iff (address n) 0).0 p))
    | inr p ↦ p
  ]

  AllValid-entries : (c : Call) → AllValid (entries address c)
  AllValid-entries (intrinic n ts t f) = one_more (emitter _) none_left
  AllValid-entries (read_only_call n ts t f) = one_more (c_code _ _ _ (not_null f)) none_left
  AllValid-entries (read_only_ctx n ts t f) =
      one_more (c_code _ _ _ (not_null f)) (one_more (c_code _ _ _ (not_null f)) none_left)
  AllValid-entries (commutative_ctx n ts t f) =
      one_more (c_code _ _ _ (not_null f)) (one_more (c_code _ _ _ (not_null f)) none_left)

  pub AllValid-all_entries : (cs : List Call) → AllValid (all_entries address cs)
  AllValid-all_entries [] = none_left
  AllValid-all_entries (c ∷ cs) = AllValid-append (AllValid-entries c) (AllValid-all_entries cs)

  one_entry : (m : Result Error Registry) → m ≡ (m >>= ok)
  one_entry (ok r) = refl
  one_entry (err e) = refl

  then_ok :
      (m : Result Error Registry) (k : Registry → Result Error Registry)
      → (m >>= k) ≡ (m >>= λ r. k r >>= ok)
  then_ok (ok r) k = one_entry (k r)
  then_ok (err e) k = refl

  call-register_each :
      (c : Call) (r : Registry) → call address c r ≡ register_each (entries address c) r
  unfolding call register_each register_llvm_intrinic_func register_read_only_c_func
      register_read_only_c_func_with_exec_ctx register_commutative_c_func_with_exec_ctx
  call-register_each (intrinic n ts t f) r = one_entry _
  call-register_each (read_only_call n ts t f) r = rw (not_null f) (one_entry _)
  call-register_each (read_only_ctx n ts t f) r = rw (not_null f) (
      then_ok (register_func (signature n ts t) (c_structure (address f) read_only true) false r) (
        register_func (legacy_sign (signature n ts t)) (c_structure (address f) read_only false)
          false))
  call-register_each (commutative_ctx n ts t f) r = rw (not_null f) (
      then_ok (register_func (signature n ts t) (c_structure (address f) commutative true) false r)
        (register_func (legacy_sign (signature n ts t)) (c_structure (address f) commutative false)
          false))

  pub calls-register_each :
      (cs : List Call) (r : Registry)
      → calls address cs r ≡ register_each (all_entries address cs) r
  unfolding calls register_each
  calls-register_each [] r = refl
  calls-register_each (c ∷ cs) r = rw (call-register_each c r) (
      bind_calls (register_each (entries address c) r) (λ r'. calls-register_each cs r')
      ∙ sym (register_each_append (entries address c) (all_entries address cs) r))
    where
      bind_calls :
          (m : Result Error Registry)
          → ((r' : Registry) → calls address cs r' ≡ register_each (all_entries address cs) r')
          → (m >>= calls address cs) ≡ (m >>= register_each (all_entries address cs))
      bind_calls (ok r') k = k r'
      bind_calls (err e) k = refl

  calls_append :
      (xs ys : List Call) (r : Registry)
      → calls address (xs ++ ys) r ≡ (calls address xs r >>= calls address ys)
  unfolding calls
  calls_append [] ys r = refl
  calls_append (c ∷ xs) ys r =
      >>=_assoc (calls address (xs ++ ys)) (calls address xs) (calls address ys) (call address c r)
        (λ r'. calls_append xs ys r')

  -- `f` makes the calls `cs`, in their order.
  pub record Runs (f : Registry → Result Error Registry) (cs : List Call) : Type 0 where
    pub same : (r : Registry) → f r ≡ calls address cs r

  pub calls-Runs : (cs : List Call) → Runs (calls address cs) cs
  calls-Runs cs = record { same = λ r. refl }

  pub >>=-Runs :
      {f g : Registry → Result Error Registry} {xs ys : List Call}
      → Runs f xs
      → Runs g ys
      → Runs (λ r. f r >>= g) (xs ++ ys)
  >>=-Runs {f} {g} {xs} {ys} u v = record {
    same = λ r. rw (u.same r) (bind_same (calls address xs r) ∙ sym (calls_append xs ys r));
  }
    where
      bind_same : (m : Result Error Registry) → (m >>= g) ≡ (m >>= calls address ys)
      bind_same (ok r) = v.same r
      bind_same (err e) = refl

  pub in_order-Runs : (css : List (List Call)) → Runs (in_order address css) (concat css)
  unfolding in_order calls
  in_order-Runs [] = record { same = λ r. refl }
  in_order-Runs (cs ∷ css) = >>=-Runs (calls-Runs cs) (in_order-Runs css)
