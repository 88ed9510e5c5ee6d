-- ===== src/Validator/Keeps.antt =====
-- A visit of src/validator.cc that succeeds keeps every variable that was visible.
use jitfusion.Common.{
  ltb, ◌==◌, ◌%◌, ◌≡◌, refl, ap, ap₂, sym, ◌∙◌, inl, inr, Bool, true, false, not, Option, none,
  some, List, [], String, ◌=ˢ◌, subst, Bool-cases,
}
use jitfusion.Common.Result.{Result, ok, err, >>=-elim, guard-elim, ok-injective}
use jitfusion.Types.{ValueType, void, is_numeric_type, =ᵗ_iff, ◌=ᵗ◌}
use jitfusion.Registry
use jitfusion.Scope.{Frame, lookup, push_scope, pop_scope, get_shadowed}
use jitfusion.ExecNode.{
  ExecNode, ExecNodes, Statements, VarInfo, entry_argument, exec_context, output, const_value,
  const_list, unary_op, binary_op, function, no_op, if_node, switch_node, if_block, ref, nil, cons,
  end, stmt, size,
}
use jitfusion.Validator.{
  VarEntry, Scopes, check_entry, if_types, function_type, var_type, merge_shadowed, try_set_var,
  set_statement, visit, visit_args, visit_statements, visit_branches,
}
use jitfusion.Validator.Operators.{
  Error, const_reassign, redeclare, type_mismatch, argument_void, if_void, switch_void, unary_type,
  binary_type, switch_type, is_zero_const,
}
use jitfusion.Validator.Scoping.{
  Writable, Grows, done, put, Grows-trans, Grows-frame, Visible, Visible-Grows,
  Visible-merge_shadowed, Grows-set_all,
}

-- What a successful end of a visit says of the stack
ends :
    {E : Type 0} {A : Type 0} {r s s' : Scopes} {a a' : A}
    → ◌≡◌ {A = Result E (A × Scopes)} (ok (a, s)) (ok (a', s'))
    → Grows r s
    → Grows r s'
ends {r = r} h g = subst (Grows r) (ap (λ p. p.1) (ok-injective h)) g

abbrev entry : ValueType → Bool → VarEntry
entry t c = record { type = t; is_const = c }

-- The tests of `TrySetVar` let an entry be written only where it keeps the type.
checked :
    (name : String) (type : ValueType) (is_const : Bool) (o : Option VarEntry) {u : Unit {0}}
    → check_entry name type is_const o ≡ ok u
    → Writable o (record { type = type; is_const = is_const })
checked name type is_const none h = tt
checked name type is_const (some e) {u} h = elim (Bool-cases e.is_const) [
  | inl p ↦ let h : err (const_reassign name) ≡ ok u = rw p at h in absurd (cc)
  | inr p ↦ elim (Bool-cases is_const) [
    | inl q ↦ let h : err (redeclare name) ≡ ok u = rw (p, q) at h in absurd (cc)
    | inr q ↦ elim (Bool-cases (e.type =ᵗ type)) [
      | inl r ↦ (ap₂ entry ((=ᵗ_iff e.type type).0 r) (p ∙ sym q), q)
      | inr r ↦
          let h : err (type_mismatch name e.type type) ≡ ok u = rw (p, q, r) at h in absurd (cc)
    ]
  ]
]

try_set_var-Grows :
    (name : String) (type : ValueType) (is_const : Bool) (s : Scopes) {t : Scopes}
    → try_set_var name type is_const s ≡ ok t
    → Grows s t
unfolding try_set_var
try_set_var-Grows name type is_const s h =
    >>=-elim (check_entry name type is_const (lookup name s)) _ h λ u e h1.
      subst (Grows s) (ok-injective h1)
        (put name _ (checked name type is_const (lookup name s) e) done)

pub set_statement-Grows :
    (v : VarInfo) (type : ValueType) (s : Scopes) {t : Scopes}
    → set_statement v type s ≡ ok t
    → Grows s t
unfolding set_statement
set_statement-Grows v type s {t} h = elim (Bool-cases (v.name =ˢ "")) [
  | inl p ↦ subst (Grows s) (let e : ok s ≡ ok t = rw p at h in ok-injective e) done
  | inr p ↦ try_set_var-Grows v.name type v.is_const s (rw p at h)
]

-- The scope of an isolated statement leaves nothing behind.
pub isolated-Grows : (s : Scopes) {t : Scopes} → Grows (push_scope s) t → pop_scope t ≡ s
isolated-Grows s g = let (f, e, a) = Grows-frame s [] g refl tt in ap pop_scope e

-- A branch leaves no scope behind, and what it shadows is visible.
branch-Visible :
    (s : Scopes) (all_shadowed : Frame ValueType) {t : Scopes}
    → Grows (push_scope s) t
    → Visible s all_shadowed
    → Grows s (pop_scope t) × Visible (pop_scope t) (merge_shadowed (get_shadowed t) all_shadowed)
unfolding get_shadowed
branch-Visible s all_shadowed g v =
    let (f, e, a) = Grows-frame s [] g refl tt in
    subst
      (λ r.
        Grows s (pop_scope r)
        × Visible (pop_scope r) (merge_shadowed (get_shadowed r) all_shadowed))
      (sym e) (done, Visible-merge_shadowed s f all_shadowed a v)

module _ (reg : Registry.Registry) where
  mutual
    unfolding visit

    pub visit-Grows :
        (n : ExecNode) (s : Scopes) {t : ValueType} {s' : Scopes}
        → visit reg n s ≡ ok (t, s')
        → Grows s s'
    visit-Grows entry_argument s h = ends h done
    visit-Grows exec_context s h = ends h done
    visit-Grows output s h = ends h done
    visit-Grows (const_value v) s h = ends h done
    visit-Grows (const_list v) s h = ends h done
    visit-Grows (unary_op op child) s h =
        >>=-elim (visit reg child s) _ h
          λ a e h1. >>=-elim (unary_type op a.0) _ h1 λ b e1 h2. ends h2 (visit-Grows child s e)
    visit-Grows (binary_op op l r) s h = >>=-elim (visit reg l s) _ h λ a e h1.
        >>=-elim (visit reg r a.1) _ h1 λ b e1 h2.
          >>=-elim (binary_type op a.0 b.0 (is_zero_const r)) _ h2
            λ c e2 h3. ends h3 (Grows-trans (visit-Grows l s e) (visit-Grows r a.1 e1))
    visit-Grows (function name args) s h =
        >>=-elim (visit_args reg (argument_void name) args s) _ h λ a e h1.
          >>=-elim (function_type reg name a.0) _ h1
            λ b e1 h2. ends h2 (visit_args-Grows (argument_void name) args s e)
    visit-Grows (no_op isolated st) s h =
        >>=-elim (visit_statements reg isolated st s) _ h
          λ a e h1. ends h1 (visit_statements-Grows isolated st s e)
    visit-Grows (if_node args) s h = guard-elim (size args == 3) _ _ h λ c h0.
        >>=-elim (visit_args reg if_void args s) _ h0 λ a e h1.
          >>=-elim (if_types a.0) _ h1 λ b e1 h2. ends h2 (visit_args-Grows if_void args s e)
    visit-Grows (switch_node args) s h = guard-elim (not (size args % 2 == 0)) _ _ h λ c h0.
        >>=-elim (visit_args reg switch_void args s) _ h0 λ a e h1.
          >>=-elim (switch_type a.0 (size args)) _ h1
            λ b e1 h2. ends h2 (visit_args-Grows switch_void args s e)
    visit-Grows (if_block args) s h = guard-elim (not (ltb (size args) 2)) _ _ h λ c h0.
        >>=-elim (visit_branches reg args [] s) _ h0 λ a e h1.
          let (g, v) = visit_branches-Grows args [] s e tt in
          ends h1 (Grows-trans g (Grows-set_all a.1 a.0 v))
    visit-Grows (ref n) s h = >>=-elim (var_type n (lookup n s)) _ h λ a e h1. ends h1 done

    visit_args-Grows :
        (e : Error) (n : ExecNodes) (s : Scopes) {ts : List ValueType} {s' : Scopes}
        → visit_args reg e n s ≡ ok (ts, s')
        → Grows s s'
    visit_args-Grows e nil s h = ends h done
    visit_args-Grows e (cons n rest) s h = >>=-elim (visit reg n s) _ h λ a e0 h0.
        guard-elim (not (a.0 =ᵗ void)) _ _ h0 λ c h1.
          >>=-elim (visit_args reg e rest a.1) _ h1
            λ b e2 h2. ends h2 (Grows-trans (visit-Grows n s e0) (visit_args-Grows e rest a.1 e2))

    visit_statements-Grows :
        (isolated : Bool) (n : Statements) (s : Scopes) {s' : Scopes}
        → visit_statements reg isolated n s ≡ ok s'
        → Grows s s'
    visit_statements-Grows isolated end s h = subst (Grows s) (ok-injective h) done
    visit_statements-Grows false (stmt v n rest) s h = >>=-elim (visit reg n s) _ h λ a e0 h0.
        >>=-elim (set_statement v a.0 a.1) _ h0 λ b e1 h1.
          Grows-trans (visit-Grows n s e0) (
            Grows-trans (set_statement-Grows v a.0 a.1 e1) (visit_statements-Grows false rest b h1))
    visit_statements-Grows true (stmt v n rest) s {s'} h =
        >>=-elim (visit reg n (push_scope s)) _ h λ a e0 h0.
          >>=-elim (set_statement v a.0 a.1) _ h0 λ b e1 h1.
            let back : pop_scope b ≡ s =
              isolated-Grows s (
                Grows-trans (visit-Grows n (push_scope s) e0) (set_statement-Grows v a.0 a.1 e1)) in
            subst (λ r. Grows r s') back (visit_statements-Grows true rest (pop_scope b) h1)

    visit_branches-Grows :
        (n : ExecNodes) (all_shadowed : Frame ValueType) (s : Scopes) {f : Frame ValueType}
        {s' : Scopes}
        → visit_branches reg n all_shadowed s ≡ ok (f, s')
        → Visible s all_shadowed
        → Grows s s' × Visible s' f
    visit_branches-Grows nil all_shadowed s h v =
        (ends h done, subst (λ p. Visible p.1 p.0) (ok-injective h) v)
    visit_branches-Grows (cons body nil) all_shadowed s h v =
        >>=-elim (visit reg body (push_scope s)) _ h λ a e h0.
          guard-elim (a.0 =ᵗ void) _ _ h0 λ c h1.
            let (g, w) = branch-Visible s all_shadowed (visit-Grows body (push_scope s) e) v in
            (ends h1 g, subst (λ p. Visible p.1 p.0) (ok-injective h1) w)
    visit_branches-Grows (cons condition (cons body rest)) all_shadowed s h v =
        >>=-elim (visit reg condition s) _ h λ a e h0.
          guard-elim (is_numeric_type a.0) _ _ h0 λ c h1.
            >>=-elim (visit reg body (push_scope a.1)) _ h1 λ b e1 h2.
              guard-elim (b.0 =ᵗ void) _ _ h2 λ d h3.
                let first = visit-Grows condition s e in
                let (g, w) =
                  branch-Visible a.1 all_shadowed (visit-Grows body (push_scope a.1) e1)
                    (Visible-Grows all_shadowed first v) in
                let (g', w') = visit_branches-Grows rest _ (pop_scope b.1) h3 w in
                (Grows-trans first (Grows-trans g g'), w')
