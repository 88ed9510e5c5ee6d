-- ===== src/Validator/Visibility.antt =====
-- The variables that a tree sees behind a successful visit of one part of it (src/validator.cc).
use jitfusion.Common.{
  ◌≡◌, refl, ap, sym, ◌∙◌, Bool, true, false, inl, inr, Bool-cases, if◌then◌else◌, some, ◌∷◌,
  String, ◌=ˢ◌,
}
use jitfusion.Common.Result.{ok, err, >>=-elim, ok-injective}
use jitfusion.Types.{ValueType, ◌=ᵗ◌}
use jitfusion.Registry
use jitfusion.Scope.{Frame, find, insert, set, lookup, push_scope, pop_scope}
use jitfusion.ExecNode.{ExecNode, Statements, VarInfo, end, stmt}
use jitfusion.Validator.{
  enter, VarEntry, Scopes, try_set_var, set_statement, visit, visit_statements,
}
use jitfusion.Validator.Operators.{const_reassign, redeclare, type_mismatch}
use jitfusion.Validator.Scoping.{Grows, done, put, Grows-trans, Grows-lookup}
use jitfusion.Validator.Keeps.{visit-Grows, set_statement-Grows, isolated-Grows}

Grows-tail :
    (s : Scopes) {r t : Scopes} (f : Frame VarEntry)
    → Grows r t
    → r ≡ f ∷ s
    → (g : Frame VarEntry) × (t ≡ g ∷ s)
Grows-tail s f done p = (f, p)
Grows-tail s f (put n e w g) p = Grows-tail s (insert n e f) g (ap (set n e) p)

module _ (reg : Registry.Registry) where
  -- A visit that succeeds writes into the innermost scope alone, and every variable that was
  -- visible before, in whichever scope, still has the type and the constness that it had.
  pub visit-lookup :
      (node : ExecNode) (f : Frame VarEntry) (s : Scopes) {t : ValueType} {s' : Scopes}
      → visit reg node (f ∷ s) ≡ ok (t, s')
      → ((g : Frame VarEntry) × (s' ≡ g ∷ s))
        × ((name : String) (e : VarEntry) → lookup name (f ∷ s) ≡ some e → lookup name s' ≡ some e)
  visit-lookup node f s h =
      let g = visit-Grows reg node (f ∷ s) h in
      (Grows-tail s f g refl, λ name e p. Grows-lookup name e g p)

  -- Isolated statements that are accepted leave the scopes as they found them.
  pub visit_statements-isolated :
      (statements : Statements) (s : Scopes) {s' : Scopes}
      → visit_statements reg true statements s ≡ ok s'
      → s' ≡ s
  unfolding visit
  visit_statements-isolated end s h = sym (ok-injective h)
  visit_statements-isolated (stmt v n rest) s {s'} h =
      >>=-elim (visit reg n (push_scope s)) _ h λ a e0 h0.
        >>=-elim (set_statement v a.0 a.1) _ h0 λ b e1 h1.
          visit_statements-isolated rest (pop_scope b) h1
          ∙ isolated-Grows s
              (Grows-trans (visit-Grows reg n (push_scope s) e0) (set_statement-Grows v a.0 a.1 e1))

  -- A new scope hides nothing.
  lookup-enter :
      (isolated : Bool) (name : String) (s : Scopes)
      → lookup name (enter isolated s) ≡ lookup name s
  unfolding lookup find
  lookup-enter false name s = refl
  lookup-enter true name s = refl

  -- What a statement sees of a variable, isolated or not, behind its right side
  still_visible :
      (isolated : Bool) (name : String) (node : ExecNode) (s : Scopes) (e : VarEntry)
      {t : ValueType} {s' : Scopes}
      → lookup name s ≡ some e
      → visit reg node (enter isolated s) ≡ ok (t, s')
      → lookup name s' ≡ some e
  still_visible isolated name node s e visible h =
      Grows-lookup name e (visit-Grows reg node (enter isolated s) h)
        (lookup-enter isolated name s ∙ visible)

  -- A statement with a name, isolated or not, whose right side is accepted, is refused as an
  -- assignment to a constant where a visible variable of this name is constant before it: the right
  -- side cannot remove the variable or make it assignable.
  pub visit_statements-const_reassign :
      (isolated : Bool) (v : VarInfo) (node : ExecNode) (rest : Statements) (s : Scopes)
      (e : VarEntry) {t : ValueType} {s' : Scopes}
      → (v.name =ˢ "") ≡ false
      → lookup v.name s ≡ some e
      → e.is_const ≡ true
      → visit reg node (enter isolated s) ≡ ok (t, s')
      → visit_statements reg isolated (stmt v node rest) s ≡ err (const_reassign v.name)
  unfolding visit set_statement try_set_var
  visit_statements-const_reassign isolated v node rest s e named visible constant h =
      rw (h, named, still_visible isolated v.name node s e visible h, constant) refl

  -- A statement with a name, isolated or not, whose right side is accepted with another type than a
  -- visible variable of this name has that is not constant before it, is refused: as a declaration of
  -- it again if the statement is a let, and otherwise with the type from before the statement.
  pub visit_statements-type_mismatch :
      (isolated : Bool) (v : VarInfo) (node : ExecNode) (rest : Statements) (s : Scopes)
      (e : VarEntry) {t : ValueType} {s' : Scopes}
      → (v.name =ˢ "") ≡ false
      → lookup v.name s ≡ some e
      → e.is_const ≡ false
      → (e.type =ᵗ t) ≡ false
      → visit reg node (enter isolated s) ≡ ok (t, s')
      → visit_statements reg isolated (stmt v node rest) s
        ≡ err (if v.is_const then redeclare v.name else type_mismatch v.name e.type t)
  unfolding visit set_statement try_set_var
  visit_statements-type_mismatch isolated v node rest s e named visible assignable differs h =
      let still = still_visible isolated v.name node s e visible h in
      elim (Bool-cases v.is_const) [
        | inl let_kept ↦ rw (h, named, still, assignable, let_kept) refl
        | inr plain ↦ rw (h, named, still, assignable, plain, differs) refl
      ]
