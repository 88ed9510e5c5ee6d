-- ===== src/Validator/Scoping.antt =====
-- What the visits of src/validator.cc do to the scopes: they only add variables, or assign again
-- the type that a variable already has.
use jitfusion.Common.{
  ◌≡◌, refl, ap, sym, ◌∙◌, inl, inr, true, false, Option, none, some, [], ◌∷◌, String, ◌=ˢ◌, eq_iff,
  subst, Bool-cases, Option-cases,
}
use jitfusion.Types.{ValueType}
use jitfusion.Scope.{Frame, find, insert, set, lookup, is_bound, shadowed_entries}
use jitfusion.Scope.Laws.{lookup-set, unbound}
use jitfusion.Validator.{VarEntry, Scopes, merge_shadowed, set_all}

-- May the entry be written where the lookup gives `o`?
abbrev pub Writable : Option VarEntry → VarEntry → Type 0
Writable none e = Unit
Writable (some old) e = (old ≡ e) × (e.is_const ≡ false)

-- The writes that lead from one stack to another
pub data Grows : Scopes → Scopes → Type 0 where
  done : {s : Scopes} → Grows s s
  put :
      {s t : Scopes} (name : String) (e : VarEntry)
      → Writable (lookup name s) e
      → Grows (set name e s) t
      → Grows s t

pub Grows-trans : {r s t : Scopes} → Grows r s → Grows s t → Grows r t
Grows-trans done h = h
Grows-trans (put name e w g) h = put name e w (Grows-trans g h)

lookup-put :
    (n m : String) (e d : VarEntry) (s : Scopes)
    → Writable (lookup m s) e
    → lookup n s ≡ some d
    → lookup n (set m e s) ≡ some d
unfolding lookup
lookup-put n m e d [] w h = h
lookup-put n m e d (f ∷ s) w h = lookup-set n m e f s ∙ elim (Bool-cases (m =ˢ n)) [
  | inl p ↦
      let same : lookup m (f ∷ s) ≡ some d = ap (λ k. lookup k (f ∷ s)) ((eq_iff m n).0 p) ∙ h in
      let old : Writable (some d) e = subst (λ o. Writable o e) same w in rw p (ap some (sym old.0))
  | inr p ↦ rw p h
]

-- No variable that is visible changes.
pub Grows-lookup :
    {s t : Scopes} (n : String) (d : VarEntry)
    → Grows s t
    → lookup n s ≡ some d
    → lookup n t ≡ some d
Grows-lookup n d done h = h
Grows-lookup {s} n d (put m e w g) h = Grows-lookup n d g (lookup-put n m e d s w h)

-- Each entry of the scope may be written over what the scopes under it hold.
abbrev pub Agrees : Scopes → Frame VarEntry → Type 0
Agrees s [] = Unit
Agrees s ((n, e) ∷ f) = Writable (lookup n s) e × Agrees s f

found-Writable :
    (s : Scopes) (n : String) (d : VarEntry) (f : Frame VarEntry)
    → Agrees s f
    → find n f ≡ some d
    → Writable (lookup n s) d
unfolding find
found-Writable s n d [] a h = absurd (cc)
found-Writable s n d ((j, e) ∷ f) a h = elim (Bool-cases (j =ˢ n)) [
  | inl p ↦
      let found : some e ≡ some d = rw p at h in
      let same : e ≡ d = cc in subst (Writable (lookup n s)) same (rw (sym ((eq_iff j n).0 p)) a.0)
  | inr p ↦ found-Writable s n d f a.1 (rw p at h)
]

Writable-below :
    (s : Scopes) (n : String) (e : VarEntry) (f : Frame VarEntry)
    → Agrees s f
    → Writable (lookup n (f ∷ s)) e
    → Writable (lookup n s) e
unfolding lookup
Writable-below s n e f a w = elim (Option-cases (find n f)) [
  | inl p ↦ rw p at w
  | inr (d, p) ↦
      let here : Writable (some d) e = rw p at w in
      subst (Writable (lookup n s)) here.0 (found-Writable s n d f a p)
]

Agrees-insert :
    (s : Scopes) (n : String) (e : VarEntry) (f : Frame VarEntry)
    → Agrees s f
    → Writable (lookup n s) e
    → Agrees s (insert n e f)
unfolding insert
Agrees-insert s n e [] a w = (w, tt)
Agrees-insert s n e ((j, d) ∷ f) a w = elim (Bool-cases (j =ˢ n)) [
  | inl p ↦ rw p (w, a.1)
  | inr p ↦ rw p (a.0, Agrees-insert s n e f a.1 w)
]

-- The writes stay in the innermost scope.
pub Grows-frame :
    (s : Scopes) {r t : Scopes} (f : Frame VarEntry)
    → Grows r t
    → r ≡ f ∷ s
    → Agrees s f
    → (g : Frame VarEntry) × (t ≡ g ∷ s) × Agrees s g
Grows-frame s f done p a = (f, p, a)
Grows-frame s {r} f (put n e w g) p a =
    let below : Writable (lookup n s) e =
      Writable-below s n e f a (subst (λ k. Writable (lookup n k) e) p w) in
    Grows-frame s (insert n e f) g (ap (set n e) p) (Agrees-insert s n e f a below)

-- Each entry is a variable that is visible, with its type, and that may be assigned.
abbrev pub Visible : Scopes → Frame ValueType → Type 0
Visible s [] = Unit
Visible s ((n, t) ∷ f) = (lookup n s ≡ some (record { type = t; is_const = false })) × Visible s f

pub Visible-Grows : {s t : Scopes} (f : Frame ValueType) → Grows s t → Visible s f → Visible t f
Visible-Grows [] g v = tt
Visible-Grows ((n, t) ∷ f) g v = (Grows-lookup n _ g v.0, Visible-Grows f g v.1)

Visible-insert :
    (s : Scopes) (n : String) (t : ValueType) (f : Frame ValueType)
    → lookup n s ≡ some (record { type = t; is_const = false })
    → Visible s f
    → Visible s (insert n t f)
unfolding insert
Visible-insert s n t [] h v = (h, tt)
Visible-insert s n t ((j, u) ∷ f) h v = elim (Bool-cases (j =ˢ n)) [
  | inl p ↦ rw p (h, v.1)
  | inr p ↦ rw p (v.0, Visible-insert s n t f h v.1)
]

bound-Writable :
    (s : Scopes) (n : String) (e : VarEntry)
    → is_bound n s ≡ true
    → Writable (lookup n s) e
    → lookup n s ≡ some (record { type = e.type; is_const = false })
bound-Writable s n e b w = elim (Option-cases (lookup n s)) [
  | inl p ↦ absurd (let u : is_bound n s ≡ false = unbound n s p in cc)
  | inr (d, p) ↦
      let here : Writable (some d) e = rw p at w in
      p ∙ ap some here.0 ∙ ap (λ c. some (record { type = e.type; is_const = c })) here.1
]

-- The shadowed entries of a branch, merged into those of the earlier branches
pub Visible-merge_shadowed :
    (s : Scopes) (g : Frame VarEntry) (all_shadowed : Frame ValueType)
    → Agrees s g
    → Visible s all_shadowed
    → Visible s (merge_shadowed (shadowed_entries g s) all_shadowed)
unfolding merge_shadowed shadowed_entries
Visible-merge_shadowed s [] all_shadowed a v = v
Visible-merge_shadowed s ((n, e) ∷ g) all_shadowed a v = elim (Bool-cases (is_bound n s)) [
  | inl p ↦ rw p (
      Visible-merge_shadowed s g (insert n e.type all_shadowed) a.1
        (Visible-insert s n e.type all_shadowed (bound-Writable s n e p a.0) v))
  | inr p ↦ rw p (Visible-merge_shadowed s g all_shadowed a.1 v)
]

-- The assignments behind the branches
pub Grows-set_all : (s : Scopes) (f : Frame ValueType) → Visible s f → Grows s (set_all f s)
unfolding set_all
Grows-set_all s [] v = done
Grows-set_all s ((n, t) ∷ f) v =
    let e : VarEntry = record { type = t; is_const = false } in
    let w : Writable (lookup n s) e = rw v.0 (refl, refl) in
    put n e w (Grows-set_all (set n e s) f (Visible-Grows f (put n e w done) v.1))
