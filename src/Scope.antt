-- ===== src/Scope.antt =====
-- src/scope_stack.h: a stack of scopes, each a map from names to values. The head of the list is
-- the back of the vector. A map is an association list, whose order is never observed.
pub mod Laws
use jitfusion.Common.{
  Bool, true, false, ◌||◌, Option, none, some, List, [], ◌∷◌, String, ◌=ˢ◌, if◌then◌else◌,
}

abbrev pub Frame {ℓ} : Type ℓ → Type ℓ
Frame V = List (String × V)

abbrev pub ScopeStack {ℓ} : Type ℓ → Type ℓ
ScopeStack V = List (Frame V)

module _ {ℓ} {V : Type ℓ} where
  -- `find` on one scope
  unfoldable pub find : String → Frame V → Option V
  find k [] = none
  find k ((j, v) ∷ f) = if j =ˢ k then some v else find k f

  -- `scope[name] = value`
  unfoldable pub insert : String → V → Frame V → Frame V
  insert k v [] = (k, v) ∷ []
  insert k v ((j, w) ∷ f) = if j =ˢ k then (k, v) ∷ f else (j, w) ∷ insert k v f

  -- `ScopeStack()`
  abbrev pub init : ScopeStack V
  init = [] ∷ []

  -- `PushScope`
  abbrev pub push_scope : ScopeStack V → ScopeStack V
  push_scope s = [] ∷ s

  -- `PopScope`; on an empty vector `pop_back` is undefined
  abbrev pub pop_scope : ScopeStack V → ScopeStack V
  pop_scope [] = []
  pop_scope (f ∷ s) = s

  -- `Set`; on an empty vector `back` is undefined
  abbrev pub set : String → V → ScopeStack V → ScopeStack V
  set name v [] = []
  set name v (f ∷ s) = insert name v f ∷ s

  -- The value in a scope, or else what the scopes under it give
  abbrev pub or_below : Option V → Option V → Option V
  or_below (some v) below = some v
  or_below none below = below

  -- `Lookup`, from the innermost scope outwards
  unfoldable pub lookup : String → ScopeStack V → Option V
  lookup name [] = none
  lookup name (f ∷ s) = or_below (find name f) (lookup name s)

  abbrev is_found : Option V → Bool
  is_found (some v) = true
  is_found none = false

  -- The inner loop of `GetShadowed`: is the name in one of the scopes?
  unfoldable pub is_bound : String → ScopeStack V → Bool
  is_bound name [] = false
  is_bound name (f ∷ s) = is_found (find name f) || is_bound name s

  -- The outer loop of `GetShadowed`, over the entries of the innermost scope
  unfoldable pub shadowed_entries : Frame V → ScopeStack V → Frame V
  shadowed_entries [] s = []
  shadowed_entries ((name, v) ∷ f) s =
      let rest = shadowed_entries f s in if is_bound name s then (name, v) ∷ rest else rest

  -- `GetShadowed`
  unfoldable pub get_shadowed : ScopeStack V → Frame V
  unfolding shadowed_entries
  get_shadowed [] = []
  get_shadowed (f ∷ s) = shadowed_entries f s
