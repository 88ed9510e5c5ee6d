-- ===== src/Dsu/Labels.antt =====
-- athena/dsu.cc: the sets that a state stands for, as a label for each element: its root.
use jitfusion.Common.{
  ℕ, ◌≤◌, ◌<◌, ◌≡◌, ◌≢◌, refl, sym, ◌∙◌, ◌⊎◌, false, Option, none, some, ◌==◌, ==_refl,
}
use jitfusion.Dsu.{Dsu, write}

abbrev pub Present : Dsu → ℕ → Type 0
Present d x = (y : ℕ) × (d.parent x ≡ some y)

-- What holds of an element and its parent
pub record Step (top : ℕ) (label : ℕ → ℕ) (d : Dsu) (x y : ℕ) : Type 0 where
  pub same_set : label y ≡ label x
  pub bounded : d.rank x ≤ top
  pub below_root : d.rank x ≤ d.rank (label x)
  pub root : d.parent (label x) ≡ some (label x)
  pub upward : (y ≡ x) ⊎ (d.rank x < d.rank y)
  pub own_root : y ≡ x → label x ≡ x
  pub parent_present : Present d y

-- The labels are the roots, and no rank is above the bound.
pub record Labels (top : ℕ) (label : ℕ → ℕ) (d : Dsu) : Type 0 where
  pub absent : (x : ℕ) → d.parent x ≡ none → label x ≡ x
  pub present : (x y : ℕ) → d.parent x ≡ some y → Step top label d x y

module _ {A : Type 0} (f : ℕ → A) (x : ℕ) (v : A) where
  pub write_same : write f x v x ≡ v
  write_same = rw (==_refl x) refl

  pub write_other : (z : ℕ) → (z == x) ≡ false → write f x v z ≡ f z
  write_other z h = rw h refl

pub some≢none : {A : Type 0} {a : A} {o : Option A} → o ≡ some a → o ≢ none
some≢none h k = let c : ◌≡◌ {A = Option _} (some _) none = sym h ∙ k in cc
