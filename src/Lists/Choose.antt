-- ===== src/Lists/Choose.antt =====
-- src/function/list_comparison.cc: `IfLarge` and its like, and the choices by a bitmap, as they are
-- without xsimd.
use jitfusion.Common.{
  ℕ, zero, suc, ◌-◌, ◌/◌, ◌%◌, ◌^◌, Bool, not, Option, none, some, List, [], ◌∷◌, ◌++◌, map, ◌==◌,
  ltb, if◌then◌else◌,
}
use jitfusion.Common.Lists.{length}
use jitfusion.Lists.Bitmap.{bitmap_len}

-- `IfLarge`, `IfLargeEqual`, `IfEqual`, `IfLess`, `IfLessEqual` and `IfNotEqual`, by their comparison
unfoldable pub if_compare {ℓ} : {K : Type ℓ} → (K → K → Bool) → List K → K → K → List K
if_compare compare_op a cmp_value target_value =
    map (λ x. if compare_op x cmp_value then target_value else x) a

-- The loop on `j`: the bits of a byte from the bit `j` on
unfoldable pub unpack_bits : ℕ → ℕ → ℕ → List Bool
unpack_bits j mask zero = []
unpack_bits j mask (suc n) = (mask / 2 ^ j % 2 == 1) ∷ unpack_bits (suc j) mask n

-- The loops that spread the bits of a bitmap; none where they read behind its end
unfoldable pub unpack : ℕ → List ℕ → ℕ → Option (List Bool)
unfolding unpack_bits
unpack zero bitmap zero = some []
unpack zero [] (suc rest) = none
unpack zero (mask ∷ bitmap) (suc rest) = some (unpack_bits 0 mask (suc rest))
unpack (suc full_bytes) [] len = none
unpack (suc full_bytes) (mask ∷ bitmap) len = elim (unpack full_bytes bitmap (len - 8)) [
  | none ↦ none
  | some bits ↦ some (unpack_bits 0 mask 8 ++ bits)
]

-- What a choice gives: its list, one of its errors, or a read behind the end of the bitmap
pub data Chosen {ℓ} (A : Type ℓ) : Type ℓ where
  chosen : List A → Chosen A
  len_mismatch too_short behind_bitmap : Chosen A

module _ {ℓ} {K : Type ℓ} where
  -- The last loops: a set bit takes the element on the left
  unfoldable pub pick : List Bool → List K → List K → List K
  pick (t ∷ ts) (x ∷ lhs) (y ∷ rhs) = (if t then x else y) ∷ pick ts lhs rhs
  pick _ _ _ = []

  unfoldable pub pick_or : List Bool → List K → K → List K
  pick_or (t ∷ ts) (x ∷ lhs) rhs = (if t then x else rhs) ∷ pick_or ts lhs rhs
  pick_or _ _ _ = []

  unfoldable pub one_or_pick : List Bool → K → List K → List K
  one_or_pick (t ∷ ts) lhs (y ∷ rhs) = (if t then lhs else y) ∷ one_or_pick ts lhs rhs
  one_or_pick _ _ _ = []

  -- The test of the bitmap's length, and the bits
  unfoldable pub with_bits : List ℕ → ℕ → (List Bool → List K) → Chosen K
  unfolding bitmap_len unpack
  with_bits bitmap len choice =
      if ltb (length bitmap) (bitmap_len len)
      then too_short
      else elim (unpack (len / 8) bitmap len) [
        | none ↦ behind_bitmap
        | some bits ↦ chosen (choice bits)
      ]

  -- `IfByBitmapLLRB`
  unfoldable pub if_by_bitmap_llrb : List ℕ → List K → K → Chosen K
  unfolding with_bits pick_or
  if_by_bitmap_llrb bitmap lhs rhs = with_bits bitmap (length lhs) (λ bits. pick_or bits lhs rhs)

  -- `IfByBitmapLBRL`
  unfoldable pub if_by_bitmap_lbrl : List ℕ → K → List K → Chosen K
  unfolding with_bits one_or_pick
  if_by_bitmap_lbrl bitmap lhs rhs =
      with_bits bitmap (length rhs) (λ bits. one_or_pick bits lhs rhs)

  -- `IfByBitmapLLRL`
  unfoldable pub if_by_bitmap_llrl : List ℕ → List K → List K → Chosen K
  unfolding with_bits pick
  if_by_bitmap_llrl bitmap lhs rhs =
      if not (length lhs == length rhs)
      then len_mismatch
      else with_bits bitmap (length lhs) (λ bits. pick bits lhs rhs)
