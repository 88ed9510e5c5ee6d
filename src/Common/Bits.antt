-- ===== src/Common/Bits.antt =====
-- Bit patterns as native numbers: a byte above the bits of a word is added by `|`.
use Prim.Native.Nat.{
  ℕ, zero, suc, ◌+◌, ◌*◌, ◌/◌, ◌%◌, ◌^◌, ◌≤◌, ◌<◌, max, bit_or, digits, bit_or-bitwise,
}
use mathlib.Core.Path.{◌≡◌, refl}
use native.Mathlib.Nat.{pow-suc}
use native.Mathlib.Omega.{arith}

-- The digits of `x | y`, from `fuel` halvings
abbrev or_digits : ℕ → ℕ → ℕ → ℕ
or_digits fuel x y = digits (λ d. d) max fuel x y

-- Any two amounts of fuel that reach the last digit of `x` agree.
enough : (x y fuel more : ℕ) → x ≤ fuel → x ≤ more → or_digits fuel x y ≡ or_digits more x y
enough zero y zero zero p q = refl
enough zero y zero (suc more) p q = refl
enough zero y (suc fuel) zero p q = refl
enough zero y (suc fuel) (suc more) p q = refl
enough (suc x) y zero more p q = absurd (omega arith)
enough (suc x) y (suc fuel) zero p q = absurd (omega arith)
enough (suc x) y (suc fuel) (suc more) p q =
    let h : suc x / 2 ≤ fuel = omega arith in
    let k : suc x / 2 ≤ more = omega arith in
    omega (arith, enough (suc x / 2) (y / 2) fuel more h k)

zero-bit_or : (b : ℕ) → bit_or 0 b ≡ b
zero-bit_or b = bit_or-bitwise 0 b

-- One halving of both
bit_or_halves : (x y : ℕ) → bit_or x y ≡ max (x % 2) (y % 2) + 2 * bit_or (x / 2) (y / 2)
bit_or_halves zero y = omega (arith, zero-bit_or y, zero-bit_or (y / 2))
bit_or_halves (suc x) y =
    let half : suc x / 2 ≤ x = omega arith in
    let tail = enough (suc x / 2) (y / 2) x (suc x / 2) half (omega arith) in
    omega (arith, bit_or-bitwise (suc x) y, bit_or-bitwise (suc x / 2) (y / 2), tail)

-- `v | (b << k)` for `v` below `2 ^ k`
pub bit_or-shift : (k v b : ℕ) → v < 2 ^ k → bit_or v (b * 2 ^ k) ≡ v + b * 2 ^ k
bit_or-shift zero zero b h = omega (arith, zero-bit_or (b * 1))
bit_or-shift zero (suc v) b h = absurd (omega arith)
bit_or-shift (suc k) v b h =
    let e : 2 ^ suc k ≡ 2 ^ k * 2 = pow-suc 2 k in
    let v_small : v / 2 < 2 ^ k = omega (arith, e) in
    let prod : b * 2 ^ suc k ≡ b * 2 ^ k * 2 = rw e (omega arith) in
    let half : b * 2 ^ suc k / 2 ≡ b * 2 ^ k = omega (arith, prod) in
    let low : bit_or (v / 2) (b * 2 ^ suc k / 2) ≡ v / 2 + b * 2 ^ k =
      rw half (bit_or-shift k (v / 2) b v_small) in
    omega (arith, prod, low, bit_or_halves v (b * 2 ^ suc k))
