-- ===== src/Lists/BitValue.antt =====
-- src/function/list_comparison.cc: the number that a byte of a bitmap is, and its bits.
use jitfusion.Common.{
  ℕ, zero, suc, ◌+◌, ◌*◌, ◌/◌, ◌%◌, ◌^◌, ◌≤◌, ◌<◌, ◌≡◌, refl, sym, ap, ◌∙◌, Bool, true, false, List,
  [], ◌∷◌, arith,
}
use native.Mathlib.Nat.{pow-suc, div-div-eq-div-mul}
use Prim.Native.Nat.{bit_or}
use jitfusion.Common.Bits.{bit_or-shift}
use jitfusion.Common.Lists.{length}
use jitfusion.Lists.Bitmap.{bit, byte_from, popcount}

-- The number with these bits, the lowest first
unfoldable pub value : List Bool → ℕ
value [] = 0
value (t ∷ ts) = bit t + 2 * value ts

-- How many bits are set
unfoldable pub ones : List Bool → ℕ
ones [] = 0
ones (t ∷ ts) = bit t + ones ts

pub value-cons :
    (t : Bool) (ts : List Bool) → (value (t ∷ ts) % 2 ≡ bit t) × (value (t ∷ ts) / 2 ≡ value ts)
unfolding value
value-cons true ts = (omega arith, omega arith)
value-cons false ts = (omega arith, omega arith)

pub value-below : (ts : List Bool) → value ts < 2 ^ length ts
unfolding value
value-below [] = omega arith
value-below (true ∷ ts) = omega (arith, value-below ts, pow-suc 2 (length ts))
value-below (false ∷ ts) = omega (arith, value-below ts, pow-suc 2 (length ts))

bit-small : (t : Bool) → bit t ≤ 1
bit-small true = omega arith
bit-small false = omega arith

byte_from-value :
    (j mask_bit : ℕ) (ts : List Bool)
    → mask_bit < 2 ^ j
    → byte_from j mask_bit ts ≡ mask_bit + value ts * 2 ^ j
unfolding byte_from value
byte_from-value j m [] h = omega arith
byte_from-value j m (t ∷ ts) h =
    let e : bit_or m (bit t * 2 ^ j) ≡ m + bit t * 2 ^ j = bit_or-shift j m (bit t) h in
    rw e (byte_from-value (suc j) (m + bit t * 2 ^ j) ts (wider t) ∙ shifted (bit t) (value ts))
  where
    wider : (t : Bool) → m + bit t * 2 ^ j < 2 ^ suc j
    wider true = omega (arith, h, pow-suc 2 j)
    wider false = omega (arith, h, pow-suc 2 j)

    shifted : (b v : ℕ) → m + b * 2 ^ j + v * 2 ^ suc j ≡ m + (b + 2 * v) * 2 ^ j
    shifted b v = rw (pow-suc 2 j) (omega arith)

-- A byte of a bitmap is the number with its bits.
pub byte-value : (ts : List Bool) → byte_from 0 0 ts ≡ value ts
byte-value ts = byte_from-value 0 0 ts (omega arith) ∙ omega arith

pub popcount-ones :
    (width : ℕ) (ts : List Bool) → length ts ≤ width → popcount width (value ts) ≡ ones ts
unfolding popcount value ones
popcount-ones zero [] h = refl
popcount-ones zero (t ∷ ts) h = absurd (omega (arith, h))
popcount-ones (suc width) [] h = omega (arith, popcount-ones width [] (omega arith))
popcount-ones (suc width) (t ∷ ts) h =
    let (low, high) = value-cons t ts in
    rw (low, high) (ap (λ n. bit t + n) (popcount-ones width ts (omega (arith, h))))

-- The bit `k` of a byte, and what is above it
pub low_bit :
    (k mask : ℕ) (t : Bool) (ts : List Bool)
    → mask / 2 ^ k ≡ value (t ∷ ts)
    → mask / 2 ^ k % 2 ≡ bit t
low_bit k mask t ts e = ap (λ v. v % 2) e ∙ (value-cons t ts).0

pub high_bits :
    (k mask : ℕ) (t : Bool) (ts : List Bool)
    → mask / 2 ^ k ≡ value (t ∷ ts)
    → mask / 2 ^ suc k ≡ value ts
high_bits k mask t ts e = halved k mask ∙ ap (λ v. v / 2) e ∙ (value-cons t ts).1
  where
    halved : (k mask : ℕ) → mask / 2 ^ suc k ≡ mask / 2 ^ k / 2
    halved k mask = rw (pow-suc 2 k) (sym (div-div-eq-div-mul mask (2 ^ k) 2))
