-- ===== src/Artifact/LittleEndian.antt =====
-- The little-endian loops of src/compiled_artifact.cc against a list of bytes.
use Prim.Native.Nat.{bit_or}
use mathlib.Core.List.{append_assoc, append-nil}
use native.Mathlib.Nat.{add-zero, add_assoc, pow-suc, div-div-eq-div-mul}
use native.Mathlib.Numerals.{towards_suc}
use jitfusion.Common.{
  ℕ, zero, suc, ◌+◌, ◌*◌, ◌/◌, ◌%◌, ◌^◌, ◌<◌, ◌≡◌, refl, ap, sym, ◌∙◌, List, [], ◌∷◌, ◌++◌, arith,
  length, drop, get_or, get_or-drop, drop-drop,
}
use jitfusion.Common.Bits.{bit_or-shift}
use jitfusion.Artifact.Write.{append_le}
use jitfusion.Artifact.Read.{read_le, byte_at}

abbrev pub AllBytes : List ℕ → Type 0
AllBytes [] = Unit {0}
AllBytes (b ∷ bs) = (b < 256) × AllBytes bs

-- The `n` low bytes of a number, the lowest first, and the number that bytes stand for
unfoldable pub le_bytes : ℕ → ℕ → List ℕ
le_bytes zero v = []
le_bytes (suc n) v = (v % 256) ∷ le_bytes n (v / 256)

pub le_value : List ℕ → ℕ
le_value [] = 0
le_value (b ∷ bs) = b + 256 * le_value bs

pub length-le_bytes : (n v : ℕ) → length (le_bytes n v) ≡ n
unfolding le_bytes
length-le_bytes zero v = refl
length-le_bytes (suc n) v = ap suc (length-le_bytes n (v / 256))

pub AllBytes-le_bytes : (n v : ℕ) → AllBytes (le_bytes n v)
unfolding le_bytes
AllBytes-le_bytes zero v = tt
AllBytes-le_bytes (suc n) v = (omega arith, AllBytes-le_bytes n (v / 256))

shift_byte : (i : ℕ) → 2 ^ ((i + 1) * 8) ≡ 2 ^ (i * 8) * 256
shift_byte i =
    let e : (i + 1) * 8 ≡ i * 8 + 8 = omega arith in
    rw e (simp towards_suc (simp pow-suc (omega arith)))

pub le_value-le_bytes : (n v : ℕ) → v < 2 ^ (n * 8) → le_value (le_bytes n v) ≡ v
unfolding le_bytes le_value
le_value-le_bytes zero v h = omega arith
le_value-le_bytes (suc n) v h =
    let e : suc n * 8 ≡ (n + 1) * 8 = omega arith in
    let small : v < 2 ^ (n * 8) * 256 = rw (← shift_byte n, ← e) h in
    omega (arith, le_value-le_bytes n (v / 256) (omega arith))

pub append_le-le_bytes :
    (n i : ℕ) (out : List ℕ) (v : ℕ) → append_le n i out v ≡ out ++ le_bytes n (v / 2 ^ (i * 8))
unfolding append_le le_bytes
append_le-le_bytes zero i out v = sym (append-nil out)
append_le-le_bytes (suc n) i out v =
    let next : v / 2 ^ ((i + 1) * 8) ≡ v / 2 ^ (i * 8) / 256 =
      rw (shift_byte i) (sym (div-div-eq-div-mul v (2 ^ (i * 8)) 256)) in
    append_le-le_bytes n (i + 1) (out ++ (v / 2 ^ (i * 8) % 256) ∷ []) v ∙ rw (next, append_assoc)

pub byte_at-drop :
    (buf : List ℕ) (n : ℕ) {b : ℕ} {r : List ℕ} → drop n buf ≡ b ∷ r → byte_at buf n ≡ b
byte_at-drop buf n e =
    ap (λ k. get_or buf k 0) (sym (add-zero n)) ∙ get_or-drop 0 n 0 buf ∙ ap (λ l. get_or l 0 0) e

pub drop_next :
    (buf : List ℕ) (n : ℕ) {b : ℕ} {r : List ℕ} → drop n buf ≡ b ∷ r → drop (n + 1) buf ≡ r
drop_next buf n e = sym (drop-drop 1 n buf) ∙ ap (drop 1) e

byte_fits : (b v p : ℕ) → b < 256 → v < p → v + b * p < p * 256
byte_fits b v p h small = grind arith

pub read_le-le_value :
    (bs r : List ℕ) (i : ℕ) (buf : List ℕ) (pos v : ℕ)
    → drop (pos + i) buf ≡ bs ++ r
    → AllBytes bs
    → v < 2 ^ (i * 8)
    → read_le (length bs) i buf pos v ≡ v + le_value bs * 2 ^ (i * 8)
unfolding read_le le_value
read_le-le_value [] r i buf pos v e h small = omega arith
read_le-le_value (b ∷ bs) r i buf pos v e h small =
    let here : byte_at buf (pos + i) ≡ b = byte_at-drop buf (pos + i) e in
    let there : drop (pos + (i + 1)) buf ≡ bs ++ r =
      ap (λ k. drop k buf) (sym (add_assoc pos i 1)) ∙ drop_next buf (pos + i) e in
    let big : v + b * 2 ^ (i * 8) < 2 ^ ((i + 1) * 8) =
      rw (shift_byte i) (byte_fits b v (2 ^ (i * 8)) h.0 small) in
    ap (λ c. read_le (length bs) (i + 1) buf pos (bit_or v (c * 2 ^ (i * 8)))) here
    ∙ ap (λ w. read_le (length bs) (i + 1) buf pos w) (bit_or-shift (i * 8) v b small)
    ∙ read_le-le_value bs r (i + 1) buf pos (v + b * 2 ^ (i * 8)) there h.1 big
    ∙ rw (shift_byte i) (grind arith)

pub le_bytes-le_value : (bs : List ℕ) → AllBytes bs → le_bytes (length bs) (le_value bs) ≡ bs
unfolding le_bytes le_value
le_bytes-le_value [] h = refl
le_bytes-le_value (b ∷ bs) h =
    let low : (b + 256 * le_value bs) % 256 ≡ b = omega (arith, h.0) in
    let high : (b + 256 * le_value bs) / 256 ≡ le_value bs = omega (arith, h.0) in
    rw (low, high, le_bytes-le_value bs h.1)

pub le_value-lt : (bs : List ℕ) → AllBytes bs → le_value bs < 2 ^ (length bs * 8)
unfolding le_value
le_value-lt [] h = omega arith
le_value-lt (b ∷ bs) h =
    let e : suc (length bs) * 8 ≡ (length bs + 1) * 8 = omega arith in
    rw (e, shift_byte (length bs)) (omega (arith, le_value-lt bs h.1, h.0))
