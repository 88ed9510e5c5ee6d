-- ===== src/Lists/BitCount.antt =====
-- `CountBits` of src/function/list_aggregation.cc counts the bits that a bitmap is packed from.
use jitfusion.Common.{
  ℕ, zero, suc, ◌+◌, ◌*◌, ◌/◌, ◌%◌, ◌^◌, ◌≤◌, ◌<◌, ◌≡◌, refl, sym, ap, ap₂, subst, ◌∙◌, Bool, true,
  false, List, [], ◌∷◌, arith,
}
use native.Mathlib.Nat.{pow-suc, suc-add}
use jitfusion.Common.Lists.{length, take, drop, length-take, length-drop}
use jitfusion.Lists.Bitmap.{
  byte_from, pack, popcount, word_of, count_bytes, count_words, count_bits,
}
use jitfusion.Lists.BitValue.{value, ones, byte-value, popcount-ones}

popcount-split :
    (k m b v : ℕ) → b < 2 ^ k → popcount (k + m) (b + 2 ^ k * v) ≡ popcount k b + popcount m v
unfolding popcount
popcount-split zero m zero v h = ap₂ popcount (no_more m) (only_v v) ∙ omega arith
  where
    no_more : (m : ℕ) → 0 + m ≡ m
    no_more m = omega arith

    only_v : (v : ℕ) → 0 + 2 ^ 0 * v ≡ v
    only_v v = omega arith
popcount-split zero m (suc b) v h = absurd (omega (arith, h))
popcount-split (suc k) m b v h =
    let e : 2 ^ suc k ≡ 2 ^ k * 2 = pow-suc 2 k in
    let p : 2 ^ suc k * v ≡ 2 * (2 ^ k * v) = rw e (omega arith) in
    let low : (b + 2 ^ suc k * v) % 2 ≡ b % 2 = omega (arith, p) in
    let high : (b + 2 ^ suc k * v) / 2 ≡ b / 2 + 2 ^ k * v = omega (arith, p) in
    rw (suc-add, low, high) (omega (arith, popcount-split k m (b / 2) v (omega (arith, h, e))))

popcount-none : (w : ℕ) → popcount w 0 ≡ 0
unfolding popcount
popcount-none zero = refl
popcount-none (suc w) = omega (arith, popcount-none w)

popcount-wide : (k m b : ℕ) → b < 2 ^ k → popcount (k + m) b ≡ popcount k b
popcount-wide k m b h =
    ap (popcount (k + m)) (padded b (2 ^ k))
    ∙ popcount-split k m b 0 h
    ∙ omega (arith, popcount-none m)
  where
    padded : (b p : ℕ) → b ≡ b + p * 0
    padded b p = omega arith

-- Every number is a byte.
data Bytes : List ℕ → Type 0 where
  none_left : Bytes []
  one_more : {b : ℕ} {bytes : List ℕ} → b < 256 → Bytes bytes → Bytes (b ∷ bytes)

Bytes-take : (n : ℕ) {bytes : List ℕ} → Bytes bytes → Bytes (take n bytes)
Bytes-take zero h = none_left
Bytes-take (suc n) none_left = none_left
Bytes-take (suc n) (one_more b h) = one_more b (Bytes-take n h)

Bytes-drop : (n : ℕ) {bytes : List ℕ} → Bytes bytes → Bytes (drop n bytes)
Bytes-drop zero h = h
Bytes-drop (suc n) none_left = none_left
Bytes-drop (suc n) (one_more b h) = Bytes-drop n h

-- A word has the bits of its bytes.
popcount-word_of :
    (bytes : List ℕ) → Bytes bytes → popcount (8 * length bytes) (word_of bytes) ≡ count_bytes bytes
unfolding word_of count_bytes popcount
popcount-word_of [] none_left = refl
popcount-word_of (b ∷ bytes) (one_more small h) =
    ap (λ w. popcount w (b + 256 * word_of bytes)) (width (length bytes))
    ∙ popcount-split 8 (8 * length bytes) b (word_of bytes) small
    ∙ ap₂ (λ x y. x + y) (sym (popcount-wide 8 24 b small)) (popcount-word_of bytes h)
  where
    width : (n : ℕ) → 8 * suc n ≡ 8 + 8 * n
    width n = omega arith

count_bytes-take-drop :
    (n : ℕ) (bytes : List ℕ)
    → count_bytes (take n bytes) + count_bytes (drop n bytes) ≡ count_bytes bytes
unfolding count_bytes
count_bytes-take-drop zero bytes = omega arith
count_bytes-take-drop (suc n) [] = omega arith
count_bytes-take-drop (suc n) (b ∷ bytes) = omega (arith, count_bytes-take-drop n bytes)

count_words-count_bytes :
    (words : ℕ) (bytes : List ℕ)
    → Bytes bytes
    → words * 8 ≤ length bytes
    → count_words words bytes ≡ count_bytes bytes
unfolding count_words
count_words-count_bytes zero bytes h l = refl
count_words-count_bytes (suc words) bytes h l =
    let eight : length (take 8 bytes) ≡ 8 = omega (arith, length-take 8 bytes, l) in
    let first : popcount 64 (word_of (take 8 bytes)) ≡ count_bytes (take 8 bytes) =
      subst (λ n. popcount (8 * n) (word_of (take 8 bytes)) ≡ count_bytes (take 8 bytes)) eight
        (popcount-word_of (take 8 bytes) (Bytes-take 8 h)) in
    ap₂ (λ x y. x + y) first
      (count_words-count_bytes words (drop 8 bytes) (Bytes-drop 8 h)
        (omega (arith, length-drop 8 bytes, l)))
    ∙ count_bytes-take-drop 8 bytes

value-bound : (n : ℕ) (ts : List Bool) → length ts ≤ n → value ts < 2 ^ n
unfolding value
value-bound zero [] h = omega arith
value-bound zero (t ∷ ts) h = absurd (omega (arith, h))
value-bound (suc n) [] h = omega (arith, value-bound n [] (omega arith), pow-suc 2 n)
value-bound (suc n) (true ∷ ts) h = omega (arith, value-bound n ts (omega (arith, h)), pow-suc 2 n)
value-bound (suc n) (false ∷ ts) h = omega (arith, value-bound n ts (omega (arith, h)), pow-suc 2 n)

ones-take-drop : (n : ℕ) (ts : List Bool) → ones (take n ts) + ones (drop n ts) ≡ ones ts
unfolding ones
ones-take-drop zero ts = omega arith
ones-take-drop (suc n) [] = omega arith
ones-take-drop (suc n) (t ∷ ts) = omega (arith, ones-take-drop n ts)

pub ones-most : (ts : List Bool) → ones ts ≤ length ts
unfolding ones
ones-most [] = omega arith
ones-most (true ∷ ts) = omega (arith, ones-most ts)
ones-most (false ∷ ts) = omega (arith, ones-most ts)

byte-ones : (ts : List Bool) → length ts ≤ 8 → popcount 32 (byte_from 0 0 ts) ≡ ones ts
byte-ones ts h = ap (popcount 32) (byte-value ts) ∙ popcount-ones 32 ts (omega (arith, h))

byte-small : (ts : List Bool) → length ts ≤ 8 → byte_from 0 0 ts < 256
byte-small ts h = subst (λ v. v < 256) (sym (byte-value ts)) (value-bound 8 ts h)

pack_lem :
    (n : ℕ) (ts : List Bool)
    → length ts / 8 ≡ n
    → Bytes (pack n ts)
      × (count_bytes (pack n ts) ≡ ones ts)
      × (length (pack n ts) ≡ (length ts + 7) / 8)
unfolding pack count_bytes ones
pack_lem zero [] e = (none_left, refl, refl)
pack_lem zero (t ∷ ts) e =
    let short : length (t ∷ ts) ≤ 8 = omega (arith, e) in
    (
      one_more (byte-small (t ∷ ts) short) none_left,
      omega (arith, byte-ones (t ∷ ts) short),
      omega (arith, e),
    )
pack_lem (suc n) ts e =
    let short : length (take 8 ts) ≤ 8 = omega (arith, length-take 8 ts) in
    let (small, count, len) = pack_lem n (drop 8 ts) (omega (arith, length-drop 8 ts, e)) in
    (
      one_more (byte-small (take 8 ts) short) small,
      omega (arith, byte-ones (take 8 ts) short, count, ones-take-drop 8 ts),
      omega (arith, len, length-drop 8 ts, e),
    )

-- The bits that are counted in a bitmap are those that are set.
pub count_bits-pack :
    (ts : List Bool) → length ts < 2 ^ 32 → count_bits (pack (length ts / 8) ts) ≡ ones ts
unfolding count_bits
count_bits-pack ts small =
    let bytes : List ℕ = pack (length ts / 8) ts in
    let (h, count, len) = pack_lem (length ts / 8) ts refl in
    let sum : count_words (length bytes / 8) bytes ≡ ones ts =
      count_words-count_bytes (length bytes / 8) bytes h (omega arith) ∙ count in
    rw sum (no_wrap (ones ts) (omega (arith, ones-most ts, small)))
  where
    no_wrap : (n : ℕ) → n < 2 ^ 32 → n % 2 ^ 32 ≡ n
    no_wrap n h = omega (arith, h)

pub length-pack : (ts : List Bool) → length (pack (length ts / 8) ts) ≡ (length ts + 7) / 8
length-pack ts = let (h, count, len) = pack_lem (length ts / 8) ts refl in len
