-- ===== src/Lists/Bitmap.antt =====
-- src/function/list_comparison.cc: bitmaps of comparisons, and the filter by a bitmap;
-- `CountBits` of src/function/list_aggregation.cc. A bitmap is its list of bytes.
use jitfusion.Common.{
  ℕ, zero, suc, ◌+◌, ◌*◌, ◌/◌, ◌%◌, ◌^◌, Bool, true, false, not, ◌&&◌, Option, none, some, List, [],
  ◌∷◌, ◌++◌, map, ◌==◌, ltb, leb, if◌then◌else◌,
}
use Prim.Native.Nat.{bit_or}
use jitfusion.Common.Lists.{length, take, drop}

-- `is_true`
abbrev pub bit : Bool → ℕ
bit true = 1
bit false = 0

-- The inner loop of `GenBitmap`: the bits of a byte from the bit `j`
unfoldable pub byte_from : ℕ → ℕ → List Bool → ℕ
byte_from j mask_bit [] = mask_bit
byte_from j mask_bit (t ∷ ts) = byte_from (suc j) (bit_or mask_bit (bit t * 2 ^ j)) ts

-- The outer loop on the full bytes, and the last byte
unfoldable pub pack : ℕ → List Bool → List ℕ
unfolding byte_from
pack zero [] = []
pack zero (t ∷ ts) = byte_from 0 0 (t ∷ ts) ∷ []
pack (suc full_bytes) ts = byte_from 0 0 (take 8 ts) ∷ pack full_bytes (drop 8 ts)

-- The length of a bitmap, with the sum in 32 bits
unfoldable pub bitmap_len : ℕ → ℕ
bitmap_len len = (len + 7) % 2 ^ 32 / 8

-- A bitmap, and whether the byte behind its end is written
pub record Generated : Type 0 where
  pub bytes : List ℕ
  pub writes_behind : Bool

unfoldable pub pack_bits : List Bool → Generated
unfolding pack bitmap_len
pack_bits ts = record {
  bytes = pack (length ts / 8) ts;
  writes_behind = not (length ts == 0) && leb (bitmap_len (length ts)) (length ts / 8);
}

module _ {ℓ} {K : Type ℓ} (compare_op : K → K → Bool) where
  -- `GenBitmap`
  unfoldable pub gen_bitmap : List K → K → Generated
  unfolding pack_bits
  gen_bitmap a b = pack_bits (map (λ x. compare_op x b) a)

  abbrev pub zip_with : List K → List K → List Bool
  zip_with (x ∷ xs) (y ∷ ys) = compare_op x y ∷ zip_with xs ys
  zip_with _ _ = []

  -- `GenBitmapList`; none where it reports that the lengths differ
  unfoldable pub gen_bitmap_list : List K → List K → Option Generated
  unfolding pack_bits
  gen_bitmap_list a b = if not (length a == length b) then none else some (pack_bits (zip_with a b))

-- What `FilterByBitmap` gives: its list, one of its errors, a write behind the
-- end of the array, or a read behind the end of the bitmap
pub data Filtered {ℓ} (A : Type ℓ) : Type ℓ where
  kept : List A → Filtered A
  len_not_corresponding too_long bits_cnt_not_corresponding behind_end behind_bitmap : Filtered A

module _ {ℓ} {K : Type ℓ} (room bits_cnt : ℕ) where
  -- The loops on `k`: every element is written at `cur`, and a set bit keeps it. The array has
  -- `room` elements.
  unfoldable pub keep_bits : ℕ → ℕ → List K → ℕ → Option (List K)
  keep_bits k mask [] cur = some []
  keep_bits k mask (x ∷ base) cur = elim (ltb cur room) [
    | false ↦ none
    | true ↦ elim (mask / 2 ^ k % 2 == 1) [
      | true ↦ elim (keep_bits (suc k) mask base (suc cur)) [
        | none ↦ none
        | some xs ↦ some (x ∷ xs)
      ]
      | false ↦ keep_bits (suc k) mask base cur
    ]
  ]

  -- A full byte
  unfoldable pub keep_byte : ℕ → List K → ℕ → Option (List K)
  unfolding keep_bits
  keep_byte mask base cur =
      if mask == 0
      then some []
      else if mask == 255
      then (if leb (cur + 8) room then some base else none)
      else keep_bits 0 mask base cur

  -- Behind the loops: the test of `cur`
  abbrev pub checked : List K → Filtered K
  checked xs = if not (length xs == bits_cnt) then bits_cnt_not_corresponding else kept xs

  -- The last byte, with the elements that were kept before
  unfoldable pub keep_last : List ℕ → List K → List K → Filtered K
  unfolding keep_bits
  keep_last [] base before = checked before
  keep_last (mask ∷ bitmap) base before =
      if not (mask / 2 ^ length base == 0)
      then too_long
      else elim (keep_bits 0 mask base (length before)) [
        | none ↦ behind_end
        | some xs ↦ checked (before ++ xs)
      ]

  -- The loop on the full bytes
  unfoldable pub keep_full : ℕ → List ℕ → List K → List K → Filtered K
  unfolding keep_byte keep_last
  keep_full zero bitmap a before = keep_last bitmap a before
  keep_full (suc full_bytes) [] a before = behind_bitmap
  keep_full (suc full_bytes) (mask ∷ bitmap) a before =
      elim (keep_byte mask (take 8 a) (length before)) [
        | none ↦ behind_end
        | some xs ↦ keep_full full_bytes bitmap (drop 8 a) (before ++ xs)
      ]

-- `FilterByBitmap`
unfoldable pub filter_by_bitmap {ℓ} : {K : Type ℓ} → List K → List ℕ → ℕ → Filtered K
unfolding keep_full bitmap_len
filter_by_bitmap a bitmap bits_cnt =
    if not (bitmap_len (length a) == length bitmap)
    then len_not_corresponding
    else keep_full ((bits_cnt + 1) % 2 ^ 32) bits_cnt (length a / 8) bitmap a []

-- `Popcount` and `Popcountll`: the set bits among the lowest `width`
unfoldable pub popcount : ℕ → ℕ → ℕ
popcount zero x = 0
popcount (suc width) x = x % 2 + popcount width (x / 2)

-- The 64-bit word that `memcpy` makes of eight bytes, the lowest first
unfoldable pub word_of : List ℕ → ℕ
word_of [] = 0
word_of (b ∷ bytes) = b + 256 * word_of bytes

-- The second loop of `CountBits`
unfoldable pub count_bytes : List ℕ → ℕ
unfolding popcount
count_bytes [] = 0
count_bytes (b ∷ a) = popcount 32 b + count_bytes a

-- The loop of `CountBits` over words, and the second loop
unfoldable pub count_words : ℕ → List ℕ → ℕ
unfolding popcount word_of count_bytes
count_words zero a = count_bytes a
count_words (suc words) a = popcount 64 (word_of (take 8 a)) + count_words words (drop 8 a)

-- `CountBits`; the sum has 32 bits
unfoldable pub count_bits : List ℕ → ℕ
unfolding count_words
count_bits a = count_words (length a / 8) a % 2 ^ 32

-- `FilterByBitmap` of two arguments (`EmitFilterByBitmapSugar`)
unfoldable pub filter_by_bitmap_sugar {ℓ} : {K : Type ℓ} → List K → List ℕ → Filtered K
unfolding filter_by_bitmap count_bits
filter_by_bitmap_sugar a bitmap = filter_by_bitmap a bitmap (count_bits bitmap)
