-- ===== src/Lists/Choices.antt =====
-- src/function/list_comparison.cc: a choice by the bitmap of a comparison is a choice by the
-- comparison.
use jitfusion.Common.{
  ℕ, zero, suc, ◌+◌, ◌-◌, ◌/◌, ◌%◌, ◌^◌, ◌<◌, ◌≡◌, refl, sym, ap, ap₂, ◌∙◌, Bool, true, false, some,
  List, [], ◌∷◌, ◌++◌, map, arith, ◌==◌, ltb, le→ltb, if◌then◌else◌,
}
use jitfusion.Common.Lists.{length, take, drop, length-take, length-drop}
use jitfusion.Lists.Bitmap.{bit, byte_from, pack, pack_bits, gen_bitmap, bitmap_len}
use jitfusion.Lists.BitValue.{value, byte-value, low_bit, high_bits}
use jitfusion.Lists.BitCount.{length-pack}
use jitfusion.Lists.Filter.{length-map}
use jitfusion.Lists.Choose.{
  if_compare, unpack_bits, unpack, chosen, one_or_pick, with_bits, if_by_bitmap_lbrl,
}

bit-test : (t : Bool) → (bit t == 1) ≡ t
bit-test true = refl
bit-test false = refl

unpack_bits-value :
    (j mask : ℕ) (ts : List Bool) → mask / 2 ^ j ≡ value ts → unpack_bits j mask (length ts) ≡ ts
unfolding unpack_bits
unpack_bits-value j mask [] e = refl
unpack_bits-value j mask (t ∷ ts) e =
    ap₂ (λ b bs. b ∷ bs) (ap (λ n. n == 1) (low_bit j mask t ts e) ∙ bit-test t)
      (unpack_bits-value (suc j) mask ts (high_bits j mask t ts e))

unpack_bits-byte :
    (n : ℕ) (ts : List Bool) → length ts ≡ n → unpack_bits 0 (byte_from 0 0 ts) n ≡ ts
unpack_bits-byte n ts e =
    ap₂ (λ v k. unpack_bits 0 v k) (byte-value ts) (sym e)
    ∙ unpack_bits-value 0 (value ts) ts (omega arith)

take-drop : {A : Type 0} (n : ℕ) (xs : List A) → take n xs ++ drop n xs ≡ xs
take-drop zero xs = refl
take-drop (suc n) [] = refl
take-drop (suc n) (x ∷ xs) = ap (λ ys. x ∷ ys) (take-drop n xs)

-- The bits of a packed bitmap are those that were packed.
unpack-pack :
    (n : ℕ) (ts : List Bool) → length ts / 8 ≡ n → unpack n (pack n ts) (length ts) ≡ some ts
unfolding unpack pack
unpack-pack zero [] e = refl
unpack-pack zero (t ∷ ts) e = ap some (unpack_bits-byte (length (t ∷ ts)) (t ∷ ts) refl)
unpack-pack (suc n) ts e =
    let eight : length (take 8 ts) ≡ 8 = omega (arith, length-take 8 ts, e) in
    let rest : unpack n (pack n (drop 8 ts)) (length ts - 8) ≡ some (drop 8 ts) =
      ap (unpack n (pack n (drop 8 ts))) (sym (length-drop 8 ts))
      ∙ unpack-pack n (drop 8 ts) (omega (arith, length-drop 8 ts, e)) in
    rw (rest, unpack)
      (ap some (ap (λ bs. bs ++ drop 8 ts) (unpack_bits-byte 8 (take 8 ts) eight) ∙ take-drop 8 ts))

module _ {ℓ} {K : Type ℓ} where
  with_bits-pack :
      (ts : List Bool) (len : ℕ) (choice : List Bool → List K)
      → length ts ≡ len
      → len + 7 < 2 ^ 32
      → with_bits (pack (length ts / 8) ts) len choice ≡ chosen (choice ts)
  unfolding with_bits bitmap_len
  with_bits-pack ts len choice e small =
      let long : ltb (length (pack (length ts / 8) ts)) ((len + 7) % 2 ^ 32 / 8) ≡ false =
        le→ltb _ _ (omega (arith, length-pack ts, e, small)) in
      let bits : unpack (len / 8) (pack (length ts / 8) ts) len ≡ some ts =
        ap (λ n. unpack (n / 8) (pack (length ts / 8) ts) n) (sym e)
        ∙ unpack-pack (length ts / 8) ts refl in
      rw (long, bits, with_bits) refl

  one_or_pick-map :
      (holds : K → Bool) (v : K) (xs : List K)
      → one_or_pick (map holds xs) v xs ≡ map (λ x. if holds x then v else x) xs
  unfolding one_or_pick
  one_or_pick-map holds v [] = refl
  one_or_pick-map holds v (x ∷ xs) =
      ap (λ ys. (if holds x then v else x) ∷ ys) (one_or_pick-map holds v xs)

  -- Where the length of a list is at least 7 below 2^32, the choice between a value and the list, by
  -- the bitmap of a comparison with the list on its left, reports no error and does not read behind
  -- the bitmap: it gives what the function gives that compares and replaces in one.
  pub if_by_bitmap_lbrl-gen_bitmap :
      (compare_op : K → K → Bool) (a : List K) (cmp_value target_value : K)
      → length a + 7 < 2 ^ 32
      → if_by_bitmap_lbrl ((gen_bitmap compare_op a cmp_value).bytes) target_value a
        ≡ chosen (if_compare compare_op a cmp_value target_value)
  unfolding if_by_bitmap_lbrl gen_bitmap pack_bits if_compare
  if_by_bitmap_lbrl-gen_bitmap compare_op a b v small =
      with_bits-pack (map (λ x. compare_op x b) a) (length a) (λ bits. one_or_pick bits v a)
        (length-map (λ x. compare_op x b) a) small
      ∙ ap chosen (one_or_pick-map (λ x. compare_op x b) v a)
