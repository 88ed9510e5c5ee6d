-- ===== src/Lists/Filter.antt =====
-- src/function/list_comparison.cc: a comparison into a bitmap and a filter by this bitmap.
use jitfusion.Common.{
  ℕ, suc, ◌+◌, ◌/◌, ◌%◌, ◌^◌, ◌≤◌, ◌<◌, ◌≡◌, refl, sym, ap, ◌∙◌, Bool, true, false, List, [], ◌∷◌,
  map, arith, ◌==◌, ==_iff, if◌then◌else◌,
}
use jitfusion.Common.Lists.{length}
use jitfusion.Lists.Bitmap.{
  pack, pack_bits, gen_bitmap, kept, count_bits, filter_by_bitmap, filter_by_bitmap_sugar,
  bitmap_len,
}
use jitfusion.Lists.BitValue.{ones}
use jitfusion.Lists.BitFilter.{select, keep_full-select}
use jitfusion.Lists.BitCount.{count_bits-pack, length-pack, ones-most}

module _ {ℓ} {K : Type ℓ} where
  -- The elements that a test holds of, in their order
  unfoldable pub where_true : (K → Bool) → List K → List K
  where_true holds [] = []
  where_true holds (x ∷ xs) = let rest = where_true holds xs in if holds x then x ∷ rest else rest

  select-map : (holds : K → Bool) (xs : List K) → select (map holds xs) xs ≡ where_true holds xs
  unfolding select where_true
  select-map holds [] = refl
  select-map holds (x ∷ xs) = ap (λ ys. if holds x then x ∷ ys else ys) (select-map holds xs)

  pub length-map : (holds : K → Bool) (xs : List K) → length (map holds xs) ≡ length xs
  length-map holds [] = refl
  length-map holds (x ∷ xs) = ap (λ n. suc n) (length-map holds xs)

  length-select :
      (ts : List Bool) (xs : List K) → length ts ≡ length xs → length (select ts xs) ≡ ones ts
  unfolding select ones
  length-select [] xs h = refl
  length-select (t ∷ ts) [] h = absurd (omega (arith, h))
  length-select (true ∷ ts) (x ∷ xs) h = omega (arith, length-select ts xs (omega (arith, h)))
  length-select (false ∷ ts) (x ∷ xs) h = omega (arith, length-select ts xs (omega (arith, h)))

  -- With its own count of bits, the bitmap of the tests keeps the elements beside a true test.
  filter-pack :
      (ts : List Bool) (a : List K)
      → length ts ≡ length a
      → length a + 7 < 2 ^ 32
      → filter_by_bitmap_sugar a (pack (length ts / 8) ts) ≡ kept (select ts a)
  unfolding filter_by_bitmap_sugar filter_by_bitmap bitmap_len
  filter-pack ts a same small =
      let bitmap : List ℕ = pack (length ts / 8) ts in
      let ones_few : ones ts ≤ length ts = ones-most ts in
      let count : count_bits bitmap ≡ ones ts = count_bits-pack ts (omega (arith, same, small)) in
      let fits : ((length a + 7) % 2 ^ 32 / 8 == length bitmap) ≡ true =
        (==_iff _ _).1 (omega (arith, length-pack ts, same, small)) in
      let eighths : length a / 8 ≡ length ts / 8 = ap (λ n. n / 8) (sym same) in
      rw (fits, count, eighths)
        (keep_full-select ((ones ts + 1) % 2 ^ 32) (ones ts) (omega (arith, ones_few, same, small))
          (length ts / 8) ts a [] same refl (length-select ts a same))

  -- Where the length of a list is at least 7 below 2^32, the filter by two arguments, for the
  -- bitmap of a comparison with a value, reports no error and neither writes behind its array nor
  -- reads behind the bitmap: it keeps the elements that the comparison holds of, in their order.
  pub filter_by_bitmap_sugar-gen_bitmap :
      (compare_op : K → K → Bool) (a : List K) (b : K)
      → length a + 7 < 2 ^ 32
      → filter_by_bitmap_sugar a ((gen_bitmap compare_op a b).bytes)
        ≡ kept (where_true (λ x. compare_op x b) a)
  unfolding gen_bitmap pack_bits
  filter_by_bitmap_sugar-gen_bitmap compare_op a b small =
      filter-pack (map (λ x. compare_op x b) a) a (length-map (λ x. compare_op x b) a) small
      ∙ ap kept (select-map (λ x. compare_op x b) a)
