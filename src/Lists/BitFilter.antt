-- ===== src/Lists/BitFilter.antt =====
-- src/function/list_comparison.cc: the filter by a generated bitmap keeps what the comparison holds
-- of.
use jitfusion.Common.{
  ℕ, zero, suc, ◌+◌, ◌/◌, ◌^◌, ◌≤◌, ◌<◌, ◌≡◌, refl, sym, ap, ◌∙◌, inl, inr, Bool, true, false,
  Option, none, some, List, [], ◌∷◌, ◌++◌, arith, ◌==◌, ==_iff, le→leb, lt→ltb, if◌then◌else◌,
  Bool-cases,
}
use native.Mathlib.Nat.{pow-suc, div-eq_of_lt}
use mathlib.Core.List.{append-nil, append_assoc}
use jitfusion.Common.Lists.{length, take, drop, length-take, length-drop, length-append}
use jitfusion.Lists.Bitmap.{
  pack, Filtered, kept, behind_end, checked, keep_bits, keep_byte, keep_last, keep_full,
}
use jitfusion.Lists.BitValue.{value, value-below, byte-value, low_bit, high_bits}

room_left : (cur n m : ℕ) → cur + n < m → cur < m
room_left cur n m h = omega (arith, h)

module _ {ℓ} {K : Type ℓ} where
  -- The elements beside a true test
  unfoldable pub select : List Bool → List K → List K
  select (t ∷ ts) (x ∷ xs) = let rest = select ts xs in if t then x ∷ rest else rest
  select _ _ = []

  length-select : (ts : List Bool) (xs : List K) → length (select ts xs) ≤ length xs
  unfolding select
  length-select [] xs = omega arith
  length-select (t ∷ ts) [] = omega arith
  length-select (true ∷ ts) (x ∷ xs) = omega (arith, length-select ts xs)
  length-select (false ∷ ts) (x ∷ xs) = omega (arith, length-select ts xs)

  -- The element in front of those that are kept behind it
  abbrev elim_some : K → Option (List K) → Option (List K)
  elim_some x none = none
  elim_some x (some xs) = some (x ∷ xs)

  module _ (room bits_cnt : ℕ) where
    keep_bits-select :
        (k mask cur : ℕ) (ts : List Bool) (base : List K)
        → mask / 2 ^ k ≡ value ts
        → length ts ≡ length base
        → cur + length (select ts base) < room
        → keep_bits room bits_cnt k mask base cur ≡ some (select ts base)
    unfolding keep_bits select
    keep_bits-select k mask cur [] [] e l h = refl
    keep_bits-select k mask cur [] (x ∷ base) e l h = absurd (omega (arith, l))
    keep_bits-select k mask cur (t ∷ ts) [] e l h = absurd (omega (arith, l))
    keep_bits-select k mask cur (true ∷ ts) (x ∷ base) e l h =
        rw (lt→ltb _ _ (room_left cur _ room h), low_bit k mask true ts e, keep_bits)
          (ap (elim_some x) (
            keep_bits-select (suc k) mask (suc cur) ts base (high_bits k mask true ts e)
              (omega (arith, l)) (omega (arith, h))))
    keep_bits-select k mask cur (false ∷ ts) (x ∷ base) e l h =
        rw (lt→ltb _ _ (room_left cur _ room h), low_bit k mask false ts e, keep_bits)
          (keep_bits-select (suc k) mask cur ts base (high_bits k mask false ts e)
            (omega (arith, l)) (omega (arith, h)))

    all_clear : (ts : List Bool) (base : List K) → value ts ≡ 0 → select ts base ≡ []
    unfolding select value
    all_clear [] base e = refl
    all_clear (t ∷ ts) [] e = refl
    all_clear (true ∷ ts) (x ∷ base) e = absurd (omega (arith, e))
    all_clear (false ∷ ts) (x ∷ base) e = all_clear ts base (omega (arith, e))

    all_set :
        (ts : List Bool) (base : List K)
        → length ts ≡ length base
        → value ts + 1 ≡ 2 ^ length ts
        → select ts base ≡ base
    unfolding select value
    all_set [] [] l e = refl
    all_set [] (x ∷ base) l e = absurd (omega (arith, l))
    all_set (t ∷ ts) [] l e = absurd (omega (arith, l))
    all_set (true ∷ ts) (x ∷ base) l e =
        ap (λ xs. x ∷ xs)
          (all_set ts base (omega (arith, l)) (omega (arith, e, pow-suc 2 (length ts))))
    all_set (false ∷ ts) (x ∷ base) l e =
        absurd (omega (arith, e, value-below ts, pow-suc 2 (length ts)))

    -- The short cuts for a byte of zeros and for a byte of ones agree with the loop.
    keep_byte-select :
        (ts : List Bool) (base : List K) (cur : ℕ)
        → length ts ≡ 8
        → length base ≡ 8
        → cur + length (select ts base) < room
        → keep_byte room bits_cnt (value ts) base cur ≡ some (select ts base)
    unfolding keep_byte
    keep_byte-select ts base cur l l' h = elim (Bool-cases (value ts == 0)) [
      | inl p ↦ rw p (ap some (sym (all_clear ts base ((==_iff _ _).0 p))))
      | inr p ↦ elim (Bool-cases (value ts == 255)) [
        | inl q ↦
            let full : select ts base ≡ base =
              all_set ts base (l ∙ sym l') (rw (l, (==_iff _ _).0 q) refl) in
            let in_array : cur + 8 ≤ room = omega (arith, h, ap length full, l') in
            rw (p, q, le→leb _ _ in_array) (ap some (sym full))
        | inr q ↦ rw (p, q) (keep_bits-select 0 (value ts) cur ts base (omega arith) (l ∙ sym l') h)
      ]
    ]

  select-take-drop :
      (n : ℕ) (ts : List Bool) (xs : List K)
      → select ts xs ≡ select (take n ts) (take n xs) ++ select (drop n ts) (drop n xs)
  unfolding select
  select-take-drop zero ts xs = refl
  select-take-drop (suc n) [] xs = refl
  select-take-drop (suc n) (t ∷ ts) [] = none_beside (drop n ts)
    where
      none_beside : (ts : List Bool) → [] ≡ select ts []
      none_beside [] = refl
      none_beside (t ∷ ts) = refl
  select-take-drop (suc n) (true ∷ ts) (x ∷ xs) = ap (λ ys. x ∷ ys) (select-take-drop n ts xs)
  select-take-drop (suc n) (false ∷ ts) (x ∷ xs) = select-take-drop n ts xs

  module _ (room bits_cnt : ℕ) (large : bits_cnt < room) where
    checked-kept : (xs : List K) → length xs ≡ bits_cnt → checked room bits_cnt xs ≡ kept xs
    checked-kept xs e = rw ((==_iff _ _).1 e) refl

    keep_last-select :
        (ts : List Bool) (a before : List K)
        → length ts ≡ length a
        → length (before ++ select ts a) ≡ bits_cnt
        → keep_last room bits_cnt (value ts ∷ []) a before ≡ kept (before ++ select ts a)
    unfolding keep_last
    keep_last-select ts a before l h =
        let above : value ts / 2 ^ length a ≡ 0 = rw (sym l) (div-eq_of_lt (value-below ts)) in
        let kept_here : keep_bits room bits_cnt 0 (value ts) a (length before)
            ≡ some (select ts a) =
          keep_bits-select room bits_cnt 0 (value ts) (length before) ts a (omega arith) l
            (omega (arith, large, h, length-append before (select ts a))) in
        rw ((==_iff _ _).1 above, kept_here, keep_last) (checked-kept (before ++ select ts a) h)

    -- From the front of a list and of its bitmap on, with the elements that were kept before
    pub keep_full-select :
        (n : ℕ) (ts : List Bool) (a before : List K)
        → length ts ≡ length a
        → length ts / 8 ≡ n
        → length (before ++ select ts a) ≡ bits_cnt
        → keep_full room bits_cnt n (pack n ts) a before ≡ kept (before ++ select ts a)
    unfolding keep_full keep_last pack select
    keep_full-select zero [] a before l e h =
        rw (append-nil before) (checked-kept before (sym (ap length (append-nil before)) ∙ h))
    keep_full-select zero (t ∷ ts) a before l e h =
        ap (λ v. keep_last room bits_cnt (v ∷ []) a before) (byte-value (t ∷ ts))
        ∙ keep_last-select (t ∷ ts) a before l h
    keep_full-select (suc n) ts a before l e h =
        let ts1 : List Bool = take 8 ts in
        let ts2 : List Bool = drop 8 ts in
        let s1 : List K = select ts1 (take 8 a) in
        let s2 : List K = select ts2 (drop 8 a) in
        let whole : before ++ select ts a ≡ (before ++ s1) ++ s2 =
          ap (λ xs. before ++ xs) (select-take-drop 8 ts a) ∙ sym (append_assoc before s1 s2) in
        let total : length ((before ++ s1) ++ s2) ≡ bits_cnt = sym (ap length whole) ∙ h in
        let eight : length ts1 ≡ 8 = omega (arith, length-take 8 ts, e) in
        let eight' : length (take 8 a) ≡ 8 = omega (arith, length-take 8 a, e, l) in
        let in_array : length before + length s1 < room =
          omega (arith, large, total, length-append (before ++ s1) s2, length-append before s1) in
        ap (λ v. keep_full room bits_cnt (suc n) (v ∷ pack n ts2) a before) (byte-value ts1)
        ∙ ap (next n ts2 a before)
            (keep_byte-select room bits_cnt ts1 (take 8 a) (length before) eight eight' in_array)
        ∙ keep_full-select n ts2 (drop 8 a) (before ++ s1)
            (omega (arith, length-drop 8 ts, length-drop 8 a, l))
            (omega (arith, length-drop 8 ts, e)) total
        ∙ ap kept (sym whole)
      where
        next : (n : ℕ) (ts2 : List Bool) (a before : List K) → Option (List K) → Filtered K
        next n ts2 a before none = behind_end
        next n ts2 a before (some xs) =
            keep_full room bits_cnt n (pack n ts2) (drop 8 a) (before ++ xs)
