-- ===== src/Dsu/Link.antt =====
-- athena/dsu.cc: `Union` and `Connected` with enough fuel.
use jitfusion.Common.{
  ℕ, suc, ◌+◌, ◌%◌, ◌^◌, ◌≤◌, ◌<◌, ◌≡◌, refl, sym, ap, ◌∙◌, ◌⊎◌, inl, inr, Bool, true, false, some,
  arith, ◌==◌, ==_iff, ==_refl, if◌then◌else◌, Bool-cases, ltb, ltb→lt, ltb→ge,
}
use jitfusion.Dsu.{Dsu, write, find, link, union, connected}
use jitfusion.Dsu.Labels.{Present, Step, Labels, write_same, write_other}
use jitfusion.Dsu.Find.{Finds, find-Finds}
use jitfusion.Dsu.Union.{merged, attached-Labels}

-- The second labels have the sets of the first, but that of `x` and that of `y` are one.
pub record Unites (label label' : ℕ → ℕ) (x y : ℕ) : Type 0 where
  pub keeps : (z w : ℕ) → label z ≡ label w → label' z ≡ label' w
  pub unites : label' x ≡ label' y
  pub only :
      (z w : ℕ)
      → label' z ≡ label' w
      → (label z ≡ label w)
        ⊎ (((label z ≡ label x) × (label w ≡ label y))
            ⊎ ((label z ≡ label y) × (label w ≡ label x)))

merged-Unites : (label : ℕ → ℕ) (x y : ℕ) → Unites label (merged (label x) (label y) label) x y
merged-Unites label x y = record {
  keeps = λ z w h. ap (λ l. if l == label x then label y else l) h;
  unites = rw (==_refl (label x)) (other (label y == label x));
  only = only_these;
}
  where
    other : (c : Bool) → label y ≡ (if c then label y else label y)
    other true = refl
    other false = refl

    only_these :
        (z w : ℕ)
        → merged (label x) (label y) label z ≡ merged (label x) (label y) label w
        → (label z ≡ label w)
          ⊎ (((label z ≡ label x) × (label w ≡ label y))
              ⊎ ((label z ≡ label y) × (label w ≡ label x)))
    only_these z w h = elim (Bool-cases (label z == label x)) [
      | inl p ↦ elim (Bool-cases (label w == label x)) [
        | inl q ↦ inl ((==_iff _ _).0 p ∙ sym ((==_iff _ _).0 q))
        | inr q ↦ inr (inl ((==_iff _ _).0 p, sym (rw (p, q) at h)))
      ]
      | inr p ↦ elim (Bool-cases (label w == label x)) [
        | inl q ↦ inr (inr (rw (p, q) at h, (==_iff _ _).0 q))
        | inr q ↦ inl (rw (p, q) at h)
      ]
    ]

swap : (label label' : ℕ → ℕ) (x y : ℕ) → Unites label label' y x → Unites label label' x y
swap label label' x y u = record {
  keeps = u.keeps;
  unites = sym u.unites;
  only = λ z w h. turn (u.only z w h);
}
  where
    turn : {A B C : Type 0} → A ⊎ (B ⊎ C) → A ⊎ (C ⊎ B)
    turn (inl a) = inl a
    turn (inr (inl b)) = inr (inr b)
    turn (inr (inr c)) = inr (inl c)

-- A bound may be raised.
raised : (top : ℕ) (label : ℕ → ℕ) (d : Dsu) → Labels top label d → Labels (suc top) label d
raised top label d labels = record {
  absent = labels.absent;
  present = λ x y h.
      let s : Step top label d x y = labels.present x y h in
      record {
        same_set = s.same_set;
        bounded = omega (arith, s.bounded);
        below_root = s.below_root;
        root = s.root;
        upward = s.upward;
        own_root = s.own_root;
        parent_present = s.parent_present;
      };
}

-- Behind a union
pub record United (top : ℕ) (label : ℕ → ℕ) (x y : ℕ) (d : Dsu) : Type 0 where
  pub label' : ℕ → ℕ
  pub labels : Labels (suc top) label' d
  pub sets : Unites label label' x y

module _ (top : ℕ) (label : ℕ → ℕ) (d : Dsu) (labels : Labels top label d)
    (small : suc top < 2 ^ 32) where
  no_wrap : (r : ℕ) → r ≤ top → (r + 1) % 2 ^ 32 ≡ suc r
  no_wrap r h = omega (arith, h, small)

  not_equal : (x y : ℕ) → (x == y) ≡ false → (y == x) ≡ false
  not_equal x y h = ground arith

  same_set : {x y : ℕ} → (label x == label y) ≡ true → United top label x y d
  same_set p = record {
    label' = label;
    labels = raised top label d labels;
    sets = record { keeps = λ z w h. h; unites = (==_iff _ _).0 p; only = λ z w h. inl h };
  }

  link-United :
      (x y : ℕ) → Present d x → Present d y → United top label x y (link (label x) (label y) d)
  unfolding link
  link-United x y (px, hx) (py, hy) =
      let a : ℕ = label x in
      let b : ℕ = label y in
      let at_a = (labels.present x px hx).root in
      let at_b = (labels.present y py hy).root in
      let top_a = (labels.present a a at_a).bounded in
      let top_b = (labels.present b b at_b).bounded in
      elim (Bool-cases (a == b)) [
        | inl p ↦ rw p (same_set p)
        | inr p ↦ elim (Bool-cases (ltb (d.rank a) (d.rank b))) [
          | inl q ↦
              rw (p, q)
                (record {
                  label' = merged a b label;
                  labels =
                      attached-Labels top label d labels a b at_a at_b p d.rank (λ z h. refl)
                        (omega arith) (omega (arith, top_b)) (ltb→lt _ _ q);
                  sets = merged-Unites label x y;
                })
          | inr q ↦ elim (Bool-cases (ltb (d.rank b) (d.rank a))) [
            | inl r ↦
                rw (p, q, r)
                  (record {
                    label' = merged b a label;
                    labels =
                        attached-Labels top label d labels b a at_b at_a (not_equal a b p) d.rank
                          (λ z h. refl) (omega arith) (omega (arith, top_a)) (ltb→lt _ _ r);
                    sets = swap label (merged b a label) x y (merged-Unites label y x);
                  })
            | inr r ↦
                rw (p, q, r)
                  (let next : ℕ = (d.rank a + 1) % 2 ^ 32 in
                    let e : write d.rank a next a ≡ suc (d.rank a) =
                      write_same d.rank a next ∙ no_wrap (d.rank a) top_a in
                    record {
                      label' = merged b a label;
                      labels =
                          attached-Labels top label d labels b a at_b at_a (not_equal a b p)
                            (write d.rank a next) (λ z h. write_other d.rank a next z h)
                            (omega (arith, e)) (omega (arith, e, top_a))
                            (omega (arith, e, ltb→ge _ _ q));
                      sets = swap label (merged b a label) x y (merged-Unites label y x);
                    })
          ]
        ]
      ]

module _ (top fuel : ℕ) (label : ℕ → ℕ) (d : Dsu) (labels : Labels top label d)
    (enough : top < fuel) (x y : ℕ) where
  first : Finds top label d x (find fuel x d)
  first = find-Finds top label fuel x d labels (omega (arith, enough)) (omega (arith, enough))

  second : Finds top label first.after y (find fuel y first.after)
  second =
      find-Finds top label fuel y first.after first.labels (omega (arith, enough))
        (omega (arith, enough))

  -- A union with enough fuel ends, and the sets of its elements become one.
  pub union-United :
      suc top < 2 ^ 32 → (d' : Dsu) × (union fuel x y d ≡ some d') × United top label x y d'
  unfolding union
  union-United small = (
    link (label x) (label y) second.after,
    rw (first.gives, second.gives, union) refl,
    link-United top label second.after second.labels small x y (second.kept x first.found)
        second.found,
  )

  -- The test with enough fuel ends, and compares the labels.
  pub connected-label :
      (d' : Dsu) × (connected fuel x y d ≡ some (label x == label y, d')) × Labels top label d'
  unfolding connected
  connected-label = (second.after, rw (first.gives, second.gives, connected) refl, second.labels)
