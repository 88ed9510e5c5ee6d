-- ===== src/Dsu/Union.antt =====
-- athena/dsu.cc: `Union` gives the elements of one set the label of the other set.
use jitfusion.Common.{
  ℕ, suc, ◌≤◌, ◌<◌, ◌≡◌, refl, sym, ap, subst, ◌∙◌, ◌⊎◌, inl, inr, true, false, Option, none, some,
  arith, ◌==◌, ==_iff, ==_refl, if◌then◌else◌, Bool-cases,
}
use mathlib.Core.Option.{some-injective}
use jitfusion.Dsu.{Dsu, write}
use jitfusion.Dsu.Labels.{Present, Step, Labels, write_other}

-- The labels with those that are `a` changed to `b`
abbrev pub merged : ℕ → ℕ → (ℕ → ℕ) → ℕ → ℕ
merged a b label z = if label z == a then b else label z

module _ (top : ℕ) (label : ℕ → ℕ) (d : Dsu) (labels : Labels top label d) (a b : ℕ)
    (at_a : d.parent a ≡ some a) (at_b : d.parent b ≡ some b) (apart : (a == b) ≡ false)
    (rank' : ℕ → ℕ) (same_rank : (z : ℕ) → (z == b) ≡ false → rank' z ≡ d.rank z)
    (grown : d.rank b ≤ rank' b) (limit : rank' b ≤ suc top) (lower : d.rank a < rank' b) where
  own_a : label a ≡ a
  own_a = (labels.present a a at_a).own_root refl

  own_b : label b ≡ b
  own_b = (labels.present b b at_b).own_root refl

  abbrev attached : Dsu
  attached = record { parent = write d.parent a (some b); rank = rank' }

  not_equal : (x y : ℕ) → (x == y) ≡ false → (y == x) ≡ false
  not_equal x y h = ground arith

  rank_grows : (z : ℕ) → d.rank z ≤ rank' z
  rank_grows z = elim (Bool-cases (z == b)) [
    | inl p ↦ subst (λ w. d.rank w ≤ rank' w) (sym ((==_iff z b).0 p)) grown
    | inr p ↦ omega (arith, same_rank z p)
  ]

  rank_below : (z : ℕ) → d.rank z ≤ top → rank' z ≤ suc top
  rank_below z h = elim (Bool-cases (z == b)) [
    | inl p ↦ subst (λ w. rank' w ≤ suc top) (sym ((==_iff z b).0 p)) limit
    | inr p ↦ omega (arith, same_rank z p, h)
  ]

  merged_b : merged a b label b ≡ b
  merged_b = rw (own_b, not_equal a b apart) refl

  merged_a : merged a b label a ≡ b
  merged_a = rw (own_a, ==_refl a) refl

  b_kept : attached.parent b ≡ some b
  b_kept = write_other d.parent a (some b) b (not_equal a b apart) ∙ at_b

  of_a : Step (suc top) (merged a b label) attached a b
  of_a =
      let at : attached.parent (merged a b label a) ≡ some (merged a b label a) =
        subst (λ l. attached.parent l ≡ some l) (sym merged_a) b_kept in
      let rank_a : rank' a ≡ d.rank a = same_rank a apart in
      record {
        same_set = merged_b ∙ sym merged_a;
        bounded = rank_below a ((labels.present a a at_a).bounded);
        below_root = subst (λ l. rank' a ≤ rank' l) (sym merged_a) (omega (arith, rank_a, lower));
        root = at;
        upward = inr (omega (arith, rank_a, lower));
        own_root = λ h. absurd (let c : true ≡ false = sym ((==_iff a b).1 (sym h)) ∙ apart in cc);
        parent_present = (b, b_kept);
      }

  below_at : (z w : ℕ) → d.parent z ≡ some w → rank' z ≤ rank' (merged a b label z)
  below_at z w h = elim (Bool-cases (z == b)) [
    | inl p ↦
        subst (λ z. rank' z ≤ rank' (merged a b label z)) (sym ((==_iff z b).0 p))
          (subst (λ l. rank' b ≤ rank' l) (sym merged_b) (omega arith))
    | inr p ↦
        let s : d.rank z ≤ d.rank (label z) = (labels.present z w h).below_root in
        elim (Bool-cases (label z == a)) [
          | inl q ↦
              let to : d.rank z ≤ d.rank a =
                subst (λ l. d.rank z ≤ d.rank l) ((==_iff (label z) a).0 q) s in
              rw q (omega (arith, same_rank z p, to, lower))
          | inr q ↦ rw q (omega (arith, same_rank z p, s, rank_grows (label z)))
        ]
  ]

  root_at :
      (z : ℕ)
      → d.parent (label z) ≡ some (label z)
      → attached.parent (merged a b label z) ≡ some (merged a b label z)
  root_at z h = elim (Bool-cases (label z == a)) [
    | inl p ↦ rw p b_kept
    | inr p ↦ rw p (write_other d.parent a (some b) (label z) p ∙ h)
  ]

  up_at :
      (z w : ℕ)
      → d.parent z ≡ some w
      → (w ≡ z) ⊎ (d.rank z < d.rank w)
      → (w ≡ z) ⊎ (rank' z < rank' w)
  up_at z w h (inl e) = inl e
  up_at z w h (inr l) = elim (Bool-cases (z == b)) [
    | inl p ↦
        let at : d.parent b ≡ some w = subst (λ z. d.parent z ≡ some w) ((==_iff z b).0 p) h in
        inl (some-injective w b (sym at ∙ at_b) ∙ sym ((==_iff z b).0 p))
    | inr p ↦ inr (omega (arith, same_rank z p, l, rank_grows w))
  ]

  own_at : (z : ℕ) → (z == a) ≡ false → label z ≡ z → merged a b label z ≡ z
  own_at z p e = let q : label z == a ≡ false = ap (λ l. l == a) e ∙ p in rw q e

  Present_at : (z : ℕ) → Present d z → Present attached z
  Present_at z (w, h) = elim (Bool-cases (z == a)) [ inl p ↦ (b, rw p refl) | inr p ↦ (w, rw p h) ]

  of_other :
      (z w : ℕ)
      → (z == a) ≡ false
      → d.parent z ≡ some w
      → Step (suc top) (merged a b label) attached z w
  of_other z w p h =
      let s : Step top label d z w = labels.present z w h in
      record {
        same_set = ap (λ l. if l == a then b else l) s.same_set;
        bounded = rank_below z s.bounded;
        below_root = below_at z w h;
        root = root_at z s.root;
        upward = up_at z w h s.upward;
        own_root = λ e. own_at z p (s.own_root e);
        parent_present = Present_at w s.parent_present;
      }

  pub attached-Labels : Labels (suc top) (merged a b label) attached
  attached-Labels = record { absent = at_absent; present = at_present }
    where
      at_absent : (z : ℕ) → attached.parent z ≡ none → merged a b label z ≡ z
      at_absent z h = elim (Bool-cases (z == a)) [
        | inl p ↦ absurd (let c : ◌≡◌ {A = Option ℕ} (some b) none = rw p at h in cc)
        | inr p ↦ own_at z p (labels.absent z (rw p at h))
      ]

      at_present :
          (z w : ℕ) → attached.parent z ≡ some w → Step (suc top) (merged a b label) attached z w
      at_present z w h = elim (Bool-cases (z == a)) [
        | inl p ↦
            let to : b ≡ w = some-injective b w (rw p at h) in
            subst (λ z. Step (suc top) (merged a b label) attached z w) (sym ((==_iff z a).0 p))
              (subst (λ w. Step (suc top) (merged a b label) attached a w) to of_a)
        | inr p ↦ of_other z w p (rw p at h)
      ]
