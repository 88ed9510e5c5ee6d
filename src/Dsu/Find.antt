-- ===== src/Dsu/Find.antt =====
-- athena/dsu.cc: `Find` with enough fuel gives the label, and shortens paths without a change of
-- the labels.
use jitfusion.Common.{
  ℕ, zero, suc, ◌+◌, ◌≤◌, ◌<◌, ◌≡◌, refl, sym, ap, subst, ◌∙◌, ◌⊎◌, inl, inr, Bool, true, false,
  Option, none, some, arith, ◌==◌, ==_iff, ==_refl, Bool-cases, Option-cases,
}
use mathlib.Core.Option.{some-injective}
use jitfusion.Dsu.{Dsu, write, find}
use jitfusion.Dsu.Labels.{Present, Step, Labels, write_same, write_other, some≢none}

-- What a search for `x` ends with
pub record Finds (top : ℕ) (label : ℕ → ℕ) (d : Dsu) (x : ℕ) (result : Option (ℕ × Dsu))
    : Type 0 where
  pub after : Dsu
  pub gives : result ≡ some (label x, after)
  pub labels : Labels top label after
  pub found : Present after x
  pub kept : (z : ℕ) → Present d z → Present after z

module _ (top : ℕ) (label : ℕ → ℕ) (d : Dsu) (labels : Labels top label d) where
  -- The state with the parent of `x` set to its root
  abbrev compressed : ℕ → Dsu
  compressed x = record d { parent = write d.parent x (some (label x)) }

  module _ (x y : ℕ) (e : d.parent x ≡ some y) where
    of_x : Step top label d x y
    of_x = labels.present x y e

    root_kept :
        (z : ℕ)
        → d.parent (label z) ≡ some (label z)
        → (compressed x).parent (label z) ≡ some (label z)
    root_kept z h = elim (Bool-cases (label z == x)) [
      | inl p ↦
          let same : label z ≡ x = (==_iff _ _).0 p in
          let own : label (label z) ≡ label z =
            (labels.present (label z) (label z) h).own_root refl in
          rw p (ap some (ap label (sym same) ∙ own))
      | inr p ↦ write_other d.parent x (some (label x)) (label z) p ∙ h
    ]

    Present_kept : (z : ℕ) → Present d z → Present (compressed x) z
    Present_kept z (w, h) = elim (Bool-cases (z == x)) [
      | inl p ↦ (label x, rw p refl)
      | inr p ↦ (w, rw p h)
    ]

    higher : (label x ≡ x) ⊎ (d.rank x < d.rank (label x))
    higher = elim of_x.upward [
      | inl h ↦ inl (of_x.own_root h)
      | inr h ↦
          let (w, p) = of_x.parent_present in
          let up : d.rank y ≤ d.rank (label x) =
            subst (λ l. d.rank y ≤ d.rank l) of_x.same_set ((labels.present y w p).below_root) in
          inr (omega (arith, h, up))
    ]

    of_compressed : Step top label (compressed x) x (label x)
    of_compressed =
        let at_root : d.parent (label x) ≡ some (label x) = of_x.root in
        record {
          same_set = (labels.present (label x) (label x) at_root).own_root refl;
          bounded = of_x.bounded;
          below_root = of_x.below_root;
          root = root_kept x at_root;
          upward = higher;
          own_root = λ h. h;
          parent_present = (label x, root_kept x at_root);
        }

    compressed-Labels : Labels top label (compressed x)
    compressed-Labels = record { absent = at_absent; present = at_present }
      where
        at_absent : (z : ℕ) → (compressed x).parent z ≡ none → label z ≡ z
        at_absent z h = elim (Bool-cases (z == x)) [
          | inl p ↦ absurd (let c : ◌≡◌ {A = Option ℕ} (some (label x)) none = rw p at h in cc)
          | inr p ↦ labels.absent z (rw p at h)
        ]

        at_present :
            (z w : ℕ) → (compressed x).parent z ≡ some w → Step top label (compressed x) z w
        at_present z w h = elim (Bool-cases (z == x)) [
          | inl p ↦
              let to : label x ≡ w = some-injective (label x) w (rw p at h) in
              subst (λ z. Step top label (compressed x) z w) (sym ((==_iff z x).0 p))
                (subst (λ w. Step top label (compressed x) x w) to of_compressed)
          | inr p ↦
              let s : Step top label d z w = labels.present z w (rw p at h) in
              record {
                same_set = s.same_set;
                bounded = s.bounded;
                below_root = s.below_root;
                root = root_kept z s.root;
                upward = s.upward;
                own_root = s.own_root;
                parent_present = Present_kept w s.parent_present;
              }
        ]

  -- The state with `x` as a set of its own
  abbrev created : ℕ → Dsu
  created x = record { parent = write d.parent x (some x); rank = write d.rank x 0 }

  module _ (x : ℕ) (e : d.parent x ≡ none) where
    differs : (z w : ℕ) → d.parent z ≡ some w → (z == x) ≡ false
    differs z w h = elim (Bool-cases (z == x)) [
      | inl p ↦ absurd (some≢none (subst (λ z. d.parent z ≡ some w) ((==_iff z x).0 p) h) e)
      | inr p ↦ p
    ]

    created-Present : (z : ℕ) → Present d z → Present (created x) z
    created-Present z (w, h) = (w, write_other d.parent x (some x) z (differs z w h) ∙ h)

    of_created : Step top label (created x) x x
    of_created =
        let own : label x ≡ x = labels.absent x e in
        let at : (created x).parent (label x) ≡ some (label x) =
          subst (λ l. (created x).parent l ≡ some l) (sym own) (write_same d.parent x (some x)) in
        record {
          same_set = refl;
          bounded = rw (==_refl x) (omega arith);
          below_root = rw (==_refl x) (omega arith);
          root = at;
          upward = inl refl;
          own_root = λ h. own;
          parent_present = (x, write_same d.parent x (some x));
        }

    created-Labels : Labels top label (created x)
    created-Labels = record { absent = at_absent; present = at_present }
      where
        at_absent : (z : ℕ) → (created x).parent z ≡ none → label z ≡ z
        at_absent z h = elim (Bool-cases (z == x)) [
          | inl p ↦ absurd (let c : ◌≡◌ {A = Option ℕ} (some x) none = rw p at h in cc)
          | inr p ↦ labels.absent z (rw p at h)
        ]

        at_present : (z w : ℕ) → (created x).parent z ≡ some w → Step top label (created x) z w
        at_present z w h = elim (Bool-cases (z == x)) [
          | inl p ↦
              let to : x ≡ w = some-injective x w (rw p at h) in
              subst (λ z. Step top label (created x) z w) (sym ((==_iff z x).0 p))
                (subst (λ w. Step top label (created x) x w) to of_created)
          | inr p ↦
              let s : Step top label d z w = labels.present z w (rw p at h) in
              let at_root = differs (label z) (label z) s.root in
              let (v, q) = s.parent_present in
              let at_parent = differs w v q in
              record {
                same_set = s.same_set;
                bounded = rw p s.bounded;
                below_root = rw (p, at_root) s.below_root;
                root = rw at_root s.root;
                upward = rw (p, at_parent) s.upward;
                own_root = s.own_root;
                parent_present = created-Present w s.parent_present;
              }
        ]

module _ (top : ℕ) (label : ℕ → ℕ) where
  climbs : (A : Type 0) {b : Bool} {P : Type 0} → A ⊎ P → (A → b ≡ true) → b ≡ false → P
  climbs A (inl a) f h = absurd (let c : true ≡ false = sym (f a) ∙ h in cc)
  climbs A (inr q) f h = q

  find-root :
      (fuel x y : ℕ) (d : Dsu)
      → Labels top label d
      → d.parent x ≡ some y
      → (y == x) ≡ true
      → Finds top label d x (find (suc fuel) x d)
  unfolding find
  find-root fuel x y d labels e p =
      let same : y ≡ x = (==_iff y x).0 p in
      let own : label x ≡ x = (labels.present x y e).own_root same in
      record {
        after = d;
        gives = rw (e, p, find) (ap (λ l. some (l, d)) (same ∙ sym own));
        labels = labels;
        found = (y, e);
        kept = λ z h. h;
      }

  find-above :
      (fuel x y : ℕ) (d : Dsu)
      → Labels top label d
      → d.parent x ≡ some y
      → (y == x) ≡ false
      → Finds top label d y (find fuel y d)
      → Finds top label d x (find (suc fuel) x d)
  unfolding find
  find-above fuel x y d labels e p r =
      let (w, h) = r.kept x (y, e) in
      let same : label y ≡ label x = (labels.present x y e).same_set in
      record {
        after = compressed top label r.after r.labels x;
        gives =
            rw (e, p, r.gives, find)
              (ap (λ l. some (l, record r.after { parent = write ((r.after).parent) x (some l) }))
                same);
        labels = compressed-Labels top label r.after r.labels x w h;
        found = Present_kept top label r.after r.labels x w h x (w, h);
        kept = λ z k. Present_kept top label r.after r.labels x w h z (r.kept z k);
      }

  -- Where the labels are the roots and no rank is above a bound, `Find` ends with fuel for the ranks
  -- from that of the element to the bound, and at least one turn: it gives the label, with the
  -- element present, no element lost, and every label as before.
  pub find-Finds :
      (fuel x : ℕ) (d : Dsu)
      → Labels top label d
      → top < fuel + d.rank x
      → 1 ≤ fuel
      → Finds top label d x (find fuel x d)
  unfolding find
  find-Finds zero x d labels h one = absurd (omega (arith, one))
  find-Finds (suc fuel) x d labels h one = elim (Option-cases (d.parent x)) [
    | inl e ↦ record {
      after = created top label d labels x;
      gives =
          rw (e, find) (ap (λ l. some (l, created top label d labels x)) (sym (labels.absent x e)));
      labels = created-Labels top label d labels x e;
      found = (x, write_same d.parent x (some x));
      kept = created-Present top label d labels x e;
    }
    | inr (y, e) ↦ elim (Bool-cases (y == x)) [
      | inl p ↦ find-root fuel x y d labels e p
      | inr p ↦
          let s : Step top label d x y = labels.present x y e in
          let (w, q) = s.parent_present in
          let up : d.rank x < d.rank y = climbs (y ≡ x) s.upward (λ same. (==_iff y x).1 same) p in
          let low : d.rank y ≤ top = (labels.present y w q).bounded in
          find-above fuel x y d labels e p
            (find-Finds fuel y d labels (omega (arith, h, up)) (omega (arith, h, up, low)))
    ]
  ]
