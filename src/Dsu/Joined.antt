-- ===== src/Dsu/Joined.antt =====
-- athena/dsu.cc: the sets are those of the equivalence that the unions generate.
use jitfusion.Common.{
  ℕ, ◌^◌, ◌<◌, ◌≡◌, ◌↔◌, refl, sym, subst, ◌∙◌, ◌⊎◌, inl, inr, Bool, true, Option, none, some, List,
  [], ◌∷◌, arith, ◌==◌, ==_iff,
}
use jitfusion.Common.Lists.{length}
use jitfusion.Dsu.{Dsu, empty, union_all, connected}
use jitfusion.Dsu.Labels.{Labels}
use jitfusion.Dsu.Link.{Unites, union-United, connected-label}

-- The least equivalence that relates the pairs
pub data Joined : List (ℕ × ℕ) → ℕ → ℕ → Type 0 where
  latest : {x y : ℕ} {ps : List (ℕ × ℕ)} → Joined ((x, y) ∷ ps) x y
  earlier : {x y : ℕ} {p : ℕ × ℕ} {ps : List (ℕ × ℕ)} → Joined ps x y → Joined (p ∷ ps) x y
  same : {x : ℕ} {ps : List (ℕ × ℕ)} → Joined ps x x
  turned : {x y : ℕ} {ps : List (ℕ × ℕ)} → Joined ps x y → Joined ps y x
  chained : {x y z : ℕ} {ps : List (ℕ × ℕ)} → Joined ps x y → Joined ps y z → Joined ps x z

-- The labels tell the sets of the equivalence apart.
abbrev pub Tells : List (ℕ × ℕ) → (ℕ → ℕ) → Type 0
Tells ps label = (z w : ℕ) → (label z ≡ label w) ↔ Joined ps z w

label_of :
    (x y : ℕ) (ps : List (ℕ × ℕ)) (label label' : ℕ → ℕ)
    → Tells ps label
    → Unites label label' x y
    → (z w : ℕ) → Joined ((x, y) ∷ ps) z w
    → label' z ≡ label' w
label_of x y ps label label' tells u z w latest = u.unites
label_of x y ps label label' tells u z w (earlier j) = u.keeps z w ((tells z w).1 j)
label_of x y ps label label' tells u z w same = refl
label_of x y ps label label' tells u z w (turned j) =
    sym (label_of x y ps label label' tells u w z j)
label_of x y ps label label' tells u z w (chained {y = v} j k) =
    label_of x y ps label label' tells u z v j ∙ label_of x y ps label label' tells u v w k

Tells-Unites :
    (x y : ℕ) (ps : List (ℕ × ℕ)) (label label' : ℕ → ℕ)
    → Tells ps label
    → Unites label label' x y
    → Tells ((x, y) ∷ ps) label'
Tells-Unites x y ps label label' tells u z w =
    (λ h. join (u.only z w h), label_of x y ps label label' tells u z w)
  where
    join :
        (label z ≡ label w)
          ⊎ (((label z ≡ label x) × (label w ≡ label y))
              ⊎ ((label z ≡ label y) × (label w ≡ label x)))
        → Joined ((x, y) ∷ ps) z w
    join (inl h) = earlier ((tells z w).0 h)
    join (inr (inl (h, k))) =
        chained (earlier ((tells z x).0 h)) (chained latest (turned (earlier ((tells w y).0 k))))
    join (inr (inr (h, k))) =
        chained (earlier ((tells z y).0 h))
          (chained (turned latest) (turned (earlier ((tells w x).0 k))))

unjoined : (z w : ℕ) → Joined [] z w → z ≡ w
unjoined z w same = refl
unjoined z w (turned j) = sym (unjoined w z j)
unjoined z w (chained {y = v} j k) = unjoined z v j ∙ unjoined v w k

-- Behind a run of unions
pub record Ran (ps : List (ℕ × ℕ)) (result : Option Dsu) : Type 0 where
  pub after : Dsu
  pub gives : result ≡ some after
  pub label : ℕ → ℕ
  pub labels : Labels (length ps) label after
  pub tells : Tells ps label

pub union_all-Ran :
    (ps : List (ℕ × ℕ)) (fuel : ℕ)
    → length ps < fuel
    → length ps < 2 ^ 32
    → Ran ps (union_all fuel ps empty)
unfolding union_all
union_all-Ran [] fuel enough small = record {
  after = empty;
  gives = refl;
  label = λ x. x;
  labels = record { absent = λ x h. refl; present = λ x y h. absurd (no_parent y h) };
  tells = λ z w. (λ h. subst (λ v. Joined [] z v) h same, unjoined z w);
}
  where
    no_parent : (y : ℕ) → ◌≡◌ {A = Option ℕ} none (some y) → ⊥
    no_parent y h = cc
union_all-Ran ((x, y) ∷ ps) fuel enough small =
    let before : Ran ps (union_all fuel ps empty) =
      union_all-Ran ps fuel (omega (arith, enough)) (omega (arith, small)) in
    let (d', e, u) =
      union-United (length ps) fuel before.label before.after before.labels (omega (arith, enough))
        x y small in
    record {
      after = d';
      gives = rw (before.gives, union_all) e;
      label = u.label';
      labels = u.labels;
      tells = Tells-Unites x y ps before.label u.label' before.tells u.sets;
    }

-- Behind a run of fewer than 2^32 unions on the empty sets, each search with more fuel than there
-- are unions, every step ends, and two elements are connected exactly where the least equivalence
-- that relates the pairs of the unions relates them.
pub connected-Joined :
    (ps : List (ℕ × ℕ)) (fuel x y : ℕ)
    → length ps < fuel
    → length ps < 2 ^ 32
    → (d : Dsu) × (union_all fuel ps empty ≡ some d)
      × (b : Bool) × (d' : Dsu) × (connected fuel x y d ≡ some (b, d'))
      × ((b ≡ true) ↔ Joined ps x y)
connected-Joined ps fuel x y enough small =
    let ran : Ran ps (union_all fuel ps empty) = union_all-Ran ps fuel enough small in
    let (d', e, l) = connected-label (length ps) fuel ran.label ran.after ran.labels enough x y in
    (
      ran.after,
      ran.gives,
      ran.label x == ran.label y,
      d',
      e,
      (λ h. (ran.tells x y).0 ((==_iff _ _).0 h), λ j. (==_iff _ _).1 ((ran.tells x y).1 j)),
    )
