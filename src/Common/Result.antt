-- ===== src/Common/Result.antt =====
-- Fallible code: `Status` is an error or the value that the call writes through its out-parameters.
use jitfusion.Common.Tests.{if◌then◌else◌}
use mathlib.Core.Path.{◌≡◌, refl, ap}
use mathlib.Core.Bool.{Bool, true, false}

pub data Result {ℓ} (E : Type 0) (A : Type ℓ) : Type ℓ where
  ok : A → Result E A
  err : E → Result E A

-- `JF_RETURN_NOT_OK`
infixl 5 ◌>>=◌ ◌>>◌
abbrev pub ◌>>=◌ {ℓ κ} :
    {E : Type 0} {A : Type ℓ} {B : Type κ} → Result E A → (A → Result E B) → Result E B
ok a >>= f = f a
err e >>= f = err e

abbrev pub ◌>>◌ {ℓ} : {E : Type 0} {B : Type ℓ} → Result E (Unit {0}) → Result E B → Result E B
m >> k = m >>= λ _. k

-- `if (!test) { return error; }`
abbrev pub guard : {E : Type 0} → Bool → E → Result E (Unit {0})
guard true e = ok tt
guard false e = err e

-- Inversion of a successful bind, handing the parts on.
pub >>=-elim {ℓ κ μ} :
    {E : Type 0} {A : Type ℓ} {B : Type κ} {P : Type μ} (m : Result E A) (f : A → Result E B)
    {b : B}
    → (m >>= f) ≡ ok b
    → ((a : A) → m ≡ ok a → f a ≡ ok b → P)
    → P
>>=-elim (ok a) f h k = k a refl h
>>=-elim (err e) f h k = absurd (cc)

-- Inversion of a passed check.
pub guard-elim {ℓ μ} :
    {E : Type 0} {B : Type ℓ} {P : Type μ} (c : Bool) (e : E) (m : Result E B) {b : B}
    → (guard c e >> m) ≡ ok b
    → (c ≡ true → m ≡ ok b → P)
    → P
guard-elim true e m h k = k refl h
guard-elim false e m h k = absurd (cc)

pub ok-injective {ℓ} :
    {E : Type 0} {A : Type ℓ} {a b : A} → ◌≡◌ {A = Result E A} (ok a) (ok b) → a ≡ b
ok-injective {E} {A} {a} h = ap value h
  where
    value : Result E A → A
    value (ok x) = x
    value (err e) = a

-- A check that did not fail.
pub if-err-elim {ℓ μ} :
    {E : Type 0} {B : Type ℓ} {P : Type μ} (c : Bool) (e : E) (m : Result E B) {b : B}
    → (if c then err e else m) ≡ ok b
    → (c ≡ false → m ≡ ok b → P)
    → P
if-err-elim true e m h k = absurd (cc)
if-err-elim false e m h k = k refl h
