-- ===== src/Prelude/Result.antt =====
-- A call that returns a value or raises. The error type is that of the module's exceptions.
use mathlib.Core.Path.{◌≡◌, refl}
use mathlib.Core.Logic.{◌⊎◌, inl, inr}
use mathlib.Core.Bool.{Bool, true, false}
use mathlib.Core.Option.{Option, none, some}

pub data Result {ℓ κ} (E : Type ℓ) (A : Type κ) : Type (ℓ ⊔ κ) where
  ok : A → Result E A
  err : E → Result E A

-- A call and then what uses its value. An exception passes through.
infixl 5 ◌>>=◌ ◌>>◌
abbrev pub ◌>>=◌ {ℓ κ μ} :
    {E : Type ℓ} {A : Type κ} {B : Type μ} → Result E A → (A → Result E B) → Result E B
err raised >>= rest = err raised
ok value >>= rest = rest value

-- A call made for its check alone.
abbrev pub ◌>>◌ {ℓ μ} : {E : Type ℓ} {B : Type μ} → Result E (Unit {0}) → Result E B → Result E B
check >> rest = check >>= λ _. rest

-- `if c: raise e`
abbrev pub fail_if {ℓ} : {E : Type ℓ} → Bool → E → Result E (Unit {0})
fail_if true e = err e
fail_if false e = ok tt

-- `if o is None: raise e`
abbrev pub or_fail {ℓ κ} : {E : Type ℓ} {A : Type κ} → Option A → E → Result E A
or_fail none e = err e
or_fail (some a) e = ok a

-- A chain that returned went through a first call that returned.
module _ {ℓ κ μ} {E : Type ℓ} {A : Type κ} {B : Type μ} where
  pub >>=-eq-ok :
      (call : Result E A) (rest : A → Result E B) {out : B}
      → (call >>= rest) ≡ ok out
      → (v : A) × (call ≡ ok v) × (rest v ≡ ok out)
  >>=-eq-ok (err raised) rest returned = cc
  >>=-eq-ok (ok value) rest returned = (value, refl, returned)

module _ {ℓ} {E : Type ℓ} where
  pub fail_if-eq-ok : (c : Bool) (e : E) {u : Unit {0}} → fail_if c e ≡ ok u → c ≡ false
  fail_if-eq-ok true e h = cc
  fail_if-eq-ok false e h = refl

module _ {ℓ κ} {E : Type ℓ} {A : Type κ} where
  pub or_fail-eq-ok : (o : Option A) (e : E) {a : A} → or_fail o e ≡ ok a → o ≡ some a
  or_fail-eq-ok none e h = cc
  or_fail-eq-ok (some x) e h = cc

  pub Result-cases : (r : Result E A) → ((a : A) × (r ≡ ok a)) ⊎ ((e : E) × (r ≡ err e))
  Result-cases (ok a) = inl (a, refl)
  Result-cases (err e) = inr (e, refl)
