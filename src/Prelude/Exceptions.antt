-- ===== src/Prelude/Exceptions.antt =====
-- Code that may throw: a value, or the exception.
use mathlib.Core.Path.{◌≡◌, refl}
use mathlib.Core.Logic.{◌⊎◌, inl, inr}
use mathlib.Core.Option.{Option, none, some}
use mathlib.Core.Bool.{Bool, true, false}

pub data Result {ℓ} (E A : Type ℓ) : Type ℓ where
  ok : A → Result E A
  err : E → Result E A

module _ {ℓ} {E : Type ℓ} where
  infixl 5 ◌>>=◌ ◌>>◌
  abbrev pub ◌>>=◌ : {A B : Type ℓ} (first : Result E A) (then' : A → Result E B) → Result E B
  err exn >>= then' = err exn
  ok mid >>= then' = then' mid

  abbrev pub ◌>>◌ : {B : Type ℓ} (first : Result E (Unit {ℓ})) (second : Result E B) → Result E B
  first >> second = first >>= λ _. second

-- `if (!b) throw e`
abbrev pub require {ℓ} : {E : Type ℓ} → Bool → E → Result E (Unit {ℓ})
require true e = ok tt
require false e = err e

-- What a call returned, where a chain of two calls returned.
module _ {ℓ} {E A B : Type ℓ} where
  pub bind-parts :
      (first : Result E A) (then' : A → Result E B) {last : B}
      (returned : (first >>= then') ≡ ok last)
      → (mid : A) × (first ≡ ok mid) × (then' mid ≡ ok last)
  bind-parts (err exn) then' returned = cc
  bind-parts (ok mid) then' returned = (mid, refl, returned)

pub ok-injective {ℓ} : {E A : Type ℓ} {a b : A} → ◌≡◌ {A = Result E A} (ok a) (ok b) → a ≡ b
ok-injective e = cc

pub err-injective {ℓ} : {E A : Type ℓ} {a b : E} → ◌≡◌ {A = Result E A} (err a) (err b) → a ≡ b
err-injective e = cc

pub >>=-ok {ℓ} :
    {E A B : Type ℓ} (m : Result E A) (f : A → Result E B)
    → (a : A) × (m ≡ ok a)
    → ((a : A) → (b : B) × (f a ≡ ok b))
    → (b : B) × ((m >>= f) ≡ ok b)
>>=-ok (ok a) f h next = next a
>>=-ok (err e) f h next = cc h.1

-- Past a test that throws, the test has passed.
pub require-eq-ok {ℓ} :
    {E A : Type ℓ} (b : Bool) (e : E) {k : Result E A} {a : A}
    → (require b e >> k) ≡ ok a
    → (b ≡ true) × (k ≡ ok a)
require-eq-ok true e h = (refl, h)
require-eq-ok false e h = cc

-- The same, for a proof that goes on with variables for the parts.
pub >>=-elim {ℓ κ} :
    {E A B : Type ℓ} {P : Type κ} (m : Result E A) (f : A → Result E B) {b : B}
    → (m >>= f) ≡ ok b
    → ((a : A) → m ≡ ok a → f a ≡ ok b → P)
    → P
>>=-elim (ok a) f h k = k a refl h
>>=-elim (err e) f h k = cc

pub require-elim {ℓ κ} :
    {E A : Type ℓ} {P : Type κ} (b : Bool) (e : E) {k : Result E A} {a : A}
    → (require b e >> k) ≡ ok a
    → (b ≡ true → k ≡ ok a → P)
    → P
require-elim true e h next = next refl h
require-elim false e h next = cc

pub Option-cases {ℓ} : {A : Type ℓ} (o : Option A) → (o ≡ none) ⊎ ((a : A) × (o ≡ some a))
Option-cases none = inl refl
Option-cases (some a) = inr (a, refl)

pub Result-cases {ℓ} :
    {E A : Type ℓ} (r : Result E A) → ((a : A) × (r ≡ ok a)) ⊎ ((e : E) × (r ≡ err e))
Result-cases (ok a) = inl (a, refl)
Result-cases (err e) = inr (e, refl)
