-- ===== src/Prelude/Lists.antt =====
-- Lists measured by native numbers, and predicates on their elements.
use Prim.Native.Nat.{ℕ, zero, suc, ◌+◌}
use mathlib.Core.Path.{◌≡◌, refl}
use mathlib.Core.List.{List, [], ◌∷◌, ◌++◌}
use native.Mathlib.Omega.{arith}

module _ {ℓ} {A : Type ℓ} where
  abbrev pub length : List A → ℕ
  length [] = 0
  length (x ∷ xs) = suc (length xs)

  pub length-append : (xs ys : List A) → length (xs ++ ys) ≡ length xs + length ys
  length-append [] ys = omega arith
  length-append (x ∷ xs) ys = omega (arith, length-append xs ys)

  abbrev pub replicate : ℕ → A → List A
  replicate zero a = []
  replicate (suc n) a = a ∷ replicate n a

  pub length-replicate : (n : ℕ) (a : A) → length (replicate n a) ≡ n
  length-replicate zero a = refl
  length-replicate (suc n) a = omega (arith, length-replicate n a)

  abbrev pub All {κ} : (A → Type κ) → List A → Type κ
  All P [] = Unit {κ}
  All P (x ∷ xs) = P x × All P xs

  module _ {κ} (P : A → Type κ) where
    pub All-append : (front back : List A) → All P front → All P back → All P (front ++ back)
    All-append [] back f b = b
    All-append (a ∷ front) back f b = (f.0, All-append front back f.1 b)

    pub All-append_left : (front back : List A) → All P (front ++ back) → All P front
    All-append_left [] back both = tt
    All-append_left (a ∷ front) back both = (both.0, All-append_left front back both.1)

    pub All-append_right : (front back : List A) → All P (front ++ back) → All P back
    All-append_right [] back both = both
    All-append_right (a ∷ front) back both = All-append_right front back both.1
