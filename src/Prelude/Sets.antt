-- ===== src/Prelude/Sets.antt =====
-- `std::set<std::string>` and the like: a list of byte strings in increasing order.
use mathlib.Core.Path.{◌≡◌, refl}
use mathlib.Core.Bool.{Bool, true, false}
use mathlib.Core.List.{List, [], ◌∷◌, ◌++◌, reverse, reverse-append}
use native.Mathlib.Omega.{arith}
use nixstore_arch.Prelude.Tests.{if◌then◌else◌}
use nixstore_arch.Prelude.ByteStrings.{Bytes, bytes_eq, bytes_lt, bytes_eq_iff}

unfoldable pub member : Bytes → List Bytes → Bool
member k [] = false
member k (j ∷ m) = let rest = member k m in if bytes_eq k j then true else rest

unfoldable pub set_insert : Bytes → List Bytes → List Bytes
set_insert k [] = k ∷ []
set_insert k (j ∷ m) =
    let rest = j ∷ set_insert k m in
    if bytes_lt k j then k ∷ j ∷ m else if bytes_eq k j then j ∷ m else rest

unfoldable pub set_erase : Bytes → List Bytes → List Bytes
set_erase k [] = []
set_erase k (j ∷ m) = let rest = set_erase k m in if bytes_eq k j then rest else j ∷ rest

pub member-set_insert :
    (j k : Bytes) (m : List Bytes)
    → member j (set_insert k m) ≡ (if bytes_eq j k then true else member j m)
unfolding member set_insert
member-set_insert j k [] = refl
member-set_insert j k (i ∷ m) =
    ground (arith, bytes_eq_iff j k, bytes_eq_iff j i, bytes_eq_iff k i, member-set_insert j k m)

pub member-set_erase :
    (j k : Bytes) (m : List Bytes)
    → member j (set_erase k m) ≡ (if bytes_eq j k then false else member j m)
unfolding member set_erase
member-set_erase j k [] = ground arith
member-set_erase j k (i ∷ m) =
    ground (arith, bytes_eq_iff j k, bytes_eq_iff j i, bytes_eq_iff k i, member-set_erase j k m)

pub member-append :
    (j : Bytes) (xs ys : List Bytes)
    → member j (xs ++ ys) ≡ (if member j xs then true else member j ys)
unfolding member
member-append j [] ys = refl
member-append j (x ∷ xs) ys = ground (arith, member-append j xs ys)

pub member-reverse : (j : Bytes) (xs : List Bytes) → member j (reverse xs) ≡ member j xs
unfolding member
member-reverse j [] = refl
member-reverse j (x ∷ xs) =
    rw (reverse-append (x ∷ []) xs)
      (ground (arith, member-append j (reverse xs) (x ∷ []), member-reverse j xs))
