-- ===== src/LruCache/Recency.antt =====
-- What a cache promises: a list of items from the least to the most recently used one.
use nixstore_arch.Prelude.{
  ℕ, Bool, List, [], ◌∷◌, ◌++◌, length, leb, ◌==◌, if◌then◌else◌, Option, none, some,
}

module _ {K V : Type 0} (eq : K → K → Bool) where
  unfoldable pub value_of : K → List (K × V) → Option V
  value_of k [] = none
  value_of k ((j, v) ∷ l) = let rest = value_of k l in if eq k j then some v else rest

  unfoldable pub without : K → List (K × V) → List (K × V)
  without k [] = []
  without k ((j, v) ∷ l) = let rest = without k l in if eq k j then rest else (j, v) ∷ rest

  unfoldable pub drop_oldest : ℕ → List (K × V) → List (K × V)
  drop_oldest capacity [] = []
  drop_oldest capacity (x ∷ l) = if leb capacity (length (x ∷ l)) then l else x ∷ l

  -- The item becomes the most recent one, and the oldest one goes if there is no room.
  unfoldable pub inserted : ℕ → K → V → List (K × V) → List (K × V)
  inserted capacity k v l =
      if capacity == 0 then l else drop_oldest capacity (without k l) ++ (k, v) ∷ []

  unfoldable pub touched : K → List (K × V) → List (K × V)
  touched k l = elim (value_of k l) [ none ↦ l | some v ↦ without k l ++ (k, v) ∷ [] ]
