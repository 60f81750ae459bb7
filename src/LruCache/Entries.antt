-- ===== src/LruCache/Entries.antt =====
-- Lemmas on the items of a cache: the map, the list of nodes, and the two together.
use nixstore_arch.Prelude.{
  ℕ, suc, ◌≡◌, ◌↔◌, refl, ap, Bool, true, false, List, [], ◌∷◌, ◌++◌, length, ◌==◌, if◌then◌else◌,
  none, some, arith, Bool-cases, inl, inr,
}
use nixstore_arch.LruCache.{node_erase, node_key, find, map_erase}
use nixstore_arch.LruCache.Recency.{value_of, without}

-- An item with the number of its node.
abbrev pub Items : Type 0 → Type 0 → Type 0
Items K V = List (K × (ℕ × V))

unfoldable pub nodes : {K V : Type 0} → Items K V → List (ℕ × K)
nodes [] = []
nodes ((k, (n, v)) ∷ es) = (n, k) ∷ nodes es

unfoldable pub values : {K V : Type 0} → Items K V → List (K × V)
values [] = []
values ((k, (n, v)) ∷ es) = (k, v) ∷ values es

unfoldable pub has_node : {K V : Type 0} → ℕ → Items K V → Bool
has_node n [] = false
has_node n ((k, (m, v)) ∷ es) = let rest = has_node n es in if n == m then true else rest

pub nodes-append :
    {K V : Type 0} (es : Items K V) (k : K) (n : ℕ) (v : V)
    → nodes (es ++ (k, (n, v)) ∷ []) ≡ nodes es ++ (n, k) ∷ []
unfolding nodes
nodes-append [] k n v = refl
nodes-append ((j, (m, w)) ∷ es) k n v = ap (λ l. (m, j) ∷ l) (nodes-append es k n v)

pub values-append :
    {K V : Type 0} (es : Items K V) (k : K) (n : ℕ) (v : V)
    → values (es ++ (k, (n, v)) ∷ []) ≡ values es ++ (k, v) ∷ []
unfolding values
values-append [] k n v = refl
values-append ((j, (m, w)) ∷ es) k n v = ap (λ l. (j, w) ∷ l) (values-append es k n v)

pub length-values : {K V : Type 0} (es : Items K V) → length (values es) ≡ length es
unfolding values
length-values [] = refl
length-values ((k, (n, v)) ∷ es) = ap suc (length-values es)

pub has_node-append :
    {K V : Type 0} (es : Items K V) (m : ℕ) (k : K) (n : ℕ) (v : V)
    → has_node m (es ++ (k, (n, v)) ∷ []) ≡ (if m == n then true else has_node m es)
unfolding has_node
has_node-append [] m k n v = refl
has_node-append ((j, (i, w)) ∷ es) m k n v = ground (arith, has_node-append es m k n v)

pub node_erase_absent :
    {K V : Type 0} (n : ℕ) (es : Items K V)
    → has_node n es ≡ false
    → node_erase n (nodes es) ≡ nodes es
unfolding node_erase nodes has_node
node_erase_absent n [] h = refl
node_erase_absent n ((k, (m, v)) ∷ es) h = ground (arith, node_erase_absent n es)

module _ {K V : Type 0} (eq : K → K → Bool) (eq_iff : (a b : K) → (eq a b ≡ true) ↔ (a ≡ b)) where
  -- Both keys and nodes are distinct.
  abbrev pub AreDistinct : Items K V → Type 0
  AreDistinct [] = Unit {0}
  AreDistinct ((k, (n, v)) ∷ es) = (find eq k es ≡ none) × (has_node n es ≡ false) × AreDistinct es

  abbrev pub HasKeysOnce : Items K V → Type 0
  HasKeysOnce [] = Unit {0}
  HasKeysOnce ((k, e) ∷ es) = (find eq k es ≡ none) × HasKeysOnce es

  pub find-erase :
      (k j : K) (es : Items K V)
      → find eq j (map_erase eq k es) ≡ (if eq k j then none else find eq j es)
  unfolding find map_erase
  find-erase k j [] = ground arith
  find-erase k j ((i, e) ∷ es) =
      ground (arith, find-erase k j es, eq_iff k i, eq_iff j i, eq_iff k j)

  pub find-append :
      (j : K) (es : Items K V) (k : K) (e : ℕ × V)
      → find eq j (es ++ (k, e) ∷ [])
        ≡ (elim (find eq j es) [ none ↦ (if eq j k then some e else none) | some x ↦ some x ])
  unfolding find
  find-append j [] k e = refl
  find-append j ((i, x) ∷ es) k e = ground (arith, find-append j es k e)

  pub erase_absent : (k : K) (es : Items K V) → find eq k es ≡ none → map_erase eq k es ≡ es
  unfolding find map_erase
  erase_absent k [] h = refl
  erase_absent k ((i, e) ∷ es) h = ground (arith, erase_absent k es)

  pub length-erase :
      (k : K) (es : Items K V) (e : ℕ × V)
      → HasKeysOnce es
      → find eq k es ≡ some e
      → suc (length (map_erase eq k es)) ≡ length es
  unfolding find map_erase
  length-erase k [] e d h = cc
  length-erase k ((i, x) ∷ es) e d h =
      ground (arith, length-erase k es e, erase_absent k es, eq_iff k i)

  pub HasKeysOnce-erase :
      (k : K) (es : Items K V) → HasKeysOnce es → HasKeysOnce (map_erase eq k es)
  unfolding map_erase
  HasKeysOnce-erase k [] d = tt
  HasKeysOnce-erase k ((i, e) ∷ es) d = elim (Bool-cases (eq k i)) [
    | inl same ↦ rw (same, map_erase) (HasKeysOnce-erase k es d.1)
    | inr other ↦
        rw (other, map_erase) (ground (arith, find-erase k i es), HasKeysOnce-erase k es d.1)
  ]

  pub HasKeysOnce-append :
      (es : Items K V) (k : K) (e : ℕ × V)
      → HasKeysOnce es
      → find eq k es ≡ none
      → HasKeysOnce (es ++ (k, e) ∷ [])
  unfolding find
  HasKeysOnce-append [] k e d h = (refl, tt)
  HasKeysOnce-append ((i, x) ∷ es) k e d h = (
    ground (arith, find-append i es k e, eq_iff k i, eq_iff i k),
    HasKeysOnce-append es k e d.1 (ground arith),
  )

  pub AreDistinct-HasKeysOnce : (es : Items K V) → AreDistinct es → HasKeysOnce es
  AreDistinct-HasKeysOnce [] d = tt
  AreDistinct-HasKeysOnce ((k, (n, v)) ∷ es) d = (d.0, AreDistinct-HasKeysOnce es d.2)

  pub has_node-erase :
      (n : ℕ) (k : K) (es : Items K V)
      → has_node n es ≡ false
      → has_node n (map_erase eq k es) ≡ false
  unfolding has_node map_erase
  has_node-erase n k [] h = refl
  has_node-erase n k ((i, (m, v)) ∷ es) h = ground (arith, has_node-erase n k es)

  pub AreDistinct-erase :
      (k : K) (es : Items K V) → AreDistinct es → AreDistinct (map_erase eq k es)
  unfolding map_erase
  AreDistinct-erase k [] d = tt
  AreDistinct-erase k ((i, (m, v)) ∷ es) d = elim (Bool-cases (eq k i)) [
    | inl same ↦ rw (same, map_erase) (AreDistinct-erase k es d.2)
    | inr other ↦
        rw (other, map_erase)
          (ground (arith, find-erase k i es), has_node-erase m k es d.1, AreDistinct-erase k es d.2)
  ]

  pub AreDistinct-append :
      (es : Items K V) (k : K) (n : ℕ) (v : V)
      → AreDistinct es
      → find eq k es ≡ none
      → has_node n es ≡ false
      → AreDistinct (es ++ (k, (n, v)) ∷ [])
  unfolding find has_node
  AreDistinct-append [] k n v d h f = (refl, refl, tt)
  AreDistinct-append ((i, (m, w)) ∷ es) k n v d h f = (
    ground (arith, find-append i es k (n, v), eq_iff k i, eq_iff i k),
    ground (arith, has_node-append es m k n v),
    AreDistinct-append es k n v d.2 (ground arith) (ground arith),
  )

  pub has_node_of_find :
      (k : K) (es : Items K V) (n : ℕ) (v : V) → find eq k es ≡ some (n, v) → has_node n es ≡ true
  unfolding find has_node
  has_node_of_find k [] n v h = cc
  has_node_of_find k ((i, (m, w)) ∷ es) n v h = ground (arith, has_node_of_find k es n v)

  pub has_node-erase_self :
      (k : K) (es : Items K V) (n : ℕ) (v : V)
      → AreDistinct es
      → find eq k es ≡ some (n, v)
      → has_node n (map_erase eq k es) ≡ false
  unfolding find map_erase has_node
  has_node-erase_self k [] n v d h = cc
  has_node-erase_self k ((i, (m, w)) ∷ es) n v d h = ground (
    arith,
    has_node-erase_self k es n v,
    eq_iff k i,
    has_node_of_find k es n v,
    erase_absent k es,
  )

  -- The node of an item leads to its key, and to no other item.
  pub nodes-erase :
      (k : K) (es : Items K V) (n : ℕ) (v : V)
      → AreDistinct es
      → find eq k es ≡ some (n, v)
      → node_erase n (nodes es) ≡ nodes (map_erase eq k es)
  unfolding find map_erase nodes node_erase
  nodes-erase k [] n v d h = cc
  nodes-erase k ((i, (m, w)) ∷ es) n v d h = ground (
    arith,
    nodes-erase k es n v,
    node_erase_absent m es,
    erase_absent k es,
    eq_iff k i,
    has_node_of_find k es n v,
  )

  pub node_key-nodes :
      (k : K) (es : Items K V) (n : ℕ) (v : V)
      → AreDistinct es
      → find eq k es ≡ some (n, v)
      → node_key n (nodes es) ≡ some k
  unfolding find nodes node_key
  node_key-nodes k [] n v d h = cc
  node_key-nodes k ((i, (m, w)) ∷ es) n v d h =
      ground (arith, node_key-nodes k es n v, eq_iff k i, has_node_of_find k es n v)

  pub values-erase :
      (k : K) (es : Items K V) → values (map_erase eq k es) ≡ without eq k (values es)
  unfolding values map_erase without
  values-erase k [] = refl
  values-erase k ((i, (m, w)) ∷ es) = ground (arith, values-erase k es)

  pub value_of-values :
      (k : K) (es : Items K V)
      → value_of eq k (values es) ≡ (elim (find eq k es) [ none ↦ none | some e ↦ some e.1 ])
  unfolding values find value_of
  value_of-values k [] = refl
  value_of-values k ((i, (m, w)) ∷ es) = ground (arith, value_of-values k es)
