-- ===== src/TopoSort/Complete.antt =====
-- Theorems on `topoSort`: how it ends, and what it lists.
use nixstore_arch.Prelude.{
  ℕ, zero, suc, ◌+◌, ◌≤◌, ◌<◌, ◌≡◌, ◌≢◌, refl, true, false, not, ◌&&◌, List, [], ◌∷◌, Bytes,
  bytes_eq, bytes_eq_iff, length, member, set_insert, member-set_insert, member-append,
  member-reverse, if◌then◌else◌, Option, none, some, Result, ok, err, ◌>>=◌, arith, Bool-cases, inl,
  inr, ok-injective, err-injective,
}
use mathlib.Core.List.{reverse}
use nixstore_arch.TopoSort.{
  Failure, stuck, Dfs, initial, visit_references, enter, leave, dfs_visit, visit_items, topo_sort,
}

-- The items that are not visited, with repetitions.
pub unvisited : List Bytes → List Bytes → ℕ
unvisited visited [] = 0
unvisited visited (i ∷ items) = (if member i visited then 0 else 1) + unvisited visited items

pub unvisited-le : (visited items : List Bytes) → unvisited visited items ≤ length items
unfolding unvisited
unvisited-le visited [] = omega arith
unvisited-le visited (i ∷ items) = ground (arith, unvisited-le visited items)

pub unvisited-set_insert :
    (p : Bytes) (visited items : List Bytes)
    → unvisited (set_insert p visited) items ≤ unvisited visited items
unfolding unvisited
unvisited-set_insert p visited [] = omega arith
unvisited-set_insert p visited (i ∷ items) =
    ground (arith, unvisited-set_insert p visited items, member-set_insert i p visited)

pub unvisited-lt :
    (p : Bytes) (visited items : List Bytes)
    → member p items ≡ true
    → member p visited ≡ false
    → unvisited (set_insert p visited) items < unvisited visited items
unfolding unvisited member
unvisited-lt p visited [] m f = cc
unvisited-lt p visited (i ∷ items) m f = ground (
  arith,
  unvisited-lt p visited items,
  member-set_insert i p visited,
  bytes_eq_iff p i,
  bytes_eq_iff i p,
  unvisited-set_insert p visited items,
)

module _ (items : List Bytes) (children : Bytes → List Bytes) where
  -- What a visit keeps: nothing is unvisited again, and only items are listed.
  abbrev Keeps : Dfs → Dfs → Type 0
  Keeps d d' =
      (unvisited d'.visited items ≤ unvisited d.visited items)
      × (((q : Bytes) → member q d.sorted ≡ true → member q items ≡ true)
          → (q : Bytes) → member q d'.sorted ≡ true
          → member q items ≡ true)

  abbrev Fine : Dfs → Result Failure Dfs → Type 0
  Fine d (ok d') = Keeps d d'
  Fine d (err e) = e ≢ stuck

  Fine-bind :
      (d : Dfs) (m : Result Failure Dfs) (f : Dfs → Result Failure Dfs)
      → Fine d m
      → ((d' : Dfs) → Keeps d d' → Fine d' (f d'))
      → Fine d (m >>= f)
  Fine-bind d (ok d') f h next = trans (f d') (next d' h)
    where
      trans : (r : Result Failure Dfs) → Fine d' r → Fine d r
      trans (ok d'') k = (omega arith, λ all. k.1 (h.1 all))
      trans (err e) k = k
  Fine-bind d (err e) f h next = h

  module _ (fuel : ℕ) (visit : Bytes → Option Bytes → Dfs → Result Failure Dfs)
      (fine : (p : Bytes) (parent : Option Bytes) (d : Dfs)
        → member p items ≡ true
        → unvisited d.visited items < fuel
        → Fine d (visit p parent d)) where
    visit_references-Fine :
        (path : Bytes) (references : List Bytes) (d : Dfs)
        → unvisited d.visited items < fuel
        → Fine d (visit_references visit items path references d)
    unfolding visit_references
    visit_references-Fine path [] d lt = (omega arith, λ all. all)
    visit_references-Fine path (i ∷ references) d lt =
        elim (Bool-cases (not (bytes_eq i path) && member i items)) [
          | inl into ↦
              rw (into, visit_references)
                (Fine-bind d (visit i (some path) d) (visit_references visit items path references)
                  (fine i (some path) d (ground arith) lt)
                  λ d' keeps. visit_references-Fine path references d' (omega arith))
          | inr past ↦ rw (past, visit_references) (visit_references-Fine path references d lt)
        ]

  dfs_visit-Fine :
      (fuel : ℕ) (p : Bytes) (parent : Option Bytes) (d : Dfs)
      → member p items ≡ true
      → unvisited d.visited items < fuel
      → Fine d (dfs_visit fuel items children p parent d)
  unfolding dfs_visit
  dfs_visit-Fine zero p parent d m lt = absurd (omega arith)
  dfs_visit-Fine (suc fuel) p parent d m lt = elim (Bool-cases (member p d.parents)) [
    | inl again ↦ rw (again, dfs_visit) (λ e. cc)
    | inr fresh ↦ elim (Bool-cases (member p d.visited)) [
      | inl seen ↦ rw (fresh, seen, dfs_visit) (omega arith, λ all. all)
      | inr new ↦
          let fewer = unvisited-lt p d.visited items m new in
          rw (fresh, new, dfs_visit)
            (entered p d m
              (visit_references (dfs_visit fuel items children) items p (children p) (enter p d))
              (unvisited-set_insert p d.visited items)
              (visit_references-Fine fuel (dfs_visit fuel items children) (dfs_visit-Fine fuel) p
                (children p) (enter p d) (unfold enter in omega arith)))
    ]
  ]
    where
      entered :
          (p : Bytes) (d : Dfs)
          → member p items ≡ true
          → (r : Result Failure Dfs)
          → unvisited (set_insert p d.visited) items ≤ unvisited d.visited items
          → Fine (enter p d) r
          → Fine d (r >>= λ d'. ok (leave p d'))
      entered p d m (err e) le h = h
      entered p d m (ok d') le h =
          unfold enter leave member in
          (
            (omega arith),
            λ all q.
                ground (arith, member-append q d'.sorted (p ∷ []), h.1 all q, bytes_eq_iff q p),
          )

  visit_items-Fine :
      (fuel : ℕ) (is : List Bytes) (d : Dfs)
      → ((q : Bytes) → member q is ≡ true → member q items ≡ true)
      → unvisited d.visited items < fuel
      → Fine d (visit_items fuel items children is d)
  unfolding visit_items
  visit_items-Fine fuel [] d sub lt = (omega arith, λ all. all)
  visit_items-Fine fuel (i ∷ is) d sub lt =
      Fine-bind d (dfs_visit fuel items children i none d) (visit_items fuel items children is)
        (dfs_visit-Fine fuel i none d (sub i (unfold member in rw ((bytes_eq_iff i i).1 refl))) lt)
        λ d' keeps.
          visit_items-Fine fuel is d' (λ q m. sub q (unfold member in ground arith)) (omega arith)

  -- The sort ends with a list of items or with a cycle: the recursion never runs out of rounds.
  pub topo_sort_ends :
      (topo_sort items children ≢ err stuck)
      × ((sorted : List Bytes)
          → topo_sort items children ≡ ok sorted
          → (q : Bytes) → member q sorted ≡ true
          → member q items ≡ true)
  unfolding topo_sort
  topo_sort_ends = ends (visit_items (suc (length items)) items children items initial) (
      visit_items-Fine (suc (length items)) items initial (λ q m. m)
        (omega (arith, unvisited-le [] items)))
    where
      ends :
          (r : Result Failure Dfs)
          → Fine initial r
          → ((r >>= λ d. ok (reverse d.sorted)) ≢ err stuck)
            × ((sorted : List Bytes)
                → (r >>= λ d. ok (reverse d.sorted)) ≡ ok sorted
                → (q : Bytes) → member q sorted ≡ true
                → member q items ≡ true)
      ends (ok d) h = (
        (λ e. cc),
        λ sorted e q m.
            let listed : member q (reverse d.sorted) ≡ true = rw (ok-injective e) m in
            h.1 (λ j n. unfold member in cc) q (rw (member-reverse q d.sorted) at listed),
      )
      ends (err x) h = ((λ e. h (err-injective e)), λ sorted e. cc)
