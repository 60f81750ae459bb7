-- ===== src/Gc/Search.antt =====
-- Lemmas on the search through the referrers: roots, and what the search leaves alone.
use nixstore_arch.Prelude.{
  ℕ, zero, suc, ◌≡◌, refl, ◌∙◌, true, false, List, [], ◌∷◌, ◌++◌, bytes_eq_iff, member, set_insert,
  member-set_insert, member-append, arith, Bool-cases, inl, inr,
}
use nixstore_arch.LocalStore.{StorePath}
use nixstore_arch.Gc.State.{Options, Gc, lock_shared, add_alive}
use nixstore_arch.Gc.Closure.{enqueue_all}
use nixstore_arch.Gc.Visit.{
  mark_alive, Check, is_alive, is_dead, is_root, not_specified, is_temp_root, candidate, check,
  cached_referrers, valid_neighbours, neighbours, Verdict, kept, stuck, doomed, set_pending,
  visit_step, visit,
}

-- The steps of the search change neither the database nor the set of dead paths.
abbrev pub Same : Gc → Gc → Type 0
Same g g' = (g'.db ≡ g.db) × (g'.dead ≡ g.dead)

pub Same-trans : (a b c : Gc) → Same a b → Same b c → Same a c
Same-trans a b c (d, x) (d', x') = (d' ∙ d, x' ∙ x)

pub lock_shared-Same : (g : Gc) → Same g (lock_shared g)
unfolding lock_shared
lock_shared-Same g = ground arith

pub mark_alive-Same : (o : Options) (p : StorePath) (g : Gc) → Same g (mark_alive o p g)
unfolding mark_alive
mark_alive-Same o p g = ground arith

neighbours-Same : (o : Options) (p : StorePath) (g : Gc) → Same g (neighbours o p g).1
unfolding neighbours valid_neighbours cached_referrers
neighbours-Same o p g = ground arith

pub set_pending-Same : (p : StorePath) (g : Gc) → Same g (set_pending p g)
unfolding set_pending
set_pending-Same p g = lock_shared-Same g

module _ (roots : List StorePath) where
  -- Only what is still to do can be a root.
  abbrev pub IsPending : List StorePath × List StorePath → Type 0
  IsPending (visited, todo) =
      (p : StorePath) → member p visited ≡ true → member p roots ≡ true → member p todo ≡ true

  abbrev pub AreNoRoots : List StorePath → Type 0
  AreNoRoots ps = (p : StorePath) → member p ps ≡ true → member p roots ≡ false

  enqueue_all-IsPending :
      (ps visited todo : List StorePath)
      → IsPending (visited, todo)
      → IsPending (enqueue_all ps (visited, todo))
  unfolding enqueue_all
  enqueue_all-IsPending [] visited todo h = h
  enqueue_all-IsPending (p ∷ ps) visited todo h = elim (Bool-cases (member p visited)) [
    | inl seen ↦ rw (seen, enqueue_all) (enqueue_all-IsPending ps visited todo h)
    | inr new ↦
        rw (new, enqueue_all)
          (enqueue_all-IsPending ps (set_insert p visited) (todo ++ p ∷ []) λ q m r.
            unfold member in
            ground (arith, h q, member-set_insert q p visited, member-append q todo (p ∷ [])))
  ]

  abbrev pub IsSafe : Verdict → Type 0
  IsSafe (doomed visited) = AreNoRoots visited
  IsSafe kept = Unit {0}
  IsSafe stuck = Unit {0}

  abbrev pub IsSearched : Gc → Verdict × Gc → Type 0
  IsSearched g (v, g') = IsSafe v × Same g g'

  check-no_root :
      (o : Options) (p : StorePath) (g : Gc)
      → AreNoRoots g.dead
      → ((check roots o p g ≡ is_dead) → member p roots ≡ false)
        × ((check roots o p g ≡ candidate) → member p roots ≡ false)
  unfolding check
  check-no_root o p g dead = ground (arith, dead p)

  module _ (o : Options) (start : StorePath)
      (next : List StorePath × List StorePath → Gc → Verdict × Gc)
      (searched : (q : List StorePath × List StorePath) (g : Gc)
        → AreNoRoots g.dead
        → IsPending q
        → IsSearched g (next q g)) where
    visit_step-IsSearched :
        (visited : List StorePath) (p : StorePath) (todo : List StorePath) (g : Gc) (c : Check)
        → check roots o p g ≡ c
        → AreNoRoots g.dead
        → IsPending (visited, p ∷ todo)
        → IsSearched g (visit_step next o start visited p todo g c)
    unfolding visit_step add_alive member
    visit_step-IsSearched visited p todo g is_alive e dead h = (tt, (refl, refl))
    visit_step-IsSearched visited p todo g is_dead e dead h =
        searched (visited, todo) g dead
          λ q m r. ground (arith, h q, (check-no_root o p g dead).0, bytes_eq_iff q p)
    visit_step-IsSearched visited p todo g is_root e dead h =
        (tt, mark_alive-Same o p (add_alive start g))
    visit_step-IsSearched visited p todo g not_specified e dead h = (tt, (refl, refl))
    visit_step-IsSearched visited p todo g is_temp_root e dead h = (
      tt,
      Same-trans g (lock_shared g) (mark_alive o p (add_alive start (lock_shared g)))
          (lock_shared-Same g) (mark_alive-Same o p (add_alive start (lock_shared g))),
    )
    visit_step-IsSearched visited p todo g candidate e dead h =
        let g' = (neighbours o p (set_pending p g)).1 in
        let ps = (neighbours o p (set_pending p g)).0 in
        let same =
          Same-trans g (set_pending p g) g' (set_pending-Same p g)
            (neighbours-Same o p (set_pending p g)) in
        let (safe, same') = searched (enqueue_all ps (visited, todo)) g' (rw same.1 dead) (
          enqueue_all-IsPending ps visited todo
            λ q m r. ground (arith, h q, (check-no_root o p g dead).1, bytes_eq_iff q p)) in
        (safe, Same-trans g g' (next (enqueue_all ps (visited, todo)) g').1 same same')

  pub visit-IsSearched :
      (fuel : ℕ) (o : Options) (start : StorePath) (q : List StorePath × List StorePath) (g : Gc)
      → AreNoRoots g.dead
      → IsPending q
      → IsSearched g (visit fuel roots o start q g)
  unfolding visit
  visit-IsSearched zero o start q g dead h = (tt, (refl, refl))
  visit-IsSearched (suc fuel) o start (visited, []) g dead h =
      ((λ p m. unfold member in ground (arith, h p)), (refl, refl))
  visit-IsSearched (suc fuel) o start (visited, p ∷ todo) g dead h =
      visit_step-IsSearched o start (visit fuel roots o start) (visit-IsSearched fuel o start)
        visited p todo g (check roots o p g) refl dead h
