-- ===== src/Gc/Rounds.antt =====
-- Lemmas on the number of rounds of the search through the referrers.
use nixstore_arch.Prelude.{
  ℕ, zero, suc, ◌+◌, ◌≤◌, ◌<◌, ◌≡◌, ◌≢◌, sym, true, List, [], ◌∷◌, ◌++◌, bytes_eq, bytes_eq_iff,
  member, length, length-append, set_insert, member-set_insert, member-append, none, some,
  Option-cases, arith, Bool-cases, inl, inr,
}
use mathlib.Core.Path.{subst}
use nixstore_arch.TopoSort.Complete.{unvisited, unvisited-lt}
use nixstore_arch.LocalStore.{
  StorePath, ValidPathInfo, Db, find_info, is_valid_path, referrers_in, query_referrers,
  derivers_in, query_valid_derivers,
}
use nixstore_arch.Gc.State.{Options, Gc, lock_shared, add_alive}
use nixstore_arch.Gc.Closure.{enqueue_all}
use nixstore_arch.Gc.Visit.{
  mark_alive, Check, is_alive, is_dead, is_root, not_specified, is_temp_root, candidate, check,
  find_cached, cached_referrers, derivers_to_visit, valid_neighbours, neighbours, Verdict, stuck,
  set_pending, visit_step, visit,
}

referrers-are_valid :
    (p q : StorePath) (is : List ValidPathInfo)
    → member q (referrers_in p is) ≡ true
    → find_info q is ≢ none
unfolding referrers_in find_info member
referrers-are_valid p q [] m e = cc
referrers-are_valid p q (i ∷ is) m e =
    ground (arith, referrers-are_valid p q is, member-set_insert q i.path (referrers_in p is))

derivers-are_valid :
    (db : Db) (p q : StorePath) (outputs : List (StorePath × StorePath))
    → member q (derivers_in db p outputs) ≡ true
    → is_valid_path db q ≡ true
unfolding derivers_in member
derivers-are_valid db p q [] m = cc
derivers-are_valid db p q ((drv, out) ∷ outputs) m = ground (
  arith,
  derivers-are_valid db p q outputs,
  member-set_insert q drv (derivers_in db p outputs),
  bytes_eq_iff q drv,
)

-- The database and the cache are as before.
abbrev pub Stays : Gc → Gc → Type 0
Stays g g' = (g'.db ≡ g.db) × (g'.referrers_cache ≡ g.referrers_cache)

pub lock_shared-Stays : (g : Gc) → Stays g (lock_shared g)
unfolding lock_shared
lock_shared-Stays g = ground arith

pub mark_alive-Stays : (o : Options) (p : StorePath) (g : Gc) → Stays g (mark_alive o p g)
unfolding mark_alive
mark_alive-Stays o p g = ground arith

pub set_pending-Stays : (p : StorePath) (g : Gc) → Stays g (set_pending p g)
unfolding set_pending
set_pending-Stays p g = lock_shared-Stays g

some-injective : {x y : List StorePath} → some x ≡ some y → x ≡ y
some-injective e = cc

module _ (known : List StorePath) where
  abbrev pub AreKnown : List StorePath → Type 0
  AreKnown ps = (q : StorePath) → member q ps ≡ true → member q known ≡ true

  -- Valid paths and cached referrers are known.
  abbrev pub IsBounded : Db → List (StorePath × List StorePath) → Type 0
  IsBounded db cache =
      ((q : StorePath) → is_valid_path db q ≡ true → member q known ≡ true)
      × ((p : StorePath) (rs : List StorePath) → find_cached p cache ≡ some rs → AreKnown rs)

  abbrev pub Bounded : Gc → Type 0
  Bounded g = IsBounded g.db g.referrers_cache

  pub Bounded-Stays : (g g' : Gc) → Stays g g' → Bounded g → Bounded g'
  Bounded-Stays g g' (d, c) b =
      subst (λ db. IsBounded db g'.referrers_cache) (sym d) (subst (IsBounded g.db) (sym c) b)

  cached_referrers-Bounded :
      (p : StorePath) (g : Gc)
      → Bounded g
      → AreKnown (cached_referrers p g).0 × Bounded (cached_referrers p g).1
  unfolding cached_referrers
  cached_referrers-Bounded p g b = elim (Option-cases (find_cached p g.referrers_cache)) [
    | inl miss ↦ rw (miss, cached_referrers) (referrers, (b.0, filled))
    | inr (rs, hit) ↦ rw (hit, cached_referrers) (b.1 p rs hit, b)
  ]
    where
      referrers : AreKnown (query_referrers g.db p)
      referrers q m = b.0 q (
          unfold query_referrers is_valid_path in
          ground (arith, referrers-are_valid p q g.db.valid_paths))

      filled :
          (q : StorePath) (rs : List StorePath)
          → find_cached q ((p, query_referrers g.db p) ∷ g.referrers_cache) ≡ some rs
          → AreKnown rs
      filled q rs e = elim (Bool-cases (bytes_eq q p)) [
        | inl same ↦
            subst AreKnown (some-injective (unfold find_cached in rw (same, find_cached) at e))
              referrers
        | inr other ↦ b.1 q rs (unfold find_cached in rw (other, find_cached) at e)
      ]

  derivers-AreKnown :
      (o : Options) (p : StorePath) (g : Gc) → Bounded g → AreKnown (derivers_to_visit o g.db p)
  unfolding derivers_to_visit query_valid_derivers member
  derivers-AreKnown o p g b q m =
      b.0 q (ground (arith, derivers-are_valid g.db p q g.db.derivation_outputs))

  neighbours-Bounded :
      (o : Options) (p : StorePath) (g : Gc)
      → Bounded g
      → AreKnown (neighbours o p g).0 × Bounded (neighbours o p g).1
  unfolding neighbours valid_neighbours
  neighbours-Bounded o p g b = elim (Bool-cases (is_valid_path g.db p)) [
    | inl valid ↦
        let (rs, b') = cached_referrers-Bounded p g b in
        rw valid (
          (λ q m. ground (
            arith,
            rs q,
            derivers-AreKnown o p g b q,
            member-append q (cached_referrers p g).0 (derivers_to_visit o g.db p),
          )),
          b',
        )
    | inr invalid ↦ rw invalid ((λ q m. unfold member in cc), b)
  ]

  unvisited-enqueue_all :
      (ps visited todo : List StorePath)
      → AreKnown ps
      → unvisited (enqueue_all ps (visited, todo)).0 known
          + length (enqueue_all ps (visited, todo)).1
        ≤ unvisited visited known + length todo
  unfolding enqueue_all
  unvisited-enqueue_all [] visited todo h = omega arith
  unvisited-enqueue_all (p ∷ ps) visited todo h = elim (Bool-cases (member p visited)) [
    | inl seen ↦ rw (seen, enqueue_all) (unvisited-enqueue_all ps visited todo rest)
    | inr new ↦
        rw (new, enqueue_all)
          (omega (
            arith,
            unvisited-enqueue_all ps (set_insert p visited) (todo ++ p ∷ []) rest,
            unvisited-lt p visited known first new,
            length-append todo (p ∷ []),
          ))
  ]
    where
      rest : AreKnown ps
      rest q m = h q (unfold member in ground arith)

      first : member p known ≡ true
      first = h p (unfold member in ground (arith, bytes_eq_iff p p))

  -- The search ends, and what it leaves is bounded.
  abbrev pub Ended : Verdict × Gc → Type 0
  Ended (v, g) = (v ≢ stuck) × Bounded g

  module _ (fuel : ℕ) (o : Options) (start : StorePath)
      (next : List StorePath × List StorePath → Gc → Verdict × Gc)
      (ended : (q : List StorePath × List StorePath) (g : Gc)
        → Bounded g
        → unvisited q.0 known + length q.1 < fuel
        → Ended (next q g)) where
    visit_step-Ended :
        (visited : List StorePath) (p : StorePath) (todo : List StorePath) (g : Gc) (c : Check)
        → Bounded g
        → unvisited visited known + length todo < fuel
        → Ended (visit_step next o start visited p todo g c)
    unfolding visit_step add_alive
    visit_step-Ended visited p todo g is_alive b lt = ((λ e. cc), b)
    visit_step-Ended visited p todo g is_dead b lt = ended (visited, todo) g b lt
    visit_step-Ended visited p todo g is_root b lt = (
      (λ e. cc),
      Bounded-Stays g (mark_alive o p (add_alive start g))
          (mark_alive-Stays o p (add_alive start g)) b,
    )
    visit_step-Ended visited p todo g not_specified b lt = ((λ e. cc), b)
    visit_step-Ended visited p todo g is_temp_root b lt = (
      (λ e. cc),
      Bounded-Stays (lock_shared g) (mark_alive o p (add_alive start (lock_shared g)))
          (mark_alive-Stays o p (add_alive start (lock_shared g)))
          (Bounded-Stays g (lock_shared g) (lock_shared-Stays g) b),
    )
    visit_step-Ended visited p todo g candidate b lt =
        let (ps, b') =
          neighbours-Bounded o p (set_pending p g)
            (Bounded-Stays g (set_pending p g) (set_pending-Stays p g) b) in
        ended (enqueue_all (neighbours o p (set_pending p g)).0 (visited, todo))
          (neighbours o p (set_pending p g)).1 b'
          (omega
            (arith, unvisited-enqueue_all (neighbours o p (set_pending p g)).0 visited todo ps))

  pub visit-Ended :
      (fuel : ℕ) (roots : List StorePath) (o : Options) (start : StorePath)
      (q : List StorePath × List StorePath) (g : Gc)
      → Bounded g
      → unvisited q.0 known + length q.1 < fuel
      → Ended (visit fuel roots o start q g)
  unfolding visit
  visit-Ended zero roots o start q g b lt = absurd (omega arith)
  visit-Ended (suc fuel) roots o start (visited, []) g b lt = ((λ e. cc), b)
  visit-Ended (suc fuel) roots o start (visited, p ∷ todo) g b lt =
      visit_step-Ended fuel o start (visit fuel roots o start) (visit-Ended fuel roots o start)
        visited p todo g (check roots o p g) b (omega arith)
