-- ===== src/Gc/Safety.antt =====
-- The invariant of a collection, for the deletion of the paths that were visited.
use nixstore_arch.Prelude.{
  ℕ, ◌≡◌, refl, sym, true, false, List, [], ◌∷◌, Bytes, bytes_eq_iff, member, set_insert,
  member-set_insert, some, Result, ok, err, arith, Bool-cases, inl, inr,
}
use mathlib.Core.Path.{subst}
use nixstore_arch.TopoSort
use nixstore_arch.TopoSort.{topo_sort}
use nixstore_arch.TopoSort.Complete.{topo_sort_ends}
use nixstore_arch.LocalStore.{
  StorePath, ValidPathInfo, Db, StoreError, path_in_use, invalid_path, not_content_addressed,
  cycle_detected, foreign_key, find_info, invalidate_path_checked,
}
use nixstore_arch.LocalStore.Closed.{IsClosed, IsRemoved, invalidate_path_checked-IsClosed}
use nixstore_arch.StorePath.{hash_part}
use nixstore_arch.Gc.State.{
  Options, Disk, Gc, lock_shared, should_delete, reset_pending, Signal, finished, limit_reached,
  thrown, and_then,
}
use nixstore_arch.Gc.Visit.{mark_alive, Verdict, kept, stuck, doomed, set_pending, visit}
use nixstore_arch.Gc.Sweep.{
  delete_from_store, delete_invalidated, delete_path, delete_each, delete_sorted, delete_visited,
  references_in, maybe_delete_referrers_closure,
}
use nixstore_arch.Gc.Search.{
  Same, Same-trans, lock_shared-Same, mark_alive-Same, set_pending-Same, AreNoRoots, IsSafe,
  visit-IsSearched,
}

module _ (roots : List StorePath) (db₀ : Db) where
  -- What holds at every moment of a collection that starts with the database `db₀`.
  abbrev pub IsKept : Db → List StorePath → Type 0
  IsKept db dead =
      IsClosed db
      × ((p : StorePath) (i : ValidPathInfo)
          → find_info p db.valid_paths ≡ some i
          → find_info p db₀.valid_paths ≡ some i)
      × ((r : StorePath)
          → member r roots ≡ true
          → find_info r db.valid_paths ≡ find_info r db₀.valid_paths)
      × AreNoRoots roots dead

  abbrev pub Inv : Gc → Type 0
  Inv g = IsKept g.db g.dead

  Inv-Same : (g g' : Gc) → Same g g' → Inv g → Inv g'
  Inv-Same g g' (d, x) inv =
      subst (λ db. IsKept db g'.dead) (sym d) (subst (IsKept g.db) (sym x) inv)

  IsKept-removed :
      (p : StorePath) (db db' : Db) (dead : List StorePath)
      → member p roots ≡ false
      → IsRemoved p db db' × (IsClosed db → IsClosed db')
      → IsKept db dead
      → IsKept db' dead
  IsKept-removed p db db' dead no_root (removed, closes) (closed, older, same, no_roots) = (
    closes closed,
    (λ q i f. older q i (ground (arith, removed q))),
    (λ r m. ground (arith, removed r, same r m, bytes_eq_iff p r)),
    no_roots,
  )

  pub and_then-Inv :
      (r : Signal × Gc) (next : Gc → Signal × Gc)
      → Inv r.1
      → ((g : Gc) → Inv g → Inv (next g).1)
      → Inv (and_then r next).1
  unfolding and_then
  and_then-Inv (finished, g) next inv h = h g inv
  and_then-Inv (limit_reached, g) next inv h = inv
  and_then-Inv (thrown e, g) next inv h = inv

  module _ (disk : Disk) (o : Options) where
    pub delete_from_store-Inv :
        (name : Bytes) (g : Gc) → Inv g → Inv (delete_from_store disk o name g).1
    unfolding delete_from_store
    delete_from_store-Inv name g inv = Inv-Same g (delete_from_store disk o name g).1 same inv
      where
        same : Same g (delete_from_store disk o name g).1
        same = ground arith

    delete_invalidated-Inv :
        (p : StorePath) (g : Gc) (r : Result StoreError Db)
        → invalidate_path_checked g.db p ≡ r
        → member p roots ≡ false
        → Inv g
        → Inv (delete_invalidated disk o p g r).1
    unfolding delete_invalidated
    delete_invalidated-Inv p g (ok db) e no_root inv =
        and_then-Inv (delete_from_store disk o p (record g { db = db })) _
          (delete_from_store-Inv p (record g { db = db })
            (IsKept-removed p g.db db g.dead no_root (invalidate_path_checked-IsClosed g.db p db e)
              inv))
          λ g' inv'. inv'
    delete_invalidated-Inv p g (err (path_in_use q rs)) e no_root inv = inv
    delete_invalidated-Inv p g (err (invalid_path q)) e no_root inv = inv
    delete_invalidated-Inv p g (err (not_content_addressed q)) e no_root inv = inv
    delete_invalidated-Inv p g (err (cycle_detected c)) e no_root inv = inv
    delete_invalidated-Inv p g (err (foreign_key q)) e no_root inv = inv

    delete_path-Inv :
        (p : StorePath) (g : Gc) → member p roots ≡ false → Inv g → Inv (delete_path disk o p g).1
    unfolding delete_path reset_pending
    delete_path-Inv p g no_root inv =
        elim (Bool-cases (member (hash_part p) (lock_shared g).temp_roots)) [
          | inl rooted ↦ rw rooted (
              Inv-Same g (mark_alive o p (lock_shared g))
                (Same-trans g (lock_shared g) (mark_alive o p (lock_shared g)) (lock_shared-Same g)
                  (mark_alive-Same o p (lock_shared g)))
                inv)
          | inr free ↦ rw free (
              delete_invalidated-Inv p (set_pending p g)
                (invalidate_path_checked (set_pending p g).db p) refl no_root
                (Inv-Same g (set_pending p g) (set_pending-Same p g) inv))
        ]

    delete_each-Inv :
        (ps : List StorePath) (g : Gc)
        → AreNoRoots roots ps
        → Inv g
        → Inv (delete_each disk o ps g).1
    unfolding delete_each
    delete_each-Inv [] g no_roots inv = inv
    delete_each-Inv (p ∷ ps) g no_roots inv = elim (Bool-cases (member p g.dead)) [
      | inl dead ↦ rw (dead, delete_each) (delete_each-Inv ps g rest inv)
      | inr fresh ↦ elim (Bool-cases (should_delete o)) [
        | inl delete ↦
            rw (fresh, delete, delete_each)
              (and_then-Inv (delete_path disk o p (record g { dead = set_insert p g.dead }))
                (delete_each disk o ps)
                (delete_path-Inv p (record g { dead = set_insert p g.dead }) first marked)
                λ g' inv'. delete_each-Inv ps g' rest inv')
        | inr report_only ↦
            rw (fresh, report_only, delete_each)
              (delete_each-Inv ps (record g { dead = set_insert p g.dead }) rest marked)
      ]
    ]
      where
        rest : AreNoRoots roots ps
        rest q m = no_roots q (unfold member in ground arith)

        first : member p roots ≡ false
        first = no_roots p (unfold member in ground (arith, bytes_eq_iff p p))

        marked : IsKept g.db (set_insert p g.dead)
        marked = (
          inv.0,
          inv.1,
          inv.2,
          λ q m. ground (arith, member-set_insert q p g.dead, inv.3 q, bytes_eq_iff q p, first),
        )

    delete_sorted-Inv :
        (visited : List StorePath) (children : StorePath → List StorePath)
        (r : Result TopoSort.Failure (List StorePath)) (g : Gc)
        → topo_sort visited children ≡ r
        → AreNoRoots roots visited
        → Inv g
        → Inv (delete_sorted disk o r g).1
    unfolding delete_sorted
    delete_sorted-Inv visited children (ok sorted) g e no_roots inv =
        delete_each-Inv sorted g
          (λ q m. no_roots q ((topo_sort_ends visited children).1 sorted e q m)) inv
    delete_sorted-Inv visited children (err e') g e no_roots inv = inv

    delete_visited-Inv :
        (v : Verdict) (g : Gc) → IsSafe roots v → Inv g → Inv (delete_visited disk o v g).1
    unfolding delete_visited
    delete_visited-Inv kept g safe inv = inv
    delete_visited-Inv stuck g safe inv = inv
    delete_visited-Inv (doomed visited) g safe inv =
        delete_sorted-Inv visited (references_in g.db) (topo_sort visited (references_in g.db)) g
          refl safe inv

    pub maybe_delete-Inv :
        (rounds : ℕ) (start : StorePath) (g : Gc)
        → Inv g
        → Inv (maybe_delete_referrers_closure rounds roots disk o start g).1
    unfolding maybe_delete_referrers_closure reset_pending
    maybe_delete-Inv rounds start g inv =
        let (safe, same) =
          visit-IsSearched roots rounds o start (start ∷ [], start ∷ []) g inv.3 (λ p m r. m) in
        let found = visit rounds roots o start (start ∷ [], start ∷ []) g in
        delete_visited-Inv found.0 found.1 safe (Inv-Same g found.1 same inv)
