-- ===== src/Gc/Ends.antt =====
-- Theorems on how `collectGarbage` of src/libstore/gc.cc ends.
use nixstore_arch.Prelude.{
  ℕ, suc, ◌+◌, ◌<◌, ◌≡◌, ◌≢◌, refl, true, not, ◌&&◌, ◌||◌, List, [], ◌∷◌, Bytes, codes, bytes_eq,
  bytes_eq_iff, member, length, ◌==◌, set_insert, if◌then◌else◌, none, some, Result, ok, err,
  Result-cases, arith, Bool-cases, inl, inr,
}
use nixstore_arch.TopoSort
use nixstore_arch.TopoSort.{topo_sort}
use nixstore_arch.TopoSort.Complete.{unvisited-le, topo_sort_ends}
use nixstore_arch.LocalStore.{
  StorePath, Db, StoreError, path_in_use, invalid_path, not_content_addressed, cycle_detected,
  foreign_key, is_valid_path, invalidate_path_checked,
}
use nixstore_arch.LocalStore.Closed.{invalidate_path_checked-IsClosed}
use nixstore_arch.StorePath.{hash_part, store_path}
use nixstore_arch.Gc.State.{
  Action, PathsToDelete, whole_store, specific_paths, Options, Disk, Gc, lock_shared, should_delete,
  reset_pending, cycle_in_references, no_rounds_left, Signal, finished, limit_reached, thrown,
  and_then,
}
use nixstore_arch.Gc.ClosureEnds.{paths_in, length-paths_in, member-paths_in}
use nixstore_arch.Gc.Visit.{
  mark_alive, find_cached, Verdict, kept, stuck, doomed, set_pending, visit,
}
use nixstore_arch.Gc.Sweep.{
  delete_from_store, erase_cached, delete_invalidated, delete_path, delete_each, delete_sorted,
  delete_visited, references_in, maybe_delete_referrers_closure,
}
use nixstore_arch.Gc.Collect.{
  is_delete_specific, check_specific, collect_specific, collect_name, collect_listing,
  collect_store, collect_paths, finish, collect_wanted, collect_garbage,
}
use nixstore_arch.Gc.Rounds.{
  Stays, lock_shared-Stays, mark_alive-Stays, set_pending-Stays, AreKnown, Bounded, Bounded-Stays,
  visit-Ended,
}

-- An end that the program has.
abbrev pub IsEnd : Signal → Type 0
IsEnd s = (s ≢ thrown no_rounds_left) × (s ≢ thrown (cycle_in_references TopoSort.stuck))

find-erase_cached :
    (p q : StorePath) (cache : List (StorePath × List StorePath))
    → find_cached q (erase_cached p cache) ≡ (if bytes_eq p q then none else find_cached q cache)
unfolding find_cached erase_cached
find-erase_cached p q [] = ground arith
find-erase_cached p q ((j, js) ∷ cache) =
    ground
      (arith, find-erase_cached p q cache, bytes_eq_iff p j, bytes_eq_iff q j, bytes_eq_iff p q)

module _ (known : List StorePath) where
  abbrev Good : Signal × Gc → Type 0
  Good (s, g) = IsEnd s × Bounded known g

  finished-IsEnd : IsEnd finished
  finished-IsEnd = ((λ e. cc), λ e. cc)

  and_then-Good :
      (r : Signal × Gc) (next : Gc → Signal × Gc)
      → Good r
      → ((g : Gc) → Bounded known g → Good (next g))
      → Good (and_then r next)
  unfolding and_then
  and_then-Good (finished, g) next (end, b) h = h g b
  and_then-Good (limit_reached, g) next good h = good
  and_then-Good (thrown e, g) next good h = good

  module _ (disk : Disk) (o : Options) where
    delete_from_store-Good :
        (name : Bytes) (g : Gc) → Bounded known g → Good (delete_from_store disk o name g)
    unfolding delete_from_store
    delete_from_store-Good name g b =
        (end, Bounded-Stays known g (delete_from_store disk o name g).1 same b)
      where
        end : IsEnd (delete_from_store disk o name g).0
        end = ((λ e. ground arith), λ e. ground arith)

        same : Stays g (delete_from_store disk o name g).1
        same = ground arith

    delete_invalidated-Good :
        (p : StorePath) (g : Gc) (r : Result StoreError Db)
        → invalidate_path_checked g.db p ≡ r
        → Bounded known g
        → Good (delete_invalidated disk o p g r)
    unfolding delete_invalidated is_valid_path
    delete_invalidated-Good p g (ok db) e b =
        and_then-Good (delete_from_store disk o p (record g { db = db })) _
          (delete_from_store-Good p (record g { db = db }) (fewer, b.1))
          λ g' b'. (
            finished-IsEnd,
            (b'.0, λ q rs f. b'.1 q rs (ground (arith, find-erase_cached p q g'.referrers_cache))),
          )
      where
        fewer : (q : StorePath) → is_valid_path db q ≡ true → member q known ≡ true
        fewer q v = b.0 q (ground (arith, (invalidate_path_checked-IsClosed g.db p db e).0 q))
    delete_invalidated-Good p g (err (path_in_use q rs)) e b = (finished-IsEnd, b)
    delete_invalidated-Good p g (err (invalid_path q)) e b = (((λ e. cc), λ e. cc), b)
    delete_invalidated-Good p g (err (not_content_addressed q)) e b = (((λ e. cc), λ e. cc), b)
    delete_invalidated-Good p g (err (cycle_detected c)) e b = (((λ e. cc), λ e. cc), b)
    delete_invalidated-Good p g (err (foreign_key q)) e b = (((λ e. cc), λ e. cc), b)

    delete_path-Good : (p : StorePath) (g : Gc) → Bounded known g → Good (delete_path disk o p g)
    unfolding delete_path reset_pending
    delete_path-Good p g b = elim (Bool-cases (member (hash_part p) (lock_shared g).temp_roots)) [
      | inl rooted ↦ rw rooted (
        finished-IsEnd,
        Bounded-Stays known (lock_shared g) (mark_alive o p (lock_shared g))
            (mark_alive-Stays o p (lock_shared g))
            (Bounded-Stays known g (lock_shared g) (lock_shared-Stays g) b),
      )
      | inr free ↦ rw free (
          delete_invalidated-Good p (set_pending p g)
            (invalidate_path_checked (set_pending p g).db p) refl
            (Bounded-Stays known g (set_pending p g) (set_pending-Stays p g) b))
    ]

    delete_each-Good :
        (ps : List StorePath) (g : Gc) → Bounded known g → Good (delete_each disk o ps g)
    unfolding delete_each
    delete_each-Good [] g b = (finished-IsEnd, b)
    delete_each-Good (p ∷ ps) g b = elim (Bool-cases (member p g.dead)) [
      | inl dead ↦ rw (dead, delete_each) (delete_each-Good ps g b)
      | inr fresh ↦ elim (Bool-cases (should_delete o)) [
        | inl delete ↦
            rw (fresh, delete, delete_each)
              (and_then-Good (delete_path disk o p (record g { dead = set_insert p g.dead }))
                (delete_each disk o ps)
                (delete_path-Good p (record g { dead = set_insert p g.dead }) b)
                (delete_each-Good ps))
        | inr report_only ↦
            rw (fresh, report_only, delete_each)
              (delete_each-Good ps (record g { dead = set_insert p g.dead }) b)
      ]
    ]

    delete_sorted-Good :
        (r : Result TopoSort.Failure (List StorePath)) (g : Gc)
        → r ≢ err TopoSort.stuck
        → Bounded known g
        → Good (delete_sorted disk o r g)
    unfolding delete_sorted
    delete_sorted-Good (ok sorted) g ends b = delete_each-Good sorted g b
    delete_sorted-Good (err e) g ends b = (((λ f. cc), λ f. ends (cc)), b)

    delete_visited-Good :
        (v : Verdict) (g : Gc) → v ≢ stuck → Bounded known g → Good (delete_visited disk o v g)
    unfolding delete_visited
    delete_visited-Good kept g ends b = (finished-IsEnd, b)
    delete_visited-Good stuck g ends b = absurd (ends refl)
    delete_visited-Good (doomed visited) g ends b =
        delete_sorted-Good (topo_sort visited (references_in g.db)) g
          (topo_sort_ends visited (references_in g.db)).0 b

    module _ (roots : List StorePath) (rounds : ℕ) (enough : length known + 1 < rounds) where
      maybe_delete-Good :
          (start : StorePath) (g : Gc)
          → Bounded known g
          → Good (maybe_delete_referrers_closure rounds roots disk o start g)
      unfolding maybe_delete_referrers_closure reset_pending
      maybe_delete-Good start g b =
          let found = visit rounds roots o start (start ∷ [], start ∷ []) g in
          let (ends, b') =
            visit-Ended known rounds roots o start (start ∷ [], start ∷ []) g b
              (omega (arith, unvisited-le (start ∷ []) known)) in
          delete_visited-Good found.0 found.1 ends b'

      check_specific-Good :
          (p : StorePath) (g : Gc) → Bounded known g → Good (check_specific rounds roots disk o p g)
      unfolding check_specific
      check_specific-Good p g b =
          elim (Bool-cases (is_delete_specific o.action && not (member p g.dead))) [
            | inl alive ↦ rw alive (((λ e. cc), λ e. cc), b)
            | inr fine ↦ rw fine (finished-IsEnd, b)
          ]

      collect_specific-Good :
          (ps : List StorePath) (g : Gc)
          → Bounded known g
          → Good (collect_specific rounds roots disk o ps g)
      unfolding collect_specific
      collect_specific-Good [] g b = (finished-IsEnd, b)
      collect_specific-Good (p ∷ ps) g b = and_then-Good _ _ (maybe_delete-Good p g b) λ g₁ b₁.
          and_then-Good (check_specific rounds roots disk o p g₁) _ (check_specific-Good p g₁ b₁)
            (collect_specific-Good ps)

      collect_name-Good :
          (name : Bytes) (g : Gc) → Bounded known g → Good (collect_name rounds roots disk o name g)
      unfolding collect_name
      collect_name-Good name g b =
          elim (Bool-cases (
            bytes_eq name (codes ".")
            || (bytes_eq name (codes "..") || bytes_eq name (codes ".links")))) [
              | inl skipped ↦ rw skipped (finished-IsEnd, b)
              | inr taken ↦ elim (Result-cases (store_path name)) [
                | inl (p, parsed) ↦ rw (taken, parsed) (maybe_delete-Good p g b)
                | inr (e, garbage) ↦ rw (taken, garbage) (delete_from_store-Good name g b)
              ]
            ]

      collect_listing-Good :
          (names : List Bytes) (g : Gc)
          → Bounded known g
          → Good (collect_listing rounds roots disk o names g)
      unfolding collect_listing
      collect_listing-Good [] g b = (finished-IsEnd, b)
      collect_listing-Good (name ∷ names) g b =
          and_then-Good (collect_name rounds roots disk o name g) _ (collect_name-Good name g b)
            (collect_listing-Good names)

      collect_store-Good :
          (names : List Bytes) (g : Gc)
          → Bounded known g
          → Good (collect_store rounds roots disk o names g)
      unfolding collect_store
      collect_store-Good names g b = elim (Bool-cases (o.max_freed == 0)) [
        | inl nothing ↦ rw nothing (finished-IsEnd, b)
        | inr some_bytes ↦ elim (Bool-cases (is_delete_specific o.action)) [
          | inl refused ↦ rw (some_bytes, refused) (((λ e. cc), λ e. cc), b)
          | inr wanted ↦ rw (some_bytes, wanted) (collect_listing-Good names g b)
        ]
      ]

      finish-IsEnd : (action : Action) (r : Signal × Gc) → IsEnd r.0 → IsEnd (finish action r).0
      unfolding finish
      finish-IsEnd action (thrown e, g) end = end
      finish-IsEnd action (finished, g) end = finished-IsEnd
      finish-IsEnd action (limit_reached, g) end = finished-IsEnd

      collect_wanted-IsEnd :
          (paths : PathsToDelete) (names : List Bytes) (g : Gc)
          → Bounded known g
          → IsEnd (collect_wanted rounds roots disk o paths names g).0
      unfolding collect_wanted collect_paths
      collect_wanted-IsEnd whole_store names g b =
          finish-IsEnd o.action _ (collect_store-Good names g b).0
      collect_wanted-IsEnd (specific_paths [] deletes) names g b = finished-IsEnd
      collect_wanted-IsEnd (specific_paths (p ∷ ps) deletes) names g b =
          finish-IsEnd o.action _ (collect_specific-Good (p ∷ ps) g b).0

-- If no referrers are cached when a collection begins, it finishes or throws an exception of the
-- program: no search and no sort runs out of rounds.
pub collect_garbage_ends :
    (roots : List StorePath) (disk : Disk) (o : Options) (names : List Bytes) (g : Gc)
    → g.referrers_cache ≡ []
    → IsEnd (collect_garbage roots disk o names g).0
unfolding collect_garbage
collect_garbage_ends roots disk o names g empty =
    collect_wanted-IsEnd (paths_in g.db.valid_paths) disk o roots
      (suc (suc (suc (length g.db.valid_paths)))) (omega (arith, length-paths_in g.db.valid_paths))
      o.paths_to_delete names g (valid, cached)
  where
    valid :
        (q : StorePath) → is_valid_path g.db q ≡ true → member q (paths_in g.db.valid_paths) ≡ true
    valid q v = member-paths_in q g.db.valid_paths (unfold is_valid_path in λ e. ground arith)

    cached :
        (p : StorePath) (rs : List StorePath)
        → find_cached p g.referrers_cache ≡ some rs
        → AreKnown (paths_in g.db.valid_paths) rs
    cached p rs f = let f' : find_cached p [] ≡ some rs = rw empty at f in unfold find_cached in cc
