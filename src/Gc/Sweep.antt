-- ===== src/Gc/Sweep.antt =====
-- The second half of `maybeDeleteReferrersClosure`: the deletion of the paths that were visited.
use nixstore_arch.Prelude.{
  ℕ, ◌+◌, Bool, true, false, ◌&&◌, List, [], ◌∷◌, Bytes, bytes_eq, codes, ltb, member, set_insert,
  if◌then◌else◌, none, some, Result, ok, err,
}
use nixstore_arch.TopoSort
use nixstore_arch.TopoSort.{topo_sort}
use nixstore_arch.LocalStore.{
  StorePath, Db, StoreError, path_in_use, find_info, invalidate_path_checked,
}
use nixstore_arch.StorePath.{hash_part}
use nixstore_arch.Gc.State.{
  Options, Disk, should_delete, Gc, lock_shared, reset_pending, store_error, cycle_in_references,
  no_rounds_left, Signal, finished, limit_reached, thrown, and_then,
}
use nixstore_arch.Gc.Visit.{mark_alive, set_pending, Verdict, kept, stuck, doomed, visit}

unfoldable pub starts_with : Bytes → Bytes → Bool
starts_with [] s = true
starts_with (p ∷ ps) [] = false
starts_with (p ∷ ps) (c ∷ s) =
    let rest = starts_with ps s in if bytes_eq (p ∷ []) (c ∷ []) then rest else false

-- `deleteFromStore`
unfoldable pub delete_from_store : Disk → Options → Bytes → Gc → Signal × Gc
unfolding starts_with
delete_from_store disk o base_name g =
    let freed = g.bytes_freed + disk.size_of base_name in
    let g' : Gc = record g { deleted = set_insert base_name g.deleted; bytes_freed = freed } in
    if starts_with (codes "tmp-") base_name && disk.tmp_locked base_name
    then (finished, g)
    else if ltb o.max_freed freed
    then (limit_reached, g')
    else (finished, g')

unfoldable pub erase_cached :
    StorePath → List (StorePath × List StorePath) → List (StorePath × List StorePath)
erase_cached p [] = []
erase_cached p ((q, rs) ∷ cache) =
    let rest = erase_cached p cache in if bytes_eq p q then rest else (q, rs) ∷ rest

-- What is done with the result of `invalidatePathChecked`.
unfoldable pub delete_invalidated :
    Disk → Options → StorePath → Gc → Result StoreError Db → Signal × Gc
unfolding erase_cached
delete_invalidated disk o p g (ok db) =
    and_then (delete_from_store disk o p (record g { db = db }))
      λ g'. (finished, record g' { referrers_cache = erase_cached p g'.referrers_cache })
delete_invalidated disk o p g (err (path_in_use q rs)) = (finished, g)
delete_invalidated disk o p g (err e) = (thrown (store_error e), g)

-- The body of the loop that follows `dead.insert`; `resetPending` runs on every exit.
unfoldable pub delete_path : Disk → Options → StorePath → Gc → Signal × Gc
delete_path disk o p g =
    if member (hash_part p) (lock_shared g).temp_roots
    then (finished, mark_alive o p (lock_shared g))
    else (let pending = set_pending p g in
        let (signal, g') =
          delete_invalidated disk o p pending (invalidate_path_checked pending.db p) in
        (signal, reset_pending g'))

-- The loop over the sorted paths.
unfoldable pub delete_each : Disk → Options → List StorePath → Gc → Signal × Gc
delete_each disk o [] g = (finished, g)
delete_each disk o (p ∷ ps) g =
    if member p g.dead
    then delete_each disk o ps g
    else (let g' : Gc = record g { dead = set_insert p g.dead } in
        if should_delete o
        then and_then (delete_path disk o p g') (delete_each disk o ps)
        else delete_each disk o ps g')

unfoldable pub references_in : Db → StorePath → List StorePath
references_in db p = elim (find_info p db.valid_paths) [ none ↦ [] | some i ↦ i.references ]

-- `topoSortPaths` and the loop over its result
unfoldable pub delete_sorted :
    Disk → Options → Result TopoSort.Failure (List StorePath) → Gc → Signal × Gc
delete_sorted disk o (ok sorted) g = delete_each disk o sorted g
delete_sorted disk o (err e) g = (thrown (cycle_in_references e), g)

unfoldable pub delete_visited : Disk → Options → Verdict → Gc → Signal × Gc
unfolding references_in
delete_visited disk o kept g = (finished, g)
delete_visited disk o stuck g = (thrown no_rounds_left, g)
delete_visited disk o (doomed visited) g =
    delete_sorted disk o (topo_sort visited (references_in g.db)) g

-- `maybeDeleteReferrersClosure`; `releasePending` runs on every exit.
unfoldable pub maybe_delete_referrers_closure :
    ℕ → List StorePath → Disk → Options → StorePath → Gc → Signal × Gc
maybe_delete_referrers_closure rounds roots disk o start g =
    let (verdict, g') = visit rounds roots o start (start ∷ [], start ∷ []) g in
    let (signal, g'') = delete_visited disk o verdict g' in (signal, reset_pending g'')
