-- ===== src/Gc/Collect.antt =====
-- `collectGarbage`, from the roots to the results; the links that nothing uses are left out.
use nixstore_arch.Prelude.{
  ℕ, suc, Bool, true, false, not, ◌&&◌, ◌||◌, List, [], ◌∷◌, Bytes, bytes_eq, codes, length, ◌==◌,
  member, if◌then◌else◌, ok, err,
}
use nixstore_arch.LocalStore.{StorePath}
use nixstore_arch.StorePath.{store_path}
use nixstore_arch.Gc.State.{
  Action, return_live, return_dead, delete_specific, PathsToDelete, whole_store, specific_paths,
  Options, Disk, insert_all, Gc, still_alive, cannot_delete_store, Signal, finished, thrown,
  and_then,
}
use nixstore_arch.Gc.Sweep.{delete_from_store, maybe_delete_referrers_closure}

unfoldable pub is_delete_specific : Action → Bool
is_delete_specific delete_specific = true
is_delete_specific _ = false

module _ (rounds : ℕ) (roots : List StorePath) (disk : Disk) (o : Options) where
  unfoldable pub check_specific : StorePath → Gc → Signal × Gc
  unfolding is_delete_specific
  check_specific p g =
      if is_delete_specific o.action && not (member p g.dead)
      then (thrown (still_alive p), g)
      else (finished, g)

  unfoldable pub collect_specific : List StorePath → Gc → Signal × Gc
  unfolding check_specific
  collect_specific [] g = (finished, g)
  collect_specific (p ∷ ps) g =
      and_then (maybe_delete_referrers_closure rounds roots disk o p g)
        λ g'. and_then (check_specific p g') (collect_specific ps)

  -- A name in the store directory that is no base name of a store object is garbage.
  unfoldable pub collect_name : Bytes → Gc → Signal × Gc
  collect_name name g =
      if bytes_eq name (codes ".") || (bytes_eq name (codes "..") || bytes_eq name (codes ".links"))
      then (finished, g)
      else elim (store_path name) [
        | ok p ↦ maybe_delete_referrers_closure rounds roots disk o p g
        | err e ↦ delete_from_store disk o name g
      ]

  unfoldable pub collect_listing : List Bytes → Gc → Signal × Gc
  collect_listing [] g = (finished, g)
  collect_listing (name ∷ names) g = and_then (collect_name name g) (collect_listing names)

  unfoldable pub collect_store : List Bytes → Gc → Signal × Gc
  unfolding is_delete_specific
  collect_store names g =
      if o.max_freed == 0
      then (finished, g)
      else if is_delete_specific o.action
      then (thrown cannot_delete_store, g)
      else collect_listing names g

  unfoldable pub collect_paths : PathsToDelete → List Bytes → Gc → Signal × Gc
  collect_paths whole_store names g = collect_store names g
  collect_paths (specific_paths paths delete_referrers) names g = collect_specific paths g

-- `results.paths` for the actions that delete nothing
unfoldable pub report : Action → Gc → Gc
unfolding insert_all
report return_live g = record g { deleted = insert_all g.alive g.deleted }
report return_dead g = record g { deleted = insert_all g.dead g.deleted }
report _ g = g

-- `catch (GCLimitReached &)`
unfoldable pub finish : Action → Signal × Gc → Signal × Gc
finish action (thrown e, g) = (thrown e, g)
finish action (_, g) = (finished, report action g)

-- There is nothing to do for an empty set of paths.
unfoldable pub collect_wanted :
    ℕ → List StorePath → Disk → Options → PathsToDelete → List Bytes → Gc → Signal × Gc
collect_wanted rounds roots disk o whole_store names g =
    finish o.action (collect_paths rounds roots disk o whole_store names g)
collect_wanted rounds roots disk o (specific_paths [] delete_referrers) names g = (finished, g)
collect_wanted rounds roots disk o (specific_paths (p ∷ ps) delete_referrers) names g =
    finish o.action
      (collect_paths rounds roots disk o (specific_paths (p ∷ ps) delete_referrers) names g)

-- `collectGarbage`, for the roots found (none with `ignoreLiveness`, but for the temporary ones) and
-- the names in the store directory; `g` has the temporary roots found and the empty sets. A search
-- visits valid paths and the path that it starts at, each once.
unfoldable pub collect_garbage : List StorePath → Disk → Options → List Bytes → Gc → Signal × Gc
collect_garbage roots disk o names g =
    collect_wanted (suc (suc (suc (length g.db.valid_paths)))) roots disk o o.paths_to_delete names
      g
