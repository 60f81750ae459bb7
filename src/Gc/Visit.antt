-- ===== src/Gc/Visit.antt =====
-- The first half of `maybeDeleteReferrersClosure`: the search through the referrers.
use nixstore_arch.Prelude.{
  ℕ, zero, suc, Bool, true, false, not, ◌&&◌, List, [], ◌∷◌, ◌++◌, bytes_eq, member, set_insert,
  if◌then◌else◌, Option, none, some, ok, err,
}
use nixstore_arch.LocalStore.{StorePath, Db, is_valid_path, query_referrers, query_valid_derivers}
use nixstore_arch.StorePath.{hash_part}
use nixstore_arch.Gc.State.{
  Options, PathsToDelete, whole_store, specific_paths, Gc, insert_all, lock_shared, add_alive,
}
use nixstore_arch.Gc.Closure.{enqueue_all, compute_fs_closure}

unfoldable pub is_whole_store : PathsToDelete → Bool
is_whole_store whole_store = true
is_whole_store (specific_paths paths deletes) = false

-- `markAlive`
unfoldable pub mark_alive : Options → StorePath → Gc → Gc
unfolding is_whole_store insert_all
mark_alive o p g =
    let derivers = is_whole_store o.paths_to_delete && o.keep_derivations in
    elim (compute_fs_closure g.db derivers p) [
      | err e ↦ record g { alive = set_insert p g.alive }
      | ok closure ↦ record g { alive = insert_all closure (set_insert p g.alive) }
    ]

-- The branches of the loop, in their order.
pub data Check : Type 0 where
  is_alive is_dead is_root not_specified is_temp_root candidate : Check

unfoldable pub not_to_delete : PathsToDelete → StorePath → Bool
not_to_delete whole_store p = false
not_to_delete (specific_paths paths delete_referrers) p =
    if delete_referrers then false else not (member p paths)

unfoldable pub check : List StorePath → Options → StorePath → Gc → Check
unfolding not_to_delete
check roots o p g =
    if member p g.alive
    then is_alive
    else if member p g.dead
    then is_dead
    else if member p roots
    then is_root
    else if not_to_delete o.paths_to_delete p
    then not_specified
    else if member (hash_part p) (lock_shared g).temp_roots
    then is_temp_root
    else candidate

unfoldable pub find_cached : StorePath → List (StorePath × List StorePath) → Option (List StorePath)
find_cached p [] = none
find_cached p ((q, rs) ∷ cache) =
    let rest = find_cached p cache in if bytes_eq p q then some rs else rest

-- `referrersCache`, filled on a miss
unfoldable pub cached_referrers : StorePath → Gc → List StorePath × Gc
unfolding find_cached
cached_referrers p g = elim (find_cached p g.referrers_cache) [
  | some rs ↦ (rs, g)
  | none ↦
      let rs = query_referrers g.db p in
      (rs, record g { referrers_cache = (p, rs) ∷ g.referrers_cache })
]

unfoldable pub derivers_to_visit : Options → Db → StorePath → List StorePath
derivers_to_visit o db p =
    if is_whole_store o.paths_to_delete && o.keep_outputs then query_valid_derivers db p else []

-- What a candidate enqueues, if it is valid.
unfoldable pub valid_neighbours : Options → StorePath → Gc → List StorePath × Gc
unfolding derivers_to_visit is_whole_store
valid_neighbours o p g =
    let (rs, g') = cached_referrers p g in (rs ++ derivers_to_visit o g.db p, g')

unfoldable pub neighbours : Options → StorePath → Gc → List StorePath × Gc
neighbours o p g = if is_valid_path g.db p then valid_neighbours o p g else ([], g)

-- The end of the search: an early return, or all that was visited. `stuck` is no outcome of the
-- program.
pub data Verdict : Type 0 where
  kept stuck : Verdict
  doomed : List StorePath → Verdict

unfoldable pub set_pending : StorePath → Gc → Gc
set_pending p g = record (lock_shared g) { pending = some (hash_part p) }

-- The body of the loop `while (auto path = pop(todo))`, for the path `p` and the rest of the queue;
-- `visit` is the rest of the loop.
unfoldable pub visit_step :
    (visit : List StorePath × List StorePath → Gc → Verdict × Gc)
    → Options
    → StorePath
    → List StorePath
    → StorePath
    → List StorePath
    → Gc
    → Check
    → Verdict × Gc
visit_step visit o start visited p todo g is_alive = (kept, add_alive start g)
visit_step visit o start visited p todo g is_dead = visit (visited, todo) g
visit_step visit o start visited p todo g is_root = (kept, mark_alive o p (add_alive start g))
visit_step visit o start visited p todo g not_specified = (kept, g)
visit_step visit o start visited p todo g is_temp_root =
    (kept, mark_alive o p (add_alive start (lock_shared g)))
visit_step visit o start visited p todo g candidate =
    let (ps, g') = neighbours o p (set_pending p g) in visit (enqueue_all ps (visited, todo)) g'

-- The loop, over `visited` and `todo`, for so many rounds.
unfoldable pub visit :
    ℕ → List StorePath → Options → StorePath → List StorePath × List StorePath → Gc → Verdict × Gc
visit zero roots o start q g = (stuck, g)
visit (suc fuel) roots o start (visited, []) g = (doomed visited, g)
visit (suc fuel) roots o start (visited, p ∷ todo) g =
    visit_step (visit fuel roots o start) o start visited p todo g (check roots o p g)
