-- ===== src/Gc/Closure.antt =====
-- `computeFSClosure` in the direction of the references (src/libstore/misc.cc), with a worklist in place
-- of the coroutines of `computeClosure`, which ComputeClosure models: the collector needs no more than
-- the set or the exception that the handler gets.
use nixstore_arch.Prelude.{
  ℕ, zero, suc, Bool, ◌&&◌, List, [], ◌∷◌, ◌++◌, length, member, set_insert, set_erase,
  if◌then◌else◌, Option, none, some, Result, ok, err,
}
use nixstore_arch.LocalStore.{StorePath, ValidPathInfo, Db, find_info, is_valid_path}

-- `enqueue`: a path that is in the set already is not visited again.
unfoldable pub enqueue_all :
    List StorePath → List StorePath × List StorePath → List StorePath × List StorePath
enqueue_all [] q = q
enqueue_all (p ∷ ps) q =
    enqueue_all ps (if member p q.0 then q else (set_insert p q.0, q.1 ++ p ∷ []))

unfoldable pub deriver_of : Db → Bool → ValidPathInfo → List StorePath
deriver_of db include_derivers i = elim i.deriver [
  | none ↦ []
  | some d ↦ if include_derivers && is_valid_path db d then d ∷ [] else []
]

-- `queryDeps`; `none` is `InvalidPath`.
unfoldable pub query_deps : Db → Bool → StorePath → Option (List StorePath)
unfolding deriver_of
query_deps db include_derivers p = elim (find_info p db.valid_paths) [
  | none ↦ none
  | some i ↦ some (set_erase p i.references ++ deriver_of db include_derivers i)
]

-- `InvalidPath`; `unfinished` is no exception of the program: the rounds of the model ran out.
pub data ClosureError : Type 0 where
  invalid : StorePath → ClosureError
  unfinished : ClosureError

-- `computeClosure` until it is done, where a round takes one path from the queue. An exception drops
-- the closure.
unfoldable pub closure_loop :
    ℕ → Db → Bool → List StorePath × List StorePath → Result ClosureError (List StorePath)
closure_loop zero db d q = err unfinished
closure_loop (suc fuel) db d (seen, []) = ok seen
closure_loop (suc fuel) db d (seen, p ∷ todo) = elim (query_deps db d p) [
  | none ↦ err (invalid p)
  | some ps ↦ closure_loop fuel db d (enqueue_all ps (seen, todo))
]

-- Every round takes a path that was not taken before, and all but the last a valid one.
unfoldable pub compute_fs_closure : Db → Bool → StorePath → Result ClosureError (List StorePath)
compute_fs_closure db d p = closure_loop (suc (suc (length db.valid_paths))) db d (p ∷ [], p ∷ [])
