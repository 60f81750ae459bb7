-- ===== src/Gc/State.antt =====
-- Options and state of a collection.
use nixstore_arch.Prelude.{ℕ, Bool, true, false, List, [], ◌∷◌, Bytes, set_insert, Option, none}
use nixstore_arch.TopoSort
use nixstore_arch.LocalStore.{StorePath, Db, StoreError}

-- `GCAction`
pub data Action : Type 0 where
  return_live return_dead delete_dead delete_specific : Action

-- `GCPaths`; `SpecificPaths` with `deleteReferrers`
pub data PathsToDelete : Type 0 where
  whole_store : PathsToDelete
  specific_paths : List StorePath → Bool → PathsToDelete

-- `GCOptions`, and of the settings `keep-outputs` and `keep-derivations`
pub record Options : Type 0 where
  pub action : Action
  pub paths_to_delete : PathsToDelete
  pub max_freed : ℕ
  pub keep_outputs : Bool
  pub keep_derivations : Bool

-- What the file system answers.
pub record Disk : Type 0 where
  pub size_of : Bytes → ℕ
  pub tmp_locked : Bytes → Bool

unfoldable pub should_delete : Options → Bool
should_delete o = elim o.action [ delete_dead ↦ true | delete_specific ↦ true | _ ↦ false ]

-- The database, the sets that `collectGarbage` captures, and
-- `Shared`. `deleted` and `bytes_freed` are the results.
pub record Gc : Type 0 where
  pub db : Db
  pub dead : List StorePath
  pub alive : List StorePath
  pub referrers_cache : List (StorePath × List StorePath)
  pub temp_roots : List Bytes
  pub pending : Option Bytes
  pub arrivals : List (List Bytes)
  pub deleted : List Bytes
  pub bytes_freed : ℕ

unfoldable pub insert_all : List Bytes → List Bytes → List Bytes
insert_all [] m = m
insert_all (h ∷ hs) m = insert_all hs (set_insert h m)

-- `_shared.lock()`: the clients that held the lock before have put their roots in.
unfoldable pub lock_shared : Gc → Gc
lock_shared g = elim g.arrivals [
  | [] ↦ g
  | hs ∷ rest ↦ record g { temp_roots = insert_all hs g.temp_roots; arrivals = rest }
]

unfoldable pub reset_pending : Gc → Gc
reset_pending g = record g { pending = none }

unfoldable pub add_alive : StorePath → Gc → Gc
add_alive p g = record g { alive = set_insert p g.alive }

-- `Error`, as `collectGarbage` throws it or lets it through; `no_rounds_left` is no exception of the
-- program.
pub data GcError : Type 0 where
  store_error : StoreError → GcError
  cycle_in_references : TopoSort.Failure → GcError
  still_alive : StorePath → GcError
  cannot_delete_store no_rounds_left : GcError

-- How a piece of code ends; `limit_reached` is the exception `GCLimitReached`.
pub data Signal : Type 0 where
  finished limit_reached : Signal
  thrown : GcError → Signal

unfoldable pub and_then : Signal × Gc → (Gc → Signal × Gc) → Signal × Gc
and_then (finished, g) next = next g
and_then (limit_reached, g) next = (limit_reached, g)
and_then (thrown e, g) next = (thrown e, g)
