-- ===== src/ComputeClosure.antt =====
-- src/libutil/include/nix/util/closure.hh: `computeClosure`, the traversal of a graph by coroutines that
-- an executor runs one at a time. An event of the executor is a step; the steps come in any order.
pub mod Balance
pub mod Measure
pub mod Ends
pub mod Grown
pub mod Explored
pub mod Kept
pub mod Reached
mod Tests
use nixstore_arch.Prelude.{
  ℕ, ◌+◌, ◌-◌, ◌≡◌, ◌==◌, ltb, Bool, true, false, Bytes, List, [], ◌∷◌, ◌++◌, length, member,
  set_insert, if◌then◌else◌, Option, none, some, Result, ok, err,
}

-- `State`. `workers` are the coroutines in flight, each for one node, and `spawning` are the nodes of
-- the calls of `spawnWorker` that `onWorkDone` posted; `completions` are the calls of the handler that
-- `complete` posted, the last one first.
pub record Traversal (E : Type 0) : Type 0 where
  pub res : List Bytes
  pub pending : ℕ
  pub in_flight : ℕ
  pub todo : List Bytes
  pub error : Option E
  pub workers : List Bytes
  pub spawning : List Bytes
  pub completions : List (Option E)

-- `maxConcurrent`
abbrev pub max_concurrent : ℕ
max_concurrent = 1024

module _ {E : Type 0} where
  unfoldable pub initial : Traversal E
  initial = record {
    res = [];
    pending = 0;
    in_flight = 0;
    todo = [];
    error = none;
    workers = [];
    spawning = [];
    completions = [];
  }

  unfoldable pub complete : Option E → Traversal E → Traversal E
  complete ex s = record s { completions = ex ∷ s.completions }

  -- The first exception stays.
  unfoldable pub fail : E → Traversal E → Traversal E
  fail ex s = elim s.error [ some e ↦ s | none ↦ record s { error = some ex } ]

  unfoldable pub spawn_worker : Bytes → Traversal E → Traversal E
  spawn_worker elt s = record s { in_flight = s.in_flight + 1; workers = s.workers ++ elt ∷ [] }

  -- What `enqueue` does with a node that was not in the set.
  unfoldable pub admit : Bytes → Traversal E → Traversal E
  admit elt s =
      let s' = record s { res = set_insert elt s.res; pending = s.pending + 1 } in
      if ltb s.in_flight max_concurrent
      then spawn_worker elt s'
      else record s' { todo = s.todo ++ elt ∷ [] }

  unfoldable pub enqueue : Bytes → Traversal E → Traversal E
  enqueue elt s = elim s.error [ some e ↦ s | none ↦ if member elt s.res then s else admit elt s ]

  -- `enqueue` of a set
  unfoldable pub enqueue_each : List Bytes → Traversal E → Traversal E
  enqueue_each [] s = s
  enqueue_each (elt ∷ elts) s = enqueue_each elts (enqueue elt s)

  unfoldable pub complete_if_done : Traversal E → Traversal E
  complete_if_done s = if s.pending == 0 then complete s.error s else s

  -- The branches of `onWorkDone`, behind the two decrements.
  unfoldable pub take_next : List Bytes → Traversal E → Traversal E
  take_next [] s = complete_if_done s
  take_next (next ∷ todo) s = elim s.error [
    | none ↦ record s { todo = todo; spawning = s.spawning ++ next ∷ [] }
    | some e ↦ complete_if_done (record s { pending = s.pending - length s.todo; todo = [] })
  ]

  unfoldable pub on_work_done : Traversal E → Traversal E
  on_work_done s =
      take_next s.todo (record s { in_flight = s.in_flight - 1; pending = s.pending - 1 })

  -- What a coroutine does when it has the edges of its node, or the exception.
  unfoldable pub finish : (Bytes → Result E (List Bytes)) → Bytes → Traversal E → Traversal E
  finish get_edges elt s = elim (get_edges elt) [
    | ok elts ↦ on_work_done (enqueue_each elts s)
    | err ex ↦ on_work_done (fail ex s)
  ]

  -- `computeClosure`, with the call of `enqueue` that it posts.
  unfoldable pub start : List Bytes → Traversal E
  start [] = complete none initial
  start (elt ∷ elts) = enqueue_each (elt ∷ elts) initial

-- The executor resumes a coroutine whose edges have come, or runs a call of `spawnWorker`.
pub data Step {E : Type 0} (get_edges : Bytes → Result E (List Bytes)) (s : Traversal E)
    : Traversal E → Type 0 where
  finished :
      (before : List Bytes) (elt : Bytes) (behind : List Bytes)
      → s.workers ≡ before ++ elt ∷ behind
      → Step get_edges s (finish get_edges elt (record s { workers = before ++ behind }))
  spawned :
      (before : List Bytes) (elt : Bytes) (behind : List Bytes)
      → s.spawning ≡ before ++ elt ∷ behind
      → Step get_edges s (spawn_worker elt (record s { spawning = before ++ behind }))

-- A run of some steps.
pub data Run {E : Type 0} (get_edges : Bytes → Result E (List Bytes)) (s : Traversal E)
    : ℕ → Traversal E → Type 0 where
  here : Run get_edges s 0 s
  later :
      {n : ℕ} {t u : Traversal E}
      → Run get_edges s n t
      → Step get_edges t u
      → Run get_edges s (n + 1) u
