-- ===== src/ComputeClosure/Measure.antt =====
-- A bound on the number of steps that a run of the traversal has left.
use nixstore_arch.Prelude.{
  ℕ, ◌+◌, ◌-◌, ◌*◌, ◌≤◌, ◌<◌, ◌≡◌, ◌∙◌, ap, refl, ◌==◌, ltb, true, false, Bytes, List, [], ◌∷◌,
  ◌++◌, length, length-append, member, All, none, some, Result, ok, err, arith,
}
use nixstore_arch.TopoSort.Complete.{unvisited, unvisited-lt, unvisited-le}
use nixstore_arch.ComputeClosure.{
  Traversal, initial, max_concurrent, complete, fail, spawn_worker, admit, enqueue, enqueue_each,
  complete_if_done, take_next, on_work_done, finish, start, Step, finished, spawned, Run, here,
  later,
}
use nixstore_arch.ComputeClosure.Balance.{if_cases, enqueue_cases}

-- The nodes that `get_edges` leads to stand in a list.
abbrev pub IsWithin : {E : Type 0} → (Bytes → Result E (List Bytes)) → List Bytes → Type 0
IsWithin get_edges universe =
    (elt : Bytes) (elts : List Bytes)
    → get_edges elt ≡ ok elts
    → All (λ q. member q universe ≡ true) elts

pub length-split :
    {xs : List Bytes} (before : List Bytes) (elt : Bytes) (behind : List Bytes)
    → xs ≡ before ++ elt ∷ behind
    → length xs ≡ length (before ++ behind) + 1
length-split before elt behind e =
    ap length e ∙ omega (arith, length-append before (elt ∷ behind), length-append before behind)

module _ {E : Type 0} where
  -- What is left of a run: a node that is not in the set, one that waits, a call of `spawnWorker` and a
  -- coroutine count for four, three, two and one.
  pub measure : List Bytes → Traversal E → ℕ
  measure universe s =
      4 * unvisited s.res universe + 3 * length s.todo + 2 * length s.spawning + length s.workers

  measure-admit :
      (universe : List Bytes) (elt : Bytes) (s : Traversal E)
      → member elt universe ≡ true
      → member elt s.res ≡ false
      → measure universe (admit elt s) ≤ measure universe s
  unfolding measure admit spawn_worker
  measure-admit universe elt s known new =
      let fewer = unvisited-lt elt s.res universe known new in
      if_cases (λ (t : Traversal E). measure universe t ≤ measure universe s)
        (ltb s.in_flight max_concurrent) _ _
        (λ _. omega (arith, fewer, length-append s.workers (elt ∷ [])))
        (λ _. omega (arith, fewer, length-append s.todo (elt ∷ [])))

  measure-enqueue_each :
      (universe elts : List Bytes) (s : Traversal E)
      → All (λ q. member q universe ≡ true) elts
      → measure universe (enqueue_each elts s) ≤ measure universe s
  unfolding enqueue_each
  measure-enqueue_each universe [] s known = omega arith
  measure-enqueue_each universe (elt ∷ elts) s (one, known) =
      let first : measure universe (enqueue elt s) ≤ measure universe s =
        enqueue_cases (λ t. measure universe t ≤ measure universe s) elt s (omega arith)
          (measure-admit universe elt s one) in
      omega (arith, first, measure-enqueue_each universe elts (enqueue elt s) known)

  measure-complete_if_done :
      (universe : List Bytes) (s : Traversal E)
      → measure universe (complete_if_done s) ≤ measure universe s
  unfolding measure complete_if_done complete
  measure-complete_if_done universe s =
      if_cases (λ (t : Traversal E). measure universe t ≤ measure universe s) (s.pending == 0) _ _
        (λ _. omega arith) (λ _. omega arith)

  measure-take_next :
      (universe todo : List Bytes) (s : Traversal E)
      → s.todo ≡ todo
      → measure universe (take_next todo s) ≤ measure universe s
  unfolding take_next
  measure-take_next universe [] s e = measure-complete_if_done universe s
  measure-take_next universe (next ∷ todo) s e =
      let longer : length s.todo ≡ length todo + 1 = ap length e ∙ omega arith in
      let dropped = record s { pending = s.pending - length s.todo; todo = [] } in
      elim s.error
        as (λ x.
          measure universe (elim x [
            | none ↦ record s { todo = todo; spawning = s.spawning ++ next ∷ [] }
            | some ex ↦ complete_if_done dropped
          ])
          ≤ measure universe s) [
            | some ex ↦
                let less : measure universe dropped ≤ measure universe s =
                  unfold measure in omega arith in
                omega (arith, less, measure-complete_if_done universe dropped)
            | none ↦ unfold measure in omega (arith, longer, length-append s.spawning (next ∷ []))
          ]

  measure-on_work_done :
      (universe : List Bytes) (s : Traversal E)
      → measure universe (on_work_done s) ≤ measure universe s
  unfolding on_work_done
  measure-on_work_done universe s =
      let s' = record s { in_flight = s.in_flight - 1; pending = s.pending - 1 } in
      let same : measure universe s' ≡ measure universe s = unfold measure in refl in
      omega (arith, same, measure-take_next universe s.todo s' refl)

  measure-finish :
      (get_edges : Bytes → Result E (List Bytes)) (universe : List Bytes) (elt : Bytes)
      (s : Traversal E)
      → IsWithin get_edges universe
      → measure universe (finish get_edges elt s) ≤ measure universe s
  unfolding finish
  measure-finish get_edges universe elt s within =
      (elim (get_edges elt)
          as (λ x.
            get_edges elt ≡ x
            → measure universe (elim x [
              | ok elts ↦ on_work_done (enqueue_each elts s)
              | err ex ↦ on_work_done (fail ex s)
            ])
              ≤ measure universe s) [
                | ok elts ↦ λ e. omega (
                  arith,
                  measure-on_work_done universe (enqueue_each elts s),
                  measure-enqueue_each universe elts s (within elt elts e),
                )
                | err ex ↦ λ _. omega (arith, measure-on_work_done universe (fail ex s), failed ex)
              ])
        refl
    where
      failed : (ex : E) → measure universe (fail ex s) ≤ measure universe s
      failed ex =
          unfold fail in
          elim s.error
            as (λ x.
              measure universe (elim x [ some e ↦ s | none ↦ record s { error = some ex } ])
              ≤ measure universe s) [ some e ↦ omega arith | none ↦ unfold measure in omega arith ]

  measure-Step :
      {get_edges : Bytes → Result E (List Bytes)} {s t : Traversal E} (universe : List Bytes)
      → IsWithin get_edges universe
      → Step get_edges s t
      → measure universe t < measure universe s
  measure-Step {get_edges} {s} universe within (finished before elt behind e) =
      let rest = record s { workers = before ++ behind } in
      let one : measure universe s ≡ measure universe rest + 1 =
        unfold measure in omega (arith, length-split before elt behind e) in
      omega (arith, one, measure-finish get_edges universe elt rest within)
  measure-Step {get_edges} {s} universe within (spawned before elt behind e) =
      unfold measure spawn_worker in
      omega (arith, length-split before elt behind e, length-append s.workers (elt ∷ []))

  pub measure-Run :
      {get_edges : Bytes → Result E (List Bytes)} {s t : Traversal E} {n : ℕ}
      (universe : List Bytes)
      → IsWithin get_edges universe
      → Run get_edges s n t
      → n + measure universe t ≤ measure universe s
  measure-Run universe within here = omega arith
  measure-Run universe within (later run step) =
      omega (arith, measure-Run universe within run, measure-Step universe within step)

pub measure-start :
    (E : Type 0) (universe elts : List Bytes)
    → All (λ q. member q universe ≡ true) elts
    → measure universe (start {E = E} elts) ≤ 4 * length universe
unfolding start measure complete initial
measure-start E universe [] known = omega (arith, unvisited-le [] universe)
measure-start E universe (elt ∷ elts) known =
    let empty : measure universe (initial {E = E}) ≤ 4 * length universe =
      omega (arith, unvisited-le [] universe) in
    omega (arith, empty, measure-enqueue_each universe (elt ∷ elts) (initial {E = E}) known)
