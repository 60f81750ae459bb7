-- ===== src/ComputeClosure/Ends.antt =====
-- Theorems on the end of the traversal: it has a bounded number of steps, and the handler is called
-- once, when none is left.
use nixstore_arch.Prelude.{
  ℕ, ◌+◌, ◌*◌, ◌≤◌, ◌<◌, ◌≡◌, ◌∙◌, ◌↔◌, ◌⊎◌, ap, refl, ◌==◌, ltb, true, false, Bool-cases, inl, inr,
  Bytes, List, [], ◌∷◌, ◌++◌, length, length-append, member, All, Result, arith,
}
use nixstore_arch.ComputeClosure.{
  Traversal, initial, max_concurrent, complete, spawn_worker, admit, enqueue, enqueue_each, start,
  Step, finished, spawned, Run, here, later,
}
use nixstore_arch.ComputeClosure.Measure.{IsWithin, length-split, measure-Run, measure-start}
use nixstore_arch.ComputeClosure.Balance.{
  if_cases, enqueue_cases, enqueue_each-IsCounted, IsBalanced, finish-IsBalanced,
}

first_of :
    (xs : List Bytes) → (xs ≡ []) ⊎ ((elt : Bytes) × (behind : List Bytes) × (xs ≡ elt ∷ behind))
first_of [] = inl refl
first_of (elt ∷ behind) = inr (elt, behind, refl)

pub emptied : (xs : List Bytes) → length xs ≡ 0 → xs ≡ []
emptied [] e = refl
emptied (elt ∷ behind) e = absurd (omega (arith, e))

first_pending : (E : Type 0) (elt : Bytes) → (enqueue elt (initial {E = E})).pending ≡ 1
unfolding enqueue initial admit spawn_worker member
first_pending E elt = refl

module _ {E : Type 0} where
  pending-enqueue_each :
      (elts : List Bytes) (s : Traversal E) → s.pending ≤ (enqueue_each elts s).pending
  unfolding enqueue_each admit spawn_worker
  pending-enqueue_each [] s = omega arith
  pending-enqueue_each (elt ∷ elts) s =
      omega (arith, pending-enqueue_each elts (enqueue elt s), one)
    where
      admitted : s.pending ≤ (admit elt s).pending
      admitted =
          if_cases (λ (t : Traversal E). s.pending ≤ t.pending) (ltb s.in_flight max_concurrent) _ _
            (λ _. omega arith) (λ _. omega arith)

      one : s.pending ≤ (enqueue elt s).pending
      one = enqueue_cases (λ t. s.pending ≤ t.pending) elt s (omega arith) (λ _. admitted)

  pub start-IsBalanced : (elts : List Bytes) → IsBalanced (start {E = E} elts)
  unfolding start
  start-IsBalanced [] =
      unfold initial complete in
      record {
        flying = refl;
        all = refl;
        taken = λ some_wait. absurd (omega (arith, some_wait));
        completed = refl;
      }
  start-IsBalanced (elt ∷ elts) =
      let counted = enqueue_each-IsCounted 0 (elt ∷ elts) (initial {E = E}) (
        unfold initial in
        record {
          flying = refl;
          all = refl;
          taken = λ some_wait. absurd (omega (arith, some_wait));
          silent = refl;
        }) in
      let many : ((enqueue_each (elt ∷ elts) (initial {E = E})).pending == 0) ≡ false =
        unfold enqueue_each in
        ground
          (arith, pending-enqueue_each elts (enqueue elt (initial {E = E})), first_pending E elt) in
      record {
        flying = omega (arith, counted.flying);
        all = omega (arith, counted.all);
        taken = λ some_wait. omega (arith, counted.taken some_wait);
        completed = rw (many, counted.silent) refl;
      }

  pending-completions : (s : Traversal E) → IsBalanced s → 0 < s.pending → s.completions ≡ []
  pending-completions s h some_left =
      let many : (s.pending == 0) ≡ false = ground arith in h.completed ∙ rw many refl

  Step-IsBalanced :
      {get_edges : Bytes → Result E (List Bytes)} {s t : Traversal E}
      → Step get_edges s t
      → IsBalanced s
      → IsBalanced t
  unfolding spawn_worker
  Step-IsBalanced {get_edges} {s} (finished before elt behind e) h =
      let one = length-split before elt behind e in
      finish-IsBalanced get_edges elt (record s { workers = before ++ behind })
        record {
          flying = omega (arith, h.flying, one);
          all = omega (arith, h.all, one);
          taken = λ _. omega arith;
          silent = pending-completions s h (omega (arith, h.all, one));
        }
  Step-IsBalanced {get_edges} {s} (spawned before elt behind e) h =
      let one = length-split before elt behind e in
      let some_left : 0 < s.pending = omega (arith, h.all, one) in
      let many : (s.pending == 0) ≡ false = ground arith in
      record {
        flying = omega (arith, h.flying, length-append s.workers (elt ∷ []));
        all = omega (arith, h.all, one, length-append s.workers (elt ∷ []));
        taken = λ _. omega (arith, length-append s.workers (elt ∷ []));
        completed = rw many (pending-completions s h some_left);
      }

  pub Run-IsBalanced :
      {get_edges : Bytes → Result E (List Bytes)} {s t : Traversal E} {n : ℕ}
      → Run get_edges s n t
      → IsBalanced s
      → IsBalanced t
  Run-IsBalanced here h = h
  Run-IsBalanced (later run step) h = Step-IsBalanced step (Run-IsBalanced run h)

module _ {E : Type 0} where
  some_event :
      (get_edges : Bytes → Result E (List Bytes)) (s : Traversal E)
      → 0 < length s.workers + length s.spawning
      → (t : Traversal E) × Step get_edges s t
  some_event get_edges s some_left = elim (first_of s.workers) [
    | inr (elt, behind, e) ↦ (_, finished [] elt behind e)
    | inl idle ↦ elim (first_of s.spawning) [
      | inr (elt, behind, e) ↦ (_, spawned [] elt behind e)
      | inl none_posted ↦ absurd (omega (arith, some_left, ap length idle, ap length none_posted))
    ]
  ]

  Step-some_left :
      {get_edges : Bytes → Result E (List Bytes)} {s t : Traversal E}
      → Step get_edges s t
      → 0 < length s.workers + length s.spawning
  Step-some_left (finished before elt behind e) = omega (arith, length-split before elt behind e)
  Step-some_left (spawned before elt behind e) = omega (arith, length-split before elt behind e)

  silent_iff :
      (s : Traversal E)
      → IsBalanced s
      → (s.completions ≡ []) ↔ (0 < length s.workers + length s.spawning)
  silent_iff s h = elim (Bool-cases (s.pending == 0)) [
    | inl done ↦
        let called : s.completions ≡ s.error ∷ [] = h.completed ∙ rw done refl in
        (λ silent. cc, λ some_left. absurd (ground (arith, h.all)))
    | inr more ↦ (
      λ _. elim (Bool-cases (length s.todo == 0)) [
        | inl none_wait ↦ ground (arith, h.all)
        | inr some_wait ↦ h.taken (ground arith)
      ],
      λ _. h.completed ∙ rw more refl,
    )
  ]

  -- The end of a run, without what it found.
  pub compute_closure_ends :
      {get_edges : Bytes → Result E (List Bytes)} {s : Traversal E} {n : ℕ}
      (universe elts : List Bytes)
      → IsWithin get_edges universe
      → All (λ q. member q universe ≡ true) elts
      → Run get_edges (start elts) n s
      → (n ≤ 4 * length universe)
        × (((t : Traversal E) × Step get_edges s t) ↔ (s.completions ≡ []))
        × ((s.completions ≡ [])
            ⊎ ((s.completions ≡ s.error ∷ [])
                × (s.in_flight ≡ 0)
                × (s.todo ≡ [])
                × (s.pending ≡ 0)))
  compute_closure_ends {get_edges} {s} universe elts within known run =
      let h = Run-IsBalanced run (start-IsBalanced elts) in
      let silent = silent_iff s h in
      (
        omega (arith, measure-Run universe within run, measure-start E universe elts known),
        (λ (t, step). silent.1 (Step-some_left step), λ e. some_event get_edges s (silent.0 e)),
        (elim (Bool-cases (s.pending == 0)) [
          | inl done ↦ inr (
            h.completed ∙ rw done refl,
            ground (arith, h.flying, h.all),
            emptied s.todo (ground (arith, h.all)),
            ground arith,
          )
          | inr more ↦ inl (h.completed ∙ rw more refl)
        ]),
      )
