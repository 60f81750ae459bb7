-- ===== src/ComputeClosure/Balance.antt =====
-- Theorems on the counters of the traversal, between the events and within one.
use nixstore_arch.Prelude.{
  ℕ, ◌+◌, ◌-◌, ◌<◌, ◌≡◌, ◌∙◌, ap, ◌==◌, ltb, true, false, Bool, refl, Bytes, List, [], ◌∷◌, ◌++◌,
  length, length-append, member, if◌then◌else◌, none, some, Result, ok, err, arith,
}
use nixstore_arch.ComputeClosure.{
  Traversal, max_concurrent, complete, fail, spawn_worker, admit, enqueue, enqueue_each,
  complete_if_done, take_next, on_work_done, finish,
}

pub if_cases :
    {A : Type 0} (P : A → Type 0) (b : Bool) (x y : A)
    → (b ≡ true → P x)
    → (b ≡ false → P y)
    → P (if b then x else y)
if_cases P true x y first second = first refl
if_cases P false x y first second = second refl

module _ {E : Type 0} where
  -- The counters, where `k` coroutines are about to end: a node that waits has a coroutine that will
  -- take it, and the handler was not called.
  pub record IsCounted (k : ℕ) (s : Traversal E) : Type 0 where
    pub flying : s.in_flight ≡ k + length s.workers
    pub all : s.pending ≡ k + length s.workers + length s.spawning + length s.todo
    pub taken : 0 < length s.todo → 0 < k + length s.workers + length s.spawning
    pub silent : s.completions ≡ []

  -- What holds of the branches of an operation holds of what it gives.
  pub enqueue_cases :
      (P : Traversal E → Type 0) (elt : Bytes) (s : Traversal E)
      → P s
      → (member elt s.res ≡ false → P (admit elt s))
      → P (enqueue elt s)
  unfolding enqueue
  enqueue_cases P elt s old new =
      elim s.error
        as (λ x. P (elim x [ some e ↦ s | none ↦ if member elt s.res then s else admit elt s ])) [
          | some e ↦ old
          | none ↦ if_cases P (member elt s.res) s (admit elt s) (λ _. old) new
        ]

  admit-IsCounted :
      (k : ℕ) (elt : Bytes) (s : Traversal E) → IsCounted k s → IsCounted k (admit elt s)
  unfolding admit spawn_worker
  admit-IsCounted k elt s h =
      if_cases (IsCounted k) (ltb s.in_flight max_concurrent) _ _
        (λ room. record {
          flying = omega (arith, h.flying, length-append s.workers (elt ∷ []));
          all = omega (arith, h.all, length-append s.workers (elt ∷ []));
          taken = λ _. omega (arith, length-append s.workers (elt ∷ []));
          silent = h.silent;
        })
        (λ full. record {
          flying = h.flying;
          all = omega (arith, h.all, length-append s.todo (elt ∷ []));
          taken = λ _. ground (arith, h.flying);
          silent = h.silent;
        })

  enqueue-IsCounted :
      (k : ℕ) (elt : Bytes) (s : Traversal E) → IsCounted k s → IsCounted k (enqueue elt s)
  enqueue-IsCounted k elt s h = enqueue_cases (IsCounted k) elt s h (λ _. admit-IsCounted k elt s h)

  pub enqueue_each-IsCounted :
      (k : ℕ) (elts : List Bytes) (s : Traversal E)
      → IsCounted k s
      → IsCounted k (enqueue_each elts s)
  unfolding enqueue_each
  enqueue_each-IsCounted k [] s h = h
  enqueue_each-IsCounted k (elt ∷ elts) s h =
      enqueue_each-IsCounted k elts (enqueue elt s) (enqueue-IsCounted k elt s h)

  fail-IsCounted : (k : ℕ) (ex : E) (s : Traversal E) → IsCounted k s → IsCounted k (fail ex s)
  unfolding fail
  fail-IsCounted k ex s h =
      elim s.error
        as (λ x. IsCounted k (elim x [ some e ↦ s | none ↦ record s { error = some ex } ])) [
          | some e ↦ h
          | none ↦ record { flying = h.flying; all = h.all; taken = h.taken; silent = h.silent }
        ]

  -- The counters between the events: the handler was called, with what `error` holds, exactly if
  -- nothing is pending.
  pub record IsBalanced (s : Traversal E) : Type 0 where
    pub flying : s.in_flight ≡ length s.workers
    pub all : s.pending ≡ length s.workers + length s.spawning + length s.todo
    pub taken : 0 < length s.todo → 0 < length s.workers + length s.spawning
    pub completed : s.completions ≡ (if s.pending == 0 then s.error ∷ [] else [])

  complete_if_done-IsBalanced : (s : Traversal E) → IsCounted 0 s → IsBalanced (complete_if_done s)
  unfolding complete_if_done complete
  complete_if_done-IsBalanced s h =
      if_cases IsBalanced (s.pending == 0) (complete s.error s) s
        (λ done. record {
          flying = omega (arith, h.flying);
          all = omega (arith, h.all);
          taken = λ some_wait. omega (arith, h.taken some_wait);
          completed = rw (done, h.silent) refl;
        })
        (λ more. record {
          flying = omega (arith, h.flying);
          all = omega (arith, h.all);
          taken = λ some_wait. omega (arith, h.taken some_wait);
          completed = rw (more, h.silent) refl;
        })

  take_next-IsBalanced :
      (todo : List Bytes) (s : Traversal E)
      → s.todo ≡ todo
      → s.in_flight ≡ length s.workers
      → s.pending ≡ length s.workers + length s.spawning + length s.todo
      → s.completions ≡ []
      → IsBalanced (take_next todo s)
  unfolding take_next
  take_next-IsBalanced [] s empty flying all silent = complete_if_done-IsBalanced s record {
    flying = omega (arith, flying);
    all = omega (arith, all);
    taken = λ some_wait. absurd (omega (arith, some_wait, ap length empty));
    silent = silent;
  }
  take_next-IsBalanced (next ∷ todo) s waiting flying all silent =
      let longer : length s.todo ≡ length todo + 1 = ap length waiting ∙ omega arith in
      elim s.error
        as (λ x. IsBalanced (elim x [
          | none ↦ record s { todo = todo; spawning = s.spawning ++ next ∷ [] }
          | some e ↦ complete_if_done (record s { pending = s.pending - length s.todo; todo = [] })
        ])) [
          | some e ↦ complete_if_done-IsBalanced _ record {
            flying = omega (arith, flying);
            all = omega (arith, all);
            taken = λ some_wait. absurd (omega (arith, some_wait));
            silent = silent;
          }
          | none ↦ record {
            flying = flying;
            all = omega (arith, all, longer, length-append s.spawning (next ∷ []));
            taken = λ _. omega (arith, length-append s.spawning (next ∷ []));
            completed =
                let many : (s.pending == 0) ≡ false = ground (arith, all, longer) in
                rw (many, silent) refl;
          }
        ]

  on_work_done-IsBalanced : (s : Traversal E) → IsCounted 1 s → IsBalanced (on_work_done s)
  unfolding on_work_done
  on_work_done-IsBalanced s h =
      take_next-IsBalanced s.todo _ refl (omega (arith, h.flying)) (omega (arith, h.all)) h.silent

  pub finish-IsBalanced :
      (get_edges : Bytes → Result E (List Bytes)) (elt : Bytes) (s : Traversal E)
      → IsCounted 1 s
      → IsBalanced (finish get_edges elt s)
  unfolding finish
  finish-IsBalanced get_edges elt s h =
      elim (get_edges elt)
        as (λ x. IsBalanced (elim x [
          | ok elts ↦ on_work_done (enqueue_each elts s)
          | err ex ↦ on_work_done (fail ex s)
        ])) [
          | ok elts ↦
              on_work_done-IsBalanced (enqueue_each elts s) (enqueue_each-IsCounted 1 elts s h)
          | err ex ↦ on_work_done-IsBalanced (fail ex s) (fail-IsCounted 1 ex s h)
        ]
