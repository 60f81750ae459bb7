-- ===== src/ComputeClosure/Grown.antt =====
-- Lemmas on the set of the traversal, which only grows, and on its error.
use nixstore_arch.Prelude.{
  ℕ, ◌≡◌, ◌∙◌, ap, refl, ◌==◌, ltb, true, Bool-cases, inl, inr, Bytes, bytes_eq, bytes_eq_iff, List,
  [], ◌∷◌, member, member-set_insert, set_insert, if◌then◌else◌, Option-cases, none, some, Result,
  ok, err, arith,
}
use nixstore_arch.ComputeClosure.{
  Traversal, max_concurrent, complete, fail, spawn_worker, admit, enqueue, enqueue_each,
  complete_if_done, take_next, on_work_done, finish, finished, spawned, Run, here, later,
}
use nixstore_arch.ComputeClosure.Balance.{if_cases, enqueue_cases}

module _ {E : Type 0} where
  admit-res : (elt : Bytes) (s : Traversal E) → (admit elt s).res ≡ set_insert elt s.res
  unfolding admit spawn_worker
  admit-res elt s =
      if_cases (λ (t : Traversal E). t.res ≡ set_insert elt s.res) (ltb s.in_flight max_concurrent)
        _ _ (λ _. refl) (λ _. refl)

  admit-error : (elt : Bytes) (s : Traversal E) → (admit elt s).error ≡ s.error
  unfolding admit spawn_worker
  admit-error elt s =
      if_cases (λ (t : Traversal E). t.error ≡ s.error) (ltb s.in_flight max_concurrent) _ _
        (λ _. refl) (λ _. refl)

  enqueue-error : (elt : Bytes) (s : Traversal E) → (enqueue elt s).error ≡ s.error
  enqueue-error elt s = enqueue_cases (λ t. t.error ≡ s.error) elt s refl (λ _. admit-error elt s)

  pub member-admit :
      (q elt : Bytes) (s : Traversal E)
      → member q (admit elt s).res ≡ (if bytes_eq q elt then true else member q s.res)
  member-admit q elt s = ap (member q) (admit-res elt s) ∙ member-set_insert q elt s.res

  enqueue-grows :
      (q elt : Bytes) (s : Traversal E)
      → member q s.res ≡ true
      → member q (enqueue elt s).res ≡ true
  enqueue-grows q elt s m =
      enqueue_cases (λ t. member q t.res ≡ true) elt s m (λ _. ground (arith, member-admit q elt s))

  enqueue_each-grows :
      (q : Bytes) (elts : List Bytes) (s : Traversal E)
      → member q s.res ≡ true
      → member q (enqueue_each elts s).res ≡ true
  unfolding enqueue_each
  enqueue_each-grows q [] s m = m
  enqueue_each-grows q (elt ∷ elts) s m =
      enqueue_each-grows q elts (enqueue elt s) (enqueue-grows q elt s m)

  enqueue_fine :
      (P : Traversal E → Type 0) (elt : Bytes) (s : Traversal E)
      → s.error ≡ none
      → P (if member elt s.res then s else admit elt s)
      → P (enqueue elt s)
  unfolding enqueue
  enqueue_fine P elt s fine h =
      (elim s.error
          as (λ x.
            x ≡ none
            → P (elim x [ some e ↦ s | none ↦ if member elt s.res then s else admit elt s ])) [
              | some e ↦ λ broken. cc
              | none ↦ λ _. h
            ])
        fine

  enqueue-member :
      (elt : Bytes) (s : Traversal E) → s.error ≡ none → member elt (enqueue elt s).res ≡ true
  enqueue-member elt s fine =
      enqueue_fine (λ t. member elt t.res ≡ true) elt s fine
        (if_cases (λ (t : Traversal E). member elt t.res ≡ true) (member elt s.res) s (admit elt s)
          (λ m. m) (λ _. ground (arith, member-admit elt elt s, bytes_eq_iff elt elt)))

  pub enqueue_each-member :
      (q : Bytes) (elts : List Bytes) (s : Traversal E)
      → s.error ≡ none
      → member q elts ≡ true
      → member q (enqueue_each elts s).res ≡ true
  unfolding enqueue_each member
  enqueue_each-member q [] s fine m = cc
  enqueue_each-member q (elt ∷ elts) s fine m = elim (Bool-cases (bytes_eq q elt)) [
    | inl itself ↦
        enqueue_each-grows q elts (enqueue elt s)
          (rw ((bytes_eq_iff q elt).0 itself) (enqueue-member elt s fine))
    | inr other ↦
        enqueue_each-member q elts (enqueue elt s) (enqueue-error elt s ∙ fine) (ground (arith, m))
  ]

  pub enqueue_each-error :
      (elts : List Bytes) (s : Traversal E) → (enqueue_each elts s).error ≡ s.error
  unfolding enqueue_each
  enqueue_each-error [] s = refl
  enqueue_each-error (elt ∷ elts) s = enqueue_each-error elts (enqueue elt s) ∙ enqueue-error elt s

  complete_if_done-res : (s : Traversal E) → (complete_if_done s).res ≡ s.res
  unfolding complete_if_done complete
  complete_if_done-res s =
      if_cases (λ (t : Traversal E). t.res ≡ s.res) (s.pending == 0) _ _ (λ _. refl) (λ _. refl)

  take_next-res : (todo : List Bytes) (s : Traversal E) → (take_next todo s).res ≡ s.res
  unfolding take_next
  take_next-res [] s = complete_if_done-res s
  take_next-res (next ∷ todo) s = elim (Option-cases s.error) [
    | inl fine ↦ rw fine refl
    | inr (e, broken) ↦ rw broken (complete_if_done-res _)
  ]

  on_work_done-res : (s : Traversal E) → (on_work_done s).res ≡ s.res
  unfolding on_work_done
  on_work_done-res s = take_next-res s.todo _

  fail-res : (ex : E) (s : Traversal E) → (fail ex s).res ≡ s.res
  unfolding fail
  fail-res ex s = elim (Option-cases s.error) [
    | inl fine ↦ rw fine refl
    | inr (e, broken) ↦ rw broken refl
  ]

  finish-grows :
      (get_edges : Bytes → Result E (List Bytes)) (q elt : Bytes) (s : Traversal E)
      → member q s.res ≡ true
      → member q (finish get_edges elt s).res ≡ true
  unfolding finish
  finish-grows get_edges q elt s m =
      elim (get_edges elt)
        as (λ x.
          member q (
            Traversal.res (elim x [
              | ok elts ↦ on_work_done (enqueue_each elts s)
              | err ex ↦ on_work_done (fail ex s)
            ]))
          ≡ true) [
            | ok elts ↦ rw (on_work_done-res (enqueue_each elts s)) (enqueue_each-grows q elts s m)
            | err ex ↦ rw (on_work_done-res (fail ex s)) (rw (fail-res ex s) m)
          ]

  pub Run-grows :
      {get_edges : Bytes → Result E (List Bytes)} {s t : Traversal E} {n : ℕ} (q : Bytes)
      → Run get_edges s n t
      → member q s.res ≡ true
      → member q t.res ≡ true
  unfolding spawn_worker
  Run-grows q here m = m
  Run-grows {get_edges} q (later run (finished before elt behind e)) m =
      finish-grows get_edges q elt _ (Run-grows q run m)
  Run-grows q (later run (spawned before elt behind e)) m = Run-grows q run m
