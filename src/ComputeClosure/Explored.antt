-- ===== src/ComputeClosure/Explored.antt =====
-- What the set of the traversal has to do with the graph, and that `enqueue` and `onWorkDone` keep it.
use nixstore_arch.Prelude.{
  ◌-◌, ◌≡◌, ◌∙◌, ◌⊎◌, sym, ap, refl, ◌==◌, ltb, Bool, true, Bool-cases, inl, inr, Bytes, bytes_eq,
  bytes_eq_iff, List, [], ◌∷◌, ◌++◌, member, member-append, member-set_insert, set_insert,
  if◌then◌else◌, none, some, Result, ok, err, arith, length,
}
use nixstore_arch.ComputeClosure.{
  Traversal, max_concurrent, complete, spawn_worker, admit, enqueue, enqueue_each, complete_if_done,
  take_next, on_work_done,
}
use nixstore_arch.ComputeClosure.Balance.{if_cases, enqueue_cases}

-- The nodes that one can get to from some nodes along edges.
pub data IsReachable {E : Type 0} (get_edges : Bytes → Result E (List Bytes)) (elts : List Bytes)
    : Bytes → Type 0 where
  begun : {q : Bytes} → member q elts ≡ true → IsReachable get_edges elts q
  along :
      {p q : Bytes} {ps : List Bytes}
      → IsReachable get_edges elts p
      → get_edges p ≡ ok ps
      → member q ps ≡ true
      → IsReachable get_edges elts q

unfoldable pub waits : {E : Type 0} → Bytes → Traversal E → Bool
waits q s =
    if member q s.workers then true else if member q s.spawning then true else member q s.todo

module _ {E : Type 0} (get_edges : Bytes → Result E (List Bytes)) (starts : List Bytes) where
  -- A node of which the edges are in the set.
  abbrev pub IsDone : Traversal E → Bytes → Type 0
  IsDone s p =
      (ps : List Bytes) × (get_edges p ≡ ok ps)
      × ((q : Bytes) → member q ps ≡ true → member q s.res ≡ true)

  -- What the set has to do with the graph, where a coroutine has the edges of the nodes of `current`.
  pub record IsExplored (current : List Bytes) (s : Traversal E) : Type 0 where
    pub sound : (q : Bytes) → member q s.res ≡ true → IsReachable get_edges starts q
    pub waited : (q : Bytes) → waits q s ≡ true → member q s.res ≡ true
    pub closed :
        s.error ≡ none
        → (p : Bytes) → member p s.res ≡ true
        → (waits p s ≡ true) ⊎ ((member p current ≡ true) ⊎ IsDone s p)
    pub failed :
        (e : E)
        → s.error ≡ some e
        → (p : Bytes) × IsReachable get_edges starts p × (get_edges p ≡ err e)

  pub same :
      (current : List Bytes) (s t : Traversal E)
      → t.res ≡ s.res
      → t.error ≡ s.error
      → ((q : Bytes) → waits q t ≡ waits q s)
      → IsExplored current s
      → IsExplored current t
  same current s t res error wait h = record {
    sound = λ q m. h.sound q (rw res at m);
    waited = λ q w. rw res (h.waited q (rw (wait q) at w));
    closed = λ fine p m. rw (wait p, res) (h.closed (rw error at fine) p (rw res at m));
    failed = λ e broken. h.failed e (rw error at broken);
  }

  added :
      (current : List Bytes) (elt : Bytes) (s t : Traversal E)
      → IsReachable get_edges starts elt
      → t.res ≡ set_insert elt s.res
      → t.error ≡ s.error
      → ((q : Bytes) → waits q t ≡ (if bytes_eq q elt then true else waits q s))
      → IsExplored current s
      → IsExplored current t
  added current elt s t reached res error wait h =
      let kept : (q : Bytes) → member q s.res ≡ true → member q t.res ≡ true =
        λ q m. rw res (ground (arith, member-set_insert q elt s.res)) in
      record {
        sound = λ q m. elim (Bool-cases (bytes_eq q elt)) [
          | inl itself ↦ rw ((bytes_eq_iff q elt).0 itself) reached
          | inr other ↦ h.sound q (ground (arith, member-set_insert q elt s.res, rw res at m))
        ];
        waited = λ q w. elim (Bool-cases (bytes_eq q elt)) [
          | inl itself ↦ rw res (ground (arith, member-set_insert q elt s.res))
          | inr other ↦ kept q (h.waited q (ground (arith, wait q)))
        ];
        closed = λ fine p m. elim (Bool-cases (bytes_eq p elt)) [
          | inl itself ↦ inl (ground (arith, wait p))
          | inr other ↦
              elim (h.closed (rw error at fine) p
                (ground (arith, member-set_insert p elt s.res, rw res at m))) [
                  | inl w ↦ inl (ground (arith, wait p))
                  | inr (inl c) ↦ inr (inl c)
                  | inr (inr (ps, e, inside)) ↦ inr (inr (ps, e, λ q m'. kept q (inside q m')))
                ]
        ];
        failed = λ e broken. h.failed e (rw error at broken);
      }

  admit-IsExplored :
      (current : List Bytes) (elt : Bytes) (s : Traversal E)
      → IsReachable get_edges starts elt
      → IsExplored current s
      → IsExplored current (admit elt s)
  unfolding admit spawn_worker waits
  admit-IsExplored current elt s reached h =
      if_cases (IsExplored current) (ltb s.in_flight max_concurrent) _ _
        (λ _.
          added current elt s _ reached refl refl
            (λ q. ground (arith, member-append q s.workers (elt ∷ []), one q)) h)
        (λ _.
          added current elt s _ reached refl refl
            (λ q. ground (arith, member-append q s.todo (elt ∷ []), one q)) h)
    where
      one : (q : Bytes) → member q (elt ∷ []) ≡ bytes_eq q elt
      one q = unfold member in ground arith

  enqueue-IsExplored :
      (current : List Bytes) (elt : Bytes) (s : Traversal E)
      → IsReachable get_edges starts elt
      → IsExplored current s
      → IsExplored current (enqueue elt s)
  enqueue-IsExplored current elt s reached h =
      enqueue_cases (IsExplored current) elt s h (λ _. admit-IsExplored current elt s reached h)

  pub enqueue_each-IsExplored :
      (current elts : List Bytes) (s : Traversal E)
      → ((q : Bytes) → member q elts ≡ true → IsReachable get_edges starts q)
      → IsExplored current s
      → IsExplored current (enqueue_each elts s)
  unfolding enqueue_each member
  enqueue_each-IsExplored current [] s reached h = h
  enqueue_each-IsExplored current (elt ∷ elts) s reached h =
      enqueue_each-IsExplored current elts (enqueue elt s) (λ q m. reached q (ground (arith, m)))
        (enqueue-IsExplored current elt s (reached elt (ground (arith, bytes_eq_iff elt elt))) h)

  complete_if_done-IsExplored :
      (s : Traversal E) → IsExplored [] s → IsExplored [] (complete_if_done s)
  unfolding complete_if_done complete waits
  complete_if_done-IsExplored s h =
      if_cases (IsExplored []) (s.pending == 0) _ _ (λ _. same [] s _ refl refl (λ q. refl) h)
        (λ _. h)

  -- After an exception nothing is promised of the nodes that wait.
  dropped :
      (current : List Bytes) (s t : Traversal E) (e : E)
      → t.res ≡ s.res
      → t.error ≡ some e
      → t.todo ≡ []
      → t.workers ≡ s.workers
      → t.spawning ≡ s.spawning
      → s.error ≡ some e
      → IsExplored current s
      → IsExplored [] t
  unfolding waits member
  dropped current s t e res broken empty workers spawning broken' h = record {
    sound = λ q m. h.sound q (rw res at m);
    waited = λ q w. rw res (h.waited q (ground (arith, rw (empty, workers, spawning) at w)));
    closed = λ fine p m. cc;
    failed = λ e' broken''. h.failed e' (broken' ∙ sym broken ∙ broken'');
  }

  take_next-IsExplored :
      (todo : List Bytes) (s : Traversal E)
      → s.todo ≡ todo
      → IsExplored [] s
      → IsExplored [] (take_next todo s)
  unfolding take_next
  take_next-IsExplored [] s e h = complete_if_done-IsExplored s h
  take_next-IsExplored (next ∷ todo) s e h =
      (elim s.error
          as (λ x.
            s.error ≡ x
            → IsExplored [] (elim x [
              | none ↦ record s { todo = todo; spawning = s.spawning ++ next ∷ [] }
              | some ex ↦
                  complete_if_done (record s { pending = s.pending - length s.todo; todo = [] })
            ])) [
              | some ex ↦ λ broken.
                  complete_if_done-IsExplored _
                    (dropped [] s _ ex refl broken refl refl refl broken h)
              | none ↦ λ fine. same [] s _ refl refl (moved next todo s e) h
            ])
        refl
    where
      moved :
          (next' : Bytes) (todo' : List Bytes) (s' : Traversal E)
          → s'.todo ≡ next' ∷ todo'
          → (q : Bytes)
          → waits q (record s' { todo = todo'; spawning = s'.spawning ++ next' ∷ [] }) ≡ waits q s'
      moved next' todo' s' e' q =
          let head : member q s'.todo ≡ (if bytes_eq q next' then true else member q todo') =
            ap (member q) e' ∙ (unfold member in refl) in
          let one : member q (next' ∷ []) ≡ bytes_eq q next' = unfold member in ground arith in
          unfold waits in ground (arith, head, one, member-append q s'.spawning (next' ∷ []))

  pub on_work_done-IsExplored : (s : Traversal E) → IsExplored [] s → IsExplored [] (on_work_done s)
  unfolding on_work_done waits
  on_work_done-IsExplored s h =
      take_next-IsExplored s.todo _ refl (same [] s _ refl refl (λ q. refl) h)
