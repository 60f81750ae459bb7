-- ===== src/ComputeClosure/Kept.antt =====
-- Theorems on the steps of the traversal: they keep what its set has to do with the graph.
use nixstore_arch.Prelude.{
  ℕ, ◌≡◌, ◌∙◌, sym, ap, refl, true, Bool-cases, inl, inr, Bytes, bytes_eq, bytes_eq_iff, List, [],
  ◌∷◌, ◌++◌, member, member-append, if◌then◌else◌, none, some, Result, ok, err, arith,
}
use nixstore_arch.ComputeClosure.{
  Traversal, fail, spawn_worker, enqueue_each, on_work_done, finish, Step, finished, spawned, Run,
  here, later,
}
use nixstore_arch.ComputeClosure.Grown.{enqueue_each-member, enqueue_each-error}
use nixstore_arch.ComputeClosure.Explored.{
  IsReachable, along, waits, IsExplored, same, enqueue_each-IsExplored, on_work_done-IsExplored,
}

module _ {E : Type 0} (get_edges : Bytes → Result E (List Bytes)) (starts : List Bytes) where
  taken_out :
      (s : Traversal E) (before : List Bytes) (elt : Bytes) (behind : List Bytes)
      → s.workers ≡ before ++ elt ∷ behind
      → IsExplored get_edges starts [] s
      → IsExplored get_edges starts (elt ∷ []) (record s { workers = before ++ behind })
  unfolding waits member
  taken_out s before elt behind e h =
      let all : (q : Bytes)
          → member q s.workers ≡ (if bytes_eq q elt then true else member q (before ++ behind)) =
        λ q.
          ap (member q) e
          ∙ ground (arith, member-append q before (elt ∷ behind), member-append q before behind) in
      record {
        sound = h.sound;
        waited = λ q w. h.waited q (ground (arith, all q, w));
        closed = λ fine p m. elim (h.closed fine p m) [
          | inl w ↦ elim (Bool-cases (bytes_eq p elt)) [
            | inl itself ↦ inr (inl (rw itself refl))
            | inr other ↦ inl (ground (arith, all p, w))
          ]
          | inr (inl c) ↦ cc
          | inr (inr done) ↦ inr (inr done)
        ];
        failed = h.failed;
      }

  with_edges :
      (s : Traversal E) (elt : Bytes) (ps : List Bytes)
      → get_edges elt ≡ ok ps
      → (s.error ≡ none → (q : Bytes) → member q ps ≡ true → member q s.res ≡ true)
      → IsExplored get_edges starts (elt ∷ []) s
      → IsExplored get_edges starts [] s
  unfolding member
  with_edges s elt ps e inside h = record {
    sound = h.sound;
    waited = h.waited;
    closed = λ fine p m. elim (h.closed fine p m) [
      | inl w ↦ inl w
      | inr (inl c) ↦ elim (Bool-cases (bytes_eq p elt)) [
        | inl itself ↦
            let same' : p ≡ elt = (bytes_eq_iff p elt).0 itself in
            inr (inr (ps, ap get_edges same' ∙ e, inside fine))
        | inr other ↦ cc (rw other at c)
      ]
      | inr (inr done) ↦ inr (inr done)
    ];
    failed = h.failed;
  }

  fail-IsExplored :
      (s : Traversal E) (elt : Bytes) (ex : E)
      → get_edges elt ≡ err ex
      → IsReachable get_edges starts elt
      → IsExplored get_edges starts (elt ∷ []) s
      → IsExplored get_edges starts [] (fail ex s)
  unfolding fail waits
  fail-IsExplored s elt ex e reached h =
      (elim s.error
          as (λ x.
            s.error ≡ x
            → IsExplored get_edges starts []
                (elim x [ some e' ↦ s | none ↦ record s { error = some ex } ])) [
                  | some e' ↦ λ broken. record {
                    sound = h.sound;
                    waited = h.waited;
                    closed = λ fine p m. cc;
                    failed = h.failed;
                  }
                  | none ↦ λ _. record {
                    sound = h.sound;
                    waited = h.waited;
                    closed = λ fine p m. cc;
                    failed = λ e' thrown. (elt, reached, cc);
                  }
                ])
        refl

  finish-IsExplored :
      (elt : Bytes) (s : Traversal E)
      → IsReachable get_edges starts elt
      → IsExplored get_edges starts (elt ∷ []) s
      → IsExplored get_edges starts [] (finish get_edges elt s)
  unfolding finish
  finish-IsExplored elt s reached h =
      (elim (get_edges elt)
          as (λ x.
            get_edges elt ≡ x
            → IsExplored get_edges starts [] (elim x [
              | ok elts ↦ on_work_done (enqueue_each elts s)
              | err ex ↦ on_work_done (fail ex s)
            ])) [
              | ok elts ↦ λ e. on_work_done-IsExplored get_edges starts (enqueue_each elts s) (
                  with_edges (enqueue_each elts s) elt elts e
                    (λ fine q m.
                      enqueue_each-member q elts s (sym (enqueue_each-error elts s) ∙ fine) m)
                    (enqueue_each-IsExplored get_edges starts (elt ∷ []) elts s
                      (λ q m. along reached e m) h))
              | err ex ↦ λ e.
                  on_work_done-IsExplored get_edges starts (fail ex s)
                    (fail-IsExplored s elt ex e reached h)
            ])
        refl

  Step-IsExplored :
      {s t : Traversal E}
      → Step get_edges s t
      → IsExplored get_edges starts [] s
      → IsExplored get_edges starts [] t
  Step-IsExplored {s} (finished before elt behind e) h =
      let flies : waits elt s ≡ true =
        unfold waits in
        let m : member elt s.workers ≡ true =
          ap (member elt) e
          ∙ member-append elt before (elt ∷ behind)
          ∙ (unfold member in ground (arith, bytes_eq_iff elt elt)) in
        rw m refl in
      finish-IsExplored elt _ (h.sound elt (h.waited elt flies)) (taken_out s before elt behind e h)
  Step-IsExplored {s} (spawned before elt behind e) h =
      unfold spawn_worker in
      same get_edges starts [] s _ refl refl
        (λ q.
          let posted : member q s.spawning ≡ member q (before ++ elt ∷ behind) = ap (member q) e in
          unfold waits member in
          ground (
            arith,
            posted,
            member-append q before (elt ∷ behind),
            member-append q before behind,
            member-append q s.workers (elt ∷ []),
          ))
        h

  pub Run-IsExplored :
      {s t : Traversal E} {n : ℕ}
      → Run get_edges s n t
      → IsExplored get_edges starts [] s
      → IsExplored get_edges starts [] t
  Run-IsExplored here h = h
  Run-IsExplored (later run step) h = Step-IsExplored step (Run-IsExplored run h)
