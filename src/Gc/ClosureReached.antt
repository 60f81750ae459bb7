-- ===== src/Gc/ClosureReached.antt =====
-- Theorems on the set of `computeFSClosure`, and on the answer of `computeClosure`.
use nixstore_arch.Prelude.{
  ℕ, zero, suc, ◌≡◌, ◌⊎◌, ◌∙◌, ap, sym, refl, Bool, true, Bool-cases, inl, inr, bytes_eq,
  bytes_eq_iff, List, [], ◌∷◌, ◌++◌, member, member-append, member-set_insert, set_insert, Option,
  none, some, Result, ok, err, ok-injective, arith,
}
use nixstore_arch.LocalStore.{StorePath, Db}
use nixstore_arch.Gc.Closure.{
  ClosureError, invalid, unfinished, enqueue_all, query_deps, closure_loop, compute_fs_closure,
}
use nixstore_arch.Gc.ClosureEnds.{compute_fs_closure_ends}
use nixstore_arch.ComputeClosure.Explored.{IsReachable, begun, along}
use nixstore_arch.ComputeClosure.Reached.{IsAnswer}

unfoldable deps_or_error :
    StorePath → Option (List StorePath) → Result ClosureError (List StorePath)
deps_or_error p none = err (invalid p)
deps_or_error p (some ps) = ok ps

-- `queryDeps`, as `computeClosure` calls it.
unfoldable edges_of : Db → Bool → StorePath → Result ClosureError (List StorePath)
edges_of db d p = deps_or_error p (query_deps db d p)

edges_of-none :
    (db : Db) (d : Bool) (p : StorePath)
    → query_deps db d p ≡ none
    → edges_of db d p ≡ err (invalid p)
unfolding edges_of deps_or_error
edges_of-none db d p e = ap (deps_or_error p) e

edges_of-some :
    (db : Db) (d : Bool) (p : StorePath) (ps : List StorePath)
    → query_deps db d p ≡ some ps
    → edges_of db d p ≡ ok ps
unfolding edges_of deps_or_error
edges_of-some db d p ps e = ap (deps_or_error p) e

module _ (db : Db) (d : Bool) (starts : List StorePath) where
  abbrev IsDone : List StorePath → StorePath → Type 0
  IsDone seen p =
      (ps : List StorePath) × (edges_of db d p ≡ ok ps)
      × ((q : StorePath) → member q ps ≡ true → member q seen ≡ true)

  -- What the worklist has to do with the graph, where the edges of the nodes of `current` are known.
  record IsVisited (current seen todo : List StorePath) : Type 0 where
    sound : (q : StorePath) → member q seen ≡ true → IsReachable (edges_of db d) starts q
    waited : (q : StorePath) → member q todo ≡ true → member q seen ≡ true
    closed :
        (p : StorePath)
        → member p seen ≡ true
        → (member p todo ≡ true) ⊎ ((member p current ≡ true) ⊎ IsDone seen p)

  added :
      (current seen todo : List StorePath) (elt : StorePath)
      → IsReachable (edges_of db d) starts elt
      → IsVisited current seen todo
      → IsVisited current (set_insert elt seen) (todo ++ elt ∷ [])
  added current seen todo elt reached h =
      let kept : (q : StorePath) → member q seen ≡ true → member q (set_insert elt seen) ≡ true =
        λ q m. ground (arith, member-set_insert q elt seen) in
      let one : (q : StorePath) → member q (elt ∷ []) ≡ bytes_eq q elt =
        λ q. unfold member in ground arith in
      record {
        sound = λ q m. elim (Bool-cases (bytes_eq q elt)) [
          | inl itself ↦ rw ((bytes_eq_iff q elt).0 itself) reached
          | inr other ↦ h.sound q (ground (arith, member-set_insert q elt seen, m))
        ];
        waited = λ q w. elim (Bool-cases (bytes_eq q elt)) [
          | inl itself ↦ ground (arith, member-set_insert q elt seen)
          | inr other ↦
              kept q (h.waited q (ground (arith, member-append q todo (elt ∷ []), one q, w)))
        ];
        closed = λ p m. elim (Bool-cases (bytes_eq p elt)) [
          | inl itself ↦ inl (ground (arith, member-append p todo (elt ∷ []), one p))
          | inr other ↦ elim (h.closed p (ground (arith, member-set_insert p elt seen, m))) [
            | inl w ↦ inl (ground (arith, member-append p todo (elt ∷ []), w))
            | inr (inl c) ↦ inr (inl c)
            | inr (inr (ps, e, inside)) ↦ inr (inr (ps, e, λ q m'. kept q (inside q m')))
          ]
        ];
      }

  enqueue_all-IsVisited :
      (current ps seen todo : List StorePath)
      → ((q : StorePath) → member q ps ≡ true → IsReachable (edges_of db d) starts q)
      → IsVisited current seen todo
      → IsVisited current (enqueue_all ps (seen, todo)).0 (enqueue_all ps (seen, todo)).1
  unfolding enqueue_all member
  enqueue_all-IsVisited current [] seen todo reached h = h
  enqueue_all-IsVisited current (p ∷ ps) seen todo reached h =
      let others : (q : StorePath) → member q ps ≡ true → IsReachable (edges_of db d) starts q =
        λ q m. reached q (ground (arith, m)) in
      elim (Bool-cases (member p seen)) [
        | inl old ↦ rw (old, enqueue_all) (enqueue_all-IsVisited current ps seen todo others h)
        | inr new ↦
            rw (new, enqueue_all)
              (enqueue_all-IsVisited current ps (set_insert p seen) (todo ++ p ∷ []) others
                (added current seen todo p (reached p (ground (arith, bytes_eq_iff p p))) h))
      ]

  grows :
      (q : StorePath) (ps seen todo : List StorePath)
      → member q seen ≡ true
      → member q (enqueue_all ps (seen, todo)).0 ≡ true
  unfolding enqueue_all
  grows q [] seen todo m = m
  grows q (p ∷ ps) seen todo m = elim (Bool-cases (member p seen)) [
    | inl old ↦ rw (old, enqueue_all) (grows q ps seen todo m)
    | inr new ↦
        rw (new, enqueue_all)
          (grows q ps (set_insert p seen) (todo ++ p ∷ [])
            (ground (arith, member-set_insert q p seen)))
  ]

  all_in :
      (q : StorePath) (ps seen todo : List StorePath)
      → member q ps ≡ true
      → member q (enqueue_all ps (seen, todo)).0 ≡ true
  unfolding enqueue_all member
  all_in q [] seen todo m = cc
  all_in q (p ∷ ps) seen todo m = elim (Bool-cases (bytes_eq q p)) [
    | inl itself ↦ rw ((bytes_eq_iff q p).0 itself) (elim (Bool-cases (member p seen)) [
      | inl old ↦ rw (old, enqueue_all) (grows p ps seen todo old)
      | inr new ↦
          rw (new, enqueue_all)
            (grows p ps (set_insert p seen) (todo ++ p ∷ [])
              (ground (arith, member-set_insert p p seen, bytes_eq_iff p p)))
    ])
    | inr other ↦
        let m' : member q ps ≡ true = ground (arith, m) in
        elim (Bool-cases (member p seen)) [
          | inl old ↦ rw (old, enqueue_all) (all_in q ps seen todo m')
          | inr new ↦ rw (new, enqueue_all) (all_in q ps (set_insert p seen) (todo ++ p ∷ []) m')
        ]
  ]

  taken :
      (p : StorePath) (seen todo : List StorePath)
      → IsVisited [] seen (p ∷ todo)
      → IsVisited (p ∷ []) seen todo
  unfolding member
  taken p seen todo h = record {
    sound = h.sound;
    waited = λ q w. h.waited q (ground (arith, w));
    closed = λ q m. elim (h.closed q m) [
      | inl w ↦ elim (Bool-cases (bytes_eq q p)) [
        | inl itself ↦ inr (inl (rw itself refl))
        | inr other ↦ inl (rw other at w)
      ]
      | inr (inl c) ↦ cc
      | inr (inr done) ↦ inr (inr done)
    ];
  }

  with_edges :
      (p : StorePath) (ps seen todo : List StorePath)
      → edges_of db d p ≡ ok ps
      → ((q : StorePath) → member q ps ≡ true → member q seen ≡ true)
      → IsVisited (p ∷ []) seen todo
      → IsVisited [] seen todo
  unfolding member
  with_edges p ps seen todo e inside h = record {
    sound = h.sound;
    waited = h.waited;
    closed = λ q m. elim (h.closed q m) [
      | inl w ↦ inl w
      | inr (inl c) ↦ elim (Bool-cases (bytes_eq q p)) [
        | inl itself ↦ inr (inr (ps, ap (edges_of db d) ((bytes_eq_iff q p).0 itself) ∙ e, inside))
        | inr other ↦ cc (rw other at c)
      ]
      | inr (inr done) ↦ inr (inr done)
    ];
  }

  reached_in :
      (seen : List StorePath)
      → IsVisited [] seen []
      → ((q : StorePath) → member q starts ≡ true → member q seen ≡ true)
      → (q : StorePath) → IsReachable (edges_of db d) starts q
      → member q seen ≡ true
  unfolding member
  reached_in seen h from q (begun m) = from q m
  reached_in seen h from q (along {p} {ps = ps} reached e m) =
      elim (h.closed p (reached_in seen h from p reached)) [
        | inl w ↦ cc
        | inr (inl c) ↦ cc
        | inr (inr (ps', e', inside)) ↦
            let same' : ps ≡ ps' = ok-injective (sym e ∙ e') in inside q (rw (sym same') m)
      ]

  -- What a result of the worklist says, if it has not run out of rounds.
  abbrev IsResult : Result ClosureError (List StorePath) → Type 0
  IsResult (ok set) = IsAnswer (edges_of db d) starts set none
  IsResult (err (invalid q)) = IsAnswer (edges_of db d) starts [] (some (invalid q))
  IsResult (err unfinished) = Unit {0}

  closure_loop-IsResult :
      (fuel : ℕ) (seen todo : List StorePath)
      → IsVisited [] seen todo
      → ((q : StorePath) → member q starts ≡ true → member q seen ≡ true)
      → IsResult (closure_loop fuel db d (seen, todo))
  unfolding closure_loop
  closure_loop-IsResult zero seen todo h from = tt
  closure_loop-IsResult (suc fuel) seen [] h from = λ q. (h.sound q, reached_in seen h from q)
  closure_loop-IsResult (suc fuel) seen (p ∷ todo) h from =
      let reached = h.sound p (h.waited p (unfold member in ground (arith, bytes_eq_iff p p))) in
      (elim (query_deps db d p)
          as (λ x.
            query_deps db d p ≡ x
            → IsResult (elim x [
              | none ↦ err (invalid p)
              | some ps ↦ closure_loop fuel db d (enqueue_all ps (seen, todo))
            ])) [
              | none ↦ λ absent. (p, reached, edges_of-none db d p absent)
              | some ps ↦ λ present.
                  let e : edges_of db d p ≡ ok ps = edges_of-some db d p ps present in
                  let q' = enqueue_all ps (seen, todo) in
                  closure_loop-IsResult fuel q'.0 q'.1
                    (with_edges p ps q'.0 q'.1 e (λ q m. all_in q ps seen todo m)
                      (enqueue_all-IsVisited (p ∷ []) ps seen todo (λ q m. along reached e m)
                        (taken p seen todo h)))
                    (λ q m. grows q ps seen todo (from q m))
            ])
        refl

-- The closure that the collector computes is the answer that `computeClosure` has: it ends with the
-- set of what one can reach from the path, or with a path that is not valid and that one can reach.
compute_fs_closure_lem :
    (db : Db) (include_derivers : Bool) (p : StorePath)
    → ((set : List StorePath) × (compute_fs_closure db include_derivers p ≡ ok set)
        × IsAnswer (edges_of db include_derivers) (p ∷ []) set none)
      ⊎ ((q : StorePath) × (compute_fs_closure db include_derivers p ≡ err (invalid q))
          × IsAnswer (edges_of db include_derivers) (p ∷ []) [] (some (invalid q)))
compute_fs_closure_lem db d p = go (compute_fs_closure db d p) refl (
    unfold compute_fs_closure in
    closure_loop-IsResult db d (p ∷ []) _ (p ∷ []) (p ∷ []) first (λ q m. m))
  where
    first : IsVisited db d (p ∷ []) [] (p ∷ []) (p ∷ [])
    first = record { sound = λ q m. begun m; waited = λ q m. m; closed = λ q m. inl m }

    go :
        (r : Result ClosureError (List StorePath))
        → compute_fs_closure db d p ≡ r
        → IsResult db d (p ∷ []) r
        → ((set : List StorePath) × (compute_fs_closure db d p ≡ ok set)
            × IsAnswer (edges_of db d) (p ∷ []) set none)
          ⊎ ((q : StorePath) × (compute_fs_closure db d p ≡ err (invalid q))
              × IsAnswer (edges_of db d) (p ∷ []) [] (some (invalid q)))
    go (ok set) e h = inl (set, e, h)
    go (err (invalid q)) e h = inr (q, e, h)
    go (err unfinished) e h = absurd (compute_fs_closure_ends db d p e)
