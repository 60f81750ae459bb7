-- ===== src/Gc/ClosureEnds.antt =====
-- Theorems on the number of rounds of `computeFSClosure`.
use nixstore_arch.Prelude.{
  ℕ, zero, suc, ◌+◌, ◌≤◌, ◌<◌, ◌≡◌, ◌≢◌, refl, ap, Bool, true, false, List, [], ◌∷◌, ◌++◌, member,
  length, set_insert, set_erase, if◌then◌else◌, none, Option-cases, err, arith, Bool-cases, inl,
  inr,
}
use nixstore_arch.TopoSort.Complete.{unvisited, unvisited-le, unvisited-lt, unvisited-set_insert}
use nixstore_arch.LocalStore.{StorePath, ValidPathInfo, Db, find_info}
use nixstore_arch.Gc.Closure.{
  enqueue_all, deriver_of, query_deps, unfinished, closure_loop, compute_fs_closure,
}

pub paths_in : List ValidPathInfo → List StorePath
paths_in [] = []
paths_in (i ∷ is) = i.path ∷ paths_in is

pub length-paths_in : (is : List ValidPathInfo) → length (paths_in is) ≡ length is
unfolding paths_in
length-paths_in [] = refl
length-paths_in (i ∷ is) = ap suc (length-paths_in is)

pub member-paths_in :
    (q : StorePath) (is : List ValidPathInfo)
    → find_info q is ≢ none
    → member q (paths_in is) ≡ true
unfolding paths_in find_info member
member-paths_in q [] h = absurd (h refl)
member-paths_in q (i ∷ is) h = ground (arith, member-paths_in q is)

module _ (known : List StorePath) where
  -- The known paths of a queue.
  count : List StorePath → ℕ
  count [] = 0
  count (p ∷ ps) = (if member p known then 1 else 0) + count ps

  count-append :
      (ps : List StorePath) (q : StorePath) → count (ps ++ q ∷ []) ≡ count ps + count (q ∷ [])
  unfolding count
  count-append [] q = omega arith
  count-append (p ∷ ps) q = omega (arith, count-append ps q)

  count-enqueue_all :
      (ps seen todo : List StorePath)
      → unvisited (enqueue_all ps (seen, todo)).0 known + count (enqueue_all ps (seen, todo)).1
        ≤ unvisited seen known + count todo
  unfolding enqueue_all
  count-enqueue_all [] seen todo = omega arith
  count-enqueue_all (p ∷ ps) seen todo = elim (Bool-cases (member p seen)) [
    | inl old ↦ rw (old, enqueue_all) (count-enqueue_all ps seen todo)
    | inr new ↦
        rw (new, enqueue_all)
          (omega (arith, count-enqueue_all ps (set_insert p seen) (todo ++ p ∷ []), added new))
  ]
    where
      added :
          member p seen ≡ false
          → unvisited (set_insert p seen) known + count (todo ++ p ∷ [])
            ≤ unvisited seen known + count todo
      added new = elim (Bool-cases (member p known)) [
        | inl is_known ↦
            let one : count (p ∷ []) ≡ 1 = unfold count in rw is_known refl in
            omega (arith, one, count-append todo p, unvisited-lt p seen known is_known new)
        | inr is_new ↦
            let nothing : count (p ∷ []) ≡ 0 = unfold count in rw is_new refl in
            omega (arith, nothing, count-append todo p, unvisited-set_insert p seen known)
      ]

  closure_loop_ends :
      (fuel : ℕ) (db : Db) (d : Bool) (q : List StorePath × List StorePath)
      → ((p : StorePath) → find_info p db.valid_paths ≢ none → member p known ≡ true)
      → unvisited q.0 known + count q.1 < fuel
      → closure_loop fuel db d q ≢ err unfinished
  unfolding closure_loop query_deps count
  closure_loop_ends zero db d q all lt e = absurd (omega arith)
  closure_loop_ends (suc fuel) db d (seen, []) all lt e = cc
  closure_loop_ends (suc fuel) db d (seen, p ∷ todo) all lt e =
      elim (Option-cases (find_info p db.valid_paths)) [
        | inl absent ↦ let e' = rw (absent, closure_loop, query_deps) at e in cc
        | inr (i, present) ↦
            let is_known : member p known ≡ true = all p (λ f. cc) in
            let deps = set_erase p i.references ++ deriver_of db d i in
            closure_loop_ends fuel db d (enqueue_all deps (seen, todo)) all
              (let fewer : unvisited seen known + (1 + count todo) < suc fuel = rw is_known at lt in
                omega (arith, count-enqueue_all deps seen todo))
              (rw (present, closure_loop, query_deps) at e)
      ]

-- The closure of a path ends with a set or with an invalid path: it never runs out of rounds.
pub compute_fs_closure_ends :
    (db : Db) (include_derivers : Bool) (p : StorePath)
    → compute_fs_closure db include_derivers p ≢ err unfinished
unfolding compute_fs_closure
compute_fs_closure_ends db d p =
    closure_loop_ends (paths_in db.valid_paths) (suc (suc (length db.valid_paths))) db d
      (p ∷ [], p ∷ []) (λ q valid. member-paths_in q db.valid_paths valid)
      (omega (
        arith,
        length-paths_in db.valid_paths,
        unvisited-le (p ∷ []) (paths_in db.valid_paths),
        one,
      ))
  where
    one : count (paths_in db.valid_paths) (p ∷ []) ≤ 1
    one = unfold count in ground arith
