-- ===== src/Gc/Roots.antt =====
-- Theorems on the roots of `collectGarbage` of src/libstore/gc.cc and what they refer to.
use nixstore_arch.Prelude.{
  ℕ, suc, ◌≡◌, refl, true, false, not, ◌&&◌, ◌||◌, List, [], ◌∷◌, Bytes, codes, bytes_eq, ◌==◌,
  length, member, some, Option-cases, Result-cases, arith, Bool-cases, inl, inr,
}
use nixstore_arch.LocalStore.{StorePath, ValidPathInfo, Db, find_info, is_valid_path}
use nixstore_arch.LocalStore.Closed.{IsClosed}
use nixstore_arch.StorePath.{store_path}
use nixstore_arch.Gc.State.{
  Options, Disk, Gc, Signal, finished, limit_reached, thrown, Action, return_live, return_dead,
  delete_dead, delete_specific, PathsToDelete, whole_store, specific_paths,
}
use nixstore_arch.Gc.Collect.{
  is_delete_specific, check_specific, collect_specific, collect_name, collect_listing,
  collect_store, collect_paths, report, finish, collect_wanted, collect_garbage,
}
use nixstore_arch.Gc.Safety.{Inv, and_then-Inv, delete_from_store-Inv, maybe_delete-Inv}

-- The roots that are valid, and what valid paths refer to.
pub data IsReached (roots : List StorePath) (db : Db) : StorePath → Type 0 where
  root : (q : StorePath) → member q roots ≡ true → is_valid_path db q ≡ true → IsReached roots db q
  reference :
      (p q : StorePath) (i : ValidPathInfo)
      → IsReached roots db p
      → find_info p db.valid_paths ≡ some i
      → member q i.references ≡ true
      → IsReached roots db q

module _ (roots : List StorePath) (db₀ : Db) (disk : Disk) (o : Options) where
  check_specific-Inv :
      (rounds : ℕ) (p : StorePath) (g : Gc)
      → Inv roots db₀ g
      → Inv roots db₀ (check_specific rounds roots disk o p g).1
  unfolding check_specific
  check_specific-Inv rounds p g inv =
      elim (Bool-cases (is_delete_specific o.action && not (member p g.dead))) [
        | inl alive ↦ rw alive inv
        | inr fine ↦ rw fine inv
      ]

  module _ (rounds : ℕ) where
    collect_specific-Inv :
        (ps : List StorePath) (g : Gc)
        → Inv roots db₀ g
        → Inv roots db₀ (collect_specific rounds roots disk o ps g).1
    unfolding collect_specific
    collect_specific-Inv [] g inv = inv
    collect_specific-Inv (p ∷ ps) g inv =
        and_then-Inv roots db₀ _ _ (maybe_delete-Inv roots db₀ disk o rounds p g inv) λ g₁ inv₁.
          and_then-Inv roots db₀ (check_specific rounds roots disk o p g₁) _
            (check_specific-Inv rounds p g₁ inv₁) (collect_specific-Inv ps)

    collect_name-Inv :
        (name : Bytes) (g : Gc)
        → Inv roots db₀ g
        → Inv roots db₀ (collect_name rounds roots disk o name g).1
    unfolding collect_name
    collect_name-Inv name g inv =
        elim (Bool-cases (
          bytes_eq name (codes ".")
          || (bytes_eq name (codes "..") || bytes_eq name (codes ".links")))) [
            | inl skipped ↦ rw skipped inv
            | inr taken ↦ elim (Result-cases (store_path name)) [
              | inl (p, parsed) ↦
                  rw (taken, parsed) (maybe_delete-Inv roots db₀ disk o rounds p g inv)
              | inr (e, garbage) ↦
                  rw (taken, garbage) (delete_from_store-Inv roots db₀ disk o name g inv)
            ]
          ]

    collect_listing-Inv :
        (names : List Bytes) (g : Gc)
        → Inv roots db₀ g
        → Inv roots db₀ (collect_listing rounds roots disk o names g).1
    unfolding collect_listing
    collect_listing-Inv [] g inv = inv
    collect_listing-Inv (name ∷ names) g inv =
        and_then-Inv roots db₀ (collect_name rounds roots disk o name g) _
          (collect_name-Inv name g inv) (collect_listing-Inv names)

    collect_store-Inv :
        (names : List Bytes) (g : Gc)
        → Inv roots db₀ g
        → Inv roots db₀ (collect_store rounds roots disk o names g).1
    unfolding collect_store
    collect_store-Inv names g inv = elim (Bool-cases (o.max_freed == 0)) [
      | inl nothing ↦ rw nothing inv
      | inr some_bytes ↦ elim (Bool-cases (is_delete_specific o.action)) [
        | inl refused ↦ rw (some_bytes, refused) inv
        | inr wanted ↦ rw (some_bytes, wanted) (collect_listing-Inv names g inv)
      ]
    ]

    collect_paths-Inv :
        (paths : PathsToDelete) (names : List Bytes) (g : Gc)
        → Inv roots db₀ g
        → Inv roots db₀ (collect_paths rounds roots disk o paths names g).1
    unfolding collect_paths
    collect_paths-Inv whole_store names g inv = collect_store-Inv names g inv
    collect_paths-Inv (specific_paths paths deletes) names g inv = collect_specific-Inv paths g inv

  report-Inv : (action : Action) (g : Gc) → Inv roots db₀ g → Inv roots db₀ (report action g)
  unfolding report
  report-Inv return_live g inv = inv
  report-Inv return_dead g inv = inv
  report-Inv delete_dead g inv = inv
  report-Inv delete_specific g inv = inv

  finish-Inv :
      (action : Action) (r : Signal × Gc) → Inv roots db₀ r.1 → Inv roots db₀ (finish action r).1
  unfolding finish
  finish-Inv action (thrown e, g) inv = inv
  finish-Inv action (finished, g) inv = report-Inv action g inv
  finish-Inv action (limit_reached, g) inv = report-Inv action g inv

  collect_wanted-Inv :
      (rounds : ℕ) (paths : PathsToDelete) (names : List Bytes) (g : Gc)
      → Inv roots db₀ g
      → Inv roots db₀ (collect_wanted rounds roots disk o paths names g).1
  unfolding collect_wanted
  collect_wanted-Inv rounds whole_store names g inv =
      finish-Inv o.action _ (collect_paths-Inv rounds whole_store names g inv)
  collect_wanted-Inv rounds (specific_paths [] deletes) names g inv = inv
  collect_wanted-Inv rounds (specific_paths (p ∷ ps) deletes) names g inv =
      finish-Inv o.action _ (collect_paths-Inv rounds (specific_paths (p ∷ ps) deletes) names g inv)

module _ (roots : List StorePath) (disk : Disk) (o : Options) (names : List Bytes) (g : Gc)
    (closed : IsClosed g.db) (fresh : g.dead ≡ []) where
  kept : Inv roots g.db (collect_garbage roots disk o names g).1
  unfolding collect_garbage member
  kept =
      collect_wanted-Inv roots g.db disk o (suc (suc (suc (length g.db.valid_paths))))
        o.paths_to_delete names g (closed, (λ p i e. e), (λ r m. refl), none_dead)
    where
      none_dead : (p : StorePath) → member p g.dead ≡ true → member p roots ≡ false
      none_dead p m = let m' : member p [] ≡ true = rw fresh at m in cc

  -- However a collection ends: if the references of valid paths were valid and nothing was dead
  -- when it began, the references of valid paths are valid, and every root that was valid and
  -- every path that one can reach from such roots by references is valid as it was.
  pub collect_garbage-IsReached :
      IsClosed (collect_garbage roots disk o names g).1.db
      × ((p : StorePath)
          → IsReached roots g.db p
          → (i : ValidPathInfo) × (find_info p g.db.valid_paths ≡ some i)
            × (find_info p (collect_garbage roots disk o names g).1.db.valid_paths ≡ some i))
  unfolding is_valid_path
  collect_garbage-IsReached = (kept.0, stays)
    where
      after : Db
      after = (collect_garbage roots disk o names g).1.db

      same :
          (p : StorePath) (i : ValidPathInfo)
          → find_info p after.valid_paths ≡ some i
          → (i : ValidPathInfo) × (find_info p g.db.valid_paths ≡ some i)
            × (find_info p after.valid_paths ≡ some i)
      same p i e = (i, kept.1 p i e, e)

      found :
          (p : StorePath)
          → is_valid_path after p ≡ true
          → (i : ValidPathInfo) × (find_info p g.db.valid_paths ≡ some i)
            × (find_info p after.valid_paths ≡ some i)
      found p valid = elim (Option-cases (find_info p after.valid_paths)) [
        | inl absent ↦ absurd (ground arith)
        | inr (i, present) ↦ same p i present
      ]

      stays :
          (p : StorePath)
          → IsReached roots g.db p
          → (i : ValidPathInfo) × (find_info p g.db.valid_paths ≡ some i)
            × (find_info p after.valid_paths ≡ some i)
      stays p (root r m valid) = found p (ground (arith, kept.2 p m))
      stays p (reference q r i h e m) =
          let (j, was, is) = stays q h in found p (kept.0 q j is p (ground arith))
