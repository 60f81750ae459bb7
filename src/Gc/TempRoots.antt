-- ===== src/Gc/TempRoots.antt =====
-- Theorems on the temporary roots of `collectGarbage` of src/libstore/gc.cc.
use nixstore_arch.Prelude.{
  ◌≡◌, refl, ◌∙◌, true, false, List, [], ◌∷◌, Bytes, bytes_eq, bytes_eq_iff, member, set_insert,
  member-set_insert, Result, ok, err, arith, Bool-cases, inl, inr,
}
use nixstore_arch.LocalStore.{
  StorePath, Db, StoreError, path_in_use, invalid_path, not_content_addressed, cycle_detected,
  foreign_key, find_info, invalidate_path_checked,
}
use nixstore_arch.LocalStore.Closed.{invalidate_path_checked-IsClosed}
use nixstore_arch.StorePath.{hash_part}
use nixstore_arch.Gc.State.{
  Options, Disk, Gc, insert_all, lock_shared, should_delete, reset_pending, Signal, finished,
  limit_reached, thrown, and_then,
}
use nixstore_arch.Gc.Visit.{mark_alive, set_pending}
use nixstore_arch.Gc.Sweep.{delete_from_store, delete_invalidated, delete_path, delete_each}

insert_all-keeps :
    (h : Bytes) (hs m : List Bytes) → member h m ≡ true → member h (insert_all hs m) ≡ true
unfolding insert_all
insert_all-keeps h [] m e = e
insert_all-keeps h (j ∷ hs) m e =
    insert_all-keeps h hs (set_insert j m) (ground (arith, member-set_insert h j m))

module _ (p : StorePath) where
  -- `p` stays a temporary root, and is valid as it was.
  abbrev pub Protects : Gc → Gc → Type 0
  Protects g g' =
      (member (hash_part p) g'.temp_roots ≡ true)
      × (find_info p g'.db.valid_paths ≡ find_info p g.db.valid_paths)

  module _ (g : Gc) (rooted : member (hash_part p) g.temp_roots ≡ true) where
    lock_shared-Protects : Protects g (lock_shared g)
    unfolding lock_shared
    lock_shared-Protects = by_arrivals g.arrivals
      where
        by_arrivals :
            (arrivals : List (List Bytes))
            → Protects g (elim arrivals [
              | [] ↦ g
              | hs ∷ rest ↦ record g { temp_roots = insert_all hs g.temp_roots; arrivals = rest }
            ])
        by_arrivals [] = (rooted, refl)
        by_arrivals (hs ∷ rest) = (insert_all-keeps (hash_part p) hs g.temp_roots rooted, refl)

    mark_alive-Protects : (o : Options) (q : StorePath) → Protects g (mark_alive o q g)
    unfolding mark_alive
    mark_alive-Protects o q = ground arith

    delete_from_store-Protects :
        (disk : Disk) (o : Options) (name : Bytes) → Protects g (delete_from_store disk o name g).1
    unfolding delete_from_store
    delete_from_store-Protects disk o name = ground arith

  and_then-Protects :
      (g : Gc) (r : Signal × Gc) (next : Gc → Signal × Gc)
      → Protects g r.1
      → ((g' : Gc) → member (hash_part p) g'.temp_roots ≡ true → Protects g' (next g').1)
      → Protects g (and_then r next).1
  unfolding and_then
  and_then-Protects g (finished, g') next (m, e) h = ((h g' m).0, (h g' m).1 ∙ e)
  and_then-Protects g (limit_reached, g') next k h = k
  and_then-Protects g (thrown e, g') next k h = k

  module _ (disk : Disk) (o : Options) where
    delete_invalidated-Protects :
        (q : StorePath) (g : Gc) (r : Result StoreError Db)
        → invalidate_path_checked g.db q ≡ r
        → bytes_eq q p ≡ false
        → member (hash_part p) g.temp_roots ≡ true
        → Protects g (delete_invalidated disk o q g r).1
    unfolding delete_invalidated
    delete_invalidated-Protects q g (ok db) e other m =
        let (m', same) =
          and_then-Protects (record g { db = db })
            (delete_from_store disk o q (record g { db = db })) _
            (delete_from_store-Protects (record g { db = db }) m disk o q) (λ g' k. (k, refl)) in
        (m', same ∙ ground (arith, (invalidate_path_checked-IsClosed g.db q db e).0 p))
    delete_invalidated-Protects q g (err (path_in_use r rs)) e other m = (m, refl)
    delete_invalidated-Protects q g (err (invalid_path r)) e other m = (m, refl)
    delete_invalidated-Protects q g (err (not_content_addressed r)) e other m = (m, refl)
    delete_invalidated-Protects q g (err (cycle_detected c)) e other m = (m, refl)
    delete_invalidated-Protects q g (err (foreign_key r)) e other m = (m, refl)

    delete_path-Protects :
        (q : StorePath) (g : Gc)
        → member (hash_part p) g.temp_roots ≡ true
        → Protects g (delete_path disk o q g).1
    unfolding delete_path reset_pending
    delete_path-Protects q g m =
        elim (Bool-cases (member (hash_part q) (lock_shared g).temp_roots)) [
          | inl held ↦
              let (m', same) = lock_shared-Protects g m in
              let (m'', same') = mark_alive-Protects (lock_shared g) m' o q in
              rw held (m'', same' ∙ same)
          | inr free ↦
              let (m', same) = lock_shared-Protects g m in
              let (m'', same') =
                delete_invalidated-Protects q (set_pending q g)
                  (invalidate_path_checked (set_pending q g).db q) refl (other q free m')
                  (unfold set_pending in m') in
              rw free (m'', same' ∙ (unfold set_pending in same))
        ]
      where
        other :
            (q : StorePath)
            → member (hash_part q) (lock_shared g).temp_roots ≡ false
            → member (hash_part p) (lock_shared g).temp_roots ≡ true
            → bytes_eq q p ≡ false
        other q free held = ground (arith, bytes_eq_iff q p)

    -- The deletion of the paths that a search visited: a path that is a temporary root when it
    -- begins stays one, and is valid as it was, however the deletion ends.
    pub delete_each-Protects :
        (ps : List StorePath) (g : Gc)
        → member (hash_part p) g.temp_roots ≡ true
        → Protects g (delete_each disk o ps g).1
    unfolding delete_each
    delete_each-Protects [] g m = (m, refl)
    delete_each-Protects (q ∷ ps) g m = elim (Bool-cases (member q g.dead)) [
      | inl dead ↦ rw (dead, delete_each) (delete_each-Protects ps g m)
      | inr fresh ↦ elim (Bool-cases (should_delete o)) [
        | inl delete ↦
            rw (fresh, delete, delete_each)
              (and_then-Protects g (delete_path disk o q (record g { dead = set_insert q g.dead }))
                (delete_each disk o ps)
                (delete_path-Protects q (record g { dead = set_insert q g.dead }) m)
                (delete_each-Protects ps))
        | inr report_only ↦
            rw (fresh, report_only, delete_each)
              (delete_each-Protects ps (record g { dead = set_insert q g.dead }) m)
      ]
    ]
