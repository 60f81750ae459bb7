-- ===== src/LocalStore/Closed.antt =====
-- Theorems on `invalidatePathChecked` and the references of valid paths.
use nixstore_arch.Prelude.{
  ◌≡◌, refl, ap, true, List, [], ◌∷◌, bytes_eq, bytes_eq_iff, member, set_erase, member-set_insert,
  member-set_erase, if◌then◌else◌, none, some, ok, arith, Option-cases, inl, inr, ok-injective,
}
use mathlib.Core.Path.{subst}
use nixstore_arch.LocalStore.{
  StorePath, ValidPathInfo, Db, find_info, is_valid_path, referrers_in, query_referrers,
  remove_info, invalidate_path, invalidate_unreferred, invalidate_path_checked,
}

abbrev pub IsClosed : Db → Type 0
IsClosed db =
    (p : StorePath) (i : ValidPathInfo)
    → find_info p db.valid_paths ≡ some i
    → (q : StorePath) → member q i.references ≡ true
    → is_valid_path db q ≡ true

pub find-remove :
    (p q : StorePath) (is : List ValidPathInfo)
    → find_info q (remove_info p is) ≡ (if bytes_eq p q then none else find_info q is)
unfolding find_info remove_info
find-remove p q [] = ground arith
find-remove p q (i ∷ is) =
    ground
      (arith, find-remove p q is, bytes_eq_iff p i.path, bytes_eq_iff q i.path, bytes_eq_iff p q)

member-referrers :
    (p q : StorePath) (is : List ValidPathInfo) (i : ValidPathInfo)
    → find_info q is ≡ some i
    → member p i.references ≡ true
    → member q (referrers_in p is) ≡ true
unfolding find_info referrers_in
member-referrers p q [] i e m = cc
member-referrers p q (j ∷ is) i e m = ground (
  arith,
  member-referrers p q is i,
  bytes_eq_iff q j.path,
  member-set_insert q j.path (referrers_in p is),
)

-- What a deletion leaves: every other path, as it was.
abbrev pub IsRemoved : StorePath → Db → Db → Type 0
IsRemoved p db db' =
    (q : StorePath)
    → find_info q db'.valid_paths ≡ (if bytes_eq p q then none else find_info q db.valid_paths)

module _ (db : Db) (p : StorePath) where
  unchanged : find_info p db.valid_paths ≡ none → IsRemoved p db db × (IsClosed db → IsClosed db)
  unchanged absent = ((λ q. ground (arith, bytes_eq_iff p q)), λ closed. closed)

  removed :
      (db' : Db)
      → db'.valid_paths ≡ remove_info p db.valid_paths
      → set_erase p (query_referrers db p) ≡ []
      → IsRemoved p db db' × (IsClosed db → IsClosed db')
  unfolding is_valid_path query_referrers
  removed db' e free = (
    at,
    λ closed p' i f q m. ground (
      arith,
      at p',
      at q,
      closed p' i,
      bytes_eq_iff p q,
      bytes_eq_iff p p',
      bytes_eq_iff p' p,
      member-referrers p p' db.valid_paths i,
      alone p',
      closed_at closed p' i q,
    ),
  )
    where
      at : IsRemoved p db db'
      at q = rw e (find-remove p q db.valid_paths)

      alone : (q : StorePath) → member q (query_referrers db p) ≡ true → bytes_eq q p ≡ true
      alone q m =
          unfold member in
          ground (arith, member-set_erase q p (query_referrers db p), ap (member q) free)

      closed_at :
          IsClosed db
          → (p' : StorePath) (i : ValidPathInfo) (q : StorePath)
          → find_info p' db.valid_paths ≡ some i
          → member q i.references ≡ true
          → is_valid_path db q ≡ true
      closed_at closed p' i q f m = closed p' i f q m

  invalidated :
      (rs : List StorePath) (db' : Db)
      → set_erase p (query_referrers db p) ≡ rs
      → invalidate_unreferred db p rs ≡ ok db'
      → IsRemoved p db db' × (IsClosed db → IsClosed db')
  unfolding invalidate_unreferred invalidate_path
  invalidated [] db' free e =
      subst (λ d. IsRemoved p db d × (IsClosed db → IsClosed d)) (ok-injective (rw free at e))
        (removed _ refl free)
  invalidated (r ∷ rs) db' busy e = cc

-- If `invalidatePathChecked` does not throw, the path is not valid afterwards, every other path
-- stays as it was, and a database in which the references of valid paths are valid stays so.
pub invalidate_path_checked-IsClosed :
    (db : Db) (p : StorePath) (db' : Db)
    → invalidate_path_checked db p ≡ ok db'
    → IsRemoved p db db' × (IsClosed db → IsClosed db')
unfolding invalidate_path_checked is_valid_path
invalidate_path_checked-IsClosed db p db' e = elim (Option-cases (find_info p db.valid_paths)) [
  | inl absent ↦
      subst (λ d. IsRemoved p db d × (IsClosed db → IsClosed d)) (ok-injective (rw absent at e))
        (unchanged db p absent)
  | inr (i, present) ↦
      invalidated db p (set_erase p (query_referrers db p)) db' refl (rw present at e)
]
