-- ===== src/LocalStore/Registration.antt =====
-- Theorems on `registerValidPaths` and the references of valid paths.
use nixstore_arch.Prelude.{
  ◌≡◌, refl, Bool, true, List, [], ◌∷◌, ◌++◌, bytes_eq, bytes_eq_iff, member, set_insert,
  member-set_insert, if◌then◌else◌, none, some, ok, arith, Bool-cases, Option-cases, inl, inr,
  ok-injective, >>=-elim, require-elim,
}
use mathlib.Core.Path.{subst}
use nixstore_arch.TopoSort.{topo_sort}
use nixstore_arch.LocalStore.{
  StorePath, ValidPathInfo, Db, invalid_path, find_info, is_valid_path, query_valid_path_id,
  update_in, update_path_info, add_valid_path, add_reference_in, add_reference, register_infos,
  register_references, register_all_references, register_valid_paths, references_of, paths_of,
  check_cycle,
}
use nixstore_arch.LocalStore.Closed.{IsClosed}

-- More paths are valid.
abbrev Extends : Db → Db → Type 0
Extends db db' = (q : StorePath) → is_valid_path db q ≡ true → is_valid_path db' q ≡ true

abbrev Step : Db → Db → Type 0
Step db db' = Extends db db' × (IsClosed db → IsClosed db')

Step-trans : (a b c : Db) → Step a b → Step b c → Step a c
Step-trans a b c (e, k) (e', k') = ((λ q v. e' q (e q v)), λ closed. k' (k closed))

find-update :
    (info : ValidPathInfo) (q : StorePath) (is : List ValidPathInfo)
    → ((i' : ValidPathInfo)
        → find_info q (update_in info is) ≡ some i'
        → (i : ValidPathInfo) × (find_info q is ≡ some i) × (i'.references ≡ i.references))
      × (find_info q (update_in info is) ≡ none → find_info q is ≡ none)
unfolding find_info update_in
find-update info q [] = ((λ i' e. cc), λ e. refl)
find-update info q (j ∷ is) = (
  (λ i' e. elim (Bool-cases (bytes_eq info.path j.path)) [
    | inl same ↦ elim (Bool-cases (bytes_eq q j.path)) [
      | inl here ↦ (j, rw here, ground arith)
      | inr there ↦ (i', rw there (rw (same, there) at e), refl)
    ]
    | inr other ↦ elim (Bool-cases (bytes_eq q j.path)) [
      | inl here ↦ (j, rw here, ground arith)
      | inr there ↦ rw there ((find-update info q is).0 i' (rw (other, there) at e))
    ]
  ]),
  λ e. ground (arith, (find-update info q is).1),
)

update-Step : (db : Db) (info : ValidPathInfo) → Step db (update_path_info db info)
unfolding update_path_info is_valid_path
update-Step db info = (
  valid,
  λ closed p i' f q m.
      let (i, f', same) = (find-update info p db.valid_paths).0 i' f in
      valid q (closed p i f' q (rw same at m)),
)
  where
    valid : Extends db (update_path_info db info)
    valid q v = ground (arith, (find-update info q db.valid_paths).1)

find-append :
    (q : StorePath) (is : List ValidPathInfo) (j : ValidPathInfo)
    → find_info q (is ++ j ∷ []) ≡ (elim (find_info q is) [
      | none ↦ (if bytes_eq q j.path then some j else none)
      | some i ↦ some i
    ])
unfolding find_info
find-append q [] j = refl
find-append q (i ∷ is) j = ground (arith, find-append q is j)

-- `db'` has one more row, with no references.
abbrev IsAdded : Db → ValidPathInfo → Db → Type 0
IsAdded db info db' = db'.valid_paths ≡ db.valid_paths ++ (record info { references = [] }) ∷ []

added-Step :
    (db : Db) (info : ValidPathInfo) (db' : Db)
    → IsAdded db info db'
    → Step db db' × (is_valid_path db' info.path ≡ true)
unfolding is_valid_path
added-Step db info db' e =
    ((valid, closes), ground (arith, at info.path, bytes_eq_iff info.path info.path))
  where
    at :
        (q : StorePath)
        → find_info q db'.valid_paths ≡ (elim (find_info q db.valid_paths) [
          | none ↦ (if bytes_eq q info.path then some (record info { references = [] }) else none)
          | some i ↦ some i
        ])
    at q = rw e (find-append q db.valid_paths (record info { references = [] }))

    valid : Extends db db'
    valid q v = ground (arith, at q)

    closes : IsClosed db → IsClosed db'
    closes closed p i f q m = elim (Option-cases (find_info p db.valid_paths)) [
      | inl absent ↦ unfold member in ground (arith, at p)
      | inr (i₀, present) ↦ valid q (closed p i₀ present q (ground (arith, at p)))
    ]

add-Step :
    (is_ca : ValidPathInfo → Bool) (db : Db) (info : ValidPathInfo) (db' : Db)
    → add_valid_path is_ca db info ≡ ok db'
    → Step db db' × (is_valid_path db' info.path ≡ true)
unfolding add_valid_path
add-Step is_ca db info db' e = added-Step db info db' (ground arith)

find-add_reference :
    (p q r : StorePath) (is : List ValidPathInfo)
    → find_info r (add_reference_in p q is) ≡ (elim (find_info r is) [
      | none ↦ none
      | some i ↦
          if bytes_eq r p
          then some (record i { references = set_insert q i.references })
          else some i
    ])
unfolding find_info add_reference_in
find-add_reference p q r [] = refl
find-add_reference p q r (i ∷ is) = ground (
  arith,
  find-add_reference p q r is,
  bytes_eq_iff p i.path,
  bytes_eq_iff r i.path,
  bytes_eq_iff r p,
)

add_reference-Step :
    (p q : StorePath) (db : Db) → is_valid_path db q ≡ true → Step db (add_reference p q db)
unfolding add_reference is_valid_path
add_reference-Step p q db v = (
  valid,
  λ closed r i f s m. elim (Option-cases (find_info r db.valid_paths)) [
    | inl absent ↦ ground (arith, find-add_reference p q r db.valid_paths)
    | inr (i₀, present) ↦ valid s (
        ground (
          arith,
          find-add_reference p q r db.valid_paths,
          member-set_insert s q i₀.references,
          closed r i₀ present s,
          bytes_eq_iff s q,
        ))
  ],
)
  where
    valid : Extends db (add_reference p q db)
    valid r w = ground (arith, find-add_reference p q r db.valid_paths)

register_infos-Step :
    (is_ca : ValidPathInfo → Bool) (db : Db) (infos : List ValidPathInfo) (db' : Db)
    → register_infos is_ca db infos ≡ ok db'
    → Step db db'
unfolding register_infos
register_infos-Step is_ca db [] db' e =
    subst (Step db) (ok-injective e) ((λ q v. v), λ closed. closed)
register_infos-Step is_ca db (i ∷ is) db' e = elim (Bool-cases (is_valid_path db i.path)) [
  | inl known ↦
      Step-trans db (update_path_info db i) db' (update-Step db i)
        (register_infos-Step is_ca (update_path_info db i) is db' (rw (known, register_infos) at e))
  | inr new ↦ >>=-elim (add_valid_path is_ca db i) _ (rw (new, register_infos) at e) λ mid e₁ e₂.
      Step-trans db mid db' (add-Step is_ca db i mid e₁).0 (register_infos-Step is_ca mid is db' e₂)
]

register_references-Step :
    (p : StorePath) (js : List StorePath) (db db' : Db)
    → register_references p db js ≡ ok db'
    → Step db db'
unfolding register_references query_valid_path_id
register_references-Step p [] db db' e =
    subst (Step db) (ok-injective e) ((λ q v. v), λ closed. closed)
register_references-Step p (j ∷ js) db db' e =
    require-elim (is_valid_path db j) (invalid_path j) e λ valid e'.
      Step-trans db (add_reference p j db) db' (add_reference-Step p j db valid)
        (register_references-Step p js (add_reference p j db) db' e')

-- The registered paths are valid.
abbrev pub AreValid : Db → List ValidPathInfo → Type 0
AreValid db [] = Unit {0}
AreValid db (i ∷ is) = (is_valid_path db i.path ≡ true) × AreValid db is

register_all_references-Step :
    (infos : List ValidPathInfo) (db db' : Db)
    → register_all_references db infos ≡ ok db'
    → Step db db' × AreValid db' infos
unfolding register_all_references query_valid_path_id
register_all_references-Step [] db db' e =
    (subst (Step db) (ok-injective e) ((λ q v. v), λ closed. closed), tt)
register_all_references-Step (i ∷ is) db db' e =
    require-elim (is_valid_path db i.path) (invalid_path i.path) e λ valid e'.
      >>=-elim (register_references i.path db i.references) _ e' λ mid e₁ e₂.
        let first = register_references-Step i.path i.references db mid e₁ in
        let (rest, valid') = register_all_references-Step is mid db' e₂ in
        (Step-trans db mid db' first rest, (rest.0 i.path (first.0 i.path valid), valid'))

-- If `registerValidPaths` commits, all registered paths are valid, no path has become invalid, and
-- a database in which the references of valid paths are valid stays so.
pub register_valid_paths-IsClosed :
    (is_ca : ValidPathInfo → Bool) (db : Db) (infos : List ValidPathInfo) (db' : Db)
    → register_valid_paths is_ca db infos ≡ ok db'
    → AreValid db' infos
      × ((q : StorePath) → is_valid_path db q ≡ true → is_valid_path db' q ≡ true)
      × (IsClosed db → IsClosed db')
unfolding register_valid_paths
register_valid_paths-IsClosed is_ca db infos db' e =
    >>=-elim (register_infos is_ca db infos) _ e λ db₁ e₁ e'.
      >>=-elim (register_all_references db₁ infos) _ e' λ db₂ e₂ e''.
        >>=-elim (check_cycle (topo_sort (paths_of infos) (references_of infos))) _ e'' λ _ e₃ e₄.
          let first = register_infos-Step is_ca db infos db₁ e₁ in
          let (second, valid) = register_all_references-Step infos db₁ db₂ e₂ in
          let both = Step-trans db db₁ db₂ first second in
          subst (λ d. AreValid d infos × Extends db d × (IsClosed db → IsClosed d))
            (ok-injective e₄) (valid, both.0, both.1)
