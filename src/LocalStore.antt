-- ===== src/LocalStore.antt =====
-- src/libstore/local-store.cc: the database of valid paths. A row of `ValidPaths` stands together
-- with its rows of `Refs`; `derivation_outputs` is the other table. The SQL is that of the
-- statements prepared in the constructor and of schema.sql.
pub mod Closed
pub mod Registration
mod Tests
use nixstore_arch.Prelude.{
  ℕ, zero, suc, ◌+◌, Bool, true, false, not, List, [], ◌∷◌, ◌++◌, Bytes, bytes_eq, length, member,
  set_insert, set_erase, if◌then◌else◌, Option, none, some, Result, ok, err, require, ◌>>=◌, ◌>>◌,
}
use nixstore_arch.TopoSort
use nixstore_arch.TopoSort.{topo_sort}

abbrev pub StorePath : Type 0
StorePath = Bytes

-- `ValidPathInfo`: `ca` is the content address as it is rendered, and `hash_and_sigs` stands for
-- the hash and the signatures. The registration time is left out.
pub record ValidPathInfo : Type 0 where
  pub path : StorePath
  pub nar_size : ℕ
  pub ultimate : Bool
  pub hash_and_sigs : Bytes
  pub ca : Option Bytes
  pub deriver : Option StorePath
  pub references : List StorePath

pub record Db : Type 0 where
  pub valid_paths : List ValidPathInfo
  -- pairs of a derivation and an output path
  pub derivation_outputs : List (StorePath × StorePath)

pub data StoreError : Type 0 where
  invalid_path : StorePath → StoreError
  not_content_addressed : StorePath → StoreError
  path_in_use : StorePath → List StorePath → StoreError
  cycle_detected : TopoSort.Failure → StoreError
  -- the foreign key on `Refs.reference`
  foreign_key : StorePath → StoreError

-- `QueryPathInfo`
unfoldable pub find_info : StorePath → List ValidPathInfo → Option ValidPathInfo
find_info p [] = none
find_info p (i ∷ is) = let rest = find_info p is in if bytes_eq p i.path then some i else rest

abbrev is_some : Option ValidPathInfo → Bool
is_some none = false
is_some (some i) = true

-- `isValidPath_`
unfoldable pub is_valid_path : Db → StorePath → Bool
is_valid_path db p = is_some (find_info p db.valid_paths)

-- `queryValidPathId`, of which only the exception is kept: a row stands for its id.
unfoldable pub query_valid_path_id : Db → StorePath → Result StoreError (Unit {0})
query_valid_path_id db p = require (is_valid_path db p) (invalid_path p)

unfoldable pub referrers_in : StorePath → List ValidPathInfo → List StorePath
referrers_in p [] = []
referrers_in p (i ∷ is) =
    let rest = referrers_in p is in if member p i.references then set_insert i.path rest else rest

-- The rows of the query `QueryReferrers`, into a set.
unfoldable pub query_referrers : Db → StorePath → List StorePath
unfolding referrers_in
query_referrers db p = referrers_in p db.valid_paths

unfoldable pub derivers_in : Db → StorePath → List (StorePath × StorePath) → List StorePath
derivers_in db p [] = []
derivers_in db p ((drv, out) ∷ outputs) =
    let rest = derivers_in db p outputs in
    if bytes_eq out p then (if is_valid_path db drv then set_insert drv rest else rest) else rest

unfoldable pub query_valid_derivers : Db → StorePath → List StorePath
unfolding derivers_in
query_valid_derivers db p = derivers_in db p db.derivation_outputs

unfoldable pub remove_info : StorePath → List ValidPathInfo → List ValidPathInfo
remove_info p [] = []
remove_info p (i ∷ is) = let rest = remove_info p is in if bytes_eq p i.path then rest else i ∷ rest

unfoldable pub remove_outputs :
    StorePath → List (StorePath × StorePath) → List (StorePath × StorePath)
remove_outputs p [] = []
remove_outputs p ((drv, out) ∷ outputs) =
    let rest = remove_outputs p outputs in if bytes_eq p drv then rest else (drv, out) ∷ rest

-- `delete from ValidPaths where path = ?`: the trigger takes the self-references away, other
-- references restrict the deletion, and the rows that belong to the path go with it.
unfoldable pub delete_row : Db → StorePath → (restricting : List StorePath) → Result StoreError Db
unfolding remove_outputs
delete_row db p [] = ok (record db {
  valid_paths = remove_info p db.valid_paths;
  derivation_outputs = remove_outputs p db.derivation_outputs;
})
delete_row db p (r ∷ rs) = if is_valid_path db p then err (foreign_key p) else ok db

unfoldable pub invalidate_path : Db → StorePath → Result StoreError Db
unfolding delete_row
invalidate_path db p = delete_row db p (set_erase p (query_referrers db p))

-- the test on `referrers`, without the path itself
unfoldable pub invalidate_unreferred :
    Db → StorePath → (referrers : List StorePath) → Result StoreError Db
invalidate_unreferred db p [] = invalidate_path db p
invalidate_unreferred db p (r ∷ rs) = err (path_in_use p (r ∷ rs))

-- `invalidatePathChecked`: the transaction is rolled back by an exception.
unfoldable pub invalidate_path_checked : Db → StorePath → Result StoreError Db
invalidate_path_checked db p =
    if is_valid_path db p
    then invalidate_unreferred db p (set_erase p (query_referrers db p))
    else ok db

-- `updatePathInfo`: the deriver and the references stay.
update_in : ValidPathInfo → List ValidPathInfo → List ValidPathInfo
update_in info [] = []
update_in info (i ∷ is) =
    let rest = update_in info is in
    if bytes_eq info.path i.path
    then (record i {
      nar_size = info.nar_size;
      hash_and_sigs = info.hash_and_sigs;
      ultimate = info.ultimate;
      ca = info.ca;
    })
      ∷ is
    else i ∷ rest

unfoldable pub update_path_info : Db → ValidPathInfo → Db
unfolding update_in
update_path_info db info = record db { valid_paths = update_in info db.valid_paths }

-- `addValidPath`; `is_content_addressed` is `ValidPathInfo::isContentAddressed`.
unfoldable pub add_valid_path : (ValidPathInfo → Bool) → Db → ValidPathInfo → Result StoreError Db
add_valid_path is_content_addressed db info =
    let added : Db = record db {
      valid_paths = db.valid_paths ++ (record info { references = [] }) ∷ [];
    } in
    elim info.ca [
      | none ↦ ok added
      | some ca ↦
          if is_content_addressed info then ok added else err (not_content_addressed info.path)
    ]

-- `AddReference`
add_reference_in : StorePath → StorePath → List ValidPathInfo → List ValidPathInfo
add_reference_in p q [] = []
add_reference_in p q (i ∷ is) =
    let rest = add_reference_in p q is in
    if bytes_eq p i.path
    then (record i { references = set_insert q i.references }) ∷ is
    else i ∷ rest

unfoldable pub add_reference : StorePath → StorePath → Db → Db
unfolding add_reference_in
add_reference p q db = record db { valid_paths = add_reference_in p q db.valid_paths }

-- The first loop of `registerValidPaths`.
unfoldable pub register_infos :
    (ValidPathInfo → Bool) → Db → List ValidPathInfo → Result StoreError Db
register_infos is_ca db [] = ok db
register_infos is_ca db (i ∷ is) = elim (is_valid_path db i.path) [
  | true ↦ register_infos is_ca (update_path_info db i) is
  | false ↦ do db' ← add_valid_path is_ca db i; register_infos is_ca db' is
]

unfoldable pub register_references : StorePath → Db → List StorePath → Result StoreError Db
register_references p db [] = ok db
register_references p db (j ∷ js) = do
  query_valid_path_id db j
  register_references p (add_reference p j db) js

-- The second loop.
unfoldable pub register_all_references : Db → List ValidPathInfo → Result StoreError Db
register_all_references db [] = ok db
register_all_references db (i ∷ is) = do
  query_valid_path_id db i.path
  db' ← register_references i.path db i.references
  register_all_references db' is

references_of : List ValidPathInfo → StorePath → List StorePath
references_of infos p = elim (find_info p infos) [ none ↦ [] | some i ↦ i.references ]

paths_of : List ValidPathInfo → List StorePath
paths_of [] = []
paths_of (i ∷ is) = set_insert i.path (paths_of is)

check_cycle : Result TopoSort.Failure (List StorePath) → Result StoreError (Unit {0})
check_cycle (ok sorted) = ok tt
check_cycle (err e) = err (cycle_detected e)

-- `registerValidPaths`: the database after `txn.commit()`, or the exception that rolls it back.
unfoldable pub register_valid_paths :
    (ValidPathInfo → Bool) → Db → List ValidPathInfo → Result StoreError Db
unfolding references_of paths_of check_cycle
register_valid_paths is_ca db infos = do
  db' ← register_infos is_ca db infos
  db'' ← register_all_references db' infos
  check_cycle (topo_sort (paths_of infos) (references_of infos))
  ok db''
