-- ===== src/StoreDir.antt =====
-- src/libstore/store-dir-config.cc: the paths of a store directory, and those that contents determine.
-- The hash functions are a parameter, and the directory is a path in canonical form.
pub mod Paths
pub mod Made
pub mod Fixed
mod Tests
use nixstore_arch.Prelude.{
  ℕ, Bool, true, false, not, ◌&&◌, List, [], ◌∷◌, ◌++◌, Bytes, codes, ◌==◌, if◌then◌else◌, Option,
  none, some, Result, ok, err, require, ◌>>=◌, ◌>>◌, bytes_eq, set_insert,
}
use nixstore_arch.CanonPath.{
  PathError, abs_path_pure, starts_with_slash, is_root, parent_text, at_last_slash,
}
use nixstore_arch.StorePath.{BadStorePath, store_path, store_path_of_hash}
use nixstore_arch.Hash.{
  Hash, HashError, HashAlgorithm, sha256, same_algo, nix32, base16, to_string, compress_hash,
}
use nixstore_arch.ContentAddress.{
  FileIngestionMethod, flat_file, archive_file, make_file_ingestion_prefix, StoreReferences,
  no_references, ContentAddressWithReferences, text_info, fixed_output_info,
}

pub data StoreDirError : Type 0 where
  empty_path not_absolute not_in_store references_not_allowed not_sha256 : StoreDirError
  bad_path : PathError → StoreDirError
  bad_store_path : BadStorePath → StoreDirError
  bad_hash : HashError → StoreDirError

-- The exceptions of the calls pass on, and their assertions.
unfoldable pub of_canon : Result PathError Bytes → Result StoreDirError Bytes
of_canon (ok path) = ok path
of_canon (err e) = err (bad_path e)

unfoldable pub of_path : Result BadStorePath Bytes → Result StoreDirError Bytes
of_path (ok path) = ok path
of_path (err e) = err (bad_store_path e)

unfoldable pub of_hash : Result HashError Bytes → Result StoreDirError Bytes
of_hash (ok s) = ok s
of_hash (err e) = err (bad_hash e)

-- `canonPath(path)`, which follows no links.
unfoldable pub canon_native : Bytes → Result StoreDirError Bytes
canon_native path = do
  require (not (bytes_eq path [])) empty_path
  require (starts_with_slash path) not_absolute
  of_canon (abs_path_pure path)

-- `filename()` of a canonical path.
unfoldable pub filename : Bytes → Bytes
filename path = elim (at_last_slash path) [ none ↦ path | some (before, behind) ↦ behind ]

unfoldable pub parse_store_path : Bytes → Bytes → Result StoreDirError Bytes
parse_store_path store_dir path = do
  require (not (bytes_eq path [])) empty_path
  p ← canon_native path
  require (bytes_eq (parent_text p) store_dir) not_in_store
  of_path (store_path (filename p))

unfoldable pub maybe_parse_store_path : Bytes → Bytes → Option Bytes
maybe_parse_store_path store_dir path = elim (parse_store_path store_dir path) [
  | ok p ↦ some p
  | err e ↦ none
]

unfoldable pub is_store_path : Bytes → Bytes → Bool
is_store_path store_dir path = elim (maybe_parse_store_path store_dir path) [
  | some p ↦ true
  | none ↦ false
]

-- The loop of `parseStorePathSet`, with the set so far.
unfoldable pub parse_each : Bytes → List Bytes → List Bytes → Result StoreDirError (List Bytes)
parse_each store_dir res [] = ok res
parse_each store_dir res (i ∷ paths) = do
  p ← parse_store_path store_dir i
  parse_each store_dir (set_insert p res) paths

unfoldable pub parse_store_path_set : Bytes → List Bytes → Result StoreDirError (List Bytes)
parse_store_path_set store_dir paths = parse_each store_dir [] paths

unfoldable pub print_store_path : Bytes → Bytes → Bytes
print_store_path store_dir path = (store_dir ++ codes "/") ++ path

-- The loop of `printStorePathSet`, with the set so far.
unfoldable pub print_each : Bytes → List Bytes → List Bytes → List Bytes
print_each store_dir res [] = res
print_each store_dir res (i ∷ paths) =
    print_each store_dir (set_insert (print_store_path store_dir i) res) paths

unfoldable pub print_store_path_set : Bytes → List Bytes → List Bytes
print_store_path_set store_dir paths = print_each store_dir [] paths

unfoldable pub is_archive : FileIngestionMethod → Bool
is_archive archive_file = true
is_archive flat_file = false

module _ (hash_string : HashAlgorithm → Bytes → Hash) (store_dir : Bytes) where
  -- `makeStorePath(type, hash, name)`, for the text of a hash.
  unfoldable pub make_store_path : Bytes → Bytes → Bytes → Result StoreDirError Bytes
  make_store_path type hash name = do
    let s = type ++ (codes ":" ++ (hash ++ (codes ":" ++ (store_dir ++ (codes ":" ++ name)))))
    let h = compress_hash (hash_string sha256 s) 20
    digits ← of_hash (to_string nix32 false h)
    of_path (store_path_of_hash digits name)

  -- `makeStorePath(type, hash, name)`, for a hash.
  unfoldable pub make_store_path_of : Bytes → Hash → Bytes → Result StoreDirError Bytes
  make_store_path_of type hash name = do
    printed ← of_hash (to_string base16 true hash)
    make_store_path type printed name

  -- `makeType`: `:` and the path of every reference, and a mark for the object itself.
  unfoldable pub with_references : Bytes → List Bytes → Bytes
  with_references type [] = type
  with_references type (i ∷ others) =
      with_references (type ++ (codes ":" ++ print_store_path store_dir i)) others

  unfoldable pub make_type : Bytes → StoreReferences → Bytes
  make_type type references =
      if references.self
      then with_references type references.others ++ codes ":self"
      else with_references type references.others

  unfoldable pub make_fixed_output_path :
      Bytes → FileIngestionMethod → Hash → StoreReferences → Result StoreDirError Bytes
  make_fixed_output_path name method hash references =
      if same_algo hash.algo sha256 && is_archive method
      then make_store_path_of (make_type (codes "source") references) hash name
      else (do
        require (no_references references) references_not_allowed
        printed ← of_hash (to_string base16 true hash)
        let payload =
            codes "fixed:out:" ++ (make_file_ingestion_prefix method ++ (printed ++ codes ":"))
        make_store_path_of (codes "output:out") (hash_string sha256 payload) name)

  unfoldable pub make_fixed_output_path_from_ca :
      Bytes → ContentAddressWithReferences → Result StoreDirError Bytes
  make_fixed_output_path_from_ca name (text_info hash references) = do
    require (same_algo hash.algo sha256) not_sha256
    make_store_path_of (make_type (codes "text") (record { others = references; self = false }))
        hash name
  make_fixed_output_path_from_ca name (fixed_output_info method hash references) =
      make_fixed_output_path name method hash references
