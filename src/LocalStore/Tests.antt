-- ===== src/LocalStore/Tests.antt =====
-- A database with a program and its library.
use nixstore_arch.Prelude.{
  ◌≡◌, refl, true, false, List, [], ◌∷◌, codes, bytes_eq, bytes_lt, member, set_insert, set_erase,
  none, ok, err,
}
use nixstore_arch.TopoSort.{visit_references, enter, leave, dfs_visit, visit_items, topo_sort}
use nixstore_arch.LocalStore.{
  StorePath, ValidPathInfo, Db, path_in_use, invalid_path, find_info, is_valid_path,
  query_valid_path_id, referrers_in, query_referrers, remove_info, remove_outputs, delete_row,
  invalidate_path, invalidate_unreferred, invalidate_path_checked, add_valid_path, add_reference_in,
  add_reference, register_infos, register_references, register_all_references, references_of,
  paths_of, check_cycle, register_valid_paths,
}
use nixstore_arch.LocalStore.Closed.{IsClosed, IsRemoved, invalidate_path_checked-IsClosed}
use nixstore_arch.LocalStore.Registration.{AreValid, register_valid_paths-IsClosed}

abbrev info : StorePath → List StorePath → ValidPathInfo
info p refs = record {
  path = p;
  nar_size = 120;
  ultimate = false;
  hash_and_sigs = [];
  ca = none;
  deriver = none;
  references = refs;
}

abbrev library : ValidPathInfo
library = info (codes "lib") []

abbrev program : ValidPathInfo
program = info (codes "prog") (codes "lib" ∷ codes "prog" ∷ [])

abbrev no_paths : Db
no_paths = record { valid_paths = []; derivation_outputs = [] }

abbrev both : Db
both = record { valid_paths = program ∷ library ∷ []; derivation_outputs = [] }

abbrev library_only : Db
library_only = record { valid_paths = library ∷ []; derivation_outputs = [] }

both_registered : register_valid_paths (λ i. true) no_paths (program ∷ library ∷ []) ≡ ok both
unfolding register_valid_paths register_infos add_valid_path is_valid_path find_info bytes_eq
    bytes_lt register_all_references register_references query_valid_path_id add_reference
    add_reference_in references_of paths_of check_cycle topo_sort visit_items dfs_visit
    visit_references enter leave set_insert set_erase member
both_registered = refl

dangling_refused :
    register_valid_paths (λ i. true) no_paths (program ∷ []) ≡ err (invalid_path (codes "lib"))
unfolding register_valid_paths register_infos add_valid_path is_valid_path find_info bytes_eq
    bytes_lt register_all_references register_references query_valid_path_id add_reference
    add_reference_in
dangling_refused = refl

library_in_use :
    invalidate_path_checked both (codes "lib") ≡ err (path_in_use (codes "lib") (codes "prog" ∷ []))
unfolding invalidate_path_checked invalidate_unreferred is_valid_path find_info bytes_eq bytes_lt
    query_referrers referrers_in member set_insert set_erase
library_in_use = refl

program_goes : invalidate_path_checked both (codes "prog") ≡ ok library_only
unfolding invalidate_path_checked invalidate_unreferred is_valid_path find_info bytes_eq bytes_lt
    query_referrers referrers_in member set_insert set_erase invalidate_path delete_row remove_info
    remove_outputs
program_goes = refl

invalidate_path_checked-IsClosed_example :
    IsRemoved (codes "prog") both library_only × (IsClosed both → IsClosed library_only)
invalidate_path_checked-IsClosed_example =
    invalidate_path_checked-IsClosed both (codes "prog") library_only program_goes

register_valid_paths-IsClosed_example :
    AreValid both (program ∷ library ∷ [])
    × ((q : StorePath) → is_valid_path no_paths q ≡ true → is_valid_path both q ≡ true)
    × (IsClosed no_paths → IsClosed both)
register_valid_paths-IsClosed_example =
    register_valid_paths-IsClosed (λ i. true) no_paths (program ∷ library ∷ []) both both_registered
