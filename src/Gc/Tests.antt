-- ===== src/Gc/Tests.antt =====
-- A store with a program that is a root, its library, an old library, and a file that is no store object.
use nixstore_arch.Prelude.{
  ℕ, ◌≡◌, refl, true, false, List, [], ◌∷◌, ◌++◌, Bytes, codes, bytes_eq, bytes_lt, member,
  set_insert, set_erase, none, some, arith,
}
use nixstore_arch.TopoSort.{visit_references, enter, leave, dfs_visit, visit_items, topo_sort}
use nixstore_arch.LocalStore.{
  StorePath, ValidPathInfo, Db, find_info, is_valid_path, referrers_in, query_referrers,
  remove_info, remove_outputs, delete_row, invalidate_path, invalidate_unreferred,
  invalidate_path_checked, query_valid_derivers, derivers_in,
}
use nixstore_arch.LocalStore.Closed.{IsClosed}
use nixstore_arch.StorePath.{
  store_path, check_hash, check_name, check_dots, check_characters, is_legal, is_base32, in_range,
  hash_part, name_part, first_bytes, bytes_after,
}
use nixstore_arch.Gc.State.{
  return_dead, delete_dead, whole_store, Options, Disk, should_delete, Gc, insert_all, lock_shared,
  reset_pending, add_alive, and_then,
}
use nixstore_arch.Gc.Closure.{deriver_of, enqueue_all, query_deps, closure_loop, compute_fs_closure}
use nixstore_arch.Gc.Visit.{
  is_whole_store, not_to_delete, find_cached, derivers_to_visit, mark_alive, check,
  cached_referrers, valid_neighbours, neighbours, set_pending, visit_step, visit,
}
use nixstore_arch.Gc.Sweep.{
  delete_from_store, delete_invalidated, delete_path, delete_each, delete_sorted, delete_visited,
  references_in, maybe_delete_referrers_closure, starts_with, erase_cached,
}
use nixstore_arch.Gc.Collect.{
  is_delete_specific, collect_name, collect_listing, collect_store, collect_paths, report, finish,
  collect_wanted, collect_garbage,
}
use nixstore_arch.Gc.Roots.{IsReached, collect_garbage-IsReached}
use nixstore_arch.Gc.TempRoots.{Protects, delete_each-Protects}
use nixstore_arch.Gc.Ends.{IsEnd, collect_garbage_ends}

abbrev base_name : ℕ → Bytes → Bytes
base_name c name = codes "0000000000000000000000000000000" ++ c ∷ codes "-" ++ name

abbrev lib : StorePath
lib = base_name b'1' (codes "lib")

abbrev prog : StorePath
prog = base_name b'2' (codes "prog")

abbrev old : StorePath
old = base_name b'3' (codes "lib")

abbrev info : StorePath → List StorePath → ValidPathInfo
info p refs = record {
  path = p;
  nar_size = 120;
  ultimate = false;
  hash_and_sigs = [];
  ca = none;
  deriver = none;
  references = refs;
}

abbrev store : Db
store = record {
  valid_paths = info lib [] ∷ info prog (lib ∷ prog ∷ []) ∷ info old [] ∷ [];
  derivation_outputs = [];
}

store-IsClosed : IsClosed store
unfolding is_valid_path find_info member
store-IsClosed p i e q m = ground arith

abbrev start : Gc
start = record {
  db = store;
  dead = [];
  alive = [];
  referrers_cache = [];
  temp_roots = [];
  pending = none;
  arrivals = [];
  deleted = [];
  bytes_freed = 0;
}

abbrev disk : Disk
disk = record { size_of = λ name. 10; tmp_locked = λ name. false }

abbrev everything : Options
everything = record {
  action = delete_dead;
  paths_to_delete = whole_store;
  max_freed = 1000;
  keep_outputs = true;
  keep_derivations = true;
}

abbrev names : List Bytes
names = codes "." ∷ lib ∷ codes "stray" ∷ old ∷ prog ∷ []

collect_garbage-IsReached_example :
    IsClosed (collect_garbage (prog ∷ []) disk everything names start).1.db
    × ((p : StorePath)
        → IsReached (prog ∷ []) store p
        → (i : ValidPathInfo) × (find_info p store.valid_paths ≡ some i)
          × (find_info p (collect_garbage (prog ∷ []) disk everything names start).1.db.valid_paths
              ≡ some i))
collect_garbage-IsReached_example =
    collect_garbage-IsReached (prog ∷ []) disk everything names start store-IsClosed refl

collect_garbage_ends_example : IsEnd (collect_garbage (prog ∷ []) disk everything names start).0
collect_garbage_ends_example = collect_garbage_ends (prog ∷ []) disk everything names start refl

-- A client has sent the old library as a root since it was visited.
abbrev old_held : Gc
old_held = record start { temp_roots = codes "00000000000000000000000000000003" ∷ [] }

delete_each-Protects_example :
    Protects old old_held (delete_each disk everything (old ∷ []) old_held).1
unfolding hash_part first_bytes member bytes_eq
delete_each-Protects_example = delete_each-Protects old disk everything (old ∷ []) old_held refl

old_deleted :
    (collect_garbage (prog ∷ []) disk everything names start).1.deleted ≡ old ∷ codes "stray" ∷ []
unfolding derivers_in starts_with erase_cached is_whole_store not_to_delete find_cached
    derivers_to_visit deriver_of collect_garbage collect_wanted collect_paths collect_store
    is_delete_specific collect_listing collect_name store_path check_hash check_name check_dots
    check_characters is_legal is_base32 in_range hash_part name_part first_bytes bytes_after
    maybe_delete_referrers_closure visit visit_step check neighbours valid_neighbours
    cached_referrers query_referrers referrers_in query_valid_derivers enqueue_all mark_alive
    compute_fs_closure closure_loop query_deps insert_all add_alive delete_visited references_in
    delete_sorted delete_each delete_path delete_invalidated delete_from_store set_pending
    lock_shared reset_pending should_delete and_then finish report invalidate_path_checked
    invalidate_unreferred invalidate_path delete_row remove_info remove_outputs is_valid_path
    find_info topo_sort visit_items dfs_visit visit_references enter leave set_insert set_erase
    member bytes_eq bytes_lt
old_deleted = refl

-- A report of what is dead deletes the file that is no store object, and keeps the dead library.
abbrev what_is_dead : Options
what_is_dead = record {
  action = return_dead;
  paths_to_delete = whole_store;
  max_freed = 1000;
  keep_outputs = true;
  keep_derivations = true;
}

stray_freed : (collect_garbage (prog ∷ []) disk what_is_dead names start).1.bytes_freed ≡ 10
unfolding derivers_in starts_with erase_cached is_whole_store not_to_delete find_cached
    derivers_to_visit deriver_of collect_garbage collect_wanted collect_paths collect_store
    is_delete_specific collect_listing collect_name store_path check_hash check_name check_dots
    check_characters is_legal is_base32 in_range hash_part name_part first_bytes bytes_after
    maybe_delete_referrers_closure visit visit_step check neighbours valid_neighbours
    cached_referrers query_referrers referrers_in query_valid_derivers enqueue_all mark_alive
    compute_fs_closure closure_loop query_deps insert_all add_alive delete_visited references_in
    delete_sorted delete_each delete_path delete_invalidated delete_from_store set_pending
    lock_shared reset_pending should_delete and_then finish report invalidate_path_checked
    invalidate_unreferred invalidate_path delete_row remove_info remove_outputs is_valid_path
    find_info topo_sort visit_items dfs_visit visit_references enter leave set_insert set_erase
    member bytes_eq bytes_lt
stray_freed = refl
