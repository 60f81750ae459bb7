-- ===== src/TopoSort/Tests.antt =====
-- A chain and a cycle, sorted.
use nixstore_arch.Prelude.{
  ◌≡◌, ◌≢◌, refl, true, List, [], ◌∷◌, Bytes, codes, bytes_eq, bytes_lt, member, set_insert,
  set_erase, if◌then◌else◌, some, ok, err,
}
use nixstore_arch.TopoSort.{
  cycle, stuck, visit_references, enter, leave, dfs_visit, visit_items, topo_sort,
}
use nixstore_arch.TopoSort.Complete.{topo_sort_ends}

abbrev chain : List Bytes
chain = codes "a" ∷ codes "b" ∷ codes "c" ∷ []

-- `b` refers to `a` and `c`, which refer to themselves.
abbrev references : Bytes → List Bytes
references p = if bytes_eq p (codes "b") then codes "a" ∷ codes "c" ∷ [] else p ∷ []

abbrev ring : Bytes → List Bytes
ring p = if bytes_eq p (codes "a") then codes "b" ∷ [] else codes "a" ∷ []

referrers_first : topo_sort chain references ≡ ok (codes "b" ∷ codes "c" ∷ codes "a" ∷ [])
unfolding topo_sort visit_items dfs_visit visit_references enter leave set_insert set_erase member
    bytes_eq bytes_lt
referrers_first = refl

ring_found : topo_sort chain ring ≡ err (cycle (codes "a") (some (codes "b")))
unfolding topo_sort visit_items dfs_visit visit_references enter leave set_insert set_erase member
    bytes_eq bytes_lt
ring_found = refl

topo_sort_ends_example :
    (topo_sort chain references ≢ err stuck)
    × ((sorted : List Bytes)
        → topo_sort chain references ≡ ok sorted
        → (q : Bytes) → member q sorted ≡ true
        → member q chain ≡ true)
topo_sort_ends_example = topo_sort_ends chain references
