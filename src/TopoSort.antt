-- ===== src/TopoSort.antt =====
-- src/libutil/include/nix/util/topo-sort.hh: depth-first topological sorting of a set.
pub mod Complete
mod Tests
use nixstore_arch.Prelude.{
  ℕ, zero, suc, Bool, true, false, not, ◌&&◌, List, [], ◌∷◌, ◌++◌, Bytes, bytes_eq, length, member,
  set_insert, set_erase, if◌then◌else◌, Option, none, some, Result, ok, err, ◌>>=◌,
}
use mathlib.Core.List.{reverse}

-- `Cycle`, with the parent at which the node was met again. `stuck` is no result of the program:
-- the rounds of the model ran out.
pub data Failure : Type 0 where
  cycle : Bytes → Option Bytes → Failure
  stuck : Failure

-- The variables that `dfsVisit` captures; `sorted` is in the order of `push_back`.
pub record Dfs : Type 0 where
  pub visited : List Bytes
  pub parents : List Bytes
  pub sorted : List Bytes

abbrev pub initial : Dfs
initial = record { visited = []; parents = []; sorted = [] }

-- The loop over the references of `path`, for the call `visit` of one level further down.
unfoldable pub visit_references :
    (visit : Bytes → Option Bytes → Dfs → Result Failure Dfs)
    → List Bytes
    → Bytes
    → List Bytes
    → Dfs
    → Result Failure Dfs
visit_references visit items path [] d = ok d
visit_references visit items path (i ∷ references) d =
    elim (not (bytes_eq i path) && member i items) [
      | true ↦ do d' ← visit i (some path) d; visit_references visit items path references d'
      | false ↦ visit_references visit items path references d
    ]

unfoldable pub enter : Bytes → Dfs → Dfs
enter path d = record d { visited = set_insert path d.visited; parents = set_insert path d.parents }

unfoldable pub leave : Bytes → Dfs → Dfs
leave path d = record d { sorted = d.sorted ++ path ∷ []; parents = set_erase path d.parents }

-- `dfsVisit`, for so many levels of recursion
unfoldable pub dfs_visit :
    ℕ
    → List Bytes
    → (children : Bytes → List Bytes) → Bytes
    → Option Bytes
    → Dfs
    → Result Failure Dfs
dfs_visit zero items children path parent d = err stuck
dfs_visit (suc fuel) items children path parent d = elim (member path d.parents) [
  | true ↦ err (cycle path parent)
  | false ↦ elim (member path d.visited) [
    | true ↦ ok d
    | false ↦ do
      d' ←
          visit_references (dfs_visit fuel items children) items path (children path) (enter path d)
      ok (leave path d')
  ]
]

-- the loop over the items
unfoldable pub visit_items :
    ℕ → List Bytes → (children : Bytes → List Bytes) → List Bytes → Dfs → Result Failure Dfs
visit_items fuel items children [] d = ok d
visit_items fuel items children (i ∷ rest) d = do
  d' ← dfs_visit fuel items children i none d
  visit_items fuel items children rest d'

-- Every level of recursion visits an item that was not visited before.
unfoldable pub topo_sort : List Bytes → (Bytes → List Bytes) → Result Failure (List Bytes)
topo_sort items children = do
  d ← visit_items (suc (length items)) items children items initial
  ok (reverse d.sorted)
