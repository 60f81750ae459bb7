-- ===== src/LruCache.antt =====
-- src/libutil/include/nix/util/lru-cache.hh: a cache that retires the least recently used item. A
-- node of `std::list` has a number, which an iterator to it keeps; an iterator into the map is the
-- key it points at.
pub mod Recency
pub mod Entries
pub mod Refines
mod Tests
use nixstore_arch.Prelude.{
  ℕ, zero, suc, ◌+◌, Bool, true, false, List, [], ◌∷◌, ◌++◌, length, leb, ◌==◌, if◌then◌else◌,
  Option, none, some,
}

-- `entries` is `data`, the map to a node of `lru` and a value; `next` numbers the next node.
pub record Cache (K V : Type 0) : Type 0 where
  pub capacity : ℕ
  pub entries : List (K × (ℕ × V))
  pub lru : List (ℕ × K)
  pub next : ℕ

unfoldable pub node_erase : {K : Type 0} → ℕ → List (ℕ × K) → List (ℕ × K)
node_erase n [] = []
node_erase n ((m, k) ∷ lru) = let rest = node_erase n lru in if n == m then rest else (m, k) ∷ rest

unfoldable pub node_key : {K : Type 0} → ℕ → List (ℕ × K) → Option K
node_key n [] = none
node_key n ((m, k) ∷ lru) = let rest = node_key n lru in if n == m then some k else rest

-- `lru.splice(lru.end(), lru, it)`: the node keeps its number.
unfoldable pub promote : {K : Type 0} → ℕ → List (ℕ × K) → List (ℕ × K)
promote n lru = elim (node_key n lru) [ none ↦ lru | some k ↦ node_erase n lru ++ (n, k) ∷ [] ]

-- `LRUCache(capacity)`
unfoldable pub init : {K V : Type 0} → ℕ → Cache K V
init capacity = record { capacity = capacity; entries = []; lru = []; next = 0 }

module _ {K V : Type 0} (eq : K → K → Bool) where
  unfoldable pub find : K → List (K × (ℕ × V)) → Option (ℕ × V)
  find k [] = none
  find k ((j, e) ∷ entries) = let rest = find k entries in if eq k j then some e else rest

  unfoldable pub map_erase : K → List (K × (ℕ × V)) → List (K × (ℕ × V))
  map_erase k [] = []
  map_erase k ((j, e) ∷ entries) =
      let rest = map_erase k entries in if eq k j then rest else (j, e) ∷ rest

  unfoldable pub erase : K → Cache K V → Bool × Cache K V
  erase k c = elim (find k c.entries) [
    | none ↦ (false, c)
    | some (n, v) ↦ (true, record c { lru = node_erase n c.lru; entries = map_erase k c.entries })
  ]

  -- The oldest item goes. `lru.begin()` of an empty list is not reached from `upsert`.
  unfoldable pub retire : Cache K V → Cache K V
  retire c = elim c.lru [
    | [] ↦ c
    | (n, k) ∷ rest ↦ record c { entries = map_erase k c.entries; lru = rest }
  ]

  unfoldable pub emplace : K → V → Cache K V → Cache K V
  emplace k v c = record c {
    entries = c.entries ++ (k, (c.next, v)) ∷ [];
    lru = c.lru ++ (c.next, k) ∷ [];
    next = c.next + 1;
  }

  unfoldable pub make_room : Cache K V → Cache K V
  make_room c = if leb c.capacity (length c.entries) then retire c else c

  unfoldable pub upsert : K → V → Cache K V → Cache K V
  upsert k v c = if c.capacity == 0 then c else emplace k v (make_room (erase k c).1)

  unfoldable pub get : K → Cache K V → Option V × Cache K V
  get k c = elim (find k c.entries) [
    | none ↦ (none, c)
    | some (n, v) ↦ (some v, record c { lru = promote n c.lru })
  ]

unfoldable pub size : {K V : Type 0} → Cache K V → ℕ
size c = length c.entries

unfoldable pub clear : {K V : Type 0} → Cache K V → Cache K V
clear c = record c { entries = []; lru = [] }
