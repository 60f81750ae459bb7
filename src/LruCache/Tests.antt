-- ===== src/LruCache/Tests.antt =====
-- A cache for two items.
use nixstore_arch.Prelude.{ℕ, ◌≡◌, refl, List, [], ◌∷◌, Bytes, codes, bytes_eq, bytes_eq_iff, arith}
use nixstore_arch.LruCache.{
  Cache, node_erase, node_key, promote, find, map_erase, erase, retire, emplace, make_room, upsert,
  get,
}
use nixstore_arch.LruCache.Recency.{value_of, without, inserted, touched}
use nixstore_arch.LruCache.Entries.{values, nodes, has_node}
use nixstore_arch.LruCache.Refines.{Represents, erase-Represents, upsert-Represents, get-Represents}

abbrev two : Cache Bytes ℕ
two = record {
  capacity = 2;
  entries = (codes "b", (0, 5)) ∷ (codes "a", (1, 7)) ∷ [];
  lru = (1, codes "a") ∷ (0, codes "b") ∷ [];
  next = 2;
}

abbrev two_items : List (Bytes × ℕ)
two_items = (codes "a", 7) ∷ (codes "b", 5) ∷ []

two-Represents : Represents bytes_eq bytes_eq_iff two_items two
unfolding values nodes has_node find bytes_eq
two-Represents = (
  (codes "a", (1, 7)) ∷ (codes "b", (0, 5)) ∷ [],
  refl,
  record {
    in_order = refl;
    found = λ k. ground (arith, bytes_eq_iff k (codes "a"), bytes_eq_iff k (codes "b"));
    sized = refl;
    bounded = omega arith;
    once = (refl, (refl, tt));
    distinct = (refl, refl, (refl, refl, tt));
    fresh = λ n h. ground arith;
  },
)

get-Represents_example :
    ((get bytes_eq (codes "a") two).0 ≡ value_of bytes_eq (codes "a") two_items)
    × Represents bytes_eq bytes_eq_iff
        (touched bytes_eq (codes "a") two_items)
        (get bytes_eq (codes "a") two).1
get-Represents_example =
    get-Represents bytes_eq bytes_eq_iff (codes "a") two_items two two-Represents

upsert-Represents_example :
    Represents bytes_eq bytes_eq_iff
      (inserted bytes_eq 2 (codes "c") 1 two_items)
      (upsert bytes_eq (codes "c") 1 two)
upsert-Represents_example =
    upsert-Represents bytes_eq bytes_eq_iff (codes "c") 1 two_items two two-Represents

oldest_retired : (upsert bytes_eq (codes "c") 1 two).lru ≡ (0, codes "b") ∷ (2, codes "c") ∷ []
unfolding upsert erase find map_erase node_erase make_room retire emplace bytes_eq
oldest_retired = refl

read_kept :
    (upsert bytes_eq (codes "c") 1 (get bytes_eq (codes "a") two).1).lru
    ≡ (1, codes "a") ∷ (2, codes "c") ∷ []
unfolding upsert erase find map_erase node_erase make_room retire emplace bytes_eq get promote
    node_key
read_kept = refl

erase-Represents_example :
    Represents bytes_eq bytes_eq_iff
      (without bytes_eq (codes "a") two_items)
      (erase bytes_eq (codes "a") two).1
erase-Represents_example =
    erase-Represents bytes_eq bytes_eq_iff (codes "a") two_items two two-Represents
