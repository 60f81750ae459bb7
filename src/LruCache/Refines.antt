-- ===== src/LruCache/Refines.antt =====
-- Theorems on the cache and the list of its items in the order of use.
use nixstore_arch.Prelude.{
  ℕ, suc, ◌≤◌, ◌<◌, ◌≡◌, ◌↔◌, ◌∙◌, refl, sym, ap, Bool, true, false, List, [], ◌∷◌, ◌++◌, length,
  length-append, leb, ◌==◌, none, some, Option-cases, arith, Bool-cases, inl, inr,
}
use mathlib.Core.Path.{subst}
use nixstore_arch.LruCache.{
  Cache, node_erase, node_key, promote, init, find, map_erase, erase, retire, emplace, make_room,
  upsert, get,
}
use nixstore_arch.LruCache.Recency.{value_of, without, drop_oldest, inserted, touched}
use nixstore_arch.LruCache.Entries.{
  Items, nodes, values, has_node, nodes-append, values-append, length-values, has_node-append,
  AreDistinct, HasKeysOnce, find-erase, find-append, erase_absent, length-erase, HasKeysOnce-erase,
  HasKeysOnce-append, AreDistinct-HasKeysOnce, has_node-erase, has_node-erase_self,
  AreDistinct-erase, AreDistinct-append, nodes-erase, has_node_of_find, node_key-nodes,
  values-erase, value_of-values,
}

module _ {K V : Type 0} (eq : K → K → Bool) (eq_iff : (a b : K) → (eq a b ≡ true) ↔ (a ≡ b)) where
  -- The map and the list of nodes hold the items `es`, each once, and no more than fit.
  pub record IsKept (es : Items K V) (c : Cache K V) : Type 0 where
    pub in_order : c.lru ≡ nodes es
    pub found : (k : K) → find eq k c.entries ≡ find eq k es
    pub sized : length c.entries ≡ length es
    pub bounded : length es ≤ c.capacity
    pub once : HasKeysOnce eq eq_iff c.entries
    pub distinct : AreDistinct eq eq_iff es
    pub fresh : (n : ℕ) → has_node n es ≡ true → n < c.next

  abbrev pub Represents : List (K × V) → Cache K V → Type 0
  Represents l c = (es : Items K V) × (values es ≡ l) × IsKept es c

  init-Represents : (capacity : ℕ) → Represents [] (init capacity)
  unfolding init values has_node find nodes
  init-Represents capacity = (
    [],
    refl,
    record {
      in_order = refl;
      found = λ k. refl;
      sized = refl;
      bounded = omega arith;
      once = tt;
      distinct = tt;
      fresh = λ n h. absurd (cc);
    },
  )

  module _ (k : K) where
    erase-IsKept :
        (es : Items K V) (c : Cache K V) → IsKept es c → IsKept (map_erase eq k es) (erase eq k c).1
    unfolding erase
    erase-IsKept es c h = elim (Option-cases (find eq k c.entries)) [
      | inl absent ↦
          rw (absent, erase)
            (subst (λ x. IsKept x c) (sym (erase_absent eq eq_iff k es (sym (h.found k) ∙ absent)))
              h)
      | inr ((n, v), present) ↦
          let there : find eq k es ≡ some (n, v) = sym (h.found k) ∙ present in
          rw (present, erase)
            (record {
              in_order =
                  ap (node_erase n) h.in_order ∙ nodes-erase eq eq_iff k es n v h.distinct there;
              found = λ j. ground (
                arith,
                h.found j,
                find-erase eq eq_iff k j es,
                find-erase eq eq_iff k j c.entries,
              );
              sized = omega (
                arith,
                h.sized,
                length-erase eq eq_iff k es (n, v) (AreDistinct-HasKeysOnce eq eq_iff es h.distinct)
                    there,
                length-erase eq eq_iff k c.entries (n, v) h.once present,
              );
              bounded = omega (
                arith,
                h.bounded,
                length-erase eq eq_iff k es (n, v) (AreDistinct-HasKeysOnce eq eq_iff es h.distinct)
                    there,
              );
              once = HasKeysOnce-erase eq eq_iff k c.entries h.once;
              distinct = AreDistinct-erase eq eq_iff k es h.distinct;
              fresh = λ m p. h.fresh m (ground (arith, has_node-erase eq eq_iff m k es));
            })
    ]

  -- `LRUCache::erase` on a cache that represents a list in the order of use gives a cache that
  -- represents the list without the key.
  pub erase-Represents :
      (k : K) (l : List (K × V)) (c : Cache K V)
      → Represents l c
      → Represents (without eq k l) (erase eq k c).1
  erase-Represents k l c (es, e, h) =
      (map_erase eq k es, values-erase eq eq_iff k es ∙ ap (without eq k) e, erase-IsKept k es c h)

  retire-IsKept :
      (k : K) (n : ℕ) (v : V) (es : Items K V) (c : Cache K V)
      → IsKept ((k, (n, v)) ∷ es) c
      → IsKept es (retire eq c)
  unfolding retire nodes find has_node
  retire-IsKept k n v es c h =
      rw (h.in_order, retire)
        (record {
          in_order = refl;
          found = λ j. ground (
            arith,
            h.found j,
            find-erase eq eq_iff k j c.entries,
            h.distinct,
            eq_iff j k,
            eq_iff k j,
          );
          sized = omega (
            arith,
            h.sized,
            length-erase eq eq_iff k c.entries (n, v) h.once
                (ground (arith, h.found k, eq_iff k k)),
          );
          bounded = omega (arith, h.bounded);
          once = HasKeysOnce-erase eq eq_iff k c.entries h.once;
          distinct = h.distinct.2;
          fresh = λ m p. h.fresh m (ground arith);
        })

  -- The cache that `upsert` adds to has room for one more.
  abbrev HasRoom : Items K V → Cache K V → Cache K V → Type 0
  HasRoom es c c' =
      (rest : Items K V) × (values rest ≡ drop_oldest eq c.capacity (values es))
      × IsKept rest c'
      × (suc (length rest) ≤ c.capacity)
      × (c'.capacity ≡ c.capacity)
      × ((j : K) → find eq j es ≡ none → find eq j rest ≡ none)

  make_room-HasRoom :
      (es : Items K V) (c : Cache K V)
      → 0 < c.capacity
      → IsKept es c
      → HasRoom es c (make_room eq c)
  unfolding make_room drop_oldest values find
  make_room-HasRoom [] c positive h =
      let room : leb c.capacity (length c.entries) ≡ false = ground (arith, h.sized) in
      rw room ([], refl, h, omega arith, refl, λ j e. e)
  make_room-HasRoom ((k, (n, v)) ∷ es) c positive h =
      elim (Bool-cases (leb c.capacity (length c.entries))) [
        | inl full ↦ rw full (
          es,
          ground (arith, h.sized, length-values es),
          retire-IsKept k n v es c h,
          omega (arith, h.bounded),
          unfold retire in ground arith,
          λ j f. ground arith,
        )
        | inr room ↦ rw room (
          (k, (n, v)) ∷ es,
          ground (arith, h.sized, length-values es),
          h,
          ground (arith, h.sized),
          refl,
          λ j f. f,
        )
      ]

  emplace-IsKept :
      (k : K) (v : V) (es : Items K V) (c : Cache K V)
      → IsKept es c
      → find eq k es ≡ none
      → suc (length es) ≤ c.capacity
      → IsKept (es ++ (k, (c.next, v)) ∷ []) (emplace eq k v c)
  unfolding emplace
  emplace-IsKept k v es c h absent room = record {
    in_order = ap (λ l. l ++ (c.next, k) ∷ []) h.in_order ∙ sym (nodes-append es k c.next v);
    found = λ j. ground (
      arith,
      h.found j,
      find-append eq eq_iff j es k (c.next, v),
      find-append eq eq_iff j c.entries k (c.next, v),
    );
    sized = omega (
      arith,
      h.sized,
      length-append es ((k, (c.next, v)) ∷ []),
      length-append c.entries ((k, (c.next, v)) ∷ []),
    );
    bounded = omega (arith, room, length-append es ((k, (c.next, v)) ∷ []));
    once = HasKeysOnce-append eq eq_iff c.entries k (c.next, v) h.once (h.found k ∙ absent);
    distinct = AreDistinct-append eq eq_iff es k c.next v h.distinct absent unused;
    fresh = λ m p. ground (arith, has_node-append es m k c.next v, h.fresh m);
  }
    where
      unused : has_node c.next es ≡ false
      unused = elim (Bool-cases (has_node c.next es)) [
        | inl used ↦ absurd (omega (arith, h.fresh c.next used))
        | inr free ↦ free
      ]

  -- `LRUCache::upsert` on a cache that represents a list in the order of use gives a cache that
  -- represents the list with the item as its newest: an older item of the key is gone, then the
  -- oldest one if the list was as long as the capacity; a cache of capacity 0 stays as it was.
  pub upsert-Represents :
      (k : K) (v : V) (l : List (K × V)) (c : Cache K V)
      → Represents l c
      → Represents (inserted eq c.capacity k v l) (upsert eq k v c)
  unfolding upsert inserted
  upsert-Represents k v l c (es, e, h) = elim (Bool-cases (c.capacity == 0)) [
    | inl nothing ↦ rw nothing (es, e, h)
    | inr positive ↦
        let same : (erase eq k c).1.capacity ≡ c.capacity = unfold erase in ground arith in
        let (rest, e', kept, room, same', absent) =
          make_room-HasRoom (map_erase eq k es) (erase eq k c).1 (ground (arith, same))
            (erase-IsKept k es c h) in
        let gone : find eq k rest ≡ none =
          absent k (ground (arith, find-erase eq eq_iff k k es, eq_iff k k)) in
        rw positive (
          rest ++ (k, ((make_room eq (erase eq k c).1).next, v)) ∷ [],
          values-append rest k (make_room eq (erase eq k c).1).next v
              ∙ ap (λ x. x ++ (k, v) ∷ []) (e' ∙ (rw (same, values-erase eq eq_iff k es, e) refl)),
          emplace-IsKept k v rest (make_room eq (erase eq k c).1) kept gone (rw same' room),
        )
  ]

  promote-IsKept :
      (k : K) (n : ℕ) (v : V) (es : Items K V) (c : Cache K V)
      → IsKept es c
      → find eq k es ≡ some (n, v)
      → IsKept (map_erase eq k es ++ (k, (n, v)) ∷ []) (record c { lru = promote n c.lru })
  unfolding promote
  promote-IsKept k n v es c h there =
      let key : node_key n c.lru ≡ some k =
        rw h.in_order (node_key-nodes eq eq_iff k es n v h.distinct there) in
      rw (key, promote)
        (record {
          in_order =
              ap (λ l. l ++ (n, k) ∷ [])
                (ap (node_erase n) h.in_order ∙ nodes-erase eq eq_iff k es n v h.distinct there)
              ∙ sym (nodes-append (map_erase eq k es) k n v);
          found = λ j. ground (
            arith,
            h.found j,
            find-erase eq eq_iff k j es,
            find-append eq eq_iff j (map_erase eq k es) k (n, v),
            there,
            eq_iff k j,
            eq_iff j k,
          );
          sized = h.sized ∙ same_length;
          bounded = omega (arith, h.bounded, same_length);
          once = h.once;
          distinct =
              AreDistinct-append eq eq_iff (map_erase eq k es) k n v
                (AreDistinct-erase eq eq_iff k es h.distinct)
                (ground (arith, find-erase eq eq_iff k k es, eq_iff k k))
                (has_node-erase_self eq eq_iff k es n v h.distinct there);
          fresh = λ m p. ground (
            arith,
            h.fresh m,
            has_node-append (map_erase eq k es) m k n v,
            has_node-erase eq eq_iff m k es,
            has_node_of_find eq eq_iff k es n v there,
          );
        })
    where
      same_length : length es ≡ length (map_erase eq k es ++ (k, (n, v)) ∷ [])
      same_length = omega (
        arith,
        length-append (map_erase eq k es) ((k, (n, v)) ∷ []),
        length-erase eq eq_iff k es (n, v) (AreDistinct-HasKeysOnce eq eq_iff es h.distinct) there,
      )

  -- `LRUCache::get` on a cache that represents a list in the order of use returns the value that
  -- the list has for the key, and the new cache represents the list with that item as its newest.
  pub get-Represents :
      (k : K) (l : List (K × V)) (c : Cache K V)
      → Represents l c
      → ((get eq k c).0 ≡ value_of eq k l) × Represents (touched eq k l) (get eq k c).1
  unfolding get touched
  get-Represents k l c (es, e, h) = elim (Option-cases (find eq k c.entries)) [
    | inl absent ↦
        let unknown : value_of eq k l ≡ none =
          rw (← e) (ground (arith, value_of-values eq eq_iff k es, h.found k)) in
        rw (absent, get, unknown, touched) (refl, (es, e, h))
    | inr ((n, v), present) ↦
        let there : find eq k es ≡ some (n, v) = sym (h.found k) ∙ present in
        let known : value_of eq k l ≡ some v =
          rw (← e) (ground (arith, value_of-values eq eq_iff k es)) in
        rw (present, get, known, touched)
          (
            refl,
            (
              map_erase eq k es ++ (k, (n, v)) ∷ [],
              values-append (map_erase eq k es) k n v
                  ∙ ap (λ x. x ++ (k, v) ∷ []) (values-erase eq eq_iff k es ∙ ap (without eq k) e),
              promote-IsKept k n v es c h there,
            ),
          )
  ]
