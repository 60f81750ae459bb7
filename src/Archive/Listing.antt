-- ===== src/Archive/Listing.antt =====
-- The entries that `dumpPath` goes through: for an object that an archive can hold they are those
-- of the directory, in order.
use nixstore_arch.Prelude.{
  ◌≡◌, ◌⊎◌, inl, inr, refl, true, false, List, [], ◌∷◌, ◌++◌, append_assoc, append-nil, ◌∙◌, Bytes,
  bytes_eq_iff, bytes_lt, bytes_lt_irrefl, bytes_lt_trans, All, All-append, ok, arith,
}
use nixstore_arch.Archive.Tree.{Node, Entries, Settings, nil, entry, to_list}
use nixstore_arch.Archive.Dump.{NameMap, emplace, erase_specials, unhack}
use nixstore_arch.Archive.Shape.{AreEntries}

abbrev pub unrenamed : List (Bytes × Node) → NameMap (Bytes × Node)
unrenamed [] = []
unrenamed ((name, node) ∷ rest) = (name, (name, node)) ∷ unrenamed rest

abbrev IsUpTo : {V : Type 0} → Bytes → Bytes × V → Type 0
IsUpTo prev p = (bytes_lt p.0 prev ≡ true) ⊎ (p.0 ≡ prev)

abbrev IsBefore : {V : Type 0} → Bytes → Bytes × V → Type 0
IsBefore name p = bytes_lt p.0 name ≡ true

module _ {V : Type 0} where
  emplace-last :
      (k : Bytes) (v : V) (m : NameMap V)
      → All (IsBefore k) m
      → emplace k v m ≡ (m ++ (k, v) ∷ [], true)
  unfolding emplace
  emplace-last k v [] h = refl
  emplace-last k v ((j, w) ∷ m) h =
      ground
        (arith, emplace-last k v m h.1, bytes_lt_trans j k j, bytes_lt_irrefl j, bytes_eq_iff k j)

  up_to→before :
      (prev name : Bytes) (m : NameMap V)
      → bytes_lt prev name ≡ true
      → All (IsUpTo prev) m
      → All (IsBefore name) m
  up_to→before prev name [] lt h = tt
  up_to→before prev name ((j, w) ∷ m) lt (inl p, h) =
      (bytes_lt_trans j prev name p lt, up_to→before prev name m lt h)
  up_to→before prev name ((j, w) ∷ m) lt (inr p, h) = (rw p lt, up_to→before prev name m lt h)

  before→up_to : (name : Bytes) (m : NameMap V) → All (IsBefore name) m → All (IsUpTo name) m
  before→up_to name [] h = tt
  before→up_to name (p ∷ m) h = (inl h.0, before→up_to name m h.1)

module _ (st : Settings) where
  erase_specials-IsNar :
      (prev : Bytes) (entries : Entries)
      → AreEntries prev entries
      → erase_specials st (to_list entries) ≡ to_list entries
  unfolding erase_specials
  erase_specials-IsNar prev nil h = refl
  erase_specials-IsNar prev (entry name (Node.regular exe c) rest) (_, _, _, _, h) =
      ground (arith, erase_specials-IsNar name rest h)
  erase_specials-IsNar prev (entry name (Node.directory es) rest) (_, _, _, _, h) =
      ground (arith, erase_specials-IsNar name rest h)
  erase_specials-IsNar prev (entry name (Node.symlink t) rest) (_, _, _, _, h) =
      ground (arith, erase_specials-IsNar name rest h)
  erase_specials-IsNar prev (entry name (Node.special k) rest) (_, _, _, bad, h) = absurd bad

  module _ (no_hack : st.use_case_hack ≡ false) where
    unhack-acc :
        (prev : Bytes) (entries : Entries) (acc : NameMap (Bytes × Node))
        → AreEntries prev entries
        → All (IsUpTo prev) acc
        → unhack st (to_list entries) acc ≡ ok (acc ++ unrenamed (to_list entries))
    unfolding unhack
    unhack-acc prev nil acc h up = rw append-nil
    unhack-acc prev (entry name node rest) acc (_, _, lt, _, h) up =
        let before = up_to→before prev name acc lt up in
        rw (no_hack, emplace-last name (name, node) acc before)
          (unhack-acc name rest (acc ++ (name, (name, node)) ∷ []) h
              (All-append (IsUpTo name) acc _ (before→up_to name acc before) (inr refl, tt))
            ∙ rw append_assoc)

    pub listing :
        (entries : Entries)
        → AreEntries [] entries
        → unhack st (erase_specials st (to_list entries)) [] ≡ ok (unrenamed (to_list entries))
    listing entries h = rw (erase_specials-IsNar [] entries h) (unhack-acc [] entries [] h tt)
