-- ===== src/Archive/Shape.antt =====
-- The trees that an archive can hold.
use nixstore_arch.Prelude.{◌≡◌, ◌≤◌, Bytes, length, true, bytes_lt, []}
use nixstore_arch.Serialise.{u64_max}
use nixstore_arch.Archive.Tree.{Node, Entries, nil, entry}
use nixstore_arch.Archive.Parse.{is_valid_name, is_valid_target, nar_max_name, nar_max_target}

-- Names are valid and strictly increasing, symlink targets are valid, and sizes fit their words.
abbrev mutual
  pub IsNar : Node → Type 0
  IsNar (Node.regular exe contents) = length contents ≤ u64_max
  IsNar (Node.directory entries) = AreEntries [] entries
  IsNar (Node.symlink target) = (is_valid_target target ≡ true) × (length target ≤ nar_max_target)
  IsNar (Node.special kind) = ⊥

  pub AreEntries : Bytes → Entries → Type 0
  AreEntries prev nil = Unit
  AreEntries prev (entry name node rest) =
      (is_valid_name name ≡ true)
      × (length name ≤ nar_max_name)
      × (bytes_lt prev name ≡ true)
      × IsNar node
      × AreEntries name rest
