-- ===== src/Archive/Tests.antt =====
-- Concrete archives, and the theorems at them.
use nixstore_arch.Prelude.{
  ◌≤◌, ◌<◌, ◌≡◌, ◌≢◌, refl, Bool, true, false, [], ◌∷◌, ◌++◌, Bytes, codes, length, IsByte, All, ok,
  err, arith, append-nil, ltb, ◌&&◌, bytes_eq, bytes_lt, contains,
}
use nixstore_arch.Serialise.{
  Source, stuck, bad_archive, write_string, write_num, write_padding, le_bytes, padding, le_num,
  read_string, read_num, read_exact, read_padding, all_zero,
}
use nixstore_arch.CanonPath
use nixstore_arch.Archive.Tree.{Node, Settings, nil, entry, nar_version_magic, nar_max_depth}
use nixstore_arch.Archive.Dump.{
  tag, dump, dump_path, dump_entries, dump_contents, unhack, erase_specials, emplace,
}
use nixstore_arch.Archive.Parse.{
  parse_dump, parse, parse_type, parse_directory, parse_entries, parse_name, parse_regular,
  parse_contents, parse_symlink, read_version, case_hack, expect_tag, is_valid_name,
  is_valid_target,
}
use nixstore_arch.Archive.Shape.{IsNar}
use nixstore_arch.Archive.RoundTrip.{parse_dump-dump_path}
use nixstore_arch.Archive.Canonical.{parse_dump-eq-ok}
use nixstore_arch.Archive.Depth.{depth, too_deep, dump_path-depth}
use nixstore_arch.Archive.Termination.{parse_dump_ends}

-- What a run computes through.
running : Unit {0}
unfolding dump_path dump dump_entries dump_contents unhack erase_specials emplace parse_dump parse
    parse_type parse_directory parse_entries parse_name parse_symlink parse_regular parse_contents
    read_version case_hack expect_tag is_valid_name is_valid_target write_string write_num
    write_padding padding le_bytes le_num read_string read_num read_exact read_padding all_zero
    bytes_lt bytes_eq contains CanonPath.push
running = tt

abbrev plainly : Settings
plainly = record { use_case_hack = false; reports_types = true; skip_contents = false }

abbrev root : Bytes
root = codes "/"

abbrev sample : Node
sample = Node.directory (
    entry (codes "a") (Node.regular true (1 ∷ 2 ∷ 3 ∷ []))
      (entry (codes "b") (Node.symlink (codes "a")) nil))

abbrev sample_nar : Bytes
sample_nar = elim (dump_path plainly (λ _. true) root sample) [ ok bs ↦ bs | err e ↦ [] ]

sample-IsNar : IsNar sample
unfolding is_valid_name is_valid_target bytes_lt bytes_eq contains
sample-IsNar =
    ((refl, omega arith, refl, omega arith, (refl, omega arith, refl, (refl, omega arith), tt)))

dump_sample : dump_path plainly (λ _. true) root sample ≡ ok sample_nar
unfolding running
dump_sample = refl

all_bytes : Bytes → Bool
all_bytes [] = true
all_bytes (b ∷ bs) = ltb b 256 && all_bytes bs

all_bytes-IsByte : (bs : Bytes) → all_bytes bs ≡ true → All IsByte bs
unfolding all_bytes
all_bytes-IsByte [] e = tt
all_bytes-IsByte (b ∷ bs) e = ground (arith, all_bytes-IsByte bs)

sample_nar-IsByte : All IsByte sample_nar
unfolding all_bytes running
sample_nar-IsByte = all_bytes-IsByte sample_nar refl

parse_dump-dump_path_example : parse_dump plainly (sample_nar ++ 7 ∷ []) ≡ ok (sample, 7 ∷ [])
parse_dump-dump_path_example =
    parse_dump-dump_path plainly refl refl root sample sample_nar (7 ∷ []) sample-IsNar dump_sample

parse_sample : parse_dump plainly (sample_nar ++ []) ≡ ok (sample, [])
parse_sample =
    parse_dump-dump_path plainly refl refl root sample sample_nar [] sample-IsNar dump_sample

parse_dump-eq-ok_example :
    IsNar sample
    × ((bs : Bytes) × (dump_path plainly (λ _. true) root sample ≡ ok bs)
        × (sample_nar ++ [] ≡ bs ++ []))
parse_dump-eq-ok_example =
    parse_dump-eq-ok plainly refl refl root (sample_nar ++ []) (sample, [])
      (rw append-nil sample_nar-IsByte) parse_sample

dump_path-depth_example :
    (depth sample ≤ nar_max_depth
      → (bs : Bytes) × (dump_path plainly (λ _. true) root sample ≡ ok bs))
    × (nar_max_depth < depth sample → dump_path plainly (λ _. true) root sample ≡ err too_deep)
dump_path-depth_example = dump_path-depth plainly refl root sample sample-IsNar

parse_dump_ends_example :
    (parse_dump plainly (1 ∷ 2 ∷ []) ≢ err stuck)
    × ((node : Node) (rest : Source)
        → parse_dump plainly (1 ∷ 2 ∷ []) ≡ ok (node, rest)
        → length rest ≤ 2)
parse_dump_ends_example = parse_dump_ends plainly (1 ∷ 2 ∷ [])

-- An unsorted directory is refused.
parse_unsorted :
    parse_dump plainly (
      write_string nar_version_magic
      ++ (tag "("
          ++ (tag "type"
              ++ (tag "directory"
                  ++ (tag "entry"
                      ++ (tag "("
                          ++ (tag "name"
                              ++ (tag "b"
                                  ++ (tag "node"
                                      ++ (tag "("
                                          ++ (tag "type"
                                              ++ (tag "symlink"
                                                  ++ (tag "target"
                                                      ++ (tag "x"
                                                          ++ (tag ")"
                                                            ++ (tag ")"
                                                            ++ (tag "entry"
                                                            ++ (tag "("
                                                            ++ (tag "name"
                                                            ++ tag "a")))))))))))))))))))
    ≡ err (bad_archive "NAR directory is not sorted")
unfolding running
parse_unsorted = refl
