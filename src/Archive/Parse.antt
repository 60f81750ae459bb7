-- ===== src/Archive/Parse.antt =====
-- `parseDump`: what a parse of an archive gives to its sink, as a tree, and the bytes after it.
use Prim.Native.String.{String}
use nixstore_arch.Prelude.{
  ℕ, zero, suc, ◌+◌, ◌-◌, ◌*◌, ◌/◌, ◌%◌, Bool, true, false, not, ◌&&◌, ◌||◌, List, [], ◌∷◌, ◌++◌,
  Bytes, codes, length, bytes_eq, bytes_lt, contains, ltb, leb, ◌==◌, if◌then◌else◌, Result, ok,
  err, require, ◌>>=◌, ◌>>◌, Option, none, some,
}
use nixstore_arch.Serialise.{
  Error, Source, bad_archive, plain, stuck, is_serialisation_error, u64_max, read_num, read_exact,
  read_padding, read_string,
}
use nixstore_arch.Archive.Tree.{
  Node, Entries, Settings, nil, entry, nar_max_depth, nar_version_magic, case_hack_suffix,
}

abbrev pub nar_max_tag : ℕ
nar_max_tag = 32

abbrev pub nar_max_name : ℕ
nar_max_name = 255

abbrev pub nar_max_target : ℕ
nar_max_target = 4095

-- `alignUp<uint64_t>(val, 8)`: the mask clears the last three bits.
unfoldable pub align_up : ℕ → Result Error ℕ
align_up val =
    if ltb (u64_max - 7) val
    then err (plain "can't align: value is too large")
    else ok ((val + 7) / 8 * 8)

-- `parseContents`; a sink that skips is given nothing.
unfoldable pub parse_contents : Settings → Source → Result Error (Bytes × Source)
unfolding align_up
parse_contents st src = do
  (size, rest) ← read_num u64_max src
  if st.skip_contents
      then (do left ← align_up size; (skipped, rest') ← read_exact left rest; ok ([], rest'))
      else (do
        (contents, rest') ← read_exact size rest
        rest'' ← read_padding size rest'
        ok (contents, rest''))

unfoldable pub expect_tag : String → Source → Result Error Source
expect_tag expected src = do
  (tag, rest) ← read_string nar_max_tag src
  require (bytes_eq tag (codes expected)) (bad_archive "expected tag")
  ok rest

-- The part of a regular file that follows its type: the executable marker and the contents.
unfoldable pub parse_executable : Bytes → Source → Result Error (Bool × Bytes × Source)
parse_executable tag src =
    if bytes_eq tag (codes "executable")
    then (do
      (s2, rest) ← read_string 0 src
      require (bytes_eq s2 []) (bad_archive "executable marker has non-empty value")
      (tag', rest') ← read_string nar_max_tag rest
      ok (true, tag', rest'))
    else ok (false, tag, src)

unfoldable pub parse_regular : Settings → Source → Result Error (Node × Source)
parse_regular st src = do
  (tag, rest) ← read_string nar_max_tag src
  (exe, tag', rest') ← parse_executable tag rest
  require (bytes_eq tag' (codes "contents")) (bad_archive "expected tag 'contents'")
  (contents, rest'') ← parse_contents st rest'
  rest''' ← expect_tag ")" rest''
  ok (Node.regular exe contents, rest''')

unfoldable pub is_valid_name : Bytes → Bool
is_valid_name name = not (
    bytes_eq name []
    || (bytes_eq name (codes ".")
        || (bytes_eq name (codes "..") || (contains b'/' name || contains 0 name))))

-- `std::map<std::string, int, CaseInsensitiveCompare>`, by `strcasecmp` in the C locale
abbrev pub Names : Type 0
Names = List (Bytes × ℕ)

lower : ℕ → ℕ
lower c = if leb b'A' c && leb c b'Z' then c + 32 else c

unfoldable pub case_eq : Bytes → Bytes → Bool
unfolding lower
case_eq [] [] = true
case_eq [] (y ∷ ys) = false
case_eq (x ∷ xs) [] = false
case_eq (x ∷ xs) (y ∷ ys) = lower x == lower y && case_eq xs ys

unfoldable pub find_name : Bytes → Names → Option ℕ
find_name name [] = none
find_name name ((j, count) ∷ names) =
    let rest = find_name name names in if case_eq name j then some count else rest

set_count : Bytes → ℕ → Names → Names
set_count name n [] = []
set_count name n ((j, count) ∷ names) =
    let rest = set_count name n names in
    if case_eq name j then (j, n) ∷ names else (j, count) ∷ rest

-- `std::to_string`, with as many digits as `fuel`
decimal : ℕ → ℕ → Bytes
decimal zero n = []
decimal (suc fuel) n =
    let more = decimal fuel (n / 10) ++ ((n % 10 + 48) ∷ []) in
    if ltb n 10 then (n + 48) ∷ [] else more

-- `names.find` has found the hacked name or not.
unfoldable pub hacked_entry : Bytes → Bytes → ℕ → Names → Option ℕ → Result Error (Bytes × Names)
unfolding set_count
hacked_entry name hacked count names none = ok (hacked, set_count name count names)
hacked_entry name hacked count names (some _) =
    err (bad_archive "NAR contains file name that collides with case-hacked file name")

-- `names.find` has found the name or not.
unfoldable pub hack_entry : Bytes → Names → Option ℕ → Result Error (Bytes × Names)
unfolding hacked_entry decimal
hack_entry name names none = ok (name, (name, 0) ∷ names)
hack_entry name names (some count) =
    let hacked = name ++ (case_hack_suffix ++ decimal 10 (count + 1)) in
    hacked_entry name hacked (count + 1) names (find_name hacked names)

-- The name under which an entry is restored, with the names met so far.
unfoldable pub case_hack : Settings → Bytes → Names → Result Error (Bytes × Names)
unfolding hack_entry
case_hack st name names =
    if st.use_case_hack then hack_entry name names (find_name name names) else ok (name, names)

-- The head of an entry: its name, checked against the name before it.
unfoldable pub parse_name : Bytes → Source → Result Error (Bytes × Source)
parse_name prev_name src = do
  rest ← expect_tag "(" src
  rest' ← expect_tag "name" rest
  (name, rest'') ← read_string nar_max_name rest'
  require (is_valid_name name) (bad_archive "NAR contains invalid file name")
  require (bytes_lt prev_name name) (bad_archive "NAR directory is not sorted")
  ok (name, rest'')

-- The loop over the entries of a directory, for the call `parse` of one level further down.
-- Every round reads a tag, so one round more than there are bytes is enough.
unfoldable pub parse_entries :
    Settings
    → (parse : Source → Result Error (Node × Source)) → ℕ
    → Bytes
    → Names
    → Source
    → Result Error (Entries × Source)
parse_entries st parse zero prev_name names src = err stuck
parse_entries st parse (suc fuel) prev_name names src = do
  (tag, rest) ← read_string nar_max_tag src
  elim (bytes_eq tag (codes ")")) [
    | true ↦ ok (nil, rest)
    | false ↦ do
      require (bytes_eq tag (codes "entry")) (bad_archive "expected tag 'entry' or ')'")
      (name, rest₁) ← parse_name prev_name rest
      (hacked, names') ← case_hack st name names
      rest₂ ← expect_tag "node" rest₁
      (node, rest₃) ← parse rest₂
      rest₄ ← expect_tag ")" rest₃
      (entries, rest₅) ← parse_entries st parse fuel name names' rest₄
      ok (entry hacked node entries, rest₅)
  ]

unfoldable pub parse_directory :
    Settings
    → (parse : Source → Result Error (Node × Source)) → Source
    → Result Error (Node × Source)
parse_directory st parse src = do
  (entries, rest) ← parse_entries st parse (suc (length src)) [] [] src
  ok (Node.directory entries, rest)

unfoldable pub is_valid_target : Bytes → Bool
is_valid_target target = not (bytes_eq target [] || contains 0 target)

unfoldable pub parse_symlink : Source → Result Error (Node × Source)
parse_symlink src = do
  rest ← expect_tag "target" src
  (target, rest') ← read_string nar_max_target rest
  require (is_valid_target target) (bad_archive "NAR contains invalid symlink target")
  rest'' ← expect_tag ")" rest'
  ok (Node.symlink target, rest'')

-- The branches of `parse` on the type.
unfoldable pub parse_type :
    Settings
    → (parse : Source → Result Error (Node × Source)) → Bytes
    → Source
    → Result Error (Node × Source)
parse_type st parse type src =
    if bytes_eq type (codes "regular")
    then parse_regular st src
    else if bytes_eq type (codes "directory")
    then parse_directory st parse src
    else if bytes_eq type (codes "symlink")
    then parse_symlink src
    else err (bad_archive "unknown file type")

-- `parse`, for `narMaxDepth - depth` levels that are left
unfoldable pub parse : Settings → ℕ → Source → Result Error (Node × Source)
parse st zero src = err (bad_archive "NAR directory nesting exceeds maximum depth")
parse st (suc levels) src = do
  rest ← expect_tag "(" src
  rest' ← expect_tag "type" rest
  (type, rest'') ← read_string nar_max_tag rest'
  parse_type st (parse st levels) type rest''

-- The `try` block around the version: a `SerialisationError` leaves `version` empty.
unfoldable pub caught : Source → Result Error (Bytes × Source) → Result Error (Bytes × Source)
caught src (ok p) = ok p
caught src (err e) = if is_serialisation_error e then ok ([], src) else err e

unfoldable pub read_version : Source → Result Error (Bytes × Source)
unfolding caught
read_version src = caught src (read_string (length nar_version_magic) src)

unfoldable pub parse_dump : Settings → Source → Result Error (Node × Source)
parse_dump st src = do
  (version, rest) ← read_version src
  require (bytes_eq version nar_version_magic) (bad_archive "input doesn't look like a Nix archive")
  parse st nar_max_depth rest
