-- ===== src/Archive/Dump.antt =====
-- `SourceAccessor::dumpPath`: the archive of an object, as the bytes appended to the sink, or the
-- exception; what the sink was given before an exception is not kept.
use Prim.Native.String.{String}
use nixstore_arch.Prelude.{
  ℕ, zero, suc, Bool, true, false, List, [], ◌∷◌, ◌++◌, Bytes, codes, length, bytes_eq, bytes_lt,
  if◌then◌else◌, Result, ok, err, ◌>>=◌,
}
use nixstore_arch.Serialise.{Error, plain, write_num, write_padding, write_string}
use nixstore_arch.CanonPath
use nixstore_arch.Archive.Tree.{
  FileType, Node, Settings, file_type, to_list, nar_max_depth, nar_version_magic, case_hack_suffix,
}

abbrev pub tag : String → Bytes
tag s = write_string (codes s)

unfoldable pub dump_contents : Bytes → Bytes
dump_contents contents =
    tag "contents" ++ (write_num (length contents) ++ (contents ++ write_padding (length contents)))

is_fifo_or_socket : FileType → Bool
is_fifo_or_socket FileType.fifo = true
is_fifo_or_socket FileType.socket = true
is_fifo_or_socket _ = false

-- The entries that are kept: fifos and sockets go, where `readDirectory` knows them.
unfoldable pub erase_specials : Settings → List (Bytes × Node) → List (Bytes × Node)
unfolding is_fifo_or_socket file_type
erase_specials st [] = []
erase_specials st ((name, node) ∷ rest) =
    let rest' = erase_specials st rest in
    if st.reports_types
    then (if is_fifo_or_socket (file_type node) then rest' else (name, node) ∷ rest')
    else (name, node) ∷ rest'

-- A `std::map` from names, in their order.
abbrev pub NameMap : Type 0 → Type 0
NameMap V = List (Bytes × V)

-- `map.emplace(k, v)`: the map, and whether the key was new.
unfoldable pub emplace : {V : Type 0} → Bytes → V → NameMap V → NameMap V × Bool
emplace k v [] = ((k, v) ∷ [], true)
emplace k v ((j, w) ∷ m) =
    let rest = emplace k v m in
    if bytes_lt k j
    then ((k, v) ∷ (j, w) ∷ m, true)
    else if bytes_eq k j
    then ((j, w) ∷ m, false)
    else ((j, w) ∷ rest.0, rest.1)

is_prefix : Bytes → Bytes → Bool
is_prefix [] s = true
is_prefix (p ∷ ps) [] = false
is_prefix (p ∷ ps) (c ∷ s) =
    let rest = is_prefix ps s in if bytes_eq (p ∷ []) (c ∷ []) then rest else false

-- `pos = name.find(caseHackSuffix); name.erase(pos)`
unfoldable pub erase_suffix : Bytes → Bytes
unfolding is_prefix
erase_suffix [] = []
erase_suffix (c ∷ name) =
    let rest = erase_suffix name in if is_prefix case_hack_suffix (c ∷ name) then [] else c ∷ rest

-- The map `unhacked`, from a name in the archive to the name and the object in the directory.
unfoldable pub unhack :
    Settings → List (Bytes × Node) → NameMap (Bytes × Node) → Result Error (NameMap (Bytes × Node))
unhack st [] unhacked = ok unhacked
unhack st ((name, node) ∷ rest) unhacked =
    let hacked = emplace (erase_suffix name) (name, node) unhacked in
    let plainly = emplace name (name, node) unhacked in
    let collision : Result Error (NameMap (Bytes × Node)) = err (plain "file name collision") in
    let more_hacked = unhack st rest hacked.0 in
    let more = unhack st rest plainly.0 in
    if st.use_case_hack then (if hacked.1 then more_hacked else collision) else more

-- The loop over `unhacked`, for the call `dump` of one level further down.
unfoldable pub dump_entries :
    (dump : Bytes → Node → Result Error Bytes) (filter : Bytes → Bool)
    → Bytes
    → NameMap (Bytes × Node)
    → Result Error Bytes
dump_entries dump filter path [] = ok []
dump_entries dump filter path ((name, (hacked, node)) ∷ rest) =
    let more = dump_entries dump filter path rest in
    if filter (CanonPath.push path name)
    then (do
      body ← dump (CanonPath.push path hacked) node
      others ← more
      ok (
          tag "entry"
          ++ (tag "("
              ++ (tag "name"
                  ++ (write_string name ++ (tag "node" ++ (body ++ (tag ")" ++ others))))))))
    else more

-- The recursive lambda of `dumpPath`, for `narMaxDepth - depth` levels that are left.
unfoldable pub dump : Settings → (Bytes → Bool) → ℕ → Bytes → Node → Result Error Bytes
dump st filter zero path node = err (plain "path exceeds maximum NAR directory depth")
dump st filter (suc levels) path (Node.regular exe contents) = ok (
    tag "("
    ++ (tag "type"
        ++ (tag "regular"
            ++ ((if exe then tag "executable" ++ tag "" else [])
                ++ (dump_contents contents ++ tag ")")))))
dump st filter (suc levels) path (Node.directory entries) = do
  unhacked ← unhack st (erase_specials st (to_list entries)) []
  body ← dump_entries (dump st filter levels) filter path unhacked
  ok (tag "(" ++ (tag "type" ++ (tag "directory" ++ (body ++ tag ")"))))
dump st filter (suc levels) path (Node.symlink target) = ok (
    tag "("
    ++ (tag "type" ++ (tag "symlink" ++ (tag "target" ++ (write_string target ++ tag ")")))))
dump st filter (suc levels) path (Node.special kind) = err (plain "file has an unsupported type")

unfoldable pub dump_path : Settings → (Bytes → Bool) → Bytes → Node → Result Error Bytes
dump_path st filter path node = do
  body ← dump st filter nar_max_depth path node
  ok (write_string nar_version_magic ++ body)

-- `dumpString`
unfoldable pub dump_string : Bytes → Bytes
dump_string s =
    write_string nar_version_magic
    ++ (tag "("
        ++ (tag "type" ++ (tag "regular" ++ (tag "contents" ++ (write_string s ++ tag ")")))))
