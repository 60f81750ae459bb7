-- ===== src/Archive/RoundTrip.antt =====
-- Theorems on `parseDump` of what `dumpPath` wrote.
use Prim.Native.String.{String}
use nixstore_arch.Prelude.{
  ℕ, zero, suc, ◌≤◌, ◌<◌, ◌≡◌, refl, ap, Bool, true, false, List, [], ◌∷◌, ◌++◌, append_assoc,
  Bytes, codes, length, length-append, bytes_eq, bytes_eq_refl, bytes_lt, Result, ok, bind-parts,
  ok-injective, arith, if◌then◌else◌,
}
use nixstore_arch.Serialise.{
  Error, Source, write_num, write_padding, write_string, u64_max, read_string,
}
use nixstore_arch.Serialise.RoundTrip.{
  length-le_bytes, read_num-write_num, read_exact-append, read_padding-write_padding,
  read_string-write_string,
}
use nixstore_arch.CanonPath
use nixstore_arch.Archive.Tree.{
  nar_max_depth, nar_version_magic, Node, Entries, Settings, nil, entry, to_list,
}
use nixstore_arch.Archive.Dump.{tag, dump_contents, NameMap, dump_entries, dump, dump_path}
use nixstore_arch.Archive.Parse.{
  parse_contents, expect_tag, parse_executable, parse_regular, parse_name, case_hack, parse_entries,
  parse_directory, parse_symlink, parse_type, parse, read_version, parse_dump, is_valid_name,
  nar_max_tag,
}
use nixstore_arch.Archive.Shape.{IsNar, AreEntries}
use nixstore_arch.Archive.Listing.{unrenamed, listing}

expect_tag-tag :
    (s : String) (rest : Source) → length (codes s) ≤ 32 → expect_tag s (tag s ++ rest) ≡ ok rest
unfolding expect_tag
expect_tag-tag s rest h =
    rw (read_string-write_string 32 (codes s) rest h (omega arith)) (rw (bytes_eq_refl (codes s)))

read_tag :
    (s : String) (rest : Source)
    → length (codes s) ≤ 32
    → read_string nar_max_tag (tag s ++ rest) ≡ ok (codes s, rest)
read_tag s rest h = read_string-write_string 32 (codes s) rest h (omega arith)

tag_pos : (s : String) → 0 < length (tag s)
unfolding write_string write_num
tag_pos s = rw length-append (omega (arith, length-le_bytes 8 (length (codes s))))

read_version-magic :
    (rest : Source)
    → read_version (write_string nar_version_magic ++ rest) ≡ ok (nar_version_magic, rest)
unfolding read_version
read_version-magic rest =
    rw
      (read_string-write_string 13 nar_version_magic rest (omega arith) (omega arith), read_version)

-- The settings of these theorems: no case hack, and a sink that wants the contents.
module _ (st : Settings) (no_hack : st.use_case_hack ≡ false)
    (reads : st.skip_contents ≡ false) where
  parse_contents-dump :
      (contents rest : Bytes)
      → length contents ≤ u64_max
      → parse_contents st
          (write_num (length contents) ++ (contents ++ (write_padding (length contents) ++ rest)))
        ≡ ok (contents, rest)
  unfolding parse_contents
  parse_contents-dump contents rest h = rw (read_num-write_num u64_max (length contents) _ h h) (
      rw reads (
        rw (read_exact-append contents _) (rw (read_padding-write_padding (length contents) rest))))

  parse_regular-dump :
      (exe : Bool) (contents rest : Bytes)
      → length contents ≤ u64_max
      → parse_regular st (
          ((if exe then tag "executable" ++ tag "" else []) ++ (dump_contents contents ++ tag ")"))
          ++ rest)
        ≡ ok (Node.regular exe contents, rest)
  unfolding parse_regular parse_executable dump_contents bytes_eq
  parse_regular-dump true contents rest h = simp append_assoc (
      rw (read_tag "executable" _ (omega arith)) (
        rw (read_string-write_string 0 (codes "") _ (omega arith) (omega arith)) (
          rw (read_tag "contents" _ (omega arith))
            (rw (parse_contents-dump contents _ h) (rw (expect_tag-tag ")" rest (omega arith)))))))
  parse_regular-dump false contents rest h = simp append_assoc (
      rw (read_tag "contents" _ (omega arith))
        (rw (parse_contents-dump contents _ h) (rw (expect_tag-tag ")" rest (omega arith)))))

  parse_symlink-dump :
      (target rest : Bytes)
      → IsNar (Node.symlink target)
      → parse_symlink ((tag "target" ++ (write_string target ++ tag ")")) ++ rest)
        ≡ ok (Node.symlink target, rest)
  unfolding parse_symlink
  parse_symlink-dump target rest (valid, fits) = simp append_assoc (
      rw (expect_tag-tag "target" _ (omega arith)) (
        rw (read_string-write_string 4095 target _ fits (omega arith))
          (rw valid (rw (expect_tag-tag ")" rest (omega arith))))))

  parse_name-dump :
      (prev name rest : Bytes)
      → is_valid_name name ≡ true
      → length name ≤ 255
      → bytes_lt prev name ≡ true
      → parse_name prev (tag "(" ++ (tag "name" ++ (write_string name ++ rest))) ≡ ok (name, rest)
  unfolding parse_name
  parse_name-dump prev name rest valid fits lt = rw (expect_tag-tag "(" _ (omega arith)) (
      rw (expect_tag-tag "name" _ (omega arith))
        (rw (read_string-write_string 255 name rest fits (omega arith)) (rw valid (rw lt))))

  -- One level: the archives of the entries are read back by a parser that reads back each of them.
  module _ (dump' : Bytes → Node → Result Error Bytes)
      (parse' : Source → Result Error (Node × Source))
      (agree : (path : Bytes) (node : Node) (bs rest : Bytes)
        → IsNar node
        → dump' path node ≡ ok bs
        → parse' (bs ++ rest) ≡ ok (node, rest))
      (path : Bytes) where
    parse_entry-dump :
        (fuel : ℕ) (prev name body rest : Bytes) (node : Node)
        → is_valid_name name ≡ true
        → length name ≤ 255
        → bytes_lt prev name ≡ true
        → parse' (body ++ (tag ")" ++ rest)) ≡ ok (node, tag ")" ++ rest)
        → {entries : Entries} {rest' : Source}
        → parse_entries st parse' fuel name [] rest ≡ ok (entries, rest')
        → parse_entries st parse' (suc fuel) prev [] (
            tag "entry"
            ++ (tag "("
                ++ (tag "name"
                    ++ (write_string name ++ (tag "node" ++ (body ++ (tag ")" ++ rest)))))))
          ≡ ok (entry name node entries, rest')
    unfolding parse_entries case_hack bytes_eq
    parse_entry-dump fuel prev name body rest node valid fits lt head tail =
        rw (read_tag "entry" _ (omega arith)) (
          rw (parse_name-dump prev name _ valid fits lt) (
            rw no_hack (
              rw (expect_tag-tag "node" _ (omega arith))
                (rw head (rw (expect_tag-tag ")" rest (omega arith)) (rw tail))))))

    parse_end :
        (fuel : ℕ) (prev rest : Bytes)
        → parse_entries st parse' (suc fuel) prev [] (tag ")" ++ rest) ≡ ok (nil, rest)
    unfolding parse_entries bytes_eq
    parse_end fuel prev rest = rw (read_tag ")" rest (omega arith))

    parse_entries-dump_entries :
        (fuel : ℕ) (prev : Bytes) (entries : Entries) (bs rest : Bytes)
        → AreEntries prev entries
        → dump_entries dump' (λ _. true) path (unrenamed (to_list entries)) ≡ ok bs
        → length (to_list entries) < fuel
        → parse_entries st parse' fuel prev [] (bs ++ (tag ")" ++ rest)) ≡ ok (entries, rest)
    unfolding dump_entries
    parse_entries-dump_entries zero prev entries bs rest h e lt = absurd (omega arith)
    parse_entries-dump_entries (suc fuel) prev nil bs rest h e lt =
        rw (← ok-injective e) (parse_end fuel prev rest)
    parse_entries-dump_entries (suc fuel) prev (entry name node es) bs rest (v, f, l, n, h) e lt =
        let (body, e₁, e') = bind-parts (dump' (CanonPath.push path name) node) _ e in
        let (others, e₂, e₃) =
          bind-parts (dump_entries dump' (λ _. true) path (unrenamed (to_list es))) _ e' in
        rw (← ok-injective e₃) (
          simp append_assoc (
            parse_entry-dump fuel prev name body (others ++ (tag ")" ++ rest)) node v f l
              (agree _ node body _ n e₁)
              (parse_entries-dump_entries fuel name es others rest h e₂ (omega arith))))

    length-dump_entries :
        (m : NameMap (Bytes × Node)) (bs : Bytes)
        → dump_entries dump' (λ _. true) path m ≡ ok bs
        → length m ≤ length bs
    unfolding dump_entries write_string
    length-dump_entries [] bs e = omega arith
    length-dump_entries ((name, (hacked, node)) ∷ m) bs e =
        let (body, _, e') = bind-parts (dump' (CanonPath.push path hacked) node) _ e in
        let (others, e₂, e₃) = bind-parts (dump_entries dump' (λ _. true) path m) _ e' in
        rw (← ok-injective e₃)
          (simp length-append (omega (arith, length-dump_entries m others e₂, length-le_bytes 8 5)))

    length-unrenamed : (es : List (Bytes × Node)) → length (unrenamed es) ≡ length es
    length-unrenamed [] = refl
    length-unrenamed (e ∷ es) = ap suc (length-unrenamed es)

    parse_directory-dump :
        (entries : Entries) (body rest : Bytes)
        → AreEntries [] entries
        → dump_entries dump' (λ _. true) path (unrenamed (to_list entries)) ≡ ok body
        → parse_directory st parse' (body ++ (tag ")" ++ rest)) ≡ ok (Node.directory entries, rest)
    unfolding parse_directory
    parse_directory-dump entries body rest h e = rw (
        parse_entries-dump_entries (suc (length (body ++ (tag ")" ++ rest)))) [] entries body rest h
          e
          (rw (length-append, length-append)
            (omega (
              arith,
              length-dump_entries (unrenamed (to_list entries)) body e,
              length-unrenamed (to_list entries),
              tag_pos ")",
            ))))

  -- The levels that a dump needed are enough for the parse.
  pub parse-dump :
      (levels : ℕ) (path : Bytes) (node : Node) (bs rest : Bytes)
      → IsNar node
      → dump st (λ _. true) levels path node ≡ ok bs
      → parse st levels (bs ++ rest) ≡ ok (node, rest)
  unfolding dump parse parse_type bytes_eq
  parse-dump zero path node bs rest h e = cc
  parse-dump (suc levels) path (Node.regular exe contents) bs rest h e = rw (← ok-injective e) (
      rw (append_assoc, append_assoc, append_assoc)
        (rw (expect_tag-tag "(" _ (omega arith)) (
          rw (expect_tag-tag "type" _ (omega arith))
            (rw (read_tag "regular" _ (omega arith)) (parse_regular-dump exe contents rest h)))))
  parse-dump (suc levels) path (Node.directory entries) bs rest h e =
      let (body, e₁, e₂) =
        bind-parts
          (dump_entries (dump st (λ _. true) levels) (λ _. true) path (unrenamed (to_list entries)))
          _ (rw (listing st no_hack entries h) at e) in
      rw (← ok-injective e₂) (
        rw (append_assoc, append_assoc, append_assoc, append_assoc)
          (rw (expect_tag-tag "(" _ (omega arith)) (
            rw (expect_tag-tag "type" _ (omega arith)) (
              rw (read_tag "directory" _ (omega arith)) (
                parse_directory-dump (dump st (λ _. true) levels) (parse st levels)
                  (parse-dump levels) path entries body rest h e₁)))))
  parse-dump (suc levels) path (Node.symlink target) bs rest h e = rw (← ok-injective e) (
      rw (append_assoc, append_assoc, append_assoc)
        (rw (expect_tag-tag "(" _ (omega arith)) (
          rw (expect_tag-tag "type" _ (omega arith))
            (rw (read_tag "symlink" _ (omega arith)) (parse_symlink-dump target rest h)))))
  parse-dump (suc levels) path (Node.special kind) bs rest h e = absurd h

  -- A parse gives its sink the object that was dumped, and leaves what follows the archive.
  pub parse_dump-dump_path :
      (path : Bytes) (node : Node) (bs rest : Bytes)
      → IsNar node
      → dump_path st (λ _. true) path node ≡ ok bs
      → parse_dump st (bs ++ rest) ≡ ok (node, rest)
  unfolding dump_path parse_dump
  parse_dump-dump_path path node bs rest h e =
      let (body, e₁, e₂) = bind-parts (dump st (λ _. true) nar_max_depth path node) _ e in
      rw (← ok-injective e₂) (
        rw append_assoc (
          rw (read_version-magic (body ++ rest)) (
            rw (bytes_eq_refl nar_version_magic)
              (parse-dump nar_max_depth path node body rest h e₁))))
