-- ===== src/Archive/Canonical.antt =====
-- Theorems on what `parseDump` accepts.
use Prim.Native.String.{String}
use mathlib.Core.Path.{subst}
use nixstore_arch.Prelude.{
  ℕ, zero, suc, ◌≤◌, ◌≡◌, refl, ap, Bool, true, false, not, [], ◌∷◌, ◌++◌, append_assoc, Bytes,
  codes, IsByte, All, length, bytes_eq, bytes_eq→eq, bytes_lt, Bool-cases, inl, inr, Result, ok,
  >>=-elim, require-elim, ok-injective, arith, if◌then◌else◌, ltb, sym,
}
use nixstore_arch.Serialise.{
  Error, Source, bad_archive, write_string, u64_max, read_string, read_exact, read_num,
  read_padding,
}
use nixstore_arch.Serialise.Canonical.{
  read_exact-eq-ok, read_num-eq-ok, read_padding-eq-ok, read_string-eq-ok, IsString, IsString-parts,
}
use nixstore_arch.CanonPath
use nixstore_arch.Archive.Tree.{
  Node, Entries, Settings, entry, to_list, nar_max_depth, nar_version_magic,
}
use nixstore_arch.Archive.Dump.{tag, dump_contents, NameMap, dump_entries, dump, dump_path}
use nixstore_arch.Archive.Parse.{
  parse_contents, expect_tag, parse_executable, parse_regular, parse_name, case_hack, parse_entries,
  parse_directory, parse_symlink, parse_type, parse, read_version, parse_dump, is_valid_name,
  is_valid_target, nar_max_tag, nar_max_name, nar_max_target,
}
use nixstore_arch.Archive.Shape.{IsNar, AreEntries}
use nixstore_arch.Archive.Listing.{unrenamed, listing}

-- `src` is the tag `s` and then `rest`.
abbrev IsTagged : String → Source → Source → Type 0
IsTagged s src rest = (src ≡ tag s ++ rest) × All IsByte rest

string_is_tag :
    (s : String) (max : ℕ) (src t rest : Bytes)
    → IsString max src (t, rest)
    → bytes_eq t (codes s) ≡ true
    → IsTagged s src rest
string_is_tag s max src t rest (p, _, _, h) e = (rw (bytes_eq→eq t (codes s) e) at p, h)

expect_tag-eq-ok :
    (s : String) (src : Source) {rest : Source}
    → All IsByte src
    → expect_tag s src ≡ ok rest
    → IsTagged s src rest
unfolding expect_tag
expect_tag-eq-ok s src {rest} h e = >>=-elim (read_string nar_max_tag src) _ e λ (t, rest') e₁ e'.
    require-elim (bytes_eq t (codes s)) (bad_archive "expected tag") e' λ same e''.
      subst (IsTagged s src) (ok-injective e'')
        (string_is_tag s nar_max_tag src t rest' (read_string-eq-ok nar_max_tag src h e₁) same)

read_version-eq-ok :
    (src version rest : Bytes)
    → read_version src ≡ ok (version, rest)
    → bytes_eq version nar_version_magic ≡ true
    → read_string 13 src ≡ ok (version, rest)
unfolding read_version bytes_eq
read_version-eq-ok src version rest e magic = ground arith

module _ (st : Settings) (no_hack : st.use_case_hack ≡ false)
    (reads : st.skip_contents ≡ false) where
  parse_contents-eq-ok :
      (src : Source) {contents rest : Bytes}
      → All IsByte src
      → parse_contents st src ≡ ok (contents, rest)
      → IsString u64_max src (contents, rest)
  unfolding parse_contents
  parse_contents-eq-ok src {contents} {rest} h e =
      >>=-elim (read_num u64_max src) _ e λ (size, src₁) e₁ e'.
        >>=-elim (read_exact size src₁) _ (rw reads at e') λ (bs, src₂) e₂ e''.
          >>=-elim (read_padding size src₂) _ e'' λ src₃ e₃ e'''.
            subst (IsString u64_max src) (ok-injective e''') (
              IsString-parts u64_max size src src₁ src₂ src₃ bs
                (fits size (read_num-eq-ok u64_max src h e₁).1) (read_num-eq-ok u64_max src h e₁)
                (read_exact-eq-ok size src₁ e₂) (read_padding-eq-ok size src₂ e₃))
    where
      fits : (n : ℕ) → n ≤ u64_max → not (ltb u64_max n) ≡ true
      fits n p = ground arith

  abbrev keep : Bytes → Bool
  keep path = true

  -- What was parsed can be held by an archive, and dumps to the bytes that were read, behind `head`.
  abbrev Inverts : (Bytes → Bytes) → ℕ → Source → Node × Source → Type 0
  Inverts head levels src p =
      IsNar p.0
      × ((path : Bytes)
          → (bs : Bytes) × (dump st keep levels path p.0 ≡ ok (head bs)) × (src ≡ bs ++ p.1))
      × All IsByte p.1

  abbrev head_of : String → Bytes → Bytes
  head_of type bs = tag "(" ++ (tag "type" ++ (tag type ++ bs))

  parse_symlink-eq-ok :
      (levels : ℕ) (src : Source) {p : Node × Source}
      → All IsByte src
      → parse_symlink src ≡ ok p
      → Inverts (head_of "symlink") (suc levels) src p
  unfolding parse_symlink dump
  parse_symlink-eq-ok levels src h e = >>=-elim (expect_tag "target" src) _ e λ src₁ e₁ e'.
      >>=-elim (read_string nar_max_target src₁) _ e' λ (target, src₂) e₂ e''.
        require-elim (is_valid_target target) (bad_archive "NAR contains invalid symlink target")
          e''
          λ valid e'''. >>=-elim (expect_tag ")" src₂) _ e''' λ src₃ e₄ e₅.
            let (p₁, h₁) = expect_tag-eq-ok "target" src h e₁ in
            let (p₂, fits, _, h₂) = read_string-eq-ok nar_max_target src₁ h₁ e₂ in
            let (p₃, h₃) = expect_tag-eq-ok ")" src₂ h₂ e₄ in
            subst (Inverts (head_of "symlink") (suc levels) src) (ok-injective e₅)
              ((valid, fits), (λ path. (_, refl, rw (p₁, p₂, p₃) (simp append_assoc))), h₃)

  marker : Bool → Bytes
  marker exe = if exe then tag "executable" ++ tag "" else []

  -- `parse_executable`, from the source before the tag that it is given.
  abbrev IsMarked : Source → Bool × Bytes × Source → Type 0
  IsMarked src (exe, t, rest) =
      bytes_eq t (codes "contents") ≡ true
      → (src ≡ marker exe ++ (tag "contents" ++ rest)) × All IsByte rest

  parse_executable-eq-ok :
      (t : Bytes) (src₀ src : Source) {p : Bool × Bytes × Source}
      → IsString nar_max_tag src₀ (t, src)
      → parse_executable t src ≡ ok p
      → IsMarked src₀ p
  unfolding parse_executable marker
  parse_executable-eq-ok t src₀ src at_tag e = elim (Bool-cases (bytes_eq t (codes "executable"))) [
    | inl same ↦ >>=-elim (read_string 0 src) _ (rw same at e) λ (s2, src₁) e₁ e'.
        require-elim (bytes_eq s2 []) (bad_archive "executable marker has non-empty value") e'
          λ empty e''. >>=-elim (read_string nar_max_tag src₁) _ e'' λ (t', src₂) e₂ e'''.
            let (p₀, h₀) = string_is_tag "executable" nar_max_tag src₀ t src at_tag same in
            let (p₁, h₁) = string_is_tag "" 0 src s2 src₁ (read_string-eq-ok 0 src h₀ e₁) empty in
            subst (IsMarked src₀) (ok-injective e''') (λ contents.
              let (p₂, h₂) =
                string_is_tag "contents" nar_max_tag src₁ t' src₂
                  (read_string-eq-ok nar_max_tag src₁ h₁ e₂) contents in
              (rw (p₀, p₁, p₂) (simp append_assoc), h₂))
    | inr other ↦
        subst (IsMarked src₀) (ok-injective (rw other at e))
          (λ contents. string_is_tag "contents" nar_max_tag src₀ t src at_tag contents)
  ]

  parse_regular-eq-ok :
      (levels : ℕ) (src : Source) {p : Node × Source}
      → All IsByte src
      → parse_regular st src ≡ ok p
      → Inverts (head_of "regular") (suc levels) src p
  unfolding parse_regular dump dump_contents marker write_string
  parse_regular-eq-ok levels src h e = >>=-elim (read_string nar_max_tag src) _ e λ (t, src₁) e₁ e'.
      >>=-elim (parse_executable t src₁) _ e' λ (exe, t', src₂) e₂ e''.
        require-elim (bytes_eq t' (codes "contents")) (bad_archive "expected tag 'contents'") e''
          λ same e'''. >>=-elim (parse_contents st src₂) _ e''' λ (contents, src₃) e₃ e₄.
            >>=-elim (expect_tag ")" src₃) _ e₄ λ src₄ e₅ e₆.
              let (p₂, h₂) =
                parse_executable-eq-ok t src src₁ (read_string-eq-ok nar_max_tag src h e₁) e₂
                  same in
              let (p₃, _, fits, h₃) = parse_contents-eq-ok src₂ h₂ e₃ in
              let (p₄, h₄) = expect_tag-eq-ok ")" src₃ h₃ e₅ in
              subst (Inverts (head_of "regular") (suc levels) src) (ok-injective e₆)
                (fits, (λ path. (_, refl, rw (p₂, p₃, p₄) (simp append_assoc))), h₄)

  abbrev IsNamed : Bytes → Source → Bytes × Source → Type 0
  IsNamed prev src (name, rest) =
      (src ≡ tag "(" ++ (tag "name" ++ (write_string name ++ rest)))
      × (is_valid_name name ≡ true)
      × (length name ≤ nar_max_name)
      × (bytes_lt prev name ≡ true)
      × All IsByte rest

  parse_name-eq-ok :
      (prev : Bytes) (src : Source) {p : Bytes × Source}
      → All IsByte src
      → parse_name prev src ≡ ok p
      → IsNamed prev src p
  unfolding parse_name
  parse_name-eq-ok prev src h e = >>=-elim (expect_tag "(" src) _ e λ src₁ e₁ e'.
      >>=-elim (expect_tag "name" src₁) _ e' λ src₂ e₂ e''.
        >>=-elim (read_string nar_max_name src₂) _ e'' λ (name, src₃) e₃ e'''.
          require-elim (is_valid_name name) (bad_archive "NAR contains invalid file name") e'''
            λ valid e₄.
              require-elim (bytes_lt prev name) (bad_archive "NAR directory is not sorted") e₄
                λ lt e₅.
                  let (p₁, h₁) = expect_tag-eq-ok "(" src h e₁ in
                  let (p₂, h₂) = expect_tag-eq-ok "name" src₁ h₁ e₂ in
                  let (p₃, fits, _, h₃) = read_string-eq-ok nar_max_name src₂ h₂ e₃ in
                  subst (IsNamed prev src) (ok-injective e₅) (rw (p₁, p₂, p₃), valid, fits, lt, h₃)

  -- One level, over a dump and a parse of the level below.
  module _ (dump' : Bytes → Node → Result Error Bytes)
      (parse' : Source → Result Error (Node × Source))
      (sound : (src : Source) (p : Node × Source)
        → All IsByte src
        → parse' src ≡ ok p
        → IsNar p.0
          × ((path : Bytes) → (bs : Bytes) × (dump' path p.0 ≡ ok bs) × (src ≡ bs ++ p.1))
          × All IsByte p.1) where
    abbrev InvertsEntries : Bytes → Source → Entries × Source → Type 0
    InvertsEntries prev src p =
        AreEntries prev p.0
        × ((path : Bytes)
            → (bs : Bytes) × (dump_entries dump' keep path (unrenamed (to_list p.0)) ≡ ok bs)
              × (src ≡ bs ++ (tag ")" ++ p.1)))
        × All IsByte p.1

    dump_entry :
        (path name body others : Bytes) (node : Node) (m : NameMap (Bytes × Node))
        → dump' (CanonPath.push path name) node ≡ ok body
        → dump_entries dump' keep path m ≡ ok others
        → dump_entries dump' keep path ((name, (name, node)) ∷ m)
          ≡ ok (
              tag "entry"
              ++ (tag "("
                  ++ (tag "name"
                      ++ (write_string name ++ (tag "node" ++ (body ++ (tag ")" ++ others)))))))
    unfolding dump_entries
    dump_entry path name body others node m e₁ e₂ = rw e₁ (rw e₂)

    dump_none : (path : Bytes) → dump_entries dump' keep path [] ≡ ok []
    unfolding dump_entries
    dump_none path = refl

    -- One round of the loop, from its parts.
    inverts_entry :
        (prev name : Bytes) (node : Node) (src src₁ src₂ src₃ src₄ src₅ : Source)
        (p : Entries × Source)
        → IsTagged "entry" src src₁
        → IsNamed prev src₁ (name, src₂)
        → IsTagged "node" src₂ src₃
        → IsNar node
          × ((path : Bytes) → (bs : Bytes) × (dump' path node ≡ ok bs) × (src₃ ≡ bs ++ src₄))
          × All IsByte src₄
        → IsTagged ")" src₄ src₅
        → InvertsEntries name src₅ p
        → InvertsEntries prev src (entry name node p.0, p.1)
    inverts_entry prev name node src src₁ src₂ src₃ src₄ src₅ p (p₁, _) (p₂, valid, fits, lt, _)
          (p₃, _) (nar, from, _) (p₅, _) (rest, others, h) =
        (
          (valid, fits, lt, nar, rest),
          (λ path.
              let (body, d, q) = from (CanonPath.push path name) in
              let (bs, ds, qs) = others path in
              (
                _,
                dump_entry path name body bs node (unrenamed (to_list p.0)) d ds,
                rw (p₁, p₂, p₃, q, p₅, qs) (simp append_assoc),
              )),
          h,
        )

    parse_entries-eq-ok :
        (fuel : ℕ) (prev : Bytes) (src : Source) (p : Entries × Source)
        → All IsByte src
        → parse_entries st parse' fuel prev [] src ≡ ok p
        → InvertsEntries prev src p
    unfolding parse_entries case_hack
    parse_entries-eq-ok zero prev src p h e = cc
    parse_entries-eq-ok (suc fuel) prev src p h e =
        >>=-elim (read_string nar_max_tag src) _ e λ (t, src₁) e₁ e'.
          elim (Bool-cases (bytes_eq t (codes ")"))) [
            | inl last ↦
                let (p₁, h₁) =
                  string_is_tag ")" nar_max_tag src t src₁ (read_string-eq-ok nar_max_tag src h e₁)
                    last in
                subst (InvertsEntries prev src) (ok-injective (rw last at e'))
                  (tt, (λ path. ([], dump_none path, p₁)), h₁)
            | inr more ↦
                require-elim (bytes_eq t (codes "entry"))
                  (bad_archive "expected tag 'entry' or ')'") (rw more at e')
                  λ same e₂. >>=-elim (parse_name prev src₁) _ e₂ λ (name, src₂) e₃ e₃'.
                    >>=-elim (expect_tag "node" src₂) _ (rw no_hack at e₃') λ src₃ e₄ e₄'.
                      >>=-elim (parse' src₃) _ e₄' λ (node, src₄) e₅ e₅'.
                        >>=-elim (expect_tag ")" src₄) _ e₅' λ src₅ e₆ e₆'.
                          >>=-elim (parse_entries st parse' fuel name [] src₅) _ e₆'
                            λ (entries, src₆) e₇ e₇'.
                              let (p₁, h₁) =
                                string_is_tag "entry" nar_max_tag src t src₁
                                  (read_string-eq-ok nar_max_tag src h e₁) same in
                              let named = parse_name-eq-ok prev src₁ h₁ e₃ in
                              let tagged = expect_tag-eq-ok "node" src₂ named.4 e₄ in
                              let inner = sound src₃ (node, src₄) tagged.1 e₅ in
                              let closed = expect_tag-eq-ok ")" src₄ inner.2 e₆ in
                              subst (InvertsEntries prev src) (ok-injective e₇') (
                                inverts_entry prev name node src src₁ src₂ src₃ src₄ src₅
                                  (entries, src₆) (p₁, h₁) named tagged inner closed
                                  (parse_entries-eq-ok fuel name src₅ (entries, src₆) closed.1 e₇))
          ]

    parse_directory-eq-ok :
        (src : Source) (p : Node × Source)
        → All IsByte src
        → parse_directory st parse' src ≡ ok p
        → (entries : Entries) × (p.0 ≡ Node.directory entries)
          × InvertsEntries [] src (entries, p.1)
    unfolding parse_directory
    parse_directory-eq-ok src p h e =
        >>=-elim (parse_entries st parse' (suc (length src)) [] [] src) _ e λ (entries, rest) e₁ e₂.
          (
            entries,
            sym (ap (λ q. q.0) (ok-injective e₂)),
            subst (λ q. InvertsEntries [] src (entries, q.1)) (ok-injective e₂)
                (parse_entries-eq-ok (suc (length src)) [] src (entries, rest) h e₁),
          )

  -- The statement of `parse`, for the levels that are left.
  abbrev IsSound : ℕ → Type 0
  IsSound levels =
      (src : Source) (p : Node × Source)
      → All IsByte src
      → parse st levels src ≡ ok p
      → Inverts (λ bs. bs) levels src p

  dump_directory :
      (levels : ℕ) (path : Bytes) (entries : Entries) (body : Bytes)
      → AreEntries [] entries
      → dump_entries (dump st keep levels) keep path (unrenamed (to_list entries)) ≡ ok body
      → dump st keep (suc levels) path (Node.directory entries)
        ≡ ok (head_of "directory" (body ++ tag ")"))
  unfolding dump
  dump_directory levels path entries body h e = rw (listing st no_hack entries h) (rw e)

  parse_directory-Inverts :
      (levels : ℕ) (src : Source) (p : Node × Source)
      → IsSound levels
      → All IsByte src
      → parse_directory st (parse st levels) src ≡ ok p
      → Inverts (head_of "directory") (suc levels) src p
  parse_directory-Inverts levels src p sound h e =
      let (entries, q, inverts) =
        parse_directory-eq-ok (dump st keep levels) (parse st levels) sound src p h e in
      let (nar, from, h') = inverts in
      rw q (
        nar,
        (λ path.
            let (body, d, r) = from path in
            (
              body ++ tag ")",
              dump_directory levels path entries body nar d,
              rw r (rw append_assoc),
            )),
        h',
      )

  parse_type-eq-ok :
      (levels : ℕ) (type : Bytes) (src : Source) (p : Node × Source)
      → IsSound levels
      → All IsByte src
      → parse_type st (parse st levels) type src ≡ ok p
      → (t : String) × (type ≡ codes t) × Inverts (head_of t) (suc levels) src p
  unfolding parse_type
  parse_type-eq-ok levels type src p sound h e =
      elim (Bool-cases (bytes_eq type (codes "regular"))) [
        | inl is ↦ ("regular", bytes_eq→eq type _ is, parse_regular-eq-ok levels src h (rw is at e))
        | inr not_regular ↦ elim (Bool-cases (bytes_eq type (codes "directory"))) [
          | inl is ↦ (
            "directory",
            bytes_eq→eq type _ is,
            parse_directory-Inverts levels src p sound h (rw (not_regular, is) at e),
          )
          | inr not_directory ↦ elim (Bool-cases (bytes_eq type (codes "symlink"))) [
            | inl is ↦ (
              "symlink",
              bytes_eq→eq type _ is,
              parse_symlink-eq-ok levels src h (rw (not_regular, not_directory, is) at e),
            )
            | inr other ↦ cc (rw (not_regular, not_directory, other) at e)
          ]
        ]
      ]

  pub parse-eq-ok : (levels : ℕ) → IsSound levels
  unfolding parse
  parse-eq-ok zero src p h e = cc
  parse-eq-ok (suc levels) src p h e = >>=-elim (expect_tag "(" src) _ e λ src₁ e₁ e'.
      >>=-elim (expect_tag "type" src₁) _ e' λ src₂ e₂ e''.
        >>=-elim (read_string nar_max_tag src₂) _ e'' λ (type, src₃) e₃ e₄.
          let (p₁, h₁) = expect_tag-eq-ok "(" src h e₁ in
          let (p₂, h₂) = expect_tag-eq-ok "type" src₁ h₁ e₂ in
          let (p₃, _, _, h₃) = read_string-eq-ok nar_max_tag src₂ h₂ e₃ in
          let (t, is, inverts) = parse_type-eq-ok levels type src₃ p (parse-eq-ok levels) h₃ e₄ in
          let (nar, from, h₄) = inverts in
          (
            nar,
            (λ path.
                let (bs, d, q) = from path in
                (head_of t bs, d, rw (p₁, p₂, p₃, is, q) (simp append_assoc))),
            h₄,
          )

  -- What a parse accepts can be held by an archive, and the bytes that it read are exactly the
  -- archive that a dump of the parsed object writes.
  pub parse_dump-eq-ok :
      (path : Bytes) (src : Source) (p : Node × Source)
      → All IsByte src
      → parse_dump st src ≡ ok p
      → IsNar p.0 × ((bs : Bytes) × (dump_path st (λ _. true) path p.0 ≡ ok bs) × (src ≡ bs ++ p.1))
  unfolding parse_dump dump_path
  parse_dump-eq-ok path src p h e = >>=-elim (read_version src) _ e λ (version, rest) e₁ e'.
      require-elim (bytes_eq version nar_version_magic)
        (bad_archive "input doesn't look like a Nix archive") e'
        λ magic e₂.
          let (q, _, _, h₁) =
            read_string-eq-ok 13 src h (read_version-eq-ok src version rest e₁ magic) in
          let (nar, from, _) = parse-eq-ok nar_max_depth rest p h₁ e₂ in
          let (bs, d, r) = from path in
          (
            nar,
            (
              write_string nar_version_magic ++ bs,
              rw d,
              rw (q, bytes_eq→eq version nar_version_magic magic, r) (rw append_assoc),
            ),
          )
