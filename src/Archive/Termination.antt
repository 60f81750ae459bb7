-- ===== src/Archive/Termination.antt =====
-- Theorems on the number of rounds of `parseDump`.
use Prim.Native.String.{String}
use nixstore_arch.Prelude.{
  ℕ, zero, suc, ◌+◌, ◌-◌, ◌%◌, ◌≤◌, ◌<◌, ◌≡◌, ◌≢◌, Bool, true, false, not, [], ◌∷◌, Bytes, codes,
  length, err-injective, bytes_eq, bytes_lt, ltb, ◌==◌, Bool-cases, inl, inr, Result, ok, err,
  require, ◌>>=◌, ◌>>◌, arith, Option, none, some,
}
use nixstore_arch.Serialise.{
  Error, Source, stuck, is_serialisation_error, bad_archive, read_exact, read_num, read_padding,
  read_string, u64_max, all_zero, le_num, integer_too_large, string_too_long, non_zero_padding,
}
use nixstore_arch.Archive.Tree.{Node, Settings, nar_max_depth, nar_version_magic}
use nixstore_arch.Archive.Parse.{
  parse_contents, align_up, expect_tag, parse_executable, parse_regular, parse_name, case_hack,
  hack_entry, hacked_entry, Names, find_name, parse_entries, parse_directory, parse_symlink,
  parse_type, parse, read_version, caught, parse_dump, is_valid_name, is_valid_target, nar_max_tag,
  nar_max_name, nar_max_target,
}

-- A result that leaves at most `n` bytes, or an exception of the program.
abbrev Safe : {A : Type 0} → (A → ℕ) → ℕ → Result Error A → Type 0
Safe size n (ok a) = size a ≤ n
Safe size n (err e) = e ≢ stuck

Safe-bind :
    {A B : Type 0} (size : A → ℕ) (n : ℕ) (size' : B → ℕ) (k : ℕ) (m : Result Error A)
    (f : A → Result Error B)
    → Safe size n m
    → ((a : A) → size a ≤ n → Safe size' k (f a))
    → Safe size' k (m >>= f)
Safe-bind size n size' k (ok a) f h g = g a h
Safe-bind size n size' k (err e) f h g = h

Safe-mono :
    {A : Type 0} (size : A → ℕ) (n k : ℕ) (m : Result Error A)
    → n ≤ k
    → Safe size n m
    → Safe size k m
Safe-mono size n k (ok a) le h = omega arith
Safe-mono size n k (err e) le h = h

Safe-require :
    {B : Type 0} (size' : B → ℕ) (k : ℕ) (b : Bool) (e : Error) (m : Result Error B)
    → e ≢ stuck
    → Safe size' k m
    → Safe size' k (require b e >> m)
Safe-require size' k true e m h g = g
Safe-require size' k false e m h g = h

abbrev left : {A : Type 0} → A × Source → ℕ
left p = length p.1

read_exact-Safe : (n : ℕ) (src : Source) → Safe (λ p. n + left p) (length src) (read_exact n src)
unfolding read_exact
read_exact-Safe zero src = omega arith
read_exact-Safe (suc n) [] = λ p. cc
read_exact-Safe (suc n) (b ∷ src) =
    Safe-bind (λ p. n + left p) (length src) (λ p. suc n + left p) (suc (length src))
      (read_exact n src) _ (read_exact-Safe n src) λ p h. omega arith

read_num-Safe : (max : ℕ) (src : Source) → Safe (λ p. 8 + left p) (length src) (read_num max src)
unfolding read_num
read_num-Safe max src =
    Safe-bind (λ p. 8 + left p) (length src) (λ p. 8 + left p) (length src) (read_exact 8 src) _
      (read_exact-Safe 8 src)
      λ (buf, rest) h.
        Safe-require (λ p. 8 + left p) (length src) (not (ltb max (le_num buf))) integer_too_large _
          (λ p. cc) h

read_padding-Safe : (len : ℕ) (src : Source) → Safe length (length src) (read_padding len src)
unfolding read_padding
read_padding-Safe len src = elim (Bool-cases (len % 8 == 0)) [
  | inl e ↦ rw e (omega arith)
  | inr e ↦ rw e (
      Safe-bind (λ p. 8 - len % 8 + left p) (length src) length (length src)
        (read_exact (8 - len % 8) src) _ (read_exact-Safe (8 - len % 8) src)
        λ (buf, rest) h.
          Safe-require length (length src) (all_zero buf) non_zero_padding _ (λ p. cc)
            (omega arith))
]

read_string-Safe :
    (max : ℕ) (src : Source) → Safe (λ p. 8 + left p) (length src) (read_string max src)
unfolding read_string
read_string-Safe max src =
    Safe-bind (λ p. 8 + left p) (length src) (λ p. 8 + left p) (length src) (read_num u64_max src) _
      (read_num-Safe u64_max src)
      λ (len, src₁) h₁.
        Safe-require (λ p. 8 + left p) (length src) (not (ltb max len)) string_too_long _ (λ p. cc)
          (Safe-bind (λ p. len + left p) (length src₁) (λ p. 8 + left p) (length src)
            (read_exact len src₁) _ (read_exact-Safe len src₁)
            λ (res, src₂) h₂.
              Safe-bind length (length src₂) (λ p. 8 + left p) (length src) (read_padding len src₂)
                _ (read_padding-Safe len src₂) λ src₃ h₃. omega arith)

expect_tag-Safe : (s : String) (src : Source) → Safe length (length src) (expect_tag s src)
unfolding expect_tag
expect_tag-Safe s src =
    Safe-bind (λ p. 8 + left p) (length src) length (length src) (read_string nar_max_tag src) _
      (read_string-Safe nar_max_tag src)
      λ (t, rest) h.
        Safe-require length (length src) (bytes_eq t (codes s)) (bad_archive "expected tag") _
          (λ p. cc) (omega arith)

-- The last steps of a parser: a closing tag, and the result.
close-Safe :
    {A : Type 0} (n : ℕ) (src : Source) (a : A)
    → length src ≤ n
    → Safe left n (expect_tag ")" src >>= λ rest. ok (a, rest))
close-Safe n src a h =
    Safe-bind length (length src) left n (expect_tag ")" src) _ (expect_tag-Safe ")" src)
      λ rest le. omega arith

align_up-Safe : (n : ℕ) → Safe (λ _. 0) 0 (align_up n)
unfolding align_up
align_up-Safe n = elim (Bool-cases (ltb (u64_max - 7) n)) [
  | inl e ↦ rw e (λ p. cc)
  | inr e ↦ rw e (omega arith)
]

module _ (st : Settings) where
  parse_contents-Safe : (src : Source) → Safe left (length src) (parse_contents st src)
  unfolding parse_contents
  parse_contents-Safe src =
      Safe-bind (λ p. 8 + left p) (length src) left (length src) (read_num u64_max src) _
        (read_num-Safe u64_max src)
        λ (size, src₁) h₁. elim (Bool-cases st.skip_contents) [
          | inl skips ↦ rw skips (
              Safe-bind (λ _. 0) 0 left (length src) (align_up size) _ (align_up-Safe size)
                λ n _.
                  Safe-bind (λ p. n + left p) (length src₁) left (length src) (read_exact n src₁) _
                    (read_exact-Safe n src₁) λ (skipped, src₂) h₂. omega arith)
          | inr reads ↦ rw reads (
              Safe-bind (λ p. size + left p) (length src₁) left (length src) (read_exact size src₁)
                _ (read_exact-Safe size src₁)
                λ (contents, src₂) h₂.
                  Safe-bind length (length src₂) left (length src) (read_padding size src₂) _
                    (read_padding-Safe size src₂) λ src₃ h₃. omega arith)
        ]

  parse_executable-Safe :
      (t : Bytes) (src : Source) → Safe (λ p. length p.2) (length src) (parse_executable t src)
  unfolding parse_executable
  parse_executable-Safe t src = elim (Bool-cases (bytes_eq t (codes "executable"))) [
    | inl is ↦ rw is (
        Safe-bind (λ p. 8 + left p) (length src) (λ p. length p.2) (length src) (read_string 0 src)
          _ (read_string-Safe 0 src)
          λ (s2, src₁) h₁.
            Safe-require (λ p. length p.2) (length src) (bytes_eq s2 [])
              (bad_archive "executable marker has non-empty value") _ (λ p. cc)
              (Safe-bind (λ p. 8 + left p) (length src₁) (λ p. length p.2) (length src)
                (read_string nar_max_tag src₁) _ (read_string-Safe nar_max_tag src₁)
                λ (t', src₂) h₂. omega arith))
    | inr other ↦ rw other (omega arith)
  ]

  parse_regular-Safe : (src : Source) → Safe left (length src) (parse_regular st src)
  unfolding parse_regular
  parse_regular-Safe src =
      Safe-bind (λ p. 8 + left p) (length src) left (length src) (read_string nar_max_tag src) _
        (read_string-Safe nar_max_tag src)
        λ (t, src₁) h₁.
          Safe-bind (λ p. length p.2) (length src₁) left (length src) (parse_executable t src₁) _
            (parse_executable-Safe t src₁)
            λ (exe, t', src₂) h₂.
              Safe-require left (length src) (bytes_eq t' (codes "contents"))
                (bad_archive "expected tag 'contents'") _ (λ p. cc)
                (Safe-bind left (length src₂) left (length src) (parse_contents st src₂) _
                  (parse_contents-Safe src₂)
                  λ (contents, src₃) h₃.
                    close-Safe (length src) src₃ (Node.regular exe contents) (omega arith))

  parse_symlink-Safe : (src : Source) → Safe left (length src) (parse_symlink src)
  unfolding parse_symlink
  parse_symlink-Safe src =
      Safe-bind length (length src) left (length src) (expect_tag "target" src) _
        (expect_tag-Safe "target" src)
        λ src₁ h₁.
          Safe-bind (λ p. 8 + left p) (length src₁) left (length src)
            (read_string nar_max_target src₁) _ (read_string-Safe nar_max_target src₁)
            λ (target, src₂) h₂.
              Safe-require left (length src) (is_valid_target target)
                (bad_archive "NAR contains invalid symlink target") _ (λ p. cc)
                (close-Safe (length src) src₂ (Node.symlink target) (omega arith))

  parse_name-Safe : (prev : Bytes) (src : Source) → Safe left (length src) (parse_name prev src)
  unfolding parse_name
  parse_name-Safe prev src =
      Safe-bind length (length src) left (length src) (expect_tag "(" src) _
        (expect_tag-Safe "(" src)
        λ src₁ h₁.
          Safe-bind length (length src₁) left (length src) (expect_tag "name" src₁) _
            (expect_tag-Safe "name" src₁)
            λ src₂ h₂.
              Safe-bind (λ p. 8 + left p) (length src₂) left (length src)
                (read_string nar_max_name src₂) _ (read_string-Safe nar_max_name src₂)
                λ (name, src₃) h₃.
                  Safe-require left (length src) (is_valid_name name)
                    (bad_archive "NAR contains invalid file name") _ (λ p. cc)
                    (Safe-require left (length src) (bytes_lt prev name)
                      (bad_archive "NAR directory is not sorted") _ (λ p. cc) (omega arith))

  hacked_entry-Safe :
      (name hacked : Bytes) (count : ℕ) (names : Names) (found : Option ℕ)
      → Safe (λ _. 0) 0 (hacked_entry name hacked count names found)
  unfolding hacked_entry
  hacked_entry-Safe name hacked count names none = omega arith
  hacked_entry-Safe name hacked count names (some c) = λ p. cc

  hack_entry-Safe :
      (name : Bytes) (names : Names) (found : Option ℕ)
      → Safe (λ _. 0) 0 (hack_entry name names found)
  unfolding hack_entry
  hack_entry-Safe name names none = omega arith
  hack_entry-Safe name names (some count) = hacked_entry-Safe name _ (count + 1) names _

  case_hack-Safe : (name : Bytes) (names : Names) → Safe (λ _. 0) 0 (case_hack st name names)
  unfolding case_hack
  case_hack-Safe name names = elim (Bool-cases st.use_case_hack) [
    | inl hacks ↦ rw hacks (hack_entry-Safe name names (find_name name names))
    | inr plainly ↦ rw plainly (omega arith)
  ]

  module _ (parse' : Source → Result Error (Node × Source))
      (parse-Safe : (src : Source) → Safe left (length src) (parse' src)) where
    parse_entries-Safe :
        (fuel : ℕ) (prev : Bytes) (names : Names) (src : Source)
        → length src < fuel
        → Safe left (length src) (parse_entries st parse' fuel prev names src)
    unfolding parse_entries
    parse_entries-Safe zero prev names src lt = absurd (omega arith)
    parse_entries-Safe (suc fuel) prev names src lt =
        Safe-bind (λ p. 8 + left p) (length src) left (length src) (read_string nar_max_tag src) _
          (read_string-Safe nar_max_tag src)
          λ (t, src₁) h₁. elim (Bool-cases (bytes_eq t (codes ")"))) [
            | inl last ↦ rw last (omega arith)
            | inr more ↦ rw more (
                Safe-require left (length src) (bytes_eq t (codes "entry"))
                  (bad_archive "expected tag 'entry' or ')'") _ (λ p. cc)
                  (Safe-bind left (length src₁) left (length src) (parse_name prev src₁) _
                    (parse_name-Safe prev src₁)
                    λ (name, src₂) h₂.
                      Safe-bind (λ _. 0) 0 left (length src) (case_hack st name names) _
                        (case_hack-Safe name names)
                        λ (hacked, names') _.
                          Safe-bind length (length src₂) left (length src) (expect_tag "node" src₂)
                            _ (expect_tag-Safe "node" src₂)
                            λ src₃ h₃.
                              Safe-bind left (length src₃) left (length src) (parse' src₃) _
                                (parse-Safe src₃)
                                λ (node, src₄) h₄.
                                  Safe-bind length (length src₄) left (length src)
                                    (expect_tag ")" src₄) _ (expect_tag-Safe ")" src₄)
                                    λ src₅ h₅.
                                      Safe-bind left (length src₅) left (length src)
                                        (parse_entries st parse' fuel name names' src₅) _
                                        (parse_entries-Safe fuel name names' src₅ (omega arith))
                                        λ (entries, src₆) h₆. omega arith))
          ]

    parse_directory-Safe : (src : Source) → Safe left (length src) (parse_directory st parse' src)
    unfolding parse_directory
    parse_directory-Safe src =
        Safe-bind left (length src) left (length src)
          (parse_entries st parse' (suc (length src)) [] [] src) _
          (parse_entries-Safe (suc (length src)) [] [] src (omega arith)) λ (entries, rest) h. h

    parse_type-Safe :
        (type : Bytes) (src : Source) → Safe left (length src) (parse_type st parse' type src)
    unfolding parse_type
    parse_type-Safe type src = elim (Bool-cases (bytes_eq type (codes "regular"))) [
      | inl is ↦ rw is (parse_regular-Safe src)
      | inr not_regular ↦ rw not_regular (elim (Bool-cases (bytes_eq type (codes "directory"))) [
        | inl is ↦ rw is (parse_directory-Safe src)
        | inr not_directory ↦
            rw not_directory (elim (Bool-cases (bytes_eq type (codes "symlink"))) [
              | inl is ↦ rw is (parse_symlink-Safe src)
              | inr other ↦ rw other (λ p. cc)
            ])
      ])
    ]

  parse-Safe : (levels : ℕ) (src : Source) → Safe left (length src) (parse st levels src)
  unfolding parse
  parse-Safe zero src = λ p. cc
  parse-Safe (suc levels) src =
      Safe-bind length (length src) left (length src) (expect_tag "(" src) _
        (expect_tag-Safe "(" src)
        λ src₁ h₁.
          Safe-bind length (length src₁) left (length src) (expect_tag "type" src₁) _
            (expect_tag-Safe "type" src₁)
            λ src₂ h₂.
              Safe-bind (λ p. 8 + left p) (length src₂) left (length src)
                (read_string nar_max_tag src₂) _ (read_string-Safe nar_max_tag src₂)
                λ (type, src₃) h₃.
                  Safe-mono left (length src₃) (length src)
                    (parse_type st (parse st levels) type src₃) (omega arith)
                    (parse_type-Safe (parse st levels) (parse-Safe levels) type src₃)

  caught-Safe :
      (src : Source) (r : Result Error (Bytes × Source))
      → Safe left (length src) r
      → Safe left (length src) (caught src r)
  unfolding caught
  caught-Safe src (ok p) h = h
  caught-Safe src (err e) h = elim (Bool-cases (is_serialisation_error e)) [
    | inl is ↦ rw is (omega arith)
    | inr other ↦ rw other h
  ]

  parse_dump-Safe : (src : Source) → Safe left (length src) (parse_dump st src)
  unfolding parse_dump read_version
  parse_dump-Safe src =
      Safe-bind left (length src) left (length src) (caught src (read_string 13 src)) _
        (caught-Safe src (read_string 13 src)
          (Safe-mono' (read_string 13 src) (read_string-Safe 13 src)))
        λ (version, rest) h.
          Safe-require left (length src) (bytes_eq version nar_version_magic)
            (bad_archive "input doesn't look like a Nix archive") _ (λ p. cc)
            (Safe-mono left (length rest) (length src) (parse st nar_max_depth rest) h
              (parse-Safe nar_max_depth rest))
    where
      Safe-mono' :
          (r : Result Error (Bytes × Source))
          → Safe (λ p. 8 + left p) (length src) r
          → Safe left (length src) r
      Safe-mono' (ok p) h = omega arith
      Safe-mono' (err e) h = h

  -- The loops of a parse have enough rounds on every input, with or without the case hack, and
  -- whether contents are read or skipped; what a parse leaves is no longer than its input.
  pub parse_dump_ends :
      (src : Source)
      → (parse_dump st src ≢ err stuck)
        × ((node : Node) (rest : Source)
            → parse_dump st src ≡ ok (node, rest)
            → length rest ≤ length src)
  parse_dump_ends src = ends (parse_dump st src) (parse_dump-Safe src)
    where
      ends :
          (r : Result Error (Node × Source))
          → Safe left (length src) r
          → (r ≢ err stuck)
            × ((node : Node) (rest : Source) → r ≡ ok (node, rest) → length rest ≤ length src)
      ends (ok p) h = ((λ e. cc), λ node rest e. ground arith)
      ends (err x) h = ((λ e. h (err-injective e)), λ node rest e. cc)
