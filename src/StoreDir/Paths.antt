-- ===== src/StoreDir/Paths.antt =====
-- Theorems on `parseStorePath` and `printStorePath`.
use nixstore_arch.Prelude.{
  ◌<◌, ◌≡◌, ◌↔◌, ◌∙◌, refl, sym, ap, true, false, not, List, [], ◌∷◌, ◌++◌, append_assoc, Bytes,
  codes, length, All, bytes_eq, bytes_eq_iff, Result, ok, err, >>=-elim, require-elim, ok-injective,
  arith,
}
use nixstore_arch.CanonPath.{
  abs_path_pure, canonical_text, starts_with_slash, parent_text, at_last_slash,
}
use nixstore_arch.CanonPath.Segments.{HasNoSlash, printed, joined, at_last_slash-some}
use nixstore_arch.CanonPath.Canonical.{
  IsSegment, IsNormal, canonical_text-IsNormal, parent_text-printed, printed-slash, printed-segment,
  canonical_text-append,
}
use nixstore_arch.StorePath.{BadStorePath, store_path, hash_len}
use nixstore_arch.StorePath.Names.{store_path_iff}
use nixstore_arch.StoreDir.{
  of_canon, of_path, canon_native, filename, parse_store_path, print_store_path, empty_path,
  not_absolute, not_in_store,
}

filename-printed :
    (s : Bytes) (stack : List Bytes) → HasNoSlash s → filename (printed (s ∷ stack)) ≡ s
unfolding filename
filename-printed s stack h =
    rw (printed-segment s stack) (rw (at_last_slash-some (joined stack) s h, filename) refl)

-- A base name is too long for a dot or two.
long-IsSegment : (s : Bytes) → hash_len < length s → HasNoSlash s → IsSegment s
long-IsSegment s long h =
    let filled : bytes_eq s [] ≡ false = ground (arith, bytes_eq_iff s []) in
    let no_dot : bytes_eq s (codes ".") ≡ false = ground (arith, bytes_eq_iff s (codes ".")) in
    let no_dots : bytes_eq s (codes "..") ≡ false = ground (arith, bytes_eq_iff s (codes "..")) in
    ((filled, no_dot, no_dots), h)

store_path-long : (s : Bytes) → store_path s ≡ ok s → hash_len < length s
store_path-long s h = ((store_path_iff s s).0 h).1

printed_name : (dir base : Bytes) → print_store_path dir base ≡ dir ++ b'/' ∷ base
unfolding print_store_path
printed_name dir base = append_assoc dir (codes "/") base

nonempty : (path : Bytes) → starts_with_slash path ≡ true → not (bytes_eq path []) ≡ true
unfolding starts_with_slash bytes_eq
nonempty [] e = cc
nonempty (c ∷ path) e = refl

canonical_of :
    (path : Bytes)
    → not (bytes_eq path []) ≡ true
    → of_canon (abs_path_pure path) ≡ ok (canonical_text path)
unfolding of_canon abs_path_pure
canonical_of path full = rw full refl

-- What a canonical path in the directory is parsed to.
parse_canonical :
    (dir path base : Bytes) (stack : List Bytes)
    → dir ≡ printed stack
    → starts_with_slash path ≡ true
    → canonical_text path ≡ printed (base ∷ stack)
    → HasNoSlash base
    → parse_store_path dir path ≡ of_path (store_path base)
unfolding parse_store_path canon_native
parse_canonical dir path base stack is_dir slash whole h =
    let full = nonempty path slash in
    let inside : bytes_eq (parent_text (printed (base ∷ stack))) dir ≡ true =
      (bytes_eq_iff (parent_text (printed (base ∷ stack))) dir).1
        (parent_text-printed base stack h ∙ sym is_dir) in
    rw (full, slash)
      (rw (canonical_of path full) (rw whole (rw (inside, filename-printed base stack h) refl)))

pub of_path-ok : (r : Result BadStorePath Bytes) (base : Bytes) → of_path r ≡ ok base → r ≡ ok base
unfolding of_path
of_path-ok (ok base') base e = ap ok (ok-injective e)
of_path-ok (err failed) base e = cc

-- The names that the directory `dir` has for a path.
abbrev pub IsIn : Bytes → Bytes → Bytes → Type 0
IsIn dir path base =
    (starts_with_slash path ≡ true)
    × (store_path base ≡ ok base)
    × HasNoSlash base
    × (canonical_text path ≡ canonical_text (print_store_path dir base))

from_root :
    (dir base : Bytes)
    → parent_text (printed []) ≡ dir
    → (of_path (store_path (filename (printed []))) ≡ ok base)
    → ⊥
unfolding filename printed joined bytes_eq at_last_slash store_path of_path
from_root dir base e h = cc

printed-IsIn :
    (dir path base s : Bytes) (stack : List Bytes)
    → All IsSegment (s ∷ stack)
    → starts_with_slash path ≡ true
    → canonical_text path ≡ printed (s ∷ stack)
    → parent_text (printed (s ∷ stack)) ≡ dir
    → store_path (filename (printed (s ∷ stack))) ≡ ok base
    → IsIn dir path base
printed-IsIn dir path base s stack (hs, h) slash whole inside stored =
    let stored' : store_path s ≡ ok base = rw (filename-printed s stack hs.1) at stored in
    let same : base ≡ s = ((store_path_iff s base).0 stored').0 in
    let is_dir : printed stack ≡ dir = sym (parent_text-printed s stack hs.1) ∙ inside in
    rw same (
      slash,
      rw same at stored',
      hs.1,
      whole ∙ sym (rw (printed_name dir s) (rw (sym is_dir) (canonical_text-append stack s h hs))),
    )

canonical-IsIn :
    (dir path base : Bytes) (stack : List Bytes)
    → All IsSegment stack
    → starts_with_slash path ≡ true
    → canonical_text path ≡ printed stack
    → parent_text (canonical_text path) ≡ dir
    → of_path (store_path (filename (canonical_text path))) ≡ ok base
    → IsIn dir path base
canonical-IsIn dir path base [] h slash whole inside stored =
    absurd (from_root dir base (rw whole at inside) (rw whole at stored))
canonical-IsIn dir path base (s ∷ stack) h slash whole inside stored =
    printed-IsIn dir path base s stack h slash whole (rw whole at inside)
      (of_path-ok _ base (rw whole at stored))

parsed-IsIn : (dir path base : Bytes) → parse_store_path dir path ≡ ok base → IsIn dir path base
unfolding parse_store_path canon_native
parsed-IsIn dir path base e = require-elim (not (bytes_eq path [])) empty_path e λ full e₁.
    >>=-elim (canon_native path) _ e₁ λ p canonical e₂.
      require-elim (not (bytes_eq path [])) empty_path canonical λ _ e₃.
        require-elim (starts_with_slash path) not_absolute e₃ λ slash last.
          let is_p : canonical_text path ≡ p = ok-injective (sym (canonical_of path full) ∙ last) in
          require-elim (bytes_eq (parent_text p) dir) not_in_store e₂ λ inside stored.
            let (stack, h, whole) = canonical_text-IsNormal path in
            canonical-IsIn dir path base stack h slash whole
              (rw is_p ((bytes_eq_iff (parent_text p) dir).0 inside)) (rw is_p stored)

-- For a directory in canonical form, `parseStorePath` returns a base name exactly if the path is
-- absolute, the base name is one that `StorePath` accepts and has no slash, and the path has the same
-- canonical form as the one that `printStorePath` gives the base name.
pub parse_store_path_iff :
    (dir path base : Bytes)
    → IsNormal dir
    → (parse_store_path dir path ≡ ok base) ↔ IsIn dir path base
parse_store_path_iff dir path base (stack, h, is_dir) = (
  parsed-IsIn dir path base,
  λ (slash, stored, no_slash, whole).
      let printed' : canonical_text (print_store_path dir base) ≡ printed (base ∷ stack) =
        rw (printed_name dir base) (
          rw is_dir (
            canonical_text-append stack base h
              (long-IsSegment base (store_path-long base stored) no_slash))) in
      parse_canonical dir path base stack is_dir slash (whole ∙ printed') no_slash
      ∙ rw stored (unfold of_path in refl),
)

-- For a directory in canonical form, `parseStorePath` reads a base name back from what
-- `printStorePath` made of it, if `StorePath` accepts the base name and it has no slash.
pub parse_store_path-print_store_path :
    (dir base : Bytes)
    → IsNormal dir
    → store_path base ≡ ok base
    → HasNoSlash base
    → parse_store_path dir (print_store_path dir base) ≡ ok base
parse_store_path-print_store_path dir base (stack, h, is_dir) stored no_slash =
    let slash : starts_with_slash (print_store_path dir base) ≡ true =
      rw (printed_name dir base) (rw is_dir (printed-slash stack base)) in
    (parse_store_path_iff dir (print_store_path dir base) base (stack, h, is_dir)).1
      (slash, stored, no_slash, refl)
