-- ===== src/CanonPath.antt =====
-- src/libutil/canon-path.cc, src/libutil/include/nix/util/canon-path.hh and
-- src/libutil/include/nix/util/file-path-impl.hh: canonical absolute paths, as the strings that hold them.
pub mod Segments
pub mod Canonical
pub mod Bytewise
pub mod Push
pub mod Inner
pub mod Relative
mod Tests
use nixstore_arch.Prelude.{
  ℕ, zero, suc, ◌+◌, ◌%◌, Bool, true, false, not, ◌&&◌, ◌||◌, List, [], ◌∷◌, ◌++◌, Bytes, codes,
  length, leb, ltb, ◌==◌, if◌then◌else◌, Option, none, some, Result, ok, err, require, ◌>>=◌, ◌>>◌,
  bytes_eq, contains, member,
}

-- `BadCanonPath`, and the assertions.
pub data PathError : Type 0 where
  null_byte invalid_filename assertion : PathError

-- `substr`
unfoldable pub take_bytes : ℕ → Bytes → Bytes
take_bytes zero s = []
take_bytes (suc n) [] = []
take_bytes (suc n) (c ∷ s) = c ∷ take_bytes n s

unfoldable pub drop_bytes : ℕ → Bytes → Bytes
drop_bytes zero s = s
drop_bytes (suc n) [] = []
drop_bytes (suc n) (c ∷ s) = drop_bytes n s

-- The text before the first slash, from it on, and behind it.
unfoldable pub before_slash : Bytes → Bytes
before_slash [] = []
before_slash (c ∷ s) = let rest = before_slash s in if c == b'/' then [] else c ∷ rest

unfoldable pub from_slash : Bytes → Bytes
from_slash [] = []
from_slash (c ∷ s) = let rest = from_slash s in if c == b'/' then c ∷ s else rest

unfoldable pub after_slash : Bytes → Bytes
after_slash s = drop_bytes 1 (from_slash s)

-- The text before the last slash and behind it, if there is one.
unfoldable pub at_last_slash : Bytes → Option (Bytes × Bytes)
at_last_slash [] = none
at_last_slash (c ∷ s) = elim (at_last_slash s) [
  | some (before, behind) ↦ some (c ∷ before, behind)
  | none ↦ if c == b'/' then some ([], s) else none
]

-- `remaining.remove_prefix(1)` while there is a separator.
unfoldable pub skip_slashes : Bytes → Bytes
skip_slashes [] = []
skip_slashes (c ∷ s) = let rest = skip_slashes s in if c == b'/' then rest else c ∷ s

-- `result.erase(result.rfind('/'))`, if it is not empty.
unfoldable pub erase_component : Bytes → Bytes
erase_component result = elim (at_last_slash result) [
  | none ↦ result
  | some (before, behind) ↦ before
]

unfoldable pub remaining_after : Bytes → Bytes → Bytes
remaining_after component remaining =
    if bytes_eq component (codes ".")
    then drop_bytes 1 remaining
    else if bytes_eq component (codes "..")
    then drop_bytes 2 remaining
    else from_slash remaining

unfoldable pub result_after : Bytes → Bytes → Bytes
result_after component result =
    if bytes_eq component (codes ".")
    then result
    else if bytes_eq component (codes "..")
    then erase_component result
    else result ++ b'/' ∷ component

-- The loop of `canonPathInner`, of which the hook does nothing, with the slashes skipped in the
-- last line of a round.
unfoldable pub canon_loop : ℕ → Bytes → Bytes → Bytes
canon_loop zero remaining result = result
canon_loop (suc rounds) [] result = result
canon_loop (suc rounds) (c ∷ s) result =
    let component = before_slash (c ∷ s) in
    canon_loop rounds (skip_slashes (remaining_after component (c ∷ s)))
      (result_after component result)

-- `canonPathInner` behind its assertion. A round takes a component of the path, which is not empty.
unfoldable pub canonical_text : Bytes → Bytes
canonical_text path =
    let result = canon_loop (length path + 1) (skip_slashes path) [] in
    if bytes_eq result [] then codes "/" else result

-- `absPathPure`: `canonPathInner` asserts that the path is not empty.
unfoldable pub abs_path_pure : Bytes → Result PathError Bytes
abs_path_pure path = do require (not (bytes_eq path [])) assertion; ok (canonical_text path)

unfoldable pub ensure_no_null_bytes : Bytes → Result PathError (Unit {0})
ensure_no_null_bytes s = require (not (contains 0 s)) null_byte

-- `CanonPath(std::string_view)`
unfoldable pub canon_path : Bytes → Result PathError Bytes
canon_path raw = do ensure_no_null_bytes raw; abs_path_pure (b'/' ∷ raw)

unfoldable pub starts_with_slash : Bytes → Bool
starts_with_slash [] = false
starts_with_slash (c ∷ s) = c == b'/'

-- `CanonPath(std::string_view, const CanonPath &)`
unfoldable pub canon_path_at : Bytes → Bytes → Result PathError Bytes
canon_path_at raw root = do
  ensure_no_null_bytes raw
  abs_path_pure (if starts_with_slash raw then raw else root ++ b'/' ∷ raw)

unfoldable pub is_root : Bytes → Bool
is_root path = leb (length path) 1

unfoldable pub abs_or_empty : Bytes → Bytes
abs_or_empty path = if is_root path then [] else path

unfoldable pub rel : Bytes → Bytes
rel path = drop_bytes 1 path

-- From `begin()` to `end()`: an iterator is the text that remains, `*` is the text before its first
-- slash and `++` goes behind it.
unfoldable pub elements : ℕ → Bytes → List Bytes
elements zero remaining = []
elements (suc rounds) [] = []
elements (suc rounds) (c ∷ s) = before_slash (c ∷ s) ∷ elements rounds (after_slash (c ∷ s))

-- `CanonPath::fromFilename`
unfoldable pub from_filename : Bytes → Result PathError Bytes
from_filename segment = do
  res ← canon_path segment
  require (bytes_eq segment (rel res) && (length (elements (length res) (rel res)) == 1))
      invalid_filename
  ok res

-- `path.substr(0, max(1, path.rfind('/')))`
unfoldable pub parent_text : Bytes → Bytes
parent_text path = elim (at_last_slash path) [
  | none ↦ path
  | some ([], behind) ↦ take_bytes 1 path
  | some (c ∷ before, behind) ↦ c ∷ before
]

unfoldable pub parent : Bytes → Option Bytes
parent path = if is_root path then none else some (parent_text path)

unfoldable pub pop : Bytes → Result PathError Bytes
pop path = do require (not (is_root path)) assertion; ok (parent_text path)

unfoldable pub dir_of : Bytes → Option Bytes
dir_of path =
    if is_root path
    then none
    else elim (at_last_slash path) [ none ↦ some path | some (before, behind) ↦ some before ]

unfoldable pub base_name : Bytes → Option Bytes
base_name path =
    if is_root path
    then none
    else elim (at_last_slash path) [ none ↦ some path | some (before, behind) ↦ some behind ]

-- `path[i]` is a slash.
unfoldable pub slash_at : ℕ → Bytes → Bool
slash_at i path = starts_with_slash (drop_bytes i path)

unfoldable pub is_within : Bytes → Bytes → Bool
is_within path parent' = not (
    ltb (length path) (length parent')
    || (not (bytes_eq (take_bytes (length parent') path) parent')
        || (ltb 1 (length parent')
            && (ltb (length parent') (length path) && not (slash_at (length parent') path)))))

unfoldable pub remove_prefix : Bytes → Bytes → Result PathError Bytes
remove_prefix path prefix = do
  require (is_within path prefix) assertion
  ok (
      if is_root prefix
      then path
      else if length path == length prefix
      then codes "/"
      else drop_bytes (length prefix) path)

unfoldable pub extend : Bytes → Bytes → Bytes
extend path x = if is_root x then path else if is_root path then path ++ rel x else path ++ x

-- Appends a component, which the caller has checked.
unfoldable pub push : Bytes → Bytes → Bytes
push path c = if is_root path then path ++ c else path ++ (codes "/" ++ c)

-- `CanonPath::push`, with its checks.
unfoldable pub push_checked : Bytes → Bytes → Result PathError Bytes
push_checked path c = do
  require (not (contains b'/' c)) assertion
  require (not (bytes_eq c (codes ".")) && not (bytes_eq c (codes ".."))) assertion
  ensure_no_null_bytes c
  ok (push path c)

unfoldable pub push_each : Bytes → List Bytes → Result PathError Bytes
push_each path [] = ok path
push_each path (s ∷ elems) = do path' ← push_checked path s; push_each path' elems

-- `CanonPath(const std::vector<std::string> &)`
unfoldable pub from_elements : List Bytes → Result PathError Bytes
from_elements elems = push_each (codes "/") elems

-- A `char` as it is compared, where `char` is signed: 128 more than its value. A slash counts as 0.
unfoldable pub signed_rank : ℕ → ℕ
signed_rank c = if c == b'/' then 128 else (c + 128) % 256

-- `operator<=>`: the left path is less.
unfoldable pub path_lt : Bytes → Bytes → Bool
path_lt path [] = false
path_lt [] (d ∷ x) = true
path_lt (c ∷ path) (d ∷ x) =
    let rest = path_lt path x in
    if ltb (signed_rank c) (signed_rank d)
    then true
    else if ltb (signed_rank d) (signed_rank c)
    then false
    else rest

-- `allowed.lower_bound(*this)`, of a list in order.
unfoldable pub lower_bound : Bytes → List Bytes → Option Bytes
lower_bound path [] = none
lower_bound path (x ∷ allowed) =
    let rest = lower_bound path allowed in if path_lt x path then rest else some x

-- `while (!path.isRoot())`: a round makes the path shorter.
unfoldable pub parent_allowed : ℕ → Bytes → List Bytes → Bool
parent_allowed zero path allowed = false
parent_allowed (suc rounds) path allowed =
    let further = parent_allowed rounds (parent_text path) allowed in
    if is_root path then false else if member (parent_text path) allowed then true else further

unfoldable pub is_allowed : Bytes → List Bytes → Bool
is_allowed path allowed = elim (lower_bound path allowed) [
  | none ↦ parent_allowed (length path) path allowed
  | some lb ↦ if is_within lb path then true else parent_allowed (length path) path allowed
]

-- The texts of both iterators behind the common components.
unfoldable pub skip_common : ℕ → Bytes → Bytes → Bytes × Bytes
skip_common zero p p' = (p, p')
skip_common (suc rounds) [] p' = ([], p')
skip_common (suc rounds) (c ∷ p) [] = (c ∷ p, [])
skip_common (suc rounds) (c ∷ p) (d ∷ p') =
    let rest = skip_common rounds (after_slash (c ∷ p)) (after_slash (d ∷ p')) in
    if bytes_eq (before_slash (c ∷ p)) (before_slash (d ∷ p')) then rest else (c ∷ p, d ∷ p')

-- `if (!res.empty()) res += '/';`
unfoldable pub separated : Bytes → Bytes
separated [] = []
separated (c ∷ res) = (c ∷ res) ++ b'/' ∷ []

unfoldable pub climb : ℕ → Bytes → Bytes → Bytes
climb zero p res = res
climb (suc rounds) [] res = res
climb (suc rounds) (c ∷ p) res = climb rounds (after_slash (c ∷ p)) (separated res ++ codes "..")

unfoldable pub relative_text : Bytes → Bytes → Bytes
relative_text [] [] = codes "."
relative_text [] (d ∷ p') = d ∷ p'
relative_text (c ∷ p) [] = climb (length (c ∷ p)) (c ∷ p) []
relative_text (c ∷ p) (d ∷ p') = separated (climb (length (c ∷ p)) (c ∷ p) []) ++ (d ∷ p')

-- `CanonPath::makeRelative`
unfoldable pub make_relative : Bytes → Bytes → Bytes
make_relative path x =
    let rest = skip_common (length path) (rel path) (rel x) in relative_text rest.0 rest.1
