-- ===== src/StorePath.antt =====
-- src/libstore/path.cc and include/nix/store/path.hh: the base names of store objects.
pub mod Names
mod Tests
use nixstore_arch.Prelude.{
  ℕ, zero, suc, ◌+◌, Bool, true, false, ◌&&◌, ◌||◌, not, List, [], ◌∷◌, ◌++◌, Bytes, codes, length,
  ltb, leb, ◌==◌, if◌then◌else◌, Result, ok, err, require, ◌>>=◌, ◌>>◌, bytes_eq,
}

-- The messages of `BadStorePathName` and of `BadStorePath`.
pub data BadStorePath : Type 0 where
  name_empty name_too_long name_not_valid first_component : BadStorePath
  illegal_character : ℕ → BadStorePath
  too_short : BadStorePath
  illegal_base32 : ℕ → BadStorePath

abbrev pub hash_len : ℕ
hash_len = 32

abbrev pub max_path_len : ℕ
max_path_len = 211

unfoldable pub in_range : ℕ → ℕ → ℕ → Bool
in_range lo hi c = leb lo c && leb c hi

unfoldable pub is_legal : ℕ → Bool
unfolding in_range
is_legal c =
    in_range b'0' b'9' c
    || (in_range b'a' b'z' c
        || (in_range b'A' b'Z' c
            || (c == b'+'
                || (c == b'-' || (c == b'.' || (c == b'_' || (c == b'?' || c == b'=')))))))

-- The loop over the characters of a name.
unfoldable pub check_characters : Bytes → Result BadStorePath (Unit {0})
check_characters [] = ok tt
check_characters (c ∷ name) =
    let rest = check_characters name in if is_legal c then rest else err (illegal_character c)

-- The tests of `name[0]`, `name[1]` and `name[2]`, on what follows `..`, `.` and nothing.
check_dot_dot : Bytes → Result BadStorePath (Unit {0})
check_dot_dot [] = err name_not_valid
check_dot_dot (c ∷ name) = if c == b'-' then err first_component else ok tt

check_dot : Bytes → Result BadStorePath (Unit {0})
check_dot [] = err name_not_valid
check_dot (c ∷ name) =
    if c == b'-' then err first_component else if c == b'.' then check_dot_dot name else ok tt

unfoldable pub check_dots : Bytes → Result BadStorePath (Unit {0})
unfolding check_dot check_dot_dot
check_dots [] = err name_empty
check_dots (c ∷ name) = if c == b'.' then check_dot name else ok tt

unfoldable pub check_name : Bytes → Result BadStorePath (Unit {0})
check_name name = do
  require (not (bytes_eq name [])) name_empty
  require (leb (length name) max_path_len) name_too_long
  check_dots name
  check_characters name

-- `hashPart()` and `name()`: the first `n` bytes, and those behind them.
unfoldable pub first_bytes : ℕ → Bytes → Bytes
first_bytes zero s = []
first_bytes (suc n) [] = []
first_bytes (suc n) (c ∷ s) = c ∷ first_bytes n s

unfoldable pub bytes_after : ℕ → Bytes → Bytes
bytes_after zero s = s
bytes_after (suc n) [] = []
bytes_after (suc n) (c ∷ s) = bytes_after n s

unfoldable pub hash_part : Bytes → Bytes
hash_part base_name = first_bytes hash_len base_name

unfoldable pub name_part : Bytes → Bytes
name_part base_name = bytes_after (hash_len + 1) base_name

unfoldable pub is_base32 : ℕ → Bool
unfolding in_range
is_base32 c = not (
    c == b'e'
    || (c == b'o'
        || (c == b'u' || (c == b't' || not (in_range b'0' b'9' c || in_range b'a' b'z' c)))))

unfoldable pub check_hash : Bytes → Result BadStorePath (Unit {0})
check_hash [] = ok tt
check_hash (c ∷ s) = let rest = check_hash s in if is_base32 c then rest else err (illegal_base32 c)

-- `StorePath(std::string_view)`: the base name that is kept, or the exception.
unfoldable pub store_path : Bytes → Result BadStorePath Bytes
store_path base_name = do
  require (not (ltb (length base_name) (hash_len + 1))) too_short
  check_hash (hash_part base_name)
  check_name (name_part base_name)
  ok base_name

-- `StorePath(const Hash &, std::string_view)`, for the hash in Nix's base 32.
unfoldable pub store_path_of_hash : Bytes → Bytes → Result BadStorePath Bytes
store_path_of_hash hash name =
    let base_name = hash ++ (codes "-" ++ name) in do check_name (name_part base_name); ok base_name
