-- ===== src/Hash.antt =====
-- src/libutil/hash.cc, src/libutil/include/nix/util/hash.hh and
-- src/libutil/include/nix/util/split.hh: hashes, their names and their texts.
pub mod Names
pub mod Order
pub mod Plain
pub mod Text
pub mod Accepted
mod Tests
use nixstore_arch.Prelude.{
  ℕ, zero, suc, ◌+◌, ◌*◌, ◌/◌, ◌%◌, Bool, true, false, ◌&&◌, ◌||◌, not, List, [], ◌∷◌, ◌++◌, Bytes,
  codes, length, replicate, ltb, ◌==◌, if◌then◌else◌, Option, none, some, Result, ok, err, require,
  ◌>>=◌, ◌>>◌, bytes_eq,
}
use nixstore_arch.BaseN.Digits.{BaseError, invalid_character, odd_length, get_or}
use nixstore_arch.BaseN.Base16
use nixstore_arch.BaseN.Base64
use nixstore_arch.BaseN.Nix32

pub data HashAlgorithm : Type 0 where
  md5 sha1 sha256 sha512 blake3 : HashAlgorithm

-- The value of the enumerator, which `<=>` compares.
unfoldable pub algo_code : HashAlgorithm → ℕ
algo_code md5 = 42
algo_code sha1 = 43
algo_code sha256 = 44
algo_code sha512 = 45
algo_code blake3 = 46

unfoldable pub same_algo : HashAlgorithm → HashAlgorithm → Bool
same_algo a a' = algo_code a == algo_code a'

unfoldable pub regular_hash_size : HashAlgorithm → ℕ
regular_hash_size blake3 = 32
regular_hash_size md5 = 16
regular_hash_size sha1 = 20
regular_hash_size sha256 = 32
regular_hash_size sha512 = 64

pub data HashFormat : Type 0 where
  base64 nix32 base16 sri : HashFormat

-- The exceptions, and the assertions of which one fails.
pub data HashError : Type 0 where
  not_sri wrong_length no_type other_type empty_without_type assertion : HashError
  unknown_algo unknown_format : Bytes → HashError
  invalid_length : ℕ → HashError

-- The first `hashSize` bytes of the array; no code reads the others.
pub record Hash : Type 0 where
  pub hash : Bytes
  pub algo : HashAlgorithm

-- `Hash::Hash(HashAlgorithm)`
unfoldable pub zero_hash : HashAlgorithm → Hash
zero_hash a = record { hash = replicate (regular_hash_size a) 0; algo = a }

unfoldable pub equal_bytes : Bytes → Bytes → Bool
equal_bytes [] other = true
equal_bytes (b ∷ bs) [] = true
equal_bytes (b ∷ bs) (c ∷ cs) = let rest = equal_bytes bs cs in if b == c then rest else false

-- `operator==`, which leaves the algorithm aside.
unfoldable pub hash_eq : Hash → Hash → Bool
hash_eq h h' = if length h.hash == length h'.hash then equal_bytes h.hash h'.hash else false

pub data StrongOrdering : Type 0 where
  less equivalent greater : StrongOrdering

unfoldable pub three_way : ℕ → ℕ → StrongOrdering
three_way a b = if a == b then equivalent else if ltb a b then less else greater

-- `if (auto cmp = …; cmp != 0) return cmp;`
unfoldable pub or_else : StrongOrdering → StrongOrdering → StrongOrdering
or_else equivalent next = next
or_else less next = less
or_else greater next = greater

unfoldable pub compare_bytes : Bytes → Bytes → StrongOrdering
compare_bytes [] other = equivalent
compare_bytes (b ∷ bs) [] = equivalent
compare_bytes (b ∷ bs) (c ∷ cs) = or_else (three_way b c) (compare_bytes bs cs)

-- `operator<=>`
unfoldable pub hash_compare : Hash → Hash → StrongOrdering
hash_compare h h' =
    or_else (three_way (length h.hash) (length h'.hash))
      (or_else (compare_bytes h.hash h'.hash) (three_way (algo_code h.algo) (algo_code h'.algo)))

unfoldable pub print_hash_algo : HashAlgorithm → Bytes
print_hash_algo blake3 = codes "blake3"
print_hash_algo md5 = codes "md5"
print_hash_algo sha1 = codes "sha1"
print_hash_algo sha256 = codes "sha256"
print_hash_algo sha512 = codes "sha512"

unfoldable pub parse_hash_algo_opt : Bytes → Option HashAlgorithm
parse_hash_algo_opt s =
    if bytes_eq s (codes "blake3")
    then some blake3
    else if bytes_eq s (codes "md5")
    then some md5
    else if bytes_eq s (codes "sha1")
    then some sha1
    else if bytes_eq s (codes "sha256")
    then some sha256
    else if bytes_eq s (codes "sha512")
    then some sha512
    else none

unfoldable pub parse_hash_algo : Bytes → Result HashError HashAlgorithm
parse_hash_algo s = elim (parse_hash_algo_opt s) [ some a ↦ ok a | none ↦ err (unknown_algo s) ]

unfoldable pub print_hash_format : HashFormat → Bytes
print_hash_format base64 = codes "base64"
print_hash_format nix32 = codes "nix32"
print_hash_format base16 = codes "base16"
print_hash_format sri = codes "sri"

-- The warning about `base32` is left out.
unfoldable pub parse_hash_format_opt : Bytes → Option HashFormat
parse_hash_format_opt s =
    if bytes_eq s (codes "base16")
    then some base16
    else if bytes_eq s (codes "nix32")
    then some nix32
    else if bytes_eq s (codes "base32")
    then some nix32
    else if bytes_eq s (codes "base64")
    then some base64
    else if bytes_eq s (codes "sri")
    then some sri
    else none

unfoldable pub parse_hash_format : Bytes → Result HashError HashFormat
parse_hash_format s = elim (parse_hash_format_opt s) [
  | some f ↦ ok f
  | none ↦ err (unknown_format s)
]

unfoldable pub is_sri : HashFormat → Bool
is_sri sri = true
is_sri base64 = false
is_sri nix32 = false
is_sri base16 = false

unfoldable pub encode_as : HashFormat → Bytes → Bytes
encode_as base16 bs = Base16.encode bs
encode_as nix32 bs = Nix32.encode bs
encode_as base64 bs = Base64.encode bs
encode_as sri bs = Base64.encode bs

unfoldable pub algo_prefix : HashFormat → Bool → HashAlgorithm → Bytes
algo_prefix f include_algo a =
    if is_sri f || include_algo
    then print_hash_algo a ++ (if is_sri f then b'-' else b':') ∷ []
    else []

-- `Hash::to_string`
unfoldable pub to_string : HashFormat → Bool → Hash → Result HashError Bytes
to_string f include_algo h = do
  require (not (length h.hash == 0)) assertion
  ok (algo_prefix f include_algo h.algo ++ encode_as f h.hash)

-- `baseExplicit`, which is not called for SRI.
unfoldable pub base_explicit : HashFormat → Option (Bytes → Result BaseError Bytes)
base_explicit base16 = some Base16.decode
base_explicit nix32 = some Nix32.decode
base_explicit base64 = some Base64.decode
base_explicit sri = none

unfoldable pub base_from_size : Bytes → HashAlgorithm → Result HashError HashFormat
base_from_size rest a =
    if length rest == Base16.encoded_length (regular_hash_size a)
    then ok base16
    else if length rest == Nix32.encoded_length (regular_hash_size a)
    then ok nix32
    else if length rest == Base64.encoded_length (regular_hash_size a)
    then ok base64
    else err wrong_length

-- `try { d = decode(rest); } catch (Error & e) { e.addTrace(…); }`: the exception is not thrown
-- again, and `d` stays empty.
unfoldable pub caught : Result BaseError Bytes → Result HashError Bytes
caught (ok d) = ok d
caught (err (invalid_character c)) = ok []
caught (err odd_length) = err assertion

unfoldable pub parse_low_level :
    Bytes → HashAlgorithm → (Bytes → Result BaseError Bytes) → Result HashError Hash
parse_low_level rest a decode = do
  d ← caught (decode rest)
  require (length d == regular_hash_size a) (invalid_length (length d))
  ok (record { hash = d; algo = a })

-- `splitPrefixTo`: the part before the separator, and the part behind it.
unfoldable pub split_prefix_to : Bytes → ℕ → Option (Bytes × Bytes)
split_prefix_to [] separator = none
split_prefix_to (c ∷ s) separator = elim (c == separator) [
  | true ↦ some ([], s)
  | false ↦ elim (split_prefix_to s separator) [
    | none ↦ none
    | some (prefix, rest) ↦ some (c ∷ prefix, rest)
  ]
]

-- `splitPrefix`: what follows the prefix, if the text has it.
unfoldable pub split_prefix : Bytes → Bytes → Option Bytes
split_prefix s [] = some s
split_prefix [] (p ∷ prefix) = none
split_prefix (c ∷ s) (p ∷ prefix) =
    let rest = split_prefix s prefix in if c == p then rest else none

-- `Hash::parseSRI`
unfoldable pub parse_sri : Bytes → Result HashError Hash
parse_sri original = elim (split_prefix_to original b'-') [
  | none ↦ err not_sri
  | some (hash_raw, rest) ↦ do a ← parse_hash_algo hash_raw; parse_low_level rest a Base64.decode
]

-- `Hash::parseExplicitFormatUnprefixed`
unfoldable pub parse_explicit_format_unprefixed :
    Bytes → HashAlgorithm → HashFormat → Result HashError Hash
parse_explicit_format_unprefixed s a f = elim (base_explicit f) [
  | none ↦ err assertion
  | some decode ↦ parse_low_level s a decode
]

-- `Hash::parseNonSRIUnprefixed`
unfoldable pub parse_non_sri_unprefixed : Bytes → HashAlgorithm → Result HashError Hash
parse_non_sri_unprefixed s a = do f ← base_from_size s a; parse_explicit_format_unprefixed s a f

-- The prefix of a hash: its algorithm, if it names one, whether a dash follows, and the rest.
unfoldable pub split_algo : Bytes → Result HashError (Option HashAlgorithm × Bool × Bytes)
split_algo original = elim (split_prefix_to original b':') [
  | some (hash_raw, rest) ↦ do a ← parse_hash_algo hash_raw; ok (some a, false, rest)
  | none ↦ elim (split_prefix_to original b'-') [
    | some (hash_raw, rest) ↦ do a ← parse_hash_algo hash_raw; ok (some a, true, rest)
    | none ↦ ok (none, false, original)
  ]
]

-- The choice of the decoder in `parseAnyHelper`.
unfoldable pub parse_rest : Bool → Bytes → HashAlgorithm → Result HashError (Hash × HashFormat)
parse_rest true rest a = do h ← parse_low_level rest a Base64.decode; ok (h, sri)
parse_rest false rest a = do
  f ← base_from_size rest a
  h ← parse_explicit_format_unprefixed rest a f
  ok (h, f)

unfoldable pub parse_any_helper :
    Bytes
    → (Option HashAlgorithm → Result HashError HashAlgorithm)
    → Result HashError (Hash × HashFormat)
parse_any_helper original resolve_algo = do
  (parsed, is_sri', rest) ← split_algo original
  a ← resolve_algo parsed
  parse_rest is_sri' rest a

unfoldable pub resolve_prefixed : Option HashAlgorithm → Result HashError HashAlgorithm
resolve_prefixed none = err no_type
resolve_prefixed (some a) = ok a

-- `Hash::parseAnyPrefixed`
unfoldable pub parse_any_prefixed : Bytes → Result HashError Hash
parse_any_prefixed original = do parsed ← parse_any_helper original resolve_prefixed; ok parsed.0

unfoldable pub resolve_with :
    Option HashAlgorithm → Option HashAlgorithm → Result HashError HashAlgorithm
resolve_with none none = err no_type
resolve_with none (some parsed) = ok parsed
resolve_with (some a) none = ok a
resolve_with (some a) (some parsed) = if not (same_algo parsed a) then err other_type else ok parsed

-- `Hash::parseAnyReturningFormat`
unfoldable pub parse_any_returning_format :
    Bytes → Option HashAlgorithm → Result HashError (Hash × HashFormat)
parse_any_returning_format original given = parse_any_helper original (resolve_with given)

-- `Hash::parseAny`
unfoldable pub parse_any : Bytes → Option HashAlgorithm → Result HashError Hash
parse_any original given = do parsed ← parse_any_returning_format original given; ok parsed.0

-- `newHashAllowEmpty`, without the warning.
unfoldable pub new_hash_allow_empty : Bytes → Option HashAlgorithm → Result HashError Hash
new_hash_allow_empty [] none = err empty_without_type
new_hash_allow_empty [] (some a) = ok (zero_hash a)
new_hash_allow_empty (c ∷ s) given = parse_any (c ∷ s) given

-- `^` on words of `bits` bits.
unfoldable pub xor_bits : ℕ → ℕ → ℕ → ℕ
xor_bits zero a b = 0
xor_bits (suc bits) a b = (a + b) % 2 + 2 * xor_bits bits (a / 2) (b / 2)

unfoldable pub xor_byte : ℕ → ℕ → ℕ
xor_byte a b = xor_bits 8 a b

-- `h.hash[i] ^= b`
unfoldable pub xor_at : ℕ → ℕ → Bytes → Bytes
xor_at i b [] = []
xor_at zero b (c ∷ hash) = xor_byte c b ∷ hash
xor_at (suc i) b (c ∷ hash) = c ∷ xor_at i b hash

-- The loop of `compressHash`, from byte `i` on.
unfoldable pub fold_bytes : ℕ → ℕ → Bytes → Bytes → Bytes
fold_bytes new_size i [] hash = hash
fold_bytes new_size i (b ∷ bs) hash = fold_bytes new_size (i + 1) bs (xor_at (i % new_size) b hash)

-- `compressHash`
unfoldable pub compress_hash : Hash → ℕ → Hash
compress_hash h new_size = record {
  hash = fold_bytes new_size 0 h.hash (replicate new_size 0);
  algo = h.algo;
}
