-- ===== src/Serialise.antt =====
-- src/libutil/serialise.cc and include/nix/util/serialise.hh: the wire format of integers and
-- strings. A `Source` over a string is the list of the bytes that are not read yet; what is
-- written to a `Sink` is the list of the bytes appended to it.
pub mod RoundTrip
pub mod Canonical
mod Tests
use nixstore_arch.Prelude.{
  ℕ, zero, suc, ◌+◌, ◌-◌, ◌*◌, ◌/◌, ◌%◌, ◌^◌, Bool, true, false, not, List, [], ◌∷◌, ◌++◌, Bytes,
  length, replicate, ltb, ◌==◌, if◌then◌else◌, Result, ok, err, require, ◌>>=◌, ◌>>◌,
}
use Prim.Native.String.{String}

-- `EndOfFile`, `SerialisationError` by its messages (`bad_archive` is the one of archive.cc), and
-- the plain `Error` that `alignUp` and `dumpPath` throw.
pub data Error : Type 0 where
  end_of_file integer_too_large string_too_long non_zero_padding : Error
  bad_archive : String → Error
  plain : String → Error
  -- no exception of the program: a loop of the model ran out of rounds
  stuck : Error

-- `catch (SerialisationError &)` catches it
unfoldable pub is_serialisation_error : Error → Bool
is_serialisation_error end_of_file = false
is_serialisation_error (plain msg) = false
is_serialisation_error stuck = false
is_serialisation_error _ = true

abbrev pub Source : Type 0
Source = Bytes

-- Appends `n` to the sink as eight bytes, lowest first (`buf[i] = (n >> 8 * i) & 0xff`).
unfoldable pub le_bytes : ℕ → ℕ → Bytes
le_bytes zero n = []
le_bytes (suc k) n = (n % 256) ∷ le_bytes k (n / 256)

unfoldable pub write_num : ℕ → Bytes
write_num n = le_bytes 8 n

-- `readLittleEndian<uint64_t>`
unfoldable pub le_num : Bytes → ℕ
le_num [] = 0
le_num (b ∷ bs) = b + 256 * le_num bs

-- `source(buf, len)`: exactly `len` bytes, or `EndOfFile`.
unfoldable pub read_exact : ℕ → Source → Result Error (Bytes × Source)
read_exact zero src = ok ([], src)
read_exact (suc n) [] = err end_of_file
read_exact (suc n) (b ∷ src) = do (bs, rest) ← read_exact n src; ok (b ∷ bs, rest)

-- `readNum<T>`, for the greatest value `max` of `T`
unfoldable pub read_num : ℕ → Source → Result Error (ℕ × Source)
read_num max src = do
  (buf, rest) ← read_exact 8 src
  require (not (ltb max (le_num buf))) integer_too_large
  ok (le_num buf, rest)

abbrev pub u64_max : ℕ
u64_max = 2 ^ 64 - 1

-- the bytes that `writePadding` appends after `len` bytes
unfoldable pub padding : ℕ → ℕ
padding len = if len % 8 == 0 then 0 else 8 - len % 8

unfoldable pub write_padding : ℕ → Bytes
write_padding len = replicate (padding len) 0

unfoldable pub write_string : Bytes → Bytes
write_string data' = write_num (length data') ++ (data' ++ write_padding (length data'))

unfoldable pub all_zero : Bytes → Bool
all_zero [] = true
all_zero (b ∷ bs) = let rest = all_zero bs in if b == 0 then rest else false

unfoldable pub read_padding : ℕ → Source → Result Error Source
read_padding len src = if len % 8 == 0 then ok src else do
  (buf, rest) ← read_exact (8 - len % 8) src
  require (all_zero buf) non_zero_padding
  ok rest

unfoldable pub read_string : ℕ → Source → Result Error (Bytes × Source)
read_string max src = do
  (len, rest) ← read_num u64_max src
  require (not (ltb max len)) string_too_long
  (res, rest') ← read_exact len rest
  rest'' ← read_padding len rest'
  ok (res, rest'')

-- `writeStrings`, of a list or of a set in its order
write_each : List Bytes → Bytes
write_each [] = []
write_each (s ∷ ss) = write_string s ++ write_each ss

unfoldable pub write_strings : List Bytes → Bytes
unfolding write_each
write_strings ss = write_num (length ss) ++ write_each ss

-- `while (count--) ss.insert(ss.end(), readString(source))`
read_each : ℕ → Source → Result Error (List Bytes × Source)
read_each zero src = ok ([], src)
read_each (suc count) src = do
  (s, rest) ← read_string u64_max src
  (ss, rest') ← read_each count rest
  ok (s ∷ ss, rest')

unfoldable pub read_strings : Source → Result Error (List Bytes × Source)
unfolding read_each
read_strings src = do (count, rest) ← read_num u64_max src; read_each count rest
