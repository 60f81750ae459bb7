-- ===== src/Serialise/Tests.antt =====
-- Encoded strings, and the theorems at them.
use nixstore_arch.Prelude.{
  ◌≡◌, refl, List, [], ◌∷◌, ◌++◌, Bytes, IsByte, codes, All, ok, err, arith,
}
use nixstore_arch.Serialise.{
  Error, le_bytes, write_num, le_num, read_exact, read_num, padding, write_padding, write_string,
  write_strings, read_padding, all_zero, read_string, read_strings,
}
use nixstore_arch.Serialise.RoundTrip.{read_string_too_long, read_strings-write_strings_lem}
use nixstore_arch.Serialise.Canonical.{IsString, read_string-eq-ok}

abbrev encoded : Bytes
encoded = 2 ∷ 0 ∷ 0 ∷ 0 ∷ 0 ∷ 0 ∷ 0 ∷ 0 ∷ b'h' ∷ b'i' ∷ 0 ∷ 0 ∷ 0 ∷ 0 ∷ 0 ∷ 0 ∷ []

encoded_lem : write_string (codes "hi") ≡ encoded
unfolding write_string write_num le_bytes write_padding padding
encoded_lem = refl

encoded-IsByte : All IsByte (encoded ++ 9 ∷ [])
encoded-IsByte = ground arith

decoded : read_string 2 (encoded ++ 9 ∷ []) ≡ ok (codes "hi", 9 ∷ [])
unfolding read_string read_num read_exact le_num read_padding padding all_zero
decoded = refl

abbrev words : List Bytes
words = codes "hi" ∷ [] ∷ codes "nix-archive-1" ∷ []

read_strings-write_strings_example :
    read_strings (write_strings words ++ 9 ∷ []) ≡ ok (words, 9 ∷ [])
read_strings-write_strings_example =
    read_strings-write_strings_lem words (9 ∷ []) (omega arith)
      (omega arith, (omega arith, (omega arith, tt)))

read_string_too_long_example :
    read_string 1 (write_string (codes "hi") ++ []) ≡ err Error.string_too_long
read_string_too_long_example = read_string_too_long 1 (codes "hi") [] (omega arith) (omega arith)

read_string-eq-ok_example : IsString 2 (encoded ++ 9 ∷ []) (codes "hi", 9 ∷ [])
read_string-eq-ok_example = read_string-eq-ok 2 (encoded ++ 9 ∷ []) encoded-IsByte decoded
