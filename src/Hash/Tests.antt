-- ===== src/Hash/Tests.antt =====
-- A hash of sixteen bytes, and two of the same bytes.
use nixstore_arch.Prelude.{
  ◌<◌, ◌≡◌, ◌↔◌, refl, [], ◌∷◌, codes, replicate, true, false, some, ok, err, ◌>>=◌, arith,
}
use nixstore_arch.Hash.{
  Hash, invalid_length, md5, sha256, blake3, nix32, sri, to_string, parse_any_returning_format,
  parse_any_prefixed, parse_sri, parse_any, equivalent, hash_compare, hash_eq, equal_bytes,
  parse_hash_algo_opt, print_hash_algo, regular_hash_size, parse_low_level, caught, compress_hash,
  fold_bytes, xor_at, xor_byte, xor_bits, parse_any_helper, split_algo, split_prefix_to,
  resolve_with, parse_rest, base_from_size, parse_explicit_format_unprefixed, base_explicit,
}
use nixstore_arch.BaseN.Base16
use nixstore_arch.BaseN.Digits.{hex_digit}
use nixstore_arch.Hash.Names.{parse_hash_algo_opt_iff}
use nixstore_arch.Hash.Order.{hash_compare_iff, hash_compare-reversed, reversed}
use nixstore_arch.Hash.Text.{
  IsHash, parse_any_returning_format-to_string, parse_any_prefixed-to_string, parse_sri-to_string,
}
use nixstore_arch.Hash.Accepted.{IsSized, parse_any-IsSized}

abbrev sixteen : Hash
sixteen = record { hash = replicate 16 255; algo = md5 }

full_byte : 255 < 256
full_byte = omega arith

sixteen-IsHash : IsHash sixteen
unfolding regular_hash_size
sixteen-IsHash = (
  refl,
  (
    full_byte,
    (
      full_byte,
      (
        full_byte,
        (
          full_byte,
          (
            full_byte,
            (
              full_byte,
              (
                full_byte,
                (
                  full_byte,
                  (
                    full_byte,
                    (
                      full_byte,
                      (
                        full_byte,
                        (full_byte, (full_byte, (full_byte, (full_byte, (full_byte, tt))))),
                      ),
                    ),
                  ),
                ),
              ),
            ),
          ),
        ),
      ),
    ),
  ),
)

parse_any_returning_format-to_string_example :
    (to_string nix32 false sixteen >>= λ s. parse_any_returning_format s (some md5))
    ≡ ok (sixteen, nix32)
parse_any_returning_format-to_string_example =
    parse_any_returning_format-to_string nix32 false sixteen sixteen-IsHash

parse_any_prefixed-to_string_example :
    (to_string sri true sixteen >>= parse_any_prefixed) ≡ ok sixteen
parse_any_prefixed-to_string_example = parse_any_prefixed-to_string sri sixteen sixteen-IsHash

parse_sri-to_string_example : (to_string sri false sixteen >>= parse_sri) ≡ ok sixteen
parse_sri-to_string_example = parse_sri-to_string false sixteen sixteen-IsHash

abbrev zeros_sha256 : Hash
zeros_sha256 = record { hash = replicate 32 0; algo = sha256 }

abbrev zeros_blake3 : Hash
zeros_blake3 = record { hash = replicate 32 0; algo = blake3 }

hash_compare_iff_example :
    (hash_compare zeros_sha256 zeros_blake3 ≡ equivalent)
    ↔ ((hash_eq zeros_sha256 zeros_blake3 ≡ true) × (sha256 ≡ blake3))
hash_compare_iff_example = hash_compare_iff zeros_sha256 zeros_blake3

hash_compare-reversed_example :
    hash_compare zeros_blake3 zeros_sha256 ≡ reversed (hash_compare zeros_sha256 zeros_blake3)
hash_compare-reversed_example = hash_compare-reversed zeros_sha256 zeros_blake3

equal_but_ordered : hash_eq zeros_sha256 zeros_blake3 ≡ true
unfolding hash_eq equal_bytes
equal_but_ordered = refl

parse_hash_algo_opt_iff_example :
    (parse_hash_algo_opt (codes "sha256") ≡ some sha256) ↔ (codes "sha256" ≡ print_hash_algo sha256)
parse_hash_algo_opt_iff_example = parse_hash_algo_opt_iff (codes "sha256") sha256

-- The bad character is reported as a wrong length.
bad_character : parse_low_level (codes "0g") md5 Base16.decode ≡ err (invalid_length 0)
unfolding parse_low_level caught Base16.decode Base16.decode_pairs Base16.parse_hex_digit hex_digit
    regular_hash_size
bad_character = refl

folded : (compress_hash (record { hash = 1 ∷ 2 ∷ 3 ∷ 4 ∷ 5 ∷ []; algo = md5 }) 2).hash ≡ 7 ∷ 6 ∷ []
unfolding compress_hash fold_bytes xor_at xor_byte xor_bits
folded = refl

sixteen_text : parse_any (codes "ffffffffffffffffffffffffffffffff") (some md5) ≡ ok sixteen
unfolding parse_any parse_any_returning_format parse_any_helper split_algo split_prefix_to
    resolve_with parse_rest base_from_size parse_explicit_format_unprefixed base_explicit
    parse_low_level caught Base16.decode Base16.decode_pairs Base16.parse_hex_digit
    Base16.encoded_length hex_digit regular_hash_size
sixteen_text = refl

parse_any-IsSized_example : IsSized md5 sixteen
parse_any-IsSized_example =
    parse_any-IsSized (codes "ffffffffffffffffffffffffffffffff") md5 sixteen sixteen_text
