-- ===== src/StoreDir/Tests.antt =====
-- The store directory `/nix/store`, with a hash function that gives zeros.
use nixstore_arch.Prelude.{
  ℕ, ◌≡◌, ◌↔◌, refl, length, false, [], ◌∷◌, ◌++◌, Bytes, codes, replicate, ok, err, bytes_eq,
}
use nixstore_arch.CanonPath.Segments.{HasNoSlash, joined, printed}
use nixstore_arch.CanonPath.Canonical.{IsNormal}
use nixstore_arch.StorePath.{
  store_path, name_part, check_hash, is_base32, in_range, hash_part, first_bytes, bytes_after,
  check_name, check_dots, check_characters, is_legal, store_path_of_hash,
}
use nixstore_arch.StorePath.Names.{IsName}
use nixstore_arch.Hash.{
  Hash, HashAlgorithm, sha256, algo_code, same_algo, algo_prefix, is_sri, encode_as, to_string,
  compress_hash, fold_bytes, xor_at, xor_byte, xor_bits,
}
use nixstore_arch.BaseN.Digits.{char32}
use nixstore_arch.BaseN.Nix32
use nixstore_arch.ContentAddress.{flat_file, StoreReferences, no_references, fixed_output_info}
use nixstore_arch.StoreDir.{
  parse_store_path, print_store_path, make_store_path, make_fixed_output_path,
  make_fixed_output_path_from_ca, is_archive, references_not_allowed, of_path, of_hash,
}
use nixstore_arch.StoreDir.Paths.{IsIn, parse_store_path_iff, parse_store_path-print_store_path}
use nixstore_arch.StoreDir.Made.{make_store_path_iff, make_store_path-parsed}
use nixstore_arch.StoreDir.Fixed.{IsAddressable, make_fixed_output_path_from_ca_iff}

abbrev dir : Bytes
dir = codes "/nix/store"

dir-IsNormal : IsNormal dir
unfolding printed joined bytes_eq
dir-IsNormal = (
  codes "store" ∷ codes "nix" ∷ [],
  (
    ((refl, refl, refl), (refl, (refl, (refl, (refl, (refl, tt)))))),
    (((refl, refl, refl), (refl, (refl, (refl, tt)))), tt),
  ),
  refl,
)

abbrev base : Bytes
base = replicate 32 b'0' ++ codes "-a"

base_stored : store_path base ≡ ok base
unfolding store_path check_hash is_base32 in_range hash_part name_part first_bytes bytes_after
    check_name check_dots check_characters is_legal bytes_eq
base_stored = refl

zeros-HasNoSlash : (n : ℕ) (s : Bytes) → HasNoSlash s → HasNoSlash (replicate n b'0' ++ s)
zeros-HasNoSlash ℕ.zero s h = h
zeros-HasNoSlash (ℕ.suc n) s h = (refl, zeros-HasNoSlash n s h)

base-HasNoSlash : HasNoSlash base
base-HasNoSlash = zeros-HasNoSlash 32 (codes "-a") (refl, (refl, tt))

parse_store_path-print_store_path_example :
    parse_store_path dir (print_store_path dir base) ≡ ok base
parse_store_path-print_store_path_example =
    parse_store_path-print_store_path dir base dir-IsNormal base_stored base-HasNoSlash

parse_store_path_iff_example :
    (parse_store_path dir (codes "/nix//store/x") ≡ ok base) ↔ IsIn dir (codes "/nix//store/x") base
parse_store_path_iff_example = parse_store_path_iff dir (codes "/nix//store/x") base dir-IsNormal

abbrev zeros : HashAlgorithm → Bytes → Hash
zeros a s = record { hash = replicate 32 0; algo = a }

made_base : make_store_path zeros dir (codes "text") (codes "sha256:0") (codes "a") ≡ ok base
unfolding make_store_path of_hash of_path to_string algo_prefix is_sri encode_as compress_hash
    fold_bytes xor_at xor_byte xor_bits Nix32.encode Nix32.encode_from Nix32.encoded_length
    Nix32.group char32 store_path_of_hash name_part bytes_after check_name check_dots
    check_characters is_legal in_range bytes_eq
made_base = refl

make_store_path-parsed_example :
    (name_part base ≡ codes "a")
    × (store_path base ≡ ok base)
    × (parse_store_path dir (print_store_path dir base) ≡ ok base)
make_store_path-parsed_example =
    make_store_path-parsed zeros dir (codes "text") (codes "sha256:0") (codes "a") base dir-IsNormal
      made_base

make_store_path_iff_example :
    ((path : Bytes) × (make_store_path zeros dir (codes "text") (codes "sha256:0") (codes "a")
        ≡ ok path))
    ↔ IsName (codes "a")
make_store_path_iff_example =
    make_store_path_iff zeros dir (codes "text") (codes "sha256:0") (codes "a")

abbrev one_reference : StoreReferences
one_reference = record { others = base ∷ []; self = false }

zeros-sized : (s : Bytes) → length (zeros sha256 s).hash ≡ 32
zeros-sized s = refl

make_fixed_output_path_from_ca_iff_example :
    ((path : Bytes) × (make_fixed_output_path_from_ca zeros dir
          (codes "a")
          (fixed_output_info flat_file (zeros sha256 []) one_reference)
        ≡ ok path))
    ↔ (IsName (codes "a")
        × IsAddressable (fixed_output_info flat_file (zeros sha256 []) one_reference))
make_fixed_output_path_from_ca_iff_example =
    make_fixed_output_path_from_ca_iff zeros dir (codes "a")
      (fixed_output_info flat_file (zeros sha256 []) one_reference) zeros-sized

reference_refused :
    make_fixed_output_path zeros dir (codes "a") flat_file (zeros sha256 []) one_reference
    ≡ err references_not_allowed
unfolding make_fixed_output_path same_algo algo_code is_archive no_references
reference_refused = refl
