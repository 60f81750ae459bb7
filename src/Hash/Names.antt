-- ===== src/Hash/Names.antt =====
-- Lemmas on the names of algorithms and formats.
use nixstore_arch.Prelude.{
  ◌≡◌, ◌↔◌, refl, some, ok, Bytes, codes, bytes_eq, bytes_eq_iff, true, arith,
}
use nixstore_arch.Hash.{
  HashAlgorithm, md5, sha1, sha256, sha512, blake3, HashFormat, base64, nix32, base16, sri,
  print_hash_algo, parse_hash_algo_opt, parse_hash_algo, print_hash_format, parse_hash_format_opt,
  algo_code, same_algo,
}

parse_hash_algo_opt-print_hash_algo :
    (a : HashAlgorithm) → parse_hash_algo_opt (print_hash_algo a) ≡ some a
unfolding parse_hash_algo_opt print_hash_algo bytes_eq
parse_hash_algo_opt-print_hash_algo md5 = refl
parse_hash_algo_opt-print_hash_algo sha1 = refl
parse_hash_algo_opt-print_hash_algo sha256 = refl
parse_hash_algo_opt-print_hash_algo sha512 = refl
parse_hash_algo_opt-print_hash_algo blake3 = refl

pub parse_hash_algo-print_hash_algo :
    (a : HashAlgorithm) → parse_hash_algo (print_hash_algo a) ≡ ok a
unfolding parse_hash_algo
parse_hash_algo-print_hash_algo a = rw (parse_hash_algo_opt-print_hash_algo a, parse_hash_algo) refl

parsed_name :
    (s : Bytes) (a : HashAlgorithm) → parse_hash_algo_opt s ≡ some a → s ≡ print_hash_algo a
unfolding parse_hash_algo_opt print_hash_algo
parsed_name s a h = ground (
  arith,
  bytes_eq_iff s (codes "blake3"),
  bytes_eq_iff s (codes "md5"),
  bytes_eq_iff s (codes "sha1"),
  bytes_eq_iff s (codes "sha256"),
  bytes_eq_iff s (codes "sha512"),
)

-- `parseHashAlgoOpt` finds an algorithm exactly for the name that `printHashAlgo` gives it.
pub parse_hash_algo_opt_iff :
    (s : Bytes) (a : HashAlgorithm) → (parse_hash_algo_opt s ≡ some a) ↔ (s ≡ print_hash_algo a)
parse_hash_algo_opt_iff s a = (parsed_name s a, λ e. rw e (parse_hash_algo_opt-print_hash_algo a))

pub parse_hash_format_opt-print_hash_format :
    (f : HashFormat) → parse_hash_format_opt (print_hash_format f) ≡ some f
unfolding parse_hash_format_opt print_hash_format bytes_eq
parse_hash_format_opt-print_hash_format base64 = refl
parse_hash_format_opt-print_hash_format nix32 = refl
parse_hash_format_opt-print_hash_format base16 = refl
parse_hash_format_opt-print_hash_format sri = refl

pub algo_code-injective : (a a' : HashAlgorithm) → algo_code a ≡ algo_code a' → a ≡ a'
unfolding algo_code
algo_code-injective a a' h = ground arith

pub same_algo_refl : (a : HashAlgorithm) → same_algo a a ≡ true
unfolding same_algo
same_algo_refl a = ground arith
