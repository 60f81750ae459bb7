-- ===== src/ContentAddress/Tests.antt =====
-- The address of an archive by a hash of sixteen bytes.
use nixstore_arch.Prelude.{
  ◌<◌, ◌≡◌, ◌↔◌, refl, [], codes, replicate, true, some, ok, err, ◌>>=◌, arith, bytes_eq,
}
use nixstore_arch.Hash.{
  md5, sha256, regular_hash_size, split_prefix_to, print_hash_algo, split_prefix,
}
use nixstore_arch.Hash.Text.{IsHash}
use nixstore_arch.ContentAddress.{
  ContentAddress, ContentAddressWithReferences, nix_archive, flat, text, unrecognized_prefix,
  self_reference, render, parse, parse_opt, render_content_address, render_with_algo,
  parse_with_algo, parse_method, render_method, parse_content_address_method_prefix,
  render_prefix_modern, make_file_ingestion_prefix, get_file_ingestion_method, from_parts,
  get_method, get_hash, parse_prefix, StoreReferences,
}
use nixstore_arch.ContentAddress.RoundTrip.{
  parse-render, parse_opt-render_content_address, parse_with_algo-render_with_algo,
  parse_method_iff, references_of, from_parts_lem,
}

abbrev by_zeros : ContentAddress
by_zeros = record { method = nix_archive; hash = record { hash = replicate 16 0; algo = md5 } }

positive : 0 < 256
positive = omega arith

by_zeros-IsHash : IsHash by_zeros.hash
unfolding regular_hash_size
by_zeros-IsHash = (
  refl,
  (
    positive,
    (
      positive,
      (
        positive,
        (
          positive,
          (
            positive,
            (
              positive,
              (
                positive,
                (
                  positive,
                  (
                    positive,
                    (
                      positive,
                      (positive, (positive, (positive, (positive, (positive, (positive, tt)))))),
                    ),
                  ),
                ),
              ),
            ),
          ),
        ),
      ),
    ),
  ),
)

parse-render_example : (render by_zeros >>= parse) ≡ ok by_zeros
parse-render_example = parse-render by_zeros by_zeros-IsHash

parse_opt-render_content_address_example :
    (render_content_address (some by_zeros) >>= parse_opt) ≡ ok (some by_zeros)
parse_opt-render_content_address_example =
    parse_opt-render_content_address (some by_zeros) (λ ca e. rw (some-injective e) by_zeros-IsHash)
  where
    some-injective : {ca : ContentAddress} → some by_zeros ≡ some ca → ca ≡ by_zeros
    some-injective e = cc

parse_with_algo-render_with_algo_example :
    parse_with_algo (render_with_algo flat sha256) ≡ ok (flat, sha256)
parse_with_algo-render_with_algo_example = parse_with_algo-render_with_algo flat sha256

parse_method_iff_example :
    (parse_method (codes "nar") ≡ ok nix_archive) ↔ (codes "nar" ≡ render_method nix_archive)
parse_method_iff_example = parse_method_iff (codes "nar") nix_archive

abbrev only_self : StoreReferences
only_self = record { others = []; self = true }

from_parts_lem_example :
    ((from_parts text by_zeros.hash only_self ≡ err self_reference)
      ↔ ((text ≡ text) × (true ≡ true)))
    × (((c : ContentAddressWithReferences) × (from_parts text by_zeros.hash only_self ≡ ok c)
          × (get_method c ≡ text)
          × (get_hash c ≡ by_zeros.hash)
          × (references_of c ≡ only_self))
        ↔ (¬ ((text ≡ text) × (true ≡ true))))
from_parts_lem_example = from_parts_lem text by_zeros.hash only_self

fixed_flat : render_with_algo flat sha256 ≡ codes "fixed:sha256"
unfolding render_with_algo render_prefix_modern make_file_ingestion_prefix get_file_ingestion_method
    print_hash_algo
fixed_flat = refl

unknown_prefix : parse (codes "source:sha256:0") ≡ err unrecognized_prefix
unfolding parse parse_content_address_method_prefix split_prefix_to bytes_eq
unknown_prefix = refl

old_prefix : parse_prefix (codes "r:sha256") ≡ (nix_archive, codes "sha256")
unfolding parse_prefix split_prefix
old_prefix = refl
