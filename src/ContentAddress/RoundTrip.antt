-- ===== src/ContentAddress/RoundTrip.antt =====
-- Theorems on the texts of content addresses.
use nixstore_arch.Prelude.{
  ◌≡◌, ◌↔◌, refl, sym, ap, true, false, [], ◌∷◌, ◌++◌, append-nil, append_assoc, inl, inr,
  Bool-cases, Bytes, codes, Option, none, some, ok, err, ◌>>=◌, bytes_eq, bytes_eq_iff, arith,
}
use nixstore_arch.Hash.{
  Hash, HashAlgorithm, md5, sha1, sha256, sha512, blake3, nix32, print_hash_algo, algo_prefix,
  encode_as, is_sri, split_prefix_to, split_prefix,
}
use nixstore_arch.Hash.Names.{parse_hash_algo-print_hash_algo}
use nixstore_arch.Hash.Plain.{split_prefix_to-some, no_colon, print_hash_algo-IsPlain}
use nixstore_arch.Hash.Text.{IsHash, to_string_lem, parse_non_sri_unprefixed_lem}
use nixstore_arch.ContentAddress.{
  ContentAddressMethod, text, flat, nix_archive, no_prefix, self_reference, passing,
  parse_file_serialisation_method_opt, parse_file_ingestion_method, render_file_ingestion_method,
  make_file_ingestion_prefix, get_file_ingestion_method, render_method,
  file_ingestion_method_to_content_address_method, parse_method, render_prefix_modern,
  render_with_algo, ContentAddress, render, parse_hash_algorithm, parse_fixed,
  parse_content_address_method_prefix, parse, parse_with_algo, parse_opt, render_content_address,
  StoreReferences, ContentAddressWithReferences, text_info, fixed_output_info, from_parts,
  get_method, get_hash,
}

parse_hash_algorithm_lem :
    (a : HashAlgorithm) (s : Bytes)
    → parse_hash_algorithm ((print_hash_algo a ++ b':' ∷ []) ++ s) ≡ ok (a, s)
unfolding parse_hash_algorithm passing
parse_hash_algorithm_lem a s =
    rw
      (
        split_prefix_to-some (print_hash_algo a) s b':'
            (no_colon (print_hash_algo a) (print_hash_algo-IsPlain a)),
        parse_hash_algo-print_hash_algo a,
        parse_hash_algorithm,
        passing,
      )
      refl

-- No algorithm begins as the prefix of archives does.
no_archive_prefix :
    (a : HashAlgorithm) (s : Bytes)
    → split_prefix ((print_hash_algo a ++ b':' ∷ []) ++ s) (codes "r:") ≡ none
unfolding split_prefix print_hash_algo
no_archive_prefix md5 s = refl
no_archive_prefix sha1 s = refl
no_archive_prefix sha256 s = refl
no_archive_prefix sha512 s = refl
no_archive_prefix blake3 s = refl

parse_prefix_lem :
    (m : ContentAddressMethod) (a : HashAlgorithm) (s : Bytes)
    → parse_content_address_method_prefix
        (render_prefix_modern m ++ ((print_hash_algo a ++ b':' ∷ []) ++ s))
      ≡ ok (m, a, s)
unfolding render_prefix_modern parse_content_address_method_prefix split_prefix_to bytes_eq
    make_file_ingestion_prefix get_file_ingestion_method parse_fixed
parse_prefix_lem text a s = rw (parse_hash_algorithm_lem a s) refl
parse_prefix_lem flat a s =
    rw (no_archive_prefix a s, parse_hash_algorithm_lem a s, parse_fixed) refl
parse_prefix_lem nix_archive a s =
    unfold parse_fixed split_prefix in rw (parse_hash_algorithm_lem a s) refl

-- `ContentAddressMethod::parseWithAlgo` reads back what `renderWithAlgo` wrote.
pub parse_with_algo-render_with_algo :
    (m : ContentAddressMethod) (a : HashAlgorithm)
    → parse_with_algo (render_with_algo m a) ≡ ok (m, a)
unfolding parse_with_algo render_with_algo
parse_with_algo-render_with_algo m a =
    let parsed = rw (append-nil (print_hash_algo a ++ b':' ∷ [])) at (parse_prefix_lem m a []) in
    rw (append_assoc (render_prefix_modern m) (print_hash_algo a) (b':' ∷ []), parsed) refl

render_lem :
    (ca : ContentAddress)
    → IsHash ca.hash
    → render ca
      ≡ ok (
          render_prefix_modern ca.method
          ++ ((print_hash_algo ca.hash.algo ++ b':' ∷ []) ++ encode_as nix32 ca.hash.hash))
unfolding render passing algo_prefix is_sri
render_lem ca h = rw (to_string_lem nix32 true ca.hash h) refl

-- `ContentAddress::parse` reads back what `ContentAddress::render` wrote, for a hash of bytes that
-- is as long as its algorithm makes it.
pub parse-render : (ca : ContentAddress) → IsHash ca.hash → (render ca >>= parse) ≡ ok ca
unfolding parse passing is_sri
parse-render ca h =
    rw
      (
        render_lem ca h,
        parse_prefix_lem ca.method ca.hash.algo (encode_as nix32 ca.hash.hash),
        parse_non_sri_unprefixed_lem nix32 ca.hash h refl,
      )
      refl

parse-nil : parse [] ≡ err no_prefix
unfolding parse parse_content_address_method_prefix split_prefix_to
parse-nil = refl

parse_opt-some : (s : Bytes) (ca : ContentAddress) → parse s ≡ ok ca → parse_opt s ≡ ok (some ca)
unfolding parse_opt
parse_opt-some [] ca h = cc (parse-nil, h)
parse_opt-some (c ∷ s) ca h = rw (h, parse_opt) refl

-- `ContentAddress::parseOpt` reads back what `renderContentAddress` wrote, a missing address
-- included, for a hash of bytes that is as long as its algorithm makes it.
pub parse_opt-render_content_address :
    (given : Option ContentAddress)
    → ((ca : ContentAddress) → given ≡ some ca → IsHash ca.hash)
    → (render_content_address given >>= parse_opt) ≡ ok given
unfolding render_content_address
parse_opt-render_content_address none h = unfold parse_opt in refl
parse_opt-render_content_address (some ca) h =
    let whole = parse-render ca (h ca refl) in
    let rendered = render_lem ca (h ca refl) in
    rw rendered (parse_opt-some _ ca (rw rendered at whole))

parsed_method : (s : Bytes) (m : ContentAddressMethod) → parse_method s ≡ ok m → s ≡ render_method m
unfolding parse_method parse_file_ingestion_method parse_file_serialisation_method_opt render_method
    render_file_ingestion_method get_file_ingestion_method
    file_ingestion_method_to_content_address_method
parsed_method s m h = ground (
  arith,
  bytes_eq_iff s (codes "text"),
  bytes_eq_iff s (codes "flat"),
  bytes_eq_iff s (codes "nar"),
)

parse_method-render_method : (m : ContentAddressMethod) → parse_method (render_method m) ≡ ok m
unfolding parse_method bytes_eq parse_file_ingestion_method parse_file_serialisation_method_opt
    render_method render_file_ingestion_method get_file_ingestion_method
    file_ingestion_method_to_content_address_method
parse_method-render_method text = refl
parse_method-render_method flat = refl
parse_method-render_method nix_archive = refl

-- `ContentAddressMethod::parse` accepts exactly the text that `render` gives the method.
pub parse_method_iff :
    (s : Bytes) (m : ContentAddressMethod) → (parse_method s ≡ ok m) ↔ (s ≡ render_method m)
parse_method_iff s m = (parsed_method s m, λ e. rw e (parse_method-render_method m))

-- The references that an address goes with.
unfoldable pub references_of : ContentAddressWithReferences → StoreReferences
references_of (text_info hash references) = record { others = references; self = false }
references_of (fixed_output_info method hash references) = references

no_self :
    (h : Hash) (refs : StoreReferences)
    → refs.self ≡ false
    → references_of (text_info h refs.others) ≡ refs
unfolding references_of
no_self h refs e = ap (λ b. record { others = refs.others; self = b }) (sym e)

text_self :
    (h : Hash) (refs : StoreReferences)
    → refs.self ≡ true
    → from_parts text h refs ≡ err self_reference
unfolding from_parts
text_self h refs e = rw e refl

text_others :
    (h : Hash) (refs : StoreReferences)
    → refs.self ≡ false
    → from_parts text h refs ≡ ok (text_info h refs.others)
unfolding from_parts
text_others h refs e = rw e refl

-- `ContentAddressWithReferences::fromParts` throws exactly for a self-reference with text hashing, and
-- in exactly the other cases it gives an address that has the method, the hash and the references.
pub from_parts_lem :
    (m : ContentAddressMethod) (h : Hash) (refs : StoreReferences)
    → ((from_parts m h refs ≡ err self_reference) ↔ ((m ≡ text) × (refs.self ≡ true)))
      × (((c : ContentAddressWithReferences) × (from_parts m h refs ≡ ok c)
            × (get_method c ≡ m)
            × (get_hash c ≡ h)
            × (references_of c ≡ refs))
          ↔ (¬ ((m ≡ text) × (refs.self ≡ true))))
unfolding get_method get_hash
from_parts_lem text h refs = elim (Bool-cases refs.self) [
  | inl self' ↦
      let thrown = text_self h refs self' in
      (
        ((λ _. (refl, self')), λ _. thrown),
        (λ (c, e, _, _, _). cc, λ other. absurd (other (refl, self'))),
      )
  | inr others ↦
      let given = text_others h refs others in
      (
        (λ e. cc, λ (_, self'). cc),
        (
          λ _ (_, self'). cc,
          λ _. (text_info h refs.others, given, refl, refl, no_self h refs others),
        ),
      )
]
from_parts_lem flat h refs =
    unfold from_parts references_of file_ingestion_method_to_content_address_method
      get_file_ingestion_method in
    ((λ e. cc, λ (is_text, _). cc), (λ _ (is_text, _). cc, λ _. (_, refl, refl, refl, refl)))
from_parts_lem nix_archive h refs =
    unfold from_parts references_of file_ingestion_method_to_content_address_method
      get_file_ingestion_method in
    ((λ e. cc, λ (is_text, _). cc), (λ _ (is_text, _). cc, λ _. (_, refl, refl, refl, refl)))
