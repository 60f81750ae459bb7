-- ===== src/ContentAddress.antt =====
-- src/libstore/content-address.cc and src/libutil/file-content-address.cc: how the contents of a store
-- object are addressed, and the texts that say so.
pub mod RoundTrip
mod Tests
use nixstore_arch.Prelude.{
  ℕ, ◌+◌, Bool, true, false, List, [], ◌∷◌, ◌++◌, Bytes, codes, length, ◌==◌, if◌then◌else◌, Option,
  none, some, Result, ok, err, require, ◌>>=◌, ◌>>◌, bytes_eq, not, ◌&&◌,
}
use nixstore_arch.Hash.{
  Hash, HashError, HashAlgorithm, print_hash_algo, parse_hash_algo, to_string, nix32,
  parse_non_sri_unprefixed, split_prefix_to, split_prefix,
}

pub data FileIngestionMethod : Type 0 where
  flat_file archive_file : FileIngestionMethod

-- `ContentAddressMethod::Raw`
pub data ContentAddressMethod : Type 0 where
  text flat nix_archive : ContentAddressMethod

pub data CaError : Type 0 where
  no_prefix no_hash_algo unrecognized_prefix self_reference : CaError
  unknown_method : Bytes → CaError
  bad_hash : HashError → CaError

-- An exception of the functions on hashes passes on.
unfoldable pub passing : {A : Type 0} → Result HashError A → Result CaError A
passing (ok a) = ok a
passing (err e) = err (bad_hash e)

-- `parseFileSerialisationMethodOpt`, with the cast of its result to an ingestion method.
unfoldable pub parse_file_serialisation_method_opt : Bytes → Option FileIngestionMethod
parse_file_serialisation_method_opt input =
    if bytes_eq input (codes "flat")
    then some flat_file
    else if bytes_eq input (codes "nar")
    then some archive_file
    else none

unfoldable pub parse_file_ingestion_method : Bytes → Result CaError FileIngestionMethod
parse_file_ingestion_method input = elim (parse_file_serialisation_method_opt input) [
  | some method ↦ ok method
  | none ↦ err (unknown_method input)
]

unfoldable pub render_file_ingestion_method : FileIngestionMethod → Bytes
render_file_ingestion_method flat_file = codes "flat"
render_file_ingestion_method archive_file = codes "nar"

unfoldable pub make_file_ingestion_prefix : FileIngestionMethod → Bytes
make_file_ingestion_prefix flat_file = []
make_file_ingestion_prefix archive_file = codes "r:"

unfoldable pub get_file_ingestion_method : ContentAddressMethod → FileIngestionMethod
get_file_ingestion_method flat = flat_file
get_file_ingestion_method nix_archive = archive_file
get_file_ingestion_method text = flat_file

-- `ContentAddressMethod::render`
unfoldable pub render_method : ContentAddressMethod → Bytes
render_method text = codes "text"
render_method flat = render_file_ingestion_method (get_file_ingestion_method flat)
render_method nix_archive = render_file_ingestion_method (get_file_ingestion_method nix_archive)

unfoldable pub file_ingestion_method_to_content_address_method :
    FileIngestionMethod → ContentAddressMethod
file_ingestion_method_to_content_address_method flat_file = flat
file_ingestion_method_to_content_address_method archive_file = nix_archive

-- `ContentAddressMethod::parse`
unfoldable pub parse_method : Bytes → Result CaError ContentAddressMethod
parse_method m =
    if bytes_eq m (codes "text")
    then ok text
    else (parse_file_ingestion_method m >>= λ method.
        ok (file_ingestion_method_to_content_address_method method))

unfoldable pub render_prefix : ContentAddressMethod → Bytes
render_prefix text = codes "text:"
render_prefix flat = make_file_ingestion_prefix (get_file_ingestion_method flat)
render_prefix nix_archive = make_file_ingestion_prefix (get_file_ingestion_method nix_archive)

-- `ContentAddressMethod::parsePrefix`: the method, and the rest of the text.
unfoldable pub parse_prefix : Bytes → ContentAddressMethod × Bytes
parse_prefix m = elim (split_prefix m (codes "r:")) [
  | some rest ↦ (nix_archive, rest)
  | none ↦ elim (split_prefix m (codes "text:")) [ some rest ↦ (text, rest) | none ↦ (flat, m) ]
]

unfoldable pub render_prefix_modern : ContentAddressMethod → Bytes
render_prefix_modern text = codes "text:"
render_prefix_modern flat =
    codes "fixed:" ++ make_file_ingestion_prefix (get_file_ingestion_method flat)
render_prefix_modern nix_archive =
    codes "fixed:" ++ make_file_ingestion_prefix (get_file_ingestion_method nix_archive)

unfoldable pub render_with_algo : ContentAddressMethod → HashAlgorithm → Bytes
render_with_algo m a = render_prefix_modern m ++ print_hash_algo a

pub record ContentAddress : Type 0 where
  pub method : ContentAddressMethod
  pub hash : Hash

-- `ContentAddress::render`
unfoldable pub render : ContentAddress → Result CaError Bytes
render ca = do
  printed ← passing (to_string nix32 true ca.hash)
  ok (render_prefix_modern ca.method ++ printed)

-- `parseHashAlgorithm_`: the algorithm, and the text behind it.
unfoldable pub parse_hash_algorithm : Bytes → Result CaError (HashAlgorithm × Bytes)
parse_hash_algorithm rest = elim (split_prefix_to rest b':') [
  | none ↦ err no_hash_algo
  | some (hash_algo_raw, behind) ↦ do a ← passing (parse_hash_algo hash_algo_raw); ok (a, behind)
]

-- What stands behind `fixed:`.
unfoldable pub parse_fixed : Bytes → Result CaError (ContentAddressMethod × HashAlgorithm × Bytes)
parse_fixed rest = elim (split_prefix rest (codes "r:")) [
  | some behind ↦ do (a, last) ← parse_hash_algorithm behind; ok (nix_archive, a, last)
  | none ↦ do (a, last) ← parse_hash_algorithm rest; ok (flat, a, last)
]

-- `parseContentAddressMethodPrefix`: the method, the algorithm, and the text behind them.
unfoldable pub parse_content_address_method_prefix :
    Bytes → Result CaError (ContentAddressMethod × HashAlgorithm × Bytes)
parse_content_address_method_prefix whole_input = elim (split_prefix_to whole_input b':') [
  | none ↦ err no_prefix
  | some (prefix, rest) ↦
      if bytes_eq prefix (codes "text")
      then (parse_hash_algorithm rest >>= λ parsed. ok (text, parsed.0, parsed.1))
      else if bytes_eq prefix (codes "fixed")
      then parse_fixed rest
      else err unrecognized_prefix
]

-- `ContentAddress::parse`
unfoldable pub parse : Bytes → Result CaError ContentAddress
parse raw_ca = do
  (ca_method, a, rest) ← parse_content_address_method_prefix raw_ca
  h ← passing (parse_non_sri_unprefixed rest a)
  ok (record { method = ca_method; hash = h })

-- `ContentAddressMethod::parseWithAlgo`
unfoldable pub parse_with_algo : Bytes → Result CaError (ContentAddressMethod × HashAlgorithm)
parse_with_algo ca_method = do
  (m, a, rest) ← parse_content_address_method_prefix (ca_method ++ codes ":")
  ok (m, a)

-- `ContentAddress::parseOpt`
unfoldable pub parse_opt : Bytes → Result CaError (Option ContentAddress)
parse_opt [] = ok none
parse_opt (c ∷ raw_ca) = do ca ← parse (c ∷ raw_ca); ok (some ca)

unfoldable pub render_content_address : Option ContentAddress → Result CaError Bytes
render_content_address none = ok []
render_content_address (some ca) = render ca

unfoldable pub print_method_algo : ContentAddress → Bytes
print_method_algo ca = render_prefix ca.method ++ print_hash_algo ca.hash.algo

-- The references of an object: other base names, and whether it refers to itself.
pub record StoreReferences : Type 0 where
  pub others : List Bytes
  pub self : Bool

-- `StoreReferences::empty` and `StoreReferences::size`
unfoldable pub no_references : StoreReferences → Bool
no_references refs = not refs.self && (length refs.others == 0)

unfoldable pub count_references : StoreReferences → ℕ
count_references refs = (if refs.self then 1 else 0) + length refs.others

-- `ContentAddressWithReferences`: `TextInfo` and `FixedOutputInfo`.
pub data ContentAddressWithReferences : Type 0 where
  text_info : (hash : Hash) (references : List Bytes) → ContentAddressWithReferences
  fixed_output_info :
      (method : FileIngestionMethod) (hash : Hash) (references : StoreReferences)
      → ContentAddressWithReferences

abbrev pub nothing_referred : StoreReferences
nothing_referred = record { others = []; self = false }

unfoldable pub without_refs : ContentAddress → ContentAddressWithReferences
without_refs ca = elim ca.method [
  | text ↦ text_info ca.hash []
  | flat ↦ fixed_output_info (get_file_ingestion_method ca.method) ca.hash nothing_referred
  | nix_archive ↦ fixed_output_info (get_file_ingestion_method ca.method) ca.hash nothing_referred
]

unfoldable pub from_parts :
    ContentAddressMethod → Hash → StoreReferences → Result CaError ContentAddressWithReferences
from_parts text hash refs = do
  require (not refs.self) self_reference
  ok (text_info hash refs.others)
from_parts flat hash refs = ok (fixed_output_info (get_file_ingestion_method flat) hash refs)
from_parts nix_archive hash refs =
    ok (fixed_output_info (get_file_ingestion_method nix_archive) hash refs)

unfoldable pub get_method : ContentAddressWithReferences → ContentAddressMethod
get_method (text_info hash references) = text
get_method (fixed_output_info method hash references) =
    file_ingestion_method_to_content_address_method method

unfoldable pub get_hash : ContentAddressWithReferences → Hash
get_hash (text_info hash references) = hash
get_hash (fixed_output_info method hash references) = hash
