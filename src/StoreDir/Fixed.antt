-- ===== src/StoreDir/Fixed.antt =====
-- Theorems on `makeFixedOutputPathFromCA` and `makeFixedOutputPath`.
use nixstore_arch.Prelude.{
  ◌≡◌, ◌↔◌, ◌⊎◌, ◌<◌, ◌∙◌, refl, true, false, not, Bool-cases, inl, inr, [], Bytes, codes, length,
  ◌==◌, ◌&&◌, ok, >>=-elim, require-elim, arith, ◌++◌,
}
use nixstore_arch.Hash.{
  Hash, HashAlgorithm, sha256, same_algo, base16, to_string, algo_prefix, encode_as,
}
use nixstore_arch.Hash.Names.{algo_code-injective, same_algo_refl}
use nixstore_arch.ContentAddress.{
  FileIngestionMethod, archive_file, make_file_ingestion_prefix, StoreReferences, no_references,
  ContentAddressWithReferences, text_info, fixed_output_info,
}
use nixstore_arch.StorePath.Names.{IsName}
use nixstore_arch.StoreDir.{
  references_not_allowed, not_sha256, of_hash, make_store_path_of, make_type, is_archive,
  make_fixed_output_path, make_fixed_output_path_from_ca,
}
use nixstore_arch.StoreDir.Made.{make_store_path_iff}

-- Objects that may refer to others: archives that are hashed with SHA-256.
abbrev pub IsSource : FileIngestionMethod → Hash → Type 0
IsSource method hash = (method ≡ archive_file) × (hash.algo ≡ sha256)

-- The content addresses that a path is made for.
abbrev pub IsAddressable : ContentAddressWithReferences → Type 0
IsAddressable (text_info hash references) = (0 < length hash.hash) × (hash.algo ≡ sha256)
IsAddressable (fixed_output_info method hash references) =
    (0 < length hash.hash)
    × (((references.others ≡ []) × (references.self ≡ false)) ⊎ IsSource method hash)

printed-hash :
    (h : Hash) → 0 < length h.hash → (s : Bytes) × (of_hash (to_string base16 true h) ≡ ok s)
unfolding to_string of_hash
printed-hash h some_bytes =
    let full : not (length h.hash == 0) ≡ true = ground arith in
    (algo_prefix base16 true h.algo ++ encode_as base16 h.hash, rw full refl)

hash-printed : (h : Hash) (s : Bytes) → of_hash (to_string base16 true h) ≡ ok s → 0 < length h.hash
unfolding to_string of_hash
hash-printed h s e = elim (Bool-cases (length h.hash == 0)) [
  | inl nothing ↦ cc (rw nothing at e)
  | inr full ↦ ground arith
]

same_algo-eq : (a b : HashAlgorithm) → same_algo a b ≡ true → a ≡ b
unfolding same_algo
same_algo-eq a b e = ground (arith, algo_code-injective a b)

chosen-IsSource :
    (method : FileIngestionMethod) (hash : Hash)
    → (same_algo hash.algo sha256 && is_archive method) ≡ true
    → IsSource method hash
unfolding same_algo is_archive
chosen-IsSource method hash e = ground (arith, algo_code-injective hash.algo sha256)

IsSource-chosen :
    (method : FileIngestionMethod) (hash : Hash)
    → IsSource method hash
    → (same_algo hash.algo sha256 && is_archive method) ≡ true
unfolding is_archive
IsSource-chosen method hash (is_archive', algo) =
    rw is_archive' (rw algo (rw (same_algo_refl sha256) refl))

no_references_iff :
    (references : StoreReferences)
    → (no_references references ≡ true) ↔ ((references.others ≡ []) × (references.self ≡ false))
unfolding no_references
no_references_iff references = (λ e. ground arith, λ (others, self'). ground arith)

module _ (hash_string : HashAlgorithm → Bytes → Hash) (dir : Bytes) where
  make_store_path_of_iff :
      (type : Bytes) (hash : Hash) (name : Bytes)
      → ((path : Bytes) × (make_store_path_of hash_string dir type hash name ≡ ok path))
        ↔ (IsName name × (0 < length hash.hash))
  unfolding make_store_path_of
  make_store_path_of_iff type hash name = (
    λ (path, e). >>=-elim (of_hash (to_string base16 true hash)) _ e λ s printed made. (
      (make_store_path_iff hash_string dir type s name).0 (path, made),
      hash-printed hash s printed,
    ),
    λ (is_name, some_bytes).
        let (s, printed) = printed-hash hash some_bytes in
        let (path, made) = (make_store_path_iff hash_string dir type s name).1 is_name in
        (path, rw printed made),
  )

  source_path :
      (name : Bytes) (method : FileIngestionMethod) (hash : Hash) (references : StoreReferences)
      → (same_algo hash.algo sha256 && is_archive method) ≡ true
      → make_fixed_output_path hash_string dir name method hash references
        ≡ make_store_path_of hash_string dir
            (make_type hash_string dir (codes "source") references)
            hash
            name
  unfolding make_fixed_output_path
  source_path name method hash references source = rw source refl

  -- The path of an object that is not a source, if one is made.
  output_path_iff :
      (name : Bytes) (method : FileIngestionMethod) (hash : Hash) (references : StoreReferences)
      → ((s : Bytes) → length (hash_string sha256 s).hash ≡ 32)
      → (same_algo hash.algo sha256 && is_archive method) ≡ false
      → ((path : Bytes) × (make_fixed_output_path hash_string dir name method hash references
            ≡ ok path))
        ↔ (IsName name × (0 < length hash.hash) × (no_references references ≡ true))
  unfolding make_fixed_output_path
  output_path_iff name method hash references sized other = (
    λ (path, e).
        require-elim (no_references references) references_not_allowed (rw other at e)
          λ none_referred e₁. >>=-elim (of_hash (to_string base16 true hash)) _ e₁ λ s printed made.
            let (is_name, _) =
              (make_store_path_of_iff (codes "output:out") _ name).0 (path, made) in
            (is_name, hash-printed hash s printed, none_referred),
    λ (is_name, some_bytes, none_referred).
        let (s, printed) = printed-hash hash some_bytes in
        let payload =
          codes "fixed:out:" ++ (make_file_ingestion_prefix method ++ (s ++ codes ":")) in
        let (path, made) =
          (make_store_path_of_iff (codes "output:out") (hash_string sha256 payload) name).1
            (is_name, omega (arith, sized payload)) in
        (path, rw (other, none_referred) (rw printed made)),
  )

  make_fixed_output_path_iff :
      (name : Bytes) (method : FileIngestionMethod) (hash : Hash) (references : StoreReferences)
      → ((s : Bytes) → length (hash_string sha256 s).hash ≡ 32)
      → ((path : Bytes) × (make_fixed_output_path hash_string dir name method hash references
            ≡ ok path))
        ↔ (IsName name × IsAddressable (fixed_output_info method hash references))
  make_fixed_output_path_iff name method hash references sized =
      elim (Bool-cases (same_algo hash.algo sha256 && is_archive method)) [
        | inl source ↦
            let same = source_path name method hash references source in
            let made =
              make_store_path_of_iff (make_type hash_string dir (codes "source") references) hash
                name in
            (
              λ (path, e).
                  let (is_name, some_bytes) = made.0 (path, rw same at e) in
                  (is_name, (some_bytes, inr (chosen-IsSource method hash source))),
              λ (is_name, (some_bytes, _)).
                  let (path, e) = made.1 (is_name, some_bytes) in (path, same ∙ e),
            )
        | inr other ↦
            let made = output_path_iff name method hash references sized other in
            (
              λ found.
                  let (is_name, some_bytes, none_referred) = made.0 found in
                  (is_name, (some_bytes, inl ((no_references_iff references).0 none_referred))),
              λ (is_name, (some_bytes, allowed)). elim allowed [
                | inl nothing ↦
                    made.1 (is_name, some_bytes, (no_references_iff references).1 nothing)
                | inr source ↦ absurd (let is_source = IsSource-chosen method hash source in cc)
              ],
            )
      ]

  -- For a hash function that gives 32 bytes for SHA-256: `makeFixedOutputPathFromCA` makes a path
  -- exactly if the name is one of the grammar, the hash is not empty, and either a text is addressed
  -- by SHA-256, or the object has no references, also to itself, or it is an archive hashed with
  -- SHA-256.
  pub make_fixed_output_path_from_ca_iff :
      (name : Bytes) (ca : ContentAddressWithReferences)
      → ((s : Bytes) → length (hash_string sha256 s).hash ≡ 32)
      → ((path : Bytes) × (make_fixed_output_path_from_ca hash_string dir name ca ≡ ok path))
        ↔ (IsName name × IsAddressable ca)
  unfolding make_fixed_output_path_from_ca
  make_fixed_output_path_from_ca_iff name (text_info hash references) sized =
      let type =
        make_type hash_string dir (codes "text") (record { others = references; self = false }) in
      let made = make_store_path_of_iff type hash name in
      (
        λ (path, e). require-elim (same_algo hash.algo sha256) not_sha256 e λ same e₁.
            let (is_name, some_bytes) = made.0 (path, e₁) in
            (is_name, (some_bytes, same_algo-eq hash.algo sha256 same)),
        λ (is_name, (some_bytes, algo)).
            let (path, e) = made.1 (is_name, some_bytes) in
            let same : same_algo hash.algo sha256 ≡ true = rw algo (same_algo_refl sha256) in
            (path, rw same e),
      )
  make_fixed_output_path_from_ca_iff name (fixed_output_info method hash references) sized =
      make_fixed_output_path_iff name method hash references sized
