-- ===== src/StoreDir/Made.antt =====
-- Theorems on the paths that `makeStorePath` makes.
use nixstore_arch.Prelude.{
  ℕ, ◌≡◌, ◌↔◌, ◌∙◌, refl, sym, Bool, true, false, not, Bool-cases, inl, inr, [], ◌∷◌, ◌++◌, Bytes,
  codes, length, All, All-append, ◌==◌, ==_iff, ok, >>=-elim, ok-injective, arith,
}
use nixstore_arch.BaseN.Digits.{char32, holds_below, holds_below-at}
use nixstore_arch.BaseN.Nix32
use nixstore_arch.BaseN.Nix32.RoundTrip.{length-encode32}
use nixstore_arch.CanonPath.Segments.{HasNoSlash}
use nixstore_arch.CanonPath.Canonical.{IsNormal}
use nixstore_arch.Hash.{
  Hash, HashAlgorithm, sha256, nix32, is_sri, algo_prefix, encode_as, to_string, compress_hash,
}
use nixstore_arch.Hash.Plain.{encode32-All}
use nixstore_arch.Hash.Accepted.{length-compress_hash}
use nixstore_arch.StorePath.{
  store_path, store_path_of_hash, check_name, name_part, is_base32, is_legal, in_range,
}
use nixstore_arch.StorePath.Names.{IsName, IsBase32, store_path-of_hash}
use nixstore_arch.StoreDir.{of_path, of_hash, parse_store_path, print_store_path, make_store_path}
use nixstore_arch.StoreDir.Paths.{of_path-ok, parse_store_path-print_store_path}

base32_table : holds_below 32 (λ d. is_base32 (char32 d)) ≡ true
unfolding holds_below is_base32 char32
base32_table = refl

abbrev digits_of : Hash → Bytes
digits_of h = Nix32.encode (compress_hash h 20).hash

digits-IsBase32 : (h : Hash) → All IsBase32 (digits_of h)
digits-IsBase32 h =
    encode32-All IsBase32 (λ d. holds_below-at 32 _ d base32_table) (compress_hash h 20).hash

length-nix32 : (bs : Bytes) → length bs ≡ 20 → length (Nix32.encode bs) ≡ 32
unfolding Nix32.encoded_length
length-nix32 [] h = absurd (omega arith)
length-nix32 (b ∷ bs) h = length-encode32 b bs ∙ rw h refl

length-digits : (h : Hash) → length (digits_of h) ≡ 32
length-digits h = length-nix32 (compress_hash h 20).hash (length-compress_hash h 20)

to_string-compressed : (h : Hash) → to_string nix32 false (compress_hash h 20) ≡ ok (digits_of h)
unfolding to_string algo_prefix is_sri encode_as
to_string-compressed h =
    let full : not (length (compress_hash h 20).hash == 0) ≡ true =
      ground (arith, length-compress_hash h 20) in
    rw full refl

slash_not_digit : is_base32 b'/' ≡ false
unfolding is_base32 in_range
slash_not_digit = refl

slash_not_legal : is_legal b'/' ≡ false
unfolding is_legal in_range
slash_not_legal = refl

no_slash :
    (test : ℕ → Bool) → test b'/' ≡ false → (s : Bytes) → All (λ c. test c ≡ true) s → HasNoSlash s
no_slash test fails [] h = tt
no_slash test fails (c ∷ s) (hc, h) = elim (Bool-cases (c == b'/')) [
  | inl slash ↦ absurd (clash c hc ((==_iff c b'/').0 slash))
  | inr other ↦ (other, no_slash test fails s h)
]
  where
    clash : (d : ℕ) → test d ≡ true → d ≡ b'/' → ⊥
    clash d hd e = cc (rw e at hd, fails)

made_name-HasNoSlash :
    (h : Hash) (name : Bytes) → IsName name → HasNoSlash (digits_of h ++ (codes "-" ++ name))
made_name-HasNoSlash h name (n₀, n₁, legal, n₂, n₃) =
    All-append (λ c. (c == b'/') ≡ false) (digits_of h) (codes "-" ++ name)
      (no_slash is_base32 slash_not_digit (digits_of h) (digits-IsBase32 h))
      (refl, no_slash is_legal slash_not_legal name legal)

store_path_of_hash-shape :
    (h name path : Bytes) → store_path_of_hash h name ≡ ok path → path ≡ h ++ (codes "-" ++ name)
unfolding store_path_of_hash
store_path_of_hash-shape h name path e =
    >>=-elim (check_name (name_part (h ++ (codes "-" ++ name)))) _ e
      λ _ _ last. sym (ok-injective last)

module _ (hash_string : HashAlgorithm → Bytes → Hash) (dir : Bytes) where
  made :
      (type hash name : Bytes)
      → (h : Hash) × (make_store_path hash_string dir type hash name
          ≡ of_path (store_path_of_hash (digits_of h) name))
  unfolding make_store_path of_hash
  made type hash name =
      let s = type ++ (codes ":" ++ (hash ++ (codes ":" ++ (dir ++ (codes ":" ++ name))))) in
      (hash_string sha256 s, rw (to_string-compressed (hash_string sha256 s)) refl)

  -- `makeStorePath` makes a path exactly for the names of the grammar.
  pub make_store_path_iff :
      (type hash name : Bytes)
      → ((path : Bytes) × (make_store_path hash_string dir type hash name ≡ ok path)) ↔ IsName name
  make_store_path_iff type hash name =
      let (h, made_of) = made type hash name in
      let named = (store_path-of_hash (digits_of h) name (length-digits h) (digits-IsBase32 h)).0 in
      (
        (λ (path, e).
            let stored =
              of_path-ok (store_path_of_hash (digits_of h) name) path (rw made_of at e) in
            named.0 (rw (store_path_of_hash-shape (digits_of h) name path stored) at stored)),
        λ is_name. (
          digits_of h ++ (codes "-" ++ name),
          made_of ∙ rw (named.1 is_name) (unfold of_path in refl),
        ),
      )

  -- A path that `makeStorePath` makes has the name it was asked for, `StorePath` accepts it, and in a
  -- directory in canonical form `parseStorePath` reads it back from what `printStorePath` makes of it.
  pub make_store_path-parsed :
      (type hash name path : Bytes)
      → IsNormal dir
      → make_store_path hash_string dir type hash name ≡ ok path
      → (name_part path ≡ name)
        × (store_path path ≡ ok path)
        × (parse_store_path dir (print_store_path dir path) ≡ ok path)
  make_store_path-parsed type hash name path canonical e =
      let (h, made_of) = made type hash name in
      let stored = of_path-ok (store_path_of_hash (digits_of h) name) path (rw made_of at e) in
      let shape = store_path_of_hash-shape (digits_of h) name path stored in
      let is_name = (make_store_path_iff type hash name).0 (path, e) in
      let (accepted, _, has_name) =
        (store_path-of_hash (digits_of h) name (length-digits h) (digits-IsBase32 h)).1 path
          stored in
      (
        has_name,
        accepted,
        parse_store_path-print_store_path dir path canonical accepted
            (rw shape (made_name-HasNoSlash h name is_name)),
      )
