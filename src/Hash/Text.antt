-- ===== src/Hash/Text.antt =====
-- Theorems on the parsers of what `Hash::to_string` wrote.
use nixstore_arch.Prelude.{
  ◌<◌, ◌≡◌, ◌∙◌, refl, ap, [], ◌∷◌, ◌++◌, Bytes, IsByte, All, All-append, length, Bool, true, false,
  ◌||◌, not, ◌==◌, if◌then◌else◌, Option, some, none, Result, ok, ◌>>=◌, arith,
}
use nixstore_arch.BaseN.Digits.{BaseError}
use nixstore_arch.BaseN.Base16
use nixstore_arch.BaseN.Base64
use nixstore_arch.BaseN.Nix32
use nixstore_arch.BaseN.Base16.{decode16-encode16, length-encode16}
use nixstore_arch.BaseN.Base64.{decode64-encode64, length-encode64}
use nixstore_arch.BaseN.Nix32.RoundTrip.{decode32-encode32, length-encode32}
use nixstore_arch.Hash.{
  Hash, HashError, HashAlgorithm, HashFormat, base64, nix32, base16, sri, regular_hash_size, is_sri,
  print_hash_algo, encode_as, algo_prefix, to_string, base_from_size, caught, parse_low_level,
  parse_sri, parse_explicit_format_unprefixed, parse_non_sri_unprefixed, split_algo, parse_rest,
  parse_any_helper, parse_any_prefixed, resolve_prefixed, resolve_with, parse_any_returning_format,
  base_explicit,
}
use nixstore_arch.Hash.Names.{parse_hash_algo-print_hash_algo, same_algo_refl}
use nixstore_arch.Hash.Plain.{
  IsPlain, encode_as-IsPlain, print_hash_algo-IsPlain, split_prefix_to-none, split_prefix_to-some,
  no_colon, no_dash,
}

-- A hash as long as its algorithm makes it.
abbrev pub IsHash : Hash → Type 0
IsHash h = (length h.hash ≡ regular_hash_size h.algo) × All IsByte h.hash

nonempty : (a : HashAlgorithm) → 0 < regular_hash_size a
unfolding regular_hash_size
nonempty a = ground arith

length-nix32 :
    (bs : Bytes) → 0 < length bs → length (Nix32.encode bs) ≡ Nix32.encoded_length (length bs)
length-nix32 [] h = absurd (omega arith)
length-nix32 (b ∷ bs) h = length-encode32 b bs

-- The three lengths differ for every algorithm.
base_from_size-base16 :
    (s : Bytes) (a : HashAlgorithm)
    → length s ≡ Base16.encoded_length (regular_hash_size a)
    → base_from_size s a ≡ ok base16
unfolding base_from_size
base_from_size-base16 s a h = ground arith

base_from_size-nix32 :
    (s : Bytes) (a : HashAlgorithm)
    → length s ≡ Nix32.encoded_length (regular_hash_size a)
    → base_from_size s a ≡ ok nix32
unfolding base_from_size Base16.encoded_length Nix32.encoded_length regular_hash_size
base_from_size-nix32 s a h = ground arith

base_from_size-base64 :
    (s : Bytes) (a : HashAlgorithm)
    → length s ≡ Base64.encoded_length (regular_hash_size a)
    → base_from_size s a ≡ ok base64
unfolding base_from_size Base16.encoded_length Nix32.encoded_length Base64.encoded_length
    regular_hash_size
base_from_size-base64 s a h = ground arith

parse_low_level_lem :
    (s bs : Bytes) (a : HashAlgorithm) (decode : Bytes → Result BaseError Bytes)
    → decode s ≡ ok bs
    → length bs ≡ regular_hash_size a
    → parse_low_level s a decode ≡ ok (record { hash = bs; algo = a })
unfolding parse_low_level caught
parse_low_level_lem s bs a decode h size =
    let sized : (length bs == regular_hash_size a) ≡ true = ground arith in rw h (rw sized refl)

-- The text without a prefix, in a format that is not SRI.
parse_unprefixed :
    (f : HashFormat) (h : Hash)
    → IsHash h
    → is_sri f ≡ false
    → (base_from_size (encode_as f h.hash) h.algo ≡ ok f)
      × (parse_explicit_format_unprefixed (encode_as f h.hash) h.algo f ≡ ok h)
unfolding parse_explicit_format_unprefixed encode_as is_sri base_explicit
parse_unprefixed base16 h (size, bytes) based = (
  base_from_size-base16 (Base16.encode h.hash) h.algo
      (length-encode16 h.hash ∙ ap Base16.encoded_length size),
  parse_low_level_lem (Base16.encode h.hash) h.hash h.algo Base16.decode
      (decode16-encode16 h.hash bytes) size,
)
parse_unprefixed nix32 h (size, bytes) based =
    let some_bytes : 0 < length h.hash = omega (arith, nonempty h.algo) in
    (
      base_from_size-nix32 (Nix32.encode h.hash) h.algo
          (length-nix32 h.hash some_bytes ∙ ap Nix32.encoded_length size),
      parse_low_level_lem (Nix32.encode h.hash) h.hash h.algo Nix32.decode
          (decode32-encode32 h.hash bytes) size,
    )
parse_unprefixed base64 h (size, bytes) based = (
  base_from_size-base64 (Base64.encode h.hash) h.algo
      (length-encode64 h.hash ∙ ap Base64.encoded_length size),
  parse_low_level_lem (Base64.encode h.hash) h.hash h.algo Base64.decode
      (decode64-encode64 h.hash bytes) size,
)
parse_unprefixed sri h (size, bytes) based = cc

parse_sri_text :
    (h : Hash) → IsHash h → parse_low_level (encode_as sri h.hash) h.algo Base64.decode ≡ ok h
unfolding encode_as
parse_sri_text h (size, bytes) =
    parse_low_level_lem (Base64.encode h.hash) h.hash h.algo Base64.decode
      (decode64-encode64 h.hash bytes) size

parse_rest_lem :
    (f : HashFormat) (h : Hash)
    → IsHash h
    → parse_rest (is_sri f) (encode_as f h.hash) h.algo ≡ ok (h, f)
unfolding is_sri parse_rest
parse_rest_lem sri h ok_h = rw (parse_sri_text h ok_h, parse_rest) refl
parse_rest_lem base16 h ok_h =
    let (sized, parsed) = parse_unprefixed base16 h ok_h refl in rw (sized, parsed) refl
parse_rest_lem nix32 h ok_h =
    let (sized, parsed) = parse_unprefixed nix32 h ok_h refl in rw (sized, parsed) refl
parse_rest_lem base64 h ok_h =
    let (sized, parsed) = parse_unprefixed base64 h ok_h refl in rw (sized, parsed) refl

-- The algorithm that the text names.
abbrev named : HashFormat → Bool → HashAlgorithm → Option HashAlgorithm
named f include_algo a = if is_sri f || include_algo then some a else none

split_colon :
    (a : HashAlgorithm) (s : Bytes)
    → split_algo ((print_hash_algo a ++ b':' ∷ []) ++ s) ≡ ok (some a, false, s)
unfolding split_algo
split_colon a s =
    rw
      (
        split_prefix_to-some (print_hash_algo a) s b':'
            (no_colon (print_hash_algo a) (print_hash_algo-IsPlain a)),
        parse_hash_algo-print_hash_algo a,
        split_algo,
      )
      refl

split_dash :
    (a : HashAlgorithm) (s : Bytes)
    → All IsPlain s
    → split_algo ((print_hash_algo a ++ b'-' ∷ []) ++ s) ≡ ok (some a, true, s)
unfolding split_algo
split_dash a s h =
    let name = print_hash_algo a in
    let plain = print_hash_algo-IsPlain a in
    let colonless =
      All-append (λ x. (x == b':') ≡ false) (name ++ b'-' ∷ []) s
        (All-append (λ x. (x == b':') ≡ false) name (b'-' ∷ []) (no_colon name plain) (refl, tt))
        (no_colon s h) in
    rw
      (
        split_prefix_to-none ((name ++ b'-' ∷ []) ++ s) b':' colonless,
        split_prefix_to-some name s b'-' (no_dash name plain),
        parse_hash_algo-print_hash_algo a,
        split_algo,
      )
      refl

split_nothing : (s : Bytes) → All IsPlain s → split_algo s ≡ ok (none, false, s)
unfolding split_algo
split_nothing s h =
    rw
      (
        split_prefix_to-none s b':' (no_colon s h),
        split_prefix_to-none s b'-' (no_dash s h),
        split_algo,
      )
      refl

split_algo_lem :
    (f : HashFormat) (include_algo : Bool) (a : HashAlgorithm) (s : Bytes)
    → All IsPlain s
    → split_algo (algo_prefix f include_algo a ++ s) ≡ ok (named f include_algo a, is_sri f, s)
unfolding algo_prefix is_sri
split_algo_lem sri include_algo a s h = split_dash a s h
split_algo_lem base16 true a s h = split_colon a s
split_algo_lem base16 false a s h = split_nothing s h
split_algo_lem nix32 true a s h = split_colon a s
split_algo_lem nix32 false a s h = split_nothing s h
split_algo_lem base64 true a s h = split_colon a s
split_algo_lem base64 false a s h = split_nothing s h

pub to_string_lem :
    (f : HashFormat) (include_algo : Bool) (h : Hash)
    → IsHash h
    → to_string f include_algo h ≡ ok (algo_prefix f include_algo h.algo ++ encode_as f h.hash)
unfolding to_string
to_string_lem f include_algo h (size, bytes) =
    let full : not (length h.hash == 0) ≡ true = ground (arith, nonempty h.algo) in rw full refl

parse_any_helper_lem :
    (f : HashFormat) (include_algo : Bool) (h : Hash)
    (resolve_algo : Option HashAlgorithm → Result HashError HashAlgorithm)
    → IsHash h
    → resolve_algo (named f include_algo h.algo) ≡ ok h.algo
    → (to_string f include_algo h >>= λ s. parse_any_helper s resolve_algo) ≡ ok (h, f)
unfolding parse_any_helper
parse_any_helper_lem f include_algo h resolve_algo ok_h resolved =
    rw
      (
        to_string_lem f include_algo h ok_h,
        split_algo_lem f include_algo h.algo (encode_as f h.hash)
            (encode_as-IsPlain f h.hash ok_h.1),
      )
      (rw resolved (parse_rest_lem f h ok_h))

resolve_given :
    (f : HashFormat) (include_algo : Bool) (a : HashAlgorithm)
    → resolve_with (some a) (named f include_algo a) ≡ ok a
unfolding resolve_with is_sri
resolve_given f include_algo a = ground (arith, same_algo_refl a)

-- `Hash::parseAnyReturningFormat`, given the algorithm, reads the hash and the format back from
-- what `Hash::to_string` wrote, in every format and whether or not the algorithm was included,
-- for a hash of bytes that is as long as its algorithm makes it.
pub parse_any_returning_format-to_string :
    (f : HashFormat) (include_algo : Bool) (h : Hash)
    → IsHash h
    → (to_string f include_algo h >>= λ s. parse_any_returning_format s (some h.algo)) ≡ ok (h, f)
unfolding parse_any_returning_format
parse_any_returning_format-to_string f include_algo h ok_h =
    parse_any_helper_lem f include_algo h (resolve_with (some h.algo)) ok_h
      (resolve_given f include_algo h.algo)

resolve_named : (f : HashFormat) (a : HashAlgorithm) → resolve_prefixed (named f true a) ≡ ok a
unfolding resolve_prefixed is_sri
resolve_named f a = ground arith

-- `Hash::parseAnyPrefixed` reads the hash back from what `Hash::to_string` wrote with the
-- algorithm, in every format, for a hash of bytes that is as long as its algorithm makes it.
pub parse_any_prefixed-to_string :
    (f : HashFormat) (h : Hash) → IsHash h → (to_string f true h >>= parse_any_prefixed) ≡ ok h
unfolding parse_any_prefixed
parse_any_prefixed-to_string f h ok_h =
    let whole = parse_any_helper_lem f true h resolve_prefixed ok_h (resolve_named f h.algo) in
    rw (to_string_lem f true h ok_h) (rw (rw (to_string_lem f true h ok_h) at whole) refl)

pub parse_non_sri_unprefixed_lem :
    (f : HashFormat) (h : Hash)
    → IsHash h
    → is_sri f ≡ false
    → parse_non_sri_unprefixed (encode_as f h.hash) h.algo ≡ ok h
unfolding parse_non_sri_unprefixed
parse_non_sri_unprefixed_lem f h ok_h based =
    let (sized, parsed) = parse_unprefixed f h ok_h based in rw (sized, parsed) refl

-- `Hash::parseSRI` reads the hash back from what `Hash::to_string` wrote in the format SRI, for a
-- hash of bytes that is as long as its algorithm makes it.
pub parse_sri-to_string :
    (include_algo : Bool) (h : Hash)
    → IsHash h
    → (to_string sri include_algo h >>= parse_sri) ≡ ok h
unfolding parse_sri algo_prefix is_sri
parse_sri-to_string include_algo h ok_h =
    let name = print_hash_algo h.algo in
    rw
      (
        to_string_lem sri include_algo h ok_h,
        split_prefix_to-some name (encode_as sri h.hash) b'-'
            (no_dash name (print_hash_algo-IsPlain h.algo)),
        parse_hash_algo-print_hash_algo h.algo,
        parse_sri_text h ok_h,
        parse_sri,
      )
      refl
