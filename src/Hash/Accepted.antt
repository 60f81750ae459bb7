-- ===== src/Hash/Accepted.antt =====
-- Theorems on every hash that the parsers return, and on `compressHash`.
use nixstore_arch.Prelude.{
  ℕ, zero, suc, ◌+◌, ◌/◌, ◌%◌, ◌^◌, ◌<◌, ◌≡◌, ◌∙◌, inl, inr, refl, ap, sym, [], ◌∷◌, Bytes, IsByte,
  All, length, length-replicate, replicate, Bool, true, false, ◌==◌, Option, Option-cases, some,
  none, Result, ok, >>=-elim, require-elim, ok-injective, arith,
}
use nixstore_arch.BaseN.Digits.{BaseError}
use nixstore_arch.Hash.{
  Hash, HashAlgorithm, HashFormat, regular_hash_size, same_algo, caught, parse_low_level,
  base_from_size, base_explicit, split_algo, parse_explicit_format_unprefixed, parse_rest,
  parse_any_helper, resolve_with, parse_any_returning_format, parse_any, xor_bits, xor_byte, xor_at,
  fold_bytes, compress_hash,
}
use nixstore_arch.Hash.Names.{algo_code-injective}
use nixstore_arch.BaseN.Base64

-- A hash of the algorithm `a`, as long as `a` makes it.
abbrev pub IsSized : HashAlgorithm → Hash → Type 0
IsSized a h = (h.algo ≡ a) × (length h.hash ≡ regular_hash_size a)

parse_low_level-IsSized :
    (s : Bytes) (a : HashAlgorithm) (decode : Bytes → Result BaseError Bytes) (h : Hash)
    → parse_low_level s a decode ≡ ok h
    → IsSized a h
unfolding parse_low_level
parse_low_level-IsSized s a decode h e = >>=-elim (caught (decode s)) _ e λ d _ e'.
    require-elim (length d == regular_hash_size a) _ e' λ sized e''.
      let same = ok-injective e'' in
      (ap (λ (r : Hash). r.algo) (sym same), rw (sym same) (ground arith))

parse_explicit-IsSized :
    (s : Bytes) (a : HashAlgorithm) (f : HashFormat) (h : Hash)
    → parse_explicit_format_unprefixed s a f ≡ ok h
    → IsSized a h
unfolding parse_explicit_format_unprefixed
parse_explicit-IsSized s a f h e = elim (Option-cases (base_explicit f)) [
  | inl nothing ↦ cc (rw (nothing, parse_explicit_format_unprefixed) at e)
  | inr (decode, found) ↦
      parse_low_level-IsSized s a decode h (rw (found, parse_explicit_format_unprefixed) at e)
]

parse_rest-IsSized :
    (sri' : Bool) (s : Bytes) (a : HashAlgorithm) (parsed : Hash × HashFormat)
    → parse_rest sri' s a ≡ ok parsed
    → IsSized a parsed.0
unfolding parse_rest
parse_rest-IsSized true s a parsed e =
    >>=-elim (parse_low_level s a Base64.decode) _ e
      λ h e' last. rw (sym (ok-injective last)) (parse_low_level-IsSized s a Base64.decode h e')
parse_rest-IsSized false s a parsed e = >>=-elim (base_from_size s a) _ e λ f _ e'.
    >>=-elim (parse_explicit_format_unprefixed s a f) _ e'
      λ h e'' last. rw (sym (ok-injective last)) (parse_explicit-IsSized s a f h e'')

resolve_with-same :
    (a a' : HashAlgorithm) (parsed : Option HashAlgorithm)
    → resolve_with (some a) parsed ≡ ok a'
    → a' ≡ a
unfolding resolve_with same_algo
resolve_with-same a a' none e = sym (ok-injective e)
resolve_with-same a a' (some p) e = ground (arith, algo_code-injective p a)

-- A hash that `Hash::parseAny` returns for a given algorithm is of that algorithm and has its length.
pub parse_any-IsSized :
    (s : Bytes) (a : HashAlgorithm) (h : Hash) → parse_any s (some a) ≡ ok h → IsSized a h
unfolding parse_any parse_any_returning_format parse_any_helper
parse_any-IsSized s a h e =
    >>=-elim (parse_any_helper s (resolve_with (some a))) _ e λ parsed e' last.
      >>=-elim (split_algo s) _ e' λ split _ e''.
        >>=-elim (resolve_with (some a) split.0) _ e'' λ a' resolved e'''.
          rw (sym (ok-injective last)) (
            rw (sym (resolve_with-same a a' split.0 resolved))
              (parse_rest-IsSized split.1 split.2 a' parsed e'''))

length-xor_at : (i b : ℕ) (hash : Bytes) → length (xor_at i b hash) ≡ length hash
unfolding xor_at
length-xor_at i b [] = refl
length-xor_at zero b (c ∷ hash) = refl
length-xor_at (suc i) b (c ∷ hash) = ap suc (length-xor_at i b hash)

length-fold_bytes : (n i : ℕ) (bs hash : Bytes) → length (fold_bytes n i bs hash) ≡ length hash
unfolding fold_bytes
length-fold_bytes n i [] hash = refl
length-fold_bytes n i (b ∷ bs) hash =
    length-fold_bytes n (i + 1) bs (xor_at (i % n) b hash) ∙ length-xor_at (i % n) b hash

xor_bits-below : (bits a b : ℕ) → xor_bits bits a b < 2 ^ bits
unfolding xor_bits
xor_bits-below zero a b = omega arith
xor_bits-below (suc bits) a b = omega (arith, xor_bits-below bits (a / 2) (b / 2))

xor_at-bytes : (i b : ℕ) (hash : Bytes) → All IsByte hash → All IsByte (xor_at i b hash)
unfolding xor_at xor_byte
xor_at-bytes i b [] h = tt
xor_at-bytes zero b (c ∷ hash) (hc, h) = (xor_bits-below 8 c b, h)
xor_at-bytes (suc i) b (c ∷ hash) (hc, h) = (hc, xor_at-bytes i b hash h)

fold_bytes-bytes :
    (n i : ℕ) (bs hash : Bytes) → All IsByte hash → All IsByte (fold_bytes n i bs hash)
unfolding fold_bytes
fold_bytes-bytes n i [] hash h = h
fold_bytes-bytes n i (b ∷ bs) hash h =
    fold_bytes-bytes n (i + 1) bs (xor_at (i % n) b hash) (xor_at-bytes (i % n) b hash h)

zeros-bytes : (n : ℕ) → All IsByte (replicate n 0)
zeros-bytes zero = tt
zeros-bytes (suc n) = (omega arith, zeros-bytes n)

-- `compressHash` gives as many bytes as it was asked for.
pub length-compress_hash : (h : Hash) (n : ℕ) → length (compress_hash h n).hash ≡ n
unfolding compress_hash
length-compress_hash h n = length-fold_bytes n 0 h.hash (replicate n 0) ∙ length-replicate n 0

pub compress_hash-bytes : (h : Hash) (n : ℕ) → All IsByte (compress_hash h n).hash
unfolding compress_hash
compress_hash-bytes h n = fold_bytes-bytes n 0 h.hash (replicate n 0) (zeros-bytes n)
