-- ===== src/Hash/Plain.antt =====
-- Lemmas on texts without a separator.
use nixstore_arch.Prelude.{
  ℕ, zero, suc, ◌+◌, ◌-◌, ◌*◌, ◌/◌, ◌%◌, ◌^◌, ◌<◌, ◌≡◌, refl, [], ◌∷◌, ◌++◌, Bytes, IsByte, All,
  All-append, length, Bool, true, false, Bool-cases, inl, inr, leb, ◌==◌, if◌then◌else◌, some, none,
  arith,
}
use nixstore_arch.BaseN.Digits.{hex_char, char64, char32, holds_below, holds_below-at}
use nixstore_arch.BaseN.Base16
use nixstore_arch.BaseN.Base64
use nixstore_arch.BaseN.Nix32
use nixstore_arch.Hash.{
  HashAlgorithm, md5, sha1, sha256, sha512, blake3, HashFormat, base64, nix32, base16, sri,
  print_hash_algo, encode_as, split_prefix_to,
}

-- Neither a colon nor a dash.
unfoldable pub is_plain : ℕ → Bool
is_plain c = if c == b':' then false else if c == b'-' then false else true

abbrev pub IsPlain : ℕ → Type 0
IsPlain c = is_plain c ≡ true

module _ (P : ℕ → Type 0) where
  encode16-All :
      ((d : ℕ) → d < 16 → P (hex_char d)) → (bs : Bytes) → All IsByte bs → All P (Base16.encode bs)
  unfolding Base16.encode
  encode16-All p [] h = tt
  encode16-All p (b ∷ bs) (hb, h) =
      (p (b / 16) (omega arith), (p (b % 16) (omega arith), encode16-All p bs h))

  encode_from-All :
      ((d : ℕ) → d < 32 → P (char32 d)) → (bs : Bytes) (n : ℕ) → All P (Nix32.encode_from bs n)
  unfolding Nix32.encode_from Nix32.group
  encode_from-All p bs zero = tt
  encode_from-All p bs (suc n) = (p (Nix32.group bs n) (omega arith), encode_from-All p bs n)

  pub encode32-All : ((d : ℕ) → d < 32 → P (char32 d)) → (bs : Bytes) → All P (Nix32.encode bs)
  unfolding Nix32.encode
  encode32-All p bs = elim (Bool-cases (length bs == 0)) [
    | inl empty ↦ rw empty tt
    | inr full ↦ rw full (encode_from-All p bs (Nix32.encoded_length (length bs)))
  ]

  module _ (p : (d : ℕ) → d < 64 → P (char64 d)) where
    drain-All : (rounds d nbits : ℕ) → All P (Base64.drain rounds d nbits).0
    unfolding Base64.drain
    drain-All zero d nbits = tt
    drain-All (suc rounds) d nbits = elim (Bool-cases (leb 6 nbits)) [
      | inl more ↦
          rw more (p (d / 2 ^ (nbits - 6) % 64) (omega arith), drain-All rounds d (nbits - 6))
      | inr done ↦ rw done tt
    ]

    encode_loop-All : (bs : Bytes) (d nbits : ℕ) → All P (Base64.encode_loop bs d nbits)
    unfolding Base64.encode_loop
    encode_loop-All [] d nbits = elim (Bool-cases (nbits == 0)) [
      | inl done ↦ rw done tt
      | inr left ↦ rw left (p (d * 2 ^ (6 - nbits) % 64) (omega arith), tt)
    ]
    encode_loop-All (b ∷ bs) d nbits =
        let d' = Base64.shift_in 256 d b in
        All-append P (Base64.drain (nbits + 8) d' (nbits + 8)).0 _
          (drain-All (nbits + 8) d' (nbits + 8))
          (encode_loop-All bs d' (Base64.drain (nbits + 8) d' (nbits + 8)).1)

  pad-All : P b'=' → (rounds : ℕ) (s : Bytes) → All P s → All P (Base64.pad rounds s)
  unfolding Base64.pad
  pad-All e zero s h = h
  pad-All e (suc rounds) s h = elim (Bool-cases (length s % 4 == 0)) [
    | inl whole ↦ rw whole h
    | inr short ↦
        rw short (pad-All e rounds (s ++ b'=' ∷ []) (All-append P s (b'=' ∷ []) h (e, tt)))
  ]

  encode64-All :
      ((d : ℕ) → d < 64 → P (char64 d)) → P b'=' → (bs : Bytes) → All P (Base64.encode bs)
  unfolding Base64.encode
  encode64-All p e bs = pad-All e 3 (Base64.encode_loop bs 0 0) (encode_loop-All p bs 0 0)

plain16 : holds_below 16 (λ d. is_plain (hex_char d)) ≡ true
unfolding holds_below is_plain hex_char
plain16 = refl

plain32 : holds_below 32 (λ d. is_plain (char32 d)) ≡ true
unfolding holds_below is_plain char32
plain32 = refl

plain64 : holds_below 64 (λ d. is_plain (char64 d)) ≡ true
unfolding holds_below is_plain char64
plain64 = refl

IsPlain-end : IsPlain b'='
unfolding is_plain
IsPlain-end = refl

pub encode_as-IsPlain : (f : HashFormat) (bs : Bytes) → All IsByte bs → All IsPlain (encode_as f bs)
unfolding encode_as
encode_as-IsPlain base16 bs h = encode16-All IsPlain (λ d. holds_below-at 16 _ d plain16) bs h
encode_as-IsPlain nix32 bs h = encode32-All IsPlain (λ d. holds_below-at 32 _ d plain32) bs
encode_as-IsPlain base64 bs h =
    encode64-All IsPlain (λ d. holds_below-at 64 _ d plain64) IsPlain-end bs
encode_as-IsPlain sri bs h =
    encode64-All IsPlain (λ d. holds_below-at 64 _ d plain64) IsPlain-end bs

pub print_hash_algo-IsPlain : (a : HashAlgorithm) → All IsPlain (print_hash_algo a)
unfolding print_hash_algo is_plain
print_hash_algo-IsPlain md5 = (refl, (refl, (refl, tt)))
print_hash_algo-IsPlain sha1 = (refl, (refl, (refl, (refl, tt))))
print_hash_algo-IsPlain sha256 = (refl, (refl, (refl, (refl, (refl, (refl, tt))))))
print_hash_algo-IsPlain sha512 = (refl, (refl, (refl, (refl, (refl, (refl, tt))))))
print_hash_algo-IsPlain blake3 = (refl, (refl, (refl, (refl, (refl, (refl, tt))))))

-- `find(separator)` on a text without it, and on one that goes on with it.
pub split_prefix_to-none :
    (s : Bytes) (c : ℕ) → All (λ x. (x == c) ≡ false) s → split_prefix_to s c ≡ none
unfolding split_prefix_to
split_prefix_to-none [] c h = refl
split_prefix_to-none (x ∷ s) c (hx, h) = rw (hx, split_prefix_to-none s c h, split_prefix_to) refl

pub split_prefix_to-some :
    (s rest : Bytes) (c : ℕ)
    → All (λ x. (x == c) ≡ false) s
    → split_prefix_to ((s ++ c ∷ []) ++ rest) c ≡ some (s, rest)
unfolding split_prefix_to
split_prefix_to-some [] rest c h =
    let e : (c == c) ≡ true = ground arith in rw (e, split_prefix_to) refl
split_prefix_to-some (x ∷ s) rest c (hx, h) =
    rw (hx, split_prefix_to-some s rest c h, split_prefix_to) refl

pub no_colon : (s : Bytes) → All IsPlain s → All (λ x. (x == b':') ≡ false) s
unfolding is_plain
no_colon [] h = tt
no_colon (x ∷ s) (hx, h) = (ground arith, no_colon s h)

pub no_dash : (s : Bytes) → All IsPlain s → All (λ x. (x == b'-') ≡ false) s
unfolding is_plain
no_dash [] h = tt
no_dash (x ∷ s) (hx, h) = (ground arith, no_dash s h)
