-- ===== src/BaseN/Base16.antt =====
-- src/libutil/base-n.cc: `base16::encode` and `base16::decode`.
use nixstore_arch.Prelude.{
  ℕ, ◌+◌, ◌*◌, ◌/◌, ◌%◌, ◌<◌, ◌≡◌, refl, Bytes, IsByte, [], ◌∷◌, length, All, none, some, Result,
  ok, err, ◌>>=◌, ◌>>◌, require, ◌==◌, true, arith,
}
use nixstore_arch.BaseN.Digits.{
  BaseError, invalid_character, odd_length, hex_digit, hex_char, hex_digit-hex_char,
}

unfoldable pub encode : Bytes → Bytes
encode [] = []
encode (b ∷ bs) = hex_char (b / 16) ∷ hex_char (b % 16) ∷ encode bs

unfoldable pub parse_hex_digit : ℕ → Result BaseError ℕ
parse_hex_digit c = elim (hex_digit c) [ none ↦ err (invalid_character c) | some d ↦ ok d ]

-- The loop over pairs of characters, of which there is a whole number.
unfoldable pub decode_pairs : Bytes → Result BaseError Bytes
decode_pairs [] = ok []
decode_pairs (c ∷ []) = err odd_length
decode_pairs (c ∷ c' ∷ s) = do
  high ← parse_hex_digit c
  low ← parse_hex_digit c'
  bs ← decode_pairs s
  ok ((high * 16 + low) ∷ bs)

unfoldable pub decode : Bytes → Result BaseError Bytes
decode s = do require (length s % 2 == 0) odd_length; decode_pairs s

unfoldable pub encoded_length : ℕ → ℕ
encoded_length n = n * 2

pub length-encode16 : (bs : Bytes) → length (encode bs) ≡ encoded_length (length bs)
unfolding encode encoded_length
length-encode16 [] = omega arith
length-encode16 (b ∷ bs) = omega (arith, length-encode16 bs)

parse-char : (d : ℕ) → d < 16 → parse_hex_digit (hex_char d) ≡ ok d
unfolding parse_hex_digit
parse-char d h = rw (hex_digit-hex_char d h, parse_hex_digit) refl

decode_pairs-encode : (bs : Bytes) → All IsByte bs → decode_pairs (encode bs) ≡ ok bs
unfolding encode decode_pairs
decode_pairs-encode [] h = refl
decode_pairs-encode (b ∷ bs) (hb, h) =
    let whole : b / 16 * 16 + b % 16 ≡ b = omega arith in
    rw
      (
        parse-char (b / 16) (omega arith),
        parse-char (b % 16) (omega arith),
        decode_pairs-encode bs h,
      )
      (rw whole refl)

pub decode16-encode16 : (bs : Bytes) → All IsByte bs → decode (encode bs) ≡ ok bs
unfolding decode encoded_length
decode16-encode16 bs h =
    let even : (length (encode bs) % 2 == 0) ≡ true = ground (arith, length-encode16 bs) in
    rw even (decode_pairs-encode bs h)
