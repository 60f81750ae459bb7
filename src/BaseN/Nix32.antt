-- ===== src/BaseN/Nix32.antt =====
-- src/libutil/base-nix-32.cc: `BaseNix32::encode` and `BaseNix32::decode`. The bits of the bytes, the
-- low ones first, are cut in groups of five, and the text has the last group first.
pub mod Chunk
pub mod RoundTrip
use nixstore_arch.Prelude.{
  ℕ, zero, suc, ◌+◌, ◌-◌, ◌*◌, ◌/◌, ◌%◌, ◌^◌, Bytes, List, [], ◌∷◌, length, Option, none, some,
  Result, ok, err, if◌then◌else◌, leb, ◌==◌,
}
use mathlib.Core.List.{reverse}
use nixstore_arch.BaseN.Digits.{BaseError, invalid_character, get_or, char32, digit32}

-- `encodedLength`. At 0 the subtraction wraps: this is `(2 ^ 64 - 1) / 5 + 1`.
unfoldable pub encoded_length : ℕ → ℕ
encoded_length zero = 3689348814741910324
encoded_length (suc n) = (suc n * 8 - 1) / 5 + 1

-- The five bits from `n * 5` on: `(bs[i] >> j | bs[i + 1] << (8 - j)) & 0x1f`, where a byte behind
-- the last is 0.
unfoldable pub group : Bytes → ℕ → ℕ
group bs n =
    (get_or 0 bs (n * 5 / 8) / 2 ^ (n * 5 % 8)
      + (if leb (length bs - 1) (n * 5 / 8)
          then 0
          else get_or 0 bs (n * 5 / 8 + 1) * 2 ^ (8 - n * 5 % 8) % 256))
    % 32

-- The loop `for (n = len - 1; n >= 0; n--)`, for `n` rounds more.
unfoldable pub encode_from : Bytes → ℕ → Bytes
encode_from bs zero = []
encode_from bs (suc n) = char32 (group bs n) ∷ encode_from bs n

unfoldable pub encode : Bytes → Bytes
encode bs = if length bs == 0 then [] else encode_from bs (encoded_length (length bs))

-- `std::string::resize`
unfoldable pub resize : ℕ → Bytes → Bytes
resize zero res = []
resize (suc n) [] = 0 ∷ resize n []
resize (suc n) (b ∷ res) = b ∷ resize n res

-- `res[i] |= v`, where the bits of `v` are not set yet
unfoldable pub or_at : ℕ → ℕ → Bytes → Bytes
or_at i v [] = []
or_at zero v (b ∷ res) = (b + v) ∷ res
or_at (suc i) v (b ∷ res) = b ∷ or_at i v res

-- The bits that do not fit in byte `i`.
unfoldable pub spill : ℕ → ℕ → Bytes → Bytes
spill i v res = if v == 0 then res else or_at (i + 1) v (resize (i + 2) res)

unfoldable pub put_group : ℕ → ℕ → Bytes → Bytes
put_group n digit res =
    spill (n * 5 / 8) (digit / 2 ^ (8 - n * 5 % 8))
      (or_at (n * 5 / 8) (digit * 2 ^ (n * 5 % 8) % 256) (resize (n * 5 / 8 + 1) res))

-- The loop over the characters from the last one.
unfoldable pub decode_from : ℕ → Bytes → Bytes → Result BaseError Bytes
decode_from n [] res = ok res
decode_from n (c ∷ s) res = elim (digit32 c) [
  | none ↦ err (invalid_character c)
  | some digit ↦ decode_from (n + 1) s (put_group n digit res)
]

unfoldable pub decode : Bytes → Result BaseError Bytes
decode s = decode_from 0 (reverse s) []
