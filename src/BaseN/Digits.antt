-- ===== src/BaseN/Digits.antt =====
-- The characters of the alphabets and their values.
use nixstore_arch.Prelude.{
  ℕ, zero, suc, ◌+◌, ◌-◌, ◌<◌, ◌≡◌, refl, Bool, true, false, ◌&&◌, List, [], ◌∷◌, Bytes, codes, leb,
  ◌==◌, if◌then◌else◌, Option, none, some, arith,
}

-- `FormatError`, and the assertion that a base 16 text has an even length.
pub data BaseError : Type 0 where
  invalid_character : ℕ → BaseError
  odd_length : BaseError

abbrev pub get_or : ℕ → List ℕ → ℕ → ℕ
get_or default [] i = default
get_or default (x ∷ xs) zero = x
get_or default (x ∷ xs) (suc i) = get_or default xs i

-- The place of a character in an alphabet, from `i` on: the tables `reverseMap` and
-- `base64DecodeChars`.
unfoldable pub index_from : ℕ → Bytes → ℕ → Option ℕ
index_from i [] c = none
index_from i (x ∷ xs) c = let rest = index_from (i + 1) xs c in if x == c then some i else rest

abbrev pub base16_chars : Bytes
base16_chars = codes "0123456789abcdef"

abbrev pub base64_chars : Bytes
base64_chars = codes "ABCDEFGHIJKLMNOPQRSTUVWXYZabcdefghijklmnopqrstuvwxyz0123456789+/"

abbrev pub nix32_chars : Bytes
nix32_chars = codes "0123456789abcdfghijklmnpqrsvwxyz"

-- A test that holds below a bound.
unfoldable pub holds_below : ℕ → (ℕ → Bool) → Bool
holds_below zero p = true
holds_below (suc n) p = p n && holds_below n p

pub holds_below-at : (n : ℕ) (p : ℕ → Bool) (x : ℕ) → holds_below n p ≡ true → x < n → p x ≡ true
unfolding holds_below
holds_below-at zero p x h lt = absurd (omega arith)
holds_below-at (suc n) p x h lt = ground (arith, holds_below-at n p x)

is_some_of : ℕ → Option ℕ → Bool
is_some_of x none = false
is_some_of x (some y) = y == x

is_some_of-eq : (x : ℕ) (o : Option ℕ) → is_some_of x o ≡ true → o ≡ some x
unfolding is_some_of
is_some_of-eq x none h = cc
is_some_of-eq x (some y) h = ground arith

-- `parseHexDigit`
unfoldable pub hex_digit : ℕ → Option ℕ
hex_digit c =
    if leb b'0' c && leb c b'9'
    then some (c - b'0')
    else if leb b'A' c && leb c b'F'
    then some (c - b'A' + 10)
    else if leb b'a' c && leb c b'f'
    then some (c - b'a' + 10)
    else none

unfoldable pub hex_char : ℕ → ℕ
hex_char d = get_or 0 base16_chars d

unfoldable pub char64 : ℕ → ℕ
char64 d = get_or 0 base64_chars d

unfoldable pub digit64 : ℕ → Option ℕ
digit64 c = index_from 0 base64_chars c

unfoldable pub char32 : ℕ → ℕ
char32 d = get_or 0 nix32_chars d

-- `BaseNix32::lookupReverse`
unfoldable pub digit32 : ℕ → Option ℕ
digit32 c = index_from 0 nix32_chars c

hex_table : holds_below 16 (λ d. is_some_of d (hex_digit (hex_char d))) ≡ true
unfolding holds_below is_some_of hex_digit hex_char
hex_table = refl

table64 : holds_below 64 (λ d. is_some_of d (digit64 (char64 d))) ≡ true
unfolding holds_below is_some_of digit64 char64 index_from
table64 = refl

table32 : holds_below 32 (λ d. is_some_of d (digit32 (char32 d))) ≡ true
unfolding holds_below is_some_of digit32 char32 index_from
table32 = refl

pub hex_digit-hex_char : (d : ℕ) → d < 16 → hex_digit (hex_char d) ≡ some d
hex_digit-hex_char d h = is_some_of-eq d _ (holds_below-at 16 _ d hex_table h)

pub digit64-char64 : (d : ℕ) → d < 64 → digit64 (char64 d) ≡ some d
digit64-char64 d h = is_some_of-eq d _ (holds_below-at 64 _ d table64 h)

pub digit32-char32 : (d : ℕ) → d < 32 → digit32 (char32 d) ≡ some d
digit32-char32 d h = is_some_of-eq d _ (holds_below-at 32 _ d table32 h)

-- No digit of base 64 is `=` or a newline.
unspecial : ℕ → Bool
unspecial c = if c == b'=' then false else if c == 10 then false else true

unspecial_table : holds_below 64 (λ d. unspecial (char64 d)) ≡ true
unfolding holds_below unspecial char64
unspecial_table = refl

pub char64-unspecial : (d : ℕ) → d < 64 → ((char64 d == b'=') ≡ false) × ((char64 d == 10) ≡ false)
unfolding unspecial
char64-unspecial d h = let e = holds_below-at 64 _ d unspecial_table h in ground (arith, e)
