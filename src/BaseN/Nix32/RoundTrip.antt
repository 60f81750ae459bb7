-- ===== src/BaseN/Nix32/RoundTrip.antt =====
-- Theorems on `BaseNix32::decode` of what `BaseNix32::encode` wrote.
use nixstore_arch.Prelude.{
  ℕ, zero, suc, ◌+◌, ◌*◌, ◌/◌, ◌%◌, ◌<◌, ◌≡◌, ◌∙◌, refl, sym, ap, Bytes, IsByte, [], ◌∷◌, ◌++◌,
  length, All, ok, ◌>>=◌, arith,
}
use mathlib.Core.List.{reverse, reverse-append}
use nixstore_arch.BaseN.Digits.{char32, digit32-char32}
use nixstore_arch.BaseN.Nix32.{
  encoded_length, group, encode_from, encode, put_group, decode_from, decode,
}
use nixstore_arch.BaseN.Nix32.Chunk.{
  low_bits, put_0, put_1, put_2, put_3, put_4, put_5, put_6, put_7, put_group-shift, group-shift,
}

-- The characters from the group `n` on, the low ones first.
chars_up : Bytes → ℕ → ℕ → Bytes
chars_up bs n zero = []
chars_up bs n (suc k) = char32 (group bs n) ∷ chars_up bs (n + 1) k

chars_up-append :
    (bs : Bytes) (n k : ℕ)
    → chars_up bs n (suc k) ≡ chars_up bs n k ++ char32 (group bs (n + k)) ∷ []
unfolding chars_up
chars_up-append bs n zero = let e : n + 0 ≡ n = omega arith in rw e refl
chars_up-append bs n (suc k) =
    let e : n + 1 + k ≡ n + suc k = omega arith in
    ap (λ t. char32 (group bs n) ∷ t) (chars_up-append bs (n + 1) k ∙ rw e refl)

reverse-encode_from : (bs : Bytes) (k : ℕ) → reverse (encode_from bs k) ≡ chars_up bs 0 k
unfolding encode_from
reverse-encode_from bs zero = unfold chars_up in refl
reverse-encode_from bs (suc k) =
    let e : 0 + k ≡ k = omega arith in
    reverse-append (char32 (group bs k) ∷ []) (encode_from bs k)
    ∙ ap (λ t. t ++ char32 (group bs k) ∷ []) (reverse-encode_from bs k)
    ∙ sym (rw (chars_up-append bs 0 k) (rw e refl))

group-lt : (bs : Bytes) (n : ℕ) → group bs n < 32
unfolding group
group-lt bs n = omega arith

decode_from-char :
    (n x : ℕ) (s res : Bytes)
    → x < 32
    → decode_from n (char32 x ∷ s) res ≡ decode_from (n + 1) s (put_group n x res)
unfolding decode_from
decode_from-char n x s res h = rw (digit32-char32 x h, decode_from) refl

module _ (a b c d e : ℕ) where
  decode_from-shift :
      (bs : Bytes) (n k m : ℕ) (res : Bytes)
      → decode_from (n + 8) (chars_up bs m k) (a ∷ b ∷ c ∷ d ∷ e ∷ res)
        ≡ (decode_from n (chars_up bs m k) res >>= λ rest. ok (a ∷ b ∷ c ∷ d ∷ e ∷ rest))
  unfolding chars_up
  decode_from-shift bs n zero m res = unfold decode_from in refl
  decode_from-shift bs n (suc k) m res =
      let later : n + 8 + 1 ≡ n + 1 + 8 = omega arith in
      decode_from-char (n + 8) (group bs m) (chars_up bs (m + 1) k) (a ∷ b ∷ c ∷ d ∷ e ∷ res)
        (group-lt bs m)
      ∙ rw (later, put_group-shift)
          (decode_from-shift bs (n + 1) k (m + 1) (put_group n (group bs m) res)
            ∙ rw (decode_from-char n (group bs m) (chars_up bs (m + 1) k) res (group-lt bs m)) refl)

  chars_up-shift :
      (f : ℕ) (bs : Bytes) (n k : ℕ)
      → chars_up (a ∷ b ∷ c ∷ d ∷ e ∷ f ∷ bs) (n + 8) k ≡ chars_up (f ∷ bs) n k
  unfolding chars_up
  chars_up-shift f bs n zero = refl
  chars_up-shift f bs n (suc k) =
      let later : n + 8 + 1 ≡ n + 1 + 8 = omega arith in
      rw (group-shift, later, chars_up-shift f bs (n + 1) k) refl

-- One character of which the group is known.
known :
    (n x y : ℕ) (s res res' : Bytes)
    → x < 32
    → x ≡ y
    → put_group n y res ≡ res'
    → decode_from n (char32 x ∷ s) res ≡ decode_from (n + 1) s res'
known n x y s res res' h e p = decode_from-char n x s res h ∙ rw e (rw p refl)

module _ (a b c d e : ℕ) (ha : a < 256) (hb : b < 256) (hc : c < 256) (hd : d < 256)
    (he : e < 256) where
  two :
      (x y : ℕ) (s : Bytes)
      → x ≡ a % 32
      → y ≡ a / 32 + b % 4 * 8
      → decode_from 0 (char32 x ∷ char32 y ∷ s) [] ≡ decode_from 2 s (low_bits (b % 4) (a ∷ []))
  two x y s p q =
      known 0 x (a % 32) (char32 y ∷ s) [] _ (omega arith) p (put_0 a b c d e ha hb hc hd he)
      ∙ known 1 y (a / 32 + b % 4 * 8) s _ _ (omega arith) q (put_1 a b c d e ha hb hc hd he)

  four :
      (x y : ℕ) (s : Bytes)
      → x ≡ b / 4 % 32
      → y ≡ b / 128 + c % 16 * 2
      → decode_from 2 (char32 x ∷ char32 y ∷ s) (low_bits (b % 4) (a ∷ []))
        ≡ decode_from 4 s (low_bits (c % 16) (a ∷ b ∷ []))
  four x y s p q =
      known 2 x (b / 4 % 32) (char32 y ∷ s) _ _ (omega arith) p (put_2 a b c d e ha hb hc hd he)
      ∙ known 3 y (b / 128 + c % 16 * 2) s _ _ (omega arith) q (put_3 a b c d e ha hb hc hd he)

  five :
      (x : ℕ) (s : Bytes)
      → x ≡ c / 16 + d % 2 * 16
      → decode_from 4 (char32 x ∷ s) (low_bits (c % 16) (a ∷ b ∷ []))
        ≡ decode_from 5 s (low_bits (d % 2) (a ∷ b ∷ c ∷ []))
  five x s p =
      known 4 x (c / 16 + d % 2 * 16) s _ _ (omega arith) p (put_4 a b c d e ha hb hc hd he)

  seven :
      (x y : ℕ) (s : Bytes)
      → x ≡ d / 2 % 32
      → y ≡ d / 64 + e % 8 * 4
      → decode_from 5 (char32 x ∷ char32 y ∷ s) (low_bits (d % 2) (a ∷ b ∷ c ∷ []))
        ≡ decode_from 7 s (low_bits (e % 8) (a ∷ b ∷ c ∷ d ∷ []))
  seven x y s p q =
      known 5 x (d / 2 % 32) (char32 y ∷ s) _ _ (omega arith) p (put_5 a b c d e ha hb hc hd he)
      ∙ known 6 y (d / 64 + e % 8 * 4) s _ _ (omega arith) q (put_6 a b c d e ha hb hc hd he)

  eight :
      (x : ℕ) (s : Bytes)
      → x ≡ e / 8
      → decode_from 7 (char32 x ∷ s) (low_bits (e % 8) (a ∷ b ∷ c ∷ d ∷ []))
        ≡ decode_from 8 s (a ∷ b ∷ c ∷ d ∷ e ∷ [])
  eight x s p = known 7 x (e / 8) s _ _ (omega arith) p (put_7 a b c d e ha hb hc hd he)

-- The groups of the first five bytes, of which the last ones may be missing.
module _ (a b c d e : ℕ) (bs : Bytes) (ha : a < 256) (hb : b < 256) (hc : c < 256) (hd : d < 256)
    (he : e < 256) where
  group_0 : group (a ∷ b ∷ c ∷ d ∷ e ∷ bs) 0 ≡ a % 32
  unfolding group
  group_0 = ground arith

  group_1 : group (a ∷ b ∷ c ∷ d ∷ e ∷ bs) 1 ≡ a / 32 + b % 4 * 8
  unfolding group
  group_1 = ground arith

  group_2 : group (a ∷ b ∷ c ∷ d ∷ e ∷ bs) 2 ≡ b / 4 % 32
  unfolding group
  group_2 = ground arith

  group_3 : group (a ∷ b ∷ c ∷ d ∷ e ∷ bs) 3 ≡ b / 128 + c % 16 * 2
  unfolding group
  group_3 = ground arith

  group_4 : group (a ∷ b ∷ c ∷ d ∷ e ∷ bs) 4 ≡ c / 16 + d % 2 * 16
  unfolding group
  group_4 = ground arith

  group_5 : group (a ∷ b ∷ c ∷ d ∷ e ∷ bs) 5 ≡ d / 2 % 32
  unfolding group
  group_5 = ground arith

  group_6 : group (a ∷ b ∷ c ∷ d ∷ e ∷ bs) 6 ≡ d / 64 + e % 8 * 4
  unfolding group
  group_6 = ground arith

  group_7 : group (a ∷ b ∷ c ∷ d ∷ e ∷ bs) 7 ≡ e / 8
  unfolding group
  group_7 = ground arith

  chunk :
      (s : Bytes)
      → decode_from 0 (chars_up (a ∷ b ∷ c ∷ d ∷ e ∷ bs) 0 8 ++ s) []
        ≡ decode_from 8 s (a ∷ b ∷ c ∷ d ∷ e ∷ [])
  unfolding chars_up
  chunk s =
      two a b c d e ha hb hc hd he _ _ _ group_0 group_1
      ∙ four a b c d e ha hb hc hd he _ _ _ group_2 group_3
      ∙ five a b c d e ha hb hc hd he _ _ group_4
      ∙ seven a b c d e ha hb hc hd he _ _ _ group_5 group_6
      ∙ eight a b c d e ha hb hc hd he _ _ group_7

zero-IsByte : 0 < 256
zero-IsByte = omega arith

ended : (n : ℕ) (res : Bytes) → decode_from n [] res ≡ ok res
unfolding decode_from
ended n res = refl

chars_up-longer :
    (bs : Bytes) (n k l : ℕ) → chars_up bs n (k + l) ≡ chars_up bs n k ++ chars_up bs (n + k) l
unfolding chars_up
chars_up-longer bs n zero l =
    let e : 0 + l ≡ l = omega arith in let e' : n + 0 ≡ n = omega arith in rw (e, e') refl
chars_up-longer bs n (suc k) l =
    let e : suc k + l ≡ suc (k + l) = omega arith in
    let e' : n + suc k ≡ n + 1 + k = omega arith in
    rw (e, e') (ap (λ t. char32 (group bs n) ∷ t) (chars_up-longer bs (n + 1) k l))

-- The characters of all groups, the low ones first, give the bytes back.
decode_from-chars_up :
    (b : ℕ) (bs : Bytes)
    → All IsByte (b ∷ bs)
    → decode_from 0 (chars_up (b ∷ bs) 0 (encoded_length (length (b ∷ bs)))) [] ≡ ok (b ∷ bs)
unfolding chars_up encoded_length low_bits
decode_from-chars_up a [] (ha, h) =
    two a 0 0 0 0 ha zero-IsByte zero-IsByte zero-IsByte zero-IsByte (group (a ∷ []) 0)
      (group (a ∷ []) 1) (chars_up (a ∷ []) 2 0) (unfold group in ground arith)
      (unfold group in ground arith)
    ∙ ended 2 (a ∷ [])
decode_from-chars_up a (b ∷ []) (ha, (hb, h)) =
    two a b 0 0 0 ha hb zero-IsByte zero-IsByte zero-IsByte (group (a ∷ b ∷ []) 0)
      (group (a ∷ b ∷ []) 1) (chars_up (a ∷ b ∷ []) 2 2) (unfold group in ground arith)
      (unfold group in ground arith)
    ∙ four a b 0 0 0 ha hb zero-IsByte zero-IsByte zero-IsByte (group (a ∷ b ∷ []) 2)
        (group (a ∷ b ∷ []) 3) (chars_up (a ∷ b ∷ []) 4 0) (unfold group in ground arith)
        (unfold group in ground arith)
    ∙ ended 4 (a ∷ b ∷ [])
decode_from-chars_up a (b ∷ c ∷ []) (ha, (hb, (hc, h))) =
    two a b c 0 0 ha hb hc zero-IsByte zero-IsByte (group (a ∷ b ∷ c ∷ []) 0)
      (group (a ∷ b ∷ c ∷ []) 1) (chars_up (a ∷ b ∷ c ∷ []) 2 3) (unfold group in ground arith)
      (unfold group in ground arith)
    ∙ four a b c 0 0 ha hb hc zero-IsByte zero-IsByte (group (a ∷ b ∷ c ∷ []) 2)
        (group (a ∷ b ∷ c ∷ []) 3) (chars_up (a ∷ b ∷ c ∷ []) 4 1) (unfold group in ground arith)
        (unfold group in ground arith)
    ∙ five a b c 0 0 ha hb hc zero-IsByte zero-IsByte (group (a ∷ b ∷ c ∷ []) 4)
        (chars_up (a ∷ b ∷ c ∷ []) 5 0) (unfold group in ground arith)
    ∙ ended 5 (a ∷ b ∷ c ∷ [])
decode_from-chars_up a (b ∷ c ∷ d ∷ []) (ha, (hb, (hc, (hd, h)))) =
    two a b c d 0 ha hb hc hd zero-IsByte (group (a ∷ b ∷ c ∷ d ∷ []) 0)
      (group (a ∷ b ∷ c ∷ d ∷ []) 1) (chars_up (a ∷ b ∷ c ∷ d ∷ []) 2 5)
      (unfold group in ground arith) (unfold group in ground arith)
    ∙ four a b c d 0 ha hb hc hd zero-IsByte (group (a ∷ b ∷ c ∷ d ∷ []) 2)
        (group (a ∷ b ∷ c ∷ d ∷ []) 3) (chars_up (a ∷ b ∷ c ∷ d ∷ []) 4 3)
        (unfold group in ground arith) (unfold group in ground arith)
    ∙ five a b c d 0 ha hb hc hd zero-IsByte (group (a ∷ b ∷ c ∷ d ∷ []) 4)
        (chars_up (a ∷ b ∷ c ∷ d ∷ []) 5 2) (unfold group in ground arith)
    ∙ seven a b c d 0 ha hb hc hd zero-IsByte (group (a ∷ b ∷ c ∷ d ∷ []) 5)
        (group (a ∷ b ∷ c ∷ d ∷ []) 6) (chars_up (a ∷ b ∷ c ∷ d ∷ []) 7 0)
        (unfold group in ground arith) (unfold group in ground arith)
    ∙ ended 7 (a ∷ b ∷ c ∷ d ∷ [])
decode_from-chars_up a (b ∷ c ∷ d ∷ e ∷ []) (ha, (hb, (hc, (hd, (he, h))))) =
    chunk a b c d e [] ha hb hc hd he [] ∙ ended 8 (a ∷ b ∷ c ∷ d ∷ e ∷ [])
decode_from-chars_up a (b ∷ c ∷ d ∷ e ∷ f ∷ bs) (ha, (hb, (hc, (hd, (he, h))))) =
    let whole = a ∷ b ∷ c ∷ d ∷ e ∷ f ∷ bs in
    let k = encoded_length (length (f ∷ bs)) in
    let longer : encoded_length (length whole) ≡ 8 + k = omega arith in
    rw (longer, chars_up-longer whole 0 8 k)
      (chunk a b c d e (f ∷ bs) ha hb hc hd he (chars_up whole (0 + 8) k)
        ∙ rw (chars_up-shift a b c d e f bs 0 k)
            (decode_from-shift a b c d e (f ∷ bs) 0 k 0 [] ∙ rw (decode_from-chars_up f bs h) refl))

encode-cons :
    (b : ℕ) (bs : Bytes) → encode (b ∷ bs) ≡ encode_from (b ∷ bs) (encoded_length (length (b ∷ bs)))
unfolding encode
encode-cons b bs = ground arith

encode-nil : encode [] ≡ []
unfolding encode
encode-nil = refl

pub decode32-encode32 : (bs : Bytes) → All IsByte bs → decode (encode bs) ≡ ok bs
unfolding decode
decode32-encode32 [] h = rw encode-nil (ended 0 [])
decode32-encode32 (b ∷ bs) h =
    rw (encode-cons b bs, reverse-encode_from (b ∷ bs) (encoded_length (length (b ∷ bs))))
      (decode_from-chars_up b bs h)

length-encode_from : (bs : Bytes) (n : ℕ) → length (encode_from bs n) ≡ n
unfolding encode_from
length-encode_from bs zero = refl
length-encode_from bs (suc n) = ap suc (length-encode_from bs n)

-- The text that `BaseNix32::encode` makes of some bytes, of which there is one at least, is as
-- long as `BaseNix32::encodedLength` says.
pub length-encode32 :
    (b : ℕ) (bs : Bytes) → length (encode (b ∷ bs)) ≡ encoded_length (length (b ∷ bs))
length-encode32 b bs =
    rw (encode-cons b bs) (length-encode_from (b ∷ bs) (encoded_length (length (b ∷ bs))))
