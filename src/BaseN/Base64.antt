-- ===== src/BaseN/Base64.antt =====
-- src/libutil/base-n.cc: `base64::encode` and `base64::decode`. The variables `data` and `d` are
-- words of 32 bits, and wrap.
use nixstore_arch.Prelude.{
  ℕ, zero, suc, ◌+◌, ◌-◌, ◌*◌, ◌/◌, ◌%◌, ◌^◌, ◌<◌, ◌≡◌, ◌∙◌, refl, sym, append-nil, append_assoc,
  Bool-cases, inl, inr, length-append, Bytes, IsByte, [], ◌∷◌, ◌++◌, length, All, none, some,
  Result, ok, err, ◌>>=◌, arith, if◌then◌else◌, leb, ◌==◌, true, false,
}
use nixstore_arch.BaseN.Digits.{
  BaseError, invalid_character, char64, digit64, digit64-char64, char64-unspecial,
}

unfoldable pub shift_in : ℕ → ℕ → ℕ → ℕ
shift_in w x y = (x * w + y) % 4294967296

-- `while (nbits >= 6)`: every round takes six from `nbits`.
unfoldable pub drain : ℕ → ℕ → ℕ → Bytes × ℕ
drain zero d nbits = ([], nbits)
drain (suc rounds) d nbits =
    let rest = drain rounds d (nbits - 6) in
    if leb 6 nbits then (char64 (d / 2 ^ (nbits - 6) % 64) ∷ rest.0, rest.1) else ([], nbits)

unfoldable pub encode_loop : Bytes → ℕ → ℕ → Bytes
encode_loop [] d nbits = if nbits == 0 then [] else char64 (d * 2 ^ (6 - nbits) % 64) ∷ []
encode_loop (b ∷ bs) d nbits =
    let d' = shift_in 256 d b in
    let (cs, nbits') = drain (nbits + 8) d' (nbits + 8) in cs ++ encode_loop bs d' nbits'

-- `while (res.size() % 4) res.push_back('=')`: three rounds at most.
unfoldable pub pad : ℕ → Bytes → Bytes
pad zero s = s
pad (suc rounds) s = let more = pad rounds (s ++ b'=' ∷ []) in if length s % 4 == 0 then s else more

unfoldable pub encode : Bytes → Bytes
encode bs = pad 3 (encode_loop bs 0 0)

unfoldable pub decode_loop : Bytes → ℕ → ℕ → Result BaseError Bytes
decode_loop [] d bits = ok []
decode_loop (c ∷ s) d bits = elim (c == b'=') [
  | true ↦ ok []
  | false ↦ elim (c == 10) [
    | true ↦ decode_loop s d bits
    | false ↦ elim (digit64 c) [
      | none ↦ err (invalid_character c)
      | some digit ↦ elim (leb 8 (bits + 6)) [
        | true ↦ do
          rest ← decode_loop s (shift_in 64 d digit) (bits + 6 - 8)
          ok ((shift_in 64 d digit / 2 ^ (bits + 6 - 8) % 256) ∷ rest)
        | false ↦ decode_loop s (shift_in 64 d digit) (bits + 6)
      ]
    ]
  ]
]

unfoldable pub decode : Bytes → Result BaseError Bytes
decode s = decode_loop s 0 0

-- `((4 * origSize / 3) + 3) & ~3`
unfoldable pub encoded_length : ℕ → ℕ
encoded_length n = (4 * n / 3 + 3) / 4 * 4

-- A digit that is read, before and after a byte is complete.
decode_loop-char :
    (x : ℕ) (s : Bytes) (d bits : ℕ)
    → x < 64
    → decode_loop (char64 x ∷ s) d bits ≡ (elim (leb 8 (bits + 6)) [
      | true ↦ decode_loop s (shift_in 64 d x) (bits + 6 - 8) >>= λ rest.
          ok ((shift_in 64 d x / 2 ^ (bits + 6 - 8) % 256) ∷ rest)
      | false ↦ decode_loop s (shift_in 64 d x) (bits + 6)
    ])
unfolding decode_loop
decode_loop-char x s d bits h =
    let (no_end, no_newline) = char64-unspecial x h in
    rw (no_end, no_newline, digit64-char64 x h, decode_loop) refl

-- Three bytes make four characters, whatever was shifted in before.
encode_loop-three :
    (a b c : ℕ) (bs : Bytes) (d : ℕ)
    → encode_loop (a ∷ b ∷ c ∷ bs) d 0
      ≡ char64 (shift_in 256 d a / 4 % 64)
        ∷ char64 (shift_in 256 (shift_in 256 d a) b / 16 % 64)
        ∷ char64 (shift_in 256 (shift_in 256 (shift_in 256 d a) b) c / 64 % 64)
        ∷ char64 (shift_in 256 (shift_in 256 (shift_in 256 d a) b) c / 1 % 64)
        ∷ encode_loop bs (shift_in 256 (shift_in 256 (shift_in 256 d a) b) c) 0
unfolding encode_loop drain
encode_loop-three a b c bs d = refl

first_byte :
    (d w x : ℕ) → w < 64 → x < 64 → shift_in 64 (shift_in 64 d w) x / 16 % 256 ≡ w * 4 + x / 16
unfolding shift_in
first_byte d w x h k = omega arith

second_byte :
    (d x y : ℕ) → x < 64 → y < 64 → shift_in 64 (shift_in 64 d x) y / 4 % 256 ≡ x % 16 * 16 + y / 4
unfolding shift_in
second_byte d x y h k = omega arith

third_byte :
    (d y z : ℕ) → y < 64 → z < 64 → shift_in 64 (shift_in 64 d y) z / 1 % 256 ≡ y % 4 * 64 + z
unfolding shift_in
third_byte d y z h k = omega arith

first_digit : (d a : ℕ) → a < 256 → shift_in 256 d a / 4 % 64 ≡ a / 4
unfolding shift_in
first_digit d a h = omega arith

second_digit :
    (d a b : ℕ)
    → a < 256
    → b < 256
    → shift_in 256 (shift_in 256 d a) b / 16 % 64 ≡ a % 4 * 16 + b / 16
unfolding shift_in
second_digit d a b h k = omega arith

third_digit :
    (d b c : ℕ)
    → b < 256
    → c < 256
    → shift_in 256 (shift_in 256 d b) c / 64 % 64 ≡ b % 16 * 4 + c / 64
unfolding shift_in
third_digit d b c h k = omega arith

fourth_digit : (d c : ℕ) → c < 256 → shift_in 256 d c / 1 % 64 ≡ c % 64
unfolding shift_in
fourth_digit d c h = omega arith

one_left : (d a : ℕ) → a < 256 → shift_in 256 d a * 16 % 64 ≡ a % 4 * 16
unfolding shift_in
one_left d a h = omega arith

two_left : (d b : ℕ) → b < 256 → shift_in 256 d b * 4 % 64 ≡ b % 16 * 4
unfolding shift_in
two_left d b h = omega arith

decode_loop-two :
    (w x : ℕ) (s : Bytes) (d : ℕ)
    → w < 64
    → x < 64
    → decode_loop (char64 w ∷ char64 x ∷ s) d 0
      ≡ (decode_loop s (shift_in 64 (shift_in 64 d w) x) 4 >>= λ rest. ok ((w * 4 + x / 16) ∷ rest))
decode_loop-two w x s d hw hx =
    decode_loop-char w (char64 x ∷ s) d 0 hw
    ∙ decode_loop-char x s (shift_in 64 d w) 6 hx
    ∙ (let e = first_byte d w x hw hx in rw e refl)

decode_loop-three :
    (w x y : ℕ) (s : Bytes) (d : ℕ)
    → w < 64
    → x < 64
    → y < 64
    → decode_loop (char64 w ∷ char64 x ∷ char64 y ∷ s) d 0 ≡ (
        decode_loop s (shift_in 64 (shift_in 64 (shift_in 64 d w) x) y) 2 >>= λ rest.
        ok ((w * 4 + x / 16) ∷ (x % 16 * 16 + y / 4) ∷ rest))
decode_loop-three w x y s d hw hx hy =
    decode_loop-two w x (char64 y ∷ s) d hw hx
    ∙ rw (decode_loop-char y s (shift_in 64 (shift_in 64 d w) x) 4 hy) (
        joined (decode_loop s (shift_in 64 (shift_in 64 (shift_in 64 d w) x) y) 2) _
          (second_byte (shift_in 64 d w) x y hx hy))
  where
    joined :
        (r : Result BaseError Bytes) (a : ℕ) {b b' : ℕ}
        → b ≡ b'
        → ((r >>= λ rest. ok (b ∷ rest)) >>= λ rest. ok (a ∷ rest))
          ≡ (r >>= λ rest. ok (a ∷ b' ∷ rest))
    joined (ok rest) a q = rw q refl
    joined (err e) a q = refl

decode_loop-four :
    (w x y z : ℕ) (s : Bytes) (d : ℕ)
    → w < 64
    → x < 64
    → y < 64
    → z < 64
    → decode_loop (char64 w ∷ char64 x ∷ char64 y ∷ char64 z ∷ s) d 0 ≡ (
        decode_loop s (shift_in 64 (shift_in 64 (shift_in 64 (shift_in 64 d w) x) y) z) 0
        >>= λ rest. ok ((w * 4 + x / 16) ∷ (x % 16 * 16 + y / 4) ∷ (y % 4 * 64 + z) ∷ rest))
decode_loop-four w x y z s d hw hx hy hz =
    decode_loop-three w x y (char64 z ∷ s) d hw hx hy
    ∙ rw (decode_loop-char z s (shift_in 64 (shift_in 64 (shift_in 64 d w) x) y) 2 hz) (
        joined (decode_loop s (shift_in 64 (shift_in 64 (shift_in 64 (shift_in 64 d w) x) y) z) 0) _
          _ (third_byte (shift_in 64 (shift_in 64 d w) x) y z hy hz))
  where
    joined :
        (r : Result BaseError Bytes) (a b : ℕ) {c c' : ℕ}
        → c ≡ c'
        → ((r >>= λ rest. ok (c ∷ rest)) >>= λ rest. ok (a ∷ b ∷ rest))
          ≡ (r >>= λ rest. ok (a ∷ b ∷ c' ∷ rest))
    joined (ok rest) a b q = rw q refl
    joined (err e) a b q = refl

-- What may follow the digits: padding.
abbrev EndsText : Bytes → Type 0
EndsText t = (d bits : ℕ) → decode_loop t d bits ≡ ok []

pad-EndsText : (rounds : ℕ) (s : Bytes) → (t : Bytes) × (pad rounds s ≡ s ++ t) × EndsText t
unfolding pad decode_loop
pad-EndsText zero s = ([], sym (append-nil s), λ d bits. refl)
pad-EndsText (suc rounds) s = elim (Bool-cases (length s % 4 == 0)) [
  | inl whole ↦ ([], rw (whole, pad) (sym (append-nil s)), λ d bits. refl)
  | inr short ↦
      let (t, e, ends) = pad-EndsText rounds (s ++ b'=' ∷ []) in
      (b'=' ∷ t, rw (short, pad) (e ∙ append_assoc s (b'=' ∷ []) t), λ d bits. refl)
]

decode_loop-encode_loop :
    (bs t : Bytes) (d e : ℕ)
    → All IsByte bs
    → EndsText t
    → decode_loop (encode_loop bs d 0 ++ t) e 0 ≡ ok bs
unfolding encode_loop drain
decode_loop-encode_loop [] t d e h ends = ends e 0
decode_loop-encode_loop (a ∷ []) t d e (ha, h) ends =
    let whole : a / 4 * 4 + a % 4 * 16 / 16 ≡ a = omega arith in
    rw (first_digit d a ha, one_left d a ha)
      (decode_loop-two (a / 4) (a % 4 * 16) t e (omega arith) (omega arith) ∙ rw (ends, whole) refl)
decode_loop-encode_loop (a ∷ b ∷ []) t d e (ha, (hb, h)) ends =
    let whole : a / 4 * 4 + (a % 4 * 16 + b / 16) / 16 ≡ a = omega arith in
    let whole' : (a % 4 * 16 + b / 16) % 16 * 16 + b % 16 * 4 / 4 ≡ b = omega arith in
    rw (first_digit d a ha, second_digit d a b ha hb, two_left (shift_in 256 d a) b hb)
      (decode_loop-three (a / 4) (a % 4 * 16 + b / 16) (b % 16 * 4) t e (omega arith) (omega arith)
          (omega arith)
        ∙ rw (ends, whole, whole') refl)
decode_loop-encode_loop (a ∷ b ∷ c ∷ bs) t d e (ha, (hb, (hc, h))) ends =
    let whole : a / 4 * 4 + (a % 4 * 16 + b / 16) / 16 ≡ a = omega arith in
    let whole' : (a % 4 * 16 + b / 16) % 16 * 16 + (b % 16 * 4 + c / 64) / 4 ≡ b = omega arith in
    let whole'' : (b % 16 * 4 + c / 64) % 4 * 64 + c % 64 ≡ c = omega arith in
    rw
      (
        first_digit d a ha,
        second_digit d a b ha hb,
        third_digit (shift_in 256 d a) b c hb hc,
        fourth_digit (shift_in 256 (shift_in 256 d a) b) c hc,
      )
      (decode_loop-four (a / 4) (a % 4 * 16 + b / 16) (b % 16 * 4 + c / 64) (c % 64)
          (encode_loop bs (shift_in 256 (shift_in 256 (shift_in 256 d a) b) c) 0 ++ t) e
          (omega arith) (omega arith) (omega arith) (omega arith)
        ∙ rw
            (
              decode_loop-encode_loop bs t (shift_in 256 (shift_in 256 (shift_in 256 d a) b) c) _ h
                  ends,
              whole,
              whole',
              whole'',
            )
            refl)

-- `base64::decode` gives the bytes back that `base64::encode` has encoded.
pub decode64-encode64 : (bs : Bytes) → All IsByte bs → decode (encode bs) ≡ ok bs
unfolding decode encode
decode64-encode64 bs h =
    let (t, e, ends) = pad-EndsText 3 (encode_loop bs 0 0) in
    rw e (decode_loop-encode_loop bs t 0 0 h ends)

length-encode_loop : (bs : Bytes) (d : ℕ) → length (encode_loop bs d 0) ≡ (4 * length bs + 2) / 3
unfolding encode_loop drain
length-encode_loop [] d = omega arith
length-encode_loop (a ∷ []) d = omega arith
length-encode_loop (a ∷ b ∷ []) d = omega arith
length-encode_loop (a ∷ b ∷ c ∷ bs) d =
    omega (arith, length-encode_loop bs (shift_in 256 (shift_in 256 (shift_in 256 d a) b) c))

length-pad : (s : Bytes) → length (pad 3 s) ≡ (length s + 3) / 4 * 4
unfolding pad
length-pad s = ground (
  arith,
  length-append s (b'=' ∷ []),
  length-append (s ++ b'=' ∷ []) (b'=' ∷ []),
  length-append (s ++ b'=' ∷ [] ++ b'=' ∷ []) (b'=' ∷ []),
)

-- The text that `base64::encode` makes is as long as `base64::encodedLength` says.
pub length-encode64 : (bs : Bytes) → length (encode bs) ≡ encoded_length (length bs)
unfolding encode encoded_length
length-encode64 bs = omega (arith, length-pad (encode_loop bs 0 0), length-encode_loop bs 0)
