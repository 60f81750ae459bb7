-- ===== src/Serialise/Canonical.antt =====
-- Theorems on what the readers of serialise.cc accept.
use nixstore_arch.Prelude.{
  ℕ, zero, suc, ◌+◌, ◌-◌, ◌*◌, ◌/◌, ◌%◌, ◌≤◌, ◌≡◌, refl, sym, ap, ◌∙◌, true, not, [], ◌∷◌, ◌++◌,
  append_assoc, Bytes, IsByte, length, replicate, All, All-append_left, All-append_right, ltb, ◌==◌,
  Bool-cases, inl, inr, ok, arith, >>=-elim, require-elim, bind-parts, ok-injective, require-eq-ok,
}
use mathlib.Core.Path.{subst}
use nixstore_arch.Serialise.{
  Source, le_bytes, write_num, le_num, read_exact, read_num, u64_max, padding, write_padding,
  write_string, all_zero, read_padding, read_string, integer_too_large, string_too_long,
  non_zero_padding,
}

pub read_exact-eq-ok :
    (n : ℕ) (src : Source) {bs rest : Bytes}
    → read_exact n src ≡ ok (bs, rest)
    → (src ≡ bs ++ rest) × (length bs ≡ n)
unfolding read_exact
read_exact-eq-ok zero src e = ground arith
read_exact-eq-ok (suc n) [] e = cc
read_exact-eq-ok (suc n) (b ∷ src) e =
    let ((bs, rest), e₁, e₂) = bind-parts (read_exact n src) _ e in
    ground (arith, read_exact-eq-ok n src e₁, e₂)

le_bytes-le_num : (bs : Bytes) → All IsByte bs → le_bytes (length bs) (le_num bs) ≡ bs
unfolding le_bytes le_num
le_bytes-le_num [] h = refl
le_bytes-le_num (b ∷ bs) (hb, h) =
    let quotient : (b + 256 * le_num bs) / 256 ≡ le_num bs = omega arith in
    let remainder : (b + 256 * le_num bs) % 256 ≡ b = omega arith in
    rw (remainder, quotient) (ap (λ t. b ∷ t) (le_bytes-le_num bs h))

pub read_num-eq-ok :
    (max : ℕ) (src : Source) {n : ℕ} {rest : Bytes}
    → All IsByte src
    → read_num max src ≡ ok (n, rest)
    → (src ≡ write_num n ++ rest) × (n ≤ max) × All IsByte rest
unfolding read_num write_num
read_num-eq-ok max src {n} {rest} h e =
    let ((buf, rest'), e₁, e₂) = bind-parts (read_exact 8 src) _ e in
    let (fits, e₃) = require-eq-ok (not (ltb max (le_num buf))) integer_too_large e₂ in
    let (split, eight) = read_exact-eq-ok 8 src e₁ in
    ground (arith, numbers buf rest' split eight, fits, e₃)
  where
    numbers :
        (buf rest' : Bytes)
        → src ≡ buf ++ rest'
        → length buf ≡ 8
        → (src ≡ le_bytes 8 (le_num buf) ++ rest') × All IsByte rest'
    numbers buf rest' split eight =
        let h' : All IsByte (buf ++ rest') = rw split at h in
        (
          split
              ∙ ap (λ t. t ++ rest')
                  (sym (rw eight at (le_bytes-le_num buf (All-append_left IsByte buf rest' h')))),
          All-append_right IsByte buf rest' h',
        )

all_zero-eq : (bs : Bytes) → all_zero bs ≡ true → bs ≡ replicate (length bs) 0
unfolding all_zero
all_zero-eq [] e = refl
all_zero-eq (b ∷ bs) e = ground (arith, all_zero-eq bs)

pub read_padding-eq-ok :
    (len : ℕ) (src : Source) {rest : Bytes}
    → read_padding len src ≡ ok rest
    → src ≡ write_padding len ++ rest
unfolding read_padding write_padding padding
read_padding-eq-ok len src {rest} e = elim (Bool-cases (len % 8 == 0)) [
  | inl p ↦ rw p (ok-injective (rw p at e))
  | inr p ↦
      let ((buf, rest'), e₁, e₂) = bind-parts (read_exact (8 - len % 8) src) _ (rw p at e) in
      let (zeros, e₃) = require-eq-ok (all_zero buf) non_zero_padding e₂ in
      let (split, size) = read_exact-eq-ok (8 - len % 8) src e₁ in
      rw (p, ← ok-injective e₃) (split ∙ ap (λ t. t ++ rest') (rw size at (all_zero-eq buf zeros)))
]

-- `src` is one written string and then `p.1`.
abbrev pub IsString : ℕ → Source → Bytes × Source → Type 0
IsString max src p =
    (src ≡ write_string p.0 ++ p.1) × (length p.0 ≤ max) × (length p.0 ≤ u64_max) × All IsByte p.1

pub IsString-parts :
    (max len : ℕ) (src src₁ src₂ src₃ res : Source)
    → not (ltb max len) ≡ true
    → (src ≡ write_num len ++ src₁) × (len ≤ u64_max) × All IsByte src₁
    → (src₁ ≡ res ++ src₂) × (length res ≡ len)
    → src₂ ≡ write_padding len ++ src₃
    → IsString max src (res, src₃)
unfolding write_string
IsString-parts max len src src₁ src₂ src₃ res short (p, fits, h) (q, size) r =
    let h' : All IsByte (res ++ (write_padding len ++ src₃)) = rw (q, r) at h in
    (
      rw (p, q, r, size, append_assoc, append_assoc),
      ground (arith, size, short),
      rw size fits,
      All-append_right IsByte (write_padding len) src₃
          (All-append_right IsByte res (write_padding len ++ src₃) h'),
    )

pub read_string-eq-ok :
    (max : ℕ) (src : Source) {s rest : Bytes}
    → All IsByte src
    → read_string max src ≡ ok (s, rest)
    → IsString max src (s, rest)
unfolding read_string
read_string-eq-ok max src {s} {rest} h e = >>=-elim (read_num u64_max src) _ e λ (len, src₁) e₁ e'.
    require-elim (not (ltb max len)) string_too_long e' λ short e''.
      >>=-elim (read_exact len src₁) _ e'' λ (res, src₂) e₃ e₃'.
        >>=-elim (read_padding len src₂) _ e₃' λ src₃ e₄ e₄'.
          subst (IsString max src) (ok-injective e₄') (
            IsString-parts max len src src₁ src₂ src₃ res short (read_num-eq-ok u64_max src h e₁)
              (read_exact-eq-ok len src₁ e₃) (read_padding-eq-ok len src₂ e₄))
