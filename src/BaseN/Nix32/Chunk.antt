-- ===== src/BaseN/Nix32/Chunk.antt =====
-- Lemmas on eight groups of five bytes, which lie side by side.
use nixstore_arch.Prelude.{
  ℕ, suc, ◌+◌, ◌-◌, ◌*◌, ◌/◌, ◌%◌, ◌<◌, ◌≡◌, refl, Bytes, [], ◌∷◌, ◌++◌, length, if◌then◌else◌, leb,
  ◌==◌, arith,
}
use nixstore_arch.BaseN.Digits.{get_or}
use nixstore_arch.BaseN.Nix32.{group, resize, or_at, spill, put_group}

-- Bytes with the low bits of one more, unless they are 0.
unfoldable pub low_bits : ℕ → Bytes → Bytes
low_bits x bs = if x == 0 then bs else bs ++ x ∷ []

module _ (a b c d e : ℕ) (ha : a < 256) (hb : b < 256) (hc : c < 256) (hd : d < 256)
    (he : e < 256) where
  pub put_0 : put_group 0 (a % 32) [] ≡ (a % 32) ∷ []
  unfolding put_group spill or_at resize
  put_0 = ground arith

  pub put_1 : put_group 1 (a / 32 + b % 4 * 8) ((a % 32) ∷ []) ≡ low_bits (b % 4) (a ∷ [])
  unfolding put_group spill or_at resize low_bits
  put_1 = ground arith

  pub put_2 : put_group 2 (b / 4 % 32) (low_bits (b % 4) (a ∷ [])) ≡ a ∷ (b % 128) ∷ []
  unfolding put_group spill or_at resize low_bits
  put_2 = ground arith

  pub put_3 :
      put_group 3 (b / 128 + c % 16 * 2) (a ∷ (b % 128) ∷ []) ≡ low_bits (c % 16) (a ∷ b ∷ [])
  unfolding put_group spill or_at resize low_bits
  put_3 = ground arith

  pub put_4 :
      put_group 4 (c / 16 + d % 2 * 16) (low_bits (c % 16) (a ∷ b ∷ []))
      ≡ low_bits (d % 2) (a ∷ b ∷ c ∷ [])
  unfolding put_group spill or_at resize low_bits
  put_4 = ground arith

  pub put_5 :
      put_group 5 (d / 2 % 32) (low_bits (d % 2) (a ∷ b ∷ c ∷ [])) ≡ a ∷ b ∷ c ∷ (d % 64) ∷ []
  unfolding put_group spill or_at resize low_bits
  put_5 = ground arith

  pub put_6 :
      put_group 6 (d / 64 + e % 8 * 4) (a ∷ b ∷ c ∷ (d % 64) ∷ [])
      ≡ low_bits (e % 8) (a ∷ b ∷ c ∷ d ∷ [])
  unfolding put_group spill or_at resize low_bits
  put_6 = ground arith

  pub put_7 : put_group 7 (e / 8) (low_bits (e % 8) (a ∷ b ∷ c ∷ d ∷ [])) ≡ a ∷ b ∷ c ∷ d ∷ e ∷ []
  unfolding put_group spill or_at resize low_bits
  put_7 = ground arith

-- Behind five bytes, eight groups on.
module _ (a b c d e : ℕ) where
  get_or-shift : (bs : Bytes) (i : ℕ) → get_or 0 (a ∷ b ∷ c ∷ d ∷ e ∷ bs) (i + 5) ≡ get_or 0 bs i
  get_or-shift bs i = let five : i + 5 ≡ suc (suc (suc (suc (suc i)))) = omega arith in rw five refl

  resize-shift :
      (bs : Bytes) (i : ℕ)
      → resize (i + 5) (a ∷ b ∷ c ∷ d ∷ e ∷ bs) ≡ a ∷ b ∷ c ∷ d ∷ e ∷ resize i bs
  unfolding resize
  resize-shift bs i = let five : i + 5 ≡ suc (suc (suc (suc (suc i)))) = omega arith in rw five refl

  or_at-shift :
      (bs : Bytes) (i v : ℕ)
      → or_at (i + 5) v (a ∷ b ∷ c ∷ d ∷ e ∷ bs) ≡ a ∷ b ∷ c ∷ d ∷ e ∷ or_at i v bs
  unfolding or_at
  or_at-shift bs i v =
      let five : i + 5 ≡ suc (suc (suc (suc (suc i)))) = omega arith in rw five refl

  spill-shift :
      (bs : Bytes) (i v : ℕ)
      → spill (i + 5) v (a ∷ b ∷ c ∷ d ∷ e ∷ bs) ≡ a ∷ b ∷ c ∷ d ∷ e ∷ spill i v bs
  unfolding spill
  spill-shift bs i v =
      let one : i + 5 + 1 ≡ i + 1 + 5 = omega arith in
      let two : i + 5 + 2 ≡ i + 2 + 5 = omega arith in
      rw (one, two, resize-shift, or_at-shift) (ground arith)

  pub put_group-shift :
      (n digit : ℕ) (bs : Bytes)
      → put_group (n + 8) digit (a ∷ b ∷ c ∷ d ∷ e ∷ bs) ≡ a ∷ b ∷ c ∷ d ∷ e ∷ put_group n digit bs
  unfolding put_group
  put_group-shift n digit bs =
      let byte : (n + 8) * 5 / 8 ≡ n * 5 / 8 + 5 = omega arith in
      let bit : (n + 8) * 5 % 8 ≡ n * 5 % 8 = omega arith in
      let next : n * 5 / 8 + 5 + 1 ≡ n * 5 / 8 + 1 + 5 = omega arith in
      rw (byte, bit, next, resize-shift, or_at-shift, spill-shift) refl

  pub group-shift :
      (n f : ℕ) (bs : Bytes) → group (a ∷ b ∷ c ∷ d ∷ e ∷ f ∷ bs) (n + 8) ≡ group (f ∷ bs) n
  unfolding group
  group-shift n f bs =
      let byte : (n + 8) * 5 / 8 ≡ n * 5 / 8 + 5 = omega arith in
      let bit : (n + 8) * 5 % 8 ≡ n * 5 % 8 = omega arith in
      let next : n * 5 / 8 + 5 + 1 ≡ n * 5 / 8 + 1 + 5 = omega arith in
      let last : leb (length (a ∷ b ∷ c ∷ d ∷ e ∷ f ∷ bs) - 1) (n * 5 / 8 + 5)
          ≡ leb (length (f ∷ bs) - 1) (n * 5 / 8) =
        ground arith in
      rw
        (
          byte,
          bit,
          next,
          get_or-shift (f ∷ bs) (n * 5 / 8),
          get_or-shift (f ∷ bs) (n * 5 / 8 + 1),
          last,
        )
        refl
