-- ===== src/References/Rewriting.antt =====
-- Lemmas on the loop of `rewriteStrings` for one text.
use nixstore_arch.Prelude.{
  ℕ, zero, suc, ◌+◌, ◌-◌, ◌%◌, ◌^◌, ◌≤◌, ◌<◌, ◌≡◌, ◌∙◌, refl, sym, ap, true, false, Bool-cases, inl,
  inr, List, [], ◌∷◌, ◌++◌, append_assoc, Bytes, length, length-append, if◌then◌else◌, arith,
}
use nixstore_arch.CanonPath.{take_bytes, drop_bytes}
use nixstore_arch.References.{has_prefix, replaced, rewrite_one, match_one}

has_prefix-length : (f s : Bytes) → has_prefix f s ≡ true → length f ≤ length s
unfolding has_prefix
has_prefix-length [] s h = omega arith
has_prefix-length (p ∷ f) [] h = cc
has_prefix-length (p ∷ f) (c ∷ s) h = ground (arith, has_prefix-length f s)

has_prefix-within : (f s t : Bytes) → length f ≤ length s → has_prefix f (s ++ t) ≡ has_prefix f s
unfolding has_prefix
has_prefix-within [] s t h = refl
has_prefix-within (p ∷ f) [] t h = absurd (omega arith)
has_prefix-within (p ∷ f) (c ∷ s) t h =
    let shorter : length f ≤ length s = omega arith in rw (has_prefix-within f s t shorter) refl

drop_bytes-append :
    (n : ℕ) (s t : Bytes) → n ≤ length s → drop_bytes n (s ++ t) ≡ drop_bytes n s ++ t
unfolding drop_bytes
drop_bytes-append zero s t h = refl
drop_bytes-append (suc n) [] t h = absurd (omega arith)
drop_bytes-append (suc n) (c ∷ s) t h = drop_bytes-append n s t (omega arith)

pub length-drop_bytes : (n : ℕ) (s : Bytes) → length (drop_bytes n s) ≡ length s - n
unfolding drop_bytes
length-drop_bytes zero s = omega arith
length-drop_bytes (suc n) [] = omega arith
length-drop_bytes (suc n) (c ∷ s) = omega (arith, length-drop_bytes n s)

uncons :
    (s : Bytes) (n : ℕ)
    → length s ≡ suc n
    → (c : ℕ) × (rest : Bytes) × (s ≡ c ∷ rest) × (length rest ≡ n)
uncons [] n h = absurd (omega arith)
uncons (c ∷ rest) n h = (c, rest, refl, omega arith)

-- A text that is not empty, and one of the same length.
module _ (from to : Bytes) (filled : 0 < length from) (sized : length to ≡ length from) where
  abbrev pub rewritten : Bytes → Bytes
  rewritten s = rewrite_one (length s) from to s

  abbrev pub found : ℕ → Bytes → List ℕ
  found pos s = match_one (length s) from to pos s

  length-replaced : (s : Bytes) → length (replaced from to s) ≡ length s
  unfolding replaced
  length-replaced s = elim (Bool-cases (has_prefix from s)) [
    | inl match ↦ rw match (
        omega (
          arith,
          length-append to (drop_bytes (length from) s),
          length-drop_bytes (length from) s,
          has_prefix-length from s match,
        ))
    | inr other ↦ rw other refl
  ]

  replaced-append :
      (s t : Bytes) → length from ≤ length s → replaced from to (s ++ t) ≡ replaced from to s ++ t
  unfolding replaced
  replaced-append s t h =
      rw (has_prefix-within from s t h, drop_bytes-append (length from) s t h)
        (elim (Bool-cases (has_prefix from s)) [
          | inl match ↦ rw match (sym (append_assoc to (drop_bytes (length from) s) t))
          | inr other ↦ rw other refl
        ])

  rewritten-step :
      (c : ℕ) (s : Bytes) (e : ℕ) (v : Bytes)
      → replaced from to (c ∷ s) ≡ e ∷ v
      → length v ≡ length s
      → rewritten (c ∷ s) ≡ e ∷ rewritten v
  unfolding rewrite_one
  rewritten-step c s e v h same = rw (h, rewrite_one) (rw same refl)

  found-step :
      (pos c : ℕ) (s : Bytes) (e : ℕ) (v : Bytes)
      → replaced from to (c ∷ s) ≡ e ∷ v
      → length v ≡ length s
      → found pos (c ∷ s) ≡ (
          if has_prefix from (c ∷ s)
          then pos ∷ found ((pos + 1) % 2 ^ 64) v
          else found ((pos + 1) % 2 ^ 64) v)
  unfolding match_one
  found-step pos c s e v h same = rw (h, match_one) (rw same refl)

  -- Where there is no room for a match.
  short_replaced :
      (s : Bytes) → length s < length from → (has_prefix from s ≡ false) × (replaced from to s ≡ s)
  unfolding replaced
  short_replaced s h = elim (Bool-cases (has_prefix from s)) [
    | inl match ↦ absurd (omega (arith, has_prefix-length from s match))
    | inr other ↦ (other, rw other refl)
  ]

  pub rewritten_short : (s : Bytes) → length s < length from → rewritten s ≡ s
  rewritten_short [] h = unfold rewrite_one in refl
  rewritten_short (c ∷ s) h =
      rewritten-step c s c s (short_replaced (c ∷ s) h).1 refl
      ∙ ap (λ t. c ∷ t) (rewritten_short s (omega arith))

  pub found_short : (pos : ℕ) (s : Bytes) → length s < length from → found pos s ≡ []
  found_short pos [] h = unfold match_one in refl
  found_short pos (c ∷ s) h =
      let (other, kept) = short_replaced (c ∷ s) h in
      found-step pos c s c s kept refl ∙ rw other (found_short ((pos + 1) % 2 ^ 64) s (omega arith))

  -- The loop stops at the last place where there is room for a match, and goes on there when more
  -- text comes.
  pub rewritten-resume :
      (k : ℕ) (s t : Bytes)
      → length s + 1 ≡ length from + k
      → rewritten (s ++ t)
        ≡ take_bytes k (rewritten s) ++ rewritten (drop_bytes k (rewritten s) ++ t)
  unfolding take_bytes drop_bytes
  rewritten-resume zero s t h = rw (rewritten_short s (omega arith)) refl
  rewritten-resume (suc k) [] t h = absurd (omega arith)
  rewritten-resume (suc k) (c ∷ s) t h =
      let (e, v, whole, same) =
        uncons (replaced from to (c ∷ s)) (length s) (length-replaced (c ∷ s)) in
      let longer : replaced from to (c ∷ (s ++ t)) ≡ e ∷ (v ++ t) =
        replaced-append (c ∷ s) t (omega arith) ∙ ap (λ x. x ++ t) whole in
      let same' : length (v ++ t) ≡ length (s ++ t) =
        omega (arith, length-append v t, length-append s t) in
      rw (rewritten-step c s e v whole same, rewritten-step c (s ++ t) e (v ++ t) longer same')
        (ap (λ x. e ∷ x) (rewritten-resume k v t (omega arith)))

  pub found-resume :
      (k pos : ℕ) (s t : Bytes)
      → length s + 1 ≡ length from + k
      → pos < 2 ^ 64
      → found pos (s ++ t)
        ≡ found pos s ++ found ((pos + k) % 2 ^ 64) (drop_bytes k (rewritten s) ++ t)
  unfolding drop_bytes
  found-resume zero pos s t h fits =
      let here : (pos + 0) % 2 ^ 64 ≡ pos = omega arith in
      rw (found_short pos s (omega arith), rewritten_short s (omega arith), here) refl
  found-resume (suc k) pos [] t h fits = absurd (omega arith)
  found-resume (suc k) pos (c ∷ s) t h fits =
      let (e, v, whole, same) =
        uncons (replaced from to (c ∷ s)) (length s) (length-replaced (c ∷ s)) in
      let longer : replaced from to (c ∷ (s ++ t)) ≡ e ∷ (v ++ t) =
        replaced-append (c ∷ s) t (omega arith) ∙ ap (λ x. x ++ t) whole in
      let same' : length (v ++ t) ≡ length (s ++ t) =
        omega (arith, length-append v t, length-append s t) in
      let inside : has_prefix from (c ∷ (s ++ t)) ≡ has_prefix from (c ∷ s) =
        has_prefix-within from (c ∷ s) t (omega arith) in
      let next : ((pos + 1) % 2 ^ 64 + k) % 2 ^ 64 ≡ (pos + suc k) % 2 ^ 64 = omega arith in
      let later : found ((pos + 1) % 2 ^ 64) (v ++ t)
          ≡ found ((pos + 1) % 2 ^ 64) v
            ++ found ((pos + suc k) % 2 ^ 64) (drop_bytes k (rewritten v) ++ t) =
        rw (sym next) (found-resume k ((pos + 1) % 2 ^ 64) v t (omega arith) (omega arith)) in
      rw
        (
          rewritten-step c s e v whole same,
          found-step pos c s e v whole same,
          found-step pos c (s ++ t) e (v ++ t) longer same',
          inside,
        )
        (elim (Bool-cases (has_prefix from (c ∷ s))) [
          | inl match ↦ rw match (ap (λ x. pos ∷ x) later)
          | inr other ↦ rw other later
        ])

  pub length-rewritten : (n : ℕ) (s : Bytes) → length s ≡ n → length (rewritten s) ≡ n
  length-rewritten zero [] h = unfold rewrite_one in refl
  length-rewritten zero (c ∷ s) h = absurd (omega arith)
  length-rewritten (suc n) [] h = absurd (omega arith)
  length-rewritten (suc n) (c ∷ s) h =
      let (e, v, whole, same) =
        uncons (replaced from to (c ∷ s)) (length s) (length-replaced (c ∷ s)) in
      rw (rewritten-step c s e v whole same) (ap suc (length-rewritten n v (omega arith)))
