-- ===== src/CanonPath/Inner.antt =====
-- Lemmas on the text of components without a leading slash.
use nixstore_arch.Prelude.{
  ℕ, ◌≤◌, ◌<◌, ◌≡◌, ◌∙◌, refl, sym, ap, false, List, [], ◌∷◌, ◌++◌, append_assoc, Bytes, length,
  length-append, All, All-append, bytes_eq, arith,
}
use mathlib.Core.List.{reverse, reverse-append}
use nixstore_arch.CanonPath.{drop_bytes, before_slash, from_slash, after_slash, rel}
use nixstore_arch.CanonPath.Segments.{HasNoSlash, segments, joined, printed}
use nixstore_arch.CanonPath.Canonical.{
  IsSegment, segments-append, segments-segment, segments-nil, printed-segment,
}

-- The text of components, the first one first, without the leading slash.
unfoldable pub inner : List Bytes → Bytes
inner [] = []
inner (s ∷ []) = s
inner (s ∷ t ∷ more) = s ++ b'/' ∷ inner (t ∷ more)

pub before_slash-none : (s : Bytes) → HasNoSlash s → (before_slash s ≡ s) × (from_slash s ≡ [])
unfolding before_slash from_slash
before_slash-none [] h = (refl, refl)
before_slash-none (c ∷ s) (hc, h) =
    let (e, e') = before_slash-none s h in (rw (hc, e) refl, rw (hc, e') refl)

pub before_slash-some :
    (s t : Bytes)
    → HasNoSlash s
    → (before_slash (s ++ b'/' ∷ t) ≡ s) × (from_slash (s ++ b'/' ∷ t) ≡ b'/' ∷ t)
unfolding before_slash from_slash
before_slash-some [] t h = (refl, refl)
before_slash-some (c ∷ s) t (hc, h) =
    let (e, e') = before_slash-some s t h in (rw (hc, e) refl, rw (hc, e') refl)

pub before_slash-inner :
    (s : Bytes) (more : List Bytes) → HasNoSlash s → before_slash (inner (s ∷ more)) ≡ s
unfolding inner
before_slash-inner s [] h = (before_slash-none s h).0
before_slash-inner s (t ∷ more) h = (before_slash-some s (inner (t ∷ more)) h).0

pub after_slash-inner :
    (s : Bytes) (more : List Bytes) → HasNoSlash s → after_slash (inner (s ∷ more)) ≡ inner more
unfolding inner after_slash
after_slash-inner s [] h = rw ((before_slash-none s h).1) (unfold drop_bytes in refl)
after_slash-inner s (t ∷ more) h =
    rw ((before_slash-some s (inner (t ∷ more)) h).1) (unfold drop_bytes in refl)

-- A text of components is not empty.
pub inner-filled :
    (s : Bytes) (more : List Bytes)
    → bytes_eq s [] ≡ false
    → (c : ℕ) × (rest : Bytes) × (inner (s ∷ more) ≡ c ∷ rest)
unfolding inner bytes_eq
inner-filled [] more h = cc
inner-filled (c ∷ s) [] h = (c, s, refl)
inner-filled (c ∷ s) (t ∷ more) h = (c, s ++ b'/' ∷ inner (t ∷ more), refl)

pub segments-inner : (more : List Bytes) → All IsSegment more → segments (inner more) ≡ more
unfolding inner
segments-inner [] h = segments-nil
segments-inner (s ∷ []) (hs, h) = segments-segment s hs
segments-inner (s ∷ t ∷ more) (hs, h) =
    segments-append s (inner (t ∷ more))
    ∙ rw (segments-segment s hs, segments-inner (t ∷ more) h) refl

pub length-inner : (more : List Bytes) → All IsSegment more → length more ≤ length (inner more)
unfolding inner bytes_eq
length-inner [] h = omega arith
length-inner ([] ∷ more) ((e, hs), h) = cc e.0
length-inner ((c ∷ s) ∷ []) h = omega arith
length-inner ((c ∷ s) ∷ t ∷ more) (hs, h) =
    omega (arith, length-append s (b'/' ∷ inner (t ∷ more)), length-inner (t ∷ more) h)

-- The text of a canonical path without its first slash.
pub inner-snoc :
    (x : Bytes) (xs : List Bytes) (s : Bytes)
    → inner ((x ∷ xs) ++ s ∷ []) ≡ inner (x ∷ xs) ++ b'/' ∷ s
unfolding inner
inner-snoc x [] s = refl
inner-snoc x (y ∷ ys) s =
    ap (λ t. x ++ b'/' ∷ t) (inner-snoc y ys s)
    ∙ sym (append_assoc x (b'/' ∷ inner (y ∷ ys)) (b'/' ∷ s))

pub inner-reverse :
    (xs : List Bytes) (s : Bytes) → 0 < length xs → inner (xs ++ s ∷ []) ≡ inner xs ++ b'/' ∷ s
inner-reverse [] s h = absurd (omega arith)
inner-reverse (x ∷ xs) s h = inner-snoc x xs s

pub reverse-filled : (s : Bytes) (stack : List Bytes) → 0 < length (reverse (s ∷ stack))
reverse-filled s stack =
    rw (reverse-append (s ∷ []) stack) (omega (arith, length-append (reverse stack) (s ∷ [])))

pub joined-inner :
    (s : Bytes) (stack : List Bytes) → joined (s ∷ stack) ≡ b'/' ∷ inner (reverse (s ∷ stack))
unfolding joined
joined-inner s [] = unfold inner in refl
joined-inner s (t ∷ stack) =
    ap (λ x. x ++ b'/' ∷ s) (joined-inner t stack)
    ∙ ap (λ x. b'/' ∷ x)
        (sym (inner-reverse (reverse (t ∷ stack)) s (reverse-filled t stack))
          ∙ ap inner (sym (reverse-append (s ∷ []) (t ∷ stack))))

pub rel-printed : (stack : List Bytes) → rel (printed stack) ≡ inner (reverse stack)
rel-printed [] = unfold rel printed joined bytes_eq drop_bytes inner in refl
rel-printed (s ∷ stack) =
    let whole : printed (s ∷ stack) ≡ b'/' ∷ inner (reverse (s ∷ stack)) =
      printed-segment s stack ∙ (unfold joined in joined-inner s stack) in
    rw whole (unfold rel drop_bytes in refl)

pub reverse-All : (stack : List Bytes) → All IsSegment stack → All IsSegment (reverse stack)
reverse-All [] h = tt
reverse-All (s ∷ stack) (hs, h) =
    rw (reverse-append (s ∷ []) stack)
      (All-append IsSegment (reverse stack) (s ∷ []) (reverse-All stack h) (hs, tt))
