-- ===== src/CanonPath/Canonical.antt =====
-- Theorems on canonical paths: their form, and what canonicalisation makes of them.
use nixstore_arch.Prelude.{
  ℕ, ◌≡◌, ◌∙◌, refl, sym, ap, true, false, Bool-cases, inl, inr, List, [], ◌∷◌, ◌++◌, append-nil,
  append_assoc, Bytes, codes, All, ◌==◌, if◌then◌else◌, bytes_eq, contains,
}
use mathlib.Core.List.{reverse, reverse-append}
use nixstore_arch.CanonPath.{canonical_text, parent_text, take_bytes, starts_with_slash}
use nixstore_arch.CanonPath.Segments.{
  HasNoSlash, with_segment, segments_from, segments, go_up, go_to, resolve, joined, printed,
  canonical_text_lem, at_last_slash-some,
}

-- A component that stands for itself.
abbrev pub IsSegment : Bytes → Type 0
IsSegment s =
    ((bytes_eq s [] ≡ false) × (bytes_eq s (codes ".") ≡ false) × (bytes_eq s (codes "..") ≡ false))
    × HasNoSlash s

abbrev IsFilled : Bytes → Type 0
IsFilled s = (bytes_eq s [] ≡ false) × HasNoSlash s

HasNoSlash-snoc :
    (s : Bytes) (c : ℕ) → HasNoSlash s → (c == b'/') ≡ false → HasNoSlash (s ++ c ∷ [])
HasNoSlash-snoc [] c h hc = (hc, tt)
HasNoSlash-snoc (b ∷ s) c (hb, h) hc = (hb, HasNoSlash-snoc s c h hc)

with_segment-IsFilled :
    (s : Bytes) (more : List Bytes)
    → HasNoSlash s
    → All IsFilled more
    → All IsFilled (with_segment s more)
unfolding with_segment bytes_eq
with_segment-IsFilled [] more h hs = hs
with_segment-IsFilled (c ∷ s) more h hs = ((refl, h), hs)

segments_from-IsFilled :
    (current s : Bytes) → HasNoSlash current → All IsFilled (segments_from current s)
unfolding segments_from
segments_from-IsFilled current [] h = with_segment-IsFilled current [] h tt
segments_from-IsFilled current (c ∷ s) h = elim (Bool-cases (c == b'/')) [
  | inl slash ↦
      rw slash
        (with_segment-IsFilled current (segments_from [] s) h (segments_from-IsFilled [] s tt))
  | inr other ↦
      rw other (segments_from-IsFilled (current ++ c ∷ []) s (HasNoSlash-snoc current c h other))
]

go_to-IsSegment :
    (s : Bytes) (stack : List Bytes)
    → IsFilled s
    → All IsSegment stack
    → All IsSegment (go_to s stack)
unfolding go_to go_up
go_to-IsSegment s stack (filled, hs) h = elim (Bool-cases (bytes_eq s (codes "."))) [
  | inl dot ↦ rw dot h
  | inr no_dot ↦ elim (Bool-cases (bytes_eq s (codes ".."))) [
    | inl dots ↦ rw (no_dot, dots) (above stack h)
    | inr no_dots ↦ rw (no_dot, no_dots) (((filled, no_dot, no_dots), hs), h)
  ]
]
  where
    above : (stack' : List Bytes) → All IsSegment stack' → All IsSegment (go_up stack')
    above [] h' = tt
    above (t ∷ stack') h' = h'.1

resolve-IsSegment :
    (stack more : List Bytes)
    → All IsFilled more
    → All IsSegment stack
    → All IsSegment (resolve stack more)
unfolding resolve
resolve-IsSegment stack [] f h = h
resolve-IsSegment stack (s ∷ more) (fs, f) h =
    resolve-IsSegment (go_to s stack) more f (go_to-IsSegment s stack fs h)

-- A path that starts with a slash, has no empty component, no `.` and no `..`, and does not end with
-- a slash, unless it is `/`. A null byte is not excluded.
abbrev pub IsNormal : Bytes → Type 0
IsNormal path = (stack : List Bytes) × All IsSegment stack × (path ≡ printed stack)

-- What a `CanonPath` holds: it has no null byte either.
abbrev pub IsCanonical : Bytes → Type 0
IsCanonical path = IsNormal path × (contains 0 path ≡ false)

pub canonical_text-IsNormal : (path : Bytes) → IsNormal (canonical_text path)
canonical_text-IsNormal path = (
  resolve [] (segments path),
  resolve-IsSegment [] (segments path) (unfold segments in segments_from-IsFilled [] path tt) tt,
  canonical_text_lem path,
)

with_segment-append :
    (s : Bytes) (xs ys : List Bytes) → with_segment s (xs ++ ys) ≡ with_segment s xs ++ ys
unfolding with_segment
with_segment-append [] xs ys = refl
with_segment-append (c ∷ s) xs ys = refl

segments_from-append :
    (current s t : Bytes)
    → segments_from current (s ++ b'/' ∷ t) ≡ segments_from current s ++ segments t
unfolding segments_from segments
segments_from-append current [] t = with_segment-append current [] (segments_from [] t)
segments_from-append current (c ∷ s) t = elim (Bool-cases (c == b'/')) [
  | inl slash ↦ rw slash (
      ap (with_segment current) (segments_from-append [] s t)
      ∙ with_segment-append current (segments_from [] s) (segments_from [] t))
  | inr other ↦ rw other (segments_from-append (current ++ c ∷ []) s t)
]

pub segments-append : (s t : Bytes) → segments (s ++ b'/' ∷ t) ≡ segments s ++ segments t
unfolding segments
segments-append s t = segments_from-append [] s t

segments_from-whole :
    (current s : Bytes) → HasNoSlash s → segments_from current s ≡ with_segment (current ++ s) []
unfolding segments_from
segments_from-whole current [] h = rw (append-nil current) refl
segments_from-whole current (c ∷ s) (hc, h) =
    rw hc (segments_from-whole (current ++ c ∷ []) s h ∙ rw (append_assoc current (c ∷ []) s) refl)

with_segment-filled : (s : Bytes) → bytes_eq s [] ≡ false → with_segment s [] ≡ s ∷ []
unfolding with_segment bytes_eq
with_segment-filled [] h = cc
with_segment-filled (c ∷ s) h = refl

pub segments-segment : (s : Bytes) → IsSegment s → segments s ≡ s ∷ []
unfolding segments
segments-segment s ((filled, no_dot, no_dots), h) =
    segments_from-whole [] s h ∙ with_segment-filled s filled

pub segments-nil : segments [] ≡ []
unfolding segments segments_from with_segment
segments-nil = refl

pub segments-joined :
    (stack : List Bytes) → All IsSegment stack → segments (joined stack) ≡ reverse stack
unfolding joined
segments-joined [] h = segments-nil
segments-joined (s ∷ stack) (hs, h) =
    segments-append (joined stack) s
    ∙ rw (segments-joined stack h, segments-segment s hs) (sym (reverse-append (s ∷ []) stack))

pub resolve-append :
    (stack xs ys : List Bytes) → resolve stack (xs ++ ys) ≡ resolve (resolve stack xs) ys
unfolding resolve
resolve-append stack [] ys = refl
resolve-append stack (x ∷ xs) ys = resolve-append (go_to x stack) xs ys

go_to-segment : (s : Bytes) (stack : List Bytes) → IsSegment s → go_to s stack ≡ s ∷ stack
unfolding go_to
go_to-segment s stack ((filled, no_dot, no_dots), h) = rw (no_dot, no_dots) refl

pub resolve-reverse :
    (stack : List Bytes) → All IsSegment stack → resolve [] (reverse stack) ≡ stack
resolve-reverse [] h = unfold resolve in refl
resolve-reverse (s ∷ stack) (hs, h) =
    ap (resolve []) (reverse-append (s ∷ []) stack)
    ∙ resolve-append [] (reverse stack) (s ∷ [])
    ∙ rw (resolve-reverse stack h) (unfold resolve in go_to-segment s stack hs)

pub appended-filled : (t u : Bytes) → bytes_eq (t ++ b'/' ∷ u) [] ≡ false
unfolding bytes_eq
appended-filled [] u = refl
appended-filled (c ∷ t) u = refl

pub printed-segment :
    (s : Bytes) (stack : List Bytes) → printed (s ∷ stack) ≡ joined stack ++ b'/' ∷ s
unfolding printed joined
printed-segment s stack = rw (appended-filled (joined stack) s) refl

pub segments-printed :
    (stack : List Bytes) → All IsSegment stack → segments (printed stack) ≡ reverse stack
unfolding printed
segments-printed [] h = unfold joined segments segments_from with_segment bytes_eq in refl
segments-printed (s ∷ stack) h =
    rw (printed-segment s stack) (unfold joined in segments-joined (s ∷ stack) h)

-- A canonical path stays as it is, also behind a further slash: canonicalising is idempotent.
pub canonical_text-canonical :
    (path : Bytes)
    → IsNormal path
    → (canonical_text path ≡ path) × (canonical_text (b'/' ∷ path) ≡ path)
canonical_text-canonical path (stack, h, e) =
    let kept : resolve [] (segments path) ≡ stack =
      rw e (rw (segments-printed stack h) (resolve-reverse stack h)) in
    let slash : segments (b'/' ∷ path) ≡ segments path =
      segments-append [] path ∙ rw segments-nil refl in
    (
      canonical_text_lem path ∙ rw kept (sym e),
      canonical_text_lem (b'/' ∷ path) ∙ rw slash (rw kept (sym e)),
    )

at_slash :
    (t s : Bytes)
    → HasNoSlash s
    → parent_text (t ++ b'/' ∷ s) ≡ (if bytes_eq t [] then codes "/" else t)
unfolding bytes_eq parent_text take_bytes
at_slash [] s h = rw (at_last_slash-some [] s h, parent_text) refl
at_slash (c ∷ t) s h = rw (at_last_slash-some (c ∷ t) s h, parent_text) refl

-- The parent of a path is the text of the components above the last one.
pub parent_text-printed :
    (s : Bytes) (stack : List Bytes)
    → HasNoSlash s
    → parent_text (printed (s ∷ stack)) ≡ printed stack
parent_text-printed s stack h =
    rw (printed-segment s stack) (at_slash (joined stack) s h ∙ unfold printed in refl)

joined-slash :
    (stack : List Bytes) (t : Bytes) → starts_with_slash (joined stack ++ b'/' ∷ t) ≡ true
unfolding joined starts_with_slash
joined-slash [] t = refl
joined-slash (s ∷ stack) t =
    rw (append_assoc (joined stack) (b'/' ∷ s) (b'/' ∷ t)) (joined-slash stack (s ++ b'/' ∷ t))

pub printed-slash :
    (stack : List Bytes) (t : Bytes) → starts_with_slash (printed stack ++ b'/' ∷ t) ≡ true
printed-slash [] t = unfold printed joined bytes_eq starts_with_slash in refl
printed-slash (s ∷ stack) t =
    rw (printed-segment s stack)
      (rw (append_assoc (joined stack) (b'/' ∷ s) (b'/' ∷ t)) (joined-slash stack (s ++ b'/' ∷ t)))

pub canonical_text-append :
    (stack : List Bytes) (s : Bytes)
    → All IsSegment stack
    → IsSegment s
    → canonical_text (printed stack ++ b'/' ∷ s) ≡ printed (s ∷ stack)
canonical_text-append stack s h hs =
    let parts : segments (printed stack ++ b'/' ∷ s) ≡ reverse (s ∷ stack) =
      segments-append (printed stack) s
      ∙ rw (segments-printed stack h, segments-segment s hs)
          (sym (reverse-append (s ∷ []) stack)) in
    canonical_text_lem (printed stack ++ b'/' ∷ s)
    ∙ rw parts (rw (resolve-reverse (s ∷ stack) (hs, h)) refl)
