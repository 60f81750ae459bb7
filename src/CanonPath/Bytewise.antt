-- ===== src/CanonPath/Bytewise.antt =====
-- Theorems on what holds of every byte of a path, also after canonicalisation.
use nixstore_arch.Prelude.{
  ℕ, ◌≡◌, refl, false, Bool-cases, inl, inr, List, [], ◌∷◌, ◌++◌, Bytes, codes, All, All-append,
  ◌==◌, bytes_eq, contains,
}
use nixstore_arch.CanonPath.{canonical_text}
use nixstore_arch.CanonPath.Segments.{
  with_segment, segments_from, segments, go_up, go_to, resolve, joined, printed, canonical_text_lem,
}

module _ (P : ℕ → Type 0) where
  with_segment-All :
      (s : Bytes) (more : List Bytes)
      → All P s
      → All (All P) more
      → All (All P) (with_segment s more)
  unfolding with_segment
  with_segment-All [] more h hs = hs
  with_segment-All (c ∷ s) more h hs = (h, hs)

  segments_from-All :
      (current s : Bytes) → All P current → All P s → All (All P) (segments_from current s)
  unfolding segments_from
  segments_from-All current [] h hs = with_segment-All current [] h tt
  segments_from-All current (c ∷ s) h (hc, hs) = elim (Bool-cases (c == b'/')) [
    | inl slash ↦
        rw slash (with_segment-All current (segments_from [] s) h (segments_from-All [] s tt hs))
    | inr other ↦
        rw other
          (segments_from-All (current ++ c ∷ []) s (All-append P current (c ∷ []) h (hc, tt)) hs)
  ]

  go_to-All :
      (s : Bytes) (stack : List Bytes) → All P s → All (All P) stack → All (All P) (go_to s stack)
  unfolding go_to go_up
  go_to-All s stack hs h = elim (Bool-cases (bytes_eq s (codes "."))) [
    | inl dot ↦ rw dot h
    | inr no_dot ↦ elim (Bool-cases (bytes_eq s (codes ".."))) [
      | inl dots ↦ rw (no_dot, dots) (above stack h)
      | inr no_dots ↦ rw (no_dot, no_dots) (hs, h)
    ]
  ]
    where
      above : (stack' : List Bytes) → All (All P) stack' → All (All P) (go_up stack')
      above [] h' = tt
      above (t ∷ stack') h' = h'.1

  resolve-All :
      (stack more : List Bytes)
      → All (All P) more
      → All (All P) stack
      → All (All P) (resolve stack more)
  unfolding resolve
  resolve-All stack [] f h = h
  resolve-All stack (s ∷ more) (fs, f) h =
      resolve-All (go_to s stack) more f (go_to-All s stack fs h)

  joined-All : (stack : List Bytes) → P b'/' → All (All P) stack → All P (joined stack)
  unfolding joined
  joined-All [] slash h = tt
  joined-All (s ∷ stack) slash (hs, h) =
      All-append P (joined stack) (b'/' ∷ s) (joined-All stack slash h) (slash, hs)

  printed-All : (stack : List Bytes) → P b'/' → All (All P) stack → All P (printed stack)
  unfolding printed
  printed-All stack slash h = elim (Bool-cases (bytes_eq (joined stack) [])) [
    | inl nothing ↦ rw nothing (slash, tt)
    | inr filled ↦ rw filled (joined-All stack slash h)
  ]

  -- What holds of a slash and of the bytes of a path holds of its canonical form.
  canonical_text-All : (path : Bytes) → P b'/' → All P path → All P (canonical_text path)
  canonical_text-All path slash h = rw (canonical_text_lem path) (
      printed-All (resolve [] (segments path)) slash
        (resolve-All [] (segments path) (unfold segments in segments_from-All [] path tt h) tt))

abbrev IsFull : ℕ → Type 0
IsFull c = (c == 0) ≡ false

contains-All : (s : Bytes) → contains 0 s ≡ false → All IsFull s
unfolding contains
contains-All [] h = tt
contains-All (c ∷ s) h = elim (Bool-cases (c == 0)) [
  | inl null ↦ cc (rw null at h)
  | inr full ↦ (full, contains-All s (rw full at h))
]

All-contains : (s : Bytes) → All IsFull s → contains 0 s ≡ false
unfolding contains
All-contains [] h = refl
All-contains (c ∷ s) (hc, h) = rw hc (All-contains s h)

-- A path without null bytes has none in its canonical form, and none when it is appended to.
pub canonical_text-full :
    (path : Bytes) → contains 0 path ≡ false → contains 0 (canonical_text path) ≡ false
canonical_text-full path h =
    All-contains (canonical_text path) (canonical_text-All IsFull path refl (contains-All path h))

pub append-full :
    (s t : Bytes) → contains 0 s ≡ false → contains 0 t ≡ false → contains 0 (s ++ t) ≡ false
append-full s t hs ht =
    All-contains (s ++ t) (All-append IsFull s t (contains-All s hs) (contains-All t ht))
