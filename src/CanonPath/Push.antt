-- ===== src/CanonPath/Push.antt =====
-- Theorems on the operations that go up and down from a canonical path.
use nixstore_arch.Prelude.{
  ◌<◌, ◌≡◌, ◌∙◌, refl, sym, ap, Bool, true, false, not, ◌&&◌, &&-eq-true, Bool-cases, inl, inr,
  List, [], ◌∷◌, ◌++◌, Bytes, codes, length, length-append, All, ◌==◌, bytes_eq, contains, ok,
  require-elim, ok-injective, arith,
}
use nixstore_arch.CanonPath.{
  canonical_text, abs_path_pure, canon_path, ensure_no_null_bytes, null_byte, assertion, push,
  is_root, push_checked, pop,
}
use nixstore_arch.CanonPath.Segments.{HasNoSlash, joined, printed}
use nixstore_arch.CanonPath.Canonical.{
  IsSegment, IsNormal, IsCanonical, canonical_text-IsNormal, canonical_text-canonical,
  parent_text-printed, printed-segment,
}
use nixstore_arch.CanonPath.Bytewise.{canonical_text-full, append-full}

not-true : (b : Bool) → not b ≡ true → b ≡ false
not-true b h = ground arith

-- What `CanonPath(std::string_view)` makes is canonical, without a null byte too, and making a path of
-- it again gives the same.
pub canon_path-IsCanonical :
    (raw path : Bytes) → canon_path raw ≡ ok path → IsCanonical path × (canon_path path ≡ ok path)
unfolding canon_path abs_path_pure ensure_no_null_bytes contains bytes_eq
canon_path-IsCanonical raw path e = require-elim (not (contains 0 raw)) null_byte e λ no_null last.
    let same : canonical_text (b'/' ∷ raw) ≡ path = ok-injective last in
    let normal : IsNormal path = rw (sym same) (canonical_text-IsNormal (b'/' ∷ raw)) in
    let full : contains 0 path ≡ false =
      rw (sym same) (canonical_text-full (b'/' ∷ raw) (not-true _ no_null)) in
    ((normal, full), rw full (ap ok (canonical_text-canonical path normal).1))

filled-long : (t : Bytes) → bytes_eq t [] ≡ false → 0 < length t
unfolding bytes_eq
filled-long [] e = cc
filled-long (c ∷ t) e = omega arith

is_root-printed :
    (s : Bytes) (stack : List Bytes) → bytes_eq s [] ≡ false → is_root (printed (s ∷ stack)) ≡ false
unfolding is_root
is_root-printed s stack filled =
    rw (printed-segment s stack)
      (ground (arith, length-append (joined stack) (b'/' ∷ s), filled-long s filled))

push-printed :
    (stack : List Bytes) (c : Bytes)
    → All IsSegment stack
    → push (printed stack) c ≡ printed (c ∷ stack)
unfolding push
push-printed [] c h = rw (printed-segment c []) (unfold printed joined bytes_eq is_root in refl)
push-printed (s ∷ stack) c (((filled, no_dot, no_dots), hs), h) =
    rw (is_root-printed s stack filled)
      (rw (printed-segment c (s ∷ stack)) (rw (printed-segment s stack) (unfold joined in refl)))

contains-HasNoSlash : (s : Bytes) → contains b'/' s ≡ false → HasNoSlash s
unfolding contains
contains-HasNoSlash [] h = tt
contains-HasNoSlash (c ∷ s) h = elim (Bool-cases (c == b'/')) [
  | inl slash ↦ cc (rw slash at h)
  | inr other ↦ (other, contains-HasNoSlash s (rw other at h))
]

-- What `push` accepts.
pushed :
    (path c q : Bytes)
    → bytes_eq c [] ≡ false
    → push_checked path c ≡ ok q
    → IsSegment c × (contains 0 c ≡ false) × (q ≡ push path c)
unfolding push_checked ensure_no_null_bytes
pushed path c q filled e = require-elim (not (contains b'/' c)) assertion e λ no_slash e₁.
    require-elim (not (bytes_eq c (codes ".")) && not (bytes_eq c (codes ".."))) assertion e₁
      λ no_dots e₂. require-elim (not (contains 0 c)) null_byte e₂ λ no_null last.
        let (dot, dots) =
          &&-eq-true (not (bytes_eq c (codes "."))) (not (bytes_eq c (codes ".."))) no_dots in
        (
          ((filled, not-true _ dot, not-true _ dots), contains-HasNoSlash c (not-true _ no_slash)),
          not-true _ no_null,
          sym (ok-injective last),
        )

push-full :
    (path c : Bytes)
    → contains 0 path ≡ false
    → contains 0 c ≡ false
    → contains 0 (push path c) ≡ false
unfolding push
push-full path c hp hc = elim (Bool-cases (is_root path)) [
  | inl root ↦ rw root (append-full path c hp hc)
  | inr deeper ↦ rw deeper (append-full path (codes "/" ++ c) hp (unfold contains in hc))
]

-- On a canonical path, a component that is not empty and that `push` accepts makes a canonical path,
-- without a null byte too, and `pop` gives the path back.
pub pop-push_checked :
    (path c q : Bytes)
    → IsCanonical path
    → bytes_eq c [] ≡ false
    → push_checked path c ≡ ok q
    → IsCanonical q × (pop q ≡ ok path)
unfolding pop
pop-push_checked path c q ((stack, h, e), full) filled accepted =
    let (segment, full', same) = pushed path c q filled accepted in
    let whole : q ≡ printed (c ∷ stack) = same ∙ rw e (push-printed stack c h) in
    (
      ((c ∷ stack, (segment, h), whole), rw same (push-full path c full full')),
      rw whole
          (rw (is_root-printed c stack filled, parent_text-printed c stack segment.1) (rw e refl)),
    )
