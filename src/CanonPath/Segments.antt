-- ===== src/CanonPath/Segments.antt =====
-- The components of a path, and theorems on `canonPathInner` against them.
use nixstore_arch.Prelude.{
  ℕ, zero, suc, ◌+◌, ◌≤◌, ◌<◌, ◌≡◌, ◌∙◌, refl, sym, ap, false, Bool-cases, inl, inr, List, [], ◌∷◌,
  ◌++◌, append-nil, append_assoc, Bytes, codes, length, All, ◌==◌, if◌then◌else◌, none, some,
  bytes_eq, bytes_eq_iff, ok, err, arith,
}
use nixstore_arch.CanonPath.{
  drop_bytes, before_slash, from_slash, at_last_slash, skip_slashes, erase_component,
  remaining_after, result_after, canon_loop, canonical_text, abs_path_pure, assertion,
}

abbrev pub HasNoSlash : Bytes → Type 0
HasNoSlash s = All (λ c. (c == b'/') ≡ false) s

-- The components that are not empty; `current` is what has been read of one.
unfoldable pub with_segment : Bytes → List Bytes → List Bytes
with_segment [] more = more
with_segment (c ∷ s) more = (c ∷ s) ∷ more

unfoldable pub segments_from : Bytes → Bytes → List Bytes
segments_from current [] = with_segment current []
segments_from current (c ∷ s) =
    let behind = with_segment current (segments_from [] s) in
    let within = segments_from (current ++ c ∷ []) s in if c == b'/' then behind else within

unfoldable pub segments : Bytes → List Bytes
segments s = segments_from [] s

-- What the components lead to, from the last component back: `.` stays, `..` goes up.
unfoldable pub go_up : List Bytes → List Bytes
go_up [] = []
go_up (s ∷ stack) = stack

unfoldable pub go_to : Bytes → List Bytes → List Bytes
go_to s stack =
    if bytes_eq s (codes ".")
    then stack
    else if bytes_eq s (codes "..")
    then go_up stack
    else s ∷ stack

unfoldable pub resolve : List Bytes → List Bytes → List Bytes
resolve stack [] = stack
resolve stack (s ∷ more) = resolve (go_to s stack) more

-- The text of the components, of which the last one stands first.
unfoldable pub joined : List Bytes → Bytes
joined [] = []
joined (s ∷ stack) = joined stack ++ b'/' ∷ s

unfoldable pub printed : List Bytes → Bytes
printed stack = if bytes_eq (joined stack) [] then codes "/" else joined stack

segments-skip_slashes : (s : Bytes) → segments (skip_slashes s) ≡ segments s
unfolding segments skip_slashes segments_from with_segment
segments-skip_slashes [] = refl
segments-skip_slashes (c ∷ s) = elim (Bool-cases (c == b'/')) [
  | inl slash ↦ rw slash (segments-skip_slashes s)
  | inr other ↦ rw other (rw other refl)
]

segments_from-slash :
    (current s : Bytes)
    → segments_from current s
      ≡ with_segment (current ++ before_slash s) (segments_from [] (from_slash s))
unfolding segments_from before_slash from_slash
segments_from-slash current [] = unfold with_segment in rw (append-nil current) refl
segments_from-slash current (c ∷ s) = elim (Bool-cases (c == b'/')) [
  | inl slash ↦
      rw (slash, append-nil current) (rw (slash, segments_from) (unfold with_segment in refl))
  | inr other ↦ rw other (
      segments_from-slash (current ++ c ∷ []) s
      ∙ rw (append_assoc current (c ∷ []) (before_slash s)) refl)
]

before_slash-HasNoSlash : (s : Bytes) → HasNoSlash (before_slash s)
unfolding before_slash
before_slash-HasNoSlash [] = tt
before_slash-HasNoSlash (c ∷ s) = elim (Bool-cases (c == b'/')) [
  | inl slash ↦ rw slash tt
  | inr other ↦ rw other (other, before_slash-HasNoSlash s)
]

before-from_slash : (s : Bytes) → before_slash s ++ from_slash s ≡ s
unfolding before_slash from_slash
before-from_slash [] = refl
before-from_slash (c ∷ s) = elim (Bool-cases (c == b'/')) [
  | inl slash ↦ rw slash refl
  | inr other ↦ rw other (ap (λ t. c ∷ t) (before-from_slash s))
]

length-skip_slashes : (s : Bytes) → length (skip_slashes s) ≤ length s
unfolding skip_slashes
length-skip_slashes [] = omega arith
length-skip_slashes (c ∷ s) = ground (arith, length-skip_slashes s)

length-from_slash : (s : Bytes) → length (from_slash s) ≤ length s
unfolding from_slash
length-from_slash [] = omega arith
length-from_slash (c ∷ s) = ground (arith, length-from_slash s)

-- Whether a text begins with a component.
abbrev IsSkipped : Bytes → Type 0
IsSkipped [] = Unit {0}
IsSkipped (c ∷ s) = (c == b'/') ≡ false

skip_slashes-IsSkipped : (s : Bytes) → IsSkipped (skip_slashes s)
unfolding skip_slashes
skip_slashes-IsSkipped [] = tt
skip_slashes-IsSkipped (c ∷ s) = elim (Bool-cases (c == b'/')) [
  | inl slash ↦ rw slash (skip_slashes-IsSkipped s)
  | inr other ↦ rw other other
]

drop_bytes-append : (s t : Bytes) → drop_bytes (length s) (s ++ t) ≡ t
unfolding drop_bytes
drop_bytes-append [] t = refl
drop_bytes-append (c ∷ s) t = drop_bytes-append s t

-- Behind a dot or two stands a slash or nothing.
remaining_after_lem : (s : Bytes) → remaining_after (before_slash s) s ≡ from_slash s
unfolding remaining_after
remaining_after_lem s = elim (Bool-cases (bytes_eq (before_slash s) (codes "."))) [
  | inl dot ↦ rw dot (dropped (codes ".") ((bytes_eq_iff (before_slash s) (codes ".")).0 dot))
  | inr no_dot ↦ elim (Bool-cases (bytes_eq (before_slash s) (codes ".."))) [
    | inl dots ↦
        rw (no_dot, dots)
          (dropped (codes "..") ((bytes_eq_iff (before_slash s) (codes "..")).0 dots))
    | inr no_dots ↦ rw (no_dot, no_dots) refl
  ]
]
  where
    dropped : (t : Bytes) → before_slash s ≡ t → drop_bytes (length t) s ≡ from_slash s
    dropped t e =
        ap (drop_bytes (length t)) (sym (before-from_slash s) ∙ ap (λ x. x ++ from_slash s) e)
        ∙ drop_bytes-append t (from_slash s)

at_last_slash-none : (s : Bytes) → HasNoSlash s → at_last_slash s ≡ none
unfolding at_last_slash
at_last_slash-none [] h = refl
at_last_slash-none (c ∷ s) (hc, h) = rw (at_last_slash-none s h, hc, at_last_slash) refl

pub at_last_slash-some : (t s : Bytes) → HasNoSlash s → at_last_slash (t ++ b'/' ∷ s) ≡ some (t, s)
unfolding at_last_slash
at_last_slash-some [] s h = rw (at_last_slash-none s h, at_last_slash) refl
at_last_slash-some (c ∷ t) s h = rw (at_last_slash-some t s h, at_last_slash) refl

erase-joined :
    (stack : List Bytes)
    → All HasNoSlash stack
    → erase_component (joined stack) ≡ joined (go_up stack)
unfolding joined go_up erase_component
erase-joined [] h = unfold at_last_slash in refl
erase-joined (s ∷ stack) (hs, h) = rw (at_last_slash-some (joined stack) s hs, erase_component) refl

result_after_lem :
    (s : Bytes) (stack : List Bytes)
    → All HasNoSlash stack
    → result_after s (joined stack) ≡ joined (go_to s stack)
unfolding result_after go_to
result_after_lem s stack h = elim (Bool-cases (bytes_eq s (codes "."))) [
  | inl dot ↦ rw dot refl
  | inr no_dot ↦ elim (Bool-cases (bytes_eq s (codes ".."))) [
    | inl dots ↦ rw (no_dot, dots) (erase-joined stack h)
    | inr no_dots ↦ rw (no_dot, no_dots) (unfold joined in refl)
  ]
]

go_up-HasNoSlash : (stack : List Bytes) → All HasNoSlash stack → All HasNoSlash (go_up stack)
unfolding go_up
go_up-HasNoSlash [] h = tt
go_up-HasNoSlash (s ∷ stack) h = h.1

go_to-HasNoSlash :
    (s : Bytes) (stack : List Bytes)
    → HasNoSlash s
    → All HasNoSlash stack
    → All HasNoSlash (go_to s stack)
unfolding go_to
go_to-HasNoSlash s stack hs h = elim (Bool-cases (bytes_eq s (codes "."))) [
  | inl dot ↦ rw dot h
  | inr no_dot ↦ elim (Bool-cases (bytes_eq s (codes ".."))) [
    | inl dots ↦ rw (no_dot, dots) (go_up-HasNoSlash stack h)
    | inr no_dots ↦ rw (no_dot, no_dots) (hs, h)
  ]
]

first_segment :
    (c : ℕ) (s : Bytes)
    → (c == b'/') ≡ false
    → segments (c ∷ s) ≡ before_slash (c ∷ s) ∷ segments (from_slash (c ∷ s))
unfolding segments before_slash with_segment segments_from
first_segment c s h = segments_from-slash [] (c ∷ s) ∙ rw h refl

length-behind : (c : ℕ) (s : Bytes) → (c == b'/') ≡ false → length (from_slash (c ∷ s)) ≤ length s
unfolding from_slash
length-behind c s h = rw h (length-from_slash s)

canon_loop_lem :
    (rounds : ℕ) (s : Bytes) (stack : List Bytes)
    → length s < rounds
    → IsSkipped s
    → All HasNoSlash stack
    → canon_loop rounds s (joined stack) ≡ joined (resolve stack (segments s))
unfolding canon_loop
canon_loop_lem zero s stack enough skipped h = absurd (omega arith)
canon_loop_lem (suc rounds) [] stack enough skipped h =
    unfold segments segments_from with_segment resolve in refl
canon_loop_lem (suc rounds) (c ∷ s) stack enough skipped h =
    let component = before_slash (c ∷ s) in
    let behind = from_slash (c ∷ s) in
    let shorter : length (skip_slashes behind) < rounds =
      omega (arith, length-skip_slashes behind, length-behind c s skipped) in
    rw (remaining_after_lem (c ∷ s), result_after_lem component stack h)
      (canon_loop_lem rounds (skip_slashes behind) (go_to component stack) shorter
          (skip_slashes-IsSkipped behind)
          (go_to-HasNoSlash component stack (before_slash-HasNoSlash (c ∷ s)) h)
        ∙ rw (segments-skip_slashes behind, first_segment c s skipped) (unfold resolve in refl))

-- The loop of `canonPathInner` against the components.
pub canonical_text_lem : (path : Bytes) → canonical_text path ≡ printed (resolve [] (segments path))
unfolding canonical_text printed
canonical_text_lem path =
    let looped : canon_loop (length path + 1) (skip_slashes path) []
        ≡ joined (resolve [] (segments path)) =
      unfold joined in
      canon_loop_lem (length path + 1) (skip_slashes path) []
        (omega (arith, length-skip_slashes path)) (skip_slashes-IsSkipped path) tt
      ∙ rw (segments-skip_slashes path) refl in
    rw looped refl

-- `absPathPure` fails its assertion exactly on the empty path. It gives any other the text of its
-- components, with `.` and empty ones left out and `..` taking the component before it away, or `/` if
-- none is left.
pub abs_path_pure_lem :
    (path : Bytes)
    → abs_path_pure path
      ≡ (if bytes_eq path [] then err assertion else ok (printed (resolve [] (segments path))))
unfolding abs_path_pure bytes_eq
abs_path_pure_lem [] = refl
abs_path_pure_lem (c ∷ path) = ap ok (canonical_text_lem (c ∷ path))
