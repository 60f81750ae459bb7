-- ===== src/CanonPath/Relative.antt =====
-- Theorems on `makeRelative`.
use nixstore_arch.Prelude.{
  ◌⊎◌, ℕ, zero, suc, ◌≤◌, ◌≡◌, ◌∙◌, refl, sym, ap, true, false, Bool-cases, inl, inr, List, [], ◌∷◌,
  ◌++◌, append-nil, append_assoc, Bytes, codes, length, All, if◌then◌else◌, bytes_eq, bytes_eq_iff,
  ok, arith,
}
use mathlib.Core.List.{reverse}
use nixstore_arch.CanonPath.{
  drop_bytes, before_slash, after_slash, abs_path_pure, rel, skip_common, separated, climb,
  relative_text, make_relative,
}
use nixstore_arch.CanonPath.Segments.{
  segments, segments_from, with_segment, go_up, go_to, resolve, printed, canonical_text_lem,
}
use nixstore_arch.CanonPath.Canonical.{
  IsSegment, IsNormal, segments-append, segments-nil, resolve-append, segments-printed,
  resolve-reverse, appended-filled,
}
use nixstore_arch.CanonPath.Inner.{
  inner, before_slash-inner, after_slash-inner, inner-filled, segments-inner, length-inner,
  rel-printed, reverse-All,
}

skip_common-filled :
    (rounds : ℕ) (p p' : Bytes) (c d : ℕ) (rest rest' : Bytes)
    → p ≡ c ∷ rest
    → p' ≡ d ∷ rest'
    → skip_common (suc rounds) p p' ≡ (
        if bytes_eq (before_slash p) (before_slash p')
        then skip_common rounds (after_slash p) (after_slash p')
        else (p, p'))
unfolding skip_common
skip_common-filled rounds p p' c d rest rest' e e' = rw (e, e') refl

skip_common-segments :
    (rounds : ℕ) (x : Bytes) (xs : List Bytes) (y : Bytes) (ys : List Bytes)
    → IsSegment x
    → IsSegment y
    → skip_common (suc rounds) (inner (x ∷ xs)) (inner (y ∷ ys)) ≡ (
        if bytes_eq x y
        then skip_common rounds (inner xs) (inner ys)
        else (inner (x ∷ xs), inner (y ∷ ys)))
skip_common-segments rounds x xs y ys hx hy =
    let (c, rest, e) = inner-filled x xs hx.0.0 in
    let (d, rest', e') = inner-filled y ys hy.0.0 in
    skip_common-filled rounds (inner (x ∷ xs)) (inner (y ∷ ys)) c d rest rest' e e'
    ∙ rw
        (
          before_slash-inner x xs hx.1,
          before_slash-inner y ys hy.1,
          after_slash-inner x xs hx.1,
          after_slash-inner y ys hy.1,
        )
        refl

-- What is left of two lists behind their common components.
record Common (xs ys : List Bytes) (left : Bytes × Bytes) : Type 0 where
  shared : List Bytes
  more : List Bytes
  more' : List Bytes
  first : xs ≡ shared ++ more
  second : ys ≡ shared ++ more'
  texts : left ≡ (inner more, inner more')
  fine : All IsSegment more × All IsSegment more'

skip_common-Common :
    (rounds : ℕ) (xs ys : List Bytes)
    → All IsSegment xs
    → All IsSegment ys
    → length xs ≤ rounds
    → Common xs ys (skip_common rounds (inner xs) (inner ys))
skip_common-Common zero [] ys h h' enough = record {
  shared = [];
  more = [];
  more' = ys;
  first = refl;
  second = refl;
  texts = unfold skip_common in refl;
  fine = (h, h');
}
skip_common-Common zero (x ∷ xs) ys h h' enough = absurd (omega arith)
skip_common-Common (suc rounds) [] ys h h' enough = record {
  shared = [];
  more = [];
  more' = ys;
  first = refl;
  second = refl;
  texts = unfold skip_common inner in refl;
  fine = (h, h');
}
skip_common-Common (suc rounds) (x ∷ xs) [] h h' enough =
    let (c, rest, e) = inner-filled x xs h.0.0.0 in
    record {
      shared = [];
      more = x ∷ xs;
      more' = [];
      first = refl;
      second = refl;
      texts = rw e (unfold skip_common inner in refl);
      fine = (h, h');
    }
skip_common-Common (suc rounds) (x ∷ xs) (y ∷ ys) (hx, h) (hy, h') enough =
    rw (skip_common-segments rounds x xs y ys hx hy)
      (further (Bool-cases (bytes_eq x y)) (skip_common-Common rounds xs ys h h' (omega arith)))
  where
    further :
        (bytes_eq x y ≡ true) ⊎ (bytes_eq x y ≡ false)
        → Common xs ys (skip_common rounds (inner xs) (inner ys))
        → Common (x ∷ xs) (y ∷ ys) (
            if bytes_eq x y
            then skip_common rounds (inner xs) (inner ys)
            else (inner (x ∷ xs), inner (y ∷ ys)))
    further (inl same) rest = rw same (record {
      shared = x ∷ rest.shared;
      more = rest.more;
      more' = rest.more';
      first = ap (λ t. x ∷ t) rest.first;
      second = rw (sym ((bytes_eq_iff x y).0 same)) (ap (λ t. x ∷ t) rest.second);
      texts = rest.texts;
      fine = rest.fine;
    })
    further (inr differ) rest = rw differ (record {
      shared = [];
      more = x ∷ xs;
      more' = y ∷ ys;
      first = refl;
      second = refl;
      texts = refl;
      fine = ((hx, h), (hy, h'));
    })

separated-segments : (res s : Bytes) → segments (separated res ++ s) ≡ segments res ++ segments s
unfolding separated
separated-segments [] s = rw segments-nil refl
separated-segments (c ∷ res) s =
    rw (append_assoc (c ∷ res) (b'/' ∷ []) s) (segments-append (c ∷ res) s)

dots : ℕ → List Bytes
dots zero = []
dots (suc n) = codes ".." ∷ dots n

segments-dots : segments (codes "..") ≡ codes ".." ∷ []
unfolding segments segments_from with_segment
segments-dots = refl

climb-segments :
    (rounds : ℕ) (more : List Bytes) (res : Bytes)
    → All IsSegment more
    → length more ≤ rounds
    → segments (climb rounds (inner more) res) ≡ segments res ++ dots (length more)
unfolding dots
climb-segments zero [] res h enough = unfold climb in sym (append-nil (segments res))
climb-segments zero (x ∷ more) res h enough = absurd (omega arith)
climb-segments (suc rounds) [] res h enough = unfold climb inner in sym (append-nil (segments res))
climb-segments (suc rounds) (x ∷ more) res (hx, h) enough =
    let (c, rest, e) = inner-filled x more hx.0.0 in
    climb-filled (inner (x ∷ more)) c rest e
    ∙ rw (after_slash-inner x more hx.1) (
        climb-segments rounds more (separated res ++ codes "..") h (omega arith)
        ∙ rw (separated-segments res (codes ".."), segments-dots)
            (append_assoc (segments res) (codes ".." ∷ []) (dots (length more))))
  where
    climb-filled :
        (p : Bytes) (c' : ℕ) (rest' : Bytes)
        → p ≡ c' ∷ rest'
        → segments (climb (suc rounds) p res)
          ≡ segments (climb rounds (after_slash p) (separated res ++ codes ".."))
    climb-filled p c' rest' e' = rw e' (unfold climb in refl)

-- Going down and up again.
dots-snoc : (n : ℕ) → dots (suc n) ≡ dots n ++ codes ".." ∷ []
unfolding dots
dots-snoc zero = refl
dots-snoc (suc n) = ap (λ t. codes ".." ∷ t) (dots-snoc n)

go_to-dots : (stack : List Bytes) → go_to (codes "..") stack ≡ go_up stack
unfolding go_to bytes_eq
go_to-dots stack = refl

go_to-fine : (s : Bytes) (stack : List Bytes) → IsSegment s → go_to s stack ≡ s ∷ stack
unfolding go_to
go_to-fine s stack h = rw (h.0.1, h.0.2) refl

down_and_up :
    (more stack : List Bytes)
    → All IsSegment more
    → resolve stack (more ++ dots (length more)) ≡ stack
unfolding resolve
down_and_up [] stack h = unfold dots in refl
down_and_up (s ∷ more) stack (hs, h) =
    ap (resolve (go_to s stack)) (
      ap (λ t. more ++ t) (dots-snoc (length more))
      ∙ sym (append_assoc more (dots (length more)) (codes ".." ∷ [])))
    ∙ resolve-append (go_to s stack) (more ++ dots (length more)) (codes ".." ∷ [])
    ∙ rw (down_and_up more (go_to s stack) h)
        (go_to-dots (go_to s stack) ∙ rw (go_to-fine s stack hs) (unfold go_up in refl))

relative_text-right : (p' : Bytes) (d : ℕ) (rest : Bytes) → p' ≡ d ∷ rest → relative_text [] p' ≡ p'
unfolding relative_text
relative_text-right p' d rest e = rw e refl

relative_text-left :
    (p : Bytes) (c : ℕ) (rest : Bytes) → p ≡ c ∷ rest → relative_text p [] ≡ climb (length p) p []
unfolding relative_text
relative_text-left p c rest e = rw e refl

relative_text-both :
    (p p' : Bytes) (c d : ℕ) (rest rest' : Bytes)
    → p ≡ c ∷ rest
    → p' ≡ d ∷ rest'
    → relative_text p p' ≡ separated (climb (length p) p []) ++ p'
unfolding relative_text
relative_text-both p p' c d rest rest' e e' = rw (e, e') refl

climb-dots :
    (more : List Bytes)
    → All IsSegment more
    → segments (climb (length (inner more)) (inner more) []) ≡ dots (length more)
climb-dots more h =
    climb-segments (length (inner more)) more [] h (length-inner more h) ∙ rw segments-nil refl

-- The relative text leads from the end of one list to the end of the other.
relative_text-resolve :
    (more more' stack : List Bytes)
    → All IsSegment more
    → All IsSegment more'
    → resolve stack (more ++ segments (relative_text (inner more) (inner more')))
      ≡ resolve stack more'
relative_text-resolve [] [] stack h h' =
    unfold inner relative_text segments segments_from with_segment resolve go_to bytes_eq in refl
relative_text-resolve [] (t ∷ more') stack h h' =
    let (d, rest, e) = inner-filled t more' h'.0.0.0 in
    let right : relative_text (inner []) (inner (t ∷ more')) ≡ inner (t ∷ more') =
      unfold inner in relative_text-right (inner (t ∷ more')) d rest e in
    ap (λ p. resolve stack (segments p)) right ∙ rw (segments-inner (t ∷ more') h') refl
relative_text-resolve (s ∷ more) [] stack h h' =
    let (c, rest, e) = inner-filled s more h.0.0.0 in
    let left : relative_text (inner (s ∷ more)) (inner [])
        ≡ climb (length (inner (s ∷ more))) (inner (s ∷ more)) [] =
      unfold inner in relative_text-left (inner (s ∷ more)) c rest e in
    ap (λ p. resolve stack (s ∷ more ++ segments p)) left
    ∙ rw (climb-dots (s ∷ more) h) (down_and_up (s ∷ more) stack h ∙ unfold resolve in refl)
relative_text-resolve (s ∷ more) (t ∷ more') stack h h' =
    let (c, rest, e) = inner-filled s more h.0.0.0 in
    let (d, rest', e') = inner-filled t more' h'.0.0.0 in
    let climbed = climb (length (inner (s ∷ more))) (inner (s ∷ more)) [] in
    let parts : segments (relative_text (inner (s ∷ more)) (inner (t ∷ more')))
        ≡ dots (length (s ∷ more)) ++ t ∷ more' =
      ap segments (relative_text-both (inner (s ∷ more)) (inner (t ∷ more')) c d rest rest' e e')
      ∙ separated-segments climbed (inner (t ∷ more'))
      ∙ rw (climb-dots (s ∷ more) h, segments-inner (t ∷ more') h') refl in
    ap (λ x. resolve stack (s ∷ more ++ x)) parts
    ∙ ap (resolve stack) (sym (append_assoc (s ∷ more) (dots (length (s ∷ more))) (t ∷ more')))
    ∙ resolve-append stack (s ∷ more ++ dots (length (s ∷ more))) (t ∷ more')
    ∙ ap (λ x. resolve x (t ∷ more')) (down_and_up (s ∷ more) stack h)

length-rel : (path : Bytes) → length (rel path) ≤ length path
unfolding rel drop_bytes
length-rel [] = omega arith
length-rel (c ∷ path) = omega arith

-- Behind the common components.
Common-resolve :
    (xs ys : List Bytes) (left : Bytes × Bytes)
    → Common xs ys left
    → resolve [] (xs ++ segments (relative_text left.0 left.1)) ≡ resolve [] ys
Common-resolve xs ys left common =
    let text = segments (relative_text (inner common.more) (inner common.more')) in
    ap (λ (t : Bytes × Bytes). resolve [] (xs ++ segments (relative_text t.0 t.1))) common.texts
    ∙ ap (λ t. resolve [] (t ++ text)) common.first
    ∙ ap (resolve []) (append_assoc common.shared common.more text)
    ∙ resolve-append [] common.shared (common.more ++ text)
    ∙ relative_text-resolve common.more common.more' (resolve [] common.shared) common.fine.0
        common.fine.1
    ∙ sym (resolve-append [] common.shared common.more')
    ∙ ap (resolve []) (sym common.second)

-- From one path in canonical form, the text that `makeRelative` gives leads to the other one, whether
-- they have null bytes or not.
pub abs_path_pure-make_relative :
    (path x : Bytes)
    → IsNormal path
    → IsNormal x
    → abs_path_pure (path ++ b'/' ∷ make_relative path x) ≡ ok x
unfolding make_relative abs_path_pure
abs_path_pure-make_relative path x (stack, h, e) (stack', h', e') =
    let xs = reverse stack in
    let ys = reverse stack' in
    let hx = reverse-All stack h in
    let left : rel path ≡ inner xs = ap rel e ∙ rel-printed stack in
    let right : rel x ≡ inner ys = ap rel e' ∙ rel-printed stack' in
    let rounds : length xs ≤ length path =
      omega (arith, length-rel path, ap length left, length-inner xs hx) in
    let common : Common xs ys (skip_common (length path) (rel path) (rel x)) =
      rw (left, right) (skip_common-Common (length path) xs ys hx (reverse-All stack' h') rounds) in
    let rest = skip_common (length path) (rel path) (rel x) in
    let start : segments path ≡ xs = ap segments e ∙ segments-printed stack h in
    rw (appended-filled path (relative_text rest.0 rest.1)) (
      ap ok (
        canonical_text_lem (path ++ b'/' ∷ relative_text rest.0 rest.1)
        ∙ ap (λ t. printed (resolve [] t))
            (segments-append path (relative_text rest.0 rest.1)
              ∙ ap (λ t. t ++ segments (relative_text rest.0 rest.1)) start)
        ∙ ap printed (Common-resolve xs ys rest common ∙ resolve-reverse stack' h')
        ∙ sym e'))
