-- ===== src/CanonPath/Tests.antt =====
-- Paths with dots, slashes and components to leave out.
use nixstore_arch.Prelude.{
  ◌≡◌, refl, true, false, [], ◌∷◌, ◌++◌, Bytes, codes, ok, err, bytes_eq, contains, if◌then◌else◌,
  member,
}
use nixstore_arch.CanonPath.{
  take_bytes, drop_bytes, before_slash, from_slash, after_slash, at_last_slash, skip_slashes,
  erase_component, remaining_after, result_after, canon_loop, canonical_text, abs_path_pure,
  assertion, ensure_no_null_bytes, canon_path, starts_with_slash, is_root, rel, elements,
  from_filename, invalid_filename, parent_text, pop, slash_at, is_within, push, push_checked,
  signed_rank, path_lt, lower_bound, parent_allowed, is_allowed, skip_common, separated, climb,
  relative_text, make_relative,
}
use nixstore_arch.CanonPath.Segments.{segments, joined, printed, resolve, abs_path_pure_lem}
use nixstore_arch.CanonPath.Canonical.{IsNormal, IsCanonical}
use nixstore_arch.CanonPath.Relative.{abs_path_pure-make_relative}
use nixstore_arch.CanonPath.Push.{canon_path-IsCanonical, pop-push_checked}

abs_path_pure_example : abs_path_pure (codes "/a/../b") ≡ (
    if bytes_eq (codes "/a/../b") []
    then err assertion
    else ok (printed (resolve [] (segments (codes "/a/../b")))))
abs_path_pure_example = abs_path_pure_lem (codes "/a/../b")

empty_refused : abs_path_pure [] ≡ err assertion
unfolding abs_path_pure bytes_eq
empty_refused = refl

dots_made : canon_path (codes "a/.//../../b/c/") ≡ ok (codes "/b/c")
unfolding canon_path ensure_no_null_bytes contains abs_path_pure canonical_text canon_loop
    before_slash from_slash at_last_slash skip_slashes erase_component remaining_after result_after
    drop_bytes bytes_eq
dots_made = refl

canon_path-IsCanonical_example :
    IsCanonical (codes "/b/c") × (canon_path (codes "/b/c") ≡ ok (codes "/b/c"))
canon_path-IsCanonical_example =
    canon_path-IsCanonical (codes "a/.//../../b/c/") (codes "/b/c") dots_made

pushed : push_checked (codes "/b/c") (codes "d") ≡ ok (codes "/b/c/d")
unfolding push_checked contains bytes_eq ensure_no_null_bytes push is_root
pushed = refl

filled_d : bytes_eq (codes "d") [] ≡ false
unfolding bytes_eq
filled_d = refl

normal : IsNormal (codes "/b/c")
unfolding printed joined bytes_eq
normal = (
  codes "c" ∷ codes "b" ∷ [],
  (((refl, refl, refl), (refl, tt)), (((refl, refl, refl), (refl, tt)), tt)),
  refl,
)

no_null : contains 0 (codes "/b/c") ≡ false
unfolding contains
no_null = refl

pop-push_checked_example : IsCanonical (codes "/b/c/d") × (pop (codes "/b/c/d") ≡ ok (codes "/b/c"))
pop-push_checked_example =
    pop-push_checked (codes "/b/c") (codes "d") (codes "/b/c/d") (normal, no_null) filled_d pushed

no_filename : from_filename (codes "a/b") ≡ err invalid_filename
unfolding from_filename canon_path ensure_no_null_bytes contains abs_path_pure canonical_text
    canon_loop before_slash from_slash after_slash at_last_slash skip_slashes erase_component
    remaining_after result_after drop_bytes bytes_eq rel elements
no_filename = refl

not_within : is_within (codes "/foobar") (codes "/foo") ≡ false
unfolding is_within take_bytes drop_bytes slash_at starts_with_slash bytes_eq
not_within = refl

climbed : make_relative (codes "/a/b/c") (codes "/a/d") ≡ codes "../../d"
unfolding make_relative skip_common rel after_slash before_slash from_slash drop_bytes bytes_eq
    separated climb relative_text
climbed = refl

-- A byte above 127 comes before a slash, so the path between hides the allowed child.
abbrev between : Bytes
between = 47 ∷ 97 ∷ 200 ∷ []

hidden_child : is_allowed (codes "/a") (between ∷ codes "/a/b" ∷ []) ≡ false
unfolding is_allowed lower_bound path_lt signed_rank is_within take_bytes drop_bytes slash_at
    starts_with_slash bytes_eq parent_allowed parent_text at_last_slash is_root member
hidden_child = refl

in_order : path_lt between (codes "/a/b") ≡ true
unfolding path_lt signed_rank
in_order = refl

shown_child : is_allowed (codes "/a") (codes "/a/b" ∷ []) ≡ true
unfolding is_allowed lower_bound path_lt signed_rank is_within take_bytes drop_bytes slash_at
    starts_with_slash bytes_eq parent_allowed parent_text at_last_slash is_root member
shown_child = refl

deeper-IsNormal : IsNormal (codes "/b/d")
unfolding printed joined bytes_eq
deeper-IsNormal = (
  codes "d" ∷ codes "b" ∷ [],
  (((refl, refl, refl), (refl, tt)), (((refl, refl, refl), (refl, tt)), tt)),
  refl,
)

abs_path_pure-make_relative_example :
    abs_path_pure (codes "/b/c" ++ b'/' ∷ make_relative (codes "/b/c") (codes "/b/d"))
    ≡ ok (codes "/b/d")
abs_path_pure-make_relative_example =
    abs_path_pure-make_relative (codes "/b/c") (codes "/b/d") normal deeper-IsNormal
