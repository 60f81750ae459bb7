-- ===== src/References/Tests.antt =====
-- A text that lies across three fragments.
use nixstore_arch.Prelude.{
  ◌%◌, ◌^◌, length, arith, ◌≡◌, refl, List, [], ◌∷◌, Bytes, codes, false, bytes_eq,
}
use nixstore_arch.CanonPath.{take_bytes, drop_bytes}
use nixstore_arch.References.{
  has_prefix, replaced, rewrite_one, match_one, rewrite_strings, new_sink, longest, kept_back,
  write, flush, feed,
}
use nixstore_arch.References.Stream.{concat, feed_lem}

abbrev fragments : List Bytes
fragments = codes "xa" ∷ codes "b" ∷ codes "cabca" ∷ []

differ : bytes_eq (codes "abc") (codes "zzz") ≡ false
unfolding bytes_eq
differ = refl

feed_example :
    ((flush (feed fragments (new_sink ((codes "abc", codes "zzz") ∷ [])))).written
      ≡ (rewrite_strings ((codes "abc", codes "zzz") ∷ []) 0 (concat fragments)).0)
    × ((flush (feed fragments (new_sink ((codes "abc", codes "zzz") ∷ [])))).matches
        ≡ (rewrite_strings ((codes "abc", codes "zzz") ∷ []) 0 (concat fragments)).1)
    × ((flush (feed fragments (new_sink ((codes "abc", codes "zzz") ∷ [])))).pos
        ≡ length (concat fragments) % 2 ^ 64)
feed_example = feed_lem (codes "abc") (codes "zzz") (omega arith) refl differ fragments

both_found : (feed fragments (new_sink ((codes "abc", codes "zzz") ∷ []))).matches ≡ 1 ∷ 4 ∷ []
unfolding feed write new_sink longest rewrite_strings rewrite_one match_one replaced has_prefix
    kept_back take_bytes drop_bytes bytes_eq
both_found = refl

both_rewritten :
    (rewrite_strings ((codes "abc", codes "zzz") ∷ []) 0 (concat fragments)).0 ≡ codes "xzzzzzza"
unfolding rewrite_strings rewrite_one match_one replaced has_prefix drop_bytes bytes_eq concat
both_rewritten = refl

-- The new text takes part in a further match.
found_again :
    (flush (feed (codes "ab" ∷ codes "b" ∷ []) (new_sink ((codes "ab", codes "ba") ∷ [])))).written
    ≡ codes "bba"
unfolding feed write flush new_sink longest rewrite_strings rewrite_one match_one replaced
    has_prefix kept_back take_bytes drop_bytes bytes_eq
found_again = refl
