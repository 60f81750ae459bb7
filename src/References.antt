-- ===== src/References.antt =====
-- src/libstore/references.cc, and `rewriteStrings` of src/libutil/util.cc: a sink that rewrites texts in
-- what is written to it, also across the borders of the fragments it is given. Every text stands for
-- one of the same length, as the constructor asserts.
pub mod Rewriting
pub mod Stream
mod Tests
use nixstore_arch.Prelude.{
  ℕ, zero, suc, ◌+◌, ◌-◌, ◌^◌, ◌%◌, Bool, true, false, List, [], ◌∷◌, ◌++◌, Bytes, length,
  replicate, ltb, leb, ◌==◌, if◌then◌else◌, bytes_eq,
}
use nixstore_arch.CanonPath.{take_bytes, drop_bytes}

unfoldable pub has_prefix : Bytes → Bytes → Bool
has_prefix [] s = true
has_prefix (p ∷ prefix) [] = false
has_prefix (p ∷ prefix) (c ∷ s) = let rest = has_prefix prefix s in if p == c then rest else false

-- `s.replace(j, from.size(), to)`, for a text from position `j` on.
unfoldable pub replaced : Bytes → Bytes → Bytes → Bytes
replaced from to s = if has_prefix from s then to ++ drop_bytes (length from) s else s

-- The loop of `find` for one text, a position a round: the text is replaced where it is found, and the
-- search goes on in what was put there.
unfoldable pub rewrite_one : ℕ → Bytes → Bytes → Bytes → Bytes
rewrite_one zero from to s = s
rewrite_one (suc rounds) from to s = elim (replaced from to s) [
  | [] ↦ []
  | c ∷ rest ↦ c ∷ rewrite_one rounds from to rest
]

-- The positions at which the loop finds the text, from `pos` on.
unfoldable pub match_one : ℕ → Bytes → Bytes → ℕ → Bytes → List ℕ
match_one zero from to pos s = []
match_one (suc rounds) from to pos s = elim (replaced from to s) [
  | [] ↦ []
  | c ∷ rest ↦
      let later = match_one rounds from to ((pos + 1) % 2 ^ 64) rest in
      if has_prefix from s then pos ∷ later else later
]

-- `rewriteStrings`: the text, and the positions.
unfoldable pub rewrite_strings : List (Bytes × Bytes) → ℕ → Bytes → Bytes × List ℕ
rewrite_strings [] offset_shift s = (s, [])
rewrite_strings ((from, to) ∷ rewrites) offset_shift s =
    if bytes_eq from to
    then rewrite_strings rewrites offset_shift s
    else (let rest = rewrite_strings rewrites offset_shift (rewrite_one (length s) from to s) in
        (rest.0, match_one (length s) from to offset_shift s ++ rest.1))

-- `RewritingSink`; `written` is what the next sink got.
pub record RewritingSink : Type 0 where
  pub rewrites : List (Bytes × Bytes)
  pub max_rewrite_size : ℕ
  pub prev : Bytes
  pub pos : ℕ
  pub matches : List ℕ
  pub written : Bytes

unfoldable pub longest : List (Bytes × Bytes) → ℕ
longest [] = 0
longest ((from, to) ∷ rewrites) =
    if ltb (longest rewrites) (length from) then length from else longest rewrites

-- `RewritingSink::RewritingSink`
unfoldable pub new_sink : List (Bytes × Bytes) → RewritingSink
new_sink rewrites = record {
  rewrites = rewrites;
  max_rewrite_size = longest rewrites;
  prev = [];
  pos = 0;
  matches = [];
  written = [];
}

-- What is kept back of a text, of which the last bytes may begin a match.
unfoldable pub kept_back : ℕ → Bytes → Bytes
kept_back max s =
    if ltb (length s) max then s else if max == 0 then [] else drop_bytes (length s - max + 1) s

-- `RewritingSink::operator()`
unfoldable pub write : Bytes → RewritingSink → RewritingSink
write fragment sink =
    let (s, found) = rewrite_strings sink.rewrites sink.pos (sink.prev ++ fragment) in
    let prev' = kept_back sink.max_rewrite_size s in
    let consumed = length s - length prev' in
    record {
      rewrites = sink.rewrites;
      max_rewrite_size = sink.max_rewrite_size;
      prev = prev';
      pos = (sink.pos + consumed) % 2 ^ 64;
      matches = sink.matches ++ found;
      written = if consumed == 0 then sink.written else sink.written ++ take_bytes consumed s;
    }

-- `RewritingSink::flush`
unfoldable pub flush : RewritingSink → RewritingSink
flush sink = if bytes_eq sink.prev [] then sink else record {
  rewrites = sink.rewrites;
  max_rewrite_size = sink.max_rewrite_size;
  prev = [];
  pos = (sink.pos + length sink.prev) % 2 ^ 64;
  matches = sink.matches;
  written = sink.written ++ sink.prev;
}

-- The calls of a client.
unfoldable pub feed : List Bytes → RewritingSink → RewritingSink
feed [] sink = sink
feed (fragment ∷ fragments) sink = feed fragments (write fragment sink)

-- `HashModuloSink`: the hash sees the text with zeros for the modulus, and then where they stand.
-- The hash of a text and the form of a number are parameters.
module _ (hash_text : Bytes → Bytes) (format_position : ℕ → Bytes) where
  unfoldable pub new_modulo_sink : Bytes → RewritingSink
  new_modulo_sink modulus = new_sink ((modulus, replicate (length modulus) 0) ∷ [])

  unfoldable pub positions_text : List ℕ → Bytes
  positions_text [] = []
  positions_text (pos ∷ matches) = format_position pos ++ positions_text matches

  -- `HashModuloSink::finish`: the hash, and how many bytes were written.
  unfoldable pub finish_modulo : RewritingSink → Bytes × ℕ
  finish_modulo sink =
      let flushed = flush sink in
      (hash_text (flushed.written ++ positions_text flushed.matches), flushed.pos)
