-- ===== src/References/Stream.antt =====
-- Theorems on what a `RewritingSink` passes on and finds, whatever fragments it is given.
use nixstore_arch.Prelude.{
  ℕ, zero, suc, ◌+◌, ◌-◌, ◌%◌, ◌^◌, ◌≤◌, ◌<◌, ◌≡◌, ◌∙◌, ◌⊎◌, inl, inr, refl, sym, ap, false,
  Bool-cases, List, [], ◌∷◌, ◌++◌, append-nil, append_assoc, Bytes, length, length-append, ◌==◌,
  ltb, if◌then◌else◌, bytes_eq, bytes_eq_iff, arith,
}
use nixstore_arch.CanonPath.{take_bytes, drop_bytes}
use nixstore_arch.References.{
  rewrite_strings, RewritingSink, new_sink, longest, kept_back, write, flush, feed,
}
use nixstore_arch.References.Rewriting.{
  rewritten, found, rewritten-resume, found-resume, rewritten_short, found_short, length-rewritten,
  length-drop_bytes,
}

-- All that was written to a sink.
unfoldable pub concat : List Bytes → Bytes
concat [] = []
concat (fragment ∷ fragments) = fragment ++ concat fragments

-- How much of a text is passed on: all but what may begin a match, or nothing.
abbrev IsPassed : ℕ → ℕ → ℕ → Type 0
IsPassed max size k = (size + 1 ≡ max + k) ⊎ ((size < max) × (k ≡ 0))

kept_back-cases :
    (max : ℕ) (s : Bytes)
    → 0 < max
    → (k : ℕ) × (kept_back max s ≡ drop_bytes k s)
      × (length s - length (kept_back max s) ≡ k)
      × IsPassed max (length s) k
unfolding kept_back
kept_back-cases max s positive = elim (Bool-cases (ltb (length s) max)) [
  | inl small ↦ (
    0,
    rw small (unfold drop_bytes in refl),
    rw small (omega arith),
    inr (ground (arith, small), refl),
  )
  | inr large ↦
      let some_room : (max == 0) ≡ false = ground arith in
      let k = length s - max + 1 in
      let fits : max ≤ length s = ground (arith, large) in
      (
        k,
        rw (large, some_room) refl,
        rw (large, some_room) (omega (arith, length-drop_bytes k s)),
        inl (omega arith),
      )
]

length-take_bytes : (n : ℕ) (s : Bytes) → n ≤ length s → length (take_bytes n s) ≡ n
unfolding take_bytes
length-take_bytes zero s h = refl
length-take_bytes (suc n) [] h = absurd (omega arith)
length-take_bytes (suc n) (c ∷ s) h = omega (arith, length-take_bytes n s)

passed_on :
    (n : ℕ) (s w : Bytes) → (if n == 0 then w else w ++ take_bytes n s) ≡ w ++ take_bytes n s
unfolding take_bytes
passed_on zero s w = sym (append-nil w)
passed_on (suc n) s w = let e : (suc n == 0) ≡ false = ground arith in rw e refl

module _ (from to : Bytes) (filled : 0 < length from) (sized : length to ≡ length from)
    (differ : bytes_eq from to ≡ false) where
  abbrev all_rewritten : Bytes → Bytes
  all_rewritten s = rewritten from to filled sized s

  abbrev all_found : ℕ → Bytes → List ℕ
  all_found pos s = found from to filled sized pos s

  one_rewrite :
      (pos : ℕ) (s : Bytes)
      → rewrite_strings ((from, to) ∷ []) pos s ≡ (all_rewritten s, all_found pos s)
  unfolding rewrite_strings
  one_rewrite pos s = rw differ (ap (λ x. (all_rewritten s, x)) (append-nil (all_found pos s)))

  -- A sink that was given `s` so far, and what it makes of more.
  abbrev Follows : Bytes → RewritingSink → Type 0
  Follows s sink =
      (sink.rewrites ≡ (from, to) ∷ [])
      × (sink.max_rewrite_size ≡ length from)
      × (length sink.prev < length from)
      × (sink.pos ≡ length sink.written % 2 ^ 64)
      × ((t : Bytes) → sink.written ++ all_rewritten (sink.prev ++ t) ≡ all_rewritten (s ++ t))
      × ((t : Bytes) → sink.matches ++ all_found sink.pos (sink.prev ++ t) ≡ all_found 0 (s ++ t))

  resumed :
      (k : ℕ) (s t : Bytes)
      → IsPassed (length from) (length s) k
      → all_rewritten (s ++ t)
        ≡ take_bytes k (all_rewritten s) ++ all_rewritten (drop_bytes k (all_rewritten s) ++ t)
  unfolding take_bytes drop_bytes
  resumed k s t (inl room) = rewritten-resume from to filled sized k s t room
  resumed k s t (inr (small, none)) =
      rw none (rw (rewritten_short from to filled sized s small) refl)

  found_on :
      (k pos : ℕ) (s t : Bytes)
      → IsPassed (length from) (length s) k
      → pos < 2 ^ 64
      → all_found pos (s ++ t)
        ≡ all_found pos s ++ all_found ((pos + k) % 2 ^ 64) (drop_bytes k (all_rewritten s) ++ t)
  unfolding drop_bytes
  found_on k pos s t (inl room) fits = found-resume from to filled sized k pos s t room fits
  found_on k pos s t (inr (small, none)) fits =
      let here : (pos + 0) % 2 ^ 64 ≡ pos = omega arith in
      rw none (
        rw
          (
            here,
            rewritten_short from to filled sized s small,
            found_short from to filled sized pos s small,
          )
          refl)

  -- The text that a fragment makes with what was kept back.
  abbrev joint : Bytes → RewritingSink → Bytes
  joint t sink = all_rewritten (sink.prev ++ t)

  -- The sink behind a fragment, of which `k` bytes are passed on.
  write_lem :
      (k : ℕ) (t : Bytes) (sink : RewritingSink)
      → sink.rewrites ≡ (from, to) ∷ []
      → sink.max_rewrite_size ≡ length from
      → kept_back (length from) (joint t sink) ≡ drop_bytes k (joint t sink)
      → length (joint t sink) - length (kept_back (length from) (joint t sink)) ≡ k
      → write t sink ≡ record {
        rewrites = sink.rewrites;
        max_rewrite_size = sink.max_rewrite_size;
        prev = drop_bytes k (joint t sink);
        pos = (sink.pos + k) % 2 ^ 64;
        matches = sink.matches ++ all_found sink.pos (sink.prev ++ t);
        written = sink.written ++ take_bytes k (joint t sink);
      }
  unfolding write
  write_lem k t sink only size back consumed =
      rw (only, size)
        (rw (one_rewrite sink.pos (sink.prev ++ t))
          (rw consumed (rw back (rw (passed_on k (joint t sink) sink.written) refl))))

  write-Follows :
      (s t : Bytes) (sink : RewritingSink) → Follows s sink → Follows (s ++ t) (write t sink)
  write-Follows s t sink (only, size, small, at_pos, text, places) =
      let u = joint t sink in
      let same : length u ≡ length (sink.prev ++ t) =
        length-rewritten from to filled sized (length (sink.prev ++ t)) (sink.prev ++ t) refl in
      let (k, back, consumed, passed) = kept_back-cases (length from) u filled in
      let passed' : IsPassed (length from) (length (sink.prev ++ t)) k = rw same at passed in
      let dropped : length (drop_bytes k u) ≡ length u - k = length-drop_bytes k u in
      let within : k ≤ length u = ground (arith, passed, filled) in
      let taken : length (take_bytes k u) ≡ k = length-take_bytes k u within in
      let fits : sink.pos < 2 ^ 64 = omega (arith, at_pos) in
      rw (write_lem k t sink only size back consumed) (
        only,
        size,
        ground (arith, dropped, passed, filled),
        omega (arith, at_pos, length-append sink.written (take_bytes k u), taken),
        (λ t'.
            append_assoc sink.written (take_bytes k u) _
            ∙ ap (λ x. sink.written ++ x) (sym (resumed k (sink.prev ++ t) t' passed'))
            ∙ rw (append_assoc sink.prev t t', append_assoc s t t') (text (t ++ t'))),
        λ t'.
            append_assoc sink.matches (all_found sink.pos (sink.prev ++ t)) _
            ∙ ap (λ x. sink.matches ++ x)
                (sym (found_on k sink.pos (sink.prev ++ t) t' passed' fits))
            ∙ rw (append_assoc sink.prev t t', append_assoc s t t') (places (t ++ t')),
      )

  feed-Follows :
      (s : Bytes) (fragments : List Bytes) (sink : RewritingSink)
      → Follows s sink
      → Follows (s ++ concat fragments) (feed fragments sink)
  unfolding concat feed
  feed-Follows s [] sink follows = rw (append-nil s) follows
  feed-Follows s (t ∷ fragments) sink follows =
      rw (append_assoc s t (concat fragments)) at
        (feed-Follows (s ++ t) fragments (write t sink) (write-Follows s t sink follows))

  new_sink-Follows : Follows [] (new_sink ((from, to) ∷ []))
  unfolding new_sink longest
  new_sink-Follows = (refl, ground arith, filled, refl, (λ t. refl), λ t. refl)

  flush_lem :
      (sink : RewritingSink)
      → ((flush sink).written ≡ sink.written ++ sink.prev)
        × ((flush sink).matches ≡ sink.matches)
        × (sink.pos ≡ length sink.written % 2 ^ 64
            → (flush sink).pos ≡ length (sink.written ++ sink.prev) % 2 ^ 64)
  unfolding flush
  flush_lem sink = elim (Bool-cases (bytes_eq sink.prev [])) [
    | inl empty ↦
        let nothing = (bytes_eq_iff sink.prev []).0 empty in
        rw empty (rw nothing (rw (append-nil sink.written) (refl, refl, λ e. e)))
    | inr full ↦ rw full (refl, refl, λ e. omega (arith, e, length-append sink.written sink.prev))
  ]

  -- A `RewritingSink` that replaces one text, which is not empty, by another one of the same length,
  -- passes on, when it is flushed, the whole of what was written to it as `rewriteStrings` rewrites
  -- it, has found the positions that `rewriteStrings` finds, and counts the bytes in a word of 64 bits,
  -- however it was cut in fragments.
  pub feed_lem :
      (fragments : List Bytes)
      → ((flush (feed fragments (new_sink ((from, to) ∷ [])))).written
          ≡ (rewrite_strings ((from, to) ∷ []) 0 (concat fragments)).0)
        × ((flush (feed fragments (new_sink ((from, to) ∷ [])))).matches
            ≡ (rewrite_strings ((from, to) ∷ []) 0 (concat fragments)).1)
        × ((flush (feed fragments (new_sink ((from, to) ∷ [])))).pos
            ≡ length (concat fragments) % 2 ^ 64)
  feed_lem fragments =
      let sink = feed fragments (new_sink ((from, to) ∷ [])) in
      let s = concat fragments in
      let (only, size, small, at_pos, text, places) =
        feed-Follows [] fragments (new_sink ((from, to) ∷ [])) new_sink-Follows in
      let whole : sink.written ++ sink.prev ≡ all_rewritten s =
        rw
          (append-nil sink.prev, append-nil s, rewritten_short from to filled sized sink.prev small)
          at (text []) in
      let positions : sink.matches ≡ all_found 0 s =
        sym (append-nil sink.matches)
        ∙ rw
            (
              append-nil sink.prev,
              append-nil s,
              found_short from to filled sized sink.pos sink.prev small,
            )
            at (places []) in
      let (passed, kept, counted) = flush_lem sink in
      (
        passed ∙ whole ∙ sym (ap (λ x. x.0) (one_rewrite 0 s)),
        kept ∙ positions ∙ sym (ap (λ x. x.1) (one_rewrite 0 s)),
        counted at_pos
            ∙ rw whole (rw (length-rewritten from to filled sized (length s) s refl) refl),
      )
