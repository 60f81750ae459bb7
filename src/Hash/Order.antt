-- ===== src/Hash/Order.antt =====
-- Theorems on `operator==` and `operator<=>` of hashes.
use nixstore_arch.Prelude.{ℕ, ◌≡◌, ◌↔◌, refl, [], ◌∷◌, Bytes, length, true, arith}
use nixstore_arch.Hash.{
  Hash, equal_bytes, hash_eq, StrongOrdering, less, equivalent, greater, three_way, or_else,
  compare_bytes, hash_compare, algo_code,
}
use nixstore_arch.Hash.Names.{algo_code-injective}

three_way_iff : (a b : ℕ) → (three_way a b ≡ equivalent) ↔ (a ≡ b)
unfolding three_way
three_way_iff a b = ground arith

or_else_iff :
    (o o' : StrongOrdering) → (or_else o o' ≡ equivalent) ↔ ((o ≡ equivalent) × (o' ≡ equivalent))
unfolding or_else
or_else_iff less o' = ground arith
or_else_iff equivalent o' = ground arith
or_else_iff greater o' = ground arith

equal_bytes_iff : (bs cs : Bytes) → (equal_bytes bs cs ≡ true) ↔ (compare_bytes bs cs ≡ equivalent)
unfolding equal_bytes compare_bytes
equal_bytes_iff [] cs = ground arith
equal_bytes_iff (b ∷ bs) [] = ground arith
equal_bytes_iff (b ∷ bs) (c ∷ cs) = ground (
  arith,
  equal_bytes_iff bs cs,
  or_else_iff (three_way b c) (compare_bytes bs cs),
  three_way_iff b c,
)

-- Two hashes are equivalent for `<=>` exactly if they are equal for `==` and have the same algorithm.
pub hash_compare_iff :
    (h h' : Hash) → (hash_compare h h' ≡ equivalent) ↔ ((hash_eq h h' ≡ true) × (h.algo ≡ h'.algo))
unfolding hash_compare hash_eq
hash_compare_iff h h' =
    let sizes = three_way_iff (length h.hash) (length h'.hash) in
    let algos = three_way_iff (algo_code h.algo) (algo_code h'.algo) in
    let bytes = equal_bytes_iff h.hash h'.hash in
    let inner =
      or_else_iff (compare_bytes h.hash h'.hash)
        (three_way (algo_code h.algo) (algo_code h'.algo)) in
    let outer =
      or_else_iff (three_way (length h.hash) (length h'.hash)) (
        or_else (compare_bytes h.hash h'.hash)
          (three_way (algo_code h.algo) (algo_code h'.algo))) in
    ground (arith, sizes, algos, bytes, inner, outer, algo_code-injective h.algo h'.algo)

-- The order with its arguments swapped.
unfoldable pub reversed : StrongOrdering → StrongOrdering
reversed less = greater
reversed equivalent = equivalent
reversed greater = less

three_way-reversed : (a b : ℕ) → three_way b a ≡ reversed (three_way a b)
unfolding three_way reversed
three_way-reversed a b = ground arith

or_else-reversed :
    (o o' : StrongOrdering) → reversed (or_else o o') ≡ or_else (reversed o) (reversed o')
unfolding or_else reversed
or_else-reversed less o' = refl
or_else-reversed equivalent o' = refl
or_else-reversed greater o' = refl

compare_bytes-reversed : (bs cs : Bytes) → compare_bytes cs bs ≡ reversed (compare_bytes bs cs)
unfolding compare_bytes
compare_bytes-reversed [] [] = unfold reversed in refl
compare_bytes-reversed [] (c ∷ cs) = unfold reversed in refl
compare_bytes-reversed (b ∷ bs) [] = unfold reversed in refl
compare_bytes-reversed (b ∷ bs) (c ∷ cs) =
    rw
      (
        or_else-reversed (three_way b c) (compare_bytes bs cs),
        three_way-reversed b c,
        compare_bytes-reversed bs cs,
      )
      refl

-- `<=>` on hashes gives the opposite when its arguments are swapped.
pub hash_compare-reversed : (h h' : Hash) → hash_compare h' h ≡ reversed (hash_compare h h')
unfolding hash_compare
hash_compare-reversed h h' =
    rw
      (
        three_way-reversed (length h.hash) (length h'.hash),
        compare_bytes-reversed h.hash h'.hash,
        three_way-reversed (algo_code h.algo) (algo_code h'.algo),
        or_else-reversed (three_way (length h.hash) (length h'.hash)) (
            or_else (compare_bytes h.hash h'.hash)
              (three_way (algo_code h.algo) (algo_code h'.algo))),
        or_else-reversed (compare_bytes h.hash h'.hash)
            (three_way (algo_code h.algo) (algo_code h'.algo)),
      )
      refl
