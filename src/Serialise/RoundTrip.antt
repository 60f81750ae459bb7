-- ===== src/Serialise/RoundTrip.antt =====
-- Theorems on reading what serialise.cc wrote.
use nixstore_arch.Prelude.{
  ℕ, zero, suc, ◌-◌, ◌/◌, ◌%◌, ◌^◌, ◌≤◌, ◌<◌, ◌≡◌, refl, ap, Bool, true, not, List, [], ◌∷◌, ◌++◌,
  append_assoc, Bytes, length, replicate, length-replicate, All, ltb, ◌==◌, Bool-cases, inl, inr,
  ok, err, arith,
}
use native.Mathlib.Nat.{pow-suc}
use nixstore_arch.Serialise.{
  Error, le_bytes, write_num, le_num, read_exact, read_num, u64_max, padding, write_padding,
  write_string, all_zero, read_padding, read_string, write_each, write_strings, read_each,
  read_strings,
}

pub length-le_bytes : (k n : ℕ) → length (le_bytes k n) ≡ k
unfolding le_bytes
length-le_bytes zero n = refl
length-le_bytes (suc k) n = ap suc (length-le_bytes k (n / 256))

le_num-le_bytes : (k n : ℕ) → n < 256 ^ k → le_num (le_bytes k n) ≡ n
unfolding le_bytes le_num
le_num-le_bytes zero n h = omega arith
le_num-le_bytes (suc k) n h =
    omega (arith, le_num-le_bytes k (n / 256) (omega (arith, pow-suc 256 k)))

pub read_exact-append : (xs rest : Bytes) → read_exact (length xs) (xs ++ rest) ≡ ok (xs, rest)
unfolding read_exact
read_exact-append [] rest = refl
read_exact-append (x ∷ xs) rest = rw (read_exact-append xs rest)

read_exact_of_length :
    (n : ℕ) (xs rest : Bytes) → length xs ≡ n → read_exact n (xs ++ rest) ≡ ok (xs, rest)
read_exact_of_length n xs rest e = rw (← e) (read_exact-append xs rest)

-- `readNum` returns the integer that was written, if it fits both the word and the type.
pub read_num-write_num :
    (max n : ℕ) (rest : Bytes)
    → n ≤ u64_max
    → n ≤ max
    → read_num max (write_num n ++ rest) ≡ ok (n, rest)
unfolding read_num write_num
read_num-write_num max n rest h k =
    rw (read_exact_of_length 8 (le_bytes 8 n) rest (length-le_bytes 8 n))
      (ground (arith, le_num-le_bytes 8 n))

all_zero-replicate : (n : ℕ) → all_zero (replicate n 0) ≡ true
unfolding all_zero
all_zero-replicate zero = refl
all_zero-replicate (suc n) = all_zero-replicate n

pub read_padding-write_padding :
    (len : ℕ) (rest : Bytes) → read_padding len (write_padding len ++ rest) ≡ ok rest
unfolding read_padding write_padding padding
read_padding-write_padding len rest = elim (Bool-cases (len % 8 == 0)) [
  | inl e ↦ rw e
  | inr e ↦ rw e (
      rw
        (read_exact_of_length (8 - len % 8) (replicate (8 - len % 8) 0) rest
          (length-replicate (8 - len % 8) 0))
        (rw (all_zero-replicate (8 - len % 8))))
]

-- `readString` returns the string that was written, if its length is allowed.
pub read_string-write_string :
    (max : ℕ) (s rest : Bytes)
    → length s ≤ max
    → length s ≤ u64_max
    → read_string max (write_string s ++ rest) ≡ ok (s, rest)
unfolding read_string write_string
read_string-write_string max s rest h k =
    rw (append_assoc, append_assoc)
      (rw (read_num-write_num u64_max (length s) _ k k) (
        rw (not_ltb max (length s) h) (
          rw (read_exact-append s (write_padding (length s) ++ rest))
            (rw (read_padding-write_padding (length s) rest)))))
  where
    not_ltb : (a b : ℕ) → b ≤ a → not (ltb a b) ≡ true
    not_ltb a b p = ground arith

-- A string longer than the reader allows is refused, whatever follows.
pub read_string_too_long :
    (max : ℕ) (s rest : Bytes)
    → max < length s
    → length s ≤ u64_max
    → read_string max (write_string s ++ rest) ≡ err Error.string_too_long
unfolding read_string write_string
read_string_too_long max s rest h k =
    rw (append_assoc, append_assoc)
      (rw (read_num-write_num u64_max (length s) _ k k) (rw (ltb_lem max (length s) h)))
  where
    ltb_lem : (a b : ℕ) → a < b → not (ltb a b) ≡ Bool.false
    ltb_lem a b p = ground arith

read_each-write_each :
    (ss : List Bytes) (rest : Bytes)
    → All (λ s. length s ≤ u64_max) ss
    → read_each (length ss) (write_each ss ++ rest) ≡ ok (ss, rest)
unfolding read_each write_each
read_each-write_each [] rest h = refl
read_each-write_each (s ∷ ss) rest h = rw append_assoc (
    rw (read_string-write_string u64_max s (write_each ss ++ rest) h.0 h.0)
      (rw (read_each-write_each ss rest h.1)))

pub read_strings-write_strings_lem :
    (ss : List Bytes) (rest : Bytes)
    → length ss ≤ u64_max
    → All (λ s. length s ≤ u64_max) ss
    → read_strings (write_strings ss ++ rest) ≡ ok (ss, rest)
unfolding read_strings write_strings
read_strings-write_strings_lem ss rest h k =
    rw append_assoc
      (rw (read_num-write_num u64_max (length ss) _ h h) (read_each-write_each ss rest k))
