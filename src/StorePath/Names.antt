-- ===== src/StorePath/Names.antt =====
-- Which names are accepted, and how a base name is taken apart.
use nixstore_arch.Prelude.{
  ℕ, suc, ◌≤◌, ◌<◌, ◌≡◌, ◌≢◌, ◌↔◌, refl, ap, sym, true, not, [], ◌∷◌, ◌++◌, Bytes, codes, length,
  length-append, All, ltb, leb, ◌==◌, if◌then◌else◌, ok, arith, bytes_eq, Bool-cases, inl, inr,
  >>=-elim, require-elim, leb→le, ok-injective,
}
use nixstore_arch.StorePath.{
  name_empty, name_too_long, hash_len, max_path_len, is_legal, check_characters, check_dots,
  check_name, first_bytes, bytes_after, hash_part, name_part, is_base32, check_hash, store_path,
  store_path_of_hash, too_short,
}

-- The part of a name before its first dash.
abbrev pub first_component_of : Bytes → Bytes
first_component_of [] = []
first_component_of (c ∷ name) = if c == b'-' then [] else c ∷ first_component_of name

abbrev pub IsLegal : ℕ → Type 0
IsLegal c = is_legal c ≡ true

-- The grammar of names.
abbrev pub IsName : Bytes → Type 0
IsName name =
    (0 < length name)
    × (length name ≤ max_path_len)
    × All IsLegal name
    × (first_component_of name ≢ codes ".")
    × (first_component_of name ≢ codes "..")

check_characters_iff : (name : Bytes) → (check_characters name ≡ ok tt) ↔ All IsLegal name
unfolding check_characters
check_characters_iff [] = ((λ e. tt), λ h. refl)
check_characters_iff (c ∷ name) = elim (Bool-cases (is_legal c)) [
  | inl legal ↦ (
    (λ e. (legal, (check_characters_iff name).0 (rw legal at e))),
    λ h. rw legal ((check_characters_iff name).1 h.1),
  )
  | inr illegal ↦ ((λ e. cc (rw illegal at e)), λ h. cc (illegal, h.0))
]

check_dots_iff :
    (name : Bytes)
    → (check_dots name ≡ ok tt) ↔ (
        (0 < length name)
        × (first_component_of name ≢ codes ".")
        × (first_component_of name ≢ codes ".."))
unfolding check_dots
check_dots_iff [] = ((λ e. cc), λ h. absurd (omega arith))
check_dots_iff (a ∷ []) =
    ((λ e. (omega arith, (λ p. ground arith), λ p. ground arith)), λ h. ground arith)
check_dots_iff (a ∷ b ∷ []) =
    ((λ e. (omega arith, (λ p. ground arith), λ p. ground arith)), λ h. ground arith)
check_dots_iff (a ∷ b ∷ c ∷ name) =
    ((λ e. (omega arith, (λ p. ground arith), λ p. ground arith)), λ h. ground arith)

-- `checkName` accepts exactly the names of the grammar.
pub check_name_iff : (name : Bytes) → (check_name name ≡ ok tt) ↔ IsName name
unfolding check_name
check_name_iff name = (
  (λ e. require-elim (not (bytes_eq name [])) name_empty e λ _ e₁.
      require-elim (leb (length name) max_path_len) name_too_long e₁ λ short e₂.
        >>=-elim (check_dots name) _ e₂ λ _ e₃ e₄.
          let (pos, dot, dots) = (check_dots_iff name).0 e₃ in
          (pos, leb→le _ _ short, (check_characters_iff name).0 e₄, dot, dots)),
  λ (pos, short, legal, dot, dots).
      rw (not_empty name pos, le_leb (length name) short, (check_dots_iff name).1 (pos, dot, dots))
        ((check_characters_iff name).1 legal),
)
  where
    not_empty : (s : Bytes) → 0 < length s → not (bytes_eq s []) ≡ true
    not_empty [] h = absurd (omega arith)
    not_empty (c ∷ s) h = unfold bytes_eq in refl

    le_leb : (n : ℕ) → n ≤ max_path_len → leb n max_path_len ≡ true
    le_leb n h = ground arith

abbrev pub IsBase32 : ℕ → Type 0
IsBase32 c = is_base32 c ≡ true

check_hash_iff : (s : Bytes) → (check_hash s ≡ ok tt) ↔ All IsBase32 s
unfolding check_hash
check_hash_iff [] = ((λ e. tt), λ h. refl)
check_hash_iff (c ∷ s) = elim (Bool-cases (is_base32 c)) [
  | inl fine ↦
      ((λ e. (fine, (check_hash_iff s).0 (rw fine at e))), λ h. rw fine ((check_hash_iff s).1 h.1))
  | inr bad ↦ ((λ e. cc (rw bad at e)), λ h. cc (bad, h.0))
]

-- A base name is accepted exactly if it is long enough, begins with 32 digits of Nix's base 32, and
-- has a name of the grammar behind one further byte; it is kept as it is.
pub store_path_iff :
    (base_name path : Bytes)
    → (store_path base_name ≡ ok path) ↔ (
        (path ≡ base_name)
        × (hash_len < length base_name)
        × All IsBase32 (hash_part base_name)
        × IsName (name_part base_name))
unfolding store_path
store_path_iff b path = (
  (λ e. require-elim (not (ltb (length b) 33)) too_short e λ long e₁.
      >>=-elim (check_hash (hash_part b)) _ e₁ λ _ e₂ e₃.
        >>=-elim (check_name (name_part b)) _ e₃ λ _ e₄ e₅. (
          sym (ok-injective e₅),
          ground (arith, long),
          (check_hash_iff (hash_part b)).0 e₂,
          (check_name_iff (name_part b)).0 e₄,
        )),
  λ (same, long, digits, named).
      rw (same, long_enough (length b) long, (check_hash_iff (hash_part b)).1 digits)
        (rw ((check_name_iff (name_part b)).1 named)),
)
  where
    long_enough : (n : ℕ) → 32 < n → not (ltb n 33) ≡ true
    long_enough n h = ground arith

-- The parts of a base name that is put together.
first_bytes-append : (h rest : Bytes) → first_bytes (length h) (h ++ rest) ≡ h
unfolding first_bytes
first_bytes-append [] rest = refl
first_bytes-append (c ∷ h) rest = ap (λ t. c ∷ t) (first_bytes-append h rest)

bytes_after-append :
    (h : Bytes) (c : ℕ) (name : Bytes) → bytes_after (suc (length h)) (h ++ c ∷ name) ≡ name
unfolding bytes_after
bytes_after-append [] c name = refl
bytes_after-append (d ∷ h) c name = bytes_after-append h c name

-- Any 32 digits, any one byte and any name make a base name that is accepted, with these digits as
-- its hash part and this name as its name. The byte between them is not looked at.
pub store_path-any_separator :
    (h : Bytes) (c : ℕ) (name : Bytes)
    → length h ≡ 32
    → All IsBase32 h
    → IsName name
    → (store_path (h ++ c ∷ name) ≡ ok (h ++ c ∷ name))
      × (hash_part (h ++ c ∷ name) ≡ h)
      × (name_part (h ++ c ∷ name) ≡ name)
store_path-any_separator h c name len digits named = (
  (store_path_iff (h ++ c ∷ name) (h ++ c ∷ name)).1
      (refl, rw length-append (omega arith), rw hash digits, rw name' named),
  hash,
  name',
)
  where
    hash : hash_part (h ++ c ∷ name) ≡ h
    hash = unfold hash_part in rw len at (first_bytes-append h (c ∷ name))

    name' : name_part (h ++ c ∷ name) ≡ name
    name' = unfold name_part in rw len at (bytes_after-append h c name)

-- `StorePath(hash, name)` accepts exactly the names of the grammar, and the base name that it makes
-- is accepted again, with the same hash part and name.
pub store_path-of_hash :
    (h name : Bytes)
    → length h ≡ 32
    → All IsBase32 h
    → ((store_path_of_hash h name ≡ ok (h ++ (codes "-" ++ name))) ↔ IsName name)
      × ((path : Bytes)
          → store_path_of_hash h name ≡ ok path
          → (store_path path ≡ ok path) × (hash_part path ≡ h) × (name_part path ≡ name))
unfolding store_path_of_hash
store_path-of_hash h name len digits = (
  (
    (λ e. (inverted (h ++ b'-' ∷ name) e).0),
    λ named. rw name' (rw ((check_name_iff name).1 named)),
  ),
  λ path e.
      let (named, same) = inverted path e in
      rw same (store_path-any_separator h b'-' name len digits named),
)
  where
    name' : name_part (h ++ b'-' ∷ name) ≡ name
    name' = unfold name_part in rw len at (bytes_after-append h b'-' name)

    inverted :
        (path : Bytes)
        → store_path_of_hash h name ≡ ok path
        → IsName name × (path ≡ h ++ b'-' ∷ name)
    inverted path e =
        >>=-elim (check_name (name_part (h ++ b'-' ∷ name))) _ e
          λ _ e₁ e₂. ((check_name_iff name).0 (rw name' at e₁), sym (ok-injective e₂))
