-- ===== src/StorePath/Tests.antt =====
-- Concrete names and base names, and the theorems at them.
use nixstore_arch.Prelude.{
  ◌≡◌, ◌<◌, ◌↔◌, refl, ◌∷◌, ◌++◌, Bytes, codes, length, All, ok, err, arith, bytes_eq,
}
use nixstore_arch.StorePath.{
  first_component, check_name, check_dots, is_legal, is_base32, store_path, hash_len, hash_part,
  name_part, store_path_of_hash,
}
use nixstore_arch.StorePath.Names.{
  IsName, IsBase32, check_name_iff, store_path_iff, store_path-any_separator, store_path-of_hash,
}

abbrev digits : Bytes
digits = codes "0123456789abcdfghijklmnpqrsvwxyz"

digits-IsBase32 : All IsBase32 digits
unfolding is_base32
digits-IsBase32 = ground arith

hello-IsName : IsName (codes "hello-2.10")
unfolding is_legal
hello-IsName = (omega arith, omega arith, ground arith, (λ e. cc), λ e. cc)

dot_dash : check_name (codes "..-x") ≡ err first_component
unfolding check_name check_dots bytes_eq
dot_dash = refl

check_name_iff_example : (check_name (codes "hello-2.10") ≡ ok tt) ↔ IsName (codes "hello-2.10")
check_name_iff_example = check_name_iff (codes "hello-2.10")

store_path_iff_example : (store_path (codes "abc") ≡ ok (codes "abc")) ↔ (
    (codes "abc" ≡ codes "abc")
    × (hash_len < length (codes "abc"))
    × All IsBase32 (hash_part (codes "abc"))
    × IsName (name_part (codes "abc")))
store_path_iff_example = store_path_iff (codes "abc") (codes "abc")

-- A slash stands where the dash should.
store_path-any_separator_example :
    (store_path (digits ++ b'/' ∷ codes "hello-2.10") ≡ ok (digits ++ b'/' ∷ codes "hello-2.10"))
    × (hash_part (digits ++ b'/' ∷ codes "hello-2.10") ≡ digits)
    × (name_part (digits ++ b'/' ∷ codes "hello-2.10") ≡ codes "hello-2.10")
store_path-any_separator_example =
    store_path-any_separator digits b'/' (codes "hello-2.10") refl digits-IsBase32 hello-IsName

store_path-of_hash_example :
    ((store_path_of_hash digits (codes "x") ≡ ok (digits ++ (codes "-" ++ codes "x")))
      ↔ IsName (codes "x"))
    × ((path : Bytes)
        → store_path_of_hash digits (codes "x") ≡ ok path
        → (store_path path ≡ ok path) × (hash_part path ≡ digits) × (name_part path ≡ codes "x"))
store_path-of_hash_example = store_path-of_hash digits (codes "x") refl digits-IsBase32
