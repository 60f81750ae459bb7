-- ===== src/BaseN/Tests.antt =====
-- The three encodings on four bytes.
use nixstore_arch.Prelude.{◌≡◌, refl, [], ◌∷◌, Bytes, IsByte, All, codes, length, ok, err, arith}
use nixstore_arch.BaseN.Digits.{index_from, hex_char, char64, char32, digit32, invalid_character}
use nixstore_arch.BaseN.Base16
use nixstore_arch.BaseN.Base64
use nixstore_arch.BaseN.Nix32
use nixstore_arch.BaseN.Base64.{decode64-encode64, length-encode64}
use nixstore_arch.BaseN.Nix32.RoundTrip.{length-encode32}

abbrev four_bytes : Bytes
four_bytes = 0 ∷ 255 ∷ 16 ∷ 129 ∷ []

four_bytes-IsByte : All IsByte four_bytes
four_bytes-IsByte = (omega arith, (omega arith, (omega arith, (omega arith, tt))))

decode64-encode64_example : Base64.decode (Base64.encode four_bytes) ≡ ok four_bytes
decode64-encode64_example = decode64-encode64 four_bytes four_bytes-IsByte

length-encode64_example :
    length (Base64.encode four_bytes) ≡ Base64.encoded_length (length four_bytes)
length-encode64_example = length-encode64 four_bytes

length-encode32_example :
    length (Nix32.encode four_bytes) ≡ Nix32.encoded_length (length four_bytes)
length-encode32_example = length-encode32 0 (255 ∷ 16 ∷ 129 ∷ [])

padded : Base64.encode (codes "foob") ≡ codes "Zm9vYg=="
unfolding Base64.encode Base64.encode_loop Base64.drain Base64.shift_in Base64.pad char64
padded = refl

in_hex : Base16.encode four_bytes ≡ codes "00ff1081"
unfolding Base16.encode hex_char
in_hex = refl

last_group_first : Nix32.encode (codes "foob") ≡ codes "1i6yvv6"
unfolding Nix32.encode Nix32.encode_from Nix32.encoded_length Nix32.group char32
last_group_first = refl

bad_character : Nix32.decode (codes "1e") ≡ err (invalid_character b'e')
unfolding Nix32.decode Nix32.decode_from digit32 index_from
bad_character = refl
