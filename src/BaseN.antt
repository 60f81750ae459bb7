-- ===== src/BaseN.antt =====
-- src/libutil/base-n.cc and base-nix-32.cc: texts for bytes in base 16, base 64 and Nix's base 32.
-- Where the code joins bits that do not overlap by `|`, the model adds; a shift is a product or a
-- quotient by a power of two.
pub mod Digits
pub mod Base16
pub mod Base64
pub mod Nix32
mod Tests
