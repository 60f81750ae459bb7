-- ===== src/Archive.antt =====
-- src/libutil/archive.cc: the Nix archive (NAR) of a file system object. The modules below define
-- what is dumped and parsed, and prove it.
pub mod Tree
pub mod Dump
pub mod Parse
pub mod Shape
pub mod Listing
pub mod RoundTrip
pub mod Canonical
pub mod Depth
pub mod Termination
mod Tests
