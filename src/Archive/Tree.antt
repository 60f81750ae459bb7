-- ===== src/Archive/Tree.antt =====
-- File system objects, as `SourceAccessor` shows them to archive.cc and as a
-- `FileSystemObjectSink` is given them, and the strings of the format.
use nixstore_arch.Prelude.{ℕ, Bool, List, [], ◌∷◌, Bytes, codes}

-- `SourceAccessor::Type`
pub data FileType : Type 0 where
  regular symlink directory char_device block_device socket fifo unknown : FileType

-- The entries of a directory stand in the order of the map that `readDirectory` returns.
mutual
  pub data Node : Type 0 where
    regular : Bool → Bytes → Node
    directory : Entries → Node
    symlink : Bytes → Node
    special : FileType → Node

  pub data Entries : Type 0 where
    nil : Entries
    entry : Bytes → Node → Entries → Entries

unfoldable pub file_type : Node → FileType
file_type (regular exe contents) = FileType.regular
file_type (directory entries) = FileType.directory
file_type (symlink target) = FileType.symlink
file_type (special kind) = kind

abbrev pub to_list : Entries → List (Bytes × Node)
to_list nil = []
to_list (entry name node rest) = (name, node) ∷ to_list rest

abbrev pub of_list : List (Bytes × Node) → Entries
of_list [] = nil
of_list ((name, node) ∷ rest) = entry name node (of_list rest)

-- `archiveSettings.useCaseHack`, whether `readDirectory` knows the types of its entries, and
-- whether the sink of a parse skips the contents of files.
pub record Settings : Type 0 where
  pub use_case_hack : Bool
  pub reports_types : Bool
  pub skip_contents : Bool

abbrev pub nar_max_depth : ℕ
nar_max_depth = 64

abbrev pub nar_version_magic : Bytes
nar_version_magic = codes "nix-archive-1"

abbrev pub case_hack_suffix : Bytes
case_hack_suffix = codes "~nix~case~hack~"
