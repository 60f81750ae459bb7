-- ===== src/Lib.antt =====
-- The store library of this repository, modelled and verified: archives, the database of valid
-- paths, the garbage collector, store paths and what determines them, and what these stand on.
--
-- The program keeps store objects as files of a store directory. An object travels as an archive
-- ("NAR"), which libutil/archive.cc writes and reads in the wire format of libutil/serialise.cc. Its
-- name in the store is a base name that libstore/path.cc checks. The database of
-- libstore/local-store.cc knows the valid paths and the paths each refers to; registration calls
-- the topological sort of libutil/include/nix/util/topo-sort.hh to refuse cycles. The garbage
-- collector of libstore/gc.cc deletes what no root reaches, and invalidates it in the database.
-- The path of an object in the store directory is made by libstore/store-dir-config.cc from a hash
-- (libutil/hash.cc, libutil/base-n.cc, libutil/base-nix-32.cc) of its contents or of its references,
-- as its content address (libstore/content-address.cc) says; libstore/references.cc takes the object's
-- own path out of the contents before they are hashed.
--
-- Paths below are from src/ of the repository.
--
-- * Prelude and its children: shared names, Boolean tests on numbers, byte strings with their
--   order, results with exceptions, and sorted sets of byte strings.
-- * Serialise (libutil/serialise.cc, libutil/include/nix/util/serialise.hh): `write_num`,
--   `write_string`, `write_strings` and `write_padding` are the operators `<<` and their helpers;
--   `read_num`, `read_string`, `read_strings` and `read_padding` read. A source is the list of the
--   bytes that are left, a sink the list of the bytes that were written.
-- * Archive (libutil/archive.cc): Tree has the objects, Dump has `dumpPath` and `dumpString`, Parse
--   has `parseDump` with `parse` and `parseContents` and the case hack. The sink of the parser is
--   the object that it builds. Shape has the objects that an archive can hold, Listing the names of
--   a directory; RoundTrip, Canonical, Depth and Termination have the theorems.
-- * CanonPath (libutil/canon-path.cc, libutil/include/nix/util/canon-path.hh,
--   libutil/include/nix/util/file-path-impl.hh): a path is the string that holds it. `canon_loop` is the
--   loop of `canonPathInner`. Segments has the components of a path and what they lead to, Canonical the
--   form of canonical paths, Bytewise what holds of their bytes, Push the steps up and down. Inner and
--   Relative are about `makeRelative`.
-- * BaseN (libutil/base-n.cc, libutil/base-nix-32.cc and their headers): Digits has the alphabets, Base16,
--   Base64 and Nix32 have `encode`, `decode` and `encodedLength`. Nix32.Chunk is about five bytes and
--   their eight characters.
-- * Hash (libutil/hash.cc, libutil/include/nix/util/hash.hh, libutil/include/nix/util/split.hh): `to_string`
--   and the parsers, the two comparisons, `compressHash`. Names, Order, Plain, Text and Accepted have
--   the theorems and the lemmas on texts without separators.
-- * ContentAddress (libstore/content-address.cc, libutil/file-content-address.cc): methods, addresses and
--   what they refer to.
-- * StoreDir (libstore/store-dir-config.cc): `parseStorePath`, `printStorePath`, `makeStorePath` and
--   `makeFixedOutputPath`, for a directory and a hash function that are parameters. Paths is about
--   parsing, Made about the paths that are made, Fixed about the addresses they are made for.
-- * References (libstore/references.cc, and `rewriteStrings` of libutil/util.cc): `RewritingSink`, with
--   what it has passed on in a field. Rewriting is about one run of the loop, Stream about fragments.
-- * LruCache (libutil/include/nix/util/lru-cache.hh): the map, and the list whose nodes are numbers that
--   stay what they are; `getOrNullptr`, which gives out a pointer to the value, is left. Recency has a list in the order of use, and Refines relates the two.
-- * StorePath (libstore/path.cc, libstore/include/nix/store/path.hh): `checkName` and the two
--   constructors. Names has a grammar of names and the theorems.
-- * TopoSort (libutil/include/nix/util/topo-sort.hh): `topoSort`. The sets that `dfsVisit` captures
--   are a record that is passed through.
-- * LocalStore (libstore/local-store.cc, libstore/schema.sql): `registerValidPaths`,
--   `invalidatePathChecked` and the statements they run. A row of ValidPaths stands together with
--   its rows of Refs; a transaction is a function from the database to a new one or to the exception
--   that rolls it back. Closed and Registration have the theorems.
-- * ComputeClosure (libutil/include/nix/util/closure.hh): `computeClosure`. The coroutines and the calls
--   that are posted are steps of a state, in any order; between two steps the executor runs nothing of
--   the traversal. Balance is about the counters, Measure and Ends about the number of steps, Grown,
--   Explored, Kept and Reached about the set.
-- * Gc (libstore/gc.cc, libstore/misc.cc): `collectGarbage`. State has the options and the state,
--   Closure has `computeFSClosure`, Visit the search through the referrers and Sweep the deletion
--   (together `maybeDeleteReferrersClosure`), Collect the rest. `lock_shared` is the critical
--   section on `_shared`, before which clients may have sent roots. Search, Safety, Roots and
--   TempRoots are about what is kept; ClosureEnds, Rounds and Ends are about the number of rounds, and
--   ClosureReached is about the set of `computeFSClosure`.
--
-- Bounds: a byte is a number below 256, a word one up to 2 ^ 64 - 1; lengths are unbounded, and a
-- theorem that needs a length to fit a word says so. The limits of the code (255 bytes for a name of
-- an archive, 4095 for a symlink target, 64 levels of directories, 32 and 211 bytes for store
-- paths) are constants of the same value.
--
-- Fuel: the recursion of the archive goes down the levels that `narMaxDepth` leaves, as the code
-- does. The loop over the entries of a directory has one round more than there are bytes, and each
-- round reads a tag. The depth-first search has one level more than there are items, and each level
-- visits an item that was not visited. The closure of a path and the search of the garbage collector
-- have two and three rounds more than there are valid paths: a round takes a path that was not taken
-- before, and all of them were valid when the collection began, but for the one that the search starts
-- at. Running out of these is an error of its own (`stuck`, `unfinished`, `no_rounds_left`), which is
-- no exception of the program; Archive.Termination, TopoSort.Complete, Gc.ClosureEnds and Gc.Ends are
-- about it. The other loops have as many rounds as they can take, and more would change nothing: the
-- loop of `canonPathInner` one more than the path has bytes, of which a round takes a component,
-- `rewriteStrings` one for every position, and the loops of base 64 one for every bit and three for
-- the padding.
--
-- Not modelled: the file system and its sinks, the locks, the executor of the coroutines, the hash functions (the database keeps a hash
-- as one text), warnings, links that `canonPathInner` may follow, JSON, the time of a registration,
-- SQLite itself (of which the constraints of the schema are kept), the cache of path information, and
-- of the garbage collector the search for roots, the unused links and the waiting of clients. Other
-- processes do not register paths while a collection runs in the model.
pub mod Prelude
pub mod Serialise
pub mod CanonPath
pub mod Archive
pub mod StorePath
pub mod TopoSort
pub mod LocalStore
pub mod Gc
pub mod LruCache
pub mod BaseN
pub mod Hash
pub mod ContentAddress
pub mod StoreDir
pub mod References
pub mod ComputeClosure
