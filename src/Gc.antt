-- ===== src/Gc.antt =====
-- `LocalStore::collectGarbage` of src/libstore/gc.cc. The GC roots, the listing of the store
-- directory, the bytes that each deletion frees, the temporary directories that others have locked
-- and the temporary roots that clients send are arguments: `arrivals` holds the roots that come in
-- before each critical section.
pub mod State
pub mod Closure
pub mod ClosureEnds
pub mod ClosureReached
pub mod Visit
pub mod Sweep
pub mod Collect
pub mod Search
pub mod Safety
pub mod Roots
pub mod TempRoots
pub mod Rounds
pub mod Ends
mod Tests
