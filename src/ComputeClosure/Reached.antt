-- ===== src/ComputeClosure/Reached.antt =====
-- Theorems on the set that the traversal ends with.
use nixstore_arch.Prelude.{◌≡◌, ◌↔◌, true, Bytes, List, member, Option, none, some, Result, err}
use nixstore_arch.ComputeClosure.Explored.{IsReachable}

-- What the handler gets: without an exception the set is what one can reach, and an exception is that of
-- a node that one can reach.
abbrev pub IsAnswer :
    {E : Type 0} → (Bytes → Result E (List Bytes)) → List Bytes → List Bytes → Option E → Type 0
IsAnswer get_edges starts res none =
    (q : Bytes) → (member q res ≡ true) ↔ IsReachable get_edges starts q
IsAnswer get_edges starts res (some e) =
    (p : Bytes) × IsReachable get_edges starts p × (get_edges p ≡ err e)
