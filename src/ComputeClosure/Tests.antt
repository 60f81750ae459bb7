-- ===== src/ComputeClosure/Tests.antt =====
-- Two nodes that lead to each other, and one that leads to a node that fails.
use nixstore_arch.Prelude.{
  ℕ, ◌≡◌, refl, Bytes, bytes_eq, bytes_lt, codes, List, [], ◌∷◌, member, set_insert, if◌then◌else◌,
  none, some, Result, ok, err,
}
use nixstore_arch.ComputeClosure.{
  Traversal, initial, complete, fail, spawn_worker, admit, enqueue, enqueue_each, complete_if_done,
  take_next, on_work_done, finish, start,
}

abbrev a : Bytes
a = codes "a"

abbrev b : Bytes
b = codes "b"

abbrev both : Bytes → Result ℕ (List Bytes)
both q = if bytes_eq q a then ok (b ∷ []) else ok (a ∷ [])

abbrev after_a : Traversal ℕ
after_a = finish both a (record (start (a ∷ [])) { workers = [] })

abbrev after_b : Traversal ℕ
after_b = finish both b (record after_a { workers = [] })

called : after_b.completions ≡ none ∷ []
unfolding finish on_work_done take_next complete_if_done complete start enqueue_each enqueue admit
    spawn_worker initial member set_insert bytes_eq bytes_lt
called = refl

-- The second node fails, and the exception is what the handler gets.
abbrev failing : Bytes → Result ℕ (List Bytes)
failing q = if bytes_eq q a then ok (b ∷ []) else err 7

failure_told :
    (finish failing b (record (finish failing a (record (start (a ∷ [])) { workers = [] })) {
      workers = [];
    })).completions
    ≡ some 7 ∷ []
unfolding finish on_work_done take_next complete_if_done complete start enqueue_each enqueue admit
    spawn_worker initial member set_insert bytes_eq bytes_lt fail
failure_told = refl
