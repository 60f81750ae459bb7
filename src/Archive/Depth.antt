-- ===== src/Archive/Depth.antt =====
-- Theorems on `dumpPath` and `narMaxDepth`.
use nixstore_arch.Prelude.{
  ℕ, zero, suc, ◌≤◌, ◌<◌, ◌≡◌, refl, true, [], Bytes, Result, ok, err, arith, false, >>=-ok,
}
use Prim.Native.Nat.{max}
use native.Mathlib.Decide.{dec_le}
use nixstore_arch.Serialise.{Error, plain}
use nixstore_arch.CanonPath
use nixstore_arch.Archive.Tree.{Node, Entries, Settings, nil, entry, to_list, nar_max_depth}
use nixstore_arch.Archive.Dump.{dump, dump_entries, dump_path}
use nixstore_arch.Archive.Shape.{IsNar, AreEntries}
use nixstore_arch.Archive.Listing.{unrenamed, listing}

-- The number of objects on the longest way down.
abbrev mutual
  pub depth : Node → ℕ
  depth (Node.directory entries) = suc (depth_entries entries)
  depth (Node.regular exe contents) = 1
  depth (Node.symlink target) = 1
  depth (Node.special kind) = 1

  pub depth_entries : Entries → ℕ
  depth_entries nil = 0
  depth_entries (entry name node rest) = max (depth node) (depth_entries rest)

abbrev pub too_deep : Error
too_deep = plain "path exceeds maximum NAR directory depth"

-- `dump'` is as good as a dump with so many levels.
abbrev Reaches : ℕ → (Bytes → Node → Result Error Bytes) → Type 0
Reaches levels dump' =
    (path : Bytes) (node : Node)
    → IsNar node
    → (depth node ≤ levels → (bs : Bytes) × (dump' path node ≡ ok bs))
      × (levels < depth node → dump' path node ≡ err too_deep)

module _ (levels : ℕ) (dump' : Bytes → Node → Result Error Bytes) (reaches : Reaches levels dump')
    (path : Bytes) where
  dump_entries-total :
      (prev : Bytes) (entries : Entries)
      → AreEntries prev entries
      → depth_entries entries ≤ levels
      → (bs : Bytes) × (dump_entries dump' (λ _. true) path (unrenamed (to_list entries)) ≡ ok bs)
  unfolding dump_entries
  dump_entries-total prev nil h le = ([], refl)
  dump_entries-total prev (entry name node rest) (_, _, _, nar, h) le =
      >>=-ok (dump' (CanonPath.push path name) node) _
        ((reaches (CanonPath.push path name) node nar).0 (omega arith))
        λ body.
          >>=-ok (dump_entries dump' (λ _. true) path (unrenamed (to_list rest))) _
            (dump_entries-total name rest h (omega arith)) λ others. (_, refl)

  dump_entries-too_deep :
      (prev : Bytes) (entries : Entries)
      → AreEntries prev entries
      → levels < depth_entries entries
      → dump_entries dump' (λ _. true) path (unrenamed (to_list entries)) ≡ err too_deep
  unfolding dump_entries
  dump_entries-too_deep prev nil h lt = absurd (omega arith)
  dump_entries-too_deep prev (entry name node rest) (_, _, _, nar, h) lt =
      elim (dec_le (depth node) levels) [
        | yes le ↦
            let (body, e) = (reaches (CanonPath.push path name) node nar).0 le in
            rw e (rw (dump_entries-too_deep name rest h (omega arith)))
        | no gt ↦ rw ((reaches (CanonPath.push path name) node nar).1 (omega arith))
      ]

module _ (st : Settings) (no_hack : st.use_case_hack ≡ false) where
  dump-Reaches : (levels : ℕ) → Reaches levels (dump st (λ _. true) levels)
  unfolding dump
  dump-Reaches zero path (Node.regular exe contents) h = (λ le. absurd (omega arith), λ _. refl)
  dump-Reaches zero path (Node.symlink target) h = (λ le. absurd (omega arith), λ _. refl)
  dump-Reaches zero path (Node.directory entries) h = (λ le. absurd (omega arith), λ _. refl)
  dump-Reaches zero path (Node.special kind) h = absurd h
  dump-Reaches (suc levels) path (Node.regular exe contents) h =
      ((λ _. (_, refl)), λ lt. absurd (omega arith))
  dump-Reaches (suc levels) path (Node.symlink target) h =
      ((λ _. (_, refl)), λ lt. absurd (omega arith))
  dump-Reaches (suc levels) path (Node.special kind) h = absurd h
  dump-Reaches (suc levels) path (Node.directory entries) h = rw (listing st no_hack entries h) (
    (λ le.
        >>=-ok
          (dump_entries (dump st (λ _. true) levels) (λ _. true) path (unrenamed (to_list entries)))
          _
          (dump_entries-total levels (dump st (λ _. true) levels) (dump-Reaches levels) path []
            entries h (omega arith))
          λ body. (_, refl)),
    λ lt. rw (
        dump_entries-too_deep levels (dump st (λ _. true) levels) (dump-Reaches levels) path []
          entries h (omega arith)),
  )

  -- An object that an archive can hold is dumped if it is at most `nar_max_depth` levels deep, and
  -- otherwise the dump throws.
  pub dump_path-depth :
      (path : Bytes) (node : Node)
      → IsNar node
      → (depth node ≤ nar_max_depth → (bs : Bytes) × (dump_path st (λ _. true) path node ≡ ok bs))
        × (nar_max_depth < depth node → dump_path st (λ _. true) path node ≡ err too_deep)
  unfolding dump_path
  dump_path-depth path node h = (
    (λ le.
        >>=-ok (dump st (λ _. true) nar_max_depth path node) _
          ((dump-Reaches nar_max_depth path node h).0 le) λ body. (_, refl)),
    λ lt. rw ((dump-Reaches nar_max_depth path node h).1 lt),
  )
