-- ===== src/Workspace/Diff/Restore.antt =====
-- What a diff says of a path, and what applying it to a fresh workspace restores.
use synth_agent_runtime.Prelude.{
  Bool, Bool-cases, List, Option, Option-cases, String, [], add, ap, arith, beq_eq, beq_refl, erase,
  false, find, if◌then◌else◌, includes, inl, inr, keep, list_eq, lookup, nat_eq, none, option_eq,
  pair_eq, refl, some, string_eq, ◌==◌, ◌||◌, ◌∙◌, ◌∷◌, ◌≡◌,
}
use synth_agent_runtime.Workspace.Snapshot.{Bytes, Text}
use synth_agent_runtime.Workspace.Memory.{
  MemoryWorkspace, TreeSource, drop_each, new_workspace, remove,
}
use synth_agent_runtime.Workspace.Memory.View.{read}
use synth_agent_runtime.Workspace.Memory.Listing.{changed_paths, sort_texts}
use synth_agent_runtime.Workspace.Memory.Listing.Deleted.{includes-sort_texts}
use synth_agent_runtime.Workspace.Diff.{
  WorkspaceChange, add_change, base_of, compare_with, diff, diff_paths,
}
use synth_agent_runtime.Workspace.Paths.{normalize_relative}
use synth_agent_runtime.Workspace.Memory.View.Writes.{read-remove}

abbrev pub is_of : Text → WorkspaceChange → Bool
is_of path change = change.path == path

find-add_change :
    (p path : Text) (base current : Option Bytes) (changes : List WorkspaceChange)
    → find (is_of p) (add_change (compare_with path base current) changes) ≡ (
        if path == p
        then (elim (compare_with path base current) [
          | none ↦ find (is_of p) changes
          | some c ↦ some c
        ])
        else find (is_of p) changes)
unfolding find compare_with
find-add_change p path none none changes = ground arith
find-add_change p path (some base) none changes = ground arith
find-add_change p path none (some current) changes = ground arith
find-add_change p path (some base) (some current) changes = elim (Bool-cases (base == current)) [
  | inl e ↦ rw e (ground arith)
  | inr e ↦ rw e (ground arith)
]

first_change :
    (p path : Text) (change_at : Text → Option WorkspaceChange) (listed : Bool)
    (later : Option WorkspaceChange)
    → later ≡ (if listed then change_at p else none)
    → (if path == p then (elim (change_at path) [ none ↦ later | some c ↦ some c ]) else later)
      ≡ (if (path == p) || listed then change_at p else none)
first_change p path change_at listed later h = elim (Bool-cases (path == p)) [
  | inl e ↦
      rw (beq_eq path p e, beq_refl p)
        (elim (Option-cases (change_at p)) [
          | inl gone ↦ rw (gone, h) (ground arith)
          | inr (c, found) ↦ rw found refl
        ])
  | inr e ↦ rw e h
]

module _ (decode : Bytes → Text) (ws : MemoryWorkspace) where
  find-diff_paths :
      (p : Text) (paths : List Text)
      → find (is_of p) (diff_paths decode ws paths)
        ≡ (if includes p paths then compare_with p (base_of ws p) (read decode ws p) else none)
  unfolding diff_paths find includes
  find-diff_paths p [] = refl
  find-diff_paths p (path ∷ paths) =
      find-add_change p path (base_of ws path) (read decode ws path) (diff_paths decode ws paths)
      ∙ first_change p path (λ q. compare_with q (base_of ws q) (read decode ws q))
          (includes p paths) (find (is_of p) (diff_paths decode ws paths)) (find-diff_paths p paths)

  -- The change that a diff has for a path: none for a path that was not touched, and else what
  -- comparing the content in the source with the content in the workspace says.
  pub find-diff :
      (p : Text)
      → find (is_of p) (diff decode ws)
        ≡ (if includes p ws.changed then compare_with p (base_of ws p) (read decode ws p) else none)
  unfolding diff changed_paths
  find-diff p =
      rw (find-diff_paths p (sort_texts ws.changed), includes-sort_texts p ws.changed) refl

read-remove_new :
    (decode : Bytes → Text) (id : String) (source : Option TreeSource) (p : Text)
    → normalize_relative p ≡ p
    → (p == []) ≡ false
    → read decode (remove p (new_workspace id source)) p ≡ none
unfolding lookup
read-remove_new decode id source p n root =
    rw (n, beq_refl p) at (read-remove decode (new_workspace id source) p p root refl)

-- In a new workspace, deleting a path at which the source has no file, as a directory of the source,
-- leaves an empty diff, so that nothing says that what lay under the path is gone.
pub diff-remove_directory :
    (decode : Bytes → Text) (id : String) (source : Option TreeSource) (p : Text)
    → normalize_relative p ≡ p
    → (p == []) ≡ false
    → base_of (new_workspace id source) p ≡ none
    → diff decode (remove p (new_workspace id source)) ≡ []
unfolding diff diff_paths changed_paths base_of compare_with remove drop_each lookup keep erase add
    includes
diff-remove_directory decode id source p n root base =
    ap (λ now. add_change (compare_with p (base_of (new_workspace id source) p) now) [])
      (read-remove_new decode id source p n root)
    ∙ rw base refl
