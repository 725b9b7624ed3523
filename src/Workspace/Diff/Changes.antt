-- ===== src/Workspace/Diff/Changes.antt =====
-- Which change a diff has for a path.
use synth_agent_runtime.Prelude.{
  Bool, Bool-cases, Option, ap, beq_eq, false, find, if◌then◌else◌, includes, inl, inr, list_eq,
  nat_eq, none, option_eq, pair_eq, refl, some, string_eq, true, ◌==◌, ◌≡◌, ◌⊎◌,
}
use synth_agent_runtime.Workspace.Snapshot.{Bytes, Text}
use synth_agent_runtime.Workspace.Memory.{
  MemoryWorkspace, SourceInfo, TreeSource, directory, file, symlink,
}
use synth_agent_runtime.Workspace.Memory.View.{read}
use synth_agent_runtime.Workspace.Diff.{
  WorkspaceChange, added, base_of, compare_with, diff, modified, removed,
}
use synth_agent_runtime.Workspace.Diff.Restore.{find-diff, is_of}

-- The content of the file that the source has at a path, if it has one there.
pub data IsBase (ws : MemoryWorkspace) (p : Text) (base : Option Bytes) : Type 0 where
  no_source : ws.source ≡ none → base ≡ none → IsBase ws p base
  no_entry :
      (s : TreeSource) → ws.source ≡ some s → s.stat p ≡ none → base ≡ none → IsBase ws p base
  no_file :
      (s : TreeSource) (info : SourceInfo)
      → ws.source ≡ some s
      → s.stat p ≡ some info
      → (info.kind ≡ directory) ⊎ (info.kind ≡ symlink)
      → base ≡ none
      → IsBase ws p base
  a_file :
      (s : TreeSource) (info : SourceInfo)
      → ws.source ≡ some s
      → s.stat p ≡ some info
      → info.kind ≡ file
      → base ≡ some (s.read_file p)
      → IsBase ws p base

-- What a diff should have for a path with these contents in the source and now.
pub data IsChange (p : Text) (touched : Bool) (base now : Option Bytes)
    (found : Option WorkspaceChange) : Type 0 where
  untouched : touched ≡ false → found ≡ none → IsChange p touched base now found
  same : base ≡ now → found ≡ none → IsChange p touched base now found
  appeared :
      (bytes : Bytes)
      → touched ≡ true
      → base ≡ none
      → now ≡ some bytes
      → found ≡ some (record { path = p; kind = added; content = some bytes })
      → IsChange p touched base now found
  vanished :
      (bytes : Bytes)
      → touched ≡ true
      → base ≡ some bytes
      → now ≡ none
      → found ≡ some (record { path = p; kind = removed; content = none })
      → IsChange p touched base now found
  differs :
      (before bytes : Bytes)
      → touched ≡ true
      → base ≡ some before
      → now ≡ some bytes
      → (before == bytes) ≡ false
      → found ≡ some (record { path = p; kind = modified; content = some bytes })
      → IsChange p touched base now found

IsBase-base_of :
    (ws : MemoryWorkspace) (p : Text) (base : Option Bytes) → IsBase ws p base → base_of ws p ≡ base
unfolding base_of
IsBase-base_of ws p base (no_source s b) = rw (s, b) refl
IsBase-base_of ws p base (no_entry source s e b) = rw (s, e, b) refl
IsBase-base_of ws p base (no_file source info s e (inl k) b) = rw (s, e, k, b) refl
IsBase-base_of ws p base (no_file source info s e (inr k) b) = rw (s, e, k, b) refl
IsBase-base_of ws p base (a_file source info s e k b) = rw (s, e, k, b) refl

IsChange-compare_with :
    (p : Text) (touched : Bool) (base now : Option Bytes)
    → IsChange p touched base now (if touched then compare_with p base now else none)
unfolding compare_with
IsChange-compare_with p false base now = untouched refl refl
IsChange-compare_with p true none none = same refl refl
IsChange-compare_with p true (some before) none = vanished before refl refl refl refl
IsChange-compare_with p true none (some bytes) = appeared bytes refl refl refl refl
IsChange-compare_with p true (some before) (some bytes) = elim (Bool-cases (before == bytes)) [
  | inl e ↦ same (ap some (beq_eq before bytes e)) (rw e refl)
  | inr e ↦ differs before bytes refl refl refl e (rw e refl)
]

-- The diff has no change for a path that was not touched or whose content is that of the file in the
-- source. Else the first change for it says that it was added, removed or modified, with the content
-- that it has now: added if the source has no file there, removed if nothing is read there now.
pub IsChange-diff :
    (decode : Bytes → Text) (ws : MemoryWorkspace) (p : Text) (base : Option Bytes)
    → IsBase ws p base
    → IsChange p (includes p ws.changed) base (read decode ws p) (find (is_of p) (diff decode ws))
IsChange-diff decode ws p base b =
    rw (find-diff decode ws p, IsBase-base_of ws p base b)
      (IsChange-compare_with p (includes p ws.changed) base (read decode ws p))
