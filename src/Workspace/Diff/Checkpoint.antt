-- ===== src/Workspace/Diff/Checkpoint.antt =====
-- A workspace that is checkpointed as its diff and restored over the same source.
use synth_agent_runtime.Prelude.{
  List, Option, [], false, list_eq, nat_eq, none, option_eq, pair_eq, some, string_eq, ◌==◌, ◌∷◌,
  ◌≡◌, ◌⊎◌,
}
use synth_agent_runtime.Workspace.Snapshot.{Bytes, Text, uint8_array}
use synth_agent_runtime.Workspace.Memory.{is_under}
use synth_agent_runtime.Workspace.Memory.View.Refinement.{Change, Files, deletes, writes}
use synth_agent_runtime.Workspace.Diff.{ChangeKind, WorkspaceChange, added, modified, removed}
use synth_agent_runtime.Workspace.Paths.{normalize_relative}

abbrev same_text : Text → Bytes
same_text text = text

abbrev written_change : Text → Option Bytes → List Change → List Change
written_change path none changes = changes
written_change path (some bytes) changes = writes path (uint8_array bytes) ∷ changes

abbrev as_change : ChangeKind → Text → Option Bytes → List Change → List Change
as_change removed path content changes = deletes path ∷ changes
as_change added path content changes = written_change path content changes
as_change modified path content changes = written_change path content changes

abbrev as_changes : List WorkspaceChange → List Change
as_changes [] = []
as_changes (c ∷ changes) = as_change c.kind c.path c.content (as_changes changes)

-- The paths that were changed are normal, and none is the root or lies above `q`.
abbrev pub IsBeside : Text → Text → Type 0
IsBeside q p = (normalize_relative p ≡ p) × ((p == []) ≡ false) × (is_under q p ≡ false)

abbrev add_found : Option WorkspaceChange → List Change → List Change
add_found none later = later
add_found (some c) later = as_change c.kind c.path c.content later

abbrev HasEither : Files → Text → Option Bytes → Option Bytes → Type 0
HasEither files q base now = (files q ≡ base) ⊎ (files q ≡ now)
