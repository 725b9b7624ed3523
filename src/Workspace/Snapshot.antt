-- ===== src/Workspace/Snapshot.antt =====
-- The data of a workspace: src/workspace/source.ts (`WorkspaceRevision`),
-- src/workspace/memory-workspace.ts (`WorkspaceSnapshot`) and src/workspace/snapshot-codec.ts
-- (`SerializedWorkspaceSnapshot`). A path is the list of its code units.
use synth_agent_runtime.Prelude.{
  List, Map, Option, String, list_eq, nat_eq, option_eq, string_eq, ℕ,
}

pub data RevisionKind : Type 0 where
  git snapshot unknown : RevisionKind

pub record WorkspaceRevision : Type 0 where
  pub kind : RevisionKind
  pub remote : Option String
  pub ref : Option String
  pub commit : Option String

abbrev pub Text : Type 0
Text = List ℕ

abbrev pub Bytes : Type 0
Bytes = List ℕ

-- `Uint8Array | string`
pub data Content : Type 0 where
  uint8_array : Bytes → Content
  string : Text → Content

pub record WorkspaceSnapshot : Type 0 where
  pub id : String
  pub revision : Option WorkspaceRevision
  pub overlay : Map Text Bytes
  pub links : Option (Map Text Text)
  pub deleted : List Text
  pub changed : List Text

pub record SerializedWorkspaceSnapshot : Type 0 where
  pub id : String
  pub revision : Option WorkspaceRevision
  pub overlay : List (Text × String)
  pub links : Option (List (Text × Text))
  pub deleted : List Text
  pub changed : List Text
