-- ===== src/Workspace/Codec/Tests.antt =====
-- The round trip with texts for contents.
use synth_agent_runtime.Workspace.Codec.{
  deserialize_workspace_snapshot, serialize_workspace_snapshot, total_bytes, written_links,
}
use synth_agent_runtime.Prelude.{
  String, [], list_beq, list_eq, nat_eq, none, option_eq, pair_eq, refl, some, string_eq, ◌∷◌, ◌≡◌,
}
use synth_agent_runtime.Workspace.Snapshot.{Bytes, SerializedWorkspaceSnapshot, WorkspaceSnapshot}
use synth_agent_runtime.Workspace.Codec.Roundtrip.{deserialize-serialize}

abbrev content : Bytes
content = 104 ∷ 105 ∷ []

abbrev encode : Bytes → String
encode bytes = "aGk="

abbrev decode : String → Bytes
decode written = content

abbrev snapshot_of_hi : WorkspaceSnapshot
snapshot_of_hi = record {
  id = "workspace";
  revision = none;
  overlay = ((97 ∷ []), content) ∷ ((98 ∷ []), content) ∷ [];
  links = some (((99 ∷ []), (97 ∷ [])) ∷ []);
  deleted = (100 ∷ []) ∷ [];
  changed = (97 ∷ []) ∷ (98 ∷ []) ∷ [];
}

abbrev written_snapshot : SerializedWorkspaceSnapshot
written_snapshot = record {
  id = "workspace";
  revision = none;
  overlay = ((97 ∷ []), "aGk=") ∷ ((98 ∷ []), "aGk=") ∷ [];
  links = some (((99 ∷ []), (97 ∷ [])) ∷ []);
  deleted = (100 ∷ []) ∷ [];
  changed = (97 ∷ []) ∷ (98 ∷ []) ∷ [];
}

deserialize-serialize_example :
    deserialize_workspace_snapshot decode written_snapshot ≡ snapshot_of_hi
unfolding serialize_workspace_snapshot total_bytes written_links list_beq
deserialize-serialize_example =
    deserialize-serialize encode decode snapshot_of_hi written_snapshot (refl, (refl, tt))
      ((refl, tt), (tt, tt)) (tt, tt) (tt, tt) ((refl, tt), (tt, tt)) refl
