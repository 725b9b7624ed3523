-- ===== src/Workspace/Codec.antt =====
-- src/workspace/snapshot-codec.ts. The base64 of Node's `Buffer` is the pair of parameters `encode`
-- and `decode`.
pub mod Roundtrip
mod Tests
use synth_agent_runtime.Prelude.{
  List, Map, Option, Result, String, [], add, err, if◌then◌else◌, insert, length, list_eq, ltb, map,
  nat_eq, none, ok, option_eq, or_else, pair_eq, some, string_eq, ℕ, ◌+◌, ◌∷◌,
}
use synth_agent_runtime.Workspace.Snapshot.{
  Bytes, SerializedWorkspaceSnapshot, Text, WorkspaceSnapshot,
}

pub data CodecError : Type 0 where
  inline_snapshot_too_large : ℕ → CodecError

abbrev pub max_inline_snapshot_bytes : ℕ
max_inline_snapshot_bytes = 262144

unfoldable pub total_bytes : Map Text Bytes → ℕ
total_bytes [] = 0
total_bytes ((path, bytes) ∷ overlay) = length bytes + total_bytes overlay

-- `snapshot.links && snapshot.links.size > 0 ? { links } : {}`
unfoldable pub written_links : Option (Map Text Text) → Option (List (Text × Text))
written_links none = none
written_links (some []) = none
written_links (some (l ∷ links)) = some (l ∷ links)

unfoldable pub serialize_workspace_snapshot :
    (Bytes → String) → WorkspaceSnapshot → Result CodecError SerializedWorkspaceSnapshot
unfolding total_bytes written_links
serialize_workspace_snapshot encode s =
    if ltb max_inline_snapshot_bytes (total_bytes s.overlay)
    then err (inline_snapshot_too_large (total_bytes s.overlay))
    else ok (record {
      id = s.id;
      revision = s.revision;
      overlay = map (λ e. (e.0, encode e.1)) s.overlay;
      links = written_links s.links;
      deleted = s.deleted;
      changed = s.changed;
    })

-- `new Map(entries)` and `new Set(values)`, onto what was added before
unfoldable pub add_entries {ℓ} : {V : Type ℓ} → Map Text V → List (Text × V) → Map Text V
add_entries m [] = m
add_entries m ((k, v) ∷ es) = add_entries (insert k v m) es

unfoldable pub add_values : List Text → List Text → List Text
add_values s [] = s
add_values s (x ∷ xs) = add_values (add x s) xs

unfoldable pub deserialize_workspace_snapshot :
    (String → Bytes) → SerializedWorkspaceSnapshot → WorkspaceSnapshot
unfolding add_entries add_values
deserialize_workspace_snapshot decode w = record {
  id = w.id;
  revision = w.revision;
  overlay = add_entries [] (map (λ e. (e.0, decode e.1)) w.overlay);
  links = some (add_entries [] (or_else w.links []));
  deleted = add_values [] w.deleted;
  changed = add_values [] w.changed;
}
