-- ===== src/Artifacts/Provenance/Tests.antt =====
-- An index in which two artifacts were made from each other.
use synth_agent_runtime.Artifacts.Provenance.Retention.{
  sweep_unreferenced_blobs, sweep_unreferenced_blobs_lem,
}
use synth_agent_runtime.Artifacts.Provenance.Termination.{walk_provenance-ends}
use synth_agent_runtime.Prelude.{
  [], list_beq, list_eq, lookup, nat_eq, none, option_eq, pair_eq, refl, some, string_eq, ◌∷◌, ◌≡◌,
  ◌≢◌,
}
use synth_agent_runtime.Workspace.Snapshot.{Text}
use synth_agent_runtime.Artifacts.Blobs.{BlobStore}
use synth_agent_runtime.Artifacts.Provenance.{ArtifactIndex, ArtifactRecord, walk_provenance}

abbrev made_from : Text → Text → ArtifactRecord
made_from digest input = record {
  ref = record {
    digest = digest;
    size = 1;
    media_type = "text/plain";
    produced_by = none;
    produced_from = some (input ∷ []);
    tenant_id = none;
  };
  at_ms = 1;
}

abbrev first : Text
first = 97 ∷ []

abbrev second : Text
second = 98 ∷ []

abbrev cyclic : ArtifactIndex
cyclic = (first, made_from first second) ∷ (second, made_from second first) ∷ []

walk_provenance-ends_example : walk_provenance cyclic first 32 ≢ none
walk_provenance-ends_example = walk_provenance-ends cyclic first 32

abbrev store : BlobStore
store = record { objects = (first, record { content = 1 ∷ []; mtime_ms = 0 }) ∷ []; sidecars = [] }

sweep_unreferenced_blobs_lem_example :
    lookup first (sweep_unreferenced_blobs store cyclic none 9).1.objects
    ≡ some (record { content = 1 ∷ []; mtime_ms = 0 })
unfolding lookup list_beq
sweep_unreferenced_blobs_lem_example =
    sweep_unreferenced_blobs_lem store cyclic none 9 first (made_from first second)
      (record { content = 1 ∷ []; mtime_ms = 0 }) refl refl
