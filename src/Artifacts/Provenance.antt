-- ===== src/Artifacts/Provenance.antt =====
-- src/artifacts/artifact-index.ts: `InMemoryArtifactIndex`. The walk
-- takes as many steps as its fuel says; `walk_fuel` is enough, as is proved.
pub mod Termination
pub mod Retention
mod Tests
use synth_agent_runtime.Prelude.{
  Bool, List, Map, Option, String, [], eqb, false, if◌then◌else◌, includes, insert, keep, length,
  list_eq, lookup, ltb, nat_eq, none, not, option_eq, or_else, pair_eq, some, string_eq, suc, true,
  values, zero, ℕ, ◌&&◌, ◌++◌, ◌+◌, ◌==◌, ◌∷◌,
}
use synth_agent_runtime.Workspace.Snapshot.{Text}
use synth_agent_runtime.Artifacts.Blobs.{BlobRef}

pub record ArtifactRecord : Type 0 where
  pub ref : BlobRef
  pub at_ms : ℕ

abbrev pub ArtifactIndex : Type 0
ArtifactIndex = Map Text ArtifactRecord

-- `record`
unfoldable pub add_record : ArtifactIndex → BlobRef → ℕ → ArtifactRecord × ArtifactIndex
add_record index ref now =
    let r : ArtifactRecord = record { ref = ref; at_ms = now } in (r, insert ref.digest r index)

abbrev pub get_record : ArtifactIndex → Text → Option ArtifactRecord
get_record index digest = lookup digest index

abbrev pub by_producer : ArtifactIndex → String → List ArtifactRecord
by_producer index producer = keep (λ r. r.ref.produced_by == some producer) (values index)

abbrev pub inputs : ArtifactRecord → List Text
inputs r = or_else r.ref.produced_from []

abbrev pub by_input : ArtifactIndex → Text → List ArtifactRecord
by_input index digest = keep (λ r. includes digest (inputs r)) (values index)

abbrev pub list_records : ArtifactIndex → List ArtifactRecord
list_records index = values index

pub record ProvenanceNode : Type 0 where
  pub digest : Text
  pub found : Option ArtifactRecord

-- the variables of the walk; `is_intact` is read off them in the end
pub record ProvenanceReport : Type 0 where
  pub nodes : List ProvenanceNode
  pub gaps : List Text
  pub is_truncated : Bool

abbrev pub is_intact : ProvenanceReport → Bool
is_intact report = eqb (length report.gaps) 0 && not report.is_truncated

abbrev pub inputs_of : Option ArtifactRecord → List Text
inputs_of none = []
inputs_of (some r) = inputs r

-- the node of a digest, and a gap if no record of it is there
unfoldable pub visit : Text → Option ArtifactRecord → ProvenanceReport → ProvenanceReport
visit id none report = record report {
  nodes = report.nodes ++ record { digest = id; found = none } ∷ [];
  gaps = report.gaps ++ id ∷ [];
}
visit id (some r) report = record report {
  nodes = report.nodes ++ record { digest = id; found = some r } ∷ [];
}

-- the inputs, pushed one after another: the last one is on top
unfoldable pub push_all : List Text → ℕ → List (Text × ℕ) → List (Text × ℕ)
push_all [] depth stack = stack
push_all (x ∷ xs) depth stack = push_all xs depth ((x, depth) ∷ stack)

unfoldable pub walk :
    ArtifactIndex → ℕ → ℕ → List Text → List (Text × ℕ) → ProvenanceReport → Option ProvenanceReport
unfolding visit push_all
walk index max_depth fuel seen [] report = some report
walk index max_depth zero seen (top ∷ stack) report = none
walk index max_depth (suc fuel) seen ((id, depth) ∷ stack) report =
    let found = lookup id index in
    let skipped = walk index max_depth fuel seen stack report in
    let cut = walk index max_depth fuel seen stack (record report { is_truncated = true }) in
    let visited =
      walk index max_depth fuel (id ∷ seen) (push_all (inputs_of found) (depth + 1) stack)
        (visit id found report) in
    if includes id seen then skipped else (if ltb max_depth depth then cut else visited)

-- How many digests the records not seen yet can still push.
unfoldable pub weight : List Text → ArtifactIndex → ℕ
weight seen [] = 0
weight seen ((id, r) ∷ index) =
    (if includes id seen then 0 else length (inputs r)) + weight seen index

abbrev pub walk_fuel : ArtifactIndex → ℕ
walk_fuel index = 1 + weight [] index

abbrev pub empty_report : ProvenanceReport
empty_report = record { nodes = []; gaps = []; is_truncated = false }

unfoldable pub walk_provenance : ArtifactIndex → Text → ℕ → Option ProvenanceReport
unfolding walk weight
walk_provenance index digest max_depth =
    walk index max_depth (walk_fuel index) [] ((digest, 0) ∷ []) empty_report
