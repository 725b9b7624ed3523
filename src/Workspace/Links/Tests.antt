-- ===== src/Workspace/Links/Tests.antt =====
-- A link that leads through another one.
use synth_agent_runtime.Prelude.{
  All, List, Option, [], drop_last, if◌then◌else◌, includes, join_with, keep, list_beq, list_eq,
  nat_eq, none, option_beq, option_eq, pair_eq, push_unit, refl, some, split_at, starts_with,
  string_eq, ◌==◌, ◌∷◌, ◌≡◌,
}
use synth_agent_runtime.Workspace.Snapshot.{Text}
use synth_agent_runtime.Workspace.Paths.{slash}
use synth_agent_runtime.Workspace.Paths.Normal.{IsName}
use synth_agent_runtime.Workspace.Links.{resolve_symlink_target}
use synth_agent_runtime.Workspace.Links.Containment.{
  IsNoLink, lineage, resolve_symlink_target-inside,
}

-- `d` is a link to `e`.
abbrev d_leads_to_e : Text → Option Text
d_leads_to_e path = if path == 100 ∷ [] then some (101 ∷ []) else none

-- The link `l` to `d/x` leads to `e/x`.
resolve_symlink_target-inside_example :
    (dir : List Text) × ((101 ∷ 47 ∷ 120 ∷ []) ≡ join_with slash dir)
    × All IsName dir
    × All (IsNoLink d_leads_to_e) (lineage [] dir)
unfolding resolve_symlink_target drop_last keep split_at push_unit list_beq starts_with join_with
    includes option_beq
resolve_symlink_target-inside_example =
    resolve_symlink_target-inside d_leads_to_e (108 ∷ []) (100 ∷ 47 ∷ 120 ∷ []) none tt tt refl
