-- ===== src/Workspace/Paths/Tests.antt =====
-- Paths that go down and up again.
use synth_agent_runtime.Prelude.{
  [], list_beq, list_eq, nat_eq, option_beq, option_eq, pair_eq, push_unit, refl, split_at,
  starts_with, string_eq, ◌++◌, ◌∷◌, ◌≡◌,
}
use synth_agent_runtime.Workspace.Snapshot.{Text}
use synth_agent_runtime.Workspace.Paths.{escapes_workspace, normal_parts, raw_parts, walk}
use synth_agent_runtime.Workspace.Paths.Normal.{walk-under}

-- "a/../b"
abbrev down_and_up : Text
down_and_up = 97 ∷ 47 ∷ 46 ∷ 46 ∷ 47 ∷ 98 ∷ []

walk-under_example :
    walk ((99 ∷ []) ∷ []) (raw_parts down_and_up) ≡ ((99 ∷ []) ∷ []) ++ normal_parts down_and_up
unfolding escapes_workspace starts_with option_beq split_at push_unit list_beq
walk-under_example = walk-under ((99 ∷ []) ∷ []) down_and_up refl
