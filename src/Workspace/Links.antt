-- ===== src/Workspace/Links.antt =====
-- src/workspace/symlink-target.ts. `read_link` gives the target of a path that is a link.
pub mod Containment
pub mod Depth
mod Tests
use synth_agent_runtime.Prelude.{
  List, Option, [], drop_last, if◌then◌else◌, includes, join_with, length, list_eq, nat_eq, none,
  option_eq, or_else, pair_eq, some, string_eq, suc, zero, ℕ, ◌++◌, ◌==◌, ◌∷◌,
}
use synth_agent_runtime.Workspace.Snapshot.{Text}
use synth_agent_runtime.Workspace.Paths.{
  depth_after, dot_dot, is_absolute, is_skipped, raw_parts, segments, slash, walk,
}

pub data SymlinkTargetResolution : Type 0 where
  resolved : Text → SymlinkTargetResolution
  escapes : Text → Text → SymlinkTargetResolution
  cycle too_deep : Text → SymlinkTargetResolution

abbrev pub default_max_depth : ℕ
default_max_depth = 16

-- The loop from a directory at its depth: `none` where it returns `escapes: true`.
unfoldable pub walk_within : List Text → List Text → Option Text
unfolding depth_after walk
walk_within parts raws =
    if depth_after (some (length parts)) raws == none
    then none
    else some (join_with slash (walk parts raws))

unfoldable pub resolve_link_target : Text → Text → Option Text
unfolding is_absolute segments raw_parts walk_within
resolve_link_target link_path target =
    if is_absolute target
    then none
    else walk_within (drop_last (segments link_path)) (raw_parts target)

-- What the loop does with one pending part: it goes on in a directory, it climbs above the root,
-- or it meets a link.
pub data Turn : Type 0 where
  went : List Text → Turn
  climbed : Turn
  met : Text → Text → Turn

-- Where a run over the pending parts stops: at their end, at a refusal, or at a link with the
-- parts that remain.
pub data Stop : Type 0 where
  at_end : List Text → Stop
  refused : Text → Text → Stop
  at_link : Text → Text → List Text → Stop

-- `dir.slice(0, -1)`, above the root a refusal
unfoldable pub leave : List Text → Turn
leave [] = climbed
leave (part ∷ dir) = went (drop_last (part ∷ dir))

unfoldable pub meet : Text → List Text → Option Text → Turn
meet candidate dir none = went dir
meet candidate dir (some target) = met candidate target

module _ (read_link : Text → Option Text) where
  unfoldable pub turn : List Text → Text → Turn
  unfolding is_skipped leave meet
  turn dir raw =
      if is_skipped raw
      then went dir
      else if raw == dot_dot
      then leave dir
      else meet (join_with slash (dir ++ raw ∷ [])) (dir ++ raw ∷ [])
          (read_link (join_with slash (dir ++ raw ∷ [])))

  module _ (link_path target : Text) where
    unfoldable pub scan : Turn → List Text → Stop
    unfolding turn
    scan climbed pending = refused link_path target
    scan (met candidate link_target) pending = at_link candidate link_target pending
    scan (went dir) [] = at_end dir
    scan (went dir) (raw ∷ pending) = scan (turn dir raw) pending

    -- A link's target is resolved, and the run goes on from the root.
    unfoldable pub reenter : Text → Text → Option Text → List Text → Stop
    unfolding scan segments
    reenter candidate link_target none pending = refused candidate link_target
    reenter candidate link_target (some path) pending = scan (went []) (segments path ++ pending)

    -- `budget` is `maxDepth - followed`.
    unfoldable pub follow : ℕ → List Text → Stop → SymlinkTargetResolution
    unfolding reenter resolve_link_target
    follow budget visited (at_end dir) = resolved (join_with slash dir)
    follow budget visited (refused path link_target) = escapes path link_target
    follow zero visited (at_link candidate link_target pending) =
        if includes candidate visited then cycle candidate else too_deep candidate
    follow (suc budget) visited (at_link candidate link_target pending) =
        let next =
          follow budget (candidate ∷ visited)
            (reenter candidate link_target (resolve_link_target candidate link_target) pending) in
        if includes candidate visited then cycle candidate else next

  unfoldable pub resolve_symlink_target : Text → Text → Option ℕ → SymlinkTargetResolution
  unfolding is_absolute segments raw_parts scan follow
  resolve_symlink_target link_path target max_depth =
      if is_absolute target
      then escapes link_path target
      else follow link_path target (or_else max_depth default_max_depth) []
          (scan link_path target (went (drop_last (segments link_path))) (raw_parts target))
