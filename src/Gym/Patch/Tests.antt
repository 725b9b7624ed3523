-- ===== src/Gym/Patch/Tests.antt =====
-- Patches with protected paths.
use synth_agent_runtime.Gym.Patch.Protected.{is_file}
use synth_agent_runtime.Gym.Patch.Tampering.{is_tampering-protected}
use synth_agent_runtime.Prelude.{
  [], add, any, drop_last, false, find, includes, inr, list_beq, list_eq, nat_eq, option_eq,
  pair_eq, push_unit, refl, split_at, starts_with, string_eq, true, ◌++◌, ◌∷◌, ◌≡◌,
}
use synth_agent_runtime.Workspace.Snapshot.{Text}
use synth_agent_runtime.Execution.TextReplace.{line_feed}
use synth_agent_runtime.Gym.Patch.{
  diff_header, git_directory, is_tampering, lock_file, new_header, old_header, package_file,
  parse_patch_paths, path_of_token, rename_from, tests_directory,
}

-- "--- tests/a"
abbrev protected_patch : Text
protected_patch = old_header ++ tests_directory ++ 97 ∷ []

-- "+++ b/c"
abbrev harmless_patch : Text
harmless_patch = new_header ++ 98 ∷ 47 ∷ 99 ∷ []

harmless : is_tampering (parse_patch_paths harmless_patch) ≡ false
unfolding is_tampering any parse_patch_paths split_at push_unit starts_with list_beq includes add
harmless = refl

-- "b/" is dropped from a path.
harmless_paths : parse_patch_paths harmless_patch ≡ (99 ∷ []) ∷ []
unfolding parse_patch_paths split_at push_unit starts_with list_beq includes add
harmless_paths = refl

-- "rename from package.json"
moved_away : is_tampering (parse_patch_paths (rename_from ++ package_file)) ≡ true
unfolding is_tampering any parse_patch_paths split_at push_unit starts_with find list_beq includes
    add
moved_away = refl

-- "diff --git a/x \"b/.git/y\""
quoted_path :
    is_tampering (
      parse_patch_paths
        (diff_header ++ 97 ∷ 47 ∷ 120 ∷ 32 ∷ 34 ∷ 98 ∷ 47 ∷ git_directory ++ 121 ∷ 34 ∷ []))
    ≡ true
unfolding is_tampering any parse_patch_paths split_at push_unit starts_with includes list_beq
    drop_last add
quoted_path = refl

-- The second patch makes both tampering.
second_patch :
    is_tampering (parse_patch_paths (harmless_patch ++ line_feed ∷ protected_patch)) ≡ true
unfolding is_tampering any parse_patch_paths split_at push_unit starts_with list_beq includes add
second_patch = refl

-- The lock file was moved away from a directory `ab`.
abbrev lock_path : Text
lock_path = 97 ∷ 98 ∷ 47 ∷ lock_file

is_tampering-protected_example :
    is_tampering (
      parse_patch_paths
        (harmless_patch ++ line_feed ∷ ((rename_from ++ lock_path) ++ line_feed ∷ harmless_patch)))
    ≡ true
unfolding includes path_of_token list_beq starts_with
is_tampering-protected_example =
    is_tampering-protected harmless_patch rename_from lock_path harmless_patch refl refl refl
      (is_file lock_file refl (inr (97 ∷ 98 ∷ [], refl)))
