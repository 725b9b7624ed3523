-- ===== src/Workspace/Paths.antt =====
-- src/workspace/source.ts (`normalizeRelative`) and src/execution/workspace-errors.ts. A path is the
-- list of its code units: 46 is `.`, 47 is `/`, 58 is `:` and 92 is the backslash.
pub mod Normal
mod Tests
use synth_agent_runtime.Prelude.{
  Bool, List, Option, [], drop_last, false, if◌then◌else◌, join_with, keep, leb, list_eq, nat_eq,
  none, not, option_eq, pair_eq, some, split_at, starts_with, string_eq, suc, zero, ℕ, ◌&&◌, ◌++◌,
  ◌==◌, ◌||◌, ◌∷◌,
}
use synth_agent_runtime.Workspace.Snapshot.{Text}

abbrev pub slash : ℕ
slash = 47

abbrev pub dot : Text
dot = 46 ∷ []

abbrev pub dot_dot : Text
dot_dot = 46 ∷ 46 ∷ []

-- `path.replace(/\\/g, "/")`
unfoldable pub with_slashes : Text → Text
with_slashes [] = []
with_slashes (c ∷ path) = (if c == 92 then slash else c) ∷ with_slashes path

unfoldable pub raw_parts : Text → List Text
unfolding with_slashes
raw_parts path = split_at slash (with_slashes path)

-- `!raw || raw === "."`
unfoldable pub is_skipped : Text → Bool
is_skipped raw = (raw == []) || (raw == dot)

-- one turn of the loop: `parts.pop()` or `parts.push(raw)`
unfoldable pub enter : List Text → Text → List Text
unfolding is_skipped
enter parts raw =
    if is_skipped raw then parts else if raw == dot_dot then drop_last parts else parts ++ raw ∷ []

unfoldable pub walk : List Text → List Text → List Text
unfolding enter
walk parts [] = parts
walk parts (raw ∷ rest) = walk (enter parts raw) rest

unfoldable pub normal_parts : Text → List Text
unfolding raw_parts walk
normal_parts path = walk [] (raw_parts path)

unfoldable pub normalize_relative : Text → Text
unfolding normal_parts
normalize_relative path = join_with slash (normal_parts path)

-- `/^[A-Za-z]:[\\/]/`
unfoldable pub is_letter : ℕ → Bool
is_letter c = (leb 65 c && leb c 90) || (leb 97 c && leb c 122)

unfoldable pub has_drive : Text → Bool
unfolding is_letter
has_drive (c ∷ colon ∷ mark ∷ path) =
    is_letter c && ((colon == 58) && ((mark == 92) || (mark == slash)))
has_drive [] = false
has_drive (c ∷ []) = false
has_drive (c ∷ colon ∷ []) = false

-- `path.startsWith("/") || /^[A-Za-z]:[\\/]/.test(path)`
unfoldable pub is_absolute : Text → Bool
unfolding has_drive
is_absolute path = starts_with path (slash ∷ []) || has_drive path

-- One turn of the loop over the parts: the next depth, or `none` where it returns true.
unfoldable pub above : ℕ → Option ℕ
above zero = none
above (suc depth) = some depth

unfoldable pub next_depth : ℕ → Text → Option ℕ
unfolding is_skipped above
next_depth depth raw =
    if is_skipped raw then some depth else if raw == dot_dot then above depth else some (suc depth)

unfoldable pub depth_after : Option ℕ → List Text → Option ℕ
unfolding next_depth
depth_after none parts = none
depth_after (some depth) [] = some depth
depth_after (some depth) (raw ∷ rest) = depth_after (next_depth depth raw) rest

unfoldable pub climbs : List Text → Bool
unfolding depth_after
climbs parts = depth_after (some 0) parts == none

unfoldable pub escapes_workspace : Text → Bool
unfolding is_absolute raw_parts climbs
escapes_workspace path = is_absolute path || climbs (raw_parts path)

-- `parts.filter((part) => part && part !== ".")`
unfoldable pub segments : Text → List Text
unfolding raw_parts is_skipped
segments path = keep (λ part. not (is_skipped part)) (raw_parts path)

-- The proper prefixes of a list of parts, the shortest first, each joined.
unfoldable pub prefixes : List Text → List Text → List Text
prefixes before [] = []
prefixes before (part ∷ []) = []
prefixes before (part ∷ next ∷ parts) =
    join_with slash (before ++ part ∷ []) ∷ prefixes (before ++ part ∷ []) (next ∷ parts)

unfoldable pub ancestor_paths : Text → List Text
unfolding segments prefixes
ancestor_paths path = prefixes [] (segments path)
