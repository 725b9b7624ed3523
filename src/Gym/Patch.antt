-- ===== src/Gym/Patch.antt =====
-- src/gym/scoring.ts: which paths a patch mentions, and which an agent must not change. What git's own
-- parser adds is not modelled. A text is the list of its code units: 34 is the quote and 47 the slash.
pub mod Lines
pub mod Protected
pub mod Tampering
mod Tests
use synth_agent_runtime.Prelude.{
  Bool, List, Option, [], add, any, drop, drop_last, false, find, if◌then◌else◌, includes, leb,
  length, list_eq, nat_eq, none, not, option_eq, pair_eq, some, split_at, starts_with, string_eq, ℕ,
  ◌&&◌, ◌++◌, ◌==◌, ◌||◌, ◌∷◌,
}
use synth_agent_runtime.Workspace.Snapshot.{Text}
use synth_agent_runtime.Execution.TextReplace.{is_space, line_feed}

-- "test/"
abbrev pub test_directory : Text
test_directory = 116 ∷ 101 ∷ 115 ∷ 116 ∷ 47 ∷ []

-- "tests/"
abbrev pub tests_directory : Text
tests_directory = 116 ∷ 101 ∷ 115 ∷ 116 ∷ 115 ∷ 47 ∷ []

-- "package.json"
abbrev pub package_file : Text
package_file = 112 ∷ 97 ∷ 99 ∷ 107 ∷ 97 ∷ 103 ∷ 101 ∷ 46 ∷ 106 ∷ 115 ∷ 111 ∷ 110 ∷ []

-- "package-lock.json"
abbrev pub lock_file : Text
lock_file =
    112 ∷ 97 ∷ 99 ∷ 107 ∷ 97 ∷ 103 ∷ 101 ∷ 45 ∷ 108 ∷ 111 ∷ 99 ∷ 107 ∷ 46 ∷ 106 ∷ 115 ∷ 111 ∷ 110
    ∷ []

-- ".mocharc"
abbrev pub mocha_file : Text
mocha_file = 46 ∷ 109 ∷ 111 ∷ 99 ∷ 104 ∷ 97 ∷ 114 ∷ 99 ∷ []

-- "jest.config"
abbrev pub jest_file : Text
jest_file = 106 ∷ 101 ∷ 115 ∷ 116 ∷ 46 ∷ 99 ∷ 111 ∷ 110 ∷ 102 ∷ 105 ∷ 103 ∷ []

-- "vitest.config"
abbrev pub vitest_file : Text
vitest_file = 118 ∷ 105 ∷ 116 ∷ 101 ∷ 115 ∷ 116 ∷ 46 ∷ 99 ∷ 111 ∷ 110 ∷ 102 ∷ 105 ∷ 103 ∷ []

-- "tsconfig"
abbrev pub tsconfig : Text
tsconfig = 116 ∷ 115 ∷ 99 ∷ 111 ∷ 110 ∷ 102 ∷ 105 ∷ 103 ∷ []

-- ".json"
abbrev pub json_suffix : Text
json_suffix = 46 ∷ 106 ∷ 115 ∷ 111 ∷ 110 ∷ []

-- ".github/"
abbrev pub github_directory : Text
github_directory = 46 ∷ 103 ∷ 105 ∷ 116 ∷ 104 ∷ 117 ∷ 98 ∷ 47 ∷ []

-- ".git/"
abbrev pub git_directory : Text
git_directory = 46 ∷ 103 ∷ 105 ∷ 116 ∷ 47 ∷ []

unfoldable pub ends_with : Text → Text → Bool
ends_with [] suffix = suffix == []
ends_with (c ∷ text) suffix = let later = ends_with text suffix in ((c ∷ text) == suffix) || later

-- a match of an unanchored pattern, at any place
unfoldable pub matches_within : (Text → Bool) → Text → Bool
matches_within matches [] = matches []
matches_within matches (c ∷ text) =
    let later = matches_within matches text in matches (c ∷ text) || later

-- `(^|\/)`: a match at the start or behind a slash
unfoldable pub matches_behind : (Text → Bool) → Text → Bool
matches_behind matches [] = false
matches_behind matches (c ∷ text) =
    let later = matches_behind matches text in ((c == 47) && matches text) || later

abbrev pub matches_part : (Text → Bool) → Text → Bool
matches_part matches path = matches path || matches_behind matches path

-- `tsconfig[^/]*\.json$`
abbrev pub is_tsconfig : Text → Bool
is_tsconfig text =
    starts_with text tsconfig
    && (not (includes 47 (drop (length tsconfig) text))
        && ends_with (drop (length tsconfig) text) json_suffix)

-- `PROTECTED_PATTERNS.some((pattern) => pattern.test(path))`
unfoldable pub is_protected : Text → Bool
unfolding ends_with matches_within matches_behind
is_protected path =
    matches_part (λ t. starts_with t test_directory || starts_with t tests_directory) path
    || matches_part (λ t. t == package_file) path
    || matches_part (λ t. t == lock_file) path
    || matches_within (λ t. starts_with t mocha_file) path
    || matches_within (λ t. starts_with t jest_file) path
    || matches_within (λ t. starts_with t vitest_file) path
    || matches_part is_tsconfig path
    || matches_part (λ t. starts_with t github_directory) path
    || matches_part (λ t. starts_with t git_directory) path

unfoldable pub is_tampering : List Text → Bool
unfolding is_protected
is_tampering paths = any is_protected paths

-- `value.length >= 2 && value.startsWith('"') && value.endsWith('"')`
unfoldable pub strip_quotes : Text → Text
unfolding ends_with
strip_quotes value =
    if leb 2 (length value) && (starts_with value (34 ∷ []) && ends_with value (34 ∷ []))
    then drop_last (drop 1 value)
    else value

unfoldable pub trim_start : Text → Text
trim_start [] = []
trim_start (c ∷ text) = let rest = trim_start text in if is_space c then rest else c ∷ text

-- A text of spaces is trimmed away, and what stands before the last other unit is kept.
unfoldable pub trim_end : Text → Text
trim_end [] = []
trim_end (c ∷ text) =
    let rest = trim_end text in if is_space c && (rest == []) then [] else c ∷ rest

abbrev pub trim : Text → Text
trim text = trim_end (trim_start text)

-- "/dev/null"
abbrev pub dev_null : Text
dev_null = 47 ∷ 100 ∷ 101 ∷ 118 ∷ 47 ∷ 110 ∷ 117 ∷ 108 ∷ 108 ∷ []

abbrev pub strip_side : Text → Text
strip_side path =
    if starts_with path (97 ∷ 47 ∷ []) || starts_with path (98 ∷ 47 ∷ []) then drop 2 path else path

abbrev pub path_if_any : Text → List Text
path_if_any path = if path == [] then [] else path ∷ []

-- The path that `add` adds for a token, if any.
unfoldable pub path_of_token : Text → List Text
unfolding strip_quotes trim_start trim_end
path_of_token token =
    let path = strip_quotes (trim token) in
    if (path == []) || (path == dev_null) then [] else path_if_any (strip_side path)

-- The state of the matching of `/"[^"]*"|\S+/g`: between tokens, in a word, or in quotes.
pub data Scan : Type 0 where
  between : Scan
  word quoted : Text → Scan

-- What one unit, with those behind it, does to the state, and the token that it ends.
unfoldable pub scan_unit : Scan → ℕ → Text → Scan × List Text
scan_unit between c rest =
    if is_space c
    then (between, [])
    else if (c == 34) && includes 34 rest
    then (quoted (c ∷ []), [])
    else (word (c ∷ []), [])
scan_unit (word token) c rest =
    if is_space c then (between, token ∷ []) else (word (token ++ c ∷ []), [])
scan_unit (quoted token) c rest =
    if c == 34 then (between, (token ++ c ∷ []) ∷ []) else (quoted (token ++ c ∷ []), [])

unfoldable pub tokens_from : Scan → Text → List Text
unfolding scan_unit
tokens_from between [] = []
tokens_from (word token) [] = token ∷ []
tokens_from (quoted token) [] = token ∷ []
tokens_from scan (c ∷ rest) = let next = scan_unit scan c rest in next.1 ++ tokens_from next.0 rest

unfoldable pub paths_of_tokens : List Text → List Text
unfolding path_of_token
paths_of_tokens [] = []
paths_of_tokens (token ∷ tokens) = path_of_token token ++ paths_of_tokens tokens

-- "diff --git "
abbrev pub diff_header : Text
diff_header = 100 ∷ 105 ∷ 102 ∷ 102 ∷ 32 ∷ 45 ∷ 45 ∷ 103 ∷ 105 ∷ 116 ∷ 32 ∷ []

-- "--- "
abbrev pub old_header : Text
old_header = 45 ∷ 45 ∷ 45 ∷ 32 ∷ []

-- "+++ "
abbrev pub new_header : Text
new_header = 43 ∷ 43 ∷ 43 ∷ 32 ∷ []

-- "rename from "
abbrev pub rename_from : Text
rename_from = 114 ∷ 101 ∷ 110 ∷ 97 ∷ 109 ∷ 101 ∷ 32 ∷ 102 ∷ 114 ∷ 111 ∷ 109 ∷ 32 ∷ []

-- "rename to "
abbrev pub rename_to : Text
rename_to = 114 ∷ 101 ∷ 110 ∷ 97 ∷ 109 ∷ 101 ∷ 32 ∷ 116 ∷ 111 ∷ 32 ∷ []

-- "copy from "
abbrev pub copy_from : Text
copy_from = 99 ∷ 111 ∷ 112 ∷ 121 ∷ 32 ∷ 102 ∷ 114 ∷ 111 ∷ 109 ∷ 32 ∷ []

-- "copy to "
abbrev pub copy_to : Text
copy_to = 99 ∷ 111 ∷ 112 ∷ 121 ∷ 32 ∷ 116 ∷ 111 ∷ 32 ∷ []

-- `/^(rename|copy) (from|to) /`: the header, if there is one
unfoldable pub moved_header : Text → Option Text
moved_header line = find (starts_with line) (rename_from ∷ rename_to ∷ copy_from ∷ copy_to ∷ [])

abbrev pub moved_paths : Text → Option Text → List Text
moved_paths line none = []
moved_paths line (some header) = path_of_token (drop (length header) line)

-- The paths of one line of a patch.
unfoldable pub line_paths : Text → List Text
unfolding tokens_from paths_of_tokens moved_header
line_paths line =
    if starts_with line diff_header
    then paths_of_tokens (tokens_from between (drop (length diff_header) line))
    else if starts_with line old_header || starts_with line new_header
    then path_of_token (drop 4 line)
    else moved_paths line (moved_header line)

abbrev pub add_paths : List Text → List Text → List Text
add_paths paths [] = paths
add_paths paths (p ∷ ps) = add_paths (add p paths) ps

unfoldable pub lines_paths : List Text → List Text → List Text
unfolding line_paths
lines_paths paths [] = paths
lines_paths paths (line ∷ lines) = lines_paths (add_paths paths (line_paths line)) lines

unfoldable pub parse_patch_paths : Text → List Text
unfolding lines_paths
parse_patch_paths patch = lines_paths [] (split_at line_feed patch)
