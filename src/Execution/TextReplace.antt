-- ===== src/Execution/TextReplace.antt =====
-- src/execution/text-replace.ts. A text is the list of its code units: 9 is the tab, 10 the line feed,
-- 32 the space and 36 `$`.
pub mod Exact
pub mod Tolerant
mod Tests
use synth_agent_runtime.Prelude.{
  Bool, List, Option, [], any, drop, drop_last, false, find, if◌then◌else◌, includes, join_with,
  last, leb, length, list_eq, ltb, map, nat_eq, none, not, option_eq, pair_eq, some, split_at,
  starts_with, string_eq, suc, take, true, zero, ℕ, ◌&&◌, ◌++◌, ◌+◌, ◌-◌, ◌==◌, ◌||◌, ◌∷◌,
}
use synth_agent_runtime.Workspace.Snapshot.{Text}

pub record TextReplaceResult : Type 0 where
  pub is_ok : Bool
  pub content : Option Text
  pub occurrences : ℕ
  pub tolerant : Option Bool
  pub error : Option Text

abbrev pub line_feed : ℕ
line_feed = 10

-- `[ \t]`
abbrev pub is_indent : ℕ → Bool
is_indent c = (c == 32) || (c == 9)

unfoldable pub leading_whitespace : Text → Text
leading_whitespace [] = []
leading_whitespace (c ∷ line) =
    let rest = leading_whitespace line in if is_indent c then c ∷ rest else []

unfoldable pub without_indentation : Text → Text
without_indentation [] = []
without_indentation (c ∷ line) =
    let rest = without_indentation line in if is_indent c then rest else c ∷ line

-- what `trim` removes
abbrev pub is_space : ℕ → Bool
is_space c =
    (leb 9 c && leb c 13)
    || includes c (32 ∷ 160 ∷ 5760 ∷ 8232 ∷ 8233 ∷ 8239 ∷ 8287 ∷ 12288 ∷ 65279 ∷ [])
    || (leb 8192 c && leb c 8202)

-- `line.trim().length === 0`
unfoldable pub is_blank : Text → Bool
is_blank line = not (any (λ c. not (is_space c)) line)

-- `found ? leadingWhitespace(found) : ""`, for a line that is found not blank
abbrev pub indent_of : Option Text → Text
indent_of none = []
indent_of (some line) = leading_whitespace line

unfoldable pub reindent_line : Text → Text → Text → Text
unfolding is_blank without_indentation
reindent_line source_indent target_indent line =
    if is_blank line
    then []
    else if starts_with line source_indent
    then target_indent ++ drop (length source_indent) line
    else target_indent ++ without_indentation line

unfoldable pub reindent : Text → Text → Text
unfolding is_blank leading_whitespace reindent_line
reindent new_text target_indent =
    let lines = split_at line_feed new_text in
    let source_indent = indent_of (find (λ line. not (is_blank line)) lines) in
    join_with line_feed (map (reindent_line source_indent target_indent) lines)

-- `if (oldLines.length > 1 && oldLines[oldLines.length - 1] === "") oldLines.pop()`
unfoldable pub trim_last : List Text → List Text
trim_last lines = if ltb 1 (length lines) && (last lines == some []) then drop_last lines else lines

-- The comparison of a block of lines, at the start of the lines that remain.
unfoldable pub block_matches : List Text → List Text → Bool
unfolding without_indentation
block_matches lines [] = true
block_matches [] (old ∷ olds) = false
block_matches (line ∷ lines) (old ∷ olds) =
    (without_indentation line == without_indentation old) && block_matches lines olds

unfoldable pub starts_from : ℕ → List Text → List Text → List ℕ
unfolding block_matches
starts_from start [] olds = if block_matches [] olds then start ∷ [] else []
starts_from start (line ∷ lines) olds =
    let rest = starts_from (suc start) lines olds in
    if block_matches (line ∷ lines) olds then start ∷ rest else rest

-- The lines with the block at `start` replaced.
unfoldable pub splice_block : List Text → List Text → ℕ → Text → Text
unfolding reindent is_blank leading_whitespace
splice_block lines olds start new_text =
    let block = take (length olds) (drop start lines) in
    let target_indent = indent_of (find (λ line. not (is_blank line)) block) in
    let replacement = split_at line_feed (reindent new_text target_indent) in
    join_with line_feed (take start lines ++ (replacement ++ drop (start + length olds) lines))

abbrev pub at_only_start : List Text → List Text → Text → List ℕ → Option Text
at_only_start lines olds new_text [] = none
at_only_start lines olds new_text (start ∷ []) = some (splice_block lines olds start new_text)
at_only_start lines olds new_text (start ∷ next ∷ starts) = none

unfoldable pub replace_ignoring_indentation : Text → Text → Text → Option Text
unfolding trim_last starts_from splice_block
replace_ignoring_indentation content old_text new_text =
    let lines = split_at line_feed content in
    let olds = trim_last (split_at line_feed old_text) in
    if olds == [] then none else at_only_start lines olds new_text (starts_from 0 lines olds)

-- `content.split(oldText).length - 1`; `skip` counts the rest of an occurrence.
unfoldable pub count_from : ℕ → Text → Text → ℕ
count_from skip old_text [] = 0
count_from (suc skip) old_text (c ∷ content) = count_from skip old_text content
count_from zero old_text (c ∷ content) =
    let here = starts_with (c ∷ content) old_text in
    let rest = count_from (if here then length old_text - 1 else 0) old_text content in
    if here then suc rest else rest

unfoldable pub count_occurrences : Text → Text → ℕ
unfolding count_from
count_occurrences old_text content = count_from 0 old_text content

-- What stands before and after the first occurrence.
abbrev pub shift_match : ℕ → Option (Text × Text) → Option (Text × Text)
shift_match c none = none
shift_match c (some (before, after)) = some (c ∷ before, after)

unfoldable pub first_match : Text → Text → Option (Text × Text)
first_match old_text [] = if old_text == [] then some ([], []) else none
first_match old_text (c ∷ content) =
    let later = shift_match c (first_match old_text content) in
    if starts_with (c ∷ content) old_text
    then some ([], drop (length old_text) (c ∷ content))
    else later

-- The patterns of `replace` in the new text: `$$`, `$&`, `` $` `` and `$'`.
abbrev pub special : Text → Text → Text → ℕ → Text
special matched before after c =
    if c == 36
    then 36 ∷ []
    else if c == 38
    then matched
    else if c == 96
    then before
    else if c == 39
    then after
    else 36 ∷ c ∷ []

unfoldable pub expand : Text → Text → Text → Bool → Text → Text
expand matched before after false [] = []
expand matched before after true [] = 36 ∷ []
expand matched before after false (c ∷ text) =
    (if c == 36 then [] else c ∷ []) ++ expand matched before after (c == 36) text
expand matched before after true (c ∷ text) =
    special matched before after c ++ expand matched before after false text

-- `content.replace(oldText, newText)`
abbrev pub put_match : Text → Text → Text → Option (Text × Text) → Text
put_match content old_text new_text none = content
put_match content old_text new_text (some (before, after)) =
    before ++ (expand old_text before after false new_text ++ after)

unfoldable pub replace_first : Text → Text → Text → Text
unfolding first_match expand
replace_first content old_text new_text =
    put_match content old_text new_text (first_match old_text content)

-- The messages, of which the source makes one from the count.
module _ (empty_message : Text) (count_message : ℕ → Text) where
  abbrev pub refusal : ℕ → TextReplaceResult
  refusal occurrences = record {
    is_ok = false;
    content = none;
    occurrences = occurrences;
    tolerant = none;
    error = some (count_message occurrences);
  }

  abbrev pub tolerant_result : ℕ → Option Text → TextReplaceResult
  tolerant_result occurrences none = refusal occurrences
  tolerant_result occurrences (some text) = record {
    is_ok = true;
    content = some text;
    occurrences = 1;
    tolerant = some true;
    error = none;
  }

  unfoldable pub replace_in_text : Text → Text → Text → TextReplaceResult
  unfolding count_occurrences replace_first replace_ignoring_indentation
  replace_in_text content old_text new_text =
      let occurrences = count_occurrences old_text content in
      if old_text == []
      then record {
        is_ok = false;
        content = none;
        occurrences = 0;
        tolerant = none;
        error = some empty_message;
      }
      else if occurrences == 1
      then record {
        is_ok = true;
        content = some (replace_first content old_text new_text);
        occurrences = 1;
        tolerant = none;
        error = none;
      }
      else if occurrences == 0
      then tolerant_result occurrences (replace_ignoring_indentation content old_text new_text)
      else refusal occurrences
