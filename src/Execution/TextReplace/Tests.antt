-- ===== src/Execution/TextReplace/Tests.antt =====
-- Replacements of one line.
use synth_agent_runtime.Prelude.{
  [], any, find, includes, join_with, list_beq, list_eq, nat_eq, option_eq, pair_eq, push_unit,
  refl, some, split_at, starts_with, string_eq, ◌++◌, ◌∷◌, ◌≡◌,
}
use synth_agent_runtime.Workspace.Snapshot.{Text}
use synth_agent_runtime.Execution.TextReplace.{
  count_occurrences, line_feed, replace_ignoring_indentation, replace_in_text, trim_last,
}
use synth_agent_runtime.Execution.TextReplace.Exact.{replace_in_text_once}
use synth_agent_runtime.Execution.TextReplace.Tolerant.{
  IsSpliced, replace_ignoring_indentation_block,
}

-- "ab", of which "b" becomes "c"
replace_in_text_once_example :
    (before : Text) × (after : Text) × ((97 ∷ 98 ∷ []) ≡ before ++ ((98 ∷ []) ++ after))
    × ((replace_in_text [] (λ _. []) (97 ∷ 98 ∷ []) (98 ∷ []) (99 ∷ [])).content
        ≡ some (before ++ ((99 ∷ []) ++ after)))
unfolding count_occurrences list_beq starts_with includes
replace_in_text_once_example =
    replace_in_text_once [] (λ _. []) (97 ∷ 98 ∷ []) (98 ∷ []) (99 ∷ []) refl refl refl

-- The line "b", indented by a tab, is asked for with a space, and becomes "c".
abbrev indented : Text
indented = 97 ∷ 10 ∷ 9 ∷ 98 ∷ []

replace_ignoring_indentation_block_example :
    IsSpliced
      (split_at line_feed indented)
      (trim_last (split_at line_feed (32 ∷ 98 ∷ [])))
      (99 ∷ [])
      (97 ∷ 10 ∷ 9 ∷ 99 ∷ [])
unfolding replace_ignoring_indentation list_beq split_at push_unit join_with any includes
    starts_with find
replace_ignoring_indentation_block_example =
    replace_ignoring_indentation_block indented (32 ∷ 98 ∷ []) (99 ∷ []) refl
