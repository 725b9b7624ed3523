-- ===== src/Execution/TextReplace/Tolerant.antt =====
-- A replacement of the one block of lines that matches but for its indentation.
use native.Mathlib.Nat
use synth_agent_runtime.Prelude.{
  All, All-map, List, [], ap, arith, beq_eq, drop, drop-drop, drop-length_append, find, if_elim,
  includes, join_with, length, list_eq, nat_eq, none, not, option_eq, pair_eq, refl, some, split_at,
  string_eq, subst, suc, sym, take, take-length_append, true, ℕ, ◌++◌, ◌+◌, ◌==◌, ◌∙◌, ◌∷◌, ◌≡◌,
}
use synth_agent_runtime.Workspace.Snapshot.{Text}
use synth_agent_runtime.Execution.TextReplace.{
  at_only_start, block_matches, indent_of, is_blank, line_feed, reindent,
  replace_ignoring_indentation, splice_block, starts_from, trim_last,
}

-- The block at `at`, `start` lines further on than `lines`, matches.
abbrev StartsAt : List Text → List Text → ℕ → ℕ → Type 0
StartsAt lines olds start at =
    (before : List Text) × (after : List Text) × (lines ≡ before ++ after)
    × (start + length before ≡ at)
    × (block_matches after olds ≡ true)

StartsAt-later :
    (line : Text) (lines olds : List Text) (start at : ℕ)
    → StartsAt lines olds (suc start) at
    → StartsAt (line ∷ lines) olds start at
StartsAt-later line lines olds start at h =
    (line ∷ h.0, h.1, ap (λ r. line ∷ r) h.2, omega (arith, h.3), h.4)

starts_from-StartsAt :
    (start : ℕ) (lines olds : List Text)
    → All (StartsAt lines olds start) (starts_from start lines olds)
unfolding starts_from
starts_from-StartsAt start [] olds =
    if_elim (All (StartsAt [] olds start)) (block_matches [] olds) (start ∷ []) []
      (λ m. (([], [], refl, omega arith, m), tt)) (λ _. tt)
starts_from-StartsAt start (line ∷ lines) olds =
    let later =
      All-map (StartsAt lines olds (suc start)) (StartsAt (line ∷ lines) olds start)
        (starts_from (suc start) lines olds) (StartsAt-later line lines olds start)
        (starts_from-StartsAt (suc start) lines olds) in
    if_elim (All (StartsAt (line ∷ lines) olds start)) (block_matches (line ∷ lines) olds) _ _
      (λ m. (([], line ∷ lines, refl, omega arith, m), later)) (λ _. later)

-- A block that matches is found.
includes-starts_from :
    (start : ℕ) (before after olds : List Text)
    → block_matches after olds ≡ true
    → includes (start + length before) (starts_from start (before ++ after) olds) ≡ true
unfolding starts_from includes
includes-starts_from start [] [] olds h = ground (arith, h, nat_eq.same_iff start (start + 0))
includes-starts_from start [] (line ∷ after) olds h =
    ground (arith, h, nat_eq.same_iff start (start + 0))
includes-starts_from start (line ∷ before) after olds h =
    let moved : start + suc (length before) ≡ suc start + length before = omega arith in
    rw moved (ground (arith, includes-starts_from (suc start) before after olds h))

-- the lines put for a block: the new text, at the indentation of the block's first line that is not blank
abbrev pub put_lines : Text → List Text → List Text
put_lines new_text block =
    split_at line_feed (reindent new_text (indent_of (find (λ line. not (is_blank line)) block)))

-- One block of lines matches and no other, and the lines around it stay as they are.
abbrev pub IsSpliced : List Text → List Text → Text → Text → Type 0
IsSpliced lines olds new_text text =
    (before : List Text) × (after : List Text) × (lines ≡ before ++ after)
    × (block_matches after olds ≡ true)
    × ((b a : List Text) → lines ≡ b ++ a → block_matches a olds ≡ true → length b ≡ length before)
    × (text
        ≡ join_with line_feed
            (before ++ (put_lines new_text (take (length olds) after) ++ drop (length olds) after)))

only_start :
    (lines olds : List Text) (start : ℕ)
    → starts_from 0 lines olds ≡ start ∷ []
    → (b a : List Text) → lines ≡ b ++ a
    → block_matches a olds ≡ true
    → length b ≡ start
unfolding includes
only_start lines olds start s b a e m =
    let found : includes (length b) (start ∷ []) ≡ true =
      subst (λ starts. includes (length b) starts ≡ true)
        (ap (λ ls. starts_from 0 ls olds) (sym e) ∙ s)
        (rw (Nat.zero-add) at (includes-starts_from 0 b a olds m)) in
    sym (beq_eq start (length b) (ground arith))

splice_block-IsSpliced :
    (lines olds : List Text) (start : ℕ) (new_text : Text)
    → starts_from 0 lines olds ≡ start ∷ []
    → StartsAt lines olds 0 start
    → IsSpliced lines olds new_text (splice_block lines olds start new_text)
unfolding splice_block
splice_block-IsSpliced lines olds start new_text s h =
    let at_length : start ≡ length h.0 = omega (arith, h.3) in
    let kept_before : take start lines ≡ h.0 = rw (at_length, h.2) (take-length_append h.0 h.1) in
    let block : drop start lines ≡ h.1 = rw (at_length, h.2) (drop-length_append h.0 h.1) in
    let kept_after : drop (start + length olds) lines ≡ drop (length olds) h.1 =
      sym (drop-drop start (length olds) lines) ∙ ap (drop (length olds)) block in
    (
      h.0,
      h.1,
      h.2,
      h.4,
      λ b a e m. only_start lines olds start s b a e m ∙ at_length,
      rw (kept_before, kept_after, block) refl,
    )

at_only_start-IsSpliced :
    (lines olds : List Text) (new_text : Text) (starts : List ℕ) {text : Text}
    → starts_from 0 lines olds ≡ starts
    → All (StartsAt lines olds 0) starts
    → at_only_start lines olds new_text starts ≡ some text
    → IsSpliced lines olds new_text text
at_only_start-IsSpliced lines olds new_text [] s h e = absurd (cc)
at_only_start-IsSpliced lines olds new_text (start ∷ []) {text} s h e =
    subst (IsSpliced lines olds new_text) (cc)
      (splice_block-IsSpliced lines olds start new_text s h.0)
at_only_start-IsSpliced lines olds new_text (start ∷ next ∷ starts) s h e = absurd (cc)

-- A replacement that ignores indentation is made only where one block of lines matches the old text
-- so and no other block does. The lines before and after the block stay as they are, and the new
-- text, at the indentation of the block, stands in its place.
pub replace_ignoring_indentation_block :
    (content old_text new_text : Text) {text : Text}
    → replace_ignoring_indentation content old_text new_text ≡ some text
    → IsSpliced (split_at line_feed content) (trim_last (split_at line_feed old_text)) new_text text
unfolding replace_ignoring_indentation
replace_ignoring_indentation_block content old_text new_text {text} e =
    let lines = split_at line_feed content in
    let olds = trim_last (split_at line_feed old_text) in
    if_elim (λ found. found ≡ some text → IsSpliced lines olds new_text text) (olds == []) none
      (at_only_start lines olds new_text (starts_from 0 lines olds)) (λ _ f. absurd (cc))
      (λ _ f.
        at_only_start-IsSpliced lines olds new_text _ refl (starts_from-StartsAt 0 lines olds) f)
      e
