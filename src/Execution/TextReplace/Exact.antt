-- ===== src/Execution/TextReplace/Exact.antt =====
-- A replacement at the one exact occurrence.
use synth_agent_runtime.Prelude.{
  Bool-cases, Lacks, Option, Option-cases, [], ap, append-nil, arith, beq_eq, drop, false, if_elim,
  includes, inl, inr, length, list_eq, nat_eq, none, option_eq, pair_eq, refl, some, starts_with,
  string_eq, subst, sym, true, ℕ, ◌++◌, ◌==◌, ◌∙◌, ◌∷◌, ◌≡◌, ◌≤◌,
}
use synth_agent_runtime.Workspace.Snapshot.{Text}
use synth_agent_runtime.Execution.TextReplace.{
  count_from, count_occurrences, expand, first_match, replace_first, replace_in_text, shift_match,
}

starts_with-drop :
    (text prefix : Text)
    → starts_with text prefix ≡ true
    → text ≡ prefix ++ drop (length prefix) text
unfolding starts_with
starts_with-drop text [] h = refl
starts_with-drop [] (c ∷ prefix) h = absurd (ground arith)
starts_with-drop (d ∷ text) (c ∷ prefix) h =
    let same : d ≡ c = (nat_eq.same_iff d c).0 (ground arith) in
    let rest : starts_with text prefix ≡ true = ground arith in
    rw same (ap (λ r. c ∷ r) (starts_with-drop text prefix rest))

-- Where an occurrence is found, the content is what stands before it, it, and what stands after it.
abbrev IsSplit : Text → Text → Option (Text × Text) → Type 0
IsSplit content old_text none = Unit
IsSplit content old_text (some (before, after)) = content ≡ before ++ (old_text ++ after)

IsSplit-shift_match :
    (c : ℕ) (content old_text : Text) (found : Option (Text × Text))
    → IsSplit content old_text found
    → IsSplit (c ∷ content) old_text (shift_match c found)
IsSplit-shift_match c content old_text none h = tt
IsSplit-shift_match c content old_text (some (before, after)) h = ap (λ r. c ∷ r) h

first_match-IsSplit :
    (old_text content : Text) → IsSplit content old_text (first_match old_text content)
unfolding first_match
first_match-IsSplit old_text [] =
    if_elim (IsSplit [] old_text) (old_text == []) (some ([], [])) none
      (λ e. rw (beq_eq old_text [] e) refl) (λ _. tt)
first_match-IsSplit old_text (c ∷ content) =
    if_elim (IsSplit (c ∷ content) old_text) (starts_with (c ∷ content) old_text) _ _
      (λ e. starts_with-drop (c ∷ content) old_text e)
      (λ _. IsSplit-shift_match c content old_text _ (first_match-IsSplit old_text content))

shift_match-some :
    (c : ℕ) (found : Option (Text × Text)) → shift_match c found ≡ none → found ≡ none
shift_match-some c none h = refl
shift_match-some c (some m) h = absurd (cc)

-- An occurrence that is counted is found.
first_match-count :
    (old_text content : Text)
    → first_match old_text content ≡ none
    → count_from 0 old_text content ≡ 0
unfolding first_match count_from
first_match-count old_text [] h = refl
first_match-count old_text (c ∷ content) h =
    elim (Bool-cases (starts_with (c ∷ content) old_text)) [
      | inl e ↦ absurd (ground arith)
      | inr e ↦ rw e (
          first_match-count old_text content
            (shift_match-some c (first_match old_text content) (rw e at h)))
    ]

-- A text without `$` is put as it stands.
expand_plain :
    (matched before after text : Text)
    → Lacks 36 text
    → expand matched before after false text ≡ text
unfolding expand includes
expand_plain matched before after [] h = refl
expand_plain matched before after (c ∷ text) h =
    let plain : (c == 36) ≡ false = ground arith in
    rw plain (ap (λ r. c ∷ r) (expand_plain matched before after text (ground arith)))

module _ (empty_message : Text) (count_message : ℕ → Text) where
  replace_in_text_expanded :
      (content old_text new_text : Text)
      → (old_text == []) ≡ false
      → count_occurrences old_text content ≡ 1
      → (before : Text) × (after : Text) × (content ≡ before ++ (old_text ++ after))
        × ((replace_in_text empty_message count_message content old_text new_text).content
            ≡ some (before ++ (expand old_text before after false new_text ++ after)))
  unfolding replace_in_text count_occurrences replace_first
  replace_in_text_expanded content old_text new_text full once =
      elim (Option-cases (first_match old_text content)) [
        | inl gone ↦ absurd (ground (arith, first_match-count old_text content gone))
        | inr (m, found) ↦ (
          m.0,
          m.1,
          subst (IsSplit content old_text) found (first_match-IsSplit old_text content),
          rw (full, once, found) refl,
        )
      ]

  -- An old text, not empty, that occurs once is replaced there by a new text without `$`: what stands
  -- before it and after it stays.
  pub replace_in_text_once :
      (content old_text new_text : Text)
      → (old_text == []) ≡ false
      → count_occurrences old_text content ≡ 1
      → Lacks 36 new_text
      → (before : Text) × (after : Text) × (content ≡ before ++ (old_text ++ after))
        × ((replace_in_text empty_message count_message content old_text new_text).content
            ≡ some (before ++ (new_text ++ after)))
  replace_in_text_once content old_text new_text full once plain =
      let r = replace_in_text_expanded content old_text new_text full once in
      (r.0, r.1, r.2, rw (expand_plain old_text r.0 r.1 new_text plain) at r.3)

  -- A new text `$&` stands for the old text: the edit that should write it, at the one occurrence of
  -- an old text that is not empty, changes nothing.
  pub replace_in_text_dollar :
      (content old_text : Text)
      → (old_text == []) ≡ false
      → count_occurrences old_text content ≡ 1
      → (replace_in_text empty_message count_message content old_text (36 ∷ 38 ∷ [])).content
        ≡ some content
  unfolding expand
  replace_in_text_dollar content old_text full once =
      let r = replace_in_text_expanded content old_text (36 ∷ 38 ∷ []) full once in
      r.3 ∙ ap some (rw (append-nil old_text) (sym r.2))

  -- An old text that occurs more than once is refused, whatever a match that ignores indentation
  -- would find.
  pub replace_in_text_ambiguous :
      (content old_text new_text : Text)
      → 2 ≤ count_occurrences old_text content
      → ((replace_in_text empty_message count_message content old_text new_text).is_ok ≡ false)
        × ((replace_in_text empty_message count_message content old_text new_text).content ≡ none)
  unfolding replace_in_text
  replace_in_text_ambiguous content old_text new_text many = elim (Bool-cases (old_text == [])) [
    | inl e ↦ rw e (refl, refl)
    | inr e ↦
        let once : (count_occurrences old_text content == 1) ≡ false = ground arith in
        let absent : (count_occurrences old_text content == 0) ≡ false = ground arith in
        rw (e, once, absent) (refl, refl)
  ]
