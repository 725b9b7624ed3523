-- ===== src/Workspace/Links/Containment.antt =====
-- A resolved target stays in the workspace and passes through no link.
use synth_agent_runtime.Prelude.{
  All, All-append, All-map, List, Option, [], ap, append_assoc, drop_last, if_elim, includes,
  join_with, keep, length, list_beq, list_eq, nat_eq, none, not, option_eq, or_else, pair_eq, refl,
  some, split_at, string_eq, suc, zero, ℕ, ◌++◌, ◌==◌, ◌∙◌, ◌∷◌, ◌≡◌,
}
use synth_agent_runtime.Workspace.Snapshot.{Text}
use synth_agent_runtime.Workspace.Paths.{
  depth_after, dot_dot, is_absolute, is_skipped, raw_parts, segments, slash, walk, with_slashes,
}
use synth_agent_runtime.Workspace.Paths.Normal.{
  All-drop_last, IsName, IsRaw, raw_parts-IsRaw, raw_parts-join_with, walk-IsName,
}
use synth_agent_runtime.Workspace.Links.{
  Stop, Turn, at_end, at_link, climbed, cycle, default_max_depth, escapes, follow, leave, meet, met,
  reenter, refused, resolve_link_target, resolve_symlink_target, resolved, scan, too_deep, turn,
  walk_within, went,
}

-- Every directory on the way down `parts` from `before`, and the last part, as lists of parts.
abbrev pub lineage : List Text → List Text → List (List Text)
lineage before [] = []
lineage before (part ∷ parts) = (before ++ part ∷ []) ∷ lineage (before ++ part ∷ []) parts

lineage-append :
    (before parts : List Text) (part : Text)
    → lineage before (parts ++ part ∷ [])
      ≡ lineage before parts ++ (before ++ (parts ++ part ∷ [])) ∷ []
lineage-append before [] part = refl
lineage-append before (p ∷ parts) part =
    ap (λ r. (before ++ p ∷ []) ∷ r)
      (rw (append_assoc before (p ∷ []) (parts ++ part ∷ [])) at
        (lineage-append (before ++ p ∷ []) parts part))

keep_names :
    (names : List Text) → All IsName names → keep (λ part. not (is_skipped part)) names ≡ names
unfolding keep
keep_names [] h = refl
keep_names (name ∷ names) h = rw h.0.0 (ap (λ r. name ∷ r) (keep_names names h.1))

pub segments-join_with :
    (names : List Text) → All IsName names → segments (join_with slash names) ≡ names
unfolding segments raw_parts with_slashes split_at join_with is_skipped keep list_beq
segments-join_with [] h = refl
segments-join_with (name ∷ names) h =
    rw (raw_parts-join_with name names h) (keep_names (name ∷ names) h)

-- The path of names, none of them empty, `.` or `..`.
abbrev pub IsNamed : Text → Type 0
IsNamed path = (names : List Text) × (path ≡ join_with slash names) × All IsName names

walk_within-IsNamed :
    (parts raws : List Text) {path : Text}
    → All IsName parts
    → All IsRaw raws
    → walk_within parts raws ≡ some path
    → IsNamed path
unfolding walk_within
walk_within-IsNamed parts raws {path} v r e =
    if_elim (λ o. o ≡ some path → IsNamed path) (depth_after (some (length parts)) raws == none)
      none (some (join_with slash (walk parts raws))) (λ _ f. absurd (cc))
      (λ _ f. (walk parts raws, cc, walk-IsName parts raws v r)) e

resolve_link_target-IsNamed :
    (candidate target : Text) {path : Text}
    → IsNamed candidate
    → resolve_link_target candidate target ≡ some path
    → IsNamed path
unfolding resolve_link_target
resolve_link_target-IsNamed candidate target {path} n e =
    if_elim (λ o. o ≡ some path → IsNamed path) (is_absolute target) none _ (λ _ f. absurd (cc))
      (λ _ f.
        walk_within-IsNamed (drop_last (segments candidate)) (raw_parts target)
          (rw (n.1, segments-join_with n.0 n.2) (All-drop_last IsName n.0 n.2))
          (raw_parts-IsRaw target) f)
      e

module _ (read_link : Text → Option Text) where
  abbrev pub IsNoLink : List Text → Type 0
  IsNoLink parts = read_link (join_with slash parts) ≡ none

-- `P` holds of all that is no link.
module _ (read_link : Text → Option Text) (P : List Text → Type 0)
    (fresh : (parts : List Text) → IsNoLink read_link parts → P parts) where
  -- A directory of names for which, as for those above it, `P` holds.
  abbrev pub IsPlain : List Text → Type 0
  IsPlain dir = All IsName dir × All P (lineage [] dir)

  abbrev IsPlainStop : Stop → Type 0
  IsPlainStop (at_end dir) = IsPlain dir
  IsPlainStop (refused path target) = Unit
  IsPlainStop (at_link candidate target pending) = IsNamed candidate × All IsRaw pending

  abbrev IsPlainTurn : Turn → Type 0
  IsPlainTurn (went dir) = IsPlain dir
  IsPlainTurn climbed = Unit
  IsPlainTurn (met candidate target) = IsNamed candidate

  lineage-drop_last :
      (before parts : List Text)
      → All P (lineage before parts)
      → All P (lineage before (drop_last parts))
  unfolding drop_last
  lineage-drop_last before [] h = tt
  lineage-drop_last before (p ∷ []) h = tt
  lineage-drop_last before (p ∷ q ∷ parts) h =
      (h.0, lineage-drop_last (before ++ p ∷ []) (q ∷ parts) h.1)

  IsPlain-leave : (dir : List Text) → IsPlain dir → IsPlainTurn (leave dir)
  unfolding leave
  IsPlain-leave [] v = tt
  IsPlain-leave (part ∷ dir) v =
      (All-drop_last IsName (part ∷ dir) v.0, lineage-drop_last [] (part ∷ dir) v.1)

  IsPlain-meet :
      (dir : List Text) (raw : Text) (found : Option Text)
      → read_link (join_with slash (dir ++ raw ∷ [])) ≡ found
      → IsPlain dir
      → IsName raw
      → IsPlainTurn (meet (join_with slash (dir ++ raw ∷ [])) (dir ++ raw ∷ []) found)
  unfolding meet
  IsPlain-meet dir raw none e v n = (
    All-append IsName dir (raw ∷ []) v.0 (n, tt),
    rw (lineage-append [] dir raw) (All-append P (lineage [] dir) _ v.1 (fresh _ e, tt)),
  )
  IsPlain-meet dir raw (some target) e v n =
      (dir ++ raw ∷ [], refl, All-append IsName dir (raw ∷ []) v.0 (n, tt))

  IsPlain-turn :
      (dir : List Text) (raw : Text)
      → IsPlain dir
      → IsRaw raw
      → IsPlainTurn (turn read_link dir raw)
  unfolding turn
  IsPlain-turn dir raw v r =
      if_elim IsPlainTurn (is_skipped raw) _ _ (λ _. v)
        (λ s.
          if_elim IsPlainTurn (raw == dot_dot) _ _ (λ _. IsPlain-leave dir v)
            (λ d. IsPlain-meet dir raw _ refl v (s, d, r.0, r.1)))

  module _ (link_path target : Text) where
    IsPlain-scan :
        (state : Turn) (pending : List Text)
        → IsPlainTurn state
        → All IsRaw pending
        → IsPlainStop (scan read_link link_path target state pending)
    unfolding scan
    IsPlain-scan climbed pending v r = tt
    IsPlain-scan (met candidate link_target) pending v r = (v, r)
    IsPlain-scan (went dir) [] v r = v
    IsPlain-scan (went dir) (raw ∷ pending) v r =
        IsPlain-scan (turn read_link dir raw) pending (IsPlain-turn dir raw v r.0) r.1

    -- What a link leads to, resolved from its parent, has names for parts.
    IsPlain-reenter :
        (candidate link_target : Text) (found : Option Text) (pending : List Text)
        → ((path : Text) → found ≡ some path → IsNamed path)
        → All IsRaw pending
        → IsPlainStop (reenter read_link link_path target candidate link_target found pending)
    unfolding reenter
    IsPlain-reenter candidate link_target none pending named r = tt
    IsPlain-reenter candidate link_target (some path) pending named r =
        let n = named path refl in
        let parts : segments path ≡ n.0 = ap segments n.1 ∙ segments-join_with n.0 n.2 in
        rw parts (
          IsPlain-scan (went []) (n.0 ++ pending) (tt, tt)
            (All-append IsRaw n.0 pending (All-map IsName IsRaw n.0 (λ _ v. (v.2, v.3)) n.2) r))

    IsPlain-follow :
        (budget : ℕ) (visited : List Text) (stop : Stop) {path : Text}
        → IsPlainStop stop
        → follow read_link link_path target budget visited stop ≡ resolved path
        → (dir : List Text) × (path ≡ join_with slash dir) × IsPlain dir
    unfolding follow
    IsPlain-follow budget visited (at_end dir) v e = (dir, cc, v)
    IsPlain-follow budget visited (refused p t) v e = absurd (cc)
    IsPlain-follow zero visited (at_link c t pending) {path} v e =
        if_elim
          (λ r. r ≡ resolved path → (dir : List Text) × (path ≡ join_with slash dir) × IsPlain dir)
          (includes c visited) (cycle c) (too_deep c) (λ _ f. absurd (cc)) (λ _ f. absurd (cc)) e
    IsPlain-follow (suc budget) visited (at_link c t pending) {path} v e =
        if_elim
          (λ r. r ≡ resolved path → (dir : List Text) × (path ≡ join_with slash dir) × IsPlain dir)
          (includes c visited) (cycle c) _ (λ _ f. absurd (cc))
          (λ _ f.
            IsPlain-follow budget (c ∷ visited) _
              (IsPlain-reenter c t _ pending (λ p. resolve_link_target-IsNamed c t v.0) v.1) f)
          e

  pub resolve_symlink_target-IsPlain :
      (link_path target : Text) (max_depth : Option ℕ) {path : Text}
      → IsPlain (drop_last (segments link_path))
      → resolve_symlink_target read_link link_path target max_depth ≡ resolved path
      → (dir : List Text) × (path ≡ join_with slash dir) × IsPlain dir
  unfolding resolve_symlink_target
  resolve_symlink_target-IsPlain link_path target max_depth {path} v e =
      if_elim
        (λ r. r ≡ resolved path → (dir : List Text) × (path ≡ join_with slash dir) × IsPlain dir)
        (is_absolute target) (escapes link_path target) _ (λ _ f. absurd (cc))
        (λ _ f.
          IsPlain-follow link_path target (or_else max_depth default_max_depth) [] _
            (IsPlain-scan link_path target (went (drop_last (segments link_path)))
              (raw_parts target) v (raw_parts-IsRaw target))
            f)
        e

-- A target that is resolved from a link whose parent consists of names and is reached through no link
-- is a path of names, none of them empty, `.` or `..`; neither it nor a directory above it is a link.
pub resolve_symlink_target-inside :
    (read_link : Text → Option Text) (link_path target : Text) (max_depth : Option ℕ) {path : Text}
    → All IsName (drop_last (segments link_path))
    → All (IsNoLink read_link) (lineage [] (drop_last (segments link_path)))
    → resolve_symlink_target read_link link_path target max_depth ≡ resolved path
    → (dir : List Text) × (path ≡ join_with slash dir)
      × All IsName dir
      × All (IsNoLink read_link) (lineage [] dir)
resolve_symlink_target-inside read_link link_path target max_depth named plain e =
    let r =
      resolve_symlink_target-IsPlain read_link (IsNoLink read_link) (λ _ h. h) link_path target
        max_depth (named, plain) e in
    (r.0, r.1, r.2.0, r.2.1)
