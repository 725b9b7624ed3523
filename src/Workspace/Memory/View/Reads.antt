-- ===== src/Workspace/Memory/View/Reads.antt =====
-- That a read ends, and what it reads after a write or a delete.
use native.Mathlib.Nat
use synth_agent_runtime.Prelude.{
  All, List, Option, Option-cases, [], ap, append_assoc, arith, drop_last, if◌then◌else◌, inl, inr,
  join_with, length, length-append, list_eq, lookup, nat_eq, none, option_eq, pair_eq, refl, some,
  string_eq, subst, suc, sym, zero, ℕ, ◌++◌, ◌+◌, ◌∙◌, ◌∷◌, ◌≡◌, ◌≤◌, ◌⊎◌,
}
use synth_agent_runtime.Workspace.Snapshot.{Bytes, Text}
use synth_agent_runtime.Workspace.Paths.{normal_parts, normalize_relative, slash}
use synth_agent_runtime.Workspace.Paths.Normal.{
  All-drop_last, IsName, normal_parts-IsName, normal_parts-join_with,
}
use synth_agent_runtime.Workspace.Links.Containment.{
  lineage, resolve_symlink_target-IsPlain, segments-join_with,
}
use synth_agent_runtime.Workspace.Memory.{MemoryWorkspace, link_at}
use synth_agent_runtime.Workspace.Memory.View.{is_deleted, read, read_at, read_over, read_resolved}
use synth_agent_runtime.Workspace.Links.{
  SymlinkTargetResolution, cycle, escapes, resolve_symlink_target, resolved, too_deep,
}

-- A path is no link, or has at most `bound` parts.
abbrev IsShort : MemoryWorkspace → ℕ → List Text → Type 0
IsShort ws bound parts = (link_at ws (join_with slash parts) ≡ none) ⊎ (length parts ≤ bound)

length-lineage :
    (ws : MemoryWorkspace) (bound : ℕ) (before parts : List Text)
    → length before + length parts ≤ bound
    → All (IsShort ws bound) (lineage before parts)
length-lineage ws bound before [] h = tt
length-lineage ws bound before (p ∷ parts) h =
    let l = length-append before (p ∷ []) in
    (inr (omega arith), length-lineage ws bound (before ++ p ∷ []) parts (omega arith))

length-drop_last-le :
    {A : Type 0} (n : ℕ) (xs : List A) → length xs ≤ suc n → length (drop_last xs) ≤ n
unfolding drop_last
length-drop_last-le n [] h = omega arith
length-drop_last-le n (x ∷ []) h = omega arith
length-drop_last-le zero (x ∷ y ∷ xs) h = omega arith
length-drop_last-le (suc n) (x ∷ y ∷ xs) h =
    omega (arith, length-drop_last-le n (y ∷ xs) (omega arith))

-- The last of the directories down to a part is the part itself.
last-lineage :
    (P : List Text → Type 0) (before : List Text) (part : Text) (parts : List Text)
    → All P (lineage before (part ∷ parts))
    → P (before ++ part ∷ parts)
last-lineage P before part [] h = h.0
last-lineage P before part (next ∷ parts) h =
    subst P (append_assoc before (part ∷ []) (next ∷ parts))
      (last-lineage P (before ++ part ∷ []) next parts h.1)

normalize_relative-join_with :
    (names : List Text)
    → All IsName names
    → normalize_relative (join_with slash names) ≡ join_with slash names
unfolding normalize_relative
normalize_relative-join_with names h = ap (join_with slash) (normal_parts-join_with names h)

normalize_relative_nil :
    (path : Text) → length (normal_parts path) ≤ 0 → normalize_relative path ≡ []
unfolding normalize_relative join_with
normalize_relative_nil path h = go (normal_parts path) h
  where
    go : (parts : List Text) → length parts ≤ 0 → join_with slash parts ≡ []
    go [] k = refl
    go (part ∷ parts) k = absurd (omega arith)

module _ (decode : Bytes → Text) (ws : MemoryWorkspace) where
  read_at_no_link :
      (a b : Option Bytes) (m n : ℕ) (path : Text)
      → lookup (normalize_relative path) ws.links ≡ none
      → read_at decode a (suc m) ws path ≡ read_at decode b (suc n) ws path
  unfolding read_at
  read_at_no_link a b m n path h = go (lookup (normalize_relative path) ws.overlay)
    where
      go :
          (found : Option Bytes)
          → read_over decode (read_at decode a m ws) ws (normalize_relative path) found
            ≡ read_over decode (read_at decode b n ws) ws (normalize_relative path) found
      go (some bytes) = refl
      go none = rw h refl

  -- What a link at a path of at most `suc n` parts resolves to is no link, or has at most `n` parts.
  link_leads :
      (n : ℕ) (path link : Text) {to : Text}
      → length (normal_parts path) ≤ suc n
      → resolve_symlink_target (link_at ws) (normalize_relative path) link none ≡ resolved to
      → (dir : List Text) × (to ≡ join_with slash dir)
        × All IsName dir
        × All (IsShort ws n) (lineage [] dir)
  unfolding normalize_relative
  link_leads n path link {to} h e =
      let names = normal_parts-IsName path in
      let parts = segments-join_with (normal_parts path) names in
      let short = length-drop_last-le n (normal_parts path) h in
      let r =
        resolve_symlink_target-IsPlain (link_at ws) (IsShort ws n) (λ _ free. inl free)
          (normalize_relative path) link none
          (rw parts (
            All-drop_last IsName (normal_parts path) names,
            length-lineage ws n [] (drop_last (normal_parts path)) (omega arith),
          ))
          e in
      (r.0, r.1, r.2.0, r.2.1)

  read_resolved_same :
      (f g : Text → Option Bytes) (r : SymlinkTargetResolution)
      → ((to : Text) → r ≡ resolved to → f to ≡ g to)
      → read_resolved decode f r ≡ read_resolved decode g r
  read_resolved_same f g (resolved to) h = h to refl
  read_resolved_same f g (escapes p t) h = refl
  read_resolved_same f g (cycle p) h = refl
  read_resolved_same f g (too_deep p) h = refl

  read_over_same :
      (f g : Text → Option Bytes) (p : Text) (found : Option Bytes)
      → ((link : Text) (to : Text)
          → resolve_symlink_target (link_at ws) p link none ≡ resolved to
          → f to ≡ g to)
      → read_over decode f ws p found ≡ read_over decode g ws p found
  read_over_same f g p (some bytes) h = refl
  read_over_same f g p none h = elim (Option-cases (lookup p ws.links)) [
    | inl e ↦ rw e refl
    | inr (link, e) ↦ rw e (
        ap (λ r. if is_deleted ws p then none else r)
          (read_resolved_same f g (resolve_symlink_target (link_at ws) p link none) (h link)))
  ]

  one_more_call-named :
      (a b : Option Bytes) (n : ℕ) (names : List Text)
      → All IsName names
      → All (IsShort ws n) (lineage [] names)
      → lookup [] ws.links ≡ none
      → ((path : Text)
          → length (normal_parts path) ≤ n
          → read_at decode a (suc (suc n)) ws path ≡ read_at decode b (suc n) ws path)
      → read_at decode a (suc (suc n)) ws (join_with slash names)
        ≡ read_at decode b (suc n) ws (join_with slash names)
  unfolding join_with link_at
  one_more_call-named a b n [] v s root short_ones =
      read_at_no_link a b (suc n) n _ (rw (normalize_relative-join_with [] tt) root)
  one_more_call-named a b n (name ∷ names) v s root short_ones =
      elim (last-lineage (IsShort ws n) [] name names s) [
        | inl free ↦ read_at_no_link a b (suc n) n _ free
        | inr short ↦ short_ones _ (rw (normal_parts-join_with (name ∷ names) v) short)
      ]

  -- One more call changes nothing once there is a call more than the path has parts, whatever the
  -- calls beyond the bounds would answer.
  one_more_call :
      (a b : Option Bytes) (n : ℕ) (path : Text)
      → length (normal_parts path) ≤ n
      → lookup [] ws.links ≡ none
      → read_at decode a (suc (suc n)) ws path ≡ read_at decode b (suc n) ws path
  unfolding read_at
  one_more_call a b zero path h root =
      read_at_no_link a b 1 0 path (rw (normalize_relative_nil path h) root)
  one_more_call a b (suc n) path h root =
      read_over_same (read_at decode a (suc (suc n)) ws) (read_at decode b (suc n) ws)
        (normalize_relative path) (lookup (normalize_relative path) ws.overlay)
        (λ link to e.
          let led = link_leads n path link h e in
          rw led.1 (
            one_more_call-named a b n led.0 led.2 led.3 root (λ q k. one_more_call a b n q k root)))

  more_calls :
      (a b : Option Bytes) (more : ℕ) (path : Text)
      → lookup [] ws.links ≡ none
      → read_at decode a (suc (suc (more + length (normal_parts path)))) ws path
        ≡ read_at decode b (suc (suc (length (normal_parts path)))) ws path
  more_calls a b zero path root =
      let n = length (normal_parts path) in
      rw (Nat.zero-add) (
        one_more_call a none n path (omega arith) root
        ∙ sym (one_more_call b none n path (omega arith) root))
  more_calls a b (suc more) path root = rw (Nat.suc-add) (
      one_more_call a a (suc (more + length (normal_parts path))) path (omega arith) root
      ∙ more_calls a b more path root)

  -- A read ends: when no link stands at the root, it never makes a call beyond its bound, nor beyond
  -- a larger one: whatever such a call would answer, the bytes are the same.
  pub read_ends :
      (beyond : Option Bytes) (more : ℕ) (path : Text)
      → lookup [] ws.links ≡ none
      → read_at decode beyond (suc (suc (more + length (normal_parts path)))) ws path
        ≡ read decode ws path
  unfolding read
  read_ends beyond = more_calls beyond none
