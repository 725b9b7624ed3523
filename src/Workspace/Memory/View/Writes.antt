-- ===== src/Workspace/Memory/View/Writes.antt =====
-- What a path reads as after a write or a delete.
use synth_agent_runtime.Prelude.{
  Bool, Bool-cases, List, Option, [], any, any-add, any-delete, arith, false, if◌then◌else◌,
  includes, includes-add, includes-delete, includes-keep, inl, inr, keep, keys, list_beq_iff,
  list_eq, lookup, lookup-erase, lookup-insert, lookup-keep, lookup_not_key, nat_eq, none, not,
  option_eq, pair_eq, refl, some, starts_with_trans, starts_with_append, string_eq, true, ◌&&◌,
  ◌++◌, ◌==◌, ◌||◌, ◌∷◌, ◌≡◌,
}
use synth_agent_runtime.Workspace.Snapshot.{Bytes, Text}
use synth_agent_runtime.Workspace.Paths.{normalize_relative, slash}
use synth_agent_runtime.Workspace.Memory.{
  MemoryWorkspace, drop_each, drop_path, is_under, is_within, put_bytes, remove,
}
use synth_agent_runtime.Workspace.Memory.View.{is_deleted, read, read_at, read_over, read_source}

IsDeleted-put_bytes :
    (ws : MemoryWorkspace) (p q : Text) (bytes : Bytes)
    → (p == q) ≡ false
    → is_under q p ≡ false
    → is_deleted (put_bytes p bytes ws) q ≡ is_deleted ws q
unfolding is_deleted put_bytes
IsDeleted-put_bytes ws p q bytes d u = ground (
  arith,
  includes-delete p q ws.deleted d,
  any-delete (λ gone. not (gone == []) && is_under q gone) p ws.deleted,
)

is_under_trans :
    (q key p : Text) → is_under key p ≡ true → is_under q key ≡ true → is_under q p ≡ true
unfolding is_under
is_under_trans q key p h k =
    starts_with_trans q key (p ++ slash ∷ []) h (starts_with_append q key (slash ∷ []) k)

module _ (q : Text) where
  abbrev marks : Text → Bool
  marks gone = not (gone == []) && is_under q gone

  lookup-drop_each :
      (doomed : List Text) (ws : MemoryWorkspace)
      → lookup q (drop_each doomed ws).overlay
        ≡ (if includes q doomed then none else lookup q ws.overlay)
  unfolding drop_each includes
  lookup-drop_each [] ws = refl
  lookup-drop_each (key ∷ doomed) ws =
      ground (arith, lookup-drop_each doomed (drop_path key ws), lookup-erase key q ws.overlay)

  includes-drop_each :
      (doomed : List Text) (ws : MemoryWorkspace)
      → includes q (drop_each doomed ws).deleted ≡ (includes q doomed || includes q ws.deleted)
  unfolding drop_each includes
  includes-drop_each [] ws = refl
  includes-drop_each (key ∷ doomed) ws =
      ground (arith, includes-drop_each doomed (drop_path key ws), includes-add key q ws.deleted)

  any-drop_each :
      (doomed : List Text) (ws : MemoryWorkspace)
      → any marks (drop_each doomed ws).deleted ≡ (any marks doomed || any marks ws.deleted)
  unfolding drop_each any
  any-drop_each [] ws = refl
  any-drop_each (key ∷ doomed) ws =
      ground (arith, any-drop_each doomed (drop_path key ws), any-add marks key ws.deleted)

  -- What a path without a link reads as, from what is overlaid on it.
  abbrev pub plain_over : (Bytes → Text) → MemoryWorkspace → Option Bytes → Option Bytes
  plain_over decode ws (some bytes) = some bytes
  plain_over decode ws none = if is_deleted ws q then none else read_source decode ws q

module _ (decode : Bytes → Text) where
  read_over-plain :
      (again : Text → Option Bytes) (ws : MemoryWorkspace) (q : Text) (found : Option Bytes)
      → lookup q ws.links ≡ none
      → read_over decode again ws q found ≡ plain_over q decode ws found
  read_over-plain again ws q (some bytes) h = refl
  read_over-plain again ws q none h = rw h refl

  read_no_link :
      (ws : MemoryWorkspace) (path : Text)
      → lookup (normalize_relative path) ws.links ≡ none
      → read decode ws path
        ≡ plain_over
            (normalize_relative path)
            decode
            ws
            (lookup (normalize_relative path) ws.overlay)
  unfolding read read_at
  read_no_link ws path h = read_over-plain _ ws (normalize_relative path) _ h

  plain_over_same :
      (u ws : MemoryWorkspace) (q : Text) (found : Option Bytes)
      → is_deleted u q ≡ is_deleted ws q
      → u.source ≡ ws.source
      → plain_over q decode u found ≡ plain_over q decode ws found
  unfolding read_source
  plain_over_same u ws q (some bytes) d s = refl
  plain_over_same u ws q none d s = rw (d, s) refl

  -- A path at which no link stands, and whose overlay and deletions are the same in two workspaces
  -- over one source, reads the same in both.
  read_same :
      (u ws : MemoryWorkspace) (path : Text)
      → lookup (normalize_relative path) u.links ≡ none
      → lookup (normalize_relative path) ws.links ≡ none
      → lookup (normalize_relative path) u.overlay ≡ lookup (normalize_relative path) ws.overlay
      → is_deleted u (normalize_relative path) ≡ is_deleted ws (normalize_relative path)
      → u.source ≡ ws.source
      → read decode u path ≡ read decode ws path
  read_same u ws path k h o d s =
      rw (read_no_link u path k, read_no_link ws path h, o)
        (plain_over_same u ws (normalize_relative path) _ d s)

  pub read_overlaid :
      (ws : MemoryWorkspace) (path : Text) {bytes : Bytes}
      → lookup (normalize_relative path) ws.overlay ≡ some bytes
      → read decode ws path ≡ some bytes
  unfolding read read_at
  read_overlaid ws path h = rw h refl

  -- Writing a path changes what it reads as, and nothing else that no link stands at and that
  -- does not lie under it.
  pub read-put_bytes :
      (ws : MemoryWorkspace) (p path : Text) (bytes : Bytes)
      → lookup (normalize_relative path) ws.links ≡ none
      → is_under (normalize_relative path) p ≡ false
      → read decode (put_bytes p bytes ws) path
        ≡ (if p == normalize_relative path then some bytes else read decode ws path)
  unfolding put_bytes
  read-put_bytes ws p path bytes h u = elim (Bool-cases (p == normalize_relative path)) [
    | inl e ↦ rw e (
        read_overlaid (put_bytes p bytes ws) path
          (rw (lookup-insert p (normalize_relative path) bytes ws.overlay, e) refl))
    | inr e ↦ rw e (
        read_same (put_bytes p bytes ws) ws path h h
          (rw (lookup-insert p (normalize_relative path) bytes ws.overlay, e) refl)
          (IsDeleted-put_bytes ws p (normalize_relative path) bytes e u) refl)
  ]

  unread_deleted :
      (ws : MemoryWorkspace) (path : Text)
      → lookup (normalize_relative path) ws.overlay ≡ none
      → is_deleted ws (normalize_relative path) ≡ true
      → read decode ws path ≡ none
  unfolding read read_at
  unread_deleted ws path h d = rw (h, d) refl

-- The overlaid paths under a path, in a workspace from which it is dropped.
abbrev doomed_keys : Text → MemoryWorkspace → List Text
doomed_keys p ws = keep (λ key. is_under key p) (keys (drop_path p ws).overlay)

any_Marks-keep :
    (p q : Text) (ks : List Text)
    → is_under q p ≡ false
    → any (marks q) (keep (λ key. is_under key p) ks) ≡ false
unfolding any keep
any_Marks-keep p q [] u = refl
any_Marks-keep p q (key ∷ ks) u = ground (arith, any_Marks-keep p q ks u, is_under_trans q key p)

pub lookup_link-put_bytes :
    (ws : MemoryWorkspace) (p q : Text) (bytes : Bytes)
    → lookup q (put_bytes p bytes ws).links ≡ lookup q ws.links
unfolding put_bytes
lookup_link-put_bytes ws p q bytes = refl

links-drop_each :
    (doomed : List Text) (ws : MemoryWorkspace)
    → ((drop_each doomed ws).links ≡ ws.links) × ((drop_each doomed ws).source ≡ ws.source)
unfolding drop_each
links-drop_each [] ws = (refl, refl)
links-drop_each (key ∷ doomed) ws = links-drop_each doomed (drop_path key ws)

module _ (p : Text) (q : Text) (ws : MemoryWorkspace) where
  lookup-remove :
      lookup q (remove p ws).overlay ≡ (if is_within p q then none else lookup q ws.overlay)
  unfolding remove
  lookup-remove = ground (
    arith,
    lookup-drop_each q (doomed_keys p ws) (drop_path p ws),
    includes-keep (λ key. is_under key p) q (keys (drop_path p ws).overlay),
    lookup-erase p q ws.overlay,
    lookup_not_key q (drop_path p ws).overlay,
    list_beq_iff p q,
    list_beq_iff q p,
  )

  IsDeleted-remove :
      (p == []) ≡ false → is_deleted (remove p ws) q ≡ (is_within p q || is_deleted ws q)
  unfolding remove is_deleted
  IsDeleted-remove root = ground (
    arith,
    includes-drop_each q (doomed_keys p ws) (drop_path p ws),
    any-drop_each q (doomed_keys p ws) (drop_path p ws),
    includes-keep (λ key. is_under key p) q (keys (drop_path p ws).overlay),
    any_Marks-keep p q (keys (drop_path p ws).overlay),
    includes-add p q ws.deleted,
    any-add (marks q) p ws.deleted,
    list_beq_iff p q,
    list_beq_iff q p,
  )

  pub lookup_link-remove :
      lookup q (remove p ws).links ≡ (if is_within p q then none else lookup q ws.links)
  unfolding remove
  lookup_link-remove =
      rw ((links-drop_each (doomed_keys p ws) (drop_path p ws)).0)
        (ground (arith, lookup-keep (λ link. not (is_within p link)) q ws.links))

  pub source-remove : (remove p ws).source ≡ ws.source
  unfolding remove
  source-remove = (links-drop_each (doomed_keys p ws) (drop_path p ws)).1

-- After a path is deleted, it and every path under it read as absent, and any other path at which
-- no link stands reads as before.
pub read-remove :
    (decode : Bytes → Text) (ws : MemoryWorkspace) (p path : Text)
    → (p == []) ≡ false
    → lookup (normalize_relative path) ws.links ≡ none
    → read decode (remove p ws) path
      ≡ (if is_within p (normalize_relative path) then none else read decode ws path)
read-remove decode ws p path root h =
    let q = normalize_relative path in
    elim (Bool-cases (is_within p q)) [
      | inl e ↦ rw e (
          unread_deleted decode (remove p ws) path (rw (lookup-remove p q ws, e) refl)
            (rw (IsDeleted-remove p q ws root, e) refl))
      | inr e ↦ rw e (
          read_same decode (remove p ws) ws path (rw (lookup_link-remove p q ws, e) h) h
            (rw (lookup-remove p q ws, e) refl) (rw (IsDeleted-remove p q ws root, e) refl)
            (source-remove p q ws))
    ]
