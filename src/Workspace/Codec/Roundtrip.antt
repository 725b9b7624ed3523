-- ===== src/Workspace/Codec/Roundtrip.antt =====
-- A snapshot that is written and read back is the snapshot.
use synth_agent_runtime.Prelude.{
  All, All-append, List, Map, Option, Result, String, [], add, ap, append-nil, append_assoc, arith,
  false, if_elim, includes, insert, list_eq, ltb, map, nat_eq, none, ok, option_eq, or_else,
  pair_eq, refl, some, string_eq, subst, sym, ◌++◌, ◌==◌, ◌∙◌, ◌∷◌, ◌≡◌,
}
use synth_agent_runtime.Workspace.Snapshot.{
  Bytes, SerializedWorkspaceSnapshot, Text, WorkspaceSnapshot,
}
use synth_agent_runtime.Workspace.Codec.{
  CodecError, add_entries, add_values, deserialize_workspace_snapshot, max_inline_snapshot_bytes,
  serialize_workspace_snapshot, total_bytes, written_links,
}

-- No key stands twice in a map, and no value in a set.
abbrev pub IsMap {ℓ} : {V : Type ℓ} → Map Text V → Type 0
IsMap [] = Unit
IsMap ((k, v) ∷ m) = All (λ e. (k == e.0) ≡ false) m × IsMap m

abbrev pub IsValueSet : List Text → Type 0
IsValueSet [] = Unit
IsValueSet (x ∷ xs) = All (λ y. (x == y) ≡ false) xs × IsValueSet xs

module _ {V : Type 0} where
  abbrev IsAbsent : Map Text V → Text × V → Type 0
  IsAbsent m e = All (λ p. (p.0 == e.0) ≡ false) m

  insert_absent :
      (k : Text) (v : V) (m : Map Text V) → IsAbsent m (k, v) → insert k v m ≡ m ++ (k, v) ∷ []
  unfolding insert
  insert_absent k v [] h = refl
  insert_absent k v ((j, w) ∷ m) h = rw h.0 (ap (λ r. (j, w) ∷ r) (insert_absent k v m h.1))

  IsAbsent-later :
      (k : Text) (v : V) (m es : Map Text V)
      → All (λ e. (k == e.0) ≡ false) es
      → All (IsAbsent m) es
      → All (IsAbsent (m ++ (k, v) ∷ [])) es
  IsAbsent-later k v m [] d h = tt
  IsAbsent-later k v m (e ∷ es) d h = (
    All-append (λ p. (p.0 == e.0) ≡ false) m ((k, v) ∷ []) h.0 (d.0, tt),
    IsAbsent-later k v m es d.1 h.1,
  )

  add_entries-append :
      (m es : Map Text V) → All (IsAbsent m) es → IsMap es → add_entries m es ≡ m ++ es
  unfolding add_entries
  add_entries-append m [] h v = sym (append-nil m)
  add_entries-append m ((k, x) ∷ es) h v = rw (insert_absent k x m h.0) (
      add_entries-append (m ++ (k, x) ∷ []) es (IsAbsent-later k x m es v.0 h.1) v.1
      ∙ append_assoc m ((k, x) ∷ []) es)

  none-IsAbsent : (es : Map Text V) → All (IsAbsent []) es
  none-IsAbsent [] = tt
  none-IsAbsent (e ∷ es) = (tt, none-IsAbsent es)

  -- A map that is made from the entries of a map is that map.
  add_entries-IsMap : (es : Map Text V) → IsMap es → add_entries [] es ≡ es
  add_entries-IsMap es v = add_entries-append [] es (none-IsAbsent es) v

abbrev IsNew : List Text → Text → Type 0
IsNew s x = includes x s ≡ false

IsNew-append : (x y : Text) (s : List Text) → (x == y) ≡ false → IsNew s y → IsNew (s ++ x ∷ []) y
unfolding includes
IsNew-append x y [] d h = rw d refl
IsNew-append x y (z ∷ s) d h = ground (arith, IsNew-append x y s d)

IsNew-later :
    (x : Text) (s xs : List Text)
    → All (λ y. (x == y) ≡ false) xs
    → All (IsNew s) xs
    → All (IsNew (s ++ x ∷ [])) xs
IsNew-later x s [] d h = tt
IsNew-later x s (y ∷ xs) d h = (IsNew-append x y s d.0 h.0, IsNew-later x s xs d.1 h.1)

add_values-append :
    (s xs : List Text) → All (IsNew s) xs → IsValueSet xs → add_values s xs ≡ s ++ xs
unfolding add_values add
add_values-append s [] h v = sym (append-nil s)
add_values-append s (x ∷ xs) h v = rw h.0 (
    add_values-append (s ++ x ∷ []) xs (IsNew-later x s xs v.0 h.1) v.1
    ∙ append_assoc s (x ∷ []) xs)

none-IsNew : (xs : List Text) → All (IsNew []) xs
unfolding includes
none-IsNew [] = tt
none-IsNew (x ∷ xs) = (refl, none-IsNew xs)

-- A set that is made from the values of a set is that set.
add_values-IsValueSet : (xs : List Text) → IsValueSet xs → add_values [] xs ≡ xs
add_values-IsValueSet xs v = add_values-append [] xs (none-IsNew xs) v

read_links : (links : Option (Map Text Text)) → or_else (written_links links) [] ≡ or_else links []
unfolding written_links
read_links none = refl
read_links (some []) = refl
read_links (some (l ∷ links)) = refl

module _ (encode : Bytes → String) (decode : String → Bytes) where
  -- What is written of a content reads back as that content.
  abbrev pub ReadsBack : Text × Bytes → Type 0
  ReadsBack e = decode (encode e.1) ≡ e.1

  decode_each :
      (m : Map Text Bytes)
      → All ReadsBack m
      → map
          (λ (e : Text × String). (e.0, decode e.1))
          (map (λ (e : Text × Bytes). (e.0, encode e.1)) m)
        ≡ m
  decode_each [] h = refl
  decode_each ((k, bytes) ∷ m) h = rw h.0 (ap (λ r. (k, bytes) ∷ r) (decode_each m h.1))

  abbrev written : WorkspaceSnapshot → SerializedWorkspaceSnapshot
  written s = record {
    id = s.id;
    revision = s.revision;
    overlay = map (λ (e : Text × Bytes). (e.0, encode e.1)) s.overlay;
    links = written_links s.links;
    deleted = s.deleted;
    changed = s.changed;
  }

  read_written :
      (s : WorkspaceSnapshot)
      → All ReadsBack s.overlay
      → IsMap s.overlay
      → IsMap (or_else s.links [])
      → IsValueSet s.deleted
      → IsValueSet s.changed
      → deserialize_workspace_snapshot decode (written s)
        ≡ record s { links = some (or_else s.links []) }
  unfolding deserialize_workspace_snapshot
  read_written s inverse overlay links deleted changed =
      rw
        (
          decode_each s.overlay inverse,
          read_links s.links,
          add_entries-IsMap s.overlay overlay,
          add_entries-IsMap (or_else s.links []) links,
          add_values-IsValueSet s.deleted deleted,
          add_values-IsValueSet s.changed changed,
        )
        refl

  read_back :
      (s : WorkspaceSnapshot) (w : SerializedWorkspaceSnapshot)
      → All ReadsBack s.overlay
      → IsMap s.overlay
      → IsMap (or_else s.links [])
      → IsValueSet s.deleted
      → IsValueSet s.changed
      → written s ≡ w
      → deserialize_workspace_snapshot decode w ≡ record s { links = some (or_else s.links []) }
  read_back s w inverse overlay links deleted changed e =
      subst
        (λ u.
          deserialize_workspace_snapshot decode u ≡ record s { links = some (or_else s.links []) })
        e (read_written s inverse overlay links deleted changed)

  same_value :
      (u w : SerializedWorkspaceSnapshot) → ◌≡◌ {A = Result CodecError _} (ok u) (ok w) → u ≡ w
  same_value u w e = cc

  -- Reading back a snapshot that was written gives the snapshot, when `decode` reads back what
  -- `encode` writes of its contents, and no path stands twice in one of its maps and sets. A snapshot without links comes
  -- back with an empty map of links.
  pub deserialize-serialize :
      (s : WorkspaceSnapshot) (w : SerializedWorkspaceSnapshot)
      → All ReadsBack s.overlay
      → IsMap s.overlay
      → IsMap (or_else s.links [])
      → IsValueSet s.deleted
      → IsValueSet s.changed
      → serialize_workspace_snapshot encode s ≡ ok w
      → deserialize_workspace_snapshot decode w ≡ record s { links = some (or_else s.links []) }
  unfolding serialize_workspace_snapshot
  deserialize-serialize s w inverse overlay links deleted changed =
      if_elim
        (λ r.
          r ≡ ok w
          → deserialize_workspace_snapshot decode w
            ≡ record s { links = some (or_else s.links []) })
        (ltb max_inline_snapshot_bytes (total_bytes s.overlay)) _ _ (λ _ e. absurd (cc))
        (λ _ e. read_back s w inverse overlay links deleted changed (same_value (written s) w e))
