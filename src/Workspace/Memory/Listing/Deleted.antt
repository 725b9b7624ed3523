-- ===== src/Workspace/Memory/Listing/Deleted.antt =====
-- What a listing says of deleted entries.
use synth_agent_runtime.Prelude.{
  Bool-cases, List, [], arith, beq_eq, beq_refl, delete, false, if_elim, if◌then◌else◌, includes,
  inl, inr, list_eq, nat_eq, option_eq, pair_eq, refl, string_eq, true, ◌==◌, ◌||◌, ◌∷◌, ◌≡◌,
}
use synth_agent_runtime.Workspace.Snapshot.{Text}
use synth_agent_runtime.Workspace.Paths.{normalize_relative}
use synth_agent_runtime.Workspace.Memory.{MemoryWorkspace}
use synth_agent_runtime.Workspace.Memory.Listing.{
  drop_names, insert_sorted, list_dir, parent_of, relative_to, sort_texts,
}

includes-insert_sorted :
    (x s : Text) (ts : List Text) → includes x (insert_sorted s ts) ≡ ((s == x) || includes x ts)
unfolding insert_sorted includes
includes-insert_sorted x s [] = refl
includes-insert_sorted x s (t ∷ ts) = ground (arith, includes-insert_sorted x s ts)

pub includes-sort_texts : (x : Text) (ts : List Text) → includes x (sort_texts ts) ≡ includes x ts
unfolding sort_texts includes
includes-sort_texts x [] = refl
includes-sort_texts x (s ∷ ts) =
    rw (includes-insert_sorted x s (sort_texts ts), includes-sort_texts x ts) refl

includes-delete_self : (x : Text) (s : List Text) → includes x (delete x s) ≡ false
unfolding delete includes
includes-delete_self x [] = refl
includes-delete_self x (y ∷ s) = ground (arith, includes-delete_self x s)

includes-delete_absent :
    (x y : Text) (s : List Text) → includes x s ≡ false → includes x (delete y s) ≡ false
unfolding delete includes
includes-delete_absent x y [] h = refl
includes-delete_absent x y (z ∷ s) h = ground (arith, includes-delete_absent x y s)

drop_names_absent :
    (dir x : Text) (gone names : List Text)
    → includes x names ≡ false
    → includes x (drop_names dir gone names) ≡ false
unfolding drop_names
drop_names_absent dir x [] names h = h
drop_names_absent dir x (p ∷ gone) names h =
    if_elim (λ r. includes x (drop_names dir gone r) ≡ false) (parent_of p == dir) _ names
      (λ _.
        drop_names_absent dir x gone _
          (includes-delete_absent x (relative_to (parent_of p) p) names h))
      (λ _. drop_names_absent dir x gone names h)

drop_names_head :
    (dir p : Text) (names : List Text)
    → parent_of p ≡ dir
    → includes
        (relative_to dir p)
        (if parent_of p == dir then delete (relative_to (parent_of p) p) names else names)
      ≡ false
drop_names_head dir p names e =
    rw (e, beq_refl dir) (includes-delete_self (relative_to dir p) names)

drop_names_deleted :
    (dir p : Text) (gone names : List Text)
    → includes p gone ≡ true
    → parent_of p ≡ dir
    → includes (relative_to dir p) (drop_names dir gone names) ≡ false
unfolding drop_names includes
drop_names_deleted dir p [] names h e = absurd (ground arith)
drop_names_deleted dir p (g ∷ gone) names h e = elim (Bool-cases (g == p)) [
  | inl same ↦
      drop_names_absent dir (relative_to dir p) gone _
        (rw (beq_eq g p same) (drop_names_head dir p names e))
  | inr other ↦ drop_names_deleted dir p gone _ (ground arith) e
]

-- An entry that is deleted is not listed, in the directory that holds it, also when a path under
-- it was written after the deletion.
pub list_dir_deleted :
    (ws : MemoryWorkspace) (path p : Text)
    → includes p ws.deleted ≡ true
    → parent_of p ≡ normalize_relative path
    → includes (relative_to (normalize_relative path) p) (list_dir ws path) ≡ false
unfolding list_dir
list_dir_deleted ws path p h e =
    rw (includes-sort_texts) (drop_names_deleted (normalize_relative path) p ws.deleted _ h e)
