-- ===== src/Workspace/Memory/Listing.antt =====
-- src/workspace/memory-workspace.ts: `listDir` and `changedPaths`. `sort` orders texts by their code
-- units.
pub mod Deleted
use synth_agent_runtime.Prelude.{
  Bool, List, [], add, delete, drop, drop_last, false, if◌then◌else◌, join_with, keys, length,
  list_eq, ltb, nat_eq, none, not, option_eq, pair_eq, some, split_at, string_eq, true, ◌&&◌, ◌+◌,
  ◌==◌, ◌∷◌,
}
use synth_agent_runtime.Workspace.Snapshot.{Text}
use synth_agent_runtime.Workspace.Paths.{normalize_relative, slash}
use synth_agent_runtime.Workspace.Memory.{MemoryWorkspace, SourceInfo, is_under}

-- the order of `sort()`
unfoldable pub text_leb : Text → Text → Bool
text_leb [] t = true
text_leb (c ∷ s) [] = false
text_leb (c ∷ s) (d ∷ t) =
    let later = text_leb s t in if ltb c d then true else if ltb d c then false else later

unfoldable pub insert_sorted : Text → List Text → List Text
unfolding text_leb
insert_sorted s [] = s ∷ []
insert_sorted s (t ∷ ts) =
    let later = insert_sorted s ts in if text_leb s t then s ∷ t ∷ ts else t ∷ later

unfoldable pub sort_texts : List Text → List Text
unfolding insert_sorted
sort_texts [] = []
sort_texts (s ∷ ts) = insert_sorted s (sort_texts ts)

unfoldable pub changed_paths : MemoryWorkspace → List Text
unfolding sort_texts
changed_paths ws = sort_texts ws.changed

-- `rel.split("/")[0]`
abbrev pub first_part : List Text → Text
first_part [] = []
first_part (part ∷ parts) = part

abbrev pub add_name : Text → List Text → List Text
add_name name names = if name == [] then names else add name names

-- `p.slice(dir ? dir.length + 1 : 0)`
unfoldable pub relative_to : Text → Text → Text
relative_to dir p = if dir == [] then p else drop (length dir + 1) p

unfoldable pub name_in : Text → Text → Text
unfolding relative_to split_at
name_in dir p = first_part (split_at slash (relative_to dir p))

unfoldable pub add_source_names : Text → List SourceInfo → List Text → List Text
unfolding name_in
add_source_names dir [] names = names
add_source_names dir (entry ∷ entries) names =
    add_source_names dir entries (add_name (name_in dir entry.path) names)

unfoldable pub add_names : Text → List Text → List Text → List Text
unfolding name_in is_under
add_names dir [] names = names
add_names dir (p ∷ ps) names =
    add_names dir ps
      (if not (dir == []) && not (is_under p dir) then names else add_name (name_in dir p) names)

-- `p.includes("/") ? p.slice(0, p.lastIndexOf("/")) : ""`
unfoldable pub parent_of : Text → Text
parent_of p = join_with slash (drop_last (split_at slash p))

unfoldable pub drop_names : Text → List Text → List Text → List Text
unfolding parent_of relative_to
drop_names dir [] names = names
drop_names dir (p ∷ ps) names =
    drop_names dir ps
      (if parent_of p == dir then delete (relative_to (parent_of p) p) names else names)

abbrev pub source_entries : MemoryWorkspace → Text → List SourceInfo
source_entries ws dir = elim ws.source [ none ↦ [] | some source ↦ source.list_dir dir ]

unfoldable pub list_dir : MemoryWorkspace → Text → List Text
unfolding normalize_relative add_source_names add_names drop_names sort_texts
list_dir ws path =
    let dir = normalize_relative path in
    let from_source = add_source_names dir (source_entries ws dir) [] in
    let over = add_names dir (keys ws.overlay) from_source in
    let made = add_names dir ws.dirs over in
    let linked = add_names dir (keys ws.links) made in sort_texts (drop_names dir ws.deleted linked)
