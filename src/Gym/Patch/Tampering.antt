-- ===== src/Gym/Patch/Tampering.antt =====
-- That a patch whose headers mention a protected path is taken for tampering.
use synth_agent_runtime.Prelude.{
  All, List, [], any, arith, false, find, includes, includes-append, list_eq, nat_eq, option_eq,
  pair_eq, push_unit, refl, split_at, starts_with, string_eq, true, ℕ, ◌++◌, ◌==◌, ◌∙◌, ◌∷◌, ◌≡◌,
}
use synth_agent_runtime.Workspace.Snapshot.{Text}
use synth_agent_runtime.Gym.Patch.{
  copy_from, copy_to, is_tampering, line_paths, moved_header, new_header, old_header,
  parse_patch_paths, path_of_token, rename_from, rename_to,
}
use synth_agent_runtime.Execution.TextReplace.{line_feed}
use synth_agent_runtime.Gym.Patch.Lines.{is_tampering-joined, is_tampering-parse_patch_paths}
use synth_agent_runtime.Gym.Patch.Protected.{All-named, IsProtected, is_protected_lem}

-- The headers of a patch that are followed by one path.
abbrev pub headers : List Text
headers = old_header ∷ new_header ∷ rename_from ∷ rename_to ∷ copy_from ∷ copy_to ∷ []

abbrev IsHeader : Text → Type 0
IsHeader header = (path : Text) → line_paths (header ++ path) ≡ path_of_token path

line_paths-headers : All IsHeader headers
unfolding line_paths moved_header starts_with find
line_paths-headers =
    (λ _. refl, (λ _. refl, (λ _. refl, (λ _. refl, (λ _. refl, (λ _. refl, tt))))))

Lacks-headers : All (λ header. includes line_feed header ≡ false) headers
unfolding includes
Lacks-headers = (refl, (refl, (refl, (refl, (refl, (refl, tt))))))

-- A text without a separator is one part.
split_at_alone : (c : ℕ) (text : Text) → includes c text ≡ false → split_at c text ≡ text ∷ []
unfolding split_at push_unit includes
split_at_alone c [] h = refl
split_at_alone c (x ∷ text) h =
    let apart : (x == c) ≡ false = ground arith in
    rw (apart, split_at_alone c text (ground arith)) refl

-- One line with a header and a protected path is tampering.
is_tampering_line :
    (header path : Text)
    → includes header headers ≡ true
    → includes line_feed path ≡ false
    → path_of_token path ≡ path ∷ []
    → IsProtected path
    → is_tampering (parse_patch_paths (header ++ path)) ≡ true
unfolding any
is_tampering_line header path known flat plain protected =
    let lacks = All-named (λ h. includes line_feed h ≡ false) headers header Lacks-headers known in
    let one_line =
      split_at_alone line_feed (header ++ path)
        (ground (arith, lacks, flat, includes-append line_feed header path)) in
    let mentioned = All-named IsHeader headers header line_paths-headers known path ∙ plain in
    is_tampering-parse_patch_paths (header ++ path)
    ∙ rw (one_line, mentioned, is_protected_lem path protected) refl

-- A patch is taken for tampering if one of its lines is a header, of a side, of a rename or of a copy,
-- with a protected path, whatever stands in the lines before and after it. The path has no line feed
-- and is written as it is: it has no spaces around it, no quotes, and no `a/` or `b/` before it.
pub is_tampering-protected :
    (before header path after : Text)
    → includes header headers ≡ true
    → includes line_feed path ≡ false
    → path_of_token path ≡ path ∷ []
    → IsProtected path
    → is_tampering
        (parse_patch_paths (before ++ line_feed ∷ ((header ++ path) ++ line_feed ∷ after)))
      ≡ true
is_tampering-protected before header path after known flat plain protected =
    rw
      (
        is_tampering-joined before ((header ++ path) ++ line_feed ∷ after),
        is_tampering-joined (header ++ path) after,
        is_tampering_line header path known flat plain protected,
      )
      (ground arith)
