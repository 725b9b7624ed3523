-- ===== src/Gym/Patch/Protected.antt =====
-- Which paths are protected.
use synth_agent_runtime.Prelude.{
  All, Bool, Bool-cases, List, [], arith, beq_eq, beq_refl, false, includes, includes-append, inl,
  inr, list_eq, nat_eq, option_eq, pair_eq, refl, starts_with, string_eq, subst, sym, true, ◌++◌,
  ◌==◌, ◌||◌, ◌∷◌, ◌≡◌, ◌⊎◌,
}
use synth_agent_runtime.Workspace.Snapshot.{Text}
use synth_agent_runtime.Gym.Patch.{
  ends_with, git_directory, github_directory, is_protected, is_tsconfig, jest_file, json_suffix,
  lock_file, matches_behind, matches_part, matches_within, mocha_file, package_file, test_directory,
  tests_directory, tsconfig, vitest_file,
}

-- `tail` stands at the start of the path or behind a slash.
abbrev pub IsPart : Text → Text → Type 0
IsPart tail path = (path ≡ tail) ⊎ ((dir : Text) × (path ≡ dir ++ 47 ∷ tail))

-- A path in a directory `test`, `tests`, `.github` or `.git`, a file `package.json` or
-- `package-lock.json`, a `tsconfig` of any name, or a path with the name of a test runner's
-- configuration in it.
pub data IsProtected (path : Text) : Type 0 where
  in_directory :
      (name rest : Text)
      → includes name (test_directory ∷ tests_directory ∷ github_directory ∷ git_directory ∷ [])
        ≡ true
      → IsPart (name ++ rest) path
      → IsProtected path
  is_file :
      (name : Text)
      → includes name (package_file ∷ lock_file ∷ []) ≡ true
      → IsPart name path
      → IsProtected path
  is_compiler_config :
      (middle : Text)
      → includes 47 middle ≡ false
      → IsPart (tsconfig ++ (middle ++ json_suffix)) path
      → IsProtected path
  is_runner_config :
      (before name rest : Text)
      → includes name (mocha_file ∷ jest_file ∷ vitest_file ∷ []) ≡ true
      → path ≡ before ++ (name ++ rest)
      → IsProtected path

matches_behind-tail :
    (m : Text → Bool) (dir tail : Text) → m tail ≡ true → matches_behind m (dir ++ 47 ∷ tail) ≡ true
unfolding matches_behind
matches_behind-tail m [] tail h = ground (arith, h, nat_eq.same_iff 47 47)
matches_behind-tail m (c ∷ dir) tail h = ground (arith, matches_behind-tail m dir tail h)

matches_within-tail :
    (m : Text → Bool) (before tail : Text)
    → m tail ≡ true
    → matches_within m (before ++ tail) ≡ true
unfolding matches_within
matches_within-tail m [] [] h = h
matches_within-tail m [] (c ∷ tail) h = ground (arith, h)
matches_within-tail m (c ∷ before) tail h = ground (arith, matches_within-tail m before tail h)

matches_part-tail :
    (m : Text → Bool) (tail path : Text)
    → IsPart tail path
    → m tail ≡ true
    → matches_part m path ≡ true
matches_part-tail m tail path (inl e) h = rw e (ground (arith, h))
matches_part-tail m tail path (inr (dir, e)) h =
    rw e (ground (arith, matches_behind-tail m dir tail h))

ends_with-suffix : (middle suffix : Text) → ends_with (middle ++ suffix) suffix ≡ true
unfolding ends_with
ends_with-suffix [] [] = beq_refl {A = Text} []
ends_with-suffix [] (c ∷ suffix) = ground (arith, beq_refl (c ∷ suffix))
ends_with-suffix (c ∷ middle) suffix = ground (arith, ends_with-suffix middle suffix)

is_tsconfig-middle :
    (middle : Text)
    → includes 47 middle ≡ false
    → is_tsconfig (tsconfig ++ (middle ++ json_suffix)) ≡ true
unfolding starts_with includes
is_tsconfig-middle middle h =
    ground (arith, ends_with-suffix middle json_suffix, includes-append 47 middle json_suffix, h)

pub All-named :
    (P : Text → Type 0) (names : List Text) (name : Text)
    → All P names
    → includes name names ≡ true
    → P name
unfolding includes
All-named P [] name h i = absurd (ground arith)
All-named P (n ∷ names) name h i = elim (Bool-cases (n == name)) [
  | inl e ↦ subst P (beq_eq n name e) h.0
  | inr e ↦ All-named P names name h.1 (ground arith)
]

-- A directory and what starts with it, and a file, are protected wherever they stand.
abbrev Directory : Text → Type 0
Directory name = (rest path : Text) → IsPart (name ++ rest) path → is_protected path ≡ true

abbrev WholeFile : Text → Type 0
WholeFile name = (path : Text) → IsPart name path → is_protected path ≡ true

abbrev RunnerFile : Text → Type 0
RunnerFile name = (before rest : Text) → is_protected (before ++ (name ++ rest)) ≡ true

starts_with-prefix : (prefix rest : Text) → starts_with (prefix ++ rest) prefix ≡ true
unfolding starts_with
starts_with-prefix [] rest = refl
starts_with-prefix (c ∷ prefix) rest =
    ground (arith, nat_eq.same_iff c c, starts_with-prefix prefix rest)

-- One pattern that matches is enough.
one_matches :
    (a b c d e f g h i : Bool)
    → (c ≡ true) ⊎ (d ≡ true) ⊎ (i ≡ true)
    → (a || b || c || d || e || f || g || h || i) ≡ true
one_matches a b c d e f g h i (inl k) = ground arith
one_matches a b c d e f g h i (inr (inl k)) = ground arith
one_matches a b c d e f g h i (inr (inr k)) = ground arith

is_protected-match :
    (path : Text)
    → (matches_part (λ t. t == lock_file) path ≡ true)
      ⊎ (matches_within (λ t. starts_with t mocha_file) path ≡ true)
      ⊎ (matches_part (λ t. starts_with t git_directory) path ≡ true)
    → is_protected path ≡ true
unfolding is_protected
is_protected-match path =
    one_matches
      (matches_part (λ t. starts_with t test_directory || starts_with t tests_directory) path)
      (matches_part (λ t. t == package_file) path) (matches_part (λ t. t == lock_file) path)
      (matches_within (λ t. starts_with t mocha_file) path)
      (matches_within (λ t. starts_with t jest_file) path)
      (matches_within (λ t. starts_with t vitest_file) path) (matches_part is_tsconfig path)
      (matches_part (λ t. starts_with t github_directory) path)
      (matches_part (λ t. starts_with t git_directory) path)

in_test_directory : Directory test_directory
unfolding is_protected
in_test_directory rest path h =
    let m =
      matches_part-tail (λ t. starts_with t test_directory || starts_with t tests_directory)
        (test_directory ++ rest) path h (ground (arith, starts_with-prefix test_directory rest)) in
    ground arith

in_tests_directory : Directory tests_directory
unfolding is_protected
in_tests_directory rest path h =
    let m =
      matches_part-tail (λ t. starts_with t test_directory || starts_with t tests_directory)
        (tests_directory ++ rest) path h
        (ground (arith, starts_with-prefix tests_directory rest)) in
    ground arith

in_github_directory : Directory github_directory
unfolding is_protected
in_github_directory rest path h =
    let m =
      matches_part-tail (λ t. starts_with t github_directory) (github_directory ++ rest) path h
        (starts_with-prefix github_directory rest) in
    ground arith

in_git_directory : Directory git_directory
in_git_directory rest path h =
    let m =
      matches_part-tail (λ t. starts_with t git_directory) (git_directory ++ rest) path h
        (starts_with-prefix git_directory rest) in
    is_protected-match path (inr (inr m))

is_protected-package_file : WholeFile package_file
unfolding is_protected
is_protected-package_file path h =
    let m =
      matches_part-tail (λ t. t == package_file) package_file path h (beq_refl package_file) in
    ground arith

is_protected-lock_file : WholeFile lock_file
is_protected-lock_file path h =
    let m = matches_part-tail (λ t. t == lock_file) lock_file path h (beq_refl lock_file) in
    is_protected-match path (inl m)

is_protected-mocha_file : RunnerFile mocha_file
is_protected-mocha_file before rest =
    let m =
      matches_within-tail (λ t. starts_with t mocha_file) before (mocha_file ++ rest)
        (starts_with-prefix mocha_file rest) in
    is_protected-match (before ++ (mocha_file ++ rest)) (inr (inl m))

is_protected-jest_file : RunnerFile jest_file
unfolding is_protected
is_protected-jest_file before rest =
    let m =
      matches_within-tail (λ t. starts_with t jest_file) before (jest_file ++ rest)
        (starts_with-prefix jest_file rest) in
    ground arith

is_protected-vitest_file : RunnerFile vitest_file
unfolding is_protected
is_protected-vitest_file before rest =
    let m =
      matches_within-tail (λ t. starts_with t vitest_file) before (vitest_file ++ rest)
        (starts_with-prefix vitest_file rest) in
    ground arith

is_protected-tsconfig :
    (middle path : Text)
    → includes 47 middle ≡ false
    → IsPart (tsconfig ++ (middle ++ json_suffix)) path
    → is_protected path ≡ true
unfolding is_protected
is_protected-tsconfig middle path h part =
    let m =
      matches_part-tail is_tsconfig (tsconfig ++ (middle ++ json_suffix)) path part
        (is_tsconfig-middle middle h) in
    ground arith

pub is_protected_lem : (path : Text) → IsProtected path → is_protected path ≡ true
is_protected_lem path (in_directory name rest known part) =
    All-named Directory _ name
      (in_test_directory, (in_tests_directory, (in_github_directory, (in_git_directory, tt)))) known
      rest path part
is_protected_lem path (is_file name known part) =
    All-named WholeFile _ name (is_protected-package_file, (is_protected-lock_file, tt)) known path
      part
is_protected_lem path (is_compiler_config middle flat part) =
    is_protected-tsconfig middle path flat part
is_protected_lem path (is_runner_config before name rest known e) =
    subst (λ p. is_protected p ≡ true) (sym e)
      (All-named RunnerFile _ name
        (is_protected-mocha_file, (is_protected-jest_file, (is_protected-vitest_file, tt))) known
        before rest)
