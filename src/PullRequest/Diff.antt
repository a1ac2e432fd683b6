-- ===== src/PullRequest/Diff.antt =====
-- pr_analysis/git_diff.py: the changed files and lines that the text of a diff names.
use package.text.Mathlib.Text.{starts_with}
use cft_security_agent.Prelude.{
  ℕ, String, drop_chars, Bool, true, false, ◌||◌, Option, some, none, List, [], ◌∷◌, ◌++◌, map,
  if◌then◌else◌, ◌==◌, nat_eq, text_eq, ltb, contains, lookup, insert, or_default, split_lines,
}
use cft_security_agent.Agent.Consistency.{range}
use cft_security_agent.Fix.Checks.{slashes}

pub record GitDiff : Type 0 where
  pub changed_files : List String
  pub changed_lines : List (String × List ℕ)

-- `PurePosixPath(_).is_absolute()` and `".." in PurePosixPath(_).parts` (pathlib)
pub record PathTests : Type 0 where
  pub is_absolute : String → Bool
  pub has_parent : String → Bool

-- `PathTests`, `shlex.split`, and the match of a hunk header (re), whose groups are the start and the
-- count, 1 where it is left out
pub record DiffReaders : Type 0 where
  pub paths : PathTests
  pub split : String → List String
  pub hunk : String → Option (ℕ × ℕ)

-- `_normalize_path`; `none` is the `GitDiffError`
unfoldable pub normalize_diff_path : PathTests → String → Option String
normalize_diff_path paths value =
    let slashed = slashes value in
    let normalized =
      if starts_with slashed "a/" || starts_with slashed "b/"
      then drop_chars 2 slashed
      else slashed in
    if normalized == "" || (paths.is_absolute normalized || paths.has_parent normalized)
    then none
    else some normalized

-- the variables of the loop
pub record DiffState : Type 0 where
  pub files : List String
  pub lines : List (String × List ℕ)
  pub current_file : Option String

-- the file becomes the current one and is noted where it is not yet
unfoldable pub note_file : String → DiffState → DiffState
note_file file d = if contains file d.files then record d { current_file = some file } else record {
  files = d.files ++ (file ∷ []);
  lines = insert file (or_default (lookup file d.lines) []) d.lines;
  current_file = some file;
}

abbrev last_of : List String → String
last_of [] = ""
last_of (s ∷ []) = s
last_of (s ∷ t ∷ rest) = last_of (t ∷ rest)

abbrev at_file : Option String → DiffState → Option DiffState
at_file none d = none
at_file (some file) d = some (note_file file d)

abbrev renoted : Option String → DiffState → DiffState
renoted none d = d
renoted (some file) d = note_file file d

-- `changed_lines[current_file].extend(range(start, start + count))`
abbrev with_hunk : Option (ℕ × ℕ) → Option String → DiffState → DiffState
with_hunk (some (start, count)) (some file) d = record d {
  lines = insert file (or_default (lookup file d.lines) [] ++ range start count) d.lines;
}
with_hunk _ _ d = d

abbrev four_or_more : List String → Bool
four_or_more (a ∷ b ∷ c ∷ d ∷ rest) = true
four_or_more _ = false

module _ (read : DiffReaders) where
  -- one round of the loop of `parse_git_diff`
  unfoldable pub diff_line : String → DiffState → Option DiffState
  diff_line line d =
      if starts_with line "diff --git "
      then if four_or_more (read.split line)
        then at_file (normalize_diff_path read.paths (last_of (read.split line))) d
        else some (record d { current_file = none })
      else if starts_with line "+++ "
      then if drop_chars 4 line == "/dev/null"
        then some (renoted d.current_file d)
        else at_file (normalize_diff_path read.paths (drop_chars 4 line)) d
      else some (with_hunk (read.hunk line) d.current_file d)

  unfoldable pub diff_lines : List String → DiffState → Option DiffState
  diff_lines [] d = some d
  diff_lines (line ∷ rest) d = elim (diff_line line d) [
    | none ↦ none
    | some d' ↦ diff_lines rest d'
  ]

-- `sorted(set(lines))`
unfoldable pub insert_number : ℕ → List ℕ → List ℕ
insert_number n [] = n ∷ []
insert_number n (m ∷ ms) =
    let rest = m ∷ insert_number n ms in
    if n == m then m ∷ ms else if ltb n m then n ∷ m ∷ ms else rest

unfoldable pub sorted_set : List ℕ → List ℕ
sorted_set [] = []
sorted_set (n ∷ ns) = insert_number n (sorted_set ns)

abbrev tidy : Option DiffState → Option GitDiff
tidy none = none
tidy (some d) = some (record {
  changed_files = d.files;
  changed_lines = map (λ (entry : String × List ℕ). (entry.0, sorted_set (entry.1))) d.lines;
})

-- `parse_git_diff`
unfoldable pub parse_git_diff : DiffReaders → String → Option GitDiff
parse_git_diff read text =
    tidy
      (diff_lines read (split_lines text) (record { files = []; lines = []; current_file = none }))
