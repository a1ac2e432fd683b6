-- ===== src/Fix/Meaning.antt =====
-- fix_verification/service.py: what the tests of a patch and of a re-test command say.
use cft_security_agent.Prelude.{
  String, ◌≡◌, ◌≢◌, ◌↔◌, true, false, ◌||◌, some, none, List, [], ◌∷◌, arith, any, all, All, Some,
  In, text_eq, ◌⊎◌, map, keep, not, ◌==◌, nat_eq, non_empty, size, every_char, ◌≤◌, length, ltb,
  Bool, if◌then◌else◌, includes, lower, join, contains, contains_iff,
}
use cft_security_agent.Fix.Checks.{
  check_argv_error, patch_scope_error, patch_headers, slashes, without_dots, invalid_argument,
  max_arg_length, blocked_executables, blocked_command_markers, executable_of,
}

-- The diff names a file, and each file that it names is that of the finding.
abbrev pub IsConfinedTo : String → String → Type 0
IsConfinedTo diff file =
    Some (λ name. name ≢ "/dev/null") (patch_headers diff)
    × All (λ name. (name ≡ "/dev/null") ⊎ (slashes name ≡ without_dots (slashes file)))
        (patch_headers diff)

named_iff :
    (hs : List String)
    → (non_empty (map slashes (keep (λ v. not (v == "/dev/null")) hs)) ≡ true)
      ↔ Some (λ name. name ≢ "/dev/null") hs
named_iff [] = ground arith
named_iff (h ∷ hs) = ground (arith, named_iff hs, text_eq.same_iff h "/dev/null")

confined_iff :
    (expected : String) (hs : List String)
    → (all (λ p. p == expected) (map slashes (keep (λ v. not (v == "/dev/null")) hs)) ≡ true)
      ↔ All (λ name. (name ≡ "/dev/null") ⊎ (slashes name ≡ expected)) hs
confined_iff expected [] = ground arith
confined_iff expected (h ∷ hs) = ground (
  arith,
  confined_iff expected hs,
  text_eq.same_iff h "/dev/null",
  text_eq.same_iff (slashes h) expected,
)

pub patch_scope_iff :
    (diff file : String) → (patch_scope_error diff file ≡ none) ↔ IsConfinedTo diff file
unfolding patch_scope_error
patch_scope_iff diff file = ground (
  arith,
  named_iff (patch_headers diff),
  confined_iff (without_dots (slashes file)) (patch_headers diff),
)

-- The argument is not empty, not too long, and has no character with the code 0.
abbrev pub IsArgument : String → Type 0
IsArgument s = (s ≢ "") × (size s ≤ max_arg_length) × (every_char (λ c. not (c == 0)) s ≡ true)

-- The command has one to 64 arguments, its executable is not blocked, and its text in lower case
-- has no marker of the network or of Docker.
pub record IsCommand (path_name : String → String) (argv : List String) : Type 0 where
  pub some_arguments : argv ≢ []
  pub few_arguments : length argv ≤ 64
  pub arguments : All IsArgument argv
  pub executable : ¬ (In (executable_of path_name argv) blocked_executables)
  pub markers :
      All (λ marker. includes marker (lower (join " " argv)) ≡ false) blocked_command_markers

arguments_iff : (argv : List String) → (any invalid_argument argv ≡ false) ↔ All IsArgument argv
arguments_iff [] = ground arith
arguments_iff (s ∷ ss) = ground (arith, arguments_iff ss, text_eq.same_iff s "")

markers_iff :
    (command : String) (markers : List String)
    → (any (λ marker. includes marker command) markers ≡ false)
      ↔ All (λ marker. includes marker command ≡ false) markers
markers_iff command [] = ground arith
markers_iff command (m ∷ ms) = ground (arith, markers_iff command ms)

non_empty_iff : (argv : List String) → (non_empty argv ≡ true) ↔ (argv ≢ [])
non_empty_iff [] = ground arith
non_empty_iff (s ∷ ss) = ground arith

absent_iff : (a : String) (xs : List String) → (contains a xs ≡ false) ↔ ¬ (In a xs)
absent_iff a xs = ground (arith, contains_iff a xs)

few_iff : (argv : List String) → (ltb 64 (length argv) ≡ false) ↔ (length argv ≤ 64)
few_iff argv = ground arith

-- a chain of four tests that finds nothing
no_test_fails :
    (a b c d e : Bool) (m1 m2 m3 m4 : String)
    → ((if not a || b
          then some m1
          else if c
          then some m2
          else if d
          then some m3
          else if e
          then some m4
          else none)
        ≡ none)
      ↔ ((a ≡ true) × (b ≡ false) × (c ≡ false) × (d ≡ false) × (e ≡ false))
no_test_fails a b c d e m1 m2 m3 m4 = ground arith

argv_tests_iff :
    (path_name : String → String) (argv : List String)
    → (check_argv_error path_name argv ≡ none) ↔ (
        (non_empty argv ≡ true)
        × (ltb 64 (length argv) ≡ false)
        × (any invalid_argument argv ≡ false)
        × (contains (executable_of path_name argv) blocked_executables ≡ false)
        × (any (λ marker. includes marker (lower (join " " argv))) blocked_command_markers ≡ false))
unfolding check_argv_error
argv_tests_iff path_name argv = no_test_fails _ _ _ _ _ _ _ _ _

pub check_argv_iff :
    (path_name : String → String) (argv : List String)
    → (check_argv_error path_name argv ≡ none) ↔ IsCommand path_name argv
check_argv_iff path_name argv =
    let tests = argv_tests_iff path_name argv in
    let blocked = absent_iff (executable_of path_name argv) blocked_executables in
    let marked = markers_iff (lower (join " " argv)) blocked_command_markers in
    (
      λ e.
          let (n, l, a, x, m) = tests.0 e in
          record {
            some_arguments = (non_empty_iff argv).0 n;
            few_arguments = (few_iff argv).0 l;
            arguments = (arguments_iff argv).0 a;
            executable = blocked.0 x;
            markers = marked.0 m;
          },
      λ c. tests.1 (
        (non_empty_iff argv).1 c.some_arguments,
        (few_iff argv).1 c.few_arguments,
        (arguments_iff argv).1 c.arguments,
        blocked.1 c.executable,
        marked.1 c.markers,
      ),
    )
