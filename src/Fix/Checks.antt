-- ===== src/Fix/Checks.antt =====
-- fix_verification/service.py: what a patch and a re-test command may be, and how a process ends.
use Prim.Native.String.{◌++◌}
use Prim.Native.Char.{char, code}
use package.text.Mathlib.Text.{starts_with}
use cft_security_agent.Prelude.{
  ℕ, String, Bool, not, ◌&&◌, ◌||◌, Option, some, none, List, [], ◌∷◌, map, non_empty, any, all,
  if◌then◌else◌, ◌==◌, nat_eq, text_eq, ltb, length, size, every_char, contains, includes, lower,
  join, keep, show, take_chars, drop_chars,
}
use cft_security_agent.Schemas.Fix.{
  static, FixCheck, CheckStatus, passed, failed, timed_out, FixCheckResult,
}
use cft_security_agent.Redaction.{Patterns}
use cft_security_agent.Reporting.Parts.{redacted}

abbrev pub max_output : ℕ
max_output = 16384

abbrev pub max_arg_length : ℕ
max_arg_length = 4096

-- `value.replace("\\", "/")`
unfoldable pub slashes : String → String
slashes String.[] = ""
slashes (String.◌∷◌ c s) = String.◌∷◌ (if code c == b'\\' then char b'/' tt else c) (slashes s)

-- `while expected.startswith("./"): expected = expected[2:]`
unfoldable pub without_dots : String → String
without_dots (String.◌∷◌ c (String.◌∷◌ d s)) =
    let rest = without_dots s in
    if code c == b'.' && code d == b'/' then rest else String.◌∷◌ c (String.◌∷◌ d s)
without_dots s = s

-- the lines that `^` and `$` of a multiline expression see
unfoldable pub newline_lines : String → List String
newline_lines String.[] = "" ∷ []
newline_lines (String.◌∷◌ c s) =
    let rest = newline_lines s in
    if code c == b'\n'
    then "" ∷ rest
    else elim rest [ [] ↦ String.◌∷◌ c "" ∷ [] | l ∷ ls ↦ String.◌∷◌ c l ∷ ls ]

-- the group of a match in a line, of `(?:b/)?(.+)`: the prefix is left out where a name is left
abbrev pub name_of : String → Option String
name_of s =
    if s == ""
    then none
    else if starts_with s "b/" && not (s == "b/")
    then some (drop_chars 2 s)
    else some s

-- the match of `_PATCH_FILE_HEADER` in a line
unfoldable pub header_of : String → Option String
header_of line = if starts_with line "+++ " then name_of (drop_chars 4 line) else none

abbrev noted : Option String → List String → List String
noted none names = names
noted (some name) names = name ∷ names

unfoldable pub headers_in : List String → List String
headers_in [] = []
headers_in (line ∷ rest) = noted (header_of line) (headers_in rest)

-- `_PATCH_FILE_HEADER.findall(unified_diff)`
unfoldable pub patch_headers : String → List String
patch_headers diff = headers_in (newline_lines diff)

-- `_patch_scope_error`
unfoldable pub patch_scope_error : String → String → Option String
patch_scope_error unified_diff finding_file =
    let paths = map slashes (keep (λ v. not (v == "/dev/null")) (patch_headers unified_diff)) in
    let expected = without_dots (slashes finding_file) in
    if not (non_empty paths)
    then some "The proposal does not contain a target file in unified diff format."
    else if not (all (λ p. p == expected) paths)
    then some "The proposal changes files outside the original finding scope."
    else none

abbrev pub blocked_executables : List String
blocked_executables =
    "bash" ∷ "busybox" ∷ "cmd" ∷ "curl" ∷ "docker" ∷ "ftp" ∷ "nc" ∷ "netcat" ∷ "podman"
    ∷ "powershell" ∷ "pwsh" ∷ "scp" ∷ "sh" ∷ "socat" ∷ "ssh" ∷ "sudo" ∷ "telnet" ∷ "wget" ∷ "zsh"
    ∷ []

abbrev pub blocked_command_markers : List String
blocked_command_markers =
    "http://" ∷ "https://" ∷ "ftp://" ∷ "/var/run/docker.sock" ∷ "docker.sock" ∷ "docker_host"
    ∷ "import socket" ∷ "import urllib" ∷ "import requests" ∷ "import httpx" ∷ "import aiohttp" ∷ []

abbrev pub invalid_argument : String → Bool
invalid_argument s =
    s == "" || (ltb max_arg_length (size s) || not (every_char (λ c. not (c == 0)) s))

-- the executable of a command that is not empty; the first parameter is `Path(_).name` of pathlib
abbrev pub executable_of : (String → String) → List String → String
executable_of path_name [] = ""
executable_of path_name (s ∷ ss) = lower (path_name s)

-- `_check_argv_error`
unfoldable pub check_argv_error : (String → String) → List String → Option String
check_argv_error path_name argv =
    let executable = executable_of path_name argv in
    let command = lower (join " " argv) in
    if not (non_empty argv) || ltb 64 (length argv)
    then some "Fix re-test command is outside the bounded command policy."
    else if any invalid_argument argv
    then some "Fix re-test command contains an invalid argument."
    else if contains executable blocked_executables
    then some ("Fix re-test executable '" ++ (executable ++ "' is blocked by sandbox policy."))
    else if any (λ marker. includes marker command) blocked_command_markers
    then some "Fix re-test command requests network or Docker access blocked by policy."
    else none

-- How a process that `subprocess` starts ends: with its decoded outputs, whether each was cut,
-- whether it ran out of time, and its return code; by `TimeoutExpired`; or by an `OSError` with its
-- text.
pub data ProcessEnd : Type 0 where
  ended :
      (stdout : String) (stdout_truncated : Bool) (stderr : String) (stderr_truncated : Bool)
      (out_of_time : Bool) (returncode : ℕ)
      → ProcessEnd
  timeout_expired : (stdout stderr : String) → ProcessEnd
  os_error : (message : String) → ProcessEnd

-- `_format_process_output`
abbrev pub format_process_output : String → Bool → String
format_process_output text truncated = if truncated then text ++ "\n...[truncated]" else text

module _ (rx : Patterns) where
  -- `_public_argv`
  abbrev pub public_argv : List String → List String
  public_argv argv = map (λ s. redacted rx s max_arg_length) argv

  -- `_public_check`
  abbrev pub public_check : FixCheck → FixCheck
  public_check check = record check { argv = public_argv check.argv }

  -- `_public_output`
  abbrev pub public_output : String → String
  public_output value = take_chars max_output (redacted rx value max_output)

  -- the result that `_run_process` makes of the end of a process
  unfoldable pub process_result : List String → ℕ → ProcessEnd → FixCheckResult
  process_result argv seconds (ended out out_cut err err_cut late returncode) =
      let exit_code = if late then 124 else returncode in
      let notice = if late then "Process timed out after " ++ (show seconds ++ "s\n") else "" in
      record {
        id = "process";
        kind = static;
        argv = argv;
        status = if late then timed_out else if exit_code == 0 then passed else failed;
        exit_code = some exit_code;
        stdout = public_output (format_process_output out out_cut);
        stderr = public_output (format_process_output (notice ++ err) err_cut);
      }
  process_result argv seconds (timeout_expired out err) = record {
    id = "process";
    kind = static;
    argv = argv;
    status = timed_out;
    exit_code = none;
    stdout = public_output out;
    stderr = public_output err;
  }
  process_result argv seconds (os_error message) = record {
    id = "process";
    kind = static;
    argv = argv;
    status = CheckStatus.error;
    exit_code = none;
    stdout = "";
    stderr = public_output message;
  }

  -- the result of a check that `_run_check` makes of its process
  unfoldable pub check_result : FixCheck → FixCheckResult → FixCheckResult
  check_result check result = record {
    id = check.id;
    kind = check.kind;
    argv = public_argv check.argv;
    status = result.status;
    exit_code = result.exit_code;
    stdout = result.stdout;
    stderr = result.stderr;
  }

  -- the result of a check that the policy refuses
  unfoldable pub refused_result : FixCheck → String → FixCheckResult
  refused_result check policy_error = record {
    id = check.id;
    kind = check.kind;
    argv = public_argv check.argv;
    status = CheckStatus.error;
    exit_code = none;
    stdout = "";
    stderr = policy_error;
  }
