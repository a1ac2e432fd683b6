-- ===== src/Redaction.antt =====
-- security/error_redaction.py: the message that leaves the program in an error.
pub mod Bounds
use Prim.Native.String.{◌++◌}
use cft_security_agent.Prelude.{
  ℕ, ◌-◌, String, Option, some, none, leb, ltb, ◌==◌, text_eq, if◌then◌else◌, includes, before,
  strip, words, join, size, take_chars, or_default,
}

-- `re.sub` for each compiled pattern, in the order of the source. The expressions themselves are
-- run by Python's `re`.
pub record Patterns : Type 0 where
  pub basic_auth_url : String → String
  pub bearer : String → String
  pub json_secret : String → String
  pub key_value_secret : String → String
  pub posix_home : String → String
  pub windows_home : String → String

abbrev traceback_marker : String
traceback_marker = "Traceback (most recent call last):"

-- The text before a traceback, or a fixed text where that is blank.
unfoldable pub without_traceback : String → String
without_traceback raw =
    let prefix = strip (before traceback_marker raw) in
    if includes traceback_marker raw then if prefix == "" then "Internal error" else prefix else raw

unfoldable pub substitute : Patterns → String → String
substitute rx message =
    rx.windows_home
      (rx.posix_home (rx.key_value_secret (rx.json_secret (rx.bearer (rx.basic_auth_url message)))))

-- `None` stands for the `ValueError` of a `max_length` below 1.
unfoldable pub redact_error_message : Patterns → String → ℕ → Option String
redact_error_message rx message max_length =
    let redacted = substitute rx (join " " (words (without_traceback message))) in
    if ltb max_length 1
    then none
    else if leb (size redacted) max_length
    then some redacted
    else if leb max_length 3
    then some (take_chars max_length redacted)
    else some (take_chars (max_length - 3) redacted ++ "...")

abbrev pub default_max_error_length : ℕ
default_max_error_length = 400

-- A call with the default limit, which is positive.
unfoldable pub redact : Patterns → String → String
redact rx message = or_default (redact_error_message rx message default_max_error_length) ""
