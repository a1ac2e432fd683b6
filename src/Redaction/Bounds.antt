-- ===== src/Redaction/Bounds.antt =====
-- The length of a redacted message.
use text.Mathlib.TextLemmas.{length-append}
use cft_security_agent.Prelude.{
  ℕ, ◌-◌, ◌≤◌, String, ◌≡◌, some, arith, size, take_chars, size-take_chars, words, join,
}
use cft_security_agent.Redaction.{Patterns, redact_error_message, without_traceback, substitute}

-- Whatever the patterns do, a redacted message is never longer than its limit.
pub size-redact_error_message :
    (rx : Patterns) (message : String) (max_length : ℕ) (out : String)
    → redact_error_message rx message max_length ≡ some out
    → size out ≤ max_length
unfolding redact_error_message
size-redact_error_message rx message max_length out h =
    let cleaned = substitute rx (join " " (words (without_traceback message))) in
    ground (
      arith,
      size-take_chars max_length cleaned,
      size-take_chars (max_length - 3) cleaned,
      length-append (take_chars (max_length - 3) cleaned) "...",
    )
