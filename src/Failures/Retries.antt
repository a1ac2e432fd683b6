-- ===== src/Failures/Retries.antt =====
-- Which errors may be tried again, and what an error can say.
use cft_security_agent.Prelude.{String, ◌≡◌, Bool, true, false, List, ◌∷◌, [], arith, Some}
use cft_security_agent.Schemas.Execution.{ErrorCode, ErrorLayer, timeout, dependency_unavailable}
use cft_security_agent.Redaction.{Patterns, redact}
use cft_security_agent.Failures.{Raised, error_from_exception, sandbox_public_message}

abbrev pub is_transient : ErrorCode → Bool
is_transient timeout = true
is_transient dependency_unavailable = true
is_transient _ = false

-- An error is marked as one to try again exactly when its code is that of a timeout or of a
-- dependency that is not available.
pub retryable_iff_transient :
    (rx : Patterns) (layer : ErrorLayer) (exc : Raised) (behind : List Raised) (message : String)
    → let e = error_from_exception rx layer exc behind message in e.retryable ≡ is_transient e.code
unfolding error_from_exception
retryable_iff_transient rx layer exc behind message = ground arith

-- the messages that are written in the code
abbrev pub fixed_messages : List String
fixed_messages =
    "Sandbox could not start because a required host port is already allocated"
    ∷ "Sandbox could not connect to the local Docker daemon"
    ∷ "Sandbox Docker Compose command failed" ∷ "Managed sandbox failed to start"
    ∷ "Semgrep scan failed while validating rules" ∷ []

-- The message of an error is always the redaction of the caller's public message or of one of five
-- fixed texts, whatever the texts of the exceptions are.
pub message_is_public :
    (rx : Patterns) (layer : ErrorLayer) (exc : Raised) (behind : List Raised) (message : String)
    → Some
        (λ source.
          (error_from_exception rx layer exc behind message).message ≡ redact rx (redact rx source))
        (message ∷ fixed_messages)
unfolding error_from_exception sandbox_public_message
message_is_public rx layer exc behind message = ground arith
