-- ===== src/Examples/FailureExamples.antt =====
-- The errors of the pipeline at concrete inputs.
use cft_security_agent.Prelude.{◌≡◌, [], ◌∷◌, Some}
use cft_security_agent.Schemas.Execution.{pipeline}
use cft_security_agent.Redaction.{redact}
use cft_security_agent.Failures.{Raised, session_error, os_error, error_from_exception}
use cft_security_agent.Failures.Retries.{
  is_transient, retryable_iff_transient, fixed_messages, message_is_public,
}
use cft_security_agent.Examples.Samples.{unchanged}

abbrev a_raise : Raised
a_raise = record { kind = session_error; text = "docker compose command failed: secret" }

abbrev a_cause : Raised
a_cause = record { kind = os_error; text = "no such device" }

session_error_test :
    (error_from_exception unchanged pipeline a_raise (a_cause ∷ []) "Sandbox failed").retryable
    ≡ is_transient
        (error_from_exception unchanged pipeline a_raise (a_cause ∷ []) "Sandbox failed").code
session_error_test =
    retryable_iff_transient unchanged pipeline a_raise (a_cause ∷ []) "Sandbox failed"

message_is_public_example :
    Some
      (λ source.
        (error_from_exception unchanged pipeline a_raise (a_cause ∷ []) "Sandbox failed").message
        ≡ redact unchanged (redact unchanged source))
      ("Sandbox failed" ∷ fixed_messages)
message_is_public_example =
    message_is_public unchanged pipeline a_raise (a_cause ∷ []) "Sandbox failed"
