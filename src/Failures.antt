-- ===== src/Failures.antt =====
-- pipeline/errors.py: an exception of a stage becomes an error that tells nothing of its text.
pub mod Retries
use Prim.Native.String.{String}
use cft_security_agent.Prelude.{
  Bool, true, false, ◌||◌, List, ◌∷◌, [], if◌then◌else◌, includes, lower, any, join, map,
}
use cft_security_agent.Schemas.Execution.{
  ErrorCode, ErrorLayer, ErrorDetail, timeout, not_found, invalid_response, dependency_unavailable,
  execution_failed, validation_error, internal_error,
}
use cft_security_agent.Redaction.{Patterns, redact}

-- The classes that the mapping tells apart. `TimeoutError` and `FileNotFoundError` are subclasses
-- of `OSError`, `JSONDecodeError` of `ValueError`, and `SessionTimeoutError` of both `SandboxSessionError`
-- and `TimeoutError`; `session_error` stands for the other subclasses of SandboxSessionError.
pub data ExceptionClass : Type 0 where
  timeout_error timeout_expired file_not_found json_decode_error session_error session_timeout_error
        semgrep_error os_error type_error value_error other_error :
      ExceptionClass

pub record Raised : Type 0 where
  pub kind : ExceptionClass
  pub text : String

abbrev pub is_timeout_class : ExceptionClass → Bool
is_timeout_class timeout_error = true
is_timeout_class timeout_expired = true
is_timeout_class session_timeout_error = true
is_timeout_class _ = false

abbrev pub is_file_not_found : ExceptionClass → Bool
is_file_not_found file_not_found = true
is_file_not_found _ = false

abbrev pub is_json_decode_error : ExceptionClass → Bool
is_json_decode_error json_decode_error = true
is_json_decode_error _ = false

abbrev pub is_session_error : ExceptionClass → Bool
is_session_error session_error = true
is_session_error session_timeout_error = true
is_session_error _ = false

abbrev pub is_semgrep_error : ExceptionClass → Bool
is_semgrep_error semgrep_error = true
is_semgrep_error _ = false

abbrev pub is_os_error : ExceptionClass → Bool
is_os_error timeout_error = true
is_os_error session_timeout_error = true
is_os_error file_not_found = true
is_os_error os_error = true
is_os_error _ = false

abbrev pub is_argument_error : ExceptionClass → Bool
is_argument_error type_error = true
is_argument_error value_error = true
is_argument_error json_decode_error = true
is_argument_error _ = false

-- `any(isinstance(item, cls) for item in causes)`
abbrev pub has_class : (ExceptionClass → Bool) → List Raised → Bool
has_class p causes = any (λ (r : Raised). p r.kind) causes

unfoldable pub sandbox_public_message : List Raised → String
sandbox_public_message causes =
    let diagnostic = lower (join " " (map (λ (r : Raised). r.text) causes)) in
    if includes "port is already allocated" diagnostic
    then "Sandbox could not start because a required host port is already allocated"
    else if includes "cannot connect to the docker daemon" diagnostic
    then "Sandbox could not connect to the local Docker daemon"
    else if includes "docker compose command failed" diagnostic
    then "Sandbox Docker Compose command failed"
    else "Managed sandbox failed to start"

module _ (rx : Patterns) (layer : ErrorLayer) where
  abbrev detail : ErrorCode → String → Bool → ErrorDetail
  detail code message retryable = record {
    code = code;
    layer = layer;
    message = redact rx (redact rx message);
    retryable = retryable;
  }

  -- `exc` with the causes that `_exception_chain` finds behind it
  unfoldable pub error_from_exception : Raised → List Raised → String → ErrorDetail
  error_from_exception exc behind public_message =
      let causes = exc ∷ behind in
      if has_class is_timeout_class causes
      then detail timeout public_message true
      else if has_class is_file_not_found causes
      then detail not_found public_message false
      else if has_class is_json_decode_error causes
      then detail invalid_response public_message false
      else if has_class is_session_error causes
      then detail dependency_unavailable (sandbox_public_message causes) true
      else if is_semgrep_error exc.kind
      then if includes "CLI was not found" exc.text
        then detail dependency_unavailable public_message true
        else detail execution_failed "Semgrep scan failed while validating rules" false
      else if has_class is_os_error causes
      then detail dependency_unavailable public_message true
      else if is_argument_error exc.kind
      then detail validation_error public_message false
      else detail internal_error public_message false
