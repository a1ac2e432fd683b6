-- ===== src/Executor/Setup.antt =====
-- executor/executor.py (_runtime_setup_error): why a managed session could not be opened.
use Prim.Native.String.{String}
use cft_security_agent.Prelude.{
  Bool, true, false, ◌||◌, ◌≡◌, refl, if◌then◌else◌, includes, lower, arith,
}
use cft_security_agent.Schemas.Execution.{
  ErrorDetail, timeout, isolation_blocked, build_failed, unsupported_runtime, execution_failed,
  executor,
}
use cft_security_agent.Redaction.{Patterns}
use cft_security_agent.Executor.Finish.{system_error}

-- The classes that the mapping tells apart: TimeoutError with SessionTimeoutError,
-- SessionCleanupError, SandboxConfigurationError, and all others.
pub data SetupClass : Type 0 where
  session_timeout session_cleanup sandbox_configuration other_failure : SetupClass

-- the exception, with its text `str(exc)`
pub record SetupFailure : Type 0 where
  pub kind : SetupClass
  pub text : String

-- the branch of SandboxConfigurationError, `detail` in lower case
unfoldable pub configuration_error : Patterns → String → ErrorDetail
configuration_error rx detail =
    if includes "build" detail || includes "failed to solve" detail
    then system_error rx build_failed executor "Target build failed before runtime verification"
        false
    else if includes "unsupported" detail || includes "ambiguous target runtime" detail
    then system_error rx unsupported_runtime executor
        "Target runtime is not supported by the approved sandbox" false
    else system_error rx isolation_blocked executor
        "Managed runtime configuration violated an isolation boundary" false

unfoldable pub other_setup_error : Patterns → String → ErrorDetail
other_setup_error rx detail =
    if includes "persistent docker runner" detail
    then system_error rx isolation_blocked executor "Managed Docker runner could not be established"
        false
    else system_error rx execution_failed executor
        "Managed runtime observation could not be established" false

abbrev pub setup_error_of : Patterns → SetupClass → String → ErrorDetail
setup_error_of rx session_timeout detail =
    system_error rx timeout executor "Managed runtime session timed out" true
setup_error_of rx session_cleanup detail =
    system_error rx isolation_blocked executor "Managed runtime cleanup could not confirm isolation"
      false
setup_error_of rx sandbox_configuration detail = configuration_error rx detail
setup_error_of rx other_failure detail = other_setup_error rx detail

-- `_runtime_setup_error`
unfoldable pub runtime_setup_error : Patterns → SetupFailure → ErrorDetail
runtime_setup_error rx exc = setup_error_of rx exc.kind (lower exc.text)

abbrev pub is_session_timeout : SetupClass → Bool
is_session_timeout session_timeout = true
is_session_timeout _ = false

retryable-configuration_error :
    (rx : Patterns) (detail : String)
    → ErrorDetail.retryable (configuration_error rx detail) ≡ false
unfolding configuration_error
retryable-configuration_error rx detail = ground arith

retryable-other_setup_error :
    (rx : Patterns) (detail : String) → ErrorDetail.retryable (other_setup_error rx detail) ≡ false
unfolding other_setup_error
retryable-other_setup_error rx detail = ground arith

-- Only a session that timed out is worth another attempt.
setup_error_retryable :
    (rx : Patterns) (k : SetupClass) (detail : String)
    → ErrorDetail.retryable (setup_error_of rx k detail) ≡ is_session_timeout k
setup_error_retryable rx session_timeout detail = refl
setup_error_retryable rx session_cleanup detail = refl
setup_error_retryable rx sandbox_configuration detail = retryable-configuration_error rx detail
setup_error_retryable rx other_failure detail = retryable-other_setup_error rx detail
