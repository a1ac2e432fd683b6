-- ===== src/Executor/Finish.antt =====
-- executor/executor.py (_finish, _runner_denied, the errors): every attempt ends in a result whose
-- evidence and audit record are written, or which says that they could not be.
pub mod Records
use Prim.Native.String.{◌++◌}
use cft_security_agent.Prelude.{
  ℕ, String, Bool, true, false, not, ◌&&◌, ◌||◌, Option, some, none, List, ◌∷◌, [], if◌then◌else◌,
  ◌==◌, text_eq, includes, lower, strip, any,
}
use cft_security_agent.Schemas.Action.{ActionProposal}
use cft_security_agent.Schemas.Execution.{
  ErrorCode, ErrorLayer, ErrorDetail, ExecutionStatus, ExecutionResult, completed, failed, denied,
  timeout, execution_failed, persistence_error, isolation_blocked, executor, storage,
}
use cft_security_agent.Redaction.{Patterns, redact}
use cft_security_agent.Executor.Policy.{SandboxPolicy}

-- the arguments of `_finish`
pub record Ending : Type 0 where
  pub status : ExecutionStatus
  pub exit_code : ℕ
  pub decision_reason : String
  pub stdout : String
  pub stderr : String
  pub timed_out : Bool
  pub workspace_id : String
  pub error : Option ErrorDetail

-- the dictionary `evidence_payload`
pub record EvidencePayload : Type 0 where
  pub session_id : Option String
  pub run_id : String
  pub action : ActionProposal
  pub ending : Ending
  pub duration_ms : ℕ
  pub policy : SandboxPolicy
  pub audit_ref : String

-- The evidence store and the audit log, which write files: `none` where a call raises an
-- exception. The store is called a second time after the log has failed.
pub record Storage : Type 0 where
  pub put_execution : EvidencePayload → Option (String × String)
  pub append : EvidencePayload → String → Option String
  pub put_again : EvidencePayload → Option (String × String)
  pub fresh_id : String
  pub next_fresh_id : String

-- `_append_diagnostic`
unfoldable pub append_diagnostic : String → String → String
append_diagnostic stderr message =
    if strip stderr == ""
    then message
    else if message == ""
    then strip stderr
    else strip stderr ++ ("\n" ++ message)

abbrev pub is_failed : ExecutionStatus → Bool
is_failed failed = true
is_failed _ = false

module _ (rx : Patterns) where
  -- `_system_error`; the message passes the validator of `ErrorDetail`
  abbrev pub system_error : ErrorCode → ErrorLayer → String → Bool → ErrorDetail
  system_error code layer message retryable = record {
    code = code;
    layer = layer;
    message = redact rx message;
    retryable = retryable;
  }

  -- a failure without an error gets one
  unfoldable pub with_error : Ending → Option ErrorDetail
  with_error e = elim e.error [
    | some d ↦ some d
    | none ↦
        if is_failed e.status
        then some (
            if e.timed_out
            then system_error timeout executor "Sandbox execution timed out" true
            else system_error execution_failed executor "Sandbox execution failed" false)
        else none
  ]

  abbrev pub as_given : Ending → Ending
  as_given e = record {
    status = e.status;
    exit_code = e.exit_code;
    decision_reason = e.decision_reason;
    stdout = e.stdout;
    stderr = e.stderr;
    timed_out = e.timed_out;
    workspace_id = e.workspace_id;
    error = with_error e;
  }

  -- what a failed write turns an ending into
  abbrev pub unpersisted : Ending → String → String → Ending
  unpersisted e message diagnostic = record {
    status = failed;
    exit_code = 1;
    decision_reason = e.decision_reason;
    stdout = e.stdout;
    stderr = append_diagnostic e.stderr diagnostic;
    timed_out = e.timed_out;
    workspace_id = e.workspace_id;
    error = some (system_error persistence_error storage message false);
  }

  abbrev pub after_failed_put : Ending → Ending
  after_failed_put e =
      unpersisted e "Execution evidence could not be persisted"
        "Executor evidence persistence failed"

  module _ (store : Storage) (policy : SandboxPolicy) (duration_ms : ℕ) where
    abbrev payload : ActionProposal → String → Option String → Ending → String → EvidencePayload
    payload action run_id session_id ending audit_ref = record {
      session_id = session_id;
      run_id = run_id;
      action = action;
      ending = ending;
      duration_ms = duration_ms;
      policy = policy;
      audit_ref = audit_ref;
    }

    abbrev result_of :
        ActionProposal → String → Ending → String → String → List String → ExecutionResult
    result_of action run_id e evidence_ref audit_ref artifacts = record {
      run_id = run_id;
      action_id = action.id;
      status = e.status;
      exit_code = e.exit_code;
      stdout = e.stdout;
      stderr = e.stderr;
      timed_out = e.timed_out;
      evidence_ref = evidence_ref;
      audit_ref = audit_ref;
      artifacts = artifacts;
      duration_ms = duration_ms;
      error = e.error;
    }

    -- the ending of a failed audit, and the result with what the second call of the store gave
    abbrev unaudited : Ending → Ending
    unaudited e =
        unpersisted e "Execution audit could not be persisted" "Executor audit persistence failed"

    unfoldable pub unaudited_result :
        ActionProposal → String → Ending → Option (String × String) → ExecutionResult
    unaudited_result action run_id e (some (ref, path)) =
        result_of action run_id (unaudited e) ref ("audit-unavailable:" ++ run_id) (path ∷ [])
    unaudited_result action run_id e none =
        result_of action run_id (unaudited e) ("evidence-unavailable-" ++ store.next_fresh_id)
          ("audit-unavailable:" ++ run_id) []

    -- the result with what the audit log gave
    unfoldable pub audited_result :
        ActionProposal
        → String
        → Option String
        → Ending
        → String
        → List String
        → Option String
        → ExecutionResult
    audited_result action run_id session_id e evidence_ref artifacts (some audit_ref) =
        result_of action run_id e evidence_ref audit_ref artifacts
    audited_result action run_id session_id e evidence_ref artifacts none =
        let final =
          payload action run_id session_id (unaudited e) ("audit-unavailable:" ++ run_id) in
        unaudited_result action run_id e (store.put_again final)

    -- from the audit record on
    unfoldable pub audited :
        ActionProposal → String → Option String → Ending → String → List String → ExecutionResult
    audited action run_id session_id e evidence_ref artifacts =
        let evidence = payload action run_id session_id e ("audit:" ++ run_id) in
        audited_result action run_id session_id e evidence_ref artifacts
          (store.append evidence evidence_ref)

    -- the result with what the first call of the store gave
    unfoldable pub stored_result :
        ActionProposal
        → String
        → Option String
        → Ending
        → Option (String × String)
        → ExecutionResult
    stored_result action run_id session_id e (some (ref, path)) =
        audited action run_id session_id e ref (path ∷ [])
    stored_result action run_id session_id e none =
        audited action run_id session_id (after_failed_put e)
          ("evidence-unavailable-" ++ store.fresh_id) []

    abbrev pub first_payload : ActionProposal → String → Option String → Ending → EvidencePayload
    first_payload action run_id session_id given =
        payload action run_id session_id (as_given given) ("audit:" ++ run_id)

    -- `_finish`
    unfoldable pub finish : ActionProposal → String → Option String → Ending → ExecutionResult
    finish action run_id session_id given =
        stored_result action run_id session_id (as_given given)
          (store.put_execution (first_payload action run_id session_id given))

    abbrev pub names_docker : String → Bool
    names_docker reason =
        includes "docker sandbox backend" (lower reason)
        || includes "docker security boundary" (lower reason)

    -- `_runner_denied`
    unfoldable pub runner_denied : ActionProposal → String → String → Bool → ExecutionResult
    runner_denied action run_id reason timed_out = finish action run_id none record {
      status = if timed_out then failed else denied;
      exit_code = if timed_out then 124 else 126;
      decision_reason = reason;
      stdout = "";
      stderr = reason;
      timed_out = timed_out;
      workspace_id = "";
      error =
          if names_docker reason
          then some (
              system_error isolation_blocked executor
                "Execution was blocked by the Docker isolation boundary" false)
          else none;
    }
