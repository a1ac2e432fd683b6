-- ===== src/Executor/Finish/Records.antt =====
-- What the result of an attempt says of the records that were written.
use Prim.Native.String.{◌++◌}
use cft_security_agent.Prelude.{
  if◌then◌else◌, ◌∷◌, [], ◌&&◌, ℕ, String, Bool, true, false, List, Option, some, none, ◌≡◌, arith,
  Option-cases, is_some, inl, inr, refl,
}
use cft_security_agent.Schemas.Action.{ActionProposal}
use cft_security_agent.Schemas.Execution.{
  ExecutionStatus, ExecutionResult, completed, failed, denied, ErrorDetail, is_completed,
}
use cft_security_agent.Redaction.{Patterns}
use cft_security_agent.Executor.Policy.{SandboxPolicy}
use cft_security_agent.Executor.Finish.{
  Ending, Storage, as_given, audited, audited_result, unaudited_result, stored_result, finish,
  is_failed, first_payload, with_error, runner_denied, payload, after_failed_put,
}

-- a failure is explained by an error
abbrev pub is_explained : ExecutionStatus → Option ErrorDetail → Bool
is_explained failed error = is_some error
is_explained _ error = true

is_explained-some :
    (status : ExecutionStatus) (d : ErrorDetail) → is_explained status (some d) ≡ true
is_explained-some completed d = refl
is_explained-some failed d = refl
is_explained-some denied d = refl

is_explained-default :
    (status : ExecutionStatus) (d : ErrorDetail)
    → is_explained status (if is_failed status then some d else none) ≡ true
is_explained-default completed d = refl
is_explained-default failed d = refl
is_explained-default denied d = refl

with_error-is_explained :
    (rx : Patterns) (e : Ending) → is_explained e.status (with_error rx e) ≡ true
unfolding with_error
with_error-is_explained rx e = elim (Option-cases e.error) [
  | inl r ↦ rw (r, with_error) (is_explained-default e.status _)
  | inr r ↦ rw (r.1, with_error) (is_explained-some e.status r.0)
]

module _ (rx : Patterns) (store : Storage) (policy : SandboxPolicy) (duration_ms : ℕ)
    (action : ActionProposal) (run_id : String) (session_id : Option String) where
  -- the status and the error after the records were written, or could not be
  abbrev Written : Ending → Bool → ExecutionResult → Type 0
  Written e written r =
      (is_explained r.status r.error ≡ true)
      × (is_completed r.status ≡ (is_completed e.status && written))

  unaudited_result-Written :
      (e : Ending) (again : Option (String × String))
      → Written e false (unaudited_result rx store policy duration_ms action run_id e again)
  unfolding unaudited_result
  unaudited_result-Written e (some _) = (refl, ground arith)
  unaudited_result-Written e none = (refl, ground arith)

  audited_result-Written :
      (e : Ending) (ref : String) (artifacts : List String) (audit : Option String)
      → is_explained e.status e.error ≡ true
      → Written e (is_some audit) (
          audited_result rx store policy duration_ms action run_id session_id e ref artifacts audit)
  unfolding audited_result
  audited_result-Written e ref artifacts (some audit) h = (h, ground arith)
  audited_result-Written e ref artifacts none h = unaudited_result-Written e _

  -- `none` where the first call of the store fails; then the audit log's answer
  abbrev pub audit_answer : Ending → Option (String × String) → Option String
  audit_answer e none = none
  audit_answer e (some (ref, path)) =
      store.append
        (payload rx store policy duration_ms action run_id session_id e ("audit:" ++ run_id)) ref

  stored_result-Written :
      (e : Ending) (stored : Option (String × String))
      → is_explained e.status e.error ≡ true
      → Written e
          (is_some (audit_answer e stored))
          (stored_result rx store policy duration_ms action run_id session_id e stored)
  unfolding stored_result audited
  stored_result-Written e (some (ref, path)) h = audited_result-Written e ref (path ∷ []) _ h
  stored_result-Written e none h =
      let w = audited_result-Written (after_failed_put rx e) _ [] _ refl in
      (w.0, ground (arith, w.1))

  -- Whatever an attempt was, its result is completed exactly when the attempt was and both its
  -- evidence and its audit record were written.
  pub completed_iff_recorded :
      (given : Ending)
      → is_completed (finish rx store policy duration_ms action run_id session_id given).status ≡ (
          is_completed given.status
          && is_some (
              audit_answer (as_given rx given) (
                store.put_execution
                  (first_payload rx store policy duration_ms action run_id session_id given))))
  unfolding finish
  completed_iff_recorded given =
      (stored_result-Written (as_given rx given) _ (with_error-is_explained rx given)).1

  -- Every failed result carries an error, also where the failure is that of a record.
  pub failure_is_explained :
      (given : Ending)
      → let r = finish rx store policy duration_ms action run_id session_id given in
        is_explained r.status r.error ≡ true
  unfolding finish
  failure_is_explained given =
      (stored_result-Written (as_given rx given) _ (with_error-is_explained rx given)).0

  finish-fails :
      (given : Ending)
      → is_completed given.status ≡ false
      → is_completed (finish rx store policy duration_ms action run_id session_id given).status
        ≡ false
  finish-fails given h = ground (arith, completed_iff_recorded given, h)

-- A refusal of the runner is never a completed result, which a run of several actions relies on.
pub runner_denied-fails :
    (rx : Patterns) (store : Storage) (policy : SandboxPolicy) (duration_ms : ℕ)
    (action : ActionProposal) (run_id reason : String) (timed_out : Bool)
    → is_completed (runner_denied rx store policy duration_ms action run_id reason timed_out).status
      ≡ false
unfolding runner_denied
runner_denied-fails rx store policy ms action run_id reason true =
    finish-fails rx store policy ms action run_id none _ refl
runner_denied-fails rx store policy ms action run_id reason false =
    finish-fails rx store policy ms action run_id none _ refl
