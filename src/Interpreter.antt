-- ===== src/Interpreter.antt =====
-- evidence/interpreter.py and evidence/runtime.py: the stored record of a run becomes evidence.
pub mod Provenance
pub mod Verdicts
pub mod Surface
use Prim.Native.String.{◌++◌}
use cft_security_agent.Prelude.{
  ℕ, String, Bool, true, false, not, ◌&&◌, Option, some, none, List, [], ◌∷◌, map, if◌then◌else◌,
  ◌==◌, nat_eq, text_eq, lookup, take_chars, show, or_default, is_some,
}
use cft_security_agent.Schemas.Action.{
  Value, null, boolean, pos, text, array, Items, no_items, item, ActionProposal,
}
use cft_security_agent.Schemas.Execution.{
  ExecutionStatus, completed, failed, denied, ExecutionResult,
}
use cft_security_agent.Schemas.Evidence.{
  Verdict, Reliability, high, low, ArtifactRole, EvidenceSource, EvidenceArtifact, Evidence,
}
use cft_security_agent.Redaction.{Patterns, redact_error_message}
use cft_security_agent.Executor.Capabilities.{str_of}

-- The JSON object of a stored execution, each key optional. A key with a value of another type than
-- the executor writes is not modelled.
pub record StoredRecord : Type 0 where
  pub run_id : Option String
  pub action_id : Option String
  pub session_id : Option String
  pub status : Option String
  pub exit_code : Option ℕ
  pub stdout : Option String
  pub stderr : Option String

-- What `model_validate_json` and `model_dump` of a result in schemas/security_tools.py give; each of
-- the three models has a verdict, an explanation and a scope.
pub record CheckResult : Type 0 where
  pub verdict : Verdict
  pub explanation : String
  pub scope : String
  pub facts : List (String × Value)

-- What `HttpSurfaceObservationResult.model_validate_json` gives: the endpoint, and the facts of each
-- of the seven checks.
pub record HttpSurface : Type 0 where
  pub endpoint : String
  pub status : List (String × Value)
  pub security_headers : List (String × Value)
  pub cookies : List (String × Value)
  pub cors : List (String × Value)
  pub redirect : List (String × Value)
  pub health : List (String × Value)
  pub route : List (String × Value)

abbrev pub execution_text : ExecutionStatus → String
execution_text completed = "completed"
execution_text failed = "failed"
execution_text denied = "denied"

-- `_artifact`
unfoldable pub artifact_of : String → EvidenceArtifact
artifact_of reference = record {
  ref = reference;
  role =
      if take_chars 10 reference == "execution-"
      then ArtifactRole.execution
      else if take_chars 6 reference == "audit:"
      then ArtifactRole.audit
      else ArtifactRole.other;
}

abbrev pub python_bool : Bool → String
python_bool true = "True"
python_bool false = "False"

-- `_SPECIALIZED_RESULTS`, with the kind of evidence of each tool
abbrev pub specialized_results : List (String × String)
specialized_results =
    ("inspect_dockerfile_user", "dockerfile_user_check")
    ∷ ("inspect_python_password_assignment", "python_password_assignment_check")
    ∷ ("inspect_react_dangerous_html_flow", "react_dangerous_html_flow_check")
    ∷ []

-- Patterns, Python's `str` of a value that is no text, and the parsers of the data library, which
-- return `none` where they raise; the first takes the tool.
pub record Readers : Type 0 where
  pub patterns : Patterns
  pub print : Value → String
  pub parse_check : String → String → Option CheckResult
  pub parse_surface : String → Option HttpSurface

abbrev pub redacted_item : Readers → Value → Value
redacted_item rd v =
    text (or_default (redact_error_message rd.patterns (str_of rd.print v) 1024) "")

unfoldable pub redacted_items : Readers → Items → Items
redacted_items rd no_items = no_items
redacted_items rd (item v rest) = item (redacted_item rd v) (redacted_items rd rest)

-- the items of `parameters.get("argv", [])`; a value that is no list has no items here
abbrev pub argv_items : Option Value → Items
argv_items (some (array items)) = items
argv_items _ = no_items

-- `str(record.get(key, default)) if evidence_loaded else default`
abbrev pub stored {ℓ} : {A : Type ℓ} → Bool → Option A → A → A
stored loaded value default = if loaded then or_default value default else default

-- the stored run ended with status "completed" and exit code 0
abbrev pub success : StoredRecord → Bool → Bool
success r loaded =
    loaded && (or_default r.status "None" == "completed" && or_default r.exit_code 1 == 0)

module _ (rd : Readers) (action : ActionProposal) (execution : ExecutionResult) (refs : List String)
    (hypothesis_id : String) (session : Option String) (fresh_id : String) where
  -- `_evidence`
  unfoldable pub evidence_with :
      String → String → List (String × Value) → String → Reliability → Option Verdict → Evidence
  evidence_with kind summary facts description reliability verdict = record {
    id = "evidence-" ++ fresh_id;
    action_id = action.id;
    kind = kind;
    summary = summary;
    artifact_refs = refs;
    reliability = reliability;
    verdict = verdict;
    source = if is_some session then EvidenceSource.runtime else EvidenceSource.static;
    sandbox_session_id = session;
    hypothesis_id = hypothesis_id;
    action = record { id = action.id; tool = action.tool; run_id = some execution.run_id };
    observation = record { kind = kind; facts = facts };
    scope = record {
      target = action.target;
      environment = action.environment;
      service = action.service;
      description = description;
    };
    artifacts = map artifact_of refs;
  }

  module _ (stored_record : StoredRecord) (loaded : Bool) where
    -- `_sandbox_command_evidence`
    unfoldable pub sandbox_command_evidence : Evidence
    sandbox_command_evidence =
        let status = stored loaded stored_record.status (execution_text execution.status) in
        let exit_code = stored loaded stored_record.exit_code execution.exit_code in
        let stdout = take_chars 8192 (stored loaded stored_record.stdout execution.stdout) in
        let stderr = take_chars 4096 (stored loaded stored_record.stderr execution.stderr) in
        evidence_with "sandbox_command_observation"
          ("Bounded command observation from the disposable security lab: status="
            ++ (status ++ (", exit_code=" ++ (show exit_code ++ "."))))
          (("executor_status", text status)
            ∷ ("exit_code", pos exit_code)
            ∷ ("timed_out", boolean execution.timed_out)
            ∷ ("stdout", text stdout)
            ∷ ("stderr", text stderr)
            ∷ ("cwd", or_default (lookup "cwd" action.parameters) null)
            ∷ ("argv", array (redacted_items rd (argv_items (lookup "argv" action.parameters))))
            ∷ ("record_loaded", boolean loaded)
            ∷ [])
          ("disposable sandbox command output; target repository is read-only and "
            ++ "the command has no arbitrary network access")
          (if loaded then high else low) none

    abbrev pub malformed : String → Evidence
    malformed kind =
        evidence_with kind "Executor completed, but capability-specific evidence was malformed."
          (("schema_valid", boolean false) ∷ []) "bounded capability result could not be parsed" low
          (some Verdict.inconclusive)

    abbrev pub checked : String → CheckResult → Evidence
    checked kind r = evidence_with kind r.explanation r.facts r.scope high (some r.verdict)

    -- `_structured_capability_evidence`
    unfoldable pub structured_evidence : String → Option Evidence
    structured_evidence kind =
        if not (success stored_record loaded)
        then none
        else elim (rd.parse_check action.tool (or_default stored_record.stdout "")) [
          | none ↦ some (malformed kind)
          | some r ↦ some (checked kind r)
        ]

    -- the last part of `build_evidence`, on the status and the exit code that it reads
    unfoldable pub test_result : String → ℕ → Evidence
    test_result status exit_code =
        evidence_with "test_result"
          ("Executor evidence "
            ++ (execution.evidence_ref
                ++ (" "
                    ++ ((if loaded then "read from persistent storage" else "unavailable")
                        ++ (": executor_status="
                            ++ (status
                                ++ (", exit_code="
                                    ++ (show exit_code
                                        ++ (", timed_out="
                                            ++ (python_bool execution.timed_out ++ "."))))))))))
          (("executor_status", text status)
            ∷ ("exit_code", pos exit_code)
            ∷ ("timed_out", boolean execution.timed_out)
            ∷ ("record_loaded", boolean loaded)
            ∷ [])
          "bounded executor result; not a vulnerability verdict"
          (if loaded && status == "completed" then high else low) none

    -- `record["status"]` and `record["exit_code"]`: a missing key of a loaded record is a `KeyError`
    unfoldable pub plain_evidence : Option Evidence
    plain_evidence =
        if not loaded
        then some (test_result (execution_text execution.status) execution.exit_code)
        else elim stored_record.status [
          | none ↦ none
          | some status ↦ elim stored_record.exit_code [
            | none ↦ none
            | some exit_code ↦ some (test_result status exit_code)
          ]
        ]

    abbrev pub or_plain : Option Evidence → Option Evidence
    or_plain none = plain_evidence
    or_plain (some e) = some e

    abbrev pub specialized_evidence : Option String → Option Evidence
    specialized_evidence none = plain_evidence
    specialized_evidence (some kind) = or_plain (structured_evidence kind)

    -- `build_evidence`, with `none` for the `KeyError`
    unfoldable pub build_evidence : Option Evidence
    build_evidence =
        if action.tool == "sandbox_command"
        then some sandbox_command_evidence
        else specialized_evidence (lookup action.tool specialized_results)
