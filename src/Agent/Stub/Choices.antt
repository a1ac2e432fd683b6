-- ===== src/Agent/Stub/Choices.antt =====
-- agent/model.py: the tool for a finding, and the ids of actions and plans.
use Prim.Native.String.{◌++◌}
use Prim.Native.Char.{Char, char, code}
use package.text.Mathlib.Text.{starts_with}
use cft_security_agent.Prelude.{
  ℕ, suc, String, Bool, true, false, Option, some, none, List, [], ◌∷◌, if◌then◌else◌, ◌==◌, nat_eq,
  text_eq, or_default, lookup, lower, upper, includes, show, take_chars,
}
use cft_security_agent.Schemas.Action.{Value, text}
use cft_security_agent.Schemas.AgentLoop.{Hypothesis}
use cft_security_agent.Schemas.Target.{TargetProfile}
use cft_security_agent.Schemas.State.{AgentState}
use cft_security_agent.Validator.Document.{is_id_char}
use cft_security_agent.Agent.Context.{artifact_id_for_path, artifact_id_for_role}

abbrev dash : Char
dash = char b'-' tt

-- `re.sub(r"[^A-Za-z0-9._:-]+", "-", s)`: each run of other characters becomes one dash. The flag
-- says that the scan is in such a run.
unfoldable pub sanitized : Bool → String → String
sanitized in_run String.[] = ""
sanitized in_run (String.◌∷◌ c s) =
    let kept = String.◌∷◌ c (sanitized false s) in
    let skipped = sanitized true s in
    if is_id_char (code c) then kept else if in_run then skipped else String.◌∷◌ dash skipped

unfoldable pub strip_left_dashes : String → String
strip_left_dashes String.[] = ""
strip_left_dashes (String.◌∷◌ c s) =
    let rest = strip_left_dashes s in if code c == b'-' then rest else String.◌∷◌ c s

unfoldable pub strip_right_dashes : String → String
strip_right_dashes String.[] = ""
strip_right_dashes (String.◌∷◌ c s) =
    let rest = strip_right_dashes s in
    if rest == "" then if code c == b'-' then "" else String.◌∷◌ c "" else String.◌∷◌ c rest

-- `re.sub(...).strip("-") or "finding"`
unfoldable pub normalized_id : String → String
normalized_id finding_id =
    let id = strip_right_dashes (strip_left_dashes (sanitized false finding_id)) in
    if id == "" then "finding" else id

-- `_build_plan_id`
unfoldable pub build_plan_id : String → ℕ → String
build_plan_id finding_id iteration =
    take_chars 128
      ("plan-" ++ (take_chars 100 (normalized_id finding_id) ++ ("-" ++ show iteration)))

-- `_build_action_id`
unfoldable pub build_action_id : String → ℕ → String
build_action_id finding_id iteration =
    "action-" ++ (take_chars 96 (normalized_id finding_id) ++ ("-" ++ show iteration))

-- `_requested_test_outcome`
unfoldable pub requested_test_outcome : Option String → String
requested_test_outcome severity =
    or_default
      (lookup (upper (or_default severity "")) (
        ("TEST_CONFIRMED", "confirmed")
        ∷ ("TEST_REJECTED", "rejected")
        ∷ ("TEST_INCONCLUSIVE", "inconclusive")
        ∷ []))
      "inconclusive"

-- `_is_missing_user_finding`, `_is_unvalidated_password_finding`, `_is_react_dangerous_html_finding`
abbrev pub is_missing_user_finding : String → Bool
is_missing_user_finding rule_id = starts_with (lower rule_id) "dockerfile.security.missing-user"

abbrev pub is_unvalidated_password_finding : String → Bool
is_unvalidated_password_finding rule_id = includes "unvalidated-password" (lower rule_id)

abbrev pub is_react_dangerous_html_finding : String → Bool
is_react_dangerous_html_finding rule_id = includes "react-dangerouslysetinnerhtml" (lower rule_id)

-- what `propose_action` chooses for a finding
pub record Proposal : Type 0 where
  pub tool : String
  pub parameters : List (String × Value)
  pub purpose : String
  pub expected_evidence : String

abbrev for_path : TargetProfile → Option String → Option String → Option String
for_path profile kind none = none
for_path profile kind (some path) = artifact_id_for_path profile kind path

-- `{"artifact_id": ...}`
abbrev pub artifact_parameters : Option String → Option (List (String × Value))
artifact_parameters none = none
artifact_parameters (some id) = some (("artifact_id", text id) ∷ [])

module _ (normalize_path : String → Option String) where
  -- `_react_html_flow_parameters`
  unfoldable pub react_html_flow_parameters :
      TargetProfile → String → Option (List (String × Value))
  react_html_flow_parameters profile file =
      let field = or_default (lookup "react_html_flow.field" profile.metadata) "" in
      if field == "" then none else elim (for_path profile none (normalize_path file)) [
        | none ↦ none
        | some frontend ↦ elim (artifact_id_for_role profile "react_html_flow.model") [
          | none ↦ none
          | some model ↦ elim (artifact_id_for_role profile "react_html_flow.serializer") [
            | none ↦ none
            | some serializer ↦ elim (artifact_id_for_role profile "react_html_flow.view") [
              | none ↦ none
              | some view ↦ some (
                  ("frontend_artifact_id", text frontend)
                  ∷ ("model_artifact_id", text model)
                  ∷ ("serializer_artifact_id", text serializer)
                  ∷ ("view_artifact_id", text view)
                  ∷ ("field", text field)
                  ∷ [])
            ]
          ]
        ]
      ]

  unfoldable pub proposal :
      String → String → String → Option (List (String × Value)) → Option Proposal
  proposal tool purpose expected none = none
  proposal tool purpose expected (some parameters) = some (record {
    tool = tool;
    parameters = parameters;
    purpose = purpose;
    expected_evidence = expected;
  })

  -- the branches of `propose_action`; `none` is the `ValueError` of a missing artifact or path
  unfoldable pub proposal_for : AgentState → Hypothesis → TargetProfile → Option Proposal
  proposal_for s hypothesis profile =
      if or_default s.finding.service "" == "force-deny"
      then proposal "unknown_tool" "Exercise the deterministic Validator deny path."
          hypothesis.expected_evidence (some [])
      else if is_missing_user_finding s.finding.rule_id
      then proposal "inspect_dockerfile_user"
          "Inspect the trusted Dockerfile artifact for the effective final-stage USER directive using a reusable read-only source capability."
          "Structured source evidence classifying the final Dockerfile USER as missing, root, non-root or dynamic."
          (artifact_parameters
            (for_path profile (some "dockerfile") (normalize_path s.finding.file)))
      else if is_unvalidated_password_finding s.finding.rule_id
      then proposal "inspect_python_password_assignment"
          "Inspect the trusted Python seed artifact for password assignment and Django password-validation calls without exposing password values."
          "Structured source evidence with password assignment/validation counts and redacted hardcoded-password metadata."
          (artifact_parameters (for_path profile (some "python") (normalize_path s.finding.file)))
      else if is_react_dangerous_html_finding s.finding.rule_id
      then proposal "inspect_react_dangerous_html_flow"
          "Perform a bounded static source-flow check from the writable user field to the React dangerous HTML sink without executing browser content."
          "Structured source-flow evidence covering sink, sanitizer, serializer writability and API update-route facts."
          (react_html_flow_parameters profile s.finding.file)
      else proposal "safe_noop" "Run one predefined safe verification stub."
          hypothesis.expected_evidence
          (some (
            (
              "message",
              text ("verify:" ++ (s.finding.id ++ (":iteration:" ++ show (suc s.iteration_count)))),
            )
            ∷ ("test_outcome", text (requested_test_outcome s.finding.severity))
            ∷ []))
