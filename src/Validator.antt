-- ===== src/Validator.antt =====
-- validator/validator.py: the policy gate between the agent and the executor. The children
-- `Document` and `Parameters` hold the policy document and the parameter contracts.
pub mod Document
pub mod Parameters
pub mod Contract
pub mod Approval
use mathlib.Core.List
use Prim.Native.String.{◌++◌}
use cft_security_agent.Prelude.{
  ℕ, String, Bool, true, false, not, ◌&&◌, ◌||◌, Option, some, none, List, [], ◌∷◌, ltb, ◌==◌,
  text_eq, if◌then◌else◌, or_default, is_some, contains, lookup, strip, show, nat_beq,
}
use cft_security_agent.Schemas.Action.{ActionProposal, ValidationResult}
use cft_security_agent.Validator.Document.{Policy, Validator, valid_action_id}
use cft_security_agent.Validator.Parameters.{validate_parameters, validate_registered_artifacts}

abbrev pub deny : ActionProposal → String → List String → String → ValidationResult
deny action reason passed denied = record {
  approved = false;
  action_id = action.id;
  reason = reason;
  policy_rules = List.◌++◌ passed (denied ∷ []);
}

-- `version in {1}`
abbrev pub supports_version : Option ℕ → Bool
supports_version (some n) = nat_beq n 1
supports_version none = false

-- listed itself, or registered where the policy admits every registered target
abbrev pub target_allowed : Validator → String → Bool
target_allowed v target =
    contains target (or_default v.policy.allowed_targets [])
    || (contains "registered" (or_default v.policy.allowed_targets [])
        && is_some (lookup target v.target_environments))

abbrev pub environment_matches : Option String → String → Bool
environment_matches none environment = true
environment_matches (some expected) environment = environment == expected

abbrev mismatch_reason : Option String → ActionProposal → String
mismatch_reason none action = ""
mismatch_reason (some expected) action =
    "Target '"
    ++ (action.target
        ++ ("' belongs to environment '"
            ++ (expected ++ ("', not '" ++ (action.environment ++ "'")))))

abbrev pub mandatory : Option Bool → Bool
mandatory (some true) = true
mandatory _ = false

-- `purpose.strip()` and `expected_evidence.strip()` are not empty
abbrev pub is_present : String → Bool
is_present s = not (strip s == "")

-- from the parameter contract on
unfoldable pub validate_content : Validator → ActionProposal → List String → ValidationResult
validate_content v action rules = elim (validate_parameters v.policy action) [
  | some (reason, rule) ↦ deny action reason rules rule
  | none ↦ elim (validate_registered_artifacts v action) [
    | some (reason, rule) ↦ deny action reason rules rule
    | none ↦
        let rules' =
          List.◌++◌ rules
            ("parameters_allowed" ∷ "parameter_values_valid" ∷ "registered_artifacts_valid" ∷ []) in
        if mandatory v.policy.logging_required
        then record {
          approved = true;
          action_id = action.id;
          reason = "Allowed by deterministic Validator policy v0.1";
          policy_rules = List.◌++◌ rules' ("logging_required" ∷ []);
        }
        else deny action "Approval requires mandatory audit logging" rules'
            "logging_required_denied"
  ]
]

-- the rules passed before the parameter contract
abbrev pub request_rules : List String → List String
request_rules rules = List.◌++◌ rules (
    "tool_allowed" ∷ "iteration_within_limit" ∷ "purpose_present" ∷ "expected_evidence_present"
    ∷ [])

-- from the tool on
unfoldable pub validate_request : Validator → ActionProposal → List String → ValidationResult
validate_request v action rules =
    let max_iterations = or_default v.policy.max_iterations 0 in
    let rules1 = List.◌++◌ rules ("tool_allowed" ∷ []) in
    let rules2 = List.◌++◌ rules ("tool_allowed" ∷ "iteration_within_limit" ∷ []) in
    let rules3 =
      List.◌++◌ rules ("tool_allowed" ∷ "iteration_within_limit" ∷ "purpose_present" ∷ []) in
    if not (contains action.tool (or_default v.policy.allowed_tools []))
    then deny action ("Tool '" ++ (action.tool ++ "' is not allowed")) rules "tool_denied"
    else if ltb max_iterations 1 || ltb max_iterations action.iteration
    then deny action
        ("Iteration "
          ++ (show action.iteration ++ (" exceeds policy limit " ++ show max_iterations)))
        rules1 "iteration_limit_denied"
    else if not (is_present action.purpose)
    then deny action "Action purpose is required" rules2 "purpose_denied"
    else if not (is_present action.expected_evidence)
    then deny action "Expected evidence is required" rules3 "expected_evidence_denied"
    else validate_content v action (request_rules rules)

-- the rules passed before the tool
abbrev pub head_rules : Option String → List String
head_rules expected =
    List.◌++◌
      ("policy_version_supported" ∷ "action_id_valid" ∷ "target_allowed" ∷ "environment_allowed"
        ∷ [])
      (if is_some expected then "target_environment_match" ∷ [] else [])

-- `PolicyValidator.validate`
unfoldable pub validate : Validator → ActionProposal → ValidationResult
validate v action =
    let expected = lookup action.target v.target_environments in
    let rules1 = "policy_version_supported" ∷ [] in
    let rules2 = "policy_version_supported" ∷ "action_id_valid" ∷ [] in
    let rules3 = List.◌++◌ rules2 ("target_allowed" ∷ []) in
    let rules4 = List.◌++◌ rules3 ("environment_allowed" ∷ []) in
    if not (supports_version v.policy.version)
    then deny action "Unsupported or missing policy version" [] "policy_version_denied"
    else if not (valid_action_id action.id)
    then deny action "Action id must be 1-128 safe identifier characters" rules1 "action_id_denied"
    else if not (target_allowed v action.target)
    then deny action ("Target '" ++ (action.target ++ "' is not allowed")) rules2 "target_denied"
    else if not (contains action.environment (or_default v.policy.allowed_environments []))
    then deny action ("Environment '" ++ (action.environment ++ "' is not allowed")) rules3
        "environment_denied"
    else if not (environment_matches expected action.environment)
    then deny action (mismatch_reason expected action) rules4 "target_environment_mismatch"
    else validate_request v action (head_rules expected)
