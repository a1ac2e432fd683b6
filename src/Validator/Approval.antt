-- ===== src/Validator/Approval.antt =====
-- The validator approves exactly the proposals that the policy admits.
use cft_security_agent.Prelude.{
  ◌≤◌, String, ◌≡◌, ◌≢◌, ◌↔◌, ◌⊎◌, true, Option, some, none, List, [], arith, text_eq, or_default,
  contains_iff, In, lookup, is_some, strip,
}
use cft_security_agent.Schemas.Action.{ActionProposal}
use cft_security_agent.Validator.Document.{Validator, valid_action_id}
use cft_security_agent.Validator.Parameters.{
  contract_of, validate_parameters, validate_registered_artifacts,
}
use cft_security_agent.Validator.Contract.{
  HasContract, HasTrusted, validate_parameters_iff, registered_artifacts_iff,
}
use cft_security_agent.Validator.{
  validate, validate_request, validate_content, environment_matches, head_rules, request_rules,
}

-- A target without a registered environment accepts every environment of the policy.
abbrev pub IsAtHome : Option String → String → Type 0
IsAtHome none environment = Unit
IsAtHome (some expected) environment = environment ≡ expected

-- The declarative reading of the policy.
pub record Admits (v : Validator) (a : ActionProposal) : Type 0 where
  pub version : v.policy.version ≡ some 1
  pub id : valid_action_id a.id ≡ true
  pub target :
      In a.target (or_default v.policy.allowed_targets [])
      ⊎ (In "registered" (or_default v.policy.allowed_targets [])
          × (is_some (lookup a.target v.target_environments) ≡ true))
  pub environment : In a.environment (or_default v.policy.allowed_environments [])
  pub at_home : IsAtHome (lookup a.target v.target_environments) a.environment
  pub tool : In a.tool (or_default v.policy.allowed_tools [])
  pub enabled : 1 ≤ or_default v.policy.max_iterations 0
  pub iteration : a.iteration ≤ or_default v.policy.max_iterations 0
  pub purpose : strip a.purpose ≢ ""
  pub expected_evidence : strip a.expected_evidence ≢ ""
  pub parameters :
      HasContract (contract_of (lookup a.tool v.policy.parameter_contracts)) a.parameters
  pub artifacts : HasTrusted (lookup a.target v.target_artifacts) a.parameters
  pub logging : v.policy.logging_required ≡ some true

environment_matches_iff :
    (expected : Option String) (environment : String)
    → (environment_matches expected environment ≡ true) ↔ IsAtHome expected environment
environment_matches_iff none environment = ground arith
environment_matches_iff (some expected) environment = text_eq.same_iff environment expected

-- the first half of the checks and the second, as the source makes them
content_iff :
    (v : Validator) (a : ActionProposal) (rules : List String)
    → ((validate_content v a rules).approved ≡ true) ↔ (
        (validate_parameters v.policy a ≡ none)
        × (validate_registered_artifacts v a ≡ none)
        × (v.policy.logging_required ≡ some true))
unfolding validate_content
content_iff v a rules = ground arith

request_iff :
    (v : Validator) (a : ActionProposal) (rules : List String)
    → ((validate_request v a rules).approved ≡ true) ↔ (
        In a.tool (or_default v.policy.allowed_tools [])
        × (1 ≤ or_default v.policy.max_iterations 0)
        × (a.iteration ≤ or_default v.policy.max_iterations 0)
        × (strip a.purpose ≢ "")
        × (strip a.expected_evidence ≢ "")
        × (validate_parameters v.policy a ≡ none)
        × (validate_registered_artifacts v a ≡ none)
        × (v.policy.logging_required ≡ some true))
unfolding validate_request
request_iff v a rules = ground (
  arith,
  contains_iff a.tool (or_default v.policy.allowed_tools []),
  text_eq.same_iff (strip a.purpose) "",
  text_eq.same_iff (strip a.expected_evidence) "",
  content_iff v a (request_rules rules),
)

-- A proposal is approved exactly when the policy has version 1, the id is safe, target, environment
-- and tool are allowed and the environment is the target's own, the iteration is within a positive
-- limit, purpose and expected evidence are not blank, the parameters meet the tool's contract and
-- name only registered artifacts, and audit logging is mandatory.
pub approved_iff_Admits :
    (v : Validator) (a : ActionProposal) → ((validate v a).approved ≡ true) ↔ Admits v a
unfolding validate
approved_iff_Admits v a = ground (
  arith,
  contains_iff a.target (or_default v.policy.allowed_targets []),
  contains_iff "registered" (or_default v.policy.allowed_targets []),
  contains_iff a.environment (or_default v.policy.allowed_environments []),
  environment_matches_iff (lookup a.target v.target_environments) a.environment,
  validate_parameters_iff v.policy a,
  registered_artifacts_iff v a,
  request_iff v a (head_rules (lookup a.target v.target_environments)),
)
