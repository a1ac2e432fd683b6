-- ===== src/Examples/PolicyExamples.antt =====
-- validator/validator.py and agent/planning.py at concrete inputs.
use cft_security_agent.Prelude.{
  ◌≡◌, ◌↔◌, refl, true, some, none, [], ◌∷◌, lookup, strip, sorted, ends_with, every_char,
}
use cft_security_agent.Schemas.Action.{ActionProposal, text}
use cft_security_agent.Schemas.AgentLoop.{DynamicPlan}
use cft_security_agent.Validator.Document.{
  Policy, Validator, Contract, contract, from_document, valid_action_id,
}
use cft_security_agent.Validator.Parameters.{
  validate_parameters, contract_error, values_error, enum_error, lengths_error, lists_error,
  validate_registered_artifacts, artifacts_error,
}
use cft_security_agent.Validator.{validate, validate_request, validate_content}
use cft_security_agent.Validator.Approval.{Admits, approved_iff_Admits}
use cft_security_agent.Agent.Planning as Plan
use cft_security_agent.Agent.Consistency.{consistency_error}
use cft_security_agent.Agent.Consistency.Meaning.{IsConsistent, accepted_iff_IsConsistent}
use cft_security_agent.Agent.Planning.Approval.{IsConfined, approved_iff_IsConfined}
use cft_security_agent.Examples.Samples.{an_action, an_execution, a_profile, a_state}

abbrev artifact_contract : Contract
artifact_contract = record {
  allowed_keys = "artifact_id" ∷ [];
  required_keys = "artifact_id" ∷ [];
  enum_values = [];
  max_string_lengths = ("artifact_id", 64) ∷ [];
  string_list_parameters = [];
  max_list_lengths = [];
  max_list_item_lengths = [];
}

abbrev pub a_policy : Policy
a_policy = record {
  version = some 1;
  allowed_targets = some ("registered" ∷ []);
  allowed_environments = some ("local" ∷ "sandbox" ∷ "staging" ∷ []);
  allowed_tools = some ("inspect_python_password_assignment" ∷ []);
  parameter_contracts = ("inspect_python_password_assignment", contract artifact_contract) ∷ [];
  max_iterations = some 5;
  logging_required = some true;
}

abbrev a_validator : Validator
a_validator = from_document a_policy (some a_profile)

approves : (validate a_validator an_action).approved ≡ true
unfolding validate validate_request validate_content validate_parameters contract_error values_error
    enum_error lengths_error lists_error validate_registered_artifacts artifacts_error from_document
    valid_action_id lookup strip sorted every_char ends_with
approves = refl

abbrev stray_action : ActionProposal
stray_action = record an_action { parameters = ("artifact_id", text "secrets") ∷ [] }

denies :
    (validate a_validator stray_action).reason
    ≡ "Unknown trusted artifact for parameter 'artifact_id'"
unfolding validate validate_request validate_content validate_parameters contract_error values_error
    enum_error lengths_error lists_error validate_registered_artifacts artifacts_error from_document
    valid_action_id lookup strip sorted every_char ends_with
denies = refl

approved_iff_Admits_example :
    ((validate a_validator stray_action).approved ≡ true) ↔ Admits a_validator stray_action
approved_iff_Admits_example = approved_iff_Admits a_validator stray_action

abbrev a_plan : DynamicPlan
a_plan = record {
  id = "p-1";
  target = "shop";
  environment = "local";
  hypothesis_id = "h-1";
  goal = "check the password";
  max_steps = 1;
  sandbox_session_id = none;
  continuation_reason = "first step";
  stop_conditions = [];
  steps =
      record {
        index = 1;
        action = record an_action { iteration = 2 };
        expected_observation = "an assignment";
        continue_if = "nothing is found";
      }
      ∷ [];
}

approved_iff_IsConfined_example :
    ((Plan.validate a_plan (a_state [] an_execution)).approved ≡ true)
    ↔ IsConfined a_plan (a_state [] an_execution) a_profile
approved_iff_IsConfined_example =
    approved_iff_IsConfined a_plan (a_state [] an_execution) a_profile refl

accepted_iff_IsConsistent_example : (consistency_error a_plan ≡ none) ↔ IsConsistent a_plan
accepted_iff_IsConsistent_example = accepted_iff_IsConsistent a_plan
