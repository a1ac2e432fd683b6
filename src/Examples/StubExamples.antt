-- ===== src/Examples/StubExamples.antt =====
-- agent/model.py for a finding about a password.
use cft_security_agent.Prelude.{
  ◌≡◌, refl, arith, String, true, Option, some, none, [], lower, take_chars, show,
}
use cft_security_agent.Schemas.AgentLoop.{DynamicPlan}
use cft_security_agent.Schemas.State.{AgentState}
use cft_security_agent.Agent.Planning.{validate}
use cft_security_agent.Agent.Consistency.{consistency_error}
use cft_security_agent.Agent.Context.{artifact_id_for_path}
use cft_security_agent.Agent.Stub.{propose_action, build_plan, plan_for, action_for}
use cft_security_agent.Agent.Stub.Choices.{
  proposal, proposal_for, build_action_id, normalized_id, sanitized, strip_left_dashes,
  strip_right_dashes,
}
use cft_security_agent.Agent.Stub.Plans.{stub_plan_approved}
use cft_security_agent.Examples.Samples.{a_finding, an_execution, a_profile, a_hypothesis, a_state}

abbrev password_state : AgentState
password_state = record (a_state [] an_execution) {
  finding = record a_finding { rule_id = "django.Unvalidated-Password" };
}

abbrev path_as_is : String → Option String
path_as_is s = some s

abbrev the_plan : DynamicPlan
the_plan = elim (build_plan path_as_is none password_state a_hypothesis) [
  | some plan ↦ plan
  | none ↦ plan_for password_state a_hypothesis (
      action_for password_state a_profile
        (record { tool = ""; parameters = []; purpose = ""; expected_evidence = "" }))
]

builds : build_plan path_as_is none password_state a_hypothesis ≡ some the_plan
unfolding build_plan propose_action proposal_for proposal artifact_id_for_path lower
builds = refl

-- an id that the policy validator takes
action_id_test : build_action_id "--rule/7 (auth)--" 2 ≡ "action-rule-7-auth-2"
unfolding build_action_id normalized_id sanitized strip_left_dashes strip_right_dashes take_chars
    show
action_id_test = refl

stub_plan_approved_example :
    (consistency_error the_plan ≡ none) × ((validate the_plan password_state).approved ≡ true)
stub_plan_approved_example =
    stub_plan_approved path_as_is none password_state a_hypothesis a_profile the_plan refl refl
      (omega arith) builds
