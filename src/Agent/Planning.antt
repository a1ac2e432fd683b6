-- ===== src/Agent/Planning.antt =====
-- agent/planning.py: a plan stays within the target and the runtime that the agent was given.
pub mod Scope
pub mod Approval
use Prim.Native.String.{◌++◌}
use mathlib.Core.List
use cft_security_agent.Prelude.{
  ℕ, ◌+◌, ◌-◌, ◌<◌, suc, String, Bool, true, false, not, ◌&&◌, ◌||◌, Option, some, none, List, [],
  ◌∷◌, ltb, leb, ◌==◌, nat_eq, text_eq, if◌then◌else◌, or_default, is_some, any, all, contains,
  lookup, length, size, every_char, map,
}
use cft_security_agent.Schemas.Action.{
  Value, text, array, Items, no_items, item, texts_of, ActionProposal,
}
use cft_security_agent.Schemas.Target.{TargetProfile, RuntimeService, RuntimeServiceMap}
use cft_security_agent.Schemas.AgentLoop.{
  PlannedAction, DynamicPlan, PlanValidationResult, Hypothesis,
}
use cft_security_agent.Schemas.State.{AgentState}

-- `set(parameters) == {"argv", "cwd"}`, for a dictionary, which has each key once
abbrev keys_of : List (String × Value) → List String
keys_of ps = map (λ (p : String × Value). p.0) ps

abbrev pub keys_are : List String → List (String × Value) → Bool
keys_are names ps =
    all (λ k. contains k names) (keys_of ps) && all (λ n. contains n (keys_of ps)) names

unfoldable pub total_size : List String → ℕ
total_size [] = 0
total_size (s ∷ ss) = size s + total_size ss

-- a text that is not empty and holds no NUL
abbrev pub is_plain : String → Bool
is_plain s = not (s == "") && every_char (λ c. not (c == 0)) s

-- `value` as a list, where it is one
abbrev pub items_of : Option Value → Option Items
items_of (some (array items)) = some items
items_of _ = none

abbrev pub item_count : Items → ℕ
item_count no_items = 0
item_count (item v vs) = suc (item_count vs)

-- A list or an object, which Python cannot look up in a set, raises a `TypeError` there and is
-- refused here.
abbrev pub is_lab_directory : Option Value → Bool
is_lab_directory (some (text s)) = s == "/target" || s == "/workspace"
is_lab_directory _ = false

unfoldable pub argv_error : Items → Option String
argv_error items =
    if item_count items == 0 || ltb 32 (item_count items)
    then some "sandbox_command argv must contain 1-32 items"
    else elim (texts_of items) [
      | none ↦ some "sandbox_command argv items must be non-empty strings without NUL bytes"
      | some argv ↦
          if not (all is_plain argv)
          then some "sandbox_command argv items must be non-empty strings without NUL bytes"
          else if any (λ s. ltb 1024 (size s)) argv || ltb 8192 (total_size argv)
          then some "sandbox_command argv exceeds the bounded command size"
          else none
    ]

unfoldable pub sandbox_command_error : List (String × Value) → Option String
sandbox_command_error parameters =
    if not (keys_are ("argv" ∷ "cwd" ∷ []) parameters)
    then some "sandbox_command requires exactly argv and cwd parameters"
    else elim (items_of (lookup "argv" parameters)) [
      | none ↦ some "sandbox_command argv must contain 1-32 items"
      | some items ↦ elim (argv_error items) [
        | some e ↦ some e
        | none ↦
            if is_lab_directory (lookup "cwd" parameters)
            then none
            else some "sandbox_command cwd must stay inside /target or /workspace"
      ]
    ]

abbrev pub deny : DynamicPlan → String → List String → PlanValidationResult
deny plan reason rules = record {
  approved = false;
  plan_id = plan.id;
  reason = reason;
  rules = List.◌++◌ rules ("dynamic_plan_scope_denied" ∷ []);
}

-- the checks of an action that names a service, in their order
unfoldable pub service_error :
    TargetProfile → Option RuntimeServiceMap → String → Option String → Option String
service_error profile runtime service endpoint =
    if not (is_some (lookup service profile.services))
    then some ("DynamicPlan references unknown target service '" ++ (service ++ "'"))
    else elim runtime [
      | none ↦ some "Runtime service reference requires RuntimeServiceMap"
      | some r ↦ elim (lookup service r.services) [
        | none ↦
            some ("DynamicPlan service '" ++ (service ++ "' is not ready in RuntimeServiceMap"))
        | some runtime_service ↦
            if not runtime_service.ready
            then some
                ("DynamicPlan service '" ++ (service ++ "' is not ready in RuntimeServiceMap"))
            else elim endpoint [
              | none ↦ none
              | some e ↦
                  if contains e runtime_service.allowed_endpoints
                  then none
                  else some (
                      "DynamicPlan endpoint '"
                      ++ (e ++ ("' is not allowed for service '" ++ (service ++ "'"))))
            ]
      ]
    ]

abbrev pub scope_error :
    TargetProfile → Option RuntimeServiceMap → Option String → Option String → Option String
scope_error profile runtime none none = none
scope_error profile runtime none (some e) = some "Endpoint reference requires a service"
scope_error profile runtime (some service) endpoint = service_error profile runtime service endpoint

-- one round of the loop over the steps; `none` is `continue`
unfoldable pub step_error :
    TargetProfile → Option RuntimeServiceMap → ℕ → ActionProposal → Option String
step_error profile runtime expected_iteration action =
    if not (action.iteration == expected_iteration)
    then some "DynamicPlan action iteration does not match plan order"
    else if not (action.target == profile.id) || not (action.environment == profile.environment)
    then some "DynamicPlan action escapes current target scope"
    else if action.tool == "sandbox_command"
    then if is_some action.service || is_some action.endpoint
      then some "sandbox_command cannot request runtime network scope directly"
      else sandbox_command_error action.parameters
    else scope_error profile runtime action.service action.endpoint

-- the loop, whose `expected_iteration` grows by one
unfoldable pub steps_error :
    TargetProfile → Option RuntimeServiceMap → ℕ → List PlannedAction → Option String
steps_error profile runtime expected [] = none
steps_error profile runtime expected (p ∷ ps) =
    let rest = steps_error profile runtime (suc expected) ps in
    elim (step_error profile runtime expected p.action) [ some e ↦ some e | none ↦ rest ]

abbrev pub runtime_scoped : List PlannedAction → Bool
runtime_scoped steps =
    any (λ (p : PlannedAction). is_some p.action.service || is_some p.action.endpoint) steps

-- `max_steps - current_iteration`; where that is negative the difference here is 0, and both are
-- refused by the test that follows
abbrev pub remaining_steps : AgentState → ℕ
remaining_steps s = or_default s.max_steps (or_default s.max_iterations 2) - s.iteration_count

abbrev pub matches_hypothesis : DynamicPlan → Option Hypothesis → Bool
matches_hypothesis plan none = false
matches_hypothesis plan (some h) = plan.hypothesis_id == h.id

-- `none`, or the reason of the refusal
unfoldable pub session_error :
    Option String → Option RuntimeServiceMap → List PlannedAction → Option String
session_error (some session) none steps =
    some "DynamicPlan references a sandbox session without RuntimeServiceMap"
session_error (some session) (some r) steps =
    if session == r.session_id
    then none
    else some "DynamicPlan sandbox session is not the current RuntimeServiceMap session"
session_error none runtime steps =
    if runtime_scoped steps
    then some "Runtime-scoped DynamicPlan requires the current sandbox session"
    else none

abbrev session_rules : DynamicPlan → List String
session_rules plan =
    if is_some plan.sandbox_session_id then "sandbox_session_matches_runtime_map" ∷ [] else []

abbrev base_rules : List String
base_rules =
    "target_matches_profile" ∷ "environment_matches_profile" ∷ "hypothesis_matches_state"
    ∷ "within_iteration_budget" ∷ []

-- the checks behind the budget, with the rules passed so far
unfoldable pub validate_scope : DynamicPlan → AgentState → TargetProfile → PlanValidationResult
validate_scope plan s profile =
    elim (session_error plan.sandbox_session_id s.runtime_services plan.steps) [
      | some reason ↦ deny plan reason base_rules
      | none ↦
          let rules = List.◌++◌ base_rules (session_rules plan) in
          elim (steps_error profile s.runtime_services (suc s.iteration_count) plan.steps) [
            | some reason ↦ deny plan reason rules
            | none ↦ record {
              approved = true;
              plan_id = plan.id;
              reason = "DynamicPlan is within current target/runtime scope";
              rules = List.◌++◌ rules ("all_actions_within_runtime_scope" ∷ []);
            }
          ]
    ]

-- `DynamicPlanValidator.validate`
unfoldable pub validate : DynamicPlan → AgentState → PlanValidationResult
validate plan s = elim s.target_profile [
  | none ↦ deny plan "TargetProfile is required for DynamicPlan" []
  | some profile ↦
      if not (plan.target == profile.id)
      then deny plan "DynamicPlan target is outside current TargetProfile" []
      else if not (plan.environment == profile.environment)
      then deny plan "DynamicPlan environment is outside current TargetProfile"
          ("target_matches_profile" ∷ [])
      else if not (matches_hypothesis plan s.hypothesis)
      then deny plan "DynamicPlan hypothesis does not match current state"
          ("target_matches_profile" ∷ "environment_matches_profile" ∷ [])
      else if ltb (remaining_steps s) 1
      then deny plan "No iteration budget remains for DynamicPlan" (
          "target_matches_profile" ∷ "environment_matches_profile" ∷ "hypothesis_matches_state"
          ∷ [])
      else if ltb (remaining_steps s) plan.max_steps || ltb (remaining_steps s) (length plan.steps)
      then deny plan "DynamicPlan exceeds remaining iteration budget" (
          "target_matches_profile" ∷ "environment_matches_profile" ∷ "hypothesis_matches_state"
          ∷ [])
      else validate_scope plan s profile
]
