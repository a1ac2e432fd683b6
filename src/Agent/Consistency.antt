-- ===== src/Agent/Consistency.antt =====
-- schemas/plan.py (DynamicPlan.validate_internal_consistency): what a plan must be before it is
-- looked at.
pub mod Meaning
use cft_security_agent.Prelude.{
  ℕ, zero, suc, ◌+◌, String, Bool, true, false, not, ◌&&◌, Option, some, none, List, ◌∷◌, [],
  if◌then◌else◌, ◌==◌, nat_eq, text_eq, length, ltb, contains, map,
}
use cft_security_agent.Schemas.AgentLoop.{PlannedAction, DynamicPlan}

-- `list(range(first, first + count))`
unfoldable pub range : ℕ → ℕ → List ℕ
range first zero = []
range first (suc count) = first ∷ range (suc first) count

unfoldable pub same_numbers : List ℕ → List ℕ → Bool
same_numbers [] [] = true
same_numbers (x ∷ xs) (y ∷ ys) = x == y && same_numbers xs ys
same_numbers _ _ = false

-- `len(set(texts))`
unfoldable pub set_size : List String → ℕ
set_size [] = 0
set_size (x ∷ xs) = (if contains x xs then 0 else 1) + set_size xs

abbrev pub index_of : PlannedAction → ℕ
index_of p = p.index

abbrev pub id_of : PlannedAction → String
id_of p = p.action.id

-- the loop over the steps
unfoldable pub home_error : String → String → List PlannedAction → Option String
home_error target environment [] = none
home_error target environment (p ∷ ps) =
    let rest = home_error target environment ps in
    if not (p.action.target == target)
    then some "DynamicPlan action target must match plan target"
    else if not (p.action.environment == environment)
    then some "DynamicPlan action environment must match plan environment"
    else rest

-- `none`, or the message of the `ValueError`
unfoldable pub consistency_error : DynamicPlan → Option String
consistency_error plan =
    if ltb plan.max_steps (length plan.steps)
    then some "DynamicPlan steps cannot exceed max_steps"
    else if not (same_numbers (map index_of plan.steps) (range 1 (length plan.steps)))
    then some "DynamicPlan step indexes must be sequential from 1"
    else if not (set_size (map id_of plan.steps) == length (map id_of plan.steps))
    then some "DynamicPlan action ids must be unique"
    else home_error plan.target plan.environment plan.steps
