-- ===== src/Agent/Consistency/Meaning.antt =====
-- What a consistent plan is, without the loops and sets of the code.
use cft_security_agent.Prelude.{
  ℕ, suc, ◌≤◌, ◌≡◌, ◌↔◌, String, true, false, none, List, ◌∷◌, [], nat_eq, text_eq, length,
  contains, map, All, arith,
}
use cft_security_agent.Schemas.AgentLoop.{PlannedAction, DynamicPlan}
use cft_security_agent.Agent.Consistency.{
  range, same_numbers, set_size, index_of, id_of, home_error, consistency_error,
}

-- the steps are numbered from a number on
abbrev pub AreNumbered : ℕ → List PlannedAction → Type 0
AreNumbered n [] = Unit
AreNumbered n (p ∷ ps) = (p.index ≡ n) × AreNumbered (suc n) ps

-- no text is in the list twice
abbrev pub IsDistinct : List String → Type 0
IsDistinct [] = Unit
IsDistinct (x ∷ xs) = (contains x xs ≡ false) × IsDistinct xs

abbrev pub IsHome : String → String → PlannedAction → Type 0
IsHome target environment p = (p.action.target ≡ target) × (p.action.environment ≡ environment)

pub record IsConsistent (plan : DynamicPlan) : Type 0 where
  pub short : length plan.steps ≤ plan.max_steps
  pub numbered : AreNumbered 1 plan.steps
  pub distinct : IsDistinct (map id_of plan.steps)
  pub at_home : All (IsHome plan.target plan.environment) plan.steps

numbered_iff :
    (n : ℕ) (steps : List PlannedAction)
    → (same_numbers (map index_of steps) (range n (length steps)) ≡ true) ↔ AreNumbered n steps
unfolding same_numbers range
numbered_iff n [] = ground arith
numbered_iff n (p ∷ ps) = ground (arith, nat_eq.same_iff p.index n, numbered_iff (suc n) ps)

set_size-length : (xs : List String) → set_size xs ≤ length xs
unfolding set_size
set_size-length [] = omega arith
set_size-length (x ∷ xs) = ground (arith, set_size-length xs)

set_size_iff : (xs : List String) → (set_size xs ≡ length xs) ↔ IsDistinct xs
unfolding set_size
set_size_iff [] = ground arith
set_size_iff (x ∷ xs) = ground (arith, set_size_iff xs, set_size-length xs)

home_error_iff :
    (target environment : String) (steps : List PlannedAction)
    → (home_error target environment steps ≡ none) ↔ All (IsHome target environment) steps
unfolding home_error
home_error_iff target environment [] = ground arith
home_error_iff target environment (p ∷ ps) = ground (
  arith,
  text_eq.same_iff p.action.target target,
  text_eq.same_iff p.action.environment environment,
  home_error_iff target environment ps,
)

-- A plan passes its validator exactly when it has at most `max_steps` steps, they are numbered from
-- 1 on, no two of their actions share an id, and every action has the plan's target and
-- environment.
pub accepted_iff_IsConsistent :
    (plan : DynamicPlan) → (consistency_error plan ≡ none) ↔ IsConsistent plan
unfolding consistency_error
accepted_iff_IsConsistent plan = (
  λ h. record {
    short = ground (arith, h);
    numbered = (numbered_iff 1 plan.steps).0 (ground (arith, h));
    distinct = (set_size_iff (map id_of plan.steps)).0 (
        ground (
          arith,
          h,
          nat_eq.same_iff (set_size (map id_of plan.steps)) (length (map id_of plan.steps)),
        ));
    at_home = (home_error_iff plan.target plan.environment plan.steps).0 (ground (arith, h));
  },
  λ h. ground (
    arith,
    h.short,
    (numbered_iff 1 plan.steps).1 h.numbered,
    (set_size_iff (map id_of plan.steps)).1 h.distinct,
    nat_eq.same_iff (set_size (map id_of plan.steps)) (length (map id_of plan.steps)),
    (home_error_iff plan.target plan.environment plan.steps).1 h.at_home,
  ),
)
