-- ===== src/Gate.antt =====
-- pipeline/policy.py: what one finding means for the CI gate. The child `Decision` is
-- pipeline/gate.py, which joins the findings of a run.
pub mod Decision
pub mod Blocking
pub mod Verdict
pub mod Order
use Prim.Native.String.{◌++◌}
use mathlib.Core.List
use cft_security_agent.Prelude.{
  String, Bool, true, false, ◌&&◌, ◌||◌, Option, some, none, List, [], ◌∷◌, ◌==◌, text_eq,
  if◌then◌else◌, contains, upper, join,
}
use cft_security_agent.Schemas.Finding.{PrClassification, new, existing, affected_by_change}
use cft_security_agent.Schemas.Report.{
  GateEffect, pass, warn, fail, GateCategory, none_category, confirmed_risk, policy_block,
  inconclusive_category,
}

abbrev pub blocking_levels : List String
blocking_levels = "HIGH" ∷ "CRITICAL" ∷ []

pub record FindingGateClassification : Type 0 where
  pub effect : GateEffect
  pub category : GateCategory
  pub reason : String

-- `value.upper() if value else None`
abbrev pub upper_or_none : Option String → Option String
upper_or_none none = none
upper_or_none (some s) = if s == "" then none else some (upper s)

-- `value in _FAIL_CVSS_SEVERITIES`; the set of context levels has the same members
abbrev pub is_blocking : Option String → Bool
is_blocking none = false
is_blocking (some s) = contains s blocking_levels

abbrev pub is_existing : Option PrClassification → Bool
is_existing (some existing) = true
is_existing _ = false

abbrev pub pr_text : PrClassification → String
pr_text new = "new"
pr_text existing = "existing"
pr_text affected_by_change = "affected-by-change"

abbrev part : String → Option String → List String
part name none = []
part name (some s) = if contains s blocking_levels then (name ++ s) ∷ [] else []

unfoldable pub risk_basis : Option String → Option String → String
risk_basis context cvss =
    join " and " (List.◌++◌ (part "context priority " context) (part "CVSS severity " cvss))

abbrev classified_as : Option PrClassification → String
classified_as none = "."
classified_as (some c) = " and classified as " ++ (pr_text c ++ ".")

unfoldable pub classify_finding_gate :
    String
    → String
    → Option String
    → Option String
    → Option PrClassification
    → FindingGateClassification
classify_finding_gate finding_id status context_level cvss_severity pr_classification =
    let context = upper_or_none context_level in
    let cvss = upper_or_none cvss_severity in
    if status == "rejected"
    then record {
      effect = pass;
      category = none_category;
      reason = finding_id ++ ": capability-specific Evidence rejected the finding.";
    }
    else if status == "inconclusive"
    then record {
      effect = warn;
      category = inconclusive_category;
      reason = finding_id ++ ": verification is inconclusive and needs review.";
    }
    else if status == "policy_blocked"
    then record {
      effect = warn;
      category = policy_block;
      reason = finding_id ++ ": Validator policy blocked verification.";
    }
    else if status == "confirmed" && (is_blocking context || is_blocking cvss)
    then if is_existing pr_classification
      then record {
        effect = warn;
        category = confirmed_risk;
        reason =
            finding_id
            ++ (": pre-existing confirmed " ++ (risk_basis context cvss ++ "; PR policy warns."));
      }
      else record {
        effect = fail;
        category = confirmed_risk;
        reason =
            finding_id
            ++ (": confirmed with "
                ++ (risk_basis context cvss ++ classified_as pr_classification));
      }
    else if status == "confirmed"
    then record {
      effect = warn;
      category = confirmed_risk;
      reason = finding_id ++ ": confirmed, but below the blocking HIGH/CRITICAL threshold.";
    }
    else record {
      effect = warn;
      category = inconclusive_category;
      reason = finding_id ++ ": unsupported report status needs review.";
    }
