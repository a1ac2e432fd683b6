-- ===== src/Gate/Blocking.antt =====
-- When a single report blocks the CI, and when it lets it pass.
use cft_security_agent.Prelude.{
  String, ◌≡◌, ◌↔◌, ◌⊎◌, inl, inr, Bool, true, false, Option, some, none, arith, ◌==◌, ◌||◌,
  text_eq, refl, upper, upper-upper, Bool-cases,
}
use cft_security_agent.Schemas.Finding.{PrClassification}
use cft_security_agent.Schemas.Report.{
  ReportStatus, GateEffect, pass, warn, fail, confirmed, rejected, FinalReport, status_text,
}
use cft_security_agent.Gate.{classify_finding_gate, is_blocking, is_existing, upper_or_none}
use cft_security_agent.Gate.Decision.{
  classify_report, upper_of, level_of, severity_of, classification_of,
}

-- The level is HIGH or CRITICAL, in any letter case.
abbrev pub IsHighOrCritical : Option String → Type 0
IsHighOrCritical none = ⊥
IsHighOrCritical (some s) = (upper s ≡ "HIGH") ⊎ (upper s ≡ "CRITICAL")

-- A confirmed finding of high priority or severity, which the pull request did not inherit.
pub record Blocks (r : FinalReport) : Type 0 where
  pub is_confirmed : r.status ≡ confirmed
  pub is_high :
      IsHighOrCritical (level_of r.context_priority) ⊎ IsHighOrCritical (severity_of r.cvss)
  pub is_not_inherited : is_existing (classification_of r.finding.pr_context) ≡ false

upper-nil : upper "" ≡ ""
unfolding upper
upper-nil = refl

blocking_iff : (o : Option String) → (is_blocking (upper_or_none o) ≡ true) ↔ IsHighOrCritical o
blocking_iff none = ground arith
blocking_iff (some s) = elim (Bool-cases (s == "")) [
  | inl e ↦
      let e' : s ≡ "" = (text_eq.same_iff s "").0 e in
      rw (e', upper-nil)
        (ground (arith, text_eq.same_iff "" "HIGH", text_eq.same_iff "" "CRITICAL"))
  | inr e ↦
      rw e
        (ground (arith, text_eq.same_iff "HIGH" (upper s), text_eq.same_iff "CRITICAL" (upper s)))
]

-- a level that is in upper case already says the same
IsHighOrCritical-upper_of : (o : Option String) → IsHighOrCritical (upper_of o) ↔ IsHighOrCritical o
IsHighOrCritical-upper_of none = ground arith
IsHighOrCritical-upper_of (some s) = ground (arith, upper-upper s)

-- the effect of a report's status, once the texts are compared
effect_of : ReportStatus → Bool → Bool → GateEffect
effect_of confirmed true true = warn
effect_of confirmed true false = fail
effect_of confirmed false _ = warn
effect_of rejected _ _ = pass
effect_of _ _ _ = warn

classify-effect_of :
    (id : String) (s : ReportStatus) (context cvss : Option String) (pr : Option PrClassification)
    → (classify_finding_gate id (status_text s) context cvss pr).effect
      ≡ effect_of s
          (is_blocking (upper_or_none context) || is_blocking (upper_or_none cvss))
          (is_existing pr)
unfolding classify_finding_gate effect_of
classify-effect_of id confirmed context cvss pr = ground arith
classify-effect_of id _ context cvss pr = refl

module _ (r : FinalReport) (path : Option String) where
  abbrev context : Option String
  context = upper_of (level_of r.context_priority)

  abbrev cvss : Option String
  cvss = upper_of (severity_of r.cvss)

  abbrev pr : Option PrClassification
  pr = classification_of r.finding.pr_context

  -- A report fails the gate exactly when it is confirmed, its context priority or its CVSS
  -- severity is HIGH or CRITICAL in any letter case, and the finding is not an inherited one.
  pub fail-iff-Blocks : ((classify_report r path).gate_effect ≡ fail) ↔ Blocks r
  unfolding classify_report effect_of
  fail-iff-Blocks = ground (
    arith,
    classify-effect_of r.finding_id r.status context cvss pr,
    blocking_iff context,
    blocking_iff cvss,
    IsHighOrCritical-upper_of (level_of r.context_priority),
    IsHighOrCritical-upper_of (severity_of r.cvss),
  )

  -- A report passes the gate exactly when its finding was rejected.
  pub pass-iff-rejected : ((classify_report r path).gate_effect ≡ pass) ↔ (r.status ≡ rejected)
  unfolding classify_report effect_of
  pass-iff-rejected = ground (arith, classify-effect_of r.finding_id r.status context cvss pr)
