-- ===== src/Reporting/Agreement.antt =====
-- What a report says of the CI gate is what the gate makes of the report.
use Prim.Native.Char.{Char}
use cft_security_agent.Prelude.{
  String, ◌≡◌, Bool, refl, sym, ap, ◌≢◌, true, false, Option, some, none, text_eq, upper,
  upper-upper, arith,
}
use cft_security_agent.Schemas.Action.{Value}
use cft_security_agent.Schemas.Finding.{PrClassification}
use cft_security_agent.Schemas.Report.{status_text}
use cft_security_agent.Schemas.State.{AgentState}
use cft_security_agent.Redaction.{Patterns}
use cft_security_agent.Gate.{classify_finding_gate, upper_or_none}
use cft_security_agent.Gate.Decision.{
  classify_report, upper_of, level_of, severity_of, classification_of,
}
use cft_security_agent.Reporting.{build_final_report, gate_of, impact_of, report_status}

abbrev is_filled : String → Bool
is_filled String.[] = false
is_filled (String.◌∷◌ c s) = true

filled : (c : Char) (s : String) → String.◌∷◌ c s ≢ ""
filled c s h = ground (arith, ap is_filled h)

upper-filled : (c : Char) (s : String) → upper (String.◌∷◌ c s) ≢ ""
unfolding upper
upper-filled c s = filled _ (upper s)

upper_or_none-upper_of_empty : upper_or_none (upper_of (some "")) ≡ upper_or_none (some "")
unfolding upper
upper_or_none-upper_of_empty = refl

upper_or_none-upper_of : (o : Option String) → upper_or_none (upper_of o) ≡ upper_or_none o
upper_or_none-upper_of none = refl
upper_or_none-upper_of (some String.[]) = upper_or_none-upper_of_empty
upper_or_none-upper_of (some (String.◌∷◌ c s)) = rw (upper-upper (String.◌∷◌ c s)) (
    ground (
      arith,
      upper-filled c s,
      text_eq.same_iff (upper (String.◌∷◌ c s)) "",
      text_eq.same_iff (String.◌∷◌ c s) "",
      filled c s,
    ))

-- the gate reads a level the same way, whatever case it is in
classify_finding_gate-upper_of :
    (id status : String) (context cvss : Option String) (c : Option PrClassification)
    → classify_finding_gate id status (upper_of context) (upper_of cvss) c
      ≡ classify_finding_gate id status context cvss c
unfolding classify_finding_gate
classify_finding_gate-upper_of id status context cvss c =
    rw (upper_or_none-upper_of context, upper_or_none-upper_of cvss)

-- The gate gives a report the effect, the category and the reason that the report announces as
-- its impact on the gate.
pub report_announces_gate :
    (rx : Patterns) (print : Value → String) (s : AgentState) (path : Option String)
    → let r = build_final_report rx print s in
      let g = classify_report r path in
      r.ci_gate_impact
      ≡ some (record { effect = g.gate_effect; category = g.category; reason = g.reason })
unfolding build_final_report classify_report gate_of
report_announces_gate rx print s path =
    ap (λ g. some (impact_of g))
      (sym (
        classify_finding_gate-upper_of s.finding.id (status_text (report_status s.status))
          (level_of s.context_priority) (severity_of s.cvss)
          (classification_of s.finding.pr_context)))
