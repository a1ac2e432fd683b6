-- ===== src/Examples/ReportingExamples.antt =====
-- reporting/builder.py and evidence/interpreter.py at concrete inputs.
use cft_security_agent.Prelude.{
  ◌≡◌, ◌≢◌, ◌↔◌, refl, sym, ◌∙◌, arith, String, true, some, [], ◌∷◌, text_eq,
}
use cft_security_agent.Schemas.Evidence.{Verdict}
use cft_security_agent.Schemas.State.{AgentState}
use cft_security_agent.Gate.Decision.{classify_report}
use cft_security_agent.Reporting.{build_final_report}
use cft_security_agent.Reporting.Agreement.{report_announces_gate}
use cft_security_agent.Interpreter.{build_evidence}
use cft_security_agent.Interpreter.Provenance.{built_evidence_passes, PassesCheck}
use cft_security_agent.Interpreter.Verdicts.{claims_iff_IsProven, claims, IsProven}
use cft_security_agent.Examples.Samples.{
  unchanged, an_action, an_execution, evidence_for, high_priority, a_state,
}
use cft_security_agent.Examples.GraphExamples.{a_record, some_readers}

named : (s : String) → s ≡ "s-1" → s ≢ ""
named s e h = ground (arith, (text_eq.same_iff "s-1" "").1 (sym e ∙ h))

abbrev confirmed_state : AgentState
confirmed_state = record (a_state (evidence_for Verdict.confirmed ∷ []) an_execution) {
  status = some "confirmed";
  context_priority = some high_priority;
}

report_announces_gate_example :
    let r = build_final_report unchanged (λ v. "") confirmed_state in
    let g = classify_report r (some "reports/f-1.json") in
    r.ci_gate_impact
    ≡ some (record { effect = g.gate_effect; category = g.category; reason = g.reason })
report_announces_gate_example =
    report_announces_gate unchanged (λ v. "") confirmed_state (some "reports/f-1.json")

built_evidence_passes_example : PassesCheck (
    build_evidence some_readers an_action an_execution
      ("execution-1" ∷ [])
      "h-1"
      (some "s-1")
      "e-1"
      a_record
      true)
built_evidence_passes_example =
    built_evidence_passes some_readers an_action an_execution ("execution-1" ∷ []) "h-1"
      (some "s-1") "e-1" a_record true (named "s-1" refl)

claims_iff_IsProven_example :
    (claims (
        build_evidence some_readers an_action an_execution
          ("execution-1" ∷ [])
          "h-1"
          (some "s-1")
          "e-1"
          a_record
          true)
      ≡ true)
    ↔ IsProven some_readers an_action an_execution
        ("execution-1" ∷ [])
        "h-1"
        (some "s-1")
        "e-1"
        a_record
        true
claims_iff_IsProven_example =
    claims_iff_IsProven some_readers an_action an_execution ("execution-1" ∷ []) "h-1" (some "s-1")
      "e-1" a_record true
