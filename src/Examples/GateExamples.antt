-- ===== src/Examples/GateExamples.antt =====
-- pipeline/policy.py and pipeline/gate.py at concrete inputs.
use mathlib.Core.List.Perm
use cft_security_agent.Prelude.{
  ◌+◌, String, ◌≡◌, ◌≢◌, ◌↔◌, ◌⊎◌, refl, none, List, [], ◌∷◌, All, Some, upper, lookup, join,
}
use cft_security_agent.Schemas.Execution.{ErrorDetail}
use cft_security_agent.Schemas.Report.{FinalReport, pass, fail, confirmed, rejected}
use cft_security_agent.Gate.{classify_finding_gate, risk_basis}
use cft_security_agent.Gate.Decision.{
  classify_report, classify_reports, worst, unique, warnings, structured, evaluate_gate,
}
use cft_security_agent.Gate.Blocking.{Blocks, fail-iff-Blocks}
use cft_security_agent.Gate.Verdict.{exit_two_iff, exit_one_iff, pass_iff, counts_add_up}
use cft_security_agent.Gate.Order.{gate_order}
use cft_security_agent.Examples.Samples.{unchanged, report_of}

abbrev reports : List FinalReport
reports = report_of "a" rejected ∷ report_of "b" confirmed ∷ []

abbrev no_errors : List ErrorDetail
no_errors = []

abbrev no_stages : List String
no_stages = []

abbrev sast_failed : List String
sast_failed = "sast failed" ∷ []

abbrev reordered : List FinalReport
reordered = report_of "b" confirmed ∷ report_of "a" rejected ∷ []

run_fails :
    ((evaluate_gate unchanged reports no_errors no_stages []).exit_code ≡ 1)
    × ((evaluate_gate unchanged reports no_errors no_stages []).reasons
        ≡ "b: confirmed with context priority HIGH." ∷ [])
unfolding evaluate_gate classify_reports classify_report classify_finding_gate risk_basis worst
    unique warnings structured upper join lookup
run_fails = (refl, refl)

fail-iff-Blocks_example :
    ((classify_report (report_of "b" confirmed) none).gate_effect ≡ fail)
    ↔ Blocks (report_of "b" confirmed)
fail-iff-Blocks_example = fail-iff-Blocks (report_of "b" confirmed) none

exit_two_iff_example :
    ((evaluate_gate unchanged reports no_errors sast_failed []).exit_code ≡ 2)
    ↔ ((no_errors ≢ []) ⊎ (sast_failed ≢ []))
exit_two_iff_example = exit_two_iff unchanged reports no_errors sast_failed []

exit_one_iff_example :
    ((evaluate_gate unchanged reports no_errors no_stages []).exit_code ≡ 1)
    ↔ ((no_errors ≡ []) × (no_stages ≡ []) × Some Blocks reports)
exit_one_iff_example = exit_one_iff unchanged reports no_errors no_stages []

pass_iff_example :
    ((evaluate_gate unchanged reports no_errors no_stages []).decision ≡ pass)
    ↔ ((no_errors ≡ []) × (no_stages ≡ []) × All (λ (r : FinalReport). r.status ≡ rejected) reports)
pass_iff_example = pass_iff unchanged reports no_errors no_stages []

counts_add_up_example :
    let g = evaluate_gate unchanged reports no_errors no_stages [] in
    g.confirmed_count + g.rejected_count + g.inconclusive_count + g.policy_blocked_count
    ≡ g.reports_total
counts_add_up_example = counts_add_up unchanged reports no_errors no_stages []

gate_order_example :
    let g = evaluate_gate unchanged reports no_errors no_stages [] in
    let h = evaluate_gate unchanged reordered [] [] [] in
    (g.decision ≡ h.decision) × (g.exit_code ≡ h.exit_code)
gate_order_example =
    gate_order unchanged reports reordered [] [] []
      (Perm.swap (report_of "b" confirmed) (report_of "a" rejected) [])
