-- ===== src/Gate/Order.antt =====
-- The order in which the findings are reported does not matter to the gate.
use mathlib.Core.Logic.{∥∥₁_elim}
use mathlib.Core.List.{Perm, Permᴰ}
use cft_security_agent.Prelude.{String, ◌≡◌, ◌∙◌, refl, List, arith, lookup}
use cft_security_agent.Schemas.Execution.{ErrorDetail}
use cft_security_agent.Schemas.Report.{GateEffect, pass, FinalReport}
use cft_security_agent.Redaction.{Patterns}
use cft_security_agent.Gate.Decision.{
  worse, worst, classify_report, classify_reports, evaluate_gate,
}
use cft_security_agent.Gate.Verdict.{effects}

GateEffect-set : IsSet GateEffect
GateEffect-set = hlevel

worse_swap : (a b c : GateEffect) → worse a (worse b c) ≡ worse b (worse a c)
worse_swap pass pass c = refl
worse_swap a b c = ground arith

abbrev effect : List (String × String) → FinalReport → GateEffect
effect paths r = (classify_report r (lookup r.finding_id paths)).gate_effect

worst_perm :
    (paths : List (String × String)) {rs qs : List FinalReport}
    → Permᴰ rs qs
    → worst (effects paths rs) ≡ worst (effects paths qs)
unfolding worst classify_reports
worst_perm paths Permᴰ.nil = refl
worst_perm paths (Permᴰ.cons e p) = cc (worst_perm paths p)
worst_perm paths (Permᴰ.swap {a = a} {b = b} {l = l} e f) =
    cc (worse_swap (effect paths a) (effect paths b) (worst (effects paths l)))
worst_perm paths (Permᴰ.trans p q) = worst_perm paths p ∙ worst_perm paths q

worst_Perm :
    (paths : List (String × String)) (rs qs : List FinalReport)
    → Perm rs qs
    → worst (effects paths rs) ≡ worst (effects paths qs)
worst_Perm paths rs qs p = ∥∥₁_elim p (GateEffect-set _ _) (worst_perm paths)

-- Runs that report the same findings in different orders get the same decision and exit code.
pub gate_order :
    (rx : Patterns) (rs qs : List FinalReport) (errors : List ErrorDetail)
    (stage_errors : List String) (paths : List (String × String))
    → Perm rs qs
    → let g = evaluate_gate rx rs errors stage_errors paths in
      let h = evaluate_gate rx qs errors stage_errors paths in
      (g.decision ≡ h.decision) × (g.exit_code ≡ h.exit_code)
unfolding evaluate_gate
gate_order rx rs qs errors stage_errors paths p = ground (arith, worst_Perm paths rs qs p)
