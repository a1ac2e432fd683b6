-- ===== src/Gate/Verdict.antt =====
-- What the decision and the exit code of the gate say of the reports and the errors of a run.
use cft_security_agent.Prelude.{
  ℕ, ◌+◌, String, ◌≡◌, ◌≢◌, ◌↔◌, ◌⊎◌, Bool, ◌||◌, refl, if◌then◌else◌, List, [], ◌∷◌, map, arith,
  length, non_empty, All, Some, lookup,
}
use cft_security_agent.Schemas.Execution.{ErrorDetail}
use cft_security_agent.Schemas.Report.{
  GateEffect, pass, fail, ReportStatus, confirmed, rejected, inconclusive, policy_blocked,
  FinalReport, PipelineFindingResult,
}
use cft_security_agent.Redaction.{Patterns}
use cft_security_agent.Gate.Decision.{
  worst, classify_reports, count_status, status_beq, structured, evaluate_gate,
}
use cft_security_agent.Gate.Blocking.{Blocks, fail-iff-Blocks, pass-iff-rejected}

abbrev pub effects : List (String × String) → List FinalReport → List GateEffect
effects paths reports =
    map (λ (f : PipelineFindingResult). f.gate_effect) (classify_reports paths reports)

worst-fail_iff :
    (paths : List (String × String)) (rs : List FinalReport)
    → (worst (effects paths rs) ≡ fail) ↔ Some Blocks rs
unfolding worst classify_reports
worst-fail_iff paths [] = ground arith
worst-fail_iff paths (r ∷ rs) =
    ground (arith, worst-fail_iff paths rs, fail-iff-Blocks r (lookup r.finding_id paths))

worst-pass_iff :
    (paths : List (String × String)) (rs : List FinalReport)
    → (worst (effects paths rs) ≡ pass) ↔ All (λ r. r.status ≡ rejected) rs
unfolding worst classify_reports
worst-pass_iff paths [] = ground arith
worst-pass_iff paths (r ∷ rs) =
    ground (arith, worst-pass_iff paths rs, pass-iff-rejected r (lookup r.finding_id paths))

non_empty-structured :
    (rx : Patterns) (errors : List ErrorDetail) (stage_errors : List String)
    → non_empty (structured rx errors stage_errors) ≡ (non_empty errors || non_empty stage_errors)
unfolding structured
non_empty-structured rx [] [] = refl
non_empty-structured rx [] (m ∷ ms) = refl
non_empty-structured rx (e ∷ es) ms = refl

module _ (rx : Patterns) (reports : List FinalReport) (errors : List ErrorDetail)
    (stage_errors : List String) (paths : List (String × String)) where
  -- The exit code is 2 exactly when a stage reported an error.
  pub exit_two_iff :
      ((evaluate_gate rx reports errors stage_errors paths).exit_code ≡ 2)
      ↔ ((errors ≢ []) ⊎ (stage_errors ≢ []))
  unfolding evaluate_gate
  exit_two_iff =
      ground (arith, non_empty-structured rx errors stage_errors, worst-fail_iff paths reports)

  -- The exit code is 1 exactly when no stage reported an error and some report blocks.
  pub exit_one_iff :
      ((evaluate_gate rx reports errors stage_errors paths).exit_code ≡ 1)
      ↔ ((errors ≡ []) × (stage_errors ≡ []) × Some Blocks reports)
  unfolding evaluate_gate
  exit_one_iff =
      ground (arith, non_empty-structured rx errors stage_errors, worst-fail_iff paths reports)

  -- The decision is PASS exactly when no stage reported an error and every report is rejected.
  pub pass_iff :
      ((evaluate_gate rx reports errors stage_errors paths).decision ≡ pass)
      ↔ ((errors ≡ []) × (stage_errors ≡ []) × All (λ r. r.status ≡ rejected) reports)
  unfolding evaluate_gate
  pass_iff =
      ground (arith, non_empty-structured rx errors stage_errors, worst-pass_iff paths reports)

abbrev one : Bool → ℕ
one b = if b then 1 else 0

-- a status is exactly one of the four
status_once :
    (s : ReportStatus)
    → one (status_beq s confirmed)
        + one (status_beq s rejected)
        + one (status_beq s inconclusive)
        + one (status_beq s policy_blocked)
      ≡ 1
status_once confirmed = refl
status_once rejected = refl
status_once inconclusive = refl
status_once policy_blocked = refl

counts_total :
    (rs : List FinalReport)
    → count_status confirmed rs
        + count_status rejected rs
        + count_status inconclusive rs
        + count_status policy_blocked rs
      ≡ length rs
unfolding count_status
counts_total [] = omega arith
counts_total (r ∷ rs) = ground (arith, counts_total rs, status_once r.status)

-- The four counts that the gate publishes add up to the number of reports.
pub counts_add_up :
    (rx : Patterns) (reports : List FinalReport) (errors : List ErrorDetail)
    (stage_errors : List String) (paths : List (String × String))
    → let g = evaluate_gate rx reports errors stage_errors paths in
      g.confirmed_count + g.rejected_count + g.inconclusive_count + g.policy_blocked_count
      ≡ g.reports_total
unfolding evaluate_gate
counts_add_up rx reports errors stage_errors paths = counts_total reports
