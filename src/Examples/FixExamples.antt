-- ===== src/Examples/FixExamples.antt =====
-- fix_verification/service.py at a patch whose re-tests pass.
use cft_security_agent.Prelude.{
  drop_chars, ℕ, ◌≡◌, ◌↔◌, refl, true, false, Option, some, none, List, [], ◌∷◌,
}
use cft_security_agent.Schemas.Report.{confirmed, FinalReport}
use cft_security_agent.Schemas.Fix.{
  ProposedPatch, FixCheck, FixVerificationArtifact, verified, static, runtime, applied,
}
use cft_security_agent.Fix.Checks.{
  ended, patch_scope_error, slashes, without_dots, patch_headers, headers_in, newline_lines,
  header_of,
}
use cft_security_agent.Fix.{Workbench, Verification, answered, verify, fix_artifact}
use cft_security_agent.Fix.Verified.{verified_iff_IsVerifiedBy, IsVerifiedBy}
use cft_security_agent.Examples.Samples.{unchanged, report_of}

abbrev a_bench : Workbench ℕ
a_bench = record {
  patterns = unchanged;
  path_name = λ s. s;
  source = "/srv/shop";
  is_dir = true;
  copy_target = some 0;
  write_patch = λ diff w. w;
  run = λ argv seconds w. (ended "ok" false "" false false 0, w);
}

abbrev a_report : FinalReport
a_report = report_of "f-1" confirmed

abbrev a_proposal : ProposedPatch
a_proposal = record {
  finding_id = "f-1";
  rationale = "validate";
  unified_diff = "+++ b/auth/models.py";
}

abbrev both_checks : List FixCheck
both_checks =
    record { id = "lint"; kind = static; argv = "pytest" ∷ []; timeout_seconds = 60 }
    ∷ record { id = "run"; kind = runtime; argv = "pytest" ∷ []; timeout_seconds = 60 }
    ∷ []

abbrev artifact_of_answer : Verification → Option FixVerificationArtifact
artifact_of_answer (answered a) = some a
artifact_of_answer _ = none

abbrev an_artifact : FixVerificationArtifact
an_artifact = elim (artifact_of_answer (verify a_bench a_report a_proposal both_checks)) [
  | some a ↦ a
  | none ↦ fix_artifact a_bench a_report a_proposal [] (record { status = applied; detail = "" }) []
]

answers : verify a_bench a_report a_proposal both_checks ≡ answered an_artifact
unfolding verify patch_scope_error slashes without_dots patch_headers headers_in newline_lines
    header_of drop_chars
answers = refl

verified_iff_IsVerifiedBy_example :
    (a_report.status ≡ confirmed)
    × (a_proposal.finding_id ≡ a_report.finding_id)
    × ((an_artifact.verdict ≡ verified)
        ↔ IsVerifiedBy a_bench a_report a_proposal both_checks an_artifact)
verified_iff_IsVerifiedBy_example =
    verified_iff_IsVerifiedBy a_bench a_report a_proposal both_checks an_artifact answers

headers_test :
    patch_headers "--- a/x.py\n+++ b/x.py\n+++ y.py\n+++ \n+++ b/\n" ≡ "x.py" ∷ "y.py" ∷ "b/" ∷ []
unfolding patch_headers headers_in newline_lines header_of drop_chars
headers_test = refl
