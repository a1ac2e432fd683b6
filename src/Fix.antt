-- ===== src/Fix.antt =====
-- fix_verification/service.py: a proposed patch is applied and re-tested in a copy of the target.
pub mod Checks
pub mod Meaning
pub mod Verified
use Prim.Native.String.{◌++◌}
use cft_security_agent.Prelude.{
  ℕ, String, Bool, true, false, not, ◌&&◌, ◌||◌, Option, some, none, List, [], ◌∷◌, map, non_empty,
  any, if◌then◌else◌, ◌==◌, text_eq,
}
use cft_security_agent.Schemas.Action.{Value, null, pos, text, array, Items, no_items, item}
use cft_security_agent.Schemas.Evidence.{high, EvidenceSource, Evidence}
use cft_security_agent.Schemas.Report.{ReportStatus, confirmed, FinalReport}
use cft_security_agent.Schemas.Fix.{
  FixCheckKind, static, runtime, FixVerdict, verified, not_verified, inconclusive, ProposedPatch,
  FixCheck, CheckStatus, passed, failed, timed_out, FixCheckResult, PatchStatus, applied, rejected,
  PatchApplicationResult, FixVerificationArtifact, kind_text, check_status_text,
}
use cft_security_agent.Redaction.{Patterns}
use cft_security_agent.Fix.Checks.{
  patch_scope_error, check_argv_error, ProcessEnd, public_check, process_result, check_result,
  refused_result,
}

-- The files `W` of the temporary directory and what the service does with them: copying the target
-- into it, which may raise, writing the patch, and running a process with a time limit in seconds.
-- `path_name` is `Path(_).name`.
pub record Workbench (W : Type 0) : Type 0 where
  pub patterns : Patterns
  pub path_name : String → String
  pub source : String
  pub is_dir : Bool
  pub copy_target : Option W
  pub write_patch : String → W → W
  pub run : List String → ℕ → W → ProcessEnd × W

-- What `verify` does: a `ValueError` with its message, another exception, or an artifact.
pub data Verification : Type 0 where
  refused : String → Verification
  crashed : Verification
  answered : FixVerificationArtifact → Verification

abbrev pub is_applied : PatchStatus → Bool
is_applied applied = true
is_applied _ = false

abbrev pub is_incomplete : CheckStatus → Bool
is_incomplete CheckStatus.error = true
is_incomplete timed_out = true
is_incomplete _ = false

abbrev pub is_failed : CheckStatus → Bool
is_failed failed = true
is_failed _ = false

abbrev pub is_passed : CheckStatus → Bool
is_passed passed = true
is_passed _ = false

abbrev pub is_static : FixCheckKind → Bool
is_static static = true
is_static _ = false

abbrev pub is_runtime : FixCheckKind → Bool
is_runtime runtime = true
is_runtime _ = false

-- `_fix_verdict`
unfoldable pub fix_verdict :
    PatchApplicationResult → List FixCheck → List FixCheckResult → FixVerdict × String
fix_verdict patch checks results =
    if not (is_applied patch.status)
    then (not_verified, "The proposed patch could not be applied cleanly.")
    else if not (non_empty checks)
    then (inconclusive, "The patch applied, but no re-test actions were supplied.")
    else if any (λ (r : FixCheckResult). is_incomplete r.status) results
    then (inconclusive, "At least one required re-test did not complete.")
    else if any (λ (r : FixCheckResult). is_failed r.status) results
    then (not_verified, "At least one required re-test failed after patching.")
    else if not (
        any (λ (r : FixCheckResult). is_static r.kind) results
        && any (λ (r : FixCheckResult). is_runtime r.kind) results)
    then (inconclusive, "Passing static and runtime re-tests are both required for verified-fix.")
    else (verified, "The patch applied and all required static/runtime re-tests passed.")

abbrev number_or_null : Option ℕ → Value
number_or_null none = null
number_or_null (some n) = pos n

abbrev text_items : List String → Items
text_items [] = no_items
text_items (s ∷ ss) = item (text s) (text_items ss)

-- one record of `_build_evidence`
unfoldable pub fix_evidence : String → FixCheckResult → Evidence
fix_evidence finding_id r = record {
  id = "fix-" ++ (finding_id ++ ("-" ++ r.id));
  action_id = r.id;
  kind = "fix_" ++ (kind_text r.kind ++ "_result");
  summary =
      "Fix re-test " ++ (r.id ++ (" finished with status " ++ (check_status_text r.status ++ ".")));
  artifact_refs = [];
  reliability = high;
  verdict = none;
  source = EvidenceSource.static;
  sandbox_session_id = none;
  hypothesis_id = "fix-verification:" ++ finding_id;
  action = record { id = r.id; tool = "fix_retest"; run_id = none };
  observation = record {
    kind = "fix_" ++ (kind_text r.kind ++ "_result");
    facts =
        ("status", text (check_status_text r.status))
        ∷ ("exit_code", number_or_null r.exit_code)
        ∷ ("argv", array (text_items r.argv))
        ∷ ("stdout", text r.stdout)
        ∷ ("stderr", text r.stderr)
        ∷ [];
  };
  scope = record {
    target = finding_id;
    environment = "sandbox";
    service = none;
    description = "bounded proposed-fix re-test";
  };
  artifacts = [];
}

abbrev either_text : String → String → String → String
either_text a b c = if not (a == "") then a else if not (b == "") then b else c

module _ {W : Type 0} (bench : Workbench W) where
  -- `_run_process`
  abbrev pub run_process : List String → ℕ → W → FixCheckResult × W
  run_process argv seconds w =
      let (end, w') = bench.run argv seconds w in
      (process_result bench.patterns argv seconds end, w')

  abbrev patch_path : String
  patch_path = "../proposed.patch"

  -- the part of `_apply_patch` behind the check, on the results of both processes
  unfoldable pub applied_patch : FixCheckResult → PatchApplicationResult
  applied_patch r =
      if is_passed r.status
      then record { status = applied; detail = "Applied in temporary workspace" }
      else record {
        status = PatchStatus.error;
        detail = either_text r.stderr r.stdout "git apply failed";
      }

  abbrev run_apply : W → PatchApplicationResult × W
  run_apply w =
      let (r, w') = run_process ("git" ∷ "apply" ∷ patch_path ∷ []) 30 w in (applied_patch r, w')

  abbrev after_dry_run : FixCheckResult × W → PatchApplicationResult × W
  after_dry_run (r, w) = if is_passed r.status then run_apply w else (
    record {
      status = rejected;
      detail = either_text r.stderr r.stdout "git apply --check rejected the patch";
    },
    w,
  )

  -- `_apply_patch`
  unfoldable pub apply_patch : String → W → PatchApplicationResult × W
  apply_patch diff w =
      after_dry_run
        (run_process ("git" ∷ "apply" ∷ "--check" ∷ patch_path ∷ []) 30 (bench.write_patch diff w))

  abbrev pub judged_check : FixCheck → Option String → W → FixCheckResult × W
  judged_check check (some e) w = (refused_result bench.patterns check e, w)
  judged_check check none w =
      let (r, w') = run_process check.argv check.timeout_seconds w in
      (check_result bench.patterns check r, w')

  -- `_run_check`
  unfoldable pub run_check : FixCheck → W → FixCheckResult × W
  run_check check w = judged_check check (check_argv_error bench.path_name check.argv) w

  -- `[_run_check(workspace, check) for check in checks]`
  unfoldable pub run_checks : List FixCheck → W → List FixCheckResult
  run_checks [] w = []
  run_checks (c ∷ cs) w = let (r, w') = run_check c w in r ∷ run_checks cs w'

  abbrev pub retests : PatchStatus → List FixCheck → W → List FixCheckResult
  retests applied checks w = run_checks checks w
  retests _ checks w = []

  -- the artifact of a patch and its re-tests
  unfoldable pub fix_artifact :
      FinalReport
      → ProposedPatch
      → List FixCheck
      → PatchApplicationResult
      → List FixCheckResult
      → FixVerificationArtifact
  fix_artifact report proposal checks patch results = record {
    original_finding = report.finding;
    original_status = report.status;
    proposed_patch = proposal;
    patch_application = patch;
    re_test_actions = map (public_check bench.patterns) checks;
    re_test_results = results;
    new_evidence = map (fix_evidence report.finding_id) results;
    verdict = (fix_verdict patch checks results).0;
    explanation = (fix_verdict patch checks results).1;
  }

  abbrev pub in_workspace : FinalReport → ProposedPatch → List FixCheck → Option W → Verification
  in_workspace report proposal checks none = crashed
  in_workspace report proposal checks (some w) =
      let (patch, w') = apply_patch proposal.unified_diff w in
      answered (fix_artifact report proposal checks patch (retests patch.status checks w'))

  abbrev pub in_scope : FinalReport → ProposedPatch → List FixCheck → Option String → Verification
  in_scope report proposal checks (some scope_error) =
      answered (
        fix_artifact report proposal checks (record { status = rejected; detail = scope_error }) [])
  in_scope report proposal checks none = in_workspace report proposal checks bench.copy_target

  abbrev pub is_confirmed_report : ReportStatus → Bool
  is_confirmed_report confirmed = true
  is_confirmed_report _ = false

  -- `FixVerificationService.verify`
  unfoldable pub verify : FinalReport → ProposedPatch → List FixCheck → Verification
  verify report proposal checks =
      if not (is_confirmed_report report.status)
      then refused "Fix verification is allowed only for a CONFIRMED finding"
      else if not (proposal.finding_id == report.finding_id)
      then refused "Patch proposal finding_id does not match the report"
      else if not bench.is_dir
      then refused ("Target directory does not exist: " ++ bench.source)
      else in_scope report proposal checks
          (patch_scope_error proposal.unified_diff report.finding.file)
