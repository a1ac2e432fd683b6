-- ===== src/Fix/Verified.antt =====
-- When a fix is verified.
use cft_security_agent.Prelude.{
  String, ◌≡◌, ◌≢◌, ◌↔◌, refl, sym, ◌∙◌, subst, true, false, ◌||◌, Option, some, none, List, [],
  ◌∷◌, arith, any, All, Some, text_eq, nat_eq,
}
use cft_security_agent.Schemas.Report.{confirmed, FinalReport}
use cft_security_agent.Schemas.Fix.{
  verified, ProposedPatch, FixCheck, FixCheckResult, passed, PatchStatus, applied, static, runtime,
  PatchApplicationResult, FixVerificationArtifact,
}
use cft_security_agent.Fix.Checks.{
  check_argv_error, patch_scope_error, check_result, refused_result,
}
use cft_security_agent.Fix.{
  Workbench, answered, fix_verdict, is_incomplete, is_failed, is_static, is_runtime, run_check,
  run_checks, retests, fix_artifact, in_workspace, in_scope, judged_check, verify,
}
use cft_security_agent.Fix.Meaning.{IsConfinedTo, patch_scope_iff, IsCommand, check_argv_iff}

complete_iff :
    (rs : List FixCheckResult)
    → ((any (λ (r : FixCheckResult). is_incomplete r.status) rs
          || any (λ (r : FixCheckResult). is_failed r.status) rs)
        ≡ false)
      ↔ All (λ (r : FixCheckResult). r.status ≡ passed) rs
complete_iff [] = ground arith
complete_iff (r ∷ rs) = ground (arith, complete_iff rs)

fix_verdict_iff :
    (patch : PatchApplicationResult) (checks : List FixCheck) (results : List FixCheckResult)
    → ((fix_verdict patch checks results).0 ≡ verified) ↔ (
        (patch.status ≡ applied)
        × (checks ≢ [])
        × All (λ (r : FixCheckResult). r.status ≡ passed) results
        × (any (λ (r : FixCheckResult). is_static r.kind) results ≡ true)
        × (any (λ (r : FixCheckResult). is_runtime r.kind) results ≡ true))
unfolding fix_verdict
fix_verdict_iff patch checks results = ground (arith, complete_iff results)

static_iff :
    (cs : List FixCheck)
    → (any (λ (c : FixCheck). is_static c.kind) cs ≡ true)
      ↔ Some (λ (c : FixCheck). c.kind ≡ static) cs
static_iff [] = ground arith
static_iff (c ∷ cs) = ground (arith, static_iff cs)

runtime_iff :
    (cs : List FixCheck)
    → (any (λ (c : FixCheck). is_runtime c.kind) cs ≡ true)
      ↔ Some (λ (c : FixCheck). c.kind ≡ runtime) cs
runtime_iff [] = ground arith
runtime_iff (c ∷ cs) = ground (arith, runtime_iff cs)

answered_same : (b a : FixVerificationArtifact) → answered b ≡ answered a → b ≡ a
answered_same b a h = ground arith

module _ {W : Type 0} (bench : Workbench W) where
  abbrev pub IsPermitted : FixCheck → Type 0
  IsPermitted c = IsCommand bench.path_name c.argv

  judged_check-kind :
      (c : FixCheck) (o : Option String) (w : W) → (judged_check bench c o w).0.kind ≡ c.kind
  unfolding check_result refused_result
  judged_check-kind c none w = refl
  judged_check-kind c (some e) w = refl

  judged_check-passed :
      (c : FixCheck) (o : Option String) (w : W)
      → (judged_check bench c o w).0.status ≡ passed
      → o ≡ none
  unfolding refused_result
  judged_check-passed c none w h = refl
  judged_check-passed c (some e) w h = ground arith

  run_check-kind : (c : FixCheck) (w : W) → (run_check bench c w).0.kind ≡ c.kind
  unfolding run_check
  run_check-kind c w = judged_check-kind c (check_argv_error bench.path_name c.argv) w

  run_check-IsPermitted :
      (c : FixCheck) (w : W) → (run_check bench c w).0.status ≡ passed → IsPermitted c
  unfolding run_check
  run_check-IsPermitted c w h =
      (check_argv_iff bench.path_name c.argv).0
        (judged_check-passed c (check_argv_error bench.path_name c.argv) w h)

  statics :
      (cs : List FixCheck) (w : W)
      → any (λ (r : FixCheckResult). is_static r.kind) (run_checks bench cs w)
        ≡ any (λ (c : FixCheck). is_static c.kind) cs
  unfolding run_checks
  statics [] w = refl
  statics (c ∷ cs) w = ground (arith, run_check-kind c w, statics cs (run_check bench c w).1)

  runtimes :
      (cs : List FixCheck) (w : W)
      → any (λ (r : FixCheckResult). is_runtime r.kind) (run_checks bench cs w)
        ≡ any (λ (c : FixCheck). is_runtime c.kind) cs
  unfolding run_checks
  runtimes [] w = refl
  runtimes (c ∷ cs) w = ground (arith, run_check-kind c w, runtimes cs (run_check bench c w).1)

  run_checks-IsPermitted :
      (cs : List FixCheck) (w : W)
      → All (λ (r : FixCheckResult). r.status ≡ passed) (run_checks bench cs w)
      → All IsPermitted cs
  unfolding run_checks
  run_checks-IsPermitted [] w h = tt
  run_checks-IsPermitted (c ∷ cs) w h =
      (run_check-IsPermitted c w (h.0), run_checks-IsPermitted cs _ (h.1))

  -- What a verified fix rests on: the patch names the file of the finding only and was applied,
  -- there is a static and a runtime re-test, the command of each re-test is permitted, and each
  -- re-test passed.
  pub record IsVerifiedBy (report : FinalReport) (proposal : ProposedPatch) (checks : List FixCheck)
      (a : FixVerificationArtifact) : Type 0 where
    pub scope : IsConfinedTo proposal.unified_diff report.finding.file
    pub patch : a.patch_application.status ≡ applied
    pub static_check : Some (λ (c : FixCheck). c.kind ≡ static) checks
    pub runtime_check : Some (λ (c : FixCheck). c.kind ≡ runtime) checks
    pub permitted : All IsPermitted checks
    pub results : All (λ (r : FixCheckResult). r.status ≡ passed) a.re_test_results

  retests_applied :
      (status : PatchStatus) (cs : List FixCheck) (w : W)
      → status ≡ applied
      → retests bench status cs w ≡ run_checks bench cs w
  retests_applied applied cs w h = refl
  retests_applied _ cs w h = absurd (ground arith)

  checked : (cs : List FixCheck) → Some (λ (c : FixCheck). c.kind ≡ static) cs → cs ≢ []
  checked [] s = absurd (ground arith)
  checked (c ∷ cs) s = ground arith

  module _ (report : FinalReport) (proposal : ProposedPatch) (checks : List FixCheck) where
    artifact_iff :
        (patch : PatchApplicationResult) (w : W)
        → patch_scope_error proposal.unified_diff report.finding.file ≡ none
        → let a =
            fix_artifact bench report proposal checks patch (retests bench patch.status checks w) in
          (a.verdict ≡ verified) ↔ IsVerifiedBy report proposal checks a
    unfolding fix_artifact
    artifact_iff patch w e =
        let iff = fix_verdict_iff patch checks (retests bench patch.status checks w) in
        (
          λ v.
              let (p, some', passed', s, r) = iff.0 v in
              let same = retests_applied patch.status checks w p in
              record {
                scope = (patch_scope_iff proposal.unified_diff report.finding.file).0 e;
                patch = p;
                static_check = (static_iff checks).0 (
                    sym (statics checks w)
                    ∙ subst (λ q. any (λ (r : FixCheckResult). is_static r.kind) q ≡ true) same s);
                runtime_check = (runtime_iff checks).0 (
                    sym (runtimes checks w)
                    ∙ subst (λ q. any (λ (r : FixCheckResult). is_runtime r.kind) q ≡ true) same r);
                permitted =
                    run_checks-IsPermitted checks w
                      (subst (λ q. All (λ (r : FixCheckResult). r.status ≡ passed) q) same passed');
                results = passed';
              },
          λ v.
              let same = sym (retests_applied patch.status checks w v.patch) in
              iff.1 (
                v.patch,
                checked checks v.static_check,
                v.results,
                subst (λ q. any (λ (r : FixCheckResult). is_static r.kind) q ≡ true) same
                    (statics checks w ∙ (static_iff checks).1 v.static_check),
                subst (λ q. any (λ (r : FixCheckResult). is_runtime r.kind) q ≡ true) same
                    (runtimes checks w ∙ (runtime_iff checks).1 v.runtime_check),
              ),
        )

    workspace_iff :
        (o : Option W) (a : FixVerificationArtifact)
        → patch_scope_error proposal.unified_diff report.finding.file ≡ none
        → in_workspace bench report proposal checks o ≡ answered a
        → (a.verdict ≡ verified) ↔ IsVerifiedBy report proposal checks a
    workspace_iff none a e h = absurd (ground arith)
    workspace_iff (some w) a e h =
        subst (λ q. (q.verdict ≡ verified) ↔ IsVerifiedBy report proposal checks q)
          (answered_same _ _ h) (artifact_iff _ _ e)

    rejected_unverified :
        (m : String) (a : FixVerificationArtifact)
        → in_scope bench report proposal checks (some m) ≡ answered a
        → a.verdict ≢ verified
    unfolding fix_artifact fix_verdict
    rejected_unverified m a h = ground arith

    scope_iff :
        (o : Option String) (a : FixVerificationArtifact)
        → patch_scope_error proposal.unified_diff report.finding.file ≡ o
        → in_scope bench report proposal checks o ≡ answered a
        → (a.verdict ≡ verified) ↔ IsVerifiedBy report proposal checks a
    scope_iff none a e h = workspace_iff bench.copy_target a e h
    scope_iff (some m) a e h = (
      λ v. absurd (rejected_unverified m a h v),
      λ v. absurd (
          ground (arith, e, (patch_scope_iff proposal.unified_diff report.finding.file).1 v.scope)),
    )

    answered_iff :
        (a : FixVerificationArtifact)
        → verify bench report proposal checks ≡ answered a
        → (report.status ≡ confirmed)
          × (proposal.finding_id ≡ report.finding_id)
          × (in_scope bench report proposal checks
                (patch_scope_error proposal.unified_diff report.finding.file)
              ≡ answered a)
    unfolding verify
    answered_iff a h = ground (arith, text_eq.same_iff proposal.finding_id report.finding_id)

    -- The verification answers only for a confirmed report and a patch for its finding, and the fix
    -- is verified exactly when the headers of the patch name the file of the finding and no other,
    -- the patch was applied, there is a static and a runtime re-test, and each re-test passed and
    -- is a command of one to 64 valid arguments, whose executable is not blocked and which has no
    -- marker of the network or of Docker.
    pub verified_iff_IsVerifiedBy :
        (a : FixVerificationArtifact)
        → verify bench report proposal checks ≡ answered a
        → (report.status ≡ confirmed)
          × (proposal.finding_id ≡ report.finding_id)
          × ((a.verdict ≡ verified) ↔ IsVerifiedBy report proposal checks a)
    verified_iff_IsVerifiedBy a h = let (c, i, s) = answered_iff a h in (c, i, scope_iff _ a refl s)
