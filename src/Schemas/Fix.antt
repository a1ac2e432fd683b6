-- ===== src/Schemas/Fix.antt =====
-- schemas/fix.py.
use cft_security_agent.Prelude.{ℕ, String, Option, List}
use cft_security_agent.Schemas.Evidence.{Evidence}
use cft_security_agent.Schemas.Report.{ReportFinding, ReportStatus}

pub data FixCheckKind : Type 0 where
  rebuild static runtime : FixCheckKind

pub data FixVerdict : Type 0 where
  verified not_verified inconclusive : FixVerdict

pub record ProposedPatch : Type 0 where
  pub finding_id : String
  pub rationale : String
  pub unified_diff : String

pub record FixCheck : Type 0 where
  pub id : String
  pub kind : FixCheckKind
  pub argv : List String
  pub timeout_seconds : ℕ

pub data CheckStatus : Type 0 where
  passed failed error timed_out : CheckStatus

pub record FixCheckResult : Type 0 where
  pub id : String
  pub kind : FixCheckKind
  pub argv : List String
  pub status : CheckStatus
  pub exit_code : Option ℕ
  pub stdout : String
  pub stderr : String

pub data PatchStatus : Type 0 where
  applied rejected error : PatchStatus

pub record PatchApplicationResult : Type 0 where
  pub status : PatchStatus
  pub detail : String

pub record FixVerificationArtifact : Type 0 where
  pub original_finding : ReportFinding
  pub original_status : ReportStatus
  pub proposed_patch : ProposedPatch
  pub patch_application : PatchApplicationResult
  pub re_test_actions : List FixCheck
  pub re_test_results : List FixCheckResult
  pub new_evidence : List Evidence
  pub verdict : FixVerdict
  pub explanation : String

abbrev pub kind_text : FixCheckKind → String
kind_text rebuild = "rebuild"
kind_text static = "static"
kind_text runtime = "runtime"

abbrev pub check_status_text : CheckStatus → String
check_status_text passed = "passed"
check_status_text failed = "failed"
check_status_text error = "error"
check_status_text timed_out = "timed_out"
