-- ===== src/Examples/PullRequestExamples.antt =====
-- pr_analysis at a finding of the base in a file that the pull request changes.
use cft_security_agent.Prelude.{
  ◌≡◌, refl, drop_chars, true, false, some, none, [], ◌∷◌, lookup, insert, lower, strip,
  split_lines,
}
use cft_security_agent.Schemas.Finding.{affected_by_change, PrFindingContext, Finding}
use cft_security_agent.Schemas.Architecture.{ProjectServiceDescription}
use cft_security_agent.Agent.Consistency.{range}
use cft_security_agent.Fix.Checks.{slashes, without_dots}
use cft_security_agent.PullRequest.Diff.{
  GitDiff, PathTests, DiffReaders, parse_git_diff, diff_lines, diff_line, note_file,
  normalize_diff_path, sorted_set,
}
use cft_security_agent.PullRequest.{
  PrAnalysisService, context_of, context_at, finding_fingerprint, normalize_path, classify,
  relevant_lines, finding_lines, architecture_changed, analyse_pr, fingerprints, enriched,
  PrAnalysisSummary,
}
use cft_security_agent.PullRequest.Classes.{classes_iff, AllEnriched}
use cft_security_agent.Architecture.{get_context, described, overridden}
use cft_security_agent.Gate.Decision.{unique, unique_from}
use cft_security_agent.Examples.Samples.{a_finding}

abbrev paths : PathTests
paths = record { is_absolute = λ s. false; has_parent = λ s. false }

abbrev a_diff : GitDiff
a_diff = record {
  changed_files = "auth/models.py" ∷ [];
  changed_lines = ("auth/models.py", 3 ∷ 9 ∷ []) ∷ [];
}

-- A line that the diff adds and that starts with "++ " reads as the header of a file.
abbrev readers : DiffReaders
readers = record {
  paths = paths;
  split = λ s. "diff" ∷ "--git" ∷ "a/x.py" ∷ "b/x.py" ∷ [];
  hunk = λ s. none;
}

added_line_test :
    parse_git_diff readers "diff --git a/x.py b/x.py\n+++ b/x.py\n+++ counter"
    ≡ some (record {
      changed_files = "x.py" ∷ "counter" ∷ [];
      changed_lines = ("x.py", []) ∷ ("counter", []) ∷ [];
    })
unfolding parse_git_diff diff_lines diff_line note_file normalize_diff_path drop_chars sorted_set
    split_lines slashes insert lookup
added_line_test = refl

abbrev a_service : PrAnalysisService
a_service = record {
  digest = λ i. i.rule_id;
  paths = paths;
  as_posix = λ s. s;
  same_context = λ a b. true;
  base_ref = "main";
  head_ref = "topic";
  diff = a_diff;
  base_architecture = none;
  head_architecture = none;
}

abbrev a_context : PrFindingContext
a_context = record {
  fingerprint = "python.password";
  classification = affected_by_change;
  base_ref = "main";
  head_ref = "topic";
  changed_file = true;
  changed_lines = 3 ∷ [];
  architecture_context_changed = false;
}

abbrev enriched_finding : Finding
enriched_finding = record a_finding { pr_context = some a_context }

abbrev a_summary : PrAnalysisSummary
a_summary = record {
  base_ref = "main";
  head_ref = "topic";
  changed_files = a_diff.changed_files;
  changed_lines = a_diff.changed_lines;
  findings = (a_finding.id, a_context) ∷ [];
}

affected :
    analyse_pr a_service (a_finding ∷ []) (a_finding ∷ []) ≡ some (enriched_finding ∷ [], a_summary)
unfolding analyse_pr fingerprints enriched context_of context_at finding_fingerprint normalize_path
    classify relevant_lines finding_lines architecture_changed slashes without_dots lookup insert
    range strip
affected = refl

classes_iff_example :
    AllEnriched a_service (a_finding ∷ []) (a_finding ∷ []) (enriched_finding ∷ [])
classes_iff_example =
    classes_iff a_service (a_finding ∷ []) (a_finding ∷ []) (enriched_finding ∷ []) a_summary
      affected

abbrev a_database : ProjectServiceDescription
a_database = record {
  kind = " Database";
  public = false;
  criticality = "high";
  trust_zone = none;
  connects_to = [];
  authentication = "unknown";
  blast_radius = "unknown";
}

database_test :
    (get_context
      (("api", record a_database { kind = "api"; connects_to = "db" ∷ "cache" ∷ "db" ∷ [] })
        ∷ ("db", a_database)
        ∷ [])
      []
      "api").critical_paths
    ≡ "api -> db" ∷ []
unfolding get_context described overridden unique unique_from lookup lower strip
database_test = refl
