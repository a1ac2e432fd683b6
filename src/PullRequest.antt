-- ===== src/PullRequest.antt =====
-- pr_analysis/service.py: what a pull request changes about a finding. The child `Diff` is the
-- parser of pr_analysis/git_diff.py.
pub mod Diff
pub mod Classes
use cft_security_agent.Prelude.{
  ℕ, suc, ◌-◌, String, Bool, true, false, not, ◌&&◌, ◌||◌, Option, some, none, List, [], ◌∷◌, map,
  keep, non_empty, any, if◌then◌else◌, ◌==◌, nat_eq, text_eq, or_default, contains, lookup, insert,
  lower, strip, words, join,
}
use cft_security_agent.Schemas.Finding.{
  PrClassification, new, existing, affected_by_change, PrFindingContext, Finding,
  ArchitectureContext,
}
use cft_security_agent.Agent.Consistency.{range}
use cft_security_agent.Fix.Checks.{slashes, without_dots}
use cft_security_agent.PullRequest.Diff.{GitDiff, PathTests}

-- what `finding_fingerprint` hashes
pub record Identity : Type 0 where
  pub source : String
  pub rule_id : String
  pub file : String
  pub description : String

-- The service; the hash of an identity (JSON and SHA-256), the tests on paths and the comparison of
-- two contexts (`model_dump`) are library code. A provider is its `get_context`.
pub record PrAnalysisService : Type 0 where
  pub digest : Identity → String
  pub paths : PathTests
  pub as_posix : String → String
  pub same_context : ArchitectureContext → ArchitectureContext → Bool
  pub base_ref : String
  pub head_ref : String
  pub diff : GitDiff
  pub base_architecture : Option (String → ArchitectureContext)
  pub head_architecture : Option (String → ArchitectureContext)

pub record PrAnalysisSummary : Type 0 where
  pub base_ref : String
  pub head_ref : String
  pub changed_files : List String
  pub changed_lines : List (String × List ℕ)
  pub findings : List (String × PrFindingContext)

-- `set(range(line_start, end + 1))`, in order
unfoldable pub finding_lines : Option ℕ → Option ℕ → List ℕ
finding_lines none line_end = []
finding_lines (some start) line_end = range start (suc (or_default line_end start) - start)

-- `sorted(set(file_lines).intersection(finding_lines))`: the lines of the finding are in order
unfoldable pub relevant_lines : List ℕ → List ℕ → List ℕ
relevant_lines file_lines lines = keep (λ n. any (λ m. m == n) file_lines) lines

-- the branches of the classification
unfoldable pub classify : Bool → List ℕ → Bool → PrClassification
classify known relevant architecture_changed =
    if not known
    then new
    else if non_empty relevant || architecture_changed
    then affected_by_change
    else existing

module _ (service : PrAnalysisService) where
  -- `_normalize_path`; `none` is the `ValueError`
  unfoldable pub normalize_path : String → Option String
  normalize_path value =
      let normalized = without_dots (slashes value) in
      if normalized == ""
        || (service.paths.is_absolute normalized || service.paths.has_parent normalized)
      then none
      else some (service.as_posix normalized)

  abbrev fingerprint_at : Finding → Option String → Option String
  fingerprint_at f none = none
  fingerprint_at f (some path) = some (
      service.digest (record {
        source = lower (strip f.source);
        rule_id = strip f.rule_id;
        file = path;
        description = join " " (words (if f.description == "" then f.title else f.description));
      }))

  -- `finding_fingerprint`
  unfoldable pub finding_fingerprint : Finding → Option String
  finding_fingerprint f = fingerprint_at f (normalize_path f.file)

  abbrev pub contexts_differ :
      Option (String → ArchitectureContext) → Option (String → ArchitectureContext) → String → Bool
  contexts_differ (some base) (some head) name = not (service.same_context (base name) (head name))
  contexts_differ _ _ name = false

  -- `_architecture_changed`
  unfoldable pub architecture_changed : Option String → Bool
  architecture_changed none = false
  architecture_changed (some name) =
      contexts_differ service.base_architecture service.head_architecture name

  -- the changed lines of a file
  abbrev pub lines_of : String → List ℕ
  lines_of path = or_default (lookup path service.diff.changed_lines) []

  abbrev pub relevant_to : Finding → String → List ℕ
  relevant_to f path = relevant_lines (lines_of path) (finding_lines f.line_start f.line_end)

  -- the context of a finding whose path and fingerprint are these
  unfoldable pub context_at : List String → Finding → String → String → PrFindingContext
  context_at base_fingerprints f path fingerprint = record {
    fingerprint = fingerprint;
    classification =
        classify (contains fingerprint base_fingerprints) (relevant_to f path)
          (architecture_changed f.service);
    base_ref = service.base_ref;
    head_ref = service.head_ref;
    changed_file = contains path service.diff.changed_files;
    changed_lines = relevant_to f path;
    architecture_context_changed = architecture_changed f.service;
  }

  -- the body of the loop up to the context
  unfoldable pub context_of : List String → Finding → Option PrFindingContext
  context_of base_fingerprints f = elim (finding_fingerprint f) [
    | none ↦ none
    | some fingerprint ↦ elim (normalize_path f.file) [
      | none ↦ none
      | some path ↦ some (context_at base_fingerprints f path fingerprint)
    ]
  ]

  -- `{finding_fingerprint(item) for item in base_findings}`
  unfoldable pub fingerprints : List Finding → Option (List String)
  fingerprints [] = some []
  fingerprints (f ∷ fs) = elim (finding_fingerprint f) [
    | none ↦ none
    | some fingerprint ↦ elim (fingerprints fs) [
      | none ↦ none
      | some rest ↦ some (fingerprint ∷ rest)
    ]
  ]

  -- the loop, with the contexts so far
  unfoldable pub enriched :
      List String
      → List Finding
      → List (String × PrFindingContext)
      → Option (List Finding × List (String × PrFindingContext))
  enriched base_fingerprints [] contexts = some ([], contexts)
  enriched base_fingerprints (f ∷ fs) contexts = elim (context_of base_fingerprints f) [
    | none ↦ none
    | some context ↦ elim (enriched base_fingerprints fs (insert f.id context contexts)) [
      | none ↦ none
      | some (rest, all_contexts) ↦
          some (record f { pr_context = some context } ∷ rest, all_contexts)
    ]
  ]

  abbrev summarised :
      Option (List Finding × List (String × PrFindingContext))
      → Option (List Finding × PrAnalysisSummary)
  summarised none = none
  summarised (some (findings, contexts)) = some (
    findings,
    record {
      base_ref = service.base_ref;
      head_ref = service.head_ref;
      changed_files = service.diff.changed_files;
      changed_lines = service.diff.changed_lines;
      findings = contexts;
    },
  )

  abbrev analysed : Option (List String) → List Finding → Option (List Finding × PrAnalysisSummary)
  analysed none head_findings = none
  analysed (some base_fingerprints) head_findings =
      summarised (enriched base_fingerprints head_findings [])

  -- `PRAnalysisService.analyse`
  unfoldable pub analyse_pr :
      List Finding → List Finding → Option (List Finding × PrAnalysisSummary)
  analyse_pr base_findings head_findings = analysed (fingerprints base_findings) head_findings
