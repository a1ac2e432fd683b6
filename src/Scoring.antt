-- ===== src/Scoring.antt =====
-- scoring/service.py: the state of CVSS and the context priority of a finding. Points are counted
-- in halves, so 2.0 points are 4.
pub mod Levels
pub mod Monotone
use Prim.Native.String.{◌++◌}
use cft_security_agent.Prelude.{
  ℕ, ◌+◌, ◌/◌, ◌%◌, String, Bool, true, false, Option, some, none, List, [], ◌∷◌, leb, ◌==◌, nat_eq,
  text_eq, if◌then◌else◌, or_default, lookup, any, non_empty, lower, strip, show,
}
use text.Mathlib.Text.{starts_with}
use cft_security_agent.Schemas.Finding.{Finding, ArchitectureContext, CvssResult, ContextPriority}

abbrev pub non_cvss_rule_prefixes : List String
non_cvss_rule_prefixes = "dockerfile.security.missing-user" ∷ []

abbrev pub criticality_table : List (String × ℕ)
criticality_table =
    ("critical", 4)
    ∷ ("high", 4)
    ∷ ("medium", 2)
    ∷ ("normal", 2)
    ∷ ("low", 0)
    ∷ ("test", 0)
    ∷ ("dev", 0)
    ∷ ("development", 0)
    ∷ ("unknown", 0)
    ∷ []

abbrev pub authentication_table : List (String × ℕ)
authentication_table =
    ("none", 2)
    ∷ ("unauthenticated", 2)
    ∷ ("public", 2)
    ∷ ("user", 1)
    ∷ ("authenticated", 1)
    ∷ ("admin", 0)
    ∷ ("administrator", 0)
    ∷ ("unknown", 0)
    ∷ []

abbrev pub blast_radius_table : List (String × ℕ)
blast_radius_table =
    ("many", 4)
    ∷ ("shared", 4)
    ∷ ("shared_infrastructure", 4)
    ∷ ("several", 2)
    ∷ ("limited", 2)
    ∷ ("isolated", 0)
    ∷ ("unknown", 0)
    ∷ []

unfoldable pub score_cvss : Finding → CvssResult
score_cvss finding =
    let rule_id = lower finding.rule_id in
    if any (λ p. starts_with rule_id p) non_cvss_rule_prefixes
    then record {
      vector = "N/A";
      score = none;
      severity = "N/A";
      reasoning =
          "This SAST finding is a container hardening/configuration issue. "
          ++ "Without a demonstrated vulnerability and justified CVSS 4.0 metrics, "
          ++ "a numeric base score would create false precision.";
    }
    else record {
      vector = "UNASSESSED";
      score = none;
      severity = "UNASSESSED";
      reasoning =
          "CVSS 4.0 may apply, but explicit justified metric values are not present "
          ++ "in the current workflow input. Semgrep severity is not converted into CVSS.";
    }

-- `value.strip().lower() or "unknown"`
unfoldable pub normalize : String → String
normalize s = let t = lower (strip s) in if t == "" then "unknown" else t

-- `table.get(name, 0.0)`
unfoldable pub points : List (String × ℕ) → String → ℕ
points table name = or_default (lookup name table) 0

-- `_format_points`: a whole number of points, or one with a half
unfoldable pub format_points : ℕ → String
format_points halves = if halves % 2 == 0 then show (halves / 2) else show (halves / 2) ++ ".5"

unfoldable pub priority_level : ℕ → String
priority_level score = if leb score 6 then "LOW" else if leb score 12 then "MEDIUM" else "HIGH"

abbrev pub exposure_points : ArchitectureContext → ℕ
exposure_points c = if c.public_exposure then 4 else 0

abbrev pub database_points : ArchitectureContext → ℕ
database_points c = if non_empty c.databases then 4 else 0

abbrev pub critical_path_points : ArchitectureContext → ℕ
critical_path_points c = if non_empty c.critical_paths then 2 else 0

-- `score` as it stands after the last `+=`
unfoldable pub total_score : ArchitectureContext → ℕ
total_score c =
    exposure_points c
    + points criticality_table (normalize c.criticality)
    + database_points c
    + critical_path_points c
    + points authentication_table (normalize c.authentication)
    + points blast_radius_table (normalize c.blast_radius)

-- one line of `reasons`: `name:value:+points`
abbrev reason : String → String → ℕ → String
reason name value p = name ++ (":" ++ (value ++ (":+" ++ format_points p)))

unfoldable pub score_context_priority : ArchitectureContext → ContextPriority
unfolding total_score priority_level
score_context_priority c =
    let criticality = normalize c.criticality in
    let authentication = normalize c.authentication in
    let blast_radius = normalize c.blast_radius in
    let score = total_score c in
    record {
      level = priority_level score;
      score = some score;
      reasons =
          reason "public_exposure" (if c.public_exposure then "internet" else "not_public")
            (exposure_points c)
          ∷ reason "asset_criticality" criticality (points criticality_table criticality)
          ∷ reason "database_access" (if non_empty c.databases then "direct" else "none")
              (database_points c)
          ∷ reason "critical_path" (if non_empty c.critical_paths then "direct" else "none")
              (critical_path_points c)
          ∷ reason "authentication" authentication (points authentication_table authentication)
          ∷ reason "blast_radius" blast_radius (points blast_radius_table blast_radius)
          ∷ [];
    }

unfoldable pub score : Finding → ArchitectureContext → CvssResult × ContextPriority
score finding context = (score_cvss finding, score_context_priority context)
