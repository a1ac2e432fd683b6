-- ===== src/Schemas/Finding.antt =====
-- schemas/finding.py, schemas/pr.py, schemas/architecture.py and schemas/scoring.py. A score is
-- counted in halves of a point, since every table of points holds multiples of 0.5.
use cft_security_agent.Prelude.{ℕ, String, Bool, Option, List}

pub data PrClassification : Type 0 where
  new existing affected_by_change : PrClassification

pub record PrFindingContext : Type 0 where
  pub fingerprint : String
  pub classification : PrClassification
  pub base_ref : String
  pub head_ref : String
  pub changed_file : Bool
  pub changed_lines : List ℕ
  pub architecture_context_changed : Bool

pub record Finding : Type 0 where
  pub id : String
  pub source : String
  pub rule_id : String
  pub title : String
  pub description : String
  pub file : String
  pub line_start : Option ℕ
  pub line_end : Option ℕ
  pub severity : Option String
  pub service : Option String
  pub pr_context : Option PrFindingContext

pub record ArchitectureContext : Type 0 where
  pub service : String
  pub public_exposure : Bool
  pub criticality : String
  pub trust_zone : Option String
  pub connected_services : List String
  pub databases : List String
  pub critical_paths : List String
  pub authentication : String
  pub blast_radius : String

pub record CvssResult : Type 0 where
  pub vector : String
  pub score : Option ℕ
  pub severity : String
  pub reasoning : String

pub record ContextPriority : Type 0 where
  pub level : String
  pub score : Option ℕ
  pub reasons : List String
