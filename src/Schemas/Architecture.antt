-- ===== src/Schemas/Architecture.antt =====
-- The descriptions and overrides of schemas/architecture.py.
use cft_security_agent.Prelude.{String, Bool, Option, List}

pub record ProjectServiceDescription : Type 0 where
  pub kind : String
  pub public : Bool
  pub criticality : String
  pub trust_zone : Option String
  pub connects_to : List String
  pub authentication : String
  pub blast_radius : String

-- A key that the override leaves out, or that it sets to null, is `none`.
pub record ArchitectureContextOverride : Type 0 where
  pub public_exposure : Option Bool
  pub criticality : Option String
  pub trust_zone : Option String
  pub connected_services : Option (List String)
  pub databases : Option (List String)
  pub critical_paths : Option (List String)
  pub authentication : Option String
  pub blast_radius : Option String
