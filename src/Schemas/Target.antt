-- ===== src/Schemas/Target.antt =====
-- The parts of schemas/target.py and schemas/runtime.py that the agent and the executor read.
use cft_security_agent.Prelude.{ℕ, String, Bool, Option, List}

pub record TargetArtifact : Type 0 where
  pub id : String
  pub kind : String
  pub relative_path : String
  pub roles : List String

pub record TargetService : Type 0 where
  pub id : String
  pub root : String
  pub compose_service : Option String
  pub healthcheck : Option String
  pub kind : String
  pub internal_port : Option ℕ
  pub runtime_endpoints : List String
  pub request_host : Option String

-- `base_url` and `compose_file` are the fields of `runtime`.
pub record TargetProfile : Type 0 where
  pub id : String
  pub environment : String
  pub repository_path : Option String
  pub base_url : Option String
  pub compose_file : Option String
  pub services : List (String × TargetService)
  pub artifacts : List (String × TargetArtifact)
  pub metadata : List (String × String)

pub data ReadinessSource : Type 0 where
  compose_health http_probe : ReadinessSource

pub record RuntimeService : Type 0 where
  pub name : String
  pub kind : String
  pub address : String
  pub ready : Bool
  pub readiness_source : ReadinessSource
  pub allowed_endpoints : List String
  pub request_host : Option String
  pub diagnostic : String

pub record RuntimeServiceDiagnostic : Type 0 where
  pub name : String
  pub diagnostic : String

pub record RuntimeServiceMap : Type 0 where
  pub session_id : String
  pub network_name : Option String
  pub services : List (String × RuntimeService)
  pub diagnostics : List RuntimeServiceDiagnostic
