-- ===== src/Architecture.antt =====
-- architecture/context.py: what is known of a service, for the scoring.
use Prim.Native.String.{◌++◌}
use cft_security_agent.Prelude.{
  String, Bool, false, Option, some, none, List, [], ◌∷◌, map, keep, lookup, lower, strip, contains,
  or_default, text_eq,
}
use cft_security_agent.Schemas.Finding.{ArchitectureContext}
use cft_security_agent.Schemas.Architecture.{ProjectServiceDescription, ArchitectureContextOverride}
use cft_security_agent.Gate.Decision.{unique}

abbrev pub Services : Type 0
Services = List (String × ProjectServiceDescription)

-- the service is described, and its value is one of those given
abbrev has_value :
    (ProjectServiceDescription → String) → List String → Option ProjectServiceDescription → Bool
has_value read values none = false
has_value read values (some d) = contains (lower (strip (read d))) values

-- the context of a service that is not described
abbrev pub unknown_context : String → ArchitectureContext
unknown_context service = record {
  service = service;
  public_exposure = false;
  criticality = "unknown";
  trust_zone = none;
  connected_services = [];
  databases = [];
  critical_paths = [];
  authentication = "unknown";
  blast_radius = "unknown";
}

unfoldable pub described :
    Services → String → Option ProjectServiceDescription → ArchitectureContext
described services service none = unknown_context service
described services service (some node) =
    let connected = unique node.connects_to in
    record {
      service = service;
      public_exposure = node.public;
      criticality = node.criticality;
      trust_zone = node.trust_zone;
      connected_services = connected;
      databases =
          keep (λ name. has_value (λ d. d.kind) ("database" ∷ []) (lookup name services)) connected;
      critical_paths =
          map (λ name. service ++ (" -> " ++ name))
            (keep
              (λ name.
                has_value (λ d. d.criticality) ("high" ∷ "critical" ∷ []) (lookup name services))
              connected);
      authentication = node.authentication;
      blast_radius = node.blast_radius;
    }

abbrev instead : Option String → Option String → Option String
instead none old = old
instead (some s) old = some s

-- `context.model_copy(update=values)`
unfoldable pub overridden :
    Option ArchitectureContextOverride → ArchitectureContext → ArchitectureContext
overridden none c = c
overridden (some o) c = record {
  service = c.service;
  public_exposure = or_default o.public_exposure c.public_exposure;
  criticality = or_default o.criticality c.criticality;
  trust_zone = instead o.trust_zone c.trust_zone;
  connected_services = or_default o.connected_services c.connected_services;
  databases = or_default o.databases c.databases;
  critical_paths = or_default o.critical_paths c.critical_paths;
  authentication = or_default o.authentication c.authentication;
  blast_radius = or_default o.blast_radius c.blast_radius;
}

-- `ProjectDescriptionAdapter.get_context`
unfoldable pub get_context :
    Services → List (String × ArchitectureContextOverride) → String → ArchitectureContext
get_context services overrides service =
    overridden (lookup service overrides) (described services service (lookup service services))
