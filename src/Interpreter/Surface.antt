-- ===== src/Interpreter/Surface.antt =====
-- evidence/runtime.py: the seven records of one HTTP observation.
use Prim.Native.String.{◌++◌}
use cft_security_agent.Prelude.{
  String, Option, some, none, List, [], ◌∷◌, map, if◌then◌else◌, ◌==◌, text_eq, or_default,
}
use cft_security_agent.Schemas.Action.{Value, ActionProposal}
use cft_security_agent.Schemas.Execution.{ExecutionResult}
use cft_security_agent.Schemas.Evidence.{high, EvidenceSource, Evidence}
use cft_security_agent.Interpreter.{StoredRecord, HttpSurface, Readers, artifact_of}

-- `checks`: the kind, the summary and the facts of each record
unfoldable pub surface_checks : HttpSurface → List (String × (String × List (String × Value)))
surface_checks p =
    ("http_status", ("HTTP response status", p.status))
    ∷ ("http_security_headers", ("Selected HTTP security headers", p.security_headers))
    ∷ ("http_cookie_attributes", ("Cookie attribute observations without cookie values", p.cookies))
    ∷ ("http_cors", ("CORS response headers", p.cors))
    ∷ ("http_redirect", ("Redirect behaviour without following redirects", p.redirect))
    ∷ ("http_health_or_error", ("Health or error response classification", p.health))
    ∷ ("http_route_access", ("Known route accessibility", p.route))
    ∷ []

module _ (action : ActionProposal) (execution : ExecutionResult) (refs : List String)
    (hypothesis_id : String) (fresh_id : String → String) where
  unfoldable pub surface_evidence :
      String → String → String × (String × List (String × Value)) → Evidence
  surface_evidence session endpoint (kind, (summary, facts)) = record {
    id = "evidence-" ++ fresh_id kind;
    action_id = action.id;
    kind = kind;
    summary = summary;
    artifact_refs = refs;
    reliability = high;
    verdict = none;
    source = EvidenceSource.runtime;
    sandbox_session_id = some session;
    hypothesis_id = hypothesis_id;
    action = record { id = action.id; tool = action.tool; run_id = some execution.run_id };
    observation = record { kind = kind; facts = facts };
    scope = record {
      target = action.target;
      environment = action.environment;
      service = action.service;
      description = "GET " ++ (endpoint ++ " via registered RuntimeServiceMap service");
    };
    artifacts = map artifact_of refs;
  }

  abbrev pub surface_records : String → Option HttpSurface → List Evidence
  surface_records session none = []
  surface_records session (some p) = map (surface_evidence session p.endpoint) (surface_checks p)

  -- `build_http_surface_evidence`
  unfoldable pub build_http_surface_evidence : Readers → StoredRecord → List Evidence
  build_http_surface_evidence rd r =
      if or_default r.session_id "" == ""
      then []
      else surface_records (or_default r.session_id "") (rd.parse_surface (or_default r.stdout ""))
