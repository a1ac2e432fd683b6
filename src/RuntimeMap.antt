-- ===== src/RuntimeMap.antt =====
-- executor/runtime_service_map.py: the map of the services of a target that a session runs.
pub mod Compose
pub mod Entries
use Prim.Native.String.{◌++◌}
use cft_security_agent.Prelude.{
  ℕ, String, Bool, true, false, not, Option, some, none, List, [], ◌∷◌, ◌++◌ as ◌+++◌,
  if◌then◌else◌, ◌==◌, text_eq, lower, lookup, insert, or_default, ◌⊎◌, inl, inr,
}
use cft_security_agent.Schemas.Target.{
  TargetService, TargetProfile, RuntimeService, ReadinessSource, compose_health, http_probe,
  RuntimeServiceDiagnostic, RuntimeServiceMap,
}
use cft_security_agent.Redaction.{Patterns, redact_error_message}
use cft_security_agent.RuntimeMap.Compose.{
  ComposeItem, ComposeReadiness, trusted_network, compose_readiness, host_of, sandbox_address,
  allowed_endpoints,
}

-- the code calls the field `ready`
pub record ProbeResult : Type 0 where
  pub is_up : Bool
  pub diagnostic : String

-- what `session.collect_state()` gives, with the id and the status of the session
pub record SessionState : Type 0 where
  pub session_id : String
  pub session_status : String
  pub compose_project : Option String
  pub items : List ComposeItem

-- The builder, with the world `W` that its probes run in. An injected probe gives a result or raises
-- an exception with a text; a network probe takes the network, the URL and the host of the request.
-- `check_cancelled` is `none` where it raises.
pub record RuntimeServiceMapBuilder (W : Type 0) : Type 0 where
  pub patterns : Patterns
  pub probe : Option (String → W → (String ⊎ ProbeResult) × W)
  pub network_probe : Option (String → String → Option String → W → ProbeResult × W)
  pub check_cancelled : W → Option W

abbrev pub failed_probe : String → ProbeResult
failed_probe diagnostic = record { is_up = false; diagnostic = diagnostic }

abbrev compose_starting : String
compose_starting = "Compose health is starting"

-- what the loop says of one service: an entry of the map, or a diagnostic
abbrev pub Judgement : Type 0
Judgement = RuntimeService ⊎ RuntimeServiceDiagnostic

-- `RuntimeService.validate_sandbox_address`, at the address of a host whose name is safe: the name
-- has no dot and no colon, so of its tests only the one for `localhost` can fail.
unfoldable pub is_sandbox_host : String → Bool
is_sandbox_host host = not (lower host == "localhost")

-- The entry of a service that is ready; `none` is the exception of the validator. The request host
-- was tested by the same function when the profile was made.
unfoldable pub ready_service :
    TargetService → String → List String → ReadinessSource → String → Option Judgement
ready_service service address endpoints source diagnostic =
    if is_sandbox_host (host_of service)
    then some (
        inl record {
          name = service.id;
          kind = service.kind;
          address = address;
          ready = true;
          readiness_source = source;
          allowed_endpoints = endpoints;
          request_host = service.request_host;
          diagnostic = diagnostic;
        })
    else none

abbrev pub diagnosed : TargetService → String → Option Judgement
diagnosed service diagnostic = some (inr record { name = service.id; diagnostic = diagnostic })

-- the entry or the diagnostic of a probe, with a text before the one of the probe
unfoldable pub probed :
    TargetService → String → List String → String → ProbeResult → Option Judgement
probed service address endpoints prefix r =
    if r.is_up
    then ready_service service address endpoints http_probe (prefix ++ r.diagnostic)
    else diagnosed service (prefix ++ r.diagnostic)

abbrev pub entered : String → Judgement → RuntimeServiceMap → RuntimeServiceMap
entered id (inl s) m = record m { services = insert id s m.services }
entered id (inr d) m = record m { diagnostics = m.diagnostics +++ (d ∷ []) }

module _ {W : Type 0} (builder : RuntimeServiceMapBuilder W) where
  -- the result of an injected probe, whose exception is redacted
  abbrev pub probe_result : String ⊎ ProbeResult → ProbeResult
  probe_result (inl message) =
      failed_probe (or_default (redact_error_message builder.patterns message 240) "")
  probe_result (inr r) = r

  -- The first successful result of a probe over the endpoints, or the last one.
  unfoldable pub first_ready :
      (String → W → ProbeResult × W) → List String → ProbeResult → W → ProbeResult × W
  first_ready try [] last w = (last, w)
  first_ready try (endpoint ∷ rest) last w =
      let (r, w') = try endpoint w in
      let after = first_ready try rest r w' in if r.is_up then (r, w') else after

  abbrev pub no_endpoint : ProbeResult
  no_endpoint = failed_probe "No readiness endpoint succeeded"

  abbrev pub injected :
      (String → W → (String ⊎ ProbeResult) × W) → String → String → W → ProbeResult × W
  injected probe address endpoint w =
      let (o, w') = probe (address ++ endpoint) w in (probe_result o, w')

  abbrev pub over_network :
      Option (String → String → Option String → W → ProbeResult × W)
      → Option String
      → String
      → Option String
      → List String
      → W
      → ProbeResult × W
  over_network none network address host endpoints w = (
    failed_probe
        "Sandbox-network probe is unavailable: configure a digest-pinned CFT_SANDBOX_IMAGE",
    w,
  )
  over_network (some probe) none address host endpoints w =
      (failed_probe "Trusted Compose network is unavailable", w)
  over_network (some probe) (some network) address host endpoints w =
      first_ready (λ endpoint. probe network (address ++ endpoint) host) endpoints no_endpoint w

  -- `_fallback_probe`, and `_probe_endpoints` for an injected probe
  unfoldable pub fallback_probe :
      Option String → String → Option String → List String → W → ProbeResult × W
  fallback_probe network address host endpoints w = elim builder.probe [
    | some probe ↦ first_ready (injected probe address) endpoints no_endpoint w
    | none ↦ over_network builder.network_probe network address host endpoints w
  ]

  abbrev pub probe_for :
      Option String → TargetService → String → List String → String → W → Option Judgement × W
  probe_for network service address endpoints prefix w =
      let (r, w') = fallback_probe network address service.request_host endpoints w in
      (probed service address endpoints prefix r, w')

  -- the branches on what Compose says of the service
  unfoldable pub judged_by :
      Option String
      → TargetService
      → String
      → List String
      → Option ComposeReadiness
      → W
      → Option Judgement × W
  judged_by network service address endpoints none w =
      probe_for network service address endpoints "" w
  judged_by network service address endpoints (some r) w =
      if r.is_ready
      then (ready_service service address endpoints compose_health r.diagnostic, w)
      else if r.diagnostic == compose_starting
      then probe_for network service address endpoints (r.diagnostic ++ "; ") w
      else (diagnosed service r.diagnostic, w)

  abbrev pub judged_at :
      Option String
      → List (String × ComposeReadiness)
      → TargetService
      → String ⊎ String
      → W
      → Option Judgement × W
  judged_at network readiness service (inl e) w = (diagnosed service e, w)
  judged_at network readiness service (inr address) w =
      judged_by network service address (allowed_endpoints service)
        (lookup (host_of service) readiness) w

  -- one round of the loop
  unfoldable pub judge :
      Option String → List (String × ComposeReadiness) → TargetService → W → Option Judgement × W
  judge network readiness service w =
      judged_at network readiness service (sandbox_address service) w

  abbrev pub with_judgement :
      (Judgement → W → Option (RuntimeServiceMap × W))
      → Option Judgement × W
      → Option (RuntimeServiceMap × W)
  with_judgement next (none, w) = none
  with_judgement next (some j, w) = next j w

  abbrev pub after_check :
      (W → Option Judgement × W)
      → (Judgement → W → Option (RuntimeServiceMap × W))
      → Option W
      → Option (RuntimeServiceMap × W)
  after_check round next none = none
  after_check round next (some w) = with_judgement next (round w)

  -- the loop over the services of the profile
  unfoldable pub judge_all :
      Option String
      → List (String × ComposeReadiness)
      → List (String × TargetService)
      → RuntimeServiceMap
      → W
      → Option (RuntimeServiceMap × W)
  judge_all network readiness [] m w = some (m, w)
  judge_all network readiness ((key, service) ∷ rest) m w =
      after_check (judge network readiness service)
        (λ j w'. judge_all network readiness rest (entered service.id j m) w')
        (builder.check_cancelled w)

  -- `build`
  unfoldable pub build : TargetProfile → SessionState → W → Option (RuntimeServiceMap × W)
  build profile session w =
      let network = trusted_network session.compose_project in
      if not (session.session_status == "ready")
      then some (
        record {
          session_id = session.session_id;
          network_name = network;
          services = [];
          diagnostics = record { name = "session"; diagnostic = "Session is not ready" } ∷ [];
        },
        w,
      )
      else judge_all network (compose_readiness session.items []) profile.services
          (record {
            session_id = session.session_id;
            network_name = network;
            services = [];
            diagnostics = [];
          })
          w
