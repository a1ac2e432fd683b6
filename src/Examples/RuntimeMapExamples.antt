-- ===== src/Examples/RuntimeMapExamples.antt =====
-- executor/runtime_service_map.py for a profile with one service.
use cft_security_agent.Prelude.{
  Bool, true, false, non_empty, inr, ℕ, ◌≡◌, refl, Option, some, none, [], ◌∷◌, All, lookup, insert,
  strip, lower, every_char,
}
use cft_security_agent.Schemas.Target.{TargetService, RuntimeServiceMap}
use cft_security_agent.Gate.Decision.{unique, unique_from}
use cft_security_agent.RuntimeMap.Compose.{
  allowed_endpoints, sandbox_address, is_service_name, compose_readiness, text_of, readiness_of,
}
use cft_security_agent.RuntimeMap.{
  RuntimeServiceMapBuilder, SessionState, build, judge_all, judge, judged_by, ready_service,
  is_sandbox_host, fallback_probe, first_ready, probed,
}
use cft_security_agent.RuntimeMap.Entries.{entries_are_ready, IsEntry}
use cft_security_agent.Examples.Samples.{unchanged, a_profile}

abbrev plain_service : TargetService
plain_service = record {
  id = "api";
  root = "api";
  compose_service = none;
  healthcheck = none;
  kind = "web";
  internal_port = some 8000;
  runtime_endpoints = [];
  request_host = none;
}

-- Of the fallback endpoints only the first is ever used.
fallback_test : allowed_endpoints plain_service ≡ "/health/" ∷ []
unfolding allowed_endpoints unique unique_from
fallback_test = refl

abbrev a_builder : RuntimeServiceMapBuilder ℕ
a_builder = record {
  patterns = unchanged;
  probe = none;
  network_probe = none;
  check_cancelled = λ w. some w;
}

abbrev a_session : SessionState
a_session = record {
  session_id = "s-1";
  session_status = "ready";
  compose_project = some "shop-1";
  items = (("Service", "api") ∷ ("State", "Running") ∷ ("Health", "healthy") ∷ []) ∷ [];
}

abbrev map_of : Option (RuntimeServiceMap × ℕ) → RuntimeServiceMap
map_of (some (m, w)) = m
map_of none = record { session_id = ""; network_name = none; services = []; diagnostics = [] }

abbrev a_map : RuntimeServiceMap
a_map = map_of (build a_builder a_profile a_session 0)

builds_map : build a_builder a_profile a_session 0 ≡ some (a_map, 0)
unfolding build judge_all judge judged_by ready_service is_sandbox_host sandbox_address
    is_service_name compose_readiness text_of readiness_of lookup insert strip lower every_char
builds_map = refl

entries_are_ready_example : All (IsEntry a_builder a_profile a_session) a_map.services
entries_are_ready_example = entries_are_ready a_builder a_profile a_session 0 a_map 0 builds_map

-- a probe that answers at every address
abbrev a_probing : RuntimeServiceMapBuilder ℕ
a_probing = record a_builder {
  probe = some (λ url w. (inr (record { is_up = true; diagnostic = "HTTP probe succeeded" }), w));
}

abbrev quiet_session : SessionState
quiet_session = record a_session { items = [] }

abbrev has_entries : Option (RuntimeServiceMap × ℕ) → Bool
has_entries (some (m, w)) = non_empty m.services
has_entries none = false

probed_entries_test :
    (has_entries (build a_probing a_profile quiet_session 0) ≡ true)
    × (has_entries (build a_builder a_profile quiet_session 0) ≡ false)
unfolding build judge_all judge judged_by ready_service is_sandbox_host sandbox_address
    is_service_name compose_readiness text_of readiness_of lookup insert strip lower every_char
    fallback_probe first_ready probed allowed_endpoints unique unique_from
probed_entries_test = (refl, refl)
