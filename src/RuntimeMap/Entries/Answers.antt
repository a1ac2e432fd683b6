-- ===== src/RuntimeMap/Entries/Answers.antt =====
-- executor/runtime_service_map.py: when the probes of the builder call a service ready.
use Prim.Native.String.{◌++◌}
use cft_security_agent.Prelude.{
  String, ◌≡◌, ◌⊎◌, inl, inr, refl, true, false, Option, some, none, List, [], ◌∷◌, arith,
  Bool-cases, Option-cases, text_eq, if◌then◌else◌, subst, In,
}
use cft_security_agent.Schemas.Target.{TargetService}
use cft_security_agent.RuntimeMap.{
  RuntimeServiceMapBuilder, ProbeResult, first_ready, fallback_probe, probe_result, over_network,
  injected, no_endpoint,
}

module _ {W : Type 0} (builder : RuntimeServiceMapBuilder W) (network : Option String) where
  -- Asked for the URL in the state of the world, the probe of the builder answers that the service is
  -- up: the injected one, or where there is none, the network probe in the trusted network.
  abbrev pub Answers : String → Option String → W → Type 0
  Answers url host w =
      ((probe : String → W → (String ⊎ ProbeResult) × W) × (r : ProbeResult) × (builder.probe
          ≡ some probe)
        × ((probe url w).0 ≡ inr r)
        × (r.is_up ≡ true))
      ⊎ ((probe : String → String → Option String → W → ProbeResult × W) × (name : String)
          × (builder.probe ≡ none)
          × (builder.network_probe ≡ some probe)
          × (network ≡ some name)
          × ((probe name url host w).0.is_up ≡ true))

  -- a probe of one of the endpoints answers
  abbrev pub IsAnswered : TargetService → String → List String → Type 0
  IsAnswered service address endpoints =
      (endpoint : String) × (w : W) × In endpoint endpoints
      × Answers (address ++ endpoint) service.request_host w

  first_ready-answer :
      (try : String → W → ProbeResult × W) (endpoints : List String) (last : ProbeResult) (w : W)
      → last.is_up ≡ false
      → (first_ready builder try endpoints last w).0.is_up ≡ true
      → (endpoint : String) × (w' : W) × In endpoint endpoints × ((try endpoint w').0.is_up ≡ true)
  unfolding first_ready
  first_ready-answer try [] last w e h = absurd (ground arith)
  first_ready-answer try (endpoint ∷ rest) last w e h = elim (Bool-cases (try endpoint w).0.is_up) [
    | inl b ↦ (endpoint, w, inl refl, b)
    | inr b ↦
        let (found, w', k, up) =
          first_ready-answer try rest (try endpoint w).0 (try endpoint w).1 b (
            subst
              (λ q.
                (if q
                  then try endpoint w
                  else first_ready builder try rest (try endpoint w).0 (try endpoint w).1).0.is_up
                ≡ true)
              b h) in
        (found, w', inr k, up)
  ]

  probe_result-is_up :
      (o : String ⊎ ProbeResult)
      → (probe_result builder o).is_up ≡ true
      → (r : ProbeResult) × (o ≡ inr r) × (r.is_up ≡ true)
  probe_result-is_up (inl message) h = absurd (ground arith)
  probe_result-is_up (inr r) h = (r, refl, h)

  over_network-IsAnswered :
      (probe : Option (String → String → Option String → W → ProbeResult × W))
      (name : Option String) (service : TargetService) (address : String) (endpoints : List String)
      (w : W)
      → builder.probe ≡ none
      → builder.network_probe ≡ probe
      → network ≡ name
      → (over_network builder probe name address service.request_host endpoints w).0.is_up ≡ true
      → IsAnswered service address endpoints
  over_network-IsAnswered none name service address endpoints w n p e h = absurd (ground arith)
  over_network-IsAnswered (some probe) none service address endpoints w n p e h =
      absurd (ground arith)
  over_network-IsAnswered (some probe) (some name) service address endpoints w n p e h =
      let (endpoint, w', k, up) =
        first_ready-answer (λ endpoint. probe name (address ++ endpoint) service.request_host)
          endpoints _ w refl h in
      (endpoint, w', k, inr (probe, name, n, p, e, up))

  pub fallback_probe-IsAnswered :
      (service : TargetService) (address : String) (endpoints : List String) (w : W)
      → (fallback_probe builder network address service.request_host endpoints w).0.is_up ≡ true
      → IsAnswered service address endpoints
  unfolding fallback_probe
  fallback_probe-IsAnswered service address endpoints w h = elim (Option-cases builder.probe) [
    | inl e ↦
        over_network-IsAnswered builder.network_probe network service address endpoints w e refl
          refl (rw (fallback_probe, e) at h)
    | inr (probe, e) ↦
        let (endpoint, w', k, up) =
          first_ready-answer (injected builder probe address) endpoints (no_endpoint builder) w refl
            (rw (fallback_probe, e) at h) in
        let (r, same, b) = probe_result-is_up (probe (address ++ endpoint) w').0 up in
        (endpoint, w', k, inl (probe, r, e, same, b))
  ]
