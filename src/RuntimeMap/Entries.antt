-- ===== src/RuntimeMap/Entries.antt =====
-- What the entries of the map are.
pub mod Healthy
pub mod Answers
use Prim.Native.String.{◌++◌}
use cft_security_agent.Prelude.{
  String, ◌≡◌, ◌⊎◌, inl, inr, refl, sym, Bool, true, false, Option, some, none, List, [], ◌∷◌, All,
  Some, insert, arith, Bool-cases, Option-cases, text_eq, ◌==◌, if◌then◌else◌, subst, ap, ◌∙◌, In,
  lookup, lower, ◌≢◌,
}
use cft_security_agent.Schemas.Target.{
  TargetService, TargetProfile, RuntimeService, RuntimeServiceMap, ReadinessSource, compose_health,
  http_probe,
}
use cft_security_agent.RuntimeMap.Compose.{
  ComposeItem, ComposeReadiness, trusted_network, compose_readiness, sandbox_address,
  allowed_endpoints, host_of, name_in, state_in, health_in, item_readiness, readiness_of, noted,
  noted_item,
}
use cft_security_agent.RuntimeMap.{
  RuntimeServiceMapBuilder, SessionState, ProbeResult, Judgement, ready_service, probed, judged_by,
  judged_at, judge, entered, judge_all, build, is_sandbox_host, probe_for, with_judgement,
  first_ready, fallback_probe, probe_result, over_network, injected, no_endpoint,
}
use cft_security_agent.RuntimeMap.Entries.Healthy.{
  Some-map, IsHealthy, AllHealthy, compose_readiness-AllHealthy, no_readings,
}
use cft_security_agent.RuntimeMap.Entries.Answers.{IsAnswered, fallback_probe-IsAnswered}

All-insert :
    (P : String × RuntimeService → Type 0) (key : String) (s : RuntimeService)
    (m : List (String × RuntimeService))
    → All P m
    → P (key, s)
    → All P (insert key s m)
unfolding insert
All-insert P key s [] a p = (p, tt)
All-insert P key s ((k, t) ∷ m) a p = elim (Bool-cases (k == key)) [
  | inl e ↦ rw e (p, a.1)
  | inr e ↦ rw e (a.0, All-insert P key s m (a.1) p)
]

module _ {W : Type 0} (builder : RuntimeServiceMapBuilder W) (network : Option String)
    (items : List ComposeItem) where
  -- Compose says that the host of the service is healthy, or a probe answers at one of its
  -- endpoints, and the entry names which of both.
  abbrev pub IsBacked : TargetService → RuntimeService → Type 0
  IsBacked service s =
      ((s.readiness_source ≡ compose_health) × Some (IsHealthy (host_of service)) items)
      ⊎ ((s.readiness_source ≡ http_probe)
          × IsAnswered builder network service s.address s.allowed_endpoints)

  -- The entry is ready with a reason, its address is that of the service and not this machine, and
  -- its endpoints are those of the service.
  pub record IsEntryOf (service : TargetService) (s : RuntimeService) : Type 0 where
    pub marked : s.ready ≡ true
    pub address : sandbox_address service ≡ inr s.address
    pub host : lower (host_of service) ≢ "localhost"
    pub endpoints : s.allowed_endpoints ≡ allowed_endpoints service
    pub backed : IsBacked service s

  abbrev Said : TargetService → Option Judgement → Type 0
  Said service none = Unit
  Said service (some (inl s)) = IsEntryOf service s
  Said service (some (inr d)) = Unit

  either-Said :
      (service : TargetService) (b : Bool) (x y : Option Judgement)
      → (b ≡ true → Said service x)
      → Said service y
      → Said service (if b then x else y)
  either-Said service true x y p q = p refl
  either-Said service false x y p q = q

  ready_service-Said :
      (service : TargetService) (address diagnostic : String) (source : ReadinessSource)
      → sandbox_address service ≡ inr address
      → ((source ≡ compose_health) × Some (IsHealthy (host_of service)) items)
        ⊎ ((source ≡ http_probe)
            × IsAnswered builder network service address (allowed_endpoints service))
      → Said service (ready_service service address (allowed_endpoints service) source diagnostic)
  unfolding ready_service is_sandbox_host
  ready_service-Said service address diagnostic source e b =
      either-Said service (is_sandbox_host (host_of service)) _ none
        (λ k. record {
          marked = refl;
          address = e;
          host = ground (arith, k, text_eq.same_iff (lower (host_of service)) "localhost");
          endpoints = refl;
          backed = b;
        })
        tt

  probe_for-Said :
      (service : TargetService) (address prefix : String) (w : W)
      → sandbox_address service ≡ inr address
      → Said service
          (probe_for builder network service address (allowed_endpoints service) prefix w).0
  unfolding probed
  probe_for-Said service address prefix w e =
      let r =
        (fallback_probe builder network address service.request_host (allowed_endpoints service)
          w).0 in
      either-Said service r.is_up _ _
        (λ b. ready_service-Said service address (prefix ++ r.diagnostic) http_probe e (
          inr (
            refl,
            fallback_probe-IsAnswered builder network service address (allowed_endpoints service) w
                b,
          )))
        tt

  either_first :
      (service : TargetService) (b : Bool) (x y : Option Judgement × W)
      → (b ≡ true → Said service (x.0))
      → Said service (y.0)
      → Said service ((if b then x else y).0)
  either_first service true x y p q = p refl
  either_first service false x y p q = q

  judged_by-Said :
      (service : TargetService) (address : String) (o : Option ComposeReadiness) (w : W)
      → sandbox_address service ≡ inr address
      → ((r : ComposeReadiness)
          → o ≡ some r
          → r.is_ready ≡ true
          → Some (IsHealthy (host_of service)) items)
      → Said service (judged_by builder network service address (allowed_endpoints service) o w).0
  unfolding judged_by
  judged_by-Said service address none w e k = probe_for-Said service address "" w e
  judged_by-Said service address (some r) w e k =
      either_first service r.is_ready _ _
        (λ b.
          ready_service-Said service address r.diagnostic compose_health e (inl (refl, k r refl b)))
        (either_first service (r.diagnostic == "Compose health is starting") _ _
          (λ b. probe_for-Said service address (r.diagnostic ++ "; ") w e) tt)

  judged_at-Said :
      (readiness : List (String × ComposeReadiness)) (service : TargetService) (o : String ⊎ String)
      (w : W)
      → AllHealthy items readiness
      → sandbox_address service ≡ o
      → Said service (judged_at builder network readiness service o w).0
  judged_at-Said readiness service (inl message) w a e = tt
  judged_at-Said readiness service (inr address) w a e =
      judged_by-Said service address (lookup (host_of service) readiness) w e (a (host_of service))

  judge-Said :
      (readiness : List (String × ComposeReadiness)) (service : TargetService) (w : W)
      → AllHealthy items readiness
      → Said service (judge builder network readiness service w).0
  unfolding judge
  judge-Said readiness service w a =
      judged_at-Said readiness service (sandbox_address service) w a refl

module _ {W : Type 0} (builder : RuntimeServiceMapBuilder W) (profile : TargetProfile)
    (session : SessionState) where
  -- The entry stands under the id of a service of the profile, of which it is the entry.
  abbrev pub IsEntry : String × RuntimeService → Type 0
  IsEntry (id, s) =
      Some
        (λ (p : String × TargetService).
          (p.1.id ≡ id)
          × IsEntryOf builder (trusted_network session.compose_project) session.items (p.1) s)
        profile.services

  entered-IsEntry :
      (service : TargetService) (j : Judgement) (m : RuntimeServiceMap)
      → Some (λ (p : String × TargetService). p.1 ≡ service) profile.services
      → Said builder (trusted_network session.compose_project) session.items service (some j)
      → All IsEntry m.services
      → All IsEntry (entered service.id j m).services
  entered-IsEntry service (inr d) m k h a = a
  entered-IsEntry service (inl s) m k h a = All-insert IsEntry service.id s m.services a (
      Some-map profile.services
        (λ p e.
          subst
            (λ v.
              (v.id ≡ service.id)
              × IsEntryOf builder (trusted_network session.compose_project) session.items v s)
            (sym e) (refl, h))
        k)

  abbrev Known : List (String × TargetService) → Type 0
  Known rest =
      All
        (λ (q : String × TargetService).
          Some (λ (p : String × TargetService). p.1 ≡ q.1) profile.services)
        rest

  abbrev Entries : Option (RuntimeServiceMap × W) → Type 0
  Entries none = Unit
  Entries (some (m, w)) = All IsEntry m.services

  with_judgement-Entries :
      (service : TargetService) (m : RuntimeServiceMap) (round : Option Judgement × W)
      (next : RuntimeServiceMap → W → Option (RuntimeServiceMap × W))
      → Some (λ (p : String × TargetService). p.1 ≡ service) profile.services
      → Said builder (trusted_network session.compose_project) session.items service (round.0)
      → All IsEntry m.services
      → ((m' : RuntimeServiceMap) (w : W) → All IsEntry m'.services → Entries (next m' w))
      → Entries (with_judgement builder (λ j w. next (entered service.id j m) w) round)
  with_judgement-Entries service m (none, w) next k h a f = tt
  with_judgement-Entries service m (some j, w) next k h a f =
      f (entered service.id j m) w (entered-IsEntry service j m k h a)

  judge_all-IsEntry :
      (readiness : List (String × ComposeReadiness)) (rest : List (String × TargetService))
      (m : RuntimeServiceMap) (w : W)
      → AllHealthy session.items readiness
      → Known rest
      → All IsEntry m.services
      → Entries (judge_all builder (trusted_network session.compose_project) readiness rest m w)
  unfolding judge_all
  judge_all-IsEntry readiness [] m w r k a = a
  judge_all-IsEntry readiness ((key, service) ∷ rest) m w r k a =
      elim (Option-cases (builder.check_cancelled w)) [
        | inl e ↦ rw e tt
        | inr (w1, e) ↦ rw e (
            with_judgement-Entries service m
              (judge builder (trusted_network session.compose_project) readiness service w1)
              (λ m' w'.
                judge_all builder (trusted_network session.compose_project) readiness rest m' w')
              (k.0)
              (judge-Said builder (trusted_network session.compose_project) session.items readiness
                service w1 r)
              a (λ m' w' a'. judge_all-IsEntry readiness rest m' w' r (k.1) a'))
      ]

known :
    {A : Type 0} (all rest : List A)
    → All (λ (q : A). Some (λ (p : A). p ≡ q) all) rest
    → (s : A) → All (λ (q : A). Some (λ (p : A). p ≡ q) (s ∷ all)) rest
known all [] h s = tt
known all (r ∷ rest) h s = (inr (h.0), known all rest (h.1) s)

all_known : {A : Type 0} (all : List A) → All (λ (q : A). Some (λ (p : A). p ≡ q) all) all
all_known [] = tt
all_known (s ∷ all) = (inl refl, known all all (all_known all) s)

same_services :
    (all rest : List (String × TargetService))
    → All (λ (q : String × TargetService). Some (λ (p : String × TargetService). p ≡ q) all) rest
    → All
        (λ (q : String × TargetService). Some (λ (p : String × TargetService). p.1 ≡ q.1) all)
        rest
same_services all [] h = tt
same_services all (q ∷ rest) h = (
  Some-map all (λ p e. ap (λ (x : String × TargetService). x.1) e) (h.0),
  same_services all rest (h.1),
)

module _ {W : Type 0} (builder : RuntimeServiceMapBuilder W) (profile : TargetProfile)
    (session : SessionState) (w : W) where
  build-Entries : Entries builder profile session (build builder profile session w)
  unfolding build
  build-Entries = elim (Bool-cases (session.session_status == "ready")) [
    | inl e ↦ rw e (
        judge_all-IsEntry builder profile session (compose_readiness session.items [])
          profile.services _ w
          (compose_readiness-AllHealthy session.items session.items [] (all_known session.items)
            (no_readings session.items))
          (same_services profile.services profile.services (all_known profile.services)) tt)
    | inr e ↦ rw e tt
  ]

  -- Every entry of the map that is built stands under the id of a service of the profile, has the
  -- address and the endpoints of that service, whose host is not `localhost`, and is marked as
  -- ready for a reason that it names: an item of the session says that the host runs and is
  -- healthy, or the probe of the builder answered at one of the endpoints under the address.
  pub entries_are_ready :
      (m : RuntimeServiceMap) (w' : W)
      → build builder profile session w ≡ some (m, w')
      → All (IsEntry builder profile session) m.services
  entries_are_ready m w' h = subst (λ o. Entries builder profile session o) h build-Entries
