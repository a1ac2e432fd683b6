-- ===== src/Executor/Attempt/Admission.antt =====
-- What reaches the sandbox.
use mathlib.Core.Path.{subst₂}
use mathlib.Core.Option.{some-injective}
use cft_security_agent.Prelude.{
  ◌<◌, String, Bool, true, false, not, ◌&&◌, ◌∷◌, [], Option, some, none, ◌≡◌, ◌≢◌, subst, ◌⊎◌, ◌↔◌,
  arith, Option-cases, Bool-cases, ap, sym, ◌∙◌, inl, inr, refl, lookup, contains, text_eq, nat_eq,
}
use cft_security_agent.Schemas.Action.{ActionProposal}
use cft_security_agent.Schemas.Target.{TargetProfile}
use cft_security_agent.Validator.Parameters.{Parameters}
use cft_security_agent.Executor.Policy.{get, validate_target_environment}
use cft_security_agent.Executor.Approvals.{check}
use cft_security_agent.Executor.Limiter.{RunLimiter, acquire, runs_of}
use cft_security_agent.Executor.Attempt.Permits.{has_room, acquire_iff}
use cft_security_agent.Executor.Capabilities.{
  network_access, repository_access, Checked, accepted, refused, raised, NetworkAccess, Handler,
}
use cft_security_agent.Executor.Attempt.{SafeExecutor, SandboxRequest, build_request, is_command}
use cft_security_agent.Executor.Attempt.Flow.{
  execute_one, with_target, with_parameters, after_grant, sent,
}

-- the parameters that were accepted
abbrev parameters_of : Parameters → Checked → Parameters
parameters_of default (accepted ps) = ps
parameters_of default _ = default

module _ (ex : SafeExecutor) (action : ActionProposal) (run_id : String)
    (session_id : Option String) (l : RunLimiter) where
  -- the request is sent, where it can be built
  sent_iff :
      (taken : RunLimiter) (o : Option SandboxRequest) (r : SandboxRequest)
      → ((sent ex action run_id session_id taken o).requests ≡ r ∷ []) ↔ (o ≡ some r)
  unfolding sent
  sent_iff taken none r = ground arith
  sent_iff taken (some q) r = ground arith

  -- What the two tables and the request of a capability come to.
  pub record IsBuilt (target : TargetProfile) (ps : Parameters) (r : SandboxRequest) : Type 0 where
    pub network : NetworkAccess
    pub repository : Bool
    pub reach : lookup action.tool network_access ≡ some network
    pub files : lookup action.tool repository_access ≡ some repository
    pub built : build_request ex action run_id target network repository ps ≡ some r

  after_grant_iff :
      (taken : RunLimiter) (target : TargetProfile) (ps : Parameters) (r : SandboxRequest)
      → ((after_grant ex action run_id session_id taken target ps).requests ≡ r ∷ [])
        ↔ IsBuilt target ps r
  unfolding after_grant
  after_grant_iff taken target ps r = elim (Option-cases (lookup action.tool network_access)) [
    | inl e ↦ rw (after_grant, e) (λ h. ground arith, λ b. ground (arith, e, b.reach))
    | inr e ↦ elim (Option-cases (lookup action.tool repository_access)) [
      | inl f ↦ rw (after_grant, e.1, f) (λ h. ground arith, λ b. ground (arith, f, b.files))
      | inr f ↦
          rw (after_grant, e.1, f.1)
            (
              λ h. record {
                network = e.0;
                repository = f.0;
                reach = e.1;
                files = f.1;
                built = (sent_iff taken _ r).0 h;
              },
              λ b. (sent_iff taken _ r).1 (
                  subst₂ (λ n m. build_request ex action run_id target n m ps ≡ some r)
                    (some-injective _ _ (sym (b.reach) ∙ e.1))
                    (some-injective _ _ (sym (b.files) ∙ f.1)) b.built),
            )
    ]
  ]

  -- The parameters that a handler accepts, and the room that the limiter has for the run.
  pub record IsRunnable (target : TargetProfile) (c : Checked) (r : SandboxRequest) : Type 0 where
    pub parameters : Parameters
    pub checked : c ≡ accepted parameters
    pub runs_left : runs_of l action.id < l.max_runs_per_action
    pub permit_left : 0 < l.permits
    pub request : IsBuilt target parameters r

  accepted-injective : (ps qs : Parameters) → accepted ps ≡ accepted qs → ps ≡ qs
  accepted-injective ps qs h = ap (parameters_of ps) h

  with_parameters_iff :
      (target : TargetProfile) (c : Checked) (r : SandboxRequest)
      → ((with_parameters ex action run_id session_id l target c).requests ≡ r ∷ [])
        ↔ IsRunnable target c r
  unfolding with_parameters
  with_parameters_iff target (refused m) r = (λ h. ground arith, λ h. ground (arith, h.checked))
  with_parameters_iff target raised r = (λ h. ground arith, λ h. ground (arith, h.checked))
  with_parameters_iff target (accepted ps) r = elim (Bool-cases (has_room l action.id)) [
    | inl e ↦
        rw (acquire_iff l action.id, e)
          (
            λ h. record {
              parameters = ps;
              checked = refl;
              runs_left = ground (arith, e);
              permit_left = ground (arith, e);
              request = (after_grant_iff (acquire l action.id).1 target ps r).0 h;
            },
            λ h. (after_grant_iff (acquire l action.id).1 target ps r).1 (
                subst (λ p. IsBuilt target p r) (sym (accepted-injective ps h.parameters h.checked))
                  h.request),
          )
    | inr e ↦
        rw (acquire_iff l action.id, e)
          (λ h. ground arith, λ h. ground (arith, e, h.runs_left, h.permit_left))
  ]

  -- The conditions of an action whose approval and target are checked.
  pub record IsServed (target : TargetProfile) (r : SandboxRequest) : Type 0 where
    pub environment : contains target.environment ex.policy.allowed_environments ≡ true
    pub handler : Handler
    pub registered : get ex.registry action.tool ≡ some handler
    pub boundary : (action.tool ≢ "sandbox_command") ⊎ (ex.is_docker_sandbox ≡ true)
    pub runnable : IsRunnable target (handler action.parameters) r

  environment_iff :
      (target : TargetProfile)
      → (validate_target_environment ex.policy target.environment ≡ none)
        ↔ (contains target.environment ex.policy.allowed_environments ≡ true)
  unfolding validate_target_environment
  environment_iff target = ground arith

  boundary_iff :
      ((is_command action.tool && not ex.is_docker_sandbox) ≡ false)
      ↔ ((action.tool ≢ "sandbox_command") ⊎ (ex.is_docker_sandbox ≡ true))
  boundary_iff = ground (arith, text_eq.same_iff action.tool "sandbox_command")

  with_target_iff :
      (target : TargetProfile) (r : SandboxRequest)
      → ((with_target ex action run_id session_id l target).requests ≡ r ∷ []) ↔ IsServed target r
  unfolding with_target
  with_target_iff target r =
      elim (Option-cases (validate_target_environment ex.policy target.environment)) [
        | inr e ↦
            rw (with_target, e.1)
              (λ h. ground arith, λ h. ground (arith, e.1, environment_iff target, h.environment))
        | inl e ↦ elim (Option-cases (get ex.registry action.tool)) [
          | inl f ↦ rw (with_target, e, f) (λ h. ground arith, λ h. ground (arith, f, h.registered))
          | inr f ↦ elim (Bool-cases (is_command action.tool && not ex.is_docker_sandbox)) [
            | inl b ↦
                rw (with_target, e, f.1, b)
                  (λ h. ground arith, λ h. ground (arith, b, boundary_iff, h.boundary))
            | inr b ↦
                rw (with_target, e, f.1, b)
                  (
                    λ h. record {
                      environment = (environment_iff target).0 e;
                      handler = f.0;
                      registered = f.1;
                      boundary = boundary_iff.0 b;
                      runnable = (with_parameters_iff target (f.0 action.parameters) r).0 h;
                    },
                    λ h. (with_parameters_iff target (f.0 action.parameters) r).1 (
                        subst (λ g. IsRunnable target (g action.parameters) r)
                          (some-injective _ _ (sym (h.registered) ∙ f.1)) h.runnable),
                  )
          ]
        ]
      ]

  -- What lets an action into the sandbox, and the request that it sends.
  pub record IsAdmitted (r : SandboxRequest) : Type 0 where
    pub approved : (check ex.digest action ex.approvals).0 ≡ true
    pub target : TargetProfile
    pub known : lookup action.target ex.targets ≡ some target
    pub served : IsServed target r

  -- An attempt sends the request r to the sandbox, and only it, exactly when the stored approval
  -- has the digest of this very action, its target is registered and in an allowed environment,
  -- the tool is registered and, for a command, the sandbox is Docker's, the tool's handler accepts
  -- the parameters, the action has a run and the limiter a permit left, and r is the request
  -- built from these.
  pub sandbox_iff_IsAdmitted :
      (r : SandboxRequest)
      → ((execute_one ex action run_id session_id l).requests ≡ r ∷ []) ↔ IsAdmitted r
  unfolding execute_one
  sandbox_iff_IsAdmitted r = elim (Bool-cases (check ex.digest action ex.approvals).0) [
    | inr e ↦ rw (execute_one, e) (λ h. ground arith, λ h. ground (arith, e, h.approved))
    | inl e ↦ elim (Option-cases (lookup action.target ex.targets)) [
      | inl f ↦ rw (execute_one, e, f) (λ h. ground arith, λ h. ground (arith, f, h.known))
      | inr f ↦
          rw (execute_one, e, f.1)
            (
              λ h. record {
                approved = e;
                target = f.0;
                known = f.1;
                served = (with_target_iff f.0 r).0 h;
              },
              λ h.
                  (with_target_iff f.0 r).1
                    (subst (λ t. IsServed t r) (some-injective _ _ (sym (h.known) ∙ f.1)) h.served),
            )
    ]
  ]
