-- ===== src/Agent/Planning/Scope.antt =====
-- What an approved plan is confined to.
use cft_security_agent.Prelude.{
  ℕ, ◌≤◌, String, ◌≡◌, ◌≢◌, ◌⊎◌, true, false, Option, some, none, List, [], ◌∷◌, arith, subst, sym,
  text_eq, All, lookup, length, any, ltb, ◌<◌, ◌↔◌, contains, size, is_some, all, Option-cases, inl,
  inr,
}
use cft_security_agent.Schemas.Action.{Value, text, Items, no_items, item, texts_of, ActionProposal}
use cft_security_agent.Schemas.Target.{TargetProfile, RuntimeService, RuntimeServiceMap}
use cft_security_agent.Agent.Planning.{
  sandbox_command_error, argv_error, service_error, step_error, scope_error, keys_are,
  is_lab_directory, items_of, item_count, total_size, is_plain,
}

-- A lab command: one to 32 plain texts within the size limits, in one of the two directories.
abbrev pub IsCommand : Option (List String) → Type 0
IsCommand none = ⊥
IsCommand (some argv) =
    (0 < length argv)
    × (length argv ≤ 32)
    × (all is_plain argv ≡ true)
    × All (λ s. size s ≤ 1024) argv
    × (total_size argv ≤ 8192)

abbrev pub IsArgv : Option Items → Type 0
IsArgv none = ⊥
IsArgv (some items) = IsCommand (texts_of items)

abbrev pub AllowsEndpoint : Option String → List String → Type 0
AllowsEndpoint none allowed = Unit
AllowsEndpoint (some e) allowed = contains e allowed ≡ true

abbrev pub IsReady : Option RuntimeService → Option String → Type 0
IsReady none endpoint = ⊥
IsReady (some r) endpoint = (r.ready ≡ true) × AllowsEndpoint endpoint r.allowed_endpoints

abbrev pub IsRunning : Option RuntimeServiceMap → String → Option String → Type 0
IsRunning none service endpoint = ⊥
IsRunning (some m) service endpoint = IsReady (lookup service m.services) endpoint

-- No service and no endpoint, or a service of the profile that runs and allows the endpoint.
abbrev pub IsServed :
    TargetProfile → Option RuntimeServiceMap → Option String → Option String → Type 0
IsServed profile runtime none none = Unit
IsServed profile runtime none (some e) = ⊥
IsServed profile runtime (some service) endpoint =
    (is_some (lookup service profile.services) ≡ true) × IsRunning runtime service endpoint

service_error_iff :
    (profile : TargetProfile) (runtime : Option RuntimeServiceMap) (service : Option String)
    (endpoint : Option String)
    → (scope_error profile runtime service endpoint ≡ none)
      ↔ IsServed profile runtime service endpoint
unfolding service_error
service_error_iff profile runtime none none = ground arith
service_error_iff profile runtime none (some e) = ground arith
service_error_iff profile none (some s) endpoint = ground arith
service_error_iff profile (some m) (some s) endpoint = elim (Option-cases (lookup s m.services)) [
  | inl e ↦ rw e (ground arith)
  | inr r ↦ rw (r.1) (ground arith)
]

any_long_iff :
    (argv : List String)
    → (any (λ s. ltb 1024 (size s)) argv ≡ false) ↔ All (λ s. size s ≤ 1024) argv
any_long_iff [] = ground arith
any_long_iff (s ∷ ss) = ground (arith, any_long_iff ss)

item_count-texts_of :
    (items : Items) (argv : List String)
    → texts_of items ≡ some argv
    → item_count items ≡ length argv
item_count-texts_of no_items argv h = ground arith
item_count-texts_of (item (text s) rest) argv h = elim (Option-cases (texts_of rest)) [
  | inl e ↦ ground arith
  | inr r ↦ ground (arith, item_count-texts_of rest r.0 r.1)
]
item_count-texts_of (item _ rest) argv h = ground arith

argv_error_iff : (items : Items) → (argv_error items ≡ none) ↔ IsCommand (texts_of items)
unfolding argv_error
argv_error_iff items = elim (Option-cases (texts_of items)) [
  | inl e ↦ rw e (ground arith)
  | inr r ↦ rw (r.1) (ground (arith, item_count-texts_of items r.0 r.1, any_long_iff r.0))
]

-- The parameters of a lab command: the two keys, a command, and one of the two directories.
pub record IsLabCommand (parameters : List (String × Value)) : Type 0 where
  pub keys : keys_are ("argv" ∷ "cwd" ∷ []) parameters ≡ true
  pub argv : IsArgv (items_of (lookup "argv" parameters))
  pub cwd :
      (lookup "cwd" parameters ≡ some (text "/target"))
      ⊎ (lookup "cwd" parameters ≡ some (text "/workspace"))

is_lab_directory_iff :
    (v : Option Value)
    → (is_lab_directory v ≡ true) ↔ ((v ≡ some (text "/target")) ⊎ (v ≡ some (text "/workspace")))
is_lab_directory_iff (some (text s)) =
    ground (arith, text_eq.same_iff s "/target", text_eq.same_iff s "/workspace")
is_lab_directory_iff none = ground arith
is_lab_directory_iff (some _) = ground arith

sandbox_command_error_iff :
    (parameters : List (String × Value))
    → (sandbox_command_error parameters ≡ none) ↔ IsLabCommand parameters
unfolding sandbox_command_error
sandbox_command_error_iff parameters = elim (Option-cases (items_of (lookup "argv" parameters))) [
  | inl e ↦ (
    λ h. ground (arith, is_lab_directory_iff (lookup "cwd" parameters)),
    λ h. absurd (subst IsArgv e h.argv),
  )
  | inr r ↦ (
    λ h. record {
      keys = ground (arith, is_lab_directory_iff (lookup "cwd" parameters));
      argv =
          subst IsArgv (sym (r.1)) (
            (argv_error_iff r.0).0
              (ground (arith, is_lab_directory_iff (lookup "cwd" parameters))));
      cwd = ground (arith, is_lab_directory_iff (lookup "cwd" parameters));
    },
    λ h. ground (
      arith,
      is_lab_directory_iff (lookup "cwd" parameters),
      (argv_error_iff r.0).1 (subst IsArgv (r.1) h.argv),
    ),
  )
]

-- Either a lab command without network scope, or an action whose service runs.
pub record InScope (profile : TargetProfile) (runtime : Option RuntimeServiceMap) (expected : ℕ)
    (a : ActionProposal) : Type 0 where
  pub in_order : a.iteration ≡ expected
  pub on_target : a.target ≡ profile.id
  pub in_environment : a.environment ≡ profile.environment
  pub confined :
      ((a.tool ≡ "sandbox_command")
        × (a.service ≡ none)
        × (a.endpoint ≡ none)
        × IsLabCommand a.parameters)
      ⊎ ((a.tool ≢ "sandbox_command") × IsServed profile runtime a.service a.endpoint)

pub step_error_iff :
    (profile : TargetProfile) (runtime : Option RuntimeServiceMap) (expected : ℕ)
    (a : ActionProposal)
    → (step_error profile runtime expected a ≡ none) ↔ InScope profile runtime expected a
unfolding step_error
step_error_iff profile runtime expected a = ground (
  arith,
  text_eq.same_iff a.target profile.id,
  text_eq.same_iff a.environment profile.environment,
  text_eq.same_iff a.tool "sandbox_command",
  sandbox_command_error_iff a.parameters,
  service_error_iff profile runtime a.service a.endpoint,
)
