-- ===== src/Executor/Runner/Sequence.antt =====
-- What a completed run says of its actions.
use mathlib.Core.Option.{some-injective}
use cft_security_agent.Prelude.{
  ℕ, suc, ◌≤◌, ◌≡◌, String, Bool, true, false, List, ◌∷◌, [], Option, some, none, arith, Bool-cases,
  inl, inr, refl, sym, ap, ◌∙◌, subst, All, all, length, ltb, if◌then◌else◌, ◌||◌, is_some, ◌≢◌,
  lookup, text_eq, Option-cases,
}
use cft_security_agent.Schemas.Action.{ActionProposal}
use cft_security_agent.Schemas.Execution.{ExecutionResult, is_completed, denied}
use cft_security_agent.Schemas.Target.{RuntimeService, RuntimeServiceMap}
use cft_security_agent.Executor.Policy.{endpoint_of}
use cft_security_agent.Executor.Approvals.{check}
use cft_security_agent.Executor.Runner.{
  SandboxRunner, SandboxActionResult, SandboxRunResult, runner_error, refused_action, result_from,
  session_of, Progress, put_first, continue_with, take_turn, run_actions, has_completed, run_status,
  with_results, closed, run, first_refusal, allows, is_sandbox_address, service_problem, service_in,
  runtime_problem,
}

-- The action asks for a service of the map, at an endpoint that the map allows it, and the service
-- has an address inside the sandbox.
abbrev pub IsReachable : Option RuntimeServiceMap → Option String → ActionProposal → Type 0
IsReachable runtime contract action =
    (m : RuntimeServiceMap) × (name : String) × (s : RuntimeService) × (runtime ≡ some m)
    × (action.service ≡ some name)
    × (lookup name m.services ≡ some s)
    × (allows s.allowed_endpoints contract action.endpoint ≡ true)
    × (is_sandbox_address s.address ≡ true)

service_problem-none :
    (o : Option RuntimeService) (contract endpoint : Option String)
    → service_problem o contract endpoint ≡ none
    → (s : RuntimeService) × (o ≡ some s)
      × (allows s.allowed_endpoints contract endpoint ≡ true)
      × (is_sandbox_address s.address ≡ true)
unfolding service_problem
service_problem-none none contract endpoint h = absurd (ground (arith, h))
service_problem-none (some s) contract endpoint h = (s, refl, ground arith, ground arith)

service_in-some :
    (runtime : Option RuntimeServiceMap) (name : Option String) (s : RuntimeService)
    → service_in runtime name ≡ some s
    → (m : RuntimeServiceMap) × (n : String) × (runtime ≡ some m)
      × (name ≡ some n)
      × (lookup n m.services ≡ some s)
service_in-some none name s h = absurd (ground (arith, h))
service_in-some (some m) none s h = absurd (ground (arith, h))
service_in-some (some m) (some n) s h = (m, n, refl, refl, h)

runtime_problem-none :
    (runtime : Option RuntimeServiceMap) (contract : Option String) (action : ActionProposal)
    → runtime_problem runtime contract action ≡ none
    → (is_some action.endpoint || is_some action.service) ≡ true
    → IsReachable runtime contract action
unfolding runtime_problem
runtime_problem-none runtime contract action h scoped =
    let (s, e, a, i) =
      service_problem-none (service_in runtime action.service) contract action.endpoint
        (ground arith) in
    let (m, n, r, v, l) = service_in-some runtime action.service s e in (m, n, s, r, v, l, a, i)

module _ {S : Type 0} (runner : SandboxRunner S) (runtime : Option RuntimeServiceMap)
    (action : ActionProposal) where
  -- What the runner found before it ran the action: it is approved as it stands, its tool is
  -- registered, a command asks for no service, an HTTP observation has one, and a service that is
  -- asked for is reachable.
  pub record IsChecked : Type 0 where
    pub approved : (check runner.digest action runner.approvals).0 ≡ true
    pub contract : Option String
    pub registered : endpoint_of runner.registry action.tool ≡ some contract
    pub command :
        action.tool ≡ "sandbox_command" → (action.service ≡ none) × (action.endpoint ≡ none)
    pub observation :
        action.tool ≡ "observe_http_surface" → (action.service ≢ none) × (action.endpoint ≢ none)
    pub reachable :
        (is_some action.endpoint || is_some action.service) ≡ true
        → IsReachable runtime contract action

  runner_error-IsChecked : runner_error runner runtime action ≡ none → IsChecked
  unfolding runner_error
  runner_error-IsChecked h = elim (Option-cases (endpoint_of runner.registry action.tool)) [
    | inl e ↦ absurd (ground (arith, e))
    | inr (contract, e) ↦
        let problem : runtime_problem runtime contract action ≡ none = ground (arith, e) in
        record {
          approved = ground arith;
          contract = contract;
          registered = e;
          command = λ t. ground (arith, e, (text_eq.same_iff action.tool "sandbox_command").1 t);
          observation =
              λ t. ground (arith, e, (text_eq.same_iff action.tool "observe_http_surface").1 t);
          reachable = runtime_problem-none runtime contract action problem;
        }
  ]

module _ {S : Type 0} (runner : SandboxRunner S) (runtime : Option RuntimeServiceMap)
    (deny_fails : (a : ActionProposal) (reason : String) (late : Bool)
      → is_completed (runner.deny_one a reason late).status ≡ false) where
  -- the action was reached in time and passed the checks of the runner
  abbrev pub WasChecked : ℕ × ActionProposal → Type 0
  WasChecked (elapsed, action) =
      (elapsed ≤ runner.sequence_timeout) × IsChecked runner runtime action

  abbrev Ran : List (ℕ × ActionProposal) → List SandboxActionResult → Type 0
  Ran actions results = All WasChecked actions × (length results ≡ length actions)

  put_first_inv :
      (r : SandboxActionResult) (p : Progress runner runtime) (rs : List SandboxActionResult)
      → (put_first runner runtime r p).0 ≡ some rs
      → (rest : List SandboxActionResult) × (p.0 ≡ some rest) × (r ∷ rest ≡ rs)
  put_first_inv r (none, t) rs h = ground (arith, h)
  put_first_inv r (some rest, t) rs h = (rest, refl, some-injective _ _ h)

  -- a completed sequence has the rest of it behind its first result
  continue_with_inv :
      (action : ActionProposal) (later : S → Progress runner runtime)
      (x : Option ExecutionResult × S) (rs : List SandboxActionResult)
      → (continue_with runner runtime action later x).0 ≡ some rs
      → all (has_completed runner runtime) rs ≡ true
      → (s : S) × (rest : List SandboxActionResult) × ((later s).0 ≡ some rest)
        × (all (has_completed runner runtime) rest ≡ true)
        × (length rs ≡ suc (length rest))
  unfolding continue_with
  continue_with_inv action later (none, s) rs h c = ground (arith, h)
  continue_with_inv action later (some e, s) rs h c = elim (Bool-cases (is_completed e.status)) [
    | inl b ↦
        let first = result_from runner runtime (session_of runner runtime runtime) action e in
        let inv = put_first_inv first (later s) rs (
          subst
            (λ q.
              (if q then put_first runner runtime first (later s) else (some (first ∷ []), s)).0
              ≡ some rs)
            b h) in
        (
          s,
          inv.0,
          inv.1,
          ground (arith, ap (all (has_completed runner runtime)) (inv.2), c, b),
          ap length (sym (inv.2)),
        )
    | inr b ↦
        let first = result_from runner runtime (session_of runner runtime runtime) action e in
        let only =
          subst
            (λ q.
              (if q then put_first runner runtime first (later s) else (some (first ∷ []), s)).0
              ≡ some rs)
            b h in
        absurd
          (ground (arith, ap (all (has_completed runner runtime)) (some-injective _ _ only), c, b))
  ]

  refused_fails :
      (a : ActionProposal) (reason : String) (late : Bool)
      → all (has_completed runner runtime) (refused_action runner runtime a reason late ∷ [])
        ≡ false
  unfolding refused_action
  refused_fails a reason late = ground (arith, deny_fails a reason late)

  refused_result :
      (a : ActionProposal) (reason : String) (late : Bool) (rs : List SandboxActionResult)
      → Path
          (Option (List SandboxActionResult))
          (some (refused_action runner runtime a reason late ∷ []))
          (some rs)
      → all (has_completed runner runtime) rs ≡ false
  refused_result a reason late rs h =
      subst (λ q. all (has_completed runner runtime) q ≡ false) (some-injective _ _ h)
        (refused_fails a reason late)

  take_turn_inv :
      (action : ActionProposal) (later : S → Progress runner runtime) (s : S) (late : Bool)
      (error : Option String) (rs : List SandboxActionResult)
      → (take_turn runner runtime action later s late error).0 ≡ some rs
      → all (has_completed runner runtime) rs ≡ true
      → (late ≡ false)
        × (error ≡ none)
        × ((t : S) × (rest : List SandboxActionResult) × ((later t).0 ≡ some rest)
            × (all (has_completed runner runtime) rest ≡ true)
            × (length rs ≡ suc (length rest)))
  unfolding take_turn
  take_turn_inv action later s true error rs h c =
      absurd (ground (arith, refused_result action _ true rs h, c))
  take_turn_inv action later s false (some reason) rs h c =
      absurd (ground (arith, refused_result action reason false rs h, c))
  take_turn_inv action later s false none rs h c =
      (refl, refl, continue_with_inv action later _ rs h c)

  run_actions-Ran :
      (actions : List (ℕ × ActionProposal)) (s : S) (rs : List SandboxActionResult)
      → (run_actions runner runtime actions s).0 ≡ some rs
      → all (has_completed runner runtime) rs ≡ true
      → Ran actions rs
  unfolding run_actions
  run_actions-Ran [] s rs h c = (tt, ap length (sym (some-injective _ _ h)))
  run_actions-Ran ((elapsed, action) ∷ rest) s rs h c =
      let turn = take_turn_inv action (run_actions runner runtime rest) s _ _ rs h c in
      let tail = run_actions-Ran rest (turn.2.0) (turn.2.1) (turn.2.2) (turn.2.3) in
      (
        ((ground (arith, turn.0), runner_error-IsChecked runner runtime action (turn.1)), tail.0),
        turn.2.4 ∙ ap suc (tail.1),
      )

  run_status_completed :
      (rs : List SandboxActionResult)
      → is_completed (run_status runner runtime rs) ≡ true
      → all (has_completed runner runtime) rs ≡ true
  unfolding run_status
  run_status_completed rs h = ground (arith, h)

  closed-Ran :
      (run_id : String) (actions : List (ℕ × ActionProposal)) (p : Progress runner runtime)
      (r : SandboxRunResult)
      → ((rs : List SandboxActionResult)
          → p.0 ≡ some rs
          → all (has_completed runner runtime) rs ≡ true
          → Ran actions rs)
      → (closed runner runtime run_id p).0 ≡ some r
      → is_completed r.status ≡ true
      → Ran actions r.results
  unfolding run_status
  closed-Ran run_id actions (none, s) r f h c = ground (arith, h)
  closed-Ran run_id actions (some rs, s) r f h c =
      let same = some-injective _ _ h in
      subst (λ q. Ran actions q.results) same
        (f rs refl
          (run_status_completed rs (subst (λ q. is_completed q.status ≡ true) (sym same) c)))

  pub completed_run_checked :
      (run_id : String) (actions : List (ℕ × ActionProposal)) (s : S) (r : SandboxRunResult)
      → (run runner runtime run_id actions s).0 ≡ some r
      → is_completed r.status ≡ true
      → (length actions ≤ runner.max_actions)
        × (length r.results ≡ length actions)
        × All WasChecked actions
  unfolding run
  completed_run_checked run_id actions s r h c =
      let refused =
        with_results runner runtime run_id denied (first_refusal runner runtime actions) in
      let ended = closed runner runtime run_id (run_actions runner runtime actions s) in
      elim (Bool-cases (ltb runner.max_actions (length actions))) [
        | inl b ↦
            let only = subst (λ q. (if q then (some refused, s) else ended).0 ≡ some r) b h in
            absurd (ground (arith, ap (λ q. is_completed q.status) (some-injective _ _ only), c))
        | inr b ↦
            let only = subst (λ q. (if q then (some refused, s) else ended).0 ≡ some r) b h in
            let ran =
              closed-Ran run_id actions (run_actions runner runtime actions s) r
                (run_actions-Ran actions s) only c in
            (ground (arith, b), ran.1, ran.0)
      ]
