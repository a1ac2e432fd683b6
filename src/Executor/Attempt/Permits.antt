-- ===== src/Executor/Attempt/Permits.antt =====
-- What an attempt leaves in the limiter.
use cft_security_agent.Prelude.{
  ℕ, ◌+◌, ◌-◌, ◌≤◌, String, Bool, true, ◌&&◌, Option, ◌≡◌, arith, Option-cases, Bool-cases, ap, ◌∙◌,
  inl, inr, refl, lookup, ltb, ◌==◌, text_eq, nat_eq, if◌then◌else◌,
}
use cft_security_agent.Schemas.Action.{ActionProposal}
use cft_security_agent.Schemas.Target.{TargetProfile}
use cft_security_agent.Validator.Parameters.{Parameters}
use cft_security_agent.Executor.Policy.{get, validate_target_environment}
use cft_security_agent.Executor.Limiter.{
  RunLimiter, acquire, release, reserve, take_permit, give_back, runs_of, with_count, with_permits,
}
use cft_security_agent.Executor.Limiter.Threads.{runs_of-with_count}
use cft_security_agent.Executor.Capabilities.{Checked, accepted, refused, raised}
use cft_security_agent.Executor.Attempt.{SafeExecutor}
use cft_security_agent.Executor.Attempt.Flow.{
  execute_one, with_target, with_parameters, after_grant, sent,
}

-- an action may run once more
abbrev pub has_room : RunLimiter → String → Bool
has_room l action_id = ltb (runs_of l action_id) l.max_runs_per_action && ltb 0 l.permits

pub acquire_iff : (l : RunLimiter) (a : String) → (acquire l a).0.0 ≡ has_room l a
unfolding acquire reserve take_permit
acquire_iff l a = ground (arith, nat_eq.same_iff l.permits 0)

acquire-permits :
    (l : RunLimiter) (a : String)
    → (acquire l a).1.permits ≡ (if has_room l a then l.permits - 1 else l.permits)
unfolding acquire reserve take_permit give_back
acquire-permits l a = ground (arith, nat_eq.same_iff l.permits 0)

runs_of-with_permits :
    (l : RunLimiter) (n : ℕ) (a : String) → runs_of (with_permits l n) a ≡ runs_of l a
unfolding runs_of
runs_of-with_permits l n a = refl

pub acquire-runs_of :
    (l : RunLimiter) (a b : String)
    → runs_of (acquire l a).1 b ≡ (if a == b && has_room l a then runs_of l b + 1 else runs_of l b)
unfolding acquire reserve take_permit give_back
acquire-runs_of l a b =
    let n = runs_of l a + 1 in
    ground (
      arith,
      text_eq.same_iff a b,
      runs_of-with_count l a b (runs_of l a),
      runs_of-with_count l a b n,
      runs_of-with_count l a a n,
      runs_of-with_permits (with_count l a n) (l.permits - 1) b,
      runs_of-with_count (with_count l a n) a b (runs_of (with_count l a n) a - 1),
    )

acquire-concurrent :
    (l : RunLimiter) (a : String) → (acquire l a).1.max_concurrent_runs ≡ l.max_concurrent_runs
unfolding acquire reserve take_permit give_back
acquire-concurrent l a = ground arith

module _ (ex : SafeExecutor) (action : ActionProposal) (run_id : String)
    (session_id : Option String) (l : RunLimiter) where
  after_grant-limiter :
      (taken : RunLimiter) (target : TargetProfile) (ps : Parameters)
      → (after_grant ex action run_id session_id taken target ps).limiter ≡ release taken
  unfolding after_grant sent
  after_grant-limiter taken target ps = ground arith

  module _ (sound : l.permits ≤ l.max_concurrent_runs) where
    released-permits :
        has_room l action.id ≡ true → (release (acquire l action.id).1).permits ≡ l.permits
    unfolding release
    released-permits h = ground (arith, acquire-permits l action.id, acquire-concurrent l action.id)

    with_parameters-permits :
        (target : TargetProfile) (c : Checked)
        → (with_parameters ex action run_id session_id l target c).limiter.permits ≡ l.permits
    unfolding with_parameters
    with_parameters-permits target (refused message) = refl
    with_parameters-permits target raised = refl
    with_parameters-permits target (accepted ps) = elim (Bool-cases (has_room l action.id)) [
      | inl e ↦
          rw (acquire_iff l action.id, e)
            ((ap (λ (r : RunLimiter). r.permits)
                (after_grant-limiter (acquire l action.id).1 target ps))
              ∙ released-permits e)
      | inr e ↦ rw (acquire_iff l action.id, e) (ground (arith, acquire-permits l action.id, e))
    ]

    with_target-permits :
        (target : TargetProfile)
        → (with_target ex action run_id session_id l target).limiter.permits ≡ l.permits
    unfolding with_target
    with_target-permits target =
        elim (Option-cases (validate_target_environment ex.policy target.environment)) [
          | inl e ↦ elim (Option-cases (get ex.registry action.tool)) [
            | inl f ↦ rw (with_target, e, f) refl
            | inr f ↦
                rw (with_target, e, f.1)
                  (ground (arith, with_parameters-permits target (f.0 action.parameters)))
          ]
          | inr e ↦ rw (with_target, e.1) refl
        ]

    -- Every attempt gives back the permit that it took: after it, whatever its end, an exception of
    -- the sandbox included, as many runs may start as before it.
    pub permits_restored : (execute_one ex action run_id session_id l).limiter.permits ≡ l.permits
    unfolding execute_one
    permits_restored = elim (Option-cases (lookup action.target ex.targets)) [
      | inl e ↦ rw (execute_one, e) (ground arith)
      | inr e ↦ rw (execute_one, e.1) (ground (arith, with_target-permits e.0))
    ]
