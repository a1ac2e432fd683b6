-- ===== src/Executor/Limiter.antt =====
-- executor/sandbox.py (RunLimiter): how often an action runs, and how many run at once.
pub mod Threads
use Prim.Native.String.{◌++◌}
use cft_security_agent.Prelude.{
  ℕ, suc, ◌+◌, ◌-◌, String, Bool, true, false, Option, some, none, List, ◌∷◌, [], ltb, leb, ◌==◌,
  text_eq, nat_eq, if◌then◌else◌, lookup, insert, or_default, show,
}

-- `permits` is the value of the bounded semaphore, which starts at `max_concurrent_runs`.
pub record RunLimiter : Type 0 where
  pub max_runs_per_action : ℕ
  pub max_concurrent_runs : ℕ
  pub action_counts : List (String × ℕ)
  pub permits : ℕ

unfoldable pub new_limiter : ℕ → ℕ → RunLimiter
new_limiter max_runs max_concurrent = record {
  max_runs_per_action = max_runs;
  max_concurrent_runs = max_concurrent;
  action_counts = [];
  permits = max_concurrent;
}

-- `_action_counts[action_id]`, 0 where the key is missing
unfoldable pub runs_of : RunLimiter → String → ℕ
runs_of l action_id = or_default (lookup action_id l.action_counts) 0

abbrev pub with_count : RunLimiter → String → ℕ → RunLimiter
with_count l action_id n = record {
  max_runs_per_action = l.max_runs_per_action;
  max_concurrent_runs = l.max_concurrent_runs;
  action_counts = insert action_id n l.action_counts;
  permits = l.permits;
}

abbrev pub with_permits : RunLimiter → ℕ → RunLimiter
with_permits l n = record {
  max_runs_per_action = l.max_runs_per_action;
  max_concurrent_runs = l.max_concurrent_runs;
  action_counts = l.action_counts;
  permits = n;
}

-- the first section under the lock: `none` where the action has used up its runs
unfoldable pub reserve : RunLimiter → String → Option RunLimiter
reserve l action_id =
    if leb l.max_runs_per_action (runs_of l action_id)
    then none
    else some (with_count l action_id (runs_of l action_id + 1))

-- `_semaphore.acquire(blocking=False)`
unfoldable pub take_permit : RunLimiter → Option RunLimiter
take_permit l = if l.permits == 0 then none else some (with_permits l (l.permits - 1))

-- the second section under the lock, which gives the count back
unfoldable pub give_back : RunLimiter → String → RunLimiter
give_back l action_id = with_count l action_id (runs_of l action_id - 1)

-- `acquire`, by one thread without another between its sections
unfoldable pub acquire : RunLimiter → String → (Bool × String) × RunLimiter
acquire l action_id = elim (reserve l action_id) [
  | none ↦ (
    (
      false,
      "Action run limit reached: action '"
          ++ (action_id
              ++ ("' reached max execution limit (" ++ (show l.max_runs_per_action ++ ")"))),
    ),
    with_count l action_id (runs_of l action_id),
  )
  | some reserved ↦ elim (take_permit reserved) [
    | none ↦
        ((false, "Concurrent run limit reached. Action blocked."), give_back reserved action_id)
    | some taken ↦ ((true, ""), taken)
  ]
]

-- A bounded semaphore raises an error above its initial value, which the source ignores.
unfoldable pub release : RunLimiter → RunLimiter
release l = if ltb l.permits l.max_concurrent_runs then with_permits l (l.permits + 1) else l
