-- ===== src/Scheduler/Queue.antt =====
-- api/scheduler.py (RunScheduler) and the token of pipeline/cancellation.py: a queue of runs, in
-- the order of their submission, that worker threads take.
pub mod Once
use Prim.Native.String.{◌++◌}
use mathlib.Core.List
use cft_security_agent.Prelude.{
  ℕ, zero, suc, String, Bool, true, false, not, Option, some, none, List, ◌∷◌, [], if◌then◌else◌,
  ◌⊎◌, inl, inr, lookup, insert, remove, is_some, or_default, map,
}

-- `tokens` holds for each run whether its CancellationToken is set. The token of a job is the one
-- of its run, since an entry is only removed by the worker of that job. `None` in the queue ends a
-- worker. `registered` are the runs whose `submit` has not put them into the queue yet, `running`
-- those whose callback a worker has called.
pub record RunScheduler : Type 0 where
  pub workers : ℕ
  pub accepting : Bool
  pub tokens : List (String × Bool)
  pub registered : List String
  pub queue : List (Option String)
  pub running : List String

unfoldable pub new_scheduler : ℕ → String ⊎ RunScheduler
new_scheduler zero = inl "workers must be positive"
new_scheduler (suc n) = inr record {
  workers = suc n;
  accepting = true;
  tokens = [];
  registered = [];
  queue = [];
  running = [];
}

-- `submit`, under the lock: the message of the `RuntimeError` or the `ValueError`, or the new state
unfoldable pub register_run : RunScheduler → String → String ⊎ RunScheduler
register_run s run_id =
    if not s.accepting
    then inl "Run scheduler is closed"
    else if is_some (lookup run_id s.tokens)
    then inl ("Run is already scheduled: " ++ run_id)
    else inr record {
      workers = s.workers;
      accepting = true;
      tokens = insert run_id false s.tokens;
      registered = run_id ∷ s.registered;
      queue = s.queue;
      running = s.running;
    }

-- `submit`, after the lock, for the run between `before` and `after`
unfoldable pub enqueue : RunScheduler → List String → String → List String → RunScheduler
enqueue s before run_id after = record {
  workers = s.workers;
  accepting = s.accepting;
  tokens = s.tokens;
  registered = List.◌++◌ before after;
  queue = List.◌++◌ s.queue (some run_id ∷ []);
  running = s.running;
}

abbrev with_tokens : RunScheduler → List (String × Bool) → RunScheduler
with_tokens s tokens = record {
  workers = s.workers;
  accepting = s.accepting;
  tokens = tokens;
  registered = s.registered;
  queue = s.queue;
  running = s.running;
}

unfoldable pub cancel : RunScheduler → String → Bool × RunScheduler
cancel s run_id =
    if is_some (lookup run_id s.tokens)
    then (true, with_tokens s (insert run_id true s.tokens))
    else (false, s)

abbrev pub set_token : String × Bool → String × Bool
set_token (run_id, cancelled) = (run_id, true)

unfoldable pub sentinels : ℕ → List (Option String)
sentinels zero = []
sentinels (suc n) = none ∷ sentinels n

unfoldable pub close : RunScheduler → RunScheduler
close s = if not s.accepting then s else record {
  workers = s.workers;
  accepting = false;
  tokens = map set_token s.tokens;
  registered = s.registered;
  queue = List.◌++◌ s.queue (sentinels s.workers);
  running = s.running;
}

-- `_worker` takes the job at the head: a cancelled one is dropped, any other is called
unfoldable pub take_job : RunScheduler → String → List (Option String) → RunScheduler
take_job s run_id rest =
    let cancelled = or_default (lookup run_id s.tokens) false in
    record {
      workers = s.workers;
      accepting = s.accepting;
      tokens = if cancelled then remove run_id s.tokens else s.tokens;
      registered = s.registered;
      queue = rest;
      running = if cancelled then s.running else run_id ∷ s.running;
    }

-- the `finally` of `_worker`, after the callback of a run has returned or raised
unfoldable pub finish_job : RunScheduler → List String → String → List String → RunScheduler
finish_job s before run_id after = record {
  workers = s.workers;
  accepting = s.accepting;
  tokens = remove run_id s.tokens;
  registered = s.registered;
  queue = s.queue;
  running = List.◌++◌ before after;
}

-- `_worker` takes a `None` and ends
unfoldable pub end_worker : RunScheduler → List (Option String) → RunScheduler
end_worker s rest = record {
  workers = s.workers;
  accepting = s.accepting;
  tokens = s.tokens;
  registered = s.registered;
  queue = rest;
  running = s.running;
}
