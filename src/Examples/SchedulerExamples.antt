-- ===== src/Examples/SchedulerExamples.antt =====
-- The scheduler and its budget at concrete inputs.
use cft_security_agent.Prelude.{
  ℕ, ◌+◌, ◌-◌, Bool, List, leb, ltb, arith, ◌≤◌, ◌≡◌, true, false, some, ◌∷◌, [], refl, inr, lookup,
  insert, is_some,
}
use cft_security_agent.Scheduler.Budget.{
  Floats, ResourceRequest, ResourceLease, ResourceBudget, new_budget, acquire, leased,
  request_error, fits, mark_released, take_back, free,
}
use cft_security_agent.Scheduler.Budget.Capacity as Budget
use cft_security_agent.Scheduler.Budget.Capacity.{held, of_sandboxes, budget_holds, IsMonotone}
use cft_security_agent.Scheduler.Queue.{
  RunScheduler, new_scheduler, register_run, enqueue, take_job,
}
use cft_security_agent.Scheduler.Queue.Once as Queue
use cft_security_agent.Scheduler.Queue.Once.{places, one, run_in_one_place}

-- naturals in the place of floats
abbrev plain_numbers : Floats ℕ
plain_numbers = record {
  zero = 0;
  add = λ x y. x + y;
  sub = λ x y. x - y;
  at_most = λ x y. leb x y;
  below = λ x y. ltb x y;
}

plain_numbers-IsMonotone : IsMonotone plain_numbers
plain_numbers-IsMonotone = record { taken = λ u r c p h b. ground (arith, h) }

abbrev two_sandboxes : ResourceRequest ℕ
two_sandboxes = record { sandboxes = 2; cpu = 2; memory_mb = 1024 }

abbrev one_sandbox : ResourceRequest ℕ
one_sandbox = record { sandboxes = 1; cpu = 1; memory_mb = 512 }

abbrev a_lease : Bool → Bool → ResourceLease ℕ
a_lease released given_back = record {
  request = one_sandbox;
  released = released;
  given_back = given_back;
}

abbrev nothing_used : ResourceRequest ℕ
nothing_used = record { sandboxes = 0; cpu = 0; memory_mb = 0 }

abbrev a_budget : ResourceRequest ℕ → List (ResourceLease ℕ) → ResourceBudget ℕ
a_budget used leases = record { capacity = two_sandboxes; used = used; leases = leases }

abbrev all_free : ResourceBudget ℕ
all_free = a_budget nothing_used []

abbrev one_leased : ResourceBudget ℕ
one_leased = a_budget one_sandbox (a_lease false false ∷ [])

abbrev one_marked : ResourceBudget ℕ
one_marked = a_budget one_sandbox (a_lease true false ∷ [])

abbrev free_again : ResourceBudget ℕ
free_again = a_budget nothing_used (a_lease true true ∷ [])

opened : new_budget plain_numbers two_sandboxes ≡ inr all_free
unfolding new_budget
opened = refl

lease_taken : acquire plain_numbers all_free one_sandbox false ≡ leased one_leased
unfolding acquire request_error fits
lease_taken = refl

lease_marked : one_marked ≡ mark_released plain_numbers one_leased [] (a_lease false false) []
unfolding mark_released
lease_marked = refl

lease_closed : free_again ≡ take_back plain_numbers one_marked [] (a_lease true false) []
unfolding take_back free
lease_closed = refl

budget_holds_example :
    (free_again.used.sandboxes ≡ held (λ r. r.sandboxes) free_again.leases)
    × (free_again.used.sandboxes ≤ 2)
    × (leb free_again.used.cpu 2 ≡ true)
budget_holds_example =
    budget_holds plain_numbers plain_numbers-IsMonotone two_sandboxes refl (λ r. r.sandboxes)
      of_sandboxes free_again
      (Budget.next one_marked free_again
        (Budget.next one_leased one_marked
          (Budget.next all_free one_leased (Budget.begin all_free opened)
            (Budget.acquires one_sandbox false lease_taken))
          (Budget.marks [] _ [] refl refl lease_marked))
        (Budget.gives_back [] _ [] refl refl refl lease_closed))

abbrev idle : RunScheduler
idle = record {
  workers = 1;
  accepting = true;
  tokens = [];
  registered = [];
  queue = [];
  running = [];
}

abbrev one_registered : RunScheduler
one_registered = record {
  workers = 1;
  accepting = true;
  tokens = ("run-1", false) ∷ [];
  registered = "run-1" ∷ [];
  queue = [];
  running = [];
}

abbrev one_queued : RunScheduler
one_queued = record {
  workers = 1;
  accepting = true;
  tokens = ("run-1", false) ∷ [];
  registered = [];
  queue = some "run-1" ∷ [];
  running = [];
}

abbrev one_running : RunScheduler
one_running = record {
  workers = 1;
  accepting = true;
  tokens = ("run-1", false) ∷ [];
  registered = [];
  queue = [];
  running = "run-1" ∷ [];
}

started : new_scheduler 1 ≡ inr idle
unfolding new_scheduler
started = refl

run_registered : register_run idle "run-1" ≡ inr one_registered
unfolding register_run lookup insert
run_registered = refl

run_queued : one_queued ≡ enqueue one_registered [] "run-1" []
unfolding enqueue
run_queued = refl

run_taken : one_running ≡ take_job one_queued "run-1" []
unfolding take_job lookup
run_taken = refl

run_in_one_place_example :
    places one_running "run-1" ≡ one (is_some (lookup "run-1" one_running.tokens))
run_in_one_place_example = run_in_one_place 1 one_running "run-1" (
    Queue.next one_queued one_running
      (Queue.next one_registered one_queued
        (Queue.next idle one_registered (Queue.begin idle started)
          (Queue.registers "run-1" run_registered))
        (Queue.enqueues [] "run-1" [] refl run_queued))
      (Queue.takes "run-1" [] refl run_taken))
