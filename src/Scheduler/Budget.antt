-- ===== src/Scheduler/Budget.antt =====
-- api/scheduler.py (ResourceBudget, ResourceLease): runs share sandboxes, processors and memory.
-- Processors are a float, whose arithmetic is a parameter. Sandboxes and memory are naturals, so the
-- tests for a negative number of them have no counterpart.
pub mod Capacity
use cft_security_agent.Prelude.{
  ℕ, ◌+◌, ◌-◌, String, Bool, true, false, not, ◌&&◌, ◌||◌, Option, some, none, List, ◌∷◌, [], ◌++◌,
  if◌then◌else◌, ltb, leb, ◌⊎◌, inl, inr,
}

-- the float arithmetic of Python: `0.0`, `+`, `-`, `<=` and `<`
pub record Floats (F : Type 0) : Type 0 where
  pub zero : F
  pub add : F → F → F
  pub sub : F → F → F
  pub at_most : F → F → Bool
  pub below : F → F → Bool

pub record ResourceRequest (F : Type 0) : Type 0 where
  pub sandboxes : ℕ
  pub cpu : F
  pub memory_mb : ℕ

-- A lease with its flag `_released`, and whether the budget has taken its request back, which
-- `release` does in a second step, under the lock of the budget.
pub record ResourceLease (F : Type 0) : Type 0 where
  pub request : ResourceRequest F
  pub released : Bool
  pub given_back : Bool

-- the budget, with the leases that it gave out, the latest last, from when their request is counted
pub record ResourceBudget (F : Type 0) : Type 0 where
  pub capacity : ResourceRequest F
  pub used : ResourceRequest F
  pub leases : List (ResourceLease F)

-- what one pass of `acquire` under the condition does
pub data Acquired (F : Type 0) : Type 0 where
  rejected : String → Acquired F
  waits run_cancelled : Acquired F
  leased : ResourceBudget F → Acquired F

module _ {F : Type 0} (float : Floats F) where
  -- `__init__`: the message of the `ValueError`, or the budget
  unfoldable pub new_budget : ResourceRequest F → String ⊎ ResourceBudget F
  new_budget c =
      if ltb c.sandboxes 1 || (float.at_most c.cpu float.zero || ltb c.memory_mb 1)
      then inl "Resource budget values must be positive"
      else inr record {
        capacity = c;
        used = record { sandboxes = 0; cpu = float.zero; memory_mb = 0 };
        leases = [];
      }

  -- `_validate_request`: the message of the `ValueError`
  unfoldable pub request_error : ResourceBudget F → ResourceRequest F → Option String
  request_error b r =
      if float.below r.cpu float.zero
      then some "Resource request cannot be negative"
      else if ltb b.capacity.sandboxes r.sandboxes
          || (float.below b.capacity.cpu r.cpu || ltb b.capacity.memory_mb r.memory_mb)
      then some "Resource request exceeds the global capacity"
      else none

  -- `_fits`
  unfoldable pub fits : ResourceBudget F → ResourceRequest F → Bool
  fits b r =
      leb (b.used.sandboxes + r.sandboxes) b.capacity.sandboxes
      && (float.at_most (float.add b.used.cpu r.cpu) b.capacity.cpu
          && leb (b.used.memory_mb + r.memory_mb) b.capacity.memory_mb)

  abbrev pub with_lease : ResourceBudget F → ResourceRequest F → ResourceBudget F
  with_lease b r = record {
    capacity = b.capacity;
    used = record {
      sandboxes = b.used.sandboxes + r.sandboxes;
      cpu = float.add b.used.cpu r.cpu;
      memory_mb = b.used.memory_mb + r.memory_mb;
    };
    leases = b.leases ++ record { request = r; released = false; given_back = false } ∷ [];
  }

  -- `acquire`, up to the point where it waits, with whether the token is cancelled
  unfoldable pub acquire : ResourceBudget F → ResourceRequest F → Bool → Acquired F
  acquire b r cancelled = elim (request_error b r) [
    | some e ↦ rejected e
    | none ↦
        if cancelled
        then run_cancelled
        else if not (fits b r)
        then waits
        else leased (with_lease b r)
  ]

  -- `max(0.0, value)`, which is the first where the second is no number
  abbrev pub above_zero : F → F
  above_zero value = if float.below float.zero value then value else float.zero

  -- `_release`
  unfoldable pub free :
      ResourceBudget F → ResourceRequest F → List (ResourceLease F) → ResourceBudget F
  free b r leases = record {
    capacity = b.capacity;
    used = record {
      sandboxes = b.used.sandboxes - r.sandboxes;
      cpu = above_zero (float.sub b.used.cpu r.cpu);
      memory_mb = b.used.memory_mb - r.memory_mb;
    };
    leases = leases;
  }

  -- `ResourceLease.release` under the lock of the lease, the one between `before` and `after`: it
  -- sets the flag. A call that finds the flag set does nothing.
  unfoldable pub mark_released :
      ResourceBudget F
      → List (ResourceLease F)
      → ResourceLease F
      → List (ResourceLease F)
      → ResourceBudget F
  mark_released b before lease after = record b {
    leases = before ++ record lease { released = true } ∷ after;
  }

  -- the call of `_release` that follows where the flag was not set
  unfoldable pub take_back :
      ResourceBudget F
      → List (ResourceLease F)
      → ResourceLease F
      → List (ResourceLease F)
      → ResourceBudget F
  take_back b before lease after =
      free b lease.request (before ++ record lease { given_back = true } ∷ after)
