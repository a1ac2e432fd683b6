-- ===== src/Scheduler/Budget/Capacity.antt =====
-- The budget is never exceeded, whatever the order of the calls.
use cft_security_agent.Prelude.{
  ℕ, ◌+◌, ◌-◌, ◌≤◌, ◌≡◌, Bool, true, false, List, ◌∷◌, [], ◌++◌, if◌then◌else◌, arith, refl, inr,
  inl, ap, sym, ◌∙◌, Bool-cases, All, subst,
}
use cft_security_agent.Scheduler.Budget.{
  Floats, ResourceRequest, ResourceLease, ResourceBudget, new_budget, request_error, fits,
  with_lease, leased, acquire, free, mark_released, take_back, above_zero,
}

-- what the leases hold of one resource whose request the budget has not taken back
unfoldable pub held : {F : Type 0} → (ResourceRequest F → ℕ) → List (ResourceLease F) → ℕ
held amount [] = 0
held amount (l ∷ ls) = (if l.given_back then 0 else amount l.request) + held amount ls

-- One section under a lock, by any thread. A call that is rejected, cancelled or waits leaves the
-- budget as it is, and so does the release of a lease whose flag is set.
pub data Step {F : Type 0} (float : Floats F) (b c : ResourceBudget F) : Type 0 where
  acquires :
      (r : ResourceRequest F) (cancelled : Bool)
      → acquire float b r cancelled ≡ leased c
      → Step float b c
  marks :
      (before : List (ResourceLease F)) (lease : ResourceLease F) (after : List (ResourceLease F))
      → b.leases ≡ before ++ lease ∷ after
      → lease.released ≡ false
      → c ≡ mark_released float b before lease after
      → Step float b c
  gives_back :
      (before : List (ResourceLease F)) (lease : ResourceLease F) (after : List (ResourceLease F))
      → b.leases ≡ before ++ lease ∷ after
      → lease.released ≡ true
      → lease.given_back ≡ false
      → c ≡ take_back float b before lease after
      → Step float b c

pub data Reachable {F : Type 0} (float : Floats F) (capacity : ResourceRequest F)
    : ResourceBudget F → Type 0 where
  begin : (b : ResourceBudget F) → new_budget float capacity ≡ inr b → Reachable float capacity b
  next :
      (b c : ResourceBudget F)
      → Reachable float capacity b
      → Step float b c
      → Reachable float capacity c

-- An amount is read from a request by one of the two fields that are integers.
pub data IsResource {F : Type 0} : (ResourceRequest F → ℕ) → Type 0 where
  of_sandboxes : IsResource (λ r. r.sandboxes)
  of_memory : IsResource (λ r. r.memory_mb)

-- What the float arithmetic is known for: taking away what is not negative from a number within a
-- limit leaves one within that limit, where it leaves a positive number.
pub record IsMonotone {F : Type 0} (float : Floats F) : Type 0 where
  pub taken :
      (u r c : F)
      → float.below r float.zero ≡ false
      → float.at_most u c ≡ true
      → float.below float.zero (float.sub u r) ≡ true
      → float.at_most (float.sub u r) c ≡ true

module _ {F : Type 0} (amount : ResourceRequest F → ℕ) where
  held-append :
      (l : ResourceLease F) (xs ys : List (ResourceLease F))
      → held amount (xs ++ l ∷ ys)
        ≡ (if l.given_back then 0 else amount l.request) + held amount (xs ++ ys)
  unfolding held
  held-append l [] ys = refl
  held-append l (x ∷ xs) ys = omega (arith, held-append l xs ys)

  held-nil : (xs : List (ResourceLease F)) → held amount (xs ++ []) ≡ held amount xs
  unfolding held
  held-nil [] = refl
  held-nil (x ∷ xs) = omega (arith, held-nil xs)

-- a property of the lease between two lists, and of all leases with another in its place
All-middle :
    {F : Type 0} (P : ResourceLease F → Type 0) (l : ResourceLease F)
    (xs ys : List (ResourceLease F))
    → All P (xs ++ l ∷ ys)
    → P l × ((m : ResourceLease F) → P m → All P (xs ++ m ∷ ys))
All-middle P l [] ys a = (a.0, λ m p. (p, a.1))
All-middle P l (x ∷ xs) ys a =
    let rest = All-middle P l xs ys (a.1) in (rest.0, λ m p. (a.0, rest.1 m p))

All-last :
    {F : Type 0} (P : ResourceLease F → Type 0) (l : ResourceLease F) (xs : List (ResourceLease F))
    → All P xs
    → P l
    → All P (xs ++ l ∷ [])
All-last P l [] a p = (p, tt)
All-last P l (x ∷ xs) a p = (a.0, All-last P l xs (a.1) p)

module _ {F : Type 0} (float : Floats F) where
  record IsAdditive (amount : ResourceRequest F → ℕ) : Type 0 where
    added :
        (b : ResourceBudget F) (r : ResourceRequest F)
        → amount (with_lease float b r).used ≡ amount b.used + amount r
    taken :
        (b : ResourceBudget F) (r : ResourceRequest F) (ls : List (ResourceLease F))
        → amount (free float b r ls).used ≡ amount b.used - amount r
    fitting :
        (b : ResourceBudget F) (r : ResourceRequest F)
        → fits float b r ≡ true
        → amount b.used + amount r ≤ amount b.capacity
    none_used :
        (c : ResourceRequest F) (b : ResourceBudget F)
        → new_budget float c ≡ inr b
        → (b.capacity ≡ c) × (amount b.used ≡ 0) × (b.leases ≡ [])

  additive : (amount : ResourceRequest F → ℕ) → IsResource amount → IsAdditive amount
  unfolding fits free new_budget
  additive _ of_sandboxes = record {
    added = λ b r. refl;
    taken = λ b r ls. refl;
    fitting = λ b r h. ground (arith, h);
    none_used = λ c b h. ground (arith, h);
  }
  additive _ of_memory = record {
    added = λ b r. refl;
    taken = λ b r ls. refl;
    fitting = λ b r h. ground (arith, h);
    none_used = λ c b h. ground (arith, h);
  }

  abbrev IsNotNegative : ResourceLease F → Type 0
  IsNotNegative l = float.below l.request.cpu float.zero ≡ false

  acquired_budget :
      (b c : ResourceBudget F) (r : ResourceRequest F) (cancelled : Bool)
      → acquire float b r cancelled ≡ leased c
      → (fits float b r ≡ true)
        × (c ≡ with_lease float b r)
        × (float.below r.cpu float.zero ≡ false)
  unfolding acquire request_error
  acquired_budget b c r cancelled h = ground (arith, h)

  fitting_cpu :
      (b : ResourceBudget F) (r : ResourceRequest F)
      → fits float b r ≡ true
      → float.at_most (float.add b.used.cpu r.cpu) b.capacity.cpu ≡ true
  unfolding fits
  fitting_cpu b r h = ground (arith, h)

  new_cpu :
      (c : ResourceRequest F) (b : ResourceBudget F)
      → new_budget float c ≡ inr b
      → b.used.cpu ≡ float.zero
  unfolding new_budget
  new_cpu c b h = ground (arith, h)

module _ {F : Type 0} (float : Floats F) (law : IsMonotone float) (capacity : ResourceRequest F)
    (number : float.at_most float.zero capacity.cpu ≡ true) (amount : ResourceRequest F → ℕ)
    (resource : IsResource amount) where
  -- One resource is what the leases hold, within the capacity, the processors are within theirs, and
  -- no lease asks for a negative number of them.
  record IsBalanced (b : ResourceBudget F) : Type 0 where
    capacity_kept : b.capacity ≡ capacity
    counted : amount b.used ≡ held amount b.leases
    bounded : amount b.used ≤ amount capacity
    cpu_bounded : float.at_most b.used.cpu capacity.cpu ≡ true
    requests : All (IsNotNegative float) b.leases

  acquires-IsBalanced :
      (b c : ResourceBudget F) (r : ResourceRequest F) (cancelled : Bool)
      → IsBalanced b
      → acquire float b r cancelled ≡ leased c
      → IsBalanced c
  acquires-IsBalanced b c r cancelled i h =
      let (fit, new, positive) = acquired_budget float b c r cancelled h in
      let lease : ResourceLease F = record { request = r; released = false; given_back = false } in
      let sums = additive float amount resource in
      subst IsBalanced (sym new) record {
        capacity_kept = i.capacity_kept;
        counted = omega (
          arith,
          i.counted,
          sums.added b r,
          held-append amount lease b.leases [],
          held-nil amount b.leases,
        );
        bounded = omega (arith, sums.added b r, sums.fitting b r fit, ap amount i.capacity_kept);
        cpu_bounded =
            subst
              (λ (q : ResourceRequest F). float.at_most (float.add b.used.cpu r.cpu) q.cpu ≡ true)
              i.capacity_kept (fitting_cpu float b r fit);
        requests = All-last (IsNotNegative float) lease b.leases i.requests positive;
      }

  marks-IsBalanced :
      (b : ResourceBudget F) (before : List (ResourceLease F)) (lease : ResourceLease F)
      (after : List (ResourceLease F))
      → IsBalanced b
      → b.leases ≡ before ++ lease ∷ after
      → IsBalanced (mark_released float b before lease after)
  unfolding mark_released
  marks-IsBalanced b before lease after i e =
      let marked : ResourceLease F = record lease { released = true } in
      let kept =
        All-middle (IsNotNegative float) lease before after
          (subst (λ q. All (IsNotNegative float) q) e i.requests) in
      record {
        capacity_kept = i.capacity_kept;
        counted = omega (
          arith,
          i.counted,
          ap (held amount) e,
          held-append amount lease before after,
          held-append amount marked before after,
        );
        bounded = i.bounded;
        cpu_bounded = i.cpu_bounded;
        requests = kept.1 marked (kept.0);
      }

  above_zero-at_most :
      (u r : F)
      → float.below r float.zero ≡ false
      → float.at_most u capacity.cpu ≡ true
      → float.at_most (above_zero float (float.sub u r)) capacity.cpu ≡ true
  above_zero-at_most u r p h = elim (Bool-cases (float.below float.zero (float.sub u r))) [
    | inl b ↦ rw b (law.taken u r capacity.cpu p h b)
    | inr b ↦ rw b number
  ]

  gives_back-IsBalanced :
      (b : ResourceBudget F) (before : List (ResourceLease F)) (lease : ResourceLease F)
      (after : List (ResourceLease F))
      → IsBalanced b
      → b.leases ≡ before ++ lease ∷ after
      → lease.given_back ≡ false
      → IsBalanced (take_back float b before lease after)
  unfolding take_back free
  gives_back-IsBalanced b before lease after i e unpaid =
      let closed : ResourceLease F = record lease { given_back = true } in
      let taken =
        (additive float amount resource).taken b lease.request (before ++ closed ∷ after) in
      let kept =
        All-middle (IsNotNegative float) lease before after
          (subst (λ q. All (IsNotNegative float) q) e i.requests) in
      record {
        capacity_kept = i.capacity_kept;
        counted = ground (
          arith,
          i.counted,
          ap (held amount) e,
          held-append amount lease before after,
          held-append amount closed before after,
          taken,
          unpaid,
        );
        bounded = ground (arith, i.bounded, taken);
        cpu_bounded = above_zero-at_most b.used.cpu lease.request.cpu (kept.0) i.cpu_bounded;
        requests = kept.1 closed (kept.0);
      }

  Step-IsBalanced : (b c : ResourceBudget F) → Step float b c → IsBalanced b → IsBalanced c
  Step-IsBalanced b c (acquires r cancelled h) i = acquires-IsBalanced b c r cancelled i h
  Step-IsBalanced b c (marks before lease after e f h) i =
      subst IsBalanced (sym h) (marks-IsBalanced b before lease after i e)
  Step-IsBalanced b c (gives_back before lease after e f unpaid h) i =
      subst IsBalanced (sym h) (gives_back-IsBalanced b before lease after i e unpaid)

  Reachable-IsBalanced : (b : ResourceBudget F) → Reachable float capacity b → IsBalanced b
  unfolding held
  Reachable-IsBalanced _ (begin b h) =
      let start = (additive float amount resource).none_used capacity b h in
      record {
        capacity_kept = start.0;
        counted = (start.1) ∙ sym (ap (held amount) (start.2));
        bounded = omega (arith, start.1);
        cpu_bounded =
            subst (λ q. float.at_most q capacity.cpu ≡ true) (sym (new_cpu float capacity b h))
              number;
        requests = subst (λ q. All (IsNotNegative float) q) (sym (start.2)) tt;
      }
  Reachable-IsBalanced _ (next b c r step) = Step-IsBalanced b c step (Reachable-IsBalanced b r)

  -- Where the capacity of processors is at least zero, and taking what is not negative from a float
  -- within a limit leaves one within that limit or none above zero: whatever calls were made on a
  -- budget, and in whatever order their sections under a lock came, what is used of the sandboxes
  -- and of the memory is exactly what the leases hold that were not given back, and never more than
  -- the capacity, and what is used of the processors is never more than their capacity.
  pub budget_holds :
      (b : ResourceBudget F)
      → Reachable float capacity b
      → (amount b.used ≡ held amount b.leases)
        × (amount b.used ≤ amount capacity)
        × (float.at_most b.used.cpu capacity.cpu ≡ true)
  budget_holds b r = let i = Reachable-IsBalanced b r in (i.counted, i.bounded, i.cpu_bounded)
