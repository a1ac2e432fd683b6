-- ===== src/Executor/Limiter/Threads.antt =====
-- Threads that share one RunLimiter: each section under its lock is one step, in any order.
use cft_security_agent.Prelude.{
  occurrences, occurrences-append, ℕ, suc, ◌+◌, ◌-◌, ◌≤◌, String, ◌≡◌, refl, some, none, List, ◌∷◌,
  [], ◌++◌, ◌==◌, text_eq, nat_eq, if◌then◌else◌, lookup, lookup-insert, arith, ap,
}
use cft_security_agent.Executor.Limiter.{
  RunLimiter, new_limiter, runs_of, with_count, with_permits, reserve, take_permit, give_back,
  release,
}

-- `waiting` are the actions of threads between the two sections of `acquire`, `granted` those of
-- every call that returned true so far, and `active` counts those that were not released.
pub record Threads : Type 0 where
  pub limiter : RunLimiter
  pub waiting : List String
  pub granted : List String
  pub active : ℕ

pub data Step (s t : Threads) : Type 0 where
  reserves :
      (a : String)
      → reserve s.limiter a ≡ some t.limiter
      → t.waiting ≡ a ∷ s.waiting
      → t.granted ≡ s.granted
      → t.active ≡ s.active
      → Step s t
  is_granted :
      (a : String) (before after : List String)
      → take_permit s.limiter ≡ some t.limiter
      → s.waiting ≡ before ++ a ∷ after
      → t.waiting ≡ before ++ after
      → t.granted ≡ a ∷ s.granted
      → t.active ≡ suc s.active
      → Step s t
  is_refused :
      (a : String) (before after : List String)
      → take_permit s.limiter ≡ none
      → t.limiter ≡ give_back s.limiter a
      → s.waiting ≡ before ++ a ∷ after
      → t.waiting ≡ before ++ after
      → t.granted ≡ s.granted
      → t.active ≡ s.active
      → Step s t
  releases :
      t.limiter ≡ release s.limiter
      → t.waiting ≡ s.waiting
      → t.granted ≡ s.granted
      → s.active ≡ suc t.active
      → Step s t

abbrev pub start : ℕ → ℕ → Threads
start max_runs max_concurrent = record {
  limiter = new_limiter max_runs max_concurrent;
  waiting = [];
  granted = [];
  active = 0;
}

pub data Reachable (m c : ℕ) : Threads → Type 0 where
  begin : Reachable m c (start m c)
  next : (s t : Threads) → Reachable m c s → Step s t → Reachable m c t

-- Every count is that of the threads it stands for, and the permits are those not in use.
record IsBalanced (m c : ℕ) (s : Threads) : Type 0 where
  runs : s.limiter.max_runs_per_action ≡ m
  concurrent : s.limiter.max_concurrent_runs ≡ c
  counted : (a : String) → runs_of s.limiter a ≡ occurrences a s.waiting + occurrences a s.granted
  bounded : (a : String) → runs_of s.limiter a ≤ m
  permits : s.limiter.permits + s.active ≡ c

pub runs_of-with_count :
    (l : RunLimiter) (a b : String) (n : ℕ)
    → runs_of (with_count l a n) b ≡ (if a == b then n else runs_of l b)
unfolding runs_of
runs_of-with_count l a b n =
    rw (lookup-insert a b n l.action_counts) (ground (arith, text_eq.same_iff a b))

start-IsBalanced : (m c : ℕ) → IsBalanced m c (start m c)
unfolding new_limiter runs_of occurrences lookup
start-IsBalanced m c = record {
  runs = refl;
  concurrent = refl;
  counted = λ a. refl;
  bounded = λ a. ground arith;
  permits = ground arith;
}

reserve-some :
    (l l' : RunLimiter) (a : String)
    → reserve l a ≡ some l'
    → (suc (runs_of l a) ≤ l.max_runs_per_action) × (l' ≡ with_count l a (runs_of l a + 1))
unfolding reserve
reserve-some l l' a h = ground arith

take_permit-some :
    (l l' : RunLimiter)
    → take_permit l ≡ some l'
    → (1 ≤ l.permits) × (l' ≡ with_permits l (l.permits - 1))
unfolding take_permit
take_permit-some l l' h = ground (arith, nat_eq.same_iff l.permits 0)

module _ (m c : ℕ) (s t : Threads) where
  reserves-IsBalanced :
      (a : String)
      → IsBalanced m c s
      → reserve s.limiter a ≡ some t.limiter
      → t.waiting ≡ a ∷ s.waiting
      → t.granted ≡ s.granted
      → t.active ≡ s.active
      → IsBalanced m c t
  unfolding occurrences
  reserves-IsBalanced a h e w g n =
      let r = reserve-some s.limiter t.limiter a e in
      record {
        runs = rw (r.1) h.runs;
        concurrent = rw (r.1) h.concurrent;
        counted = λ b.
            rw (r.1, w, g, runs_of-with_count s.limiter a b (runs_of s.limiter a + 1))
              (ground (arith, h.counted a, h.counted b, text_eq.same_iff a b));
        bounded = λ b.
            rw (r.1, runs_of-with_count s.limiter a b (runs_of s.limiter a + 1))
              (ground (arith, h.bounded b, h.runs, r.0));
        permits = rw (r.1, n) h.permits;
      }

  granted-IsBalanced :
      (a : String) (before after : List String)
      → IsBalanced m c s
      → take_permit s.limiter ≡ some t.limiter
      → s.waiting ≡ before ++ a ∷ after
      → t.waiting ≡ before ++ after
      → t.granted ≡ a ∷ s.granted
      → t.active ≡ suc s.active
      → IsBalanced m c t
  unfolding occurrences runs_of
  granted-IsBalanced a before after h e w w' g n =
      let r = take_permit-some s.limiter t.limiter e in
      record {
        runs = rw (r.1) h.runs;
        concurrent = rw (r.1) h.concurrent;
        counted = λ b.
            rw (r.1, w', g)
              (omega
                (arith, h.counted b, ap (occurrences b) w, occurrences-append b a before after));
        bounded = λ b. rw (r.1) (h.bounded b);
        permits = rw (r.1, n) (omega (arith, h.permits, r.0));
      }

  refused-IsBalanced :
      (a : String) (before after : List String)
      → IsBalanced m c s
      → t.limiter ≡ give_back s.limiter a
      → s.waiting ≡ before ++ a ∷ after
      → t.waiting ≡ before ++ after
      → t.granted ≡ s.granted
      → t.active ≡ s.active
      → IsBalanced m c t
  unfolding occurrences give_back
  refused-IsBalanced a before after h e w w' g n = record {
    runs = rw e h.runs;
    concurrent = rw e h.concurrent;
    counted = λ b.
        rw (e, w', g, runs_of-with_count s.limiter a b (runs_of s.limiter a - 1))
          (ground (
            arith,
            text_eq.same_iff a b,
            h.counted a,
            h.counted b,
            ap (occurrences a) w,
            ap (occurrences b) w,
            occurrences-append b a before after,
            occurrences-append a a before after,
          ));
    bounded = λ b.
        rw (e, runs_of-with_count s.limiter a b (runs_of s.limiter a - 1))
          (ground (arith, h.bounded a, h.bounded b));
    permits = rw (e, n) h.permits;
  }

  released-IsBalanced :
      IsBalanced m c s
      → t.limiter ≡ release s.limiter
      → t.waiting ≡ s.waiting
      → t.granted ≡ s.granted
      → s.active ≡ suc t.active
      → IsBalanced m c t
  unfolding release runs_of
  released-IsBalanced h e w g n = record {
    runs = rw e (ground (arith, h.runs));
    concurrent = rw e (ground (arith, h.concurrent));
    counted = λ b. rw (e, w, g) (ground (arith, h.counted b));
    bounded = λ b. rw e (ground (arith, h.bounded b));
    permits = rw e (ground (arith, h.permits, n, h.concurrent));
  }

Step-IsBalanced : (m c : ℕ) (s t : Threads) → Step s t → IsBalanced m c s → IsBalanced m c t
Step-IsBalanced m c s t (reserves a e w g n) h = reserves-IsBalanced m c s t a h e w g n
Step-IsBalanced m c s t (is_granted a b b' e w w' g n) h =
    granted-IsBalanced m c s t a b b' h e w w' g n
Step-IsBalanced m c s t (is_refused a b b' _ e w w' g n) h =
    refused-IsBalanced m c s t a b b' h e w w' g n
Step-IsBalanced m c s t (releases e w g n) h = released-IsBalanced m c s t h e w g n

Reachable-IsBalanced : (m c : ℕ) (s : Threads) → Reachable m c s → IsBalanced m c s
Reachable-IsBalanced m c s begin = start-IsBalanced m c
Reachable-IsBalanced m c _ (next s t r step) =
    Step-IsBalanced m c s t step (Reachable-IsBalanced m c s r)

-- However threads interleave, no action is granted more runs than `max_runs_per_action`, at most
-- `max_concurrent_runs` are active, and the permits left are exactly those that are not in use.
pub limits_hold :
    (m c : ℕ) (s : Threads) (a : String)
    → Reachable m c s
    → (occurrences a s.granted ≤ m) × (s.active ≤ c) × (s.limiter.permits + s.active ≡ c)
limits_hold m c s a r =
    let h = Reachable-IsBalanced m c s r in
    (omega (arith, h.counted a, h.bounded a), omega (arith, h.permits), h.permits)
