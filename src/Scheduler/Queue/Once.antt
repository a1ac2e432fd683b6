-- ===== src/Scheduler/Queue/Once.antt =====
-- A run is in one place at a time.
use cft_security_agent.Prelude.{
  occurrences, occurrences-append, ℕ, ◌+◌, ◌≡◌, String, Bool, true, false, Option, some, none, List,
  ◌∷◌, [], ◌++◌, if◌then◌else◌, arith, refl, inr, ap, sym, subst, lookup, lookup-insert,
  lookup-remove, is_some, ◌==◌, text_eq, map,
}
use cft_security_agent.Scheduler.Queue.{
  RunScheduler, new_scheduler, register_run, enqueue, cancel, close, take_job, finish_job,
  end_worker, set_token, sentinels,
}

-- One locked section of any thread, or one call of the queue.
pub data Step (s t : RunScheduler) : Type 0 where
  registers : (r : String) → register_run s r ≡ inr t → Step s t
  enqueues :
      (before : List String) (r : String) (after : List String)
      → s.registered ≡ before ++ r ∷ after
      → t ≡ enqueue s before r after
      → Step s t
  cancels : (r : String) → t ≡ (cancel s r).1 → Step s t
  closes : t ≡ close s → Step s t
  takes :
      (r : String) (rest : List (Option String))
      → s.queue ≡ some r ∷ rest
      → t ≡ take_job s r rest
      → Step s t
  finishes :
      (before : List String) (r : String) (after : List String)
      → s.running ≡ before ++ r ∷ after
      → t ≡ finish_job s before r after
      → Step s t
  ends : (rest : List (Option String)) → s.queue ≡ none ∷ rest → t ≡ end_worker s rest → Step s t

pub data Reachable (workers : ℕ) : RunScheduler → Type 0 where
  begin : (s : RunScheduler) → new_scheduler workers ≡ inr s → Reachable workers s
  next : (s t : RunScheduler) → Reachable workers s → Step s t → Reachable workers t

-- the runs in the queue
unfoldable pub queued : String → List (Option String) → ℕ
queued r [] = 0
queued r (none ∷ q) = queued r q
queued r (some x ∷ q) = (if x == r then 1 else 0) + queued r q

abbrev pub places : RunScheduler → String → ℕ
places s r = occurrences r s.registered + (queued r s.queue + occurrences r s.running)

abbrev pub one : Bool → ℕ
one true = 1
one false = 0

-- A run with a token is in one place, any other in none.
abbrev pub IsPlaced : RunScheduler → Type 0
IsPlaced s = (r : String) → places s r ≡ one (is_some (lookup r s.tokens))

queued-append :
    (r : String) (q : List (Option String)) (x : String)
    → queued r (q ++ some x ∷ []) ≡ (if x == r then 1 else 0) + queued r q
unfolding queued
queued-append r [] x = refl
queued-append r (none ∷ q) x = queued-append r q x
queued-append r (some y ∷ q) x = omega (arith, queued-append r q x)

queued-sentinels :
    (r : String) (q : List (Option String)) (n : ℕ) → queued r (q ++ sentinels n) ≡ queued r q
unfolding queued sentinels
queued-sentinels r [] ℕ.zero = refl
queued-sentinels r [] (ℕ.suc n) = queued-sentinels r [] n
queued-sentinels r (none ∷ q) n = queued-sentinels r q n
queued-sentinels r (some y ∷ q) n = omega (arith, queued-sentinels r q n)

lookup-set_token :
    (r : String) (ts : List (String × Bool))
    → is_some (lookup r (map set_token ts)) ≡ is_some (lookup r ts)
unfolding lookup
lookup-set_token r [] = refl
lookup-set_token r ((k, c) ∷ ts) = ground (arith, lookup-set_token r ts)

registers-IsPlaced :
    (s t : RunScheduler) (x : String) → IsPlaced s → register_run s x ≡ inr t → IsPlaced t
unfolding register_run occurrences
registers-IsPlaced s t x i h r =
    ground (arith, i r, i x, h, lookup-insert x r false s.tokens, text_eq.same_iff x r)

take_job-IsPlaced :
    (s : RunScheduler) (x : String) (rest : List (Option String))
    → IsPlaced s
    → s.queue ≡ some x ∷ rest
    → IsPlaced (take_job s x rest)
unfolding take_job occurrences queued
take_job-IsPlaced s x rest i e r = ground (
  arith,
  i r,
  i x,
  ap (queued r) e,
  ap (queued x) e,
  lookup-remove x r s.tokens,
  text_eq.same_iff x r,
)

enqueue-IsPlaced :
    (s : RunScheduler) (before : List String) (x : String) (after : List String)
    → IsPlaced s
    → s.registered ≡ before ++ x ∷ after
    → IsPlaced (enqueue s before x after)
unfolding enqueue
enqueue-IsPlaced s before x after i e r = omega (
  arith,
  i r,
  ap (occurrences r) e,
  occurrences-append r x before after,
  queued-append r s.queue x,
)

cancel-IsPlaced : (s : RunScheduler) (x : String) → IsPlaced s → IsPlaced (cancel s x).1
unfolding cancel
cancel-IsPlaced s x i r =
    ground (arith, i r, i x, lookup-insert x r true s.tokens, text_eq.same_iff x r)

close-IsPlaced : (s : RunScheduler) → IsPlaced s → IsPlaced (close s)
unfolding close
close-IsPlaced s i r =
    ground (arith, i r, queued-sentinels r s.queue s.workers, lookup-set_token r s.tokens)

finish_job-IsPlaced :
    (s : RunScheduler) (before : List String) (x : String) (after : List String)
    → IsPlaced s
    → s.running ≡ before ++ x ∷ after
    → IsPlaced (finish_job s before x after)
unfolding finish_job
finish_job-IsPlaced s before x after i e r = ground (
  arith,
  i r,
  i x,
  ap (occurrences r) e,
  ap (occurrences x) e,
  occurrences-append r x before after,
  occurrences-append x x before after,
  lookup-remove x r s.tokens,
  text_eq.same_iff x r,
)

end_worker-IsPlaced :
    (s : RunScheduler) (rest : List (Option String))
    → IsPlaced s
    → s.queue ≡ none ∷ rest
    → IsPlaced (end_worker s rest)
unfolding end_worker queued
end_worker-IsPlaced s rest i e r = omega (arith, i r, ap (queued r) e)

Step-IsPlaced : (s t : RunScheduler) → Step s t → IsPlaced s → IsPlaced t
Step-IsPlaced s t (registers x h) i = registers-IsPlaced s t x i h
Step-IsPlaced s t (enqueues b x a e h) i = subst IsPlaced (sym h) (enqueue-IsPlaced s b x a i e)
Step-IsPlaced s t (cancels x h) i = subst IsPlaced (sym h) (cancel-IsPlaced s x i)
Step-IsPlaced s t (closes h) i = subst IsPlaced (sym h) (close-IsPlaced s i)
Step-IsPlaced s t (takes x q e h) i = subst IsPlaced (sym h) (take_job-IsPlaced s x q i e)
Step-IsPlaced s t (finishes b x a e h) i = subst IsPlaced (sym h) (finish_job-IsPlaced s b x a i e)
Step-IsPlaced s t (ends q e h) i = subst IsPlaced (sym h) (end_worker-IsPlaced s q i e)

start-IsPlaced : (n : ℕ) (s : RunScheduler) → new_scheduler n ≡ inr s → IsPlaced s
unfolding new_scheduler occurrences queued lookup
start-IsPlaced ℕ.zero s h r = ground (arith, h)
start-IsPlaced (ℕ.suc n) s h r = ground (arith, h)

Reachable-IsPlaced : (n : ℕ) (s : RunScheduler) → Reachable n s → IsPlaced s
Reachable-IsPlaced n _ (begin s h) = start-IsPlaced n s h
Reachable-IsPlaced n _ (next s t r step) = Step-IsPlaced s t step (Reachable-IsPlaced n s r)

pub run_in_one_place :
    (n : ℕ) (s : RunScheduler) (r : String)
    → Reachable n s
    → places s r ≡ one (is_some (lookup r s.tokens))
run_in_one_place n s r h = Reachable-IsPlaced n s h r
