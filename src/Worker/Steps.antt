-- ===== src/Worker/Steps.antt =====
-- Interleavings of the callers of a worker and its thread, and the invariant between two steps.
use network_application.Base.{
  ℕ, ◌≡◌, ◌≢◌, refl, List, [], ◌∷◌, none, Bool, true, false, ◌<◌, length, length-append,
  if◌then◌else◌, arith,
}
use network_application.Worker.{
  StatusWorker, Task, Worker, worker, add_task, stop_begin, flush_begin, start, run_task,
  thread_round,
}

-- What happens next: a caller enters an operation, or the thread makes a round. A caller that starts
-- the worker does so after the join of `stop`.
pub data Op : Type 0 where
  adds : Task → Op
  stops : Bool → Op
  flushes : Op
  starts : Op
  rounds : Op

unfoldable pub step : (ℕ → Bool) → Worker → Op → Worker
unfolding add_task stop_begin flush_begin start thread_round
step throws w (adds t) = add_task w t
step throws w (stops clear) = stop_begin w clear
step throws w flushes = flush_begin w
step throws w starts = if w.running then w else start w
step throws w rounds = thread_round throws w

unfoldable pub run : (ℕ → Bool) → Worker → List Op → Worker
run throws w [] = w
run throws w (o ∷ os) = run throws (step throws w o) os

-- Between two steps no task is current, a worker at work has a task to do, and only a stopped or
-- flushed worker is without its loop.
pub record IsValid (w : Worker) : Type 0 where
  pub idle : w.current_task ≡ none
  pub busy : w.status ≡ StatusWorker.work → 0 < length w.tasks
  pub served : w.running ≡ false → (w.status ≢ StatusWorker.wait) × (w.status ≢ StatusWorker.work)

run_task-IsValid :
    (throws : ℕ → Bool) (w : Worker) (ts : List Task)
    → w.tasks ≡ ts
    → w.running ≡ true
    → w.status ≢ StatusWorker.stop
    → IsValid w
    → IsValid (run_task throws w ts)
unfolding run_task
run_task-IsValid throws w [] e r n v = ground arith
run_task-IsValid throws w (t ∷ []) e r n v = ground arith
run_task-IsValid throws w (t ∷ u ∷ ts) e r n v = ground arith

step-IsValid : (throws : ℕ → Bool) (w : Worker) (o : Op) → IsValid w → IsValid (step throws w o)
unfolding step
step-IsValid throws w (adds t) v = ground (arith, length-append w.tasks (t ∷ []))
step-IsValid throws w (stops clear) v = ground arith
step-IsValid throws w flushes v = ground arith
step-IsValid throws w starts v = ground arith
step-IsValid throws w rounds v = ground (arith, run_task-IsValid throws w w.tasks refl)

run-IsValid :
    (throws : ℕ → Bool) (w : Worker) (os : List Op) → IsValid w → IsValid (run throws w os)
unfolding run
run-IsValid throws w [] v = v
run-IsValid throws w (o ∷ os) v =
    run-IsValid throws (step throws w o) os (step-IsValid throws w o v)

worker-IsValid : IsValid worker
unfolding worker
worker-IsValid = ground arith

-- After any history of calls and thread rounds on a new worker no task is current, a worker at work has
-- a task in its queue, and a worker that waits or works has its loop running.
pub run-worker-IsValid : (throws : ℕ → Bool) (os : List Op) → IsValid (run throws worker os)
run-worker-IsValid throws os = run-IsValid throws worker os worker-IsValid
