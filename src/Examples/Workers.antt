-- ===== src/Examples/Workers.antt =====
-- The theorems on the worker at concrete histories.
use network_application.Base.{
  ℕ, none, ◌≡◌, refl, [], ◌∷◌, ◌++◌, List, Bool, true, false, arith, All, ◌==◌,
}
use network_application.Worker.{task, Worker, worker, flush_begin, flush_may_return, StatusWorker}
use network_application.Worker.Steps.{Op, adds, flushes, rounds, run, IsValid, run-worker-IsValid}
use network_application.Worker.Order.{history, accepted, bodies, Ended, run-log}
use network_application.Worker.Flush.{spin, Drained, flush-returns}

-- Task 2 throws.
abbrev second_throws : ℕ → Bool
second_throws n = n == 2

-- Two tasks, a round, a flush, a task that is refused, and two rounds.
abbrev busy_day : List Op
busy_day = adds (task 1) ∷ adds (task 2) ∷ rounds ∷ flushes ∷ adds (task 3) ∷ rounds ∷ rounds ∷ []

run-worker-IsValid_example : IsValid (run second_throws worker busy_day)
run-worker-IsValid_example = run-worker-IsValid second_throws busy_day

-- A worker with two tasks in its queue.
abbrev queued : Worker
queued = record {
  status = StatusWorker.wait;
  tasks = task 1 ∷ task 2 ∷ [];
  current_task = none;
  running = true;
  finished = [];
}

-- The same after stop(false).
abbrev stopped : Worker
stopped = record queued { status = StatusWorker.stop; running = false }

run-log_example :
    (history (run second_throws worker busy_day)
      ≡ history worker ++ bodies (accepted second_throws worker busy_day))
    × All (Ended second_throws) (run second_throws worker busy_day).finished
unfolding worker
run-log_example =
    run-log second_throws worker busy_day (tt, (tt, (tt, (tt, (tt, (tt, (tt, tt))))))) tt

flush-returns_example :
    Drained second_throws queued (spin second_throws 3 (flush_begin queued))
    × (flush_may_return
          (run second_throws (flush_begin stopped) (rounds ∷ adds (task 3) ∷ rounds ∷ []))
        ≡ false)
flush-returns_example =
    flush-returns second_throws queued stopped (rounds ∷ adds (task 3) ∷ rounds ∷ []) refl refl refl
      (ground arith) (tt, (tt, (tt, tt)))
