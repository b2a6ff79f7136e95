-- ===== src/Worker/Order.antt =====
-- Every accepted task is run once, in the order of acceptance.
use mathlib.Core.List.{append_assoc, append-nil}
use network_application.Base.{
  ℕ, ◌≡◌, refl, sym, ◌∙◌, List, [], ◌∷◌, ◌++◌, map, Bool, true, false, ◌||◌, if◌then◌else◌, arith,
  All, All-append,
}
use mathlib.Core.List.{map-append}
use network_application.Worker.{StatusTask, Task, Worker, is_stop, is_flush, run_task, ended}
use network_application.Worker.Steps.{Op, adds, stops, flushes, starts, rounds, step, run}

abbrev pub body_of : Task → ℕ
body_of t = t.body

abbrev pub bodies : List Task → List ℕ
bodies = map body_of

-- The tasks that the queue takes in a step: those that addTask does not drop.
abbrev pub taken : Worker → Op → List Task
taken w (adds t) = if is_stop w.status || is_flush w.status then [] else t ∷ []
taken w _ = []

unfoldable pub accepted : (ℕ → Bool) → Worker → List Op → List Task
accepted throws w [] = []
accepted throws w (o ∷ os) = taken w o ++ accepted throws (step throws w o) os

-- No step of the history clears the queue.
abbrev pub Keeps : Op → Type 0
Keeps (stops true) = ⊥
Keeps _ = Unit

-- The tasks that have run, and after them those that wait.
abbrev pub history : Worker → List ℕ
history w = bodies w.finished ++ bodies w.tasks

run_task-history :
    (throws : ℕ → Bool) (w : Worker) (ts : List Task)
    → w.tasks ≡ ts
    → history (run_task throws w ts) ≡ history w
unfolding run_task
run_task-history throws w [] e = ground arith
run_task-history throws w (t ∷ ts) e = ground (
  arith,
  map-append body_of w.finished (ended throws t ∷ []),
  append_assoc (bodies w.finished) (t.body ∷ []) (bodies ts),
)

step-history :
    (throws : ℕ → Bool) (w : Worker) (o : Op)
    → Keeps o
    → history (step throws w o) ≡ history w ++ bodies (taken w o)
unfolding step
step-history throws w (adds t) k = ground (
  arith,
  append-nil (history w),
  map-append body_of w.tasks (t ∷ []),
  append_assoc (bodies w.finished) (bodies w.tasks) (t.body ∷ []),
)
step-history throws w (stops true) k = absurd k
step-history throws w (stops false) k = ground (arith, append-nil (history w))
step-history throws w flushes k = ground (arith, append-nil (history w))
step-history throws w starts k = ground (arith, append-nil (history w))
step-history throws w rounds k =
    ground (arith, append-nil (history w), run_task-history throws w w.tasks refl)

-- Over a history that never clears the queue, the tasks run so far and those that still wait are
-- exactly those of the start and the accepted ones, each once and in the order of acceptance.
pub run-history :
    (throws : ℕ → Bool) (w : Worker) (os : List Op)
    → All Keeps os
    → history (run throws w os) ≡ history w ++ bodies (accepted throws w os)
unfolding run accepted
run-history throws w [] k = sym (append-nil (history w))
run-history throws w (o ∷ os) k =
    run-history throws (step throws w o) os k.1
    ∙ rw (
      step-history throws w o k.0,
      map-append body_of (taken w o) (accepted throws (step throws w o) os),
      append_assoc (history w) (bodies (taken w o)) (bodies (accepted throws (step throws w o) os)),
    )

-- The status that a task ends with tells whether it threw.
abbrev pub Ended : (ℕ → Bool) → Task → Type 0
Ended throws t = t.status ≡ (if throws t.body then StatusTask.error else StatusTask.success)

run_task-Ended :
    (throws : ℕ → Bool) (w : Worker) (ts : List Task)
    → All (Ended throws) w.finished
    → All (Ended throws) (run_task throws w ts).finished
unfolding run_task
run_task-Ended throws w [] a = a
run_task-Ended throws w (t ∷ ts) a =
    let more = All-append (Ended throws) w.finished (ended throws t ∷ []) a (refl, tt) in
    ground (arith, more)

step-Ended :
    (throws : ℕ → Bool) (w : Worker) (o : Op)
    → All (Ended throws) w.finished
    → All (Ended throws) (step throws w o).finished
unfolding step
step-Ended throws w rounds a = ground (arith, run_task-Ended throws w w.tasks a)
step-Ended throws w _ a = ground arith

-- Every task that has run ended as Error if its function threw and as Success if not.
pub run-Ended :
    (throws : ℕ → Bool) (w : Worker) (os : List Op)
    → All (Ended throws) w.finished
    → All (Ended throws) (run throws w os).finished
unfolding run
run-Ended throws w [] a = a
run-Ended throws w (o ∷ os) a = run-Ended throws (step throws w o) os (step-Ended throws w o a)

-- Over a history that never clears the queue, on a worker whose finished tasks have each ended as Error
-- if its function threw and as Success if not: the tasks run so far and those that still wait are exactly
-- those of the start and the accepted ones, each once and in the order of acceptance, and every task run
-- by then has ended so too.
pub run-log :
    (throws : ℕ → Bool) (w : Worker) (os : List Op)
    → All Keeps os
    → All (Ended throws) w.finished
    → (history (run throws w os) ≡ history w ++ bodies (accepted throws w os))
      × All (Ended throws) (run throws w os).finished
run-log throws w os keeps ended = (run-history throws w os keeps, run-Ended throws w os ended)
