-- ===== src/Worker.antt =====
-- core/worker: a queue of tasks with one thread (worker.h, worker.cpp). Each operation is the part that
-- runs under the mutex; the waits between are the gaps between the steps of Worker/Steps.antt. A task
-- is a number, and `outcome` tells whether it throws.
pub mod Steps
pub mod Order
pub mod Flush
use network_application.Base.{
  ℕ, zero, suc, ◌+◌, List, [], ◌∷◌, ◌++◌, Option, none, some, Bool, true, false, ◌&&◌, ◌||◌, not,
  if◌then◌else◌, length,
}

-- enum class StatusTask
pub data StatusTask : Type 0 where
  success work error : StatusTask

-- enum class StatusWorker
pub data StatusWorker : Type 0 where
  wait work flush stop : StatusWorker

-- struct Task; `body` stands for its function.
pub record Task : Type 0 where
  pub body : ℕ
  pub status : StatusTask

-- Task(t)
unfoldable pub task : ℕ → Task
task body = record { body = body; status = StatusTask.work }

-- The members of Worker; `running` is whether the thread is in its loop, and `finished` lists the tasks
-- that the thread has taken, oldest first, with the status that they ended with.
pub record Worker : Type 0 where
  pub status : StatusWorker
  pub tasks : List Task
  pub current_task : Option Task
  pub running : Bool
  pub finished : List Task

unfoldable pub is_stop : StatusWorker → Bool
is_stop stop = true
is_stop _ = false

unfoldable pub is_flush : StatusWorker → Bool
is_flush flush = true
is_flush _ = false

unfoldable pub empty : List Task → Bool
empty [] = true
empty (t ∷ ts) = false

-- changeStatusWorker, its log records left out
unfoldable pub change_status_worker : Worker → StatusWorker → Worker
change_status_worker w s = record w { status = s }

-- start
unfoldable pub start : Worker → Worker
unfolding is_stop change_status_worker
start w =
    if is_stop w.status
    then record (change_status_worker w StatusWorker.wait) { running = true }
    else w

-- Worker(milliseconds)
unfoldable pub worker : Worker
unfolding start
worker = start (record {
  status = StatusWorker.stop;
  tasks = [];
  current_task = none;
  running = false;
  finished = [];
})

-- Worker(queue)
unfoldable pub worker_of : List Task → Worker
unfolding start
worker_of tasks = start (record {
  status = StatusWorker.stop;
  tasks = tasks;
  current_task = none;
  running = false;
  finished = [];
})

-- addTask
unfoldable pub add_task : Worker → Task → Worker
unfolding is_stop is_flush
add_task w t =
    if is_stop w.status || is_flush w.status then w else record w { tasks = w.tasks ++ t ∷ [] }

-- stop up to the join: the part under the mutex.
unfoldable pub stop_begin : Worker → Bool → Worker
unfolding is_stop change_status_worker
stop_begin w clear_queue =
    if is_stop w.status
    then w
    else if clear_queue
    then record (change_status_worker w StatusWorker.stop) { tasks = []; current_task = none }
    else change_status_worker w StatusWorker.stop

-- flush up to its wait: the first part under the mutex.
unfoldable pub flush_begin : Worker → Worker
unfolding is_flush change_status_worker
flush_begin w = if is_flush w.status then w else change_status_worker w StatusWorker.flush

-- The test that the wait of flush ends by; the join needs the thread out of its loop.
unfoldable pub flush_may_return : Worker → Bool
unfolding empty
flush_may_return w = empty w.tasks && not w.running

-- getSizeQueue
unfoldable pub get_size_queue : Worker → ℕ
get_size_queue w = length w.tasks + elim w.current_task [ none ↦ 0 | some t ↦ 1 ]

-- getStatusWorker
unfoldable pub get_status_worker : Worker → StatusWorker
get_status_worker w = w.status

-- The status that a task ends with: an exception that derives from std::exception is caught.
unfoldable pub ended : (ℕ → Bool) → Task → Task
ended throws t = record t {
  status = if throws t.body then StatusTask.error else StatusTask.success;
}

-- The end of a round of the loop, after the task.
unfoldable pub after_task : Worker → Worker
unfolding empty is_flush change_status_worker
after_task w =
    if empty w.tasks && not (is_flush w.status) then change_status_worker w StatusWorker.wait else w

-- A round of runThreadTask from the return of wait_for, all under the mutex: the thread leaves the loop
-- on Stop, and on Flush with an empty queue; it goes round on a timeout; otherwise it runs one task.
unfoldable pub run_task : (ℕ → Bool) → Worker → List Task → Worker
unfolding is_flush ended after_task change_status_worker
run_task throws w [] = record w { running = not (is_flush w.status) }
run_task throws w (t ∷ rest) =
    let busy = if is_flush w.status then w else change_status_worker w StatusWorker.work in
    after_task (record busy {
      tasks = rest;
      current_task = none;
      finished = w.finished ++ ended throws t ∷ [];
    })

unfoldable pub thread_round : (ℕ → Bool) → Worker → Worker
unfolding is_stop run_task
thread_round throws w =
    if not w.running
    then w
    else if is_stop w.status
    then record w { running = false }
    else run_task throws w w.tasks
