-- ===== src/Worker/Flush.antt =====
-- flush: the thread empties the queue and leaves its loop; without a thread the wait has no end.
use mathlib.Core.List.{append_assoc, append-nil}
use network_application.Base.{
  ℕ, zero, suc, ◌≡◌, ◌≢◌, refl, sym, ◌∙◌, List, [], ◌∷◌, ◌++◌, map, Option, none, Bool, true, false,
  length, arith, All,
}
use network_application.Worker.{
  StatusWorker, Task, Worker, flush_begin, flush_may_return, thread_round, ended,
}
use network_application.Worker.Steps.{Op, stops, step, run}

-- `n` rounds of the thread.
unfoldable pub spin : (ℕ → Bool) → ℕ → Worker → Worker
spin throws zero w = w
spin throws (suc n) w = spin throws n (thread_round throws w)

abbrev pub flushing : List Task → Option Task → List Task → Worker
flushing ts c f = record {
  status = StatusWorker.flush;
  tasks = ts;
  current_task = c;
  running = true;
  finished = f;
}

pub round_flushing :
    (throws : ℕ → Bool) (t : Task) (ts : List Task) (c : Option Task) (f : List Task)
    → thread_round throws (flushing (t ∷ ts) c f) ≡ flushing ts none (f ++ ended throws t ∷ [])
unfolding thread_round
round_flushing throws t [] c f = refl
round_flushing throws t (u ∷ ts) c f = refl

-- What flush waits for has come, and the tasks have run in their order.
pub record Drained (throws : ℕ → Bool) (before after : Worker) : Type 0 where
  pub may_return : flush_may_return after ≡ true
  pub emptied : after.tasks ≡ []
  pub ran : after.finished ≡ before.finished ++ map (ended throws) before.tasks

spin-Drained :
    (throws : ℕ → Bool) (ts : List Task) (c : Option Task) (f : List Task)
    → Drained throws (flushing ts c f) (spin throws (suc (length ts)) (flushing ts c f))
unfolding spin flush_may_return
spin-Drained throws [] c f =
    unfold thread_round in record { may_return = refl; emptied = refl; ran = sym (append-nil f) }
spin-Drained throws (t ∷ ts) c f =
    let rest = spin-Drained throws ts none (f ++ ended throws t ∷ []) in
    rw (round_flushing throws t ts c f, spin)
      (record {
        may_return = rest.may_return;
        emptied = rest.emptied;
        ran = rest.ran ∙ append_assoc f (ended throws t ∷ []) (map (ended throws) ts);
      })

pub flush_begin-flushing :
    (w : Worker) → w.running ≡ true → flush_begin w ≡ flushing w.tasks w.current_task w.finished
unfolding flush_begin
flush_begin-flushing w r = ground arith

-- A call of flush on a worker whose thread runs can return after at most one round for each waiting
-- task and one more: the queue is then empty, the thread has left its loop, and the tasks have run.
pub flush-Drained :
    (throws : ℕ → Bool) (w : Worker)
    → w.running ≡ true
    → Drained throws w (spin throws (suc (length w.tasks)) (flush_begin w))
flush-Drained throws w r =
    let d = spin-Drained throws w.tasks w.current_task w.finished in
    rw (flush_begin-flushing w r)
      (record { may_return = d.may_return; emptied = d.emptied; ran = d.ran })

-- A stopped worker that is flushed with tasks in its queue: it has no thread.
record Stuck (w : Worker) : Type 0 where
  flushed : w.status ≡ StatusWorker.flush
  threadless : w.running ≡ false
  waiting : w.tasks ≢ []

-- No step of the history is a call of stop.
abbrev pub NoStop : Op → Type 0
NoStop (stops clear) = ⊥
NoStop _ = Unit

step-Stuck :
    (throws : ℕ → Bool) (w : Worker) (o : Op) → NoStop o → Stuck w → Stuck (step throws w o)
unfolding step
step-Stuck throws w (stops clear) n s = absurd n
step-Stuck throws w _ n s = ground arith

run-Stuck :
    (throws : ℕ → Bool) (w : Worker) (os : List Op)
    → All NoStop os
    → Stuck w
    → Stuck (run throws w os)
unfolding run
run-Stuck throws w [] n s = s
run-Stuck throws w (o ∷ os) n s =
    run-Stuck throws (step throws w o) os n.1 (step-Stuck throws w o n.0 s)

Stuck-may_return : (w : Worker) → Stuck w → flush_may_return w ≡ false
unfolding flush_may_return
Stuck-may_return w s = ground arith

-- A call of flush on a stopped worker with tasks left in its queue never returns, whatever else is
-- called, unless somebody calls stop.
pub flush_after_stop :
    (throws : ℕ → Bool) (w : Worker) (os : List Op)
    → w.status ≡ StatusWorker.stop
    → w.running ≡ false
    → w.tasks ≢ []
    → All NoStop os
    → flush_may_return (run throws (flush_begin w) os) ≡ false
unfolding flush_begin
flush_after_stop throws w os stopped threadless waiting quiet =
    Stuck-may_return _ (run-Stuck throws _ os quiet (ground arith))

-- A call of flush on a worker whose thread runs can return after at most one round for each waiting task
-- and one more: the queue is then empty, the thread has left its loop, and the tasks have run in their
-- order. On a stopped worker without its thread and with tasks left in its queue a call of flush never
-- returns, whatever else is called, unless somebody calls stop.
pub flush-returns :
    (throws : ℕ → Bool) (w v : Worker) (os : List Op)
    → w.running ≡ true
    → v.status ≡ StatusWorker.stop
    → v.running ≡ false
    → v.tasks ≢ []
    → All NoStop os
    → Drained throws w (spin throws (suc (length w.tasks)) (flush_begin w))
      × (flush_may_return (run throws (flush_begin v) os) ≡ false)
flush-returns throws w v os running stopped threadless waiting quiet =
    (flush-Drained throws w running, flush_after_stop throws v os stopped threadless waiting quiet)
