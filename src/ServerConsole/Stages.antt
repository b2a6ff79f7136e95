-- ===== src/ServerConsole/Stages.antt =====
-- The workers of a server while stop waits for them, round after round.
use network_application.Base.{ℕ, ◌≡◌, refl, ap, true, false, List, [], ◌∷◌, none}
use network_application.Base.Table.{nat_eq}
use network_application.SegmentServer.Members.{accept_loop}
use network_application.SegmentServer.Loop.{session_worker, flush_workers}
use network_application.ServerConsole.Waits.{session_workers_flushed, session_rounds}
use network_application.Worker
use network_application.Worker.{
  Worker, StatusWorker, Task, task, ended, worker, flush_begin, flush_may_return, thread_round,
}
use network_application.Worker.Flush.{flushing}

-- The workers of the sessions with these numbers, as the accept loop makes them.
unfoldable pub workers_of : List ℕ → List (ℕ × Worker)
unfolding session_worker
workers_of [] = []
workers_of (i ∷ is) = (i, session_worker i) ∷ workers_of is

abbrev pub spent : ℕ → Worker
spent i = flushing [] none (ended (λ _. false) (task i) ∷ [])

-- These workers in flush: with their task, without it, and out of their loops.
unfoldable pub begun : List ℕ → List (ℕ × Worker)
begun [] = []
begun (i ∷ is) = (i, flushing (task i ∷ []) none []) ∷ begun is

unfoldable pub done : List ℕ → List (ℕ × Worker)
done [] = []
done (i ∷ is) = (i, spent i) ∷ done is

unfoldable pub out : List ℕ → List (ℕ × Worker)
out [] = []
out (i ∷ is) = (i, record (spent i) { running = false }) ∷ out is

pub flush-workers_of : (is : List ℕ) → flush_workers (workers_of is) ≡ begun is
unfolding flush_workers workers_of begun session_worker Worker.add_task worker task flush_begin
flush-workers_of [] = refl
flush-workers_of (i ∷ is) = ap (◌∷◌ (i, flushing (task i ∷ []) none [])) (flush-workers_of is)

pub rounds-begun : (is : List ℕ) → session_rounds (begun is) ≡ done is
unfolding session_rounds begun done thread_round
rounds-begun [] = refl
rounds-begun (i ∷ is) = ap (◌∷◌ (i, spent i)) (rounds-begun is)

pub flush-done : (is : List ℕ) → flush_workers (done is) ≡ done is
unfolding flush_workers done flush_begin
flush-done [] = refl
flush-done (i ∷ is) = ap (◌∷◌ (i, spent i)) (flush-done is)

pub rounds-done : (is : List ℕ) → session_rounds (done is) ≡ out is
unfolding session_rounds done out thread_round
rounds-done [] = refl
rounds-done (i ∷ is) = ap (◌∷◌ (i, record (spent i) { running = false })) (rounds-done is)

pub flush-out : (is : List ℕ) → flush_workers (out is) ≡ out is
unfolding flush_workers out flush_begin
flush-out [] = refl
flush-out (i ∷ is) = ap (◌∷◌ (i, record (spent i) { running = false })) (flush-out is)

pub flushed-out : (is : List ℕ) → session_workers_flushed (out is) ≡ true
unfolding session_workers_flushed out flush_may_return
flushed-out [] = refl
flushed-out (i ∷ is) = flushed-out is

-- The main worker with the task of the accept loop.
abbrev pub looping : Worker
looping = record {
  status = StatusWorker.wait;
  tasks = task accept_loop ∷ [];
  current_task = none;
  running = true;
  finished = [];
}
