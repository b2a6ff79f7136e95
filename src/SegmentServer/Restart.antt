-- ===== src/SegmentServer/Restart.antt =====
-- A server that is started again after a stop.
use network_application.Base.{
  if_false, ℕ, ℤ, ◌≡◌, refl, ap, ◌∙◌, Bool, true, false, ◌&&◌, not, List, [], ◌∷◌, Option, none,
  some, if◌then◌else◌, arith,
}
use network_application.Errors.Codes.{Code}
use network_application.Json.{Platform}
use network_application.Network.{Asio}
use network_application.SessionManager.{SessionManager}
use network_application.Worker.{Worker, Task, flush_begin, is_flush, is_stop, empty, add_task, task}
use network_application.SegmentServer.Members.{SegmentServer, outside, get_is_work, accept_loop}
use network_application.SegmentServer.Loop.{
  start_begin, start_end, begin_loop, turn, accepted, stop_begin, stop_manager, stop_end,
  on_manager, write, session_failed,
}
use network_application.SegmentServer.Stop.{flush_begin-is_flush}
use network_application.SegmentServer.Steps.{
  Op, start_begins, start_ends, begins, turns, accepts, stop_begins, stop_ends, writes, fails, step,
  run,
}

-- The main worker is in Flush with an empty queue, outside the accept loop.
pub record Idle {Socket : Type 0} (s : SegmentServer Socket) : Type 0 where
  pub at : s.place ≡ outside
  pub flushing : is_flush s.main_worker.status ≡ true
  pub nothing : s.main_worker.tasks ≡ []

Idle-if :
    {Socket : Type 0} (b : Bool) (s t : SegmentServer Socket)
    → Idle s
    → Idle t
    → Idle (if b then s else t)
Idle-if true s t v w = v
Idle-if false s t v w = w

and_false : (a b : Bool) → (a && (not b && not (empty []))) ≡ false
unfolding empty
and_false a b = ground arith

add_task-is_flush : (w : Worker) (t : Task) → is_flush w.status ≡ true → add_task w t ≡ w
unfolding add_task
add_task-is_flush w t h = ground arith

start_begin-Idle :
    {Socket : Type 0} (s : SegmentServer Socket) (memory : ℕ) (bound : Code)
    → Idle s
    → Idle (start_begin s memory bound)
unfolding start_begin
start_begin-Idle s memory bound v =
    let e = add_task-is_flush s.main_worker (task accept_loop) v.flushing in
    record { at = v.at; flushing = rw e v.flushing; nothing = rw e v.nothing }

-- Without a task the main thread stays where it is.
begin_loop-empty :
    {Socket : Type 0} (s : SegmentServer Socket)
    → s.place ≡ outside
    → s.main_worker.tasks ≡ []
    → begin_loop s s.place ≡ s
unfolding begin_loop
begin_loop-empty s at nothing =
    let no_task : (s.main_worker.running
          && (not (is_stop s.main_worker.status) && not (empty s.main_worker.tasks)))
        ≡ false =
      rw nothing (and_false s.main_worker.running (is_stop s.main_worker.status)) in
    ap (begin_loop s) at ∙ if_false _ _ s no_task

on_manager-Idle :
    {Socket : Type 0} (s : SegmentServer Socket) (f : SessionManager Socket → SessionManager Socket)
    (o : Option (SessionManager Socket))
    → Idle s
    → Idle (on_manager s f o)
unfolding on_manager
on_manager-Idle s f none v = v
on_manager-Idle s f (some m) v = record { at = v.at; flushing = v.flushing; nothing = v.nothing }

flush_begin-tasks : (w : Worker) → (flush_begin w).tasks ≡ w.tasks
unfolding flush_begin
flush_begin-tasks w = ground arith

stop_end-Idle :
    {Socket : Type 0} (s : SegmentServer Socket)
    → s.place ≡ outside
    → s.main_worker.tasks ≡ []
    → Idle (stop_end s s.place)
unfolding stop_end
stop_end-Idle s at nothing = rw (ap (stop_end s) at) (record {
  at = at;
  flushing = flush_begin-is_flush s.main_worker;
  nothing = flush_begin-tasks s.main_worker ∙ nothing;
})

module _ (platform : Platform) (asio : Asio) where
  stop_manager-Idle :
      (s : SegmentServer asio.Socket) (cancelled closed : Code)
      (o : Option (SessionManager asio.Socket))
      → Idle s
      → Idle (stop_manager platform asio s cancelled closed o)
  unfolding stop_manager
  stop_manager-Idle s cancelled closed none v = v
  stop_manager-Idle s cancelled closed (some m) v = record {
    at = v.at;
    flushing = v.flushing;
    nothing = v.nothing;
  }

  accepted-outside :
      (s : SegmentServer asio.Socket) (narrow : ℕ → ℕ) (storage : ℤ) (memory : ℕ) (ec : Code)
      (socket : asio.Socket)
      → s.place ≡ outside
      → accepted platform asio s narrow storage memory ec socket s.place s.session_manager ≡ s
  unfolding accepted
  accepted-outside s narrow storage memory ec socket at = rw at refl

  step-Idle :
      (s : SegmentServer asio.Socket) (o : Op asio.Socket) → Idle s → Idle (step platform asio s o)
  unfolding step start_end turn stop_begin write session_failed
  step-Idle s (start_begins memory bound) v = start_begin-Idle s memory bound v
  step-Idle s start_ends v = record { at = v.at; flushing = v.flushing; nothing = v.nothing }
  step-Idle s begins v = rw (begin_loop-empty s v.at v.nothing) v
  step-Idle s (turns id) v = rw (ap (turn s id) v.at) v
  step-Idle s (accepts narrow storage memory ec socket) v =
      rw (accepted-outside s narrow storage memory ec socket v.at) v
  step-Idle s (stop_begins cancelled closed) v =
      Idle-if s.is_work _ s (stop_manager-Idle s cancelled closed s.session_manager v) v
  step-Idle s stop_ends v = stop_end-Idle s v.at v.nothing
  step-Idle s (writes id content spare late) v = on_manager-Idle s _ s.session_manager v
  step-Idle s (fails id) v = on_manager-Idle s _ s.session_manager v

  run-Idle :
      (s : SegmentServer asio.Socket) (os : List (Op asio.Socket))
      → Idle s
      → Idle (run platform asio s os)
  unfolding run
  run-Idle s [] v = v
  run-Idle s (o ∷ os) v = run-Idle (step platform asio s o) os (step-Idle s o v)

  -- A server whose accept loop has been left, and that goes through the end of stop and through start
  -- again, is at work by getIsWork, but over any later history its main thread stays outside the accept
  -- loop: it never accepts a client again.
  pub restart-Idle :
      (s : SegmentServer asio.Socket) (memory : ℕ) (bound : Code) (os : List (Op asio.Socket))
      → s.place ≡ outside
      → s.main_worker.tasks ≡ []
      → let t = start_end (start_begin (stop_end s s.place) memory bound) in
        (get_is_work t ≡ true) × Idle (run platform asio t os)
  unfolding get_is_work start_end step
  restart-Idle s memory bound os at nothing = (
    refl,
    run-Idle _ os (
        step-Idle _ start_ends
          (start_begin-Idle (stop_end s s.place) memory bound (stop_end-Idle s at nothing))),
  )
