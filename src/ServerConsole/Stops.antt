-- ===== src/ServerConsole/Stops.antt =====
-- How main returns after the line stop, with the steps of the server's threads that it waits for.
use network_application.Base.{
  ℕ, ◌==◌, ◌≡◌, refl, ap, ◌∙◌, codes, str_eq, Bool, true, false, ◌&&◌, List, [], ◌∷◌, Option, none,
  some, if◌then◌else◌, if_true, Bool-cases, inl, inr, All,
}
use network_application.Base.Table.{nat_eq, beq_refl, lookup, keys}
use network_application.Errors.Codes.{Code}
use network_application.Json.{Platform}
use network_application.Message.{Transaction}
use network_application.Network.{Asio}
use network_application.SessionManager.{SessionManager, close_acceptor}
use network_application.SegmentServer.Members.{
  SegmentServer, outside, testing, accept_loop, get_is_work,
}
use network_application.SegmentServer.Loop.{
  flush_workers, disconnect_each, stop_manager, stop_begin, stop_end, turn,
}
use network_application.SegmentServer.Steps
use network_application.SegmentServer.Steps.{turns}
use network_application.ServerConsole.{stop, parse_line}
use network_application.ServerConsole.Loop.{
  Console, Phase, commands, stopping, stopped, enters, serves, rounds, Output, change, stop_next,
  finish, go_on, after_step, thread_step, execute, step, run,
}
use network_application.ServerConsole.Laws.{step-enters}
use network_application.ServerConsole.Waits.{
  works_at, any_null, is_null, is_outside, all_flushed, session_workers_flushed, session_rounds,
  worker_rounds,
}
use network_application.Worker.{Worker, task, ended, flush_begin, flush_may_return, thread_round}
use network_application.Worker.Flush.{flushing}
use network_application.ServerConsole.Stages.{
  workers_of, looping, begun, done, out, flush-workers_of, rounds-begun, flush-done, rounds-done,
  flush-out, flushed-out,
}

module _ {Socket : Type 0} where
  -- A server at work whose main thread is at the test of the accept loop, with the workers of sessions.
  abbrev pub at_test : SegmentServer Socket → List ℕ → SessionManager Socket → SegmentServer Socket
  at_test x is m = record x {
    is_work = true;
    place = testing;
    main_worker = looping;
    session_workers = workers_of is;
    session_manager = some m;
  }

  -- A server that is not at work, out of its accept loop, with these workers.
  abbrev left_with :
      SegmentServer Socket
      → Option (SessionManager Socket)
      → Worker
      → List (ℕ × Worker)
      → SegmentServer Socket
  left_with x o w ws = record x {
    is_work = false;
    place = outside;
    main_worker = w;
    session_workers = ws;
    session_manager = o;
  }

  -- main with one server.
  abbrev pub one : Bool → List Output → ℕ → SegmentServer Socket → Phase → Console Socket
  one b o k x p = record { running = b; servers = (k, x) ∷ []; phase = p; output = o }

  change-one :
      (k : ℕ) (f : SegmentServer Socket → SegmentServer Socket) (x : SegmentServer Socket)
      → change k f ((k, x) ∷ []) ≡ (k, f x) ∷ []
  unfolding change
  change-one k f x = if_true (k == k) _ _ (beq_refl k)

  lookup-one : (k : ℕ) (x : SegmentServer Socket) → lookup k ((k, x) ∷ []) ≡ some x
  unfolding lookup
  lookup-one k x = if_true (k == k) _ _ (beq_refl k)

module _ (platform : Platform) (asio : Asio) (spare : Transaction) (late : ℕ)
    (cancelled closed : Code) (b : Bool) (o : List Output) (k : ℕ) where
  open asio use {Socket}

  go_on-one :
      (x : SegmentServer Socket) (m : Option (SessionManager Socket)) (w : Worker)
      (ws : List (ℕ × Worker))
      → go_on platform asio spare late cancelled closed
          (one b o k (left_with x m w ws) (stopping k []))
          k
          []
          (some (left_with x m w ws))
        ≡ one b o k (left_with x m (flush_begin w) (flush_workers ws)) (
            if flush_may_return (flush_begin w) && session_workers_flushed (flush_workers ws)
            then stopped
            else stopping k [])
  unfolding go_on stop_end stop_next is_outside all_flushed
  go_on-one x m w ws =
      let y = left_with x m (flush_begin w) (flush_workers ws) in
      rw (change-one k (λ _. y) (left_with x m w ws))
        (elim (Bool-cases
          (flush_may_return (flush_begin w) && session_workers_flushed (flush_workers ws))) [
            | inl t ↦ rw t refl
            | inr f ↦ rw f refl
          ])

  -- A step of other threads that leaves the server out of its loop, while main is in its stop.
  after_step-one :
      (x : SegmentServer Socket) (m : Option (SessionManager Socket)) (w : Worker)
      (ws : List (ℕ × Worker))
      → after_step platform asio spare late cancelled closed
          (one b o k (left_with x m w ws) (stopping k []))
          (stopping k [])
        ≡ one b o k (left_with x m (flush_begin w) (flush_workers ws)) (
            if flush_may_return (flush_begin w) && session_workers_flushed (flush_workers ws)
            then stopped
            else stopping k [])
  unfolding after_step any_null is_null
  after_step-one x m w ws =
      ap
        (go_on platform asio spare late cancelled closed
          (one b o k (left_with x m w ws) (stopping k [])) k [])
        (lookup-one k (left_with x m w ws))
      ∙ go_on-one x m w ws

  rounds-one :
      (x : SegmentServer Socket) (m : Option (SessionManager Socket)) (w : Worker)
      (ws : List (ℕ × Worker)) (v : Worker) (vs : List (ℕ × Worker))
      → flush_begin (thread_round (λ _. false) w) ≡ v
      → flush_workers (session_rounds ws) ≡ vs
      → step platform asio spare late cancelled closed
          (one b o k (left_with x m w ws) (stopping k []))
          (rounds k)
        ≡ one b o k
            (left_with x m v vs)
            (if flush_may_return v && session_workers_flushed vs then stopped else stopping k [])
  unfolding step worker_rounds is_outside
  rounds-one x m w ws v vs e f =
      rw (change-one k worker_rounds (left_with x m w ws))
        (after_step-one x m (thread_round (λ _. false) w) (session_rounds ws) ∙ rw (e, f) refl)

  -- The manager after stop.
  abbrev closed_manager : SessionManager Socket → SessionManager Socket
  closed_manager m =
      let shut = (close_acceptor m cancelled closed).manager in
      disconnect_each platform asio shut shut.sessions

  abbrev halted : SegmentServer Socket → List ℕ → SessionManager Socket → SegmentServer Socket
  halted x is m = record x {
    is_work = false;
    place = testing;
    main_worker = looping;
    session_workers = workers_of is;
    session_manager = some (closed_manager m);
  }

  -- The main worker after the accept loop, in flush, and then out of its loop.
  abbrev emptied : Worker
  emptied = flushing [] none (ended (λ _. false) (task accept_loop) ∷ [])

  stop-one :
      (x : SegmentServer Socket) (is : List ℕ) (m : SessionManager Socket)
      → step platform asio spare late cancelled closed
          (one b o k (at_test x is m) commands)
          (enters (codes "stop"))
        ≡ one b o k (halted x is m) (stopping k [])
  unfolding execute finish stop_next keys stop_begin stop_manager works_at get_is_work
  stop-one x is m =
      step-enters platform asio spare late cancelled closed (one b o k (at_test x is m) commands)
        (codes "stop") stop refl (unfold parse_line str_eq in refl)
      ∙ (rw
          (
            lookup-one k (at_test x is m),
            change-one k (λ x. stop_begin platform asio x cancelled closed) (at_test x is m),
          )
          refl)

  turn-one :
      (x : SegmentServer Socket) (is : List ℕ) (m : SessionManager Socket) (id : ℕ)
      → step platform asio spare late cancelled closed
          (one b o k (halted x is m) (stopping k []))
          (serves k (turns id))
        ≡ one b o k (left_with x (some (closed_manager m)) emptied (begun is)) (stopping k [])
  unfolding step thread_step Steps.step turn thread_round flush_begin flush_may_return
  turn-one x is m id =
      rw
        (change-one k (thread_step platform asio spare late cancelled closed (turns id))
          (halted x is m))
        (after_step-one x (some (closed_manager m)) (thread_round (λ _. false) looping)
            (workers_of is)
          ∙ rw (flush-workers_of is) refl)

  first_rounds :
      (x : SegmentServer Socket) (m : Option (SessionManager Socket)) (is : List ℕ)
      → step platform asio spare late cancelled closed
          (one b o k (left_with x m emptied (begun is)) (stopping k []))
          (rounds k)
        ≡ one b o k
            (left_with x m (record emptied { running = false }) (done is))
            (if session_workers_flushed (done is) then stopped else stopping k [])
  unfolding flush_may_return
  first_rounds x m is =
      rounds-one x m emptied (begun is) (record emptied { running = false }) (done is)
        (unfold thread_round flush_begin in refl)
        (ap flush_workers (rounds-begun is) ∙ flush-done is)

  last_rounds :
      (x : SegmentServer Socket) (m : Option (SessionManager Socket)) (is : List ℕ) (early : Bool)
      → let d =
          step platform asio spare late cancelled closed
            (one b o k
              (left_with x m (record emptied { running = false }) (done is))
              (if early then stopped else stopping k []))
            (rounds k) in
        (d.phase ≡ stopped) × All (λ (q : ℕ × SegmentServer Socket). q.1.is_work ≡ false) d.servers
  last_rounds x m is true =
      let w = left_with x m (record emptied { running = false }) (done is) in
      unfold step after_step worker_rounds in (rw (change-one k worker_rounds w) (refl, (refl, tt)))
  last_rounds x m is false =
      rw
        (rounds-one x m (record emptied { running = false }) (done is)
          (record emptied { running = false }) (out is) (unfold thread_round flush_begin in refl)
          (ap flush_workers (rounds-done is) ∙ flush-out is))
        (unfold flush_may_return in (rw (flushed-out is) (refl, (refl, tt))))

  -- main with one server at work, whose main thread is at the test of the accept loop and whose session
  -- workers have their tasks: at the line stop main goes into the stop of that server and waits there. When
  -- the main thread has made the test again, and then every worker two rounds, main has returned, with the
  -- server not at work.
  pub run-stop_one :
      (x : SegmentServer Socket) (is : List ℕ) (m : SessionManager Socket) (id : ℕ)
      → let c = one b o k (at_test x is m) commands in
        let w = run platform asio spare late cancelled closed c (enters (codes "stop") ∷ []) in
        let d =
          run platform asio spare late cancelled closed w
            (serves k (turns id) ∷ rounds k ∷ rounds k ∷ []) in
        (w.phase ≡ stopping k [])
        × (d.phase ≡ stopped)
        × All (λ (q : ℕ × SegmentServer Socket). q.1.is_work ≡ false) d.servers
  unfolding run
  run-stop_one x is m id =
      let f = some (closed_manager m) in
      let r = last_rounds x f is (session_workers_flushed (done is)) in
      rw (stop-one x is m) (rw (turn-one x is m id) (rw (first_rounds x f is) (refl, r.0, r.1)))
