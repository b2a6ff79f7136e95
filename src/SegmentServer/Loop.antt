-- ===== src/SegmentServer/Loop.antt =====
-- server/lib/segment_server.cpp: the accept loop of the server, `start`, `stop` and `disconnect`.
-- The loop is a task of the main worker, which holds the worker's mutex as long as the loop turns; an
-- operation is split where it waits or where another thread can see what it has done.
use network_application.Base.{
  ℕ, ℤ, ◌==◌, Bytes, true, false, not, ◌&&◌, List, [], ◌∷◌, ◌++◌, Option, none, some, if◌then◌else◌,
  ltb,
}
use network_application.Base.Table.{insert, nat_eq}
use network_application.Errors.Codes.{Code}
use network_application.Json.{Platform}
use network_application.Message.{Transaction}
use network_application.Network.{Asio}
use network_application.Connection.Accept.{accept_handler}
use network_application.Session.{Session}
use network_application.Session.Calls.{disconnect}
use network_application.SessionManager.{
  SessionManager, session_manager, set_manager_magic, set_session_on_read_handler,
  get_session_count, get_session, add_session, remove_session, close_acceptor,
}
use network_application.SegmentServer.{forget, write_to}
use network_application.Worker.{
  Worker, worker, task, add_task, flush_begin, thread_round, is_stop, empty,
}
use network_application.SegmentServer.Members.{
  Place, outside, testing, adding, null_pointer, SegmentServer, accept_loop, session_number,
}

-- A session worker with its task.
unfoldable pub session_worker : ℕ → Worker
unfolding add_task worker task
session_worker id = add_task worker (task id)

unfoldable pub flush_workers : List (ℕ × Worker) → List (ℕ × Worker)
unfolding flush_begin
flush_workers [] = []
flush_workers ((id, w) ∷ ws) = (id, flush_begin w) ∷ flush_workers ws

module _ {Socket : Type 0} where
  -- The manager that start makes; `bound` is the code of the acceptor's bind.
  unfoldable pub new_manager : SegmentServer Socket → ℕ → Code → SessionManager Socket
  unfolding session_manager accept_handler set_session_on_read_handler set_manager_magic
  new_manager s memory bound =
      let fresh = session_manager s.mode memory (accept_handler bound).0 in
      let reading = if s.read_handler then set_session_on_read_handler fresh true else fresh in
      if s.magic_number == 0 then reading else set_manager_magic reading s.magic_number

  -- start up to addTask. A manager of an earlier start is destroyed.
  unfoldable pub start_begin : SegmentServer Socket → ℕ → Code → SegmentServer Socket
  unfolding new_manager add_task task
  start_begin s memory bound = record s {
    session_manager = some (new_manager s memory bound);
    id_distribution_handler = true;
    main_worker = add_task s.main_worker (task accept_loop);
  }

  -- start from isWork = true
  unfoldable pub start_end : SegmentServer Socket → SegmentServer Socket
  start_end s = record s { is_work = true }

  -- The main thread takes the task of the accept loop.
  unfoldable pub begin_loop : SegmentServer Socket → Place → SegmentServer Socket
  unfolding is_stop empty
  begin_loop s outside =
      let w = s.main_worker in
      if w.running && (not (is_stop w.status) && not (empty w.tasks))
      then record s { place = testing }
      else s
  begin_loop s _ = s

  -- The test of the loop, and the ID that the handler gives; out of the loop the task has ended.
  unfoldable pub turn : SegmentServer Socket → ℕ → Place → SegmentServer Socket
  unfolding session_number thread_round
  turn s id testing =
      if s.is_work
      then record s { place = adding (session_number id) }
      else record s { place = outside; main_worker = thread_round (λ _. false) s.main_worker }
  turn s id _ = s

  -- The loop after addSession and past the test of multiConnect.
  unfoldable pub admit : SegmentServer Socket → ℕ → SessionManager Socket → SegmentServer Socket
  unfolding session_worker
  admit s id m =
      if s.is_work
      then record s {
        session_manager = some m;
        session_workers = s.session_workers ++ (id, session_worker id) ∷ [];
        place = testing;
      }
      else record s { session_manager = some m; place = testing }

  -- The loop after the disconnect of a client that is not taken.
  unfoldable pub refuse :
      SegmentServer Socket
      → SessionManager Socket
      → Option (SessionManager Socket)
      → SegmentServer Socket
  refuse s m none = record s { session_manager = some m; place = null_pointer }
  refuse s m (some n) = record s { session_manager = some n; place = testing }

  -- stop from the flush of the main worker, which waits for the mutex until the loop has been left.
  unfoldable pub stop_end : SegmentServer Socket → Place → SegmentServer Socket
  unfolding flush_begin flush_workers
  stop_end s outside = record s {
    main_worker = flush_begin s.main_worker;
    session_workers = flush_workers s.session_workers;
  }
  stop_end s _ = s

  -- A call that changes the manager; before the first start it would follow a null pointer.
  unfoldable pub on_manager :
      SegmentServer Socket
      → (SessionManager Socket → SessionManager Socket)
      → Option (SessionManager Socket)
      → SegmentServer Socket
  on_manager s f none = s
  on_manager s f (some m) = record s { session_manager = some (f m) }

  -- onError of a session in its own thread.
  unfoldable pub session_failed : SegmentServer Socket → ℕ → SegmentServer Socket
  unfolding on_manager remove_session
  session_failed s id = on_manager s (λ m. (remove_session m id).manager) s.session_manager

module _ (platform : Platform) (asio : Asio) where
  open asio use {Socket}

  -- A session of the map is disconnected: an error of shutdown or close removes it by its onError.
  unfoldable pub disconnect_session :
      SessionManager Socket → ℕ → Session Socket → SessionManager Socket
  unfolding disconnect insert forget
  disconnect_session m id x =
      let a = disconnect asio x in
      forget platform asio (record m { sessions = insert id a.session m.sessions }) id a.events

  -- disconnect of a number, from the result of getSession: none is a null pointer.
  unfoldable pub disconnect_found :
      SessionManager Socket → ℕ → Option (Session Socket) → Option (SessionManager Socket)
  unfolding disconnect_session
  disconnect_found m id none = none
  disconnect_found m id (some x) = some (disconnect_session m id x)

  -- disconnect
  unfoldable pub disconnect_id : SessionManager Socket → ℕ → Option (SessionManager Socket)
  unfolding disconnect_found get_session session_number
  disconnect_id m id = let n = session_number id in disconnect_found m n (get_session m n).result

  -- The loop after addSession.
  unfoldable pub after_add : SegmentServer Socket → ℕ → SessionManager Socket → SegmentServer Socket
  unfolding admit refuse disconnect_found get_session get_session_count
  after_add s id m =
      if not s.multi_connect && ltb 1 (get_session_count m)
      then refuse s m (disconnect_found m id (get_session m id).result)
      else admit s id m

  -- addSession returns: in the mode Sync after the acceptor has reported `ec`, in the mode Async at once,
  -- with the completion still to come; the rest is as for add_session.
  unfoldable pub accepted :
      SegmentServer Socket
      → (ℕ → ℕ)
      → ℤ
      → ℕ
      → Code
      → Socket
      → Place
      → Option (SessionManager Socket)
      → SegmentServer Socket
  unfolding after_add add_session
  accepted s narrow storage memory ec socket (adding id) (some m) =
      after_add s id (add_session m narrow storage memory id ec socket).manager
  accepted s narrow storage memory ec socket _ _ = s

  -- The loop of stop over a copy of the map.
  unfoldable pub disconnect_each :
      SessionManager Socket → List (ℕ × Session Socket) → SessionManager Socket
  unfolding disconnect_session
  disconnect_each m [] = m
  disconnect_each m ((id, x) ∷ rest) = disconnect_each (disconnect_session m id x) rest

  -- stop up to the flush of the main worker, from the manager; a server at work has one.
  unfoldable pub stop_manager :
      SegmentServer Socket → Code → Code → Option (SessionManager Socket) → SegmentServer Socket
  unfolding close_acceptor disconnect_each
  stop_manager s cancelled closed none = s
  stop_manager s cancelled closed (some m) =
      let shut = (close_acceptor m cancelled closed).manager in
      record s { is_work = false; session_manager = some (disconnect_each shut shut.sessions) }

  unfoldable pub stop_begin : SegmentServer Socket → Code → Code → SegmentServer Socket
  unfolding stop_manager
  stop_begin s cancelled closed =
      if s.is_work then stop_manager s cancelled closed s.session_manager else s

  -- write
  unfoldable pub write : SegmentServer Socket → ℕ → Bytes → Transaction → ℕ → SegmentServer Socket
  unfolding on_manager write_to session_number
  write s id content spare late =
      on_manager s (λ m. write_to platform asio m (session_number id) content spare late)
        s.session_manager
