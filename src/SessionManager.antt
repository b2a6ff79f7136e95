-- ===== src/SessionManager.antt =====
-- core/session: the sessions of a server by their number (session_manager.h, session_manager.cpp). The
-- map holds the current state of each session. The part of an operation under the mutex is one step.
pub mod Laws
pub mod Destroy
pub mod Numbers
pub mod Refinement
use network_application.Base.{
  ℕ, ℤ, String, ◌==◌, Bool, true, false, List, [], ◌∷◌, ◌++◌, map, Option, none, some,
  if◌then◌else◌, length,
}
use network_application.Base.Table.{lookup, insert, erase, nat_eq}
use network_application.Errors.{Logged, check_error}
use network_application.Errors.Codes.{Code, success, is_error}
use network_application.Logger.{Entry, LogLevel, warn, Part, lit, number}
use network_application.Network.{Asio, IoMode, sync, async}
use network_application.Connection.Accept
use network_application.Connection.Accept.{AcceptHandler}
use network_application.Session
use network_application.Session.{
  Session, session, set_magic_number, set_on_read_handler, set_on_error, set_on_accept, on_accepted,
}
use network_application.Session.Calls.{disconnect}

pub data Event : Type 0 where
  logs : Entry → Event
  of_session : ℕ → Session.Event → Event
  of_acceptor : Accept.Event → Event

-- The members of SessionManager but the io_context. `accepting` is the number of the session whose
-- callback is the acceptor's onAccept.
pub record SessionManager (Socket : Type 0) : Type 0 where
  pub mode : IoMode
  pub sessions : List (ℕ × Session Socket)
  pub read_handler : Bool
  pub magic_number : ℕ
  pub acceptor : AcceptHandler
  pub accepting : Option ℕ

pub record Managed (Socket : Type 0) : Type 0 where
  pub events : List Event
  pub manager : SessionManager Socket

abbrev numbered : String → ℕ → List Part
numbered name id = lit name ∷ number id ∷ lit "}" ∷ []

module _ {Socket : Type 0} where
  -- SessionManager(io_context, mode, port); the magic number is what the memory held.
  unfoldable pub session_manager : IoMode → ℕ → AcceptHandler → SessionManager Socket
  session_manager mode memory acceptor = record {
    mode = mode;
    sessions = [];
    read_handler = false;
    magic_number = memory;
    acceptor = acceptor;
    accepting = none;
  }

  -- setMagicNumber
  unfoldable pub set_manager_magic : SessionManager Socket → ℕ → SessionManager Socket
  set_manager_magic m n = record m { magic_number = n }

  -- setSessionOnReadHandler
  unfoldable pub set_session_on_read_handler : SessionManager Socket → Bool → SessionManager Socket
  set_session_on_read_handler m b = record m { read_handler = b }

  -- getSessionCount
  unfoldable pub get_session_count : SessionManager Socket → ℕ
  get_session_count m = length m.sessions

  -- getSession, with its record of an unknown number
  unfoldable pub get_session : SessionManager Socket → ℕ → Logged (Option (Session Socket))
  unfolding lookup
  get_session m id = record {
    result = lookup id m.sessions;
    logged = elim (lookup id m.sessions) [
      | some s ↦ []
      | none ↦
          record {
            level = warn;
            function = numbered "SessionManager::getSession{sessionID=" id;
            text = lit "Code = [ Not Found ]" ∷ [];
          }
          ∷ []
    ];
  }

  -- removeSession from the result of getSession.
  unfoldable pub remove_found : SessionManager Socket → ℕ → Option (Session Socket) → Managed Socket
  unfolding get_session erase check_error
  remove_found m id none = record { events = map logs (get_session m id).logged; manager = m }
  remove_found m id (some s) = record {
    events =
        map logs
          (check_error success (numbered "SessionManager::removeSession{sessionID=" id)
            true).logged;
    manager = record m { sessions = erase id m.sessions };
  }

  -- removeSession
  unfoldable pub remove_session : SessionManager Socket → ℕ → Managed Socket
  unfolding remove_found get_session
  remove_session m id = remove_found m id (get_session m id).result

  -- The session that addSession makes on a new socket; `narrow`, `storage` and `memory` are those of
  -- Session().
  unfoldable pub make_session : SessionManager Socket → (ℕ → ℕ) → ℤ → ℕ → Socket → Session Socket
  unfolding session set_magic_number set_on_read_handler set_on_error set_on_accept
  make_session m narrow storage memory socket =
      let fresh = session narrow storage memory socket m.mode in
      let magic = if m.magic_number == 0 then fresh else set_magic_number fresh m.magic_number in
      let reading = if m.read_handler then set_on_read_handler magic true else magic in
      set_on_accept (set_on_error reading true) true

  -- The callback that addSession sets as onAccept of the session, on an error: a session under the
  -- number is removed.
  unfoldable pub accept_failed :
      SessionManager Socket → ℕ → Option (Session Socket) → Managed Socket
  unfolding remove_session
  accept_failed m id none = record { events = []; manager = m }
  accept_failed m id (some old) = remove_session m id

  -- The same callback as a whole.
  unfoldable pub session_accepted :
      SessionManager Socket → ℕ → Session Socket → Code → Managed Socket
  unfolding lookup insert accept_failed is_error check_error
  session_accepted m id s ec =
      if is_error ec then accept_failed m id (lookup id m.sessions) else record {
        events =
            map logs
              (check_error success (numbered "SessionManager::addSession{sessionID=" id)
                true).logged;
        manager = record m { sessions = insert id s m.sessions };
      }

  abbrev then_ : List Event → Managed Socket → Managed Socket
  then_ before a = record { events = before ++ a.events; manager = a.manager }

  -- An event of the new session while it is accepted.
  unfoldable pub on_session_events :
      SessionManager Socket → ℕ → Session Socket → List Session.Event → Managed Socket
  unfolding session_accepted
  on_session_events m id s [] = record { events = []; manager = m }
  on_session_events m id s (Session.accepted c ∷ es) =
      let first = session_accepted m id s c in
      then_ first.events (on_session_events first.manager id s es)
  on_session_events m id s (e ∷ es) = then_ (of_session id e ∷ []) (on_session_events m id s es)

  -- An event of the acceptor: onAccept is the callback that Session::accept has set.
  unfoldable pub on_acceptor_events :
      SessionManager Socket → ℕ → Session Socket → List Accept.Event → Managed Socket
  unfolding on_session_events on_accepted
  on_acceptor_events m id s [] = record { events = []; manager = m }
  on_acceptor_events m id s (Accept.accepts c ∷ es) =
      let first = on_session_events m id s (on_accepted s c) in
      then_ first.events (on_acceptor_events first.manager id s es)
  on_acceptor_events m id s (e ∷ es) = then_ (of_acceptor e ∷ []) (on_acceptor_events m id s es)

  -- Session::accept past setOnAccept. In the mode Sync it waits for the acceptor's report `ec`; in the
  -- mode Async it returns at once, and `ec` has no meaning.
  unfoldable pub accept_session :
      SessionManager Socket → ℕ → Code → Session Socket → IoMode → Managed Socket
  unfolding Accept.accept on_acceptor_events
  accept_session m id ec s sync = on_acceptor_events m id s (Accept.accept m.acceptor sync ec)
  accept_session m id ec s async = record { events = []; manager = m }

  -- addSession of this session, from the result of find.
  unfoldable pub add_unless :
      SessionManager Socket
      → ℕ
      → Code
      → Session Socket
      → IoMode
      → Option (Session Socket)
      → Managed Socket
  unfolding Accept.set_on_accept accept_session
  add_unless m id ec s mode (some old) = record {
    events =
        logs (record {
          level = warn;
          function = lit "SessionManager::addSession" ∷ [];
          text = lit "Code = [ Already Exists ]" ∷ [];
        })
        ∷ [];
    manager = m;
  }
  add_unless m id ec s mode none =
      accept_session
        (record m { acceptor = Accept.set_on_accept m.acceptor true; accepting = some id }) id ec s
        mode

  -- addSession on the number `id`; in the mode Sync the acceptor reports `ec`.
  unfoldable pub add_session :
      SessionManager Socket → (ℕ → ℕ) → ℤ → ℕ → ℕ → Code → Socket → Managed Socket
  unfolding lookup make_session add_unless
  add_session m narrow storage memory id ec socket =
      add_unless m id ec (make_session m narrow storage memory socket) m.mode (lookup id m.sessions)

  -- The number that the acceptor's onAccept stands for, where it is set.
  unfoldable pub target : SessionManager Socket → Option ℕ
  target m = if m.acceptor.on_accept then m.accepting else none

  -- The completion handler of async_accept, from the target: the callback is that of the last addSession,
  -- whichever accept has ended. `s` is the session that the callback holds, as it is by then.
  unfoldable pub complete :
      SessionManager Socket → Code → Session Socket → Option ℕ → Managed Socket
  unfolding Accept.async_accept on_acceptor_events
  complete m ec s none = record {
    events = map of_acceptor (Accept.async_accept m.acceptor ec);
    manager = m;
  }
  complete m ec s (some id) = on_acceptor_events m id s (Accept.async_accept m.acceptor ec)

  unfoldable pub accept_completed : SessionManager Socket → Code → Session Socket → Managed Socket
  unfolding complete target
  accept_completed m ec s = complete m ec s (target m)

  -- After addSession, the completion of its own accept, where it is still to come.
  unfoldable pub settle :
      Code → Session Socket → IoMode → Option (Session Socket) → Managed Socket → Managed Socket
  unfolding accept_completed
  settle ec s async none a = then_ a.events (accept_completed a.manager ec s)
  settle ec s _ _ a = a

  -- addSession, and in the mode Async the completion of its accept right after it.
  unfoldable pub settled :
      SessionManager Socket → (ℕ → ℕ) → ℤ → ℕ → ℕ → Code → Socket → Managed Socket
  unfolding lookup make_session add_session settle
  settled m narrow storage memory id ec socket =
      settle ec (make_session m narrow storage memory socket) m.mode (lookup id m.sessions)
        (add_session m narrow storage memory id ec socket)

  -- closeAcceptor; the codes are those of cancel and of close.
  unfoldable pub close_acceptor : SessionManager Socket → Code → Code → Managed Socket
  unfolding Accept.close
  close_acceptor m cancelled closed =
      let c = Accept.close m.acceptor cancelled closed in
      record { events = map of_acceptor c.1; manager = record m { acceptor = c.0 } }

-- What the destructor leaves: the manager, and the sessions that it has disconnected.
pub record Destroyed (Socket : Type 0) : Type 0 where
  pub manager : SessionManager Socket
  pub disconnected : List (Session Socket)

module _ (asio : Asio) where
  open asio use {Socket}

  -- The loop of the destructor over a copy of the map, its events left out.
  unfoldable pub disconnect_all :
      SessionManager Socket → List (ℕ × Session Socket) → Destroyed Socket
  unfolding remove_session disconnect set_on_error
  disconnect_all m [] = record { manager = m; disconnected = [] }
  disconnect_all m ((id, s) ∷ rest) =
      let gone = disconnect asio (set_on_error s false) in
      let after = disconnect_all (remove_session m id).manager rest in
      record { manager = after.manager; disconnected = gone.session ∷ after.disconnected }

  -- ~SessionManager
  unfoldable pub destroy : SessionManager Socket → Code → Code → Destroyed Socket
  unfolding disconnect_all close_acceptor
  destroy m cancelled closed =
      let all = disconnect_all m m.sessions in
      record {
        manager = (close_acceptor all.manager cancelled closed).manager;
        disconnected = all.disconnected;
      }
