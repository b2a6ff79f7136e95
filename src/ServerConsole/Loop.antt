-- ===== src/ServerConsole/Loop.antt =====
-- server/main.cpp: the command loop of main, as a state machine on what is entered.
use network_application.Base.{
  ℕ, ℤ, ◌^◌, Bytes, Bool, true, false, ◌&&◌, List, [], ◌∷◌, ◌++◌, Option, none, some, if◌then◌else◌,
  ◌==◌, ltb, residue, to_uint32,
}
use network_application.Base.Table.{lookup, keys, nat_eq}
use network_application.Errors.Codes.{Code}
use network_application.Json.{Platform}
use network_application.Message.{Transaction}
use network_application.Network.{Asio}
use network_application.SessionManager.{SessionManager}
use network_application.SegmentServer.Members.{SegmentServer, sessions_of, get_is_work}
use network_application.SegmentServer.Steps
use network_application.SegmentServer.Steps.{Op, begins, turns, accepts, fails}
use network_application.ServerConsole.Waits.{
  is_outside, any_null, works_at, all_flushed, worker_rounds,
}
use network_application.SegmentServer.Loop.{write, disconnect_id, stop_begin, stop_end}
use network_application.ServerConsole.{
  Command, help, stop, list, broadcast, sends, disconnects, parse_line,
}

-- What main logs, by its kind.
pub data Output : Type 0 where
  write_command help_text message_prompt invalid_port : Output
  server_info : List (ℕ × List ℕ) → Output
  refused : Command → Output

-- What main waits for: a command, the message of a broadcast, or, in stop of the server under a key, the
-- flush of its workers, with the keys that allStop goes on to. It has returned, or a thread has followed
-- the null pointer of a disconnect.
pub data Phase : Type 0 where
  commands message : Phase
  stopping : ℕ → List ℕ → Phase
  stopped crashed : Phase

-- What happens next: a line or SIGINT or SIGTERM comes in, another thread makes a step on the server under
-- a key, or the free workers of that server make a round each.
pub data Input (Socket : Type 0) : Type 0 where
  enters : Bytes → Input Socket
  interrupts : Input Socket
  serves : ℕ → Op Socket → Input Socket
  rounds : ℕ → Input Socket

-- The globals `servers` and `running`, with the place of main and what it has logged, oldest first.
pub record Console (Socket : Type 0) : Type 0 where
  pub running : Bool
  pub servers : List (ℕ × SegmentServer Socket)
  pub phase : Phase
  pub output : List Output

-- The conversion of an `int` to a ConnectionId.
unfoldable pub connection_of : ℤ → ℕ
unfolding residue
connection_of z = residue (2 ^ 64) z

module _ {Socket : Type 0} where
  -- servers[key] = server, in the order of the keys
  unfoldable pub assign_server :
      ℕ → SegmentServer Socket → List (ℕ × SegmentServer Socket) → List (ℕ × SegmentServer Socket)
  assign_server k x [] = (k, x) ∷ []
  assign_server k x ((j, y) ∷ m) =
      let rest = assign_server k x m in
      if ltb k j then (k, x) ∷ (j, y) ∷ m else if j == k then (j, x) ∷ m else (j, y) ∷ rest

  -- A call on the server under a key changes the object behind the pointer.
  unfoldable pub change :
      ℕ
      → (SegmentServer Socket → SegmentServer Socket)
      → List (ℕ × SegmentServer Socket)
      → List (ℕ × SegmentServer Socket)
  change k f [] = []
  change k f ((j, x) ∷ m) = if j == k then (j, f x) ∷ m else (j, x) ∷ change k f m

  -- A call on each server.
  unfoldable pub change_all :
      (SegmentServer Socket → SegmentServer Socket)
      → List (ℕ × SegmentServer Socket)
      → List (ℕ × SegmentServer Socket)
  change_all f [] = []
  change_all f ((j, x) ∷ m) = (j, f x) ∷ change_all f m

  -- alIslWork
  unfoldable pub all_is_work : List (ℕ × SegmentServer Socket) → Bool
  unfolding get_is_work
  all_is_work [] = true
  all_is_work ((j, x) ∷ m) = get_is_work x && all_is_work m

  -- viewListSession
  unfoldable pub view_list_session : List (ℕ × SegmentServer Socket) → List (ℕ × List ℕ)
  unfolding keys
  view_list_session [] = []
  view_list_session ((j, x) ∷ m) = (j, keys (sessions_of x.session_manager)) ∷ view_list_session m

  -- A server with its manager after a disconnect.
  unfoldable pub with_manager :
      SegmentServer Socket → Option (SessionManager Socket) → Option (SegmentServer Socket)
  with_manager x none = none
  with_manager x (some m) = some (record x { session_manager = some m })

  unfoldable pub print : Output → Console Socket → Console Socket
  print o c = record c { output = c.output ++ o ∷ [] }

module _ (platform : Platform) (asio : Asio) (spare : Transaction) (late : ℕ)
    (cancelled closed : Code) where
  open asio use {Socket}

  -- The writes of broadcastWrite to the sessions of one server.
  unfoldable pub write_each : List ℕ → Bytes → SegmentServer Socket → SegmentServer Socket
  unfolding write
  write_each [] content x = x
  write_each (i ∷ is) content x = write_each is content (write platform asio x i content spare late)

  -- broadcastWrite on one server
  unfoldable pub broadcast_write : Bytes → SegmentServer Socket → SegmentServer Socket
  unfolding write_each keys
  broadcast_write content x = write_each (keys (sessions_of x.session_manager)) content x

  -- disconnect of a server, from its manager; none is a null pointer.
  unfoldable pub disconnect_from :
      SegmentServer Socket → ℕ → Option (SessionManager Socket) → Option (SegmentServer Socket)
  unfolding disconnect_id with_manager
  disconnect_from x id none = none
  disconnect_from x id (some m) = with_manager x (disconnect_id platform asio m id)

  -- allStop from the servers that are left, and the return of main. stop of a server that is not at work
  -- returns at once; of another one it goes on up to the flush of its main worker.
  unfoldable pub stop_next : Console Socket → List ℕ → Console Socket
  unfolding stop_begin change works_at
  stop_next c [] = record c { phase = stopped }
  stop_next c (k ∷ ks) =
      let later = stop_next c ks in
      if works_at (lookup k c.servers)
      then record c {
        servers = change k (λ x. stop_begin platform asio x cancelled closed) c.servers;
        phase = stopping k ks;
      }
      else later

  -- allStop
  unfoldable pub finish : Console Socket → Console Socket
  unfolding stop_next keys
  finish c = stop_next c (keys c.servers)

  -- The stop that main is in, from its server: once the main thread is out of the accept loop the workers
  -- are flushed, and when all have ended main goes on to the next server.
  unfoldable pub go_on :
      Console Socket → ℕ → List ℕ → Option (SegmentServer Socket) → Console Socket
  unfolding stop_end change stop_next is_outside all_flushed
  go_on c k ks none = c
  go_on c k ks (some x) =
      let y = stop_end x x.place in
      let d = record c { servers = change k (λ _. y) c.servers } in
      let next = stop_next d ks in if is_outside x.place && all_flushed y then next else d

  -- After a step of other threads: a null pointer ends the program.
  unfoldable pub after_step : Console Socket → Phase → Console Socket
  unfolding go_on lookup any_null
  after_step c (stopping k ks) =
      if any_null c.servers then record c { phase = crashed } else go_on c k ks (lookup k c.servers)
  after_step c stopped = c
  after_step c crashed = c
  after_step c p = if any_null c.servers then record c { phase = crashed } else c

  -- A step of another thread than main on a server.
  unfoldable pub thread_step : Op Socket → SegmentServer Socket → SegmentServer Socket
  unfolding Steps.step
  thread_step begins x = Steps.step platform asio x begins
  thread_step (turns id) x = Steps.step platform asio x (turns id)
  thread_step (accepts narrow storage memory ec socket) x =
      Steps.step platform asio x (accepts narrow storage memory ec socket)
  thread_step (fails id) x = Steps.step platform asio x (fails id)
  thread_step _ x = x

  -- The tests of both loops, and the prompt of the next round.
  unfoldable pub next_round : Console Socket → Console Socket
  unfolding all_is_work finish print
  next_round c =
      if c.running && all_is_work c.servers
      then print write_command (record c { phase = commands })
      else finish c

  -- A disconnect, from its result.
  unfoldable pub disconnected : Console Socket → ℕ → Option (SegmentServer Socket) → Console Socket
  unfolding change next_round
  disconnected c key none = record c { phase = crashed }
  disconnected c key (some y) = next_round (record c { servers = change key (λ _. y) c.servers })

  -- A command for a session, from servers.find(id_server).
  unfoldable pub to_server :
      Console Socket → ℕ → Command → Option (SegmentServer Socket) → Console Socket
  unfolding write change disconnected disconnect_from next_round print connection_of
  to_server c key (sends p i content) (some x) = next_round (record c {
    servers =
        change key (λ y. write platform asio y (connection_of i) content spare late) c.servers;
  })
  to_server c key (disconnects p i) (some x) =
      disconnected c key (disconnect_from x (connection_of i) x.session_manager)
  to_server c key _ _ = next_round (print invalid_port c)

  unfoldable pub execute : Console Socket → Command → Console Socket
  unfolding to_server lookup view_list_session next_round finish print to_uint32
  execute c help = next_round (print help_text c)
  execute c stop = finish c
  execute c list = next_round (print (server_info (view_list_session c.servers)) c)
  execute c broadcast = print message_prompt (record c { phase = message })
  execute c (sends p i content) =
      to_server c (to_uint32 p) (sends p i content) (lookup (to_uint32 p) c.servers)
  execute c (disconnects p i) =
      to_server c (to_uint32 p) (disconnects p i) (lookup (to_uint32 p) c.servers)
  execute c other = next_round (print (refused other) c)

  unfoldable pub read_line : Console Socket → Bytes → Phase → Console Socket
  unfolding execute parse_line change_all broadcast_write next_round
  read_line c line commands = execute c (parse_line line)
  read_line c line message =
      next_round (record c { servers = change_all (broadcast_write line) c.servers })
  read_line c line _ = c

  unfoldable pub step : Console Socket → Input Socket → Console Socket
  unfolding read_line after_step thread_step worker_rounds change
  step c (enters line) = read_line c line c.phase
  step c interrupts = record c { running = false }
  step c (serves k o) =
      after_step (record c { servers = change k (thread_step o) c.servers }) c.phase
  step c (rounds k) = after_step (record c { servers = change k worker_rounds c.servers }) c.phase

  unfoldable pub run : Console Socket → List (Input Socket) → Console Socket
  unfolding step
  run c [] = c
  run c (i ∷ is) = run (step c i) is
