-- ===== src/SegmentServer/Members.antt =====
-- server/lib/segment_server.cpp: the members of the server, its constructor, its setters and the IDs.
use network_application.Base.{
  ℕ, ℤ, ◌+◌, ◌-◌, ◌%◌, ◌^◌, to_uint32, Bytes, Bool, true, false, List, [], Option, none, some,
  if◌then◌else◌, ltb,
}
use network_application.Base.Table.{nat_eq}
use network_application.Interface.{ServerCreatorParams}
use network_application.Network.{IoMode, sync}
use network_application.Session.{Session}
use network_application.SessionManager.{SessionManager}
use network_application.Worker.{Worker, worker}

-- Where the thread of the main worker is: outside the accept loop, at its test of isWork, in addSession
-- of a number, or at the null pointer that disconnect has followed.
pub data Place : Type 0 where
  outside testing : Place
  adding : ℕ → Place
  null_pointer : Place

-- The members of SegmentServer but the io_context, with the place of its main thread. A session worker
-- stands with the ID that its task has captured.
pub record SegmentServer (Socket : Type 0) : Type 0 where
  pub multi_connect : Bool
  pub address : Bytes
  pub port : ℕ
  pub mode : IoMode
  pub is_work : Bool
  pub id_distribution_handler : Bool
  pub read_handler : Bool
  pub magic_number : ℕ
  pub main_worker : Worker
  pub session_workers : List (ℕ × Worker)
  pub session_manager : Option (SessionManager Socket)
  pub place : Place

-- The map of the manager, empty before the first start.
abbrev pub sessions_of :
    {Socket : Type 0} → Option (SessionManager Socket) → List (ℕ × Session Socket)
sessions_of none = []
sessions_of (some m) = m.sessions

-- The accept loop, as a task of the main worker.
abbrev pub accept_loop : ℕ
accept_loop = 0

-- The conversion of a ConnectionId to the `unsigned int` of the session manager.
unfoldable pub session_number : ℕ → ℕ
session_number id = id % 2 ^ 32

-- handlerID: the counter is a 32-bit `int` that wraps, here by its bits, and the result is widened to
-- size_t with its sign. The addition and the load are two atomic steps, and one here: calls do not overlap.
unfoldable pub next_id : ℕ → ℕ
next_id c = (c + 1) % 2 ^ 32

unfoldable pub connection_id : ℕ → ℕ
connection_id c = if ltb c (2 ^ 31) then c else 2 ^ 64 - 2 ^ 32 + c

module _ {Socket : Type 0} where
  -- SegmentServer(address, port, multiConnect), with the port as a uint32_t; the magic number is what the memory held.
  unfoldable pub segment_server : Bytes → ℤ → Bool → ℕ → SegmentServer Socket
  unfolding worker to_uint32
  segment_server address port multi_connect memory = record {
    multi_connect = multi_connect;
    address = address;
    port = to_uint32 port;
    mode = sync;
    is_work = false;
    id_distribution_handler = false;
    read_handler = false;
    magic_number = memory;
    main_worker = worker;
    session_workers = [];
    session_manager = none;
    place = outside;
  }

  -- setIdDistributionHandler
  unfoldable pub set_id_distribution_handler : SegmentServer Socket → SegmentServer Socket
  set_id_distribution_handler s = record s { id_distribution_handler = true }

  -- setReadHandler
  unfoldable pub set_read_handler : SegmentServer Socket → Bool → SegmentServer Socket
  set_read_handler s b = record s { read_handler = b }

  -- setIOMode
  unfoldable pub set_io_mode : SegmentServer Socket → IoMode → SegmentServer Socket
  set_io_mode s mode = record s { mode = mode }

  -- setMagicNumber
  unfoldable pub set_server_magic : SegmentServer Socket → ℕ → SegmentServer Socket
  set_server_magic s n = record s { magic_number = n }

  -- getIsWork
  unfoldable pub get_is_work : SegmentServer Socket → Bool
  get_is_work s = s.is_work

  -- SegmentServerCreator::create
  unfoldable pub create : ServerCreatorParams → ℕ → SegmentServer Socket
  unfolding segment_server
  create params memory = segment_server [] params.port params.multi_connect memory
