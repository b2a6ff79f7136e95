-- ===== src/SegmentClient.antt =====
-- client/lib/segment_client.cpp: starting and stopping the client. Its `write` makes the same message as
-- the server's.
pub mod Laws
pub mod Reads
use network_application.Base.{
  ℕ, ℤ, ◌==◌, Bool, true, false, List, [], ◌∷◌, none, some, if◌then◌else◌, Bytes,
}
use network_application.Errors.Codes.{Code, is_error}
use network_application.Json.{Platform}
use network_application.Message.{Transaction}
use network_application.Network.{Asio, Endpoint, sync}
use network_application.SegmentServer.{message_of}
use network_application.Session
use network_application.Session.{
  Session, Acted, session, set_on_connect, set_on_read_handler, set_on_all_read, set_magic_number,
}
use network_application.Session.Calls
use network_application.Session.Calls.{disconnect}
use network_application.Worker.{Worker, worker, task, add_task, flush_begin}

-- The members of SegmentClient but the io_context and the address.
pub record SegmentClient (Socket : Type 0) : Type 0 where
  pub session : Session Socket
  pub main_worker : Worker
  pub is_work : Bool
  pub magic_number : ℕ
  pub read_handler : Bool

-- The read loop, as a task of the worker.
abbrev pub read_loop : ℕ
read_loop = 0

module _ {Socket : Type 0} where
  -- SegmentClient(address, port): the session has the mode Sync. `memory` is the indeterminate magic
  -- number of the client and of the transport.
  unfoldable pub segment_client : (ℕ → ℕ) → ℤ → ℕ → Socket → SegmentClient Socket
  unfolding session worker
  segment_client narrow storage memory socket = record {
    session = session narrow storage memory socket sync;
    main_worker = worker;
    is_work = false;
    magic_number = memory;
    read_handler = false;
  }

  -- setMagicNumber
  unfoldable pub set_client_magic : SegmentClient Socket → ℕ → SegmentClient Socket
  set_client_magic c n = record c { magic_number = n }

module _ (asio : Asio) where
  open asio use {Socket}

  -- stop up to the wait of flush
  unfoldable pub stop : SegmentClient Socket → SegmentClient Socket
  unfolding disconnect flush_begin
  stop c =
      if c.is_work
      then record c {
        is_work = false;
        session = (disconnect asio c.session).session;
        main_worker = flush_begin c.main_worker;
      }
      else c

  -- The callback that connect sets as onConnect, over the events of the session's connect.
  unfoldable pub on_connect : SegmentClient Socket → List Session.Event → SegmentClient Socket
  unfolding stop is_error
  on_connect c [] = c
  on_connect c (Session.connected ec ∷ es) = on_connect (if is_error ec then stop c else c) es
  on_connect c (e ∷ es) = on_connect c es

  -- connect with this session, of the client's address and port as an endpoint
  unfoldable pub connect_session :
      SegmentClient Socket → Session Socket → Endpoint → SegmentClient Socket
  unfolding on_connect set_on_connect Calls.connect
  connect_session c x e =
      let a = Calls.connect asio (set_on_connect x true) e in
      on_connect (record c { session = a.session }) a.events

  -- connect
  unfoldable pub connect : SegmentClient Socket → Endpoint → SegmentClient Socket
  unfolding connect_session set_on_read_handler
  connect c e =
      connect_session c (if c.read_handler then set_on_read_handler c.session true else c.session) e

  -- start
  unfoldable pub start : SegmentClient Socket → Endpoint → SegmentClient Socket
  unfolding set_magic_number connect set_on_all_read add_task task
  start c e =
      let magic =
        if c.magic_number == 0 then c.session else set_magic_number c.session c.magic_number in
      let d = connect (record c { is_work = true; session = magic }) e in
      record d {
        session = set_on_all_read d.session true;
        main_worker = add_task d.main_worker (task read_loop);
      }

  -- write
  unfoldable pub write_text :
      Platform → SegmentClient Socket → Bytes → Transaction → ℕ → SegmentClient Socket
  unfolding message_of Calls.write
  write_text platform c content spare late = record c {
    session = (Calls.write asio platform c.session spare (some (message_of content)) late).session;
  }
