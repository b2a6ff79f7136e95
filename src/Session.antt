-- ===== src/Session.antt =====
-- core/session: a socket with its connect, transport and message handlers (session.h, session.cpp).
-- The callbacks that a session sets on its handlers are interpreted here; the callbacks that its user
-- sets show as events.
pub mod Calls
pub mod Told
pub mod Failure
pub mod Delivery
use network_application.Base.{
  ℕ, ℤ, String, Bytes, Bool, true, false, not, List, [], ◌∷◌, ◌++◌, map, Option, none, some,
  if◌then◌else◌,
}
use network_application.Base.Outcome.{Outcome, returns}
use network_application.Errors.{check_error}
use network_application.Errors.Codes.{Code, success}
use network_application.Json.{Platform}
use network_application.Logger.{Entry, Part, lit}
use network_application.Message.{Transaction, Message, TransportMessage}
use network_application.MessageHandler.{
  CreatorMessage, message_handler, parse_message, serialize_message,
}
use network_application.Network.{Asio, Endpoint, IoMode, sync, async}
use network_application.Connection
use network_application.Connection.{ConnectHandler, connect_handler}
use network_application.Transport
use network_application.Transport.{TransportHandler, transport_handler, mode_name}
use network_application.Transport.Read
use network_application.Transport.Write

pub data Event : Type 0 where
  logs : Entry → Event
  errors : Code → Event
  reads : ℕ → Bytes → ℕ → Event
  writes : Bytes → ℕ → Event
  connected : Code → Event
  accepted : Code → Event
  disconnected : Code → Event
  all_written : Code → Event
  all_read : Code → Option Message → Event

-- The members of Session; a callback of the user is shown by whether it is set.
pub record Session (Socket : Type 0) : Type 0 where
  pub mode : IoMode
  pub critical_error : Bool
  pub connection : ConnectHandler
  pub transport : TransportHandler
  pub creator : CreatorMessage
  pub socket : Socket
  pub on_connect : Bool
  pub on_accept : Bool
  pub on_disconnect : Bool
  pub on_all_write : Bool
  pub on_all_read : Bool

pub record Acted (Socket : Type 0) : Type 0 where
  pub events : List Event
  pub session : Session Socket

unfoldable pub when : Bool → Event → List Event
when b e = if b then e ∷ [] else []

-- getSyncOrAsync in a function name
abbrev pub place : String → IoMode → List Part
place name mode = lit name ∷ mode_name mode ∷ []

module _ {Socket : Type 0} where
  -- Session(io, mode) on a new socket; `memory` is the indeterminate magic number and `number` what
  -- the storage of a new message holds.
  unfoldable pub session : (ℕ → ℕ) → ℤ → ℕ → Socket → IoMode → Session Socket
  unfolding connect_handler transport_handler message_handler
  session narrow number memory s mode = record {
    mode = mode;
    critical_error = false;
    connection = connect_handler;
    transport = transport_handler memory;
    creator = message_handler narrow number;
    socket = s;
    on_connect = false;
    on_accept = false;
    on_disconnect = false;
    on_all_write = false;
    on_all_read = false;
  }

  -- setOnConnect
  unfoldable pub set_on_connect : Session Socket → Bool → Session Socket
  set_on_connect x b = record x { on_connect = b }

  -- setOnAccept
  unfoldable pub set_on_accept : Session Socket → Bool → Session Socket
  set_on_accept x b = record x { on_accept = b }

  -- setOnDisconnect
  unfoldable pub set_on_disconnect : Session Socket → Bool → Session Socket
  set_on_disconnect x b = record x { on_disconnect = b }

  -- setOnReadHandler
  unfoldable pub set_on_read_handler : Session Socket → Bool → Session Socket
  unfolding Transport.set_on_read_handler
  set_on_read_handler x b = record x { transport = Transport.set_on_read_handler x.transport b }

  -- setOnAllRead
  unfoldable pub set_on_all_read : Session Socket → Bool → Session Socket
  set_on_all_read x b = record x { on_all_read = b }

  -- setOnAllWrite
  unfoldable pub set_on_all_write : Session Socket → Bool → Session Socket
  set_on_all_write x b = record x { on_all_write = b }

  -- setOnError
  unfoldable pub set_on_error : Session Socket → Bool → Session Socket
  unfolding Transport.set_on_error Connection.set_on_error
  set_on_error x b = record x {
    transport = Transport.set_on_error x.transport b;
    connection = Connection.set_on_error x.connection b;
  }

  -- setMagicNumber
  unfoldable pub set_magic_number : Session Socket → ℕ → Session Socket
  unfolding Transport.set_magic_number
  set_magic_number x n = record x { transport = Transport.set_magic_number x.transport n }

  -- hasError
  unfoldable pub has_error : Session Socket → Bool
  has_error x = x.critical_error

  -- The callbacks that connect and disconnect set on the connect handler.
  unfoldable pub on_connection : Session Socket → Connection.Event → List Event
  unfolding when check_error mode_name
  on_connection x (Connection.logs e) = logs e ∷ []
  on_connection x (Connection.errors c) = errors c ∷ []
  on_connection x (Connection.connects c) =
      map logs (check_error c (place "Session::connect." x.mode) true).logged
      ++ when x.on_connect (connected c)
  on_connection x (Connection.disconnects c) =
      map logs (check_error c (lit "Session::disconnect" ∷ []) true).logged
      ++ when x.on_disconnect (disconnected c)

  unfoldable pub on_connections : Session Socket → List Connection.Event → List Event
  unfolding on_connection
  on_connections x [] = []
  on_connections x (e ∷ es) = on_connection x e ++ on_connections x es

  -- accept: what the callback set on the accept handler does with the code.
  unfoldable pub on_accepted : Session Socket → Code → List Event
  unfolding when check_error mode_name
  on_accepted x c =
      map logs (check_error c (place "Session::accept." x.mode) true).logged
      ++ when x.on_accept (accepted c)
