-- ===== src/Connection.antt =====
-- core/connection: connecting and disconnecting a socket (connect_handler.cpp).
pub mod Accept
pub mod Laws
use network_application.Base.{
  Bool, true, false, not, List, [], ◌∷◌, ◌++◌, map, ◌&&◌, ◌≡◌, if◌then◌else◌, String,
}
use network_application.Errors.Codes.{Code, is_error}
use network_application.Errors.{check_error}
use network_application.Logger.{Entry, lit}
use network_application.Network.{Asio, Endpoint, IoMode, sync, async, Reported}

pub data Event : Type 0 where
  logs : Entry → Event
  errors : Code → Event
  connects : Code → Event
  disconnects : Code → Event

-- Which callbacks of ConnectHandler are set.
pub record ConnectHandler : Type 0 where
  pub on_connect : Bool
  pub on_disconnect : Bool
  pub on_error : Bool

-- ConnectHandler(socket)
unfoldable pub connect_handler : ConnectHandler
connect_handler = record { on_connect = false; on_disconnect = false; on_error = false }

-- setOnConnect
unfoldable pub set_on_connect : ConnectHandler → Bool → ConnectHandler
set_on_connect h b = record h { on_connect = b }

-- setOnDisconnect
unfoldable pub set_on_disconnect : ConnectHandler → Bool → ConnectHandler
set_on_disconnect h b = record h { on_disconnect = b }

-- setOnError
unfoldable pub set_on_error : ConnectHandler → Bool → ConnectHandler
set_on_error h b = record h { on_error = b }

unfoldable pub when : Bool → Event → List Event
when b e = if b then e ∷ [] else []

pub record Done (Socket : Type 0) : Type 0 where
  pub events : List Event
  pub socket : Socket

-- The report of shutdown or of close inside `disconnect`.
unfoldable pub report : ConnectHandler → Code → String → List Event
unfolding is_error when check_error
report h ec name =
    if is_error ec
    then when h.on_error (errors ec) ++ map logs (check_error ec (lit name ∷ []) false).logged
    else []

module _ (asio : Asio) where
  open asio use {Socket}

  -- disconnect
  unfoldable pub disconnect : ConnectHandler → Socket → Done Socket
  unfolding report when
  disconnect h s =
      if not (asio.is_open s)
      then record { events = []; socket = s }
      else let down = asio.shutdown s in
        let closed = asio.close down.socket in
        record {
          events =
              report h down.code "ConnectionHandler::disconnect(shutdown)"
              ++ (report h closed.code "ConnectionHandler::disconnect(close)"
                  ++ when h.on_disconnect (disconnects closed.code));
          socket = closed.socket;
        }

  -- What both modes do with the report of the connection.
  unfoldable pub report_connect : ConnectHandler → Code → String → Socket → Done Socket
  unfolding check_error when disconnect
  report_connect h ec name s =
      let seen = check_error ec (lit name ∷ []) false in
      let gone = disconnect h s in
      if seen.result
      then record {
        events =
            map logs seen.logged
            ++ (when h.on_error (errors ec) ++ (gone.events ++ when h.on_connect (connects ec)));
        socket = gone.socket;
      }
      else record { events = map logs seen.logged ++ when h.on_connect (connects ec); socket = s }

  -- sync_connect
  unfoldable pub sync_connect : ConnectHandler → Endpoint → Socket → Done Socket
  unfolding report_connect
  sync_connect h e s =
      let made = asio.connect s e in
      report_connect h made.code "ConnectionHandler::connect.sync" made.socket

  -- async_connect with its completion handler
  unfoldable pub async_connect : ConnectHandler → Endpoint → Socket → Done Socket
  unfolding report_connect
  async_connect h e s =
      let made = asio.connect s e in
      report_connect h made.code "ConnectionHandler::connect.async" made.socket

  -- connect(endpoint, mode)
  unfoldable pub connect : ConnectHandler → Endpoint → IoMode → Socket → Done Socket
  unfolding sync_connect async_connect
  connect h e sync s = sync_connect h e s
  connect h e async s = async_connect h e s
