-- ===== src/Interface.antt =====
-- clientserveriface: what a server and a client are made from, and the calls that the base class of a
-- server gives to every server (server.h, client.h, servercreator.h, clientcreator.h).
use network_application.Base.{ℕ, ℤ, pos, Bytes, codes, Bool, true, false, Option, none, some, ◌++◌}
use network_application.Base.Numerals.{to_string}

-- struct ServerCreatorParams
pub record ServerCreatorParams : Type 0 where
  pub port : ℤ
  pub interval : ℤ
  pub multi_connect : Bool
  pub log_level : ℕ
  pub control_port : Option ℕ

-- Its default member initialisers.
unfoldable pub server_creator_params : ServerCreatorParams
server_creator_params = record {
  port = pos 0;
  interval = pos 8000;
  multi_connect = true;
  log_level = 0;
  control_port = none;
}

-- A bool under std::boolalpha
unfoldable pub bool_text : Bool → Bytes
bool_text true = codes "true"
bool_text false = codes "false"

unfoldable pub control_text : Option ℕ → Bytes
unfolding to_string
control_text none = codes ""
control_text (some n) = codes "controlPort(for dual server): " ++ to_string (pos n)

-- operator<< of ServerCreatorParams
unfoldable pub print_server_params : ServerCreatorParams → Bytes
unfolding to_string bool_text control_text
print_server_params p =
    codes "port: "
    ++ to_string p.port
    ++ codes ", multiconnect: "
    ++ bool_text p.multi_connect
    ++ codes ", interval: "
    ++ to_string p.interval
    ++ control_text p.control_port

-- struct ClientCreatorParams
pub record ClientCreatorParams : Type 0 where
  pub hostname : Bytes
  pub port : ℤ
  pub reconnect_timeout_ms : ℕ
  pub log_level : ℕ
  pub unit_msg_len : ℕ

-- Its default member initialisers.
unfoldable pub client_creator_params : ClientCreatorParams
client_creator_params = record {
  hostname = codes "";
  port = pos 0;
  reconnect_timeout_ms = 0;
  log_level = 0;
  unit_msg_len = 128;
}

-- operator<< of ClientCreatorParams
unfoldable pub print_client_params : ClientCreatorParams → Bytes
unfolding to_string
print_client_params p = codes "timeout: " ++ to_string (pos p.reconnect_timeout_ms) ++ codes " ms"

-- The callbacks of Network::Server and of Network::Client: whether each is set.
pub record Handlers : Type 0 where
  pub new_handler : Bool
  pub close_handler : Bool
  pub read_handler : Bool

-- setNewConnectionHandler
unfoldable pub set_new_connection_handler : Handlers → Bool → Handlers
set_new_connection_handler h b = record h { new_handler = b }

-- setCloseConnectionHandler
unfoldable pub set_close_connection_handler : Handlers → Bool → Handlers
set_close_connection_handler h b = record h { close_handler = b }

-- setReadHandler
unfoldable pub set_read_handler : Handlers → Bool → Handlers
set_read_handler h b = record h { read_handler = b }

-- Network::Server: the calls that a server implements.
pub record Server (S : Type 0) : Type 0 where
  pub start : S → S
  pub stop : S → S
  pub write : S → ℕ → Bytes → S
  pub disconnect : S → ℕ → Option S

module _ {S : Type 0} (server : Server S) where
  open server use {write}

  -- writeControl
  unfoldable pub write_control : S → ℕ → Bytes → S
  write_control s id content = write s id content

  -- writeData
  unfoldable pub write_data : S → ℕ → Bytes → S
  write_data s id content = write s id content

-- Network::Client: the calls that a client implements.
pub record Client (C : Type 0) : Type 0 where
  pub start : C → C
  pub stop : C → C
  pub write : C → Bytes → C
  pub disconnect : C → C
