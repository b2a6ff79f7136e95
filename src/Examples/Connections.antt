-- ===== src/Examples/Connections.antt =====
-- The theorems on the connect handler at concrete inputs.
use network_application.Base.{◌≡◌, [], ◌∷◌, true, false, codes}
use network_application.Errors.Codes.{success, other}
use network_application.Network.{Endpoint, sync}
use network_application.Connection.{ConnectHandler, disconnect, connect}
use network_application.Connection.Laws.{connections, disconnections, connection-reported}
use network_application.Examples.Wire.{network, arriving, wire_close, wire_connect}

abbrev all_set : ConnectHandler
all_set = record { on_connect = true; on_disconnect = true; on_error = true }

-- Port 0 times out.
abbrev silent : Endpoint
silent = record { address = codes "127.0.0.1"; port = 0 }

connection-reported_example :
    (connections (connect network all_set silent sync (arriving [])).events ≡ other 110 ∷ [])
    × (network.is_open (connect network all_set silent sync (arriving [])).socket ≡ false)
    × (network.is_open (disconnect network all_set (arriving [])).socket ≡ false)
    × (disconnections (disconnect network all_set (arriving [])).events ≡ success ∷ [])
unfolding wire_connect wire_close
connection-reported_example =
    connection-reported network all_set silent sync (arriving []) (arriving []) (λ f. f)
