-- ===== src/ServerConsole/Configure.antt =====
-- server/main.cpp: the servers that main makes from its configuration, and their start.
use network_application.Base.{
  ℕ, ℤ, suc, ◌^◌, ◌==◌, Bool, true, List, [], Option, if◌then◌else◌, to_int32, to_uint32,
}
use network_application.Base.Outcome.{Outcome, returns, ◌>>=◌}
use network_application.Configuration.{ports, multi_connect, magic}
use network_application.Errors.Codes.{Code}
use network_application.Interface.{server_creator_params}
use network_application.Json.{
  object, Items, nil, cons, Fields, at_key, as_int64, as_bool, as_array, to_uint32_number,
  first_item, other_items, Platform,
}
use network_application.Message.{Transaction}
use network_application.Network.{Asio}
use network_application.SegmentServer.Members.{
  SegmentServer, create, set_server_magic, set_id_distribution_handler, set_read_handler,
}
use network_application.SegmentServer.Loop.{start_begin, start_end}
use network_application.ServerConsole.Loop.{
  Console, commands, assign_server, change_all, next_round,
}

-- The key of a port: int64_t to int32_t, and that to uint32_t.
unfoldable pub port_key : ℤ → ℕ
unfolding to_int32 to_uint32
port_key port = to_uint32 (to_int32 port)

module _ {Socket : Type 0} where
  -- The server of one round of the loop of main: SegmentServerCreator::create and the setters. `memory`
  -- is what the magic number's memory held.
  unfoldable pub make_server : ℕ → ℤ → Bool → ℕ → SegmentServer Socket
  unfolding create server_creator_params set_server_magic set_id_distribution_handler
      set_read_handler to_int32
  make_server memory port multi number =
      set_read_handler
        (set_id_distribution_handler (
          set_server_magic
            (create (record server_creator_params { port = to_int32 port; multi_connect = multi })
              memory)
            number))
        true

module _ (Socket : Type 0) (exact : ℕ → Option ℕ) (memory : ℕ) where
  -- The loop of main from its index, a `short` that wraps after 32767, over the rest of each array.
  unfoldable pub make_servers :
      ℕ
      → Items
      → Items
      → Items
      → List (ℕ × SegmentServer Socket)
      → Outcome (List (ℕ × SegmentServer Socket))
  unfolding as_int64 as_bool to_uint32_number first_item other_items make_server assign_server
      port_key
  make_servers i nil ms gs servers = returns servers
  make_servers i (cons p ps) ms gs servers =
      let go = as_int64 p >>= λ port. (first_item ms >>= as_bool) >>= λ multi.
      (first_item gs >>= to_uint32_number exact) >>= λ number.
      make_servers (suc i) ps (other_items ms) (other_items gs)
        (assign_server (port_key port) (make_server memory port multi number) servers) in
      if i == 2 ^ 15 then returns servers else go

  -- The body of main's try, from the object of the configuration.
  unfoldable pub configure : Fields → Outcome (List (ℕ × SegmentServer Socket))
  unfolding at_key as_array make_servers
  configure config = (at_key ports (object config) >>= as_array) >>= λ ps.
      (at_key multi_connect (object config) >>= as_array) >>= λ ms.
      (at_key magic (object config) >>= as_array) >>= λ gs. make_servers 0 ps ms gs []

module _ {Socket : Type 0} where
  -- start of a server in allStart
  unfoldable pub start_server : ℕ → Code → SegmentServer Socket → SegmentServer Socket
  unfolding start_begin start_end
  start_server memory bound x = start_end (start_begin x memory bound)

module _ (platform : Platform) (asio : Asio) (spare : Transaction) (late : ℕ)
    (cancelled closed : Code) where
  open asio use {Socket}

  -- main after its try: allStart, and the loops up to the first prompt.
  unfoldable pub boot : ℕ → Code → List (ℕ × SegmentServer Socket) → Console Socket
  unfolding change_all start_server next_round
  boot memory bound servers = next_round platform asio spare late cancelled closed (record {
    running = true;
    servers = change_all (start_server memory bound) servers;
    phase = commands;
    output = [];
  })
