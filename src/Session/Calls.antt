-- ===== src/Session/Calls.antt =====
-- The calls of a session on its socket: connect, disconnect, read and write (session.cpp).
use network_application.Base.{
  ℕ, true, false, List, [], ◌∷◌, ◌++◌, map, Option, none, some, if◌then◌else◌,
}
use network_application.Base.Outcome.{Outcome, returns}
use network_application.Errors.{check_error}
use network_application.Errors.Codes.{Code}
use network_application.Json.{Platform}
use network_application.Logger.{lit}
use network_application.Message.{Transaction, Message, TransportMessage}
use network_application.MessageHandler.{parse_message, serialize_message}
use network_application.Network.{Asio, Endpoint}
use network_application.Connection
use network_application.Transport
use network_application.Transport.{mode_name}
use network_application.Transport.Read
use network_application.Transport.Write
use network_application.Session.{
  Event, logs, errors, reads, writes, all_written, all_read, Session, Acted, when, place,
  on_connections,
}

-- What a call of read did, and whether an exception left it.
pub record ReadCall (Socket : Type 0) : Type 0 where
  pub acted : Acted Socket
  pub outcome : Outcome (Unit {0})

module _ (asio : Asio) where
  open asio use {Socket}

  -- disconnect
  unfoldable pub disconnect : Session Socket → Acted Socket
  unfolding Connection.disconnect Connection.set_on_disconnect on_connections
  disconnect x =
      let c = Connection.set_on_disconnect x.connection true in
      let gone = Connection.disconnect asio c x.socket in
      record {
        events = on_connections x gone.events;
        session = record x { connection = c; socket = gone.socket };
      }

  -- connect(endpoint)
  unfoldable pub connect : Session Socket → Endpoint → Acted Socket
  unfolding Connection.connect Connection.set_on_connect on_connections
  connect x e =
      let c = Connection.set_on_connect x.connection true in
      let made = Connection.connect asio c e x.mode x.socket in
      record {
        events = on_connections x made.events;
        session = record x { connection = c; socket = made.socket };
      }

  -- A critical error: criticalError = true; disconnect();
  unfoldable pub fail : Session Socket → Acted Socket
  unfolding disconnect
  fail x = disconnect (record x { critical_error = true })

  -- After more events.
  abbrev pub after : List Event → Acted Socket → Acted Socket
  after before a = record { events = before ++ a.events; session = a.session }

  module _ (platform : Platform) where
    -- The callback that read sets as onAllRead of the transport handler, on a read that is no
    -- critical error: the message is parsed, and a null message logged.
    unfoldable pub pass_on : Session Socket → Code → TransportMessage → List Event
    unfolding parse_message check_error mode_name
    pass_on x ec t =
        let msg = parse_message platform x.creator t in
        map logs msg.logged
        ++ (if x.on_all_read
            then elim msg.result [
              | none ↦
                  map logs
                    (check_error ec
                      (lit "Session::read." ∷ mode_name x.mode ∷ lit "{Message=nullptr}" ∷ [])
                      false).logged
                  ++ all_read ec none ∷ []
              | some m ↦ all_read ec (some m) ∷ []
            ]
            else [])

    -- The same callback as a whole.
    unfoldable pub on_all_read : Session Socket → Code → TransportMessage → Acted Socket
    unfolding pass_on check_error mode_name fail
    on_all_read x ec t =
        let seen = check_error ec (place "Session::read." x.mode) true in
        let null_entry =
          check_error ec (lit "Session::read." ∷ mode_name x.mode ∷ lit "{Message=nullptr}" ∷ [])
            false in
        let failed = fail x in
        if seen.result
        then after
            (map logs seen.logged
              ++ (if x.on_all_read
                  then map logs null_entry.logged ++ all_read ec none ∷ []
                  else []))
            failed
        else record { events = map logs seen.logged ++ pass_on x ec t; session = x }

    -- An event of the transport handler during a read.
    unfoldable pub on_read_event : Session Socket → Transport.Event → Acted Socket
    unfolding on_all_read
    on_read_event x (Transport.logs e) = record { events = logs e ∷ []; session = x }
    on_read_event x (Transport.errors c) = record { events = errors c ∷ []; session = x }
    on_read_event x (Transport.reads i p n) = record { events = reads i p n ∷ []; session = x }
    on_read_event x (Transport.all_reads c t) = on_all_read x c t
    on_read_event x _ = record { events = []; session = x }

    unfoldable pub on_read_events : Session Socket → List Transport.Event → Acted Socket
    unfolding on_read_event
    on_read_events x [] = record { events = []; session = x }
    on_read_events x (e ∷ es) =
        let first = on_read_event x e in after first.events (on_read_events first.session es)

    -- read; nothing is read from a socket that is not open.
    unfoldable pub read : Session Socket → Transaction → ReadCall Socket
    unfolding Transport.set_on_all_read Read.read on_read_events
    read x spare =
        let y = record x { transport = Transport.set_on_all_read x.transport true } in
        let r = Read.read platform asio y.transport x.mode spare x.socket in
        if asio.is_open x.socket
        then record {
          acted = on_read_events (record y { socket = r.socket }) r.events;
          outcome = r.outcome;
        }
        else record { acted = record { events = []; session = y }; outcome = returns tt }

    -- The callback that write sets as onAllWrite of the transport handler.
    unfoldable pub on_all_write : Session Socket → Code → Acted Socket
    unfolding check_error mode_name fail when
    on_all_write x ec =
        let seen = check_error ec (place "Session::write." x.mode) true in
        let told = map logs seen.logged ++ when x.on_all_write (all_written ec) in
        let failed = fail x in
        if seen.result then after told failed else record { events = told; session = x }

    unfoldable pub on_write_event : Session Socket → Transport.Event → Acted Socket
    unfolding on_all_write
    on_write_event x (Transport.logs e) = record { events = logs e ∷ []; session = x }
    on_write_event x (Transport.errors c) = record { events = errors c ∷ []; session = x }
    on_write_event x (Transport.writes p n) = record { events = writes p n ∷ []; session = x }
    on_write_event x (Transport.all_writes c t) = on_all_write x c
    on_write_event x _ = record { events = []; session = x }

    unfoldable pub on_write_events : Session Socket → List Transport.Event → Acted Socket
    unfolding on_write_event
    on_write_events x [] = record { events = []; session = x }
    on_write_events x (e ∷ es) =
        let first = on_write_event x e in after first.events (on_write_events first.session es)

    -- write
    unfoldable pub write : Session Socket → Transaction → Option Message → ℕ → Acted Socket
    unfolding Transport.set_on_all_write Write.write serialize_message on_write_events
    write x spare m late =
        let t = serialize_message platform spare m in
        let y = record x { transport = Transport.set_on_all_write x.transport true } in
        let r = Write.write asio y.transport t x.mode late x.socket in
        on_write_events (record y { socket = r.socket }) r.events
