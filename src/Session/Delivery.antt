-- ===== src/Session/Delivery.antt =====
-- What one session writes another one reads: the frame, the JSON and the message factory together.
use network_application.Base.{
  ℕ, ℤ, ◌^◌, ◌<◌, ◌≡◌, refl, ap, ◌∙◌, Bytes, true, [], ◌∷◌, ◌++◌, length, Option, some,
}
use network_application.Errors.Codes.{success}
use network_application.Json.{Platform}
use network_application.Message.{Transaction, response, Message, signal, information, raw}
use network_application.Message.Serialize.{serialize}
use network_application.MessageHandler.{message_handler, serialize_message, parse_message}
use network_application.MessageHandler.RoundTrip.{IsResponse, parse-serialize_response}
use network_application.Network.{Asio}
use network_application.Transport
use network_application.Transport.Read
use network_application.Transport.Read.Delivery.{received, read-write}
use network_application.Transport.Write.{sent_length, sent_bytes}
use network_application.Session.{Session}
use network_application.Session.Calls.{read}
use network_application.Session.Told.{told, on_read_events-once, on_all_read-Tolerated}

module _ (platform : Platform) where
  pub received-response :
      (spare : Transaction) (m : Message)
      → IsResponse platform m
      → received m (serialize_message platform spare (some m)).payload
        ≡ serialize_message platform spare (some m)
  unfolding serialize_message
  received-response spare (signal t response freq samples) h = refl
  received-response spare (information t response cores) h = refl
  received-response spare (raw t response bytes) h = refl
  received-response spare _ h = absurd h

  -- The same for any message that the reading session's factory parses to `back`.
  pub session_read-parsed :
      (asio : Asio) (writer reader : Session asio.Socket) (m : Message) (back : Option Message)
      (late : ℕ) (spare : Transaction) (rest : Bytes)
      → let t = serialize_message platform spare (some m) in
        platform.Printable (serialize platform.widen m)
        → (parse_message platform reader.creator (received m t.payload)).result ≡ back
        → reader.on_all_read ≡ true
        → asio.is_open reader.socket ≡ true
        → writer.transport.magic_number ≡ reader.transport.magic_number
        → reader.transport.magic_number < 2 ^ 32
        → length t.payload < 2 ^ 32
        → sent_length late writer.mode t.payload ≡ length t.payload
        → asio.Delivers reader.socket
            (sent_bytes writer.transport writer.mode late t.payload ++ rest)
        → let a = (read asio platform reader spare).acted in
          (told a.events ≡ record { code = success; message = back } ∷ [])
          × (a.session.critical_error ≡ reader.critical_error)
          × asio.Delivers a.session.socket rest
  unfolding read Transport.set_on_all_read
  session_read-parsed asio writer reader m back late spare rest prints parses on open' same magic
        small sent wire =
      let t = serialize_message platform spare (some m) in
      let y = record reader { transport = Transport.set_on_all_read reader.transport true } in
      let r = Read.read platform asio y.transport reader.mode spare reader.socket in
      let z = record y { socket = r.socket } in
      let arrived =
        read-write platform asio writer.transport y.transport m writer.mode reader.mode late spare
          rest reader.socket refl same magic small sent prints wire in
      let step = on_read_events-once asio platform z r.events _ arrived.0 in
      let heard = on_all_read-Tolerated asio platform z success (received m t.payload) tt in
      rw open' (
        step.0 ∙ rw (heard.0) (rw (on, parses) refl),
        ap (λ (s : Session asio.Socket). s.critical_error) (step.1 ∙ heard.1),
        rw (step.1 ∙ heard.1) (arrived.1),
      )

  -- A session that writes a response and a session that reads it, in any two modes: if the bytes that
  -- the writing session hands to its socket arrive on the open socket of the reading session, which has
  -- the same magic number, the builders of MessageHandler() and onAllRead set, then its user is told
  -- once, with no error and a message that equals the written one; criticalError stays and what follows
  -- the frame is left on the wire. The response has its class's type name, an int32 number and samples
  -- or bytes that survive the JSON text; the payload is below 4 GiB; and in an asynchronous write the
  -- length on the dead stack is still the payload's.
  pub session_read-write :
      (asio : Asio) (writer reader : Session asio.Socket) (m : Message) (memory : ℤ) (late : ℕ)
      (spare : Transaction) (rest : Bytes)
      → let t = serialize_message platform spare (some m) in
        IsResponse platform m
        → platform.Printable (serialize platform.widen m)
        → reader.creator ≡ message_handler platform.narrow memory
        → reader.on_all_read ≡ true
        → asio.is_open reader.socket ≡ true
        → writer.transport.magic_number ≡ reader.transport.magic_number
        → reader.transport.magic_number < 2 ^ 32
        → length t.payload < 2 ^ 32
        → sent_length late writer.mode t.payload ≡ length t.payload
        → asio.Delivers reader.socket
            (sent_bytes writer.transport writer.mode late t.payload ++ rest)
        → let a = (read asio platform reader spare).acted in
          (told a.events ≡ record { code = success; message = some m } ∷ [])
          × (a.session.critical_error ≡ reader.critical_error)
          × asio.Delivers a.session.socket rest
  session_read-write asio writer reader m memory late spare rest is prints creator on open' same
        magic small sent wire =
      let back : (parse_message platform reader.creator
            (received m (serialize_message platform spare (some m)).payload)).result
          ≡ some m =
        rw (creator, received-response spare m is)
          (parse-serialize_response platform memory spare m is prints) in
      session_read-parsed asio writer reader m (some m) late spare rest prints back on open' same
        magic small sent wire
