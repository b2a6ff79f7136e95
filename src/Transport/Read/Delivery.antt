-- ===== src/Transport/Read/Delivery.antt =====
-- What a peer writes arrives: a frame that is on the wire of a socket is read as the message that was
-- serialized into it, in either mode.
use network_application.Base.{
  ℕ, String, ◌^◌, ◌<◌, ◌≡◌, refl, Bytes, some, true, List, [], ◌∷◌, ◌++◌, length, take, drop,
  ==_refl,
}
use network_application.Base.Outcome.{returns}
use network_application.Errors.Codes.{success, is_error}
use network_application.Json
use network_application.Json.{Value, Platform, Parsed, parsed}
use network_application.Message.{Transaction, Message, TransportMessage, type_of, empty_message}
use network_application.Message.Members.{
  seen_transaction, member_type-serialize, member_transaction-serialize,
}
use network_application.Message.Serialize.{serialize}
use network_application.MessageHandler.{serialize_message}
use network_application.Network.{IoMode, sync, async, Asio}
use network_application.Transport.{
  Event, TransportHandler, invoke_error, when, u32_bytes, u32_value, u32_value-u32_bytes,
}
use network_application.Transport.Read.{
  Run, with_payload, fill, hand_over, finish_sync, parse_sync, payload_sync, magic_sync, read_sync,
  finish_async, parse_async, on_payload_async, magic_async, on_headers_async, read_async, read,
}
use network_application.Transport.Read.Deliveries.{deliveries, deliveries-append, silent, told}
use network_application.Transport.Write.{sent_length, sent_bytes}

-- The message that arrives for `msg`, sent with this payload.
abbrev pub received : Message → Bytes → TransportMessage
received msg payload = record {
  type = type_of msg;
  transaction = seen_transaction msg;
  payload = payload;
}

-- One successful delivery of that message, and the socket that the run leaves.
abbrev pub Arrives : {Socket : Type 0} → Run Socket → Message → Bytes → Socket → Type 0
Arrives r msg payload s =
    (deliveries r.events ≡ record { code = success; message = received msg payload } ∷ [])
    × (r.socket ≡ s)

fill-serialize :
    (reread widen : ℕ → ℕ) (msg : Message) (payload : Bytes)
    → fill payload (Json.normalise reread (serialize widen msg)) ≡ returns (received msg payload)
unfolding fill
fill-serialize reread widen msg payload =
    let (z, seen, same) = member_transaction-serialize reread widen msg in
    rw (member_type-serialize reread widen msg, seen, same)

module _ (h : TransportHandler) (on : h.on_all_read ≡ true) where
  quiet_after :
      (before : List Event) (m : TransportMessage) (name : String) (mode : IoMode)
      → deliveries before ≡ []
      → deliveries (before ++ (invoke_error h success m name mode).events) ≡ []
  quiet_after before m name mode quiet =
      silent h on mode name before success m quiet (unfold is_error in refl)

  hand_over-Arrives :
      {Socket : Type 0} (before : List Event) (s : Socket) (msg : Message) (payload : Bytes)
      → deliveries before ≡ []
      → Arrives (hand_over h before s (returns (received msg payload))) msg payload s
  unfolding hand_over when
  hand_over-Arrives before s msg payload quiet =
      (rw (deliveries-append, quiet, on) (unfold deliveries in refl), refl)

module _ (platform : Platform) (asio : Asio) (h : TransportHandler) (on : h.on_all_read ≡ true)
    (msg : Message) where
  open platform use {reread, widen}

  abbrev tree : Value
  tree = Json.normalise reread (serialize widen msg)

  parse_sync-Arrives :
      (m : TransportMessage) (before : List Event) (s : asio.Socket)
      → deliveries before ≡ []
      → Arrives (parse_sync h m before s (parsed tree)) msg m.payload s
  unfolding parse_sync finish_sync
  parse_sync-Arrives m before s quiet = rw (fill-serialize reread widen msg m.payload) (
      hand_over-Arrives h on _ s msg m.payload
        (told _ h.on_read_handler m.payload _ (quiet_after h on before m "parse_json" sync quiet)))

  payload_sync-Arrives :
      (m : TransportMessage) (before : List Event) (s : asio.Socket) (payload : Bytes)
      → (asio.read s (length payload)).code ≡ success
      → (asio.read s (length payload)).bytes ≡ payload
      → platform.parse payload ≡ parsed tree
      → deliveries before ≡ []
      → Arrives
          (payload_sync platform asio h m before s (length payload))
          msg
          payload
          (asio.read s (length payload)).socket
  unfolding payload_sync
  payload_sync-Arrives m before s payload ok same tells quiet =
      rw (ok, same, tells)
        (parse_sync-Arrives (with_payload m payload) _ _
          (quiet_after h on before (with_payload m payload) "payload" sync quiet))

  parse_async-Arrives :
      (m : TransportMessage) (before : List Event) (s : asio.Socket)
      → deliveries before ≡ []
      → Arrives (parse_async h m before s (parsed tree)) msg m.payload s
  unfolding parse_async finish_async
  parse_async-Arrives m before s quiet = rw (fill-serialize reread widen msg m.payload) (
      hand_over-Arrives h on _ s msg m.payload
        (told _ h.on_read_handler m.payload _ (quiet_after h on before m "parse_json" async quiet)))

  on_payload_async-Arrives :
      (m : TransportMessage) (before : List Event) (payload : Bytes) (s : asio.Socket)
      → platform.parse payload ≡ parsed tree
      → deliveries before ≡ []
      → Arrives (on_payload_async platform asio h m before payload success s) msg payload s
  unfolding on_payload_async
  on_payload_async-Arrives m before payload s tells quiet = rw tells (
      parse_async-Arrives (with_payload m payload) _ _
        (quiet_after h on before (with_payload m payload) "payload" async quiet))

  module _ (payload rest : Bytes) (tells : platform.parse payload ≡ parsed tree)
      (small : length payload < 2 ^ 32) (magic : h.magic_number < 2 ^ 32) where
    -- The eight bytes before the payload.
    abbrev headers : Bytes
    headers = u32_bytes h.magic_number ++ u32_bytes (length payload)

    magic_of_headers : u32_value (take 4 headers) ≡ h.magic_number
    unfolding u32_bytes
    magic_of_headers = u32_value-u32_bytes h.magic_number magic

    length_of_headers : u32_value (drop 4 headers) ≡ length payload
    unfolding u32_bytes
    length_of_headers = u32_value-u32_bytes (length payload) small

    module _ (s : asio.Socket) (wire : asio.Delivers s (payload ++ rest)) where
      magic_sync-Arrives :
          (m : TransportMessage) (before : List Event)
          → deliveries before ≡ []
          → Arrives
              (magic_sync platform asio h m before s headers)
              msg
              payload
              (asio.read s (length payload)).socket
      unfolding magic_sync
      magic_sync-Arrives m before quiet =
          rw (magic_of_headers, length_of_headers, ==_refl h.magic_number)
            (payload_sync-Arrives m before s payload (asio.read-code s payload rest wire)
              (asio.read-bytes s payload rest wire) tells quiet)

      magic_async-Arrives :
          (m : TransportMessage) (before : List Event)
          → deliveries before ≡ []
          → Arrives
              (magic_async platform asio h m before s headers)
              msg
              payload
              (asio.read s (length payload)).socket
      unfolding magic_async
      magic_async-Arrives m before quiet =
          rw
            (
              magic_of_headers,
              length_of_headers,
              ==_refl h.magic_number,
              asio.read-code s payload rest wire,
              asio.read-bytes s payload rest wire,
            )
            (on_payload_async-Arrives m before payload _ tells quiet)

    module _ (s : asio.Socket) (wire : asio.Delivers s (headers ++ (payload ++ rest))) where
      header_code : (asio.read s 8).code ≡ success
      unfolding u32_bytes
      header_code = asio.read-code s headers (payload ++ rest) wire

      header_bytes : (asio.read s 8).bytes ≡ headers
      unfolding u32_bytes
      header_bytes = asio.read-bytes s headers (payload ++ rest) wire

      header_rest : asio.Delivers (asio.read s 8).socket (payload ++ rest)
      unfolding u32_bytes
      header_rest = asio.read-rest s headers (payload ++ rest) wire

      read-Arrives :
          (mode : IoMode) (spare : Transaction)
          → Arrives
              (read platform asio h mode spare s)
              msg
              payload
              (asio.read (asio.read s 8).socket (length payload)).socket
      unfolding read read_sync read_async on_headers_async deliveries
      read-Arrives sync spare =
          rw (header_code, header_bytes)
            (magic_sync-Arrives (asio.read s 8).socket header_rest (empty_message spare)
              (invoke_error h success (empty_message spare) "headers" sync).events
              (quiet_after h on [] (empty_message spare) "headers" sync refl))
      read-Arrives async spare =
          rw (header_code, header_bytes)
            (magic_async-Arrives (asio.read s 8).socket header_rest (empty_message spare)
              (invoke_error h success (empty_message spare) "headers" async).events
              (quiet_after h on [] (empty_message spare) "headers" async refl))

      rest-Delivers : asio.Delivers (asio.read (asio.read s 8).socket (length payload)).socket rest
      rest-Delivers = asio.read-rest (asio.read s 8).socket payload rest header_rest

-- If the bytes that `write` hands to a socket for a message arrive on the socket of a reader with the
-- same magic number, with onAllRead set, then `read` delivers, once and with no error, the message's
-- type, the transaction that its JSON shows, and the payload, and leaves what follows the frame on the
-- wire. This holds in both modes of both sides, for a payload below 4 GiB that the JSON library prints
-- and reads back, and, in the asynchronous write, if the length on the dead stack is still the payload's.
pub read-write :
    (platform : Platform) (asio : Asio) (sender reader : TransportHandler) (msg : Message)
    (writing reading : IoMode) (late : ℕ) (spare : Transaction) (rest : Bytes) (s : asio.Socket)
    → let t = serialize_message platform spare (some msg) in
      reader.on_all_read ≡ true
      → sender.magic_number ≡ reader.magic_number
      → reader.magic_number < 2 ^ 32
      → length t.payload < 2 ^ 32
      → sent_length late writing t.payload ≡ length t.payload
      → platform.Printable (serialize platform.widen msg)
      → asio.Delivers s (sent_bytes sender writing late t.payload ++ rest)
      → let r = read platform asio reader reading spare s in
        (deliveries r.events ≡ record { code = success; message = received msg t.payload } ∷ [])
        × asio.Delivers r.socket rest
unfolding serialize_message sent_bytes
read-write platform asio sender reader msg writing reading late spare rest s on same magic small
      sent prints wire =
    let payload = platform.serialize (serialize platform.widen msg) in
    let tells = platform.parse-serialize (serialize platform.widen msg) prints in
    let wire' : asio.Delivers s
        ((u32_bytes reader.magic_number ++ u32_bytes (length payload)) ++ (payload ++ rest)) =
      rw (← same, ← sent) wire in
    let arrived =
      read-Arrives platform asio reader on msg payload rest tells small magic s wire' reading
        spare in
    (
      arrived.0,
      rw (arrived.1)
          (rest-Delivers platform asio reader on msg payload rest tells small magic s wire'),
    )
