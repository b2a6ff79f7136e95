-- ===== src/Transport/Read/Stages.antt =====
-- The bodies of read_sync and of read_async with its two completion handlers, cut where they may
-- return. `spare` is what the memory of a new TransportMessage's transaction holds.
use network_application.Base.{
  ℕ, ◌+◌, Bytes, not, List, [], ◌∷◌, ◌++◌, length, take, drop, ◌==◌, if◌then◌else◌, to_int32,
}
use network_application.Base.Outcome.{Outcome, returns, throws, ◌>>=◌}
use network_application.Errors.Codes.{Code, success, eof}
use network_application.Json.{Value, Platform, Parsed, parsed, failed}
use network_application.Logger.{lit, error}
use network_application.Message.{Transaction, TransportMessage, empty_message, set_type_transaction}
use network_application.Message.Members.{member_type, member_transaction}
use network_application.Network.{IoMode, sync, async, Asio}
use network_application.Transport.{
  Event, logs, reads, all_reads, TransportHandler, invoke_error, when, mode_name, u32_value,
}

-- What a call of `read` did, and how it ended. An exception leaves read_sync; in read_async it leaves
-- the completion handler.
pub record Run (Socket : Type 0) : Type 0 where
  pub events : List Event
  pub socket : Socket
  pub outcome : Outcome (Unit {0})

-- The log record of a wrong magic number.
abbrev pub incorrect_magic : IoMode → Event
incorrect_magic mode = logs (record {
  level = error;
  function = lit "TransportHandler::read." ∷ mode_name mode ∷ [];
  text = lit "Code = [ Incorrect Magic ]" ∷ [];
})

-- The message with the payload that has been read.
abbrev pub with_payload : TransportMessage → Bytes → TransportMessage
with_payload m b = record m { payload = b }

-- transportMessage.type = ...; transportMessage.transaction = ...: the filled message, or the
-- exception of a missing or ill-typed member.
unfoldable pub fill : Bytes → Value → Outcome TransportMessage
unfolding member_type member_transaction set_type_transaction to_int32
fill payload jv = do
  t ← member_type jv
  z ← member_transaction jv
  returns (record { type = t; transaction = set_type_transaction (to_int32 z); payload = payload })

module _ {Socket : Type 0} where
  -- What is left after the members have been read: the callback onAllRead.
  unfoldable pub hand_over :
      TransportHandler → List Event → Socket → Outcome TransportMessage → Run Socket
  unfolding when
  hand_over h before s (throws e) = record { events = before; socket = s; outcome = throws e }
  hand_over h before s (returns m) = record {
    events = before ++ when h.on_all_read (all_reads success m);
    socket = s;
    outcome = returns tt;
  }

  -- read_sync after the JSON text was parsed: onReadHandler is told one byte more than the payload has.
  unfoldable pub finish_sync :
      TransportHandler → TransportMessage → List Event → Socket → Value → Run Socket
  unfolding when fill hand_over
  finish_sync h m before s jv =
      hand_over h (before ++ when h.on_read_handler (reads 0 m.payload (length m.payload + 1))) s
        (fill m.payload jv)

  -- read_sync from the result of json::parse. A failed parse that the error handler lets pass leaves
  -- a null value.
  unfoldable pub parse_sync :
      TransportHandler → TransportMessage → List Event → Socket → Parsed → Run Socket
  unfolding invoke_error finish_sync
  parse_sync h m before s (parsed jv) =
      let seen = invoke_error h success m "parse_json" sync in
      if seen.stop
      then record { events = before ++ seen.events; socket = s; outcome = returns tt }
      else finish_sync h m (before ++ seen.events) s jv
  parse_sync h m before s (failed c) =
      let seen = invoke_error h c m "parse_json" sync in
      if seen.stop
      then record { events = before ++ seen.events; socket = s; outcome = returns tt }
      else finish_sync h m (before ++ seen.events) s Value.null

  -- read_async after the JSON text was parsed.
  unfoldable pub finish_async :
      TransportHandler → TransportMessage → List Event → Socket → Value → Run Socket
  unfolding when fill hand_over
  finish_async h m before s jv =
      hand_over h (before ++ when h.on_read_handler (reads 0 m.payload (length m.payload))) s
        (fill m.payload jv)

  unfoldable pub parse_async :
      TransportHandler → TransportMessage → List Event → Socket → Parsed → Run Socket
  unfolding invoke_error finish_async
  parse_async h m before s (parsed jv) =
      let seen = invoke_error h success m "parse_json" async in
      if seen.stop
      then record { events = before ++ seen.events; socket = s; outcome = returns tt }
      else finish_async h m (before ++ seen.events) s jv
  parse_async h m before s (failed c) =
      let seen = invoke_error h c m "parse_json" async in
      if seen.stop
      then record { events = before ++ seen.events; socket = s; outcome = returns tt }
      else finish_async h m (before ++ seen.events) s Value.null

module _ (platform : Platform) (asio : Asio) where
  open asio use {Socket}

  -- read_sync from the resize of the payload.
  unfoldable pub payload_sync :
      TransportHandler → TransportMessage → List Event → Socket → ℕ → Run Socket
  unfolding invoke_error parse_sync
  payload_sync h m before s json_len =
      let got = asio.read s json_len in
      let seen = invoke_error h got.code (with_payload m got.bytes) "payload" sync in
      if seen.stop
      then record { events = before ++ seen.events; socket = got.socket; outcome = returns tt }
      else parse_sync h (with_payload m got.bytes) (before ++ seen.events) got.socket
          (platform.parse got.bytes)

  -- read_sync from the comparison of the magic numbers, on the eight bytes of the headers.
  unfoldable pub magic_sync :
      TransportHandler → TransportMessage → List Event → Socket → Bytes → Run Socket
  unfolding invoke_error payload_sync u32_value mode_name
  magic_sync h m before s headers =
      if not (u32_value (take 4 headers) == h.magic_number)
      then record {
        events = before ++ incorrect_magic sync ∷ (invoke_error h eof m "headers" sync).events;
        socket = s;
        outcome = returns tt;
      }
      else payload_sync h m before s (u32_value (drop 4 headers))

  unfoldable pub read_sync : TransportHandler → Transaction → Socket → Run Socket
  unfolding invoke_error magic_sync empty_message
  read_sync h spare s =
      let m = empty_message spare in
      let got = asio.read s 8 in
      let seen = invoke_error h got.code m "headers" sync in
      if seen.stop
      then record { events = seen.events; socket = got.socket; outcome = returns tt }
      else magic_sync h m seen.events got.socket got.bytes

  -- The completion handler of the second async_read.
  unfoldable pub on_payload_async :
      TransportHandler → TransportMessage → List Event → Bytes → Code → Socket → Run Socket
  unfolding invoke_error parse_async
  on_payload_async h m before payload ec s =
      let seen = invoke_error h ec (with_payload m payload) "payload" async in
      if seen.stop
      then record { events = before ++ seen.events; socket = s; outcome = returns tt }
      else parse_async h (with_payload m payload) (before ++ seen.events) s (platform.parse payload)

  -- The completion handler of the first async_read from the comparison of the magic numbers; it
  -- starts the second.
  unfoldable pub magic_async :
      TransportHandler → TransportMessage → List Event → Socket → Bytes → Run Socket
  unfolding invoke_error on_payload_async u32_value mode_name
  magic_async h m before s headers =
      if not (u32_value (take 4 headers) == h.magic_number)
      then record {
        events = before ++ incorrect_magic async ∷ (invoke_error h eof m "headers" async).events;
        socket = s;
        outcome = returns tt;
      }
      else let got = asio.read s (u32_value (drop 4 headers)) in
        on_payload_async h m before got.bytes got.code got.socket

  -- The completion handler of the first async_read.
  unfoldable pub on_headers_async :
      TransportHandler → TransportMessage → Bytes → Code → Socket → Run Socket
  unfolding invoke_error magic_async
  on_headers_async h m headers ec s =
      let seen = invoke_error h ec m "headers" async in
      if seen.stop
      then record { events = seen.events; socket = s; outcome = returns tt }
      else magic_async h m seen.events s headers

  unfoldable pub read_async : TransportHandler → Transaction → Socket → Run Socket
  unfolding on_headers_async empty_message
  read_async h spare s =
      let got = asio.read s 8 in
      on_headers_async h (empty_message spare) got.bytes got.code got.socket

  -- read
  unfoldable pub read : TransportHandler → IoMode → Transaction → Socket → Run Socket
  unfolding read_sync read_async
  read h sync spare s = read_sync h spare s
  read h async spare s = read_async h spare s
