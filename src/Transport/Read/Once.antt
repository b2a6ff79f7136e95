-- ===== src/Transport/Read/Once.antt =====
-- How often `read` calls onAllRead, and with what.
use network_application.Base.{
  ℕ, ◌≡◌, refl, Bytes, true, List, [], ◌++◌, Bool-cases, inl, inr, ◌==◌, take,
}
use network_application.Base.Outcome.{Outcome, returns, throws}
use network_application.Errors.Codes.{Code, is_error, success}
use network_application.Json.{Value, Platform, Parsed, parsed, failed}
use network_application.Message.{Transaction, TransportMessage, empty_message}
use network_application.Network.{IoMode, sync, async, Asio}
use network_application.Transport.{Event, TransportHandler, invoke_error, when, u32_value}
use network_application.Transport.Read.{
  with_payload, fill, hand_over, finish_sync, parse_sync, payload_sync, read_sync, finish_async,
  parse_async, on_payload_async, magic_sync, magic_async, on_headers_async, read_async, read,
}
use network_application.Transport.Read.Deliveries.{
  deliveries, deliveries-append, RunDeliversOnce, silent, after_error, told, wrong_magic-once,
}

module _ (h : TransportHandler) (on : h.on_all_read ≡ true) {Socket : Type 0} where
  hand_over-once :
      (before : List Event) (s : Socket) (o : Outcome TransportMessage)
      → deliveries before ≡ []
      → RunDeliversOnce (hand_over h before s o)
  unfolding hand_over when is_error
  hand_over-once before s (throws e) quiet = quiet
  hand_over-once before s (returns m) quiet = (
    record { code = success; message = m },
    rw (deliveries-append, quiet, on) (unfold deliveries in refl),
    λ e. cc,
  )

  finish_sync-once :
      (m : TransportMessage) (before : List Event) (s : Socket) (jv : Value)
      → deliveries before ≡ []
      → RunDeliversOnce (finish_sync h m before s jv)
  unfolding finish_sync
  finish_sync-once m before s jv quiet =
      hand_over-once _ s (fill m.payload jv) (told before h.on_read_handler m.payload _ quiet)

  finish_async-once :
      (m : TransportMessage) (before : List Event) (s : Socket) (jv : Value)
      → deliveries before ≡ []
      → RunDeliversOnce (finish_async h m before s jv)
  unfolding finish_async
  finish_async-once m before s jv quiet =
      hand_over-once _ s (fill m.payload jv) (told before h.on_read_handler m.payload _ quiet)

  parse_sync-once :
      (m : TransportMessage) (before : List Event) (s : Socket) (p : Parsed)
      → deliveries before ≡ []
      → RunDeliversOnce (parse_sync h m before s p)
  unfolding parse_sync
  parse_sync-once m before s (parsed jv) quiet =
      after_error h on sync "parse_json" before success m s
        (finish_sync h m (before ++ (invoke_error h success m "parse_json" sync).events) s jv) quiet
        (λ ok. finish_sync-once m _ s jv (silent h on sync "parse_json" before success m quiet ok))
  parse_sync-once m before s (failed c) quiet =
      after_error h on sync "parse_json" before c m s
        (finish_sync h m (before ++ (invoke_error h c m "parse_json" sync).events) s Value.null)
        quiet
        (λ ok.
          finish_sync-once m _ s Value.null (silent h on sync "parse_json" before c m quiet ok))

  parse_async-once :
      (m : TransportMessage) (before : List Event) (s : Socket) (p : Parsed)
      → deliveries before ≡ []
      → RunDeliversOnce (parse_async h m before s p)
  unfolding parse_async
  parse_async-once m before s (parsed jv) quiet =
      after_error h on async "parse_json" before success m s
        (finish_async h m (before ++ (invoke_error h success m "parse_json" async).events) s jv)
        quiet
        (λ ok.
          finish_async-once m _ s jv (silent h on async "parse_json" before success m quiet ok))
  parse_async-once m before s (failed c) quiet =
      after_error h on async "parse_json" before c m s
        (finish_async h m (before ++ (invoke_error h c m "parse_json" async).events) s Value.null)
        quiet
        (λ ok.
          finish_async-once m _ s Value.null (silent h on async "parse_json" before c m quiet ok))

module _ (platform : Platform) (asio : Asio) (h : TransportHandler)
    (on : h.on_all_read ≡ true) where
  payload_sync-once :
      (m : TransportMessage) (before : List Event) (s : asio.Socket) (n : ℕ)
      → deliveries before ≡ []
      → RunDeliversOnce (payload_sync platform asio h m before s n)
  unfolding payload_sync
  payload_sync-once m before s n quiet =
      let got = asio.read s n in
      let m' = with_payload m got.bytes in
      after_error h on sync "payload" before got.code m' got.socket
        (parse_sync h m' (before ++ (invoke_error h got.code m' "payload" sync).events) got.socket
          (platform.parse got.bytes))
        quiet
        (λ ok.
          parse_sync-once h on m' _ got.socket (platform.parse got.bytes)
            (silent h on sync "payload" before got.code m' quiet ok))

  magic_sync-once :
      (m : TransportMessage) (before : List Event) (s : asio.Socket) (headers : Bytes)
      → deliveries before ≡ []
      → RunDeliversOnce (magic_sync platform asio h m before s headers)
  unfolding magic_sync
  magic_sync-once m before s headers quiet =
      elim (Bool-cases (u32_value (take 4 headers) == h.magic_number)) [
        | inl right ↦ rw right (payload_sync-once m before s _ quiet)
        | inr wrong ↦ rw wrong (wrong_magic-once h on before m sync quiet)
      ]

  read_sync-once :
      (spare : Transaction) (s : asio.Socket) → RunDeliversOnce (read_sync platform asio h spare s)
  unfolding read_sync deliveries
  read_sync-once spare s =
      let got = asio.read s 8 in
      let m = empty_message spare in
      after_error h on sync "headers" [] got.code m got.socket
        (magic_sync platform asio h m (invoke_error h got.code m "headers" sync).events got.socket
          got.bytes)
        refl
        (λ ok.
          magic_sync-once m _ got.socket got.bytes
            (silent h on sync "headers" [] got.code m refl ok))

  on_payload_async-once :
      (m : TransportMessage) (before : List Event) (payload : Bytes) (ec : Code) (s : asio.Socket)
      → deliveries before ≡ []
      → RunDeliversOnce (on_payload_async platform asio h m before payload ec s)
  unfolding on_payload_async
  on_payload_async-once m before payload ec s quiet =
      let m' = with_payload m payload in
      after_error h on async "payload" before ec m' s
        (parse_async h m' (before ++ (invoke_error h ec m' "payload" async).events) s
          (platform.parse payload))
        quiet
        (λ ok.
          parse_async-once h on m' _ s (platform.parse payload)
            (silent h on async "payload" before ec m' quiet ok))

  magic_async-once :
      (m : TransportMessage) (before : List Event) (s : asio.Socket) (headers : Bytes)
      → deliveries before ≡ []
      → RunDeliversOnce (magic_async platform asio h m before s headers)
  unfolding magic_async
  magic_async-once m before s headers quiet =
      elim (Bool-cases (u32_value (take 4 headers) == h.magic_number)) [
        | inl right ↦ rw right (on_payload_async-once m before _ _ _ quiet)
        | inr wrong ↦ rw wrong (wrong_magic-once h on before m async quiet)
      ]

  read_async-once :
      (spare : Transaction) (s : asio.Socket) → RunDeliversOnce (read_async platform asio h spare s)
  unfolding read_async on_headers_async deliveries
  read_async-once spare s =
      let got = asio.read s 8 in
      let m = empty_message spare in
      after_error h on async "headers" [] got.code m got.socket
        (magic_async platform asio h m (invoke_error h got.code m "headers" async).events got.socket
          got.bytes)
        refl
        (λ ok.
          magic_async-once m _ got.socket got.bytes
            (silent h on async "headers" [] got.code m refl ok))

  -- With onAllRead set, a call of `read` that returns has called it exactly once in either mode, and
  -- where it was given an error code, with the error message; a call that throws has not called it.
  pub read-once :
      (mode : IoMode) (spare : Transaction) (s : asio.Socket)
      → RunDeliversOnce (read platform asio h mode spare s)
  unfolding read
  read-once sync spare s = read_sync-once spare s
  read-once async spare s = read_async-once spare s
