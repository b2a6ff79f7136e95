-- ===== src/Transport/Read/Sizes.antt =====
-- The size that onReadHandler is told: one byte more than the payload in the synchronous mode, the
-- payload's size in the asynchronous one.
use network_application.Base.{
  ℕ, String, ◌+◌, ◌≡◌, Bytes, Bool, true, false, List, ◌++◌, length, take, drop, if◌then◌else◌,
  ◌==◌, Bool-cases, inl, inr, All, All-append, arith,
}
use network_application.Base.Outcome.{Outcome, returns, throws}
use network_application.Errors.Codes.{Code, success, eof}
use network_application.Json.{Value, Platform, Parsed, parsed, failed}
use network_application.Message.{Transaction, TransportMessage, empty_message}
use network_application.Network.{IoMode, sync, async, Asio}
use network_application.Transport.{Event, reads, TransportHandler, invoke_error, when, u32_value}
use network_application.Transport.Read.{
  Run, with_payload, fill, hand_over, finish_sync, parse_sync, payload_sync, magic_sync, read_sync,
  finish_async, parse_async, on_payload_async, magic_async, on_headers_async, read_async, read,
}
use network_application.Transport.Read.Modes.{SameRun, read-modes}

-- The number that the mode adds to the size of the payload.
abbrev pub extra : IoMode → ℕ
extra sync = 1
extra async = 0

abbrev pub Tells : ℕ → Event → Type 0
Tells k (reads i p n) = n ≡ length p + k
Tells k _ = Unit

abbrev pub AllTell : ℕ → List Event → Type 0
AllTell k = All (Tells k)

invoke_error-AllTell :
    (k : ℕ) (h : TransportHandler) (c : Code) (m : TransportMessage) (name : String) (mode : IoMode)
    → AllTell k (invoke_error h c m name mode).events
unfolding invoke_error
invoke_error-AllTell k h success m name mode = ground arith
invoke_error-AllTell k h _ m name mode = ground arith

add :
    (k : ℕ) (before : List Event) (h : TransportHandler) (c : Code) (m : TransportMessage)
    (name : String) (mode : IoMode)
    → AllTell k before
    → AllTell k (before ++ (invoke_error h c m name mode).events)
add k before h c m name mode t =
    All-append (Tells k) before _ t (invoke_error-AllTell k h c m name mode)

after_tell :
    {Socket : Type 0} (k : ℕ) (b : Bool) (events : List Event) (s : Socket) (next : Run Socket)
    → AllTell k events
    → AllTell k next.events
    → AllTell k
        (if b then record { events = events; socket = s; outcome = returns tt } else next).events
after_tell k true events s next t n = t
after_tell k false events s next t n = n

module _ (h : TransportHandler) {Socket : Type 0} where
  hand_over-AllTell :
      (k : ℕ) (before : List Event) (s : Socket) (o : Outcome TransportMessage)
      → AllTell k before
      → AllTell k (hand_over h before s o).events
  unfolding hand_over when
  hand_over-AllTell k before s (throws e) t = t
  hand_over-AllTell k before s (returns m) t = All-append (Tells k) before _ t (ground arith)

  finish_sync-AllTell :
      (m : TransportMessage) (before : List Event) (s : Socket) (jv : Value)
      → AllTell 1 before
      → AllTell 1 (finish_sync h m before s jv).events
  unfolding finish_sync when
  finish_sync-AllTell m before s jv t =
      hand_over-AllTell 1 _ s (fill m.payload jv) (All-append (Tells 1) before _ t (ground arith))

  finish_async-AllTell :
      (m : TransportMessage) (before : List Event) (s : Socket) (jv : Value)
      → AllTell 0 before
      → AllTell 0 (finish_async h m before s jv).events
  unfolding finish_async when
  finish_async-AllTell m before s jv t =
      hand_over-AllTell 0 _ s (fill m.payload jv) (All-append (Tells 0) before _ t (ground arith))

  parse_sync-AllTell :
      (m : TransportMessage) (before : List Event) (s : Socket) (p : Parsed)
      → AllTell 1 before
      → AllTell 1 (parse_sync h m before s p).events
  unfolding parse_sync
  parse_sync-AllTell m before s (parsed jv) t =
      finish_sync-AllTell m _ s jv (add 1 before h success m "parse_json" sync t)
  parse_sync-AllTell m before s (failed c) t =
      let seen = add 1 before h c m "parse_json" sync t in
      after_tell 1 _ _ s
        (finish_sync h m (before ++ (invoke_error h c m "parse_json" sync).events) s Value.null)
        seen (finish_sync-AllTell m _ s Value.null seen)

  parse_async-AllTell :
      (m : TransportMessage) (before : List Event) (s : Socket) (p : Parsed)
      → AllTell 0 before
      → AllTell 0 (parse_async h m before s p).events
  unfolding parse_async
  parse_async-AllTell m before s (parsed jv) t =
      finish_async-AllTell m _ s jv (add 0 before h success m "parse_json" async t)
  parse_async-AllTell m before s (failed c) t =
      let seen = add 0 before h c m "parse_json" async t in
      after_tell 0 _ _ s
        (finish_async h m (before ++ (invoke_error h c m "parse_json" async).events) s Value.null)
        seen (finish_async-AllTell m _ s Value.null seen)

module _ (platform : Platform) (asio : Asio) (h : TransportHandler) where
  magic_sync-AllTell :
      (m : TransportMessage) (before : List Event) (s : asio.Socket) (headers : Bytes)
      → AllTell 1 before
      → AllTell 1 (magic_sync platform asio h m before s headers).events
  unfolding magic_sync payload_sync
  magic_sync-AllTell m before s headers t =
      elim (Bool-cases (u32_value (take 4 headers) == h.magic_number)) [
        | inr wrong ↦
            rw wrong
              (All-append (Tells 1) before _ t (tt, invoke_error-AllTell 1 h eof m "headers" sync))
        | inl right ↦
            let got = asio.read s (u32_value (drop 4 headers)) in
            let m' = with_payload m got.bytes in
            let seen = add 1 before h got.code m' "payload" sync t in
            rw right (
              after_tell 1 _ _ got.socket
                (parse_sync h m' (before ++ (invoke_error h got.code m' "payload" sync).events)
                  got.socket (platform.parse got.bytes))
                seen (parse_sync-AllTell h m' _ got.socket (platform.parse got.bytes) seen))
      ]

  magic_async-AllTell :
      (m : TransportMessage) (before : List Event) (s : asio.Socket) (headers : Bytes)
      → AllTell 0 before
      → AllTell 0 (magic_async platform asio h m before s headers).events
  unfolding magic_async on_payload_async
  magic_async-AllTell m before s headers t =
      elim (Bool-cases (u32_value (take 4 headers) == h.magic_number)) [
        | inr wrong ↦
            rw wrong
              (All-append (Tells 0) before _ t (tt, invoke_error-AllTell 0 h eof m "headers" async))
        | inl right ↦
            let got = asio.read s (u32_value (drop 4 headers)) in
            let m' = with_payload m got.bytes in
            let seen = add 0 before h got.code m' "payload" async t in
            rw right (
              after_tell 0 _ _ got.socket
                (parse_async h m' (before ++ (invoke_error h got.code m' "payload" async).events)
                  got.socket (platform.parse got.bytes))
                seen (parse_async-AllTell h m' _ got.socket (platform.parse got.bytes) seen))
      ]

  -- Whatever is read, each call of onReadHandler is told the payload's size plus one in the
  -- synchronous mode, and the payload's size in the asynchronous mode.
  pub read-AllTell :
      (mode : IoMode) (spare : Transaction) (s : asio.Socket)
      → AllTell (extra mode) (read platform asio h mode spare s).events
  unfolding read read_sync read_async on_headers_async
  read-AllTell sync spare s =
      let got = asio.read s 8 in
      let m = empty_message spare in
      let seen = invoke_error-AllTell 1 h got.code m "headers" sync in
      after_tell 1 _ _ got.socket
        (magic_sync platform asio h m (invoke_error h got.code m "headers" sync).events got.socket
          got.bytes)
        seen (magic_sync-AllTell m _ got.socket got.bytes seen)
  read-AllTell async spare s =
      let got = asio.read s 8 in
      let m = empty_message spare in
      let seen = invoke_error-AllTell 0 h got.code m "headers" async in
      after_tell 0 _ _ got.socket
        (magic_async platform asio h m (invoke_error h got.code m "headers" async).events got.socket
          got.bytes)
        seen (magic_async-AllTell m _ got.socket got.bytes seen)

  -- On the same socket the two modes of read make the same callbacks in the same order, sizes left out,
  -- leave the socket in the same state and end the same way, by returning or by an exception. Each call
  -- of onReadHandler is told the payload's size plus one in the synchronous mode, and the payload's size
  -- in the asynchronous mode.
  pub read-both :
      (spare : Transaction) (s : asio.Socket)
      → SameRun (read platform asio h sync spare s) (read platform asio h async spare s)
        × AllTell (extra sync) (read platform asio h sync spare s).events
        × AllTell (extra async) (read platform asio h async spare s).events
  read-both spare s =
      (read-modes platform asio h spare s, read-AllTell sync spare s, read-AllTell async spare s)
