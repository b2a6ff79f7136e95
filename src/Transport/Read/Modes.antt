-- ===== src/Transport/Read/Modes.antt =====
-- The two modes of `read` do the same, but for the names in the log and for the size that
-- onReadHandler is told.
use network_application.Base.{
  ℕ, String, ◌≡◌, refl, ap, Bytes, Bool, true, false, List, [], ◌∷◌, ◌++◌, take, if◌then◌else◌,
  ◌==◌, Bool-cases, inl, inr,
}
use network_application.Base.Outcome.{Outcome, returns, throws}
use network_application.Errors.Codes.{Code, success, eof}
use network_application.Json.{Value, Platform, Parsed, parsed, failed}
use network_application.Message.{Transaction, TransportMessage, empty_message}
use network_application.Network.{sync, async, Asio}
use network_application.Transport.{
  Event, logs, reads, TransportHandler, Handled, invoke_error, when, u32_value,
}
use network_application.Transport.Read.{
  Run, with_payload, fill, hand_over, finish_sync, parse_sync, payload_sync, magic_sync, read_sync,
  finish_async, parse_async, on_payload_async, magic_async, on_headers_async, read_async, read,
  incorrect_magic,
}

-- The callbacks among the events, with no size.
unfoldable pub calls : List Event → List Event
calls [] = []
calls (logs e ∷ es) = calls es
calls (reads i p n ∷ es) = reads i p 0 ∷ calls es
calls (e ∷ es) = e ∷ calls es

calls-append : (xs ys : List Event) → calls (xs ++ ys) ≡ calls xs ++ calls ys
unfolding calls
calls-append [] ys = refl
calls-append (logs e ∷ xs) ys = calls-append xs ys
calls-append (reads i p n ∷ xs) ys = ap (◌∷◌ (reads i p 0)) (calls-append xs ys)
calls-append (e ∷ xs) ys = ap (◌∷◌ e) (calls-append xs ys)

calls-append_cong :
    (xs xs' ys ys' : List Event)
    → calls xs ≡ calls xs'
    → calls ys ≡ calls ys'
    → calls (xs ++ ys) ≡ calls (xs' ++ ys')
calls-append_cong xs xs' ys ys' e f = rw (calls-append xs ys, calls-append xs' ys', e, f)

-- The same callbacks, the same socket and the same end.
pub record SameRun {Socket : Type 0} (r q : Run Socket) : Type 0 where
  pub callbacks : calls r.events ≡ calls q.events
  pub sockets : r.socket ≡ q.socket
  pub outcomes : r.outcome ≡ q.outcome

-- The two modes see the same from the error handler.
record SameHandled (a b : Handled) : Type 0 where
  callbacks : calls a.events ≡ calls b.events
  stops : a.stop ≡ b.stop

invoke_error-same :
    (h : TransportHandler) (c : Code) (m : TransportMessage) (name : String)
    → SameHandled (invoke_error h c m name sync) (invoke_error h c m name async)
unfolding invoke_error calls
invoke_error-same h success m name = record { callbacks = refl; stops = refl }
invoke_error-same h _ m name = record { callbacks = refl; stops = refl }

after_same :
    {Socket : Type 0} (a b : Handled) (before before' : List Event) (s : Socket)
    (next next' : Run Socket)
    → SameHandled a b
    → calls before ≡ calls before'
    → SameRun next next'
    → SameRun
        (if a.stop
          then record { events = before ++ a.events; socket = s; outcome = returns tt }
          else next)
        (if b.stop
          then record { events = before' ++ b.events; socket = s; outcome = returns tt }
          else next')
after_same a b before before' s next next' same e rest = elim (Bool-cases b.stop) [
  | inl t ↦
      rw (same.stops, t)
        (record {
          callbacks = calls-append_cong before before' _ _ e same.callbacks;
          sockets = refl;
          outcomes = refl;
        })
  | inr t ↦ rw (same.stops, t) rest
]

told-same :
    (b : Bool) (p : Bytes) (n k : ℕ) → calls (when b (reads 0 p n)) ≡ calls (when b (reads 0 p k))
unfolding calls when
told-same true p n k = refl
told-same false p n k = refl

module _ (h : TransportHandler) {Socket : Type 0} where
  hand_over-same :
      (before before' : List Event) (s : Socket) (o : Outcome TransportMessage)
      → calls before ≡ calls before'
      → SameRun (hand_over h before s o) (hand_over h before' s o)
  unfolding hand_over
  hand_over-same before before' s (returns m) e = record {
    callbacks = calls-append_cong before before' _ _ e refl;
    sockets = refl;
    outcomes = refl;
  }
  hand_over-same before before' s (throws x) e = record {
    callbacks = e;
    sockets = refl;
    outcomes = refl;
  }

  finish-same :
      (m : TransportMessage) (before before' : List Event) (s : Socket) (jv : Value)
      → calls before ≡ calls before'
      → SameRun (finish_sync h m before s jv) (finish_async h m before' s jv)
  unfolding finish_sync finish_async
  finish-same m before before' s jv e =
      hand_over-same _ _ s (fill m.payload jv)
        (calls-append_cong before before' _ _ e (told-same h.on_read_handler m.payload _ _))

  parse-same :
      (m : TransportMessage) (before before' : List Event) (s : Socket) (p : Parsed)
      → calls before ≡ calls before'
      → SameRun (parse_sync h m before s p) (parse_async h m before' s p)
  unfolding parse_sync parse_async
  parse-same m before before' s (parsed jv) e = finish-same m _ _ s jv (
      calls-append_cong before before' _ _ e (invoke_error-same h success m "parse_json").callbacks)
  parse-same m before before' s (failed c) e =
      let same = invoke_error-same h c m "parse_json" in
      after_same _ _ before before' s
        (finish_sync h m (before ++ (invoke_error h c m "parse_json" sync).events) s Value.null)
        (finish_async h m (before' ++ (invoke_error h c m "parse_json" async).events) s Value.null)
        same e
        (finish-same m _ _ s Value.null (calls-append_cong before before' _ _ e same.callbacks))

wrong_magic-same :
    (h : TransportHandler) (m : TransportMessage) (before before' : List Event)
    → calls before ≡ calls before'
    → calls (before ++ incorrect_magic sync ∷ (invoke_error h eof m "headers" sync).events)
      ≡ calls (before' ++ incorrect_magic async ∷ (invoke_error h eof m "headers" async).events)
wrong_magic-same h m before before' e =
    calls-append_cong before before' _ _ e
      (unfold calls in (invoke_error-same h eof m "headers").callbacks)

module _ (platform : Platform) (asio : Asio) (h : TransportHandler) where
  payload-same :
      (m : TransportMessage) (before before' : List Event) (s : asio.Socket) (n : ℕ)
      → calls before ≡ calls before'
      → SameRun (payload_sync platform asio h m before s n) (
          on_payload_async platform asio h m before'
            (asio.read s n).bytes
            (asio.read s n).code
            (asio.read s n).socket)
  unfolding payload_sync on_payload_async
  payload-same m before before' s n e =
      let got = asio.read s n in
      let m' = with_payload m got.bytes in
      let same = invoke_error-same h got.code m' "payload" in
      after_same _ _ before before' got.socket
        (parse_sync h m' (before ++ (invoke_error h got.code m' "payload" sync).events) got.socket
          (platform.parse got.bytes))
        (parse_async h m' (before' ++ (invoke_error h got.code m' "payload" async).events)
          got.socket (platform.parse got.bytes))
        same e
        (parse-same h m' _ _ got.socket (platform.parse got.bytes)
          (calls-append_cong before before' _ _ e same.callbacks))

  magic-same :
      (m : TransportMessage) (before before' : List Event) (s : asio.Socket) (headers : Bytes)
      → calls before ≡ calls before'
      → SameRun
          (magic_sync platform asio h m before s headers)
          (magic_async platform asio h m before' s headers)
  unfolding magic_sync magic_async
  magic-same m before before' s headers e =
      elim (Bool-cases (u32_value (take 4 headers) == h.magic_number)) [
        | inl t ↦ rw t (payload-same m before before' s _ e)
        | inr t ↦ rw t (record {
          callbacks = wrong_magic-same h m before before' e;
          sockets = refl;
          outcomes = refl;
        })
      ]

  -- read_sync and read_async make the same callbacks in the same order (sizes left out), leave the
  -- socket in the same state and end the same way, by returning or by an exception.
  pub read-modes :
      (spare : Transaction) (s : asio.Socket)
      → SameRun (read platform asio h sync spare s) (read platform asio h async spare s)
  unfolding read read_sync read_async on_headers_async
  read-modes spare s =
      let got = asio.read s 8 in
      let m = empty_message spare in
      let same = invoke_error-same h got.code m "headers" in
      after_same _ _ [] [] got.socket
        (magic_sync platform asio h m (invoke_error h got.code m "headers" sync).events got.socket
          got.bytes)
        (magic_async platform asio h m (invoke_error h got.code m "headers" async).events got.socket
          got.bytes)
        same refl (magic-same m _ _ got.socket got.bytes same.callbacks)
