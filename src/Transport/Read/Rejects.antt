-- ===== src/Transport/Read/Rejects.antt =====
-- What `read` does with headers that it cannot use.
use network_application.Base.{
  ◌≡◌, ◌≢◌, refl, ◌∙◌, Bool, true, false, [], ◌∷◌, take, if◌then◌else◌, ◌==◌, ==_iff, Bool-cases,
  inl, inr,
}
use network_application.Base.Outcome.{returns}
use network_application.Errors.Codes.{Code, success, eof, is_error}
use network_application.Json.{Platform}
use network_application.Message.{Transaction, empty_message}
use network_application.Network.{IoMode, sync, async, Asio}
use network_application.Transport.{TransportHandler, invoke_error, set_error_message, u32_value}
use network_application.Transport.Read.{
  Run, magic_sync, read_sync, magic_async, on_headers_async, read_async, read,
}
use network_application.Transport.Read.Deliveries.{
  deliveries, deliveries-invoke_error, error_message,
}

-- One delivery of an error message under that code, on that socket, with no exception.
pub record Rejects {Socket : Type 0} (r : Run Socket) (c : Code) (s : Socket) : Type 0 where
  pub delivered : deliveries r.events ≡ record { code = c; message = error_message } ∷ []
  pub rested : r.socket ≡ s
  pub returned : r.outcome ≡ returns tt

by_test :
    {Socket : Type 0} (b : Bool) (r next : Run Socket) (c : Code) (s : Socket)
    → b ≡ true
    → Rejects r c s
    → Rejects (if b then r else next) c s
by_test b r next c s e h = rw e h

module _ (platform : Platform) (asio : Asio) (h : TransportHandler) (on : h.on_all_read ≡ true)
    (spare : Transaction) (s : asio.Socket) where
  -- Where the headers do not arrive, whatever the error, `read` delivers that error and reads no payload.
  pub read-no_headers :
      (mode : IoMode)
      → is_error (asio.read s 8).code ≡ true
      → Rejects (read platform asio h mode spare s) (asio.read s 8).code (asio.read s 8).socket
  unfolding read read_sync read_async on_headers_async set_error_message
  read-no_headers sync bad =
      let got = asio.read s 8 in
      let m = empty_message spare in
      let seen = deliveries-invoke_error h got.code m "headers" sync on in
      by_test (invoke_error h got.code m "headers" sync).stop
        (record {
          events = (invoke_error h got.code m "headers" sync).events;
          socket = got.socket;
          outcome = returns tt;
        })
        (magic_sync platform asio h m (invoke_error h got.code m "headers" sync).events got.socket
          got.bytes)
        got.code got.socket (seen.1 ∙ bad)
        (record { delivered = seen.0 ∙ rw bad; rested = refl; returned = refl })
  read-no_headers async bad =
      let got = asio.read s 8 in
      let m = empty_message spare in
      let seen = deliveries-invoke_error h got.code m "headers" async on in
      by_test (invoke_error h got.code m "headers" async).stop
        (record {
          events = (invoke_error h got.code m "headers" async).events;
          socket = got.socket;
          outcome = returns tt;
        })
        (magic_async platform asio h m (invoke_error h got.code m "headers" async).events got.socket
          got.bytes)
        got.code got.socket (seen.1 ∙ bad)
        (record { delivered = seen.0 ∙ rw bad; rested = refl; returned = refl })

  wrong :
      u32_value (take 4 (asio.read s 8).bytes) ≢ h.magic_number
      → (u32_value (take 4 (asio.read s 8).bytes) == h.magic_number) ≡ false
  wrong differs = elim (Bool-cases (u32_value (take 4 (asio.read s 8).bytes) == h.magic_number)) [
    | inl t ↦ absurd (differs ((==_iff _ _).0 t))
    | inr f ↦ f
  ]

  -- Where the headers arrive with another magic number, `read` delivers end of file and reads no payload.
  pub read-wrong_magic :
      (mode : IoMode)
      → (asio.read s 8).code ≡ success
      → u32_value (take 4 (asio.read s 8).bytes) ≢ h.magic_number
      → Rejects (read platform asio h mode spare s) eof (asio.read s 8).socket
  unfolding read read_sync read_async on_headers_async magic_sync magic_async deliveries
      set_error_message
  read-wrong_magic sync arrived differs =
      let seen = deliveries-invoke_error h eof (empty_message spare) "headers" sync on in
      rw (arrived, wrong differs) (record { delivered = seen.0; rested = refl; returned = refl })
  read-wrong_magic async arrived differs =
      let seen = deliveries-invoke_error h eof (empty_message spare) "headers" async on in
      rw (arrived, wrong differs) (record { delivered = seen.0; rested = refl; returned = refl })

module _ (platform : Platform) (asio : Asio) (h : TransportHandler) (on : h.on_all_read ≡ true)
    (spare : Transaction) where
  -- Headers that do not arrive make `read`, in either mode, deliver that error with the error message,
  -- once; headers that arrive with another magic number make it deliver end of file so. No payload is
  -- read, and the call returns.
  pub read-Rejects :
      (mode : IoMode) (s t : asio.Socket)
      → is_error (asio.read s 8).code ≡ true
      → (asio.read t 8).code ≡ success
      → u32_value (take 4 (asio.read t 8).bytes) ≢ h.magic_number
      → Rejects (read platform asio h mode spare s) (asio.read s 8).code (asio.read s 8).socket
        × Rejects (read platform asio h mode spare t) eof (asio.read t 8).socket
  read-Rejects mode s t bad arrived differs = (
    read-no_headers platform asio h on spare s mode bad,
    read-wrong_magic platform asio h on spare t mode arrived differs,
  )
