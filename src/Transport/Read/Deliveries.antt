-- ===== src/Transport/Read/Deliveries.antt =====
-- The calls of onAllRead among the events of `read`, and what the error handler adds to them.
use network_application.Base.{
  codes, ℕ, String, ◌≡◌, refl, Bytes, Bool, true, false, List, [], ◌∷◌, ◌++◌, map, arith,
  Bool-cases, inl, inr, ap, if◌then◌else◌,
}
use network_application.Base.Outcome.{Outcome, returns, throws}
use network_application.Errors.Codes.{Code, is_error, success, eof}
use network_application.Logger.{Entry}
use network_application.Message.{failure, TransportMessage}
use network_application.Network.{IoMode}
use network_application.Transport.{
  Event, logs, reads, all_reads, TransportHandler, invoke_error, when, set_error_message,
}
use network_application.Transport.Read.{Run, incorrect_magic}

-- One call of onAllRead.
pub record Delivered : Type 0 where
  pub code : Code
  pub message : TransportMessage

-- The calls of onAllRead among the events, in order.
unfoldable pub deliveries : List Event → List Delivered
deliveries [] = []
deliveries (all_reads c m ∷ es) = record { code = c; message = m } ∷ deliveries es
deliveries (_ ∷ es) = deliveries es

pub deliveries-append :
    (xs ys : List Event) → deliveries (xs ++ ys) ≡ deliveries xs ++ deliveries ys
unfolding deliveries
deliveries-append [] ys = refl
deliveries-append (all_reads c m ∷ xs) ys =
    ap (◌∷◌ (record { code = c; message = m })) (deliveries-append xs ys)
deliveries-append (_ ∷ xs) ys = deliveries-append xs ys

deliveries-logs : (es : List Entry) → deliveries (map logs es) ≡ []
unfolding deliveries
deliveries-logs [] = refl
deliveries-logs (e ∷ es) = deliveries-logs es

-- What the error handler delivers: nothing for success, and otherwise the code with an error message.
pub deliveries-invoke_error :
    (h : TransportHandler) (c : Code) (m : TransportMessage) (name : String) (mode : IoMode)
    → h.on_all_read ≡ true
    → (deliveries (invoke_error h c m name mode).events
        ≡ (if is_error c then record { code = c; message = set_error_message m } ∷ [] else []))
      × ((invoke_error h c m name mode).stop ≡ is_error c)
unfolding deliveries invoke_error
deliveries-invoke_error h success m name mode on = ground arith
deliveries-invoke_error h _ m name mode on = ground arith

-- The message that a failed read delivers.
abbrev pub error_message : TransportMessage
error_message = record { type = codes "error"; transaction = failure; payload = [] }

-- A run that returns has called onAllRead once, with the error message if the code is an error; one
-- that throws has not called it.
abbrev pub DeliversOnce : Outcome (Unit {0}) → List Delivered → Type 0
DeliversOnce (returns u) ds =
    (d : Delivered) × (ds ≡ d ∷ []) × (is_error d.code ≡ true → d.message ≡ error_message)
DeliversOnce (throws e) ds = ds ≡ []

abbrev pub RunDeliversOnce : {Socket : Type 0} → Run Socket → Type 0
RunDeliversOnce r = DeliversOnce r.outcome (deliveries r.events)

module _ (h : TransportHandler) (on : h.on_all_read ≡ true) (mode : IoMode) (name : String) where
  pub silent :
      (before : List Event) (c : Code) (m : TransportMessage)
      → deliveries before ≡ []
      → is_error c ≡ false
      → deliveries (before ++ (invoke_error h c m name mode).events) ≡ []
  silent before c m quiet ok =
      rw (deliveries-append, quiet, (deliveries-invoke_error h c m name mode on).0, ok)

  pub stopped :
      (before : List Event) (c : Code) (m : TransportMessage)
      → deliveries before ≡ []
      → is_error c ≡ true
      → DeliversOnce (returns tt) (deliveries (before ++ (invoke_error h c m name mode).events))
  unfolding set_error_message
  stopped before c m quiet bad = (
    record { code = c; message = error_message },
    rw (deliveries-append, quiet, (deliveries-invoke_error h c m name mode on).0, bad),
    λ e. refl,
  )

  -- The test that follows each call of the error handler.
  pub after_error :
      {Socket : Type 0} (before : List Event) (c : Code) (m : TransportMessage) (s : Socket)
      (next : Run Socket)
      → deliveries before ≡ []
      → (is_error c ≡ false → RunDeliversOnce next)
      → RunDeliversOnce (
          if (invoke_error h c m name mode).stop
          then record {
            events = before ++ (invoke_error h c m name mode).events;
            socket = s;
            outcome = returns tt;
          }
          else next)
  after_error before c m s next quiet rest = elim (Bool-cases (is_error c)) [
    | inl bad ↦
        rw ((deliveries-invoke_error h c m name mode on).1, bad) (stopped before c m quiet bad)
    | inr ok ↦ rw ((deliveries-invoke_error h c m name mode on).1, ok) (rest ok)
  ]

pub told :
    (before : List Event) (b : Bool) (p : Bytes) (n : ℕ)
    → deliveries before ≡ []
    → deliveries (before ++ when b (reads 0 p n)) ≡ []
unfolding deliveries when
told before true p n quiet = rw (deliveries-append, quiet)
told before false p n quiet = rw (deliveries-append, quiet)

-- The branch of a wrong magic number delivers end of file.
pub wrong_magic-once :
    (h : TransportHandler) (on : h.on_all_read ≡ true) (before : List Event) (m : TransportMessage)
    (mode : IoMode)
    → deliveries before ≡ []
    → DeliversOnce
        (returns tt)
        (deliveries (before ++ incorrect_magic mode ∷ (invoke_error h eof m "headers" mode).events))
unfolding deliveries is_error set_error_message
wrong_magic-once h on before m mode quiet = (
  record { code = eof; message = error_message },
  rw (deliveries-append, quiet, (deliveries-invoke_error h eof m "headers" mode on).0),
  λ e. refl,
)
