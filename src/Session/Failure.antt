-- ===== src/Session/Failure.antt =====
-- What one call of a session's read does to the session and tells its user.
use network_application.Base.{
  ◌≡◌, refl, ◌∙◌, ap, true, false, List, [], ◌∷◌, none, if◌then◌else◌, ◌⊎◌, inl, inr,
}
use network_application.Base.Outcome.{Outcome, returns, throws}
use network_application.Errors.Codes.{Code, success, address_in_use, syntax, connection_refused}
use network_application.Errors.Fatal.{Fatal, Tolerated}
use network_application.Json.{Platform}
use network_application.Message.{Transaction}
use network_application.MessageHandler.{parse_message}
use network_application.Network.{Asio}
use network_application.Transport
use network_application.Transport.Read
use network_application.Transport.Read.Deliveries.{deliveries, DeliversOnce}
use network_application.Transport.Read.Once.{read-once}
use network_application.Session.{Session, Acted}
use network_application.Session.Calls.{on_read_events, read}
use network_application.Session.Told.{
  Told, told, on_read_events-silent, on_read_events-once, on_all_read-Tolerated, on_all_read-Fatal,
}

Code-cases : (ec : Code) → Tolerated ec ⊎ Fatal ec
Code-cases success = inl tt
Code-cases address_in_use = inl tt
Code-cases syntax = inl tt
Code-cases connection_refused = inl tt
Code-cases _ = inr (λ t. t)

module _ (asio : Asio) (platform : Platform) where
  -- After a read of `x` with this outcome: one code was told, where onAllRead is set. A fatal one comes
  -- without a message, marks the session and closes its socket; a tolerated one leaves the mark. An
  -- exception has told nothing and leaves the mark.
  abbrev pub Settled : Session asio.Socket → Acted asio.Socket → Outcome (Unit {0}) → Type 0
  Settled x a (throws e) = (told a.events ≡ []) × (a.session.critical_error ≡ x.critical_error)
  Settled x a (returns u) =
      (t : Told) × (told a.events ≡ (if x.on_all_read then t ∷ [] else []))
      × (Tolerated t.code → a.session.critical_error ≡ x.critical_error)
      × (Fatal t.code
          → (t.message ≡ none)
            × (a.session.critical_error ≡ true)
            × (asio.is_open a.session.socket ≡ false))

  settle :
      (x : Session asio.Socket) (es : List Transport.Event) (o : Outcome (Unit {0}))
      → DeliversOnce o (deliveries es)
      → Settled x (on_read_events asio platform x es) o
  settle x es (throws e) h =
      let quiet = on_read_events-silent asio platform x es h in
      (quiet.0, ap (λ (y : Session asio.Socket). y.critical_error) quiet.1)
  settle x es (returns u) (d, one, _) =
      let step = on_read_events-once asio platform x es d one in
      let critical = λ (y : Session asio.Socket). y.critical_error in
      elim (Code-cases d.code) [
        | inl ok ↦
            let heard = on_all_read-Tolerated asio platform x d.code d.message ok in
            (
              record {
                code = d.code;
                message = (parse_message platform x.creator d.message).result;
              },
              step.0 ∙ heard.0,
              λ t. ap critical (step.1 ∙ heard.1),
              λ bad. absurd (bad ok),
            )
        | inr bad ↦
            let heard = on_all_read-Fatal asio platform x d.code d.message bad in
            (
              record { code = d.code; message = none },
              step.0 ∙ heard.0,
              λ ok. absurd (bad ok),
              λ t. (
                refl,
                ap critical step.1 ∙ heard.1,
                ap (λ (y : Session asio.Socket). asio.is_open y.socket) step.1 ∙ heard.2,
              ),
            )
      ]

  -- read on an open socket: if it returns, then with onAllRead set it is called once. With a code that
  -- check_error reports the message is null, criticalError is set and the socket is closed; with another
  -- code criticalError is as before. If an exception leaves it, onAllRead is not called and criticalError
  -- is as before. On a socket that is not open, nothing is called and criticalError is as before.
  pub session_read-Settled :
      (x y : Session asio.Socket) (spare : Transaction)
      → asio.is_open x.socket ≡ true
      → asio.is_open y.socket ≡ false
      → Settled x (read asio platform x spare).acted (read asio platform x spare).outcome
        × ((read asio platform y spare).acted.events ≡ [])
        × ((read asio platform y spare).acted.session.critical_error ≡ y.critical_error)
  unfolding read Transport.set_on_all_read
  session_read-Settled x y spare open' shut =
      let z = record x { transport = Transport.set_on_all_read x.transport true } in
      let r = Read.read platform asio z.transport x.mode spare x.socket in
      (
        rw open' (
            settle (record z { socket = r.socket }) r.events r.outcome
              (read-once platform asio z.transport refl x.mode spare x.socket)),
        rw shut refl,
        rw shut refl,
      )
