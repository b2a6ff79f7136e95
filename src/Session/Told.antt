-- ===== src/Session/Told.antt =====
-- The calls of onAllRead that a session makes on its user, from those that its transport handler makes.
use network_application.Base.{
  ◌≡◌, refl, ap, ◌∙◌, Bool, true, false, List, [], ◌∷◌, ◌++◌, map, Option, none, if◌then◌else◌,
  Bool-cases, Option-cases, inl, inr,
}
use mathlib.Core.List.{append-nil}
use network_application.Errors.Codes.{Code}
use network_application.Errors.Fatal.{Fatal, Tolerated, check_error-Fatal, check_error-not_Fatal}
use network_application.Json.{Platform}
use network_application.Logger.{Entry}
use network_application.Message.{Message, TransportMessage}
use network_application.MessageHandler.{parse_message}
use network_application.Network.{Asio}
use network_application.Connection
use network_application.Connection.Laws.{disconnect-closed}
use network_application.Transport
use network_application.Transport.{mode_name}
use network_application.Transport.Read.Deliveries.{Delivered, deliveries}
use network_application.Session.{
  Event, logs, connected, disconnected, all_read, Session, when, place, on_connection,
  on_connections,
}
use network_application.Session.Calls.{
  disconnect, fail, pass_on, on_all_read, on_read_event, on_read_events,
}

pub record Told : Type 0 where
  pub code : Code
  pub message : Option Message

-- The calls of onAllRead among the events, in order.
unfoldable pub told : List Event → List Told
told [] = []
told (all_read c m ∷ es) = record { code = c; message = m } ∷ told es
told (_ ∷ es) = told es

told-append : (xs ys : List Event) → told (xs ++ ys) ≡ told xs ++ told ys
unfolding told
told-append [] ys = refl
told-append (all_read c m ∷ xs) ys = ap (◌∷◌ (record { code = c; message = m })) (told-append xs ys)
told-append (_ ∷ xs) ys = told-append xs ys

told-logs : (es : List Entry) → told (map logs es) ≡ []
unfolding told
told-logs [] = refl
told-logs (e ∷ es) = told-logs es

told-logs_after : (es : List Entry) (rest : List Event) → told (map logs es ++ rest) ≡ told rest
told-logs_after es rest = rw (told-append, told-logs es)

told-when : (b : Bool) (e : Event) → told (e ∷ []) ≡ [] → told (when b e) ≡ []
unfolding when
told-when true e h = h
told-when false e h = unfold told in refl

told-on_connection :
    {Socket : Type 0} (x : Session Socket) (e : Connection.Event) → told (on_connection x e) ≡ []
unfolding on_connection
told-on_connection x (Connection.logs e) = unfold told in refl
told-on_connection x (Connection.errors c) = unfold told in refl
told-on_connection x (Connection.connects c) =
    told-logs_after _ _ ∙ told-when x.on_connect (connected c) (unfold told in refl)
told-on_connection x (Connection.disconnects c) =
    told-logs_after _ _ ∙ told-when x.on_disconnect (disconnected c) (unfold told in refl)

told-on_connections :
    {Socket : Type 0} (x : Session Socket) (es : List Connection.Event)
    → told (on_connections x es) ≡ []
unfolding on_connections
told-on_connections x [] = unfold told in refl
told-on_connections x (e ∷ es) = rw (told-append, told-on_connection x e, told-on_connections x es)

module _ (asio : Asio) where
  -- disconnect leaves a session's socket closed.
  pub session_disconnect-closed :
      (x : Session asio.Socket) → asio.is_open (disconnect asio x).session.socket ≡ false
  unfolding disconnect
  session_disconnect-closed x =
      (disconnect-closed asio (Connection.set_on_disconnect x.connection true) x.socket).0

module _ (asio : Asio) (platform : Platform) where
  -- A critical error leaves the session marked and its socket closed.
  pub fail_lem :
      (x : Session asio.Socket)
      → (told (fail asio x).events ≡ [])
        × ((fail asio x).session.critical_error ≡ true)
        × (asio.is_open (fail asio x).session.socket ≡ false)
  unfolding fail disconnect
  fail_lem x =
      let c = Connection.set_on_disconnect x.connection true in
      let gone = Connection.disconnect asio c x.socket in
      (
        told-on_connections {Socket = asio.Socket} (record x { critical_error = true }) gone.events,
        refl,
        (disconnect-closed asio c x.socket).0,
      )

  told-pass_on :
      (x : Session asio.Socket) (ec : Code) (t : TransportMessage)
      → told (pass_on asio platform x ec t) ≡ (
          if x.on_all_read
          then record { code = ec; message = (parse_message platform x.creator t).result } ∷ []
          else [])
  unfolding pass_on
  told-pass_on x ec t =
      let seen = parse_message platform x.creator t in
      rw (told-append, told-logs)
        (elim (Bool-cases x.on_all_read) [
          | inl set ↦ elim (Option-cases seen.result) [
            | inl null ↦ rw (set, null) (rw (told-append, told-logs) (unfold told in refl))
            | inr (m, made) ↦ rw (set, made) (unfold told in refl)
          ]
          | inr unset ↦ rw unset (unfold told in refl)
        ])

  -- A code that is tolerated: the message is parsed and handed on, and the session stays.
  pub on_all_read-Tolerated :
      (x : Session asio.Socket) (ec : Code) (t : TransportMessage)
      → Tolerated ec
      → (told (on_all_read asio platform x ec t).events ≡ (
          if x.on_all_read
          then record { code = ec; message = (parse_message platform x.creator t).result } ∷ []
          else []))
        × ((on_all_read asio platform x ec t).session ≡ x)
  unfolding on_all_read
  on_all_read-Tolerated x ec t ok =
      rw (check_error-not_Fatal ec (place "Session::read." x.mode) true ok)
        (told-logs_after _ _ ∙ told-pass_on x ec t, refl)

  -- A code that is fatal: no message is handed on, and the session fails.
  pub on_all_read-Fatal :
      (x : Session asio.Socket) (ec : Code) (t : TransportMessage)
      → Fatal ec
      → (told (on_all_read asio platform x ec t).events
          ≡ (if x.on_all_read then record { code = ec; message = none } ∷ [] else []))
        × ((on_all_read asio platform x ec t).session.critical_error ≡ true)
        × (asio.is_open (on_all_read asio platform x ec t).session.socket ≡ false)
  unfolding on_all_read
  on_all_read-Fatal x ec t bad =
      rw (check_error-Fatal ec (place "Session::read." x.mode) true bad) (
        rw (told-append, told-append, told-logs, (fail_lem x).0)
            (elim (Bool-cases x.on_all_read) [
              | inl set ↦ rw (set, told-append, told-logs) (unfold told in refl)
              | inr unset ↦ rw unset (unfold told in refl)
            ]),
        (fail_lem x).1,
        (fail_lem x).2,
      )

  -- A read that delivers nothing tells nothing and leaves the session as it was.
  pub on_read_events-silent :
      (x : Session asio.Socket) (es : List Transport.Event)
      → deliveries es ≡ []
      → (told (on_read_events asio platform x es).events ≡ [])
        × ((on_read_events asio platform x es).session ≡ x)
  unfolding on_read_events on_read_event deliveries told
  on_read_events-silent x [] h = (refl, refl)
  on_read_events-silent x (Transport.all_reads c t ∷ es) h = cc
  on_read_events-silent x (_ ∷ es) h = on_read_events-silent x es h

  -- A read that delivers once does to the session what that delivery does.
  pub on_read_events-once :
      (x : Session asio.Socket) (es : List Transport.Event) (d : Delivered)
      → deliveries es ≡ d ∷ []
      → (told (on_read_events asio platform x es).events
          ≡ told (on_all_read asio platform x d.code d.message).events)
        × ((on_read_events asio platform x es).session
            ≡ (on_all_read asio platform x d.code d.message).session)
  unfolding on_read_events on_read_event deliveries told
  on_read_events-once x [] d h = cc
  on_read_events-once x (Transport.all_reads c t ∷ es) d h =
      let now = on_all_read asio platform x c t in
      let rest = on_read_events-silent now.session es cc in
      let same : record { code = c; message = t } ≡ d = cc in
      (
        rw (told-append, rest.0, append-nil)
            (ap (λ (e : Delivered). told (on_all_read asio platform x e.code e.message).events)
              same),
        rest.1
            ∙ ap (λ (e : Delivered). (on_all_read asio platform x e.code e.message).session) same,
      )
  on_read_events-once x (_ ∷ es) d h = on_read_events-once x es d h
