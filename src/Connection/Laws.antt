-- ===== src/Connection/Laws.antt =====
-- What disconnect and connect leave behind.
use network_application.Base.{
  ◌≡◌, refl, ap, false, List, [], ◌∷◌, ◌++◌, map, if◌then◌else◌, Bool-cases, inl, inr, String,
  arith,
}
use network_application.Errors.Codes.{Code}
use network_application.Errors.{check_error}
use network_application.Errors.Fatal.{Fatal, check_error-Fatal}
use network_application.Logger.{Entry, lit}
use network_application.Network.{Asio, Endpoint, IoMode, sync, async}
use network_application.Connection.{
  Event, logs, connects, disconnects, ConnectHandler, when, report, disconnect, report_connect,
  connect,
}

-- The calls of onConnect and of onDisconnect among the events.
unfoldable pub connections : List Event → List Code
connections [] = []
connections (connects c ∷ es) = c ∷ connections es
connections (_ ∷ es) = connections es

unfoldable pub disconnections : List Event → List Code
disconnections [] = []
disconnections (disconnects c ∷ es) = c ∷ disconnections es
disconnections (_ ∷ es) = disconnections es

connections-append :
    (xs ys : List Event) → connections (xs ++ ys) ≡ connections xs ++ connections ys
unfolding connections
connections-append [] ys = refl
connections-append (connects c ∷ xs) ys = ap (◌∷◌ c) (connections-append xs ys)
connections-append (_ ∷ xs) ys = connections-append xs ys

disconnections-append :
    (xs ys : List Event) → disconnections (xs ++ ys) ≡ disconnections xs ++ disconnections ys
unfolding disconnections
disconnections-append [] ys = refl
disconnections-append (disconnects c ∷ xs) ys = ap (◌∷◌ c) (disconnections-append xs ys)
disconnections-append (_ ∷ xs) ys = disconnections-append xs ys

connections-logs : (es : List Entry) → connections (map logs es) ≡ []
unfolding connections
connections-logs [] = refl
connections-logs (e ∷ es) = connections-logs es

report-quiet :
    (h : ConnectHandler) (ec : Code) (name : String)
    → (connections (report h ec name) ≡ []) × (disconnections (report h ec name) ≡ [])
unfolding report connections disconnections
report-quiet h Code.success name = (refl, refl)
report-quiet h _ name = ground arith

closing-quiet :
    (h : ConnectHandler) (a b : Code) (x y : String)
    → (connections (report h a x ++ (report h b y ++ when h.on_disconnect (disconnects b))) ≡ [])
      × (disconnections (report h a x ++ (report h b y ++ when h.on_disconnect (disconnects b)))
          ≡ (if h.on_disconnect then b ∷ [] else []))
unfolding connections disconnections when
closing-quiet h a b x y = (
  rw (connections-append, connections-append, (report-quiet h a x).0, (report-quiet h b y).0)
      (ground arith),
  rw (disconnections-append, disconnections-append, (report-quiet h a x).1, (report-quiet h b y).1)
      (ground arith),
)

module _ (asio : Asio) (h : ConnectHandler) where
  -- disconnect leaves the socket closed, whatever shutdown and close report. On an open socket it calls
  -- onDisconnect, if set, once with the code of close; on a closed one it does nothing.
  pub disconnect-closed :
      (s : asio.Socket)
      → (asio.is_open (disconnect asio h s).socket ≡ false)
        × (disconnections (disconnect asio h s).events ≡ (
            if asio.is_open s
            then (if h.on_disconnect then (asio.close (asio.shutdown s).socket).code ∷ [] else [])
            else []))
  unfolding disconnect disconnections
  disconnect-closed s =
      let down = asio.shutdown s in
      let closed = asio.close down.socket in
      elim (Bool-cases (asio.is_open s)) [
        | inr shut ↦ rw shut (shut, refl)
        | inl open' ↦
            rw open' (asio.is_open-close down.socket, (closing-quiet h down.code closed.code _ _).1)
      ]

  disconnect-quiet : (s : asio.Socket) → connections (disconnect asio h s).events ≡ []
  unfolding disconnect
  disconnect-quiet s = elim (Bool-cases (asio.is_open s)) [
    | inr shut ↦ rw shut (unfold connections in refl)
    | inl open' ↦
        rw open'
          (closing-quiet h (asio.shutdown s).code (asio.close (asio.shutdown s).socket).code _ _).0
  ]

  report_connect-once :
      (ec : Code) (name : String) (s : asio.Socket)
      → connections (report_connect asio h ec name s).events
        ≡ (if h.on_connect then ec ∷ [] else [])
  unfolding report_connect
  report_connect-once ec name s = elim (Bool-cases (check_error ec (lit name ∷ []) false).result) [
    | inl bad ↦
        rw
          (
            bad,
            connections-append,
            connections-logs,
            connections-append,
            connections-append,
            disconnect-quiet s,
          )
          (unfold connections when in ground arith)
    | inr ok ↦
        rw (ok, connections-append, connections-logs) (unfold connections when in ground arith)
  ]

  report_connect-closed :
      (ec : Code) (name : String) (s : asio.Socket)
      → Fatal ec
      → asio.is_open (report_connect asio h ec name s).socket ≡ false
  unfolding report_connect
  report_connect-closed ec name s bad =
      rw (check_error-Fatal ec (lit name ∷ []) false bad) (disconnect-closed s).0

  -- In either mode connect calls onConnect, if set, once and with the code of the attempt; a code that
  -- check_error reports leaves the socket closed.
  pub connect-reported :
      (e : Endpoint) (mode : IoMode) (s : asio.Socket)
      → let ec = (asio.connect s e).code in
        (connections (connect asio h e mode s).events ≡ (if h.on_connect then ec ∷ [] else []))
        × (Fatal ec → asio.is_open (connect asio h e mode s).socket ≡ false)
  unfolding connect
  connect-reported e sync s = (report_connect-once _ _ _, report_connect-closed _ _ _)
  connect-reported e async s = (report_connect-once _ _ _, report_connect-closed _ _ _)

  -- In either mode connect calls onConnect, if set, once with the code of the attempt, and a fatal code
  -- leaves the socket closed. disconnect leaves the socket closed, whatever shutdown and close report; on
  -- an open socket it calls onDisconnect, if set, once with the code of close, and on a closed one never.
  pub connection-reported :
      (e : Endpoint) (mode : IoMode) (s u : asio.Socket)
      → Fatal (asio.connect u e).code
      → let ec = (asio.connect s e).code in
        let made = connect asio h e mode s in
        let gone = disconnect asio h s in
        (connections made.events ≡ (if h.on_connect then ec ∷ [] else []))
        × (asio.is_open (connect asio h e mode u).socket ≡ false)
        × (asio.is_open gone.socket ≡ false)
        × (disconnections gone.events ≡ (
            if asio.is_open s
            then (if h.on_disconnect then (asio.close (asio.shutdown s).socket).code ∷ [] else [])
            else []))
  connection-reported e mode s u fatal =
      let c = connect-reported e mode s in
      let d = disconnect-closed s in (c.0, (connect-reported e mode u).1 fatal, d.0, d.1)
