-- ===== src/SegmentClient/Laws.antt =====
-- What start leaves of a client, by the code that the connection attempt reports.
use network_application.Base.{
  ℕ, ◌==◌, ◌≡◌, refl, ap, ◌∙◌, Bool, true, false, List, [], ◌∷◌, ◌++◌, map, if◌then◌else◌, arith,
}
use network_application.Errors.Codes.{Code, is_error}
use network_application.Logger.{Entry}
use network_application.Network.{Asio, Endpoint}
use network_application.Connection
use network_application.Connection.Laws.{connections, connect-reported}
use network_application.Session
use network_application.Session.{
  Session, set_magic_number, set_on_read_handler, set_on_all_read, set_on_connect, on_connection,
  on_connections, place, when,
}
use network_application.Session.Calls
use network_application.Session.Told.{session_disconnect-closed}
use network_application.Session.Calls.{disconnect}
use network_application.Worker.{StatusWorker, task, Task, add_task, flush_begin}
use network_application.SegmentClient.{
  SegmentClient, stop, on_connect, connect, connect_session, start, read_loop,
}

-- The codes that the user's onConnect hears among the events.
unfoldable connecteds : List Session.Event → List Code
connecteds [] = []
connecteds (Session.connected c ∷ es) = c ∷ connecteds es
connecteds (_ ∷ es) = connecteds es

connecteds-append :
    (xs ys : List Session.Event) → connecteds (xs ++ ys) ≡ connecteds xs ++ connecteds ys
unfolding connecteds
connecteds-append [] ys = refl
connecteds-append (Session.connected c ∷ xs) ys = ap (λ cs. c ∷ cs) (connecteds-append xs ys)
connecteds-append (_ ∷ xs) ys = connecteds-append xs ys

connecteds-logs :
    (es : List Entry) (rest : List Session.Event)
    → connecteds (map Session.logs es ++ rest) ≡ connecteds rest
unfolding connecteds
connecteds-logs [] rest = refl
connecteds-logs (e ∷ es) rest = connecteds-logs es rest

connecteds-on_connections :
    {Socket : Type 0} (x : Session Socket) (es : List Connection.Event)
    → x.on_connect ≡ true
    → connecteds (on_connections x es) ≡ connections es
unfolding connecteds on_connections on_connection connections when
connecteds-on_connections x [] set = refl
connecteds-on_connections x (Connection.logs e ∷ es) set = connecteds-on_connections x es set
connecteds-on_connections x (Connection.errors c ∷ es) set = connecteds-on_connections x es set
connecteds-on_connections x (Connection.connects c ∷ es) set =
    let rest = connecteds-on_connections x es set in
    rw (connecteds-append, connecteds-logs, set, rest) refl
connecteds-on_connections x (Connection.disconnects c ∷ es) set =
    let rest = connecteds-on_connections x es set in
    rw (connecteds-append, connecteds-logs, rest) (ground arith)

module _ (asio : Asio) where
  on_connect-none :
      (c : SegmentClient asio.Socket) (es : List Session.Event)
      → connecteds es ≡ []
      → on_connect asio c es ≡ c
  unfolding on_connect connecteds
  on_connect-none c [] h = refl
  on_connect-none c (Session.connected d ∷ es) h = cc
  on_connect-none c (_ ∷ es) h = on_connect-none c es h

  -- The callback hears the codes only.
  on_connect-once :
      (c : SegmentClient asio.Socket) (es : List Session.Event) (ec : Code)
      → connecteds es ≡ ec ∷ []
      → on_connect asio c es ≡ (if is_error ec then stop asio c else c)
  unfolding on_connect connecteds
  on_connect-once c [] ec h = cc
  on_connect-once c (Session.connected d ∷ es) ec h =
      let same : d ≡ ec = cc in
      let rest : connecteds es ≡ [] = cc in
      on_connect-none (if is_error d then stop asio c else c) es rest
      ∙ ap (λ (x : Code). if is_error x then stop asio c else c) same
  on_connect-once c (_ ∷ es) ec h = on_connect-once c es ec h

  connecteds-connect :
      (x : Session asio.Socket) (e : Endpoint)
      → connecteds (Calls.connect asio (set_on_connect x true) e).events
        ≡ (asio.connect x.socket e).code ∷ []
  unfolding Calls.connect set_on_connect Connection.set_on_connect
  connecteds-connect x e =
      let h = Connection.set_on_connect x.connection true in
      connecteds-on_connections (set_on_connect x true)
        (Connection.connect asio h e x.mode x.socket).events refl
      ∙ (connect-reported asio h e x.mode x.socket).0

  -- The state of a client after its worker was given this task.
  abbrev pub Stopped : SegmentClient asio.Socket → Task → Type 0
  Stopped c t =
      (c.is_work ≡ false)
      × (asio.is_open c.session.socket ≡ false)
      × ((add_task c.main_worker t).status ≡ StatusWorker.flush)
      × ((add_task c.main_worker t).tasks ≡ [])

  abbrev pub Running : SegmentClient asio.Socket → Task → Type 0
  Running c t = (c.is_work ≡ true) × ((add_task c.main_worker t).tasks ≡ t ∷ [])

  stop-Stopped :
      (c : SegmentClient asio.Socket) (t : Task)
      → c.is_work ≡ true
      → c.main_worker.status ≡ StatusWorker.wait
      → c.main_worker.tasks ≡ []
      → Stopped (stop asio c) t
  unfolding stop add_task flush_begin
  stop-Stopped c t works waits idle =
      rw works
        (refl, session_disconnect-closed asio c.session, rw waits refl, rw waits (rw idle refl))

  go-Running :
      (c : SegmentClient asio.Socket) (t : Task)
      → c.is_work ≡ true
      → c.main_worker.status ≡ StatusWorker.wait
      → c.main_worker.tasks ≡ []
      → Running c t
  unfolding add_task
  go-Running c t works waits idle = (works, rw waits (rw idle refl))

  connect_session-either :
      (c : SegmentClient asio.Socket) (x : Session asio.Socket) (e : Endpoint) (t : Task)
      → c.is_work ≡ true
      → c.main_worker.status ≡ StatusWorker.wait
      → c.main_worker.tasks ≡ []
      → let d = connect_session asio c x e in
        let ec = (asio.connect x.socket e).code in
        (is_error ec ≡ true → Stopped d t) × (is_error ec ≡ false → Running d t)
  unfolding connect_session
  connect_session-either c x e t works waits idle =
      let a = Calls.connect asio (set_on_connect x true) e in
      let n = record c { session = a.session } in
      let ec = (asio.connect x.socket e).code in
      let came : on_connect asio n a.events ≡ (if is_error ec then stop asio n else n) =
        on_connect-once n a.events ec (connecteds-connect x e) in
      (
        λ bad. rw (came, bad) (stop-Stopped n t works waits idle),
        λ ok. rw (came, ok) (go-Running n t works waits idle),
      )

  set_magic-socket :
      (b : Bool) (x : Session asio.Socket) (n : ℕ)
      → (if b then x else set_magic_number x n).socket ≡ x.socket
  unfolding set_magic_number
  set_magic-socket true x n = refl
  set_magic-socket false x n = refl

  set_reading-socket :
      (b : Bool) (x : Session asio.Socket)
      → (if b then set_on_read_handler x true else x).socket ≡ x.socket
  unfolding set_on_read_handler
  set_reading-socket true x = refl
  set_reading-socket false x = refl

  -- start of a client whose worker waits with an empty queue, on a socket where the attempt to connect
  -- reports `ec`. An error stops the client: isWork is false, the socket is closed, the worker is in
  -- Flush and the read loop is not put into its queue. Otherwise isWork is true and the worker has the
  -- read loop as its one task.
  pub start-cases :
      (c : SegmentClient asio.Socket) (e : Endpoint)
      → c.main_worker.status ≡ StatusWorker.wait
      → c.main_worker.tasks ≡ []
      → let d = start asio c e in
        let ec = (asio.connect c.session.socket e).code in
        (is_error ec ≡ true
          → (d.is_work ≡ false)
            × (asio.is_open d.session.socket ≡ false)
            × (d.main_worker.status ≡ StatusWorker.flush)
            × (d.main_worker.tasks ≡ []))
        × (is_error ec ≡ false → (d.is_work ≡ true) × (d.main_worker.tasks ≡ task read_loop ∷ []))
  unfolding start connect set_on_all_read
  start-cases c e waits idle =
      let magic =
        if c.magic_number == 0 then c.session else set_magic_number c.session c.magic_number in
      let y = if c.read_handler then set_on_read_handler magic true else magic in
      let n = record c { is_work = true; session = magic } in
      let sockets : y.socket ≡ c.session.socket =
        set_reading-socket c.read_handler magic
        ∙ set_magic-socket (c.magic_number == 0) c.session c.magic_number in
      let codes : (asio.connect y.socket e).code ≡ (asio.connect c.session.socket e).code =
        ap (λ (s : asio.Socket). (asio.connect s e).code) sockets in
      let either = connect_session-either n y e (task read_loop) refl waits idle in
      (λ bad. either.0 (ap is_error codes ∙ bad), λ ok. either.1 (ap is_error codes ∙ ok))

  -- start of a client whose worker waits with an empty queue. Where the attempt to connect reports an
  -- error, isWork is false, the socket is closed, the worker is in Flush and the read loop is not put
  -- into its queue; where it reports none, isWork is true and the worker has the read loop as its one
  -- task.
  pub start-either :
      (c : SegmentClient asio.Socket) (deaf alive : Endpoint)
      → c.main_worker.status ≡ StatusWorker.wait
      → c.main_worker.tasks ≡ []
      → is_error (asio.connect c.session.socket deaf).code ≡ true
      → is_error (asio.connect c.session.socket alive).code ≡ false
      → let d = start asio c deaf in
        let e = start asio c alive in
        (d.is_work ≡ false)
        × (asio.is_open d.session.socket ≡ false)
        × (d.main_worker.status ≡ StatusWorker.flush)
        × (d.main_worker.tasks ≡ [])
        × (e.is_work ≡ true)
        × (e.main_worker.tasks ≡ task read_loop ∷ [])
  start-either c deaf alive waits idle bad good =
      let d = (start-cases c deaf waits idle).0 bad in
      let e = (start-cases c alive waits idle).1 good in (d.0, d.1, d.2, d.3, e.0, e.1)
