-- ===== src/SessionManager/Laws.antt =====
-- Which sessions a manager holds after its operations.
use network_application.Base.{
  ℕ, ℤ, ◌==◌, ==_iff, ◌≡◌, refl, sym, ap, ◌∙◌, Bool, true, false, List, [], ◌∷◌, ◌++◌, map, Option,
  none, some, if◌then◌else◌, Bool-cases, inl, inr,
}
use network_application.Base.Table.{lookup, nat_eq, lookup-insert, lookup-erase}
use network_application.Errors.{check_error}
use network_application.Errors.Codes.{Code, is_error}
use network_application.Logger.{Entry, lit}
use network_application.Network.{IoMode, sync, async}
use network_application.Connection.Accept
use network_application.Connection.Accept.{AcceptHandler}
use network_application.Session
use network_application.Session.{Session, when, on_accepted, place}
use network_application.SessionManager.{
  SessionManager, Managed, settle, settled, accept_session, accept_completed, complete, target,
  get_session, remove_found, remove_session, accept_failed, add_unless, make_session,
  session_accepted, on_session_events, on_acceptor_events, add_session,
}

module _ {Socket : Type 0} where
  on_session_events-logs :
      (m : SessionManager Socket) (id : ℕ) (s : Session Socket) (es : List Entry)
      (rest : List Session.Event)
      → (on_session_events m id s (map Session.logs es ++ rest)).manager
        ≡ (on_session_events m id s rest).manager
  unfolding on_session_events
  on_session_events-logs m id s [] rest = refl
  on_session_events-logs m id s (e ∷ es) rest = on_session_events-logs m id s es rest

  on_session_events-on_accepted :
      (m : SessionManager Socket) (id : ℕ) (s : Session Socket) (c : Code)
      → s.on_accept ≡ true
      → (on_session_events m id s (on_accepted s c)).manager ≡ (session_accepted m id s c).manager
  unfolding on_accepted when
  on_session_events-on_accepted m id s c set =
      on_session_events-logs m id s (check_error c (place "Session::accept." s.mode) true).logged
        (when s.on_accept (Session.accepted c))
      ∙ rw set (unfold on_session_events in refl)

  on_acceptor_events-logs :
      (m : SessionManager Socket) (id : ℕ) (s : Session Socket) (es : List Entry)
      (rest : List Accept.Event)
      → (on_acceptor_events m id s (map Accept.logs es ++ rest)).manager
        ≡ (on_acceptor_events m id s rest).manager
  unfolding on_acceptor_events
  on_acceptor_events-logs m id s [] rest = refl
  on_acceptor_events-logs m id s (e ∷ es) rest = on_acceptor_events-logs m id s es rest

  -- What follows the log records of an accept.
  on_acceptor_events-accepts :
      (m : SessionManager Socket) (id : ℕ) (s : Session Socket) (h : AcceptHandler) (bad : Bool)
      (c : Code)
      → h.on_accept ≡ true
      → s.on_accept ≡ true
      → (on_acceptor_events m id s (
          (if bad then Accept.when h.on_error (Accept.errors c) else [])
          ++ Accept.when h.on_accept (Accept.accepts c))).manager
        ≡ (session_accepted m id s c).manager
  unfolding on_acceptor_events Accept.when
  on_acceptor_events-accepts m id s h false c told set =
      rw told (on_session_events-on_accepted m id s c set)
  on_acceptor_events-accepts m id s h true c told set = elim (Bool-cases h.on_error) [
    | inl e ↦ rw (e, told) (on_session_events-on_accepted m id s c set)
    | inr e ↦ rw (e, told) (on_session_events-on_accepted m id s c set)
  ]

  pub on_acceptor_events-accept :
      (m : SessionManager Socket) (id : ℕ) (s : Session Socket) (h : AcceptHandler) (mode : IoMode)
      (c : Code)
      → h.on_accept ≡ true
      → s.on_accept ≡ true
      → (on_acceptor_events m id s (Accept.accept h mode c)).manager
        ≡ (session_accepted m id s c).manager
  unfolding Accept.accept
  on_acceptor_events-accept m id s h sync c told set =
      let seen = check_error c (lit "AcceptHandler::accept.sync" ∷ []) false in
      on_acceptor_events-logs m id s seen.logged (
        (if seen.result then Accept.when h.on_error (Accept.errors c) else [])
        ++ Accept.when h.on_accept (Accept.accepts c))
      ∙ on_acceptor_events-accepts m id s h seen.result c told set
  on_acceptor_events-accept m id s h async c told set =
      let seen = check_error c (lit "AcceptHandler::accept.async" ∷ []) false in
      on_acceptor_events-logs m id s seen.logged (
        (if seen.result then Accept.when h.on_error (Accept.errors c) else [])
        ++ Accept.when h.on_accept (Accept.accepts c))
      ∙ on_acceptor_events-accepts m id s h seen.result c told set

  pub on_acceptor_events-async_accept :
      (m : SessionManager Socket) (id : ℕ) (s : Session Socket) (h : AcceptHandler) (c : Code)
      → h.on_accept ≡ true
      → s.on_accept ≡ true
      → (on_acceptor_events m id s (Accept.async_accept h c)).manager
        ≡ (session_accepted m id s c).manager
  unfolding Accept.accept
  on_acceptor_events-async_accept m id s h c told set =
      on_acceptor_events-accept m id s h async c told set

  session_accepted-fresh :
      (m : SessionManager Socket) (id j : ℕ) (s : Session Socket) (ec : Code)
      → lookup id m.sessions ≡ none
      → lookup j (session_accepted m id s ec).manager.sessions ≡ (
          if is_error ec
          then lookup j m.sessions
          else if id == j
          then some s
          else lookup j m.sessions)
  unfolding session_accepted
  session_accepted-fresh m id j s ec fresh = elim (Bool-cases (is_error ec)) [
    | inl bad ↦ rw (bad, fresh) (unfold accept_failed in refl)
    | inr ok ↦ rw ok (lookup-insert id j s m.sessions)
  ]

  -- The manager while a session under a free number is accepted.
  abbrev pub begun : SessionManager Socket → ℕ → SessionManager Socket
  begun m id = record m { acceptor = record m.acceptor { on_accept = true }; accepting = some id }

  -- addSession of a free number with the completion of its accept is the callback of the session.
  pub settle-add_unless :
      (m : SessionManager Socket) (id : ℕ) (ec : Code) (s : Session Socket) (mode : IoMode)
      → s.on_accept ≡ true
      → (settle ec s mode none (add_unless m id ec s mode none)).manager
        ≡ (session_accepted (begun m id) id s ec).manager
  unfolding settle add_unless accept_session Accept.set_on_accept accept_completed complete target
  settle-add_unless m id ec s sync set =
      on_acceptor_events-accept (begun m id) id s (begun m id).acceptor sync ec refl set
  settle-add_unless m id ec s async set =
      on_acceptor_events-async_accept (begun m id) id s (begun m id).acceptor ec refl set

  lookup-add_unless :
      (m : SessionManager Socket) (id j : ℕ) (ec : Code) (s : Session Socket) (mode : IoMode)
      (o : Option (Session Socket))
      → s.on_accept ≡ true
      → lookup id m.sessions ≡ o
      → lookup j (settle ec s mode o (add_unless m id ec s mode o)).manager.sessions ≡ elim o [
        | some old ↦ lookup j m.sessions
        | none ↦
            if is_error ec
            then lookup j m.sessions
            else if id == j
            then some s
            else lookup j m.sessions
      ]
  lookup-add_unless m id j ec s sync (some old) set found = unfold add_unless settle in refl
  lookup-add_unless m id j ec s async (some old) set found = unfold add_unless settle in refl
  lookup-add_unless m id j ec s sync none set found =
      rw (settle-add_unless m id ec s sync set)
        (session_accepted-fresh (begun m id) id j s ec found)
  lookup-add_unless m id j ec s async none set found =
      rw (settle-add_unless m id ec s async set)
        (session_accepted-fresh (begun m id) id j s ec found)

  -- addSession with the completion of its accept, in either mode: under a number in use and for an accept
  -- that fails, each number has the session that it had. Otherwise `id` has the new session, with the
  -- manager's mode and callbacks set, and every other number the session that it had.
  pub lookup-settled :
      (m : SessionManager Socket) (narrow : ℕ → ℕ) (storage : ℤ) (memory id : ℕ) (ec : Code)
      (socket : Socket) (j : ℕ)
      → lookup j (settled m narrow storage memory id ec socket).manager.sessions
        ≡ elim (lookup id m.sessions) [
          | some old ↦ lookup j m.sessions
          | none ↦
              if is_error ec
              then lookup j m.sessions
              else if id == j
              then some (make_session m narrow storage memory socket)
              else lookup j m.sessions
        ]
  unfolding settled add_session
  lookup-settled m narrow storage memory id ec socket j =
      lookup-add_unless m id j ec (make_session m narrow storage memory socket) m.mode
        (lookup id m.sessions) (unfold make_session Session.set_on_accept in refl) refl

  settle-sync :
      (ec : Code) (s : Session Socket) (o : Option (Session Socket)) (a : Managed Socket)
      → settle ec s sync o a ≡ a
  unfolding settle
  settle-sync ec s none a = refl
  settle-sync ec s (some old) a = refl

  -- In the mode Sync nothing is left to complete.
  pub settled-sync :
      (m : SessionManager Socket) (narrow : ℕ → ℕ) (storage : ℤ) (memory id : ℕ) (ec : Code)
      (socket : Socket)
      → m.mode ≡ sync
      → settled m narrow storage memory id ec socket
        ≡ add_session m narrow storage memory id ec socket
  unfolding settled
  settled-sync m narrow storage memory id ec socket h =
      ap
        (λ mode.
          settle ec (make_session m narrow storage memory socket) mode (lookup id m.sessions)
            (add_session m narrow storage memory id ec socket))
        h
      ∙ settle-sync ec (make_session m narrow storage memory socket) (lookup id m.sessions)
          (add_session m narrow storage memory id ec socket)

  -- addSession in the mode Sync.
  pub lookup-add_session :
      (m : SessionManager Socket) (narrow : ℕ → ℕ) (storage : ℤ) (memory id : ℕ) (ec : Code)
      (socket : Socket) (j : ℕ)
      → m.mode ≡ sync
      → lookup j (add_session m narrow storage memory id ec socket).manager.sessions
        ≡ elim (lookup id m.sessions) [
          | some old ↦ lookup j m.sessions
          | none ↦
              if is_error ec
              then lookup j m.sessions
              else if id == j
              then some (make_session m narrow storage memory socket)
              else lookup j m.sessions
        ]
  lookup-add_session m narrow storage memory id ec socket j h =
      ap (λ (a : Managed Socket). lookup j a.manager.sessions)
        (sym (settled-sync m narrow storage memory id ec socket h))
      ∙ lookup-settled m narrow storage memory id ec socket j

  add_unless-async :
      (m : SessionManager Socket) (id : ℕ) (ec : Code) (s : Session Socket)
      (o : Option (Session Socket))
      → (add_unless m id ec s async o).manager.sessions ≡ m.sessions
  unfolding add_unless accept_session
  add_unless-async m id ec s none = refl
  add_unless-async m id ec s (some old) = refl

  -- In the mode Async addSession leaves the map as it is.
  pub add_session-async :
      (m : SessionManager Socket) (narrow : ℕ → ℕ) (storage : ℤ) (memory id : ℕ) (ec : Code)
      (socket : Socket)
      → m.mode ≡ async
      → (add_session m narrow storage memory id ec socket).manager.sessions ≡ m.sessions
  unfolding add_session
  add_session-async m narrow storage memory id ec socket h =
      ap
        (λ mode.
          (add_unless m id ec (make_session m narrow storage memory socket) mode
            (lookup id m.sessions)).manager.sessions)
        h
      ∙ add_unless-async m id ec (make_session m narrow storage memory socket)
          (lookup id m.sessions)

  pub lookup-remove_found :
      (m : SessionManager Socket) (id j : ℕ) (o : Option (Session Socket))
      → lookup id m.sessions ≡ o
      → lookup j (remove_found m id o).manager.sessions
        ≡ (if id == j then none else lookup j m.sessions)
  unfolding remove_found
  lookup-remove_found m id j (some s) found = lookup-erase id j m.sessions
  lookup-remove_found m id j none found = elim (Bool-cases (id == j)) [
    | inl same ↦ rw (same, ← (==_iff id j).0 same) found
    | inr differs ↦ rw differs refl
  ]

  -- removeSession leaves no session under the number and every other one where it was.
  pub lookup-remove_session :
      (m : SessionManager Socket) (id j : ℕ)
      → lookup j (remove_session m id).manager.sessions
        ≡ (if id == j then none else lookup j m.sessions)
  unfolding remove_session get_session
  lookup-remove_session m id j = lookup-remove_found m id j (lookup id m.sessions) refl
