-- ===== src/SessionManager/Numbers.antt =====
-- The numbers of a manager's sessions: one session for each, and how many there are.
use network_application.Base.{
  ℕ, ℤ, suc, ◌≡◌, ◌∙◌, sym, ap, refl, true, Option, none, some, if◌then◌else◌, Bool-cases, inl, inr,
}
use network_application.Base.Table.{
  lookup, nat_eq, Unique, insert-Unique, erase-Unique, length-insert,
}
use network_application.Errors.Codes.{Code, is_error}
use network_application.Session
use network_application.Session.{Session}
use network_application.SessionManager.{
  SessionManager, Managed, settle, settled, get_session, get_session_count, remove_found,
  remove_session, make_session, accept_failed, session_accepted, add_unless, add_session,
}
use network_application.SessionManager.Laws.{begun, settle-add_unless, settled-sync}
use network_application.Network.{IoMode, sync, async}

module _ {Socket : Type 0} where
  remove_found-Unique :
      (m : SessionManager Socket) (id : ℕ) (o : Option (Session Socket))
      → Unique m.sessions
      → Unique (remove_found m id o).manager.sessions
  unfolding remove_found
  remove_found-Unique m id none u = u
  remove_found-Unique m id (some s) u = erase-Unique id m.sessions u

  -- removeSession keeps one session for each number.
  pub remove_session-Unique :
      (m : SessionManager Socket) (id : ℕ)
      → Unique m.sessions
      → Unique (remove_session m id).manager.sessions
  unfolding remove_session
  remove_session-Unique m id u = remove_found-Unique m id (get_session m id).result u

  -- The count after an accept, where the number was free.
  session_accepted-count :
      (m : SessionManager Socket) (id : ℕ) (s : Session Socket) (ec : Code)
      → lookup id m.sessions ≡ none
      → Unique m.sessions
      → Unique (session_accepted m id s ec).manager.sessions
        × (get_session_count (session_accepted m id s ec).manager
            ≡ (if is_error ec then get_session_count m else suc (get_session_count m)))
  unfolding session_accepted get_session_count
  session_accepted-count m id s ec fresh u = elim (Bool-cases (is_error ec)) [
    | inl bad ↦ rw (bad, fresh) (unfold accept_failed in (u, refl))
    | inr ok ↦ rw ok (insert-Unique id s m.sessions u, length-insert id s m.sessions fresh)
  ]

  begun_count :
      (m : SessionManager Socket) (id : ℕ) (s : Session Socket) (ec : Code)
      → lookup id m.sessions ≡ none
      → Unique m.sessions
      → Unique (session_accepted (begun m id) id s ec).manager.sessions
        × (get_session_count (session_accepted (begun m id) id s ec).manager
            ≡ (if is_error ec then get_session_count m else suc (get_session_count m)))
  unfolding get_session_count
  begun_count m id s ec found u = session_accepted-count (begun m id) id s ec found u

  add_unless-count :
      (m : SessionManager Socket) (id : ℕ) (ec : Code) (s : Session Socket) (mode : IoMode)
      (o : Option (Session Socket))
      → s.on_accept ≡ true
      → lookup id m.sessions ≡ o
      → Unique m.sessions
      → Unique (settle ec s mode o (add_unless m id ec s mode o)).manager.sessions
        × (get_session_count (settle ec s mode o (add_unless m id ec s mode o)).manager ≡ elim o [
          | some old ↦ get_session_count m
          | none ↦ if is_error ec then get_session_count m else suc (get_session_count m)
        ])
  add_unless-count m id ec s sync (some old) set found u =
      unfold add_unless settle get_session_count in (u, refl)
  add_unless-count m id ec s async (some old) set found u =
      unfold add_unless settle get_session_count in (u, refl)
  add_unless-count m id ec s sync none set found u =
      rw (settle-add_unless m id ec s sync set) (begun_count m id s ec found u)
  add_unless-count m id ec s async none set found u =
      rw (settle-add_unless m id ec s async set) (begun_count m id s ec found u)

  -- addSession, in the mode Async followed by the completion of its accept, keeps one session for each
  -- number. The number of sessions grows by one where the number was free and the accept succeeds, and
  -- stays in every other case.
  pub add_session-count :
      (m : SessionManager Socket) (narrow : ℕ → ℕ) (storage : ℤ) (memory id : ℕ) (ec : Code)
      (socket : Socket)
      → Unique m.sessions
      → Unique (settled m narrow storage memory id ec socket).manager.sessions
        × (get_session_count (settled m narrow storage memory id ec socket).manager
            ≡ elim (lookup id m.sessions) [
              | some old ↦ get_session_count m
              | none ↦ if is_error ec then get_session_count m else suc (get_session_count m)
            ])
  unfolding settled add_session
  add_session-count m narrow storage memory id ec socket u =
      add_unless-count m id ec (make_session m narrow storage memory socket) m.mode
        (lookup id m.sessions) (unfold make_session Session.set_on_accept in refl) refl u

  -- The same of addSession alone in the mode Sync.
  pub add_session-count_sync :
      (m : SessionManager Socket) (narrow : ℕ → ℕ) (storage : ℤ) (memory id : ℕ) (ec : Code)
      (socket : Socket)
      → Unique m.sessions
      → m.mode ≡ sync
      → get_session_count (add_session m narrow storage memory id ec socket).manager
        ≡ elim (lookup id m.sessions) [
          | some old ↦ get_session_count m
          | none ↦ if is_error ec then get_session_count m else suc (get_session_count m)
        ]
  add_session-count_sync m narrow storage memory id ec socket u h =
      ap (λ (a : Managed Socket). get_session_count a.manager)
        (sym (settled-sync m narrow storage memory id ec socket h))
      ∙ (add_session-count m narrow storage memory id ec socket u).1
