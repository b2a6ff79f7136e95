-- ===== src/SessionManager/Refinement.antt =====
-- The sessions of a manager as a function of the number: what the manager promises, and that its
-- operations keep the promise.
use mathlib.Core.Path.{fun_ext}
use network_application.Base.{
  All, arith, ℕ, ℤ, ◌==◌, ◌≡◌, refl, ap, ◌∙◌, true, List, [], ◌∷◌, Option, none, some,
  if◌then◌else◌, Bool-cases, inl, inr,
}
use network_application.Base.Table.{lookup, nat_eq, lookup-insert}
use network_application.Network.{IoMode, sync, async}
use network_application.Errors.Codes.{Code, is_error}
use network_application.Connection.Accept
use network_application.Session
use network_application.Session.{Session}
use network_application.SessionManager.{
  SessionManager, get_session, remove_found, remove_session, make_session, accept_failed,
  session_accepted, add_unless, add_session, accept_session, accept_completed, complete, target,
}
use network_application.SessionManager.Laws.{
  lookup-remove_found, on_acceptor_events-accept, on_acceptor_events-async_accept, begun,
}

-- What changes the manager. An addSession has the memory of the new session, its number, the acceptor's
-- report in the mode Sync and the new socket. In the mode Async the end of an accept comes as a step of
-- its own, with its report and the session that the acceptor's callback holds, as it is by then.
pub data Op (Socket : Type 0) : Type 0 where
  adds : ℤ → ℕ → ℕ → Code → Socket → Op Socket
  completes : Code → Session Socket → Op Socket
  removes : ℕ → Op Socket

-- What a manager promises: a session for some numbers, and the number that the next accept is for.
abbrev pub Spec : Type 0 → Type 0
Spec Socket = (ℕ → Option (Session Socket)) × Option ℕ

module _ {Socket : Type 0} (narrow : ℕ → ℕ) where
  unfoldable pub step : SessionManager Socket → Op Socket → SessionManager Socket
  unfolding add_session accept_completed remove_session
  step m (adds storage memory id ec socket) =
      (add_session m narrow storage memory id ec socket).manager
  step m (completes ec s) = (accept_completed m ec s).manager
  step m (removes id) = (remove_session m id).manager

  unfoldable pub run : SessionManager Socket → List (Op Socket) → SessionManager Socket
  unfolding step
  run m [] = m
  run m (o ∷ os) = run (step m o) os

  -- The session `s` is put under the number, or the number is left without one.
  unfoldable pub set_session :
      (ℕ → Option (Session Socket)) → ℕ → Option (Session Socket) → ℕ → Option (Session Socket)
  set_session f id o j = if id == j then o else f j

  -- The end of an accept for a number: an error takes the number's session, a success gives it `s`.
  unfoldable pub end_accept :
      Code → Session Socket → (ℕ → Option (Session Socket)) → ℕ → ℕ → Option (Session Socket)
  unfolding is_error set_session
  end_accept ec s f id = set_session f id (if is_error ec then none else some s)

  -- addSession of a number in use does nothing. A free number becomes the one that the next accept is
  -- for; in the mode Sync its accept ends at once.
  unfoldable pub spec_add :
      Code
      → ℕ
      → Session Socket
      → (ℕ → Option (Session Socket))
      → Option ℕ
      → IoMode
      → Option (Session Socket)
      → Spec Socket
  unfolding end_accept
  spec_add ec id s f t mode (some old) = (f, t)
  spec_add ec id s f t sync none = (end_accept ec s f id, some id)
  spec_add ec id s f t async none = (f, some id)

  -- The end of an accept in the mode Async is for the number of the last such addSession.
  unfoldable pub spec_complete :
      Code → Session Socket → (ℕ → Option (Session Socket)) → Option ℕ → Spec Socket
  unfolding end_accept
  spec_complete ec s f none = (f, none)
  spec_complete ec s f (some id) = (end_accept ec s f id, some id)

  -- removeSession takes the session of its number.
  unfoldable pub spec_step :
      IoMode → (ℤ → ℕ → Socket → Session Socket) → Spec Socket → Op Socket → Spec Socket
  unfolding spec_add spec_complete set_session
  spec_step mode make (f, t) (adds storage memory id ec socket) =
      spec_add ec id (make storage memory socket) f t mode (f id)
  spec_step mode make (f, t) (completes ec s) = spec_complete ec s f t
  spec_step mode make (f, t) (removes id) = (set_session f id none, t)

  unfoldable pub replay :
      IoMode → (ℤ → ℕ → Socket → Session Socket) → Spec Socket → List (Op Socket) → Spec Socket
  unfolding spec_step
  replay mode make f [] = f
  replay mode make f (o ∷ os) = replay mode make (spec_step mode make f o) os

  -- A manager as its promise.
  abbrev pub view : SessionManager Socket → Spec Socket
  view m = ((λ j. lookup j m.sessions), target m)

  -- The sessions that an accept completes with have the callback of addSession.
  abbrev pub Calls : Op Socket → Type 0
  Calls (completes ec s) = s.on_accept ≡ true
  Calls _ = Unit

  -- The members that an operation leaves.
  record Alike (m n : SessionManager Socket) : Type 0 where
    mode : m.mode ≡ n.mode
    reading : m.read_handler ≡ n.read_handler
    magic : m.magic_number ≡ n.magic_number

  make_session-Alike :
      (m n : SessionManager Socket) (storage : ℤ) (memory : ℕ) (socket : Socket)
      → Alike m n
      → make_session m narrow storage memory socket ≡ make_session n narrow storage memory socket
  unfolding make_session
  make_session-Alike m n storage memory socket a = rw (a.mode, a.reading, a.magic) refl

  remove_found-eq :
      (m : SessionManager Socket) (id : ℕ) (o : Option (Session Socket))
      → lookup id m.sessions ≡ o
      → Alike (remove_found m id o).manager m
        × (view (remove_found m id o).manager
            ≡ (set_session (λ j. lookup j m.sessions) id none, target m))
  unfolding remove_found set_session target
  remove_found-eq m id none free = (
    record { mode = refl; reading = refl; magic = refl },
    ap (λ f. (f, target m)) (fun_ext (λ j. lookup-remove_found m id j none free)),
  )
  remove_found-eq m id (some x) found = (
    record { mode = refl; reading = refl; magic = refl },
    ap (λ f. (f, target m)) (fun_ext (λ j. lookup-remove_found m id j (some x) found)),
  )

  accept_failed-eq :
      (m : SessionManager Socket) (id : ℕ) (o : Option (Session Socket))
      → lookup id m.sessions ≡ o
      → Alike (accept_failed m id o).manager m
        × (view (accept_failed m id o).manager
            ≡ (set_session (λ j. lookup j m.sessions) id none, target m))
  unfolding accept_failed remove_session get_session
  accept_failed-eq m id none free = unfold remove_found in (remove_found-eq m id none free)
  accept_failed-eq m id (some x) found = remove_found-eq m id (lookup id m.sessions) refl

  session_accepted-eq :
      (m : SessionManager Socket) (id : ℕ) (s : Session Socket) (ec : Code)
      → Alike (session_accepted m id s ec).manager m
        × (view (session_accepted m id s ec).manager
            ≡ (end_accept ec s (λ j. lookup j m.sessions) id, target m))
  unfolding session_accepted end_accept set_session target
  session_accepted-eq m id s ec = elim (Bool-cases (is_error ec)) [
    | inl bad ↦
        let a = accept_failed-eq m id (lookup id m.sessions) refl in
        rw bad (unfold set_session target in a)
    | inr ok ↦ rw ok (
      record { mode = refl; reading = refl; magic = refl },
      ap (λ f. (f, target m)) (fun_ext (λ j. lookup-insert id j s m.sessions)),
    )
  ]

  add_unless-eq :
      (m : SessionManager Socket) (id : ℕ) (ec : Code) (s : Session Socket) (mode : IoMode)
      (o : Option (Session Socket))
      → s.on_accept ≡ true
      → Alike (add_unless m id ec s mode o).manager m
        × (view (add_unless m id ec s mode o).manager
            ≡ spec_add ec id s (λ j. lookup j m.sessions) (target m) mode o)
  unfolding add_unless spec_add accept_session Accept.set_on_accept target
  add_unless-eq m id ec s sync (some old) set =
      (record { mode = refl; reading = refl; magic = refl }, refl)
  add_unless-eq m id ec s async (some old) set =
      (record { mode = refl; reading = refl; magic = refl }, refl)
  add_unless-eq m id ec s async none set =
      (record { mode = refl; reading = refl; magic = refl }, refl)
  add_unless-eq m id ec s sync none set =
      let a = session_accepted-eq (begun m id) id s ec in
      rw (on_acceptor_events-accept (begun m id) id s (begun m id).acceptor sync ec refl set)
        (record { mode = a.0.mode; reading = a.0.reading; magic = a.0.magic }, unfold target in a.1)

  target-set :
      (m : SessionManager Socket) (id : ℕ) → target m ≡ some id → m.acceptor.on_accept ≡ true
  unfolding target
  target-set m id h = elim (Bool-cases m.acceptor.on_accept) [
    | inl set ↦ set
    | inr unset ↦ absurd (ground arith)
  ]

  complete-eq :
      (m : SessionManager Socket) (ec : Code) (s : Session Socket) (t : Option ℕ)
      → s.on_accept ≡ true
      → target m ≡ t
      → Alike (complete m ec s t).manager m
        × (view (complete m ec s t).manager ≡ spec_complete ec s (λ j. lookup j m.sessions) t)
  unfolding complete spec_complete
  complete-eq m ec s none set h = (
    record { mode = refl; reading = refl; magic = refl },
    ap (λ t. ((λ j. lookup j m.sessions), t)) h,
  )
  complete-eq m ec s (some id) set h =
      let a = session_accepted-eq m id s ec in
      rw (on_acceptor_events-async_accept m id s m.acceptor ec (target-set m id h) set)
        (a.0, a.1 ∙ ap (λ t. (end_accept ec s (λ j. lookup j m.sessions) id, t)) h)

  -- One step keeps the promise.
  step-eq :
      (m : SessionManager Socket) (o : Op Socket)
      → Calls o
      → Alike (step m o) m × (view (step m o) ≡ spec_step m.mode (make_session m narrow) (view m) o)
  unfolding step spec_step add_session remove_session get_session accept_completed
  step-eq m (adds storage memory id ec socket) c =
      add_unless-eq m id ec (make_session m narrow storage memory socket) m.mode
        (lookup id m.sessions) (unfold make_session Session.set_on_accept in refl)
  step-eq m (completes ec s) c = complete-eq m ec s (target m) c refl
  step-eq m (removes id) c = remove_found-eq m id (lookup id m.sessions) refl

  run-replay_along :
      (m n : SessionManager Socket) (os : List (Op Socket))
      → All Calls os
      → Alike n m
      → view (run n os) ≡ replay m.mode (make_session m narrow) (view n) os
  unfolding run replay
  run-replay_along m n [] c a = refl
  run-replay_along m n (o ∷ os) c a =
      let b = step-eq n o c.0 in
      let make : make_session n narrow ≡ make_session m narrow = fun_ext (λ storage.
        fun_ext (λ memory. fun_ext (λ socket. make_session-Alike n m storage memory socket a))) in
      run-replay_along m (step n o) os c.1 (record {
        mode = b.0.mode ∙ a.mode;
        reading = b.0.reading ∙ a.reading;
        magic = b.0.magic ∙ a.magic;
      })
      ∙ ap (λ v. replay m.mode (make_session m narrow) v os)
          (b.1
            ∙ ap (λ mode. spec_step mode (make_session n narrow) (view n) o) a.mode
            ∙ ap (λ make. spec_step m.mode make (view n) o) make)

  -- After any history of addSession, of ends of accepts in the mode Async and of removeSession, in
  -- either mode, getSession answers for every number what the history makes of a function from numbers
  -- to sessions with the number that the next accept is for: an addSession of a free number sets that
  -- number, and in the mode Sync ends its accept at once; the end of an accept gives the session to the
  -- number that is set by then, or takes its session on an error; and removeSession takes the session.
  -- The session of an accept that ends is one that addSession made, with its callback set.
  pub run-replay :
      (m : SessionManager Socket) (os : List (Op Socket)) (j : ℕ)
      → All Calls os
      → (get_session (run m os) j).result
        ≡ (replay m.mode (make_session m narrow) ((λ i. (get_session m i).result), target m) os).0 j
  unfolding get_session
  run-replay m os j c =
      ap (λ (v : Spec Socket). v.0 j)
        (run-replay_along m m os c (record { mode = refl; reading = refl; magic = refl }))
