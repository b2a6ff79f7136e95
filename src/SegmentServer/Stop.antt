-- ===== src/SegmentServer/Stop.antt =====
-- What start, stop and the accept of a client do to a server.
use network_application.Base.{
  if_true, if_false, ℕ, ◌==◌, ==_iff, ◌≡◌, ◌≢◌, refl, sym, ap, ◌∙◌, true, false, List, [], ◌∷◌,
  Option, none, some, Bool-cases, inl, inr, ◌⊎◌, All, arith,
}
use network_application.Base.Table.{lookup, insert, nat_eq, lookup-insert, beq_ne}
use network_application.Errors.Codes.{Code}
use network_application.Json.{Platform}
use network_application.Network.{Asio}
use network_application.Session
use network_application.Session.{Session}
use network_application.Session.Calls.{disconnect}
use network_application.Session.Told.{session_disconnect-closed}
use network_application.Connection.Accept.{AcceptHandler}
use network_application.SessionManager.{
  SessionManager, get_session, remove_found, remove_session, close_acceptor,
}
use network_application.SessionManager.Destroy.{close-closed}
use network_application.Worker.{Worker, flush_begin, is_flush, thread_round}
use network_application.SegmentServer.{forget}
use network_application.SegmentServer.Members.{SegmentServer, outside, testing}
use network_application.SegmentServer.Loop.{
  turn, disconnect_session, disconnect_each, stop_manager, stop_begin, stop_end, flush_workers,
}
use network_application.SegmentServer.Shrinks.{forget-same}

some_inj : {A : Type 0} (a b : A) → some a ≡ some b → a ≡ b
some_inj a b h = cc

-- Every worker of a server is in Flush.
abbrev pub Flushed : {Socket : Type 0} → SegmentServer Socket → Type 0
Flushed s =
    (is_flush s.main_worker.status ≡ true)
    × All (λ (p : ℕ × Worker). is_flush p.1.status ≡ true) s.session_workers

pub flush_begin-is_flush : (w : Worker) → is_flush (flush_begin w).status ≡ true
unfolding flush_begin
flush_begin-is_flush w = ground arith

flush_workers-is_flush :
    (ws : List (ℕ × Worker))
    → All (λ (p : ℕ × Worker). is_flush p.1.status ≡ true) (flush_workers ws)
unfolding flush_workers
flush_workers-is_flush [] = tt
flush_workers-is_flush ((id, w) ∷ ws) = (flush_begin-is_flush w, flush_workers-is_flush ws)

stop_end-Flushed : {Socket : Type 0} (s : SegmentServer Socket) → Flushed (stop_end s outside)
unfolding stop_end
stop_end-Flushed s = (flush_begin-is_flush s.main_worker, flush_workers-is_flush s.session_workers)

-- The main thread after it has left the loop.
abbrev left_loop : {Socket : Type 0} → SegmentServer Socket → SegmentServer Socket
left_loop s = record s { place = outside; main_worker = thread_round (λ _. false) s.main_worker }

turn-idle :
    {Socket : Type 0} (s : SegmentServer Socket) (id : ℕ)
    → s.is_work ≡ false
    → s.place ≡ testing
    → turn s id s.place ≡ left_loop s
unfolding turn
turn-idle s id idle at = ap (turn s id) at ∙ if_false s.is_work _ (left_loop s) idle

remove_found-acceptor :
    {Socket : Type 0} (m : SessionManager Socket) (id : ℕ) (o : Option (Session Socket))
    → (remove_found m id o).manager.acceptor ≡ m.acceptor
unfolding remove_found
remove_found-acceptor m id none = refl
remove_found-acceptor m id (some x) = refl

remove_session-acceptor :
    {Socket : Type 0} (m : SessionManager Socket) (id : ℕ)
    → (remove_session m id).manager.acceptor ≡ m.acceptor
unfolding remove_session
remove_session-acceptor m id = remove_found-acceptor m id (get_session m id).result

module _ (platform : Platform) (asio : Asio) where
  -- A session that is left in the map is a closed one, or another one that was there.
  pub disconnect_session-closed :
      (m : SessionManager asio.Socket) (id j : ℕ) (x y : Session asio.Socket)
      → lookup j (disconnect_session platform asio m id x).sessions ≡ some y
      → (asio.is_open y.socket ≡ false) ⊎ ((id ≢ j) × (lookup j m.sessions ≡ some y))
  unfolding disconnect_session
  disconnect_session-closed m id j x y h =
      let a = disconnect asio x in
      let e =
        sym (lookup-insert id j a.session m.sessions)
        ∙ forget-same platform asio (record m { sessions = insert id a.session m.sessions }) id j
            a.events y h in
      elim (Bool-cases (id == j)) [
        | inl same ↦
            inl (rw (← some_inj a.session y (rw same at e)) (session_disconnect-closed asio x))
        | inr differs ↦ inr ((λ q. ground (arith, ==_iff id j)), rw differs at e)
      ]

  forget-acceptor :
      (m : SessionManager asio.Socket) (id : ℕ) (es : List Session.Event)
      → (forget platform asio m id es).acceptor ≡ m.acceptor
  unfolding forget
  forget-acceptor m id [] = refl
  forget-acceptor m id (Session.errors c ∷ es) =
      forget-acceptor (remove_session m id).manager id es ∙ remove_session-acceptor m id
  forget-acceptor m id (_ ∷ es) = forget-acceptor m id es

  disconnect_each-acceptor :
      (m : SessionManager asio.Socket) (copy : List (ℕ × Session asio.Socket))
      → (disconnect_each platform asio m copy).acceptor ≡ m.acceptor
  unfolding disconnect_each disconnect_session
  disconnect_each-acceptor m [] = refl
  disconnect_each-acceptor m ((id, x) ∷ rest) =
      disconnect_each-acceptor (disconnect_session platform asio m id x) rest
      ∙ forget-acceptor _ id (disconnect asio x).events

  disconnect_each-closed :
      (m : SessionManager asio.Socket) (copy : List (ℕ × Session asio.Socket)) (j : ℕ)
      (y : Session asio.Socket)
      → lookup j (disconnect_each platform asio m copy).sessions ≡ some y
      → (asio.is_open y.socket ≡ false) ⊎ ((lookup j copy ≡ none) × (lookup j m.sessions ≡ some y))
  unfolding disconnect_each lookup
  disconnect_each-closed m [] j y h = inr (refl, h)
  disconnect_each-closed m ((id, x) ∷ rest) j y h =
      elim (disconnect_each-closed (disconnect_session platform asio m id x) rest j y h) [
        | inl shut ↦ inl shut
        | inr left ↦ elim (disconnect_session-closed m id j x y left.1) [
          | inl shut ↦ inl shut
          | inr other ↦ inr (rw (beq_ne id j other.0) left.0, other.1)
        ]
      ]

  -- What stop leaves.
  pub record Stopped (s : SegmentServer asio.Socket) : Type 0 where
    pub idle : s.is_work ≡ false
    pub manager : SessionManager asio.Socket
    pub has : s.session_manager ≡ some manager
    pub acceptor : manager.acceptor.is_open ≡ false
    pub closed :
        (j : ℕ) (y : Session asio.Socket)
        → lookup j manager.sessions ≡ some y
        → asio.is_open y.socket ≡ false

  stop_manager-Stopped :
      (s : SegmentServer asio.Socket) (cancelled closed : Code) (m : SessionManager asio.Socket)
      → Stopped (stop_manager platform asio s cancelled closed (some m))
  unfolding stop_manager close_acceptor
  stop_manager-Stopped s cancelled closed m =
      let shut = (close_acceptor m cancelled closed).manager in
      record {
        idle = refl;
        manager = disconnect_each platform asio shut shut.sessions;
        has = refl;
        acceptor =
            ap (λ (h : AcceptHandler). h.is_open) (disconnect_each-acceptor shut shut.sessions)
            ∙ close-closed m.acceptor cancelled closed;
        closed = λ j y h. elim (disconnect_each-closed shut shut.sessions j y h) [
          | inl c ↦ c
          | inr e ↦ absurd (let a = e.0 in let b = e.1 in cc)
        ];
      }

  turn-Stopped :
      (s u : SegmentServer asio.Socket)
      → Stopped s
      → u ≡ left_loop s
      → (u.place ≡ outside) × Stopped u × Flushed (stop_end u u.place)
  turn-Stopped s u v e = rw e (
    refl,
    record {
      idle = v.idle;
      manager = v.manager;
      has = v.has;
      acceptor = v.acceptor;
      closed = v.closed;
    },
    stop_end-Flushed (left_loop s),
  )

  stop_begin-Stopped :
      (s t : SegmentServer asio.Socket) (m : SessionManager asio.Socket) (cancelled closed : Code)
      → t ≡ stop_manager platform asio s cancelled closed (some m)
      → s.place ≡ testing
      → Stopped t × (t.place ≡ testing)
  stop_begin-Stopped s t m cancelled closed e at =
      rw e (stop_manager-Stopped s cancelled closed m, unfold stop_manager in at)

  -- stop of a server at work whose main thread is at the test of the accept loop: isWork is false, the
  -- acceptor and every session that is left in the map are closed; the main thread then leaves the loop,
  -- after which the rest of stop puts the main worker and each session worker into Flush. A server that
  -- is not at work is left as it was.
  pub stop-Stopped :
      (s r : SegmentServer asio.Socket) (m : SessionManager asio.Socket) (cancelled closed : Code)
      (id : ℕ)
      → s.is_work ≡ true
      → r.is_work ≡ false
      → s.session_manager ≡ some m
      → s.place ≡ testing
      → let t = stop_begin platform asio s cancelled closed in
        let u = turn t id t.place in
        Stopped t
        × (u.place ≡ outside)
        × Stopped u
        × Flushed (stop_end u u.place)
        × (stop_begin platform asio r cancelled closed ≡ r)
  unfolding stop_begin turn
  stop-Stopped s r m cancelled closed id works idle has at =
      let e =
        if_true s.is_work (stop_manager platform asio s cancelled closed s.session_manager) s works
        ∙ ap (stop_manager platform asio s cancelled closed) has in
      let v = stop_begin-Stopped s _ m cancelled closed e at in
      let w = turn-Stopped _ _ v.0 (turn-idle _ id v.0.idle v.1) in
      (v.0, w.0, w.1, w.2, if_false r.is_work _ r idle)
