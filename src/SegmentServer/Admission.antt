-- ===== src/SegmentServer/Admission.antt =====
-- What the accept loop makes of a client when addSession has ended: it is taken or refused.
use network_application.Base.{
  if_true, if_false, ℕ, suc, ◌<◌, ◌==◌, ◌≡◌, ◌≢◌, refl, ap, ◌∙◌, Bool, true, false, not, ◌&&◌, ◌⊎◌,
  [], ◌∷◌, ◌++◌, Option, none, some, if◌then◌else◌, inl, inr, arith, ltb,
}
use network_application.Base.Table.{lookup, insert, nat_eq, lookup-insert, beq_ne}
use network_application.Json.{Platform}
use network_application.Network.{Asio}
use network_application.Session.{Session}
use network_application.Session.Calls.{disconnect}
use network_application.SessionManager.{SessionManager, get_session_count, get_session}
use network_application.SegmentServer.Laws.{forget-other}
use network_application.SegmentServer.Members.{SegmentServer, sessions_of, testing, null_pointer}
use network_application.SegmentServer.Loop.{
  session_worker, after_add, admit, refuse, disconnect_found, disconnect_session,
}
use network_application.SegmentServer.Stop.{disconnect_session-closed}

pub room-count :
    (multi : Bool) (c k : ℕ) → c ≡ suc k → multi ≡ true ⊎ (k ≡ 0) → (not multi && ltb 1 c) ≡ false
room-count multi c k e room = ground arith

pub full-count :
    (multi : Bool) (c k : ℕ) → multi ≡ false → c ≡ k → 1 < k → (not multi && ltb 1 c) ≡ true
full-count multi c k alone e many = ground arith

module _ (platform : Platform) (asio : Asio) where
  disconnect_session-other :
      (m : SessionManager asio.Socket) (id j : ℕ) (x : Session asio.Socket)
      → id ≢ j
      → lookup j (disconnect_session platform asio m id x).sessions ≡ lookup j m.sessions
  unfolding disconnect_session
  disconnect_session-other m id j x d =
      let a = disconnect asio x in
      forget-other platform asio (record m { sessions = insert id a.session m.sessions }) id j
        a.events (beq_ne id j d)
      ∙ lookup-insert id j a.session m.sessions
      ∙ if_false (id == j) _ _ (beq_ne id j d)

  -- A client that is taken: its session is in the map and has a worker.
  pub record Taken (s t : SegmentServer asio.Socket) (m : SessionManager asio.Socket) (id : ℕ)
      (new : Session asio.Socket) : Type 0 where
    pub back : t.place ≡ testing
    pub served : t.session_workers ≡ s.session_workers ++ (id, session_worker id) ∷ []
    pub sessions :
        (j : ℕ)
        → lookup j (sessions_of t.session_manager)
          ≡ (if id == j then some new else lookup j m.sessions)

  -- A client that is refused: it has no worker, and its session is closed where the map still has it.
  pub record Refused (s t : SegmentServer asio.Socket) (m : SessionManager asio.Socket) (id : ℕ)
      : Type 0 where
    pub back : t.place ≡ testing
    pub served : t.session_workers ≡ s.session_workers
    pub closed :
        (y : Session asio.Socket)
        → lookup id (sessions_of t.session_manager) ≡ some y
        → asio.is_open y.socket ≡ false
    pub others : (j : ℕ) → id ≢ j → lookup j (sessions_of t.session_manager) ≡ lookup j m.sessions

  pub admit-eq :
      (s : SegmentServer asio.Socket) (id : ℕ) (n : SessionManager asio.Socket)
      → (not s.multi_connect && ltb 1 (get_session_count n)) ≡ false
      → s.is_work ≡ true
      → after_add platform asio s id n ≡ record s {
        session_manager = some n;
        session_workers = s.session_workers ++ (id, session_worker id) ∷ [];
        place = testing;
      }
  unfolding after_add admit
  admit-eq s id n few works = if_false _ _ _ few ∙ if_true _ _ _ works

  pub refuse-eq :
      (s : SegmentServer asio.Socket) (id : ℕ) (n : SessionManager asio.Socket)
      (o : Option (Session asio.Socket))
      → (not s.multi_connect && ltb 1 (get_session_count n)) ≡ true
      → lookup id n.sessions ≡ o
      → after_add platform asio s id n ≡ refuse s n (disconnect_found platform asio n id o)
  unfolding after_add get_session
  refuse-eq s id n o many found =
      if_true _ _ _ many ∙ ap (λ o. refuse s n (disconnect_found platform asio n id o)) found

  pub refuse-Refused :
      (s t : SegmentServer asio.Socket) (id : ℕ) (m n : SessionManager asio.Socket)
      (x : Session asio.Socket)
      → t ≡ refuse s n (disconnect_found platform asio n id (some x))
      → ((j : ℕ) → id ≢ j → lookup j n.sessions ≡ lookup j m.sessions)
      → Refused s t m id
  unfolding refuse disconnect_found
  refuse-Refused s t id m n x e same = rw e (record {
    back = refl;
    served = refl;
    closed = λ y h. elim (disconnect_session-closed platform asio n id id x y h) [
      | inl shut ↦ shut
      | inr other ↦ absurd (other.0 refl)
    ];
    others = λ j d. disconnect_session-other n id j x d ∙ same j d;
  })

  pub admit-Taken :
      (s t : SegmentServer asio.Socket) (id : ℕ) (m n : SessionManager asio.Socket)
      (new : Session asio.Socket)
      → t ≡ record s {
        session_manager = some n;
        session_workers = s.session_workers ++ (id, session_worker id) ∷ [];
        place = testing;
      }
      → ((j : ℕ) → lookup j n.sessions ≡ (if id == j then some new else lookup j m.sessions))
      → Taken s t m id new
  admit-Taken s t id m n new e found =
      rw e (record { back = refl; served = refl; sessions = found })

  if-place :
      (multi b : Bool) (x y : SegmentServer asio.Socket)
      → multi ≡ false
      → x.place ≡ null_pointer
      → y.place ≡ testing
      → (if not multi && b then x else y).place ≡ (if b then null_pointer else testing)
  if-place true b x y alone e f = ground arith
  if-place false true x y alone e f = e
  if-place false false x y alone e f = f

  admit-place :
      (b : Bool) (x y : SegmentServer asio.Socket)
      → x.place ≡ testing
      → y.place ≡ testing
      → (if b then x else y).place ≡ testing
  admit-place true x y e f = e
  admit-place false x y e f = f

  pub after_add-place :
      (s : SegmentServer asio.Socket) (id : ℕ) (n : SessionManager asio.Socket)
      → lookup id n.sessions ≡ none
      → s.multi_connect ≡ false
      → (after_add platform asio s id n).place
        ≡ (if ltb 1 (get_session_count n) then null_pointer else testing)
  unfolding after_add refuse disconnect_found admit get_session
  after_add-place s id n gone alone =
      if-place s.multi_connect (ltb 1 (get_session_count n)) _ _ alone
        (ap (λ o. (refuse s n (disconnect_found platform asio n id o)).place) gone)
        (admit-place s.is_work _ _ refl refl)
