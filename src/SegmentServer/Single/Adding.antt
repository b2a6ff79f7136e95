-- ===== src/SegmentServer/Single/Adding.antt =====
-- The invariant over the end of addSession, where the loop takes or refuses a client.
use network_application.Base.{
  ℕ, ℤ, ◌<◌, ◌==◌, ==_iff, ◌≡◌, ◌≢◌, refl, sym, ap, ◌∙◌, Bool, true, false, not, ◌&&◌, List, [],
  ◌∷◌, ◌++◌, Option, none, some, if◌then◌else◌, Bool-cases, inl, inr, ◌⊎◌, All, arith, ltb,
}
use network_application.Base.Table.{lookup, nat_eq}
use network_application.Errors.Codes.{Code, is_error}
use network_application.Json.{Platform}
use network_application.Network.{Asio, IoMode, sync, async}
use network_application.Session.{Session}
use network_application.SessionManager.{
  SessionManager, get_session_count, get_session, add_session, make_session,
}
use network_application.SessionManager.Laws.{lookup-add_session, add_session-async}
use network_application.SegmentServer.Members.{
  sessions_of, SegmentServer, Place, outside, testing, adding, null_pointer,
}
use network_application.SegmentServer.Loop.{
  session_worker, admit, refuse, after_add, accepted, disconnect_session, disconnect_found,
}
use network_application.SegmentServer.Shrinks.{Held, disconnect_session-Shrinks}
use network_application.SegmentServer.Single.Maps.{Single-grows, Single-small, All-append_none}
use network_application.SegmentServer.Single.Invariant.{Inv, Inv-if, Inv-test}

mode_cases : (mode : IoMode) → (mode ≡ sync) ⊎ (mode ≡ async)
mode_cases sync = inl refl
mode_cases async = inr refl

module _ (platform : Platform) (asio : Asio) where
  picked :
      {V : Type 0} (o : Option V) (bad : Bool) (id j : ℕ) (new x : V) (m : List (ℕ × V))
      → elim o [
        | some old ↦ lookup j m
        | none ↦ if bad then lookup j m else if id == j then some new else lookup j m
      ]
        ≡ some x
      → Held m j ⊎ (id ≡ j)
  picked (some old) bad id j new x m h = inl (x, h)
  picked none true id j new x m h = inl (x, h)
  picked none false id j new x m h = elim (Bool-cases (id == j)) [
    | inl same ↦ inr ((==_iff id j).0 same)
    | inr differs ↦ inl (x, rw differs at h)
  ]

  add_session-grows :
      (m : SessionManager asio.Socket) (narrow : ℕ → ℕ) (storage : ℤ) (memory id : ℕ) (ec : Code)
      (socket : asio.Socket) (j : ℕ)
      → Held (add_session m narrow storage memory id ec socket).manager.sessions j
      → Held m.sessions j ⊎ (id ≡ j)
  add_session-grows m narrow storage memory id ec socket j (x, h) = elim (mode_cases m.mode) [
    | inl at ↦
        picked (lookup id m.sessions) (is_error ec) id j
          (make_session m narrow storage memory socket) x m.sessions
          (sym (lookup-add_session m narrow storage memory id ec socket j at) ∙ h)
    | inr at ↦
        inl (x, ap (lookup j) (sym (add_session-async m narrow storage memory id ec socket at)) ∙ h)
  ]

  admit-Inv :
      (s : SegmentServer asio.Socket) (id : ℕ) (m : SessionManager asio.Socket) (rest : List ℕ)
      → lookup id s.session_workers ≡ none
      → All (λ j. id ≢ j) rest
      → ((j : ℕ) → Held m.sessions j → Held (sessions_of s.session_manager) j ⊎ (id ≡ j))
      → get_session_count m < 2
      → Inv s rest
      → Inv (admit s id m) rest
  unfolding admit get_session_count
  admit-Inv s id m rest free others grows small v =
      Inv-if s.is_work _ _ rest
        (record {
          multi = v.multi;
          single =
              Single-small (s.session_workers ++ (id, session_worker id) ∷ []) m.sessions small;
          distinct = v.distinct;
          free = All-append_none id (session_worker id) s.session_workers rest v.free others;
          pending = tt;
        })
        (record {
          multi = v.multi;
          single = Single-grows s.session_workers _ m.sessions id free grows v.single;
          distinct = v.distinct;
          free = v.free;
          pending = tt;
        })

  refuse-Inv :
      (s : SegmentServer asio.Socket) (id : ℕ) (m : SessionManager asio.Socket) (rest : List ℕ)
      (o : Option (Session asio.Socket))
      → lookup id m.sessions ≡ o
      → lookup id s.session_workers ≡ none
      → ((j : ℕ) → Held m.sessions j → Held (sessions_of s.session_manager) j ⊎ (id ≡ j))
      → Inv s rest
      → Inv (refuse s m (disconnect_found platform asio m id o)) rest
  unfolding refuse disconnect_found
  refuse-Inv s id m rest none e free grows v = record {
    multi = v.multi;
    single = Single-grows s.session_workers _ m.sessions id free grows v.single;
    distinct = v.distinct;
    free = v.free;
    pending = tt;
  }
  refuse-Inv s id m rest (some x) e free grows v =
      let n = disconnect_session platform asio m id x in
      record {
        multi = v.multi;
        single =
            Single-grows s.session_workers _ n.sessions id free
              (λ j h. grows j (disconnect_session-Shrinks platform asio m id x (x, e) j h))
              v.single;
        distinct = v.distinct;
        free = v.free;
        pending = tt;
      }

  few_sessions :
      (s : SegmentServer asio.Socket) (m : SessionManager asio.Socket)
      → s.multi_connect ≡ false
      → (not s.multi_connect && ltb 1 (get_session_count m)) ≡ false
      → get_session_count m < 2
  few_sessions s m multi few = ground arith

  after_add-Inv :
      (s : SegmentServer asio.Socket) (id : ℕ) (m : SessionManager asio.Socket) (rest : List ℕ)
      → lookup id s.session_workers ≡ none
      → All (λ j. id ≢ j) rest
      → ((j : ℕ) → Held m.sessions j → Held (sessions_of s.session_manager) j ⊎ (id ≡ j))
      → Inv s rest
      → Inv (after_add platform asio s id m) rest
  unfolding after_add get_session
  after_add-Inv s id m rest free others grows v =
      Inv-test _ _ _ rest (λ many. refuse-Inv s id m rest (lookup id m.sessions) refl free grows v)
        (λ few. admit-Inv s id m rest free others grows (few_sessions s m v.multi few) v)

  pub accepted-Inv :
      (s : SegmentServer asio.Socket) (narrow : ℕ → ℕ) (storage : ℤ) (memory : ℕ) (ec : Code)
      (socket : asio.Socket) (rest : List ℕ) (p : Place) (o : Option (SessionManager asio.Socket))
      → s.place ≡ p
      → s.session_manager ≡ o
      → Inv s rest
      → Inv (accepted platform asio s narrow storage memory ec socket p o) rest
  unfolding accepted
  accepted-Inv s narrow storage memory ec socket rest (adding id) (some m) at has v =
      let q : (lookup id s.session_workers ≡ none) × All (λ j. id ≢ j) rest = rw at at v.pending in
      after_add-Inv s id (add_session m narrow storage memory id ec socket).manager rest q.0 q.1
        (rw has (add_session-grows m narrow storage memory id ec socket)) v
  accepted-Inv s narrow storage memory ec socket rest (adding id) none at has v = v
  accepted-Inv s narrow storage memory ec socket rest outside o at has v = v
  accepted-Inv s narrow storage memory ec socket rest testing o at has v = v
  accepted-Inv s narrow storage memory ec socket rest null_pointer o at has v = v
