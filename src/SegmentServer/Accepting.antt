-- ===== src/SegmentServer/Accepting.antt =====
-- The end of an addSession of the accept loop: the client is taken, refused, or was not accepted.
use network_application.Base.{
  if_true, ℕ, ℤ, suc, ◌<◌, ◌==◌, ◌≡◌, refl, ap, ◌∙◌, true, false, ◌⊎◌, none, some, if◌then◌else◌,
  arith, ltb,
}
use network_application.Base.Table.{lookup, nat_eq, beq_ne, beq_refl, Unique}
use network_application.Errors.Codes.{Code, is_error}
use network_application.Json.{Platform}
use network_application.Network.{Asio, sync}
use network_application.SessionManager.{
  SessionManager, get_session_count, add_session, make_session,
}
use network_application.SessionManager.Laws.{lookup-add_session}
use network_application.SessionManager.Numbers.{add_session-count_sync}
use network_application.SegmentServer.Members.{SegmentServer, testing, adding, null_pointer}
use network_application.SegmentServer.Loop.{accepted, after_add}
use network_application.SegmentServer.Admission.{
  room-count, full-count, Taken, Refused, admit-eq, refuse-eq, refuse-Refused, admit-Taken,
  after_add-place,
}

module _ (platform : Platform) (asio : Asio) where
  module _ (s : SegmentServer asio.Socket) (m : SessionManager asio.Socket) (narrow : ℕ → ℕ)
      (storage : ℤ) (memory id : ℕ) (ec : Code) (socket : asio.Socket) (at : s.place ≡ adding id)
      (has : s.session_manager ≡ some m) (free : lookup id m.sessions ≡ none)
      (u : Unique m.sessions) (waits : m.mode ≡ sync) where
    accepted_run :
        accepted platform asio s narrow storage memory ec socket s.place s.session_manager
        ≡ after_add platform asio s id (add_session m narrow storage memory id ec socket).manager
    unfolding accepted
    accepted_run =
        ap (λ p. accepted platform asio s narrow storage memory ec socket p s.session_manager) at
        ∙ ap (accepted platform asio s narrow storage memory ec socket (adding id)) has

    accepted-Taken :
        is_error ec ≡ false
        → s.is_work ≡ true
        → s.multi_connect ≡ true ⊎ (get_session_count m ≡ 0)
        → Taken platform asio s
            (accepted platform asio s narrow storage memory ec socket s.place s.session_manager)
            m
            id
            (make_session m narrow storage memory socket)
    accepted-Taken ok works room =
        let n = (add_session m narrow storage memory id ec socket).manager in
        let count = add_session-count_sync m narrow storage memory id ec socket u waits in
        admit-Taken platform asio s _ id m n (make_session m narrow storage memory socket)
          (accepted_run
            ∙ admit-eq platform asio s id n
                (room-count s.multi_connect (get_session_count n) (get_session_count m)
                  (count ∙ (rw (free, ok) refl)) room)
                works)
          (λ j.
            lookup-add_session m narrow storage memory id ec socket j waits ∙ (rw (free, ok) refl))

    accepted-Refused :
        is_error ec ≡ false
        → s.multi_connect ≡ false
        → 0 < get_session_count m
        → Refused platform asio s
            (accepted platform asio s narrow storage memory ec socket s.place s.session_manager)
            m
            id
    accepted-Refused ok alone some' =
        let n = (add_session m narrow storage memory id ec socket).manager in
        let found = λ (j : ℕ). lookup-add_session m narrow storage memory id ec socket j waits in
        let count = add_session-count_sync m narrow storage memory id ec socket u waits in
        refuse-Refused platform asio s _ id m n (make_session m narrow storage memory socket)
          (accepted_run
            ∙ refuse-eq platform asio s id n (some (make_session m narrow storage memory socket))
                (full-count s.multi_connect (get_session_count n) (suc (get_session_count m)) alone
                  (count ∙ (rw (free, ok) refl)) (omega arith))
                (found id ∙ (rw (free, ok) (if_true (id == id) _ _ (beq_refl id)))))
          (λ j d. found j ∙ (rw (free, ok, beq_ne id j d) refl))

    accepted-failed :
        is_error ec ≡ true
        → s.multi_connect ≡ false
        → (accepted platform asio s narrow storage memory ec socket s.place s.session_manager).place
          ≡ (if ltb 1 (get_session_count m) then null_pointer else testing)
    accepted-failed bad alone =
        let n = (add_session m narrow storage memory id ec socket).manager in
        let found = lookup-add_session m narrow storage memory id ec socket id waits in
        let count : get_session_count n ≡ get_session_count m =
          add_session-count_sync m narrow storage memory id ec socket u waits
          ∙ (rw (free, bad) refl) in
        let gone : lookup id n.sessions ≡ none = found ∙ (rw (free, bad) free) in
        ap (λ (t : SegmentServer asio.Socket). t.place) accepted_run
        ∙ after_add-place platform asio s id n gone alone
        ∙ ap (λ c. if ltb 1 c then null_pointer else testing) count

  -- The end of addSession in the mode Sync under a free number, in servers whose maps have one session
  -- for each number. An accepted client is taken by a server at work whose multiConnect is set or whose
  -- map was empty. A server whose multiConnect is not set and whose map was not empty refuses it; after
  -- an accept that failed, such a server goes on where its map had one session, and where it had more,
  -- disconnect follows a null pointer.
  pub accepted-cases :
      (s r : SegmentServer asio.Socket) (m n : SessionManager asio.Socket) (narrow : ℕ → ℕ)
      (storage : ℤ) (memory id k : ℕ) (ec failure : Code) (socket : asio.Socket)
      → is_error ec ≡ false
      → is_error failure ≡ true
      → s.place ≡ adding id
      → s.session_manager ≡ some m
      → lookup id m.sessions ≡ none
      → Unique m.sessions
      → m.mode ≡ sync
      → s.is_work ≡ true
      → s.multi_connect ≡ true ⊎ (get_session_count m ≡ 0)
      → r.place ≡ adding k
      → r.session_manager ≡ some n
      → lookup k n.sessions ≡ none
      → Unique n.sessions
      → n.mode ≡ sync
      → r.multi_connect ≡ false
      → 0 < get_session_count n
      → let end : SegmentServer asio.Socket → Code → SegmentServer asio.Socket = λ x c.
        accepted platform asio x narrow storage memory c socket x.place x.session_manager in
        Taken platform asio s (end s ec) m id (make_session m narrow storage memory socket)
        × Refused platform asio r (end r ec) n k
        × ((end r failure).place ≡ (if ltb 1 (get_session_count n) then null_pointer else testing))
  accepted-cases s r m n narrow storage memory id k ec failure socket ok bad a b c d at works room e
        f g h over alone full =
      (
        accepted-Taken s m narrow storage memory id ec socket a b c d at ok works room,
        accepted-Refused r n narrow storage memory k ec socket e f g h over ok alone full,
        accepted-failed r n narrow storage memory k failure socket e f g h over bad alone,
      )
