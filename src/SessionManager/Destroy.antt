-- ===== src/SessionManager/Destroy.antt =====
-- What the destructor of a manager leaves.
use network_application.Base.{
  ℕ, suc, ◌==◌, ◌≡◌, refl, ◌∙◌, ap, false, List, [], ◌∷◌, Option, none, some, Bool-cases, inl, inr,
  All, length,
}
use network_application.Base.Table.{lookup, nat_eq}
use network_application.Errors.Codes.{Code}
use network_application.Network.{Asio}
use network_application.Connection.Accept
use network_application.Connection.Accept.{AcceptHandler}
use network_application.Session.{Session, set_on_error}
use network_application.Session.Told.{session_disconnect-closed}
use network_application.SessionManager.{
  SessionManager, remove_session, close_acceptor, disconnect_all, destroy,
}
use network_application.SessionManager.Laws.{lookup-remove_session}

-- What is left of an entry where the copy has this one.
abbrev without : {V : Type 0} → Option V → Option V → Option V
without (some s) o = none
without none o = o

without-none : {V : Type 0} (o : Option V) → without o none ≡ none
without-none none = refl
without-none (some s) = refl

without_self : {V : Type 0} (o : Option V) → without o o ≡ none
without_self none = refl
without_self (some s) = refl

pub close-closed :
    (h : AcceptHandler) (cancelled closed : Code)
    → (Accept.close h cancelled closed).0.is_open ≡ false
unfolding Accept.close
close-closed h cancelled closed = elim (Bool-cases h.is_open) [
  | inl open' ↦ rw open' refl
  | inr shut ↦ rw shut refl
]

module _ (asio : Asio) where
  -- The loop removes the numbers of the copy.
  lookup-disconnect_all :
      (m : SessionManager asio.Socket) (copy : List (ℕ × Session asio.Socket)) (j : ℕ)
      → lookup j (disconnect_all asio m copy).manager.sessions
        ≡ without (lookup j copy) (lookup j m.sessions)
  unfolding disconnect_all lookup
  lookup-disconnect_all m [] j = refl
  lookup-disconnect_all m ((id, s) ∷ rest) j =
      lookup-disconnect_all (remove_session m id).manager rest j ∙ (elim (Bool-cases (id == j)) [
        | inl same ↦ rw (lookup-remove_session m id j, same) (without-none (lookup j rest))
        | inr differs ↦ rw (lookup-remove_session m id j, differs) refl
      ])

  -- It disconnects each session of the copy.
  disconnect_all-closed :
      (m : SessionManager asio.Socket) (copy : List (ℕ × Session asio.Socket))
      → All
          (λ (s : Session asio.Socket). asio.is_open s.socket ≡ false)
          (disconnect_all asio m copy).disconnected
        × (length (disconnect_all asio m copy).disconnected ≡ length copy)
  unfolding disconnect_all
  disconnect_all-closed m [] = (tt, refl)
  disconnect_all-closed m ((id, s) ∷ rest) =
      let after = disconnect_all-closed (remove_session m id).manager rest in
      ((session_disconnect-closed asio (set_on_error s false), after.0), ap suc after.1)

  -- After the destructor no number has a session, every session that the map held has been disconnected
  -- and its socket is closed, and the acceptor is closed.
  pub destroy-closed :
      (m : SessionManager asio.Socket) (cancelled closed : Code)
      → let d = destroy asio m cancelled closed in
        ((j : ℕ) → lookup j d.manager.sessions ≡ none)
        × All (λ (s : Session asio.Socket). asio.is_open s.socket ≡ false) d.disconnected
        × (length d.disconnected ≡ length m.sessions)
        × (d.manager.acceptor.is_open ≡ false)
  unfolding destroy close_acceptor
  destroy-closed m cancelled closed = (
    λ j. lookup-disconnect_all m m.sessions j ∙ without_self (lookup j m.sessions),
    (disconnect_all-closed m m.sessions).0,
    (disconnect_all-closed m m.sessions).1,
    close-closed (disconnect_all asio m m.sessions).manager.acceptor cancelled closed,
  )
