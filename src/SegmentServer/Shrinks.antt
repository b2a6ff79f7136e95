-- ===== src/SegmentServer/Shrinks.antt =====
-- What the calls on a session manager other than addSession leave of its map: no new numbers.
use network_application.Base.{
  ℕ, ◌==◌, ==_iff, ◌≡◌, refl, sym, ◌∙◌, Bytes, List, [], ◌∷◌, Option, none, some, Bool-cases, inl,
  inr,
}
use network_application.Base.Table.{lookup, insert, lookup-insert, nat_eq}
use network_application.Json.{Platform}
use network_application.Message.{Transaction}
use network_application.Network.{Asio}
use network_application.Session
use network_application.Session.{Session}
use network_application.Session.Calls
use network_application.Session.Calls.{disconnect}
use network_application.SessionManager.{SessionManager, get_session, remove_session}
use network_application.SessionManager.Laws.{lookup-remove_session}
use network_application.SegmentServer.{message_of, forget, write_to, write_found}
use network_application.SegmentServer.Loop.{disconnect_session, disconnect_each}

-- A number has an entry.
abbrev pub Held : {V : Type 0} → List (ℕ × V) → ℕ → Type 0
Held {V = V} m i = (v : V) × (lookup i m ≡ some v)

-- Each number of the second map has an entry in the first.
abbrev pub Shrinks : {V : Type 0} → List (ℕ × V) → List (ℕ × V) → Type 0
Shrinks m n = (j : ℕ) → Held n j → Held m j

module _ (platform : Platform) (asio : Asio) where
  abbrev Sessions : Type 0
  Sessions = SessionManager asio.Socket

  remove_session-same :
      (m : Sessions) (id j : ℕ) (x : Session asio.Socket)
      → lookup j (remove_session m id).manager.sessions ≡ some x
      → lookup j m.sessions ≡ some x
  remove_session-same m id j x h =
      let e = sym (lookup-remove_session m id j) ∙ h in
      elim (Bool-cases (id == j)) [
        | inl same ↦ absurd (let f = rw same at e in cc)
        | inr differs ↦ rw differs at e
      ]

  pub remove_session-Shrinks :
      (m : Sessions) (id : ℕ) → Shrinks m.sessions (remove_session m id).manager.sessions
  remove_session-Shrinks m id j (x, h) = (x, remove_session-same m id j x h)

  -- The errors of a session leave the sessions that are still there as they were.
  pub forget-same :
      (m : Sessions) (id j : ℕ) (es : List Session.Event) (x : Session asio.Socket)
      → lookup j (forget platform asio m id es).sessions ≡ some x
      → lookup j m.sessions ≡ some x
  unfolding forget
  forget-same m id j [] x h = h
  forget-same m id j (Session.errors c ∷ es) x h =
      remove_session-same m id j x (forget-same (remove_session m id).manager id j es x h)
  forget-same m id j (_ ∷ es) x h = forget-same m id j es x h

  forget-Shrinks :
      (m : Sessions) (id : ℕ) (es : List Session.Event)
      → Shrinks m.sessions (forget platform asio m id es).sessions
  forget-Shrinks m id es j (x, h) = (x, forget-same m id j es x h)

  insert-into :
      {V : Type 0} (base m : List (ℕ × V)) (id j : ℕ) (v : V)
      → Shrinks base m
      → Held base id
      → Held (insert id v m) j
      → Held base j
  insert-into base m id j v b held (w, h) = elim (Bool-cases (id == j)) [
    | inl same ↦ rw (← ((==_iff id j).0 same)) held
    | inr differs ↦ b j (w, rw differs at (sym (lookup-insert id j v m) ∙ h))
  ]

  pub disconnect_session-Shrinks :
      (m : Sessions) (id : ℕ) (x : Session asio.Socket)
      → Held m.sessions id
      → Shrinks m.sessions (disconnect_session platform asio m id x).sessions
  unfolding disconnect_session
  disconnect_session-Shrinks m id x held j h =
      let a = disconnect asio x in
      insert-into m.sessions m.sessions id j a.session (λ k g. g) held
        (forget-Shrinks (record m { sessions = insert id a.session m.sessions }) id a.events j h)

  write_found-Shrinks :
      (m : Sessions) (id : ℕ) (content : Bytes) (spare : Transaction) (late : ℕ)
      (o : Option (Session asio.Socket))
      → lookup id m.sessions ≡ o
      → Shrinks m.sessions (write_found platform asio m id content spare late o).sessions
  unfolding write_found
  write_found-Shrinks m id content spare late none e j h = h
  write_found-Shrinks m id content spare late (some x) e j h =
      let a = Calls.write asio platform x spare (some (message_of content)) late in
      insert-into m.sessions m.sessions id j a.session (λ k g. g) (x, e)
        (forget-Shrinks (record m { sessions = insert id a.session m.sessions }) id a.events j h)

  pub write_to-Shrinks :
      (m : Sessions) (id : ℕ) (content : Bytes) (spare : Transaction) (late : ℕ)
      → Shrinks m.sessions (write_to platform asio m id content spare late).sessions
  unfolding write_to get_session
  write_to-Shrinks m id content spare late =
      write_found-Shrinks m id content spare late (lookup id m.sessions) refl

  Held-cons : {V : Type 0} (k j : ℕ) (v : V) (m : List (ℕ × V)) → Held m j → Held ((k, v) ∷ m) j
  unfolding lookup
  Held-cons k j v m (w, h) = elim (Bool-cases (k == j)) [
    | inl same ↦ (v, rw same refl)
    | inr differs ↦ (w, rw differs h)
  ]

  Held-head : {V : Type 0} (k : ℕ) (v : V) (m : List (ℕ × V)) → Held ((k, v) ∷ m) k
  unfolding lookup
  Held-head k v m = (v, rw ((==_iff k k).1 refl) refl)

  pub disconnect_each-Shrinks :
      (base : List (ℕ × Session asio.Socket)) (m : Sessions) (copy : List (ℕ × Session asio.Socket))
      → Shrinks base m.sessions
      → Shrinks base copy
      → Shrinks base (disconnect_each platform asio m copy).sessions
  unfolding disconnect_each disconnect_session
  disconnect_each-Shrinks base m [] b c j h = b j h
  disconnect_each-Shrinks base m ((id, x) ∷ rest) b c j h =
      disconnect_each-Shrinks base (disconnect_session platform asio m id x) rest
        (λ k g.
          insert-into base m.sessions id k (disconnect asio x).session b
            (c id (Held-head id x rest)) (forget-Shrinks _ id (disconnect asio x).events k g))
        (λ k g. c k (Held-cons id k x rest g)) j h
