-- ===== src/Examples/Managers.antt =====
-- The theorems on the session manager at a concrete manager.
use network_application.Base.{
  some, List, refl, ℕ, ◌≡◌, [], ◌∷◌, none, pos, true, false, All, length,
}
use network_application.Base.Table.{lookup, nat_eq, Unique}
use network_application.Errors.Codes.{success, is_error}
use network_application.Network.{sync, async}
use network_application.Session.{Session, session, set_on_accept}
use network_application.SessionManager.{
  SessionManager, get_session_count, make_session, settled, get_session, destroy,
}
use network_application.SessionManager.Refinement.{
  Op, adds, completes, removes, run, replay, run-replay,
}
use network_application.SessionManager.Numbers.{add_session-count}
use network_application.SessionManager.Destroy.{destroy-closed}
use network_application.Examples.Codec.{keep}
use network_application.Examples.Wire.{Wire, network, arriving}

-- A manager with one session, number 1.
abbrev one_session : SessionManager Wire
one_session = record {
  mode = sync;
  sessions = (1, session keep (pos 0) 0 (arriving []) sync) ∷ [];
  read_handler = true;
  magic_number = 123456;
  acceptor = record { on_accept = false; on_close = false; on_error = false; is_open = true };
  accepting = none;
}

destroy-closed_example :
    ((j : ℕ) → lookup j (destroy network one_session success success).manager.sessions ≡ none)
    × All
        (λ (s : Session Wire). s.socket.opened ≡ false)
        (destroy network one_session success success).disconnected
    × (length (destroy network one_session success success).disconnected ≡ 1)
    × ((destroy network one_session success success).manager.acceptor.is_open ≡ false)
destroy-closed_example = destroy-closed network one_session success success

add_session-count_example :
    Unique (settled one_session keep (pos 0) 0 2 success (arriving [])).manager.sessions
    × (get_session_count (settled one_session keep (pos 0) 0 2 success (arriving [])).manager ≡ 2)
unfolding lookup is_error get_session_count
add_session-count_example =
    add_session-count one_session keep (pos 0) 0 2 success (arriving []) (refl, tt)

-- A manager in the mode Async.
abbrev async_manager : SessionManager Wire
async_manager = record one_session { mode = async }

-- Two accepts overlap: the first one to end is taken for the second session; the first session leaves.
abbrev calls : List (Op Wire)
calls =
    adds (pos 0) 0 2 success (arriving [])
    ∷ adds (pos 0) 0 3 success (arriving [])
    ∷ completes success (make_session async_manager keep (pos 0) 0 (arriving []))
    ∷ removes 1
    ∷ []

run-replay_example :
    (get_session (run keep async_manager calls) 3).result
    ≡ some (make_session async_manager keep (pos 0) 0 (arriving []))
unfolding get_session lookup make_session set_on_accept is_error replay
run-replay_example = run-replay keep async_manager calls 3 (tt, (tt, (refl, (tt, tt))))
