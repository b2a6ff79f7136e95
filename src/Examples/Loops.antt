-- ===== src/Examples/Loops.antt =====
-- The theorems on the accept loop at concrete servers.
use network_application.Base.{
  none, inl, ◌≡◌, refl, false, true, List, [], ◌∷◌, some, pos, Distinct, arith,
}
use network_application.Base.Table.{lookup, nat_eq}
use network_application.Errors.Codes.{success, is_error}
use network_application.Network.{sync}
use network_application.SessionManager.{SessionManager, get_session_count, make_session}
use network_application.SegmentServer.Members.{
  SegmentServer, segment_server, sessions_of, testing, adding, outside, get_is_work,
}
use network_application.SegmentServer.Loop.{
  start_begin, start_end, stop_begin, stop_end, turn, accepted,
}
use network_application.SegmentServer.Steps.{
  Op, start_begins, start_ends, begins, turns, accepts, stop_begins, fails, given, handed, run,
}
use network_application.SegmentServer.Single.{run-Single}
use network_application.SegmentServer.Single.Maps.{Single}
use network_application.SegmentServer.Stop.{Stopped, Flushed, stop-Stopped}
use network_application.SegmentServer.Restart.{Idle, restart-Idle}
use network_application.SegmentServer.Admission.{Taken, Refused}
use network_application.SegmentServer.Accepting.{accepted-cases}
use network_application.Errors.Codes.{Code, other}
use network_application.SegmentServer.Ids.{numbers, numbers-Distinct}
use network_application.Examples.Codec.{codec}
use network_application.Examples.Sessions.{ready}
use network_application.Examples.Wire.{Wire, network, arriving}

-- Two clients come, the first one fails, a third one comes and the server stops.
abbrev clients : List (Op Wire)
clients =
    start_begins 0 success
    ∷ start_ends
    ∷ begins
    ∷ turns 1
    ∷ accepts (λ n. n) (pos 0) 0 success (arriving [])
    ∷ turns 2
    ∷ accepts (λ n. n) (pos 0) 0 success (arriving [])
    ∷ fails 1
    ∷ turns 3
    ∷ accepts (λ n. n) (pos 0) 0 success (arriving [])
    ∷ stop_begins success success
    ∷ []

clients-Distinct : Distinct (handed clients)
unfolding handed given
clients-Distinct =
    (((λ q. omega arith), ((λ q. omega arith), tt)), (((λ q. omega arith), tt), (tt, tt)))

run-Single_example :
    Single (run codec network (segment_server [] (pos 10000) false 0) clients).session_workers (
      sessions_of
        (run codec network (segment_server [] (pos 10000) false 0) clients).session_manager)
run-Single_example = run-Single codec network [] (pos 10000) 0 clients clients-Distinct

-- A manager with the session 1, and one with the sessions 1 and 2.
abbrev one_session : SessionManager Wire
one_session = record {
  mode = sync;
  sessions = (1, ready sync (arriving [])) ∷ [];
  read_handler = false;
  magic_number = 123456;
  acceptor = record { on_accept = true; on_close = false; on_error = false; is_open = true };
  accepting = none;
}

-- A server at work with multiConnect = false that adds the number 2.
abbrev busy : SegmentServer Wire
busy = record (segment_server [] (pos 10000) false 0) {
  is_work = true;
  session_manager = some one_session;
  place = adding 2;
}

stop-Stopped_example :
    let s = record busy { place = testing } in
    let t = stop_begin codec network s success success in
    let u = turn t 3 t.place in
    Stopped codec network t
    × (u.place ≡ outside)
    × Stopped codec network u
    × Flushed (stop_end u u.place)
    × (stop_begin codec network (record busy { is_work = false }) success success
        ≡ record busy { is_work = false })
stop-Stopped_example =
    stop-Stopped codec network (record busy { place = testing }) (record busy { is_work = false })
      one_session success success 3 refl refl refl refl

restart-Idle_example :
    let s = record busy { is_work = false; place = outside } in
    let t = start_end (start_begin (stop_end s s.place) 0 success) in
    (get_is_work t ≡ true) × Idle (run codec network t clients)
unfolding segment_server
restart-Idle_example =
    restart-Idle codec network (record busy { is_work = false; place = outside }) 0 success clients
      refl refl

-- One with multiConnect = true.
abbrev open_server : SegmentServer Wire
open_server = record (segment_server [] (pos 10000) true 0) {
  is_work = true;
  session_manager = some one_session;
  place = adding 2;
}

accepted-cases_example :
    let end : SegmentServer Wire → Code → SegmentServer Wire = λ x c.
      accepted codec network x (λ n. n) (pos 0) 0 c (arriving []) x.place x.session_manager in
    Taken codec network open_server
      (end open_server success)
      one_session
      2
      (make_session one_session (λ n. n) (pos 0) 0 (arriving []))
    × Refused codec network busy (end busy success) one_session 2
    × ((end busy (other 110)).place ≡ testing)
unfolding segment_server lookup get_session_count is_error
accepted-cases_example =
    accepted-cases codec network open_server busy one_session one_session (λ n. n) (pos 0) 0 2 2
      success (other 110) (arriving []) refl refl refl refl refl (refl, tt) refl refl (inl refl)
      refl refl refl (refl, tt) refl refl (omega arith)

numbers-Distinct_example : Distinct (numbers 4294967294 3)
numbers-Distinct_example = numbers-Distinct 4294967294 3 (omega arith)
