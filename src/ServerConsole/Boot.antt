-- ===== src/ServerConsole/Boot.antt =====
-- A run of main from its start: what it waits for, and how it ends.
use network_application.Base.{ℕ, ◌≡◌, refl, codes, Bool, true, false, List, [], ◌∷◌, All}
use network_application.Base.Table.{nat_eq}
use network_application.Errors.Codes.{Code}
use network_application.Json.{Platform}
use network_application.Message.{Transaction}
use network_application.Network.{Asio}
use network_application.SegmentServer.Members.{SegmentServer, get_is_work}
use network_application.SegmentServer.Loop.{start_begin, start_end}
use network_application.ServerConsole.Loop.{
  Console, Output, commands, stopping, stopped, enters, serves, rounds, change_all, all_is_work,
  print, run, write_command,
}
use network_application.ServerConsole.Laws.{next_round-on}
use network_application.ServerConsole.Ends.{empty_lines, run-end_of_input}
use network_application.ServerConsole.Stops.{one, at_test, run-stop_one}
use network_application.SegmentServer.Steps.{turns}
use network_application.SessionManager.{SessionManager}
use network_application.ServerConsole.Configure.{start_server, boot}

module _ {Socket : Type 0} where
  start_all_lem :
      (memory : ℕ) (bound : Code) (m : List (ℕ × SegmentServer Socket))
      → all_is_work (change_all (start_server memory bound) m) ≡ true
  unfolding change_all all_is_work start_server start_begin start_end get_is_work
  start_all_lem memory bound [] = refl
  start_all_lem memory bound ((j, x) ∷ m) = start_all_lem memory bound m

module _ (platform : Platform) (asio : Asio) (spare : Transaction) (late : ℕ)
    (cancelled closed : Code) where
  -- A run of main on any servers, from its start, waits for a command, and any number of the empty lines
  -- that std::getline leaves at the end of the input leaves it waiting for a command, with the same servers.
  -- With one server at work, whose main thread is at the test of the accept loop and whose session workers
  -- have their tasks, the line stop takes main into the stop of that server, where it waits; when the main
  -- thread has made the test again, and then every worker two rounds, main has returned, with the server
  -- not at work.
  pub boot-loop :
      (memory n : ℕ) (bound : Code) (servers : List (ℕ × SegmentServer asio.Socket)) (b : Bool)
      (o : List Output) (k id : ℕ) (x : SegmentServer asio.Socket) (is : List ℕ)
      (m : SessionManager asio.Socket)
      → let c = boot platform asio spare late cancelled closed memory bound servers in
        let e = run platform asio spare late cancelled closed c (empty_lines n) in
        let w =
          run platform asio spare late cancelled closed
            (one b o k (at_test x is m) commands)
            (enters (codes "stop") ∷ []) in
        let d =
          run platform asio spare late cancelled closed w
            (serves k (turns id) ∷ rounds k ∷ rounds k ∷ []) in
        (c.phase ≡ commands)
        × ((e.phase ≡ commands) × (e.servers ≡ c.servers))
        × (w.phase ≡ stopping k [])
        × (d.phase ≡ stopped)
        × All (λ (q : ℕ × SegmentServer asio.Socket). q.1.is_work ≡ false) d.servers
  unfolding boot print
  boot-loop memory n bound servers b o k id x is m =
      let a = start_all_lem memory bound servers in
      let c : Console asio.Socket = record {
        running = true;
        servers = change_all (start_server memory bound) servers;
        phase = commands;
        output = [];
      } in
      let r = run-stop_one platform asio spare late cancelled closed b o k x is m id in
      rw (next_round-on platform asio spare late cancelled closed c a) (
        refl,
        run-end_of_input platform asio spare late cancelled closed (print write_command c) n refl a,
        r.0,
        r.1,
        r.2,
      )
