-- ===== src/Examples/Consoles.antt =====
-- The theorems on the two consoles at concrete lines.
use network_application.Base.{
  ℕ, ◌≡◌, refl, false, true, List, [], ◌∷◌, some, none, pos, negsuc, codes, All, arith, str_eq,
  if◌then◌else◌, to_uint32,
}
use network_application.Base.Outcome.{returns}
use network_application.Base.Table.{lookup, nat_eq}
use network_application.Errors.Codes.{success}
use network_application.Message.{request}
use network_application.Network.{sync}
use network_application.SessionManager.{SessionManager}
use network_application.SegmentServer.Members.{
  SegmentServer, segment_server, session_number, testing,
}
use network_application.SegmentServer.Loop.{write}
use network_application.ServerConsole.{sends, disconnects, word_disconnect, parse_line}
use network_application.ServerConsole.Parse.{command_line, parse_line-command_line}
use network_application.ServerConsole.Loop
use network_application.ServerConsole.Loop.{Console, connection_of, all_is_work}
use network_application.ServerConsole.Laws.{step-session_line}
use network_application.ServerConsole.Configure.{port_key, configure, boot}
use network_application.ServerConsole.Settings.{Setting, Configured, config_of, configure-settings}
use network_application.ServerConsole.Boot.{boot-loop}
use network_application.ServerConsole.Stops.{one, at_test}
use network_application.SegmentServer.Steps.{turns}
use network_application.ServerConsole.Ends.{empty_lines}
use network_application.Examples.Codec.{codec}
use network_application.Examples.Sessions.{ready}
use network_application.Examples.Wire.{Wire, network, arriving}

parse_line-command_line_example : parse_line (command_line (pos 10000) (negsuc 1) (codes "a;b")) ≡ (
    if str_eq (codes "a;b") word_disconnect
    then disconnects (pos 10000) (negsuc 1)
    else sends (pos 10000) (negsuc 1) (codes "a;b"))
parse_line-command_line_example =
    parse_line-command_line (pos 10000) (negsuc 1) (codes "a;b") (omega arith) (omega arith)

abbrev one_session : SessionManager Wire
one_session = record {
  mode = sync;
  sessions = (1, ready sync (arriving [])) ∷ [];
  read_handler = false;
  magic_number = 123456;
  acceptor = record { on_accept = true; on_close = false; on_error = false; is_open = true };
  accepting = none;
}

-- A server at work that holds the session 1.
abbrev serving : SegmentServer Wire
serving = record (segment_server [] (pos 10000) true 0) {
  is_work = true;
  session_manager = some one_session;
  place = testing;
}

abbrev console : Console Wire
console = record {
  running = true;
  servers = (10000, serving) ∷ [];
  phase = Loop.commands;
  output = [];
}

abbrev two_settings : List Setting
two_settings =
    record { port = pos 10000; multi = false; number = 123456 }
    ∷ record { port = pos 10001; multi = true; number = 7 }
    ∷ []

configure-settings_example :
    (servers : List (ℕ × SegmentServer Wire)) × (configure Wire
        (λ d. none)
        0
        (config_of two_settings)
      ≡ returns servers)
    × All
        (λ (s : Setting).
          (x : SegmentServer Wire) × (lookup (port_key s.port) servers ≡ some x) × Configured s x)
        two_settings
unfolding port_key
configure-settings_example =
    configure-settings Wire (λ d. none) 0 two_settings (omega arith)
      (omega arith, (omega arith, tt)) (((λ q. omega arith), tt), (tt, tt))

step-session_line_example :
    let d =
      Loop.step codec network request 0 success success console
        (Loop.enters (command_line (pos 10000) (pos 1) (codes "ok"))) in
    let e =
      Loop.step codec network request 0 success success console
        (Loop.enters (command_line (pos 10000) (pos 2) word_disconnect)) in
    (d.phase ≡ Loop.commands)
    × (lookup (to_uint32 (pos 10000)) d.servers
        ≡ some (write codec network serving (connection_of (pos 1)) (codes "ok") request 0))
    × (lookup 10001 d.servers ≡ lookup 10001 console.servers)
    × (e.phase ≡ Loop.crashed)
unfolding all_is_work lookup to_uint32 connection_of session_number
step-session_line_example =
    step-session_line codec network request 0 success success console (pos 10000) (pos 1) (pos 2)
      10001 serving one_session (codes "ok") (omega arith) refl refl (omega arith) (omega arith)
      (omega arith) refl (ground arith) refl refl

boot-loop_example :
    let c = boot codec network request 0 success success 0 success ((10000, serving) ∷ []) in
    let e = Loop.run codec network request 0 success success c (empty_lines 3) in
    let w =
      Loop.run codec network request 0 success success
        (one true [] 10000 (at_test serving (1 ∷ 2 ∷ []) one_session) Loop.commands)
        (Loop.enters (codes "stop") ∷ []) in
    let d =
      Loop.run codec network request 0 success success w
        (Loop.serves 10000 (turns 3) ∷ Loop.rounds 10000 ∷ Loop.rounds 10000 ∷ []) in
    (c.phase ≡ Loop.commands)
    × ((e.phase ≡ Loop.commands) × (e.servers ≡ c.servers))
    × (w.phase ≡ Loop.stopping 10000 [])
    × (d.phase ≡ Loop.stopped)
    × All (λ (q : ℕ × SegmentServer Wire). q.1.is_work ≡ false) d.servers
boot-loop_example =
    boot-loop codec network request 0 success success 0 3 success ((10000, serving) ∷ []) true []
      10000 3 serving (1 ∷ 2 ∷ []) one_session
