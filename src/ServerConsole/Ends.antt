-- ===== src/ServerConsole/Ends.antt =====
-- The loop of the server's console at the end of its input.
use network_application.Base.{ℕ, zero, suc, ◌≡◌, refl, ◌∙◌, str_eq, true, ◌&&◌, List, [], ◌∷◌}
use network_application.Base.Table.{nat_eq, bytes_eq}
use network_application.Errors.Codes.{Code}
use network_application.Json.{Platform}
use network_application.Message.{Transaction}
use network_application.Network.{Asio}
use network_application.ServerConsole.{missing_first, parse_line, first_part, find_byte}
use network_application.ServerConsole.Loop.{
  refused, write_command, commands, Input, enters, Console, all_is_work, print, execute, step, run,
}
use network_application.ServerConsole.Laws.{next_round-on, step-enters}

-- The lines that std::getline leaves at the end of the input.
unfoldable pub empty_lines : {Socket : Type 0} → ℕ → List (Input Socket)
empty_lines zero = []
empty_lines (suc n) = enters [] ∷ empty_lines n

module _ (platform : Platform) (asio : Asio) (spare : Transaction) (late : ℕ)
    (cancelled closed : Code) where
  open asio use {Socket}

  empty_round :
      (c : Console Socket)
      → c.phase ≡ commands
      → (c.running && all_is_work c.servers) ≡ true
      → step platform asio spare late cancelled closed c (enters [])
        ≡ print write_command (record (print (refused missing_first) c) { phase = commands })
  unfolding execute print
  empty_round c at on =
      step-enters platform asio spare late cancelled closed c [] missing_first at
        (unfold parse_line str_eq first_part find_byte in refl)
      ∙ next_round-on platform asio spare late cancelled closed (print (refused missing_first) c) on

  -- At the end of the input std::getline leaves the line empty. Over any number of such rounds main, with
  -- all servers at work and no signal, changes no server and waits for a command again: the loop never
  -- ends.
  pub run-end_of_input :
      (c : Console Socket) (n : ℕ)
      → c.phase ≡ commands
      → (c.running && all_is_work c.servers) ≡ true
      → let d = run platform asio spare late cancelled closed c (empty_lines n) in
        (d.phase ≡ commands) × (d.servers ≡ c.servers)
  unfolding run empty_lines print
  run-end_of_input c zero at on = (at, refl)
  run-end_of_input c (suc n) at on =
      rw (run, empty_round c at on)
        (run-end_of_input
          (print write_command (record (print (refused missing_first) c) { phase = commands })) n
          refl on)
