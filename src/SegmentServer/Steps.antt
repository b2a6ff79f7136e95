-- ===== src/SegmentServer/Steps.antt =====
-- Interleavings of the threads of a server in the mode Sync, which its constructor sets and the program
-- keeps: no accept is left to complete when addSession has returned.
use network_application.Base.{ℕ, ℤ, Bytes, List, [], ◌∷◌, ◌++◌}
use network_application.Errors.Codes.{Code}
use network_application.Json.{Platform}
use network_application.Message.{Transaction}
use network_application.Network.{Asio}
use network_application.SegmentServer.Members.{SegmentServer, session_number}
use network_application.SegmentServer.Loop.{
  start_begin, start_end, begin_loop, turn, accepted, stop_begin, stop_end, write, session_failed,
}

-- What happens next on a server: a part of start or stop, a step of the main thread, a write from the
-- console, or the error of a session in its own thread.
pub data Op (Socket : Type 0) : Type 0 where
  start_begins : ℕ → Code → Op Socket
  start_ends : Op Socket
  begins : Op Socket
  turns : ℕ → Op Socket
  accepts : (ℕ → ℕ) → ℤ → ℕ → Code → Socket → Op Socket
  stop_begins : Code → Code → Op Socket
  stop_ends : Op Socket
  writes : ℕ → Bytes → Transaction → ℕ → Op Socket
  fails : ℕ → Op Socket

-- The session number that the handler of the IDs gives in a step.
unfoldable pub given : {Socket : Type 0} → Op Socket → List ℕ
unfolding session_number
given (turns id) = session_number id ∷ []
given _ = []

-- Those of a history.
unfoldable pub handed : {Socket : Type 0} → List (Op Socket) → List ℕ
unfolding given
handed [] = []
handed (o ∷ os) = given o ++ handed os

module _ (platform : Platform) (asio : Asio) where
  abbrev Server : Type 0
  Server = SegmentServer asio.Socket

  unfoldable pub step : Server → Op asio.Socket → Server
  unfolding start_begin start_end begin_loop turn accepted stop_begin stop_end write session_failed
  step s (start_begins memory bound) = start_begin s memory bound
  step s start_ends = start_end s
  step s begins = begin_loop s s.place
  step s (turns id) = turn s id s.place
  step s (accepts narrow storage memory ec socket) =
      accepted platform asio s narrow storage memory ec socket s.place s.session_manager
  step s (stop_begins cancelled closed) = stop_begin platform asio s cancelled closed
  step s stop_ends = stop_end s s.place
  step s (writes id content spare late) = write platform asio s id content spare late
  step s (fails id) = session_failed s id

  unfoldable pub run : Server → List (Op asio.Socket) → Server
  unfolding step
  run s [] = s
  run s (o ∷ os) = run (step s o) os
