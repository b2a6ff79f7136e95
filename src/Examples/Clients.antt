-- ===== src/Examples/Clients.antt =====
-- The theorems on the client at concrete endpoints.
use network_application.Base.{arith, ◌≡◌, refl, [], ◌∷◌, true, false, codes, pos}
use network_application.Errors.Codes.{is_error}
use network_application.Network.{Endpoint}
use network_application.Session.{session}
use network_application.Worker.{add_task, StatusWorker, task, worker}
use network_application.SegmentClient.{SegmentClient, segment_client, start, read_loop}
use network_application.SegmentClient.Laws.{start-either}
use network_application.Session.Calls.{disconnect}
use network_application.Message.{request}
use network_application.ClientConsole.{lines, stopping, returned, Console, run}
use network_application.ClientConsole.Laws.{lines_then_stop, rounds_of, written, run-stop}
use network_application.Examples.Codec.{codec, keep}
use network_application.Examples.Wire.{Wire, network, arriving, wire_connect}

-- A new client.
abbrev client : SegmentClient Wire
client = segment_client keep (pos 0) 0 (arriving [])

-- A client at work, in the loop of main, whose worker has the read loop to run.
abbrev at_work : Console Wire
at_work = record {
  running = true;
  client = record client { is_work = true; main_worker = add_task worker (task read_loop) };
  phase = lines;
}

run-stop_example :
    let ls = codes "hi" ∷ codes "signal" ∷ [] in
    let waits = run codec network request 0 at_work (lines_then_stop ls []) in
    let d = run codec network request 0 at_work (lines_then_stop ls (rounds_of 2)) in
    (waits.phase ≡ stopping)
    × (d.phase ≡ returned)
    × (d.client.is_work ≡ false)
    × (d.client.session
        ≡ (disconnect network (written codec network request 0 at_work.client.session ls)).session)
    × (network.is_open d.client.session.socket ≡ false)
    × (d.client.main_worker.tasks ≡ [])
unfolding add_task worker
run-stop_example =
    run-stop codec network request 0 at_work (codes "hi" ∷ codes "signal" ∷ []) refl refl refl
      ((ground arith), ((ground arith), tt))

-- Port 0 times out.
abbrev silent : Endpoint
silent = record { address = codes "127.0.0.1"; port = 0 }

abbrev listening : Endpoint
listening = record { address = codes "127.0.0.1"; port = 10000 }

start-either_example :
    ((start network client silent).is_work ≡ false)
    × (network.is_open (start network client silent).session.socket ≡ false)
    × ((start network client silent).main_worker.status ≡ StatusWorker.flush)
    × ((start network client silent).main_worker.tasks ≡ [])
    × ((start network client listening).is_work ≡ true)
    × ((start network client listening).main_worker.tasks ≡ task read_loop ∷ [])
unfolding segment_client worker session wire_connect is_error
start-either_example = start-either network client silent listening refl refl refl refl
