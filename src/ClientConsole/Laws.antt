-- ===== src/ClientConsole/Laws.antt =====
-- What the lines of the client's console do.
use network_application.Base.{
  Bool, Option, none, ◌++◌, All, length, zero, suc, ℕ, ◌≡◌, ◌≢◌, refl, ap, ◌∙◌, Bytes, codes,
  str_eq, str_eq_iff, true, false, ◌&&◌, List, [], ◌∷◌, some, if_true, if_false, arith,
}
use network_application.Base.Table.{bytes_eq, beq_ne}
use network_application.Errors.Codes.{is_error}
use network_application.Json.{Platform}
use network_application.Message.{Transaction}
use network_application.Network.{Asio}
use network_application.Session.Calls.{write, disconnect}
use network_application.Session.{Session}
use network_application.Session.Told.{session_disconnect-closed}
use network_application.Worker.Flush.{flushing, round_flushing, flush_begin-flushing}
use network_application.Worker.{
  StatusWorker, ended, Task, thread_round, flush_begin, flush_may_return,
}
use network_application.SegmentServer.{message_of}
use network_application.SegmentClient.{SegmentClient, set_client_magic, start, stop, write_text}
use network_application.SegmentClient.Laws.{start-cases}
use network_application.ClientConsole.{
  Settings, lines, stopping, returned, Input, enters, rounds, Console, worker_round, after_round,
  finish, next_round, read_line, step, run, boot, endpoint_of,
}

-- The lines, and then the line stop.
unfoldable pub lines_then_stop : List Bytes → List Input → List Input
lines_then_stop [] is = enters (codes "stop") ∷ is
lines_then_stop (line ∷ ls) is = enters line ∷ lines_then_stop ls is

-- `n` rounds of the worker.
unfoldable pub rounds_of : ℕ → List Input
rounds_of zero = []
rounds_of (suc n) = rounds ∷ rounds_of n

module _ (platform : Platform) (asio : Asio) (spare : Transaction) (late : ℕ) where
  open asio use {Socket}

  stop-closed :
      (c : SegmentClient Socket)
      → c.is_work ≡ true
      → ((stop asio c).is_work ≡ false) × (asio.is_open (stop asio c).session.socket ≡ false)
  unfolding stop
  stop-closed c works = rw works (refl, session_disconnect-closed asio c.session)

  read_line-stop :
      (c : Console Socket) (line : Bytes)
      → c.phase ≡ lines
      → line ≡ codes "stop"
      → read_line platform asio spare late c line c.phase ≡ finish platform asio spare late c
  unfolding read_line
  read_line-stop c line at same =
      ap (read_line platform asio spare late c line) at
      ∙ if_true _ _ _ ((str_eq_iff line (codes "stop")).1 same)

  read_line-text :
      (c : Console Socket) (line : Bytes)
      → c.phase ≡ lines
      → (c.running && c.client.is_work) ≡ true
      → line ≢ codes "stop"
      → read_line platform asio spare late c line c.phase
        ≡ record c { client = write_text asio platform c.client line spare late; phase = lines }
  unfolding read_line next_round write_text
  read_line-text c line at on other =
      ap (read_line platform asio spare late c line) at
      ∙ if_false (str_eq line (codes "stop")) (finish platform asio spare late c) _
          (beq_ne line (codes "stop") other)
      ∙ if_true (c.running && c.client.is_work) _ _ on

  finish-works :
      (c : Console Socket) (y : Session Socket)
      → c.client.is_work ≡ true
      → finish platform asio spare late
          (record c { client = record c.client { session = y }; phase = lines })
        ≡ record {
          running = c.running;
          client = record c.client {
            is_work = false;
            session = (disconnect asio y).session;
            main_worker = flush_begin c.client.main_worker;
          };
          phase = stopping;
        }
  unfolding finish stop
  finish-works c y works = rw works refl

  -- The session after the writes of these lines, in their order.
  unfoldable pub written : Session Socket → List Bytes → Session Socket
  written x [] = x
  written x (line ∷ ls) =
      written (write asio platform x spare (some (message_of line)) late).session ls

  run-lines :
      (c : Console Socket) (ls : List Bytes) (is : List Input)
      → c.phase ≡ lines
      → (c.running && c.client.is_work) ≡ true
      → All (λ line. line ≢ codes "stop") ls
      → run platform asio spare late c (lines_then_stop ls is)
        ≡ run platform asio spare late
            (finish platform asio spare late (record c {
              client = record c.client { session = written c.client.session ls };
              phase = lines;
            }))
            is
  unfolding run step written lines_then_stop write_text
  run-lines c [] is at on h =
      ap (λ d. run platform asio spare late d is)
        (read_line-stop c (codes "stop") at refl
          ∙ ap (λ p. finish platform asio spare late (record c { phase = p })) at)
  run-lines c (line ∷ ls) is at on h =
      let d = record c {
        client = write_text asio platform c.client line spare late;
        phase = lines;
      } in
      ap (λ d. run platform asio spare late d (lines_then_stop ls is))
        (read_line-text c line at on h.0)
      ∙ run-lines d ls is refl on h.1

  -- main in the flush of this worker.
  abbrev in_flush :
      Bool → SegmentClient Socket → List Task → Option Task → List Task → Console Socket
  in_flush b x ts t f = record {
    running = b;
    client = record x { main_worker = flushing ts t f };
    phase = stopping;
  }

  worker_round-task :
      (b : Bool) (x : SegmentClient Socket) (t : Task) (ts : List Task) (u : Option Task)
      (f : List Task)
      → worker_round platform asio spare late (in_flush b x (t ∷ ts) u f)
        ≡ in_flush b x ts none (f ++ ended (λ _. false) t ∷ [])
  unfolding worker_round after_round flush_may_return
  worker_round-task b x t [] u f = rw (round_flushing (λ _. false) t [] u f) refl
  worker_round-task b x t (v ∷ ts) u f = rw (round_flushing (λ _. false) t (v ∷ ts) u f) refl

  -- After a round for each task of the queue and one more main returns.
  run-rounds :
      (b : Bool) (x : SegmentClient Socket) (ts : List Task) (u : Option Task) (f : List Task)
      → let d = run platform asio spare late (in_flush b x ts u f) (rounds_of (suc (length ts))) in
        (d.phase ≡ returned)
        × (d.client.is_work ≡ x.is_work)
        × (d.client.session ≡ x.session)
        × (d.client.main_worker.tasks ≡ [])
  unfolding run step rounds_of
  run-rounds b x [] u f =
      unfold worker_round after_round thread_round flush_may_return in (refl, refl, refl, refl)
  run-rounds b x (t ∷ ts) u f =
      rw (run, worker_round-task b x t ts u f)
        (run-rounds b x ts none (f ++ ended (λ _. false) t ∷ []))

  -- main at work in its loop, on a client whose worker's thread runs: it writes the lines that are
  -- entered, none of which is the line stop, to the session, each once and in their order. At the line stop
  -- it closes the session's socket and waits, and when the worker has then made a round for each of its
  -- tasks and one more, it has returned, with the client not at work and no task left.
  pub run-stop :
      (c : Console Socket) (ls : List Bytes)
      → c.phase ≡ lines
      → (c.running && c.client.is_work) ≡ true
      → c.client.main_worker.running ≡ true
      → All (λ line. line ≢ codes "stop") ls
      → let waits = run platform asio spare late c (lines_then_stop ls []) in
        let d =
          run platform asio spare late c
            (lines_then_stop ls (rounds_of (suc (length c.client.main_worker.tasks)))) in
        (waits.phase ≡ stopping)
        × (d.phase ≡ returned)
        × (d.client.is_work ≡ false)
        × (d.client.session ≡ (disconnect asio (written c.client.session ls)).session)
        × (asio.is_open d.client.session.socket ≡ false)
        × (d.client.main_worker.tasks ≡ [])
  unfolding run
  run-stop c ls at on runs others =
      let x = record c.client {
        is_work = false;
        session = (disconnect asio (written c.client.session ls)).session;
      } in
      let w = c.client.main_worker in
      let works : c.client.is_work ≡ true = ground arith in
      let stops : finish platform asio spare late (record c {
        client = record c.client { session = written c.client.session ls };
        phase = lines;
      })
          ≡ in_flush c.running x w.tasks w.current_task w.finished =
        finish-works c (written c.client.session ls) works
        ∙ ap
            (λ v. record {
              running = c.running;
              client = record x { main_worker = v };
              phase = stopping;
            })
            (flush_begin-flushing w runs) in
      let r = run-rounds c.running x w.tasks w.current_task w.finished in
      let e =
        run-lines c ls (rounds_of (suc (length w.tasks))) at on others
        ∙ ap (λ d. run platform asio spare late d (rounds_of (suc (length w.tasks)))) stops in
      let e0 : run platform asio spare late c (lines_then_stop ls [])
          ≡ in_flush c.running x w.tasks w.current_task w.finished =
        run-lines c ls [] at on others ∙ stops in
      rw e (
        ap (λ (d : Console Socket). d.phase) e0,
        r.0,
        r.1,
        r.2,
        ap (λ (y : Session Socket). asio.is_open y.socket) r.2
            ∙ session_disconnect-closed asio (written c.client.session ls),
        r.3,
      )

  finish-idle :
      (c : Console Socket)
      → c.client.is_work ≡ false
      → finish platform asio spare late c ≡ record c { phase = returned }
  unfolding finish stop
  finish-idle c idle = rw idle refl

  next_round-idle :
      (c d : Console Socket)
      → c.client.is_work ≡ false
      → asio.is_open c.client.session.socket ≡ false
      → d ≡ next_round platform asio spare late c
      → (d.phase ≡ returned)
        × (d.client.is_work ≡ false)
        × (asio.is_open d.client.session.socket ≡ false)
  unfolding next_round finish stop
  next_round-idle c d idle shut e =
      let no_work : (c.running && c.client.is_work) ≡ false = ground arith in
      let stays : d ≡ record c { phase = returned } =
        e
        ∙ if_false (c.running && c.client.is_work) _ (finish platform asio spare late c) no_work
        ∙ finish-idle c idle in
      rw stays (refl, idle, shut)

  -- main on a client whose worker waits with an empty queue, where the attempt to connect reports an
  -- error: it returns without reading a line, and the client is stopped with its socket closed.
  pub boot-error :
      (made : SegmentClient Socket) (s : Settings)
      → made.main_worker.status ≡ StatusWorker.wait
      → made.main_worker.tasks ≡ []
      → is_error (asio.connect made.session.socket (endpoint_of s)).code ≡ true
      → let c = boot platform asio spare late made s in
        (c.phase ≡ returned)
        × (c.client.is_work ≡ false)
        × (asio.is_open c.client.session.socket ≡ false)
  unfolding boot
  boot-error made s waits idle bad =
      let m = set_client_magic (record made { read_handler = true }) s.number in
      let either =
        (start-cases asio m (endpoint_of s) (unfold set_client_magic in waits)
            (unfold set_client_magic in idle)).0
          (unfold set_client_magic in bad) in
      next_round-idle
        (record { running = true; client = start asio m (endpoint_of s); phase = lines })
        (boot platform asio spare late made s) either.0 either.1 refl
