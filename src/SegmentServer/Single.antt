-- ===== src/SegmentServer/Single.antt =====
-- The accept loop of a server with multiConnect = false, interleaved with the calls of other threads.
pub mod Maps
mod Invariant
mod Adding
use network_application.Base.{
  Distinct, ℕ, ℤ, ◌<◌, ◌≤◌, ◌==◌, ==_iff, ◌≡◌, ◌≢◌, refl, sym, ap, ◌∙◌, Bytes, Bool, true, false,
  not, ◌&&◌, List, [], ◌∷◌, ◌++◌, Option, none, some, if◌then◌else◌, Bool-cases, inl, inr, ◌⊎◌, All,
  length, arith, ltb,
}
use network_application.Base.Table.{lookup, nat_eq, beq_ne}
use network_application.Errors.Codes.{Code, is_error}
use network_application.Json.{Platform}
use network_application.Message.{Transaction}
use network_application.Network.{Asio}
use network_application.Session.{Session}
use network_application.SessionManager.{
  SessionManager, get_session_count, get_session, add_session, remove_session, close_acceptor,
  make_session,
}
use network_application.SessionManager.Laws.{lookup-add_session}
use network_application.Worker.{Worker, flush_begin}
use network_application.SegmentServer.Members.{
  sessions_of, SegmentServer, segment_server, Place, outside, testing, adding, null_pointer,
  session_number,
}
use network_application.SegmentServer.Loop.{
  new_manager, start_begin, start_end, begin_loop, turn, session_worker, admit, refuse, after_add,
  accepted, disconnect_session, disconnect_found, disconnect_each, stop_manager, stop_begin,
  stop_end, flush_workers, on_manager, write, session_failed,
}
use network_application.SegmentServer.Steps.{
  Op, start_begins, start_ends, begins, turns, accepts, stop_begins, stop_ends, writes, fails,
  given, handed, step, run,
}
use network_application.SegmentServer.Shrinks.{
  Held, Shrinks, remove_session-Shrinks, disconnect_session-Shrinks, write_to-Shrinks,
  disconnect_each-Shrinks,
}
use network_application.SegmentServer.Single.Maps.{Single}
use network_application.SegmentServer.Single.Invariant.{
  Inv, Inv-with, same, Inv-if, begin_loop-Inv, turn-Inv,
}
use network_application.SegmentServer.Single.Adding.{accepted-Inv}

module _ (platform : Platform) (asio : Asio) where
  on_manager-Inv :
      (s : SegmentServer asio.Socket) (f : SessionManager asio.Socket → SessionManager asio.Socket)
      (rest : List ℕ) (o : Option (SessionManager asio.Socket))
      → s.session_manager ≡ o
      → ((m : SessionManager asio.Socket) → Shrinks m.sessions (f m).sessions)
      → Inv s rest
      → Inv (on_manager s f o) rest
  unfolding on_manager
  on_manager-Inv s f rest none has sh v = v
  on_manager-Inv s f rest (some m) has sh v =
      Inv-with s _ rest refl refl v.pending (rw has (sh m)) v

  stop_manager-Inv :
      (s : SegmentServer asio.Socket) (cancelled closed : Code) (rest : List ℕ)
      (o : Option (SessionManager asio.Socket))
      → s.session_manager ≡ o
      → Inv s rest
      → Inv (stop_manager platform asio s cancelled closed o) rest
  unfolding stop_manager close_acceptor
  stop_manager-Inv s cancelled closed rest none has v = v
  stop_manager-Inv s cancelled closed rest (some m) has v =
      Inv-with s _ rest refl refl v.pending
        (rw has (disconnect_each-Shrinks platform asio m.sessions _ m.sessions (same _) (same _))) v

-- Flushing the workers keeps their numbers.
flushed : Option Worker → Option Worker
flushed none = none
flushed (some w) = some (flush_begin w)

lookup-flush_workers :
    (k : ℕ) (ws : List (ℕ × Worker)) → lookup k (flush_workers ws) ≡ flushed (lookup k ws)
unfolding flush_workers lookup flushed
lookup-flush_workers k [] = refl
lookup-flush_workers k ((id, w) ∷ ws) = elim (Bool-cases (id == k)) [
  | inl at ↦ rw at refl
  | inr differs ↦ rw differs (lookup-flush_workers k ws)
]

no_flushed : (v : Worker) → flushed none ≢ some v
unfolding flushed
no_flushed v h = cc

flushed-some : (o : Option Worker) (v : Worker) → flushed o ≡ some v → (w : Worker) × (o ≡ some w)
flushed-some none v h = absurd (no_flushed v h)
flushed-some (some w) v h = (w, refl)

flush_workers-none :
    (ws : List (ℕ × Worker)) (ks : List ℕ)
    → All (λ k. lookup k ws ≡ none) ks
    → All (λ k. lookup k (flush_workers ws) ≡ none) ks
unfolding flushed
flush_workers-none ws [] h = tt
flush_workers-none ws (k ∷ ks) h =
    (rw (lookup-flush_workers k ws, h.0) refl, flush_workers-none ws ks h.1)

flush_workers-Held : (ws : List (ℕ × Worker)) → Shrinks ws (flush_workers ws)
flush_workers-Held ws k (v, h) = flushed-some (lookup k ws) v (sym (lookup-flush_workers k ws) ∙ h)

module _ (platform : Platform) (asio : Asio) where
  stop_end-Inv :
      (s : SegmentServer asio.Socket) (rest : List ℕ) (p : Place)
      → s.place ≡ p
      → Inv s rest
      → Inv (stop_end s p) rest
  unfolding stop_end
  stop_end-Inv s rest outside at v = record {
    multi = v.multi;
    single = λ i j vi vj hi hj.
        v.single i j (flush_workers-Held s.session_workers i vi)
          (flush_workers-Held s.session_workers j vj) hi hj;
    distinct = v.distinct;
    free = flush_workers-none s.session_workers rest v.free;
    pending = rw at tt;
  }
  stop_end-Inv s rest testing at v = v
  stop_end-Inv s rest (adding k) at v = v
  stop_end-Inv s rest null_pointer at v = v

  no_session : (j : ℕ) → ¬ Held {V = Session asio.Socket} [] j
  unfolding lookup
  no_session j (x, h) = cc

  no_workers : (ks : List ℕ) → All (λ k. lookup {V = Worker} k [] ≡ none) ks
  unfolding lookup
  no_workers [] = tt
  no_workers (k ∷ ks) = (refl, no_workers ks)

  new_manager-sessions :
      (s : SegmentServer asio.Socket) (memory : ℕ) (bound : Code)
      → (new_manager s memory bound).sessions ≡ []
  unfolding new_manager
  new_manager-sessions s memory bound = ground arith

  step-Inv :
      (s : SegmentServer asio.Socket) (o : Op asio.Socket) (rest : List ℕ)
      → Inv s (given o ++ rest)
      → Inv (step platform asio s o) rest
  unfolding step given start_begin start_end stop_begin write session_failed
  step-Inv s (start_begins memory bound) rest v =
      Inv-with s _ rest refl refl v.pending
        (rw (new_manager-sessions s memory bound) (λ j h. absurd (no_session j h))) v
  step-Inv s start_ends rest v = Inv-with s _ rest refl refl v.pending (same _) v
  step-Inv s begins rest v = begin_loop-Inv s rest s.place v
  step-Inv s (turns id) rest v = turn-Inv s id rest s.place v
  step-Inv s (accepts narrow storage memory ec socket) rest v =
      accepted-Inv platform asio s narrow storage memory ec socket rest s.place s.session_manager
        refl refl v
  step-Inv s (stop_begins cancelled closed) rest v =
      Inv-if s.is_work _ s rest
        (stop_manager-Inv platform asio s cancelled closed rest s.session_manager refl v) v
  step-Inv s stop_ends rest v = stop_end-Inv s rest s.place refl v
  step-Inv s (writes id content spare late) rest v =
      on_manager-Inv platform asio s _ rest s.session_manager refl
        (λ m. write_to-Shrinks platform asio m (session_number id) content spare late) v
  step-Inv s (fails id) rest v =
      on_manager-Inv platform asio s _ rest s.session_manager refl
        (λ m. remove_session-Shrinks platform asio m id) v

  run-Inv :
      (s : SegmentServer asio.Socket) (os : List (Op asio.Socket))
      → Inv s (handed os)
      → Inv (run platform asio s os) []
  unfolding run handed
  run-Inv s [] v = v
  run-Inv s (o ∷ os) v = run-Inv (step platform asio s o) os (step-Inv s o (handed os) v)

  -- After any history of a new server with multiConnect = false, whose handler of the IDs gives distinct
  -- numbers, at most one number has both a session in the map and a session worker, whatever start,
  -- stop, the accepts, the writes and the errors of sessions interleave.
  pub run-Single :
      (address : Bytes) (port : ℤ) (memory : ℕ) (os : List (Op asio.Socket))
      → Distinct (handed os)
      → Single (run platform asio (segment_server address port false memory) os).session_workers (
          sessions_of
            (run platform asio (segment_server address port false memory) os).session_manager)
  run-Single address port memory os d =
      (run-Inv (segment_server address port false memory) os (record {
        multi = unfold segment_server in refl;
        single = unfold segment_server in λ i j vi vj hi hj. absurd (no_session i hi);
        distinct = d;
        free = unfold segment_server in no_workers (handed os);
        pending = unfold segment_server in tt;
      })).single
