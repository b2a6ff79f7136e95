-- ===== src/ServerConsole/Waits.antt =====
-- server/main.cpp: what allStop waits for, and the steps of the workers that it waits for.
use network_application.Base.{
  ℕ, Bool, true, false, ◌&&◌, ◌||◌, List, [], ◌∷◌, Option, none, some, if◌then◌else◌,
}
use network_application.SegmentServer.Members.{
  SegmentServer, get_is_work, Place, outside, null_pointer,
}
use network_application.Worker.{Worker, thread_round, flush_may_return}

unfoldable pub is_outside : Place → Bool
is_outside outside = true
is_outside _ = false

unfoldable pub is_null : Place → Bool
is_null null_pointer = true
is_null _ = false

-- What the flushes of a server wait for.
unfoldable pub session_workers_flushed : List (ℕ × Worker) → Bool
unfolding flush_may_return
session_workers_flushed [] = true
session_workers_flushed ((i, w) ∷ ws) = flush_may_return w && session_workers_flushed ws

unfoldable pub session_rounds : List (ℕ × Worker) → List (ℕ × Worker)
unfolding thread_round
session_rounds [] = []
session_rounds ((i, w) ∷ ws) = (i, thread_round (λ _. false) w) ∷ session_rounds ws

module _ {Socket : Type 0} where
  unfoldable pub works_at : Option (SegmentServer Socket) → Bool
  unfolding get_is_work
  works_at none = false
  works_at (some x) = get_is_work x

  unfoldable pub any_null : List (ℕ × SegmentServer Socket) → Bool
  unfolding is_null
  any_null [] = false
  any_null ((k, x) ∷ m) = is_null x.place || any_null m

  unfoldable pub all_flushed : SegmentServer Socket → Bool
  unfolding session_workers_flushed flush_may_return
  all_flushed x = flush_may_return x.main_worker && session_workers_flushed x.session_workers

  -- A round of each session worker, and of the main worker where its thread is not in the accept loop.
  unfoldable pub worker_rounds : SegmentServer Socket → SegmentServer Socket
  unfolding session_rounds thread_round is_outside
  worker_rounds x = record x {
    main_worker =
        if is_outside x.place then thread_round (λ _. false) x.main_worker else x.main_worker;
    session_workers = session_rounds x.session_workers;
  }
