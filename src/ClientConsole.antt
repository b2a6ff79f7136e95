-- ===== src/ClientConsole.antt =====
-- client/main.cpp: the client's configuration and the loop of main, as a state machine on what is entered.
pub mod Laws
use network_application.Base.{
  ℕ, ℤ, ◌^◌, ◌%◌, ◌==◌, Bytes, codes, str_eq, Bool, true, false, ◌&&◌, List, [], ◌∷◌, Option,
  if◌then◌else◌, to_int32, to_uint32,
}
use network_application.Base.Outcome.{Outcome, returns, throws, runtime_error, ◌>>=◌}
use network_application.Configuration.{address, port, magic}
use network_application.Errors.Codes.{Code}
use network_application.Json.{
  object, Fields, at_key, as_int64, as_string, to_uint32_number, Platform,
}
use network_application.Message.{Transaction}
use network_application.Network.{Asio, Endpoint}
use network_application.Worker.{thread_round, flush_may_return}
use network_application.SegmentClient.{
  SegmentClient, segment_client, set_client_magic, start, stop, write_text,
}

-- What main takes from its configuration; a port is a uint32_t by then, of which the endpoint keeps 16
-- bits.
pub record Settings : Type 0 where
  pub hostname : Bytes
  pub port' : ℕ
  pub number : ℕ

-- A std::string from c_str(): the text up to its first null byte.
unfoldable pub c_string : Bytes → Bytes
c_string [] = []
c_string (b ∷ bs) = let rest = c_string bs in if b == 0 then [] else b ∷ rest

unfoldable pub is_empty : Bytes → Bool
is_empty [] = true
is_empty (b ∷ bs) = false

-- The end of main's try.
unfoldable pub checked : Bytes → ℤ → ℕ → Outcome Settings
unfolding is_empty to_int32 to_uint32
checked host p number =
    if is_empty host
    then throws runtime_error
    else returns (record { hostname = host; port' = to_uint32 (to_int32 p); number = number })

-- The body of main's try, from the object of the configuration.
unfoldable pub configure : (ℕ → Option ℕ) → Fields → Outcome Settings
unfolding at_key as_string as_int64 to_uint32_number c_string checked
configure exact config = (at_key address (object config) >>= as_string) >>= λ host.
    (at_key port (object config) >>= as_int64) >>= λ p.
    (at_key magic (object config) >>= to_uint32_number exact) >>= λ number.
    checked (c_string host) p number

-- The endpoint that the session connects to.
unfoldable pub endpoint_of : Settings → Endpoint
endpoint_of s = record { address = s.hostname; port = s.port' % 2 ^ 16 }

-- main reads lines, waits in the flush of the client's worker, or has returned.
pub data Phase : Type 0 where
  lines stopping returned : Phase

-- What happens next: a line or SIGINT or SIGTERM comes in, or the thread of the client's worker makes a
-- round.
pub data Input : Type 0 where
  enters : Bytes → Input
  interrupts : Input
  rounds : Input

pub record Console (Socket : Type 0) : Type 0 where
  pub running : Bool
  pub client : SegmentClient Socket
  pub phase : Phase

module _ (platform : Platform) (asio : Asio) (spare : Transaction) (late : ℕ) where
  open asio use {Socket}

  -- client->stop() up to the wait of its flush; on a client that is not at work it returns, and main too.
  unfoldable pub finish : Console Socket → Console Socket
  unfolding stop
  finish c = record c {
    client = stop asio c.client;
    phase = if c.client.is_work then stopping else returned;
  }

  -- A round of the worker, after which the flush, if main waits for it, may return.
  unfoldable pub after_round : Console Socket → Phase → Console Socket
  unfolding flush_may_return
  after_round c stopping =
      if flush_may_return c.client.main_worker then record c { phase = returned } else c
  after_round c _ = c

  unfoldable pub worker_round : Console Socket → Console Socket
  unfolding after_round thread_round
  worker_round c =
      after_round
        (record c {
          client = record c.client { main_worker = thread_round (λ _. false) c.client.main_worker };
        })
        c.phase

  -- The test of the loop.
  unfoldable pub next_round : Console Socket → Console Socket
  unfolding finish
  next_round c = if c.running && c.client.is_work then record c { phase = lines } else finish c

  unfoldable pub read_line : Console Socket → Bytes → Phase → Console Socket
  unfolding str_eq finish next_round write_text
  read_line c line lines =
      if str_eq line (codes "stop")
      then finish c
      else next_round (record c { client = write_text asio platform c.client line spare late })
  read_line c line _ = c

  unfoldable pub step : Console Socket → Input → Console Socket
  unfolding read_line worker_round
  step c (enters line) = read_line c line c.phase
  step c interrupts = record c { running = false }
  step c rounds = worker_round c

  unfoldable pub run : Console Socket → List Input → Console Socket
  unfolding step
  run c [] = c
  run c (i ∷ is) = run (step c i) is

  -- main after its try: the client is made and started; `made` is SegmentClient(hostname, port), with the
  -- read handler that main sets.
  unfoldable pub boot : SegmentClient Socket → Settings → Console Socket
  unfolding set_client_magic start endpoint_of next_round
  boot made s = next_round (record {
    running = true;
    client =
        start asio (set_client_magic (record made { read_handler = true }) s.number)
          (endpoint_of s);
    phase = lines;
  })
