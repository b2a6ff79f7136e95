-- ===== src/ServerConsole/Settings.antt =====
-- The servers that main makes from a configuration.
use network_application.Base.{
  ℕ, ℤ, suc, ◌+◌, ◌^◌, ◌<◌, ◌≤◌, ◌==◌, ==_iff, ◌≡◌, ◌≢◌, refl, ap, ◌∙◌, str_eq, Bool, true, false,
  List, [], ◌∷◌, Option, some, if◌then◌else◌, if_true, if_false, All, Distinct, length, pos, arith,
  ltb,
}
use network_application.Base.Outcome.{Outcome, returns, throws, ◌>>=◌, not_exact}
use network_application.Base.Table.{lookup, nat_eq}
use network_application.Configuration.{ports, multi_connect, magic}
use network_application.Json.{
  boolean, int64, array, Items, nil, cons, Fields, end, field, find, at_key, as_int64, as_bool,
  as_array, to_uint32_number, first_item, other_items,
}
use network_application.SegmentServer.Members.{
  SegmentServer, create, segment_server, set_server_magic, set_id_distribution_handler,
  set_read_handler,
}
use network_application.Interface.{server_creator_params}
use network_application.ServerConsole.Loop.{assign_server}
use network_application.ServerConsole.Configure.{port_key, make_server, make_servers, configure}

-- The settings of one server.
pub record Setting : Type 0 where
  pub port : ℤ
  pub multi : Bool
  pub number : ℕ

port_items : List Setting → Items
port_items [] = nil
port_items (s ∷ ss) = cons (int64 s.port) (port_items ss)

multi_items : List Setting → Items
multi_items [] = nil
multi_items (s ∷ ss) = cons (boolean s.multi) (multi_items ss)

magic_items : List Setting → Items
magic_items [] = nil
magic_items (s ∷ ss) = cons (int64 (pos s.number)) (magic_items ss)

-- A configuration of the server with these settings.
unfoldable pub config_of : List Setting → Fields
unfolding port_items multi_items magic_items
config_of ss =
    field ports (array (port_items ss))
      (field multi_connect (array (multi_items ss)) (field magic (array (magic_items ss)) end))

abbrev pub keys_of : List Setting → List ℕ
keys_of [] = []
keys_of (s ∷ ss) = port_key s.port ∷ keys_of ss

-- A server that has been made with these settings.
pub record Configured {Socket : Type 0} (s : Setting) (x : SegmentServer Socket) : Type 0 where
  pub listens : x.port ≡ port_key s.port
  pub multi : x.multi_connect ≡ s.multi
  pub number : x.magic_number ≡ s.number
  pub reads : x.read_handler ≡ true
  pub idle : x.is_work ≡ false

All-map :
    {A : Type 0} {P Q : A → Type 0} → ((a : A) → P a → Q a) → (xs : List A) → All P xs → All Q xs
All-map f [] h = tt
All-map f (a ∷ xs) h = (f a h.0, All-map f xs h.1)

module _ {Socket : Type 0} where
  lookup-assign_server :
      (k j : ℕ) (x : SegmentServer Socket) (m : List (ℕ × SegmentServer Socket))
      → lookup j (assign_server k x m) ≡ (if k == j then some x else lookup j m)
  unfolding lookup assign_server
  lookup-assign_server k j x [] = refl
  lookup-assign_server k j x ((i, y) ∷ m) =
      ground (arith, ==_iff i k, ==_iff i j, ==_iff k j, lookup-assign_server k j x m)

  abbrev server_of : ℕ → Setting → SegmentServer Socket
  server_of memory s = make_server memory s.port s.multi s.number

  assigned : ℕ → List Setting → List (ℕ × SegmentServer Socket) → List (ℕ × SegmentServer Socket)
  assigned memory [] m = m
  assigned memory (s ∷ ss) m =
      assigned memory ss (assign_server (port_key s.port) (server_of memory s) m)

  lookup-assigned :
      (memory k : ℕ) (ss : List Setting) (m : List (ℕ × SegmentServer Socket))
      → All (λ j. k ≢ j) (keys_of ss)
      → lookup k (assigned memory ss m) ≡ lookup k m
  unfolding assigned
  lookup-assigned memory k [] m h = refl
  lookup-assigned memory k (s ∷ ss) m h =
      lookup-assigned memory k ss (assign_server (port_key s.port) (server_of memory s) m) h.1
      ∙ lookup-assign_server (port_key s.port) k (server_of memory s) m
      ∙ if_false (port_key s.port == k) _ _
          (let d = h.0 in ground (arith, ==_iff (port_key s.port) k))

  assigned-All :
      (memory : ℕ) (ss : List Setting) (m : List (ℕ × SegmentServer Socket))
      → Distinct (keys_of ss)
      → All
          (λ (s : Setting).
            lookup (port_key s.port) (assigned memory ss m) ≡ some (server_of memory s))
          ss
  unfolding assigned
  assigned-All memory [] m d = tt
  assigned-All memory (s ∷ ss) m d = (
    lookup-assigned memory (port_key s.port) ss
          (assign_server (port_key s.port) (server_of memory s) m) d.0
        ∙ lookup-assign_server (port_key s.port) (port_key s.port) (server_of memory s) m
        ∙ if_true (port_key s.port == port_key s.port) _ _ ((==_iff _ _).1 refl),
    assigned-All memory ss (assign_server (port_key s.port) (server_of memory s) m) d.1,
  )

module _ (Socket : Type 0) (exact : ℕ → Option ℕ) (memory : ℕ) where
  make_server-Configured :
      (s : Setting) → Configured {Socket = Socket} s (make_server memory s.port s.multi s.number)
  unfolding make_server create segment_server server_creator_params set_server_magic
      set_id_distribution_handler set_read_handler port_key
  make_server-Configured s = record {
    listens = refl;
    multi = refl;
    number = refl;
    reads = refl;
    idle = refl;
  }

  make_servers-settings :
      (i : ℕ) (ss : List Setting) (m : List (ℕ × SegmentServer Socket))
      → i + length ss ≤ 2 ^ 15
      → All (λ (s : Setting). s.number < 2 ^ 32) ss
      → make_servers Socket exact memory i (port_items ss) (multi_items ss) (magic_items ss) m
        ≡ returns (assigned memory ss m)
  unfolding make_servers port_items multi_items magic_items assigned as_int64 as_bool
      to_uint32_number first_item other_items
  make_servers-settings i [] m h small = refl
  make_servers-settings i (s ∷ ss) m h small =
      if_false (i == 2 ^ 15) _ _ (ground arith)
      ∙ ap
          (λ (o : Outcome ℕ). o >>= λ number.
            make_servers Socket exact memory (suc i) (port_items ss) (multi_items ss)
              (magic_items ss)
              (assign_server (port_key s.port) (make_server memory s.port s.multi number) m))
          (if_true (ltb s.number (2 ^ 32)) (returns s.number) (throws not_exact) (ground arith))
      ∙ make_servers-settings (suc i) ss (assign_server (port_key s.port) (server_of memory s) m)
          (omega arith) small.1

  assigned-Configured :
      (ss : List Setting) (m : List (ℕ × SegmentServer Socket))
      → Distinct (keys_of ss)
      → All
          (λ (s : Setting).
            (x : SegmentServer Socket) × (lookup (port_key s.port) (assigned memory ss m) ≡ some x)
            × Configured s x)
          ss
  assigned-Configured ss m d =
      All-map
        (λ s found. (make_server memory s.port s.multi s.number, found, make_server-Configured s))
        ss (assigned-All memory ss m d)

  -- The configuration of at most 32768 servers with distinct ports and magic numbers of 32 bits makes a
  -- server for each port, with that port, its multiConnect, its magic number and a read handler, not at
  -- work.
  pub configure-settings :
      (ss : List Setting)
      → length ss ≤ 2 ^ 15
      → All (λ (s : Setting). s.number < 2 ^ 32) ss
      → Distinct (keys_of ss)
      → (servers : List (ℕ × SegmentServer Socket)) × (configure Socket exact memory (config_of ss)
          ≡ returns servers)
        × All
            (λ (s : Setting).
              (x : SegmentServer Socket) × (lookup (port_key s.port) servers ≡ some x)
              × Configured s x)
            ss
  unfolding configure config_of at_key as_array find str_eq
  configure-settings ss h small d = (
    assigned memory ss [],
    make_servers-settings 0 ss [] (omega arith) small,
    assigned-Configured ss [] d,
  )
