-- ===== src/ServerConsole/Laws.antt =====
-- What the lines of the console do to the servers.
use network_application.Base.{
  ℕ, ℤ, ◌==◌, ==_iff, ◌≡◌, ◌≢◌, refl, ap, ◌∙◌, Bytes, str_eq, true, false, ◌&&◌, List, [], ◌∷◌,
  Option, none, some, if_true, if_false, Bool-cases, inl, inr, IsInt32, to_uint32, arith,
}
use network_application.Base.Table.{lookup, nat_eq, bytes_eq, beq_ne, beq_refl}
use network_application.Errors.Codes.{Code}
use network_application.Json.{Platform}
use network_application.Message.{Transaction}
use network_application.Network.{Asio}
use network_application.SessionManager.{SessionManager, get_session}
use network_application.SegmentServer.Members.{SegmentServer, get_is_work, session_number}
use network_application.SegmentServer.Loop.{write, on_manager, disconnect_id, disconnect_found}
use network_application.ServerConsole.{Command, sends, disconnects, word_disconnect, parse_line}
use network_application.ServerConsole.Parse.{command_line, parse_line-command_line}
use network_application.ServerConsole.Loop.{
  write_command, commands, crashed, enters, Console, connection_of, change, all_is_work, print,
  with_manager, disconnect_from, next_round, disconnected, to_server, execute, read_line, step,
}

module _ {Socket : Type 0} where
  lookup-change :
      (k : ℕ) (f : SegmentServer Socket → SegmentServer Socket)
      (m : List (ℕ × SegmentServer Socket)) (x : SegmentServer Socket)
      → lookup k m ≡ some x
      → lookup k (change k f m) ≡ some (f x)
  unfolding lookup change
  lookup-change k f [] x h = absurd (cc)
  lookup-change k f ((j, y) ∷ m) x h = elim (Bool-cases (j == k)) [
    | inl same ↦
        rw (same, same) (ap (λ o. elim o [ none ↦ none | some z ↦ some (f z) ]) (rw same at h))
    | inr differs ↦ rw (differs, differs) (lookup-change k f m x (rw differs at h))
  ]

  lookup-change_other :
      (k j : ℕ) (f : SegmentServer Socket → SegmentServer Socket)
      (m : List (ℕ × SegmentServer Socket))
      → k ≢ j
      → lookup j (change k f m) ≡ lookup j m
  unfolding lookup change
  lookup-change_other k j f [] d = refl
  lookup-change_other k j f ((i, y) ∷ m) d =
      ground (arith, ==_iff i k, ==_iff i j, lookup-change_other k j f m d)

  all_is_work-change :
      (k : ℕ) (f : SegmentServer Socket → SegmentServer Socket)
      (m : List (ℕ × SegmentServer Socket))
      → ((y : SegmentServer Socket) → (f y).is_work ≡ y.is_work)
      → all_is_work (change k f m) ≡ all_is_work m
  unfolding all_is_work change get_is_work
  all_is_work-change k f [] keeps = refl
  all_is_work-change k f ((j, y) ∷ m) keeps = elim (Bool-cases (j == k)) [
    | inl same ↦ rw (same, keeps y) refl
    | inr differs ↦ rw (differs, all_is_work-change k f m keeps) refl
  ]

  on_manager-is_work :
      (x : SegmentServer Socket) (f : SessionManager Socket → SessionManager Socket)
      (o : Option (SessionManager Socket))
      → (on_manager x f o).is_work ≡ x.is_work
  unfolding on_manager
  on_manager-is_work x f none = refl
  on_manager-is_work x f (some m) = refl

module _ (platform : Platform) (asio : Asio) (spare : Transaction) (late : ℕ)
    (cancelled closed : Code) where
  open asio use {Socket}

  pub next_round-on :
      (c : Console Socket)
      → (c.running && all_is_work c.servers) ≡ true
      → next_round platform asio spare late cancelled closed c
        ≡ print write_command (record c { phase = commands })
  unfolding next_round
  next_round-on c on = if_true _ _ _ on

  pub step-enters :
      (c : Console Socket) (line : Bytes) (k : Command)
      → c.phase ≡ commands
      → parse_line line ≡ k
      → step platform asio spare late cancelled closed c (enters line)
        ≡ execute platform asio spare late cancelled closed c k
  unfolding step read_line
  step-enters c line k at parsed =
      ap (read_line platform asio spare late cancelled closed c line) at
      ∙ ap (execute platform asio spare late cancelled closed c) parsed

  -- The servers after a message for a session.
  abbrev written : Console Socket → ℤ → ℤ → Bytes → Console Socket
  written c p i content = record c {
    servers =
        change (to_uint32 p) (λ y. write platform asio y (connection_of i) content spare late)
          c.servers;
  }

  execute-sends :
      (c : Console Socket) (p i : ℤ) (content : Bytes) (x : SegmentServer Socket)
      → lookup (to_uint32 p) c.servers ≡ some x
      → execute platform asio spare late cancelled closed c (sends p i content)
        ≡ next_round platform asio spare late cancelled closed (written c p i content)
  unfolding execute to_server
  execute-sends c p i content x known =
      ap (to_server platform asio spare late cancelled closed c (to_uint32 p) (sends p i content))
        known

  write-is_work :
      (x : SegmentServer Socket) (id : ℕ) (content : Bytes)
      → (write platform asio x id content spare late).is_work ≡ x.is_work
  unfolding write
  write-is_work x id content = on_manager-is_work x _ x.session_manager

  -- The line `<port>;<session>;<message>` of a known server, where main goes on and the message is not the
  -- word disconnect, writes the message to that session of that server, leaves every other server as it
  -- was, and main waits for the next command.
  pub step-command_line :
      (c : Console Socket) (p i : ℤ) (content : Bytes) (x : SegmentServer Socket)
      → c.phase ≡ commands
      → (c.running && all_is_work c.servers) ≡ true
      → IsInt32 p
      → IsInt32 i
      → content ≢ word_disconnect
      → lookup (to_uint32 p) c.servers ≡ some x
      → let d =
          step platform asio spare late cancelled closed c (enters (command_line p i content)) in
        (d.phase ≡ commands)
        × (lookup (to_uint32 p) d.servers
            ≡ some (write platform asio x (connection_of i) content spare late))
        × ((j : ℕ) → to_uint32 p ≢ j → lookup j d.servers ≡ lookup j c.servers)
  unfolding print
  step-command_line c p i content x at on a b other known =
      let f =
        λ (y : SegmentServer Socket). write platform asio y (connection_of i) content spare late in
      let word : str_eq content word_disconnect ≡ false = beq_ne content word_disconnect other in
      let parsed = parse_line-command_line p i content a b ∙ if_false _ _ _ word in
      let same =
        all_is_work-change (to_uint32 p) f c.servers
          (λ y. write-is_work y (connection_of i) content) in
      let done =
        step-enters c (command_line p i content) (sends p i content) at parsed
        ∙ execute-sends c p i content x known
        ∙ next_round-on (written c p i content) (ap (λ b. c.running && b) same ∙ on) in
      rw done (
        refl,
        lookup-change (to_uint32 p) f c.servers x known,
        λ j d. lookup-change_other (to_uint32 p) j f c.servers d,
      )

  disconnect_from-unknown :
      (x : SegmentServer Socket) (m : SessionManager Socket) (id : ℕ)
      → x.session_manager ≡ some m
      → lookup (session_number id) m.sessions ≡ none
      → disconnect_from platform asio spare late cancelled closed x id x.session_manager ≡ none
  unfolding disconnect_from with_manager disconnect_id disconnect_found get_session
  disconnect_from-unknown x m id has free =
      ap (disconnect_from platform asio spare late cancelled closed x id) has
      ∙ ap (λ o. with_manager x (disconnect_found platform asio m (session_number id) o)) free

  -- The line `<port>;<session>;disconnect` for a session that the known server does not have makes main
  -- follow a null pointer.
  pub step-disconnect_unknown :
      (c : Console Socket) (p i : ℤ) (x : SegmentServer Socket) (m : SessionManager Socket)
      → c.phase ≡ commands
      → IsInt32 p
      → IsInt32 i
      → lookup (to_uint32 p) c.servers ≡ some x
      → x.session_manager ≡ some m
      → lookup (session_number (connection_of i)) m.sessions ≡ none
      → (step platform asio spare late cancelled closed c
          (enters (command_line p i word_disconnect))).phase
        ≡ crashed
  unfolding execute to_server disconnected
  step-disconnect_unknown c p i x m at a b known has free =
      let parsed =
        parse_line-command_line p i word_disconnect a b
        ∙ if_true (str_eq word_disconnect word_disconnect) (disconnects p i)
            (sends p i word_disconnect) (beq_refl word_disconnect) in
      ap (λ (d : Console Socket). d.phase)
        (step-enters c (command_line p i word_disconnect) (disconnects p i) at parsed
          ∙ ap
              (to_server platform asio spare late cancelled closed c (to_uint32 p)
                (disconnects p i))
              known
          ∙ ap (disconnected platform asio spare late cancelled closed c (to_uint32 p))
              (disconnect_from-unknown x m (connection_of i) has free))

  -- Where the lines of a known server come in, in a round that main goes on from: the line
  -- `<port>;<session>;<message>` with a message that is not the word disconnect writes the message to that
  -- session of that server, leaves every other server as it was, and main waits for the next command; the
  -- line `<port>;<session>;disconnect` for a number that has no session there makes main follow a null
  -- pointer.
  pub step-session_line :
      (c : Console Socket) (p i k : ℤ) (j : ℕ) (x : SegmentServer Socket)
      (m : SessionManager Socket) (content : Bytes)
      → to_uint32 p ≢ j
      → c.phase ≡ commands
      → (c.running && all_is_work c.servers) ≡ true
      → IsInt32 p
      → IsInt32 i
      → IsInt32 k
      → lookup (to_uint32 p) c.servers ≡ some x
      → content ≢ word_disconnect
      → x.session_manager ≡ some m
      → lookup (session_number (connection_of k)) m.sessions ≡ none
      → let d =
          step platform asio spare late cancelled closed c (enters (command_line p i content)) in
        let e =
          step platform asio spare late cancelled closed c
            (enters (command_line p k word_disconnect)) in
        (d.phase ≡ commands)
        × (lookup (to_uint32 p) d.servers
            ≡ some (write platform asio x (connection_of i) content spare late))
        × (lookup j d.servers ≡ lookup j c.servers)
        × (e.phase ≡ crashed)
  step-session_line c p i k j x m content apart at on a b d known other has free =
      let r = step-command_line c p i content x at on a b other known in
      (r.0, r.1, r.2 j apart, step-disconnect_unknown c p k x m at a d known has free)
