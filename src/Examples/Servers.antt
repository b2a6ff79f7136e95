-- ===== src/Examples/Servers.antt =====
-- The theorems on the server at concrete texts.
use network_application.Base.{
  ℕ, false, true, ◌≡◌, ◌≢◌, refl, [], ◌∷◌, ◌++◌, Bytes, some, none, pos, codes, arith, inr,
}
use network_application.Base.Table.{lookup, nat_eq}
use network_application.Message.{Message, request, type_of, information_name}
use network_application.MessageHandler.{serialize_message}
use network_application.MessageHandler.RoundTrip.{IsResponse}
use network_application.Network.{sync, async}
use network_application.RequestResponse.{Draws}
use network_application.RequestResponse.Laws.{InRange}
use network_application.Transport
use network_application.Transport.Write.{sent_bytes}
use network_application.Session.{Session, session, set_magic_number, set_on_all_read}
use network_application.SessionManager.{SessionManager}
use network_application.SegmentServer.{message_of, serve, replies, prints, write_to}
use network_application.SegmentServer.Laws.{Arriving, serve-request, serve-raw, write_to-other}
use network_application.SegmentClient.Reads.{read_round, read_round-raw}
use network_application.Examples.Codec.{codec, encode, encode_text}
use network_application.Examples.Sessions.{ready}
use network_application.Examples.Wire.{Wire, network, arriving}

-- The frame of a client's text.
abbrev frame_of : Bytes → Bytes
frame_of content =
    sent_bytes (ready sync (arriving [])).transport sync 0
      (serialize_message codec request (some (message_of content))).payload

abbrev client : Session Wire
client = ready sync (arriving [])

abbrev server : Bytes → Session Wire
server content = ready async (arriving (frame_of content ++ []))

information-Arriving :
    Arriving codec network client (server information_name) (pos 0) 0 request information_name []
unfolding message_of set_on_all_read set_magic_number session serialize_message encode encode_text
    sent_bytes Transport.set_magic_number
information-Arriving = record {
  printable = tt;
  factory = refl;
  opened' = refl;
  same = refl;
  magic = omega arith;
  small = omega arith;
  sent = refl;
  wire = refl;
}

-- Two letters.
abbrev letters : Bytes
letters = codes "ok"

letters-Arriving : Arriving codec network client (server letters) (pos 0) 0 request letters []
unfolding message_of set_on_all_read set_magic_number session serialize_message encode encode_text
    sent_bytes Transport.set_magic_number
letters-Arriving = record {
  printable = tt;
  factory = refl;
  opened' = refl;
  same = refl;
  magic = omega arith;
  small = omega arith;
  sent = refl;
  wire = refl;
}

abbrev draws : Draws
draws = record { dist_n = 5; dist_f = λ k. k; dist = 3000 }

draws-InRange : InRange draws
draws-InRange = record { n_range = omega arith; range = omega arith }

serve-request_example :
    (reply : Message) × ((serve codec network (server information_name) draws request 0).reactions
      ≡ replies reply ∷ [])
    × IsResponse codec reply
    × (type_of reply ≡ information_name)
serve-request_example =
    serve-request codec network client (server information_name) (pos 0) 0 request information_name
      [] draws 0 information-Arriving (inr refl) draws-InRange (λ k. refl)

serve-raw_example :
    (serve codec network (server letters) draws request 0).reactions ≡ prints letters ∷ []
serve-raw_example =
    serve-raw codec network client (server letters) (pos 0) 0 request letters [] draws 0
      letters-Arriving (ground arith) (ground arith) (omega arith)

-- A manager with the sessions 1 and 2.
abbrev two_sessions : SessionManager Wire
two_sessions = record {
  mode = sync;
  sessions = (1, client) ∷ (2, client) ∷ [];
  read_handler = false;
  magic_number = 123456;
  acceptor = record { on_accept = false; on_close = false; on_error = false; is_open = true };
  accepting = none;
}

write_to-other_example :
    ((j : ℕ)
      → 1 ≢ j
      → lookup j (write_to codec network two_sessions 1 letters request 0).sessions
        ≡ lookup j two_sessions.sessions)
    × (lookup 1 two_sessions.sessions ≡ none
        → write_to codec network two_sessions 1 letters request 0 ≡ two_sessions)
write_to-other_example = write_to-other codec network two_sessions 1 letters request 0

-- The same bytes on their way from a server's session to a client's.
read_round-raw_example :
    (read_round codec network (set_on_all_read (server letters) true) request).printed
    ≡ letters ∷ []
read_round-raw_example =
    read_round-raw codec network client (server letters) (pos 0) 0 request letters []
      letters-Arriving (ground arith) (ground arith) (omega arith)
