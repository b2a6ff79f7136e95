-- ===== src/SegmentServer/Laws.antt =====
-- What the server does with what a client sends.
use network_application.Base.{
  ℕ, ℤ, ◌==◌, ◌^◌, ◌<◌, ◌≡◌, ◌≢◌, refl, ap, ◌∙◌, Bytes, true, false, [], ◌∷◌, ◌++◌, List, All,
  length, Option, some, none, str_eq, arith, inl, inr, str_eq_iff,
}
use network_application.Errors.Codes.{success}
use network_application.Json.{Platform}
use network_application.Message.{
  Transaction, request, response, Message, base, raw, raw_name, signal_name, information_name,
  type_of, transaction_of,
}
use network_application.Message.Serialize.{serialize}
use network_application.MessageHandler.{message_handler, serialize_message, parse_message}
use network_application.MessageHandler.RoundTrip.{
  IsResponse, opened, parse-serialize_other, parse-serialize_response,
}
use network_application.Network.{Asio}
use network_application.RequestResponse.{Draws, create_response, answer}
use network_application.RequestResponse.Laws.{
  InRange, Answerable, answer-IsResponse, respond-opened,
}
use network_application.Transport.Read.Delivery.{received}
use network_application.Transport.Write.{sent_length, sent_bytes}
use network_application.Session.{Session, set_on_all_read}
use network_application.Session.Calls.{read, write}
use network_application.Session.Told.{Told, told}
use network_application.Session.Delivery.{session_read-parsed, received-response}
use network_application.SessionManager.{SessionManager, remove_session, get_session}
use network_application.SessionManager.Laws.{lookup-remove_session}
use network_application.Base.Table.{lookup, insert, lookup-insert, nat_eq, beq_ne}
use network_application.Session
use network_application.SegmentServer.{
  forget, write_found, write_to, Reaction, replies, prints, message_of, react, serve, carry_out_all,
}

pub message_of-raw :
    (content : Bytes)
    → content ≢ signal_name
    → content ≢ information_name
    → message_of content ≡ raw raw_name response content
unfolding message_of
message_of-raw content h k =
    ground (arith, str_eq_iff content signal_name, str_eq_iff content information_name)

pub message_of-request :
    (platform : Platform) (content : Bytes)
    → Answerable platform content
    → message_of content ≡ base content request
unfolding message_of str_eq
message_of-request platform content (inl h) = rw h refl
message_of-request platform content (inr h) = rw h refl

module _ (platform : Platform) (asio : Asio) where
  -- A client's bytes arrive at a session of the server.
  pub record Arriving (client server : Session asio.Socket) (memory : ℤ) (late : ℕ)
      (spare : Transaction) (content rest : Bytes) : Type 0 where
    pub printable : platform.Printable (serialize platform.widen (message_of content))
    pub factory : server.creator ≡ message_handler platform.narrow memory
    pub opened' : asio.is_open server.socket ≡ true
    pub same : client.transport.magic_number ≡ server.transport.magic_number
    pub magic : server.transport.magic_number < 2 ^ 32
    pub small :
        length (serialize_message platform spare (some (message_of content))).payload < 2 ^ 32
    pub sent :
        sent_length late client.mode
          (serialize_message platform spare (some (message_of content))).payload
        ≡ length (serialize_message platform spare (some (message_of content))).payload
    pub wire : asio.Delivers server.socket (
        sent_bytes client.transport client.mode late
          (serialize_message platform spare (some (message_of content))).payload
        ++ rest)

  -- A round on a socket where this message comes in.
  serve-told :
      (x : Session asio.Socket) (draws : Draws) (spare : Transaction) (late : ℕ) (t : Told)
      → told (read asio platform (set_on_all_read x true) spare).acted.events ≡ t ∷ []
      → (serve platform asio x draws spare late).reactions ≡ react draws t.message ∷ []
  unfolding serve
  serve-told x draws spare late t h = rw h (unfold carry_out_all in refl)

  -- Such bytes are told as what the server's factory makes of them.
  pub told-Arriving :
      (client server : Session asio.Socket) (memory : ℤ) (late : ℕ) (spare : Transaction)
      (content rest : Bytes) (back : Option Message)
      → Arriving client server memory late spare content rest
      → (parse_message platform (message_handler platform.narrow memory) (
          received
            (message_of content)
            (serialize_message platform spare (some (message_of content))).payload)).result
        ≡ back
      → (told (read asio platform (set_on_all_read server true) spare).acted.events
          ≡ record { code = success; message = back } ∷ [])
  unfolding set_on_all_read
  told-Arriving client server memory late spare content rest back a parses =
      (session_read-parsed platform asio client (set_on_all_read server true) (message_of content)
        back late spare rest a.printable (rw a.factory parses) refl a.opened' a.same a.magic a.small
        a.sent a.wire).0

  react-opened :
      (draws : Draws) (memory : ℤ) (t : Bytes)
      → Answerable platform t
      → react draws (opened platform memory t request)
        ≡ replies (create_response draws (opened platform memory t request)).result
  unfolding react str_eq type_of
  react-opened draws memory t (inl h) = rw h refl
  react-opened draws memory t (inr h) = rw h refl

  pub parse-request :
      (content : Bytes) (memory : ℤ) (spare : Transaction)
      → platform.Printable (serialize platform.widen (base content request))
      → (parse_message platform (message_handler platform.narrow memory) (
          received
            (base content request)
            (serialize_message platform spare (some (base content request))).payload)).result
        ≡ opened platform memory content request
  unfolding serialize_message type_of transaction_of
  parse-request content memory spare printable =
      parse-serialize_other platform memory spare (base content request) (ground arith) printable

  pub parse-raw :
      (content : Bytes) (memory : ℤ) (spare : Transaction)
      → All (λ b. b < 256) content
      → platform.Printable (serialize platform.widen (raw raw_name response content))
      → (parse_message platform (message_handler platform.narrow memory) (
          received
            (raw raw_name response content)
            (serialize_message platform spare
              (some (raw raw_name response content))).payload)).result
        ≡ some (raw raw_name response content)
  parse-raw content memory spare small printable =
      rw (received-response platform spare (raw raw_name response content) (refl, small)) (
        parse-serialize_response platform memory spare (raw raw_name response content) (refl, small)
          printable)

  -- A client writes the text signal or information: the round of the server's session in which its
  -- frame arrives has one reaction, a reply, which is a response of that type, if the draws are in range
  -- and floats survive the text.
  pub serve-request :
      (client server : Session asio.Socket) (memory : ℤ) (late : ℕ) (spare : Transaction)
      (content rest : Bytes) (draws : Draws) (now : ℕ)
      → Arriving client server memory late spare content rest
      → Answerable platform content
      → InRange draws
      → ((k : ℕ)
          → platform.narrow (platform.reread (platform.widen (draws.dist_f k))) ≡ draws.dist_f k)
      → (reply : Message) × ((serve platform asio server draws spare now).reactions
          ≡ replies reply ∷ [])
        × IsResponse platform reply
        × (type_of reply ≡ content)
  serve-request client server memory late spare content rest draws now a t range survive =
      let m = message_of-request platform content t in
      let back : (parse_message platform (message_handler platform.narrow memory) (
            received (message_of content)
              (serialize_message platform spare (some (message_of content))).payload)).result
          ≡ opened platform memory content request =
        rw m (parse-request content memory spare (rw m at a.printable)) in
      let reply = answer-IsResponse platform draws content t range survive in
      (
        (answer draws content).result,
        serve-told server draws spare now _
              (told-Arriving client server memory late spare content rest _ a back)
            ∙ ap (λ (r : Reaction). r ∷ [])
                (react-opened draws memory content t
                  ∙ ap replies (respond-opened platform draws memory content t)),
        reply.0,
        reply.1,
      )

  -- A client writes another text: the round in which its frame arrives has one reaction, the print of
  -- exactly these bytes.
  pub serve-raw :
      (client server : Session asio.Socket) (memory : ℤ) (late : ℕ) (spare : Transaction)
      (content rest : Bytes) (draws : Draws) (now : ℕ)
      → Arriving client server memory late spare content rest
      → content ≢ signal_name
      → content ≢ information_name
      → All (λ b. b < 256) content
      → (serve platform asio server draws spare now).reactions ≡ prints content ∷ []
  serve-raw client server memory late spare content rest draws now a h k small =
      let m = message_of-raw content h k in
      let back : (parse_message platform (message_handler platform.narrow memory) (
            received (message_of content)
              (serialize_message platform spare (some (message_of content))).payload)).result
          ≡ some (raw raw_name response content) =
        rw m (parse-raw content memory spare small (rw m at a.printable)) in
      serve-told server draws spare now _
        (told-Arriving client server memory late spare content rest _ a back)
      ∙ (unfold react str_eq type_of in refl)

  pub forget-other :
      (m : SessionManager asio.Socket) (id j : ℕ) (es : List Session.Event)
      → (id == j) ≡ false
      → lookup j (forget platform asio m id es).sessions ≡ lookup j m.sessions
  unfolding forget
  forget-other m id j [] h = refl
  forget-other m id j (Session.errors c ∷ es) h =
      forget-other (remove_session m id).manager id j es h
      ∙ rw (lookup-remove_session m id j, h) refl
  forget-other m id j (_ ∷ es) h = forget-other m id j es h

  write_found-other :
      (m : SessionManager asio.Socket) (id j : ℕ) (content : Bytes) (spare : Transaction) (late : ℕ)
      (o : Option (Session asio.Socket))
      → (id == j) ≡ false
      → lookup j (write_found platform asio m id content spare late o).sessions
        ≡ lookup j m.sessions
  unfolding write_found
  write_found-other m id j content spare late none h = refl
  write_found-other m id j content spare late (some s) h =
      let a = write asio platform s spare (some (message_of content)) late in
      forget-other (record m { sessions = insert id a.session m.sessions }) id j a.events h
      ∙ rw (lookup-insert id j a.session m.sessions, h) refl

  -- A write to one number leaves the session of every other number as it was, and a write to a number
  -- without a session leaves the manager as it was.
  pub write_to-other :
      (m : SessionManager asio.Socket) (id : ℕ) (content : Bytes) (spare : Transaction) (late : ℕ)
      → ((j : ℕ)
          → id ≢ j
          → lookup j (write_to platform asio m id content spare late).sessions
            ≡ lookup j m.sessions)
        × (lookup id m.sessions ≡ none → write_to platform asio m id content spare late ≡ m)
  unfolding write_to get_session
  write_to-other m id content spare late = (
    λ j differs. write_found-other m id j content spare late _ (beq_ne id j differs),
    λ lacks. rw lacks (unfold write_found in refl),
  )
