-- ===== src/SegmentServer.antt =====
-- server/lib/segment_server.cpp: what the server does with the messages of its sessions and with
-- what it is told to write to them.
pub mod Laws
pub mod Members
pub mod Loop
pub mod Steps
pub mod Shrinks
pub mod Single
pub mod Stop
pub mod Admission
pub mod Accepting
pub mod Ids
pub mod Restart
use network_application.Base.{
  ℕ, Bytes, Bool, true, false, not, ◌&&◌, ◌||◌, str_eq, List, [], ◌∷◌, ◌++◌, Option, none, some,
  if◌then◌else◌,
}
use network_application.Base.Table.{lookup, insert, keys, nat_eq}
use network_application.Json.{Platform}
use network_application.Logger.{Entry, LogLevel, info, lit, bytes, number}
use network_application.Message.{
  Transaction, request, response, Message, base, signal, information, raw, type_of, signal_name,
  information_name, raw_name,
}
use network_application.Network.{Asio}
use network_application.RequestResponse.{Draws, create_response}
use network_application.Session
use network_application.Session.{Session, Acted, set_on_all_read, has_error}
use network_application.Session.Calls.{disconnect, read, write}
use network_application.Session.Told.{Told, told}
use network_application.SessionManager.{SessionManager, get_session, remove_session}

-- The message that `write` makes of its bytes; the client's `write` makes the same.
unfoldable pub message_of : Bytes → Message
unfolding str_eq
message_of content =
    if str_eq content signal_name || str_eq content information_name
    then base content request
    else raw raw_name response content

-- What the onAllRead of sessionWork does with a message. A message of type "raw" that is no RawMessage
-- would be a null pointer behind a dynamic_cast.
pub data Reaction : Type 0 where
  ignores : Reaction
  prints : Bytes → Reaction
  replies : Message → Reaction
  null_pointer : Reaction

unfoldable pub print_raw : Message → Reaction
print_raw (raw t x b) = prints b
print_raw _ = null_pointer

-- The callback that sessionWork sets as onAllRead.
unfoldable pub react : Draws → Option Message → Reaction
unfolding print_raw create_response type_of str_eq
react draws none = ignores
react draws (some m) =
    if str_eq (type_of m) raw_name
    then print_raw m
    else replies (create_response draws (some m)).result

-- A session after some rounds, with what its callback did, oldest first.
pub record Served (Socket : Type 0) : Type 0 where
  pub reactions : List Reaction
  pub session : Session Socket

module _ (platform : Platform) (asio : Asio) where
  open asio use {Socket}

  -- A reply is written to the session; `late` is what the stack holds when it is sent.
  unfoldable pub carry_out : Session Socket → Transaction → ℕ → Reaction → Session Socket
  unfolding write
  carry_out x spare late (replies m) = (write asio platform x spare (some m) late).session
  carry_out x spare late _ = x

  -- The calls of the callback in their order.
  unfoldable pub carry_out_all :
      Session Socket → Draws → Transaction → ℕ → List Told → Served Socket
  unfolding react carry_out
  carry_out_all x draws spare late [] = record { reactions = []; session = x }
  carry_out_all x draws spare late (t ∷ ts) =
      let r = react draws t.message in
      let rest = carry_out_all (carry_out x spare late r) draws spare late ts in
      record { reactions = r ∷ rest.reactions; session = rest.session }

  -- A round of the loop of sessionWork whose read has completed. In the asynchronous mode the loop goes
  -- on before that, and reads overlap, which is not modelled.
  unfoldable pub serve : Session Socket → Draws → Transaction → ℕ → Served Socket
  unfolding set_on_all_read read told carry_out_all
  serve x draws spare late =
      let a = (read asio platform (set_on_all_read x true) spare).acted in
      carry_out_all a.session draws spare late (told a.events)

  -- The loop of sessionWork over the rounds that `isWork` allows, each with its draws.
  unfoldable pub session_work : Session Socket → Transaction → ℕ → List Draws → Served Socket
  unfolding serve has_error
  session_work x spare late [] = record { reactions = []; session = x }
  session_work x spare late (d ∷ ds) =
      let first = serve x d spare late in
      let rest = session_work first.session spare late ds in
      if has_error x
      then record { reactions = []; session = x }
      else record { reactions = first.reactions ++ rest.reactions; session = rest.session }

  -- onError of a session, as addSession sets it: the manager forgets the session.
  unfoldable pub forget : SessionManager Socket → ℕ → List Session.Event → SessionManager Socket
  unfolding remove_session
  forget m id [] = m
  forget m id (Session.errors c ∷ es) = forget (remove_session m id).manager id es
  forget m id (e ∷ es) = forget m id es

  -- write, from the result of getSession
  unfoldable pub write_found :
      SessionManager Socket
      → ℕ
      → Bytes
      → Transaction
      → ℕ
      → Option (Session Socket)
      → SessionManager Socket
  unfolding message_of write insert forget
  write_found m id content spare late none = m
  write_found m id content spare late (some s) =
      let a = write asio platform s spare (some (message_of content)) late in
      forget (record m { sessions = insert id a.session m.sessions }) id a.events

  -- write
  unfoldable pub write_to :
      SessionManager Socket → ℕ → Bytes → Transaction → ℕ → SessionManager Socket
  unfolding write_found get_session
  write_to m id content spare late = write_found m id content spare late (get_session m id).result

  -- getSessionVectorID
  unfoldable pub get_session_vector_id : SessionManager Socket → List ℕ
  unfolding keys
  get_session_vector_id m = keys m.sessions
