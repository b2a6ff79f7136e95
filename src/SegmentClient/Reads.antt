-- ===== src/SegmentClient/Reads.antt =====
-- client/lib/segment_client.cpp: the read loop that start gives to the worker, and what it prints.
use network_application.Base.{
  ℕ, ℤ, Bool, true, not, ◌||◌, ◌≡◌, ◌≢◌, ap, Bytes, List, [], ◌∷◌, ◌++◌, All, ◌<◌, Option, none,
  some, if◌then◌else◌,
}
use network_application.Json.{Platform}
use network_application.Message.{
  Transaction, response, Message, raw, raw_name, signal_name, information_name,
}
use network_application.MessageHandler.{message_handler, serialize_message, parse_message}
use network_application.Network.{Asio}
use network_application.Session.{Session, set_on_all_read, has_error}
use network_application.Session.Calls.{read}
use network_application.Session.Told.{Told, told}
use network_application.Transport.Read.Delivery.{received}
use network_application.SegmentServer.{message_of}
use network_application.SegmentServer.Laws.{Arriving, told-Arriving, message_of-raw, parse-raw}

-- The callback that start sets as onAllRead: the bytes of a RawMessage are printed.
unfoldable pub print_message : Option Message → List Bytes
print_message none = []
print_message (some (raw t x b)) = b ∷ []
print_message (some _) = []

-- Over the calls of the callback.
unfoldable pub print_all : List Told → List Bytes
unfolding print_message
print_all [] = []
print_all (t ∷ ts) = print_message t.message ++ print_all ts

-- A session after some rounds of the loop, with what they printed, oldest first.
pub record Printed (Socket : Type 0) : Type 0 where
  pub printed : List Bytes
  pub session : Session Socket

module _ (platform : Platform) (asio : Asio) where
  open asio use {Socket}

  -- A round of the read loop whose read has completed.
  unfoldable pub read_round : Session Socket → Transaction → Printed Socket
  unfolding read told print_all
  read_round x spare =
      let a = (read asio platform x spare).acted in
      record { printed = print_all (told a.events); session = a.session }

  -- The loop over rounds, each with the value of isWork that its test sees.
  unfoldable pub read_rounds : Session Socket → Transaction → List Bool → Printed Socket
  unfolding read_round has_error
  read_rounds x spare [] = record { printed = []; session = x }
  read_rounds x spare (works ∷ more) =
      let first = read_round x spare in
      let rest = read_rounds first.session spare more in
      if not works || has_error x
      then record { printed = []; session = x }
      else record { printed = first.printed ++ rest.printed; session = rest.session }

  read_round-told :
      (x : Session Socket) (spare : Transaction) (t : Told)
      → told (read asio platform x spare).acted.events ≡ t ∷ []
      → (read_round x spare).printed ≡ print_message t.message ++ []
  unfolding read_round print_all
  read_round-told x spare t h = ap print_all h

  -- The server writes a text that is neither signal nor information to a session: the round of the
  -- client's read loop in which its frame arrives prints exactly these bytes, once.
  pub read_round-raw :
      (server client : Session Socket) (memory : ℤ) (late : ℕ) (spare : Transaction)
      (content rest : Bytes)
      → Arriving platform asio server client memory late spare content rest
      → content ≢ signal_name
      → content ≢ information_name
      → All (λ b. b < 256) content
      → (read_round (set_on_all_read client true) spare).printed ≡ content ∷ []
  unfolding print_message
  read_round-raw server client memory late spare content rest a h k small =
      let m = message_of-raw content h k in
      let back : (parse_message platform (message_handler platform.narrow memory) (
            received (message_of content)
              (serialize_message platform spare (some (message_of content))).payload)).result
          ≡ some (raw raw_name response content) =
        rw m (parse-raw platform asio content memory spare small (rw m at a.printable)) in
      read_round-told (set_on_all_read client true) spare _
        (told-Arriving platform asio server client memory late spare content rest _ a back)
