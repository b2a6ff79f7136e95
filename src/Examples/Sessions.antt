-- ===== src/Examples/Sessions.antt =====
-- The theorems on sessions at concrete inputs.
use network_application.Base.{◌≡◌, refl, [], ◌∷◌, ◌++◌, Bytes, some, pos, true, false, arith}
use network_application.Errors.Codes.{success}
use network_application.Message.{request, response, Message, information, information_name}
use network_application.MessageHandler.{serialize_message}
use network_application.Network.{IoMode, sync, async}
use network_application.Transport
use network_application.Transport.Write.{sent_bytes}
use network_application.Session.{Session, session, set_magic_number, set_on_all_read}
use network_application.Session.Calls.{read}
use network_application.Session.Told.{told}
use network_application.Session.Failure.{Settled, session_read-Settled}
use network_application.Session.Delivery.{session_read-write}
use network_application.Examples.Codec.{codec, keep, encode, encode_text}
use network_application.Examples.Wire.{Wire, network, arriving}

-- A session on this socket with a magic number and onAllRead set.
abbrev pub ready : IoMode → Wire → Session Wire
ready mode s = set_on_all_read (set_magic_number (session keep (pos 0) 0 s mode) 123456) true

abbrev four_cores : Message
four_cores = information information_name response (pos 4)

abbrev sent : Bytes
sent =
    sent_bytes (ready sync (arriving [])).transport sync 0
      (serialize_message codec request (some four_cores)).payload

-- A session whose socket is closed.
abbrev hung_up : Session Wire
hung_up = ready sync (record (arriving sent) { opened = false })

session_read-Settled_example :
    Settled network codec
      (ready async (arriving sent))
      (read network codec (ready async (arriving sent)) request).acted
      (read network codec (ready async (arriving sent)) request).outcome
    × ((read network codec hung_up request).acted.events ≡ [])
    × ((read network codec hung_up request).acted.session.critical_error ≡ false)
unfolding set_on_all_read set_magic_number session
session_read-Settled_example =
    session_read-Settled network codec (ready async (arriving sent)) hung_up request refl refl

session_read-write_example :
    (told (read network codec (ready async (arriving (sent ++ 9 ∷ []))) request).acted.events
      ≡ record { code = success; message = some four_cores } ∷ [])
    × ((read network codec
          (ready async (arriving (sent ++ 9 ∷ [])))
          request).acted.session.critical_error
        ≡ false)
    × ((read network codec
          (ready async (arriving (sent ++ 9 ∷ [])))
          request).acted.session.socket.incoming
        ≡ 9 ∷ [])
unfolding set_on_all_read set_magic_number session serialize_message encode encode_text sent_bytes
    Transport.set_magic_number
session_read-write_example =
    session_read-write codec network (ready sync (arriving []))
      (ready async (arriving (sent ++ 9 ∷ []))) four_cores (pos 0) 0 request (9 ∷ [])
      (refl, omega arith) tt refl refl refl refl (omega arith) (omega arith) refl refl
