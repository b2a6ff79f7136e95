-- ===== src/Examples/Transports.antt =====
-- The transport's theorems at concrete inputs.
use network_application.Base.{◌++◌, ◌∷◌, [], Bytes, ◌≡◌, refl, arith, true, false, some, pos}
use network_application.Errors.Codes.{is_error, eof, success}
use network_application.Message.{request, response, Message, information, information_name}
use network_application.MessageHandler.{serialize_message}
use network_application.Network.{sync, async}
use network_application.Transport.Read.Modes.{SameRun}
use network_application.Transport.Read.Rejects.{Rejects, read-Rejects}
use network_application.Transport.Read.Sizes.{AllTell, extra, read-both}
use network_application.Transport.{u32_value, TransportHandler}
use network_application.Transport.Read.{read}
use network_application.Transport.Read.Deliveries.{deliveries, RunDeliversOnce}
use network_application.Transport.Read.Once.{read-once}
use network_application.Transport.Read.Delivery.{read-write, received}
use network_application.Transport.Write.{sent_bytes}
use network_application.Examples.Codec.{codec, encode, encode_text}
use network_application.Examples.Wire.{network, arriving, wire_read}

abbrev peer : TransportHandler
peer = record {
  magic_number = 123456;
  on_read_handler = true;
  on_write_handler = false;
  on_all_write = true;
  on_all_read = true;
  on_error = true;
}

abbrev four_cores : Message
four_cores = information information_name response (pos 4)

abbrev sent : Bytes
sent = sent_bytes peer sync 0 (serialize_message codec request (some four_cores)).payload

read-write_example :
    (deliveries (read codec network peer async request (arriving (sent ++ 9 ∷ []))).events
      ≡ record {
        code = success;
        message = received four_cores (serialize_message codec request (some four_cores)).payload;
      }
        ∷ [])
    × ((read codec network peer async request (arriving (sent ++ 9 ∷ []))).socket.incoming ≡ 9 ∷ [])
unfolding serialize_message encode encode_text sent_bytes
read-write_example =
    read-write codec network peer peer four_cores sync async 0 request (9 ∷ [])
      (arriving (sent ++ 9 ∷ [])) refl refl (omega arith) (omega arith) refl tt refl

read-once_example : RunDeliversOnce (read codec network peer sync request (arriving sent))
read-once_example = read-once codec network peer refl sync request (arriving sent)

-- Eight bytes with the magic number 1.
abbrev foreign : Bytes
foreign = 1 ∷ 0 ∷ 0 ∷ 0 ∷ 5 ∷ 0 ∷ 0 ∷ 0 ∷ []

-- Three bytes, too few for the headers.
abbrev short : Bytes
short = 1 ∷ 0 ∷ 0 ∷ []

read-Rejects_example :
    Rejects
      (read codec network peer sync request (arriving short))
      eof
      (network.read (arriving short) 8).socket
    × Rejects (read codec network peer sync request (arriving foreign)) eof (arriving [])
unfolding u32_value wire_read is_error
read-Rejects_example =
    read-Rejects codec network peer refl request sync (arriving short) (arriving foreign) refl refl
      (ground arith)

read-both_example :
    SameRun
      (read codec network peer sync request (arriving sent))
      (read codec network peer async request (arriving sent))
    × AllTell (extra sync) (read codec network peer sync request (arriving sent)).events
    × AllTell (extra async) (read codec network peer async request (arriving sent)).events
read-both_example = read-both codec network peer request (arriving sent)
