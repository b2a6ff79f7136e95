-- ===== src/Transport/Write.antt =====
-- TransportHandler::write: the frame and the two modes.
use network_application.Base.{ℕ, ◌%◌, ◌^◌, Bytes, false, List, [], ◌∷◌, ◌++◌, map, length, ◌&&◌}
use network_application.Errors.{check_error}
use network_application.Errors.Codes.{Code}
use network_application.Logger.{lit}
use network_application.Message.{TransportMessage}
use network_application.Network.{IoMode, sync, async, Asio}
use network_application.Transport.{
  Event, logs, errors, writes, all_writes, TransportHandler, when, mode_name, u32_bytes,
}

pub record Written (Socket : Type 0) : Type 0 where
  pub events : List Event
  pub socket : Socket

-- The three buffers: magic number, length, payload.
unfoldable pub frame : ℕ → ℕ → Bytes → Bytes
unfolding u32_bytes
frame magic json_len payload = u32_bytes magic ++ (u32_bytes json_len ++ payload)

-- uint32_t json_len = out_message->payload.size();
unfoldable pub json_len_of : Bytes → ℕ
json_len_of payload = length payload % 2 ^ 32

-- What is done with the report of the write, in either mode.
unfoldable pub report_write : TransportHandler → TransportMessage → IoMode → Code → List Event
unfolding check_error when mode_name
report_write h m mode ec =
    let seen = check_error ec (lit "TransportHandler::write." ∷ mode_name mode ∷ []) false in
    map logs seen.logged
    ++ (when (seen.result && h.on_error) (errors ec) ++ when h.on_all_write (all_writes ec m))

-- The length that an asynchronous write sends is read from the stack of a call that may have
-- returned: `late` is what stands there then.
unfoldable pub sent_length : ℕ → IoMode → Bytes → ℕ
unfolding json_len_of
sent_length late sync payload = json_len_of payload
sent_length late async payload = late

-- The bytes that `write` hands to the socket.
unfoldable pub sent_bytes : TransportHandler → IoMode → ℕ → Bytes → Bytes
unfolding frame sent_length
sent_bytes h mode late payload = frame h.magic_number (sent_length late mode payload) payload

module _ (asio : Asio) where
  open asio use {Socket}

  -- write
  unfoldable pub write : TransportHandler → TransportMessage → IoMode → ℕ → Socket → Written Socket
  unfolding report_write when sent_bytes
  write h m mode late s =
      let sent = asio.write s (sent_bytes h mode late m.payload) in
      record {
        events =
            when h.on_write_handler (writes m.payload (length m.payload))
            ++ report_write h m mode sent.code;
        socket = sent.socket;
      }
