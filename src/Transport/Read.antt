-- ===== src/Transport/Read.antt =====
-- TransportHandler::read, read_sync and read_async.
mod Stages
pub use Stages.{Run, incorrect_magic, with_payload}
unfoldable pub use Stages.{
  finish_sync, parse_sync, payload_sync, read_sync, finish_async, on_payload_async,
  on_headers_async, magic_sync, magic_async, read_async, read, parse_async, fill, hand_over,
}
pub mod Deliveries
pub mod Sizes
pub mod Modes
pub mod Once
pub mod Rejects
pub mod Delivery
