-- ===== src/Transport.antt =====
-- core/transport_handler: messages as frames on a socket (transport_handler.h, transport_handler.cpp).
-- A call returns the callbacks and log records that it makes, in order, and the socket after it.
mod Words
pub mod Read
pub mod Write
pub use Words.{u32_value-u32_bytes, length-u32_bytes}
unfoldable pub use Words.{u32_bytes, u32_value}
use network_application.Base.{
  ℕ, ◌+◌, String, Bytes, Bool, true, false, List, [], ◌∷◌, ◌++◌, map, Option, none, some, ◌&&◌, ◌≡◌,
  ◌↔◌, refl, if◌then◌else◌, codes,
}
use network_application.Base.Outcome.{Outcome, returns, throws, catch}
use network_application.Base.Table.{Eq}
use network_application.Errors.Codes.{Code, is_error}
use network_application.Errors.{check_error}
use network_application.HandlerInvoker.{
  HandlerInvoker, Handler, takes_arguments, empty_invoker, register_handler, invoke_handler,
}
use network_application.Logger.{Part, lit, Entry}
use network_application.Message.{Transaction, failure, TransportMessage}
use network_application.Network.{IoMode, sync, async}

-- What a call shows to the rest of the program.
pub data Event : Type 0 where
  logs : Entry → Event
  errors : Code → Event
  reads : ℕ → Bytes → ℕ → Event
  writes : Bytes → ℕ → Event
  all_reads : Code → TransportMessage → Event
  all_writes : Code → TransportMessage → Event

-- The members of TransportHandler but the socket: the magic number, and which callbacks are set.
pub record TransportHandler : Type 0 where
  pub magic_number : ℕ
  pub on_read_handler : Bool
  pub on_write_handler : Bool
  pub on_all_write : Bool
  pub on_all_read : Bool
  pub on_error : Bool

-- TransportHandler(socket): no callback is set, and the magic number is what the memory held.
unfoldable pub transport_handler : ℕ → TransportHandler
transport_handler memory = record {
  magic_number = memory;
  on_read_handler = false;
  on_write_handler = false;
  on_all_write = false;
  on_all_read = false;
  on_error = false;
}

-- setMagicNumber
unfoldable pub set_magic_number : TransportHandler → ℕ → TransportHandler
set_magic_number h n = record h { magic_number = n }

-- setOnReadHandler
unfoldable pub set_on_read_handler : TransportHandler → Bool → TransportHandler
set_on_read_handler h b = record h { on_read_handler = b }

-- setOnWriteHandler
unfoldable pub set_on_write_handler : TransportHandler → Bool → TransportHandler
set_on_write_handler h b = record h { on_write_handler = b }

-- setOnAllRead
unfoldable pub set_on_all_read : TransportHandler → Bool → TransportHandler
set_on_all_read h b = record h { on_all_read = b }

-- setOnAllWrite
unfoldable pub set_on_all_write : TransportHandler → Bool → TransportHandler
set_on_all_write h b = record h { on_all_write = b }

-- setOnError
unfoldable pub set_on_error : TransportHandler → Bool → TransportHandler
set_on_error h b = record h { on_error = b }

-- setErrorMessage
unfoldable pub set_error_message : TransportMessage → TransportMessage
set_error_message m = record { type = codes "error"; transaction = failure; payload = [] }

-- A callback is called where it is set.
unfoldable pub when : Bool → Event → List Event
when b e = if b then e ∷ [] else []

-- mode == IOMode::Sync ? "sync" : "async"
unfoldable pub mode_name : IoMode → Part
mode_name sync = lit "sync"
mode_name async = lit "async"

pub record Handled : Type 0 where
  pub events : List Event
  pub stop : Bool

-- The error handler that the constructor registers.
unfoldable pub handle_error : TransportHandler → Code → TransportMessage → String → IoMode → Handled
unfolding check_error set_error_message when mode_name is_error
handle_error h error m name mode =
    let place =
      lit "TransportHandler::read." ∷ mode_name mode ∷ lit "{" ∷ lit name ∷ lit "}" ∷ [] in
    let seen = check_error error place false in
    let first = map logs seen.logged ++ when (seen.result && h.on_error) (errors error) in
    if is_error error
    then record {
      events = first ++ when h.on_all_read (all_reads error (set_error_message m));
      stop = true;
    }
    else record { events = first; stop = false }

-- enum class Command
pub data Command : Type 0 where
  error_handler : Command

abbrev pub command_beq : Command → Command → Bool
command_beq error_handler error_handler = true

pub command_beq_iff : (a b : Command) → (command_beq a b ≡ true) ↔ (a ≡ b)
command_beq_iff error_handler error_handler = ((λ e. refl), (λ e. refl))

instance abbrev pub command_eq : Eq Command
command_eq = record { beq = command_beq; beq_iff = command_beq_iff }

-- The arguments of TransportHandler::Handler.
pub record ErrorCall : Type 0 where
  pub error : Code
  pub message : TransportMessage
  pub name : String
  pub mode : IoMode

-- The member `invoker`, as the constructor leaves it.
unfoldable pub invoker : TransportHandler → HandlerInvoker Command ErrorCall Handled
unfolding register_handler empty_invoker handle_error
invoker h =
    register_handler empty_invoker error_handler
      (takes_arguments (λ (c : ErrorCall). handle_error h c.error c.message c.name c.mode))

-- invoker.invokeHandler(Command::errorHandler, ...); bool() is false.
unfoldable pub invoke_error : TransportHandler → Code → TransportMessage → String → IoMode → Handled
unfolding invoker invoke_handler
invoke_error h error m name mode =
    catch
      (invoke_handler (invoker h) (some (record { events = []; stop = false })) error_handler
        (record { error = error; message = m; name = name; mode = mode }))
      (record { events = []; stop = false })
