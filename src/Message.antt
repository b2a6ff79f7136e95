-- ===== src/Message.antt =====
-- core/message: transactions, the message classes and the message as it travels (transaction.h,
-- message.h, signal_message.h, information_message.h, raw_message.h, transport_message.h).
pub mod Serialize
pub mod FromJson
pub mod Members
pub mod RoundTrip
use network_application.Base.{ℕ, zero, suc, ℤ, pos, negsuc, Bytes, List, [], codes}

-- enum class Transaction
pub data Transaction : Type 0 where
  request response tests failure : Transaction

-- setTypeTransaction
unfoldable pub set_type_transaction : ℤ → Transaction
set_type_transaction (pos zero) = request
set_type_transaction (pos (suc zero)) = response
set_type_transaction (pos (suc (suc zero))) = tests
set_type_transaction _ = failure

-- std::complex<float>, each part as its 32-bit pattern.
pub record Sample : Type 0 where
  pub re : ℕ
  pub im : ℕ

-- Message and its subclasses: the class, the type name, the transaction and the class's own members.
pub data Message : Type 0 where
  base : Bytes → Transaction → Message
  signal : Bytes → Transaction → ℤ → List Sample → Message
  information : Bytes → Transaction → ℤ → Message
  raw : Bytes → Transaction → Bytes → Message

-- message->type
unfoldable pub type_of : Message → Bytes
type_of (base t x) = t
type_of (signal t x f s) = t
type_of (information t x n) = t
type_of (raw t x b) = t

-- message->transaction
unfoldable pub transaction_of : Message → Transaction
transaction_of (base t x) = x
transaction_of (signal t x f s) = x
transaction_of (information t x n) = x
transaction_of (raw t x b) = x

-- struct TransportMessage
pub record TransportMessage : Type 0 where
  pub type : Bytes
  pub transaction : Transaction
  pub payload : Bytes

-- TransportMessage() leaves the transaction as the memory had it.
unfoldable pub empty_message : Transaction → TransportMessage
empty_message memory = record { type = []; transaction = memory; payload = [] }

-- Message(type) is a message of transaction Tests.
unfoldable pub message_of_type : Bytes → Message
message_of_type t = base t tests

-- The names that the program gives to its message types and to the members of their JSON objects.
abbrev pub signal_name : Bytes
signal_name = codes "signal"

abbrev pub information_name : Bytes
information_name = codes "information"

abbrev pub raw_name : Bytes
raw_name = codes "raw"

abbrev pub unknown_name : Bytes
unknown_name = codes "unknown"

abbrev pub type_key : Bytes
type_key = codes "type"

abbrev pub transaction_key : Bytes
transaction_key = codes "transaction"

abbrev pub central_freq_key : Bytes
central_freq_key = codes "central_Freq"

abbrev pub signal_key : Bytes
signal_key = codes "signal"

abbrev pub number_core_key : Bytes
number_core_key = codes "numberCore"

abbrev pub data_key : Bytes
data_key = codes "data"
