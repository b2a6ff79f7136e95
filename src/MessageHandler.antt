-- ===== src/MessageHandler.antt =====
-- core/message_handler: the message factory (creator_message.cpp) and the conversion between messages
-- and transport messages (message_handler.cpp).
pub mod RoundTrip
pub mod Factory
pub mod Bounds
use network_application.Base.{
  ℕ, ℤ, Bytes, Bool, true, false, List, [], ◌∷◌, ◌++◌, Option, none, some, if◌then◌else◌,
}
use network_application.Base.Outcome.{Outcome, returns, throws}
use network_application.Base.Table.{lookup, insert, bytes_eq}
use network_application.Errors.Codes.{Code, success, is_error}
use network_application.Errors.{Logged, check_error}
use network_application.Json.{Value, Platform, Parsed, parsed, failed}
use network_application.Logger.{Part, lit, Entry}
use network_application.Message.{
  Transaction, Message, TransportMessage, empty_message, type_of, transaction_of, signal_name,
  information_name, raw_name,
}
use network_application.Message.Serialize.{serialize}
use network_application.Message.FromJson.{signal_from, information_from, raw_from}

-- std::function<std::unique_ptr<Message>(const std::string&, Transaction, json::value&)>
abbrev pub Builder : Type 0
Builder = Bytes → Transaction → Value → Outcome Message

-- CreatorMessage: the builders by type name.
pub record CreatorMessage : Type 0 where
  pub factory : List (Bytes × Builder)

-- CreatorMessage()
unfoldable pub empty_creator : CreatorMessage
empty_creator = record { factory = [] }

unfoldable pub caught : Outcome Message → Option Message
caught (returns m) = some m
caught (throws e) = none

unfoldable pub build : Option Builder → Bytes → Transaction → Value → Option Message
unfolding caught
build none t x jv = none
build (some f) t x jv = caught (f t x jv)

-- CreatorMessage::createMessage; `none` is nullptr.
unfoldable pub create_message : CreatorMessage → Bytes → Transaction → Value → Option Message
unfolding lookup build
create_message c t x jv = build (lookup t c.factory) t x jv

-- CreatorMessage::addMessageOnMap: a builder that was there is replaced.
unfoldable pub add_message_on_map : CreatorMessage → Bytes → Builder → CreatorMessage × Bool
unfolding insert
add_message_on_map c t f = (record { factory = insert t f c.factory }, true)

-- MessageHandler(): the three builders. `memory` is what the storage of a new message's `int` holds.
unfoldable pub message_handler : (ℕ → ℕ) → ℤ → CreatorMessage
unfolding add_message_on_map empty_creator
message_handler narrow memory =
    let c1 = (add_message_on_map empty_creator signal_name (signal_from narrow memory)).0 in
    let c2 = (add_message_on_map c1 information_name (information_from memory)).0 in
    (add_message_on_map c2 raw_name raw_from).0

module _ (platform : Platform) where
  open platform use {parse, narrow, widen}

  -- What MessageHandler::parse does with the parser's result.
  unfoldable pub create_parsed :
      CreatorMessage → TransportMessage → Parsed → Logged (Option Message)
  unfolding create_message check_error is_error
  create_parsed c t (parsed jv) = record {
    result = create_message c t.type t.transaction jv;
    logged = (check_error success (lit "MessageHandler::parse" ∷ []) false).logged;
  }
  create_parsed c t (failed error) =
      let seen = (check_error error (lit "MessageHandler::parse" ∷ []) false).logged in
      if is_error error
      then record { result = none; logged = seen }
      else record { result = create_message c t.type t.transaction Value.null; logged = seen }

  -- MessageHandler::parse
  unfoldable pub parse_message : CreatorMessage → TransportMessage → Logged (Option Message)
  unfolding create_parsed
  parse_message c t = create_parsed c t (parse t.payload)

  -- MessageHandler::serialize; `memory` is what the transaction of an empty TransportMessage holds.
  unfoldable pub serialize_message : Transaction → Option Message → TransportMessage
  unfolding type_of transaction_of serialize empty_message
  serialize_message memory none = empty_message memory
  serialize_message memory (some m) = record {
    type = type_of m;
    transaction = transaction_of m;
    payload = platform.serialize (serialize widen m);
  }
