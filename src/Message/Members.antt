-- ===== src/Message/Members.antt =====
-- What a serialized message shows of its type and its transaction (the members that the transport
-- reads back), for every class and every transaction.
use network_application.Base.{to_int32, ℕ, ◌≡◌, refl, Bytes, ℤ}
use network_application.Base.Outcome.{Outcome, returns, ◌>>=◌}
use network_application.Json.{Value, normalise, at_key, as_string, as_int64}
use network_application.Message.{
  Transaction, request, response, tests, failure, Message, base, signal, information, raw, type_of,
  set_type_transaction, type_key, transaction_key,
}
use network_application.Message.Serialize.{serialize}

-- json_val.at("type").as_string()
unfoldable pub member_type : Value → Outcome Bytes
unfolding at_key as_string
member_type v = do t ← at_key type_key v; as_string t

-- json_val.at("transaction").as_int64()
unfoldable pub member_transaction : Value → Outcome ℤ
unfolding at_key as_int64
member_transaction v = do t ← at_key transaction_key v; as_int64 t

-- The transaction that a receiver sees: Tests survives in an InformationMessage only.
abbrev tests_lost : Transaction → Transaction
tests_lost request = request
tests_lost response = response
tests_lost _ = failure

abbrev pub seen_transaction : Message → Transaction
seen_transaction (base t x) = tests_lost x
seen_transaction (signal t x f s) = tests_lost x
seen_transaction (information t x n) = x
seen_transaction (raw t x b) = tests_lost x

module _ (reread widen : ℕ → ℕ) where
  -- The printed and re-read object of a message has the message's type.
  pub member_type-serialize :
      (m : Message) → member_type (normalise reread (serialize widen m)) ≡ returns (type_of m)
  unfolding member_type serialize normalise type_of
  member_type-serialize (base t x) = refl
  member_type-serialize (signal t request f s) = refl
  member_type-serialize (signal t response f s) = refl
  member_type-serialize (signal t tests f s) = refl
  member_type-serialize (signal t failure f s) = refl
  member_type-serialize (information t request n) = refl
  member_type-serialize (information t response n) = refl
  member_type-serialize (information t tests n) = refl
  member_type-serialize (information t failure n) = refl
  member_type-serialize (raw t x b) = refl

  -- Its transaction member is a number that reads as the transaction, but for a lost Tests.
  pub member_transaction-serialize :
      (m : Message)
      → (z : ℤ) × (member_transaction (normalise reread (serialize widen m)) ≡ returns z)
        × (set_type_transaction (to_int32 z) ≡ seen_transaction m)
  unfolding member_transaction serialize normalise set_type_transaction to_int32
  member_transaction-serialize (base t request) = (_, refl, refl)
  member_transaction-serialize (base t response) = (_, refl, refl)
  member_transaction-serialize (base t tests) = (_, refl, refl)
  member_transaction-serialize (base t failure) = (_, refl, refl)
  member_transaction-serialize (signal t request f s) = (_, refl, refl)
  member_transaction-serialize (signal t response f s) = (_, refl, refl)
  member_transaction-serialize (signal t tests f s) = (_, refl, refl)
  member_transaction-serialize (signal t failure f s) = (_, refl, refl)
  member_transaction-serialize (information t request n) = (_, refl, refl)
  member_transaction-serialize (information t response n) = (_, refl, refl)
  member_transaction-serialize (information t tests n) = (_, refl, refl)
  member_transaction-serialize (information t failure n) = (_, refl, refl)
  member_transaction-serialize (raw t request b) = (_, refl, refl)
  member_transaction-serialize (raw t response b) = (_, refl, refl)
  member_transaction-serialize (raw t tests b) = (_, refl, refl)
  member_transaction-serialize (raw t failure b) = (_, refl, refl)

  -- The printed and re-read object of a message has the message's type, and a transaction member that
  -- reads as the message's transaction, but for Tests, which reads as Error in every class but
  -- InformationMessage.
  pub members-serialize :
      (m : Message)
      → (member_type (normalise reread (serialize widen m)) ≡ returns (type_of m))
        × (z : ℤ) × (member_transaction (normalise reread (serialize widen m)) ≡ returns z)
        × (set_type_transaction (to_int32 z) ≡ seen_transaction m)
  members-serialize m =
      let t = member_transaction-serialize m in (member_type-serialize m, t.0, t.1, t.2)
