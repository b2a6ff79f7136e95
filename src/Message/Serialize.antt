-- ===== src/Message/Serialize.antt =====
-- The `serialize` methods of core/message/lib: each class builds its JSON object.
use network_application.Base.{ℕ, List, [], ◌∷◌, ℤ, pos, negsuc, Bytes}
use network_application.Json.{Value, Items, Fields, int64, uint64, double, string, array, object}
use network_application.Json.{nil, cons, end, assign}
use network_application.Message.{
  Transaction, request, response, tests, failure, Sample, Message, base, signal, information, raw,
  type_key, transaction_key, central_freq_key, signal_key, number_core_key, data_key,
}

-- The number of a transaction in Message, SignalMessage and RawMessage: Tests is written as -1.
unfoldable pub transaction_number : Transaction → ℤ
transaction_number request = pos 0
transaction_number response = pos 1
transaction_number _ = negsuc 0

-- The number of a transaction in InformationMessage.
unfoldable pub information_transaction_number : Transaction → ℤ
information_transaction_number request = pos 0
information_transaction_number response = pos 1
information_transaction_number tests = pos 2
information_transaction_number failure = negsuc 0

-- The two members that every class writes first.
unfoldable pub head_fields : Bytes → ℤ → Fields
unfolding assign
head_fields t n = assign transaction_key (int64 n) (assign type_key (string t) end)

-- The array of [real, imag] pairs.
unfoldable pub signal_items : (ℕ → ℕ) → List Sample → Items
signal_items widen [] = nil
signal_items widen (c ∷ cs) =
    cons (array (cons (double (widen c.re)) (cons (double (widen c.im)) nil)))
      (signal_items widen cs)

-- A byte becomes an unsigned JSON number.
unfoldable pub byte_items : Bytes → Items
byte_items [] = nil
byte_items (b ∷ bs) = cons (uint64 b) (byte_items bs)

-- SignalMessage::serialize; the frequency is written in every transaction, the samples in a response.
unfoldable pub serialize_signal : (ℕ → ℕ) → Bytes → Transaction → ℤ → List Sample → Fields
unfolding head_fields transaction_number signal_items
serialize_signal widen t x freq samples =
    let head = assign central_freq_key (int64 freq) (head_fields t (transaction_number x)) in
    elim x [ response ↦ assign signal_key (array (signal_items widen samples)) head | _ ↦ head ]

-- InformationMessage::serialize
unfoldable pub serialize_information : Bytes → Transaction → ℤ → Fields
unfolding head_fields information_transaction_number
serialize_information t x cores =
    let head = head_fields t (information_transaction_number x) in
    elim x [
      | response ↦ assign number_core_key (int64 cores) head
      | tests ↦ assign number_core_key (int64 cores) head
      | _ ↦ head
    ]

-- RawMessage::serialize
unfoldable pub serialize_raw : Bytes → Transaction → Bytes → Fields
unfolding head_fields transaction_number byte_items
serialize_raw t x bytes =
    assign data_key (array (byte_items bytes)) (head_fields t (transaction_number x))

-- The virtual call message->serialize().
unfoldable pub serialize : (ℕ → ℕ) → Message → Value
unfolding serialize_signal serialize_information serialize_raw
serialize widen (base t x) = object (head_fields t (transaction_number x))
serialize widen (signal t x freq samples) = object (serialize_signal widen t x freq samples)
serialize widen (information t x cores) = object (serialize_information t x cores)
serialize widen (raw t x bytes) = object (serialize_raw t x bytes)
