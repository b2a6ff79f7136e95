-- ===== src/Message/FromJson.antt =====
-- The constructors of core/message/lib that read a parsed JSON value.
use network_application.Base.{ℕ, List, [], ◌∷◌, ℤ, Bytes, to_uint8, to_int32}
use network_application.Base.Outcome.{Outcome, returns, throws, ◌>>=◌, catch}
use network_application.Json.{Value, Items, array, nil, cons, at_key, as_int64, as_double, as_array}
use network_application.Message.{
  Transaction, response, Sample, Message, signal, information, raw, central_freq_key, signal_key,
  number_core_key, data_key,
}

-- The loop of SignalMessage: an element that is no array of two is passed over, and a part that is no
-- double throws.
unfoldable pub read_signal : (ℕ → ℕ) → Items → Outcome (List Sample)
unfolding as_double
read_signal narrow nil = returns []
read_signal narrow (cons (array (cons a (cons b nil))) rest) = do
  re ← as_double a
  im ← as_double b
  samples ← read_signal narrow rest
  returns (record { re = narrow re; im = narrow im } ∷ samples)
read_signal narrow (cons _ rest) = read_signal narrow rest

-- SignalMessage(type, transaction, jv): only a response is read. Otherwise `_central_Freq` keeps what
-- the memory held.
unfoldable pub signal_from : (ℕ → ℕ) → ℤ → Bytes → Transaction → Value → Outcome Message
unfolding at_key as_int64 as_array read_signal to_int32
signal_from narrow memory t response jv = do
  freq ← (do v ← at_key central_freq_key jv; as_int64 v)
  items ← (do v ← at_key signal_key jv; as_array v)
  samples ← read_signal narrow items
  returns (signal t response (to_int32 freq) samples)
signal_from narrow memory t x jv = returns (signal t x memory [])

-- InformationMessage(type, transaction, jv)
unfoldable pub information_from : ℤ → Bytes → Transaction → Value → Outcome Message
unfolding at_key as_int64 to_int32
information_from memory t response jv = do
  v ← at_key number_core_key jv
  cores ← as_int64 v
  returns (information t response (to_int32 cores))
information_from memory t x jv = returns (information t x memory)

-- The loop of RawMessage: the first element that is no signed number throws, and the constructor
-- keeps the bytes before it.
unfoldable pub read_data : Items → Bytes
unfolding as_int64 to_uint8
read_data nil = []
read_data (cons v rest) = elim (as_int64 v) [
  | returns z ↦ to_uint8 z ∷ read_data rest
  | throws e ↦ []
]

-- RawMessage(type, transaction, jv): every exception is caught inside.
unfoldable pub raw_from : Bytes → Transaction → Value → Outcome Message
unfolding at_key as_array read_data
raw_from t response jv = returns (
    raw t response
      (catch (do v ← at_key data_key jv; items ← as_array v; returns (read_data items)) []))
raw_from t x jv = returns (raw t x [])
