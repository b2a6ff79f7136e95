-- ===== src/MessageHandler/RoundTrip.antt =====
-- parse after serialize: a response of each class comes back as it was, and a request comes back as
-- an object of its type's class.
use network_application.Base.{
  ◌≡◌, ◌<◌, refl, ap, ◌∙◌, ℤ, Bytes, Option, none, some, All, IsInt32, str_eq, if◌then◌else◌, ◌≢◌,
  Bool-cases, [], ◌∷◌, inl, inr,
}
use network_application.Json
use network_application.Json.{Platform}
use network_application.Message.{
  Transaction, response, Message, signal, information, raw, type_of, transaction_of, signal_name,
  information_name, raw_name,
}
use network_application.Message.Serialize.{serialize}
use network_application.Message.FromJson.{signal_from, information_from, raw_from}
use network_application.Message.RoundTrip.{
  Survives, signal_from-serialize, information_from-serialize, raw_from-serialize,
}
use network_application.MessageHandler.{
  message_handler, create_message, parse_message, serialize_message, caught,
}

module _ (platform : Platform) where
  open platform use {narrow, widen, reread, Printable, parse-serialize}

  -- A response whose type is its class's name, whose numbers fit and whose floats survive the text.
  abbrev pub IsResponse : Message → Type 0
  IsResponse (signal t response freq samples) =
      (t ≡ signal_name) × IsInt32 freq × All (Survives reread widen narrow) samples
  IsResponse (information t response cores) = (t ≡ information_name) × IsInt32 cores
  IsResponse (raw t response bytes) = (t ≡ raw_name) × All (λ b. b < 256) bytes
  IsResponse _ = ⊥

  -- A printed message is created from its re-read tree.
  parse_message-serialize_message :
      (memory : ℤ) (spare : Transaction) (m : Message)
      → Printable (serialize widen m)
      → (parse_message platform
          (message_handler narrow memory)
          (serialize_message platform spare (some m))).result
        ≡ create_message
            (message_handler narrow memory)
            (type_of m)
            (transaction_of m)
            (Json.normalise reread (serialize widen m))
  unfolding parse_message serialize_message
  parse_message-serialize_message memory spare m p = rw (parse-serialize _ p)

  create_message-response :
      (memory : ℤ) (m : Message)
      → IsResponse m
      → create_message
          (message_handler narrow memory)
          (type_of m)
          (transaction_of m)
          (Json.normalise reread (serialize widen m))
        ≡ some m
  unfolding create_message message_handler type_of transaction_of str_eq signal_from
      information_from raw_from
  create_message-response memory (signal t response freq samples) h = rw (h.0) (
      ap caught (signal_from-serialize reread widen narrow memory signal_name freq samples h.1 h.2))
  create_message-response memory (information t response cores) h =
      rw (h.0)
        (ap caught (information_from-serialize reread widen memory information_name cores h.1))
  create_message-response memory (raw t response bytes) h =
      rw (h.0) (ap caught (raw_from-serialize reread widen raw_name bytes h.1))
  create_message-response memory _ h = absurd h

  -- parse gives back the very message that serialize was given: type, transaction and contents.
  pub parse-serialize_response :
      (memory : ℤ) (spare : Transaction) (m : Message)
      → IsResponse m
      → Printable (serialize widen m)
      → (parse_message platform
          (message_handler narrow memory)
          (serialize_message platform spare (some m))).result
        ≡ some m
  parse-serialize_response memory spare m h p =
      parse_message-serialize_message memory spare m p ∙ create_message-response memory m h

  -- A message that is no response is built by the constructor of its type, which reads nothing of the
  -- object: its `int` is what the memory held, and its sequence is empty.
  abbrev pub opened : ℤ → Bytes → Transaction → Option Message
  opened memory t x =
      if str_eq signal_name t
      then some (signal t x memory [])
      else if str_eq information_name t
      then some (information t x memory)
      else if str_eq raw_name t
      then some (raw t x [])
      else none

  message_handler_lem :
      (memory : ℤ)
      → message_handler narrow memory ≡ record {
        factory =
            (signal_name, signal_from narrow memory)
            ∷ (information_name, information_from memory)
            ∷ (raw_name, raw_from)
            ∷ [];
      }
  unfolding message_handler str_eq
  message_handler_lem memory = refl

  create_message-opened :
      (memory : ℤ) (t : Bytes) (x : Transaction) (jv : Json.Value)
      → x ≢ response
      → create_message (message_handler narrow memory) t x jv ≡ opened memory t x
  unfolding create_message signal_from information_from raw_from
  create_message-opened memory t response jv h = absurd (h refl)
  create_message-opened memory t _ jv h =
      rw (message_handler_lem memory) (elim (Bool-cases (str_eq signal_name t)) [
        | inl a ↦ rw a
        | inr a ↦ elim (Bool-cases (str_eq information_name t)) [
          | inl b ↦ rw (a, b)
          | inr b ↦ elim (Bool-cases (str_eq raw_name t)) [
            | inl c ↦ rw (a, b, c)
            | inr c ↦ rw (a, b, c)
          ]
        ]
      ])

  -- A message of another transaction comes back, whatever its class, as the object that its type's
  -- constructor opens, or as nullptr where the type is none of the three registered ones.
  pub parse-serialize_other :
      (memory : ℤ) (spare : Transaction) (m : Message)
      → transaction_of m ≢ response
      → Printable (serialize widen m)
      → (parse_message platform
          (message_handler narrow memory)
          (serialize_message platform spare (some m))).result
        ≡ opened memory (type_of m) (transaction_of m)
  parse-serialize_other memory spare m h p =
      parse_message-serialize_message memory spare m p
      ∙ create_message-opened memory (type_of m) (transaction_of m) _ h
