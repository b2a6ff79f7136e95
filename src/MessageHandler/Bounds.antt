-- ===== src/MessageHandler/Bounds.antt =====
-- The ranges of what the factory builds, whatever the JSON holds.
use network_application.Base.{
  ℕ, ℤ, ◌<◌, Bytes, pos, negsuc, str_eq, List, [], ◌∷◌, Option, none, some, All, IsInt32,
  to_int32-IsInt32, to_uint8, Bool-cases, inl, inr, arith,
}
use network_application.Base.Outcome.{Outcome, returns, throws, ◌>>=◌, catch}
use network_application.Base.Table.{lookup, insert, bytes_eq}
use network_application.Json.{
  Value, Items, nil, cons, Platform, Parsed, parsed, failed, at_key, as_int64, as_array,
}
use network_application.Errors.Codes.{is_error}
use network_application.Message.{
  Transaction, request, response, tests, failure, Message, base, signal, information, raw,
  TransportMessage, central_freq_key, signal_key, number_core_key, data_key,
}
use network_application.Message.FromJson.{
  read_signal, signal_from, information_from, raw_from, read_data,
}
use network_application.MessageHandler.{
  Builder, CreatorMessage, add_message_on_map, empty_creator, caught, build, create_message,
  message_handler, create_parsed, parse_message,
}

-- The members of a message fit their C++ types.
abbrev pub InRange : Message → Type 0
InRange (base t x) = Unit
InRange (signal t x f s) = IsInt32 f
InRange (information t x n) = IsInt32 n
InRange (raw t x b) = All (λ b. b < 256) b

-- What a call returns satisfies a predicate.
abbrev Returns : {A : Type 0} → (A → Type 0) → Outcome A → Type 0
Returns P (returns a) = P a
Returns P (throws e) = Unit

Returns->>= :
    {A B : Type 0} (P : B → Type 0) (o : Outcome A) (f : A → Outcome B)
    → ((a : A) → Returns P (f a))
    → Returns P (o >>= f)
Returns->>= P (returns a) f h = h a
Returns->>= P (throws e) f h = tt

-- A builder whose messages are in range.
abbrev Bounded : Builder → Type 0
Bounded f = (t : Bytes) (x : Transaction) (jv : Value) → Returns InRange (f t x jv)

read_byte-All :
    (o : Outcome ℤ) (rest : Bytes)
    → All (λ b. b < 256) rest
    → All (λ b. b < 256) (elim o [ returns z ↦ to_uint8 z ∷ rest | throws e ↦ [] ])
unfolding to_uint8
read_byte-All (returns (pos n)) rest h = (omega arith, h)
read_byte-All (returns (negsuc n)) rest h = (omega arith, h)
read_byte-All (throws e) rest h = tt

read_data-All : (xs : Items) → All (λ b. b < 256) (read_data xs)
unfolding read_data
read_data-All nil = tt
read_data-All (cons v rest) = read_byte-All (as_int64 v) (read_data rest) (read_data-All rest)

signal_from-Bounded :
    (narrow : ℕ → ℕ) (memory : ℤ) → IsInt32 memory → Bounded (signal_from narrow memory)
unfolding signal_from
signal_from-Bounded narrow memory h t response jv =
    let P = InRange in
    Returns->>= P (at_key central_freq_key jv >>= as_int64) _ (λ freq.
      Returns->>= P (at_key signal_key jv >>= as_array) _
        (λ items. Returns->>= P (read_signal narrow items) _ (λ samples. to_int32-IsInt32 freq)))
signal_from-Bounded narrow memory h t request jv = h
signal_from-Bounded narrow memory h t tests jv = h
signal_from-Bounded narrow memory h t failure jv = h

information_from-Bounded : (memory : ℤ) → IsInt32 memory → Bounded (information_from memory)
unfolding information_from
information_from-Bounded memory h t response jv =
    Returns->>= InRange (at_key number_core_key jv) _
      (λ v. Returns->>= InRange (as_int64 v) _ (λ cores. to_int32-IsInt32 cores))
information_from-Bounded memory h t request jv = h
information_from-Bounded memory h t tests jv = h
information_from-Bounded memory h t failure jv = h

catch-All : (o : Outcome Bytes) → Returns (All (λ b. b < 256)) o → All (λ b. b < 256) (catch o [])
catch-All (returns b) h = h
catch-All (throws e) h = tt

raw_from-Bounded : Bounded raw_from
unfolding raw_from
raw_from-Bounded t response jv =
    let P = All (λ b. b < 256) in
    catch-All (do v ← at_key data_key jv; items ← as_array v; returns (read_data items))
      (Returns->>= P (at_key data_key jv) _
        (λ v. Returns->>= P (as_array v) _ (λ items. read_data-All items)))
raw_from-Bounded t request jv = tt
raw_from-Bounded t tests jv = tt
raw_from-Bounded t failure jv = tt

-- What a call of the factory makes is in range, or it is nullptr.
abbrev pub Within : Option Message → Type 0
Within none = Unit
Within (some m) = InRange m

caught-Within : (o : Outcome Message) → Returns InRange o → Within (caught o)
unfolding caught
caught-Within (returns m) h = h
caught-Within (throws e) h = tt

create_message-Within :
    (fs : List (Bytes × Builder)) (t : Bytes) (x : Transaction) (jv : Value)
    → All (λ (p : Bytes × Builder). Bounded p.1) fs
    → Within (create_message (record { factory = fs }) t x jv)
unfolding create_message build lookup
create_message-Within [] t x jv h = tt
create_message-Within ((k, f) ∷ fs) t x jv h = elim (Bool-cases (str_eq k t)) [
  | inl same ↦ rw same (caught-Within (f t x jv) (h.0 t x jv))
  | inr differs ↦ rw differs (create_message-Within fs t x jv h.1)
]

message_handler-Bounded :
    (narrow : ℕ → ℕ) (memory : ℤ)
    → IsInt32 memory
    → All (λ (p : Bytes × Builder). Bounded p.1) (message_handler narrow memory).factory
unfolding message_handler add_message_on_map empty_creator insert str_eq
message_handler-Bounded narrow memory h = (
  signal_from-Bounded narrow memory h,
  (information_from-Bounded memory h, (raw_from-Bounded, tt)),
)

module _ (platform : Platform) where
  create_parsed-Within :
      (c : CreatorMessage) (t : TransportMessage) (p : Parsed)
      → ((x : Transaction) (jv : Value) → Within (create_message c t.type x jv))
      → Within (create_parsed platform c t p).result
  unfolding create_parsed
  create_parsed-Within c t (parsed jv) h = h t.transaction jv
  create_parsed-Within c t (failed e) h = elim (Bool-cases (is_error e)) [
    | inl bad ↦ rw bad tt
    | inr ok ↦ rw ok (h t.transaction Value.null)
  ]

  -- Whatever text arrives, what the three builders make of it is nullptr or a message whose `int` fits 32
  -- bits and whose bytes are below 256, if the memory of a new message's `int` holds an `int`.
  pub parse_message-Within :
      (memory : ℤ) (t : TransportMessage)
      → IsInt32 memory
      → Within (parse_message platform (message_handler platform.narrow memory) t).result
  unfolding parse_message
  parse_message-Within memory t h =
      create_parsed-Within (message_handler platform.narrow memory) t (platform.parse t.payload)
        (λ x jv.
          create_message-Within (message_handler platform.narrow memory).factory t.type x jv
            (message_handler-Bounded platform.narrow memory h))
