-- ===== src/Examples/Messages.antt =====
-- The theorems on messages and their factory at concrete inputs.
use network_application.Base.{◌≡◌, refl, ◌∷◌, [], some, ℤ, to_int32, arith, str_eq, pos}
use network_application.Base.Outcome.{returns}
use network_application.Base.Table.{bytes_eq}
use network_application.Json.{normalise}
use network_application.Message.{
  Message, signal, information, request, response, tests, failure, signal_name, information_name,
  set_type_transaction, base, type_of, transaction_of,
}
use network_application.Message.Members.{member_type, member_transaction, members-serialize}
use network_application.Message.Serialize.{serialize}
use network_application.MessageHandler.{parse_message, serialize_message, message_handler}
use network_application.MessageHandler.Bounds.{Within, parse_message-Within}
use network_application.MessageHandler.RoundTrip.{parse-serialize_response, parse-serialize_other}
use network_application.Examples.Codec.{codec, keep}

-- Two samples at 5000.
abbrev two_samples : Message
two_samples =
    signal signal_name response (pos 5000)
      (record { re = 1; im = 2 } ∷ record { re = 3; im = 4 } ∷ [])

parse-serialize_response_example :
    (parse_message codec
      (message_handler keep (pos 0))
      (serialize_message codec request (some two_samples))).result
    ≡ some two_samples
parse-serialize_response_example =
    parse-serialize_response codec (pos 0) request two_samples
      (refl, omega arith, ((refl, refl), ((refl, refl), tt))) tt

parse-serialize_other_example :
    (parse_message codec
      (message_handler keep (pos 7))
      (serialize_message codec failure (some (base information_name request)))).result
    ≡ some (information information_name request (pos 7))
unfolding transaction_of type_of str_eq
parse-serialize_other_example =
    parse-serialize_other codec (pos 7) failure (base information_name request) (ground arith) tt

members-serialize_example :
    (member_type (normalise keep (serialize keep (base signal_name tests))) ≡ returns signal_name)
    × (z : ℤ) × (member_transaction (normalise keep (serialize keep (base signal_name tests)))
        ≡ returns z)
    × (set_type_transaction (to_int32 z) ≡ failure)
unfolding type_of
members-serialize_example = members-serialize keep keep (base signal_name tests)

parse_message-Within_example :
    Within
      (parse_message codec
        (message_handler keep (pos 7))
        (serialize_message codec request (some two_samples))).result
parse_message-Within_example =
    parse_message-Within codec (pos 7) (serialize_message codec request (some two_samples))
      (omega arith)
