-- ===== src/RequestResponse.antt =====
-- core/request_response_handler: requests, and the answers with random data
-- (request_response_handler.cpp). The random numbers that a call draws are a parameter.
pub mod Laws
use network_application.Base.{
  ℕ, zero, suc, ◌+◌, ◌*◌, pos, Bytes, str_eq, List, [], ◌∷◌, Option, none, some, if◌then◌else◌,
}
use network_application.Errors.{Logged}
use network_application.Logger.{LogLevel, debug, warn, error, Part, lit, bytes, Entry}
use network_application.Message.{
  Transaction, request, response, tests, failure, Sample, Message, base, signal, information,
  type_of, transaction_of, signal_name, information_name, unknown_name,
}

-- The draws: from the distributions on 5 to 20, on 3000 to 10000, and of floats by their number.
pub record Draws : Type 0 where
  pub dist_n : ℕ
  pub dist_f : ℕ → ℕ
  pub dist : ℕ

abbrev entry : LogLevel → List Part → List Part → Entry
entry level function text = record { level = level; function = function; text = text }

abbrev of_response : LogLevel → List Part → Entry
of_response level text = entry level (lit "RequestResponseHandler::createResponse" ∷ []) text

abbrev type_text : Bytes → List Part
type_text t = lit "Message.type = [ " ∷ bytes t ∷ lit " ]" ∷ []

-- createRequest
unfoldable pub create_request : Bytes → Logged Message
create_request t = record {
  result = base t request;
  logged = entry debug (lit "RequestResponseHandler::createRequest" ∷ []) (type_text t) ∷ [];
}

-- The loop that fills fake_data, from the round `i` on.
unfoldable pub fake_data : (ℕ → ℕ) → ℕ → ℕ → List Sample
fake_data dist_f i zero = []
fake_data dist_f i (suc n) =
    record { re = dist_f (2 * i); im = dist_f (2 * i + 1) } ∷ fake_data dist_f (i + 1) n

abbrev pub unknown : Message
unknown = base unknown_name failure

-- createResponse from the comparison of the type with "signal".
unfoldable pub answer : Draws → Bytes → Logged Message
unfolding str_eq fake_data
answer draws t =
    if str_eq t signal_name
    then record {
      result = signal signal_name response (pos draws.dist) (fake_data draws.dist_f 0 draws.dist_n);
      logged = of_response debug (lit "Code = [ Success ]" ∷ []) ∷ [];
    }
    else if str_eq t information_name
    then record { result = information information_name response (pos draws.dist_n); logged = [] }
    else record { result = unknown; logged = of_response warn (lit "Code = [ Success ]" ∷ []) ∷ [] }

-- createResponse on a message, by its transaction.
unfoldable pub respond : Draws → Transaction → Bytes → Logged Message
unfolding answer
respond draws response t = record {
  result = unknown;
  logged = of_response warn (lit "Message.transaction = [ Response ]" ∷ []) ∷ [];
}
respond draws _ t = record {
  result = (answer draws t).result;
  logged =
      of_response debug (lit "Message.transaction = [ Request ]" ∷ [])
      ∷ of_response debug (type_text t)
      ∷ (answer draws t).logged;
}

-- createResponse; `none` is nullptr.
unfoldable pub create_response : Draws → Option Message → Logged Message
unfolding respond type_of transaction_of
create_response draws none = record {
  result = unknown;
  logged = of_response error (lit "Message = [ nullptr ]" ∷ []) ∷ [];
}
create_response draws (some m) = respond draws (transaction_of m) (type_of m)
