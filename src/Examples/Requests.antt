-- ===== src/Examples/Requests.antt =====
-- The theorems on requests and answers at concrete draws.
use network_application.Base.{◌≡◌, refl, some, pos, inl, inr, arith}
use network_application.Message.{
  base, request, response, type_of, transaction_of, signal_name, information_name,
}
use network_application.MessageHandler.RoundTrip.{IsResponse}
use network_application.RequestResponse.{Draws, create_request, create_response, unknown}
use network_application.RequestResponse.Laws.{
  InRange, through, create_response-answers, create_response-create_request,
}
use network_application.Examples.Codec.{codec}

abbrev draws : Draws
draws = record { dist_n = 5; dist_f = λ k. k; dist = 3000 }

draws-InRange : InRange draws
draws-InRange = record { n_range = omega arith; range = omega arith }

create_response-create_request_example :
    (through codec
        (pos 7)
        request
        (create_response draws
          (through codec (pos 0) request (create_request signal_name).result)).result
      ≡ some
          (create_response draws
            (through codec (pos 0) request (create_request signal_name).result)).result)
    × IsResponse codec
        (create_response draws
          (through codec (pos 0) request (create_request signal_name).result)).result
    × (type_of
          (create_response draws
            (through codec (pos 0) request (create_request signal_name).result)).result
        ≡ signal_name)
create_response-create_request_example =
    create_response-create_request codec draws (pos 0) (pos 7) request signal_name (inl refl)
      draws-InRange (λ k. refl) tt tt

create_response-answers_example :
    ((create_response draws (some (base signal_name response))).result ≡ unknown)
    × IsResponse codec (create_response draws (some (base information_name request))).result
    × (type_of (create_response draws (some (base information_name request))).result
        ≡ information_name)
unfolding type_of transaction_of
create_response-answers_example =
    create_response-answers codec draws (some (base signal_name response))
      (base information_name request) (inl refl) (ground arith) (inr refl) draws-InRange (λ k. refl)
