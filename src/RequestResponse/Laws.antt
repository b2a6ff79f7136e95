-- ===== src/RequestResponse/Laws.antt =====
-- What a request is answered with, and the way of both through the JSON text.
use network_application.Base.{
  ℕ, ℤ, zero, suc, ◌+◌, ◌*◌, ◌≤◌, ◌≡◌, ◌≢◌, refl, Bytes, str_eq, str_eq_iff, Option, none, some,
  All, ◌⊎◌, inl, inr, arith,
}
use network_application.Json.{Platform}
use network_application.Message.{
  request, response, Transaction, Message, base, type_of, transaction_of, signal_name,
  information_name,
}
use network_application.Message.RoundTrip.{Survives}
use network_application.Message.Serialize.{serialize}
use network_application.MessageHandler.{message_handler, parse_message, serialize_message}
use network_application.MessageHandler.RoundTrip.{
  IsResponse, opened, parse-serialize_response, parse-serialize_other,
}
use network_application.RequestResponse.{
  Draws, create_request, fake_data, unknown, answer, respond, create_response,
}

-- The draws lie in their distributions' ranges.
pub record InRange (d : Draws) : Type 0 where
  pub n_range : (5 ≤ d.dist_n) × (d.dist_n ≤ 20)
  pub range : (3000 ≤ d.dist) × (d.dist ≤ 10000)

respond_lem :
    (draws : Draws) (x : Transaction) (t : Bytes)
    → x ≢ response
    → (respond draws x t).result ≡ (answer draws t).result
unfolding respond
respond_lem draws response t h = absurd (h refl)
respond_lem draws _ t h = refl

answer-unknown :
    (draws : Draws) (t : Bytes)
    → t ≢ signal_name
    → t ≢ information_name
    → (answer draws t).result ≡ unknown
unfolding answer
answer-unknown draws t h k = ground (arith, str_eq_iff t signal_name, str_eq_iff t information_name)

respond-unknown :
    (draws : Draws) (x : Transaction) (t : Bytes)
    → (x ≡ response) ⊎ ((t ≢ signal_name) × (t ≢ information_name))
    → (respond draws x t).result ≡ unknown
unfolding respond
respond-unknown draws x t (inl h) = rw h refl
respond-unknown draws response t (inr h) = refl
respond-unknown draws _ t (inr h) = answer-unknown draws t h.0 h.1

-- nullptr, a response, or a type that has no answer.
abbrev pub Unanswerable : Option Message → Type 0
Unanswerable none = Unit
Unanswerable (some m) =
    (transaction_of m ≡ response) ⊎ ((type_of m ≢ signal_name) × (type_of m ≢ information_name))

-- createResponse answers "unknown" with the transaction Error to nullptr, to a response and to a type
-- other than signal and information.
pub create_response-unknown :
    (draws : Draws) (m : Option Message)
    → Unanswerable m
    → (create_response draws m).result ≡ unknown
unfolding create_response
create_response-unknown draws none h = refl
create_response-unknown draws (some m) h = respond-unknown draws (transaction_of m) (type_of m) h

module _ (platform : Platform) where
  open platform use {narrow, widen, reread, Printable}

  fake_data-Survives :
      (dist_f : ℕ → ℕ) (i n : ℕ)
      → ((k : ℕ) → narrow (reread (widen (dist_f k))) ≡ dist_f k)
      → All (Survives reread widen narrow) (fake_data dist_f i n)
  unfolding fake_data
  fake_data-Survives dist_f i zero h = tt
  fake_data-Survives dist_f i (suc n) h =
      ((h (2 * i), h (2 * i + 1)), fake_data-Survives dist_f (i + 1) n h)

  -- A type that has an answer.
  abbrev pub Answerable : Bytes → Type 0
  Answerable t = (t ≡ signal_name) ⊎ (t ≡ information_name)

  pub answer-IsResponse :
      (draws : Draws) (t : Bytes)
      → Answerable t
      → InRange draws
      → ((k : ℕ) → narrow (reread (widen (draws.dist_f k))) ≡ draws.dist_f k)
      → IsResponse platform (answer draws t).result × (type_of (answer draws t).result ≡ t)
  unfolding answer str_eq type_of
  answer-IsResponse draws t (inl h) range survive =
      rw h ((refl, omega arith, fake_data-Survives draws.dist_f 0 draws.dist_n survive), refl)
  answer-IsResponse draws t (inr h) range survive = rw h ((refl, omega arith), refl)

  -- createResponse answers a message of type signal or information that is no response with a response
  -- of that type, whose number fits an int32, if the draws are in range and floats survive the text.
  pub create_response-IsResponse :
      (draws : Draws) (m : Message)
      → transaction_of m ≢ response
      → Answerable (type_of m)
      → InRange draws
      → ((k : ℕ) → narrow (reread (widen (draws.dist_f k))) ≡ draws.dist_f k)
      → IsResponse platform (create_response draws (some m)).result
        × (type_of (create_response draws (some m)).result ≡ type_of m)
  unfolding create_response
  create_response-IsResponse draws m ask t range survive =
      rw (respond_lem draws (transaction_of m) (type_of m) ask)
        (answer-IsResponse draws (type_of m) t range survive)

  -- createResponse answers unknown with the transaction Error to nullptr, to a response and to a type
  -- other than signal and information. It answers every other message with a response of its type whose
  -- number fits an int32, if the draws are in range and floats survive the text.
  pub create_response-answers :
      (draws : Draws) (n : Option Message) (m : Message)
      → Unanswerable n
      → transaction_of m ≢ response
      → Answerable (type_of m)
      → InRange draws
      → ((k : ℕ) → narrow (reread (widen (draws.dist_f k))) ≡ draws.dist_f k)
      → ((create_response draws n).result ≡ unknown)
        × IsResponse platform (create_response draws (some m)).result
        × (type_of (create_response draws (some m)).result ≡ type_of m)
  create_response-answers draws n m lacks ask t range survive =
      let r = create_response-IsResponse draws m ask t range survive in
      (create_response-unknown draws n lacks, r.0, r.1)

  -- What is left of a message after serialize and parse.
  abbrev pub through : ℤ → Transaction → Message → Option Message
  through memory spare m =
      (parse_message platform (message_handler narrow memory)
        (serialize_message platform spare (some m))).result

  pub respond-opened :
      (draws : Draws) (memory : ℤ) (t : Bytes)
      → Answerable t
      → (create_response draws (opened platform memory t request)).result ≡ (answer draws t).result
  unfolding create_response respond str_eq type_of transaction_of
  respond-opened draws memory t (inl h) = rw h refl
  respond-opened draws memory t (inr h) = rw h refl

  -- A whole exchange: a request for signal or information is serialized by the client and parsed by
  -- the server; the server's answer to what it parsed is serialized and parsed by the client, who gets
  -- that answer unchanged: a response of the requested type.
  pub create_response-create_request :
      (draws : Draws) (memory memory' : ℤ) (spare : Transaction) (t : Bytes)
      → Answerable t
      → InRange draws
      → ((k : ℕ) → narrow (reread (widen (draws.dist_f k))) ≡ draws.dist_f k)
      → Printable (serialize widen (create_request t).result)
      → let got = through memory spare (create_request t).result in
        let reply = (create_response draws got).result in
        Printable (serialize widen reply)
        → (through memory' spare reply ≡ some reply)
          × IsResponse platform reply
          × (type_of reply ≡ t)
  create_response-create_request draws memory memory' spare t a range survive prints prints' =
      let got = through memory spare (create_request t).result in
      let reply = (create_response draws got).result in
      let parsed : got ≡ opened platform memory t request =
        unfold create_request type_of transaction_of in
        parse-serialize_other platform memory spare (base t request) (ground arith) prints in
      let same : reply ≡ (answer draws t).result = rw parsed (respond-opened draws memory t a) in
      let is : IsResponse platform reply × (type_of reply ≡ t) =
        rw same (answer-IsResponse draws t a range survive) in
      (parse-serialize_response platform memory' spare reply is.0 prints', is.0, is.1)
