-- ===== src/Network.antt =====
-- What the program uses of Boost.Asio: a parameter of the model. A call on a socket returns what the
-- library reports and the socket after it; an asynchronous call is the same with its completion
-- handler run on the report.
use network_application.Base.{ℕ, ◌≡◌, Bytes, Bool, false, ◌++◌, length}
use network_application.Errors.Codes.{Code, success}

-- enum class IOMode
pub data IoMode : Type 0 where
  sync async : IoMode

-- tcp::endpoint
pub record Endpoint : Type 0 where
  pub address : Bytes
  pub port : ℕ

-- The report of boost::asio::read into buffers of a fixed total size.
pub record Received (Socket : Type 0) : Type 0 where
  pub bytes : Bytes
  pub code : Code
  pub socket : Socket

pub record Reported (Socket : Type 0) : Type 0 where
  pub code : Code
  pub socket : Socket

-- `Delivers s b`: the next bytes that arrive on `s` are `b`.
pub record Asio : Type 1 where
  pub Socket : Type 0
  pub is_open : Socket → Bool
  pub read : Socket → ℕ → Received Socket
  pub write : Socket → Bytes → Reported Socket
  pub connect : Socket → Endpoint → Reported Socket
  pub shutdown : Socket → Reported Socket
  pub close : Socket → Reported Socket
  pub Delivers : Socket → Bytes → Type 0
  pub read-bytes :
      (s : Socket) (b rest : Bytes) → Delivers s (b ++ rest) → (read s (length b)).bytes ≡ b
  pub read-code :
      (s : Socket) (b rest : Bytes) → Delivers s (b ++ rest) → (read s (length b)).code ≡ success
  pub read-rest :
      (s : Socket) (b rest : Bytes)
      → Delivers s (b ++ rest)
      → Delivers (read s (length b)).socket rest
  pub is_open-close : (s : Socket) → is_open (close s).socket ≡ false
  pub length-read : (s : Socket) (n : ℕ) → (read s n).code ≡ success → length (read s n).bytes ≡ n
