-- ===== src/Examples/Wire.antt =====
-- A concrete `Asio`: a socket is whether it is open and the bytes that still arrive on it, after which
-- the peer has closed.
use network_application.Base.{
  ℕ, zero, suc, ◌≡◌, refl, Bool, true, false, Bytes, ◌++◌, length, take, drop, take-append,
  drop-append, length-append, length-take, ltb, if◌then◌else◌, arith, ap,
}
use network_application.Errors.Codes.{success, eof, bad_descriptor, other}
use network_application.Network.{Asio, Endpoint, Received, Reported}

pub record Wire : Type 0 where
  pub opened : Bool
  pub incoming : Bytes

unfoldable pub wire_read : Wire → ℕ → Received Wire
wire_read s n = record {
  bytes = take n s.incoming;
  code = if ltb (length s.incoming) n then eof else success;
  socket = record s { incoming = drop n s.incoming };
}

unfoldable pub wire_write : Wire → Bytes → Reported Wire
wire_write s b = record { code = if s.opened then success else bad_descriptor; socket = s }

-- Port 0 times out.
unfoldable pub wire_connect : Wire → Endpoint → Reported Wire
wire_connect s e = elim e.port [
  | zero ↦ record { code = other 110; socket = record s { opened = true } }
  | suc n ↦ record { code = success; socket = record s { opened = true } }
]

unfoldable pub wire_close : Wire → Reported Wire
wire_close s = record { code = success; socket = record s { opened = false } }

pub wire_read-bytes :
    (s : Wire) (b rest : Bytes) → s.incoming ≡ b ++ rest → (wire_read s (length b)).bytes ≡ b
unfolding wire_read
wire_read-bytes s b rest h = rw h (take-append b rest)

pub wire_read-code :
    (s : Wire) (b rest : Bytes) → s.incoming ≡ b ++ rest → (wire_read s (length b)).code ≡ success
unfolding wire_read
wire_read-code s b rest h = ground (arith, ap length h, length-append b rest)

pub wire_read-rest :
    (s : Wire) (b rest : Bytes)
    → s.incoming ≡ b ++ rest
    → (wire_read s (length b)).socket.incoming ≡ rest
unfolding wire_read
wire_read-rest s b rest h = rw h (drop-append b rest)

pub length-wire_read :
    (s : Wire) (n : ℕ) → (wire_read s n).code ≡ success → length (wire_read s n).bytes ≡ n
unfolding wire_read
length-wire_read s n h = ground (arith, length-take n s.incoming)

pub wire_close-closed : (s : Wire) → (wire_close s).socket.opened ≡ false
unfolding wire_close
wire_close-closed s = refl

abbrev pub network : Asio
network = record {
  Socket = Wire;
  is_open = λ s. s.opened;
  read = wire_read;
  write = wire_write;
  connect = wire_connect;
  shutdown = λ s. record { code = success; socket = s };
  close = wire_close;
  Delivers = λ s b. s.incoming ≡ b;
  read-bytes = wire_read-bytes;
  read-code = wire_read-code;
  read-rest = wire_read-rest;
  is_open-close = wire_close-closed;
  length-read = length-wire_read;
}

-- A socket on which `b` arrives.
abbrev pub arriving : Bytes → Wire
arriving b = record { opened = true; incoming = b }
