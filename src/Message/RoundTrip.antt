-- ===== src/Message/RoundTrip.antt =====
-- Reading back a serialized response: each class's constructor from JSON inverts its `serialize`.
use network_application.Base.{
  ℕ, ◌≡◌, ◌<◌, refl, List, [], ◌∷◌, ℤ, Bytes, All, IsInt32, to_int32_id, to_uint8-pos, arith,
}
use network_application.Base.Outcome.{returns}
use network_application.Json.{normalise, normalise_items}
use network_application.Message.{response, Sample, signal, information, raw}
use network_application.Message.Serialize.{serialize, signal_items, byte_items}
use network_application.Message.FromJson.{
  read_signal, read_data, signal_from, information_from, raw_from,
}

read_data-byte_items :
    (reread : ℕ → ℕ) (bytes : Bytes)
    → All (λ b. b < 256) bytes
    → read_data (normalise_items reread (byte_items bytes)) ≡ bytes
unfolding read_data normalise byte_items
read_data-byte_items reread [] h = refl
read_data-byte_items reread (b ∷ bs) h =
    ground (arith, to_uint8-pos b, read_data-byte_items reread bs)

module _ (reread widen narrow : ℕ → ℕ) where
  -- A float that the printer and the parser give back: every finite one, by their documentation.
  abbrev pub Survives : Sample → Type 0
  Survives c = (narrow (reread (widen c.re)) ≡ c.re) × (narrow (reread (widen c.im)) ≡ c.im)

  read_signal-signal_items :
      (samples : List Sample)
      → All Survives samples
      → read_signal narrow (normalise_items reread (signal_items widen samples)) ≡ returns samples
  unfolding read_signal normalise signal_items
  read_signal-signal_items [] h = refl
  read_signal-signal_items (c ∷ cs) h = rw (read_signal-signal_items cs h.1, h.0.0, h.0.1)

  pub signal_from-serialize :
      (memory : ℤ) (t : Bytes) (freq : ℤ) (samples : List Sample)
      → IsInt32 freq
      → All Survives samples
      → signal_from narrow memory t response
          (normalise reread (serialize widen (signal t response freq samples)))
        ≡ returns (signal t response freq samples)
  unfolding signal_from normalise serialize
  signal_from-serialize memory t freq samples h s =
      rw (read_signal-signal_items samples s, to_int32_id freq h)

module _ (reread widen : ℕ → ℕ) where
  pub information_from-serialize :
      (memory : ℤ) (t : Bytes) (cores : ℤ)
      → IsInt32 cores
      → information_from memory t response
          (normalise reread (serialize widen (information t response cores)))
        ≡ returns (information t response cores)
  unfolding information_from normalise serialize
  information_from-serialize memory t cores h = rw (to_int32_id cores h)

  pub raw_from-serialize :
      (t : Bytes) (bytes : Bytes)
      → All (λ b. b < 256) bytes
      → raw_from t response (normalise reread (serialize widen (raw t response bytes)))
        ≡ returns (raw t response bytes)
  unfolding raw_from normalise serialize
  raw_from-serialize t bytes h = rw (read_data-byte_items reread bytes h)
