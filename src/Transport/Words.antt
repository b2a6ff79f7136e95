-- ===== src/Transport/Words.antt =====
-- A uint32_t in memory, as boost::asio::buffer(&x, 4) sends and fills it, on a little-endian host.
use network_application.Base.{
  ℕ, ◌+◌, ◌*◌, ◌/◌, ◌%◌, ◌^◌, ◌<◌, ◌≡◌, refl, Bytes, [], ◌∷◌, length, arith,
}

unfoldable pub u32_bytes : ℕ → Bytes
u32_bytes n = (n % 256) ∷ (n / 2 ^ 8 % 256) ∷ (n / 2 ^ 16 % 256) ∷ (n / 2 ^ 24 % 256) ∷ []

unfoldable pub u32_value : Bytes → ℕ
u32_value (a ∷ b ∷ c ∷ d ∷ _) = a + 2 ^ 8 * b + 2 ^ 16 * c + 2 ^ 24 * d
u32_value _ = 0

pub u32_value-u32_bytes : (n : ℕ) → n < 2 ^ 32 → u32_value (u32_bytes n) ≡ n
unfolding u32_value u32_bytes
u32_value-u32_bytes n h = omega arith

pub length-u32_bytes : (n : ℕ) → length (u32_bytes n) ≡ 4
unfolding u32_bytes
length-u32_bytes n = refl
