-- ===== src/Base/Numerals.antt =====
-- std::to_string and std::stoi, on lists of byte values.
pub mod RoundTrip
use Prim.Native.Nat.{ℕ, zero, suc, ◌+◌, ◌-◌, ◌*◌, ◌/◌, ◌%◌, ◌^◌, ◌<◌, ◌≤◌}
use mathlib.Core.Path.{◌≡◌, refl, ap, sym, ◌∙◌}
use mathlib.Core.Logic.{◌≢◌, inl, inr}
use mathlib.Core.Bool.{Bool, true, false, ◌&&◌, ◌||◌}
use mathlib.Core.List.{List, [], ◌∷◌, ◌++◌}
use native.Mathlib.Omega.{arith}
use network_application.Base.Tests.{ltb, leb, ◌==◌, if◌then◌else◌, Bool-cases}
use network_application.Base.Lists.{All, All-append}
use network_application.Base.Text.{Bytes}
use network_application.Base.Int.{ℤ, pos, negsuc, IsInt32}
use network_application.Base.Outcome.{Outcome, returns, throws, out_of_range, invalid_argument}

-- std::isdigit and std::isspace
unfoldable pub is_digit : ℕ → Bool
is_digit b = leb 48 b && leb b 57

unfoldable pub is_space : ℕ → Bool
is_space b = b == 32 || (leb 9 b && leb b 13)

-- The decimal digits of a number, where the fuel is as large as the number.
unfoldable pub digits : ℕ → ℕ → Bytes
digits zero n = (48 + n) ∷ []
digits (suc fuel) n =
    let front = digits fuel (n / 10) in
    if ltb n 10 then (48 + n) ∷ [] else front ++ (48 + n % 10) ∷ []

-- std::to_string
unfoldable pub to_string : ℤ → Bytes
unfolding digits
to_string (pos n) = digits n n
to_string (negsuc n) = 45 ∷ digits (suc n) (suc n)

-- The value of the digits in front, after those read so far.
unfoldable pub value : ℕ → Bytes → ℕ
unfolding is_digit
value acc [] = acc
value acc (b ∷ bs) = let rest = value (acc * 10 + (b - 48)) bs in if is_digit b then rest else acc

-- The range check of std::stoi.
unfoldable pub to_int : Bool → ℕ → Outcome ℤ
to_int false n = if ltb n (2 ^ 31) then returns (pos n) else throws out_of_range
to_int true zero = returns (pos 0)
to_int true (suc n) = if ltb n (2 ^ 31) then returns (negsuc n) else throws out_of_range

-- std::stoi after the sign
unfoldable pub unsigned_part : Bool → Bytes → Outcome ℤ
unfolding is_digit to_int value
unsigned_part negative [] = throws invalid_argument
unsigned_part negative (b ∷ bs) =
    if is_digit b then to_int negative (value 0 (b ∷ bs)) else throws invalid_argument

-- std::stoi after the white space
unfoldable pub signed_part : Bytes → Outcome ℤ
unfolding unsigned_part
signed_part [] = throws invalid_argument
signed_part (b ∷ bs) =
    if b == 45
    then unsigned_part true bs
    else if b == 43
    then unsigned_part false bs
    else unsigned_part false (b ∷ bs)

-- std::stoi
unfoldable pub stoi : Bytes → Outcome ℤ
unfolding is_space signed_part
stoi [] = throws invalid_argument
stoi (b ∷ bs) = let rest = stoi bs in if is_space b then rest else signed_part (b ∷ bs)

returned-eq : (y z : ℤ) → returns y ≡ returns z → y ≡ z
returned-eq y z e = cc

returned-IsInt32 : (y z : ℤ) → returns y ≡ returns z → IsInt32 y → IsInt32 z
returned-IsInt32 y z e h = rw (← returned-eq y z e) h

pub to_int-IsInt32 : (negative : Bool) (n : ℕ) (z : ℤ) → to_int negative n ≡ returns z → IsInt32 z
unfolding to_int
to_int-IsInt32 false n z h = elim (Bool-cases (ltb n (2 ^ 31))) [
  | inl t ↦
      let e : returns (pos n) ≡ returns z = rw t at h in returned-IsInt32 (pos n) z e (ground arith)
  | inr f ↦ absurd (let e = rw f at h in cc)
]
to_int-IsInt32 true zero z h = returned-IsInt32 (pos 0) z h (omega arith)
to_int-IsInt32 true (suc n) z h = elim (Bool-cases (ltb n (2 ^ 31))) [
  | inl t ↦
      let e : returns (negsuc n) ≡ returns z = rw t at h in
      returned-IsInt32 (negsuc n) z e (ground arith)
  | inr f ↦ absurd (let e = rw f at h in cc)
]
