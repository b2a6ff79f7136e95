-- ===== src/Base/Numerals/RoundTrip.antt =====
-- std::stoi on what std::to_string prints, and its range.
use Prim.Native.Nat.{ℕ, zero, suc, ◌+◌, ◌-◌, ◌*◌, ◌/◌, ◌%◌, ◌^◌, ◌≤◌}
use mathlib.Core.Path.{◌≡◌, refl, ap, sym, ◌∙◌}
use mathlib.Core.Logic.{◌≢◌, inl, inr}
use mathlib.Core.Bool.{Bool, true, false}
use mathlib.Core.List.{[], ◌∷◌, ◌++◌}
use native.Mathlib.Omega.{arith}
use network_application.Base.Tests.{ltb, ◌==◌, Bool-cases, if_true, if_false}
use network_application.Base.Lists.{All, All-append}
use network_application.Base.Text.{Bytes}
use network_application.Base.Int.{ℤ, pos, negsuc, IsInt32}
use network_application.Base.Outcome.{returns, throws, out_of_range}
use network_application.Base.Numerals.{
  is_digit, is_space, digits, to_string, value, to_int, to_int-IsInt32, unsigned_part, signed_part,
  stoi,
}

unsigned_part-IsInt32 :
    (negative : Bool) (s : Bytes) (z : ℤ) → unsigned_part negative s ≡ returns z → IsInt32 z
unfolding unsigned_part
unsigned_part-IsInt32 negative [] z h = absurd (cc)
unsigned_part-IsInt32 negative (b ∷ bs) z h = elim (Bool-cases (is_digit b)) [
  | inl t ↦ to_int-IsInt32 negative (value 0 (b ∷ bs)) z (sym (if_true (is_digit b) _ _ t) ∙ h)
  | inr f ↦ absurd (let e = rw f at h in cc)
]

signed_part-IsInt32 : (s : Bytes) (z : ℤ) → signed_part s ≡ returns z → IsInt32 z
unfolding signed_part
signed_part-IsInt32 [] z h = absurd (cc)
signed_part-IsInt32 (b ∷ bs) z h = elim (Bool-cases (b == 45)) [
  | inl t ↦ unsigned_part-IsInt32 true bs z (rw t at h)
  | inr f ↦ elim (Bool-cases (b == 43)) [
    | inl t ↦ unsigned_part-IsInt32 false bs z (rw (f, t) at h)
    | inr g ↦ unsigned_part-IsInt32 false (b ∷ bs) z (rw (f, g) at h)
  ]
]

-- What std::stoi returns fits an `int`; on every other text it throws.
pub stoi-IsInt32 : (s : Bytes) (z : ℤ) → stoi s ≡ returns z → IsInt32 z
unfolding stoi
stoi-IsInt32 [] z h = absurd (cc)
stoi-IsInt32 (b ∷ bs) z h = elim (Bool-cases (is_space b)) [
  | inl t ↦ stoi-IsInt32 bs z (rw t at h)
  | inr f ↦ signed_part-IsInt32 (b ∷ bs) z (rw f at h)
]

abbrev pub Digits : Bytes → Type 0
Digits xs = All (λ b. is_digit b ≡ true) xs

pub digits-Digits : (fuel n : ℕ) → n ≤ fuel → Digits (digits fuel n)
unfolding digits is_digit
digits-Digits zero n h = (ground arith, tt)
digits-Digits (suc fuel) n h = elim (Bool-cases (ltb n 10)) [
  | inl t ↦ rw t (ground arith, tt)
  | inr f ↦ rw f (
      All-append (λ b. is_digit b ≡ true) (digits fuel (n / 10)) _
        (digits-Digits fuel (n / 10) (ground arith)) (ground arith, tt))
]

value-append :
    (acc d : ℕ) (xs : Bytes)
    → Digits xs
    → is_digit d ≡ true
    → value acc (xs ++ d ∷ []) ≡ value acc xs * 10 + (d - 48)
unfolding value
value-append acc d [] h e = rw e refl
value-append acc d (b ∷ bs) h e = rw h.0 (value-append (acc * 10 + (b - 48)) d bs h.1 e)

value-digits : (fuel n : ℕ) → n ≤ fuel → value 0 (digits fuel n) ≡ n
unfolding digits value
value-digits zero n h = ground arith
value-digits (suc fuel) n h = elim (Bool-cases (ltb n 10)) [
  | inl t ↦ rw t (ground arith)
  | inr f ↦ rw f (
      value-append 0 (48 + n % 10) (digits fuel (n / 10))
        (digits-Digits fuel (n / 10) (ground arith)) (unfold is_digit in ground arith)
      ∙ (rw (value-digits fuel (n / 10) (ground arith)) (ground arith)))
]

unsigned_part-Digits :
    (negative : Bool) (b : ℕ) (bs : Bytes)
    → is_digit b ≡ true
    → unsigned_part negative (b ∷ bs) ≡ to_int negative (value 0 (b ∷ bs))
unfolding unsigned_part
unsigned_part-Digits negative b bs h = rw h refl

-- A digit is no sign and no space.
stoi-digit :
    (b : ℕ) (bs : Bytes) → is_digit b ≡ true → stoi (b ∷ bs) ≡ to_int false (value 0 (b ∷ bs))
unfolding stoi signed_part is_digit is_space
stoi-digit b bs h =
    let no_space : is_space b ≡ false = ground arith in
    let no_minus : (b == 45) ≡ false = ground arith in
    let no_plus : (b == 43) ≡ false = ground arith in
    if_false (is_space b) _ _ no_space
    ∙ if_false (b == 45) _ _ no_minus
    ∙ if_false (b == 43) _ _ no_plus
    ∙ unsigned_part-Digits false b bs h

stoi-Digits : (xs : Bytes) (n : ℕ) → Digits xs → value 0 xs ≡ n → xs ≢ [] → stoi xs ≡ to_int false n
stoi-Digits [] n h e some' = absurd (some' refl)
stoi-Digits (b ∷ bs) n h e some' = stoi-digit b bs h.0 ∙ ap (to_int false) e

stoi-minus :
    (xs : Bytes) (n : ℕ) → Digits xs → value 0 xs ≡ n → xs ≢ [] → stoi (45 ∷ xs) ≡ to_int true n
unfolding stoi signed_part
stoi-minus [] n h e some' = absurd (some' refl)
stoi-minus (b ∷ bs) n h e some' = unsigned_part-Digits true b bs h.0 ∙ ap (to_int true) e

snoc-some : (xs : Bytes) (x : ℕ) → xs ++ x ∷ [] ≢ []
snoc-some [] x h = cc
snoc-some (y ∷ xs) x h = cc

digits-some : (fuel n : ℕ) → digits fuel n ≢ []
unfolding digits
digits-some zero n h = cc
digits-some (suc fuel) n h = elim (Bool-cases (ltb n 10)) [
  | inl t ↦ let e = sym (if_true (ltb n 10) _ _ t) ∙ h in cc
  | inr f ↦ snoc-some (digits fuel (n / 10)) (48 + n % 10) (sym (if_false (ltb n 10) _ _ f) ∙ h)
]

-- std::stoi reads what std::to_string prints of an `int`.
pub stoi-to_string : (z : ℤ) → IsInt32 z → stoi (to_string z) ≡ returns z
unfolding to_string to_int
stoi-to_string (pos n) h =
    stoi-Digits (digits n n) n (digits-Digits n n (omega arith)) (value-digits n n (omega arith))
      (digits-some n n)
    ∙ if_true (ltb n (2 ^ 31)) _ (throws out_of_range) (ground arith)
stoi-to_string (negsuc n) h =
    stoi-minus (digits (suc n) (suc n)) (suc n) (digits-Digits (suc n) (suc n) (omega arith))
      (value-digits (suc n) (suc n) (omega arith)) (digits-some (suc n) (suc n))
    ∙ if_true (ltb n (2 ^ 31)) _ (throws out_of_range) (ground arith)
