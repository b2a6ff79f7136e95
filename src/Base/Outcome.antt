-- ===== src/Base/Outcome.antt =====
-- C++ exceptions as values: what a call returns, or what it throws.
use mathlib.Core.Path.{◌≡◌, refl}

-- The exceptions that the modelled calls can throw, by the call.
pub data Exception : Type 0 where
  out_of_range : Exception
  wrong_kind : Exception
  runtime_error : Exception
  invalid_argument : Exception
  not_exact : Exception

pub data Outcome {ℓ} (A : Type ℓ) : Type ℓ where
  returns : A → Outcome A
  throws : Exception → Outcome A

infixl 5 ◌>>=◌ ◌>>◌
abbrev pub ◌>>=◌ {ℓ κ} : {A : Type ℓ} {B : Type κ} → Outcome A → (A → Outcome B) → Outcome B
returns a >>= f = f a
throws e >>= f = throws e

abbrev pub ◌>>◌ {ℓ κ} : {A : Type ℓ} {B : Type κ} → Outcome A → Outcome B → Outcome B
m >> k = m >>= λ _. k

-- try { return m; } catch(...) { return handler; }
abbrev pub catch {ℓ} : {A : Type ℓ} → Outcome A → A → A
catch (returns a) handler = a
catch (throws e) handler = handler

-- A call that returned had a first step that returned.
pub >>=-eq-returns {ℓ κ} :
    {A : Type ℓ} {B : Type κ} (m : Outcome A) (f : A → Outcome B) {b : B}
    → (m >>= f) ≡ returns b
    → (a : A) × (m ≡ returns a) × (f a ≡ returns b)
>>=-eq-returns (returns a) f h = (a, refl, h)
>>=-eq-returns (throws e) f h = cc
