-- ===== src/Errors/Fatal.antt =====
-- Which codes check_error reports as fatal, whatever is logged.
use network_application.Base.{◌≡◌, ◌↔◌, refl, Bool, true, false, List, ◌≤◌, length, arith}
use network_application.Errors.Codes.{
  Code, success, address_in_use, syntax, connection_refused, is_error,
}
use network_application.Errors.{check_error}
use network_application.Logger.{Part}

-- The codes that end a connection: all but success and three that the program goes on after.
abbrev pub Tolerated : Code → Type 0
Tolerated success = Unit
Tolerated address_in_use = Unit
Tolerated syntax = Unit
Tolerated connection_refused = Unit
Tolerated _ = ⊥

-- check_error returns false exactly for success, address_in_use, a JSON syntax error and
-- connection_refused; neither the function name nor viewInfo matters, and at most one record is logged.
pub check_error-Tolerated :
    (ec : Code) (function : List Part) (view : Bool)
    → ((check_error ec function view).result ≡ false ↔ Tolerated ec)
      × (length (check_error ec function view).logged ≤ 1)
unfolding check_error
check_error-Tolerated success f v = ((λ e. tt, λ t. refl), omega arith)
check_error-Tolerated address_in_use f v = ((λ e. tt, λ t. refl), omega arith)
check_error-Tolerated syntax f v = ((λ e. tt, λ t. refl), omega arith)
check_error-Tolerated connection_refused f v = ((λ e. tt, λ t. refl), omega arith)
check_error-Tolerated _ f v = ((λ e. cc, λ t. absurd t), omega arith)

-- A reported code is an error.
pub check_error-is_error :
    (ec : Code) (function : List Part) (view : Bool)
    → (check_error ec function view).result ≡ true
    → is_error ec ≡ true
unfolding check_error is_error
check_error-is_error success f v h = cc
check_error-is_error _ f v h = ground arith

-- The code ends a connection.
abbrev pub Fatal : Code → Type 0
Fatal ec = ¬ Tolerated ec

pub check_error-Fatal :
    (ec : Code) (function : List Part) (view : Bool)
    → Fatal ec
    → (check_error ec function view).result ≡ true
unfolding check_error
check_error-Fatal success f v h = absurd (h tt)
check_error-Fatal address_in_use f v h = absurd (h tt)
check_error-Fatal syntax f v h = absurd (h tt)
check_error-Fatal connection_refused f v h = absurd (h tt)
check_error-Fatal _ f v h = refl

pub check_error-not_Fatal :
    (ec : Code) (function : List Part) (view : Bool)
    → Tolerated ec
    → (check_error ec function view).result ≡ false
check_error-not_Fatal ec f v h = (check_error-Tolerated ec f v).0.1 h
