-- ===== src/Errors/Codes.antt =====
-- boost::system::error_code: the codes that the program names, and the rest by a number.
use network_application.Base.{ℕ, Bool, true, false}

pub data Code : Type 0 where
  success : Code
  address_in_use : Code
  syntax : Code
  eof : Code
  bad_descriptor : Code
  connection_refused : Code
  other : ℕ → Code

-- error_code::operator bool
unfoldable pub is_error : Code → Bool
is_error success = false
is_error _ = true
