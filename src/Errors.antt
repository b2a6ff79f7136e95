-- ===== src/Errors.antt =====
-- core/utils: ErrorHandler::check_error (error_handler.cpp) decides whether an error ends a
-- connection, and logs.
pub mod Codes
pub mod Fatal
use network_application.Base.{String, List, [], ◌∷◌, ◌++◌, Bool, true, false, if◌then◌else◌}
use network_application.Errors.Codes.{
  Code, success, address_in_use, syntax, eof, bad_descriptor, connection_refused, other,
}
use network_application.Logger.{
  LogLevel, debug, info, warn, error, critical, Part, lit, message, Entry,
}

-- What a call did: its result, and the records that it logged.
pub record Logged {ℓ} (A : Type ℓ) : Type ℓ where
  pub result : A
  pub logged : List Entry

-- The static function `log` of error_handler.cpp.
abbrev code_entry : LogLevel → List Part → Code → Entry
code_entry level function ec = record {
  level = level;
  function = function;
  text = lit "Code = [ " ∷ message ec ∷ lit " ]" ∷ [];
}

abbrev lost_entry : LogLevel → List Part → Entry
lost_entry level function = record {
  level = level;
  function = function;
  text = lit "Code = [ Connection lost ]" ∷ [];
}

-- check_error(ec, function_name, viewInfo)
unfoldable pub check_error : Code → List Part → Bool → Logged Bool
check_error success function view =
    let level : LogLevel = if view then info else debug in
    record { result = false; logged = code_entry level function success ∷ [] }
check_error address_in_use function view =
    let level : LogLevel = if view then warn else debug in
    record { result = false; logged = code_entry level function address_in_use ∷ [] }
check_error syntax function view =
    let level : LogLevel = if view then error else debug in
    record { result = false; logged = code_entry level function syntax ∷ [] }
check_error eof function view =
    let level : LogLevel = if view then info else debug in
    record { result = true; logged = lost_entry level function ∷ [] }
check_error bad_descriptor function view =
    let level : LogLevel = if view then error else debug in
    record { result = true; logged = code_entry level function bad_descriptor ∷ [] }
check_error connection_refused function view =
    let level : LogLevel = if view then error else debug in
    record { result = false; logged = code_entry level function connection_refused ∷ [] }
check_error (other n) function view = record { result = true; logged = [] }

-- check_error(exception, function_name)
unfoldable pub check_exception : List Part → List Part → Logged Bool
check_exception what function = record {
  result = true;
  logged =
      record {
        level = critical;
        function = function;
        text = lit "Code = [ " ∷ (what ++ lit " ]" ∷ []);
      }
      ∷ [];
}
