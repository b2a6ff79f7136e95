-- ===== src/Logger.antt =====
-- core/logger: the levels, the record that is printed and the logger with its threshold (logger.h,
-- logger.cpp, log_event.h, log_event.cpp). The printed line is in Format.
pub mod Filter
pub mod Format
pub mod Columns
use network_application.Base.{ℕ, ◌≤◌, ◌≡◌, String, List, [], ◌∷◌, ◌++◌, Bool, ℤ, pos, negsuc, leb}
use network_application.Base.{if◌then◌else◌, ltb, Bytes, true, false}
use network_application.Errors.Codes.{Code}

-- enum class LogLevel
pub data LogLevel : Type 0 where
  trace debug info warn error critical tests no_log : LogLevel

-- static_cast<int>(level)
unfoldable pub level_number : LogLevel → ℤ
level_number trace = pos 0
level_number debug = pos 1
level_number info = pos 2
level_number warn = pos 3
level_number error = pos 4
level_number critical = pos 5
level_number tests = pos 0
level_number no_log = negsuc 0

-- A log text is a concatenation of literals, numbers, strings and error_code::message() texts.
pub data Part : Type 0 where
  lit : String → Part
  number : ℕ → Part
  bytes : Bytes → Part
  message : Code → Part

-- The arguments of Logger::log.
pub record Entry : Type 0 where
  pub level : LogLevel
  pub function : List Part
  pub text : List Part

-- The logger's threshold, and the records that it has printed, oldest first.
pub record Logger : Type 0 where
  pub min_level : LogLevel
  pub printed : List Entry

-- a >= b on int
unfoldable pub at_least : ℤ → ℤ → Bool
at_least (pos a) (pos b) = leb b a
at_least (pos a) (negsuc b) = true
at_least (negsuc a) (pos b) = false
at_least (negsuc a) (negsuc b) = leb a b

-- The test of Logger::log.
unfoldable pub is_shown : LogLevel → LogLevel → Bool
unfolding at_least level_number
is_shown min level = at_least (level_number level) (level_number min)

-- Logger::log
unfoldable pub log : Logger → Entry → Logger
unfolding is_shown
log g e = if is_shown g.min_level e.level then record g { printed = g.printed ++ e ∷ [] } else g

-- Logger::setLevel
unfoldable pub set_level : Logger → LogLevel → Logger
set_level g level = record g { min_level = level }

-- Logger::getInstance builds the instance with the threshold Trace.
unfoldable pub instance_start : Logger
instance_start = record { min_level = trace; printed = [] }

-- The calls of a run of the program, in their order.
unfoldable pub log_all : Logger → List Entry → Logger
log_all g [] = g
log_all g (e ∷ es) = log_all (log g e) es

-- LogEvent::levelToString
unfoldable pub level_to_string : LogLevel → String
level_to_string trace = "TRACE"
level_to_string debug = "DEBUG"
level_to_string info = "INFO"
level_to_string warn = "WARN"
level_to_string error = "ERROR"
level_to_string critical = "CRITICAL"
level_to_string tests = "TRACE"
level_to_string no_log = "UNKNOWN"

-- LogEvent::levelToColor, the number of the ANSI colour (0 resets).
unfoldable pub level_to_color : LogLevel → ℕ
level_to_color trace = 36
level_to_color debug = 90
level_to_color info = 32
level_to_color warn = 33
level_to_color error = 31
level_to_color critical = 35
level_to_color tests = 36
level_to_color no_log = 0
