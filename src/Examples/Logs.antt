-- ===== src/Examples/Logs.antt =====
-- The theorems on the logger and the error handler at concrete inputs.
use network_application.Base.{
  codes, ◌+◌, ◌++◌, drop, arith, ◌≡◌, ◌↔◌, ◌≤◌, [], ◌∷◌, false, true, length,
}
use network_application.Errors.{check_error}
use network_application.Errors.Codes.{eof}
use network_application.Errors.Fatal.{Tolerated, check_error-Tolerated}
use network_application.Logger.{
  Logger, Entry, LogLevel, debug, warn, no_log, lit, log_all, set_level,
}
use network_application.Logger.Filter.{among, is_among, same_level, levels_from, log_all-printed}
use network_application.Logger.Format.{Time, color_text, text_of, reset_color, format_event}
use network_application.Logger.Columns.{format_event-column}

-- An entry of this level.
abbrev entry : LogLevel → Entry
entry level = record {
  level = level;
  function = lit "main" ∷ [];
  text = lit "Code = [ Success ]" ∷ [];
}

-- A logger that shows warnings.
abbrev at_warn : Logger
at_warn = record { min_level = warn; printed = entry warn ∷ [] }

check_error-Tolerated_example :
    ((check_error eof (lit "main" ∷ []) true).result ≡ false ↔ Tolerated eof)
    × (length (check_error eof (lit "main" ∷ []) true).logged ≤ 1)
check_error-Tolerated_example = check_error-Tolerated eof (lit "main" ∷ []) true

log_all-printed_example :
    ((log_all at_warn (entry debug ∷ entry warn ∷ [])).printed ≡ entry warn ∷ entry warn ∷ [])
    × ((log_all (set_level at_warn no_log) (entry debug ∷ entry warn ∷ [])).printed
        ≡ entry warn ∷ entry debug ∷ entry warn ∷ [])
unfolding among is_among same_level levels_from
log_all-printed_example = log_all-printed at_warn (entry debug ∷ entry warn ∷ [])

-- A moment of the year 2026.
abbrev moment : Time
moment = record {
  year = 2026;
  month = 6;
  day = 5;
  hour = 10;
  minute = 30;
  second = 0;
  millisecond = 7;
}

format_event-column_example :
    drop
      (length (color_text warn) + 113)
      (format_event (λ c. []) moment (codes "17") (codes "Main") (entry warn))
    ≡ text_of (λ c. []) (entry warn).text ++ reset_color
unfolding text_of
format_event-column_example =
    format_event-column (λ c. []) moment (codes "17") (codes "Main") (entry warn)
      (record {
        year = omega arith;
        month = omega arith;
        day = omega arith;
        hour = omega arith;
        minute = omega arith;
        second = omega arith;
        millisecond = omega arith;
      })
      (record {
        short_thread = omega arith;
        short_name = omega arith;
        short_function = omega arith;
      })
