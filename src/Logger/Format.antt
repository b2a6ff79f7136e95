-- ===== src/Logger/Format.antt =====
-- core/logger: the line that is printed for a log event (log_event.cpp). The calendar fields of a time
-- point come from localtime_r, the text of the thread from the thread library, and the texts of error
-- codes from Boost: they are arguments.
use network_application.Base.{ℕ, zero, suc, ◌-◌, Bytes, codes, List, [], ◌∷◌, ◌++◌, pos, length}
use network_application.Base.Numerals.{digits, to_string}
use network_application.Errors.Codes.{Code}
use network_application.Logger.{
  LogLevel, Part, lit, number, bytes, message, Entry, level_to_string, level_to_color,
}

-- std::tm with the milliseconds of the time point.
pub record Time : Type 0 where
  pub year : ℕ
  pub month : ℕ
  pub day : ℕ
  pub hour : ℕ
  pub minute : ℕ
  pub second : ℕ
  pub millisecond : ℕ

unfoldable pub copies : ℕ → ℕ → Bytes
copies b zero = []
copies b (suc n) = b ∷ copies b n

-- std::setfill('0') << std::setw(width) << n
unfoldable pub zero_padded : ℕ → ℕ → Bytes
unfolding copies digits
zero_padded width n = copies 48 (width - length (digits n n)) ++ digits n n

-- A field of boost::format: `%-8s` is padded on its right, `%5d` on its left.
unfoldable pub pad_right : ℕ → Bytes → Bytes
unfolding copies
pad_right width s = s ++ copies 32 (width - length s)

unfoldable pub pad_left : ℕ → Bytes → Bytes
unfolding copies
pad_left width s = copies 32 (width - length s) ++ s

-- formatTime
unfoldable pub format_time : Time → Bytes
unfolding zero_padded
format_time t =
    zero_padded 4 t.year
    ++ (45 ∷ zero_padded 2 t.month)
    ++ (45 ∷ zero_padded 2 t.day)
    ++ (32 ∷ zero_padded 2 t.hour)
    ++ (58 ∷ zero_padded 2 t.minute)
    ++ (58 ∷ zero_padded 2 t.second)
    ++ (46 ∷ zero_padded 3 t.millisecond)

-- levelToColor: an escape sequence with the number of the colour.
unfoldable pub color_text : LogLevel → Bytes
unfolding level_to_color digits
color_text level = 27 ∷ 91 ∷ digits (level_to_color level) (level_to_color level) ++ 109 ∷ []

-- resetColor
abbrev pub reset_color : Bytes
reset_color = 27 ∷ codes "[0m "

-- The arguments of Logger::log as strings.
unfoldable pub text_of : (Code → Bytes) → List Part → Bytes
unfolding to_string
text_of describe [] = []
text_of describe (lit s ∷ ps) = codes s ++ text_of describe ps
text_of describe (number n ∷ ps) = to_string (pos n) ++ text_of describe ps
text_of describe (bytes b ∷ ps) = b ++ text_of describe ps
text_of describe (message c ∷ ps) = describe c ++ text_of describe ps

-- A field in brackets, with the space before the next one.
abbrev pub bracketed : Bytes → Bytes
bracketed s = 91 ∷ s ++ codes "] "

-- The line up to the message.
unfoldable pub format_head : Time → Bytes → Bytes → LogLevel → Bytes → Bytes
unfolding color_text format_time pad_right pad_left level_to_string
format_head time thread name level function =
    color_text level
    ++ bracketed (format_time time)
    ++ bracketed (pad_right 8 (codes (level_to_string level)))
    ++ bracketed (pad_left 5 thread)
    ++ bracketed (pad_right 12 name)
    ++ bracketed (pad_right 50 function)

-- LogEvent::formatEvent
unfoldable pub format_event : (Code → Bytes) → Time → Bytes → Bytes → Entry → Bytes
unfolding format_head text_of
format_event describe time thread name e =
    format_head time thread name e.level (text_of describe e.function)
    ++ (text_of describe e.text ++ reset_color)
