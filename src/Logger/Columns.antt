-- ===== src/Logger/Columns.antt =====
-- The columns of a printed log line.
use network_application.Base.{
  ℕ, zero, suc, ◌+◌, ◌-◌, ◌*◌, ◌/◌, ◌%◌, ◌<◌, ◌≤◌, ◌≡◌, refl, sym, ap, ◌∙◌, Bytes, codes, [], ◌∷◌,
  ◌++◌, length, length-append, drop, drop-append, if_true, Bool-cases, inl, inr, ltb, arith,
}
use network_application.Base.Numerals.{digits}
use network_application.Errors.Codes.{Code}
use network_application.Logger.{
  LogLevel, trace, debug, info, warn, error, critical, tests, no_log, Entry, level_to_string,
}
use network_application.Logger.Format.{
  Time, copies, pad_right, pad_left, format_time, color_text, reset_color, text_of, bracketed,
  format_head, format_event,
}

length-copies : (b n : ℕ) → length (copies b n) ≡ n
unfolding copies
length-copies b zero = refl
length-copies b (suc n) = ap suc (length-copies b n)

length-pad_right : (width : ℕ) (s : Bytes) → length s ≤ width → length (pad_right width s) ≡ width
unfolding pad_right
length-pad_right width s h =
    length-append s (copies 32 (width - length s))
    ∙ (rw (length-copies 32 (width - length s)) (omega arith))

length-pad_left : (width : ℕ) (s : Bytes) → length s ≤ width → length (pad_left width s) ≡ width
unfolding pad_left
length-pad_left width s h =
    length-append (copies 32 (width - length s)) s
    ∙ (rw (length-copies 32 (width - length s)) (omega arith))

-- 10 to the power of one more.
abbrev ten : ℕ → ℕ
ten zero = 10
ten (suc w) = 10 * ten w

length-snoc : (w b : ℕ) (xs : Bytes) → length xs ≤ w → length (xs ++ b ∷ []) ≤ suc w
length-snoc w b xs h = rw (length-append xs (b ∷ [])) (omega arith)

length-digits : (w fuel n : ℕ) → n < ten w → length (digits fuel n) ≤ suc w
unfolding digits
length-digits w zero n h = omega arith
length-digits zero (suc fuel) n h =
    rw
      (if_true (ltb n 10) ((48 + n) ∷ []) (digits fuel (n / 10) ++ (48 + n % 10) ∷ [])
        (ground arith))
      (omega arith)
length-digits (suc w) (suc fuel) n h = elim (Bool-cases (ltb n 10)) [
  | inl t ↦ rw t (omega arith)
  | inr f ↦ rw f (
      length-snoc (suc w) (48 + n % 10) (digits fuel (n / 10))
        (length-digits w fuel (n / 10) (omega arith)))
]

-- The fields of a time are in their ranges, with a year of four digits.
pub record IsTime (t : Time) : Type 0 where
  pub year : t.year < 10000
  pub month : t.month < 100
  pub day : t.day < 100
  pub hour : t.hour < 100
  pub minute : t.minute < 100
  pub second : t.second < 100
  pub millisecond : t.millisecond < 1000

length-format_time : (t : Time) → IsTime t → length (format_time t) ≡ 23
unfolding format_time
length-format_time t h =
    let year = length-digits 3 t.year t.year h.year in
    let month = length-digits 1 t.month t.month h.month in
    let day = length-digits 1 t.day t.day h.day in
    let hour = length-digits 1 t.hour t.hour h.hour in
    let minute = length-digits 1 t.minute t.minute h.minute in
    let second = length-digits 1 t.second t.second h.second in
    let millisecond = length-digits 2 t.millisecond t.millisecond h.millisecond in
    simp (length-append, length-copies) (omega arith)

-- The texts of the fields fit their columns.
pub record Fits (describe : Code → Bytes) (thread name : Bytes) (e : Entry) : Type 0 where
  pub short_thread : length thread ≤ 5
  pub short_name : length name ≤ 12
  pub short_function : length (text_of describe e.function) ≤ 50

length-bracketed : (s : Bytes) → length (bracketed s) ≡ length s + 3
length-bracketed s = simp length-append (omega arith)

length-level : (level : LogLevel) → length (codes (level_to_string level)) ≤ 8
unfolding level_to_string
length-level trace = omega arith
length-level debug = omega arith
length-level info = omega arith
length-level warn = omega arith
length-level error = omega arith
length-level critical = omega arith
length-level tests = omega arith
length-level no_log = omega arith

length-fields :
    (color a b c d f : Bytes)
    → length (color ++ bracketed a ++ bracketed b ++ bracketed c ++ bracketed d ++ bracketed f)
      ≡ length color + length a + length b + length c + length d + length f + 15
length-fields color a b c d f = simp length-append (omega arith)

length-format_head :
    (describe : Code → Bytes) (time : Time) (thread name : Bytes) (e : Entry)
    → IsTime time
    → Fits describe thread name e
    → length (format_head time thread name e.level (text_of describe e.function))
      ≡ length (color_text e.level) + 113
unfolding format_head
length-format_head describe time thread name e t h =
    let a = length-format_time time t in
    let b = length-pad_right 8 (codes (level_to_string e.level)) (length-level e.level) in
    let c = length-pad_left 5 thread h.short_thread in
    let d = length-pad_right 12 name h.short_name in
    let f = length-pad_right 50 (text_of describe e.function) h.short_function in
    length-fields (color_text e.level) (format_time time) _ _ _ _ ∙ omega (arith, a, b, c, d, f)

-- With a time in its ranges and a thread, a logger's name and a function that fit their columns, the
-- message of a printed line starts 113 characters after the escape sequence of its level's colour, and
-- stands there unchanged up to the reset of the colour.
pub format_event-column :
    (describe : Code → Bytes) (time : Time) (thread name : Bytes) (e : Entry)
    → IsTime time
    → Fits describe thread name e
    → drop (length (color_text e.level) + 113) (format_event describe time thread name e)
      ≡ text_of describe e.text ++ reset_color
unfolding format_event
format_event-column describe time thread name e t h =
    let head = format_head time thread name e.level (text_of describe e.function) in
    ap (λ n. drop n (head ++ (text_of describe e.text ++ reset_color)))
      (sym (length-format_head describe time thread name e t h))
    ∙ drop-append head (text_of describe e.text ++ reset_color)
