-- ===== src/ServerConsole/Parse.antt =====
-- The command that main reads off a printed one.
use network_application.Base.{
  ℤ, suc, ◌+◌, ◌-◌, ◌≡◌, refl, sym, ap, ◌∙◌, Bytes, codes, str_eq, str_eq_iff, false, [], ◌∷◌, ◌++◌,
  none, some, if◌then◌else◌, ◌==◌, take, drop, length, take-append, All, if_false, Bool-cases, inl,
  inr, arith, pos, negsuc, IsInt32,
}
use network_application.Base.Numerals.{stoi, to_string, is_digit, digits}
use network_application.Base.Numerals.RoundTrip.{stoi-to_string, Digits, digits-Digits}
use network_application.ServerConsole.{
  sends, disconnects, find_byte, counted_from, find_from, substr, semicolon, word_disconnect,
  numbered, second_part, first_part, parse_line,
}

-- A text without the delimiter.
abbrev Plain : Bytes → Type 0
Plain s = All (λ b. (b == semicolon) ≡ false) s

find_byte-Plain :
    (s rest : Bytes) → Plain s → find_byte semicolon (s ++ semicolon ∷ rest) ≡ some (length s)
unfolding find_byte
find_byte-Plain [] rest h = refl
find_byte-Plain (b ∷ bs) rest h = rw (h.0, find_byte-Plain bs rest h.1) refl

Digits-Plain : (s : Bytes) → Digits s → Plain s
unfolding is_digit
Digits-Plain [] h = tt
Digits-Plain (b ∷ bs) h = (let d = h.0 in ground arith, Digits-Plain bs h.1)

to_string-Plain : (z : ℤ) → Plain (to_string z)
unfolding to_string
to_string-Plain (pos n) = Digits-Plain (digits n n) (digits-Digits n n (omega arith))
to_string-Plain (negsuc n) =
    (refl, Digits-Plain (digits (suc n) (suc n)) (digits-Digits (suc n) (suc n) (omega arith)))

-- The line of a command for a session.
abbrev pub command_line : ℤ → ℤ → Bytes → Bytes
command_line server session message =
    to_string server ++ semicolon ∷ (to_string session ++ semicolon ∷ message)

drop-past : (s rest : Bytes) → drop (length s + 1) (s ++ semicolon ∷ rest) ≡ rest
drop-past [] rest = refl
drop-past (b ∷ bs) rest =
    let count : suc (length bs) + 1 ≡ suc (length bs + 1) = omega arith in
    ap (λ n. drop n (b ∷ (bs ++ semicolon ∷ rest))) count ∙ drop-past bs rest

-- The texts past both delimiters.
drop-past_both :
    (s t rest : Bytes)
    → drop (length s + 1 + length t + 1) (s ++ semicolon ∷ (t ++ semicolon ∷ rest)) ≡ rest
drop-past_both [] t rest =
    let count : 0 + 1 + length t + 1 ≡ suc (length t + 1) = omega arith in
    ap (λ n. drop n (semicolon ∷ (t ++ semicolon ∷ rest))) count ∙ drop-past t rest
drop-past_both (b ∷ bs) t rest =
    let count : suc (length bs) + 1 + length t + 1 ≡ suc (length bs + 1 + length t + 1) =
      omega arith in
    ap (λ n. drop n (b ∷ (bs ++ semicolon ∷ (t ++ semicolon ∷ rest)))) count
    ∙ drop-past_both bs t rest

no_word :
    (s rest word : Bytes)
    → Plain s
    → find_byte semicolon word ≡ none
    → str_eq (s ++ semicolon ∷ rest) word ≡ false
no_word s rest word h none' = elim (Bool-cases (str_eq (s ++ semicolon ∷ rest) word)) [
  | inl t ↦
      let e = (str_eq_iff (s ++ semicolon ∷ rest) word).0 t in
      absurd (let f = sym (find_byte-Plain s rest h) ∙ ap (find_byte semicolon) e ∙ none' in cc)
  | inr f ↦ f
]

find_from-Plain :
    (s t rest : Bytes)
    → Plain t
    → find_from semicolon (s ++ semicolon ∷ (t ++ semicolon ∷ rest)) (length s + 1)
      ≡ some (length s + 1 + length t)
unfolding find_from counted_from
find_from-Plain s t rest h =
    ap (counted_from (length s + 1))
      (ap (find_byte semicolon) (drop-past s (t ++ semicolon ∷ rest)) ∙ find_byte-Plain t rest h)

first-substr : (s rest : Bytes) → substr (s ++ semicolon ∷ rest) 0 (length s) ≡ s
unfolding substr
first-substr s rest = take-append s (semicolon ∷ rest)

second-substr :
    (s t rest : Bytes)
    → substr
        (s ++ semicolon ∷ (t ++ semicolon ∷ rest))
        (length s + 1)
        (length s + 1 + length t - length s - 1)
      ≡ t
unfolding substr
second-substr s t rest =
    let count : length s + 1 + length t - length s - 1 ≡ length t = omega arith in
    ap (λ n. take n (drop (length s + 1) (s ++ semicolon ∷ (t ++ semicolon ∷ rest)))) count
    ∙ ap (take (length t)) (drop-past s (t ++ semicolon ∷ rest))
    ∙ take-append t (semicolon ∷ rest)

second_part-Plain :
    (s t rest : Bytes)
    → second_part
        (s ++ semicolon ∷ (t ++ semicolon ∷ rest))
        (length s)
        (some (length s + 1 + length t))
      ≡ numbered (stoi s) (stoi t) rest
unfolding second_part
second_part-Plain s t rest =
    rw (first-substr s (t ++ semicolon ∷ rest), second-substr s t rest, drop-past_both s t rest)
      refl

first_part-Plain :
    (s t rest : Bytes)
    → Plain s
    → Plain t
    → first_part
        (s ++ semicolon ∷ (t ++ semicolon ∷ rest))
        (find_byte semicolon (s ++ semicolon ∷ (t ++ semicolon ∷ rest)))
      ≡ numbered (stoi s) (stoi t) rest
unfolding first_part
first_part-Plain s t rest h k =
    ap (first_part (s ++ semicolon ∷ (t ++ semicolon ∷ rest)))
      (find_byte-Plain s (t ++ semicolon ∷ rest) h)
    ∙ ap (second_part (s ++ semicolon ∷ (t ++ semicolon ∷ rest)) (length s))
        (find_from-Plain s t rest k)
    ∙ second_part-Plain s t rest

-- A line with two delimiters is none of the words.
parse_line-parts :
    (s t rest : Bytes)
    → Plain s
    → Plain t
    → parse_line (s ++ semicolon ∷ (t ++ semicolon ∷ rest)) ≡ numbered (stoi s) (stoi t) rest
unfolding parse_line find_byte
parse_line-parts s t rest h k =
    let tail = t ++ semicolon ∷ rest in
    let other : (word : Bytes)
        → find_byte semicolon word ≡ none
        → str_eq (s ++ semicolon ∷ tail) word ≡ false =
      λ word none'. no_word s tail word h none' in
    if_false _ _ _ (other (codes "help") refl)
    ∙ if_false _ _ _ (other (codes "stop") refl)
    ∙ if_false _ _ _ (other (codes "list") refl)
    ∙ if_false _ _ _ (other (codes "broadcast") refl)
    ∙ first_part-Plain s t rest h k

-- The line `<port>;<session>;<message>` of two `int` numbers is read as the command for that session of
-- that server with exactly that message, which may itself have delimiters, or as the disconnect of that
-- session where the message is the word disconnect.
pub parse_line-command_line :
    (server session : ℤ) (message : Bytes)
    → IsInt32 server
    → IsInt32 session
    → parse_line (command_line server session message) ≡ (
        if str_eq message word_disconnect
        then disconnects server session
        else sends server session message)
parse_line-command_line server session message a b =
    parse_line-parts (to_string server) (to_string session) message (to_string-Plain server)
      (to_string-Plain session)
    ∙ rw (stoi-to_string server a, stoi-to_string session b) (unfold numbered in refl)
