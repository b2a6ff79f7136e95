-- ===== src/ServerConsole.antt =====
-- server/main.cpp: the commands of the server's console, as main reads them off a line.
pub mod Parse
pub mod Waits
pub mod Loop
pub mod Configure
pub mod Laws
pub mod Ends
pub mod Stages
pub mod Stops
pub mod Settings
pub mod Boot
use network_application.Base.{
  ℕ, ℤ, ◌+◌, ◌-◌, suc, Bytes, codes, str_eq, Bool, List, [], ◌∷◌, ◌++◌, Option, none, some,
  if◌then◌else◌, ◌==◌, take, drop, length,
}
use network_application.Base.Numerals.{stoi}
use network_application.Base.Outcome.{Outcome, returns, throws, Exception}

-- What a line asks for.
pub data Command : Type 0 where
  help stop list broadcast : Command
  missing_first missing_second : Command
  invalid_integer : Exception → Command
  sends : ℤ → ℤ → Bytes → Command
  disconnects : ℤ → ℤ → Command

-- std::string::find(c)
unfoldable pub find_byte : ℕ → Bytes → Option ℕ
find_byte c [] = none
find_byte c (b ∷ bs) =
    if b == c then some 0 else elim (find_byte c bs) [ none ↦ none | some n ↦ some (suc n) ]

unfoldable pub counted_from : ℕ → Option ℕ → Option ℕ
counted_from from none = none
counted_from from (some n) = some (from + n)

-- std::string::find(c, from)
unfoldable pub find_from : ℕ → Bytes → ℕ → Option ℕ
unfolding find_byte counted_from
find_from c s from = counted_from from (find_byte c (drop from s))

-- std::string::substr(from, count)
unfoldable pub substr : Bytes → ℕ → ℕ → Bytes
substr s from count = take count (drop from s)

abbrev pub semicolon : ℕ
semicolon = 59

abbrev pub word_disconnect : Bytes
word_disconnect = codes "disconnect"

-- The numbers of the two parts and the message.
unfoldable pub numbered : Outcome ℤ → Outcome ℤ → Bytes → Command
unfolding str_eq
numbered (throws e) second message = invalid_integer e
numbered (returns server) (throws e) message = invalid_integer e
numbered (returns server) (returns session) message =
    if str_eq message word_disconnect
    then disconnects server session
    else sends server session message

-- A line with its first delimiter at `pos1`, from the second.
unfoldable pub second_part : Bytes → ℕ → Option ℕ → Command
unfolding numbered stoi substr
second_part line pos1 none = missing_second
second_part line pos1 (some pos2) =
    numbered (stoi (substr line 0 pos1)) (stoi (substr line (pos1 + 1) (pos2 - pos1 - 1)))
      (drop (pos2 + 1) line)

-- A line that is no word of its own, from its first delimiter.
unfoldable pub first_part : Bytes → Option ℕ → Command
unfolding second_part find_from
first_part line none = missing_first
first_part line (some pos1) = second_part line pos1 (find_from semicolon line (pos1 + 1))

-- The tests of main on a line, in their order. That the server is known is tested after this.
unfoldable pub parse_line : Bytes → Command
unfolding first_part find_byte str_eq
parse_line line =
    if str_eq line (codes "help")
    then help
    else if str_eq line (codes "stop")
    then stop
    else if str_eq line (codes "list")
    then list
    else if str_eq line (codes "broadcast")
    then broadcast
    else first_part line (find_byte semicolon line)
