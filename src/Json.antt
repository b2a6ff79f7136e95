-- ===== src/Json.antt =====
-- The JSON tree that the program builds and reads (boost::json::value), and what the program uses of
-- Boost.JSON and of the conversions between float and double. The library itself is not part of the
-- repository: its parser and printer are the parameter `Platform` below.
use network_application.Base.{
  ℕ, ◌^◌, ◌≡◌, ◌≢◌, Bool, Option, none, some, ℤ, pos, negsuc, Bytes, str_eq, ltb, if◌then◌else◌,
}
use network_application.Base.Outcome.{Outcome, returns, throws, out_of_range, wrong_kind, not_exact}
use network_application.Errors.Codes.{Code, success}

-- The kinds of boost::json::value. A double is its 64-bit pattern.
mutual
  pub data Value : Type 0 where
    null : Value
    boolean : Bool → Value
    int64 : ℤ → Value
    uint64 : ℕ → Value
    double : ℕ → Value
    string : Bytes → Value
    array : Items → Value
    object : Fields → Value

  pub data Items : Type 0 where
    nil : Items
    cons : Value → Items → Items

  pub data Fields : Type 0 where
    end : Fields
    field : Bytes → Value → Fields → Fields

-- object.find(key)
unfoldable pub find : Bytes → Fields → Option Value
unfolding str_eq
find k end = none
find k (field j v fs) = if str_eq j k then some v else find k fs

-- object[key] = value: the member is replaced, or added at the end.
unfoldable pub assign : Bytes → Value → Fields → Fields
unfolding str_eq
assign k v end = field k v end
assign k v (field j w fs) = if str_eq j k then field j v fs else field j w (assign k v fs)

abbrev or_out_of_range : Option Value → Outcome Value
or_out_of_range none = throws out_of_range
or_out_of_range (some v) = returns v

-- value.at(key) throws on a value that is no object and on a missing key.
unfoldable pub at_key : Bytes → Value → Outcome Value
unfolding find
at_key k (object fs) = or_out_of_range (find k fs)
at_key k _ = throws wrong_kind

unfoldable pub as_int64 : Value → Outcome ℤ
as_int64 (int64 z) = returns z
as_int64 _ = throws wrong_kind

unfoldable pub as_bool : Value → Outcome Bool
as_bool (boolean b) = returns b
as_bool _ = throws wrong_kind

unfoldable pub as_double : Value → Outcome ℕ
as_double (double d) = returns d
as_double _ = throws wrong_kind

unfoldable pub as_string : Value → Outcome Bytes
as_string (string s) = returns s
as_string _ = throws wrong_kind

unfoldable pub as_array : Value → Outcome Items
as_array (array xs) = returns xs
as_array _ = throws wrong_kind

-- to_number<uint32_t>, where `exact` gives the number that a double is.
unfoldable pub to_uint32_number : (ℕ → Option ℕ) → Value → Outcome ℕ
to_uint32_number exact (int64 (pos n)) = if ltb n (2 ^ 32) then returns n else throws not_exact
to_uint32_number exact (int64 (negsuc n)) = throws not_exact
to_uint32_number exact (uint64 n) = if ltb n (2 ^ 32) then returns n else throws not_exact
to_uint32_number exact (double d) = elim (exact d) [
  | none ↦ throws not_exact
  | some n ↦ if ltb n (2 ^ 32) then returns n else throws not_exact
]
to_uint32_number exact _ = throws wrong_kind

-- array.at(0), and the elements after it.
unfoldable pub first_item : Items → Outcome Value
first_item nil = throws out_of_range
first_item (cons v xs) = returns v

unfoldable pub other_items : Items → Items
other_items nil = nil
other_items (cons v xs) = xs

-- What is read back where `v` was printed: an unsigned number that fits becomes a signed one, and a
-- double becomes what its decimal print stands for.
unfoldable mutual
  pub normalise : (ℕ → ℕ) → Value → Value
  normalise reread null = null
  normalise reread (boolean b) = boolean b
  normalise reread (int64 z) = int64 z
  normalise reread (uint64 n) = if ltb n (2 ^ 63) then int64 (pos n) else uint64 n
  normalise reread (double d) = double (reread d)
  normalise reread (string s) = string s
  normalise reread (array xs) = array (normalise_items reread xs)
  normalise reread (object fs) = object (normalise_fields reread fs)

  pub normalise_items : (ℕ → ℕ) → Items → Items
  normalise_items reread nil = nil
  normalise_items reread (cons v xs) = cons (normalise reread v) (normalise_items reread xs)

  pub normalise_fields : (ℕ → ℕ) → Fields → Fields
  normalise_fields reread end = end
  normalise_fields reread (field k v fs) = field k (normalise reread v) (normalise_fields reread fs)

pub data Parsed : Type 0 where
  parsed : Value → Parsed
  failed : Code → Parsed

-- boost::json::parse and boost::json::serialize, and the conversions float to double and back on bit
-- patterns. `Printable v` holds where Boost.JSON documents that the print of `v` reads back (valid
-- UTF-8, bounded depth).
pub record Platform : Type 1 where
  pub parse : Bytes → Parsed
  pub serialize : Value → Bytes
  pub reread : ℕ → ℕ
  pub widen : ℕ → ℕ
  pub narrow : ℕ → ℕ
  pub Printable : Value → Type 0
  pub parse-serialize :
      (v : Value) → Printable v → parse (serialize v) ≡ parsed (normalise reread v)
  pub parse-failed : (b : Bytes) (c : Code) → parse b ≡ failed c → c ≢ success
