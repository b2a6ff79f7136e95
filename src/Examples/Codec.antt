-- ===== src/Examples/Codec.antt =====
-- A concrete `Platform`: a prefix code for JSON trees with its decoder, which shows that the laws asked
-- of the JSON library can hold together, and on which the witnesses run.
use mathlib.Core.List.{append_assoc, append-nil}
use network_application.Base.{
  ℕ, zero, suc, ◌+◌, ◌^◌, ◌≤◌, ◌≡◌, ◌≢◌, refl, Bool, true, false, Option, none, some, pos, negsuc,
  Bytes, [], ◌∷◌, ◌++◌, length, take, drop, take-append, drop-append, length-append, ltb, ◌==◌,
  arith, Bool-cases, inl, inr,
}
use network_application.Errors.Codes.{Code, success, syntax}
use network_application.Json.{
  Value, null, boolean, int64, uint64, double, string, array, object, Items, nil, cons, Fields, end,
  field, normalise, normalise_items, normalise_fields, Platform, Parsed, parsed, failed,
}

abbrev pub keep : ℕ → ℕ
keep n = n

-- A text is its length and its bytes.
unfoldable pub encode_text : Bytes → Bytes
encode_text s = length s ∷ s

encode_uint : ℕ → Bool → Bytes
encode_uint n true = 2 ∷ n ∷ []
encode_uint n false = 4 ∷ n ∷ []

unfoldable mutual
  unfolding encode_uint

  pub encode : Value → Bytes
  encode null = 0 ∷ []
  encode (boolean true) = 1 ∷ 1 ∷ []
  encode (boolean false) = 1 ∷ 0 ∷ []
  encode (int64 (pos n)) = 2 ∷ n ∷ []
  encode (int64 (negsuc n)) = 3 ∷ n ∷ []
  encode (uint64 n) = encode_uint n (ltb n (2 ^ 63))
  encode (double d) = 5 ∷ d ∷ []
  encode (string s) = 6 ∷ encode_text s
  encode (array xs) = 7 ∷ encode_items xs
  encode (object fs) = 8 ∷ encode_fields fs

  encode_items : Items → Bytes
  encode_items nil = 0 ∷ []
  encode_items (cons v xs) = 1 ∷ (encode v ++ encode_items xs)

  encode_fields : Fields → Bytes
  encode_fields end = 0 ∷ []
  encode_fields (field k v fs) = 1 ∷ (encode_text k ++ (encode v ++ encode_fields fs))

infixl 5 ◌>>=◌
abbrev ◌>>=◌ : {A B : Type 0} → Option A → (A → Option B) → Option B
none >>= f = none
some a >>= f = f a

unfoldable pub decode_text : Bytes → Option (Bytes × Bytes)
decode_text [] = none
decode_text (n ∷ b) = some (take n b, drop n b)

-- The first number tells the kind; a decoder for the members follows.
mutual
  decode : ℕ → Bytes → Option (Value × Bytes)
  decode zero b = none
  decode (suc f) [] = none
  decode (suc f) (zero ∷ b) = some (null, b)
  decode (suc f) (suc zero ∷ []) = none
  decode (suc f) (suc zero ∷ n ∷ b) = some (boolean (n == 1), b)
  decode (suc f) (suc (suc zero) ∷ []) = none
  decode (suc f) (suc (suc zero) ∷ n ∷ b) = some (int64 (pos n), b)
  decode (suc f) (suc (suc (suc zero)) ∷ []) = none
  decode (suc f) (suc (suc (suc zero)) ∷ n ∷ b) = some (int64 (negsuc n), b)
  decode (suc f) (suc (suc (suc (suc zero))) ∷ []) = none
  decode (suc f) (suc (suc (suc (suc zero))) ∷ n ∷ b) = some (uint64 n, b)
  decode (suc f) (suc (suc (suc (suc (suc zero)))) ∷ []) = none
  decode (suc f) (suc (suc (suc (suc (suc zero)))) ∷ n ∷ b) = some (double n, b)
  decode (suc f) (suc (suc (suc (suc (suc (suc zero))))) ∷ b) = do
    (s, r) ← decode_text b
    some (string s, r)
  decode (suc f) (suc (suc (suc (suc (suc (suc (suc zero)))))) ∷ b) = do
    (xs, r) ← decode_items f b
    some (array xs, r)
  decode (suc f) (suc (suc (suc (suc (suc (suc (suc (suc k))))))) ∷ b) = do
    (fs, r) ← decode_fields f b
    some (object fs, r)

  decode_items : ℕ → Bytes → Option (Items × Bytes)
  decode_items zero b = none
  decode_items (suc f) [] = none
  decode_items (suc f) (zero ∷ b) = some (nil, b)
  decode_items (suc f) (suc k ∷ b) = do
    (v, r) ← decode f b
    (xs, q) ← decode_items f r
    some (cons v xs, q)

  decode_fields : ℕ → Bytes → Option (Fields × Bytes)
  decode_fields zero b = none
  decode_fields (suc f) [] = none
  decode_fields (suc f) (zero ∷ b) = some (end, b)
  decode_fields (suc f) (suc k ∷ b) = do
    (s, r) ← decode_text b
    (v, q) ← decode f r
    (fs, p) ← decode_fields f q
    some (field s v fs, p)

mutual
  size : Value → ℕ
  size (array xs) = suc (size_items xs)
  size (object fs) = suc (size_fields fs)
  size _ = 1

  size_items : Items → ℕ
  size_items nil = 1
  size_items (cons v xs) = suc (size v + size_items xs)

  size_fields : Fields → ℕ
  size_fields end = 1
  size_fields (field k v fs) = suc (size v + size_fields fs)

decode_text-encode_text : (s rest : Bytes) → decode_text (encode_text s ++ rest) ≡ some (s, rest)
unfolding decode_text encode_text
decode_text-encode_text s rest = rw (take-append s rest, drop-append s rest)

mutual
  unfolding decode encode normalise size encode_uint

  decode-encode :
      (v : Value) (f : ℕ) (rest : Bytes)
      → size v ≤ f
      → decode f (encode v ++ rest) ≡ some (normalise keep v, rest)
  decode-encode null zero rest h = absurd (omega arith)
  decode-encode null (suc f) rest h = refl
  decode-encode (boolean b) zero rest h = absurd (omega arith)
  decode-encode (boolean true) (suc f) rest h = refl
  decode-encode (boolean false) (suc f) rest h = refl
  decode-encode (int64 z) zero rest h = absurd (omega arith)
  decode-encode (int64 (pos n)) (suc f) rest h = refl
  decode-encode (int64 (negsuc n)) (suc f) rest h = refl
  decode-encode (uint64 n) zero rest h = absurd (omega arith)
  decode-encode (uint64 n) (suc f) rest h = elim (Bool-cases (ltb n (2 ^ 63))) [
    | inl t ↦ rw t
    | inr t ↦ rw t
  ]
  decode-encode (double d) zero rest h = absurd (omega arith)
  decode-encode (double d) (suc f) rest h = refl
  decode-encode (string s) zero rest h = absurd (omega arith)
  decode-encode (string s) (suc f) rest h = rw (decode_text-encode_text s rest)
  decode-encode (array xs) zero rest h = absurd (omega arith)
  decode-encode (array xs) (suc f) rest h = rw (decode_items-encode_items xs f rest (omega arith))
  decode-encode (object fs) zero rest h = absurd (omega arith)
  decode-encode (object fs) (suc f) rest h =
      rw (decode_fields-encode_fields fs f rest (omega arith))

  decode_items-encode_items :
      (xs : Items) (f : ℕ) (rest : Bytes)
      → size_items xs ≤ f
      → decode_items f (encode_items xs ++ rest) ≡ some (normalise_items keep xs, rest)
  decode_items-encode_items nil zero rest h = absurd (omega arith)
  decode_items-encode_items nil (suc f) rest h = refl
  decode_items-encode_items (cons v xs) zero rest h = absurd (omega arith)
  decode_items-encode_items (cons v xs) (suc f) rest h = rw (
    append_assoc (encode v) (encode_items xs) rest,
    decode-encode v f (encode_items xs ++ rest) (omega arith),
    decode_items-encode_items xs f rest (omega arith),
  )

  decode_fields-encode_fields :
      (fs : Fields) (f : ℕ) (rest : Bytes)
      → size_fields fs ≤ f
      → decode_fields f (encode_fields fs ++ rest) ≡ some (normalise_fields keep fs, rest)
  decode_fields-encode_fields end zero rest h = absurd (omega arith)
  decode_fields-encode_fields end (suc f) rest h = refl
  decode_fields-encode_fields (field k v fs) zero rest h = absurd (omega arith)
  decode_fields-encode_fields (field k v fs) (suc f) rest h = rw (
    append_assoc (encode_text k) (encode v ++ encode_fields fs) rest,
    decode_text-encode_text k ((encode v ++ encode_fields fs) ++ rest),
    append_assoc (encode v) (encode_fields fs) rest,
    decode-encode v f (encode_fields fs ++ rest) (omega arith),
    decode_fields-encode_fields fs f rest (omega arith),
  )

mutual
  unfolding encode size encode_uint encode_text

  size-le : (v : Value) → size v ≤ length (encode v)
  size-le null = omega arith
  size-le (boolean true) = omega arith
  size-le (boolean false) = omega arith
  size-le (int64 (pos n)) = omega arith
  size-le (int64 (negsuc n)) = omega arith
  size-le (uint64 n) = elim (Bool-cases (ltb n (2 ^ 63))) [
    | inl t ↦ rw t (omega arith)
    | inr t ↦ rw t (omega arith)
  ]
  size-le (double d) = omega arith
  size-le (string s) = omega arith
  size-le (array xs) = omega (arith, size_items-le xs)
  size-le (object fs) = omega (arith, size_fields-le fs)

  size_items-le : (xs : Items) → size_items xs ≤ length (encode_items xs)
  size_items-le nil = omega arith
  size_items-le (cons v xs) =
      omega (arith, size-le v, size_items-le xs, length-append (encode v) (encode_items xs))

  size_fields-le : (fs : Fields) → size_fields fs ≤ length (encode_fields fs)
  size_fields-le end = omega arith
  size_fields-le (field k v fs) = omega (
    arith,
    size-le v,
    size_fields-le fs,
    length-append (encode v) (encode_fields fs),
    length-append k (encode v ++ encode_fields fs),
  )

whole : Option (Value × Bytes) → Parsed
whole none = failed syntax
whole (some (v, rest)) = parsed v

unfoldable pub parse_code : Bytes → Parsed
unfolding whole decode
parse_code b = whole (decode (length b) b)

pub parse_code-encode : (v : Value) → Unit {0} → parse_code (encode v) ≡ parsed (normalise keep v)
unfolding parse_code
parse_code-encode v u =
    rw (← append-nil (encode v))
      (rw (decode-encode v (length (encode v ++ [])) [] (rw append-nil (size-le v))))

whole-failed : (o : Option (Value × Bytes)) (c : Code) → whole o ≡ failed c → c ≢ success
unfolding whole
whole-failed none c h e = cc
whole-failed (some (v, rest)) c h e = cc

pub parse_code-failed : (b : Bytes) (c : Code) → parse_code b ≡ failed c → c ≢ success
unfolding parse_code
parse_code-failed b c h = whole-failed (decode (length b) b) c h

abbrev pub codec : Platform
codec = record {
  parse = parse_code;
  serialize = encode;
  reread = keep;
  widen = keep;
  narrow = keep;
  Printable = λ v. Unit;
  parse-serialize = parse_code-encode;
  parse-failed = parse_code-failed;
}
