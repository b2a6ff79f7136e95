-- ===== src/Configuration/Laws.antt =====
-- What getData returns and leaves on the disk.
use network_application.Base.{
  ◌≡◌, ℕ, ℤ, ap, ◌∙◌, if_true, if_false, ◌&&◌, Bool, false, Option, some, refl, Bytes, true,
  Option-cases, if◌then◌else◌, Bool-cases, inl, inr, arith, ◌⊎◌,
}
use network_application.Base.Outcome.{
  Outcome, returns, throws, runtime_error, >>=-eq-returns, Exception,
}
use network_application.Json.{
  Value, Fields, Items, find, object, array, string, int64, normalise, Platform,
}
use network_application.Configuration.{
  ports, multi_connect, magic, address, port, is_array, is_string, is_int64, Configuration, User,
  server, client, Disk, ConfigurationHandler, is_valid, default_fields, create_default_object,
  checked, get_file_path, read_file_json, finish_write, write_file_json, read_content, from_path,
  write_default, from_root, get_data, is_object, make_parent,
}

Outcome-cases :
    {A : Type 0} (o : Outcome A) → ((e : Exception) × (o ≡ throws e)) ⊎ ((a : A) × (o ≡ returns a))
Outcome-cases (throws e) = inl (e, refl)
Outcome-cases (returns a) = inr (a, refl)

-- The members of the configuration of the server and of the client, with their kinds.
abbrev pub Kinds : User → Fields → Type 0
Kinds server obj =
    ((xs : Items) × (find ports obj ≡ some (array xs)))
    × ((xs : Items) × (find multi_connect obj ≡ some (array xs)))
    × ((xs : Items) × (find magic obj ≡ some (array xs)))
Kinds client obj =
    ((s : Bytes) × (find address obj ≡ some (string s)))
    × ((z : ℤ) × (find port obj ≡ some (int64 z)))
    × ((z : ℤ) × (find magic obj ≡ some (int64 z)))

is_array-some : (o : Option Value) → is_array o ≡ true → (xs : Items) × (o ≡ some (array xs))
unfolding is_array
is_array-some (some (array xs)) h = (xs, refl)
is_array-some _ h = absurd (ground arith)

is_string-some : (o : Option Value) → is_string o ≡ true → (s : Bytes) × (o ≡ some (string s))
unfolding is_string
is_string-some (some (string s)) h = (s, refl)
is_string-some _ h = absurd (ground arith)

is_int64-some : (o : Option Value) → is_int64 o ≡ true → (z : ℤ) × (o ≡ some (int64 z))
unfolding is_int64
is_int64-some (some (int64 z)) h = (z, refl)
is_int64-some _ h = absurd (ground arith)

both : (a b c : Bool) → (a && (b && c)) ≡ true → (a ≡ true) × (b ≡ true) × (c ≡ true)
both a b c h = (ground arith, ground arith, ground arith)

is_valid-Kinds : (user : User) (obj : Fields) → is_valid user obj ≡ true → Kinds user obj
unfolding is_valid
is_valid-Kinds server obj h =
    let t = both _ _ _ h in (is_array-some _ t.0, is_array-some _ t.1, is_array-some _ t.2)
is_valid-Kinds client obj h =
    let t = both _ _ _ h in (is_string-some _ t.0, is_int64-some _ t.1, is_int64-some _ t.2)

Kinds-is_valid : (user : User) (obj : Fields) → Kinds user obj → is_valid user obj ≡ true
unfolding is_valid is_array is_string is_int64
Kinds-is_valid server obj k = rw (k.0.1, k.1.1, k.2.1) refl
Kinds-is_valid client obj k = rw (k.0.1, k.1.1, k.2.1) refl

not_Kinds-is_valid : (user : User) (obj : Fields) → ¬ Kinds user obj → is_valid user obj ≡ false
not_Kinds-is_valid user obj lacks = elim (Bool-cases (is_valid user obj)) [
  | inl h ↦ absurd (lacks (is_valid-Kinds user obj h))
  | inr h ↦ h
]

default_fields-is_valid : (user : User) → is_valid user (default_fields user) ≡ true
unfolding is_valid default_fields
default_fields-is_valid server = refl
default_fields-is_valid client = refl

default-checked :
    (user : User) → checked user (create_default_object user) ≡ returns (default_fields user)
unfolding checked create_default_object
default-checked server = refl
default-checked client = refl

default-normalise :
    (reread : ℕ → ℕ) (user : User)
    → normalise reread (create_default_object user) ≡ create_default_object user
unfolding normalise create_default_object
default-normalise reread server = refl
default-normalise reread client = refl

checked-is_valid :
    (user : User) (v : Value) (obj : Fields)
    → checked user v ≡ returns obj
    → (v ≡ object obj) × (is_valid user obj ≡ true)
unfolding checked
checked-is_valid user (object fs) obj h = elim (Bool-cases (is_valid user fs)) [
  | inl t ↦ ground arith
  | inr f ↦ absurd (ground arith)
]
checked-is_valid user _ obj h = cc

module _ (platform : Platform) (disk : Disk) where
  -- What was written is read back.
  read_file_json-finish_write :
      (f : disk.Files) (o : Outcome (Unit {0})) (path : Bytes) (v : Value)
      → platform.Printable v
      → (finish_write platform disk f o path v).outcome ≡ returns tt
      → read_file_json platform disk (finish_write platform disk f o path v).files path
        ≡ returns (normalise platform.reread v)
  unfolding finish_write read_file_json
  read_file_json-finish_write f (throws e) path v prints done = cc
  read_file_json-finish_write f (returns u) path v prints done =
      elim (Option-cases (disk.open_write f path (platform.serialize v))) [
        | inl shut ↦ absurd (ground arith)
        | inr (g, opened) ↦ rw (
          opened,
          disk.read-write f g path (platform.serialize v) opened,
          read_content,
          platform.parse-serialize v prints,
        )
      ]

  -- A default that was returned was written.
  write_default-returns :
      (f : disk.Files) (path : Bytes) (user : User) (obj : Fields)
      → (write_default platform disk f path user).result ≡ returns obj
      → (obj ≡ default_fields user)
        × ((write_file_json platform disk f path (create_default_object user)).outcome ≡ returns tt)
  unfolding write_default
  write_default-returns f path user obj h =
      let w = write_file_json platform disk f path (create_default_object user) in
      let (u, went, same) =
        >>=-eq-returns w.outcome (λ _. checked user (create_default_object user)) h in
      let this : checked user (create_default_object user) ≡ returns (default_fields user) =
        default-checked user in
      (cc, went)

  default-kept :
      (f : disk.Files) (path : Bytes) (user : User)
      → from_root platform disk f path user (returns (create_default_object user))
        ≡ record { result = returns (default_fields user); files = f }
  unfolding from_root create_default_object
  default-kept f path server = refl
  default-kept f path client = refl

  default-again :
      (f : disk.Files) (path : Bytes) (user : User) (obj : Fields)
      → platform.Printable (create_default_object user)
      → (write_default platform disk f path user).result ≡ returns obj
      → from_root platform disk
          (write_default platform disk f path user).files
          path
          user
          (read_file_json platform disk (write_default platform disk f path user).files path)
        ≡ record { result = returns obj; files = (write_default platform disk f path user).files }
  unfolding write_default from_root
  default-again f path user obj prints h =
      let (same, went) = write_default-returns f path user obj h in
      let made = make_parent platform disk f (disk.parent_path path) in
      rw
        (
          read_file_json-finish_write made.files made.outcome path (create_default_object user)
              prints (unfold write_file_json in went),
          default-normalise platform.reread user,
          default-kept (write_default platform disk f path user).files path user,
          same,
        )
        refl

  from_root-again :
      (f : disk.Files) (path : Bytes) (user : User) (o : Outcome Value) (obj : Fields)
      → platform.Printable (create_default_object user)
      → read_file_json platform disk f path ≡ o
      → (from_root platform disk f path user o).result ≡ returns obj
      → from_root platform disk
          (from_root platform disk f path user o).files
          path
          user
          (read_file_json platform disk (from_root platform disk f path user o).files path)
        ≡ record { result = returns obj; files = (from_root platform disk f path user o).files }
  unfolding from_root
  from_root-again f path user (throws e) obj prints read h = default-again f path user obj prints h
  from_root-again f path user (returns root) obj prints read h =
      elim (Bool-cases (is_object root)) [
        | inl is ↦
            let got : checked user root ≡ returns obj = rw is at h in rw (is, read, is, got) refl
        | inr isnt ↦ rw isnt (default-again f path user obj prints (rw isnt at h))
      ]

  from_path-again :
      (f : disk.Files) (user : User) (o : Outcome Bytes) (obj : Fields)
      → platform.Printable (create_default_object user)
      → (from_path platform disk f user o).result ≡ returns obj
      → from_path platform disk (from_path platform disk f user o).files user o
        ≡ record { result = returns obj; files = (from_path platform disk f user o).files }
  unfolding from_path
  from_path-again f user (throws e) obj prints h = cc
  from_path-again f user (returns path) obj prints h =
      from_root-again f path user (read_file_json platform disk f path) obj prints refl h

  -- If getData returns an object, then asking again returns the same object and leaves the files as the
  -- first call left them, whether it came from the file or is the default that was written there. The
  -- user's default object is one that the JSON library prints and reads back.
  pub get_data-again :
      (h : ConfigurationHandler) (config : Configuration) (user : User) (f : disk.Files)
      (obj : Fields)
      → platform.Printable (create_default_object user)
      → (get_data platform disk h config user f).result ≡ returns obj
      → get_data platform disk h config user (get_data platform disk h config user f).files
        ≡ record { result = returns obj; files = (get_data platform disk h config user f).files }
  unfolding get_data
  get_data-again h config user f obj prints r =
      from_path-again f user (get_file_path h config user) obj prints r

  write_default-is_valid :
      (f : disk.Files) (path : Bytes) (user : User) (obj : Fields)
      → (write_default platform disk f path user).result ≡ returns obj
      → is_valid user obj ≡ true
  write_default-is_valid f path user obj h =
      rw (write_default-returns f path user obj h).0 (default_fields-is_valid user)

  from_path-is_valid :
      (f : disk.Files) (user : User) (o : Outcome Bytes) (obj : Fields)
      → (from_path platform disk f user o).result ≡ returns obj
      → is_valid user obj ≡ true
  unfolding from_path from_root
  from_path-is_valid f user (throws e) obj h = cc
  from_path-is_valid f user (returns path) obj h =
      elim (Outcome-cases (read_file_json platform disk f path)) [
        | inl (e, threw) ↦ write_default-is_valid f path user obj (rw threw at h)
        | inr (root, read) ↦ elim (Bool-cases (is_object root)) [
          | inl is ↦ (checked-is_valid user root obj (rw (read, is) at h)).1
          | inr isnt ↦ write_default-is_valid f path user obj (rw (read, isnt) at h)
        ]
      ]

  -- An object that getData returns has its user's members: three arrays for the server, and a string
  -- and two signed integers for the client.
  pub get_data-is_valid :
      (h : ConfigurationHandler) (config : Configuration) (user : User) (f : disk.Files)
      (obj : Fields)
      → (get_data platform disk h config user f).result ≡ returns obj
      → is_valid user obj ≡ true
  unfolding get_data
  get_data-is_valid h config user f obj r =
      from_path-is_valid f user (get_file_path h config user) obj r

  -- A file that holds an object is never overwritten: getData leaves the files as they were, and returns
  -- the object if its members are valid and throws runtime_error if not.
  pub get_data-object :
      (h : ConfigurationHandler) (config : Configuration) (user : User) (f : disk.Files)
      (path : Bytes) (obj : Fields)
      → get_file_path h config user ≡ returns path
      → read_file_json platform disk f path ≡ returns (object obj)
      → get_data platform disk h config user f ≡ record {
        result = if is_valid user obj then returns obj else throws runtime_error;
        files = f;
      }
  unfolding get_data from_path from_root checked
  get_data-object h config user f path obj found read = rw (found, read) refl

  -- An object that getData returns has its user's members with their kinds: three arrays for the server,
  -- and a string and two signed integers for the client. Where the user's file holds an object with these
  -- members, getData returns it, where it holds one without them, getData throws runtime_error, and it
  -- leaves both files as they were.
  pub get_data-checked :
      (h : ConfigurationHandler) (config : Configuration) (user : User) (f g k : disk.Files)
      (got good bad : Fields) (path : Bytes)
      → (get_data platform disk h config user f).result ≡ returns got
      → get_file_path h config user ≡ returns path
      → read_file_json platform disk g path ≡ returns (object good)
      → read_file_json platform disk k path ≡ returns (object bad)
      → Kinds user good
      → ¬ Kinds user bad
      → Kinds user got
        × (get_data platform disk h config user g ≡ record { result = returns good; files = g })
        × (get_data platform disk h config user k
            ≡ record { result = throws runtime_error; files = k })
  get_data-checked h config user f g k got good bad path r found read_good read_bad has lacks = (
    is_valid-Kinds user got (get_data-is_valid h config user f got r),
    get_data-object h config user g path good found read_good
        ∙ ap (λ o. record { result = o; files = g })
            (if_true (is_valid user good) (returns good) (throws runtime_error)
              (Kinds-is_valid user good has)),
    get_data-object h config user k path bad found read_bad
        ∙ ap (λ o. record { result = o; files = k })
            (if_false (is_valid user bad) (returns bad) (throws runtime_error)
              (not_Kinds-is_valid user bad lacks)),
  )
