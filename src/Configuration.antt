-- ===== src/Configuration.antt =====
-- core/configuration_handler: the JSON files of the server and the client (configuration_handler.cpp).
-- The file system is a parameter.
pub mod Laws
use network_application.Base.{
  ◌≡◌, ◌↔◌, ◌&&◌, refl, ap, pos, Bytes, Bool, true, false, not, List, [], ◌∷◌, Option, none, some,
  if◌then◌else◌, codes,
}
use network_application.Base.Outcome.{
  Outcome, returns, throws, ◌>>◌, runtime_error, invalid_argument, wrong_kind,
}
use network_application.Base.Table.{Eq, lookup, insert}
use network_application.Json
use network_application.Json.{
  Value, boolean, int64, string, array, object, Items, nil, cons, Fields, end, field, find,
  Platform, Parsed, parsed, failed,
}

-- enum class Configuration
pub data Configuration : Type 0 where
  connection : Configuration

-- enum class User
pub data User : Type 0 where
  server client : User

-- A call on the files: what it returned or threw, and the files after it.
pub record Wrote (Files : Type 0) : Type 0 where
  pub outcome : Outcome (Unit {0})
  pub files : Files

-- What the program uses of std::filesystem and the file streams. A file that can be written is read
-- back, and exists, with what was written.
pub record Disk : Type 1 where
  pub Files : Type 0
  pub open_read : Files → Bytes → Option Bytes
  pub parent_path : Bytes → Bytes
  pub exists : Files → Bytes → Bool
  pub create_directories : Files → Bytes → Wrote Files
  pub open_write : Files → Bytes → Bytes → Option Files
  pub read-write :
      (f g : Files) (path content : Bytes)
      → open_write f path content ≡ some g
      → open_read g path ≡ some content

abbrev pub key_beq : User × Configuration → User × Configuration → Bool
key_beq (server, connection) (server, connection) = true
key_beq (client, connection) (client, connection) = true
key_beq _ _ = false

pub key_beq_iff : (a b : User × Configuration) → (key_beq a b ≡ true) ↔ (a ≡ b)
key_beq_iff (server, connection) (server, connection) = ((λ e. refl), (λ e. refl))
key_beq_iff (client, connection) (client, connection) = ((λ e. refl), (λ e. refl))
key_beq_iff (server, connection) (client, connection) = ((λ e. cc), (λ e. cc))
key_beq_iff (client, connection) (server, connection) = ((λ e. cc), (λ e. cc))

instance abbrev pub key_eq : Eq (User × Configuration)
key_eq = record { beq = key_beq; beq_iff = key_beq_iff }

-- The member configMap.
pub record ConfigurationHandler : Type 0 where
  pub config_map : List ((User × Configuration) × Bytes)

-- setPath
unfoldable pub set_path : ConfigurationHandler → Configuration → User → Bytes → ConfigurationHandler
unfolding insert
set_path h config user path = record { config_map = insert (user, config) path h.config_map }

-- ConfigurationHandler()
unfoldable pub configuration_handler : ConfigurationHandler
unfolding set_path
configuration_handler =
    set_path
      (set_path (record { config_map = [] }) connection server
        (codes "../config/server_connection.json"))
      connection client (codes "../config/client_connection.json")

-- The texts of the members.
abbrev pub ports : Bytes
ports = codes "ports"

abbrev pub multi_connect : Bytes
multi_connect = codes "multiConnect"

abbrev pub magic : Bytes
magic = codes "magic"

abbrev pub address : Bytes
address = codes "address"

abbrev pub port : Bytes
port = codes "port"

-- createDefaultObject
unfoldable pub default_fields : User → Fields
default_fields server = field ports (array (cons (int64 (pos 10000)) nil)) (
    field multi_connect (array (cons (boolean false) nil))
      (field magic (array (cons (int64 (pos 123456)) nil)) end))
default_fields client =
    field address (string (codes "127.0.0.1"))
      (field port (int64 (pos 10000)) (field magic (int64 (pos 123456)) end))

unfoldable pub create_default_object : User → Value
unfolding default_fields
create_default_object user = object (default_fields user)

or_invalid : Option Bytes → Outcome Bytes
or_invalid none = throws invalid_argument
or_invalid (some path) = returns path

-- getFilePath
unfoldable pub get_file_path : ConfigurationHandler → Configuration → User → Outcome Bytes
unfolding lookup or_invalid
get_file_path h config user = or_invalid (lookup (user, config) h.config_map)

unfoldable pub is_array : Option Value → Bool
is_array (some (array xs)) = true
is_array _ = false

unfoldable pub is_string : Option Value → Bool
is_string (some (string s)) = true
is_string _ = false

unfoldable pub is_int64 : Option Value → Bool
is_int64 (some (int64 z)) = true
is_int64 _ = false

-- The test of getData on the members of the object.
unfoldable pub is_valid : User → Fields → Bool
unfolding is_array is_string is_int64 find
is_valid server obj =
    is_array (find ports obj) && (is_array (find multi_connect obj) && is_array (find magic obj))
is_valid client obj =
    is_string (find address obj) && (is_int64 (find port obj) && is_int64 (find magic obj))

-- root.is_object()
unfoldable pub is_object : Value → Bool
is_object (object fs) = true
is_object _ = false

-- The last part of getData: as_object and the test.
unfoldable pub checked : User → Value → Outcome Fields
unfolding is_valid
checked user (object obj) = if is_valid user obj then returns obj else throws runtime_error
checked user _ = throws wrong_kind

-- What a call of getData did.
pub record Got (Files : Type 0) : Type 0 where
  pub result : Outcome Fields
  pub files : Files

module _ (platform : Platform) (disk : Disk) where
  open disk use {Files}

  -- json::parse(content) throws on a text that is no JSON.
  unfoldable pub read_content : Option Bytes → Outcome Value
  read_content none = throws runtime_error
  read_content (some content) = elim (platform.parse content) [
    | parsed v ↦ returns v
    | failed c ↦ throws runtime_error
  ]

  -- readFileJson
  unfoldable pub read_file_json : Files → Bytes → Outcome Value
  unfolding read_content
  read_file_json f path = read_content (disk.open_read f path)

  -- The directories that writeFileJson makes.
  unfoldable pub make_parent : Files → Bytes → Wrote Files
  make_parent f [] = record { outcome = returns tt; files = f }
  make_parent f (b ∷ bs) =
      if disk.exists f (b ∷ bs)
      then record { outcome = returns tt; files = f }
      else disk.create_directories f (b ∷ bs)

  -- The end of writeFileJson, by whether the file was opened.
  unfoldable pub written : Files → Option Files → Wrote Files
  written f none = record { outcome = throws runtime_error; files = f }
  written f (some g) = record { outcome = returns tt; files = g }

  -- writeFileJson after the directories.
  unfoldable pub finish_write : Files → Outcome (Unit {0}) → Bytes → Value → Wrote Files
  unfolding written
  finish_write f (throws e) path v = record { outcome = throws e; files = f }
  finish_write f (returns u) path v = written f (disk.open_write f path (platform.serialize v))

  -- writeFileJson
  unfoldable pub write_file_json : Files → Bytes → Value → Wrote Files
  unfolding make_parent finish_write
  write_file_json f path v =
      let made = make_parent f (disk.parent_path path) in
      finish_write made.files made.outcome path v

  -- root = createDefaultObject(user); writeFileJson(filePath, root); and the test of the members.
  unfoldable pub write_default : Files → Bytes → User → Got Files
  unfolding write_file_json create_default_object checked
  write_default f path user =
      let w = write_file_json f path (create_default_object user) in
      record { result = w.outcome >> checked user (create_default_object user); files = w.files }

  -- getData from the result of readFileJson.
  unfoldable pub from_root : Files → Bytes → User → Outcome Value → Got Files
  unfolding write_default checked is_object
  from_root f path user (throws e) = write_default f path user
  from_root f path user (returns root) =
      if is_object root
      then record { result = checked user root; files = f }
      else write_default f path user

  -- getData from the result of getFilePath.
  unfoldable pub from_path : Files → User → Outcome Bytes → Got Files
  unfolding from_root read_file_json
  from_path f user (throws e) = record { result = throws e; files = f }
  from_path f user (returns path) = from_root f path user (read_file_json f path)

  -- getData
  unfoldable pub get_data : ConfigurationHandler → Configuration → User → Files → Got Files
  unfolding get_file_path from_path
  get_data h config user f = from_path f user (get_file_path h config user)
