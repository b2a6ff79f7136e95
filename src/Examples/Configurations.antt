-- ===== src/Examples/Configurations.antt =====
-- A disk with one file at most, and the theorems on configurations at concrete files.
use network_application.Base.{
  arith, str_eq, ◌≡◌, refl, true, Bytes, [], Option, none, some, pos, codes,
}
use network_application.Base.Outcome.{returns, throws, runtime_error}
use network_application.Json.{find, int64, object, Fields, end, field}
use network_application.Configuration.{
  connection, client, Disk, configuration_handler, default_fields, get_data, port, key_eq,
  get_file_path, read_file_json,
}
use network_application.Configuration.Laws.{Kinds, get_data-again, get_data-checked}
use network_application.Examples.Codec.{parse_code, decode_text, codec, encode, encode_text}

written_back :
    (f g : Option Bytes) (path content : Bytes) → some (some content) ≡ some g → g ≡ some content
written_back f g path content e = cc

-- The content of the only file, if it is there.
abbrev one_file : Disk
one_file = record {
  Files = Option Bytes;
  open_read = λ f path. f;
  parent_path = λ path. [];
  exists = λ f path. true;
  create_directories = λ f path. record { outcome = returns tt; files = f };
  open_write = λ f path content. some (some content);
  read-write = written_back;
}

get_data-again_example :
    get_data codec one_file configuration_handler connection client
      (get_data codec one_file configuration_handler connection client none).files
    ≡ record {
      result = returns (default_fields client);
      files = (get_data codec one_file configuration_handler connection client none).files;
    }
unfolding get_data configuration_handler default_fields
get_data-again_example =
    get_data-again codec one_file configuration_handler connection client none
      (default_fields client) tt refl

-- A port and no more.
abbrev port_only : Fields
port_only = field port (int64 (pos 1)) end

get_data-checked_example :
    Kinds client (default_fields client)
    × (get_data codec one_file configuration_handler connection client
          (some (encode (object (default_fields client))))
        ≡ record {
          result = returns (default_fields client);
          files = some (encode (object (default_fields client)));
        })
    × (get_data codec one_file configuration_handler connection client
          (some (encode (object port_only)))
        ≡ record { result = throws runtime_error; files = some (encode (object port_only)) })
unfolding get_data get_file_path configuration_handler default_fields read_file_json parse_code
    encode decode_text encode_text find str_eq
get_data-checked_example =
    get_data-checked codec one_file configuration_handler connection client none
      (some (encode (object (default_fields client)))) (some (encode (object port_only)))
      (default_fields client) (default_fields client) port_only
      (codes "../config/client_connection.json") refl refl refl refl
      ((codes "127.0.0.1", refl), (pos 10000, refl), (pos 123456, refl)) (λ k. ground arith)
