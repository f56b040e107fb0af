-- ===== src/Server/Tests.antt =====
-- A configuration written, read back and taken over.
use wrensong_http_server.Prelude.{◌≡◌, refl, true, false, [], ◌∷◌, some}
use wrensong_http_server.Prelude.Int.{pos}
use wrensong_http_server.Cstring.{
  codes, same, digits_onto, skip_spaces, fit_int, signed_digits, atoi,
}
use wrensong_http_server.Exec.{done}
use wrensong_http_server.Config.Problem.{Policy}
use wrensong_http_server.Config.Table.{
  Table, get_entry, get_entry_as_int, get_entry_as_bool, get, find_section, find_entry,
}
use wrensong_http_server.Config.Sink.{Sink}
use wrensong_http_server.Server.{initial_settings, read_config}

abbrev policy : Policy
policy = record { has_handler = false; exit_on_error = true }

abbrev config : Table
config = record {
  sections =
      record {
        name = codes "server";
        entries =
            record { key = codes "port"; value = codes "80" }
            ∷ record { key = codes "ipv6"; value = codes "on" }
            ∷ [];
        room = 10;
      }
      ∷ [];
  room = 10;
}

-- The port and the flag are those of the file, the threads are the default.
read_config_settings :
    read_config (some config) 5 (codes "f") initial_settings
    ≡ done (record {
      port = pos 80;
      threads = pos 16;
      ipv6 = true;
      last_config_mod_time = 5;
      the_config_path = codes "f";
    })
unfolding read_config get_entry_as_int get_entry_as_bool get_entry get find_section find_entry same
    atoi skip_spaces signed_digits digits_onto fit_int
read_config_settings = refl
